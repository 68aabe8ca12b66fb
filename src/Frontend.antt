-- ===== src/Frontend.antt =====
-- The frontend under frontend/src: what the views compute and send, the client of the API and the
-- router. The templates are not modelled.
pub mod Accepted
pub mod Client
pub mod CustomerForm
mod FormTests
pub mod Format
pub mod JournalForm
pub mod PersonnelForm
pub mod ProfileForm
pub mod ProjectForm
pub mod Router
pub mod Session
mod Tests
pub mod TaskForm
pub mod Toman
pub mod UserForm
