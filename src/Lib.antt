-- ===== src/Lib.antt =====
-- A verification library for Arka ERP, an accounting and office system: a NestJS backend under
-- backend/src over PostgreSQL, whose scripts are under database/init, and a Vue frontend.
--
-- The parts and the files that model them:
-- - Base and its children: Boolean tests on numbers, signed integers (NUMERIC values), texts as
--   lists of code points, tables as lists of rows, and the monad of the services' calls. A call
--   reads and writes the database and returns or throws. `transaction` is
--   `DatabaseService.withActor`: work that throws is rolled back. A statement outside a transaction
--   stays when a later one throws.
-- - Ledger: the tables of database/init/04_accounting_core.sql and the functions of
--   05_posting_functions.sql. Ledger/Lines has the checks on a line, Ledger/Posting the functions
--   `fn_post_journal_entry`, `fn_reverse_journal_entry`, `fn_recompute_account_balance`;
--   Ledger/Closing has `fn_close_fiscal_period`. Ledger/Outcomes, Ledger/Written and Ledger/Closed
--   say what they do; Ledger/Sums, Ledger/Sound, Ledger/Equation and Ledger/Reversal relate entries and
--   cached balances.
-- - Journal: backend/src/accounting/journal.service.ts, function by function (`createDraft` is
--   `create_draft`, and so on). Journal/Dto has the request bodies and their validation,
--   Journal/Accounts the accounts service, Journal/Calls the command handlers and the endpoints.
--   Journal/Keeps is the induction over the endpoints that the invariants share.
-- - Envelope: backend/src/common/crypto/envelope.service.ts.
-- - Auth: Auth/Users models backend/src/users/users.service.ts, Auth/Service
--   backend/src/auth/auth.service.ts, Auth/Controller the endpoints of auth.controller.ts and
--   users.controller.ts that write. Auth/Rotation, Auth/Chains, Auth/Histories and Auth/Sessions
--   are about refresh tokens, Auth/Lockout and Auth/Factors about signing in, Auth/Permissions
--   about what a user may do.
-- - Guards: the three guards of backend/src/common/auth.
-- - Tasks: backend/src/tasks/tasks.module.ts. Payroll: backend/src/payroll/payroll.module.ts;
--   Payroll/Posted says what a posting has done, Payroll/Histories is the induction over its endpoints.
-- - Filter: backend/src/common/filters/all-exceptions.filter.ts, the statuses of errors.
-- - Columns: numbers in requests and the columns that they are written to. Customers, Hr and Projects:
--   customers.module.ts, hr.module.ts and projects.module.ts under backend/src, with the constraints
--   of their tables. Base/Trash is the soft deletion that they share, Envelope/Masks the columns of an
--   encrypted field, Base/Decimal the numbers in the codes that are drawn. The Keeps module of a
--   component is the induction over its endpoints.
-- - Reports: the trial balance of backend/src/reports/reports.service.ts and its view of
--   database/init/06_reporting_views.sql. Reports/Statements has profit and loss, the balance sheet and
--   the cash flow; Reports/Rollup and Reports/Identity relate them to the ledger.
-- - Frontend: frontend/src. Frontend/Session models stores/auth.ts, Frontend/Router router/index.ts,
--   Frontend/Client api/client.ts, Frontend/Format lib/format.ts, Frontend/JournalForm the form of
--   views/JournalNewView.vue, and Frontend/ProjectForm, Frontend/CustomerForm,
--   Frontend/PersonnelForm, Frontend/TaskForm, Frontend/UserForm and Frontend/ProfileForm those of
--   ProjectsView.vue, CustomersView.vue, PersonnelView.vue, TaskManagementView.vue, UsersView.vue and
--   ProfileView.vue there.
--   Frontend/Toman has the amounts of the forms, and Frontend/Accepted compares what a form sends with
--   what the journal service checks.
-- The accounting services write entries, which the posting functions fold into the accounts; the
-- guards stand before every endpoint, and read the tokens that the auth service issues.
--
-- Ids (UUIDs), dates and instants are numbers. Random values, the clock, and the UUIDs and
-- sequence numbers that the database draws are fields of a call's context. The day that a form
-- shows for a date is a parameter, since the driver, JSON and the time zone of the server take
-- part in it. Requests run one after another; where a service works in several transactions, the
-- theorems of Journal/Partial put another request in between. Amounts are natural numbers with the
-- limit of NUMERIC(78,0) written out. The reading of NUMERIC stands for texts other than NaN,
-- which PostgreSQL takes too. Of the foreign keys of an entry, those to projects and customers are
-- checked, and the users that act exist. A renewal that the client shares between requests that
-- run at once is one of a single request here. The functions recurse on lists, so no fuel is
-- needed, but for four: `decimal` recurses on fuel above the number, `navigate` on the pages asked
-- for (three are enough), `http` on the calls of itself (two are enough), and `up` on the length
-- of the chart, which no chain of parents without a cycle exceeds.
--
-- Parameters are what the services take from libraries: argon2, SHA-256, AES-GCM, JWT, TOTP and
-- PostgreSQL's `lower` and its reading of numbers; the client's API is one too. Not modelled: reads for
-- display, the general ledger, the dashboard, configuration, the audit triggers and the other views.
pub mod Base
pub mod Ledger
pub mod Journal
pub mod Envelope
pub mod Auth
pub mod Guards
pub mod Tasks
pub mod Filter
pub mod Payroll
pub mod Columns
pub mod Customers
pub mod Hr
pub mod Projects
pub mod Frontend
pub mod Reports
