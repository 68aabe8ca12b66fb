-- ===== src/Tasks.antt =====
-- Tasks: the service and the writing endpoints of backend/src/tasks/tasks.module.ts, over the table
-- arka.tasks of database/init/10_hr_tasks_payroll.sql. Progress counts hundredths of a percent.
pub mod Groups
pub mod Progress
mod Tests
use arka_erp.Base.{
  ℕ, Bool, true, false, not, ◌&&◌, ◌||◌, Option, none, some, List, [], ◌∷◌, leb, ◌==◌,
  if◌then◌else◌, is_some, is_known, or_else, coalesce, any, length,
}
use arka_erp.Base.Texts.{Text, codes, text_eq, trim, is_truthy}
use arka_erp.Base.Tables.{find_by, update_by, count_by}
use arka_erp.Base.Effect.{
  bad_request, forbidden, check_violation, unique_violation, foreign_key, Action, pure, gets,
  or_throw, require, modify, ◌>>=◌, ◌>>◌, transaction, after,
}
use arka_erp.Guards.{AuthUser}

pub data Kind : Type 0 where
  personal group : Kind

pub data TaskStatus : Type 0 where
  todo in_progress done blocked : TaskStatus

pub data Priority : Type 0 where
  low normal high urgent : Priority

pub record Task : Type 0 where
  pub id : ℕ
  pub title : Text
  pub description : Option Text
  pub kind : Kind
  pub assignee_id : Option ℕ
  pub project_id : Option ℕ
  pub status : TaskStatus
  pub priority : Priority
  pub due_date : Option ℕ
  pub progress_pct : ℕ
  pub created_by : Option ℕ
  pub completed_at : Option ℕ
  pub deleted_at : Option ℕ
  pub deleted_by : Option ℕ
  pub deleted_reason : Option Text

-- The tasks, and the ids that their foreign keys refer to.
pub record Board : Type 0 where
  pub tasks : List Task
  pub users : List ℕ
  pub projects : List ℕ

pub record Moment : Type 0 where
  pub now : ℕ
  pub actor : Option ℕ
  pub new_id : ℕ

pub record UpsertTaskDto : Type 0 where
  pub title : Option Text
  pub description : Option Text
  pub kind : Option Kind
  pub assignee_id : Option ℕ
  pub project_id : Option ℕ
  pub status : Option TaskStatus
  pub priority : Option Priority
  pub due_date : Option ℕ
  pub progress_pct : Option ℕ

abbrev pub is_group : Kind → Bool
is_group personal = false
is_group group = true

abbrev pub is_done : TaskStatus → Bool
is_done done = true
is_done _ = false

abbrev pub unless_group : Kind → Option ℕ → Option ℕ
unless_group personal assignee = assignee
unless_group group assignee = none

abbrev pub new_task : Moment → UpsertTaskDto → Task
new_task m dto = record {
  id = m.new_id;
  title = or_else dto.title [];
  description = dto.description;
  kind = or_else dto.kind personal;
  assignee_id = unless_group (or_else dto.kind personal) dto.assignee_id;
  project_id = dto.project_id;
  status = or_else dto.status todo;
  priority = or_else dto.priority normal;
  due_date = dto.due_date;
  progress_pct = or_else dto.progress_pct 0;
  created_by = m.actor;
  completed_at = none;
  deleted_at = none;
  deleted_by = none;
  deleted_reason = none;
}

-- CHECK (progress_pct BETWEEN 0 AND 100), and @Max(100).
abbrev pub is_percent : ℕ → Bool
is_percent n = leb n 10000

-- The limits of `UpsertTaskDto`.
abbrev pub is_valid : UpsertTaskDto → Bool
is_valid dto =
    leb (length (or_else dto.title [])) 200
    && leb (length (or_else dto.description [])) 4000
    && is_percent (or_else dto.progress_pct 0)

-- The transaction of `create`: the key is unique, the progress a percentage, and the references exist.
unfoldable pub insert_task : Task → Action Board (Unit {0})
insert_task t = do
  b ← gets (λ b. b)
  require (is_percent t.progress_pct) check_violation
  require (count_by (λ x. x.id) t.id b.tasks == 0) unique_violation
  require (is_known t.assignee_id b.users && is_known t.project_id b.projects) foreign_key
  modify (λ b. record b { tasks = t ∷ b.tasks })

unfoldable pub create : Moment → UpsertTaskDto → Action Board ℕ
create m dto = do
  require (is_truthy (trim (or_else dto.title []))) bad_request
  require (is_group (or_else dto.kind personal) || is_some dto.assignee_id) bad_request
  transaction (insert_task (new_task m dto))
  pure m.new_id

-- WHERE … AND deleted_at IS NULL
abbrev pub if_live : (Task → Task) → Task → Task
if_live f t = if is_some t.deleted_at then t else f t

abbrev pub completed : ℕ → TaskStatus → Option ℕ → Option ℕ
completed now s before = if is_done s then some (or_else before now) else none

abbrev pub edited : ℕ → UpsertTaskDto → Task → Task
edited now dto t = record t {
  title = or_else dto.title t.title;
  description = coalesce dto.description t.description;
  kind = or_else dto.kind t.kind;
  assignee_id = unless_group (or_else dto.kind t.kind) (coalesce dto.assignee_id t.assignee_id);
  project_id = dto.project_id;
  status = or_else dto.status t.status;
  priority = or_else dto.priority t.priority;
  due_date = dto.due_date;
  progress_pct = or_else dto.progress_pct t.progress_pct;
  completed_at = completed now (or_else dto.status t.status) t.completed_at;
}

abbrev pub update_row : ℕ → (Task → Task) → Action Board (Unit {0})
update_row id f = modify (λ b. record b { tasks = update_by (λ t. t.id) id f b.tasks })

abbrev pub live : Option Task → Option Task
live none = none
live (some t) = if is_some t.deleted_at then none else some t

-- The references that the UPDATE would write, if it finds its row.
abbrev pub refers_well : UpsertTaskDto → Option Task → Board → Bool
refers_well dto none b = true
refers_well dto (some t) b =
    is_known (edited 0 dto t).assignee_id b.users && is_known dto.project_id b.projects

abbrev pub keeps_percent : UpsertTaskDto → Option Task → Bool
keeps_percent dto none = true
keeps_percent dto (some t) = is_percent (edited 0 dto t).progress_pct

unfoldable pub update : Moment → ℕ → UpsertTaskDto → Action Board (Option Task)
update m id dto = do
  b ← gets (λ b. b)
  transaction (
      (require (keeps_percent dto (live (find_by (λ t. t.id) id b.tasks))) check_violation
        >> require (refers_well dto (live (find_by (λ t. t.id) id b.tasks)) b) foreign_key)
      >> update_row id (if_live (edited m.now dto)))
  gets (λ b. live (find_by (λ t. t.id) id b.tasks))

abbrev pub with_status : ℕ → TaskStatus → Option ℕ → Task → Task
with_status now s progress t = record t {
  status = s;
  progress_pct = or_else progress t.progress_pct;
  completed_at = if is_done s then some now else none;
}

abbrev pub is_assignee : ℕ → Option ℕ → Bool
is_assignee id none = false
is_assignee id (some a) = a == id

-- A manager, the assignee, or anyone for a group task.
abbrev pub may_update : AuthUser → Task → Bool
may_update user t =
    any (text_eq (codes "task.manage")) user.permissions
    || is_assignee user.id t.assignee_id
    || is_group t.kind

unfoldable pub update_status :
    Moment → ℕ → TaskStatus → Option ℕ → AuthUser → Action Board (Option Task)
update_status m id s progress user = do
  b ← gets (λ b. b)
  task ← or_throw (live (find_by (λ t. t.id) id b.tasks)) bad_request
  require (may_update user task) forbidden
  require (is_percent (with_status m.now s progress task).progress_pct) check_violation
  update_row id (if_live (with_status m.now s progress))
  gets (λ b. live (find_by (λ t. t.id) id b.tasks))

abbrev pub deleted : Moment → Text → Task → Task
deleted m reason t = record t {
  deleted_at = some m.now;
  deleted_by = m.actor;
  deleted_reason = some (trim reason);
}

unfoldable pub soft_delete : Moment → ℕ → Text → Action Board (Unit {0})
soft_delete m id reason = do
  require (is_truthy (trim reason)) bad_request
  update_row id (if_live (deleted m reason))

abbrev pub restored : Task → Task
restored t = record t { deleted_at = none; deleted_by = none; deleted_reason = none }

unfoldable pub restore : ℕ → Action Board (Unit {0})
restore id = update_row id restored

-- The endpoints whose bodies are checked before the service is called.
unfoldable pub post_task : Moment → UpsertTaskDto → Action Board ℕ
post_task m dto = do require (is_valid dto) bad_request; create m dto

unfoldable pub patch_task : Moment → ℕ → UpsertTaskDto → Action Board (Option Task)
patch_task m id dto = do require (is_valid dto) bad_request; update m id dto

unfoldable pub patch_status :
    Moment → ℕ → TaskStatus → Option ℕ → AuthUser → Action Board (Option Task)
patch_status m id s progress user = do
  require (is_percent (or_else progress 0)) bad_request
  update_status m id s progress user

unfoldable pub delete_task : Moment → ℕ → Text → Action Board (Unit {0})
delete_task m id reason = do require (leb (length reason) 500) bad_request; soft_delete m id reason

-- A request that writes, and the board after it.
pub data Call : Type 0 where
  creates : UpsertTaskDto → Call
  updates : ℕ → UpsertTaskDto → Call
  sets_status : ℕ → TaskStatus → Option ℕ → AuthUser → Call
  deletes : ℕ → Text → Call
  restores : ℕ → Call

unfoldable pub handle : Moment → Call → Board → Board
handle m (creates dto) b = after (post_task m dto) b
handle m (updates id dto) b = after (patch_task m id dto) b
handle m (sets_status id s progress user) b = after (patch_status m id s progress user) b
handle m (deletes id reason) b = after (delete_task m id reason) b
handle m (restores id) b = after (restore id) b

unfoldable pub run : List (Moment × Call) → Board → Board
run [] b = b
run ((m, c) ∷ cs) b = run cs (handle m c b)
