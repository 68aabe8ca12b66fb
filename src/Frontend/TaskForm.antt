-- ===== src/Frontend/TaskForm.antt =====
-- The list and the form of frontend/src/views/TaskManagementView.vue, from the form to the request
-- that creates a task and back. An empty choice or date is `none`; dates are numbers, and the
-- day that the form shows of one is a parameter.
use arka_erp.Base.{
  leb, length, ℕ, ◌≡◌, refl, sym, &&-eq-true, Bool, true, false, ◌&&◌, ◌||◌, Option, none, some,
  List, [], ◌∷◌, or_else, coalesce, filter, if◌then◌else◌, is_some, is_known, arith, inl, inr,
  Bool-cases,
}
use arka_erp.Base.Texts.{Text, trim, is_truthy}
use arka_erp.Base.Tables.{count_by}
use arka_erp.Base.Effect.{ok}
use arka_erp.Tasks.{
  post_task, Kind, personal, group, TaskStatus, todo, Priority, normal, Task, Board, Moment,
  UpsertTaskDto, is_group, unless_group, new_task, insert_task, create, completed, edited,
}
use arka_erp.Tasks.Groups.{Unassigned}
use arka_erp.Frontend.Toman.{given, described, shown_day}

abbrev pub same_kind : Kind → Kind → Bool
same_kind personal personal = true
same_kind group group = true
same_kind _ _ = false

-- `filtered`: the empty filter shows all.
abbrev pub filtered : Option Kind → List Task → List Task
filtered none rows = rows
filtered (some k) rows = filter (λ t. same_kind t.kind k) rows

pub record Form : Type 0 where
  pub title : Text
  pub description : Text
  pub kind : Kind
  pub assignee_id : Option ℕ
  pub project_id : Option ℕ
  pub priority : Priority
  pub status : TaskStatus
  pub due_date : Option ℕ

abbrev pub blank : Form
blank = record {
  title = [];
  description = [];
  kind = personal;
  assignee_id = none;
  project_id = none;
  priority = normal;
  status = todo;
  due_date = none;
}

abbrev pub open_edit : (ℕ → ℕ) → Task → Form
open_edit day_of t = record {
  title = t.title;
  description = or_else t.description [];
  kind = t.kind;
  assignee_id = t.assignee_id;
  project_id = t.project_id;
  priority = t.priority;
  status = t.status;
  due_date = shown_day day_of t.due_date;
}

abbrev pub payload : Form → UpsertTaskDto
payload form = record {
  title = some form.title;
  description = given form.description;
  kind = some form.kind;
  assignee_id = unless_group form.kind form.assignee_id;
  project_id = form.project_id;
  status = some form.status;
  priority = some form.priority;
  due_date = form.due_date;
  progress_pct = none;
}

-- What `save` sends, if it sends anything.
unfoldable pub save : Form → Option UpsertTaskDto
save form =
    if is_truthy form.title && (is_group form.kind || is_some form.assignee_id)
    then some (payload form)
    else none

or_else-given : (s : Text) → or_else (given s) [] ≡ s
or_else-given [] = refl
or_else-given (c ∷ s) = refl

unless_group-twice :
    (k : Kind) (a : Option ℕ) → unless_group k (unless_group k a) ≡ unless_group k a
unless_group-twice personal a = refl
unless_group-twice group a = refl

unless_group-some :
    (k : Kind) (a : Option ℕ)
    → (is_group k || is_some a) ≡ true
    → (is_group k || is_some (unless_group k a)) ≡ true
unless_group-some personal a h = h
unless_group-some group a h = h

-- A form that sends a request, whose title is more than blanks, and whose texts are within the limits
-- of the API: with a new id, and where the user and the project exist, the task is created, and opened
-- in the form again it is what was entered, but for a user who was chosen for a group's task, and with
-- the due date as the form shows it.
pub open_edit-save :
    (day_of : ℕ → ℕ) (m : Moment) (form : Form) (dto : UpsertTaskDto) (b : Board)
    → save form ≡ some dto
    → is_truthy (trim form.title) ≡ true
    → leb (length form.title) 200 ≡ true
    → leb (length form.description) 4000 ≡ true
    → count_by (λ t. t.id) m.new_id b.tasks ≡ 0
    → is_known (unless_group form.kind form.assignee_id) b.users ≡ true
    → is_known form.project_id b.projects ≡ true
    → (post_task m dto b ≡ (ok m.new_id, record b { tasks = new_task m dto ∷ b.tasks }))
      × (open_edit day_of (new_task m dto) ≡ record form {
        assignee_id = unless_group form.kind form.assignee_id;
        due_date = shown_day day_of form.due_date;
      })
unfolding save post_task create insert_task
open_edit-save day_of m form dto b sent named short brief fresh user project =
    elim (Bool-cases (is_truthy form.title && (is_group form.kind || is_some form.assignee_id))) [
      | inl good ↦
          let same : dto ≡ payload form = ground (arith, good, sent) in
          let chosen =
            &&-eq-true (is_truthy form.title) (is_group form.kind || is_some form.assignee_id)
              good in
          let assigned = unless_group-some form.kind form.assignee_id chosen.1 in
          let again = unless_group-twice form.kind form.assignee_id in
          rw same (
            rw
                (
                  or_else-given form.description,
                  short,
                  brief,
                  named,
                  assigned,
                  fresh,
                  again,
                  user,
                  project,
                )
                refl,
            rw (again, or_else-given form.description) refl,
          )
      | inr bad ↦ ground (arith, bad, sent)
    ]

coalesce-same : (o : Option ℕ) → coalesce o o ≡ o
coalesce-same none = refl
coalesce-same (some n) = refl

-- A task that is opened in the form and saved as it is keeps all but its due date, which is the day
-- that the form shows, and its completion, which is recorded now if the task is done and it was not.
pub edited-open_edit :
    (day_of : ℕ → ℕ) (now : ℕ) (t : Task)
    → Unassigned t
    → edited now (payload (open_edit day_of t)) t ≡ record t {
      due_date = shown_day day_of t.due_date;
      completed_at = completed now t.status t.completed_at;
    }
edited-open_edit day_of now t ordered =
    rw (described t.description, assignee t.kind t.assignee_id ordered) refl
  where
    assignee :
        (k : Kind) (a : Option ℕ)
        → (is_group k ≡ true → a ≡ none)
        → unless_group k (coalesce (unless_group k a) a) ≡ a
    assignee personal a h = coalesce-same a
    assignee group a h = sym (h refl)
