-- ===== src/Tasks/Tests.antt =====
-- The theorems of tasks at a board with a personal and a group task.
use arka_erp.Base.{ℕ, ◌≡◌, refl, true, false, Option, none, some, List, [], ◌∷◌, is_some}
use arka_erp.Base.Texts.{codes}
use arka_erp.Base.Effect.{ok, err, forbidden}
use arka_erp.Guards.{AuthUser}
use arka_erp.Tasks.{
  Kind, personal, group, Task, todo, done, normal, Board, Moment, is_done, may_update,
  update_status, Call, sets_status, deletes, run,
}
use arka_erp.Tasks.Groups.{IsOrdered, run-IsOrdered}
use arka_erp.Tasks.Progress.{status_outcome}

abbrev task : ℕ → Kind → Option ℕ → Task
task id kind assignee_id = record {
  id = id;
  title = codes "Call";
  description = none;
  kind = kind;
  assignee_id = assignee_id;
  project_id = none;
  status = todo;
  priority = normal;
  due_date = none;
  progress_pct = 0;
  created_by = none;
  completed_at = none;
  deleted_at = none;
  deleted_by = none;
  deleted_reason = none;
}

abbrev board : Board
board = record {
  tasks = task 1 personal (some 7) ∷ task 2 group none ∷ [];
  users = 7 ∷ [];
  projects = [];
}

abbrev moment : Moment
moment = record { now = 9; actor = some 7; new_id = 3 }

abbrev member : AuthUser
member = record {
  id = 8;
  email = codes "a@b.c";
  role = codes "SALES";
  full_name = codes "A";
  permissions = [];
  mfa_enabled = false;
}

abbrev requests : List (Moment × Call)
requests = (moment, sets_status 2 done none member) ∷ (moment, deletes 1 (codes "old")) ∷ []

run-IsOrdered_example : IsOrdered (run requests board)
run-IsOrdered_example = run-IsOrdered requests board ((λ e. cc), ((λ e. refl), tt))

status_outcome_example :
    ((may_update member (task 1 personal (some 7)) ≡ false)
      → update_status moment 1 done none member board ≡ (err forbidden, board))
    × ((may_update member (task 1 personal (some 7)) ≡ true)
        → (u : Task) × ((update_status moment 1 done none member board).0 ≡ ok (some u))
          × (u.status ≡ done)
          × (is_some u.completed_at ≡ is_done done))
status_outcome_example =
    status_outcome moment 1 done none member (task 1 personal (some 7)) board refl refl
