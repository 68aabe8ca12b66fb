-- ===== src/Tasks/Groups.antt =====
-- Tasks of the whole team have no assignee.
use arka_erp.Base.{
  leb, length, ℕ, ◌≡◌, refl, true, Option, none, List, [], ◌∷◌, is_some, is_known, or_else,
  coalesce, All, inl, inr, Bool-cases, ◌==◌, ◌&&◌, ◌||◌,
}
use arka_erp.Base.Texts.{trim, is_truthy}
use arka_erp.Base.Tables.{find_by, count_by, All-update_by}
use arka_erp.Base.Effect.{
  check_violation, unique_violation, modify, Action, ◌>>◌, pure, require, or_throw, gets,
  transaction, after, bad_request, forbidden, foreign_key, Keeps, >>=-Keeps, transaction-Keeps,
  or_throw-Keeps,
}
use arka_erp.Guards.{AuthUser}
use arka_erp.Tasks.{
  is_percent, is_valid, keeps_percent, post_task, patch_task, patch_status, delete_task, Kind,
  personal, group, Task, TaskStatus, Board, Moment, UpsertTaskDto, is_group, unless_group, new_task,
  insert_task, create, if_live, edited, update_row, live, refers_well, update, with_status,
  may_update, update_status, deleted, soft_delete, restored, restore, Call, creates, updates,
  sets_status, deletes, restores, handle, run,
}

abbrev pub Unassigned : Task → Type 0
Unassigned t = is_group t.kind ≡ true → t.assignee_id ≡ none

abbrev pub IsOrdered : Board → Type 0
IsOrdered b = All Unassigned b.tasks

unless_group-none : (k : Kind) (a : Option ℕ) → is_group k ≡ true → unless_group k a ≡ none
unless_group-none personal a h = cc
unless_group-none group a h = refl

if_live-Unassigned :
    (f : Task → Task) (t : Task)
    → (Unassigned t → Unassigned (f t))
    → Unassigned t
    → Unassigned (if_live f t)
if_live-Unassigned f t step h = elim (Bool-cases (is_some t.deleted_at)) [
  | inl gone ↦ rw gone h
  | inr here ↦ rw here (step h)
]

update_row-Keeps :
    (id : ℕ) (f : Task → Task)
    → ((t : Task) → Unassigned t → Unassigned (f t))
    → Keeps IsOrdered (update_row id f)
update_row-Keeps id f step b h =
    All-update_by (λ t. t.id) Unassigned id f b.tasks h (λ t _ was. step t was)

module _ (m : Moment) where
  create-Keeps : (dto : UpsertTaskDto) → Keeps IsOrdered (create m dto)
  unfolding create insert_task
  create-Keeps dto =
      >>=-Keeps IsOrdered (require (is_truthy (trim (or_else dto.title []))) bad_request)
        (λ _.
          require (is_group (or_else dto.kind personal) || is_some dto.assignee_id) bad_request
          >> (transaction (insert_task (new_task m dto)) >> pure m.new_id))
        (λ _ q. q)
        (λ _.
          >>=-Keeps IsOrdered
            (require (is_group (or_else dto.kind personal) || is_some dto.assignee_id) bad_request)
            (λ _. transaction (insert_task (new_task m dto)) >> pure m.new_id) (λ _ q. q)
            (λ _.
              >>=-Keeps IsOrdered (transaction (insert_task (new_task m dto))) (λ _. pure m.new_id)
                (transaction-Keeps IsOrdered (insert_task (new_task m dto)) inserted) (λ _ _ q. q)))
    where
      fine : Unassigned (new_task m dto)
      fine shared = unless_group-none (or_else dto.kind personal) dto.assignee_id shared

      placed :
          (b : Board)
          → IsOrdered b
          → IsOrdered (
              after
                (require (count_by (λ x. x.id) m.new_id b.tasks == 0) unique_violation
                  >> (require
                        (is_known (new_task m dto).assignee_id b.users
                          && is_known dto.project_id b.projects)
                        foreign_key
                      >> modify (λ b. record b { tasks = new_task m dto ∷ b.tasks })))
                b)
      placed b h = elim (Bool-cases (count_by (λ x. x.id) m.new_id b.tasks == 0)) [
        | inl new ↦
            elim (Bool-cases (
              is_known (new_task m dto).assignee_id b.users
              && is_known dto.project_id b.projects)) [
                | inl known ↦ rw (new, known, after) (fine, h)
                | inr unknown ↦ rw (new, unknown, after) h
              ]
        | inr old ↦ rw (old, after) h
      ]

      inserted : Keeps IsOrdered (insert_task (new_task m dto))
      inserted b h = elim (Bool-cases (is_percent (or_else dto.progress_pct 0))) [
        | inl percent ↦ rw (percent, after, insert_task) (placed b h)
        | inr over ↦ rw (over, after, insert_task) h
      ]

  update-Keeps : (id : ℕ) (dto : UpsertTaskDto) → Keeps IsOrdered (update m id dto)
  unfolding update
  update-Keeps id dto b h =
      >>=-Keeps IsOrdered (transaction (checked >> update_row id (if_live (edited m.now dto))))
        (λ _. gets (λ b. live (find_by (λ t. t.id) id b.tasks)))
        (transaction-Keeps IsOrdered (checked >> update_row id (if_live (edited m.now dto))) (
          >>=-Keeps IsOrdered checked (λ _. update_row id (if_live (edited m.now dto)))
            checked-Keeps
            (λ _. update_row-Keeps id (if_live (edited m.now dto)) (λ t.
              if_live-Unassigned (edited m.now dto) t (λ _ shared.
                unless_group-none (or_else dto.kind t.kind) (coalesce dto.assignee_id t.assignee_id)
                  shared)))))
        (λ _ _ q. q) b h
    where
      checked : Action Board (Unit {0})
      checked =
          require (keeps_percent dto (live (find_by (λ t. t.id) id b.tasks))) check_violation
          >> require (refers_well dto (live (find_by (λ t. t.id) id b.tasks)) b) foreign_key

      checked-Keeps : Keeps IsOrdered checked
      checked-Keeps =
          >>=-Keeps IsOrdered
            (require (keeps_percent dto (live (find_by (λ t. t.id) id b.tasks))) check_violation)
            (λ _. require (refers_well dto (live (find_by (λ t. t.id) id b.tasks)) b) foreign_key)
            (λ _ q. q) (λ _ _ q. q)

  update_status-Keeps :
      (id : ℕ) (s : TaskStatus) (progress : Option ℕ) (user : AuthUser)
      → Keeps IsOrdered (update_status m id s progress user)
  unfolding update_status
  update_status-Keeps id s progress user b =
      >>=-Keeps IsOrdered (or_throw (live (find_by (λ t. t.id) id b.tasks)) bad_request)
        (λ task.
          require (may_update user task) forbidden
          >> (require (is_percent (with_status m.now s progress task).progress_pct) check_violation
              >> written))
        (or_throw-Keeps IsOrdered (live (find_by (λ t. t.id) id b.tasks)) bad_request)
        (λ task.
          >>=-Keeps IsOrdered (require (may_update user task) forbidden)
            (λ _.
              require (is_percent (with_status m.now s progress task).progress_pct) check_violation
              >> written)
            (λ _ q. q)
            (λ _.
              >>=-Keeps IsOrdered
                (require (is_percent (with_status m.now s progress task).progress_pct)
                  check_violation)
                (λ _. written) (λ _ q. q)
                (λ _.
                  update_row-Keeps id (if_live (with_status m.now s progress))
                    (λ t. if_live-Unassigned (with_status m.now s progress) t (λ q. q)))))
        b
    where
      written : Action Board (Option Task)
      written =
          update_row id (if_live (with_status m.now s progress))
          >> gets (λ b. live (find_by (λ t. t.id) id b.tasks))

  handle-IsOrdered : (c : Call) (b : Board) → IsOrdered b → IsOrdered (handle m c b)
  unfolding handle soft_delete restore post_task patch_task patch_status delete_task
  handle-IsOrdered (creates dto) b h =
      >>=-Keeps IsOrdered (require (is_valid dto) bad_request) (λ _. create m dto) (λ _ q. q)
        (λ _. create-Keeps dto) b h
  handle-IsOrdered (updates id dto) b h =
      >>=-Keeps IsOrdered (require (is_valid dto) bad_request) (λ _. update m id dto) (λ _ q. q)
        (λ _. update-Keeps id dto) b h
  handle-IsOrdered (sets_status id s progress user) b h =
      >>=-Keeps IsOrdered (require (is_percent (or_else progress 0)) bad_request)
        (λ _. update_status m id s progress user) (λ _ q. q)
        (λ _. update_status-Keeps id s progress user) b h
  handle-IsOrdered (deletes id reason) b h =
      >>=-Keeps IsOrdered (require (leb (length reason) 500) bad_request)
        (λ _. soft_delete m id reason) (λ _ q. q)
        (λ _.
          >>=-Keeps IsOrdered (require (is_truthy (trim reason)) bad_request)
            (λ _. update_row id (if_live (deleted m reason))) (λ _ q. q)
            (λ _.
              update_row-Keeps id (if_live (deleted m reason))
                (λ t. if_live-Unassigned (deleted m reason) t (λ q. q))))
        b h
  handle-IsOrdered (restores id) b h = update_row-Keeps id restored (λ t q. q) b h

-- If no group task has an assignee, then after any sequence of requests to the endpoints of tasks
-- none has.
pub run-IsOrdered : (cs : List (Moment × Call)) (b : Board) → IsOrdered b → IsOrdered (run cs b)
unfolding run
run-IsOrdered [] b h = h
run-IsOrdered ((m, c) ∷ cs) b h = run-IsOrdered cs (handle m c b) (handle-IsOrdered m c b h)
