-- ===== src/Tasks/Progress.antt =====
-- Who may set the status of a task, and what the change records.
use arka_erp.Base.{
  ℕ, ◌≡◌, refl, ap, or_else, true, false, Option, none, some, arith, if◌then◌else◌, is_some, inl,
  inr, Option-cases,
}
use arka_erp.Base.Tables.{find_by, update_by, find_by-update_by}
use arka_erp.Base.Effect.{ok, err, forbidden}
use arka_erp.Guards.{AuthUser}
use arka_erp.Tasks.{
  Task, TaskStatus, Board, Moment, is_done, if_live, live, with_status, may_update, is_percent,
  update_status,
}

live-row : (o : Option Task) (t : Task) → live o ≡ some t → (o ≡ some t) × (t.deleted_at ≡ none)
live-row none t h = absurd (ground arith)
live-row (some x) t h = elim (Option-cases x.deleted_at) [
  | inl kept ↦ let same : x ≡ t = ground (arith, kept, h) in (rw same refl, rw same at kept)
  | inr (d, gone) ↦ absurd (ground (arith, gone, h))
]

-- A task that is kept, and a progress that is given, or was before, of 100 percent at most, in
-- hundredths: one who may not change the task is refused, and the board stays. Who may, gets the row
-- with the new status, which has a time of completion exactly when the status is DONE.
pub status_outcome :
    (m : Moment) (id : ℕ) (s : TaskStatus) (progress : Option ℕ) (user : AuthUser) (t : Task)
    (b : Board)
    → live (find_by (λ t. t.id) id b.tasks) ≡ some t
    → is_percent (or_else progress t.progress_pct) ≡ true
    → ((may_update user t ≡ false) → update_status m id s progress user b ≡ (err forbidden, b))
      × ((may_update user t ≡ true)
          → (u : Task) × ((update_status m id s progress user b).0 ≡ ok (some u))
            × (u.status ≡ s)
            × (is_some u.completed_at ≡ is_done s))
unfolding update_status
status_outcome m id s progress user t b found percent = (
  λ barred. ground (arith, found, barred),
  λ allowed. (with_status m.now s progress t, changed allowed, refl, ground arith),
)
  where
    f : Task → Task
    f = if_live (with_status m.now s progress)

    row : (find_by (λ t. t.id) id b.tasks ≡ some t) × (t.deleted_at ≡ none)
    row = live-row (find_by (λ t. t.id) id b.tasks) t found

    kept_id : (x : Task) → (f x).id ≡ x.id
    kept_id x = ground arith

    written : f t ≡ with_status m.now s progress t
    written = ap (λ o. if is_some o then t else with_status m.now s progress t) row.1

    looked :
        live (find_by (λ t. t.id) id (update_by (λ t. t.id) id f b.tasks))
        ≡ some (with_status m.now s progress t)
    looked = ground (
      arith,
      find_by-update_by (λ t. t.id) id id f b.tasks (λ x _. kept_id x),
      row.0,
      row.1,
      written,
    )

    changed :
        may_update user t ≡ true
        → (update_status m id s progress user b).0 ≡ ok (some (with_status m.now s progress t))
    changed allowed = rw found (rw (allowed, percent) (rw looked refl))
