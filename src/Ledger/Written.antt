-- ===== src/Ledger/Written.antt =====
-- An entry that is written with its lines and posted at once, as payroll and the closing of a period do.
use arka_erp.Base.{ℕ, ◌≡◌, ap, ◌∙◌, false, List, [], ◌∷◌, arith}
use arka_erp.Base.Tables.{update_by}
use arka_erp.Base.Effect.{ok}
use arka_erp.Ledger.{Period, Line, Entry, Books, Context}
use arka_erp.Ledger.Sums.{is_booked}
use arka_erp.Ledger.Posting.{insert_entry, insert_lines, fn_post_journal_entry, mark_posted}
use arka_erp.Ledger.Outcomes.{add_lines, with_lines, insert_entry_ok, insert_lines_ok, post_ok}
use arka_erp.Ledger.Sound.{IsSound, lines_failure-AreKnown, insert-IsSound, post-IsSound}

with_lines-cons :
    (e : Entry) (ls : List Line) (b : Books)
    → with_lines e.id ls (record b { entries = e ∷ b.entries })
      ≡ record b { entries = add_lines ls e ∷ b.entries }
with_lines-cons e ls b = ground arith

-- A new header without lines, its lines, and its posting: when all three return, the ledger is sound
-- if it was before.
pub written-IsSound :
    (ctx : Context) (e : Entry) (ls : List Line) (b b1 b2 t : Books) {r : ℕ}
    → is_booked e.status ≡ false
    → e.lines ≡ []
    → insert_entry e b ≡ (ok tt, b1)
    → insert_lines e.id ls b1 ≡ (ok tt, b2)
    → fn_post_journal_entry ctx e.id b2 ≡ (ok r, t)
    → IsSound b
    → IsSound t
written-IsSound ctx e ls b b1 b2 t off bare inserted added done sound =
    let (new, e1) = insert_entry_ok e b inserted in
    let (fine, e2) = insert_lines_ok e.id ls b1 added in
    let at2 : b2 ≡ record b { entries = add_lines ls e ∷ b.entries } =
      e2 ∙ rw e1 (with_lines-cons e ls b) in
    let known = lines_failure-AreKnown b.accounts b.projects ls (rw e1 at fine) in
    post-IsSound ctx e.id b2 t (post_ok ctx e.id b2 done).0
      (rw at2 (insert-IsSound (add_lines ls e) b off (rw bare known) sound))

-- The entry then stands first, posted, and the periods are as they were.
pub written_entries :
    (ctx : Context) (e : Entry) (ls : List Line) (b b1 b2 t : Books) {r : ℕ}
    → insert_entry e b ≡ (ok tt, b1)
    → insert_lines e.id ls b1 ≡ (ok tt, b2)
    → fn_post_journal_entry ctx e.id b2 ≡ (ok r, t)
    → (t.periods ≡ b.periods)
      × (p : Period) × (t.entries ≡ mark_posted ctx p (add_lines ls e) ∷ b.entries)
written_entries ctx e ls b b1 b2 t inserted added done =
    let (new, e1) = insert_entry_ok e b inserted in
    let (fine, e2) = insert_lines_ok e.id ls b1 added in
    let at2 : b2 ≡ record b { entries = add_lines ls e ∷ b.entries } =
      e2 ∙ rw e1 (with_lines-cons e ls b) in
    let p = (post_ok ctx e.id b2 done).0 in
    (
      ap (λ x. x.periods) p.result ∙ ap (λ x. x.periods) at2,
      p.period,
      ap (λ x. x.entries) p.result
          ∙ ap (λ x. update_by (λ r. r.id) e.id (mark_posted ctx p.period) x.entries) at2
          ∙ ground arith,
    )
