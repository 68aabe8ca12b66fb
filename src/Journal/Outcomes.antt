-- ===== src/Journal/Outcomes.antt =====
-- What the transactions of the journal service have done when they return.
use arka_erp.Base.{
  ℕ, ◌≡◌, refl, ◌∙◌, Option, none, some, List, [], ◌∷◌, arith, ◌==◌, inl, inr, Option-cases,
  Bool-cases,
}
use arka_erp.Base.Tables.{find_by, update_by, count_by}
use arka_erp.Base.Effect.{ok, continue-eq-ok}
use arka_erp.Ledger.{draft, Entry, Books, Context}
use arka_erp.Ledger.Lines.{lines_failure}
use arka_erp.Ledger.Posting.{insert_lines, insert_entry, live_entry, check_references}
use arka_erp.Ledger.Outcomes.{
  add_lines, with_lines, insert_lines_ok, insert_entry_ok, is_draft-eq, live_entry-find,
}
use arka_erp.Journal.Dto.{CreateJournalDto}
use arka_erp.Journal.{
  line_rows, draft_entry, insert_draft, assert_draft, set_header, clear_lines, write_draft,
  check_entry_balanced,
}

-- A draft as it is inserted.
abbrev pub full_draft : Context → CreateJournalDto → Entry
full_draft ctx dto = add_lines (line_rows 1 dto.lines) (draft_entry ctx dto)

abbrev pub with_draft : Context → CreateJournalDto → Books → Books
with_draft ctx dto b = record b { entries = full_draft ctx dto ∷ b.entries }

pub with_lines-insert :
    (ctx : Context) (dto : CreateJournalDto) (b : Books)
    → with_lines ctx.new_id
        (line_rows 1 dto.lines)
        (record b { entries = draft_entry ctx dto ∷ b.entries })
      ≡ with_draft ctx dto b
with_lines-insert ctx dto b = ground arith

pub insert_draft_ok :
    (ctx : Context) (dto : CreateJournalDto) (b : Books) {r : ℕ} {t : Books}
    → insert_draft ctx dto b ≡ (ok r, t)
    → (count_by (λ e. e.id) ctx.new_id b.entries ≡ 0)
      × (lines_failure b.accounts b.projects (line_rows 1 dto.lines) ≡ none)
      × (t ≡ with_draft ctx dto b)
      × (r ≡ ctx.new_id)
insert_draft_ok ctx dto b h =
    let (_, b1, inserted, h1) = continue-eq-ok (insert_entry _ b) _ h in
    let (new, e1) = insert_entry_ok _ b inserted in
    let (_, b2, added, h2) = continue-eq-ok (insert_lines ctx.new_id _ b1) _ h1 in
    let (fine, e2) = insert_lines_ok ctx.new_id _ b1 added in
    (
      new,
      ground (arith, fine, e1),
      ground (arith, e2, e1, with_lines-insert ctx dto b),
      ground arith,
    )

pub assert_draft_ok :
    (k : ℕ) (b : Books) {r : Unit {0}} {t : Books}
    → assert_draft k b ≡ (ok r, t)
    → (e : Entry) × (find_by (λ r. r.id) k b.entries ≡ some e)
      × (e.deleted_at ≡ none)
      × (e.status ≡ draft)
      × (t ≡ b)
unfolding assert_draft
assert_draft_ok k b h = elim (Option-cases (live_entry k b)) [
  | inl missing ↦ ground arith
  | inr (e, found) ↦
      let (here, kept) = live_entry-find k b e found in
      (e, here, kept, is_draft-eq e.status (ground arith), ground arith)
]

-- The entry that `updateDraft` leaves.
abbrev pub rewritten : CreateJournalDto → Entry → Entry
rewritten dto e = record (set_header dto e) { lines = line_rows 1 dto.lines }

pub rewrite_steps :
    (k : ℕ) (dto : CreateJournalDto) (es : List Entry)
    → update_by
        (λ e. e.id)
        k
        (add_lines (line_rows 1 dto.lines))
        (update_by (λ e. e.id) k clear_lines (update_by (λ e. e.id) k (set_header dto) es))
      ≡ update_by (λ e. e.id) k (rewritten dto) es
rewrite_steps k dto [] = refl
rewrite_steps k dto (e ∷ es) = elim (Bool-cases (e.id == k)) [
  | inl hit ↦ rw (hit, hit, hit)
  | inr miss ↦ rw (miss, miss, miss, rewrite_steps k dto es)
]

check_ok :
    (k : ℕ) (b : Books) {r : Unit {0}} {t : Books} → check_entry_balanced k b ≡ (ok r, t) → t ≡ b
unfolding check_entry_balanced
check_ok k b h = ground arith

references_ok :
    (p c : Option ℕ) (b : Books) {r : Unit {0}} {t : Books}
    → check_references p c b ≡ (ok r, t)
    → t ≡ b
references_ok p c b h = ground arith

pub write_draft_ok :
    (k : ℕ) (dto : CreateJournalDto) (b : Books) {r : Unit {0}} {t : Books}
    → write_draft k dto b ≡ (ok r, t)
    → (lines_failure b.accounts b.projects (line_rows 1 dto.lines) ≡ none)
      × (t ≡ record b { entries = update_by (λ e. e.id) k (rewritten dto) b.entries })
unfolding write_draft
write_draft_ok k dto b h =
    let (_, b0, checked, h0) =
      continue-eq-ok (check_references dto.project_id dto.customer_id _) _ h in
    let e0 = references_ok dto.project_id dto.customer_id _ checked in
    let (_, b1, added, h1) = continue-eq-ok (insert_lines k _ _) _ h0 in
    let (fine, e1) = insert_lines_ok k _ _ added in
    (rw e0 at fine, check_ok k b1 h1 ∙ e1 ∙ rw (e0, rewrite_steps k dto b.entries))
