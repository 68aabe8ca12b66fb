-- ===== src/Journal/Partial.antt =====
-- Calls of the journal service that are made of several committed steps: what stays when a later
-- step fails, and when another request comes in between.
use arka_erp.Base.{
  ℕ, ◌≤◌, ◌≡◌, ◌≢◌, refl, ◌∙◌, true, false, none, some, ◌∷◌, arith, ◌==◌, length, or_else,
}
use arka_erp.Base.Tables.{find_by, update_by, count_by, find_by-update_by}
use arka_erp.Base.Effect.{ok, err, business_rule}
use arka_erp.Ledger.{posted, Entry, Books, Context}
use arka_erp.Ledger.Lines.{lines_failure, total_debit, total_credit}
use arka_erp.Ledger.Posting.{
  refers, period_for_date, mark_posted, fn_post_journal_entry, insert_entry,
}
use arka_erp.Ledger.Outcomes.{post_ok, live_entry-find, insert_lines_lem}
use arka_erp.Journal.Dto.{CreateJournalDto, TransferDto}
use arka_erp.Journal.Outcomes.{full_draft, with_draft, with_lines-insert, rewritten, rewrite_steps}
use arka_erp.Journal.{
  create_draft, post, transfer, transfer_dto, insert_draft, draft_entry, assert_draft, write_draft,
  line_rows, get_by_id, assert_balanced, set_header, clear_lines, check_entry_balanced,
}

insert_draft_lem :
    (ctx : Context) (dto : CreateJournalDto) (b : Books)
    → count_by (λ r. r.id) ctx.new_id b.entries ≡ 0
    → refers dto.project_id dto.customer_id b ≡ true
    → lines_failure b.accounts b.projects (line_rows 1 dto.lines) ≡ none
    → insert_draft ctx dto b ≡ (ok ctx.new_id, with_draft ctx dto b)
unfolding insert_entry
insert_draft_lem ctx dto b new known fine = ground (
  arith,
  new,
  known,
  insert_lines_lem ctx.new_id (line_rows 1 dto.lines)
      (record b { entries = draft_entry ctx dto ∷ b.entries }) fine,
  with_lines-insert ctx dto b,
)

get_draft :
    (ctx : Context) (dto : CreateJournalDto) (b : Books)
    → get_by_id ctx.new_id (with_draft ctx dto b) ≡ (ok (full_draft ctx dto), with_draft ctx dto b)
unfolding get_by_id
get_draft ctx dto b = ground arith

pub create_draft_returns :
    (ctx : Context) (dto : CreateJournalDto) (b : Books)
    → assert_balanced dto ≡ ok tt
    → count_by (λ r. r.id) ctx.new_id b.entries ≡ 0
    → refers dto.project_id dto.customer_id b ≡ true
    → lines_failure b.accounts b.projects (line_rows 1 dto.lines) ≡ none
    → create_draft ctx dto b ≡ (ok (full_draft ctx dto), with_draft ctx dto b)
unfolding create_draft
create_draft_returns ctx dto b even new known fine =
    rw (even, insert_draft_lem ctx dto b new known fine) (get_draft ctx dto b)

post_dateless :
    (ctx : Context) (dto : TransferDto) (b : Books)
    → period_for_date (or_else dto.entry_date ctx.today) b.periods ≡ none
    → post ctx ctx.new_id (with_draft ctx (transfer_dto ctx dto) b)
      ≡ (err business_rule, with_draft ctx (transfer_dto ctx dto) b)
unfolding post fn_post_journal_entry
post_dateless ctx dto b dateless = ground (arith, dateless)

-- A transfer between two accounts that take lines, on a date that is in no fiscal period: it fails
-- with the posting function's error, and its draft stays in the journal.
pub transfer_leaves_draft :
    (ctx : Context) (dto : TransferDto) (b : Books)
    → dto.from_account_id ≢ dto.to_account_id
    → assert_balanced (transfer_dto ctx dto) ≡ ok tt
    → count_by (λ r. r.id) ctx.new_id b.entries ≡ 0
    → lines_failure b.accounts b.projects (line_rows 1 (transfer_dto ctx dto).lines) ≡ none
    → period_for_date (or_else dto.entry_date ctx.today) b.periods ≡ none
    → transfer ctx dto b ≡ (err business_rule, with_draft ctx (transfer_dto ctx dto) b)
unfolding transfer
transfer_leaves_draft ctx dto b apart even new fine dateless =
    let differ : (dto.from_account_id == dto.to_account_id) ≡ false = ground (arith, apart) in
    rw (differ, create_draft_returns ctx (transfer_dto ctx dto) b even new refl fine)
      (post_dateless ctx dto b dateless)

-- The trigger lets balanced lines on a posted entry through.
check_passes :
    (k : ℕ) (b : Books) (e : Entry)
    → find_by (λ r. r.id) k b.entries ≡ some e
    → 2 ≤ length e.lines
    → total_debit e.lines ≡ total_credit e.lines
    → check_entry_balanced k b ≡ (ok tt, b)
unfolding check_entry_balanced
check_passes k b e found two even = ground (arith, found)

write_draft_lem :
    (k : ℕ) (dto : CreateJournalDto) (b : Books) (e : Entry)
    → find_by (λ r. r.id) k b.entries ≡ some e
    → refers dto.project_id dto.customer_id b ≡ true
    → lines_failure b.accounts b.projects (line_rows 1 dto.lines) ≡ none
    → 2 ≤ length (line_rows 1 dto.lines)
    → total_debit (line_rows 1 dto.lines) ≡ total_credit (line_rows 1 dto.lines)
    → write_draft k dto b
      ≡ (ok tt, record b { entries = update_by (λ x. x.id) k (rewritten dto) b.entries })
unfolding write_draft
write_draft_lem k dto b e found known fine two even =
    let cleared : Books = record b {
      entries =
          update_by (λ x. x.id) k clear_lines (update_by (λ x. x.id) k (set_header dto) b.entries);
    } in
    let written : Books = record b {
      entries = update_by (λ x. x.id) k (rewritten dto) b.entries;
    } in
    let looked : find_by (λ r. r.id) k written.entries ≡ some (rewritten dto e) =
      find_by-update_by (λ r. r.id) k k (rewritten dto) b.entries (λ _ _. refl)
      ∙ ground (arith, found) in
    rw
      (
        known,
        insert_lines_lem k (line_rows 1 dto.lines) cleared fine,
        rewrite_steps k dto b.entries,
      )
      (check_passes k written (rewritten dto e) looked two even)

-- The transaction of `updateDraft` names the entry by its id alone. Between the check that the entry
-- is a draft and this transaction, another request may post the entry: then the transaction, given
-- balanced lines, on accounts that take them and projects and a customer that exist, returns, and the posted entry has the new lines, while the accounts keep the
-- balances that the old lines made.
pub update_after_post :
    (ctx : Context) (k : ℕ) (dto : CreateJournalDto) (b t : Books) (r : ℕ)
    → assert_draft k b ≡ (ok tt, b)
    → fn_post_journal_entry ctx k b ≡ (ok r, t)
    → refers dto.project_id dto.customer_id t ≡ true
    → lines_failure t.accounts t.projects (line_rows 1 dto.lines) ≡ none
    → 2 ≤ length (line_rows 1 dto.lines)
    → total_debit (line_rows 1 dto.lines) ≡ total_credit (line_rows 1 dto.lines)
    → (e : Entry) × (write_draft k dto t
        ≡ (ok tt, record t { entries = update_by (λ x. x.id) k (rewritten dto) t.entries }))
      × (find_by (λ x. x.id) k t.entries ≡ some e)
      × (e.status ≡ posted)
update_after_post ctx k dto b t r before done known fine two even =
    let p = (post_ok ctx k b done).0 in
    let (here, _) = live_entry-find k b p.entry p.found in
    let now : find_by (λ x. x.id) k t.entries ≡ some (mark_posted ctx p.period p.entry) =
      rw p.result (
        find_by-update_by (λ x. x.id) k k (mark_posted ctx p.period) b.entries (λ _ _. refl)
        ∙ ground (arith, here)) in
    (
      mark_posted ctx p.period p.entry,
      write_draft_lem k dto t (mark_posted ctx p.period p.entry) now known fine two even,
      now,
      refl,
    )
