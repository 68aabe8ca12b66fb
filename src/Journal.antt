-- ===== src/Journal.antt =====
-- The accounting services: backend/src/accounting/journal.service.ts, accounts.service.ts, and the
-- endpoints that call them (journal.controller.ts, accounts.controller.ts, the command handlers).
-- A call is an action on the ledger's tables; what `DatabaseService.withActor` runs is a
-- transaction, and the actor is a field of the context.
pub mod Dto
pub mod Accounts
pub mod Calls
pub mod Outcomes
pub mod Keeps
pub mod Sound
pub mod Immutable
pub mod Balanced
pub mod Partial
mod Tests
use Prim.Native.String.{String, count}
use text.Mathlib.Text.{◌==◌ as str_eq}
use arka_erp.Base.{
  ℕ, zero, suc, ◌+◌, Bool, true, false, not, ◌&&◌, ◌||◌, Option, none, some, List, [], ◌∷◌, map,
  ltb, leb, ◌==◌, if◌then◌else◌, is_some, or_else, length,
}
use arka_erp.Base.Int.{pos}
use arka_erp.Base.Texts.{Text, codes, trim, is_truthy}
use arka_erp.Base.Tables.{find_by, update_by, count_by}
use arka_erp.Base.Effect.{
  Result, ok, err, Failure, bad_request, bad_line, unbalanced, not_found, business_rule,
  unique_violation, foreign_key, plain_error, Action, pure, throw, gets, or_throw, require, modify,
  ◌>>=◌, ◌>>◌, transaction,
}
use arka_erp.Ledger.{
  Side, Account, AccountType, Status, draft, Source, Memo, Line, Entry, Books, Context,
}
use arka_erp.Ledger.Posting.{
  insert_lines, insert_entry, check_references, live_entry, is_draft, is_posted, balanced,
  fn_post_journal_entry, fn_reverse_journal_entry,
}
use Dto.{
  LineDto, CreateJournalDto, TransferDto, CreateAccountDto, or_zero, big_int, validate_create,
  validate_transfer, validate_account, validate_reason, validate_memo,
}

abbrev pub lift : {A : Type 0} → Result A → Action Books A
lift r b = (r, b)

-- One round of the loop of `assertBalanced`: both amounts, and the rule that one is nonzero.
unfoldable pub line_amounts : ℕ → LineDto → Result (ℕ × ℕ)
line_amounts i l = elim (big_int (or_zero l.debit)) [
  | none ↦ err plain_error
  | some d ↦ elim (big_int (or_zero l.credit)) [
    | none ↦ err plain_error
    | some c ↦
        if (ltb 0 d && ltb 0 c) || (d == 0 && c == 0) then err (bad_line (i + 1)) else ok (d, c)
  ]
]

-- The loop, with the index and the two running sums.
unfoldable pub sum_lines : ℕ → ℕ → ℕ → List LineDto → Result (ℕ × ℕ)
sum_lines i debit credit [] = ok (debit, credit)
sum_lines i debit credit (l ∷ ls) = elim (line_amounts i l) [
  | err x ↦ err x
  | ok (d, c) ↦ sum_lines (i + 1) (debit + d) (credit + c) ls
]

-- `assertBalanced`
unfoldable pub assert_balanced : CreateJournalDto → Result (Unit {0})
assert_balanced dto = elim (sum_lines 0 0 0 dto.lines) [
  | err x ↦ err x
  | ok (debit, credit) ↦ if debit == credit then ok tt else err (unbalanced debit credit)
]

-- The rows of `insertLines`: `lineNo` counts from 1, and the texts become NUMERIC(78,0).
abbrev pub amount : Text → ℕ
amount t = or_else (big_int (or_zero t)) 0

abbrev pub line_rows : ℕ → List LineDto → List Line
line_rows line_no [] = []
line_rows line_no (l ∷ ls) =
    record {
      line_no = line_no;
      account_id = l.account_id;
      debit = amount l.debit;
      credit = amount l.credit;
      memo = l.memo;
      project_id = l.project_id;
    }
    ∷ line_rows (line_no + 1) ls

abbrev pub draft_entry : Context → CreateJournalDto → Entry
draft_entry ctx dto = record {
  id = ctx.new_id;
  entry_no = ctx.entry_no;
  entry_date = dto.entry_date;
  memo = Memo.written dto.memo;
  reference = dto.reference;
  source = or_else dto.source Source.manual;
  status = draft;
  fiscal_period_id = none;
  project_id = dto.project_id;
  customer_id = dto.customer_id;
  reversed_entry_id = none;
  posted_at = none;
  posted_by = none;
  created_by = ctx.actor;
  deleted_at = none;
  deleted_by = none;
  deleted_reason = none;
  lines = [];
}

-- `getById`
unfoldable pub get_by_id : ℕ → Action Books Entry
get_by_id id b = or_throw (live_entry id b) not_found b

abbrev pub insert_draft : Context → CreateJournalDto → Action Books ℕ
insert_draft ctx dto = do
  insert_entry (draft_entry ctx dto)
  insert_lines ctx.new_id (line_rows 1 dto.lines)
  pure ctx.new_id

unfoldable pub create_draft : Context → CreateJournalDto → Action Books Entry
create_draft ctx dto = do
  lift (assert_balanced dto)
  entry_id ← transaction (insert_draft ctx dto)
  get_by_id entry_id

unfoldable pub post : Context → ℕ → Action Books Entry
post ctx entry_id = do transaction (fn_post_journal_entry ctx entry_id); get_by_id entry_id

unfoldable pub reverse : Context → ℕ → Option ℕ → Option String → Action Books Entry
reverse ctx entry_id date memo = do
  result ← transaction (fn_reverse_journal_entry ctx entry_id date memo)
  get_by_id result

-- The two-legged entry of a transfer.
abbrev pub transfer_dto : Context → TransferDto → CreateJournalDto
transfer_dto ctx dto = record {
  memo = dto.memo;
  entry_date = or_else dto.entry_date ctx.today;
  reference = none;
  source = some Source.manual;
  project_id = none;
  customer_id = none;
  lines =
      record {
        account_id = dto.to_account_id;
        debit = dto.amount;
        credit = codes "0";
        memo = none;
        project_id = none;
      }
      ∷ record {
        account_id = dto.from_account_id;
        debit = codes "0";
        credit = dto.amount;
        memo = none;
        project_id = none;
      }
      ∷ [];
}

unfoldable pub transfer : Context → TransferDto → Action Books Entry
transfer ctx dto = do
  require (not (dto.from_account_id == dto.to_account_id)) bad_request
  created ← create_draft ctx (transfer_dto ctx dto)
  post ctx created.id

unfoldable pub assert_draft : ℕ → Action Books (Unit {0})
assert_draft entry_id = do
  e ← (λ b. or_throw (live_entry entry_id b) not_found b)
  require (is_draft e.status) bad_request

-- The deferred trigger `fn_check_entry_balanced`, which runs at the commit for the written lines.
unfoldable pub check_entry_balanced : ℕ → Action Books (Unit {0})
check_entry_balanced entry_id b = elim (find_by (λ e. e.id) entry_id b.entries) [
  | none ↦ (ok tt, b)
  | some e ↦
      if is_posted e.status
      then require (leb 2 (length e.lines) && balanced e.lines) business_rule b
      else (ok tt, b)
]

abbrev pub set_header : CreateJournalDto → Entry → Entry
set_header dto e = record e {
  memo = Memo.written dto.memo;
  entry_date = dto.entry_date;
  reference = dto.reference;
  source = or_else dto.source Source.manual;
  project_id = dto.project_id;
  customer_id = dto.customer_id;
}

abbrev pub clear_lines : Entry → Entry
clear_lines e = record e { lines = [] }

-- The transaction of `updateDraft`. Its statements name the entry by its id alone.
unfoldable pub write_draft : ℕ → CreateJournalDto → Action Books (Unit {0})
write_draft entry_id dto = do
  modify (λ b. record b { entries = update_by (λ e. e.id) entry_id (set_header dto) b.entries })
  check_references dto.project_id dto.customer_id
  modify (λ b. record b { entries = update_by (λ e. e.id) entry_id clear_lines b.entries })
  insert_lines entry_id (line_rows 1 dto.lines)
  check_entry_balanced entry_id

unfoldable pub update_draft : ℕ → CreateJournalDto → Action Books Entry
update_draft entry_id dto = do
  assert_draft entry_id
  lift (assert_balanced dto)
  transaction (write_draft entry_id dto)
  get_by_id entry_id

abbrev pub mark_deleted : Context → Text → Entry → Entry
mark_deleted ctx reason e = record e {
  deleted_at = some ctx.now;
  deleted_by = ctx.actor;
  deleted_reason = some (trim reason);
}

unfoldable pub delete_draft : Context → ℕ → Text → Action Books (Unit {0})
delete_draft ctx entry_id reason = do
  require (is_truthy (trim reason)) bad_request
  assert_draft entry_id
  transaction (
      modify (λ b. record b {
        entries = update_by (λ e. e.id) entry_id (mark_deleted ctx reason) b.entries;
      }))

abbrev pub mark_restored : Entry → Entry
mark_restored e =
    if is_some e.deleted_at && is_draft e.status
    then record e { deleted_at = none; deleted_by = none; deleted_reason = none }
    else e

unfoldable pub restore : ℕ → Action Books (Unit {0})
restore entry_id =
    transaction
      (modify (λ b. record b { entries = update_by (λ e. e.id) entry_id mark_restored b.entries }))
