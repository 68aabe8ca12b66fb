-- ===== src/Journal/Tests.antt =====
-- The theorems of the ledger at concrete books: two accounts, an open period, a draft and a posted
-- entry of 100.
use Prim.Native.String.{String}
use arka_erp.Base.{ℕ, ◌≡◌, ◌↔◌, ◌⊎◌, refl, true, none, some, List, [], ◌∷◌, arith}
use arka_erp.Base.Int.{ℤ, pos, ◌+ℤ◌}
use arka_erp.Base.Texts.{codes}
use arka_erp.Base.Tables.{find_by, update_by}
use arka_erp.Base.Effect.{ok, err, business_rule, after}
use arka_erp.Ledger.{
  Side, AccountType, Account, Period, open_period, Status, draft, posted, Source, Memo, Line, Entry,
  Books, Context, numeric_limit,
}
use arka_erp.Ledger.Lines.{
  delta, total_debit, total_credit, account_failure, amount_failure, line_failure, lines_failure,
}
use arka_erp.Ledger.Posting.{
  live_entry, fn_post_journal_entry, fn_reverse_journal_entry, apply_lines, fits, insert_line,
  insert_lines, insert_entry, mark_posted, mark_reversed, recomputed,
}
use arka_erp.Ledger.Sound.{IsSound}
use arka_erp.Ledger.Equation.{trial_total}
use arka_erp.Ledger.Reversal.{balances, post_then_reverse, recomputed_after_reversal}
use arka_erp.Journal.Dto.{LineDto, CreateJournalDto, TransferDto, big_int}
use arka_erp.Journal.{
  assert_balanced, sum_lines, line_amounts, line_rows, transfer, transfer_dto, assert_draft,
  write_draft,
}
use arka_erp.Journal.Calls.{Call, create, posts, reverses, run}
use arka_erp.Journal.Outcomes.{with_draft, rewritten}
use arka_erp.Journal.Sound.{run-IsSound, trial_total-run}
use arka_erp.Journal.Immutable.{booked_entry_is_final}
use arka_erp.Journal.Balanced.{AreOneSided, assert_balanced_iff}
use arka_erp.Journal.Partial.{transfer_leaves_draft, update_after_post}

abbrev account : ℕ → Side → ℤ → Account
account id side balance = record {
  id = id;
  code = "1010";
  name = "Cash";
  account_type = AccountType.asset;
  normal_balance = side;
  parent_id = none;
  is_postable = true;
  is_active = true;
  balance = balance;
  balance_version = 0;
  description = none;
  deleted_at = none;
}

abbrev line : ℕ → ℕ → ℕ → ℕ → Line
line line_no account_id debit credit = record {
  line_no = line_no;
  account_id = account_id;
  debit = debit;
  credit = credit;
  memo = none;
  project_id = none;
}

abbrev entry : ℕ → Status → Entry
entry id status = record {
  id = id;
  entry_no = id;
  entry_date = 5;
  memo = Memo.written "Sale";
  reference = none;
  source = Source.manual;
  status = status;
  fiscal_period_id = none;
  project_id = none;
  customer_id = none;
  reversed_entry_id = none;
  posted_at = none;
  posted_by = none;
  created_by = none;
  deleted_at = none;
  deleted_by = none;
  deleted_reason = none;
  lines = line 1 1 100 0 ∷ line 2 2 0 100 ∷ [];
}

abbrev year : Period
year = record { id = 1; starts_on = 1; ends_on = 365; status = open_period }

-- Entry 10 is a draft, entry 11 is booked.
abbrev books : Books
books = record {
  accounts = account 1 Side.debit (pos 100) ∷ account 2 Side.credit (pos 100) ∷ [];
  entries = entry 10 draft ∷ entry 11 posted ∷ [];
  periods = year ∷ [];
  projects = [];
  customers = [];
}

abbrev context : ℕ → Context
context new_id = record { now = 9; today = 6; actor = some 7; new_id = new_id; entry_no = new_id }

abbrev leg : ℕ → String → String → LineDto
leg account_id debit credit = record {
  account_id = account_id;
  debit = codes debit;
  credit = codes credit;
  memo = none;
  project_id = none;
}

abbrev sale : CreateJournalDto
sale = record {
  memo = "Sale";
  entry_date = 5;
  reference = none;
  source = none;
  project_id = none;
  customer_id = none;
  lines = leg 1 "250" "0" ∷ leg 2 "0" "250" ∷ [];
}

abbrev move : TransferDto
move = record {
  from_account_id = 2;
  to_account_id = 1;
  amount = codes "40";
  memo = "Move";
  entry_date = some 900;
}

abbrev history : List (Context × Call)
history =
    (context 20, posts 10)
    ∷ (context 21, reverses 11 none none)
    ∷ (context 22, create sale)
    ∷ (context 23, posts 22)
    ∷ []

books-IsSound : IsSound books
unfolding ◌+ℤ◌
books-IsSound = record {
  distinct = λ i. ground arith;
  entries = (
    ((omega arith, (omega arith, tt)), tt),
    (
      (
        (omega arith, (omega arith, tt)),
        record { even = refl; two_lines = omega arith; kept = refl },
      ),
      tt,
    ),
  );
  agree = (refl, (refl, tt));
}

run-IsSound_example : IsSound (run history books)
run-IsSound_example = run-IsSound history books books-IsSound

trial_total-run_example : trial_total (run history books).accounts ≡ pos 0
trial_total-run_example = trial_total-run history books books-IsSound

booked_entry_is_final_example :
    (find_by (λ r. r.id) 11 (run history books).entries ≡ some (entry 11 posted))
    ⊎ (find_by (λ r. r.id) 11 (run history books).entries ≡ some (mark_reversed (entry 11 posted)))
booked_entry_is_final_example = booked_entry_is_final history books 11 (entry 11 posted) refl refl

assert_balanced_iff_example : (assert_balanced sale ≡ ok tt) ↔ (
    AreOneSided (line_rows 1 sale.lines)
    × (total_debit (line_rows 1 sale.lines) ≡ total_credit (line_rows 1 sale.lines)))
assert_balanced_iff_example = assert_balanced_iff sale refl

-- What the calls below return.
abbrev once_posted : Books
once_posted = after (fn_post_journal_entry (context 20) 10) books

abbrev twice_booked : Books
twice_booked = after (fn_reverse_journal_entry (context 21) 10 none none) once_posted

posts_10 : fn_post_journal_entry (context 20) 10 books ≡ (ok 10, once_posted)
unfolding fn_post_journal_entry apply_lines fits numeric_limit ◌+ℤ◌
posts_10 = refl

reverses_10 : fn_reverse_journal_entry (context 21) 10 none none once_posted ≡ (ok 21, twice_booked)
unfolding fn_reverse_journal_entry fn_post_journal_entry apply_lines fits numeric_limit insert_entry
    insert_lines insert_line line_failure account_failure amount_failure ◌+ℤ◌
reverses_10 = refl

live_10 : live_entry 10 once_posted ≡ some (mark_posted (context 20) year (entry 10 draft))
unfolding fn_post_journal_entry apply_lines fits numeric_limit ◌+ℤ◌
live_10 = refl

move_balanced : assert_balanced (transfer_dto (context 24) move) ≡ ok tt
unfolding assert_balanced sum_lines line_amounts big_int
move_balanced = refl

move_fine :
    lines_failure books.accounts books.projects (line_rows 1 (transfer_dto (context 24) move).lines)
    ≡ none
unfolding line_failure account_failure amount_failure numeric_limit big_int
move_fine = refl

rewrite_fine :
    lines_failure once_posted.accounts once_posted.projects (line_rows 1 sale.lines) ≡ none
unfolding line_failure account_failure amount_failure numeric_limit big_int fn_post_journal_entry
    apply_lines fits ◌+ℤ◌
rewrite_fine = refl

sale_even : total_debit (line_rows 1 sale.lines) ≡ total_credit (line_rows 1 sale.lines)
unfolding big_int
sale_even = refl

draft_10 : assert_draft 10 books ≡ (ok tt, books)
unfolding assert_draft
draft_10 = refl

post_then_reverse_example : balances twice_booked.accounts ≡ pos 100 ∷ pos 100 ∷ []
post_then_reverse_example =
    post_then_reverse (context 20) (context 21) 10 none none books once_posted twice_booked 10 21
      posts_10 reverses_10

recomputed_after_reversal_example :
    recomputed 1 Side.debit twice_booked.entries
      +ℤ delta 1 Side.debit (entry 10 draft).lines
      +ℤ delta 1 Side.debit (entry 10 draft).lines
    ≡ recomputed 1 Side.debit once_posted.entries
recomputed_after_reversal_example =
    recomputed_after_reversal (context 21) 10 none none once_posted twice_booked 21 reverses_10 1
      Side.debit (mark_posted (context 20) year (entry 10 draft)) live_10

transfer_leaves_draft_example :
    transfer (context 24) move books
    ≡ (err business_rule, with_draft (context 24) (transfer_dto (context 24) move) books)
transfer_leaves_draft_example =
    transfer_leaves_draft (context 24) move books (λ e. absurd (omega (arith, e))) move_balanced
      refl move_fine refl

update_after_post_example :
    (e : Entry) × (write_draft 10 sale once_posted ≡ (
      ok tt,
      record once_posted {
        entries = update_by (λ x. x.id) 10 (rewritten sale) once_posted.entries;
      },
    ))
    × (find_by (λ x. x.id) 10 once_posted.entries ≡ some e)
    × (e.status ≡ posted)
update_after_post_example =
    update_after_post (context 20) 10 sale books once_posted 10 draft_10 posts_10 refl rewrite_fine
      (omega arith) sale_even
