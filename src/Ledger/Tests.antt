-- ===== src/Ledger/Tests.antt =====
-- The closing of a period with a profit of 100.
use arka_erp.Base.{ℕ, ◌≡◌, refl, true, false, none, some, [], ◌∷◌, any, arith}
use arka_erp.Base.Int.{ℤ, pos, ◌+ℤ◌, ◌-ℤ◌}
use arka_erp.Base.Tables.{find_by}
use arka_erp.Base.Effect.{ok, after}
use arka_erp.Ledger.{
  Side, AccountType, Account, Period, open_period, posted, Source, Memo, Line, Entry, Books,
  Context, numeric_limit,
}
use arka_erp.Ledger.Lines.{line_failure, account_failure, amount_failure}
use arka_erp.Ledger.Posting.{
  is_draft, insert_line, insert_lines, insert_entry, apply_lines, fits, fn_post_journal_entry,
}
use arka_erp.Ledger.Sound.{IsSound}
use arka_erp.Ledger.Closing.{is_closed, is_kept_in, close_period, post_net, fn_close_fiscal_period}
use arka_erp.Ledger.Closed.{close_ok}

abbrev account : ℕ → AccountType → Side → ℤ → Account
account id account_type normal_balance balance = record {
  id = id;
  code = "1010";
  name = "Account";
  account_type = account_type;
  normal_balance = normal_balance;
  parent_id = none;
  is_postable = true;
  is_active = true;
  balance = balance;
  balance_version = 0;
  description = none;
  deleted_at = none;
}

abbrev line : ℕ → ℕ → ℕ → Line
line account_id debit credit = record {
  line_no = account_id;
  account_id = account_id;
  debit = debit;
  credit = credit;
  memo = none;
  project_id = none;
}

abbrev sale : Entry
sale = record {
  id = 1;
  entry_no = 1;
  entry_date = 5;
  memo = Memo.written "Sale";
  reference = none;
  source = Source.manual;
  status = posted;
  fiscal_period_id = some 1;
  project_id = none;
  customer_id = none;
  reversed_entry_id = none;
  posted_at = none;
  posted_by = none;
  created_by = none;
  deleted_at = none;
  deleted_by = none;
  deleted_reason = none;
  lines = line 1 100 0 ∷ line 2 0 100 ∷ [];
}

abbrev month : Period
month = record { id = 1; starts_on = 1; ends_on = 30; status = open_period }

abbrev books : Books
books = record {
  accounts =
      account 1 AccountType.asset Side.debit (pos 100)
      ∷ account 2 AccountType.income Side.credit (pos 100)
      ∷ account 3 AccountType.equity Side.credit (pos 0)
      ∷ account 4 AccountType.equity Side.debit (pos 0)
      ∷ [];
  entries = sale ∷ [];
  periods = month ∷ [];
  projects = [];
  customers = [];
}

books-IsSound : IsSound books
unfolding ◌+ℤ◌
books-IsSound = record {
  distinct = λ i. ground arith;
  entries = (
    (
      (omega arith, (omega arith, tt)),
      record { even = refl; two_lines = omega arith; kept = refl },
    ),
    tt,
  );
  agree = (refl, (refl, (refl, (refl, tt))));
}

abbrev context : Context
context = record { now = 9; today = 31; actor = some 7; new_id = 20; entry_no = 20 }

abbrev closed_books : Books
closed_books = after (fn_close_fiscal_period context 1 3 4) books

closes : fn_close_fiscal_period context 1 3 4 books ≡ (ok (some 20), closed_books)
unfolding fn_close_fiscal_period post_net insert_entry insert_lines insert_line
    fn_post_journal_entry apply_lines fits line_failure account_failure amount_failure numeric_limit
    ◌+ℤ◌ ◌-ℤ◌
closes = refl

close_ok_example :
    IsSound closed_books
    × (p : Period) × (find_by (λ p. p.id) 1 books.periods ≡ some p)
    × (is_closed p.status ≡ false)
    × (find_by (λ p. p.id) 1 closed_books.periods ≡ some (close_period p))
    × (any (is_kept_in is_draft p) closed_books.entries ≡ false)
close_ok_example = close_ok context 1 3 4 books closed_books books-IsSound closes
