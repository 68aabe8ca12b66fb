-- ===== src/Reports/Tests.antt =====
-- The trial balance of two accounts and a draft, and the statements of a small ledger.
use arka_erp.Base.{ℕ, ◌≡◌, ◌↔◌, refl, true, false, none, some, List, [], ◌∷◌, inl, inr, arith}
use arka_erp.Base.Int.{pos, ◌+ℤ◌, ◌-ℤ◌}
use arka_erp.Ledger.{Side, Account, AccountType, Source, Memo, Line, Entry, draft, posted, Books}
use arka_erp.Ledger.Lines.{total_debit, total_credit}
use arka_erp.Reports.{all_lines, trial_balance}
use arka_erp.Ledger.Sound.{IsSound}
use arka_erp.Reports.Statements.{up, balance_sheet}
use arka_erp.Reports.Identity.{balance_sheet_balanced}
use arka_erp.Reports.Balanced.{trial_balance_iff}

abbrev account : ℕ → Account
account id = record {
  id = id;
  code = "1010";
  name = "Cash";
  account_type = AccountType.asset;
  normal_balance = Side.debit;
  parent_id = none;
  is_postable = true;
  is_active = true;
  balance = pos 0;
  balance_version = 0;
  description = none;
  deleted_at = none;
}

abbrev line : ℕ → ℕ → ℕ → Line
line account_id debit credit = record {
  line_no = account_id;
  account_id = account_id;
  debit = debit;
  credit = credit;
  memo = none;
  project_id = none;
}

abbrev entry : Entry
entry = record {
  id = 1;
  entry_no = 1;
  entry_date = 5;
  memo = Memo.written "Sale";
  reference = none;
  source = Source.manual;
  status = draft;
  fiscal_period_id = none;
  project_id = none;
  customer_id = none;
  reversed_entry_id = none;
  posted_at = none;
  posted_by = none;
  created_by = none;
  deleted_at = none;
  deleted_by = none;
  deleted_reason = none;
  lines = line 1 100 0 ∷ line 2 0 100 ∷ [];
}

abbrev books : Books
books = record {
  accounts = account 1 ∷ account 2 ∷ [];
  entries = entry ∷ [];
  periods = [];
  projects = [];
  customers = [];
}

trial_balance_iff_example :
    ((trial_balance books).balanced ≡ true)
    ↔ (total_debit (all_lines books.entries) ≡ total_credit (all_lines books.entries))
trial_balance_iff_example = trial_balance_iff books (refl, (refl, tt))

-- A chart of a header, cash below it and an income account, with one sale posted.
abbrev chart : List Account
chart =
    record (account 1) { is_postable = false }
    ∷ record (account 2) { parent_id = some 1; balance = pos 100 }
    ∷ record (account 3) {
      account_type = AccountType.income;
      normal_balance = Side.credit;
      balance = pos 100;
    }
    ∷ []

abbrev sale : Entry
sale = record entry { status = posted; lines = line 2 100 0 ∷ line 3 0 100 ∷ [] }

abbrev ledger : Books
ledger = record {
  accounts = chart;
  entries = sale ∷ [];
  periods = [];
  projects = [];
  customers = [];
}

ledger-IsSound : IsSound ledger
unfolding ◌+ℤ◌
ledger-IsSound = record {
  distinct = λ i. ground arith;
  entries = (
    (
      (omega arith, (omega arith, tt)),
      record { even = refl; two_lines = omega arith; kept = refl },
    ),
    tt,
  );
  agree = (refl, (refl, (refl, tt)));
}

sheet_example_test : balance_sheet ledger ≡ record {
  assets = pos 100;
  liabilities = pos 0;
  equity_total = pos 0;
  net_income = pos 100;
  balanced = true;
}
unfolding balance_sheet ◌+ℤ◌ ◌-ℤ◌ up
sheet_example_test = refl

balance_sheet_balanced_example : (balance_sheet ledger).balanced ≡ true
balance_sheet_balanced_example =
    balance_sheet_balanced ledger ledger-IsSound (refl, tt)
      (
        record { side = refl; read = inr refl; leaf = λ listed. ground arith },
        (
          record { side = refl; read = inl refl; leaf = λ listed. (refl, (refl, (refl, tt))) },
          (record { side = refl; read = inl refl; leaf = λ listed. ground arith }, tt),
        ),
      )
