-- ===== src/Reports/Statements.antt =====
-- The statements of backend/src/reports/reports.service.ts: profit and loss, the balance sheet and
-- the cash flow, over the views arka.v_account_rollup, arka.v_profit_and_loss and
-- arka.v_cash_flow_summary. Codes, names and the order of rows are left out.
use arka_erp.Base.{
  ℕ, zero, suc, Bool, true, false, not, ◌&&◌, Option, none, some, List, [], ◌∷◌, any, leb, ◌==◌,
  if◌then◌else◌, is_some, length,
}
use arka_erp.Base.Int.{ℤ, pos, ◌+ℤ◌, ◌-ℤ◌, pos_part, neg_part}
use arka_erp.Base.Tables.{find_by}
use arka_erp.Ledger.{
  Side, AccountType, asset, liability, equity, income, expense, Account, Entry, Books,
}
use arka_erp.Ledger.Lines.{delta}
use arka_erp.Ledger.Posting.{is_posted}

abbrev pub is_live : Account → Bool
is_live a = not (is_some a.deleted_at)

abbrev pub live_account : Option Account → Option Account
live_account none = none
live_account (some a) = if is_live a then some a else none

abbrev pub parent_of : List Account → Option ℕ → Option Account
parent_of accts none = none
parent_of accts (some p) = live_account (find_by (λ a. a.id) p accts)

-- `WITH RECURSIVE up`: the account and its ancestors, for as many steps as the fuel.
unfoldable pub up : ℕ → List Account → Option Account → List ℕ
up fuel accts none = []
up zero accts (some a) = a.id ∷ []
up (suc fuel) accts (some a) = a.id ∷ up fuel accts (parent_of accts a.parent_id)

-- The balances of the accounts that have one of these ancestors.
abbrev pub rollup_over : ℕ → List Account → ℕ → List Account → ℤ
rollup_over fuel accts i [] = pos 0
rollup_over fuel accts i (u ∷ us) =
    (if is_live u && any (λ j. j == i) (up fuel accts (some u)) then u.balance else pos 0)
    +ℤ rollup_over fuel accts i us

-- `v_account_rollup`. A chain of parents without a cycle is no longer than the chart.
abbrev pub rollup : List Account → ℕ → ℤ
rollup accts i = rollup_over (length accts) accts i accts

abbrev pub is_type : AccountType → AccountType → Bool
is_type asset asset = true
is_type liability liability = true
is_type equity equity = true
is_type income income = true
is_type expense expense = true
is_type _ _ = false

-- The rows of the balance sheet.
abbrev pub is_listed : Account → Bool
is_listed a = is_live a && is_some a.parent_id && a.is_postable

-- `sum(t)`: the rollups of the accounts of a type.
abbrev pub sheet_sum : List Account → AccountType → List Account → ℤ
sheet_sum accts t [] = pos 0
sheet_sum accts t (a ∷ cs) =
    (if is_type t a.account_type && is_listed a then rollup accts a.id else pos 0)
    +ℤ sheet_sum accts t cs

-- `$1::date IS NULL OR entry_date >= $1::date`, and the upper bound.
abbrev pub is_from : Option ℕ → ℕ → Bool
is_from none day = true
is_from (some from) day = leb from day

abbrev pub is_until : Option ℕ → ℕ → Bool
is_until none day = true
is_until (some to) day = leb day to

-- je.status = 'POSTED' AND je.deleted_at IS NULL, in a range of dates.
abbrev pub counts : Option ℕ → Option ℕ → Entry → Bool
counts from to e =
    is_posted e.status
    && not (is_some e.deleted_at)
    && is_from from e.entry_date
    && is_until to e.entry_date

-- What the entries that count add to an account, on one side.
abbrev pub posted_sum : Option ℕ → Option ℕ → ℕ → Side → List Entry → ℤ
posted_sum from to i s [] = pos 0
posted_sum from to i s (e ∷ es) =
    (if counts from to e then delta i s e.lines else pos 0) +ℤ posted_sum from to i s es

-- The amount of `v_profit_and_loss`, SUM over its rows of one account.
abbrev pub income_of : Option ℕ → Option ℕ → List Entry → Account → ℤ
income_of from to es a =
    if is_type income a.account_type && is_live a
    then posted_sum from to a.id Side.credit es
    else pos 0

abbrev pub expense_of : Option ℕ → Option ℕ → List Entry → Account → ℤ
expense_of from to es a =
    if is_type expense a.account_type && is_live a
    then posted_sum from to a.id Side.debit es
    else pos 0

abbrev pub sum_of : (Account → ℤ) → List Account → ℤ
sum_of f [] = pos 0
sum_of f (a ∷ cs) = f a +ℤ sum_of f cs

pub record ProfitAndLoss : Type 0 where
  pub total_income : ℤ
  pub total_expense : ℤ
  pub net_profit : ℤ

-- `profitAndLoss`. Accounts without an amount are left out of its rows; they add nothing.
unfoldable pub profit_and_loss : Option ℕ → Option ℕ → Books → ProfitAndLoss
profit_and_loss from to b =
    let earned = sum_of (income_of from to b.entries) b.accounts in
    let spent = sum_of (expense_of from to b.entries) b.accounts in
    record { total_income = earned; total_expense = spent; net_profit = earned -ℤ spent }

-- CASE WHEN account_type='INCOME' THEN amount ELSE -amount END
abbrev pub net_of : List Entry → Account → ℤ
net_of es a = income_of none none es a -ℤ expense_of none none es a

abbrev pub same_ℤ : ℤ → ℤ → Bool
same_ℤ a b = pos_part a == pos_part b && neg_part a == neg_part b

pub record BalanceSheet : Type 0 where
  pub assets : ℤ
  pub liabilities : ℤ
  pub equity_total : ℤ
  pub net_income : ℤ
  pub balanced : Bool

-- `balanceSheet`
unfoldable pub balance_sheet : Books → BalanceSheet
balance_sheet b =
    let assets = sheet_sum b.accounts asset b.accounts in
    let liabilities = sheet_sum b.accounts liability b.accounts in
    let equity = sheet_sum b.accounts AccountType.equity b.accounts in
    let net = sum_of (net_of b.entries) b.accounts in
    record {
      assets = assets;
      liabilities = liabilities;
      equity_total = equity;
      net_income = net;
      balanced = same_ℤ assets (liabilities +ℤ equity +ℤ net);
    }

-- `cashFlow`, over the accounts that the metadata flags as cash: the net cash flow. `is_cash` stands
-- for the flag, which the accounts of the model do not have.
unfoldable pub cash_flow : (Account → Bool) → Option ℕ → Option ℕ → Books → ℤ
cash_flow is_cash from to b =
    sum_of
      (λ a. if is_cash a && is_live a then posted_sum from to a.id Side.debit b.entries else pos 0)
      b.accounts
