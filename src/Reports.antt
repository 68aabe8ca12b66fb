-- ===== src/Reports.antt =====
-- Reports: the trial balance of backend/src/reports/reports.service.ts over the view
-- arka.v_trial_balance of database/init/06_reporting_views.sql. Codes and names of accounts are left
-- out of the rows, and so is their order.
pub mod Balanced
pub mod Identity
pub mod Rollup
pub mod Statements
mod Tests
use arka_erp.Base.{
  ℕ, ◌+◌, ◌-◌, ◌≡◌, refl, ap, Bool, true, false, not, ◌&&◌, ◌||◌, List, [], ◌∷◌, ◌++◌, map, filter,
  arith, ◌==◌, if◌then◌else◌, is_some, All, inl, inr, Bool-cases,
}
use arka_erp.Base.Tables.{count_by}
use arka_erp.Ledger.{Account, Line, Entry, Books}
use arka_erp.Ledger.Lines.{total_debit, total_credit}

-- The view joins the lines of every account: the status of their entries is asked for in the join of
-- the entries alone, which no column reads.
abbrev pub all_lines : List Entry → List Line
all_lines [] = []
all_lines (e ∷ es) = e.lines ++ all_lines es

-- SUM over the lines of one account.
abbrev pub account_sum : (Line → ℕ) → ℕ → List Line → ℕ
account_sum w i [] = 0
account_sum w i (l ∷ ls) = (if l.account_id == i then w l else 0) + account_sum w i ls

pub record TrialRow : Type 0 where
  pub account_id : ℕ
  pub total_debit : ℕ
  pub total_credit : ℕ
  pub debit_balance : ℕ
  pub credit_balance : ℕ

-- GREATEST(SUM(debit - credit), 0) is the difference of numbers that stops at 0.
abbrev pub trial_row : List Line → Account → TrialRow
trial_row ls a =
    let d = account_sum (λ l. l.debit) a.id ls in
    let c = account_sum (λ l. l.credit) a.id ls in
    record {
      account_id = a.id;
      total_debit = d;
      total_credit = c;
      debit_balance = d - c;
      credit_balance = c - d;
    }

-- deleted_at IS NULL AND is_postable
abbrev pub is_shown : Account → Bool
is_shown a = not (is_some a.deleted_at) && a.is_postable

abbrev pub shown : Books → List Account
shown b = filter is_shown b.accounts

abbrev pub v_trial_balance : Books → List TrialRow
v_trial_balance b = map (trial_row (all_lines b.entries)) (shown b)

pub record TrialBalance : Type 0 where
  pub rows : List TrialRow
  pub total_debit : ℕ
  pub total_credit : ℕ
  pub balanced : Bool

abbrev pub row_sum : (TrialRow → ℕ) → List TrialRow → ℕ
row_sum f [] = 0
row_sum f (r ∷ rs) = f r + row_sum f rs

abbrev pub has_movement : TrialRow → Bool
has_movement r = not (r.total_debit == 0) || not (r.total_credit == 0)

-- `trialBalance`
unfoldable pub trial_balance : Books → TrialBalance
trial_balance b =
    let rows = filter has_movement (v_trial_balance b) in
    let d = row_sum (λ r. r.debit_balance) rows in
    let c = row_sum (λ r. r.credit_balance) rows in
    record { rows = rows; total_debit = d; total_credit = c; balanced = d == c }
