-- ===== src/Payroll.antt =====
-- Payroll: the service of backend/src/payroll/payroll.module.ts. A rate is a decimal number of
-- percent. The quotient of a share is exact, where PostgreSQL keeps at least 16 significant digits.
-- The tables stand beside the ledger's, which `postRun` writes through.
pub mod Histories
pub mod Posted
pub mod Totals
mod Tests
use Prim.Native.String
use Prim.Native.String.{String}
use text.Mathlib.Text.{◌==◌ as str_eq}
use arka_erp.Base.{
  ℕ, ◌+◌, ◌*◌, ◌/◌, ◌^◌, Bool, true, false, not, ◌&&◌, Option, none, some, List, [], ◌∷◌, ◌++◌, map,
  leb, ltb, ◌==◌, if◌then◌else◌, is_some, or_else, any, filter, length,
}
use arka_erp.Base.Int.{ℤ, pos, negsuc, ◌+ℤ◌, ◌-ℤ◌}
use arka_erp.Base.Tables.{find_by, update_by, count_by}
use arka_erp.Base.Effect.{
  bad_request, unique_violation, check_violation, Action, ok, err, pure, gets, or_throw, require,
  modify, throw, ◌>>=◌, ◌>>◌, transaction, after,
}
use arka_erp.Ledger.{Account, Status, draft, Source, Memo, payroll_for, Line, Entry, Books, Context}
use arka_erp.Ledger.Posting.{insert_lines, insert_entry, fn_post_journal_entry}

-- The columns of arka.personnel that payroll reads.
pub record Person : Type 0 where
  pub id : ℕ
  pub is_employed : Bool
  pub base_salary : ℕ
  pub deleted_at : Option ℕ

pub record Payslip : Type 0 where
  pub run_id : ℕ
  pub personnel_id : ℕ
  pub base_salary : ℕ
  pub additions : ℕ
  pub tax : ℕ
  pub insurance : ℕ
  pub net : ℤ

pub record PayrollRun : Type 0 where
  pub id : ℕ
  pub period_code : String
  pub is_posted : Bool
  pub total_net : ℤ
  pub journal_entry_id : Option ℕ
  pub notes : Option String
  pub created_by : Option ℕ

pub record Office : Type 0 where
  pub books : Books
  pub personnel : List Person
  pub runs : List PayrollRun
  pub payslips : List Payslip

-- A rate in percent, `digits / 10 ^ decimals`.
pub record Rate : Type 0 where
  pub digits : ℕ
  pub decimals : ℕ

pub record CreateRunDto : Type 0 where
  pub period_code : String
  pub tax_pct : Option Rate
  pub insurance_pct : Option Rate
  pub notes : Option String

-- employment_status = 'ACTIVE' AND deleted_at IS NULL AND base_salary > 0
abbrev pub is_paid : Person → Bool
is_paid p = p.is_employed && not (is_some p.deleted_at) && ltb 0 p.base_salary

-- trunc(base_salary * pct / 100.0)
unfoldable pub share : ℕ → Rate → ℕ
share base pct = base * pct.digits / (10 ^ pct.decimals * 100)

abbrev pub payslip : ℕ → Rate → Rate → Person → Payslip
payslip run_id tax_pct insurance_pct p = record {
  run_id = run_id;
  personnel_id = p.id;
  base_salary = p.base_salary;
  additions = 0;
  tax = share p.base_salary tax_pct;
  insurance = share p.base_salary insurance_pct;
  net =
      pos p.base_salary
      -ℤ pos (share p.base_salary tax_pct)
      -ℤ pos (share p.base_salary insurance_pct);
}

abbrev pub of_run : ℕ → List Payslip → List Payslip
of_run id slips = filter (λ s. s.run_id == id) slips

-- SUM(base_salary + additions), SUM(tax), SUM(insurance), SUM(net)
abbrev pub gross_of : List Payslip → ℕ
gross_of [] = 0
gross_of (s ∷ ss) = s.base_salary + s.additions + gross_of ss

abbrev pub tax_of : List Payslip → ℕ
tax_of [] = 0
tax_of (s ∷ ss) = s.tax + tax_of ss

abbrev pub insurance_of : List Payslip → ℕ
insurance_of [] = 0
insurance_of (s ∷ ss) = s.insurance + insurance_of ss

abbrev pub net_of : List Payslip → ℤ
net_of [] = pos 0
net_of (s ∷ ss) = s.net +ℤ net_of ss

abbrev pub new_run : Context → CreateRunDto → List Payslip → PayrollRun
new_run ctx dto slips = record {
  id = ctx.new_id;
  period_code = dto.period_code;
  is_posted = false;
  total_net = net_of slips;
  journal_entry_id = none;
  notes = dto.notes;
  created_by = ctx.actor;
}

abbrev pub has_period : String → List PayrollRun → Bool
has_period code runs = any (λ r. str_eq r.period_code code) runs

abbrev pub percent : ℕ → Rate
percent n = record { digits = n; decimals = 0 }

-- Without a rate, 10 and 7 percent.
abbrev pub slips_for : Context → CreateRunDto → List Person → List Payslip
slips_for ctx dto people =
    map
      (payslip ctx.new_id (or_else dto.tax_pct (percent 10))
        (or_else dto.insurance_pct (percent 7)))
      (filter is_paid people)

unfoldable pub insert_run : Context → CreateRunDto → Action Office ℕ
insert_run ctx dto = do
  o ← gets (λ o. o)
  require (not (has_period dto.period_code o.runs)) bad_request
  require (count_by (λ r. r.id) ctx.new_id o.runs == 0) unique_violation
  modify (λ o. record o {
    runs = new_run ctx dto (slips_for ctx dto o.personnel) ∷ o.runs;
    payslips = slips_for ctx dto o.personnel ++ o.payslips;
  })
  pure ctx.new_id

unfoldable pub create_run : Context → CreateRunDto → Action Office ℕ
create_run ctx dto = do
  o ← gets (λ o. o)
  require (ltb 0 (length (filter is_paid o.personnel))) bad_request
  transaction (insert_run ctx dto)

-- A statement on the ledger's tables.
abbrev pub on_books : {A : Type 0} → Action Books A → Action Office A
on_books m o = let (r, b) = m o.books in (r, record o { books = b })

abbrev pub account_by_code : String → List Account → Option ℕ
account_by_code code [] = none
account_by_code code (a ∷ accts) =
    let rest = account_by_code code accts in
    if str_eq a.code code && not (is_some a.deleted_at) then some a.id else rest

abbrev pub account : String → Action Office ℕ
account code o = or_throw (account_by_code code o.books.accounts) bad_request o

abbrev pub payroll_entry : Context → PayrollRun → Entry
payroll_entry ctx run = record {
  id = ctx.new_id;
  entry_no = ctx.entry_no;
  entry_date = ctx.today;
  memo = payroll_for run.period_code;
  reference = some (String.◌++◌ "PAY-" run.period_code);
  source = Source.payroll;
  status = draft;
  fiscal_period_id = none;
  project_id = none;
  customer_id = none;
  reversed_entry_id = none;
  posted_at = none;
  posted_by = none;
  created_by = ctx.actor;
  deleted_at = none;
  deleted_by = none;
  deleted_reason = none;
  lines = [];
}

abbrev pub payroll_line : ℕ → ℕ → ℕ → ℕ → Line
payroll_line line_no account_id debit credit = record {
  line_no = line_no;
  account_id = account_id;
  debit = debit;
  credit = credit;
  memo = none;
  project_id = none;
}

-- The credits for tax and insurance are left out at zero; the one for the net pay is not.
abbrev pub credit_lines : ℕ → List (ℕ × ℕ) → List Line
credit_lines n [] = []
credit_lines n ((acc, c) ∷ rest) =
    if ltb 0 c then payroll_line n acc 0 c ∷ credit_lines (n + 1) rest else credit_lines n rest

abbrev pub payroll_lines : ℕ → ℕ → ℕ → ℕ → ℕ → ℕ → ℕ → ℕ → List Line
payroll_lines a5010 a2020 a2050 a2040 gross net tax insurance =
    payroll_line 1 a5010 gross 0
    ∷ payroll_line 2 a2020 0 net
    ∷ credit_lines 3 ((a2050, tax) ∷ (a2040, insurance) ∷ [])

-- A negative net pay is refused by the column's check.
abbrev pub not_negative : ℤ → Option ℕ
not_negative (pos n) = some n
not_negative (negsuc n) = none

abbrev pub mark_run : ℕ → PayrollRun → PayrollRun
mark_run entry_id r = record r { is_posted = true; journal_entry_id = some entry_id }

-- The check on a negative net pay stands before the lines here: with any refusal all is rolled back.
unfoldable pub post_run : Context → ℕ → Action Office (Unit {0})
post_run ctx id = transaction (do
  o ← gets (λ o. o)
  run ← or_throw (find_by (λ r. r.id) id o.runs) bad_request
  require (not run.is_posted) bad_request
  require (not (gross_of (of_run id o.payslips) == 0)) bad_request
  a5010 ← account "5010"
  a2020 ← account "2020"
  a2050 ← account "2050"
  a2040 ← account "2040"
  on_books (insert_entry (payroll_entry ctx run))
  net ← or_throw (not_negative (net_of (of_run id o.payslips))) check_violation
  on_books (
      insert_lines ctx.new_id (
        payroll_lines a5010 a2020 a2050 a2040 (gross_of (of_run id o.payslips)) net
          (tax_of (of_run id o.payslips)) (insurance_of (of_run id o.payslips))))
  on_books (fn_post_journal_entry ctx ctx.new_id)
  modify (λ o. record o { runs = update_by (λ r. r.id) id (mark_run ctx.new_id) o.runs }))

-- A request that writes.
pub data Call : Type 0 where
  creates : CreateRunDto → Call
  posts : ℕ → Call

unfoldable pub handle : Context → Call → Office → Office
handle ctx (creates dto) o = after (create_run ctx dto) o
handle ctx (posts id) o = after (post_run ctx id) o

unfoldable pub run : List (Context × Call) → Office → Office
run [] o = o
run ((ctx, c) ∷ cs) o = run cs (handle ctx c o)
