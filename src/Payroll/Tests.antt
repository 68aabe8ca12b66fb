-- ===== src/Payroll/Tests.antt =====
-- The theorems of payroll at two people and the rates of 10 and 7 percent.
use arka_erp.Base.{ℕ, ◌≡◌, refl, arith, true, none, some, List, [], ◌∷◌}
use arka_erp.Base.Int.{pos, ◌+ℤ◌, ◌-ℤ◌}
use Prim.Native.String.{String}
use arka_erp.Ledger.{Side, Account, AccountType, open_period, Context}
use arka_erp.Ledger.Lines.{total_debit, total_credit}
use arka_erp.Payroll.{
  Person, CreateRunDto, share, payroll_lines, slips_for, net_of, gross_of, tax_of, insurance_of,
  not_negative, Office, Call, creates, posts, run,
}
use arka_erp.Payroll.Histories.{IsConsistent, run-IsConsistent}
use arka_erp.Payroll.Totals.{payroll_lines_balance}

abbrev people : List Person
people =
    record { id = 1; is_employed = true; base_salary = 1005; deleted_at = none }
    ∷ record { id = 2; is_employed = true; base_salary = 999; deleted_at = none }
    ∷ []

abbrev context : Context
context = record { now = 9; today = 6; actor = none; new_id = 20; entry_no = 20 }

abbrev month : CreateRunDto
month = record { period_code = "1405-04"; tax_pct = none; insurance_pct = none; notes = none }

net_1666 : not_negative (net_of (slips_for context month people)) ≡ some 1666
unfolding ◌+ℤ◌ ◌-ℤ◌ share
net_1666 = refl

payroll_lines_balance_example :
    total_debit (
      payroll_lines 1 2 3 4
        (gross_of (slips_for context month people))
        1666
        (tax_of (slips_for context month people))
        (insurance_of (slips_for context month people)))
    ≡ total_credit (
        payroll_lines 1 2 3 4
          (gross_of (slips_for context month people))
          1666
          (tax_of (slips_for context month people))
          (insurance_of (slips_for context month people)))
payroll_lines_balance_example = payroll_lines_balance context month people 1 2 3 4 1666 net_1666

abbrev account : ℕ → String → AccountType → Side → Account
account id code account_type normal_balance = record {
  id = id;
  code = code;
  name = code;
  account_type = account_type;
  normal_balance = normal_balance;
  parent_id = none;
  is_postable = true;
  is_active = true;
  balance = pos 0;
  balance_version = 0;
  description = none;
  deleted_at = none;
}

abbrev office : Office
office = record {
  books = record {
    accounts =
        account 1 "5010" AccountType.expense Side.debit
        ∷ account 2 "2020" AccountType.liability Side.credit
        ∷ account 3 "2050" AccountType.liability Side.credit
        ∷ account 4 "2040" AccountType.liability Side.credit
        ∷ [];
    entries = [];
    periods = record { id = 1; starts_on = 1; ends_on = 30; status = open_period } ∷ [];
    projects = [];
    customers = [];
  };
  personnel = people;
  runs = [];
  payslips = [];
}

office-IsConsistent : IsConsistent office
office-IsConsistent = record {
  sound = record {
    distinct = λ i. ground arith;
    entries = tt;
    agree = (refl, (refl, (refl, (refl, tt))));
  };
  slips = tt;
  totals = tt;
}

-- A run is made, posted, and posted again.
abbrev requests : List (Context × Call)
requests = (context, creates month) ∷ (context, posts 20) ∷ (context, posts 20) ∷ []

run-IsConsistent_example : IsConsistent (run requests office)
run-IsConsistent_example = run-IsConsistent requests office office-IsConsistent
