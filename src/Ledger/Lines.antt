-- ===== src/Ledger/Lines.antt =====
-- Journal lines: what one adds to an account, and the checks that the database makes when one is
-- inserted (04_accounting_core.sql).
use arka_erp.Base.{
  ℕ, ◌+◌, Bool, false, not, ◌&&◌, ◌||◌, Option, none, some, List, [], ◌∷◌, ltb, leb, ◌==◌,
  if◌then◌else◌, is_some, is_known,
}
use arka_erp.Base.Int.{ℤ, pos, sub_ℕ, ◌+ℤ◌}
use arka_erp.Base.Tables.{find_by}
use arka_erp.Base.Effect.{Failure, business_rule, check_violation, foreign_key, numeric_overflow}
use arka_erp.Ledger.{Side, Account, Line, numeric_limit}

abbrev pub total_debit : List Line → ℕ
total_debit [] = 0
total_debit (l ∷ ls) = l.debit + total_debit ls

abbrev pub total_credit : List Line → ℕ
total_credit [] = 0
total_credit (l ∷ ls) = l.credit + total_credit ls

-- CASE WHEN normal_balance = 'DEBIT' THEN debit - credit ELSE credit - debit END
abbrev pub natural : Side → ℕ → ℕ → ℤ
natural Side.debit d c = sub_ℕ d c
natural Side.credit d c = sub_ℕ c d

-- The sum of that over the lines of one account.
abbrev pub delta : ℕ → Side → List Line → ℤ
delta i s [] = pos 0
delta i s (l ∷ ls) =
    if l.account_id == i then natural s l.debit l.credit +ℤ delta i s ls else delta i s ls

abbrev pub touches : ℕ → List Line → Bool
touches i [] = false
touches i (l ∷ ls) = l.account_id == i || touches i ls

-- `chk_line_one_side`: a debit or a credit, and only one.
abbrev pub one_sided : ℕ → ℕ → Bool
one_sided d c = (ltb 0 d && c == 0) || (ltb 0 c && d == 0)

-- The trigger `fn_line_account_guard`, for the account of a line that exists.
unfoldable pub account_failure : Account → Option Failure
account_failure a =
    if is_some a.deleted_at || not a.is_active
    then some business_rule
    else if not a.is_postable
    then some business_rule
    else none

-- The column types and `chk_line_one_side`.
unfoldable pub amount_failure : ℕ → ℕ → Option Failure
amount_failure d c =
    if leb numeric_limit d || leb numeric_limit c
    then some numeric_overflow
    else if one_sided d c
    then none
    else some check_violation

-- `a ?? b` on failures: the first one found.
abbrev pub first_failure : Option Failure → Option Failure → Option Failure
first_failure none g = g
first_failure (some x) g = some x

abbrev pub guard_failure : Option Account → Option Failure
guard_failure none = some business_rule
guard_failure (some a) = account_failure a

-- SMALLINT
abbrev pub number_failure : ℕ → Option Failure
number_failure n = if leb n 32767 then none else some numeric_overflow

abbrev pub project_failure : Option ℕ → List ℕ → Option Failure
project_failure p projects = if is_known p projects then none else some foreign_key

-- Why the database refuses to insert a line, if it does.
unfoldable pub line_failure : List Account → List ℕ → Line → Option Failure
line_failure accounts projects l = first_failure (number_failure l.line_no) (
    first_failure (guard_failure (find_by (λ a. a.id) l.account_id accounts))
      (first_failure (amount_failure l.debit l.credit) (project_failure l.project_id projects)))

abbrev pub lines_failure : List Account → List ℕ → List Line → Option Failure
lines_failure accounts projects [] = none
lines_failure accounts projects (l ∷ ls) =
    first_failure (line_failure accounts projects l) (lines_failure accounts projects ls)
