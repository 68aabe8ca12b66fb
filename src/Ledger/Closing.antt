-- ===== src/Ledger/Closing.antt =====
-- `fn_close_fiscal_period` of database/init/05_posting_functions.sql. The columns that say who closed a
-- period and when are left out; its advisory lock needs no model, as one call runs at a time here.
use Prim.Native.String.{String}
use arka_erp.Base.{
  ℕ, suc, Bool, true, false, not, ◌&&◌, Option, none, some, List, [], ◌∷◌, any, filter, leb, ◌==◌,
  if◌then◌else◌, is_some,
}
use arka_erp.Base.Int.{ℤ, pos, negsuc, sub_ℕ, ◌+ℤ◌, ◌-ℤ◌}
use arka_erp.Base.Tables.{find_by, update_by}
use arka_erp.Base.Effect.{
  business_rule, Action, pure, gets, or_throw, require, modify, ◌>>=◌, ◌>>◌, transaction,
}
use arka_erp.Ledger.{
  AccountType, asset, liability, equity, income, expense, Account, Period, PeriodStatus, closed,
  Status, draft, Source, closing_of, Line, Entry, Books, Context,
}
use arka_erp.Ledger.Posting.{is_draft, is_posted, insert_entry, insert_lines, fn_post_journal_entry}

abbrev pub is_closed : PeriodStatus → Bool
is_closed closed = true
is_closed _ = false

abbrev pub in_period : Period → Entry → Bool
in_period p e = leb p.starts_on e.entry_date && leb e.entry_date p.ends_on

abbrev pub is_kept_in : (Status → Bool) → Period → Entry → Bool
is_kept_in status p e = status e.status && not (is_some e.deleted_at) && in_period p e

-- What a line on an account earns: income less expense.
abbrev pub earned_on : AccountType → Line → ℤ
earned_on income l = sub_ℕ l.credit l.debit
earned_on expense l = pos 0 -ℤ sub_ℕ l.debit l.credit
earned_on asset l = pos 0
earned_on liability l = pos 0
earned_on equity l = pos 0

-- JOIN arka.accounts
abbrev pub earned_by : Option Account → Line → ℤ
earned_by none l = pos 0
earned_by (some a) l = earned_on a.account_type l

abbrev pub lines_net : List Account → List Line → ℤ
lines_net accts [] = pos 0
lines_net accts (l ∷ ls) =
    earned_by (find_by (λ a. a.id) l.account_id accts) l +ℤ lines_net accts ls

-- `v_net`, positive for a profit.
abbrev pub period_net : Period → List Account → List Entry → ℤ
period_net p accts [] = pos 0
period_net p accts (e ∷ es) =
    (if is_kept_in is_posted p e then lines_net accts e.lines else pos 0) +ℤ period_net p accts es

abbrev pub closing_entry : Context → Period → Entry
closing_entry ctx p = record {
  id = ctx.new_id;
  entry_no = ctx.entry_no;
  entry_date = p.ends_on;
  memo = closing_of p.id;
  reference = none;
  source = Source.closing;
  status = draft;
  fiscal_period_id = none;
  project_id = none;
  customer_id = none;
  reversed_entry_id = none;
  posted_at = none;
  posted_by = none;
  created_by = ctx.actor;
  deleted_at = none;
  deleted_by = none;
  deleted_reason = none;
  lines = [];
}

abbrev pub closing_line : ℕ → ℕ → ℕ → ℕ → String → Line
closing_line line_no account_id debit credit memo = record {
  line_no = line_no;
  account_id = account_id;
  debit = debit;
  credit = credit;
  memo = some memo;
  project_id = none;
}

-- The lines of a net result that is not zero.
abbrev pub closing_lines : ℕ → ℕ → ℤ → List Line
closing_lines retained summary (pos n) =
    closing_line 1 summary n 0 "Net profit to summary"
    ∷ closing_line 2 retained 0 n "Net profit to retained earnings"
    ∷ []
closing_lines retained summary (negsuc n) =
    closing_line 1 retained (suc n) 0 "Net loss from retained earnings"
    ∷ closing_line 2 summary 0 (suc n) "Net loss to summary"
    ∷ []

abbrev pub is_zero : ℤ → Bool
is_zero (pos n) = n == 0
is_zero (negsuc n) = false

-- A net result of zero discards the header.
unfoldable pub post_net : Context → ℕ → ℕ → ℤ → Action Books (Option ℕ)
post_net ctx retained summary net =
    if is_zero net
    then (do
      modify (λ b. record b { entries = filter (λ e. not (e.id == ctx.new_id)) b.entries })
      pure none)
    else (do
      insert_lines ctx.new_id (closing_lines retained summary net)
      id ← fn_post_journal_entry ctx ctx.new_id
      pure (some id))

abbrev pub close_period : Period → Period
close_period p = record p { status = closed }

unfoldable pub fn_close_fiscal_period : Context → ℕ → ℕ → ℕ → Action Books (Option ℕ)
fn_close_fiscal_period ctx period_id retained summary = transaction (do
  b ← gets (λ b. b)
  p ← or_throw (find_by (λ p. p.id) period_id b.periods) business_rule
  require (not (is_closed p.status)) business_rule
  require (not (any (is_kept_in is_draft p) b.entries)) business_rule
  insert_entry (closing_entry ctx p)
  result ← post_net ctx retained summary (period_net p b.accounts b.entries)
  modify (λ b. record b { periods = update_by (λ p. p.id) period_id close_period b.periods })
  pure result)
