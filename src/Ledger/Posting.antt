-- ===== src/Ledger/Posting.antt =====
-- The posting functions of 05_posting_functions.sql: `fn_post_journal_entry`,
-- `fn_reverse_journal_entry`, `fn_recompute_account_balance`; and the insertion of a header and of
-- its lines. The row locks that they take need no model: one call runs at a time here.
use Prim.Native.String
use Prim.Native.String.{String}
use arka_erp.Base.{
  ℕ, ◌+◌, Bool, true, false, not, ◌&&◌, Option, none, some, List, [], ◌∷◌, ◌++◌, map, ltb, leb,
  ◌==◌, if◌then◌else◌, is_some, is_known, or_else, every, length,
}
use arka_erp.Base.Int.{ℤ, pos, pos_part, neg_part, ◌+ℤ◌}
use arka_erp.Base.Tables.{find_by, update_by, count_by}
use arka_erp.Base.Effect.{
  Failure, business_rule, numeric_overflow, unique_violation, foreign_key, ok, err, Action, pure,
  gets, or_throw, require, modify, ◌>>=◌, ◌>>◌,
}
use arka_erp.Ledger.{
  Side, Account, Period, PeriodStatus, open_period, Status, draft, posted, reversed, Source, Memo,
  reversal_of, Line, Entry, Books, Context, numeric_limit,
}
use arka_erp.Ledger.Lines.{total_debit, total_credit, delta, touches, line_failure}

abbrev pub reject : Option Failure → Action Books (Unit {0})
reject none b = (ok tt, b)
reject (some x) b = (err x, b)

abbrev pub add_line : Line → Entry → Entry
add_line l e = record e { lines = e.lines ++ l ∷ [] }

-- INSERT INTO arka.journal_lines. The callers count `line_no`, and have the entry.
unfoldable pub insert_line : ℕ → Line → Action Books (Unit {0})
insert_line entry_id l = do
  c ← gets (λ b. b)
  reject (line_failure c.accounts c.projects l)
  modify (λ b. record b { entries = update_by (λ e. e.id) entry_id (add_line l) b.entries })

unfoldable pub insert_lines : ℕ → List Line → Action Books (Unit {0})
insert_lines entry_id [] = pure tt
insert_lines entry_id (l ∷ ls) = insert_line entry_id l >> insert_lines entry_id ls

-- The foreign keys of a header to a project and a customer.
abbrev pub refers : Option ℕ → Option ℕ → Books → Bool
refers project_id customer_id b = is_known project_id b.projects && is_known customer_id b.customers

abbrev pub check_references : Option ℕ → Option ℕ → Action Books (Unit {0})
check_references project_id customer_id b = require (refers project_id customer_id b) foreign_key b

-- INSERT INTO arka.journal_entries; the primary key is unique.
unfoldable pub insert_entry : Entry → Action Books (Unit {0})
insert_entry e = do
  entries ← gets (λ b. b.entries)
  require (count_by (λ r. r.id) e.id entries == 0) unique_violation
  check_references e.project_id e.customer_id
  modify (λ b. record b { entries = e ∷ b.entries })

abbrev pub unless_deleted : Option Entry → Option Entry
unless_deleted none = none
unless_deleted (some e) = if is_some e.deleted_at then none else some e

-- WHERE id = k AND deleted_at IS NULL
abbrev pub live_entry : ℕ → Books → Option Entry
live_entry k b = unless_deleted (find_by (λ e. e.id) k b.entries)

-- `fn_period_for_date`
abbrev pub period_for_date : ℕ → List Period → Option Period
period_for_date day [] = none
period_for_date day (p ∷ ps) =
    if leb p.starts_on day && leb day p.ends_on then some p else period_for_date day ps

abbrev pub is_open : PeriodStatus → Bool
is_open open_period = true
is_open _ = false

abbrev pub is_draft : Status → Bool
is_draft draft = true
is_draft _ = false

abbrev pub is_posted : Status → Bool
is_posted posted = true
is_posted _ = false

-- UPDATE arka.accounts: the lines' deltas folded into the cached balance.
unfoldable pub apply_lines : List Line → Account → Account
apply_lines ls a =
    if touches a.id ls
    then record a {
      balance = a.balance +ℤ delta a.id a.normal_balance ls;
      balance_version = a.balance_version + 1;
    }
    else a

-- Whether a balance still fits its column, and its version INTEGER.
unfoldable pub fits : Account → Bool
fits a =
    ltb (pos_part a.balance) numeric_limit
    && ltb (neg_part a.balance) numeric_limit
    && ltb a.balance_version 2147483648

abbrev pub mark_posted : Context → Period → Entry → Entry
mark_posted ctx p e = record e {
  status = posted;
  fiscal_period_id = some p.id;
  posted_at = some ctx.now;
  posted_by = ctx.actor;
}

abbrev pub balanced : List Line → Bool
balanced ls = total_debit ls == total_credit ls

-- Its answer is the header; the callers read the id.
unfoldable pub fn_post_journal_entry : Context → ℕ → Action Books ℕ
fn_post_journal_entry ctx entry_id = do
  e ← (λ b. or_throw (live_entry entry_id b) business_rule b)
  require (is_draft e.status) business_rule
  p ← (λ b. or_throw (period_for_date e.entry_date b.periods) business_rule b)
  require (is_open p.status) business_rule
  require (ltb (total_debit e.lines) numeric_limit && ltb (total_credit e.lines) numeric_limit)
      numeric_overflow
  require (leb 2 (length e.lines)) business_rule
  require (balanced e.lines) business_rule
  modify (λ b. record b { accounts = map (apply_lines e.lines) b.accounts })
  accounts ← gets (λ b. b.accounts)
  require (every fits accounts) numeric_overflow
  modify (λ b. record b { entries = update_by (λ r. r.id) entry_id (mark_posted ctx p) b.entries })
  pure entry_id

-- The contra line: the sides swapped.
abbrev pub mirror_line : Line → Line
mirror_line l = record l {
  debit = l.credit;
  credit = l.debit;
  memo = some (String.◌++◌ "Reversal: " (or_else l.memo ""));
}

abbrev pub reversal_entry : Context → Entry → ℕ → Option String → Entry
reversal_entry ctx src date memo = record {
  id = ctx.new_id;
  entry_no = ctx.entry_no;
  entry_date = date;
  memo = elim memo [ none ↦ reversal_of src.entry_no src.memo | some m ↦ Memo.written m ];
  reference = src.reference;
  source = Source.reversal;
  status = draft;
  fiscal_period_id = none;
  project_id = src.project_id;
  customer_id = src.customer_id;
  reversed_entry_id = some src.id;
  posted_at = none;
  posted_by = none;
  created_by = ctx.actor;
  deleted_at = none;
  deleted_by = none;
  deleted_reason = none;
  lines = [];
}

abbrev pub mark_reversed : Entry → Entry
mark_reversed e = record e { status = reversed }

unfoldable pub fn_reverse_journal_entry : Context → ℕ → Option ℕ → Option String → Action Books ℕ
fn_reverse_journal_entry ctx entry_id date memo = do
  src ← (λ b. or_throw (live_entry entry_id b) business_rule b)
  require (is_posted src.status) business_rule
  insert_entry (reversal_entry ctx src (or_else date ctx.today) memo)
  insert_lines ctx.new_id (map mirror_line src.lines)
  result ← fn_post_journal_entry ctx ctx.new_id
  modify (λ b. record b { entries = update_by (λ r. r.id) entry_id mark_reversed b.entries })
  pure result

-- The sum that `fn_recompute_account_balance` writes over the cached balance: the entries whose
-- status is 'POSTED' now.
abbrev pub recomputed : ℕ → Side → List Entry → ℤ
recomputed i s [] = pos 0
recomputed i s (e ∷ es) =
    if is_posted e.status && not (is_some e.deleted_at)
    then delta i s e.lines +ℤ recomputed i s es
    else recomputed i s es

unfoldable pub fn_recompute_account_balance : ℕ → Action Books (Unit {0})
fn_recompute_account_balance i = modify (λ b. record b {
  accounts =
      update_by (λ a. a.id) i
        (λ a. record a {
          balance = recomputed a.id a.normal_balance b.entries;
          balance_version = a.balance_version + 1;
        })
        b.accounts;
})
