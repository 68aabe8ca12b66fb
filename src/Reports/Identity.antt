-- ===== src/Reports/Identity.antt =====
-- The balance sheet of backend/src/reports/reports.service.ts against the ledger that the posting
-- engine keeps.
use arka_erp.Base.{
  ℕ, ◌≤◌, ◌≡◌, refl, sym, ◌∙◌, Bool, true, ◌&&◌, ◌||◌, none, some, List, [], ◌∷◌, ◌⊎◌,
  if◌then◌else◌, All, All-map_pred, inl, inr, Bool-cases, arith,
}
use arka_erp.Base.Int.{ℤ, pos, ◌+ℤ◌, ◌-ℤ◌, int_laws, parts}
use arka_erp.Base.Tables.{find_by, count_by}
use arka_erp.Ledger.{
  Side, AccountType, asset, liability, equity, income, expense, Account, Entry, Books,
}
use arka_erp.Ledger.Posting.{is_posted}
use arka_erp.Ledger.Sums.{is_booked, booked}
use arka_erp.Ledger.Sound.{EntrySound, IsEven, Agrees, IsSound}
use arka_erp.Ledger.Equation.{on_debit_side, trial_total, trial_total_zero}
use arka_erp.Reports.Statements.{
  is_live, is_type, is_listed, rollup, sheet_sum, posted_sum, net_of, sum_of, same_ℤ, balance_sheet,
  cash_flow,
}
use arka_erp.Reports.Rollup.{IsLeaf, rollup-leaf, find_by-All}

-- The entry has not been reversed: what is booked is what the views count.
abbrev pub IsUnreversed : Entry → Type 0
IsUnreversed e = is_booked e.status ≡ is_posted e.status

pub posted_sum-booked :
    (i : ℕ) (s : Side) (accts : List Account) (es : List Entry)
    → All (EntrySound accts) es
    → All IsUnreversed es
    → posted_sum none none i s es ≡ booked i s es
posted_sum-booked i s accts [] sound plain = refl
posted_sum-booked i s accts (e ∷ es) sound plain =
    let rest = posted_sum-booked i s accts es sound.1 plain.1 in
    elim (Bool-cases (is_posted e.status)) [
      | inl on ↦
          let on_too : is_booked e.status ≡ true = plain.0 ∙ on in
          let kept = IsEven.kept (rw on_too at sound.0.1) in rw (on, on_too, kept, rest) refl
      | inr off ↦ rw (off, plain.0 ∙ off, rest) refl
    ]

-- The side on which the accounts of a type grow.
abbrev pub side_of : AccountType → Side
side_of asset = Side.debit
side_of liability = Side.credit
side_of equity = Side.credit
side_of income = Side.credit
side_of expense = Side.debit

-- Whether the statements read an account: the balance sheet its rows, the net income what is live.
abbrev pub is_read : Account → Bool
is_read a =
    is_live a && (is_type income a.account_type || is_type expense a.account_type || is_listed a)

-- What the balance sheet expects of an account: it grows on the side of its type, it is read or has no
-- balance, and a row of the sheet is no account's parent.
pub record IsReported (accts : List Account) (a : Account) : Type 0 where
  pub side : a.normal_balance ≡ side_of a.account_type
  pub read : (is_read a ≡ true) ⊎ (a.balance ≡ pos 0)
  pub leaf : is_listed a ≡ true → IsLeaf accts a.id

module _ (accts : List Account) (es : List Entry) where
  -- What an account adds to the sum of a type.
  abbrev row : AccountType → Account → ℤ
  row t a = if is_type t a.account_type && is_listed a then rollup accts a.id else pos 0

  row-balance :
      (a : Account)
      → ((i : ℕ) → count_by (λ c. c.id) i accts ≤ 1)
      → find_by (λ c. c.id) a.id accts ≡ some a
      → (is_listed a ≡ true → IsLeaf accts a.id)
      → (is_listed a ≡ true) ⊎ (a.balance ≡ pos 0)
      → (if is_listed a then rollup accts a.id else pos 0) ≡ a.balance
  row-balance a distinct found leaf read = elim (Bool-cases (is_listed a)) [
    | inl listed ↦
        rw listed (rollup-leaf accts a.id (leaf listed) a distinct found (ground (arith, listed)))
    | inr hidden ↦ elim read [
      | inl listed ↦ ground (arith, listed, hidden)
      | inr nothing ↦ rw hidden (sym nothing)
    ]
  ]

  amount-balance :
      (a : Account) (s : Side)
      → posted_sum none none a.id s es ≡ a.balance
      → (is_live a ≡ true) ⊎ (a.balance ≡ pos 0)
      → (if is_live a then posted_sum none none a.id s es else pos 0) ≡ a.balance
  amount-balance a s same read = elim (Bool-cases (is_live a)) [
    | inl live ↦ rw live same
    | inr gone ↦ elim read [
      | inl live ↦ ground (arith, live, gone)
      | inr nothing ↦ rw gone (sym nothing)
    ]
  ]

  -- A disjunct that one case of the type makes of `is_read`.
  read_as :
      (a : Account) (x : Bool)
      → is_read a ≡ x
      → (is_read a ≡ true) ⊎ (a.balance ≡ pos 0)
      → (x ≡ true) ⊎ (a.balance ≡ pos 0)
  read_as a x same (inl read) = inl (sym same ∙ read)
  read_as a x same (inr nothing) = inr nothing

  -- What one account adds to the two sides of the sheet.
  account_step :
      (a : Account)
      → ((i : ℕ) → count_by (λ c. c.id) i accts ≤ 1)
      → find_by (λ c. c.id) a.id accts ≡ some a
      → posted_sum none none a.id a.normal_balance es ≡ a.balance
      → IsReported accts a
      → row asset a -ℤ (row liability a +ℤ row equity a +ℤ net_of es a)
        ≡ on_debit_side a.normal_balance a.balance
  account_step a distinct found same r = go a.account_type refl
    where
      listed :
          is_read a ≡ is_listed a → (if is_listed a then rollup accts a.id else pos 0) ≡ a.balance
      listed e = row-balance a distinct found r.leaf (read_as a (is_listed a) e r.read)

      go :
          (t : AccountType)
          → a.account_type ≡ t
          → row asset a -ℤ (row liability a +ℤ row equity a +ℤ net_of es a)
            ≡ on_debit_side a.normal_balance a.balance
      go asset e = rw (r.side, e) (omega (int_laws, parts (listed (rw e (ground arith)))))
      go liability e = rw (r.side, e) (omega (int_laws, parts (listed (rw e (ground arith)))))
      go equity e = rw (r.side, e) (omega (int_laws, parts (listed (rw e (ground arith)))))
      go income e =
          let read = read_as a (is_live a) (rw e (ground arith)) r.read in
          let value = amount-balance a Side.credit (rw (r.side, e) at same) read in
          rw (r.side, e) (omega (int_laws, parts value))
      go expense e =
          let read = read_as a (is_live a) (rw e (ground arith)) r.read in
          let value = amount-balance a Side.debit (rw (r.side, e) at same) read in
          rw (r.side, e) (omega (int_laws, parts value))

  -- The two sides of the sheet over some of the accounts.
  sides :
      (cs : List Account)
      → ((i : ℕ) → count_by (λ c. c.id) i accts ≤ 1)
      → All (λ a. find_by (λ c. c.id) a.id accts ≡ some a) cs
      → All (λ a. posted_sum none none a.id a.normal_balance es ≡ a.balance) cs
      → All (IsReported accts) cs
      → sheet_sum accts asset cs
          -ℤ (sheet_sum accts liability cs +ℤ sheet_sum accts equity cs +ℤ sum_of (net_of es) cs)
        ≡ trial_total cs
  sides [] distinct found same reported = omega int_laws
  sides (a ∷ cs) distinct found same reported = omega (
    int_laws,
    parts (account_step a distinct found.0 same.0 reported.0),
    parts (sides cs distinct found.1 same.1 reported.1),
  )

same_ℤ-of_eq : (a b : ℤ) → a -ℤ b ≡ pos 0 → same_ℤ a b ≡ true
unfolding ◌-ℤ◌
same_ℤ-of_eq a b h = ground arith

-- In a sound ledger without reversed entries, whose accounts grow on the side of their type, are read
-- or have no balance, and where no row of the sheet is the parent of an account, the balance sheet
-- says that it is balanced.
pub balance_sheet_balanced :
    (b : Books)
    → IsSound b
    → All IsUnreversed b.entries
    → All (IsReported b.accounts) b.accounts
    → (balance_sheet b).balanced ≡ true
unfolding balance_sheet
balance_sheet_balanced b sound plain reported = same_ℤ-of_eq _ _ (
    sides b.accounts b.entries b.accounts sound.distinct (find_by-All b.accounts sound.distinct)
      (All-map_pred (Agrees b.entries)
        (λ a. posted_sum none none a.id a.normal_balance b.entries ≡ a.balance) b.accounts
        (λ a agree.
          posted_sum-booked a.id a.normal_balance b.accounts b.entries sound.entries plain
          ∙ sym agree)
        sound.agree)
      reported
    ∙ trial_total_zero b sound)

-- The accounts that are flagged as cash, live and grow on the debit side: over all dates the cash
-- flow of a sound ledger without reversed entries is the sum of their balances.
pub cash_flow-balances :
    (is_cash : Account → Bool) (b : Books)
    → IsSound b
    → All IsUnreversed b.entries
    → All (λ a. is_cash a ≡ true → (is_live a ≡ true) × (a.normal_balance ≡ Side.debit)) b.accounts
    → cash_flow is_cash none none b
      ≡ sum_of (λ a. if is_cash a then a.balance else pos 0) b.accounts
unfolding cash_flow
cash_flow-balances is_cash b sound plain flagged = over b.accounts sound.agree flagged
  where
    over :
        (cs : List Account)
        → All (Agrees b.entries) cs
        → All (λ a. is_cash a ≡ true → (is_live a ≡ true) × (a.normal_balance ≡ Side.debit)) cs
        → sum_of
            (λ a.
              if is_cash a && is_live a
              then posted_sum none none a.id Side.debit b.entries
              else pos 0)
            cs
          ≡ sum_of (λ a. if is_cash a then a.balance else pos 0) cs
    over [] agree flags = refl
    over (a ∷ cs) agree flags = elim (Bool-cases (is_cash a)) [
      | inl cash ↦
          let (live, side) = flags.0 cash in
          rw
            (
              cash,
              live,
              posted_sum-booked a.id Side.debit b.accounts b.entries sound.entries plain,
              over cs agree.1 flags.1,
              agree.0,
              side,
            )
            refl
      | inr other ↦ rw (other, over cs agree.1 flags.1) refl
    ]
