-- ===== src/Reports/Rollup.antt =====
-- The rollup of an account that is no account's parent is its own balance.
use arka_erp.Base.{
  ℕ, zero, suc, ◌≤◌, ◌≡◌, refl, Bool, true, false, Option, none, some, List, [], ◌∷◌, any, ◌==◌,
  length, refers, All, All-map_pred, inl, inr, Bool-cases, arith,
}
use arka_erp.Base.Int.{pos, int_laws}
use arka_erp.Base.Tables.{find_by, count_by, count_by-find, find_by-key, All-find_by}
use arka_erp.Ledger.{Account}
use arka_erp.Reports.Statements.{is_live, live_account, parent_of, up, rollup_over, rollup}

-- In a table with distinct keys each row is found by its key.
pub find_by-All :
    (accts : List Account)
    → ((i : ℕ) → count_by (λ a. a.id) i accts ≤ 1)
    → All (λ a. find_by (λ a. a.id) a.id accts ≡ some a) accts
find_by-All [] distinct = tt
find_by-All (x ∷ xs) distinct = (
  first (x.id == x.id) refl,
  All-map_pred (λ a. find_by (λ a. a.id) a.id xs ≡ some a)
      (λ a. find_by (λ a. a.id) a.id (x ∷ xs) ≡ some a) xs later
      (find_by-All xs (λ i. ground (arith, distinct i))),
)
  where
    first : (b : Bool) → (x.id == x.id) ≡ b → find_by (λ a. a.id) x.id (x ∷ xs) ≡ some x
    first b e = ground arith

    later :
        (a : Account)
        → find_by (λ a. a.id) a.id xs ≡ some a
        → find_by (λ a. a.id) a.id (x ∷ xs) ≡ some a
    later a found = elim (Bool-cases (x.id == a.id)) [
      | inl hit ↦
          let here : 1 ≤ count_by (λ a. a.id) a.id xs =
            count_by-find (λ a. a.id) a.id xs (λ lost. ground (arith, found, lost)) in
          absurd (ground (arith, hit, here, distinct a.id))
      | inr miss ↦ rw miss found
    ]

-- No account has this one as its parent.
abbrev pub IsLeaf : List Account → ℕ → Type 0
IsLeaf accts i = All (λ u. refers i u.parent_id ≡ false) accts

module _ (accts : List Account) (i : ℕ) (leaf : IsLeaf accts i) where
  -- The chain of parents of an account passes through a leaf only at its start.
  up-leaf :
      (fuel : ℕ) (u : Account)
      → refers i u.parent_id ≡ false
      → any (λ j. j == i) (up fuel accts (some u)) ≡ (u.id == i)
  unfolding up
  up-leaf zero u own = ground arith
  up-leaf (suc fuel) u own = ground (arith, above u.parent_id own (λ v. up-leaf fuel v))
    where
      next :
          (o : Option Account)
          → ((v : Account)
              → refers i v.parent_id ≡ false
              → any (λ j. j == i) (up fuel accts (some v)) ≡ (v.id == i))
          → ((v : Account) → o ≡ some v → (v.id == i) ≡ false)
          → ((v : Account) → o ≡ some v → refers i v.parent_id ≡ false)
          → any (λ j. j == i) (up fuel accts (live_account o)) ≡ false
      next none higher other leaf_up = refl
      next (some v) higher other leaf_up = elim (Bool-cases (is_live v)) [
        | inl live ↦ rw live (ground (arith, other v refl, higher v (leaf_up v refl)))
        | inr gone ↦ rw gone refl
      ]

      above :
          (o : Option ℕ)
          → refers i o ≡ false
          → ((v : Account)
              → refers i v.parent_id ≡ false
              → any (λ j. j == i) (up fuel accts (some v)) ≡ (v.id == i))
          → any (λ j. j == i) (up fuel accts (parent_of accts o)) ≡ false
      above none h higher = refl
      above (some p) h higher =
          next (find_by (λ a. a.id) p accts) higher
            (λ v found. ground (arith, h, find_by-key (λ a. a.id) p accts v found))
            (λ v found.
              All-find_by (λ a. a.id) (λ u. refers i u.parent_id ≡ false) p accts leaf found)

  rollup_over-absent :
      (fuel : ℕ) (us : List Account)
      → All (λ u. refers i u.parent_id ≡ false) us
      → count_by (λ a. a.id) i us ≡ 0
      → rollup_over fuel accts i us ≡ pos 0
  rollup_over-absent fuel [] h none_here = refl
  rollup_over-absent fuel (u ∷ us) h none_here =
      let start = up-leaf fuel u h.0 in
      let other : (u.id == i) ≡ false = ground (arith, none_here) in
      let rest = rollup_over-absent fuel us h.1 (ground (arith, none_here)) in
      rw (start, other, rest)
        (elim (Bool-cases (is_live u)) [
          | inl live ↦ rw live (omega int_laws)
          | inr gone ↦ rw gone (omega int_laws)
        ])

  rollup_over-once :
      (fuel : ℕ) (us : List Account) (a : Account)
      → All (λ u. refers i u.parent_id ≡ false) us
      → count_by (λ a. a.id) i us ≤ 1
      → find_by (λ a. a.id) i us ≡ some a
      → is_live a ≡ true
      → rollup_over fuel accts i us ≡ a.balance
  rollup_over-once fuel [] a h few found live = cc
  rollup_over-once fuel (u ∷ us) a h few found live =
      let start = up-leaf fuel u h.0 in
      elim (Bool-cases (u.id == i)) [
        | inl hit ↦
            let same : u ≡ a = ground (arith, hit, found) in
            let rest = rollup_over-absent fuel us h.1 (ground (arith, hit, few)) in
            rw (start, hit, same, live, rest) (omega int_laws)
        | inr miss ↦
            let rest =
              rollup_over-once fuel us a h.1 (ground (arith, miss, few)) (rw miss at found) live in
            rw (start, miss, rest)
              (elim (Bool-cases (is_live u)) [
                | inl here ↦ rw here (omega int_laws)
                | inr gone ↦ rw gone (omega int_laws)
              ])
      ]

  pub rollup-leaf :
      (a : Account)
      → ((j : ℕ) → count_by (λ a. a.id) j accts ≤ 1)
      → find_by (λ a. a.id) i accts ≡ some a
      → is_live a ≡ true
      → rollup accts i ≡ a.balance
  rollup-leaf a distinct found live =
      rollup_over-once (length accts) accts a leaf (distinct i) found live
