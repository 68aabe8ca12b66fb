-- ===== src/Columns.antt =====
-- Numbers in the requests of HR, customers and projects, and the columns that they are written to.
use arka_erp.Base.{
  ℕ, refl, arith, Option, none, some, ltb, ◌&&◌, Bool, ◌≡◌, true, Bool-cases, inl, inr,
}
use arka_erp.Base.Int.{ℤ, pos, negsuc, pos_part, neg_part, ltb_ℤ}
use arka_erp.Base.Texts.{Text}
use arka_erp.Base.Effect.{
  ok, check_violation, numeric_overflow, Action, after, require, ◌>>◌, Keeps, >>=-Keeps,
}
use arka_erp.Ledger.{numeric_limit}

-- A number that the request may leave out: `none` when the database cannot read it. NaN, which a
-- NUMERIC column takes too, is not among the numbers here.
abbrev pub number_in : (Text → Option ℤ) → Option Text → Option (Option ℤ)
number_in numeric_in none = some none
number_in numeric_in (some s) = elim (numeric_in s) [ none ↦ none | some n ↦ some (some n) ]

-- A column NUMERIC(78,0) CHECK (… >= 0).
abbrev pub check_amount : {S : Type 0} → ℤ → Action S (Unit {0})
check_amount n = do
  require (ltb (pos_part n) numeric_limit && ltb (neg_part n) numeric_limit) numeric_overflow
  require (ltb_ℤ (negsuc 0) n) check_violation

module _ {ℓ} {S A : Type 0} (P : S → Type ℓ) where
  -- What follows a check of an amount starts from the state before it, with an amount that is not
  -- negative.
  pub check_amount_keeps :
      (n : ℤ) (k : Action S A) (s : S)
      → P s
      → (ltb_ℤ (negsuc 0) n ≡ true → P (after k s))
      → P (after (check_amount n >> k) s)
  check_amount_keeps n k s before rest = elim (Bool-cases fits) [
    | inl small ↦ elim (Bool-cases (ltb_ℤ (negsuc 0) n)) [
      | inl fine ↦ rw (small, fine, after, check_amount) (rest fine)
      | inr negative ↦ rw (small, negative, after, check_amount) before
    ]
    | inr large ↦ rw (large, after, check_amount) before
  ]
    where
      fits : Bool
      fits = ltb (pos_part n) numeric_limit && ltb (neg_part n) numeric_limit

module _ {ℓ} {S : Type 0} (P : S → Type ℓ) where
  pub check_amount-Keeps : (n : ℤ) → Keeps P (check_amount n)
  check_amount-Keeps n =
      >>=-Keeps P
        (require (ltb (pos_part n) numeric_limit && ltb (neg_part n) numeric_limit)
          numeric_overflow)
        (λ _. require (ltb_ℤ (negsuc 0) n) check_violation) (λ _ q. q) (λ _ _ q. q)

pub check_amount-pos :
    {S : Type 0} (n : ℕ) (s : S) → ltb n numeric_limit ≡ true → check_amount (pos n) s ≡ (ok tt, s)
unfolding numeric_limit
check_amount-pos n s small =
    let positive : ltb_ℤ (negsuc 0) (pos n) ≡ true = ground arith in rw (small, positive) refl
