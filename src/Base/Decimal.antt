-- ===== src/Base/Decimal.antt =====
-- What PostgreSQL writes a number as, and its `lpad`, for the codes that the database draws.
use Prim.Native.Nat.{ℕ, zero, suc, ◌+◌, ◌-◌, ◌*◌, ◌/◌, ◌%◌, ◌≤◌, ◌<◌}
use mathlib.Core.Path.{◌≡◌, refl}
use mathlib.Core.Logic.{inl, inr}
use mathlib.Core.Bool.{true, false, ◌&&◌}
use mathlib.Core.List.{[], ◌∷◌, ◌++◌}
use native.Mathlib.Omega.{arith}
use arka_erp.Base.Logic.{
  leb, ltb, if◌then◌else◌, length, length-append, take, Bool-cases, All, All-append,
}
use arka_erp.Base.Texts.{Text}

-- The decimal digits of a number below the fuel.
unfoldable pub digits : ℕ → ℕ → Text
digits zero n = []
digits (suc k) n =
    let rest = digits k (n / 10) in if ltb n 10 then (48 + n) ∷ [] else rest ++ (48 + n % 10) ∷ []

-- `n::text`
unfoldable pub decimal : ℕ → Text
unfolding digits
decimal n = digits (suc n) n

abbrev pub zeros : ℕ → Text
zeros zero = []
zeros (suc k) = 48 ∷ zeros k

-- `lpad(s, w, '0')`: a text that is longer than `w` is cut.
abbrev pub lpad : ℕ → Text → Text
lpad w s = if leb w (length s) then take w s else zeros (w - length s) ++ s

-- The number that digits stand for, after the number that was read before them.
abbrev pub read : ℕ → Text → ℕ
read acc [] = acc
read acc (c ∷ s) = read (acc * 10 + (c - 48)) s

read-append : (acc : ℕ) (s t : Text) → read acc (s ++ t) ≡ read (read acc s) t
read-append acc [] t = refl
read-append acc (c ∷ s) t = read-append (acc * 10 + (c - 48)) s t

read-zeros : (k : ℕ) (s : Text) → read 0 (zeros k ++ s) ≡ read 0 s
read-zeros zero s = refl
read-zeros (suc k) s = read-zeros k s

digits-small : (k n : ℕ) → n < 10 → digits (suc k) n ≡ (48 + n) ∷ []
unfolding digits
digits-small k n small = ground arith

digits-step : (k n : ℕ) → 10 ≤ n → digits (suc k) n ≡ digits k (n / 10) ++ (48 + n % 10) ∷ []
unfolding digits
digits-step k n large = let more : ltb n 10 ≡ false = ground arith in rw (more, digits) refl

-- Fuel above the number is enough.
digits_fuel : (j k n : ℕ) → n < j → n < k → digits j n ≡ digits k n
digits_fuel zero k n h i = absurd (omega arith)
digits_fuel (suc j) zero n h i = absurd (omega arith)
digits_fuel (suc j) (suc k) n h i = elim (Bool-cases (ltb n 10)) [
  | inl small ↦ rw (digits-small j n (ground arith), digits-small k n (ground arith)) refl
  | inr large ↦
      rw
        (
          digits-step j n (ground arith),
          digits-step k n (ground arith),
          digits_fuel j k (n / 10) (ground arith) (ground arith),
        )
        refl
]

decimal-step : (n : ℕ) → 10 ≤ n → decimal n ≡ decimal (n / 10) ++ (48 + n % 10) ∷ []
unfolding decimal
decimal-step n large =
    rw (digits-step n n large, digits_fuel n (suc (n / 10)) (n / 10) (omega arith) (omega arith))
      refl

decimal-small : (n : ℕ) → n < 10 → decimal n ≡ (48 + n) ∷ []
unfolding decimal
decimal-small n small = digits-small n n small

length-decimal_step : (n : ℕ) → 10 ≤ n → length (decimal n) ≡ suc (length (decimal (n / 10)))
length-decimal_step n large =
    rw (decimal-step n large) (omega (arith, length-append (decimal (n / 10)) ((48 + n % 10) ∷ [])))

length-decimal_small : (n : ℕ) → n < 10 → length (decimal n) ≡ 1
length-decimal_small n small = rw (decimal-small n small) refl

read-digits : (k n : ℕ) → n < k → read 0 (digits k n) ≡ n
read-digits zero n h = absurd (omega arith)
read-digits (suc k) n h = elim (Bool-cases (ltb n 10)) [
  | inl small ↦ rw (digits-small k n (ground arith)) (omega arith)
  | inr large ↦
      rw
        (
          digits-step k n (ground arith),
          read-append 0 (digits k (n / 10)) ((48 + n % 10) ∷ []),
          read-digits k (n / 10) (ground arith),
        )
        (omega arith)
]

pub read-decimal : (n : ℕ) → read 0 (decimal n) ≡ n
unfolding decimal
read-decimal n = read-digits (suc n) n (omega arith)

take-longer : (w : ℕ) (s t : Text) → w ≤ length s → take w (s ++ t) ≡ take w s
take-longer zero [] [] h = refl
take-longer zero [] (c ∷ t) h = refl
take-longer zero (c ∷ s) t h = refl
take-longer (suc w) [] t h = absurd (omega arith)
take-longer (suc w) (c ∷ s) t h = rw (take-longer w s t (omega arith)) refl

take_all : (w : ℕ) (s : Text) → length s ≡ w → take w s ≡ s
take_all zero [] h = refl
take_all zero (c ∷ s) h = absurd (omega arith)
take_all (suc w) [] h = absurd (omega arith)
take_all (suc w) (c ∷ s) h = rw (take_all w s (omega arith)) refl

-- Padding a number to a width that holds it keeps it.
pub read-lpad : (w : ℕ) (s : Text) → length s ≤ w → read 0 (lpad w s) ≡ read 0 s
read-lpad w s h = elim (Bool-cases (leb w (length s))) [
  | inl full ↦ rw (full, take_all w s (ground arith)) refl
  | inr short ↦ rw (short, read-zeros (w - length s) s) refl
]

pub length-decimal_four : (n : ℕ) → n < 10000 → length (decimal n) ≤ 4
length-decimal_four n h = elim (Bool-cases (ltb n 10)) [
  | inl one ↦ omega (arith, length-decimal_small n (ground arith))
  | inr two ↦
      let s = length-decimal_step n (ground arith) in
      elim (Bool-cases (ltb (n / 10) 10)) [
        | inl one ↦ omega (arith, s, length-decimal_small (n / 10) (ground arith))
        | inr three ↦
            let t = length-decimal_step (n / 10) (ground arith) in
            elim (Bool-cases (ltb (n / 10 / 10) 10)) [
              | inl one ↦ omega (arith, s, t, length-decimal_small (n / 10 / 10) (ground arith))
              | inr four ↦ omega (
                arith,
                s,
                t,
                length-decimal_step (n / 10 / 10) (ground arith),
                length-decimal_small (n / 10 / 10 / 10) (omega arith),
              )
            ]
      ]
]

pub length-decimal_some : (n : ℕ) → 1 ≤ length (decimal n)
length-decimal_some n = elim (Bool-cases (ltb n 10)) [
  | inl one ↦ omega (arith, length-decimal_small n (ground arith))
  | inr more ↦ omega (arith, length-decimal_step n (ground arith))
]

length-decimal_long : (n : ℕ) → 1000 ≤ n → 4 ≤ length (decimal n)
length-decimal_long n h = omega (
  arith,
  length-decimal_step n (omega arith),
  length-decimal_step (n / 10) (omega arith),
  length-decimal_step (n / 10 / 10) (omega arith),
  length-decimal_some (n / 10 / 10 / 10),
)

-- From five digits on, a width of four drops the last one.
pub lpad-decimal_cut : (n : ℕ) → 10000 ≤ n → lpad 4 (decimal n) ≡ lpad 4 (decimal (n / 10))
lpad-decimal_cut n h =
    let long : 4 ≤ length (decimal (n / 10)) = length-decimal_long (n / 10) (omega arith) in
    let full : leb 4 (length (decimal (n / 10))) ≡ true = ground arith in
    let grown : length (decimal n) ≡ suc (length (decimal (n / 10))) =
      length-decimal_step n (omega arith) in
    let more : leb 4 (length (decimal n)) ≡ true = ground arith in
    rw (more, full, decimal-step n (omega arith))
      (take-longer 4 (decimal (n / 10)) ((48 + n % 10) ∷ []) long)

digits-IsDigits : (k n : ℕ) → All (λ c. (leb 48 c && leb c 57) ≡ true) (digits k n)
unfolding digits
digits-IsDigits zero n = tt
digits-IsDigits (suc k) n = elim (Bool-cases (ltb n 10)) [
  | inl small ↦ rw small (ground (arith, small), tt)
  | inr large ↦ rw large (
      All-append (λ c. (leb 48 c && leb c 57) ≡ true) (digits k (n / 10)) ((48 + n % 10) ∷ [])
        (digits-IsDigits k (n / 10)) (ground arith, tt))
]

pub decimal-IsDigits : (n : ℕ) → All (λ c. (leb 48 c && leb c 57) ≡ true) (decimal n)
unfolding decimal
decimal-IsDigits n = digits-IsDigits (suc n) n
