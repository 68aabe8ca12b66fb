-- ===== src/Frontend/Toman.antt =====
-- Amounts in the forms: `toRial` and `toToman` of frontend/src/views/ProjectsView.vue and
-- JournalNewView.vue. The API speaks of Rial, the forms of Toman, which is ten of them.
use arka_erp.Base.{
  suc, Option, none, some, or_else, coalesce, ℕ, ◌*◌, ◌/◌, ◌≡◌, refl, Bool, true, false, [], ◌∷◌,
  ◌&&◌, leb, ◌==◌, if◌then◌else◌, filter, All, arith, ◌≤◌, length,
}
use arka_erp.Base.Int.{ℤ, pos, negsuc}
use arka_erp.Base.Texts.{Text, codes}
use arka_erp.Base.Decimal.{decimal, read, read-decimal, decimal-IsDigits, length-decimal_some}

-- `\d`
abbrev pub is_digit : ℕ → Bool
is_digit c = leb 48 c && leb c 57

-- `BigInt(t.replace(/\D/g, '') || '0')`
abbrev pub entered : Text → ℕ
entered t = read 0 (filter is_digit t)

unfoldable pub to_rial : Text → Text
to_rial [] = codes "0"
to_rial (c ∷ t) = decimal (entered (c ∷ t) * 10)

abbrev negated : ℕ → Text
negated n = if n == 0 then codes "0" else 45 ∷ decimal n

-- The division of a BigInt drops the remainder, also of a negative one.
unfoldable pub to_toman : Text → Text
to_toman [] = codes "0"
to_toman (c ∷ r) = if c == 45 then negated (read 0 r / 10) else decimal (read 0 (c ∷ r) / 10)

filter-All : (p : ℕ → Bool) (s : Text) → All (λ c. p c ≡ true) s → filter p s ≡ s
filter-All p [] h = refl
filter-All p (c ∷ s) h = rw (h.0, filter-All p s h.1) refl

-- What is entered as it was printed is read back.
pub entered-decimal : (n : ℕ) → entered (decimal n) ≡ n
entered-decimal n = rw (filter-All is_digit (decimal n) (decimal-IsDigits n), read-decimal n) refl

pub to_toman-decimal : (n : ℕ) → to_toman (decimal n) ≡ decimal (n / 10)
unfolding to_toman
to_toman-decimal n =
    rw (unsigned (decimal n) (decimal-IsDigits n) (length-decimal_some n), read-decimal n) refl
  where
    unsigned :
        (s : Text)
        → All (λ c. is_digit c ≡ true) s
        → 1 ≤ length s
        → to_toman s ≡ decimal (read 0 s / 10)
    unsigned [] h k = absurd (omega arith)
    unsigned (c ∷ s) h k =
        let plain : (c == 45) ≡ false = ground (arith, h.0) in rw (plain, to_toman) refl

pub to_rial-decimal : (n : ℕ) → to_rial (decimal n) ≡ decimal (n * 10)
unfolding to_rial
to_rial-decimal n = rw (signed (decimal n) (length-decimal_some n), entered-decimal n) refl
  where
    signed : (s : Text) → 1 ≤ length s → to_rial s ≡ decimal (entered s * 10)
    signed [] k = absurd (omega arith)
    signed (c ∷ s) k = refl

-- An amount as the API sends it, `budget::text`.
abbrev pub amount_text : ℤ → Text
amount_text (pos n) = decimal n
amount_text (negsuc n) = 45 ∷ decimal (suc n)

-- `x || undefined`
abbrev pub given : Text → Option Text
given [] = none
given (c ∷ s) = some (c ∷ s)

-- `d ? String(d).slice(0,10) : ''`: the day that the form shows of a date of the API. The server reads
-- a DATE as its local midnight and sends it in UTC, so the day can be another one.
abbrev pub shown_day : (ℕ → ℕ) → Option ℕ → Option ℕ
shown_day day_of none = none
shown_day day_of (some d) = some (day_of d)

abbrev pub whole_toman : ℕ → ℤ
whole_toman n = pos (n / 10 * 10)

pub amount-resaved : (n : ℕ) → to_rial (to_toman (decimal n)) ≡ decimal (n / 10 * 10)
amount-resaved n = rw (to_toman-decimal n, to_rial-decimal (n / 10)) refl

pub described : (o : Option Text) → coalesce (given (or_else o [])) o ≡ o
described none = refl
described (some []) = refl
described (some (c ∷ s)) = refl
