-- ===== src/Frontend/Format.antt =====
-- Amounts for display: `groupInt` and `faNum` of frontend/src/lib/format.ts, on the decimal
-- text of an integer.
use arka_erp.Base.{
  ℕ, ◌+◌, ◌-◌, ◌%◌, ◌≡◌, refl, ap, ◌∙◌, true, false, not, ◌&&◌, [], ◌∷◌, ◌==◌, if◌then◌else◌,
  length, All, filter, arith, inl, inr, Bool-cases, map,
}
use arka_erp.Base.Texts.{Text}
use arka_erp.Base.Decimal.{read}
use arka_erp.Frontend.Toman.{is_digit}

-- `s.replace(/^0+(?=\d)/, '')`
abbrev pub strip_zeros : Text → Text
strip_zeros [] = []
strip_zeros (c ∷ []) = c ∷ []
strip_zeros (c ∷ d ∷ s) =
    let rest = strip_zeros (d ∷ s) in if c == 48 && is_digit d then rest else c ∷ d ∷ s

-- U+066C
abbrev pub separator : ℕ
separator = 0x66c

-- `s.replace(/\B(?=(\d{3})+(?!\d))/g, separator)` on a text of digits: a separator stands between two
-- digits where the number of digits that follow is a multiple of three.
abbrev pub group_digits : Text → Text
group_digits [] = []
group_digits (c ∷ []) = c ∷ []
group_digits (c ∷ d ∷ s) =
    let rest = group_digits (d ∷ s) in
    if length (d ∷ s) % 3 == 0 then c ∷ separator ∷ rest else c ∷ rest

-- `groupInt`
unfoldable pub group_int : Text → Text
group_int [] = []
group_int (c ∷ s) =
    if c == 45 then 0x2212 ∷ group_digits (strip_zeros s) else group_digits (strip_zeros (c ∷ s))

-- `faNum`
unfoldable pub fa_num : Text → Text
fa_num s = map (λ c. if is_digit c then 0x6f0 + (c - 48) else c) s

abbrev pub IsDigits : Text → Type 0
IsDigits s = All (λ c. is_digit c ≡ true) s

abbrev pub ungrouped : Text → Text
ungrouped s = filter (λ c. not (c == separator)) s

digit-stays : (c : ℕ) → is_digit c ≡ true → not (c == separator) ≡ true
digit-stays c h = ground (arith, h)

group_digits-ungrouped : (s : Text) → IsDigits s → ungrouped (group_digits s) ≡ s
group_digits-ungrouped [] h = refl
group_digits-ungrouped (c ∷ []) h = rw (digit-stays c h.0) refl
group_digits-ungrouped (c ∷ d ∷ s) h = elim (Bool-cases (length (d ∷ s) % 3 == 0)) [
  | inl third ↦ rw (third, digit-stays c h.0, group_digits-ungrouped (d ∷ s) h.1) refl
  | inr other ↦ rw (other, digit-stays c h.0, group_digits-ungrouped (d ∷ s) h.1) refl
]

strip_zeros-IsDigits : (s : Text) → IsDigits s → IsDigits (strip_zeros s)
strip_zeros-IsDigits [] h = h
strip_zeros-IsDigits (c ∷ []) h = h
strip_zeros-IsDigits (c ∷ d ∷ s) h = elim (Bool-cases (c == 48 && is_digit d)) [
  | inl leading ↦ rw leading (strip_zeros-IsDigits (d ∷ s) h.1)
  | inr stays ↦ rw stays h
]

read-strip_zeros : (s : Text) → read 0 (strip_zeros s) ≡ read 0 s
read-strip_zeros [] = refl
read-strip_zeros (c ∷ []) = refl
read-strip_zeros (c ∷ d ∷ s) = elim (Bool-cases (c == 48 && is_digit d)) [
  | inl leading ↦
      let it : c ≡ 48 = ground (arith, leading) in
      rw leading (read-strip_zeros (d ∷ s) ∙ rw it refl)
  | inr stays ↦ rw stays refl
]

-- A text of digits is shown without leading zeros and with separators; taken out, they leave the
-- digits, which stand for the same number.
pub group_int-digits :
    (s : Text)
    → IsDigits s
    → (ungrouped (group_int s) ≡ strip_zeros s) × (read 0 (ungrouped (group_int s)) ≡ read 0 s)
unfolding group_int
group_int-digits [] h = (refl, refl)
group_int-digits (c ∷ s) h =
    let plain : (c == 45) ≡ false = ground (arith, h.0) in
    let digits_left : ungrouped (group_digits (strip_zeros (c ∷ s))) ≡ strip_zeros (c ∷ s) =
      group_digits-ungrouped (strip_zeros (c ∷ s)) (strip_zeros-IsDigits (c ∷ s) h) in
    rw plain (digits_left, ap (read 0) digits_left ∙ read-strip_zeros (c ∷ s))
