-- ===== src/Journal/Balanced.antt =====
-- `assertBalanced`, whose loop reads the amounts of a request, against the rows that are inserted.
use arka_erp.Base.{
  ℕ, ◌+◌, ◌≡◌, ◌↔◌, refl, ◌∙◌, true, some, List, [], ◌∷◌, arith, ◌==◌, if◌then◌else◌, every, ◌&&◌,
  ◌||◌, ltb, All, inl, inr, Bool-cases,
}
use arka_erp.Base.Texts.{Text}
use arka_erp.Base.Effect.{ok, err, result_cases, bad_line}
use arka_erp.Ledger.{Line}
use arka_erp.Ledger.Lines.{total_debit, total_credit, one_sided}
use arka_erp.Journal.Dto.{
  LineDto, CreateJournalDto, matches_amount, or_zero, big_int, is_valid_line,
}
use arka_erp.Journal.{amount, line_rows, line_amounts, sum_lines, assert_balanced}

abbrev pub AreOneSided : List Line → Type 0
AreOneSided ls = All (λ l. one_sided l.debit l.credit ≡ true) ls

-- A valid amount is read.
amount-big_int : (t : Text) → matches_amount t ≡ true → big_int (or_zero t) ≡ some (amount t)
unfolding big_int
amount-big_int [] h = ground arith
amount-big_int (c ∷ t) h = ground arith

one_sided_lem :
    {A : Type 0} (d c : ℕ) (x y : A)
    → (if (ltb 0 d && ltb 0 c) || (d == 0 && c == 0) then x else y)
      ≡ (if one_sided d c then y else x)
one_sided_lem d c x y = ground arith

line_amounts_read :
    (i : ℕ) (l : LineDto) (d c : ℕ)
    → big_int (or_zero l.debit) ≡ some d
    → big_int (or_zero l.credit) ≡ some c
    → line_amounts i l ≡ (if one_sided d c then ok (d, c) else err (bad_line (i + 1)))
unfolding line_amounts
line_amounts_read i l d c read_d read_c = rw (read_d, read_c, line_amounts) (one_sided_lem d c _ _)

line_amounts_lem :
    (i : ℕ) (l : LineDto)
    → is_valid_line l ≡ true
    → line_amounts i l ≡ (
        if one_sided (amount l.debit) (amount l.credit)
        then ok (amount l.debit, amount l.credit)
        else err (bad_line (i + 1)))
line_amounts_lem i l h =
    line_amounts_read i l (amount l.debit) (amount l.credit) (amount-big_int l.debit (ground arith))
      (amount-big_int l.credit (ground arith))

sum_lines_nil : (i a c : ℕ) → sum_lines i a c [] ≡ ok (a, c)
unfolding sum_lines
sum_lines_nil i a c = refl

-- One round of the loop.
sum_lines_round :
    (i a c : ℕ) (l : LineDto) (ls : List LineDto)
    → is_valid_line l ≡ true
    → sum_lines i a c (l ∷ ls) ≡ (
        if one_sided (amount l.debit) (amount l.credit)
        then sum_lines (i + 1) (a + amount l.debit) (c + amount l.credit) ls
        else err (bad_line (i + 1)))
unfolding sum_lines
sum_lines_round i a c l ls valid =
    elim (Bool-cases (one_sided (amount l.debit) (amount l.credit))) [
      | inl one ↦ rw (line_amounts_lem i l valid, one, sum_lines) refl
      | inr two ↦ rw (line_amounts_lem i l valid, two, sum_lines) refl
    ]

-- The loop ends without an exception exactly when each line has one side, and then has both sums.
sum_lines_ok :
    (i n a c : ℕ) (ls : List LineDto)
    → every is_valid_line ls ≡ true
    → AreOneSided (line_rows n ls)
    → sum_lines i a c ls ≡ ok (a + total_debit (line_rows n ls), c + total_credit (line_rows n ls))
sum_lines_ok i n a c [] valid one = sum_lines_nil i a c ∙ ground arith
sum_lines_ok i n a c (l ∷ ls) valid one =
    sum_lines_round i a c l ls (ground arith)
    ∙ rw one.0 (
        sum_lines_ok (i + 1) (n + 1) (a + amount l.debit) (c + amount l.credit) ls (ground arith)
          one.1
        ∙ ground arith)

sum_lines_one_sided :
    (i n a c : ℕ) (ls : List LineDto) (p : ℕ × ℕ)
    → every is_valid_line ls ≡ true
    → sum_lines i a c ls ≡ ok p
    → AreOneSided (line_rows n ls)
sum_lines_one_sided i n a c [] p valid h = tt
sum_lines_one_sided i n a c (l ∷ ls) p valid h =
    let round = sum_lines_round i a c l ls (ground arith) in
    elim (Bool-cases (one_sided (amount l.debit) (amount l.credit))) [
      | inl one ↦ (
        one,
        sum_lines_one_sided (i + 1) (n + 1) (a + amount l.debit) (c + amount l.credit) ls p
            (ground arith) (ground arith),
      )
      | inr two ↦ absurd (ground arith)
    ]

-- `assertBalanced` accepts a request whose amounts have passed the validation exactly when each of
-- its lines has a debit or a credit and not both, and the debits add up to the credits.
pub assert_balanced_iff :
    (dto : CreateJournalDto)
    → every is_valid_line dto.lines ≡ true
    → (assert_balanced dto ≡ ok tt) ↔ (
        AreOneSided (line_rows 1 dto.lines)
        × (total_debit (line_rows 1 dto.lines) ≡ total_credit (line_rows 1 dto.lines)))
unfolding assert_balanced
assert_balanced_iff dto valid = (
  λ h. elim (result_cases (sum_lines 0 0 0 dto.lines)) [
    | inl ((d, c), done) ↦
        let one = sum_lines_one_sided 0 1 0 0 dto.lines (d, c) valid done in
        (one, ground (arith, sum_lines_ok 0 1 0 0 dto.lines valid one))
    | inr (x, failed) ↦ absurd (ground arith)
  ],
  λ (one, even). ground (arith, sum_lines_ok 0 1 0 0 dto.lines valid one),
)
