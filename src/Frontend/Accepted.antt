-- ===== src/Frontend/Accepted.antt =====
-- What the form of a journal entry sends, against the check of the service that receives it.
use arka_erp.Base.{
  ℕ, zero, suc, ◌+◌, ◌-◌, ◌*◌, ◌/◌, ◌≤◌, ◌≡◌, ◌↔◌, refl, sym, ap, ◌∙◌, true, Option, none, some,
  List, [], ◌∷◌, ◌&&◌, ◌==◌, ltb, leb, if◌then◌else◌, every, All, length, length-append, arith, inl,
  inr, Bool-cases,
}
use arka_erp.Base.Texts.{Text, codes, text_eq, text_eq-true}
use arka_erp.Base.Decimal.{
  decimal, digits, read, read-decimal, decimal-IsDigits, length-decimal_some,
}
use arka_erp.Base.Effect.{ok}
use arka_erp.Ledger.{Side, Line}
use arka_erp.Ledger.Lines.{total_debit, total_credit, one_sided}
use arka_erp.Journal.Dto.{
  LineDto, CreateJournalDto, big_int, read_digits, is_digit, is_valid_line, or_zero,
}
use arka_erp.Journal.{amount, line_rows, assert_balanced}
use arka_erp.Journal.Balanced.{AreOneSided, assert_balanced_iff}
use arka_erp.Frontend.Toman.{entered, to_rial, to_toman, to_rial-decimal, to_toman-decimal}
use arka_erp.Frontend.JournalForm.{
  FormLine, Form, is_debit, sum_form, is_balanced, add_line, splice, remove_line, empty_line, Edit,
  adds, removes, edit_lines, line_dto, joined, line_dtos, payload, sent, submit, open_line,
}

read_digits-read : (acc : ℕ) (s : Text) → read_digits acc s ≡ read acc s
read_digits-read acc [] = refl
read_digits-read acc (c ∷ s) = read_digits-read (acc * 10 + (c - 48)) s

every-digits : (s : Text) → All (λ c. (leb 48 c && leb c 57) ≡ true) s → every is_digit s ≡ true
every-digits [] h = refl
every-digits (c ∷ s) h = ground (arith, h.0, every-digits s h.1)

or_zero-some : (s : Text) → 1 ≤ length s → or_zero s ≡ s
or_zero-some [] h = absurd (omega arith)
or_zero-some (c ∷ s) h = refl

-- The service reads the amount that the database or the form printed.
amount-decimal : (n : ℕ) → amount (decimal n) ≡ n
unfolding big_int
amount-decimal n =
    rw
      (
        or_zero-some (decimal n) (length-decimal_some n),
        every-digits (decimal n) (decimal-IsDigits n),
        read_digits-read 0 (decimal n),
        read-decimal n,
      )
      refl

amount-zero : amount (codes "0") ≡ 0
unfolding big_int
amount-zero = refl

amount-to_rial : (t : Text) → amount (to_rial t) ≡ entered t * 10
unfolding to_rial big_int
amount-to_rial [] = refl
amount-to_rial (c ∷ t) = amount-decimal (entered (c ∷ t) * 10)

line_amounts_sent :
    (l : FormLine) (account : ℕ)
    → (amount (line_dto l account).debit ≡ (if is_debit l.side then entered l.amount * 10 else 0))
      × (amount (line_dto l account).credit
          ≡ (if is_debit l.side then 0 else entered l.amount * 10))
line_amounts_sent l account = elim (Bool-cases (is_debit l.side)) [
  | inl debit ↦ rw debit (amount-to_rial l.amount, amount-zero)
  | inr credit ↦ rw credit (amount-zero, amount-to_rial l.amount)
]

-- The amounts of the form on each side.
form_debit : List FormLine → ℕ
form_debit [] = 0
form_debit (l ∷ ls) = (if is_debit l.side then entered l.amount else 0) + form_debit ls

form_credit : List FormLine → ℕ
form_credit [] = 0
form_credit (l ∷ ls) = (if is_debit l.side then 0 else entered l.amount) + form_credit ls

sum_form_lem :
    (d c : ℕ) (ls : List FormLine) → sum_form d c ls ≡ (d + form_debit ls, c + form_credit ls)
unfolding form_debit form_credit
sum_form_lem d c [] = ground arith
sum_form_lem d c (l ∷ ls) = elim (Bool-cases (is_debit l.side)) [
  | inl debit ↦ rw debit (sum_form_lem (d + entered l.amount) c ls ∙ ground arith)
  | inr credit ↦ rw credit (sum_form_lem d (c + entered l.amount) ls ∙ ground arith)
]

abbrev pub HasAmount : FormLine → Type 0
HasAmount l = 1 ≤ entered l.amount

-- What is known of the rows that the service makes of a form's lines.
Sent : ℕ → List FormLine → List LineDto → Type 0
Sent n ls dtos =
    (total_debit (line_rows n dtos) ≡ form_debit ls * 10)
    × (total_credit (line_rows n dtos) ≡ form_credit ls * 10)
    × (AreOneSided (line_rows n dtos) ↔ All HasAmount ls)

joined_inverse :
    (l : FormLine) (a : Option ℕ) (o : Option (List LineDto)) (dtos : List LineDto)
    → joined l a o ≡ some dtos
    → (account : ℕ) × (rest : List LineDto) × (o ≡ some rest) × (dtos ≡ line_dto l account ∷ rest)
joined_inverse l none o dtos e = absurd (ground arith)
joined_inverse l (some account) none dtos e = absurd (ground arith)
joined_inverse l (some account) (some rest) dtos e = (account, rest, refl, ground arith)

sent_lem :
    (n : ℕ) (ls : List FormLine) (dtos : List LineDto) → line_dtos ls ≡ some dtos → Sent n ls dtos
unfolding Sent form_debit form_credit
sent_lem n [] dtos e =
    let none_sent : dtos ≡ [] = ground arith in
    rw none_sent (omega arith, omega arith, (λ h. tt, λ h. tt))
sent_lem n (l ∷ ls) dtos e =
    let (account, rest, found, whole) = joined_inverse l l.account_id (line_dtos ls) dtos e in
    let (debits, credits, sides) = sent_lem (n + 1) ls rest found in
    let (debit, credit) = line_amounts_sent l account in
    rw (whole, debit, credit)
      (elim (Bool-cases (is_debit l.side)) [
        | inl d ↦ rw d (
          omega (arith, debits),
          omega (arith, credits),
          (λ h. (ground (arith, h.0), sides.0 h.1), λ k. (ground (arith, k.0), sides.1 k.1)),
        )
        | inr c ↦ rw c (
          omega (arith, debits),
          omega (arith, credits),
          (λ h. (ground (arith, h.0), sides.0 h.1), λ k. (ground (arith, k.0), sides.1 k.1)),
        )
      ])

submit_inverse :
    (form : Form) (o : Option (List LineDto)) (dto : CreateJournalDto)
    → sent form o ≡ some dto
    → (o ≡ some dto.lines) × (dto ≡ payload form dto.lines)
submit_inverse form none dto e = absurd (ground arith)
submit_inverse form (some lines) dto e =
    let same : payload form lines ≡ dto = ground arith in (rw (sym same) refl, rw (sym same) refl)

-- A request that the form sends, and that passes the validation, is accepted by the service's check
-- exactly when an amount was entered in every line.
pub submit-accepted :
    (form : Form) (dto : CreateJournalDto)
    → submit form ≡ some dto
    → every is_valid_line dto.lines ≡ true
    → (assert_balanced dto ≡ ok tt) ↔ All HasAmount form.lines
unfolding submit is_balanced Sent
submit-accepted form dto e valid = elim (Bool-cases (is_balanced form.lines)) [
  | inl even ↦
      let (found, _) = submit_inverse form (line_dtos form.lines) dto (rw even at e) in
      let (debits, credits, sides) = sent_lem 1 form.lines dto.lines found in
      let checked = assert_balanced_iff dto valid in
      (
        λ h. sides.0 (checked.0 h).0,
        λ k. checked.1 (sides.1 k, sums debits credits (rw (sum_form_lem 0 0 form.lines) at even)),
      )
  | inr odd ↦ absurd (ground (arith, odd, e))
]
  where
    sums :
        total_debit (line_rows 1 dto.lines) ≡ form_debit form.lines * 10
        → total_credit (line_rows 1 dto.lines) ≡ form_credit form.lines * 10
        → (0 + form_debit form.lines == 0 + form_credit form.lines
            && ltb 0 (0 + form_debit form.lines))
          ≡ true
        → total_debit (line_rows 1 dto.lines) ≡ total_credit (line_rows 1 dto.lines)
    sums debits credits same = ground (arith, debits, credits, same)

splice-length : (i : ℕ) (ls : List FormLine) → length ls ≤ length (splice i ls) + 1
splice-length i [] = omega arith
splice-length zero (l ∷ ls) = omega arith
splice-length (suc i) (l ∷ ls) = omega (arith, splice-length i ls)

remove_line-length : (i : ℕ) (ls : List FormLine) → 2 ≤ length ls → 2 ≤ length (remove_line i ls)
remove_line-length i ls h = ground (arith, h, splice-length i ls)

-- The buttons of the form never leave fewer than two lines, which the validation asks for.
pub edit_lines-length :
    (es : List Edit) (ls : List FormLine) → 2 ≤ length ls → 2 ≤ length (edit_lines es ls)
unfolding edit_lines
edit_lines-length [] ls h = h
edit_lines-length (adds ∷ es) ls h =
    edit_lines-length es (add_line ls)
      (omega (arith, length-append ls (empty_line Side.debit ∷ [])))
edit_lines-length (removes i ∷ es) ls h =
    edit_lines-length es (remove_line i ls) (remove_line-length i ls h)

has_debit-decimal : (n : ℕ) → text_eq (decimal n) (codes "0") ≡ (n == 0)
unfolding decimal digits
has_debit-decimal n = elim (Bool-cases (n == 0)) [
  | inl nothing ↦ let it : n ≡ 0 = ground (arith, nothing) in rw it refl
  | inr something ↦ elim (Bool-cases (text_eq (decimal n) (codes "0"))) [
    | inl same ↦
        let zero_text = ap (read 0) (text_eq-true (decimal n) (codes "0") same) in
        absurd (ground (arith, something, zero_text, read-decimal n))
    | inr other ↦ rw (other, something) refl
  ]
]

-- A line of a draft that is opened in the form and sent as it is: its amount is rounded down to whole
-- Toman, on the same side, and its project is left out.
pub line_dto-open_line :
    (l : Line)
    → one_sided l.debit l.credit ≡ true
    → (amount (line_dto (open_line l) l.account_id).debit ≡ l.debit / 10 * 10)
      × (amount (line_dto (open_line l) l.account_id).credit ≡ l.credit / 10 * 10)
      × ((line_dto (open_line l) l.account_id).project_id ≡ none)
line_dto-open_line l one = elim (Bool-cases (l.debit == 0)) [
  | inl nothing ↦
      let it : l.debit ≡ 0 = ground (arith, nothing) in
      rw (has_debit-decimal l.debit, nothing)
        (amount-zero ∙ ground (arith, it), rounded l.credit, refl)
  | inr something ↦
      let other : l.credit ≡ 0 = ground (arith, something, one) in
      rw (has_debit-decimal l.debit, something)
        (rounded l.debit, amount-zero ∙ ground (arith, other), refl)
]
  where
    rounded : (n : ℕ) → amount (to_rial (to_toman (decimal n))) ≡ n / 10 * 10
    rounded n = rw (to_toman-decimal n, to_rial-decimal (n / 10)) (amount-decimal (n / 10 * 10))
