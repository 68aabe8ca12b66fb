-- ===== src/Ledger/Equation.antt =====
-- The accounting equation: in a sound ledger the balances of the accounts, each counted on its
-- debit side, add up to zero.
use arka_erp.Base.{
  ℕ, ◌≤◌, ◌≡◌, refl, ◌∙◌, true, false, List, [], ◌∷◌, arith, ◌==◌, if◌then◌else◌, All, inl, inr,
  Bool-cases,
}
use arka_erp.Base.Int.{ℤ, pos, sub_ℕ, ◌+ℤ◌, ◌-ℤ◌, int_laws, parts, sub_ℕ-parts}
use arka_erp.Base.Tables.{count_by}
use arka_erp.Ledger.{Side, Account, Line, Entry, Books}
use arka_erp.Ledger.Lines.{total_debit, total_credit, natural, delta}
use arka_erp.Ledger.Sums.{is_booked, effect, booked}
use arka_erp.Ledger.Sound.{AreKnown, EntrySound, IsEven, Agrees, IsSound}

-- A natural balance, seen from the debit side.
abbrev pub on_debit_side : Side → ℤ → ℤ
on_debit_side Side.debit x = x
on_debit_side Side.credit x = pos 0 -ℤ x

-- The trial balance: debit balances less credit balances.
abbrev pub trial_total : List Account → ℤ
trial_total [] = pos 0
trial_total (a ∷ accts) = on_debit_side a.normal_balance a.balance +ℤ trial_total accts

-- The sum over the accounts of what lines or entries add to each.
abbrev lines_total : List Line → List Account → ℤ
lines_total ls [] = pos 0
lines_total ls (a ∷ accts) =
    on_debit_side a.normal_balance (delta a.id a.normal_balance ls) +ℤ lines_total ls accts

abbrev booked_total : List Entry → List Account → ℤ
booked_total es [] = pos 0
booked_total es (a ∷ accts) =
    on_debit_side a.normal_balance (booked a.id a.normal_balance es) +ℤ booked_total es accts

on_debit_side-add :
    (s : Side) (x y : ℤ) → on_debit_side s (x +ℤ y) ≡ on_debit_side s x +ℤ on_debit_side s y
on_debit_side-add Side.debit x y = refl
on_debit_side-add Side.credit x y = omega int_laws

on_debit_side-natural : (s : Side) (d c : ℕ) → on_debit_side s (natural s d c) ≡ sub_ℕ d c
on_debit_side-natural Side.debit d c = refl
on_debit_side-natural Side.credit d c = omega (int_laws, sub_ℕ-parts)

on_debit_side-zero : (s : Side) → on_debit_side s (pos 0) ≡ pos 0
on_debit_side-zero Side.debit = refl
on_debit_side-zero Side.credit = omega int_laws

-- What one line adds over all accounts.
abbrev line_total : Line → List Account → ℤ
line_total l [] = pos 0
line_total l (a ∷ accts) =
    (if l.account_id == a.id then sub_ℕ l.debit l.credit else pos 0) +ℤ line_total l accts

line_total_absent :
    (l : Line) (accts : List Account)
    → count_by (λ a. a.id) l.account_id accts ≡ 0
    → line_total l accts ≡ pos 0
line_total_absent l [] h = refl
line_total_absent l (a ∷ accts) h = elim (Bool-cases (l.account_id == a.id)) [
  | inl hit ↦ ground arith
  | inr miss ↦ rw miss (omega (int_laws, parts (line_total_absent l accts (omega arith))))
]

line_total_once :
    (l : Line) (accts : List Account)
    → count_by (λ a. a.id) l.account_id accts ≡ 1
    → line_total l accts ≡ sub_ℕ l.debit l.credit
line_total_once l [] h = absurd (omega arith)
line_total_once l (a ∷ accts) h = elim (Bool-cases (l.account_id == a.id)) [
  | inl hit ↦ rw hit (omega (int_laws, parts (line_total_absent l accts (ground arith))))
  | inr miss ↦ rw miss (omega (int_laws, parts (line_total_once l accts (ground arith))))
]

delta_step :
    (a : Account) (l : Line) (ls : List Line)
    → on_debit_side a.normal_balance (delta a.id a.normal_balance (l ∷ ls))
      ≡ (if l.account_id == a.id then sub_ℕ l.debit l.credit else pos 0)
        +ℤ on_debit_side a.normal_balance (delta a.id a.normal_balance ls)
delta_step a l ls = elim (Bool-cases (l.account_id == a.id)) [
  | inl hit ↦ rw hit (
      on_debit_side-add a.normal_balance _ _
      ∙ rw (on_debit_side-natural a.normal_balance l.debit l.credit))
  | inr miss ↦ rw miss (omega int_laws)
]

lines_total-cons :
    (l : Line) (ls : List Line) (accts : List Account)
    → lines_total (l ∷ ls) accts ≡ line_total l accts +ℤ lines_total ls accts
lines_total-cons l ls [] = omega int_laws
lines_total-cons l ls (a ∷ accts) =
    omega (int_laws, parts (delta_step a l ls), parts (lines_total-cons l ls accts))

lines_total-nil : (accts : List Account) → lines_total [] accts ≡ pos 0
lines_total-nil [] = refl
lines_total-nil (a ∷ accts) =
    omega (int_laws, parts (on_debit_side-zero a.normal_balance), parts (lines_total-nil accts))

-- Over distinct accounts that hold all the lines, the lines add their debits less their credits.
lines_total-sub :
    (ls : List Line) (accts : List Account)
    → ((i : ℕ) → count_by (λ a. a.id) i accts ≤ 1)
    → AreKnown accts ls
    → lines_total ls accts ≡ sub_ℕ (total_debit ls) (total_credit ls)
lines_total-sub [] accts distinct known = lines_total-nil accts
lines_total-sub (l ∷ ls) accts distinct known =
    lines_total-cons l ls accts
    ∙ omega (
      int_laws,
      parts (line_total_once l accts (omega (arith, distinct l.account_id, known.0))),
      parts (lines_total-sub ls accts distinct known.1),
      sub_ℕ-parts,
    )

effect_total : Entry → List Account → ℤ
effect_total e [] = pos 0
effect_total e (a ∷ accts) =
    on_debit_side a.normal_balance (effect a.id a.normal_balance e) +ℤ effect_total e accts

effect_total_zero :
    (e : Entry) (accts : List Account)
    → ((i : ℕ) → count_by (λ a. a.id) i accts ≤ 1)
    → EntrySound accts e
    → effect_total e accts ≡ pos 0
unfolding effect_total
effect_total_zero e accts distinct sound = elim (Bool-cases (is_booked e.status)) [
  | inl on ↦
      counted accts on
      ∙ lines_total-sub e.lines accts distinct sound.0
      ∙ rw (IsEven.even (rw on at sound.1)) (omega (int_laws, sub_ℕ-parts))
  | inr off ↦ nothing accts off
]
  where
    counted :
        (cs : List Account) → is_booked e.status ≡ true → effect_total e cs ≡ lines_total e.lines cs
    counted [] on = refl
    counted (a ∷ cs) on = rw (on, counted cs on) refl

    nothing : (cs : List Account) → is_booked e.status ≡ false → effect_total e cs ≡ pos 0
    nothing [] off = refl
    nothing (a ∷ cs) off =
        rw off
          (omega (int_laws, parts (on_debit_side-zero a.normal_balance), parts (nothing cs off)))

booked_total-cons :
    (e : Entry) (es : List Entry) (accts : List Account)
    → booked_total (e ∷ es) accts ≡ effect_total e accts +ℤ booked_total es accts
unfolding effect_total
booked_total-cons e es [] = omega int_laws
booked_total-cons e es (a ∷ accts) = omega (
  int_laws,
  parts (
      on_debit_side-add a.normal_balance (effect a.id a.normal_balance e)
        (booked a.id a.normal_balance es)),
  parts (booked_total-cons e es accts),
)

booked_total-nil : (accts : List Account) → booked_total [] accts ≡ pos 0
booked_total-nil [] = refl
booked_total-nil (a ∷ accts) =
    omega (int_laws, parts (on_debit_side-zero a.normal_balance), parts (booked_total-nil accts))

booked_total_zero :
    (es : List Entry) (accts : List Account)
    → ((i : ℕ) → count_by (λ a. a.id) i accts ≤ 1)
    → All (EntrySound accts) es
    → booked_total es accts ≡ pos 0
booked_total_zero [] accts distinct h = booked_total-nil accts
booked_total_zero (e ∷ es) accts distinct h =
    booked_total-cons e es accts
    ∙ omega (
      int_laws,
      parts (effect_total_zero e accts distinct h.0),
      parts (booked_total_zero es accts distinct h.1),
    )

trial_total-booked :
    (es : List Entry) (accts : List Account)
    → All (Agrees es) accts
    → trial_total accts ≡ booked_total es accts
trial_total-booked es [] h = refl
trial_total-booked es (a ∷ accts) h = rw (h.0, trial_total-booked es accts h.1)

pub trial_total_zero : (b : Books) → IsSound b → trial_total b.accounts ≡ pos 0
trial_total_zero b h =
    trial_total-booked b.entries b.accounts h.agree
    ∙ booked_total_zero b.entries b.accounts h.distinct h.entries
