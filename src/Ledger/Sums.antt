-- ===== src/Ledger/Sums.antt =====
-- Sums over lines and entries: what the booked entries add up to on one account, and how an update
-- of one entry changes it.
use arka_erp.Base.{
  ℕ, ◌≡◌, refl, Bool, true, false, some, List, [], ◌∷◌, ◌++◌, map, arith, ◌==◌, if◌then◌else◌,
  length, inl, inr, Bool-cases,
}
use arka_erp.Base.Int.{ℤ, pos, ◌+ℤ◌, int_laws, parts, sub_ℕ-parts}
use arka_erp.Base.Tables.{find_by, update_by}
use arka_erp.Ledger.{Side, Status, draft, posted, reversed, void, Line, Entry}
use arka_erp.Ledger.Lines.{total_debit, total_credit, natural, delta, touches}
use arka_erp.Ledger.Posting.{mirror_line}

-- An entry whose lines count in the balances: it was posted, and may have been reversed since.
abbrev pub is_booked : Status → Bool
is_booked draft = false
is_booked posted = true
is_booked reversed = true
is_booked void = false

-- What an entry adds to an account.
abbrev pub effect : ℕ → Side → Entry → ℤ
effect i s e = if is_booked e.status then delta i s e.lines else pos 0

-- What all entries add to an account.
abbrev pub booked : ℕ → Side → List Entry → ℤ
booked i s [] = pos 0
booked i s (e ∷ es) = effect i s e +ℤ booked i s es

pub booked-update_by :
    (i : ℕ) (s : Side) (k : ℕ) (f : Entry → Entry) (es : List Entry) (e : Entry)
    → find_by (λ r. r.id) k es ≡ some e
    → booked i s (update_by (λ r. r.id) k f es) +ℤ effect i s e ≡ booked i s es +ℤ effect i s (f e)
booked-update_by i s k f [] e h = ground arith
booked-update_by i s k f (x ∷ es) e h = elim (Bool-cases (x.id == k)) [
  | inl hit ↦ let same : x ≡ e = ground arith in rw hit (rw (← same) (omega int_laws))
  | inr miss ↦ rw miss (omega (int_laws, parts (booked-update_by i s k f es e (rw miss at h))))
]

-- The same sum, when the entry's part does not change.
pub booked-update_same :
    (i : ℕ) (s : Side) (k : ℕ) (f : Entry → Entry) (es : List Entry) (e : Entry)
    → find_by (λ r. r.id) k es ≡ some e
    → effect i s (f e) ≡ effect i s e
    → booked i s (update_by (λ r. r.id) k f es) ≡ booked i s es
booked-update_same i s k f es e h same =
    omega (int_laws, parts (booked-update_by i s k f es e h), parts same)

pub delta_untouched :
    (i : ℕ) (s : Side) (ls : List Line) → touches i ls ≡ false → delta i s ls ≡ pos 0
delta_untouched i s [] h = refl
delta_untouched i s (l ∷ ls) h = ground (arith, delta_untouched i s ls)

pub delta-append :
    (i : ℕ) (s : Side) (ls ks : List Line) → delta i s (ls ++ ks) ≡ delta i s ls +ℤ delta i s ks
delta-append i s [] ks = omega int_laws
delta-append i s (l ∷ ls) ks = elim (Bool-cases (l.account_id == i)) [
  | inl hit ↦ rw hit (omega (int_laws, parts (delta-append i s ls ks)))
  | inr miss ↦ rw miss (delta-append i s ls ks)
]

natural_swap : (s : Side) (d c : ℕ) → natural s c d +ℤ natural s d c ≡ pos 0
natural_swap Side.debit d c = omega (int_laws, sub_ℕ-parts)
natural_swap Side.credit d c = omega (int_laws, sub_ℕ-parts)

-- A contra entry takes back exactly what the entry added.
pub delta-mirror :
    (i : ℕ) (s : Side) (ls : List Line) → delta i s (map mirror_line ls) +ℤ delta i s ls ≡ pos 0
delta-mirror i s [] = omega int_laws
delta-mirror i s (l ∷ ls) = elim (Bool-cases (l.account_id == i)) [
  | inl hit ↦
      rw hit
        (omega (int_laws, parts (delta-mirror i s ls), parts (natural_swap s l.debit l.credit)))
  | inr miss ↦ rw miss (delta-mirror i s ls)
]

pub total_debit-mirror : (ls : List Line) → total_debit (map mirror_line ls) ≡ total_credit ls
total_debit-mirror [] = refl
total_debit-mirror (l ∷ ls) = omega (arith, total_debit-mirror ls)

pub total_credit-mirror : (ls : List Line) → total_credit (map mirror_line ls) ≡ total_debit ls
total_credit-mirror [] = refl
total_credit-mirror (l ∷ ls) = omega (arith, total_credit-mirror ls)

pub length-mirror : (ls : List Line) → length (map mirror_line ls) ≡ length ls
length-mirror [] = refl
length-mirror (l ∷ ls) = omega (arith, length-mirror ls)
