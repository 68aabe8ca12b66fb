-- ===== src/Journal/Sound.antt =====
-- Every history of requests keeps the ledger sound, so the trial balance stays at zero.
use arka_erp.Base.{
  ℕ, ◌≤◌, ◌≡◌, refl, sym, Option, none, some, List, [], ◌∷◌, arith, ◌==◌, All, inl, inr, Bool-cases,
  Option-cases,
}
use arka_erp.Base.Int.{pos, int_laws, parts}
use arka_erp.Base.Tables.{find_by, update_by, count_by, All-update_by, update_by-none}
use arka_erp.Ledger.{Side, Account, Line, Entry, Books, Context}
use arka_erp.Ledger.Lines.{delta}
use arka_erp.Ledger.Sums.{is_booked, effect, booked, booked-update_same}
use arka_erp.Ledger.Sound.{
  AreKnown, EntrySound, EntrySound-mono, Agrees, IsSound, post-IsSound, reverse-IsSound,
  insert-IsSound, Agrees-same,
}
use arka_erp.Ledger.Equation.{trial_total, trial_total_zero}
use arka_erp.Journal.Dto.{CreateAccountDto}
use arka_erp.Journal.Accounts.{new_account, parent_not_postable}
use arka_erp.Journal.Calls.{Call, run}
use arka_erp.Journal.Keeps.{Kept, Edits, run-keeps}

-- An account that no line is on has nothing booked.
delta_unknown :
    (i : ℕ) (s : Side) (accts : List Account) (ls : List Line)
    → count_by (λ a. a.id) i accts ≡ 0
    → AreKnown accts ls
    → delta i s ls ≡ pos 0
delta_unknown i s accts [] new known = refl
delta_unknown i s accts (l ∷ ls) new known = elim (Bool-cases (l.account_id == i)) [
  | inl hit ↦
      let same : l.account_id ≡ i = ground arith in
      let one : 1 ≤ count_by (λ a. a.id) i accts = rw same at known.0 in absurd (omega arith)
  | inr miss ↦ rw miss (delta_unknown i s accts ls new known.1)
]

effect_unknown :
    (i : ℕ) (s : Side) (accts : List Account) (e : Entry)
    → count_by (λ a. a.id) i accts ≡ 0
    → AreKnown accts e.lines
    → effect i s e ≡ pos 0
effect_unknown i s accts e new known = elim (Bool-cases (is_booked e.status)) [
  | inl on ↦ rw on (delta_unknown i s accts e.lines new known)
  | inr off ↦ rw off
]

booked_unknown :
    (i : ℕ) (s : Side) (accts : List Account) (es : List Entry)
    → count_by (λ a. a.id) i accts ≡ 0
    → All (EntrySound accts) es
    → booked i s es ≡ pos 0
booked_unknown i s accts [] new h = refl
booked_unknown i s accts (e ∷ es) new h = omega (
  int_laws,
  parts (effect_unknown i s accts e new h.0.0),
  parts (booked_unknown i s accts es new h.1),
)

-- Making a parent a control account changes no id, side or balance.
count_by-parent :
    (i : ℕ) (p : Option ℕ) (accts : List Account)
    → count_by (λ a. a.id) i (parent_not_postable p accts) ≡ count_by (λ a. a.id) i accts
count_by-parent i none accts = refl
count_by-parent i (some p) [] = refl
count_by-parent i (some p) (a ∷ accts) = ground (arith, count_by-parent i (some p) accts)

Agrees-parent :
    (es : List Entry) (p : Option ℕ) (accts : List Account)
    → All (Agrees es) accts
    → All (Agrees es) (parent_not_postable p accts)
Agrees-parent es none accts h = h
Agrees-parent es (some p) [] h = tt
Agrees-parent es (some p) (a ∷ accts) h = elim (Bool-cases (a.id == p)) [
  | inl hit ↦ rw hit (h.0, h.1)
  | inr miss ↦ rw miss (h.0, Agrees-parent es (some p) accts h.1)
]

account-IsSound :
    (ctx : Context) (dto : CreateAccountDto) (b : Books)
    → count_by (λ a. a.id) ctx.new_id b.accounts ≡ 0
    → IsSound b
    → IsSound
        (record b { accounts = new_account ctx dto ∷ parent_not_postable dto.parent_id b.accounts })
account-IsSound ctx dto b new h = record {
  distinct = λ i. once i;
  entries =
      EntrySound-mono b.accounts
        (new_account ctx dto ∷ parent_not_postable dto.parent_id b.accounts) b.entries
        (λ i. omega (arith, count_by-parent i dto.parent_id b.accounts)) h.entries;
  agree = (
    sym (booked_unknown ctx.new_id dto.normal_balance b.accounts b.entries new h.entries),
    Agrees-parent b.entries dto.parent_id b.accounts h.agree,
  );
}
  where
    once :
        (i : ℕ)
        → count_by
            (λ a. a.id)
            i
            (new_account ctx dto ∷ parent_not_postable dto.parent_id b.accounts)
          ≤ 1
    once i = elim (Bool-cases (ctx.new_id == i)) [
      | inl hit ↦
          let same : ctx.new_id ≡ i = ground arith in
          rw hit (omega (arith, count_by-parent i dto.parent_id b.accounts, rw same at new))
      | inr miss ↦ rw miss (omega (arith, count_by-parent i dto.parent_id b.accounts, h.distinct i))
    ]

-- A row that an edit touches was a draft and still is one, or did not change.
edited_sound :
    (b : Books) (e f : Entry) → Edits b e f → EntrySound b.accounts e → EntrySound b.accounts f
edited_sound b e f (inl same) sound = rw same sound
edited_sound b e f (inr (was, still, _, inl lines)) sound = (rw lines sound.0, rw still tt)
edited_sound b e f (inr (was, still, _, inr known)) sound = (known, rw still tt)

edited_effect :
    (b : Books) (e f : Entry) (i : ℕ) (s : Side) → Edits b e f → effect i s f ≡ effect i s e
edited_effect b e f i s (inl same) = rw same refl
edited_effect b e f i s (inr (was, still, _, _)) = rw (was, still) refl

edit-IsSound :
    (k : ℕ) (f : Entry → Entry) (b : Books)
    → ((e : Entry) → find_by (λ r. r.id) k b.entries ≡ some e → Edits b e (f e))
    → IsSound b
    → IsSound (record b { entries = update_by (λ r. r.id) k f b.entries })
edit-IsSound k f b edits h = record {
  distinct = h.distinct;
  entries =
      All-update_by (λ r. r.id) (EntrySound b.accounts) k f b.entries h.entries
        (λ r found sound. edited_sound b r (f r) (edits r found) sound);
  agree = Agrees-same b.entries _ b.accounts same h.agree;
}
  where
    same :
        (i : ℕ) (s : Side) → booked i s (update_by (λ r. r.id) k f b.entries) ≡ booked i s b.entries
    same i s = elim (Option-cases (find_by (λ r. r.id) k b.entries)) [
      | inl missing ↦ rw (update_by-none (λ r. r.id) k f b.entries missing)
      | inr (e, found) ↦
          booked-update_same i s k f b.entries e found (edited_effect b e (f e) i s (edits e found))
    ]

IsSound-Kept : Kept IsSound
IsSound-Kept = record {
  by_post = post-IsSound;
  by_reverse = reverse-IsSound;
  by_insert = λ e b new is known h. insert-IsSound e b (rw is refl) known h;
  by_edit = edit-IsSound;
  by_account = account-IsSound;
}

-- From a sound ledger, any sequence of requests to the accounting endpoints, with any data, and
-- whether each of them returns or throws, leaves a sound ledger: account ids are distinct, every
-- line is on an account of the chart, every posted or reversed entry is live, has two lines at
-- least and equal debits and credits, and every cached balance is the sum of the lines of the
-- posted and reversed entries on its account.
pub run-IsSound : (cs : List (Context × Call)) (b : Books) → IsSound b → IsSound (run cs b)
run-IsSound cs b h = run-keeps IsSound IsSound-Kept cs b h

-- From a sound ledger, after any sequence of requests, the cached balances on the debit side and
-- those on the credit side add up to the same amount.
pub trial_total-run :
    (cs : List (Context × Call)) (b : Books) → IsSound b → trial_total (run cs b).accounts ≡ pos 0
trial_total-run cs b h = trial_total_zero (run cs b) (run-IsSound cs b h)
