-- ===== src/Ledger/Sound.antt =====
-- The invariant of the ledger, and that the posting engine keeps it: account ids are distinct; each
-- line is on an account that exists; a booked entry is live, balanced and has two lines at least;
-- and every cached balance is the sum of the booked lines on its account.
use Prim.Native.String.{String}
use arka_erp.Base.{
  ℕ, ◌≤◌, ◌≡◌, refl, ap, sym, subst, ◌∙◌, Bool, true, false, Option, none, some, List, [], ◌∷◌, map,
  arith, length, All, inl, inr, Option-cases, Bool-cases,
}
use arka_erp.Base.Int.{pos, ◌+ℤ◌, int_laws, parts}
use arka_erp.Base.Tables.{find_by, update_by, count_by, count_by-find, All-update_by}
use arka_erp.Ledger.{Side, Account, draft, posted, Line, Entry, Books, Context}
use arka_erp.Ledger.Lines.{total_debit, total_credit, delta, touches, lines_failure, line_failure}
use arka_erp.Ledger.Sums.{
  is_booked, effect, booked, booked-update_by, booked-update_same, delta_untouched,
  total_debit-mirror, total_credit-mirror, length-mirror,
}
use arka_erp.Ledger.Posting.{apply_lines, mark_posted, mirror_line, mark_reversed}
use arka_erp.Ledger.Outcomes.{Posts, Reverses, live_entry-find, contra}

-- Every line stands on an account of the chart.
abbrev pub AreKnown : List Account → List Line → Type 0
AreKnown accounts ls = All (λ l. 1 ≤ count_by (λ a. a.id) l.account_id accounts) ls

-- What a posted or reversed entry has.
pub record IsEven (e : Entry) : Type 0 where
  pub even : total_debit e.lines ≡ total_credit e.lines
  pub two_lines : 2 ≤ length e.lines
  pub kept : e.deleted_at ≡ none

abbrev pub EvenIf : Bool → Entry → Type 0
EvenIf false e = Unit {0}
EvenIf true e = IsEven e

abbrev pub EntrySound : List Account → Entry → Type 0
EntrySound accounts e = AreKnown accounts e.lines × EvenIf (is_booked e.status) e

-- The cached balance is what the booked entries add up to.
abbrev pub Agrees : List Entry → Account → Type 0
Agrees es a = a.balance ≡ booked a.id a.normal_balance es

pub record IsSound (b : Books) : Type 0 where
  pub distinct : (i : ℕ) → count_by (λ a. a.id) i b.accounts ≤ 1
  pub entries : All (EntrySound b.accounts) b.entries
  pub agree : All (Agrees b.entries) b.accounts

-- Posting keeps the accounts' ids.
pub count_by-apply :
    (i : ℕ) (ls : List Line) (accts : List Account)
    → count_by (λ a. a.id) i (map (apply_lines ls) accts) ≡ count_by (λ a. a.id) i accts
unfolding apply_lines
count_by-apply i ls [] = refl
count_by-apply i ls (a ∷ accts) = ground (arith, count_by-apply i ls accts)

-- Soundness of the entries depends on the accounts only through their ids.
pub AreKnown-mono :
    (accts cs : List Account) (ls : List Line)
    → ((i : ℕ) → count_by (λ a. a.id) i accts ≤ count_by (λ a. a.id) i cs)
    → AreKnown accts ls
    → AreKnown cs ls
AreKnown-mono accts cs [] h k = tt
AreKnown-mono accts cs (l ∷ ls) h k =
    (omega (arith, h l.account_id, k.0), AreKnown-mono accts cs ls h k.1)

pub EntrySound-mono :
    (accts cs : List Account) (es : List Entry)
    → ((i : ℕ) → count_by (λ a. a.id) i accts ≤ count_by (λ a. a.id) i cs)
    → All (EntrySound accts) es
    → All (EntrySound cs) es
EntrySound-mono accts cs [] h k = tt
EntrySound-mono accts cs (e ∷ es) h k =
    ((AreKnown-mono accts cs e.lines h k.0.0, k.0.1), EntrySound-mono accts cs es h k.1)

-- Folding lines into an account adds their sum, also where no line touches it.
pub apply_lines-balance :
    (ls : List Line) (a : Account)
    → (apply_lines ls a).balance ≡ a.balance +ℤ delta a.id a.normal_balance ls
unfolding apply_lines
apply_lines-balance ls a = elim (Bool-cases (touches a.id ls)) [
  | inl hit ↦ rw hit
  | inr miss ↦ rw (miss, delta_untouched a.id a.normal_balance ls miss) (omega int_laws)
]

pub apply_lines-key :
    (ls : List Line) (a : Account)
    → ((apply_lines ls a).id ≡ a.id) × ((apply_lines ls a).normal_balance ≡ a.normal_balance)
unfolding apply_lines
apply_lines-key ls a = ground arith

-- If the booked sums grow by the lines, the balances still agree after the lines are applied.
pub Agrees-apply :
    (es fs : List Entry) (ls : List Line) (accts : List Account)
    → ((i : ℕ) (s : Side) → booked i s fs ≡ booked i s es +ℤ delta i s ls)
    → All (Agrees es) accts
    → All (Agrees fs) (map (apply_lines ls) accts)
Agrees-apply es fs ls [] grow h = tt
Agrees-apply es fs ls (a ∷ accts) grow h =
    let (same_id, same_side) = apply_lines-key ls a in
    (
      rw (same_id, same_side)
          (omega (
            int_laws,
            parts (apply_lines-balance ls a),
            parts (grow a.id a.normal_balance),
            parts h.0,
          )),
      Agrees-apply es fs ls accts grow h.1,
    )

-- If no booked sum changes, the balances still agree.
pub Agrees-same :
    (es fs : List Entry) (accts : List Account)
    → ((i : ℕ) (s : Side) → booked i s fs ≡ booked i s es)
    → All (Agrees es) accts
    → All (Agrees fs) accts
Agrees-same es fs [] same h = tt
Agrees-same es fs (a ∷ accts) same h =
    (h.0 ∙ sym (same a.id a.normal_balance), Agrees-same es fs accts same h.1)

-- The database inserts only lines on accounts that it has.
pub lines_failure-AreKnown :
    (accts : List Account) (projects : List ℕ) (ls : List Line)
    → lines_failure accts projects ls ≡ none
    → AreKnown accts ls
unfolding line_failure
lines_failure-AreKnown accts projects [] h = tt
lines_failure-AreKnown accts projects (l ∷ ls) h =
    elim (Option-cases (find_by (λ a. a.id) l.account_id accts)) [
      | inl missing ↦ ground arith
      | inr (a, found) ↦ (
        count_by-find (λ a. a.id) l.account_id accts (λ e. ground arith),
        lines_failure-AreKnown accts projects ls (ground arith),
      )
    ]

find_key :
    (k : ℕ) (b : Books) (t : Books) (ctx : Context) (p : Posts ctx k b t)
    → (find_by (λ r. r.id) k b.entries ≡ some p.entry) × (p.entry.deleted_at ≡ none)
find_key k b t ctx p = live_entry-find k b p.entry p.found

-- A posted draft adds its lines to every booked sum.
posted_grows :
    (ctx : Context) (k : ℕ) (b t : Books) (p : Posts ctx k b t) (i : ℕ) (s : Side)
    → booked i s t.entries ≡ booked i s b.entries +ℤ delta i s p.entry.lines
posted_grows ctx k b t p i s = rw p.result (
    omega (
      int_laws,
      parts (
          booked-update_by i s k (mark_posted ctx p.period) b.entries p.entry
            (find_key k b t ctx p).0),
      parts (draft_effect i s p.entry p.was_draft),
    ))
  where
    draft_effect : (i : ℕ) (s : Side) (e : Entry) → e.status ≡ draft → effect i s e ≡ pos 0
    draft_effect i s e was = ground arith

-- A successful post keeps the ledger sound.
pub post-IsSound : (ctx : Context) (k : ℕ) (b t : Books) → Posts ctx k b t → IsSound b → IsSound t
post-IsSound ctx k b t p h = record {
  distinct =
      λ i. rw p.result (omega (arith, count_by-apply i p.entry.lines b.accounts, h.distinct i));
  entries = rw p.result (
      EntrySound-mono b.accounts (map (apply_lines p.entry.lines) b.accounts)
        (update_by (λ r. r.id) k (mark_posted ctx p.period) b.entries)
        (λ i. omega (arith, count_by-apply i p.entry.lines b.accounts))
        (All-update_by (λ r. r.id) (EntrySound b.accounts) k (mark_posted ctx p.period) b.entries
          h.entries (λ r found sound. (sound.0, marked r found))));
  agree =
      subst (λ u. All (Agrees t.entries) u) (sym (ap (λ u. u.accounts) p.result))
        (Agrees-apply b.entries t.entries p.entry.lines b.accounts (posted_grows ctx k b t p)
          h.agree);
}
  where
    marked :
        (r : Entry) → find_by (λ r. r.id) k b.entries ≡ some r → IsEven (mark_posted ctx p.period r)
    marked r found =
        let same : r ≡ p.entry = ground (arith, (find_key k b t ctx p).0) in
        record {
          even = rw same p.even;
          two_lines = rw same p.two_lines;
          kept = rw same (find_key k b t ctx p).1;
        }

-- A reversed entry still counts, and the contra entry adds its mirrored lines.
reversed_grows :
    (ctx : Context) (k : ℕ) (date : Option ℕ) (memo : Option String) (b t : Books)
    (r : Reverses ctx k date memo b t) (i : ℕ) (s : Side)
    → booked i s t.entries ≡ booked i s b.entries +ℤ delta i s (map mirror_line r.src.lines)
reversed_grows ctx k date memo b t r i s = rw r.result (
    omega (
      int_laws,
      parts (
          booked-update_same i s k mark_reversed b.entries r.src
            (live_entry-find k b r.src r.found).0 (same_effect i s r.src r.was_posted)),
    ))
  where
    same_effect :
        (i : ℕ) (s : Side) (e : Entry)
        → e.status ≡ posted
        → effect i s (mark_reversed e) ≡ effect i s e
    same_effect i s e was = ground arith

-- A successful reversal keeps the ledger sound.
pub reverse-IsSound :
    (ctx : Context) (k : ℕ) (date : Option ℕ) (memo : Option String) (b t : Books)
    → Reverses ctx k date memo b t
    → IsSound b
    → IsSound t
reverse-IsSound ctx k date memo b t r h = record {
  distinct = λ i.
      rw r.result
        (omega (arith, count_by-apply i (map mirror_line r.src.lines) b.accounts, h.distinct i));
  entries = rw r.result (
      EntrySound-mono b.accounts (map (apply_lines (map mirror_line r.src.lines)) b.accounts)
        (mark_posted ctx r.period (contra ctx r.src date memo)
          ∷ update_by (λ x. x.id) k mark_reversed b.entries)
        (λ i. omega (arith, count_by-apply i (map mirror_line r.src.lines) b.accounts))
        (
          (
            lines_failure-AreKnown b.accounts b.projects (map mirror_line r.src.lines) r.fine,
            posted_contra,
          ),
          All-update_by (λ x. x.id) (EntrySound b.accounts) k mark_reversed b.entries h.entries
              (λ x found sound. (sound.0, stays x found sound)),
        ));
  agree =
      subst (λ u. All (Agrees t.entries) u) (sym (ap (λ u. u.accounts) r.result))
        (Agrees-apply b.entries t.entries (map mirror_line r.src.lines) b.accounts
          (reversed_grows ctx k date memo b t r) h.agree);
}
  where
    posted_contra : IsEven (mark_posted ctx r.period (contra ctx r.src date memo))
    posted_contra = record {
      even = omega (arith, r.even, total_debit-mirror r.src.lines, total_credit-mirror r.src.lines);
      two_lines = omega (arith, r.two_lines, length-mirror r.src.lines);
      kept = refl;
    }

    stays :
        (x : Entry)
        → find_by (λ x. x.id) k b.entries ≡ some x
        → EntrySound b.accounts x
        → IsEven (mark_reversed x)
    stays x found sound =
        let same : x ≡ r.src = ground (arith, (live_entry-find k b r.src r.found).0) in
        record {
          even = rw same r.even;
          two_lines = rw same r.two_lines;
          kept = rw same (live_entry-find k b r.src r.found).1;
        }

-- A new entry that is not booked changes no sum.
pub insert-IsSound :
    (e : Entry) (b : Books)
    → is_booked e.status ≡ false
    → AreKnown b.accounts e.lines
    → IsSound b
    → IsSound (record b { entries = e ∷ b.entries })
insert-IsSound e b off known h = record {
  distinct = h.distinct;
  entries = ((known, rw off tt), h.entries);
  agree = Agrees-same b.entries (e ∷ b.entries) b.accounts (λ i s. rw off (omega int_laws)) h.agree;
}
