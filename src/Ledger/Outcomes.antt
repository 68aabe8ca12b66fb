-- ===== src/Ledger/Outcomes.antt =====
-- What a call of the posting engine has done when it returned, and when it does return.
use arka_erp.Base.{
  ℕ, ◌≤◌, ◌≡◌, refl, ap, true, false, Option, none, some, List, [], ◌∷◌, ◌++◌, map, arith, ◌==◌,
  or_else, length, subst, inl, inr, Option-cases, ◌∙◌,
}
use mathlib.Core.List.{append-nil, append_assoc}
use Prim.Native.String.{String}
use arka_erp.Base.Tables.{find_by, update_by, count_by}
use arka_erp.Base.Effect.{ok, err, Failure, Action, ◌>>=◌, ◌>>◌, continue-eq-ok, modify, pure}
use arka_erp.Ledger.{Period, Status, draft, posted, reversed, void, Line, Entry, Books, Context}
use arka_erp.Ledger.Lines.{total_debit, total_credit, line_failure, lines_failure}
use arka_erp.Ledger.Sums.{total_debit-mirror, total_credit-mirror, length-mirror}
use arka_erp.Ledger.Posting.{
  insert_line, insert_lines, insert_entry, live_entry, period_for_date, is_open, is_draft,
  is_posted, apply_lines, mark_posted, fn_post_journal_entry, mirror_line, reversal_entry,
  mark_reversed, fn_reverse_journal_entry, add_line,
}

-- A successful post: its guards held, the lines went into the accounts, the header was marked.
pub record Posts (ctx : Context) (k : ℕ) (b t : Books) : Type 0 where
  pub entry : Entry
  pub period : Period
  pub found : live_entry k b ≡ some entry
  pub was_draft : entry.status ≡ draft
  pub dated : period_for_date entry.entry_date b.periods ≡ some period
  pub is_opened : is_open period.status ≡ true
  pub two_lines : 2 ≤ length entry.lines
  pub even : total_debit entry.lines ≡ total_credit entry.lines
  pub result : t ≡ record b {
    accounts = map (apply_lines entry.lines) b.accounts;
    entries = update_by (λ r. r.id) k (mark_posted ctx period) b.entries;
  }

pub is_draft-eq : (s : Status) → is_draft s ≡ true → s ≡ draft
is_draft-eq draft e = refl
is_draft-eq posted e = cc
is_draft-eq reversed e = cc
is_draft-eq void e = cc

pub is_posted-eq : (s : Status) → is_posted s ≡ true → s ≡ posted
is_posted-eq draft e = cc
is_posted-eq posted e = refl
is_posted-eq reversed e = cc
is_posted-eq void e = cc

pub post_ok :
    (ctx : Context) (k : ℕ) (b : Books) {r : ℕ} {t : Books}
    → fn_post_journal_entry ctx k b ≡ (ok r, t)
    → Posts ctx k b t × (r ≡ k)
unfolding fn_post_journal_entry
post_ok ctx k b {t = t} h = elim (Option-cases (live_entry k b)) [
  | inl missing ↦ ground arith
  | inr (e, found) ↦ elim (Option-cases (period_for_date e.entry_date b.periods)) [
    | inl missing ↦ ground arith
    | inr (p, dated) ↦ (
      record {
        entry = e;
        period = p;
        found = found;
        was_draft = is_draft-eq e.status (ground arith);
        dated = dated;
        is_opened = ground arith;
        two_lines = ground arith;
        even = ground arith;
        result = ground arith;
      },
      ground arith,
    )
  ]
]

-- The loop of insertions succeeds exactly when no line is refused, and then adds the lines to
-- their entry and changes nothing else.
abbrev pub add_lines : List Line → Entry → Entry
add_lines ls e = record e { lines = e.lines ++ ls }

abbrev pub with_lines : ℕ → List Line → Books → Books
with_lines k ls b = record b { entries = update_by (λ e. e.id) k (add_lines ls) b.entries }

update_by-add_nil : (k : ℕ) (es : List Entry) → update_by (λ e. e.id) k (add_lines []) es ≡ es
update_by-add_nil k [] = refl
update_by-add_nil k (e ∷ es) = ground (arith, append-nil e.lines, update_by-add_nil k es)

update_by-add_cons :
    (k : ℕ) (l : Line) (ls : List Line) (es : List Entry)
    → update_by (λ e. e.id) k (add_lines ls) (update_by (λ e. e.id) k (add_line l) es)
      ≡ update_by (λ e. e.id) k (add_lines (l ∷ ls)) es
update_by-add_cons k l ls [] = refl
update_by-add_cons k l ls (e ∷ es) =
    ground (arith, append_assoc e.lines (l ∷ []) ls, update_by-add_cons k l ls es)

pub insert_lines_lem :
    (k : ℕ) (ls : List Line) (b : Books)
    → lines_failure b.accounts b.projects ls ≡ none
    → insert_lines k ls b ≡ (ok tt, with_lines k ls b)
unfolding insert_lines insert_line
insert_lines_lem k [] b h = rw (update_by-add_nil k b.entries)
insert_lines_lem k (l ∷ ls) b h = elim (Option-cases (line_failure b.accounts b.projects l)) [
  | inl fine ↦
      rw (fine, insert_lines, insert_line)
        (insert_lines_lem k ls _ (ground arith) ∙ rw (update_by-add_cons k l ls b.entries))
  | inr (x, bad) ↦ ground arith
]

pub insert_lines_fail :
    (k : ℕ) (ls : List Line) (b : Books) (x : Failure)
    → lines_failure b.accounts b.projects ls ≡ some x
    → (insert_lines k ls b).0 ≡ err x
unfolding insert_lines insert_line
insert_lines_fail k [] b x h = cc
insert_lines_fail k (l ∷ ls) b x h = elim (Option-cases (line_failure b.accounts b.projects l)) [
  | inl fine ↦ rw (fine, insert_lines, insert_line) (insert_lines_fail k ls _ x (ground arith))
  | inr (y, bad) ↦ ground arith
]

pub insert_lines_ok :
    (k : ℕ) (ls : List Line) (b : Books) {r : Unit {0}} {t : Books}
    → insert_lines k ls b ≡ (ok r, t)
    → (lines_failure b.accounts b.projects ls ≡ none) × (t ≡ with_lines k ls b)
insert_lines_ok k ls b {t = t} h = elim (Option-cases (lines_failure b.accounts b.projects ls)) [
  | inl fine ↦ (fine, ground (arith, insert_lines_lem k ls b fine))
  | inr (x, bad) ↦ ground (arith, insert_lines_fail k ls b x bad)
]

pub insert_entry_ok :
    (e : Entry) (b : Books) {r : Unit {0}} {t : Books}
    → insert_entry e b ≡ (ok r, t)
    → (count_by (λ r. r.id) e.id b.entries ≡ 0) × (t ≡ record b { entries = e ∷ b.entries })
unfolding insert_entry
insert_entry_ok e b h = ground arith

abbrev pub contra : Context → Entry → Option ℕ → Option String → Entry
contra ctx src date memo =
    add_lines (map mirror_line src.lines) (reversal_entry ctx src (or_else date ctx.today) memo)

-- A successful reversal: the contra entry, with the mirrored lines, was posted into the accounts,
-- and the source was marked.
pub record Reverses (ctx : Context) (k : ℕ) (date : Option ℕ) (memo : Option String) (b t : Books)
    : Type 0 where
  pub src : Entry
  pub found : live_entry k b ≡ some src
  pub was_posted : src.status ≡ posted
  pub is_new : count_by (λ r. r.id) ctx.new_id b.entries ≡ 0
  pub fine : lines_failure b.accounts b.projects (map mirror_line src.lines) ≡ none
  pub period : Period
  pub two_lines : 2 ≤ length src.lines
  pub even : total_debit src.lines ≡ total_credit src.lines
  pub result : t ≡ record b {
    accounts = map (apply_lines (map mirror_line src.lines)) b.accounts;
    entries =
        mark_posted ctx period (contra ctx src date memo)
        ∷ update_by (λ r. r.id) k mark_reversed b.entries;
  }

-- The state in which the contra entry is posted.
abbrev with_contra : Context → Entry → Option ℕ → Option String → Books → Books
with_contra ctx src date memo b = record b { entries = contra ctx src date memo ∷ b.entries }

insert_contra :
    (ctx : Context) (src : Entry) (date : Option ℕ) (memo : Option String) (b : Books)
    → with_lines ctx.new_id
        (map mirror_line src.lines)
        (record b { entries = reversal_entry ctx src (or_else date ctx.today) memo ∷ b.entries })
      ≡ with_contra ctx src date memo b
insert_contra ctx src date memo b = ground arith

pub live_entry-find :
    (k : ℕ) (b : Books) (e : Entry)
    → live_entry k b ≡ some e
    → (find_by (λ r. r.id) k b.entries ≡ some e) × (e.deleted_at ≡ none)
live_entry-find k b e h = elim (Option-cases (find_by (λ r. r.id) k b.entries)) [
  | inl missing ↦ ground arith
  | inr (x, found) ↦ elim (Option-cases x.deleted_at) [
    | inl kept ↦ ground arith
    | inr (d, gone) ↦ ground arith
  ]
]

-- The key of a row that was found is not new.
pub found_not_new :
    (k j : ℕ) (es : List Entry) (e : Entry)
    → find_by (λ r. r.id) k es ≡ some e
    → count_by (λ r. r.id) j es ≡ 0
    → (j == k) ≡ false
found_not_new k j [] e h new = cc
found_not_new k j (x ∷ es) e h new = ground (arith, found_not_new k j es e)

contra-Posts :
    (ctx : Context) (k : ℕ) (date : Option ℕ) (memo : Option String) (b t : Books) (src : Entry)
    → live_entry k b ≡ some src
    → src.status ≡ posted
    → count_by (λ r. r.id) ctx.new_id b.entries ≡ 0
    → lines_failure b.accounts b.projects (map mirror_line src.lines) ≡ none
    → Posts ctx ctx.new_id (with_contra ctx src date memo b) t
    → Reverses ctx k date memo b
        (record t { entries = update_by (λ r. r.id) k mark_reversed t.entries })
contra-Posts ctx k date memo b t src found was new fine p =
    let same : contra ctx src date memo ≡ p.entry = ground (arith, p.found) in
    let mirrored : map mirror_line src.lines ≡ p.entry.lines = ap (λ e. e.lines) same in
    let two : 2 ≤ length (map mirror_line src.lines) = rw mirrored p.two_lines in
    let even : total_debit (map mirror_line src.lines) ≡ total_credit (map mirror_line src.lines) =
      rw mirrored p.even in
    record {
      src = src;
      found = found;
      was_posted = was;
      is_new = new;
      fine = fine;
      period = p.period;
      two_lines = omega (arith, length-mirror src.lines);
      even = omega (arith, total_debit-mirror src.lines, total_credit-mirror src.lines);
      result = ground (
        arith,
        p.result,
        same,
        found_not_new k ctx.new_id b.entries src (live_entry-find k b src found).0 new,
      );
    }

abbrev reverse_tail : Context → ℕ → Option ℕ → Option String → Entry → Action Books ℕ
reverse_tail ctx k date memo src = do
  insert_entry (reversal_entry ctx src (or_else date ctx.today) memo)
  insert_lines ctx.new_id (map mirror_line src.lines)
  result ← fn_post_journal_entry ctx ctx.new_id
  modify (λ b. record b { entries = update_by (λ r. r.id) k mark_reversed b.entries })
  pure result

reverse_tail_ok :
    (ctx : Context) (k : ℕ) (date : Option ℕ) (memo : Option String) (src : Entry) (b : Books)
    {r : ℕ} {t : Books}
    → live_entry k b ≡ some src
    → src.status ≡ posted
    → reverse_tail ctx k date memo src b ≡ (ok r, t)
    → Reverses ctx k date memo b t × (r ≡ ctx.new_id)
reverse_tail_ok ctx k date memo src b {t = t} found was h =
    let (_, b1, inserted, h1) = continue-eq-ok (insert_entry _ b) _ h in
    let (new, e1) = insert_entry_ok _ b inserted in
    let (_, b2, added, h2) = continue-eq-ok (insert_lines ctx.new_id _ b1) _ h1 in
    let (fine, e2) = insert_lines_ok ctx.new_id _ b1 added in
    let (r3, b3, done, h3) = continue-eq-ok (fn_post_journal_entry ctx ctx.new_id b2) _ h2 in
    let (p, e3) = post_ok ctx ctx.new_id b2 done in
    let at2 : b2 ≡ with_contra ctx src date memo b =
      e2 ∙ (rw e1 (insert_contra ctx src date memo b)) in
    (
      subst (Reverses ctx k date memo b) (ground arith)
          (contra-Posts ctx k date memo b b3 src found was new (rw e1 at fine) (rw at2 at p)),
      ground arith,
    )

pub reverse_ok :
    (ctx : Context) (k : ℕ) (date : Option ℕ) (memo : Option String) (b : Books) {r : ℕ} {t : Books}
    → fn_reverse_journal_entry ctx k date memo b ≡ (ok r, t)
    → Reverses ctx k date memo b t × (r ≡ ctx.new_id)
unfolding fn_reverse_journal_entry
reverse_ok ctx k date memo b {r = r} {t = t} h = elim (Option-cases (live_entry k b)) [
  | inl missing ↦ ground arith
  | inr (src, found) ↦
      reverse_tail_ok ctx k date memo src b found (is_posted-eq src.status (ground arith))
        (ground arith)
]
