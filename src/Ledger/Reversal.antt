-- ===== src/Ledger/Reversal.antt =====
-- Posting and then reversing: what it does to the cached balances, and what a recomputation from
-- the entries that are 'POSTED' makes of them.
use Prim.Native.String.{String}
use arka_erp.Base.{
  ℕ, ◌≡◌, refl, ◌∙◌, not, Option, none, some, List, [], ◌∷◌, map, arith, ◌==◌, ◌&&◌, inl, inr,
  Bool-cases, is_some,
}
use arka_erp.Base.Int.{ℤ, ◌+ℤ◌, int_laws, parts}
use arka_erp.Base.Tables.{find_by, update_by, find_by-update_by}
use arka_erp.Base.Effect.{ok}
use arka_erp.Ledger.{Side, Account, posted, Line, Entry, Books, Context}
use arka_erp.Ledger.Lines.{delta}
use arka_erp.Ledger.Sums.{delta-mirror}
use arka_erp.Ledger.Posting.{
  apply_lines, mirror_line, mark_posted, mark_reversed, recomputed, live_entry, is_posted,
  fn_post_journal_entry, fn_reverse_journal_entry,
}
use arka_erp.Ledger.Outcomes.{post_ok, reverse_ok, live_entry-find}
use arka_erp.Ledger.Sound.{apply_lines-balance, apply_lines-key}

abbrev pub balances : List Account → List ℤ
balances accts = map (λ a. a.balance) accts

apply-mirror :
    (ls : List Line) (a : Account)
    → (apply_lines (map mirror_line ls) (apply_lines ls a)).balance ≡ a.balance
apply-mirror ls a =
    let (same_id, same_side) = apply_lines-key ls a in
    let back : (apply_lines (map mirror_line ls) (apply_lines ls a)).balance
        ≡ (apply_lines ls a).balance +ℤ delta a.id a.normal_balance (map mirror_line ls) =
      apply_lines-balance (map mirror_line ls) (apply_lines ls a) ∙ rw (same_id, same_side) refl in
    omega (
      int_laws,
      parts back,
      parts (apply_lines-balance ls a),
      parts (delta-mirror a.id a.normal_balance ls),
    )

balances-mirror :
    (ls : List Line) (accts : List Account)
    → balances (map (apply_lines (map mirror_line ls)) (map (apply_lines ls) accts))
      ≡ balances accts
balances-mirror ls [] = refl
balances-mirror ls (a ∷ accts) = rw (apply-mirror ls a, balances-mirror ls accts) refl

-- Where a draft is posted and then reversed, at any dates and by any actors, every account has the
-- balance that it had before both.
pub post_then_reverse :
    (ctx later : Context) (k : ℕ) (date : Option ℕ) (memo : Option String) (b b1 b2 : Books)
    (r s : ℕ)
    → fn_post_journal_entry ctx k b ≡ (ok r, b1)
    → fn_reverse_journal_entry later k date memo b1 ≡ (ok s, b2)
    → balances b2.accounts ≡ balances b.accounts
post_then_reverse ctx later k date memo b b1 b2 r s done undone =
    let p = (post_ok ctx k b done).0 in
    let q = (reverse_ok later k date memo b1 undone).0 in
    let here = live_entry-find k b p.entry p.found in
    let there = live_entry-find k b1 q.src q.found in
    let looked =
      find_by-update_by (λ e. e.id) k k (mark_posted ctx p.period) b.entries (λ _ _. refl) in
    let same : q.src.lines ≡ p.entry.lines = ground (arith, here, there, looked, p.result) in
    rw (q.result, same, p.result) (balances-mirror p.entry.lines b.accounts)

-- The sum of the entries that are 'POSTED' leaves a reversed entry out and counts its contra entry,
-- which takes the entry back a second time.
recomputed-update :
    (i : ℕ) (s : Side) (k : ℕ) (es : List Entry) (e : Entry)
    → find_by (λ r. r.id) k es ≡ some e
    → e.status ≡ posted
    → e.deleted_at ≡ none
    → recomputed i s (update_by (λ r. r.id) k mark_reversed es) +ℤ delta i s e.lines
      ≡ recomputed i s es
recomputed-update i s k [] e found was kept = cc
recomputed-update i s k (x ∷ es) e found was kept = elim (Bool-cases (x.id == k)) [
  | inl hit ↦
      let same : x ≡ e = ground (arith, found) in rw hit (rw (same, was, kept) (omega int_laws))
  | inr miss ↦
      let rest = recomputed-update i s k es e (rw miss at found) was kept in
      rw miss (elim (Bool-cases (is_posted x.status && not (is_some x.deleted_at))) [
        | inl on ↦ rw (on) (omega (int_laws, parts rest))
        | inr off ↦ rw (off) rest
      ])
]

-- After a reversal the sum over the entries that are 'POSTED', which `fn_recompute_account_balance`
-- writes over the cached balance, is lower than before by twice what the entry had added to the
-- account: its reversed row is left out, and its contra entry is counted.
pub recomputed_after_reversal :
    (ctx : Context) (k : ℕ) (date : Option ℕ) (memo : Option String) (b t : Books) (r : ℕ)
    → fn_reverse_journal_entry ctx k date memo b ≡ (ok r, t)
    → (i : ℕ) (s : Side) → (src : Entry) → live_entry k b ≡ some src
    → recomputed i s t.entries +ℤ delta i s src.lines +ℤ delta i s src.lines
      ≡ recomputed i s b.entries
recomputed_after_reversal ctx k date memo b t r done i s src found =
    let q = (reverse_ok ctx k date memo b done).0 in
    let same : q.src ≡ src = ground (arith, found, q.found) in
    let (here, kept) = live_entry-find k b q.src q.found in
    rw (← same, q.result)
      (omega (
        int_laws,
        parts (recomputed-update i s k b.entries q.src here q.was_posted kept),
        parts (delta-mirror i s q.src.lines),
      ))
