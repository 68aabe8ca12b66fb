-- ===== src/Ledger/Closed.antt =====
-- What the closing of a fiscal period does.
use arka_erp.Base.{
  ℕ, ◌≡◌, refl, sym, ap, ◌∙◌, subst, Bool, true, false, not, Option, none, some, List, [], ◌∷◌, any,
  filter, ◌==◌, arith, inl, inr, Bool-cases, Option-cases,
}
use arka_erp.Base.Int.{ℤ}
use arka_erp.Base.Tables.{find_by, find_by-update_by, update_by, count_by}
use arka_erp.Base.Effect.{
  Failure, Action, ok, business_rule, pure, gets, or_throw, require, modify, continue,
  continue-eq-ok, settle-eq-ok, ◌>>=◌, ◌>>◌,
}
use arka_erp.Ledger.{Period, Line, Entry, Books, Context}
use arka_erp.Ledger.Posting.{is_draft, insert_entry, insert_lines, fn_post_journal_entry}
use arka_erp.Ledger.Outcomes.{insert_entry_ok}
use arka_erp.Ledger.Sound.{IsSound}
use arka_erp.Ledger.Written.{written-IsSound, written_entries}
use arka_erp.Ledger.Closing.{
  is_closed, is_kept_in, period_net, closing_entry, closing_lines, is_zero, post_net, close_period,
  fn_close_fiscal_period,
}

filter-absent :
    (k : ℕ) (es : List Entry)
    → count_by (λ e. e.id) k es ≡ 0
    → filter (λ e. not (e.id == k)) es ≡ es
filter-absent k [] new = refl
filter-absent k (e ∷ es) new = ground (arith, new, filter-absent k es)

-- The closing entry, or none, and what it leaves.
record Settles (p : Period) (b t : Books) : Type 0 where
  sound : IsSound b → IsSound t
  periods : t.periods ≡ b.periods
  drafts : any (is_kept_in is_draft p) t.entries ≡ any (is_kept_in is_draft p) b.entries

-- A net result of zero: the header that was inserted goes again.
discarded :
    (ctx : Context) (p : Period) (b b1 t : Books) {r : Option ℕ}
    → insert_entry (closing_entry ctx p) b ≡ (ok tt, b1)
    → (modify (λ b. record b { entries = filter (λ e. not (e.id == ctx.new_id)) b.entries })
          >> pure none)
        b1
      ≡ (ok r, t)
    → t ≡ b
discarded ctx p b b1 t inserted h =
    let (new, e1) = insert_entry_ok (closing_entry ctx p) b inserted in
    sym (ap (λ x. x.1) h) ∙ ap without e1 ∙ gone new
  where
    without : Books → Books
    without x = record x { entries = filter (λ e. not (e.id == ctx.new_id)) x.entries }

    gone :
        count_by (λ e. e.id) ctx.new_id b.entries ≡ 0
        → without (record b { entries = closing_entry ctx p ∷ b.entries }) ≡ b
    gone new = ground (arith, new, filter-absent ctx.new_id b.entries new)

-- A net result that is not zero: the entry is posted.
settled :
    (ctx : Context) (p : Period) (ls : List Line) (b b1 b2 t : Books) {r : ℕ}
    → insert_entry (closing_entry ctx p) b ≡ (ok tt, b1)
    → insert_lines ctx.new_id ls b1 ≡ (ok tt, b2)
    → fn_post_journal_entry ctx ctx.new_id b2 ≡ (ok r, t)
    → Settles p b t
settled ctx p ls b b1 b2 t inserted added posted =
    let (periods, q, entries) =
      written_entries ctx (closing_entry ctx p) ls b b1 b2 t inserted added posted in
    record {
      sound = λ sound.
          written-IsSound ctx (closing_entry ctx p) ls b b1 b2 t refl refl inserted added posted
            sound;
      periods = periods;
      drafts = ap (any (is_kept_in is_draft p)) entries;
    }

post_net_ok :
    (ctx : Context) (p : Period) (retained summary : ℕ) (net : ℤ) (b b1 t : Books) {r : Option ℕ}
    → insert_entry (closing_entry ctx p) b ≡ (ok tt, b1)
    → post_net ctx retained summary net b1 ≡ (ok r, t)
    → Settles p b t
unfolding post_net
post_net_ok ctx p retained summary net b b1 t {r = r} inserted done =
    elim (Bool-cases (is_zero net)) [
      | inl zero_net ↦
          let same = discarded ctx p b b1 t inserted (rw zero_net at done) in
          subst (Settles p b) (sym same) (record { sound = λ s. s; periods = refl; drafts = refl })
      | inr some_net ↦ posts (rw some_net at done)
    ]
  where
    posts :
        (insert_lines ctx.new_id (closing_lines retained summary net)
              >> (fn_post_journal_entry ctx ctx.new_id >>= (λ id. pure (some id))))
            b1
          ≡ (ok r, t)
        → Settles p b t
    posts h =
        let (_, b2, added, h2) =
          continue-eq-ok (insert_lines ctx.new_id (closing_lines retained summary net) b1) _ h in
        let (id, b3, posted, h3) = continue-eq-ok (fn_post_journal_entry ctx ctx.new_id b2) _ h2 in
        subst (Settles p b) (ap (λ x. x.1) h3)
          (settled ctx p (closing_lines retained summary net) b b1 b2 b3 inserted added posted)

-- The transaction of `fn_close_fiscal_period`.
abbrev closing : Context → ℕ → ℕ → ℕ → Action Books (Option ℕ)
closing ctx period_id retained summary = do
  b ← gets (λ b. b)
  p ← or_throw (find_by (λ p. p.id) period_id b.periods) business_rule
  require (not (is_closed p.status)) business_rule
  require (not (any (is_kept_in is_draft p) b.entries)) business_rule
  insert_entry (closing_entry ctx p)
  result ← post_net ctx retained summary (period_net p b.accounts b.entries)
  modify (λ b. record b { periods = update_by (λ p. p.id) period_id close_period b.periods })
  pure result

-- A period that was closed: it was open or locked, no draft was in it nor is, and it is closed now.
pub record Closes (period_id : ℕ) (b t : Books) : Type 0 where
  pub period : Period
  pub found : find_by (λ p. p.id) period_id b.periods ≡ some period
  pub was : is_closed period.status ≡ false
  pub sound : IsSound b → IsSound t
  pub no_drafts : any (is_kept_in is_draft period) t.entries ≡ false
  pub periods : t.periods ≡ update_by (λ p. p.id) period_id close_period b.periods

require_ok :
    {S B : Type 0} (c : Bool) (x : Failure) (f : Unit {0} → Action S B) (s : S) {r : B} {t : S}
    → continue (require c x s) f ≡ (ok r, t)
    → (c ≡ true) × (f tt s ≡ (ok r, t))
require_ok true x f s h = (refl, h)
require_ok false x f s h = ground (arith, h)

-- The periods are no part of what makes a ledger sound.
periods-IsSound : (ps : List Period) (b : Books) → IsSound b → IsSound (record b { periods = ps })
periods-IsSound ps b h = record { distinct = h.distinct; entries = h.entries; agree = h.agree }

closing_ok :
    (ctx : Context) (period_id retained summary : ℕ) (b t : Books) {r : Option ℕ}
    → closing ctx period_id retained summary b ≡ (ok r, t)
    → Closes period_id b t
closing_ok ctx period_id retained summary b t {r = r} h =
    elim (Option-cases (find_by (λ p. p.id) period_id b.periods)) [
      | inl missing ↦ ground (arith, missing, h)
      | inr (p, found) ↦ after_found p found (rw found at h)
    ]
  where
    rest : Period → Action Books (Option ℕ)
    rest p = do
      insert_entry (closing_entry ctx p)
      result ← post_net ctx retained summary (period_net p b.accounts b.entries)
      modify (λ b. record b { periods = update_by (λ p. p.id) period_id close_period b.periods })
      pure result

    after_found :
        (p : Period)
        → find_by (λ p. p.id) period_id b.periods ≡ some p
        → (require (not (is_closed p.status)) business_rule
              >> (require (not (any (is_kept_in is_draft p) b.entries)) business_rule >> rest p))
            b
          ≡ (ok r, t)
        → Closes period_id b t
    after_found p found h =
        let (unclosed, h1) = require_ok (not (is_closed p.status)) business_rule _ b h in
        let (undrafted, h2) =
          require_ok (not (any (is_kept_in is_draft p) b.entries)) business_rule _ b h1 in
        let (_, b1, inserted, h3) = continue-eq-ok (insert_entry (closing_entry ctx p) b) _ h2 in
        let (a, b2, done, h4) =
          continue-eq-ok (post_net ctx retained summary (period_net p b.accounts b.entries) b1) _
            h3 in
        let s =
          post_net_ok ctx p retained summary (period_net p b.accounts b.entries) b b1 b2 inserted
            done in
        let end = ap (λ x. x.1) h4 in
        record {
          period = p;
          found = found;
          was = ground (arith, unclosed);
          sound = λ sound. subst IsSound end (periods-IsSound _ b2 (s.sound sound));
          no_drafts =
              ap (λ x. any (is_kept_in is_draft p) x.entries) (sym end)
              ∙ s.drafts
              ∙ ground (arith, undrafted);
          periods =
              ap (λ x. x.periods) (sym end)
              ∙ ap (update_by (λ p. p.id) period_id close_period) s.periods;
        }

-- A close that returns: the ledger is sound if it was before, the period was not closed and is closed
-- now, and no kept draft is dated in it.
pub close_ok :
    (ctx : Context) (period_id retained summary : ℕ) (b t : Books) {r : Option ℕ}
    → IsSound b
    → fn_close_fiscal_period ctx period_id retained summary b ≡ (ok r, t)
    → IsSound t
      × (p : Period) × (find_by (λ p. p.id) period_id b.periods ≡ some p)
      × (is_closed p.status ≡ false)
      × (find_by (λ p. p.id) period_id t.periods ≡ some (close_period p))
      × (any (is_kept_in is_draft p) t.entries ≡ false)
unfolding fn_close_fiscal_period
close_ok ctx period_id retained summary b t sound h =
    let c = closing_ok ctx period_id retained summary b t (settle-eq-ok b _ h) in
    (
      c.sound sound,
      c.period,
      c.found,
      c.was,
      ap (find_by (λ p. p.id) period_id) c.periods
          ∙ ground (
            arith,
            find_by-update_by (λ p. p.id) period_id period_id close_period b.periods (λ p _. refl),
            c.found,
          ),
      c.no_drafts,
    )
