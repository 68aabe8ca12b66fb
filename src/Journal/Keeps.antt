-- ===== src/Journal/Keeps.antt =====
-- One induction over the endpoints: a property of the ledger that each kind of write keeps is kept
-- by every request, whether it returns or throws.
use Prim.Native.String.{String}
use arka_erp.Base.{
  ℕ, ◌≡◌, refl, sym, subst, Option, some, List, [], ◌∷◌, arith, ◌⊎◌, inl, inr, Bool-cases, is_some,
  ◌&&◌,
}
use arka_erp.Base.Texts.{Text, is_truthy, trim}
use arka_erp.Base.Tables.{find_by, update_by, count_by}
use arka_erp.Base.Effect.{
  ok, Action, ◌>>=◌, ◌>>◌, after, transaction, transaction_keeps, >>=_keeps, or_throw,
  or_throw-state, not_found, require, bad_request, pure,
}
use arka_erp.Ledger.{draft, Entry, Books, Context}
use arka_erp.Ledger.Posting.{is_draft, live_entry, fn_post_journal_entry, fn_reverse_journal_entry}
use arka_erp.Ledger.Outcomes.{Posts, Reverses, post_ok, reverse_ok, is_draft-eq}
use arka_erp.Ledger.Sound.{AreKnown, lines_failure-AreKnown}
use arka_erp.Journal.Dto.{
  CreateJournalDto, TransferDto, CreateAccountDto, validate_create, validate_transfer,
  validate_account, validate_reason, validate_memo,
}
use arka_erp.Journal.Accounts
use arka_erp.Journal.Accounts.{insert_account, insert_account_ok, new_account, parent_not_postable}
use arka_erp.Journal.Outcomes.{
  full_draft, insert_draft_ok, assert_draft_ok, rewritten, write_draft_ok,
}
use arka_erp.Journal.{
  lift, create_draft, post, reverse, transfer, update_draft, delete_draft, restore, insert_draft,
  get_by_id, assert_draft, write_draft, assert_balanced, transfer_dto, mark_deleted, mark_restored,
}
use arka_erp.Journal.Calls.{
  Command, create_journal, post_journal, reverse_journal, transfer_funds, execute, Call, create,
  transfers, update, remove, restores, posts, reverses, create_account, handle, run,
}

-- A change of one row: of a draft that stays one, with its lines or with lines on known accounts;
-- or none at all.
abbrev pub Edits : Books → Entry → Entry → Type 0
Edits b e f =
    (f ≡ e)
    ⊎ ((e.status ≡ draft)
        × (f.status ≡ draft)
        × (f.id ≡ e.id)
        × ((f.lines ≡ e.lines) ⊎ AreKnown b.accounts f.lines))

pub record Kept {ℓ} (P : Books → Type ℓ) : Type ℓ where
  pub by_post : (ctx : Context) (k : ℕ) (b t : Books) → Posts ctx k b t → P b → P t
  pub by_reverse :
      (ctx : Context) (k : ℕ) (date : Option ℕ) (memo : Option String) (b t : Books)
      → Reverses ctx k date memo b t
      → P b
      → P t
  pub by_insert :
      (e : Entry) (b : Books)
      → count_by (λ r. r.id) e.id b.entries ≡ 0
      → e.status ≡ draft
      → AreKnown b.accounts e.lines
      → P b
      → P (record b { entries = e ∷ b.entries })
  pub by_edit :
      (k : ℕ) (f : Entry → Entry) (b : Books)
      → ((e : Entry) → find_by (λ r. r.id) k b.entries ≡ some e → Edits b e (f e))
      → P b
      → P (record b { entries = update_by (λ r. r.id) k f b.entries })
  pub by_account :
      (ctx : Context) (dto : CreateAccountDto) (b : Books)
      → count_by (λ a. a.id) ctx.new_id b.accounts ≡ 0
      → P b
      → P (record b {
        accounts = new_account ctx dto ∷ parent_not_postable dto.parent_id b.accounts;
      })

module _ {ℓ} (P : Books → Type ℓ) (keep : Kept P) where
  get_by_id-keeps : (k : ℕ) (b : Books) → P b → P (after (get_by_id k) b)
  unfolding get_by_id
  get_by_id-keeps k b p = subst P (sym (or_throw-state (live_entry k b) not_found b)) p

  create_draft-keeps :
      (ctx : Context) (dto : CreateJournalDto) (b : Books)
      → P b
      → P (after (create_draft ctx dto) b)
  unfolding create_draft
  create_draft-keeps ctx dto b p = >>=_keeps P (lift (assert_balanced dto)) _ b p λ _ b1 _ p1.
      >>=_keeps P (transaction (insert_draft ctx dto)) get_by_id b1
        (transaction_keeps P (insert_draft ctx dto) b1 p1 λ _ t e. inserted ctx dto b1 t e p1)
        (λ k t _ q. get_by_id-keeps k t q)
    where
      inserted :
          (ctx : Context) (dto : CreateJournalDto) (b t : Books) {r : ℕ}
          → insert_draft ctx dto b ≡ (ok r, t)
          → P b
          → P t
      inserted ctx dto b t e p =
          let (new, fine, same, _) = insert_draft_ok ctx dto b e in
          subst P (sym same) (
            keep.by_insert (full_draft ctx dto) b new refl
              (lines_failure-AreKnown b.accounts b.projects _ fine) p)

  post-keeps : (ctx : Context) (k : ℕ) (b : Books) → P b → P (after (post ctx k) b)
  unfolding post
  post-keeps ctx k b p =
      >>=_keeps P (transaction (fn_post_journal_entry ctx k)) _ b
        (transaction_keeps P (fn_post_journal_entry ctx k) b p
          (λ _ t e. keep.by_post ctx k b t (post_ok ctx k b e).0 p))
        (λ _ t _ q. get_by_id-keeps k t q)

  reverse-keeps :
      (ctx : Context) (k : ℕ) (date : Option ℕ) (memo : Option String) (b : Books)
      → P b
      → P (after (reverse ctx k date memo) b)
  unfolding reverse
  reverse-keeps ctx k date memo b p =
      >>=_keeps P (transaction (fn_reverse_journal_entry ctx k date memo)) get_by_id b
        (transaction_keeps P (fn_reverse_journal_entry ctx k date memo) b p
          (λ _ t e. keep.by_reverse ctx k date memo b t (reverse_ok ctx k date memo b e).0 p))
        (λ j t _ q. get_by_id-keeps j t q)

  transfer-keeps :
      (ctx : Context) (dto : TransferDto) (b : Books) → P b → P (after (transfer ctx dto) b)
  unfolding transfer
  transfer-keeps ctx dto b p = >>=_keeps P (require _ bad_request) _ b p λ _ b1 _ p1.
      >>=_keeps P (create_draft ctx (transfer_dto ctx dto)) (λ created. post ctx created.id) b1
        (create_draft-keeps ctx (transfer_dto ctx dto) b1 p1) (λ e t _ q. post-keeps ctx e.id t q)

  assert_draft-keeps : (k : ℕ) (b : Books) → P b → P (after (assert_draft k) b)
  unfolding assert_draft
  assert_draft-keeps k b p =
      >>=_keeps P (λ b. or_throw (live_entry k b) not_found b) _ b
        (subst P (sym (or_throw-state (live_entry k b) not_found b)) p) (λ _ _ _ q. q)

  update_draft-keeps :
      (k : ℕ) (dto : CreateJournalDto) (b : Books) → P b → P (after (update_draft k dto) b)
  unfolding update_draft
  update_draft-keeps k dto b p =
      >>=_keeps P (assert_draft k) _ b (assert_draft-keeps k b p) λ _ b1 checked p1.
        >>=_keeps P (lift (assert_balanced dto)) _ b1 p1 λ _ b2 same p2.
          >>=_keeps P (transaction (write_draft k dto)) _ b2
            (transaction_keeps P (write_draft k dto) b2 p2
              λ _ t e. written b1 b2 t (ground (arith, same)) checked e p2)
            (λ _ t _ q. get_by_id-keeps k t q)
    where
      written :
          (b1 b2 t : Books) {r : Unit {0}} {r' : Unit {0}}
          → b2 ≡ b1
          → assert_draft k b ≡ (ok r, b1)
          → write_draft k dto b2 ≡ (ok r', t)
          → P b2
          → P t
      written b1 b2 t at1 checked e q =
          let (x, found, _, was, at) = assert_draft_ok k b checked in
          let (fine, same) = write_draft_ok k dto b2 e in
          subst P (sym same) (
            keep.by_edit k (rewritten dto) b2
              (λ y here.
                let row : y ≡ x = ground (arith, here, found, at, at1) in
                let still : y.status ≡ draft = rw row was in
                inr
                  (still, still, refl, inr (lines_failure-AreKnown b2.accounts b2.projects _ fine)))
              q)

  delete_draft-keeps :
      (ctx : Context) (k : ℕ) (reason : Text) (b : Books)
      → P b
      → P (after (delete_draft ctx k reason) b)
  unfolding delete_draft
  delete_draft-keeps ctx k reason b p =
      >>=_keeps P (require (is_truthy (trim reason)) bad_request) _ b p λ _ b0 start p0.
        >>=_keeps P (assert_draft k) _ b0 (assert_draft-keeps k b0 p0) λ _ b1 checked p1.
          let (x, found, _, was, at) = assert_draft_ok k b0 checked in
          keep.by_edit k (mark_deleted ctx reason) b1
            (λ y here.
              let row : y ≡ x = ground (arith, here, found, at) in
              let still : y.status ≡ draft = rw row was in inr (still, still, refl, inl refl))
            p1

  restore-keeps : (k : ℕ) (b : Books) → P b → P (after (restore k) b)
  unfolding restore
  restore-keeps k b p = keep.by_edit k mark_restored b (λ e here. edited e) p
    where
      edited : (e : Entry) → Edits b e (mark_restored e)
      edited e = elim (Bool-cases (is_some e.deleted_at && is_draft e.status)) [
        | inl hit ↦
            let was : e.status ≡ draft = is_draft-eq e.status (ground arith) in
            rw hit (inr (was, was, refl, inl refl))
        | inr miss ↦ rw miss (inl refl)
      ]

  create_account-keeps :
      (ctx : Context) (dto : CreateAccountDto) (b : Books)
      → P b
      → P (after (Accounts.create ctx dto) b)
  unfolding Accounts.create
  create_account-keeps ctx dto b p = transaction_keeps P (insert_account ctx dto) b p λ _ t e.
      let (new, same) = insert_account_ok ctx dto b e in
      subst P (sym same) (keep.by_account ctx dto b new p)

  execute-keeps : (ctx : Context) (c : Command) (b : Books) → P b → P (after (execute ctx c) b)
  unfolding execute
  execute-keeps ctx (create_journal dto) b p =
      >>=_keeps P (create_draft ctx dto) _ b (create_draft-keeps ctx dto b p) (λ _ _ _ q. q)
  execute-keeps ctx (post_journal k) b p =
      >>=_keeps P (post ctx k) _ b (post-keeps ctx k b p) (λ _ _ _ q. q)
  execute-keeps ctx (reverse_journal k date memo) b p =
      >>=_keeps P (reverse ctx k date memo) _ b (reverse-keeps ctx k date memo b p) (λ _ _ _ q. q)
  execute-keeps ctx (transfer_funds dto) b p =
      >>=_keeps P (transfer ctx dto) _ b (transfer-keeps ctx dto b p) (λ _ _ _ q. q)

  -- Every request keeps the property.
  pub handle-keeps : (ctx : Context) (c : Call) (b : Books) → P b → P (after (handle ctx c) b)
  unfolding handle
  handle-keeps ctx (create dto) b p =
      >>=_keeps P (lift (validate_create dto)) (λ _. execute ctx (create_journal dto)) b p
        (λ _ t _ q. execute-keeps ctx (create_journal dto) t q)
  handle-keeps ctx (transfers dto) b p =
      >>=_keeps P (lift (validate_transfer dto)) (λ _. execute ctx (transfer_funds dto)) b p
        (λ _ t _ q. execute-keeps ctx (transfer_funds dto) t q)
  handle-keeps ctx (update k dto) b p =
      let answer : Action Books ℕ = update_draft k dto >>= (λ e. pure e.id) in
      >>=_keeps P (lift (validate_create dto)) (λ _. answer) b p
        λ _ t _ q.
          >>=_keeps P (update_draft k dto) (λ e. pure e.id) t (update_draft-keeps k dto t q)
            (λ _ _ _ r. r)
  handle-keeps ctx (remove k reason) b p =
      let answer : Action Books ℕ = delete_draft ctx k reason >> pure k in
      >>=_keeps P (lift (validate_reason reason)) (λ _. answer) b p
        λ _ t _ q.
          >>=_keeps P (delete_draft ctx k reason) (λ _. pure k) t
            (delete_draft-keeps ctx k reason t q) (λ _ _ _ r. r)
  handle-keeps ctx (restores k) b p =
      >>=_keeps P (restore k) _ b (restore-keeps k b p) (λ _ _ _ q. q)
  handle-keeps ctx (posts k) b p = execute-keeps ctx (post_journal k) b p
  handle-keeps ctx (reverses k date memo) b p =
      >>=_keeps P (lift (validate_memo memo)) (λ _. execute ctx (reverse_journal k date memo)) b p
        (λ _ t _ q. execute-keeps ctx (reverse_journal k date memo) t q)
  handle-keeps ctx (create_account dto) b p =
      >>=_keeps P (lift (validate_account dto)) (λ _. Accounts.create ctx dto) b p
        (λ _ t _ q. create_account-keeps ctx dto t q)

  -- So does every history.
  pub run-keeps : (cs : List (Context × Call)) (b : Books) → P b → P (run cs b)
  unfolding run
  run-keeps [] b p = p
  run-keeps ((ctx, c) ∷ cs) b p = run-keeps cs (after (handle ctx c) b) (handle-keeps ctx c b p)
