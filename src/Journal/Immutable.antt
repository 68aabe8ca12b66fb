-- ===== src/Journal/Immutable.antt =====
-- Booked entries are final: the accounting endpoints can only mark one as reversed.
use Prim.Native.String.{String}
use arka_erp.Base.{
  ℕ, ◌≡◌, refl, ◌∙◌, true, Option, some, List, ◌∷◌, arith, ◌==◌, ◌⊎◌, inl, inr, Bool-cases,
}
use arka_erp.Base.Tables.{find_by, update_by, count_by, count_by-update_by, find_by-update_by}
use arka_erp.Ledger.{Entry, Books, Context}
use arka_erp.Ledger.Sums.{is_booked}
use arka_erp.Ledger.Posting.{mark_posted, mark_reversed}
use arka_erp.Ledger.Outcomes.{Posts, Reverses, contra, live_entry-find, found_not_new}
use arka_erp.Journal.Calls.{Call, run}
use arka_erp.Journal.Keeps.{Kept, Edits, run-keeps}

-- The row of the entry `e`, as it was or marked as reversed.
abbrev IsFinal : ℕ → Entry → Books → Type 0
IsFinal k e b =
    (find_by (λ r. r.id) k b.entries ≡ some e)
    ⊎ (find_by (λ r. r.id) k b.entries ≡ some (mark_reversed e))

module _ (k : ℕ) (e : Entry) (on : is_booked e.status ≡ true) where
  -- Its row, in either case: booked, and what a mark makes of it.
  final_row :
      (b : Books)
      → IsFinal k e b
      → (x : Entry) × (find_by (λ r. r.id) k b.entries ≡ some x)
        × (is_booked x.status ≡ true)
        × ((x ≡ e) ⊎ (x ≡ mark_reversed e))
  final_row b (inl here) = (e, here, on, inl refl)
  final_row b (inr here) = (mark_reversed e, here, refl, inr refl)

  row-IsFinal :
      (b : Books) (x : Entry)
      → find_by (λ r. r.id) k b.entries ≡ some x
      → ((x ≡ e) ⊎ (x ≡ mark_reversed e))
      → IsFinal k e b
  row-IsFinal b x here (inl same) = inl (rw (← same) here)
  row-IsFinal b x here (inr same) = inr (rw (← same) here)

  -- An update of one row, by a function that keeps this row or marks it.
  updated-IsFinal :
      (j : ℕ) (f : Entry → Entry) (b t : Books)
      → t.entries ≡ update_by (λ r. r.id) j f b.entries
      → ((x : Entry)
          → find_by (λ r. r.id) j b.entries ≡ some x
          → ((f x).id ≡ x.id) × (is_booked x.status ≡ true → (f x ≡ x) ⊎ (f x ≡ mark_reversed x)))
      → IsFinal k e b
      → IsFinal k e t
  updated-IsFinal j f b t at step h =
      let (x, here, booked, which) = final_row b h in
      let looked = find_by-update_by (λ r. r.id) k j f b.entries (λ r found. (step r found).0) in
      elim (Bool-cases (k == j)) [
        | inl hit ↦
            let same : k ≡ j = ground arith in
            let found : find_by (λ r. r.id) j b.entries ≡ some x = rw (← same) here in
            let now : find_by (λ r. r.id) k t.entries ≡ some (f x) =
              rw at (looked ∙ rw (hit, found)) in
            elim ((step x found).1 booked) [
              | inl kept ↦ row-IsFinal t x (now ∙ rw kept) which
              | inr marked ↦
                  row-IsFinal t (mark_reversed x) (now ∙ rw marked)
                    (inr (elim which [ inl is ↦ rw is | inr is ↦ rw is ]))
            ]
        | inr miss ↦ row-IsFinal t x (rw at (looked ∙ rw (miss, here))) which
      ]

  inserted-IsFinal :
      (x : Entry) (b t : Books)
      → t.entries ≡ x ∷ b.entries
      → count_by (λ r. r.id) x.id b.entries ≡ 0
      → IsFinal k e b
      → IsFinal k e t
  inserted-IsFinal x b t at new h =
      let (y, here, _, which) = final_row b h in
      row-IsFinal t y (rw (at, found_not_new k x.id b.entries y here new) here) which

  posted-IsFinal :
      (ctx : Context) (j : ℕ) (b t : Books) → Posts ctx j b t → IsFinal k e b → IsFinal k e t
  posted-IsFinal ctx j b t p h =
      updated-IsFinal j (mark_posted ctx p.period) b t (rw p.result)
        (λ x found. (
          refl,
          λ booked.
              let same : x ≡ p.entry = ground (arith, found, live_entry-find j b p.entry p.found) in
              absurd (ground (arith, same, p.was_draft, booked)),
        ))
        h

  reversed-IsFinal :
      (ctx : Context) (j : ℕ) (date : Option ℕ) (memo : Option String) (b t : Books)
      → Reverses ctx j date memo b t
      → IsFinal k e b
      → IsFinal k e t
  reversed-IsFinal ctx j date memo b t r h =
      let m : Books = record b { entries = update_by (λ x. x.id) j mark_reversed b.entries } in
      inserted-IsFinal (mark_posted ctx r.period (contra ctx r.src date memo)) m t (rw r.result)
        (rw (count_by-update_by (λ x. x.id) ctx.new_id j mark_reversed b.entries (λ _. refl))
          r.is_new)
        (updated-IsFinal j mark_reversed b m refl (λ x found. (refl, λ _. inr refl)) h)

  edited-IsFinal :
      (j : ℕ) (f : Entry → Entry) (b : Books)
      → ((x : Entry) → find_by (λ r. r.id) j b.entries ≡ some x → Edits b x (f x))
      → IsFinal k e b
      → IsFinal k e (record b { entries = update_by (λ r. r.id) j f b.entries })
  edited-IsFinal j f b edits h =
      updated-IsFinal j f b (record b { entries = update_by (λ r. r.id) j f b.entries }) refl
        (λ x found. elim (edits x found) [
          | inl same ↦ (rw same refl, λ _. inl same)
          | inr (was, _, id, _) ↦ (id, λ booked. absurd (ground (arith, was, booked)))
        ])
        h

  IsFinal-Kept : Kept (IsFinal k e)
  IsFinal-Kept = record {
    by_post = posted-IsFinal;
    by_reverse = reversed-IsFinal;
    by_insert =
        λ x b new _ _ h. inserted-IsFinal x b (record b { entries = x ∷ b.entries }) refl new h;
    by_edit = edited-IsFinal;
    by_account = λ ctx dto b new h. h;
  }

-- An entry that is posted or reversed: any sequence of requests to the accounting endpoints leaves
-- its row as it is, with all its lines, or changes the status alone, to reversed.
pub booked_entry_is_final :
    (cs : List (Context × Call)) (b : Books) (k : ℕ) (e : Entry)
    → find_by (λ r. r.id) k b.entries ≡ some e
    → is_booked e.status ≡ true
    → (find_by (λ r. r.id) k (run cs b).entries ≡ some e)
      ⊎ (find_by (λ r. r.id) k (run cs b).entries ≡ some (mark_reversed e))
booked_entry_is_final cs b k e here on =
    run-keeps (IsFinal k e) (IsFinal-Kept k e on) cs b (inl here)
