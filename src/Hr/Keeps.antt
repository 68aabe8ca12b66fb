-- ===== src/Hr/Keeps.antt =====
-- The induction over the endpoints of HR that its invariants share.
use arka_erp.Base.{
  ℕ, Bool, true, false, not, ◌≡◌, refl, Option, none, some, List, [], ◌∷◌, ◌==◌, ◌&&◌, or_else, All,
  inl, inr, Bool-cases, arith, any, filter, is_known, refers,
}
use arka_erp.Base.Int.{ℤ}
use arka_erp.Base.Texts.{Text, text_eq, trim, is_truthy}
use arka_erp.Base.Tables.{count_by}
use arka_erp.Base.Trash.{is_kept, if_kept, kept, trashed, untrashed}
use arka_erp.Base.Effect.{
  Action, ◌>>◌, ◌>>=◌, pure, require, or_throw, gets, modify, transaction, after, bad_request,
  unique_violation, foreign_key, invalid_text, Keeps, >>=-Keeps, require_keeps, or_throw-Keeps,
  transaction_after,
}
use arka_erp.Columns.{number_in, check_amount_keeps}
use arka_erp.Envelope.{Cipher}
use arka_erp.Hr.{
  Personnel, Staff, Context, PositionDto, UpsertPersonnelDto, personnel_rows, position_ids,
  create_position, insert_position, delete_position, new_personnel, is_unique_in, write_rows,
  insert_personnel, create, edited, find_row, update_rows, write_found, update_personnel, update,
  soft_delete, may_return, restore, Call, adds_position, removes_position, creates, updates,
  deletes, restores, handle, run,
}

abbrev pub is_referring : Personnel → Staff → Bool
is_referring p b = is_known p.user_id b.users && is_known p.position_id (position_ids b.positions)

abbrev pub with_rows : List Personnel → Staff → Staff
with_rows rows b = record b { personnel = rows }

abbrev pub with_position : Context → PositionDto → Staff → Staff
with_position m dto b = record b {
  positions =
      record { id = m.new_id; title = dto.title; description = dto.description } ∷ b.positions;
}

abbrev pub without_position : ℕ → Staff → Staff
without_position id b = record b { positions = filter (λ p. not (p.id == id)) b.positions }

module _ {ℓ κ} (P : Staff → Type ℓ) (Fine : Context → Type κ) (cipher : Cipher)
    (on_add : (m : Context) (dto : PositionDto) (b : Staff) → P b → P (with_position m dto b))
    (on_remove : (id : ℕ) (b : Staff)
      → any (λ p. refers id p.position_id) b.personnel ≡ false
      → P b
      → P (without_position id b))
    (on_create : (m : Context) (dto : UpsertPersonnelDto) (salary : Option ℤ) (b : Staff)
      → Fine m
      → is_unique_in
          (new_personnel cipher m dto salary)
          (new_personnel cipher m dto salary ∷ b.personnel)
        ≡ true
      → is_referring (new_personnel cipher m dto salary) b ≡ true
      → P b
      → P (with_rows (new_personnel cipher m dto salary ∷ b.personnel) b))
    (on_update : (m : Context) (id : ℕ) (dto : UpsertPersonnelDto) (salary : Option ℤ) (b : Staff)
        (p : Personnel)
      → Fine m
      → find_row id b ≡ some p
      → is_kept personnel_rows p ≡ true
      → is_unique_in (edited cipher m dto salary p) (update_rows id (edited cipher m dto salary) b)
        ≡ true
      → is_referring (edited cipher m dto salary p) b ≡ true
      → P b
      → P (with_rows (update_rows id (edited cipher m dto salary) b) b))
    (on_delete : (m : Context) (id : ℕ) (reason : Text) (b : Staff)
      → P b
      → P (
          with_rows
            (update_rows id
              (if_kept personnel_rows (trashed personnel_rows m.now m.actor reason))
              b)
            b))
    (on_restore : (id : ℕ) (b : Staff)
      → may_return (find_row id b) (update_rows id (untrashed personnel_rows) b) ≡ true
      → P b
      → P (with_rows (update_rows id (untrashed personnel_rows) b) b)) where
  write_keeps :
      (p : Personnel) (rows : List Personnel) (b : Staff)
      → P b
      → (is_unique_in p rows ≡ true → is_referring p b ≡ true → P (with_rows rows b))
      → P (after (write_rows p rows) b)
  unfolding write_rows
  write_keeps p rows b h step =
      check_amount_keeps P p.base_salary
        (require (is_unique_in p rows) unique_violation
          >> (λ b. (require (is_referring p b) foreign_key >> modify (with_rows rows)) b))
        b h
        (λ _.
          require_keeps P (is_unique_in p rows) unique_violation
            (λ b. (require (is_referring p b) foreign_key >> modify (with_rows rows)) b) b h
            (λ sole.
              require_keeps P (is_referring p b) foreign_key (modify (with_rows rows)) b h
                (λ known. step sole known)))

  create-Keeps : (m : Context) (dto : UpsertPersonnelDto) → Fine m → Keeps P (create cipher m dto)
  unfolding create insert_personnel
  create-Keeps m dto fine b h =
      require_keeps P
        (is_truthy (trim (or_else dto.first_name []))
          && is_truthy (trim (or_else dto.last_name [])))
        bad_request (or_throw (number_in m.numeric_in dto.base_salary) invalid_text >>= rest) b h
        (λ _.
          >>=-Keeps P (or_throw (number_in m.numeric_in dto.base_salary) invalid_text) rest
            (or_throw-Keeps P (number_in m.numeric_in dto.base_salary) invalid_text)
            (λ salary b h.
              >>=-Keeps P (transaction (insert_personnel (new_personnel cipher m dto salary)))
                (λ _. pure m.new_id)
                (λ b h.
                  transaction_after P (insert_personnel (new_personnel cipher m dto salary)) b h (
                    require_keeps P (count_by (λ x. x.id) m.new_id b.personnel == 0)
                      unique_violation
                      (write_rows (new_personnel cipher m dto salary)
                        (new_personnel cipher m dto salary ∷ b.personnel))
                      b h
                      (λ _.
                        write_keeps (new_personnel cipher m dto salary)
                          (new_personnel cipher m dto salary ∷ b.personnel) b h
                          (λ sole known. on_create m dto salary b fine sole known h))))
                (λ _ _ q. q) b h)
            b h)
    where
      rest : Option ℤ → Action Staff ℕ
      rest salary =
          transaction (insert_personnel (new_personnel cipher m dto salary)) >> pure m.new_id

  -- The row that an UPDATE finds is kept.
  found_keeps :
      (m : Context) (id : ℕ) (dto : UpsertPersonnelDto) (salary : Option ℤ) (b : Staff)
      (o : Option Personnel)
      → Fine m
      → P b
      → ((p : Personnel)
          → o ≡ some p
          → (find_row id b ≡ some p) × (is_kept personnel_rows p ≡ true))
      → P (after (write_found (edited cipher m dto salary) id o b) b)
  found_keeps m id dto salary b none fine h row = h
  found_keeps m id dto salary b (some p) fine h row =
      write_keeps (edited cipher m dto salary p) (update_rows id (edited cipher m dto salary) b) b h
        (λ sole known.
          on_update m id dto salary b p fine (row p refl).0 (row p refl).1 sole known h)

  update-Keeps :
      (m : Context) (id : ℕ) (dto : UpsertPersonnelDto) → Fine m → Keeps P (update cipher m id dto)
  unfolding update update_personnel
  update-Keeps m id dto fine =
      >>=-Keeps P (or_throw (number_in m.numeric_in dto.base_salary) invalid_text)
        (λ salary.
          transaction (update_personnel (edited cipher m dto salary) id)
          >> gets (λ b. kept personnel_rows (find_row id b)))
        (or_throw-Keeps P (number_in m.numeric_in dto.base_salary) invalid_text)
        (λ salary.
          >>=-Keeps P (transaction (update_personnel (edited cipher m dto salary) id))
            (λ _. gets (λ b. kept personnel_rows (find_row id b)))
            (λ b h. transaction_after P (update_personnel (edited cipher m dto salary) id) b h (
              found_keeps m id dto salary b (kept personnel_rows (find_row id b)) fine h
                (λ p live. kept-row (find_row id b) p live)))
            (λ _ _ q. q))
    where
      kept-row :
          (o : Option Personnel) (p : Personnel)
          → kept personnel_rows o ≡ some p
          → (o ≡ some p) × (is_kept personnel_rows p ≡ true)
      kept-row none p e = absurd (ground arith)
      kept-row (some x) p e = elim (Bool-cases (is_kept personnel_rows x)) [
        | inl here ↦ let same : x ≡ p = ground (arith, here, e) in (rw same refl, rw same at here)
        | inr gone ↦ absurd (ground (arith, gone, e))
      ]

  handle_keeps : (m : Context) (c : Call) → Fine m → (b : Staff) → P b → P (handle cipher m c b)
  unfolding handle create_position insert_position delete_position soft_delete restore
  handle_keeps m (adds_position dto) fine b h = transaction_after P (insert_position m dto) b h (
      require_keeps P (not (any (λ p. text_eq (m.lower dto.title) (m.lower p.title)) b.positions))
        unique_violation
        (require (not (is_known (some m.new_id) (position_ids b.positions))) unique_violation
          >> (modify (with_position m dto) >> pure m.new_id))
        b h
        (λ _.
          require_keeps P (not (is_known (some m.new_id) (position_ids b.positions)))
            unique_violation (modify (with_position m dto) >> pure m.new_id) b h
            (λ _. on_add m dto b h)))
  handle_keeps m (removes_position id) fine b h =
      require_keeps P (not (any (λ p. refers id p.position_id) b.personnel)) foreign_key
        (modify (without_position id)) b h (λ free. on_remove id b (ground (arith, free)) h)
  handle_keeps m (creates dto) fine b h = create-Keeps m dto fine b h
  handle_keeps m (updates id dto) fine b h = update-Keeps m id dto fine b h
  handle_keeps m (deletes id reason) fine b h =
      require_keeps P (is_truthy (trim reason)) bad_request
        (modify (λ b.
          with_rows
            (update_rows id (if_kept personnel_rows (trashed personnel_rows m.now m.actor reason))
              b)
            b))
        b h (λ _. on_delete m id reason b h)
  handle_keeps m (restores id) fine b h =
      require_keeps P (may_return (find_row id b) (update_rows id (untrashed personnel_rows) b))
        unique_violation (modify (λ b. with_rows (update_rows id (untrashed personnel_rows) b) b)) b
        h (λ free. on_restore id b free h)

  pub run_keeps :
      (cs : List (Context × Call)) (b : Staff) → All (λ c. Fine c.0) cs → P b → P (run cipher cs b)
  unfolding run
  run_keeps [] b fine h = h
  run_keeps ((m, c) ∷ cs) b fine h =
      run_keeps cs (handle cipher m c b) fine.1 (handle_keeps m c fine.0 b h)
