-- ===== src/Customers/Keeps.antt =====
-- The induction over the endpoints of customers that their invariants share.
use arka_erp.Base.{
  ℕ, Bool, true, ◌≡◌, Option, none, some, List, [], ◌∷◌, ◌==◌, ◌&&◌, or_else, All, arith,
}
use arka_erp.Base.Int.{ℤ}
use arka_erp.Base.Texts.{Text, trim, is_truthy}
use arka_erp.Base.Tables.{find_by, update_by, count_by}
use arka_erp.Base.Trash.{if_kept, kept, trashed, untrashed}
use arka_erp.Base.Effect.{
  Action, ◌>>◌, ◌>>=◌, modify, require_keeps, pure, require, or_throw, gets, transaction,
  bad_request, unique_violation, invalid_text, Keeps, >>=-Keeps, transaction-Keeps, or_throw-Keeps,
}
use arka_erp.Columns.{number_in, check_amount, check_amount-Keeps}
use arka_erp.Envelope.{Cipher}
use arka_erp.Customers.{
  Customer, customer_rows, Context, UpsertCustomerDto, new_customer, code_holders, insert_customer,
  create, edited, update_row, check_row, map_row, update_customer, update, soft_delete, may_return,
  restore, Call, creates, updates, deletes, restores, handle, run, get,
}

module _ {ℓ κ} (P : List Customer → Type ℓ) (Fine : Context → Type κ) (cipher : Cipher)
    (on_create : (m : Context) (dto : UpsertCustomerDto) (limit : Option ℤ) (b : List Customer)
      → Fine m
      → code_holders (new_customer cipher m dto limit).code b ≡ 0
      → P b
      → P (new_customer cipher m dto limit ∷ b))
    (on_update : (m : Context) (id : ℕ) (dto : UpsertCustomerDto) (limit : Option ℤ)
        (b : List Customer)
      → Fine m
      → P b
      → P (update_by (λ c. c.id) id (if_kept customer_rows (edited cipher m dto limit)) b))
    (on_delete : (m : Context) (id : ℕ) (reason : Text) (b : List Customer)
      → P b
      → P (
          update_by
            (λ c. c.id)
            id
            (if_kept customer_rows (trashed customer_rows m.now m.actor reason))
            b))
    (on_restore : (id : ℕ) (b : List Customer)
      → may_return (find_by (λ c. c.id) id b) b ≡ true
      → P b
      → P (update_by (λ c. c.id) id (untrashed customer_rows) b)) where
  insert-Keeps :
      (m : Context) (dto : UpsertCustomerDto) (limit : Option ℤ)
      → Fine m
      → Keeps P (insert_customer (new_customer cipher m dto limit))
  unfolding insert_customer
  insert-Keeps m dto limit fine =
      >>=-Keeps P (check_amount c.credit_limit)
        (λ _ b. (require (free b) unique_violation >> modify (λ b. c ∷ b)) b)
        (check_amount-Keeps P c.credit_limit)
        (λ _ b h.
          require_keeps P (free b) unique_violation (modify (λ b. c ∷ b)) b h
            (λ new. on_create m dto limit b fine (ground (arith, new)) h))
    where
      c : Customer
      c = new_customer cipher m dto limit

      free : List Customer → Bool
      free b = count_by (λ x. x.id) m.new_id b == 0 && code_holders c.code b == 0

  create-Keeps : (m : Context) (dto : UpsertCustomerDto) → Fine m → Keeps P (create cipher m dto)
  unfolding create
  create-Keeps m dto fine b h =
      require_keeps P (is_truthy (trim (or_else dto.display_name []))) bad_request
        (or_throw (number_in m.numeric_in dto.credit_limit) invalid_text >>= rest) b h
        (λ _.
          >>=-Keeps P (or_throw (number_in m.numeric_in dto.credit_limit) invalid_text) rest
            (or_throw-Keeps P (number_in m.numeric_in dto.credit_limit) invalid_text)
            (λ limit.
              >>=-Keeps P (transaction (insert_customer (new_customer cipher m dto limit)))
                (λ _. pure m.new_id)
                (transaction-Keeps P (insert_customer (new_customer cipher m dto limit))
                  (insert-Keeps m dto limit fine))
                (λ _ _ q. q))
            b h)
    where
      rest : Option ℤ → Action (List Customer) ℕ
      rest limit = transaction (insert_customer (new_customer cipher m dto limit)) >> pure m.new_id

  check_row-Keeps : (o : Option Customer) → Keeps P (check_row o)
  check_row-Keeps none b h = h
  check_row-Keeps (some c) b h = check_amount-Keeps P c.credit_limit b h

  update-Keeps :
      (m : Context) (id : ℕ) (dto : UpsertCustomerDto) → Fine m → Keeps P (update cipher m id dto)
  unfolding update update_customer
  update-Keeps m id dto fine =
      >>=-Keeps P (or_throw (number_in m.numeric_in dto.credit_limit) invalid_text)
        (λ limit. transaction (update_customer (edited cipher m dto limit) id) >> gets (get id))
        (or_throw-Keeps P (number_in m.numeric_in dto.credit_limit) invalid_text)
        (λ limit.
          >>=-Keeps P (transaction (update_customer (edited cipher m dto limit) id))
            (λ _. gets (get id))
            (transaction-Keeps P (update_customer (edited cipher m dto limit) id) (λ b.
              >>=-Keeps P (check_row (row limit b))
                (λ _. update_row id (if_kept customer_rows (edited cipher m dto limit)))
                (check_row-Keeps (row limit b)) (λ _ b h. on_update m id dto limit b fine h) b))
            (λ _ _ q. q))
    where
      row : Option ℤ → List Customer → Option Customer
      row limit b =
          map_row (edited cipher m dto limit) (kept customer_rows (find_by (λ c. c.id) id b))

  handle_keeps :
      (m : Context) (c : Call) → Fine m → (b : List Customer) → P b → P (handle cipher m c b)
  unfolding handle soft_delete restore
  handle_keeps m (creates dto) fine b h = create-Keeps m dto fine b h
  handle_keeps m (updates id dto) fine b h = update-Keeps m id dto fine b h
  handle_keeps m (deletes id reason) fine b h =
      require_keeps P (is_truthy (trim reason)) bad_request
        (update_row id (if_kept customer_rows (trashed customer_rows m.now m.actor reason))) b h
        (λ _. on_delete m id reason b h)
  handle_keeps m (restores id) fine b h =
      require_keeps P (may_return (find_by (λ c. c.id) id b) b) unique_violation
        (update_row id (untrashed customer_rows)) b h (λ free. on_restore id b free h)

  pub run_keeps :
      (cs : List (Context × Call)) (b : List Customer)
      → All (λ c. Fine c.0) cs
      → P b
      → P (run cipher cs b)
  unfolding run
  run_keeps [] b fine h = h
  run_keeps ((m, c) ∷ cs) b fine h =
      run_keeps cs (handle cipher m c b) fine.1 (handle_keeps m c fine.0 b h)
