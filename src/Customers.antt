-- ===== src/Customers.antt =====
-- Customers: the service and the endpoints of backend/src/customers/customers.module.ts, over the
-- table arka.customers of database/init/03_identity_and_crm.sql. PostgreSQL's reading of a number
-- is a parameter; the table's other columns are not written here.
pub mod Codes
pub mod Keeps
pub mod Masks
mod Tests
use arka_erp.Base.{
  ℕ, Bool, true, false, ◌≡◌, refl, Option, none, some, List, [], ◌∷◌, ◌++◌, ltb, ◌==◌, ◌&&◌,
  if◌then◌else◌, or_else, coalesce,
}
use arka_erp.Base.Int.{ℤ, pos, negsuc, pos_part, ltb_ℤ}
use arka_erp.Base.Texts.{Text, codes, text_eq, trim, is_truthy}
use arka_erp.Base.Decimal.{decimal, lpad}
use arka_erp.Base.Tables.{find_by, update_by, count_by}
use arka_erp.Base.Trash.{
  Stamp, no_stamp, Trashable, is_kept, if_kept, kept, trashed, untrashed, holders,
}
use arka_erp.Base.Effect.{
  Failure, bad_request, unique_violation, check_violation, numeric_overflow, invalid_text, Action,
  pure, gets, or_throw, require, modify, ◌>>=◌, ◌>>◌, transaction, after,
}
use arka_erp.Columns.{number_in, check_amount}
use arka_erp.Envelope.{Cipher, encrypt, last4}
use arka_erp.Envelope.Masks.{sealed, masked}

pub data CustomerKind : Type 0 where
  individual company : CustomerKind

pub record Customer : Type 0 where
  pub id : ℕ
  pub code : Text
  pub kind : CustomerKind
  pub display_name : Text
  pub legal_name : Option Text
  pub email : Option Text
  pub phone : Option Text
  pub iban_enc : Option Text
  pub iban_last4 : Option Text
  pub tax_id_enc : Option Text
  pub tax_id_last4 : Option Text
  pub credit_limit : ℤ
  pub created_by : Option ℕ
  pub stamp : Stamp

abbrev pub customer_rows : Trashable Customer
customer_rows = record {
  key = λ c. c.id;
  stamp = λ c. c.stamp;
  with_stamp = λ s c. record c { stamp = s };
  stamp-with_stamp = λ s c. refl;
  key-with_stamp = λ s c. refl;
  with_stamp-twice = λ s t c. refl;
  with_stamp-stamp = λ c. refl;
}

-- What a request finds: the clock, the actor, the database's key, sequence and numbers, and the
-- random bytes of the two envelopes.
pub record Context : Type 0 where
  pub now : ℕ
  pub actor : Option ℕ
  pub new_id : ℕ
  pub drawn : ℕ
  pub numeric_in : Text → Option ℤ
  pub iban_iv : Text
  pub tax_iv : Text

pub record UpsertCustomerDto : Type 0 where
  pub code : Option Text
  pub kind : Option CustomerKind
  pub display_name : Option Text
  pub legal_name : Option Text
  pub email : Option Text
  pub phone : Option Text
  pub iban : Option Text
  pub tax_id : Option Text
  pub credit_limit : Option Text

-- The row without its envelopes, as `get` selects it.
pub record CustomerView : Type 0 where
  pub id : ℕ
  pub code : Text
  pub kind : CustomerKind
  pub display_name : Text
  pub legal_name : Option Text
  pub email : Option Text
  pub phone : Option Text
  pub iban_last4 : Option Text
  pub tax_id_last4 : Option Text
  pub credit_limit : ℤ

abbrev pub view : Customer → CustomerView
view c = record {
  id = c.id;
  code = c.code;
  kind = c.kind;
  display_name = c.display_name;
  legal_name = c.legal_name;
  email = c.email;
  phone = c.phone;
  iban_last4 = c.iban_last4;
  tax_id_last4 = c.tax_id_last4;
  credit_limit = c.credit_limit;
}

abbrev pub viewed : Option Customer → Option CustomerView
viewed none = none
viewed (some c) = some (view c)

abbrev pub get : ℕ → List Customer → Option CustomerView
get id b = viewed (kept customer_rows (find_by (λ c. c.id) id b))

-- COALESCE(NULLIF($1,''), 'CUST-'||lpad(nextval(…)::text, 4, '0'))
abbrev pub drawn_code : ℕ → Text
drawn_code n = codes "CUST-" ++ lpad 4 (decimal n)

abbrev pub customer_code : ℕ → Option Text → Text
customer_code n none = drawn_code n
customer_code n (some []) = drawn_code n
customer_code n (some (c ∷ s)) = c ∷ s

abbrev pub new_customer : Cipher → Context → UpsertCustomerDto → Option ℤ → Customer
new_customer cipher m dto limit = record {
  id = m.new_id;
  code = customer_code m.drawn dto.code;
  kind = or_else dto.kind company;
  display_name = or_else dto.display_name [];
  legal_name = dto.legal_name;
  email = dto.email;
  phone = dto.phone;
  iban_enc = encrypt cipher m.iban_iv dto.iban;
  iban_last4 = last4 dto.iban;
  tax_id_enc = encrypt cipher m.tax_iv dto.tax_id;
  tax_id_last4 = last4 dto.tax_id;
  credit_limit = or_else limit (pos 0);
  created_by = m.actor;
  stamp = no_stamp;
}

-- uq_customers_code
abbrev pub code_holders : Text → List Customer → ℕ
code_holders code = holders customer_rows (λ c. text_eq code c.code)

unfoldable pub insert_customer : Customer → Action (List Customer) (Unit {0})
insert_customer c = do
  check_amount c.credit_limit
  b ← gets (λ b. b)
  require (count_by (λ x. x.id) c.id b == 0 && code_holders c.code b == 0) unique_violation
  modify (λ b. c ∷ b)

unfoldable pub create : Cipher → Context → UpsertCustomerDto → Action (List Customer) ℕ
create cipher m dto = do
  require (is_truthy (trim (or_else dto.display_name []))) bad_request
  limit ← or_throw (number_in m.numeric_in dto.credit_limit) invalid_text
  transaction (insert_customer (new_customer cipher m dto limit))
  pure m.new_id

abbrev pub edited : Cipher → Context → UpsertCustomerDto → Option ℤ → Customer → Customer
edited cipher m dto limit c = record c {
  kind = or_else dto.kind c.kind;
  display_name = or_else dto.display_name c.display_name;
  legal_name = coalesce dto.legal_name c.legal_name;
  email = coalesce dto.email c.email;
  phone = coalesce dto.phone c.phone;
  credit_limit = or_else limit c.credit_limit;
  iban_enc = coalesce (sealed cipher m.iban_iv dto.iban) c.iban_enc;
  iban_last4 = coalesce (masked dto.iban) c.iban_last4;
  tax_id_enc = coalesce (sealed cipher m.tax_iv dto.tax_id) c.tax_id_enc;
  tax_id_last4 = coalesce (masked dto.tax_id) c.tax_id_last4;
}

abbrev pub update_row : ℕ → (Customer → Customer) → Action (List Customer) (Unit {0})
update_row id f = modify (update_by (λ c. c.id) id f)

-- The constraints on the row that an UPDATE writes, if it finds one.
abbrev pub check_row : Option Customer → Action (List Customer) (Unit {0})
check_row none = pure tt
check_row (some c) = check_amount c.credit_limit

abbrev pub map_row : (Customer → Customer) → Option Customer → Option Customer
map_row f none = none
map_row f (some c) = some (f c)

unfoldable pub update_customer : (Customer → Customer) → ℕ → Action (List Customer) (Unit {0})
update_customer f id = do
  b ← gets (λ b. b)
  check_row (map_row f (kept customer_rows (find_by (λ c. c.id) id b)))
  update_row id (if_kept customer_rows f)

unfoldable pub update :
    Cipher → Context → ℕ → UpsertCustomerDto → Action (List Customer) (Option CustomerView)
update cipher m id dto = do
  limit ← or_throw (number_in m.numeric_in dto.credit_limit) invalid_text
  transaction (update_customer (edited cipher m dto limit) id)
  gets (get id)

unfoldable pub soft_delete : Context → ℕ → Text → Action (List Customer) (Unit {0})
soft_delete m id reason = do
  require (is_truthy (trim reason)) bad_request
  update_row id (if_kept customer_rows (trashed customer_rows m.now m.actor reason))

-- A row that comes back is again one of those that uq_customers_code is about.
abbrev pub may_return : Option Customer → List Customer → Bool
may_return none b = true
may_return (some c) b = if is_kept customer_rows c then true else code_holders c.code b == 0

unfoldable pub restore : ℕ → Action (List Customer) (Unit {0})
restore id = do
  b ← gets (λ b. b)
  require (may_return (find_by (λ c. c.id) id b) b) unique_violation
  update_row id (untrashed customer_rows)

-- A request that writes.
pub data Call : Type 0 where
  creates : UpsertCustomerDto → Call
  updates : ℕ → UpsertCustomerDto → Call
  deletes : ℕ → Text → Call
  restores : ℕ → Call

unfoldable pub handle : Cipher → Context → Call → List Customer → List Customer
handle cipher m (creates dto) b = after (create cipher m dto) b
handle cipher m (updates id dto) b = after (update cipher m id dto) b
handle cipher m (deletes id reason) b = after (soft_delete m id reason) b
handle cipher m (restores id) b = after (restore id) b

unfoldable pub run : Cipher → List (Context × Call) → List Customer → List Customer
run cipher [] b = b
run cipher ((m, c) ∷ cs) b = run cipher cs (handle cipher m c b)
