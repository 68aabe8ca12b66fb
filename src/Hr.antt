-- ===== src/Hr.antt =====
-- HR: the service and the endpoints of backend/src/hr/hr.module.ts, over the tables arka.positions
-- and arka.personnel of database/init/10_hr_tasks_payroll.sql. PostgreSQL's `lower` and its reading
-- of a number are parameters.
pub mod Keeps
pub mod Links
pub mod Masks
pub mod Rows
pub mod Updates
mod Tests
use arka_erp.Base.{
  ℕ, Bool, true, false, not, ◌≡◌, refl, Option, none, some, List, [], ◌∷◌, ◌++◌, map, any, filter,
  leb, ◌==◌, ◌&&◌, if◌then◌else◌, or_else, coalesce, is_known, refers,
}
use arka_erp.Base.Int.{ℤ, pos}
use arka_erp.Base.Texts.{Text, codes, text_eq, trim, is_truthy}
use arka_erp.Base.Decimal.{decimal}
use arka_erp.Base.Tables.{find_by, update_by, count_by}
use arka_erp.Base.Trash.{
  Stamp, no_stamp, Trashable, is_kept, if_kept, kept, trashed, untrashed, holders,
}
use arka_erp.Base.Effect.{
  bad_request, unique_violation, foreign_key, invalid_text, Action, pure, gets, or_throw, require,
  modify, ◌>>=◌, ◌>>◌, transaction, after,
}
use arka_erp.Columns.{number_in, check_amount}
use arka_erp.Envelope.{Cipher, encrypt, last4}
use arka_erp.Envelope.Masks.{sealed, masked}
pub use Rows.{
  EmploymentStatus, active, on_leave, terminated, Position, Personnel, personnel_rows, Staff,
  Context, PositionDto, UpsertPersonnelDto,
}

abbrev pub position_ids : List Position → List ℕ
position_ids ps = map (λ p. p.id) ps

unfoldable pub insert_position : Context → PositionDto → Action Staff ℕ
insert_position m dto = do
  b ← gets (λ b. b)
  require (not (any (λ p. text_eq (m.lower dto.title) (m.lower p.title)) b.positions))
      unique_violation
  require (not (is_known (some m.new_id) (position_ids b.positions))) unique_violation
  modify (λ b. record b {
    positions =
        record { id = m.new_id; title = dto.title; description = dto.description } ∷ b.positions;
  })
  pure m.new_id

unfoldable pub create_position : Context → PositionDto → Action Staff ℕ
create_position m dto = transaction (insert_position m dto)

-- Records in the trash refer to their positions too.
unfoldable pub delete_position : ℕ → Action Staff (Unit {0})
delete_position id = do
  b ← gets (λ b. b)
  require (not (any (λ p. refers id p.position_id) b.personnel)) foreign_key
  modify (λ b. record b { positions = filter (λ p. not (p.id == id)) b.positions })

abbrev pub new_personnel : Cipher → Context → UpsertPersonnelDto → Option ℤ → Personnel
new_personnel cipher m dto salary = record {
  id = m.new_id;
  employee_code = codes "EMP-" ++ decimal m.drawn;
  user_id = dto.user_id;
  first_name = or_else dto.first_name [];
  last_name = or_else dto.last_name [];
  national_id_enc = encrypt cipher m.national_iv dto.national_id;
  national_id_last4 = last4 dto.national_id;
  birth_date = dto.birth_date;
  gender = dto.gender;
  phone = dto.phone;
  email = dto.email;
  address = dto.address;
  position_id = dto.position_id;
  department = dto.department;
  hire_date = dto.hire_date;
  base_salary = or_else salary (pos 0);
  iban_enc = encrypt cipher m.iban_iv dto.iban;
  iban_last4 = last4 dto.iban;
  employment_status = or_else dto.employment_status active;
  emergency_contact = dto.emergency_contact;
  created_by = m.actor;
  stamp = no_stamp;
}

abbrev pub code_holders : Text → List Personnel → ℕ
code_holders code = holders personnel_rows (λ p. text_eq code p.employee_code)

abbrev pub login_holders : ℕ → List Personnel → ℕ
login_holders user = holders personnel_rows (λ p. refers user p.user_id)

abbrev pub is_sole_login : Option ℕ → List Personnel → Bool
is_sole_login none rows = true
is_sole_login (some user) rows = leb (login_holders user rows) 1

-- uq_personnel_code and uq_personnel_user, for the row of the table that a statement writes.
abbrev pub is_unique_in : Personnel → List Personnel → Bool
is_unique_in p rows = leb (code_holders p.employee_code rows) 1 && is_sole_login p.user_id rows

-- A statement that leaves these rows, of which it wrote one, and the table's constraints.
unfoldable pub write_rows : Personnel → List Personnel → Action Staff (Unit {0})
write_rows p rows = do
  check_amount p.base_salary
  require (is_unique_in p rows) unique_violation
  b ← gets (λ b. b)
  require (is_known p.user_id b.users && is_known p.position_id (position_ids b.positions))
      foreign_key
  modify (λ b. record b { personnel = rows })

unfoldable pub insert_personnel : Personnel → Action Staff (Unit {0})
insert_personnel p = do
  b ← gets (λ b. b)
  require (count_by (λ x. x.id) p.id b.personnel == 0) unique_violation
  write_rows p (p ∷ b.personnel)

unfoldable pub create : Cipher → Context → UpsertPersonnelDto → Action Staff ℕ
create cipher m dto = do
  require
      (is_truthy (trim (or_else dto.first_name [])) && is_truthy (trim (or_else dto.last_name [])))
      bad_request
  salary ← or_throw (number_in m.numeric_in dto.base_salary) invalid_text
  transaction (insert_personnel (new_personnel cipher m dto salary))
  pure m.new_id

abbrev pub edited : Cipher → Context → UpsertPersonnelDto → Option ℤ → Personnel → Personnel
edited cipher m dto salary p = record p {
  user_id = coalesce dto.user_id p.user_id;
  first_name = or_else dto.first_name p.first_name;
  last_name = or_else dto.last_name p.last_name;
  national_id_enc = coalesce (sealed cipher m.national_iv dto.national_id) p.national_id_enc;
  national_id_last4 = coalesce (masked dto.national_id) p.national_id_last4;
  birth_date = coalesce dto.birth_date p.birth_date;
  gender = coalesce dto.gender p.gender;
  phone = coalesce dto.phone p.phone;
  email = coalesce dto.email p.email;
  address = coalesce dto.address p.address;
  position_id = coalesce dto.position_id p.position_id;
  department = coalesce dto.department p.department;
  hire_date = coalesce dto.hire_date p.hire_date;
  base_salary = or_else salary p.base_salary;
  iban_enc = coalesce (sealed cipher m.iban_iv dto.iban) p.iban_enc;
  iban_last4 = coalesce (masked dto.iban) p.iban_last4;
  employment_status = or_else dto.employment_status p.employment_status;
  emergency_contact = coalesce dto.emergency_contact p.emergency_contact;
}

abbrev pub find_row : ℕ → Staff → Option Personnel
find_row id b = find_by (λ p. p.id) id b.personnel

abbrev pub update_rows : ℕ → (Personnel → Personnel) → Staff → List Personnel
update_rows id f b = update_by (λ p. p.id) id f b.personnel

-- An UPDATE of the row `o`, if there is one.
abbrev pub write_found :
    (Personnel → Personnel) → ℕ → Option Personnel → Staff → Action Staff (Unit {0})
write_found f id none b = pure tt
write_found f id (some p) b = write_rows (f p) (update_rows id f b)

unfoldable pub update_personnel : (Personnel → Personnel) → ℕ → Action Staff (Unit {0})
update_personnel f id b = write_found f id (kept personnel_rows (find_row id b)) b b

-- The answer is the row that `get` reads; its other columns for display are left out.
unfoldable pub update : Cipher → Context → ℕ → UpsertPersonnelDto → Action Staff (Option Personnel)
update cipher m id dto = do
  salary ← or_throw (number_in m.numeric_in dto.base_salary) invalid_text
  transaction (update_personnel (edited cipher m dto salary) id)
  gets (λ b. kept personnel_rows (find_row id b))

unfoldable pub soft_delete : Context → ℕ → Text → Action Staff (Unit {0})
soft_delete m id reason = do
  require (is_truthy (trim reason)) bad_request
  modify (λ b. record b {
    personnel =
        update_rows id (if_kept personnel_rows (trashed personnel_rows m.now m.actor reason)) b;
  })

abbrev pub may_return : Option Personnel → List Personnel → Bool
may_return none rows = true
may_return (some p) rows = if is_kept personnel_rows p then true else is_unique_in p rows

unfoldable pub restore : ℕ → Action Staff (Unit {0})
restore id = do
  b ← gets (λ b. b)
  require (may_return (find_row id b) (update_rows id (untrashed personnel_rows) b))
      unique_violation
  modify (λ b. record b { personnel = update_rows id (untrashed personnel_rows) b })

-- A request that writes.
pub data Call : Type 0 where
  adds_position : PositionDto → Call
  removes_position : ℕ → Call
  creates : UpsertPersonnelDto → Call
  updates : ℕ → UpsertPersonnelDto → Call
  deletes : ℕ → Text → Call
  restores : ℕ → Call

unfoldable pub handle : Cipher → Context → Call → Staff → Staff
handle cipher m (adds_position dto) b = after (create_position m dto) b
handle cipher m (removes_position id) b = after (delete_position id) b
handle cipher m (creates dto) b = after (create cipher m dto) b
handle cipher m (updates id dto) b = after (update cipher m id dto) b
handle cipher m (deletes id reason) b = after (soft_delete m id reason) b
handle cipher m (restores id) b = after (restore id) b

unfoldable pub run : Cipher → List (Context × Call) → Staff → Staff
run cipher [] b = b
run cipher ((m, c) ∷ cs) b = run cipher cs (handle cipher m c b)
