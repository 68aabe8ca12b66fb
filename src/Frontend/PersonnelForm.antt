-- ===== src/Frontend/PersonnelForm.antt =====
-- The form of frontend/src/views/PersonnelView.vue, from the record that the API sends to the request
-- that it sends back. An empty choice or date is `none`; dates are numbers, and the
-- day that the form shows of one is a parameter. The numbers
-- of the identity card and of the account are left blank when a record is opened.
use arka_erp.Base.{
  ℕ, ◌*◌, ◌/◌, ◌≡◌, refl, sym, true, ◌&&◌, Option, none, some, [], or_else, coalesce, if◌then◌else◌,
  ltb, arith,
}
use arka_erp.Base.Int.{pos}
use arka_erp.Base.Texts.{Text, is_truthy}
use arka_erp.Base.Decimal.{decimal}
use arka_erp.Base.Trash.{no_stamp}
use arka_erp.Base.Effect.{ok}
use arka_erp.Columns.{number_in}
use arka_erp.Ledger.{numeric_limit}
use arka_erp.Envelope.{Cipher}
use arka_erp.Hr.{
  EmploymentStatus, active, Personnel, Staff, Context, UpsertPersonnelDto, find_row, is_unique_in,
  edited, update,
}
use arka_erp.Hr.Updates.{update_found}
use arka_erp.Hr.Links.{Linked}
use arka_erp.Frontend.Toman.{
  to_rial, to_toman, given, amount_text, whole_toman, amount-resaved, described, shown_day,
}

pub record Form : Type 0 where
  pub user_id : Option ℕ
  pub first_name : Text
  pub last_name : Text
  pub national_id : Text
  pub birth_date : Option ℕ
  pub gender : Text
  pub phone : Text
  pub email : Text
  pub address : Text
  pub position_id : Option ℕ
  pub department : Text
  pub hire_date : Option ℕ
  pub base_salary : Text
  pub iban : Text
  pub employment_status : EmploymentStatus

abbrev pub blank : Form
blank = record {
  user_id = none;
  first_name = [];
  last_name = [];
  national_id = [];
  birth_date = none;
  gender = [];
  phone = [];
  email = [];
  address = [];
  position_id = none;
  department = [];
  hire_date = none;
  base_salary = [];
  iban = [];
  employment_status = active;
}

abbrev pub open_edit : (ℕ → ℕ) → Personnel → Form
open_edit day_of d = record {
  user_id = d.user_id;
  first_name = d.first_name;
  last_name = d.last_name;
  national_id = [];
  birth_date = shown_day day_of d.birth_date;
  gender = or_else d.gender [];
  phone = or_else d.phone [];
  email = or_else d.email [];
  address = or_else d.address [];
  position_id = d.position_id;
  department = or_else d.department [];
  hire_date = shown_day day_of d.hire_date;
  base_salary = to_toman (amount_text d.base_salary);
  iban = [];
  employment_status = d.employment_status;
}

abbrev pub payload : Form → UpsertPersonnelDto
payload form = record {
  user_id = form.user_id;
  first_name = some form.first_name;
  last_name = some form.last_name;
  national_id = given form.national_id;
  birth_date = form.birth_date;
  gender = given form.gender;
  phone = given form.phone;
  email = given form.email;
  address = given form.address;
  position_id = form.position_id;
  department = given form.department;
  hire_date = form.hire_date;
  base_salary = some (to_rial form.base_salary);
  iban = given form.iban;
  employment_status = some form.employment_status;
  emergency_contact = none;
}

-- What `save` sends, if it sends anything.
unfoldable pub save : Form → Option UpsertPersonnelDto
save form =
    if is_truthy form.first_name && is_truthy form.last_name then some (payload form) else none

coalesce-same : (o : Option ℕ) → coalesce o o ≡ o
coalesce-same none = refl
coalesce-same (some n) = refl

coalesce-shown :
    (day_of : ℕ → ℕ) (o : Option ℕ) → coalesce (shown_day day_of o) o ≡ shown_day day_of o
coalesce-shown day_of none = refl
coalesce-shown day_of (some d) = refl

abbrev pub resaved : (ℕ → ℕ) → ℕ → Personnel → Personnel
resaved day_of x p = record p {
  base_salary = whole_toman x;
  birth_date = shown_day day_of p.birth_date;
  hire_date = shown_day day_of p.hire_date;
}

edited-open_edit :
    (day_of : ℕ → ℕ) (cipher : Cipher) (m : Context) (x : ℕ) (p : Personnel)
    → edited cipher m (payload (open_edit day_of p)) (some (whole_toman x)) p ≡ resaved day_of x p
edited-open_edit day_of cipher m x p =
    rw
      (
        coalesce-same p.user_id,
        coalesce-shown day_of p.birth_date,
        described p.gender,
        described p.phone,
        described p.email,
        described p.address,
        coalesce-same p.position_id,
        described p.department,
        coalesce-shown day_of p.hire_date,
      )
      refl

-- The form of a kept record, saved as it was opened, sends a request, and where the database reads
-- numbers as it writes them and the salary fits, the record comes back with its salary rounded down
-- to whole Toman and with the days that the form showed for its dates; all else is as it was, the numbers that the form left blank too.
pub save-open_edit :
    (day_of : ℕ → ℕ) (cipher : Cipher) (m : Context) (id x : ℕ) (p : Personnel) (b : Staff)
    → ((n : ℕ) → m.numeric_in (decimal n) ≡ some (pos n))
    → find_row id b ≡ some p
    → p.stamp ≡ no_stamp
    → is_truthy p.first_name ≡ true
    → is_truthy p.last_name ≡ true
    → p.base_salary ≡ pos x
    → ltb x numeric_limit ≡ true
    → Linked b p
    → is_unique_in p b.personnel ≡ true
    → (dto : UpsertPersonnelDto) × (save (open_edit day_of p) ≡ some dto)
      × ((update cipher m id dto b).0 ≡ ok (some (resaved day_of x p)))
unfolding save
save-open_edit day_of cipher m id x p b reads found clean first last salary small linked sole =
    (payload form, rw (first, last) refl, answer)
  where
    form : Form
    form = open_edit day_of p

    sent : number_in m.numeric_in (payload form).base_salary ≡ some (some (whole_toman x))
    sent = rw (salary, amount-resaved x, reads (x / 10 * 10), number_in) refl

    same : edited cipher m (payload form) (some (whole_toman x)) p ≡ resaved day_of x p
    same = edited-open_edit day_of cipher m x p

    answer : (update cipher m id (payload form) b).0 ≡ ok (some (resaved day_of x p))
    answer = rw (sym same) (
        update_found cipher m id (x / 10 * 10) (payload form) p b sent found clean
          (ground (arith, small)) (coalesce-same p.user_id)
          (rw (coalesce-same p.user_id, coalesce-same p.position_id, linked.0, linked.1) refl) sole)
