-- ===== src/Hr/Rows.antt =====
-- The rows of arka.positions and arka.personnel, the request bodies of HR, and what a request finds.
use arka_erp.Base.{ℕ, refl, Option, List}
use arka_erp.Base.Int.{ℤ}
use arka_erp.Base.Texts.{Text}
use arka_erp.Base.Trash.{Stamp, Trashable}

pub data EmploymentStatus : Type 0 where
  active on_leave terminated : EmploymentStatus

pub record Position : Type 0 where
  pub id : ℕ
  pub title : Text
  pub description : Option Text

pub record Personnel : Type 0 where
  pub id : ℕ
  pub employee_code : Text
  pub user_id : Option ℕ
  pub first_name : Text
  pub last_name : Text
  pub national_id_enc : Option Text
  pub national_id_last4 : Option Text
  pub birth_date : Option ℕ
  pub gender : Option Text
  pub phone : Option Text
  pub email : Option Text
  pub address : Option Text
  pub position_id : Option ℕ
  pub department : Option Text
  pub hire_date : Option ℕ
  pub base_salary : ℤ
  pub iban_enc : Option Text
  pub iban_last4 : Option Text
  pub employment_status : EmploymentStatus
  pub emergency_contact : Option Text
  pub created_by : Option ℕ
  pub stamp : Stamp

abbrev pub personnel_rows : Trashable Personnel
personnel_rows = record {
  key = λ p. p.id;
  stamp = λ p. p.stamp;
  with_stamp = λ s p. record p { stamp = s };
  stamp-with_stamp = λ s p. refl;
  key-with_stamp = λ s p. refl;
  with_stamp-twice = λ s t p. refl;
  with_stamp-stamp = λ p. refl;
}

-- The two tables, and the ids of the users.
pub record Staff : Type 0 where
  pub positions : List Position
  pub personnel : List Personnel
  pub users : List ℕ

pub record Context : Type 0 where
  pub now : ℕ
  pub actor : Option ℕ
  pub new_id : ℕ
  pub drawn : ℕ
  pub lower : Text → Text
  pub numeric_in : Text → Option ℤ
  pub national_iv : Text
  pub iban_iv : Text

pub record PositionDto : Type 0 where
  pub title : Text
  pub description : Option Text

pub record UpsertPersonnelDto : Type 0 where
  pub user_id : Option ℕ
  pub first_name : Option Text
  pub last_name : Option Text
  pub national_id : Option Text
  pub birth_date : Option ℕ
  pub gender : Option Text
  pub phone : Option Text
  pub email : Option Text
  pub address : Option Text
  pub position_id : Option ℕ
  pub department : Option Text
  pub hire_date : Option ℕ
  pub base_salary : Option Text
  pub iban : Option Text
  pub employment_status : Option EmploymentStatus
  pub emergency_contact : Option Text
