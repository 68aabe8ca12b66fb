-- ===== src/Hr/Tests.antt =====
-- The theorems of HR at a position and one record of personnel.
use arka_erp.Base.{refl, none, some, List, [], ◌∷◌, arith}
use arka_erp.Base.Int.{pos}
use arka_erp.Base.Texts.{codes}
use arka_erp.Base.Trash.{no_stamp}
use arka_erp.Envelope.{Cipher}
use arka_erp.Hr.{
  Personnel, active, Staff, Context, UpsertPersonnelDto, Call, removes_position, updates, deletes,
  restores, run,
}
use arka_erp.Hr.Links.{AllLinked, IsSole, run-AllLinked, run-IsSole}

-- A cipher that hides nothing.
abbrev plain : Cipher
plain = record { seal = λ iv s. (codes "0123456789abcdef", s); unseal = λ iv t s. some s }

abbrev clerk : Personnel
clerk = record {
  id = 1;
  employee_code = codes "EMP-1001";
  user_id = some 7;
  first_name = codes "A";
  last_name = codes "B";
  national_id_enc = none;
  national_id_last4 = none;
  birth_date = none;
  gender = none;
  phone = none;
  email = none;
  address = none;
  position_id = some 4;
  department = none;
  hire_date = none;
  base_salary = pos 0;
  iban_enc = none;
  iban_last4 = none;
  employment_status = active;
  emergency_contact = none;
  created_by = none;
  stamp = no_stamp;
}

abbrev staff : Staff
staff = record {
  positions = record { id = 4; title = codes "Clerk"; description = none } ∷ [];
  personnel = clerk ∷ [];
  users = 7 ∷ [];
}

abbrev moment : Context
moment = record {
  now = 5;
  actor = some 7;
  new_id = 2;
  drawn = 1002;
  lower = λ s. s;
  numeric_in = λ s. some (pos 9);
  national_iv = codes "abcdefghijkl";
  iban_iv = codes "ABCDEFGHIJKL";
}

abbrev dto : UpsertPersonnelDto
dto = record {
  user_id = none;
  first_name = none;
  last_name = none;
  national_id = some (codes "0012345678");
  birth_date = none;
  gender = none;
  phone = none;
  email = none;
  address = none;
  position_id = none;
  department = none;
  hire_date = none;
  base_salary = some (codes "9");
  iban = none;
  employment_status = none;
  emergency_contact = none;
}

abbrev requests : List (Context × Call)
requests =
    (moment, updates 1 dto)
    ∷ (moment, deletes 1 (codes "left"))
    ∷ (moment, removes_position 4)
    ∷ (moment, restores 1)
    ∷ []

run-AllLinked_example : AllLinked (run plain requests staff)
run-AllLinked_example = run-AllLinked plain requests staff ((refl, refl), tt)

alone : IsSole staff
alone user = ground arith

run-IsSole_example : IsSole (run plain requests staff)
run-IsSole_example = run-IsSole plain requests staff alone
