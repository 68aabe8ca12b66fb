-- ===== src/Hr/Updates.antt =====
-- An update of a personnel record that meets the constraints.
use arka_erp.Base.{ℕ, ◌≡◌, refl, true, Option, none, some, arith, leb, ltb, &&-eq-true, refers}
use arka_erp.Base.Int.{pos}
use arka_erp.Base.Texts.{text_eq}
use arka_erp.Base.Tables.{find_by, find_by-update_by}
use arka_erp.Base.Trash.{no_stamp, is_kept, holders-update_by}
use arka_erp.Base.Effect.{ok}
use arka_erp.Columns.{number_in, check_amount-pos}
use arka_erp.Ledger.{numeric_limit}
use arka_erp.Envelope.{Cipher}
use arka_erp.Hr.{
  Personnel, personnel_rows, Staff, Context, UpsertPersonnelDto, find_row, update_rows,
  code_holders, is_sole_login, is_unique_in, edited, write_rows, update_personnel, update,
}
use arka_erp.Hr.Keeps.{is_referring}

-- The row with the same code and login is as unique as it was.
unique_after :
    (id : ℕ) (f : Personnel → Personnel) (p : Personnel) (b : Staff)
    → find_row id b ≡ some p
    → is_kept personnel_rows p ≡ true
    → is_kept personnel_rows (f p) ≡ true
    → (f p).employee_code ≡ p.employee_code
    → (f p).user_id ≡ p.user_id
    → is_unique_in p b.personnel ≡ true
    → is_unique_in (f p) (update_rows id f b) ≡ true
unique_after id f p b found here still code user sole =
    rw (code, user) (ground (arith, coded, login p.user_id user split.1))
  where
    split :
        (leb (code_holders p.employee_code b.personnel) 1 ≡ true)
        × (is_sole_login p.user_id b.personnel ≡ true)
    split =
        &&-eq-true (leb (code_holders p.employee_code b.personnel) 1)
          (is_sole_login p.user_id b.personnel) sole

    coded : leb (code_holders p.employee_code (update_rows id f b)) 1 ≡ true
    coded =
        let sum =
          holders-update_by personnel_rows (λ q. text_eq p.employee_code q.employee_code) id f
            b.personnel p found in
        ground (arith, split.0, rw (here, still, code) at sum)

    login :
        (o : Option ℕ)
        → (f p).user_id ≡ o
        → is_sole_login o b.personnel ≡ true
        → is_sole_login o (update_rows id f b) ≡ true
    login none e h = refl
    login (some u) e h =
        let sum =
          holders-update_by personnel_rows (λ q. refers u q.user_id) id f b.personnel p found in
        ground (arith, h, rw (here, still, user) at sum)

-- The new row of a kept record that keeps its login is written and read back, if its salary fits and
-- it refers to rows that exist.
pub update_found :
    (cipher : Cipher) (m : Context) (id x : ℕ) (dto : UpsertPersonnelDto) (p : Personnel)
    (b : Staff)
    → number_in m.numeric_in dto.base_salary ≡ some (some (pos x))
    → find_row id b ≡ some p
    → p.stamp ≡ no_stamp
    → ltb x numeric_limit ≡ true
    → (edited cipher m dto (some (pos x)) p).user_id ≡ p.user_id
    → is_referring (edited cipher m dto (some (pos x)) p) b ≡ true
    → is_unique_in p b.personnel ≡ true
    → (update cipher m id dto b).0 ≡ ok (some (edited cipher m dto (some (pos x)) p))
unfolding update update_personnel write_rows
update_found cipher m id x dto p b read found clean small user known sole =
    rw (read, found, here, check_amount-pos x b small, unique, known, looked, here) refl
  where
    here : is_kept personnel_rows p ≡ true
    here = rw clean refl

    f : Personnel → Personnel
    f = edited cipher m dto (some (pos x))

    unique : is_unique_in (f p) (update_rows id f b) ≡ true
    unique = unique_after id f p b found here here refl user sole

    looked : find_by (λ p. p.id) id (update_rows id f b) ≡ some (f p)
    looked = ground (arith, find_by-update_by (λ p. p.id) id id f b.personnel (λ r _. refl), found)
