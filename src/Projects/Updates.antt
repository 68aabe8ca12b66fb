-- ===== src/Projects/Updates.antt =====
-- An update of a project that meets the constraints.
use arka_erp.Base.{ℕ, ◌≡◌, refl, true, some, List, arith, leb, ltb}
use arka_erp.Base.Int.{pos, negsuc, ltb_ℤ}
use arka_erp.Base.Texts.{text_eq}
use arka_erp.Base.Tables.{find_by, find_by-update_by}
use arka_erp.Base.Trash.{no_stamp, is_kept, holders-update_by}
use arka_erp.Base.Effect.{ok}
use arka_erp.Columns.{number_in, check_amount-pos}
use arka_erp.Ledger.{numeric_limit}
use arka_erp.Projects.{
  Project, project_rows, Portfolio, Context, UpsertProjectDto, find_row, update_rows, code_holders,
  is_in_order, is_referring, edited, write_rows, update_project, update,
}

-- What the constraints ask of a row with these amounts.
abbrev pub Fits : ℕ → ℕ → Project → Portfolio → Type 0
Fits x y p b =
    (ltb x numeric_limit ≡ true)
    × (ltb y numeric_limit ≡ true)
    × (leb p.progress_pct 10000 ≡ true)
    × (is_in_order p.starts_on p.due_on ≡ true)
    × (is_referring p b ≡ true)

-- The row meets the checks and the foreign keys of the table.
abbrev pub Valid : Portfolio → Project → Type 0
Valid b p =
    (ltb_ℤ (negsuc 0) p.budget ≡ true)
    × (ltb_ℤ (negsuc 0) p.contract_value ≡ true)
    × (leb p.progress_pct 10000 ≡ true)
    × (is_in_order p.starts_on p.due_on ≡ true)
    × (is_referring p b ≡ true)

write_rows_ok :
    (x y : ℕ) (p : Project) (rows : List Project) (b : Portfolio)
    → p.budget ≡ pos x
    → p.contract_value ≡ pos y
    → Fits x y p b
    → leb (code_holders p.code rows) 1 ≡ true
    → write_rows p rows b ≡ (ok tt, record b { projects = rows })
unfolding write_rows
write_rows_ok x y p rows b bx vy fits sole =
    rw
      (
        bx,
        vy,
        check_amount-pos x b fits.0,
        check_amount-pos y b fits.1,
        fits.2,
        fits.3,
        sole,
        fits.4,
      )
      refl

-- The new row of a kept project is written and read back, if it meets the constraints and its code
-- was no other's.
pub update_found :
    (m : Context) (id x y : ℕ) (dto : UpsertProjectDto) (p : Project) (b : Portfolio)
    → number_in m.numeric_in dto.budget ≡ some (some (pos x))
    → number_in m.numeric_in dto.contract_value ≡ some (some (pos y))
    → find_row id b ≡ some p
    → p.stamp ≡ no_stamp
    → Fits x y (edited dto (some (pos x)) (some (pos y)) p) b
    → leb (code_holders p.code b.projects) 1 ≡ true
    → (update m id dto b).0 ≡ ok (some (edited dto (some (pos x)) (some (pos y)) p))
unfolding update update_project
update_found m id x y dto p b read_x read_y found clean fits sole =
    rw (read_x, read_y, found, here, written, looked, here) refl
  where
    here : is_kept project_rows p ≡ true
    here = rw clean refl

    f : Project → Project
    f = edited dto (some (pos x)) (some (pos y))

    holding : leb (code_holders p.code (update_rows id f b)) 1 ≡ true
    holding = ground (
      arith,
      sole,
      holders-update_by project_rows (λ q. text_eq p.code q.code) id f b.projects p found,
    )

    written :
        write_rows (f p) (update_rows id f b) b
        ≡ (ok tt, record b { projects = update_rows id f b })
    written = write_rows_ok x y (f p) (update_rows id f b) b refl refl fits holding

    looked : find_by (λ p. p.id) id (update_rows id f b) ≡ some (f p)
    looked = ground (arith, find_by-update_by (λ p. p.id) id id f b.projects (λ r _. refl), found)
