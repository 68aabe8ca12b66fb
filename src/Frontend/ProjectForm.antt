-- ===== src/Frontend/ProjectForm.antt =====
-- The form of frontend/src/views/ProjectsView.vue, from the row that the API sends to the request
-- that it sends back. An empty choice or date is `none`; dates are numbers, and
-- the day that the form shows of one is a parameter.
use arka_erp.Base.{
  ℕ, ◌*◌, ◌/◌, ◌≤◌, ◌≡◌, refl, sym, is_known, true, Option, none, some, [], or_else, if◌then◌else◌,
  arith, leb, &&-eq-true, ltb,
}
use arka_erp.Base.Int.{ℤ, pos}
use arka_erp.Base.Texts.{Text, is_truthy}
use arka_erp.Base.Decimal.{decimal}
use arka_erp.Base.Trash.{no_stamp}
use arka_erp.Base.Effect.{ok}
use arka_erp.Columns.{number_in}
use arka_erp.Ledger.{numeric_limit}
use arka_erp.Projects.{
  Project, ProjectStatus, lead, Portfolio, Context, UpsertProjectDto, find_row, code_holders,
  edited, update, is_in_order,
}
use arka_erp.Projects.Updates.{Valid, update_found}
use arka_erp.Frontend.Toman.{
  given, amount_text, whole_toman, amount-resaved, described, to_rial, to_toman, shown_day,
}

pub record Form : Type 0 where
  pub name : Text
  pub customer_id : Option ℕ
  pub status : ProjectStatus
  pub budget : Text
  pub contract_value : Text
  pub progress_pct : ℕ
  pub starts_on : Option ℕ
  pub due_on : Option ℕ
  pub description : Text

abbrev pub blank : Form
blank = record {
  name = [];
  customer_id = none;
  status = lead;
  budget = [];
  contract_value = [];
  progress_pct = 0;
  starts_on = none;
  due_on = none;
  description = [];
}

abbrev pub open_edit : (ℕ → ℕ) → Project → Form
open_edit day_of p = record {
  name = p.name;
  customer_id = p.customer_id;
  status = p.status;
  budget = to_toman (amount_text p.budget);
  contract_value = to_toman (amount_text p.contract_value);
  progress_pct = p.progress_pct;
  starts_on = shown_day day_of p.starts_on;
  due_on = shown_day day_of p.due_on;
  description = or_else p.description [];
}

abbrev pub payload : Form → UpsertProjectDto
payload form = record {
  code = none;
  name = some form.name;
  customer_id = form.customer_id;
  manager_id = none;
  status = some form.status;
  budget = some (to_rial form.budget);
  contract_value = some (to_rial form.contract_value);
  progress_pct = some form.progress_pct;
  starts_on = form.starts_on;
  due_on = form.due_on;
  description = given form.description;
}

-- What `save` sends, if it sends anything.
unfoldable pub save : Form → Option UpsertProjectDto
save form = if is_truthy form.name then some (payload form) else none

abbrev pub resaved : (ℕ → ℕ) → ℕ → ℕ → Project → Project
resaved day_of x y p = record p {
  manager_id = none;
  budget = whole_toman x;
  contract_value = whole_toman y;
  starts_on = shown_day day_of p.starts_on;
  due_on = shown_day day_of p.due_on;
}

-- The form of a kept project with a name, saved as it was opened, sends a request, and where the
-- database reads numbers as it writes them, the row meets the constraints of its table, the amounts
-- are whole, and later days are shown as later days or the same, the project comes back without its manager, with both amounts rounded down to whole Toman, and with the
-- days that the form showed for its dates; all else is as it was.
pub save-open_edit :
    (day_of : ℕ → ℕ) (m : Context) (id x y : ℕ) (p : Project) (b : Portfolio)
    → ((c d : ℕ) → c ≤ d → day_of c ≤ day_of d)
    → ((n : ℕ) → m.numeric_in (decimal n) ≡ some (pos n))
    → find_row id b ≡ some p
    → p.stamp ≡ no_stamp
    → is_truthy p.name ≡ true
    → p.budget ≡ pos x
    → p.contract_value ≡ pos y
    → ltb x numeric_limit ≡ true
    → ltb y numeric_limit ≡ true
    → Valid b p
    → leb (code_holders p.code b.projects) 1 ≡ true
    → (dto : UpsertProjectDto) × (save (open_edit day_of p) ≡ some dto)
      × ((update m id dto b).0 ≡ ok (some (resaved day_of x y p)))
unfolding save
save-open_edit day_of m id x y p b mono reads found clean named bx vy small_x small_y valid sole =
    (payload form, rw named refl, answer)
  where
    form : Form
    form = open_edit day_of p

    sent :
        (n : ℕ) (a : ℤ)
        → a ≡ pos n
        → number_in m.numeric_in (some (to_rial (to_toman (amount_text a))))
          ≡ some (some (whole_toman n))
    sent n a e = rw (e, amount-resaved n, reads (n / 10 * 10), number_in) refl

    same :
        edited (payload form) (some (whole_toman x)) (some (whole_toman y)) p ≡ resaved day_of x y p
    same = rw (described p.description) refl

    ordered :
        (o u : Option ℕ)
        → is_in_order o u ≡ true
        → is_in_order (shown_day day_of o) (shown_day day_of u) ≡ true
    ordered none none h = refl
    ordered none (some d) h = refl
    ordered (some c) none h = refl
    ordered (some c) (some d) h = ground (arith, h, mono c d)

    known : is_known p.customer_id b.customers ≡ true
    known =
        (&&-eq-true (is_known p.customer_id b.customers) (is_known p.manager_id b.users) valid.4).0

    answer : (update m id (payload form) b).0 ≡ ok (some (resaved day_of x y p))
    answer = rw (sym same) (
        update_found m id (x / 10 * 10) (y / 10 * 10) (payload form) p b (sent x p.budget bx)
          (sent y p.contract_value vy) found clean
          (
            ground (arith, small_x),
            ground (arith, small_y),
            valid.2,
            ordered p.starts_on p.due_on valid.3,
            rw known refl,
          )
          sole)
