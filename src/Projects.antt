-- ===== src/Projects.antt =====
-- Projects: the service and the endpoints of backend/src/projects/projects.module.ts, over the table
-- arka.projects of database/init/04_accounting_core.sql. Progress counts hundredths of a percent;
-- cost_to_date and delivered_on are not written here. PostgreSQL's reading of a number and the two
-- digits of the year are parameters.
pub mod Updates
use arka_erp.Base.{
  ℕ, Bool, true, ◌≡◌, refl, Option, none, some, List, [], ◌∷◌, ◌++◌, leb, ltb, ◌==◌, ◌&&◌,
  if◌then◌else◌, or_else, coalesce, is_known,
}
use arka_erp.Base.Int.{ℤ, pos, negsuc, pos_part, neg_part, ltb_ℤ}
use arka_erp.Base.Texts.{Text, codes, text_eq, trim, is_truthy}
use arka_erp.Base.Decimal.{decimal, lpad}
use arka_erp.Base.Tables.{find_by, update_by, count_by}
use arka_erp.Base.Trash.{
  Stamp, no_stamp, Trashable, is_kept, if_kept, kept, trashed, untrashed, holders,
}
use arka_erp.Base.Effect.{
  bad_request, unique_violation, foreign_key, check_violation, invalid_text, Action, pure, gets,
  or_throw, require, modify, ◌>>=◌, ◌>>◌, transaction, after,
}
use arka_erp.Columns.{number_in, check_amount}

pub data ProjectStatus : Type 0 where
  lead proposal contract active on_hold delivered closed cancelled : ProjectStatus

pub record Project : Type 0 where
  pub id : ℕ
  pub code : Text
  pub name : Text
  pub customer_id : Option ℕ
  pub manager_id : Option ℕ
  pub status : ProjectStatus
  pub budget : ℤ
  pub contract_value : ℤ
  pub progress_pct : ℕ
  pub starts_on : Option ℕ
  pub due_on : Option ℕ
  pub description : Option Text
  pub created_by : Option ℕ
  pub stamp : Stamp

abbrev pub project_rows : Trashable Project
project_rows = record {
  key = λ p. p.id;
  stamp = λ p. p.stamp;
  with_stamp = λ s p. record p { stamp = s };
  stamp-with_stamp = λ s p. refl;
  key-with_stamp = λ s p. refl;
  with_stamp-twice = λ s t p. refl;
  with_stamp-stamp = λ p. refl;
}

-- The projects, and the ids that their foreign keys refer to.
pub record Portfolio : Type 0 where
  pub projects : List Project
  pub customers : List ℕ
  pub users : List ℕ

pub record Context : Type 0 where
  pub now : ℕ
  pub actor : Option ℕ
  pub new_id : ℕ
  pub drawn : ℕ
  pub year : Text
  pub numeric_in : Text → Option ℤ

pub record UpsertProjectDto : Type 0 where
  pub code : Option Text
  pub name : Option Text
  pub customer_id : Option ℕ
  pub manager_id : Option ℕ
  pub status : Option ProjectStatus
  pub budget : Option Text
  pub contract_value : Option Text
  pub progress_pct : Option ℕ
  pub starts_on : Option ℕ
  pub due_on : Option ℕ
  pub description : Option Text

abbrev pub drawn_code : Context → Text
drawn_code m = codes "PRJ-" ++ (m.year ++ lpad 4 (decimal m.drawn))

-- COALESCE(NULLIF($1,''), 'PRJ-'||…)
abbrev pub project_code : Context → Option Text → Text
project_code m none = drawn_code m
project_code m (some []) = drawn_code m
project_code m (some (c ∷ s)) = c ∷ s

abbrev pub new_project : Context → UpsertProjectDto → Option ℤ → Option ℤ → Project
new_project m dto budget value = record {
  id = m.new_id;
  code = project_code m dto.code;
  name = or_else dto.name [];
  customer_id = dto.customer_id;
  manager_id = dto.manager_id;
  status = or_else dto.status lead;
  budget = or_else budget (pos 0);
  contract_value = or_else value (pos 0);
  progress_pct = or_else dto.progress_pct 0;
  starts_on = dto.starts_on;
  due_on = dto.due_on;
  description = dto.description;
  created_by = m.actor;
  stamp = no_stamp;
}

-- chk_project_dates
abbrev pub is_in_order : Option ℕ → Option ℕ → Bool
is_in_order none due = true
is_in_order (some start) none = true
is_in_order (some start) (some due) = leb start due

abbrev pub is_referring : Project → Portfolio → Bool
is_referring p b = is_known p.customer_id b.customers && is_known p.manager_id b.users

-- uq_projects_code
abbrev pub code_holders : Text → List Project → ℕ
code_holders code = holders project_rows (λ p. text_eq code p.code)

-- A statement that leaves these rows, of which it wrote one, and the table's constraints.
unfoldable pub write_rows : Project → List Project → Action Portfolio (Unit {0})
write_rows p rows = do
  check_amount p.budget
  check_amount p.contract_value
  require (leb p.progress_pct 10000 && is_in_order p.starts_on p.due_on) check_violation
  require (leb (code_holders p.code rows) 1) unique_violation
  b ← gets (λ b. b)
  require (is_referring p b) foreign_key
  modify (λ b. record b { projects = rows })

unfoldable pub insert_project : Project → Action Portfolio (Unit {0})
insert_project p = do
  b ← gets (λ b. b)
  require (count_by (λ x. x.id) p.id b.projects == 0) unique_violation
  write_rows p (p ∷ b.projects)

unfoldable pub create : Context → UpsertProjectDto → Action Portfolio ℕ
create m dto = do
  require (is_truthy (trim (or_else dto.name []))) bad_request
  budget ← or_throw (number_in m.numeric_in dto.budget) invalid_text
  value ← or_throw (number_in m.numeric_in dto.contract_value) invalid_text
  transaction (insert_project (new_project m dto budget value))
  pure m.new_id

-- The customer, the manager and the dates are replaced, also by null.
abbrev pub edited : UpsertProjectDto → Option ℤ → Option ℤ → Project → Project
edited dto budget value p = record p {
  name = or_else dto.name p.name;
  customer_id = dto.customer_id;
  manager_id = dto.manager_id;
  status = or_else dto.status p.status;
  budget = or_else budget p.budget;
  contract_value = or_else value p.contract_value;
  progress_pct = or_else dto.progress_pct p.progress_pct;
  starts_on = dto.starts_on;
  due_on = dto.due_on;
  description = coalesce dto.description p.description;
}

abbrev pub find_row : ℕ → Portfolio → Option Project
find_row id b = find_by (λ p. p.id) id b.projects

abbrev pub update_rows : ℕ → (Project → Project) → Portfolio → List Project
update_rows id f b = update_by (λ p. p.id) id f b.projects

-- An UPDATE of the row `o`, if there is one.
abbrev pub write_found :
    (Project → Project) → ℕ → Option Project → Portfolio → Action Portfolio (Unit {0})
write_found f id none b = pure tt
write_found f id (some p) b = write_rows (f p) (update_rows id f b)

unfoldable pub update_project : (Project → Project) → ℕ → Action Portfolio (Unit {0})
update_project f id b = write_found f id (kept project_rows (find_row id b)) b b

-- The answer is the row that `get` reads, without the name of the customer.
unfoldable pub update : Context → ℕ → UpsertProjectDto → Action Portfolio (Option Project)
update m id dto = do
  budget ← or_throw (number_in m.numeric_in dto.budget) invalid_text
  value ← or_throw (number_in m.numeric_in dto.contract_value) invalid_text
  transaction (update_project (edited dto budget value) id)
  gets (λ b. kept project_rows (find_row id b))

unfoldable pub soft_delete : Context → ℕ → Text → Action Portfolio (Unit {0})
soft_delete m id reason = do
  require (is_truthy (trim reason)) bad_request
  modify (λ b. record b {
    projects = update_rows id (if_kept project_rows (trashed project_rows m.now m.actor reason)) b;
  })

abbrev pub may_return : Option Project → List Project → Bool
may_return none rows = true
may_return (some p) rows = if is_kept project_rows p then true else leb (code_holders p.code rows) 1

unfoldable pub restore : ℕ → Action Portfolio (Unit {0})
restore id = do
  b ← gets (λ b. b)
  require (may_return (find_row id b) (update_rows id (untrashed project_rows) b)) unique_violation
  modify (λ b. record b { projects = update_rows id (untrashed project_rows) b })

-- A request that writes.
pub data Call : Type 0 where
  creates : UpsertProjectDto → Call
  updates : ℕ → UpsertProjectDto → Call
  deletes : ℕ → Text → Call
  restores : ℕ → Call

unfoldable pub handle : Context → Call → Portfolio → Portfolio
handle m (creates dto) b = after (create m dto) b
handle m (updates id dto) b = after (update m id dto) b
handle m (deletes id reason) b = after (soft_delete m id reason) b
handle m (restores id) b = after (restore id) b

unfoldable pub run : List (Context × Call) → Portfolio → Portfolio
run [] b = b
run ((m, c) ∷ cs) b = run cs (handle m c b)
