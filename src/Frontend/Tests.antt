-- ===== src/Frontend/Tests.antt =====
-- The theorems of the frontend at a project, a journal entry, a session and a request.
use arka_erp.Base.{
  List, ◌-◌, ◌≤◌, arith, ℕ, ◌≡◌, ◌↔◌, refl, true, false, none, some, [], ◌∷◌, ◌+◌, All, ap, length,
  ◌==◌, if◌then◌else◌, suc,
}
use arka_erp.Base.Int.{pos}
use arka_erp.Base.Texts.{Text, codes}
use arka_erp.Base.Decimal.{decimal, digits, read, read-decimal}
use arka_erp.Base.Trash.{no_stamp}
use arka_erp.Base.Effect.{ok}
use arka_erp.Ledger.{Side, Line, numeric_limit}
use arka_erp.Journal.{amount, assert_balanced}
use arka_erp.Journal.Dto.{CreateJournalDto}
use arka_erp.Projects.{Project, active, Portfolio, Context, UpsertProjectDto, update}
use arka_erp.Frontend.Toman.{to_rial}
use arka_erp.Frontend.ProjectForm.{open_edit, save, resaved, save-open_edit}
use arka_erp.Frontend.JournalForm.{FormLine, Form, line_dto, payload, submit, is_balanced}
use arka_erp.Frontend.Accepted.{HasAmount, submit-accepted}
use arka_erp.Frontend.Session.{
  SessionUser, Session, tokens, Call, logs_in, changes, Me, run, HasToken, run-HasToken,
}
use arka_erp.Frontend.Router.{Page, login, navigate, MayOpen, navigate_ends}
use arka_erp.Frontend.Client.{Request, Api, Client, http, most_messages, http_ends}

abbrev project : Project
project = record {
  id = 1;
  code = codes "PRJ-260001";
  name = codes "Site";
  customer_id = some 5;
  manager_id = some 7;
  status = active;
  budget = pos 15;
  contract_value = pos 40;
  progress_pct = 2500;
  starts_on = some 10;
  due_on = some 20;
  description = none;
  created_by = none;
  stamp = no_stamp;
}

abbrev portfolio : Portfolio
portfolio = record { projects = project ∷ []; customers = 5 ∷ []; users = 7 ∷ [] }

-- The server's clock is ahead of UTC: a date is shown as the day before.
abbrev day_of : ℕ → ℕ
day_of d = d - 1

day_of_mono : (a b : ℕ) → a ≤ b → day_of a ≤ day_of b
day_of_mono a b h = omega (arith, h)

abbrev moment : Context
moment = record {
  now = 5;
  actor = some 7;
  new_id = 2;
  drawn = 2;
  year = codes "26";
  numeric_in = λ s. some (pos (read 0 s));
}

reads : (n : ℕ) → moment.numeric_in (decimal n) ≡ some (pos n)
reads n = ap (λ k. some (pos k)) (read-decimal n)

save-open_edit_example :
    (dto : UpsertProjectDto) × (save (open_edit day_of project) ≡ some dto)
    × ((update moment 1 dto portfolio).0 ≡ ok (some (resaved day_of 15 40 project)))
unfolding numeric_limit
save-open_edit_example =
    save-open_edit day_of moment 1 15 40 project portfolio day_of_mono reads refl refl refl refl
      refl refl refl (refl, refl, refl, refl, refl) refl

abbrev form_line : ℕ → Side → Text → FormLine
form_line account side amount = record {
  account_id = some account;
  side = side;
  amount = amount;
  memo = "";
}

abbrev form : Form
form = record {
  memo = "Rent";
  entry_date = 3;
  reference = "";
  lines = form_line 1 Side.debit (codes "25") ∷ form_line 2 Side.credit (codes "25") ∷ [];
}

abbrev request_body : CreateJournalDto
request_body = payload form (
    line_dto (form_line 1 Side.debit (codes "25")) 1
    ∷ line_dto (form_line 2 Side.credit (codes "25")) 2
    ∷ [])

submit-accepted_example : (assert_balanced request_body ≡ ok tt) ↔ All HasAmount form.lines
unfolding submit is_balanced to_rial decimal digits
submit-accepted_example = submit-accepted form request_body refl refl

abbrev row : Line
row = record {
  line_no = 1;
  account_id = 4;
  debit = 15;
  credit = 0;
  memo = none;
  project_id = some 3;
}

abbrev user : SessionUser
user = record {
  id = 1;
  email = codes "a@b.c";
  full_name = codes "A";
  role = codes "SALES";
  permissions = codes "project.view" ∷ [];
  mfa_enabled = false;
}

abbrev me : Me
me none = none
me (some t) = some user

abbrev stranger : Session
stranger = record {
  user = none;
  booted = true;
  loading = false;
  access_token = none;
  step_up_token = none;
}

-- The token has expired when the profile is read again.
abbrev expired : Me
expired o = none

abbrev visits : List (Me × Call)
visits = (me, logs_in (tokens (codes "t"))) ∷ (me, changes true) ∷ (expired, changes true) ∷ []

run-HasToken_example : HasToken (run visits stranger)
run-HasToken_example = run-HasToken visits stranger (refl, (refl, (refl, tt))) (λ e. cc)

navigate_ends_example :
    (p : Page) × (navigate 3 (record stranger { user = some user }) login ≡ some p)
    × MayOpen (record stranger { user = some user }) p
navigate_ends_example = navigate_ends (record stranger { user = some user }) login

-- The first answer is 401, every other is 200; the renewal succeeds.
abbrev api : Api ℕ
api = record {
  answer = λ message n. (if n == 0 then 401 else 200, suc n);
  renew = λ n. (some (codes "new"), n);
}

abbrev client : Client ℕ
client = record {
  access_token = some (codes "old");
  step_up_token = none;
  unauthorized = 0;
  sent = [];
  server = 0;
}

abbrev request : Request
request = record { url = codes "/projects" }

http_ends_example :
    (status : ℕ) × (d : Client ℕ) × (http api 2 false request client ≡ some (status, d))
    × (length d.sent ≤ 0 + most_messages api request)
    × (d.unauthorized ≤ 1)
http_ends_example = http_ends api 0 request client
