-- ===== src/Frontend/FormTests.antt =====
-- The theorems of the forms of tasks and users, at a task and at a choice of permissions.
use arka_erp.Base.{ℕ, ◌-◌, ◌≡◌, refl, true, false, none, some, List, [], ◌∷◌, any, arith}
use arka_erp.Base.Texts.{Text, codes, text_eq, trim}
use arka_erp.Base.Effect.{ok, after}
use arka_erp.Auth.{User, Store, Externals, Draw}
use arka_erp.Auth.Users.{effective_permissions, set_user_permissions, update_user}
use arka_erp.Auth.Permissions.{effective_permissions-role}
use arka_erp.Auth.Controller.{handle}
use arka_erp.Tasks.{group, Board, Moment, new_task, post_task}
use arka_erp.Frontend.TaskForm.{Form, blank, payload, open_edit, save, open_edit-save}
use arka_erp.Frontend.UserForm.{toggle, toggle_all, save_perms, IsOnce, save_perms-toggled}

abbrev form : Form
form = record blank { title = codes "Call"; kind = group; assignee_id = some 7; due_date = some 20 }

abbrev board : Board
board = record { tasks = []; users = 7 ∷ []; projects = [] }

abbrev moment : Moment
moment = record { now = 9; actor = some 7; new_id = 3 }

-- The server's clock is ahead of UTC: a date is shown as the day before.
abbrev day_of : ℕ → ℕ
day_of d = d - 1

open_edit-save_example :
    (post_task moment (payload form) board
      ≡ (ok 3, record board { tasks = new_task moment (payload form) ∷ [] }))
    × (open_edit day_of (new_task moment (payload form))
        ≡ record form { assignee_id = none; due_date = some 19 })
unfolding save trim
open_edit-save_example =
    open_edit-save day_of moment form (payload form) board refl refl refl refl refl refl refl

abbrev ext : Externals
ext = record {
  cipher = record { seal = λ iv s. (codes "0123456789abcdef", s); unseal = λ iv tag ct. some ct };
  lower = λ s. s;
  hash = λ salt s. s;
  verify = text_eq;
  sha256 = λ s. s;
  totp = λ code secret now. text_eq code (codes "123456");
  sign = λ secret p now. codes "token";
  verify_jwt = λ secret t now. none;
  refresh_ttl_days = 7;
}

abbrev draw : Draw
draw = record {
  now = 10;
  new_id = 9;
  new_family = 9;
  raw = codes "raw";
  salt = [];
  iv = codes "0123456789ab";
  otp_secret = codes "SECRET";
}

abbrev member : User
member = record {
  id = 1;
  email = codes "a@b.c";
  full_name = codes "A";
  role = codes "SALES";
  password_hash = codes "password";
  mfa_enabled = false;
  mfa_secret_enc = none;
  is_active = true;
  failed_logins = 0;
  locked_until = none;
  last_login_at = none;
  password_changed_at = 0;
  deleted_at = none;
}

abbrev store : Store
store = record {
  users = member ∷ [];
  tokens = [];
  user_grants = [];
  role_grants = record { role = codes "SALES"; permission = codes "customer.view" } ∷ [];
  permissions = codes "customer.view" ∷ codes "project.view" ∷ [];
}

abbrev opened : List Text
opened = codes "customer.view" ∷ []

abbrev clicks : List Text
clicks = codes "project.view" ∷ codes "customer.view" ∷ []

opened-IsOnce : IsOnce opened
opened-IsOnce q = ground arith

save_perms-toggled_example :
    any (text_eq (codes "customer.view")) (
      effective_permissions 1
        (codes "SALES")
        (handle ext draw (save_perms 1 (toggle_all clicks opened)) store))
    ≡ false
unfolding toggle
save_perms-toggled_example =
    save_perms-toggled ext draw 1 opened clicks (codes "SALES") (codes "customer.view") store refl
      (refl, tt) (refl, (refl, tt)) opened-IsOnce (omega arith)

-- A salesperson with a permission of his own who is made a guest.
effective_permissions-role_example :
    effective_permissions 1 (codes "GUEST") (
      after
        (update_user 1 none (some (codes "GUEST")) none)
        (after (set_user_permissions 1 (codes "project.view" ∷ [])) store))
    ≡ effective_permissions 1
        (codes "SALES")
        (after (set_user_permissions 1 (codes "project.view" ∷ [])) store)
effective_permissions-role_example =
    effective_permissions-role 1 (codes "project.view") [] (codes "SALES") (codes "GUEST") none none
      store refl (refl, tt)
