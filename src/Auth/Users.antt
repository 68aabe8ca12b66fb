-- ===== src/Auth/Users.antt =====
-- The users service: backend/src/users/users.service.ts.
use arka_erp.Base.{
  ℕ, ◌+◌, Bool, true, false, not, ◌&&◌, Option, none, some, List, [], ◌∷◌, map, leb, ◌==◌,
  if◌then◌else◌, is_some, or_else, any, filter,
}
use arka_erp.Base.Texts.{Text, text_eq, trim, is_truthy}
use arka_erp.Base.Tables.{find_by, update_by, count_by}
use arka_erp.Base.Effect.{
  bad_request, not_found, unique_violation, foreign_key, plain_error, ok, Action, pure, gets,
  require, modify, ◌>>=◌, ◌>>◌, transaction,
}
use arka_erp.Auth.{User, Token, UserGrant, RoleGrant, Store, Externals, Draw, roles}

abbrev pub kept_user : Option User → Option User
kept_user none = none
kept_user (some u) = if is_some u.deleted_at then none else some u

abbrev pub email_row : Externals → Text → List User → Option User
email_row ext email [] = none
email_row ext email (u ∷ us) =
    let rest = email_row ext email us in
    if text_eq (ext.lower u.email) (ext.lower email) && not (is_some u.deleted_at)
    then some u
    else rest

-- `findByEmail`, `findById`
abbrev pub find_by_email : Externals → Text → Action Store (Option User)
find_by_email ext email s = (ok (email_row ext email s.users), s)

abbrev pub find_by_id : ℕ → Action Store (Option User)
find_by_id id s = (ok (kept_user (find_by (λ u. u.id) id s.users)), s)

-- The order of the answers' lists is the tables' here.
abbrev pub permissions_for_role : Text → List RoleGrant → List Text
permissions_for_role role grants =
    map (λ g. g.permission) (filter (λ g. text_eq g.role role) grants)

-- Own grants replace those of the role.
abbrev pub custom_or_role : List Text → List Text → List Text
custom_or_role [] role = role
custom_or_role (p ∷ ps) role = p ∷ ps

abbrev pub effective_permissions : ℕ → Text → Store → List Text
effective_permissions user_id role s =
    custom_or_role (map (λ g. g.permission) (filter (λ g. g.user_id == user_id) s.user_grants))
      (permissions_for_role role s.role_grants)

-- INSERT INTO arka.user_permissions … ON CONFLICT DO NOTHING
abbrev pub has_grant : ℕ → Text → List UserGrant → Bool
has_grant id p grants = any (λ g. g.user_id == id && text_eq g.permission p) grants

unfoldable pub insert_grant : ℕ → Text → Action Store (Unit {0})
insert_grant id p = do
  s ← gets (λ s. s)
  require (any (text_eq p) s.permissions && is_some (find_by (λ u. u.id) id s.users)) foreign_key
  modify (λ s. record s {
    user_grants =
        if has_grant id p s.user_grants
        then s.user_grants
        else record { user_id = id; permission = p } ∷ s.user_grants;
  })

unfoldable pub insert_grants : ℕ → List Text → Action Store (Unit {0})
insert_grants id [] = pure tt
insert_grants id (p ∷ ps) = insert_grant id p >> insert_grants id ps

unfoldable pub set_user_permissions : ℕ → List Text → Action Store (List Text)
set_user_permissions id ps = do
  transaction (
      modify (λ s. record s { user_grants = filter (λ g. not (g.user_id == id)) s.user_grants })
      >> insert_grants id ps)
  pure ps

abbrev pub update_user_row : ℕ → (User → User) → Action Store (Unit {0})
update_user_row id f = modify (λ s. record s { users = update_by (λ u. u.id) id f s.users })

abbrev pub logged_in : ℕ → User → User
logged_in now u = record u { failed_logins = 0; locked_until = none; last_login_at = some now }

abbrev pub register_successful_login : Draw → ℕ → Action Store (Unit {0})
register_successful_login d id = update_user_row id (logged_in d.now)

-- now() + interval '15 minutes', from the fifth failure on.
abbrev pub failed : ℕ → User → User
failed now u = record u {
  failed_logins = u.failed_logins + 1;
  locked_until = if leb 5 (u.failed_logins + 1) then some (now + 900000) else u.locked_until;
}

abbrev pub register_failed_login : Draw → ℕ → Action Store (Unit {0})
register_failed_login d id = update_user_row id (failed d.now)

abbrev pub set_mfa_secret : ℕ → Option Text → Action Store (Unit {0})
set_mfa_secret id enc =
    update_user_row id (λ u. record u { mfa_secret_enc = enc; mfa_enabled = false })

abbrev pub enable_mfa : ℕ → Action Store (Unit {0})
enable_mfa id = update_user_row id (λ u. record u { mfa_enabled = true })

abbrev pub clear_mfa : ℕ → Action Store (Unit {0})
clear_mfa id = update_user_row id (λ u. record u { mfa_enabled = false; mfa_secret_enc = none })

abbrev pub set_password_hash : Draw → ℕ → Text → Action Store (Unit {0})
set_password_hash d id h =
    update_user_row id (λ u. record u { password_hash = h; password_changed_at = d.now })

-- UPDATE arka.refresh_tokens SET revoked_at = now() WHERE … AND revoked_at IS NULL
abbrev pub revoke : ℕ → (Token → Bool) → Token → Token
revoke now p t = if p t && not (is_some t.revoked_at) then record t { revoked_at = some now } else t

abbrev pub revoke_where : Draw → (Token → Bool) → Action Store (Unit {0})
revoke_where d p = modify (λ s. record s { tokens = map (revoke d.now p) s.tokens })

pub record CreateUserDto : Type 0 where
  pub email : Text
  pub full_name : Text
  pub role : Text
  pub password : Text
  pub is_active : Option Bool
  pub permissions : List Text

abbrev pub new_user : Externals → Draw → CreateUserDto → User
new_user ext d dto = record {
  id = d.new_id;
  email = trim dto.email;
  full_name = dto.full_name;
  role = dto.role;
  password_hash = ext.hash d.salt dto.password;
  mfa_enabled = false;
  mfa_secret_enc = none;
  is_active = or_else dto.is_active true;
  failed_logins = 0;
  locked_until = none;
  last_login_at = none;
  password_changed_at = d.now;
  deleted_at = none;
}

-- The transaction of `create`; a unique index stands on lower(email) of the users that are kept.
unfoldable pub insert_user : Externals → Draw → CreateUserDto → Action Store (Unit {0})
insert_user ext d dto = do
  s ← gets (λ s. s)
  require
      (count_by (λ u. u.id) d.new_id s.users == 0
        && not (is_some (email_row ext (trim dto.email) s.users)))
      unique_violation
  modify (λ s. record s { users = new_user ext d dto ∷ s.users })
  insert_grants d.new_id dto.permissions

unfoldable pub create : Externals → Draw → CreateUserDto → Action Store ℕ
create ext d dto = do
  require (any (text_eq dto.role) roles) bad_request
  exists ← find_by_email ext dto.email
  require (not (is_some exists)) bad_request
  transaction (insert_user ext d dto)
  pure d.new_id

unfoldable pub admin_reset_password : Externals → Draw → ℕ → Text → Action Store (Unit {0})
admin_reset_password ext d id new_password =
    transaction (
      set_password_hash d id (ext.hash d.salt new_password)
      >> revoke_where d (λ t. t.user_id == id))

abbrev pub gone : ℕ → User → User
gone now u = record u { deleted_at = some now; is_active = false }

unfoldable pub soft_delete : Draw → ℕ → ℕ → Action Store (Unit {0})
soft_delete d id acting_user_id = do
  require (not (id == acting_user_id)) bad_request
  target ← find_by_id id
  require (is_some target) not_found
  transaction (update_user_row id (gone d.now) >> revoke_where d (λ t. t.user_id == id))

-- COALESCE of the given fields, on a row that is kept.
abbrev pub edit_user : Option Text → Option Text → Option Bool → User → User
edit_user full_name role is_active u = if is_some u.deleted_at then u else record u {
  full_name = or_else full_name u.full_name;
  role = or_else role u.role;
  is_active = or_else is_active u.is_active;
}

abbrev pub role_allowed : Option Text → Bool
role_allowed none = true
role_allowed (some []) = true
role_allowed (some (c ∷ r)) = any (text_eq (c ∷ r)) roles

-- The cast to arka.user_role.
abbrev pub role_casts : Option Text → Bool
role_casts none = true
role_casts (some r) = any (text_eq r) roles

unfoldable pub update_user : ℕ → Option Text → Option Text → Option Bool → Action Store (Unit {0})
update_user id full_name role is_active = do
  require (role_allowed role) bad_request
  target ← find_by_id id
  require (is_some target) not_found
  transaction (
      require (role_casts role) plain_error
      >> update_user_row id (edit_user full_name role is_active))

-- Whether the row of another user that is kept has the address, as the unique index sees it.
abbrev pub is_taken : Externals → ℕ → Option Text → List User → Bool
is_taken ext id none us = false
is_taken ext id (some email) us =
    any
      (λ u.
        not (u.id == id)
        && not (is_some u.deleted_at)
        && text_eq (ext.lower u.email) (ext.lower (trim email)))
      us

abbrev pub edit_profile : Option Text → Option Text → User → User
edit_profile full_name email u = if is_some u.deleted_at then u else record u {
  full_name = or_else full_name u.full_name;
  email = elim email [ none ↦ u.email | some e ↦ trim e ];
}

abbrev pub is_other : ℕ → Option User → Bool
is_other id none = false
is_other id (some u) = not (u.id == id)

unfoldable pub update_profile : Externals → ℕ → Option Text → Option Text → Action Store (Unit {0})
update_profile ext id full_name email = do
  other ← find_by_email ext (or_else email [])
  require (not (is_truthy (or_else email []) && is_other id other)) bad_request
  me ← find_by_id id
  s ← gets (λ s. s)
  transaction (
      require (not (is_some me && is_taken ext id email s.users)) unique_violation
      >> update_user_row id (edit_profile full_name email))
