-- ===== src/Auth/Controller.antt =====
-- The endpoints of backend/src/auth/auth.controller.ts that sign in and out, and the calls that write
-- the tables of this part, with those of the users service.
use arka_erp.Base.{
  Bool, true, ℕ, Option, none, some, List, [], ◌∷◌, if◌then◌else◌, leb, length, ◌==◌, ◌&&◌,
}
use arka_erp.Base.Texts.{Text, is_truthy}
use arka_erp.Base.Effect.{
  bad_request, unauthorized, Action, pure, or_throw, require, ◌>>=◌, ◌>>◌, after,
}
use arka_erp.Auth.{User, Store, Externals, Draw}
use arka_erp.Auth.Users
use arka_erp.Auth.Users.{
  CreateUserDto, clear_mfa, set_user_permissions, admin_reset_password, soft_delete, update_user,
  update_profile,
}
use arka_erp.Auth.Service.{
  IssuedTokens, validate_user, issue_tokens, rotate_refresh, revoke_refresh, begin_mfa_enrollment,
  activate_mfa, verify_totp_for_user, disable_mfa, change_own_password,
}

pub record LoginDto : Type 0 where
  pub email : Text
  pub password : Text
  pub totp : Option Text

-- `@MinLength(8)`, `@Length(6, 6)`; `@IsEmail` is the validator's.
abbrev pub is_valid_login : LoginDto → Bool
is_valid_login dto =
    leb 8 (length dto.password) && elim dto.totp [ none ↦ true | some t ↦ length t == 6 ]

-- The answer of a sign-in: a code is asked for, or the tokens.
pub data LoginAnswer : Type 0 where
  mfa_required : LoginAnswer
  signed_in : IssuedTokens → LoginAnswer

abbrev pub second_factor : Externals → Draw → User → Text → Action Store (Unit {0})
second_factor ext d user code = do
  right ← verify_totp_for_user ext d user code
  require right unauthorized

abbrev pub sign_in : Externals → Draw → User → Option Text → Option Text → Action Store LoginAnswer
sign_in ext d user user_agent ip = do
  tokens ← issue_tokens ext d user user_agent ip none
  pure (signed_in tokens)

-- The second step of a user who has a code to give.
abbrev pub challenge :
    Externals → Draw → User → Option Text → Option Text → Option Text → Action Store LoginAnswer
challenge ext d user none user_agent ip = pure mfa_required
challenge ext d user (some code) user_agent ip =
    second_factor ext d user code >> sign_in ext d user user_agent ip

abbrev pub finish_login :
    Externals → Draw → LoginDto → Option Text → Option Text → User → Action Store LoginAnswer
finish_login ext d dto user_agent ip user =
    if user.mfa_enabled
    then challenge ext d user dto.totp user_agent ip
    else sign_in ext d user user_agent ip

unfoldable pub login :
    Externals → Draw → LoginDto → Option Text → Option Text → Action Store LoginAnswer
login ext d dto user_agent ip = do
  user ← validate_user ext d dto.email dto.password
  finish_login ext d dto user_agent ip user

-- The cookie of the refresh token, if the request has one.
unfoldable pub refresh :
    Externals → Draw → Option Text → Option Text → Option Text → Action Store IssuedTokens
refresh ext d cookie user_agent ip = do
  raw ← or_throw cookie unauthorized
  require (is_truthy raw) unauthorized
  rotate_refresh ext d raw user_agent ip

unfoldable pub logout : Externals → Draw → Option Text → Action Store (Unit {0})
logout ext d none = pure tt
logout ext d (some raw) = if is_truthy raw then revoke_refresh ext d raw else pure tt

-- A request that writes users or tokens. The ids of the signed-in user come from its access token.
pub data Call : Type 0 where
  logs_in : LoginDto → Option Text → Option Text → Call
  refreshes : Option Text → Option Text → Option Text → Call
  logs_out : Option Text → Call
  edits_profile : ℕ → Option Text → Option Text → Call
  changes_password : ℕ → Text → Text → Call
  enrolls_mfa : ℕ → Call
  activates_mfa : ℕ → Text → Call
  disables_mfa : ℕ → Text → Call
  creates_user : CreateUserDto → Call
  edits_user : ℕ → Option Text → Option Text → Option Bool → Call
  sets_permissions : ℕ → List Text → Call
  resets_password : ℕ → Text → Call
  resets_mfa : ℕ → Call
  deletes_user : ℕ → ℕ → Call

-- The tables after a request.
unfoldable pub handle : Externals → Draw → Call → Store → Store
handle ext d (logs_in dto ua ip) s =
    after (require (is_valid_login dto) bad_request >> login ext d dto ua ip) s
handle ext d (refreshes cookie ua ip) s = after (refresh ext d cookie ua ip) s
handle ext d (logs_out cookie) s = after (logout ext d cookie) s
handle ext d (edits_profile id name email) s = after (update_profile ext id name email) s
handle ext d (changes_password id current next) s =
    after (change_own_password ext d id current next) s
handle ext d (enrolls_mfa id) s = after (begin_mfa_enrollment ext d id) s
handle ext d (activates_mfa id code) s = after (activate_mfa ext d id code) s
handle ext d (disables_mfa id code) s = after (disable_mfa ext d id code) s
handle ext d (creates_user dto) s = after (Users.create ext d dto) s
handle ext d (edits_user id name role active) s = after (update_user id name role active) s
handle ext d (sets_permissions id ps) s = after (set_user_permissions id ps) s
handle ext d (resets_password id next) s = after (admin_reset_password ext d id next) s
handle ext d (resets_mfa id) s = after (clear_mfa id) s
handle ext d (deletes_user id by) s = after (soft_delete d id by) s

unfoldable pub run : Externals → List (Draw × Call) → Store → Store
run ext [] s = s
run ext ((d, c) ∷ cs) s = run ext cs (handle ext d c s)
