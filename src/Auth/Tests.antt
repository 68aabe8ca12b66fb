-- ===== src/Auth/Tests.antt =====
-- The theorems of sessions, guards and envelopes, with concrete functions for what the code calls:
-- a user with a second factor and one without, and a live refresh token.
use Prim.Native.String.{String}
use arka_erp.Base.{
  ℕ, ◌≤◌, ◌≡◌, refl, Bool, true, false, not, ◌&&◌, Option, none, some, List, [], ◌∷◌, ◌++◌, arith,
  ltb, ◌==◌, is_some, every, any,
}
use arka_erp.Base.Texts.{Text, codes, text_eq}
use arka_erp.Base.Tables.{count_by}
use arka_erp.Base.Effect.{ok, err, forbidden, reuse_detected, after}
use arka_erp.Envelope.{Cipher, encrypt, decrypt, decrypt-encrypt}
use arka_erp.Guards.{
  Route, Request, admit, bearer, principal, admitted_user, jwt_guard, permissions_guard,
  step_up_guard,
}
use arka_erp.Auth.{
  User, Token, Store, AccessTokenPayload, Payload, access, stepup, Secret, access_secret,
  stepup_secret, Externals, Draw,
}
use arka_erp.Auth.Service.{
  IssuedTokens, validate_user, check_password, rotate_refresh, rotate, issue_tokens, insert_token,
  find_hash, replaced, check_code, change_own_password, revoke_all_for_user, begin_mfa_enrollment,
  verify_totp_for_user,
}
use arka_erp.Auth.Controller.{
  LoginDto, signed_in, login, sign_in, Call, refreshes, changes_password, run, handle, refresh,
}
use arka_erp.Auth.Rotation.{live_in, IsChained}
use arka_erp.Auth.Histories.{AreFresh, run-IsChained}
use arka_erp.Auth.Sessions.{
  reuse_ends_family, rotation_replaces, refresh_token_works_once, change_password_ends_sessions,
}
use arka_erp.Auth.Lockout.{fifth_failure_locks}
use arka_erp.Auth.Factors.{sign_in_needs_code, enrollment_turns_factor_off}

abbrev sixteen : Text
sixteen = codes "0123456789abcdef"

abbrev cipher : Cipher
cipher = record { seal = λ iv s. (sixteen, s); unseal = λ iv tag ct. some ct }

-- A signed token is its kind and its subject.
abbrev signed : Secret → Payload → ℕ → Text
signed access_secret (access p) now = codes "a" ++ (p.sub ∷ [])
signed access_secret (stepup i) now = codes "?"
signed stepup_secret (access p) now = codes "?"
signed stepup_secret (stepup i) now = codes "s" ++ (i ∷ [])

abbrev claims : ℕ → AccessTokenPayload
claims i = record {
  sub = i;
  email = codes "a@b.c";
  role = codes "CEO";
  name = codes "A";
  perms = codes "fund.transfer" ∷ [];
  mfa = true;
}

abbrev opened : Secret → Text → ℕ → Option Payload
opened access_secret [] now = none
opened access_secret (c ∷ s) now = some (access (claims c))
opened stepup_secret [] now = none
opened stepup_secret (c ∷ s) now = some (stepup c)

abbrev ext : Externals
ext = record {
  cipher = cipher;
  lower = λ s. s;
  hash = λ salt s. s;
  verify = text_eq;
  sha256 = λ s. s;
  totp = λ code secret now. text_eq code (codes "123456");
  sign = signed;
  verify_jwt = opened;
  refresh_ttl_days = 7;
}

abbrev draw : ℕ → ℕ → Draw
draw id now = record {
  now = now;
  new_id = id;
  new_family = id;
  raw = id ∷ [];
  salt = [];
  iv = codes "0123456789ab";
  otp_secret = codes "SECRET";
}

abbrev user : ℕ → String → Bool → ℕ → User
user id email mfa failed_logins = record {
  id = id;
  email = codes email;
  full_name = codes "A";
  role = codes "CEO";
  password_hash = codes "password";
  mfa_enabled = mfa;
  mfa_secret_enc = encrypt cipher (codes "0123456789ab") (some (codes "KEY"));
  is_active = true;
  failed_logins = failed_logins;
  locked_until = none;
  last_login_at = none;
  password_changed_at = 0;
  deleted_at = none;
}

abbrev token : ℕ → Option ℕ → Token
token id revoked_at = record {
  id = id;
  user_id = 1;
  token_hash = id ∷ [];
  family_id = 1;
  user_agent = none;
  client_ip = none;
  expires_at = 1000;
  revoked_at = revoked_at;
  replaced_by = none;
}

abbrev store : Store
store = record {
  users = user 1 "a@b.c" false 4 ∷ user 2 "d@e.f" true 0 ∷ [];
  tokens = token 2 none ∷ token 1 (some 5) ∷ [];
  user_grants = [];
  role_grants = [];
  permissions = [];
}

store-IsChained : IsChained store.tokens
store-IsChained = record { distinct = λ i. ground arith; one_live = λ f. ground arith }

users_distinct : (i : ℕ) → count_by (λ u. u.id) i store.users ≤ 1
users_distinct i = ground arith

abbrev requests : List (Draw × Call)
requests =
    (draw 7 10, refreshes (some (2 ∷ [])) none none)
    ∷ (draw 8 11, changes_password 1 (codes "password") (codes "passw0rd"))
    ∷ []

requests_fresh : AreFresh ext requests store
unfolding handle refresh rotate_refresh rotate issue_tokens insert_token
requests_fresh = (refl, (refl, tt))

run-IsChained_example : IsChained (run ext requests store).tokens
run-IsChained_example = run-IsChained ext requests store requests_fresh store-IsChained

reuse_ends_family_example :
    ((rotate_refresh ext (draw 7 10) (1 ∷ []) none none store).0 ≡ err reuse_detected)
    × (live_in 1 (after (rotate_refresh ext (draw 7 10) (1 ∷ []) none none) store).tokens ≡ 0)
reuse_ends_family_example =
    reuse_ends_family ext (draw 7 10) (1 ∷ []) none none (token 1 (some 5)) 5 store refl refl

abbrev rotated : Store
rotated = after (rotate_refresh ext (draw 7 10) (2 ∷ []) none none) store

abbrev issued : IssuedTokens
issued = record {
  access_token = codes "a" ++ (1 ∷ []);
  refresh_token = 7 ∷ [];
  refresh_expires_at = 604800010;
}

rotates_2 : rotate_refresh ext (draw 7 10) (2 ∷ []) none none store ≡ (ok issued, rotated)
unfolding rotate_refresh rotate issue_tokens insert_token
rotates_2 = refl

rotation_replaces_example :
    (old new : Token) × (find_hash (2 ∷ []) store.tokens ≡ some old)
    × (old.revoked_at ≡ none)
    × (ltb old.expires_at 10 ≡ false)
    × (find_hash (2 ∷ []) rotated.tokens ≡ some (replaced 10 (some new.id) old))
    × (find_hash (7 ∷ []) rotated.tokens ≡ some new)
    × (new.revoked_at ≡ none)
    × (new.family_id ≡ old.family_id)
    × (new.user_id ≡ old.user_id)
rotation_replaces_example =
    rotation_replaces ext (draw 7 10) (2 ∷ []) none none store rotated issued store-IsChained
      rotates_2

refresh_token_works_once_example :
    ((rotate_refresh ext (draw 8 20) (2 ∷ []) none none rotated).0 ≡ err reuse_detected)
    × ((rotate_refresh ext
          (draw 8 20)
          (7 ∷ [])
          none
          none
          (after (rotate_refresh ext (draw 8 20) (2 ∷ []) none none) rotated)).0
        ≡ err reuse_detected)
refresh_token_works_once_example =
    refresh_token_works_once ext (draw 7 10) (draw 8 20) (2 ∷ []) none none none none store rotated
      issued store-IsChained rotates_2

abbrev changed : Store
changed = after (change_own_password ext (draw 7 10) 1 (codes "password") (codes "new")) store

changes_1 :
    change_own_password ext (draw 7 10) 1 (codes "password") (codes "new") store ≡ (ok tt, changed)
unfolding change_own_password revoke_all_for_user
changes_1 = refl

change_password_ends_sessions_example :
    every (λ x. not (x.user_id == 1 && not (is_some x.revoked_at))) changed.tokens ≡ true
change_password_ends_sessions_example =
    change_password_ends_sessions ext (draw 7 10) 1 (codes "password") (codes "new") store changed
      changes_1

fifth_failure_locks_example :
    validate_user ext
      (draw 8 800000)
      (codes "a@b.c")
      (codes "password")
      (after (validate_user ext (draw 7 10) (codes "a@b.c") (codes "wrong")) store)
    ≡ (err forbidden, after (validate_user ext (draw 7 10) (codes "a@b.c") (codes "wrong")) store)
fifth_failure_locks_example =
    fifth_failure_locks ext (draw 7 10) (draw 8 800000) (codes "a@b.c") (codes "wrong")
      (codes "password") (user 1 "a@b.c" false 4) store users_distinct refl refl refl (omega arith)
      refl (omega arith)

abbrev with_code : String → LoginDto
with_code code = record {
  email = codes "d@e.f";
  password = codes "password";
  totp = some (codes code);
}

abbrev entered : Store
entered = after (login ext (draw 7 10) (with_code "123456") none none) store

abbrev issued_2 : IssuedTokens
issued_2 = record {
  access_token = codes "a" ++ (2 ∷ []);
  refresh_token = 7 ∷ [];
  refresh_expires_at = 604800010;
}

logs_in_2 :
    login ext (draw 7 10) (with_code "123456") none none store ≡ (ok (signed_in issued_2), entered)
unfolding login validate_user check_password verify_totp_for_user issue_tokens insert_token decrypt
    encrypt
logs_in_2 = refl

sign_in_needs_code_example :
    (code : Text) × (some (codes "123456") ≡ some code)
    × (check_code ext (draw 7 10) code (decrypt cipher (user 2 "d@e.f" true 0).mfa_secret_enc)
        ≡ ok true)
sign_in_needs_code_example =
    sign_in_needs_code ext (draw 7 10) (with_code "123456") none none (user 2 "d@e.f" true 0) store
      entered issued_2 refl refl logs_in_2

enrollment_turns_factor_off_example :
    (x : User) × (t : Store) × (x.id ≡ 2)
    × (x.mfa_enabled ≡ false)
    × (login ext
          (draw 8 20)
          (with_code "000000")
          none
          none
          (after (begin_mfa_enrollment ext (draw 7 10) 2) store)
        ≡ sign_in ext (draw 8 20) x none none t)
enrollment_turns_factor_off_example =
    enrollment_turns_factor_off ext (draw 7 10) (draw 8 20) (with_code "000000") none none
      (user 2 "d@e.f" true 0) store users_distinct refl refl refl refl

decrypt-encrypt_example :
    decrypt cipher (encrypt cipher (codes "0123456789ab") (some (codes "KEY")))
    ≡ ok (some (codes "KEY"))
decrypt-encrypt_example =
    decrypt-encrypt cipher (codes "0123456789ab") 75 (codes "EY") refl refl refl

abbrev transfer_route : Route
transfer_route = record {
  is_public = false;
  permissions = codes "fund.transfer" ∷ [];
  step_up = true;
}

abbrev request : Request
request = record {
  authorization = some (codes "Bearer " ++ (2 ∷ []));
  x_stepup_token = some (2 ∷ []);
}

admits_2 : admit ext 10 transfer_route request ≡ ok (some (principal (claims 2)))
unfolding admit jwt_guard permissions_guard step_up_guard
admits_2 = refl

admitted_user_example :
    (t : Text) × (p : AccessTokenPayload) × (bearer request.authorization ≡ some t)
    × (opened access_secret t 10 ≡ some (access p))
    × (some (principal (claims 2)) ≡ some (principal p))
    × (every (λ q. any (text_eq q) p.perms) transfer_route.permissions ≡ true)
    × (true ≡ true
        → (u : Text) × (request.x_stepup_token ≡ some u)
          × (opened stepup_secret u 10 ≡ some (stepup p.sub)))
admitted_user_example =
    admitted_user ext 10 transfer_route request (some (principal (claims 2))) refl admits_2
