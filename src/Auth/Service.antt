-- ===== src/Auth/Service.antt =====
-- The auth service: backend/src/auth/auth.service.ts.
use arka_erp.Base.{
  ℕ, ◌+◌, ◌*◌, Bool, false, not, ◌&&◌, Option, none, some, List, [], ◌∷◌, ltb, ◌==◌, if◌then◌else◌,
  is_some, or_else, any,
}
use arka_erp.Base.Texts.{Text, text_eq, is_truthy}
use arka_erp.Base.Tables.{update_by, count_by}
use arka_erp.Base.Effect.{
  unauthorized, forbidden, reuse_detected, unique_violation, Result, ok, err, Action, pure, throw,
  gets, or_throw, require, modify, ◌>>=◌, ◌>>◌,
}
use arka_erp.Envelope.{encrypt, decrypt}
use arka_erp.Auth.{
  User, Token, Store, Payload, access, stepup, access_secret, stepup_secret, Externals, Draw,
}
use arka_erp.Auth.Users.{
  find_by_email, find_by_id, effective_permissions, register_successful_login,
  register_failed_login, set_mfa_secret, enable_mfa, clear_mfa, set_password_hash, revoke_where,
}

-- Whether a lock is still on.
abbrev pub is_locked : ℕ → Option ℕ → Bool
is_locked now none = false
is_locked now (some until) = ltb now until

-- The checks of `validateUser` on a user that was found.
unfoldable pub check_password : Externals → Draw → User → Text → Action Store User
check_password ext d user password = do
  require user.is_active forbidden
  require (not (is_locked d.now user.locked_until)) forbidden
  if ext.verify user.password_hash password
      then (do register_successful_login d user.id; pure user)
      else (do register_failed_login d user.id; throw unauthorized)

-- `validateUser`. The hash that is verified for an unknown address only costs time.
unfoldable pub validate_user : Externals → Draw → Text → Text → Action Store User
validate_user ext d email password = do
  found ← find_by_email ext email
  user ← or_throw found unauthorized
  check_password ext d user password

pub record IssuedTokens : Type 0 where
  pub access_token : Text
  pub refresh_token : Text
  pub refresh_expires_at : ℕ

-- INSERT INTO arka.refresh_tokens: the id and the hash are unique.
unfoldable pub insert_token : Token → Action Store (Unit {0})
insert_token t = do
  s ← gets (λ s. s)
  require
      (count_by (λ r. r.id) t.id s.tokens == 0
        && not (any (λ r. text_eq r.token_hash t.token_hash) s.tokens))
      unique_violation
  modify (λ s. record s { tokens = t ∷ s.tokens })

abbrev pub expires : Externals → Draw → ℕ
expires ext d = d.now + ext.refresh_ttl_days * 86400000

abbrev pub new_token : Externals → Draw → User → Option Text → Option Text → Option ℕ → Token
new_token ext d user user_agent ip family_id = record {
  id = d.new_id;
  user_id = user.id;
  token_hash = ext.sha256 d.raw;
  family_id = or_else family_id d.new_family;
  user_agent = user_agent;
  client_ip = ip;
  expires_at = expires ext d;
  revoked_at = none;
  replaced_by = none;
}

abbrev pub payload_of : User → List Text → Payload
payload_of user perms = access (record {
  sub = user.id;
  email = user.email;
  role = user.role;
  name = user.full_name;
  perms = perms;
  mfa = user.mfa_enabled;
})

unfoldable pub issue_tokens :
    Externals → Draw → User → Option Text → Option Text → Option ℕ → Action Store IssuedTokens
issue_tokens ext d user user_agent ip family_id = do
  perms ← gets (effective_permissions user.id user.role)
  insert_token (new_token ext d user user_agent ip family_id)
  pure (record {
    access_token = ext.sign access_secret (payload_of user perms) d.now;
    refresh_token = d.raw;
    refresh_expires_at = expires ext d;
  })

abbrev pub find_hash : Text → List Token → Option Token
find_hash h [] = none
find_hash h (t ∷ ts) = let rest = find_hash h ts in if text_eq t.token_hash h then some t else rest

abbrev pub active_user : Option User → Option User
active_user none = none
active_user (some u) = if u.is_active then some u else none

abbrev pub id_of : Option Token → Option ℕ
id_of none = none
id_of (some t) = some t.id

abbrev pub replaced : ℕ → Option ℕ → Token → Token
replaced now by t = record t { revoked_at = some now; replaced_by = by }

-- The end of `rotateRefresh`: the old row is revoked and linked.
abbrev pub link_replaced : Externals → Draw → Token → IssuedTokens → Action Store IssuedTokens
link_replaced ext d rec issued = do
  modify (λ s. record s {
    tokens =
        update_by (λ t. t.id) rec.id
          (replaced d.now (id_of (find_hash (ext.sha256 issued.refresh_token) s.tokens))) s.tokens;
  })
  pure issued

-- What follows its checks, for the row of the token.
unfoldable pub rotate :
    Externals → Draw → Option Text → Option Text → Token → Action Store IssuedTokens
rotate ext d user_agent ip rec = do
  found ← find_by_id rec.user_id
  user ← or_throw (active_user found) unauthorized
  issue_tokens ext d user user_agent ip (some rec.family_id) >>= link_replaced ext d rec

unfoldable pub rotate_refresh :
    Externals → Draw → Text → Option Text → Option Text → Action Store IssuedTokens
rotate_refresh ext d raw_token user_agent ip = do
  s ← gets (λ s. s)
  rec ← or_throw (find_hash (ext.sha256 raw_token) s.tokens) unauthorized
  if is_some rec.revoked_at
      then (do revoke_where d (λ t. t.family_id == rec.family_id); throw reuse_detected)
      else if ltb rec.expires_at d.now
      then throw unauthorized
      else rotate ext d user_agent ip rec

unfoldable pub revoke_refresh : Externals → Draw → Text → Action Store (Unit {0})
revoke_refresh ext d raw_token = revoke_where d (λ t. text_eq t.token_hash (ext.sha256 raw_token))

unfoldable pub revoke_all_for_user : Draw → ℕ → Action Store (Unit {0})
revoke_all_for_user d user_id = revoke_where d (λ t. t.user_id == user_id)

-- `beginMfaEnrollment`; the URL and its picture are made from the secret.
unfoldable pub begin_mfa_enrollment : Externals → Draw → ℕ → Action Store Text
begin_mfa_enrollment ext d user_id = do
  set_mfa_secret user_id (encrypt ext.cipher d.iv (some d.otp_secret))
  pure d.otp_secret

-- The code against a stored secret; a broken envelope throws.
abbrev pub check_code : Externals → Draw → Text → Result (Option Text) → Result Bool
check_code ext d code (err x) = err x
check_code ext d code (ok none) = ok false
check_code ext d code (ok (some secret)) = ok (is_truthy secret && ext.totp code secret d.now)

abbrev pub code_matches : Externals → Draw → Option Text → Text → Action Store Bool
code_matches ext d enc code s = (check_code ext d code (decrypt ext.cipher enc), s)

abbrev pub secret_of : Option User → Option Text
secret_of none = none
secret_of (some u) = u.mfa_secret_enc

abbrev pub has_mfa : Option User → Bool
has_mfa none = false
has_mfa (some u) = u.mfa_enabled

unfoldable pub activate_mfa : Externals → Draw → ℕ → Text → Action Store (Unit {0})
activate_mfa ext d user_id code = do
  user ← find_by_id user_id
  require (is_some (secret_of user)) forbidden
  right ← code_matches ext d (secret_of user) code
  require right unauthorized
  enable_mfa user_id

unfoldable pub step_up : Externals → Draw → ℕ → Text → Action Store Text
step_up ext d user_id code = do
  user ← find_by_id user_id
  require (has_mfa user && is_some (secret_of user)) forbidden
  right ← code_matches ext d (secret_of user) code
  require right unauthorized
  pure (ext.sign stepup_secret (stepup user_id) d.now)

unfoldable pub verify_totp_for_user : Externals → Draw → User → Text → Action Store Bool
verify_totp_for_user ext d user code =
    if user.mfa_enabled && is_some user.mfa_secret_enc
    then code_matches ext d user.mfa_secret_enc code
    else pure false

unfoldable pub disable_mfa : Externals → Draw → ℕ → Text → Action Store (Unit {0})
disable_mfa ext d user_id code = do
  found ← find_by_id user_id
  require (has_mfa found) forbidden
  user ← or_throw found forbidden
  right ← verify_totp_for_user ext d user code
  require right unauthorized
  clear_mfa user_id

unfoldable pub change_own_password : Externals → Draw → ℕ → Text → Text → Action Store (Unit {0})
change_own_password ext d user_id current next = do
  found ← find_by_id user_id
  user ← or_throw found unauthorized
  require (ext.verify user.password_hash current) unauthorized
  set_password_hash d user_id (ext.hash d.salt next)
  revoke_all_for_user d user_id
