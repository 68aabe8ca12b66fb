-- ===== src/Auth/Factors.antt =====
-- The second factor: what a sign-in with it needs, and what the endpoints do to it.
use arka_erp.Base.{
  ℕ, ◌≤◌, ◌≡◌, refl, sym, ap, subst, ◌∙◌, true, false, Option, none, some, arith, if◌then◌else◌,
  is_some, inl, inr, Bool-cases, Option-cases,
}
use arka_erp.Base.Texts.{Text}
use arka_erp.Base.Tables.{update_by, count_by}
use arka_erp.Base.Effect.{ok, err, unauthorized, after, continue, continue-eq-ok, ◌>>◌}
use arka_erp.Envelope.{decrypt, encrypt}
use arka_erp.Auth.{User, Store, Externals, Draw}
use arka_erp.Auth.Users.{email_row, logged_in}
use arka_erp.Auth.Service.{
  is_locked, validate_user, IssuedTokens, verify_totp_for_user, check_code, begin_mfa_enrollment,
}
use arka_erp.Auth.Controller.{
  LoginDto, signed_in, second_factor, sign_in, challenge, finish_login, login,
}
use arka_erp.Auth.Lockout.{
  email_row-update, validate_user-found, validate_user-user, check_password-right,
}

-- The second step throws exactly when the code is wrong, and writes nothing.
second_factor-wrong :
    (ext : Externals) (d : Draw) (u : User) (code : Text) (s : Store)
    → u.mfa_enabled ≡ true
    → check_code ext d code (decrypt ext.cipher u.mfa_secret_enc) ≡ ok false
    → second_factor ext d u code s ≡ (err unauthorized, s)
unfolding verify_totp_for_user
second_factor-wrong ext d u code s on wrong = elim (Bool-cases (is_some u.mfa_secret_enc)) [
  | inl stored ↦ rw (on, stored, wrong) refl
  | inr missing ↦ rw (on, missing) refl
]

second_factor-right :
    (ext : Externals) (d : Draw) (u : User) (code : Text) (s : Store) {r : Unit {0}} {t : Store}
    → u.mfa_enabled ≡ true
    → second_factor ext d u code s ≡ (ok r, t)
    → check_code ext d code (decrypt ext.cipher u.mfa_secret_enc) ≡ ok true
unfolding verify_totp_for_user
second_factor-right ext d u code s on h = elim (Bool-cases (is_some u.mfa_secret_enc)) [
  | inl stored ↦ ground (arith, on, stored, h)
  | inr missing ↦ absurd (ground (arith, on, missing, h))
]

finish_login-on :
    (ext : Externals) (d : Draw) (dto : LoginDto) (ua ip : Option Text) (u : User) (s : Store)
    (totp : Option Text)
    → u.mfa_enabled ≡ true
    → dto.totp ≡ totp
    → finish_login ext d dto ua ip u s ≡ challenge ext d u totp ua ip s
finish_login-on ext d dto ua ip u s totp on given =
    ap (λ b. (if b then challenge ext d u dto.totp ua ip else sign_in ext d u ua ip) s) on
    ∙ ap (λ o. challenge ext d u o ua ip s) given

-- With the second factor on, a sign-in whose password is right and whose code is wrong throws, and
-- clears the failures on record: only the password counts for the lock.
pub wrong_code_is_not_counted :
    (ext : Externals) (d : Draw) (dto : LoginDto) (ua ip : Option Text) (u : User) (s : Store)
    (code : Text)
    → email_row ext dto.email s.users ≡ some u
    → u.is_active ≡ true
    → is_locked d.now u.locked_until ≡ false
    → ext.verify u.password_hash dto.password ≡ true
    → u.mfa_enabled ≡ true
    → dto.totp ≡ some code
    → check_code ext d code (decrypt ext.cipher u.mfa_secret_enc) ≡ ok false
    → login ext d dto ua ip s ≡ (
      err unauthorized,
      record s { users = update_by (λ x. x.id) u.id (logged_in d.now) s.users },
    )
unfolding login
wrong_code_is_not_counted ext d dto ua ip u s code found active unlocked right on given wrong =
    let entered : validate_user ext d dto.email dto.password s
        ≡ (ok u, record s { users = update_by (λ x. x.id) u.id (logged_in d.now) s.users }) =
      validate_user-found ext d dto.email dto.password u s found
      ∙ check_password-right ext d u dto.password s active unlocked right in
    let t : Store = record s { users = update_by (λ x. x.id) u.id (logged_in d.now) s.users } in
    let refused : (second_factor ext d u code >> sign_in ext d u ua ip) t ≡ (err unauthorized, t) =
      ap (λ r. continue r (λ _. sign_in ext d u ua ip))
        (second_factor-wrong ext d u code t on wrong) in
    rw entered (finish_login-on ext d dto ua ip u t (some code) on given ∙ refused)

-- With the second factor on, a sign-in that gives tokens had a code, and the code was right for the
-- stored secret.
pub sign_in_needs_code :
    (ext : Externals) (d : Draw) (dto : LoginDto) (ua ip : Option Text) (u : User) (s t : Store)
    (tokens : IssuedTokens)
    → email_row ext dto.email s.users ≡ some u
    → u.mfa_enabled ≡ true
    → login ext d dto ua ip s ≡ (ok (signed_in tokens), t)
    → (code : Text) × (dto.totp ≡ some code)
      × (check_code ext d code (decrypt ext.cipher u.mfa_secret_enc) ≡ ok true)
unfolding login
sign_in_needs_code ext d dto ua ip u s t tokens found on h =
    let (v, s1, entered, h1) =
      continue-eq-ok (validate_user ext d dto.email dto.password s) (finish_login ext d dto ua ip)
        h in
    let same : v ≡ u = validate_user-user ext d dto.email dto.password u v s s1 found entered in
    let h2 : finish_login ext d dto ua ip u s1 ≡ (ok (signed_in tokens), t) =
      subst (λ x. finish_login ext d dto ua ip x s1 ≡ (ok (signed_in tokens), t)) same h1 in
    elim (Option-cases dto.totp) [
      | inl missing ↦
          absurd (ground (arith, sym (finish_login-on ext d dto ua ip u s1 none on missing) ∙ h2))
      | inr (code, given) ↦
          let h3 : (second_factor ext d u code >> sign_in ext d u ua ip) s1
              ≡ (ok (signed_in tokens), t) =
            sym (finish_login-on ext d dto ua ip u s1 (some code) on given) ∙ h2 in
          let (_, s2, passed, _) =
            continue-eq-ok (second_factor ext d u code s1) (λ _. sign_in ext d u ua ip) h3 in
          (code, given, second_factor-right ext d u code s1 on passed)
    ]

-- `beginMfaEnrollment` asks for no code. For a user who has the second factor on, it turns it off:
-- afterwards the password alone signs the user in, where ids are distinct and no lock is on.
pub enrollment_turns_factor_off :
    (ext : Externals) (d later : Draw) (dto : LoginDto) (ua ip : Option Text) (u : User) (s : Store)
    → ((i : ℕ) → count_by (λ x. x.id) i s.users ≤ 1)
    → email_row ext dto.email s.users ≡ some u
    → u.is_active ≡ true
    → is_locked later.now u.locked_until ≡ false
    → ext.verify u.password_hash dto.password ≡ true
    → (x : User) × (t : Store) × (x.id ≡ u.id)
      × (x.mfa_enabled ≡ false)
      × (login ext later dto ua ip (after (begin_mfa_enrollment ext d u.id) s)
          ≡ sign_in ext later x ua ip t)
unfolding login begin_mfa_enrollment
enrollment_turns_factor_off ext d later dto ua ip u s distinct found active unlocked right =
    let enc = encrypt ext.cipher d.iv (some d.otp_secret) in
    let x : User = record u { mfa_secret_enc = enc; mfa_enabled = false } in
    let s1 : Store = after (begin_mfa_enrollment ext d u.id) s in
    let there : email_row ext dto.email s1.users ≡ some x =
      email_row-update ext dto.email (λ u. record u { mfa_secret_enc = enc; mfa_enabled = false })
        s.users u found (distinct u.id) refl refl in
    let t : Store = record s1 {
      users = update_by (λ x. x.id) u.id (logged_in later.now) s1.users;
    } in
    let entered : validate_user ext later dto.email dto.password s1 ≡ (ok x, t) =
      validate_user-found ext later dto.email dto.password x s1 there
      ∙ check_password-right ext later x dto.password s1 active unlocked right in
    (x, t, refl, refl, rw entered refl)
