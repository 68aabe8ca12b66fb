-- ===== src/Auth/Chains.antt =====
-- Every request keeps each family of refresh tokens a chain with at most one live token.
use arka_erp.Base.{
  ℕ, ◌≡◌, refl, sym, ap, subst, ◌∙◌, Bool, true, false, not, Option, none, some, List, [], ◌∷◌, map,
  arith, ltb, ◌==◌, if◌then◌else◌, is_some, filter, inl, inr, Option-cases,
}
use arka_erp.Base.Texts.{Text}
use arka_erp.Base.Tables.{find_by}
use arka_erp.Base.Effect.{
  Failure, Result, ok, err, Action, ◌>>◌, pure, throw, continue-eq-err, outcome, require, or_throw,
  after, settle, Keeps, or_throw-Keeps, if-Keeps, >>=-Keeps, >>=_keeps, reuse_detected,
  unauthorized, forbidden,
}
use arka_erp.Auth.{User, Token, Store, Externals, Draw}
use arka_erp.Auth.Users
use arka_erp.Auth.Users.{
  CreateUserDto, register_successful_login, register_failed_login, email_row, revoke, revoke_where,
  find_by_id, kept_user, insert_grant, insert_grants, insert_user, set_user_permissions,
  admin_reset_password, soft_delete, update_user, update_profile, set_password_hash,
}
use arka_erp.Auth.Service.{
  is_locked, IssuedTokens, find_hash, issue_tokens, rotate, rotate_refresh, active_user,
  link_replaced, validate_user, check_password, activate_mfa, verify_totp_for_user, disable_mfa,
}
use arka_erp.Auth.Controller.{
  LoginDto, finish_login, challenge, signed_in, login, second_factor, sign_in,
}
use arka_erp.Auth.Rotation.{
  live_in, IsChained, StoreChained, revoke-IsChained, rotate-IsChained, issue_tokens-first,
  issue_tokens_err, rotate_ok,
}

-- A rotation that throws inserts nothing.
rotate_err :
    (ext : Externals) (d : Draw) (ua ip : Option Text) (rec : Token) (s : Store) {x : Failure}
    {u : Store}
    → rotate ext d ua ip rec s ≡ (err x, u)
    → u ≡ s
unfolding rotate
rotate_err ext d ua ip rec s {x = x} {u = u} h =
    elim (Option-cases (active_user (kept_user (find_by (λ u. u.id) rec.user_id s.users)))) [
      | inl missing ↦ ground arith
      | inr (user, found) ↦
          elim (continue-eq-err (issue_tokens ext d user ua ip (some rec.family_id) s)
            (link_replaced ext d rec) {t = u} (rw found at h)) [
              | inl failed ↦ issue_tokens_err ext d user ua ip (some rec.family_id) s failed
              | inr (i, v, issued, linked) ↦ absurd (ground (arith, linked))
            ]
    ]

rotate-chained :
    (ext : Externals) (d : Draw) (ua ip : Option Text) (h : Text) (rec : Token) (s : Store)
    → find_hash h s.tokens ≡ some rec
    → rec.revoked_at ≡ none
    → StoreChained s
    → StoreChained (after (rotate ext d ua ip rec) s)
rotate-chained ext d ua ip h rec s found live chained = elim (outcome (rotate ext d ua ip rec s)) [
  | inl (r, u, done) ↦
      let o = rotate_ok ext d ua ip rec s done in
      subst (λ p. StoreChained p.1) (sym done)
        (subst StoreChained (sym o.result) (
          rotate-IsChained h d.now (some o.token.id) o.token rec s.tokens found live o.same_family
            o.is_new chained))
  | inr (x, u, failed) ↦
      subst (λ p. StoreChained p.1) (sym failed)
        (subst StoreChained (sym (rotate_err ext d ua ip rec s failed)) chained)
]

-- A token that is known is refused as reused, refused as expired, or rotated.
pub rotate_refresh_found :
    (ext : Externals) (d : Draw) (raw : Text) (ua ip : Option Text) (rec : Token) (s : Store)
    → find_hash (ext.sha256 raw) s.tokens ≡ some rec
    → rotate_refresh ext d raw ua ip s ≡ (
        if is_some rec.revoked_at
        then (
          err reuse_detected,
          record s { tokens = map (revoke d.now (λ t. t.family_id == rec.family_id)) s.tokens },
        )
        else if ltb rec.expires_at d.now
        then (err unauthorized, s)
        else rotate ext d ua ip rec s)
unfolding rotate_refresh
rotate_refresh_found ext d raw ua ip rec s found = ground (arith, found)

pub rotate_refresh_unknown :
    (ext : Externals) (d : Draw) (raw : Text) (ua ip : Option Text) (s : Store)
    → find_hash (ext.sha256 raw) s.tokens ≡ none
    → rotate_refresh ext d raw ua ip s ≡ (err unauthorized, s)
unfolding rotate_refresh
rotate_refresh_unknown ext d raw ua ip s missing = ground (arith, missing)

if-state :
    (b : Bool) (p q : Result IssuedTokens × Store)
    → StoreChained p.1
    → (b ≡ false → StoreChained q.1)
    → StoreChained (if b then p else q).1
if-state true p q h k = h
if-state false p q h k = k refl

is_some-false : (o : Option ℕ) → is_some o ≡ false → o ≡ none
is_some-false none h = refl
is_some-false (some n) h = cc

pub rotate_refresh-Keeps :
    (ext : Externals) (d : Draw) (raw : Text) (ua ip : Option Text)
    → Keeps StoreChained (rotate_refresh ext d raw ua ip)
rotate_refresh-Keeps ext d raw ua ip s chained =
    elim (Option-cases (find_hash (ext.sha256 raw) s.tokens)) [
      | inl missing ↦
          subst (λ p. StoreChained p.1) (sym (rotate_refresh_unknown ext d raw ua ip s missing))
            chained
      | inr (rec, found) ↦
          subst (λ p. StoreChained p.1) (sym (rotate_refresh_found ext d raw ua ip rec s found))
            (if-state (is_some rec.revoked_at) _ _
              (revoke-IsChained d.now (λ t. t.family_id == rec.family_id) s.tokens chained)
              (λ live. if-state (ltb rec.expires_at d.now) _ _ chained (λ _.
                rotate-chained ext d ua ip (ext.sha256 raw) rec s found
                  (is_some-false rec.revoked_at live) chained)))
    ]

-- The calls that write users and grants alone.
insert_grant-tokens :
    (id : ℕ) (p : Text) (s : Store) → (after (insert_grant id p) s).tokens ≡ s.tokens
unfolding insert_grant
insert_grant-tokens id p s = ground arith

insert_grants-tokens :
    (id : ℕ) (ps : List Text) (s : Store) → (after (insert_grants id ps) s).tokens ≡ s.tokens
unfolding insert_grants
insert_grants-tokens id [] s = refl
insert_grants-tokens id (p ∷ ps) s =
    >>=_keeps (λ u. u.tokens ≡ s.tokens) (insert_grant id p) (λ _. insert_grants id ps) s
      (insert_grant-tokens id p s) (λ _ t _ same. insert_grants-tokens id ps t ∙ same)

settle-tokens :
    {A : Type 0} (s : Store) (r : Result A × Store)
    → r.1.tokens ≡ s.tokens
    → (settle s r).1.tokens ≡ s.tokens
settle-tokens s (ok a, t) h = h
settle-tokens s (err x, t) h = refl

if-after :
    {A : Type 0} (b : Bool) (m k : Action Store A) (s : Store)
    → StoreChained (after m s)
    → StoreChained (after k s)
    → StoreChained (after (if b then m else k) s)
if-after true m k s p q = p
if-after false m k s p q = q

module _ (ext : Externals) (d : Draw) where
  validate_user-tokens :
      (email password : Text) (s : Store)
      → (after (validate_user ext d email password) s).tokens ≡ s.tokens
  unfolding validate_user check_password
  validate_user-tokens email password s =
      >>=-Keeps (λ u. u.tokens ≡ s.tokens) (or_throw (email_row ext email s.users) unauthorized) _
        (or_throw-Keeps (λ u. u.tokens ≡ s.tokens) (email_row ext email s.users) unauthorized)
        (λ user t same. checked user t same) s refl
    where
      checked :
          (user : User) (t : Store)
          → t.tokens ≡ s.tokens
          → (after (check_password ext d user password) t).tokens ≡ s.tokens
      checked user =
          >>=-Keeps (λ u. u.tokens ≡ s.tokens) (require user.is_active forbidden) _ (λ _ q. q)
            (λ _.
              >>=-Keeps (λ u. u.tokens ≡ s.tokens)
                (require (not (is_locked d.now user.locked_until)) forbidden) _ (λ _ q. q)
                (λ _.
                  if-Keeps (λ u. u.tokens ≡ s.tokens) (ext.verify user.password_hash password)
                    (register_successful_login d user.id >> pure user)
                    (register_failed_login d user.id >> throw unauthorized) (λ _ q. q) (λ _ q. q)))

  pub create-tokens :
      (dto : CreateUserDto) (s : Store) → (after (Users.create ext d dto) s).tokens ≡ s.tokens
  unfolding Users.create insert_user
  create-tokens dto s = ground (
    arith,
    insert_grants-tokens d.new_id dto.permissions
        (record s { users = Users.new_user ext d dto ∷ s.users }),
  )

  pub update_user-tokens :
      (id : ℕ) (name role : Option Text) (active : Option Bool) (s : Store)
      → (after (update_user id name role active) s).tokens ≡ s.tokens
  unfolding update_user
  update_user-tokens id name role active s = ground arith

  pub update_profile-tokens :
      (id : ℕ) (name email : Option Text) (s : Store)
      → (after (update_profile ext id name email) s).tokens ≡ s.tokens
  unfolding update_profile
  update_profile-tokens id name email s = ground arith

  pub set_user_permissions-tokens :
      (id : ℕ) (ps : List Text) (s : Store)
      → (after (set_user_permissions id ps) s).tokens ≡ s.tokens
  unfolding set_user_permissions
  set_user_permissions-tokens id ps s = ground (
    arith,
    insert_grants-tokens id ps
        (record s { user_grants = filter (λ g. not (g.user_id == id)) s.user_grants }),
  )

  pub activate_mfa-tokens :
      (id : ℕ) (code : Text) (s : Store) → (after (activate_mfa ext d id code) s).tokens ≡ s.tokens
  unfolding activate_mfa
  activate_mfa-tokens id code s = ground arith

  pub disable_mfa-tokens :
      (id : ℕ) (code : Text) (s : Store) → (after (disable_mfa ext d id code) s).tokens ≡ s.tokens
  unfolding disable_mfa verify_totp_for_user
  disable_mfa-tokens id code s = ground arith

  -- A family that is new before a sign-in is new when its token is inserted.
  sign_in-chained :
      (user : User) (ua ip : Option Text) (s : Store)
      → live_in d.new_family s.tokens ≡ 0
      → StoreChained s
      → StoreChained (after (sign_in ext d user ua ip) s)
  sign_in-chained user ua ip s fresh h =
      >>=_keeps StoreChained (issue_tokens ext d user ua ip none)
        (λ tokens. pure (signed_in tokens)) s (issue_tokens-first ext d user ua ip s fresh h)
        (λ _ _ _ q. q)

  second_factor-tokens :
      (user : User) (code : Text) (s : Store)
      → (after (second_factor ext d user code) s).tokens ≡ s.tokens
  unfolding verify_totp_for_user
  second_factor-tokens user code s = ground arith

  login_rest-chained :
      (dto : LoginDto) (ua ip : Option Text) (user : User) (s : Store)
      → live_in d.new_family s.tokens ≡ 0
      → StoreChained s
      → StoreChained (after (finish_login ext d dto ua ip user) s)
  login_rest-chained dto ua ip user s fresh h =
      if-after user.mfa_enabled (challenge ext d user dto.totp ua ip) (sign_in ext d user ua ip) s
        (challenged dto.totp) (sign_in-chained user ua ip s fresh h)
    where
      challenged : (totp : Option Text) → StoreChained (after (challenge ext d user totp ua ip) s)
      challenged none = h
      challenged (some code) =
          let same = second_factor-tokens user code s in
          >>=_keeps StoreChained (second_factor ext d user code) (λ _. sign_in ext d user ua ip) s
            (subst IsChained (sym same) h)
            (λ _ t done q.
              let at : t.tokens ≡ s.tokens = sym (ap (λ p. p.1.tokens) done) ∙ same in
              sign_in-chained user ua ip t (rw at fresh) q)

  pub login-chained :
      (dto : LoginDto) (ua ip : Option Text) (s : Store)
      → live_in d.new_family s.tokens ≡ 0
      → StoreChained s
      → StoreChained (after (login ext d dto ua ip) s)
  unfolding login
  login-chained dto ua ip s fresh h =
      let same = validate_user-tokens dto.email dto.password s in
      >>=_keeps StoreChained (validate_user ext d dto.email dto.password)
        (finish_login ext d dto ua ip) s (subst IsChained (sym same) h)
        (λ user t done q.
          let at : t.tokens ≡ s.tokens = sym (ap (λ p. p.1.tokens) done) ∙ same in
          login_rest-chained dto ua ip user t (rw at fresh) q)
