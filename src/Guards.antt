-- ===== src/Guards.antt =====
-- The guards of every request: backend/src/common/auth/jwt-auth.guard.ts, permissions.guard.ts and
-- step-up.guard.ts, in the order in which backend/src/app.module.ts registers them.
use arka_erp.Base.{
  ℕ, ◌≡◌, refl, ap, Bool, true, false, not, ◌&&◌, Option, none, some, List, [], ◌∷◌, arith, ◌==◌,
  if◌then◌else◌, any, every, filter, length, drop, ltb, inl, inr, Bool-cases,
}
use arka_erp.Base.Texts.{Text, codes, text_eq, is_truthy}
use arka_erp.Base.Effect.{Result, ok, err, result_cases, unauthorized, forbidden}
use arka_erp.Auth.{
  AccessTokenPayload, Payload, access, stepup, access_secret, stepup_secret, Externals,
}

-- What the decorators of a handler and its class say.
pub record Route : Type 0 where
  pub is_public : Bool
  pub permissions : List Text
  pub step_up : Bool

-- The headers that the guards read.
pub record Request : Type 0 where
  pub authorization : Option Text
  pub x_stepup_token : Option Text

pub record AuthUser : Type 0 where
  pub id : ℕ
  pub email : Text
  pub role : Text
  pub full_name : Text
  pub permissions : List Text
  pub mfa_enabled : Bool

abbrev pub starts_with : Text → Text → Bool
starts_with [] s = true
starts_with (c ∷ p) [] = false
starts_with (c ∷ p) (d ∷ s) = c == d && starts_with p s

abbrev pub bearer : Option Text → Option Text
bearer none = none
bearer (some h) = if starts_with (codes "Bearer ") h then some (drop 7 h) else none

abbrev pub principal : AccessTokenPayload → AuthUser
principal p = record {
  id = p.sub;
  email = p.email;
  role = p.role;
  full_name = p.name;
  permissions = p.perms;
  mfa_enabled = p.mfa;
}

-- The payload of an access token.
abbrev pub access_user : Option Payload → Result AuthUser
access_user none = err unauthorized
access_user (some (access p)) = ok (principal p)
access_user (some (stepup sub)) = err unauthorized

abbrev pub verify_bearer : Externals → ℕ → Option Text → Result AuthUser
verify_bearer ext now none = err unauthorized
verify_bearer ext now (some token) = access_user (ext.verify_jwt access_secret token now)

abbrev pub some_user : Result AuthUser → Result (Option AuthUser)
some_user (err x) = err x
some_user (ok u) = ok (some u)

-- `JwtAuthGuard.canActivate`, with the user that it attaches to the request.
unfoldable pub jwt_guard : Externals → ℕ → Route → Request → Result (Option AuthUser)
jwt_guard ext now route req =
    if route.is_public
    then ok none
    else some_user (verify_bearer ext now (bearer req.authorization))

abbrev pub missing_of : List Text → AuthUser → List Text
missing_of required user = filter (λ p. not (any (text_eq p) user.permissions)) required

abbrev pub check_permissions : List Text → Option AuthUser → Result (Unit {0})
check_permissions required none = err forbidden
check_permissions required (some user) =
    if ltb 0 (length (missing_of required user)) then err forbidden else ok tt

-- `PermissionsGuard.canActivate`
unfoldable pub permissions_guard : Route → Option AuthUser → Result (Unit {0})
permissions_guard route user =
    if length route.permissions == 0 then ok tt else check_permissions route.permissions user

abbrev pub step_up_of : ℕ → Option Payload → Result (Unit {0})
step_up_of id none = err forbidden
step_up_of id (some (access p)) = err forbidden
step_up_of id (some (stepup sub)) = if sub == id then ok tt else err forbidden

abbrev pub check_step_up : Externals → ℕ → Option AuthUser → Option Text → Result (Unit {0})
check_step_up ext now none token = err forbidden
check_step_up ext now (some user) none = err forbidden
check_step_up ext now (some user) (some token) =
    if is_truthy token
    then step_up_of user.id (ext.verify_jwt stepup_secret token now)
    else err forbidden

-- `StepUpGuard.canActivate`
unfoldable pub step_up_guard : Externals → ℕ → Route → Request → Option AuthUser → Result (Unit {0})
step_up_guard ext now route req user =
    if route.step_up then check_step_up ext now user req.x_stepup_token else ok tt

abbrev pub then_guard : Result (Unit {0}) → Result (Unit {0}) → Result (Unit {0})
then_guard (err x) next = err x
then_guard (ok _) next = next

abbrev pub passes_as : Option AuthUser → Result (Unit {0}) → Result (Option AuthUser)
passes_as user (err x) = err x
passes_as user (ok _) = ok user

abbrev pub admit_user :
    Externals → ℕ → Route → Request → Result (Option AuthUser) → Result (Option AuthUser)
admit_user ext now route req (err x) = err x
admit_user ext now route req (ok user) =
    passes_as user
      (then_guard (permissions_guard route user) (step_up_guard ext now route req user))

-- All three, in order.
unfoldable pub admit : Externals → ℕ → Route → Request → Result (Option AuthUser)
admit ext now route req = admit_user ext now route req (jwt_guard ext now route req)

-- Holding each of a route's permissions.
abbrev HasAll : List Text → AuthUser → Type 0
HasAll required user = every (λ p. any (text_eq p) user.permissions) required ≡ true

missing_of-every :
    (required : List Text) (user : AuthUser)
    → ltb 0 (length (missing_of required user)) ≡ false
    → every (λ p. any (text_eq p) user.permissions) required ≡ true
missing_of-every [] user h = refl
missing_of-every (p ∷ ps) user h = elim (Bool-cases (any (text_eq p) user.permissions)) [
  | inl held ↦ rw held (missing_of-every ps user (rw held at h))
  | inr lacking ↦ absurd (ground (arith, rw lacking at h))
]

-- The permissions guard passes a user exactly when it holds all that are required.
passes_permissions :
    (required : List Text) (user : AuthUser)
    → (if length required == 0 then ok tt else check_permissions required (some user)) ≡ ok tt
    → HasAll required user
passes_permissions [] user h = refl
passes_permissions (p ∷ ps) user h = elim (Bool-cases (ltb 0 (length (missing_of (p ∷ ps) user)))) [
  | inl lacking ↦ absurd (ground (arith, ap (λ b. if b then err forbidden else ok tt) lacking, h))
  | inr complete ↦ missing_of-every (p ∷ ps) user complete
]

permissions_guard-ok :
    (route : Route) (user : AuthUser)
    → permissions_guard route (some user) ≡ ok tt
    → HasAll route.permissions user
unfolding permissions_guard
permissions_guard-ok route user h = passes_permissions route.permissions user h

stepped_up : (id : ℕ) (o : Option Payload) → step_up_of id o ≡ ok tt → o ≡ some (stepup id)
stepped_up id none h = absurd (ground arith)
stepped_up id (some (access p)) h = absurd (ground arith)
stepped_up id (some (stepup sub)) h = elim (Bool-cases (sub == id)) [
  | inl hit ↦ let same : sub ≡ id = ground arith in rw same refl
  | inr miss ↦ absurd (ground (arith, rw miss at h))
]

step_up_guard-ok :
    (ext : Externals) (now : ℕ) (user : AuthUser) (token : Option Text)
    → check_step_up ext now (some user) token ≡ ok tt
    → (t : Text) × (token ≡ some t) × (ext.verify_jwt stepup_secret t now ≡ some (stepup user.id))
step_up_guard-ok ext now user none h = absurd (ground arith)
step_up_guard-ok ext now user (some []) h = absurd (ground arith)
step_up_guard-ok ext now user (some (c ∷ t)) h =
    (c ∷ t, refl, stepped_up user.id (ext.verify_jwt stepup_secret (c ∷ t) now) h)

access_user-ok :
    (o : Option Payload) (user : AuthUser)
    → access_user o ≡ ok user
    → (p : AccessTokenPayload) × (o ≡ some (access p)) × (user ≡ principal p)
access_user-ok none user h = absurd (ground arith)
access_user-ok (some (access p)) user h = (p, refl, ground arith)
access_user-ok (some (stepup sub)) user h = absurd (ground arith)

bearer_ok :
    (ext : Externals) (now : ℕ) (token : Option Text) (user : Option AuthUser)
    → some_user (verify_bearer ext now token) ≡ ok user
    → (t : Text) × (p : AccessTokenPayload) × (token ≡ some t)
      × (ext.verify_jwt access_secret t now ≡ some (access p))
      × (user ≡ some (principal p))
bearer_ok ext now none user h = absurd (ground arith)
bearer_ok ext now (some t) user h =
    elim (result_cases (access_user (ext.verify_jwt access_secret t now))) [
      | inl (u, done) ↦
          let (p, payload, same) = access_user-ok (ext.verify_jwt access_secret t now) u done in
          (t, p, refl, payload, ground (arith, rw done at h, same))
      | inr (x, failed) ↦ absurd (ground (arith, rw failed at h))
    ]

then_guard-ok : (a b : Result (Unit {0})) → then_guard a b ≡ ok tt → (a ≡ ok tt) × (b ≡ ok tt)
then_guard-ok (err x) b h = absurd (ground arith)
then_guard-ok (ok _) b h = (refl, h)

passes_as-ok :
    (u user : Option AuthUser) (r : Result (Unit {0}))
    → passes_as u r ≡ ok user
    → (r ≡ ok tt) × (u ≡ user)
passes_as-ok u user (err x) h = absurd (ground arith)
passes_as-ok u user (ok _) h = (refl, ground arith)

admit_user-ok :
    (ext : Externals) (now : ℕ) (route : Route) (req : Request) (r : Result (Option AuthUser))
    (user : Option AuthUser)
    → admit_user ext now route req r ≡ ok user
    → (r ≡ ok user)
      × (permissions_guard route user ≡ ok tt)
      × (step_up_guard ext now route req user ≡ ok tt)
admit_user-ok ext now route req (err x) user h = absurd (ground arith)
admit_user-ok ext now route req (ok u) user h =
    let (passed, same) = passes_as-ok u user _ h in
    let (allowed, stepped) =
      then_guard-ok (permissions_guard route u) (step_up_guard ext now route req u) passed in
    (rw same refl, rw same at allowed, rw same at stepped)

-- A request that passes the guards of a route that is not public has a bearer token that verifies,
-- as an access token, under the access secret; its payload, which names the user, has all the
-- permissions of the route; and where the route wants a step-up, the header has a token that
-- verifies under the step-up secret for the same user.
pub admitted_user :
    (ext : Externals) (now : ℕ) (route : Route) (req : Request) (user : Option AuthUser)
    → route.is_public ≡ false
    → admit ext now route req ≡ ok user
    → (token : Text) × (p : AccessTokenPayload) × (bearer req.authorization ≡ some token)
      × (ext.verify_jwt access_secret token now ≡ some (access p))
      × (user ≡ some (principal p))
      × HasAll route.permissions (principal p)
      × (route.step_up ≡ true
          → (t : Text) × (req.x_stepup_token ≡ some t)
            × (ext.verify_jwt stepup_secret t now ≡ some (stepup p.sub)))
unfolding admit jwt_guard step_up_guard
admitted_user ext now route req user closed h =
    let (signed, allowed, stepped) =
      admit_user-ok ext now route req (jwt_guard ext now route req) user h in
    let (token, p, given, payload, same) =
      bearer_ok ext now (bearer req.authorization) user (rw closed at signed) in
    (
      token,
      p,
      given,
      payload,
      same,
      permissions_guard-ok route (principal p) (rw same at allowed),
      λ marked.
          step_up_guard-ok ext now (principal p) req.x_stepup_token (rw (same, marked) at stepped),
    )
