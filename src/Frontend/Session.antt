-- ===== src/Frontend/Session.antt =====
-- The session of the frontend: frontend/src/stores/auth.ts, with the two tokens that
-- frontend/src/api/client.ts holds for it. Each action gets what the API answers; a request that
-- fails is `none`. That the client renews the token in between is modelled in Client.
use arka_erp.Base.{
  All, ℕ, Bool, true, false, ◌≡◌, refl, Option, none, some, List, [], ◌∷◌, any, is_some, arith,
}
use arka_erp.Base.Texts.{Text, text_eq}

pub record SessionUser : Type 0 where
  pub id : ℕ
  pub email : Text
  pub full_name : Text
  pub role : Text
  pub permissions : List Text
  pub mfa_enabled : Bool

pub record Session : Type 0 where
  pub user : Option SessionUser
  pub booted : Bool
  pub loading : Bool
  pub access_token : Option Text
  pub step_up_token : Option Text

abbrev pub is_authed : Session → Bool
is_authed s = is_some s.user

-- `can`
abbrev pub can_user : Option SessionUser → Text → Bool
can_user none perm = false
can_user (some u) perm = any (text_eq perm) u.permissions

-- What POST /auth/login answers.
pub data LoginAnswer : Type 0 where
  mfa_required : LoginAnswer
  tokens : Text → LoginAnswer
  refused : LoginAnswer

-- What a call of an action returns, or that it throws.
pub data Outcome : Type 0 where
  needs_code done failed : Outcome

-- The session after GET /auth/me, or after its failure.
unfoldable pub fetch_me : Option SessionUser → Session → Outcome × Session
fetch_me none s = (failed, s)
fetch_me (some u) s = (done, record s { user = some u })

abbrev pub stop_loading : Outcome × Session → Outcome × Session
stop_loading (o, s) = (o, record s { loading = false })

-- GET /auth/me at one moment, by the token that the request carries.
abbrev pub Me : Type 0
Me = Option Text → Option SessionUser

unfoldable pub login : Me → LoginAnswer → Session → Outcome × Session
login me mfa_required s = stop_loading (needs_code, record s { loading = true })
login me (tokens t) s =
    stop_loading (fetch_me (me (some t)) (record s { loading = true; access_token = some t }))
login me refused s = stop_loading (failed, record s { loading = true })

abbrev pub after_restore : Outcome × Session → Session
after_restore (failed, s) = record s { user = none; booted = true }
after_restore (_, s) = record s { booted = true }

-- `catch` covers the renewal of the token and the request of the user.
unfoldable pub restore : Me → Option Text → Session → Session
restore me none s = after_restore (failed, s)
restore me (some t) s = after_restore (fetch_me (me (some t)) (record s { access_token = some t }))

-- Whatever POST /auth/logout answers.
unfoldable pub logout : Session → Session
logout s = record s { access_token = none; step_up_token = none; user = none }

unfoldable pub step_up : Option Text → Session → Outcome × Session
step_up none s = (failed, s)
step_up (some t) s = (done, record s { step_up_token = some t })

-- `updateProfile` and `disableMfa`: a request that succeeds or fails, and the user again.
unfoldable pub change_and_fetch : Me → Bool → Session → Outcome × Session
change_and_fetch me false s = (failed, s)
change_and_fetch me true s = fetch_me (me s.access_token) s

-- A call of the store.
pub data Call : Type 0 where
  logs_in : LoginAnswer → Call
  restores : Option Text → Call
  logs_out : Call
  steps_up : Option Text → Call
  changes : Bool → Call

unfoldable pub handle : Me → Call → Session → Session
handle me (logs_in a) s = (login me a s).1
handle me (restores t) s = restore me t s
handle me logs_out s = logout s
handle me (steps_up t) s = (step_up t s).1
handle me (changes ok) s = (change_and_fetch me ok s).1

-- Each call meets the API as it answers then.
unfoldable pub run : List (Me × Call) → Session → Session
run [] s = s
run ((me, c) ∷ cs) s = run cs (handle me c s)

-- A session with a user has a token.
abbrev pub HasToken : Session → Type 0
HasToken s = is_authed s ≡ true → is_some s.access_token ≡ true

fetch_me-HasToken :
    (o : Option SessionUser) (s : Session)
    → (is_some o ≡ true → is_some s.access_token ≡ true)
    → HasToken s
    → HasToken (fetch_me o s).1
unfolding fetch_me
fetch_me-HasToken none s got h = h
fetch_me-HasToken (some u) s got h = λ _. got refl

after_restore-HasToken : (r : Outcome × Session) → HasToken r.1 → HasToken (after_restore r)
after_restore-HasToken (needs_code, s) h = h
after_restore-HasToken (done, s) h = h
after_restore-HasToken (failed, s) h = λ e. absurd (ground arith)

pub handle-HasToken :
    (me : Me) (c : Call) (s : Session) → me none ≡ none → HasToken s → HasToken (handle me c s)
unfolding handle login restore logout step_up change_and_fetch
handle-HasToken me (logs_in mfa_required) s guarded h = h
handle-HasToken me (logs_in (tokens t)) s guarded h =
    fetch_me-HasToken (me (some t)) (record s { loading = true; access_token = some t }) (λ _. refl)
      (λ _. refl)
handle-HasToken me (logs_in refused) s guarded h = h
handle-HasToken me (restores none) s guarded h = λ e. absurd (ground arith)
handle-HasToken me (restores (some t)) s guarded h =
    after_restore-HasToken (fetch_me (me (some t)) (record s { access_token = some t }))
      (fetch_me-HasToken (me (some t)) (record s { access_token = some t }) (λ _. refl) (λ _. refl))
handle-HasToken me logs_out s guarded h = λ e. absurd (ground arith)
handle-HasToken me (steps_up none) s guarded h = h
handle-HasToken me (steps_up (some t)) s guarded h = h
handle-HasToken me (changes false) s guarded h = h
handle-HasToken me (changes true) s guarded h =
    fetch_me-HasToken (me s.access_token) s (needs s.access_token) h
  where
    needs : (o : Option Text) → is_some (me o) ≡ true → is_some o ≡ true
    needs none e = absurd (ground (arith, guarded, e))
    needs (some t) e = refl

-- Where the API, whatever else it answers at each call, names no user without a token, a session that
-- has a user has an access token, if this is so before, after any sequence of calls of the store.
pub run-HasToken :
    (cs : List (Me × Call)) (s : Session)
    → All (λ c. c.0 none ≡ none) cs
    → HasToken s
    → HasToken (run cs s)
unfolding run
run-HasToken [] s guarded h = h
run-HasToken ((me, c) ∷ cs) s guarded h =
    run-HasToken cs (handle me c s) guarded.1 (handle-HasToken me c s guarded.0 h)
