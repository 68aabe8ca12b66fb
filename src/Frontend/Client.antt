-- ===== src/Frontend/Client.antt =====
-- The client of the API: the two interceptors of frontend/src/api/client.ts. The API is a parameter: it
-- answers a request with a status, and a renewal with a new token or none.
use arka_erp.Base.{
  ◌∙◌, ℕ, zero, suc, ◌+◌, ◌≤◌, ◌≡◌, refl, Bool, true, false, not, ◌&&◌, ◌||◌, Option, none, some,
  List, [], ◌∷◌, ◌++◌, ◌==◌, if◌then◌else◌, length, arith, length-append, inl, inr, Bool-cases,
}
use arka_erp.Base.Texts.{Text, codes}

pub record Request : Type 0 where
  pub url : Text

abbrev pub starts_with : Text → Text → Bool
starts_with [] t = true
starts_with (c ∷ s) [] = false
starts_with (c ∷ s) (d ∷ t) = c == d && starts_with s t

-- `t.includes(s)`
abbrev pub includes : Text → Text → Bool
includes s [] = starts_with s []
includes s (d ∷ t) = starts_with s (d ∷ t) || includes s t

abbrev pub is_login : Request → Bool
is_login r = includes (codes "/auth/login") r.url

abbrev pub is_refresh : Request → Bool
is_refresh r = includes (codes "/auth/refresh") r.url

-- A request with the headers that it was sent with, or a renewal.
pub data Sent : Type 0 where
  call : Request → Option Text → Option Text → Sent
  renewal : Sent

-- The API, with a state of its own.
pub record Api (S : Type 0) : Type 0 where
  pub answer : Sent → S → ℕ × S
  pub renew : S → Option Text × S

-- The module's variables, what was sent so far, and how often `onUnauthorized` was called.
pub record Client (S : Type 0) : Type 0 where
  pub access_token : Option Text
  pub step_up_token : Option Text
  pub unauthorized : ℕ
  pub sent : List Sent
  pub server : S

module _ {S : Type 0} (api : Api S) where
  -- The interceptor of requests sets both headers from the tokens at hand.
  unfoldable pub transmit : Request → Client S → ℕ × Client S
  transmit r c =
      let message = call r c.access_token c.step_up_token in
      let (status, server) = api.answer message c.server in
      (status, record c { sent = c.sent ++ message ∷ []; server = server })

  abbrev renewed : Option Text → Option Text → Option Text
  renewed none old = old
  renewed (some t) old = some t

  unfoldable pub refresh_access : Client S → Option Text × Client S
  refresh_access c =
      let (token, server) = api.renew c.server in
      (
        token,
        record c {
          access_token = renewed token c.access_token;
          sent = c.sent ++ renewal ∷ [];
          server = server;
        },
      )

  abbrev pub is_retried : Bool → Request → ℕ → Bool
  is_retried retry r status = status == 401 && not retry && not (is_login r) && not (is_refresh r)

  abbrev pub retry_with :
      (Client S → Option (ℕ × Client S)) → ℕ → Option Text × Client S → Option (ℕ × Client S)
  retry_with again status (none, c) = some (status, record c { unauthorized = suc c.unauthorized })
  retry_with again status (some t, c) = again c

  -- A request, whose config has `_retry` set or not. The interceptor sends a request through `http`
  -- again, so nothing in its shape ends it: the fuel counts the calls of `http`.
  unfoldable pub http : ℕ → Bool → Request → Client S → Option (ℕ × Client S)
  http zero retry r c = none
  http (suc fuel) retry r c =
      let (status, d) = transmit r c in
      if is_retried retry r status
      then retry_with (http fuel true r) status (refresh_access d)
      else some (status, d)

  -- The first message of a request, and the client after its answer.
  abbrev pub message : Request → Client S → Sent
  message r c = call r c.access_token c.step_up_token

  -- The second time no answer is retried.
  retried_once :
      (fuel : ℕ) (r : Request) (c : Client S) → http (suc fuel) true r c ≡ some (transmit r c)
  unfolding http
  retried_once fuel r c =
      let last : is_retried true r (transmit r c).0 ≡ false = ground arith in rw last refl

  transmit-counts :
      (r : Request) (c : Client S)
      → (length (transmit r c).1.sent ≡ length c.sent + 1)
        × ((transmit r c).1.unauthorized ≡ c.unauthorized)
  unfolding transmit
  transmit-counts r c = (length-append c.sent (message r c ∷ []), refl)

  refresh-counts :
      (c : Client S)
      → (length (refresh_access c).1.sent ≡ length c.sent + 1)
        × ((refresh_access c).1.unauthorized ≡ c.unauthorized)
  unfolding refresh_access
  refresh-counts c = (length-append c.sent (renewal ∷ []), refl)

  abbrev pub most_messages : Request → ℕ
  most_messages r = if is_login r || is_refresh r then 1 else 3

  -- A request always ends, with two calls of `http` at most, whatever the API answers and however
  -- often it answers 401: it has sent one message if it goes to the sign-in or the renewal, and three
  -- at most otherwise, and the handler of lost sessions was called once at most.
  pub http_ends :
      (fuel : ℕ) (r : Request) (c : Client S)
      → (status : ℕ) × (d : Client S) × (http (suc (suc fuel)) false r c ≡ some (status, d))
        × (length d.sent ≤ length c.sent + most_messages r)
        × (d.unauthorized ≤ suc c.unauthorized)
  unfolding http
  http_ends fuel r c = elim (Bool-cases (is_retried false r (transmit r c).0)) [
    | inl again ↦
        let three : most_messages r ≡ 3 = ground (arith, again) in
        rw (again, three) (renewed_then (refresh_access (transmit r c).1) refl)
    | inr once ↦
        let some_messages : 1 ≤ most_messages r = ground arith in
        rw once (
          (transmit r c).0,
          (transmit r c).1,
          refl,
          omega (arith, some_messages, first.0),
          omega (arith, first.1),
        )
  ]
    where
      first :
          (length (transmit r c).1.sent ≡ length c.sent + 1)
          × ((transmit r c).1.unauthorized ≡ c.unauthorized)
      first = transmit-counts r c

      once_renewed :
          (x : Option Text × Client S)
          → x ≡ refresh_access (transmit r c).1
          → (length x.1.sent ≡ length c.sent + 2) × (x.1.unauthorized ≡ c.unauthorized)
      once_renewed x e =
          let (sent, lost) = refresh-counts (transmit r c).1 in
          rw e (omega (arith, sent, first.0), lost ∙ first.1)

      renewed_then :
          (x : Option Text × Client S)
          → x ≡ refresh_access (transmit r c).1
          → (status : ℕ) × (d : Client S) × (retry_with (http (suc fuel) true r) (transmit r c).0 x
              ≡ some (status, d))
            × (length d.sent ≤ length c.sent + 3)
            × (d.unauthorized ≤ suc c.unauthorized)
      renewed_then (none, d) e =
          let (sent, lost) = once_renewed (none, d) e in
          (
            (transmit r c).0,
            record d { unauthorized = suc d.unauthorized },
            refl,
            omega (arith, sent),
            omega (arith, lost),
          )
      renewed_then (some t, d) e =
          let (sent, lost) = once_renewed (some t, d) e in
          let (more, same) = transmit-counts r d in
          (
            (transmit r d).0,
            (transmit r d).1,
            retried_once fuel r d,
            omega (arith, sent, more),
            omega (arith, lost, same),
          )
