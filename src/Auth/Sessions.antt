-- ===== src/Auth/Sessions.antt =====
-- What ends a session: the reuse of a refresh token that was rotated, and a change of the password.
use arka_erp.Base.{
  ℕ, ◌≤◌, ◌≡◌, refl, sym, ap, subst, ◌∙◌, Bool, true, false, not, ◌&&◌, Option, none, some, List,
  [], ◌∷◌, map, arith, ltb, ◌==◌, is_some, any, every, inl, inr, Bool-cases, Option-cases,
}
use arka_erp.Base.Texts.{Text, text_eq, text_eq_refl, text_eq-true}
use arka_erp.Base.Tables.{find_by, find_by-key, update_by, count_by}
use arka_erp.Base.Effect.{ok, err, reuse_detected, after}
use arka_erp.Auth.{User, Token, Store, Externals, Draw}
use arka_erp.Auth.Users.{revoke, kept_user}
use arka_erp.Auth.Service.{
  IssuedTokens, active_user, find_hash, rotate, rotate_refresh, replaced, change_own_password,
  revoke_all_for_user,
}
use arka_erp.Auth.Rotation.{live_in, IsChained, Rotates, rotate_ok, find_hash-count}
use arka_erp.Auth.Chains.{rotate_refresh_found, rotate_refresh_unknown}

live_in-revoke_family :
    (family now : ℕ) (ts : List Token)
    → live_in family (map (revoke now (λ t. t.family_id == family)) ts) ≡ 0
live_in-revoke_family family now [] = refl
live_in-revoke_family family now (t ∷ ts) = ground (arith, live_in-revoke_family family now ts)

-- A refresh token that was revoked before, by a rotation, a sign-out or a change of the password,
-- is refused as reused, and afterwards no token of its family is live.
pub reuse_ends_family :
    (ext : Externals) (d : Draw) (raw : Text) (ua ip : Option Text) (rec : Token) (at : ℕ)
    (s : Store)
    → find_hash (ext.sha256 raw) s.tokens ≡ some rec
    → rec.revoked_at ≡ some at
    → ((rotate_refresh ext d raw ua ip s).0 ≡ err reuse_detected)
      × (live_in rec.family_id (after (rotate_refresh ext d raw ua ip) s).tokens ≡ 0)
reuse_ends_family ext d raw ua ip rec at s found was =
    let result : rotate_refresh ext d raw ua ip s ≡ (
      err reuse_detected,
      record s { tokens = map (revoke d.now (λ t. t.family_id == rec.family_id)) s.tokens },
    ) =
      rotate_refresh_found ext d raw ua ip rec s found ∙ rw was refl in
    (
      ap (λ p. p.0) result,
      ap (λ p. live_in rec.family_id p.1.tokens) result
          ∙ live_in-revoke_family rec.family_id d.now s.tokens,
    )

-- The row of a hash after an update of that row which keeps the hash.
find_hash-update :
    (h : Text) (f : Token → Token) (ts : List Token) (t : Token)
    → find_hash h ts ≡ some t
    → count_by (λ t. t.id) t.id ts ≤ 1
    → (f t).token_hash ≡ t.token_hash
    → find_hash h (update_by (λ t. t.id) t.id f ts) ≡ some (f t)
find_hash-update h f [] t e once same = cc
find_hash-update h f (x ∷ ts) t e once same = elim (Bool-cases (x.id == t.id)) [
  | inl hit ↦ elim (Bool-cases (text_eq x.token_hash h)) [
    | inl here ↦
        let is : x ≡ t = ground (arith, here, e) in
        let hashed : text_eq t.token_hash h ≡ true = rw (← is) here in
        rw (hit, is) (rw (same, hashed) refl)
    | inr elsewhere ↦
        let later : find_hash h ts ≡ some t = rw elsewhere at e in
        absurd (omega (arith, find_hash-count h ts t later, rw hit at once))
  ]
  | inr miss ↦ rw miss (elim (Bool-cases (text_eq x.token_hash h)) [
    | inl here ↦ let is : x ≡ t = ground (arith, here, e) in absurd (ground (arith, miss, is))
    | inr elsewhere ↦
        rw elsewhere
          (find_hash-update h f ts t (rw elsewhere at e) (omega (arith, rw miss at once)) same)
  ])
]

-- A hash that is known is not that of a new row.
find_hash-any :
    (h : Text) (ts : List Token) (t : Token)
    → find_hash h ts ≡ some t
    → any (λ r. text_eq r.token_hash h) ts ≡ true
find_hash-any h [] t found = cc
find_hash-any h (x ∷ ts) t found = ground (arith, find_hash-any h ts t)

known_hash :
    (h k : Text) (ts : List Token) (t : Token)
    → find_hash h ts ≡ some t
    → any (λ r. text_eq r.token_hash k) ts ≡ false
    → text_eq k h ≡ false
known_hash h k ts t found unknown = elim (Bool-cases (text_eq k h)) [
  | inl hit ↦
      let same : k ≡ h = text_eq-true k h hit in
      absurd (ground (arith, find_hash-any h ts t found, rw same at unknown))
  | inr miss ↦ miss
]

-- A rotation that returned began from a live token.
rotate_refresh_ok :
    (ext : Externals) (d : Draw) (raw : Text) (ua ip : Option Text) (s t : Store) (r : IssuedTokens)
    → rotate_refresh ext d raw ua ip s ≡ (ok r, t)
    → (rec : Token) × (find_hash (ext.sha256 raw) s.tokens ≡ some rec)
      × (rec.revoked_at ≡ none)
      × (ltb rec.expires_at d.now ≡ false)
      × Rotates ext d rec s t r
unfolding rotate
rotate_refresh_ok ext d raw ua ip s t r h =
    elim (Option-cases (find_hash (ext.sha256 raw) s.tokens)) [
      | inl missing ↦ absurd (ground (arith, h, rotate_refresh_unknown ext d raw ua ip s missing))
      | inr (rec, found) ↦
          let at = sym (rotate_refresh_found ext d raw ua ip rec s found) ∙ h in
          elim (Option-cases rec.revoked_at) [
            | inr (n, was) ↦ absurd (ground (arith, rw was at at))
            | inl live ↦ elim (Bool-cases (ltb rec.expires_at d.now)) [
              | inl late ↦ absurd (ground (arith, rw (live, late) at at))
              | inr fine ↦
                  (rec, found, live, fine, rotate_ok ext d ua ip rec s (rw (live, fine) at at))
            ]
          ]
    ]

new_id_apart :
    (h : Text) (t rec : Token) (ts : List Token)
    → find_hash h ts ≡ some rec
    → count_by (λ r. r.id) t.id ts ≡ 0
    → (t.id == rec.id) ≡ false
new_id_apart h t rec ts found new = elim (Bool-cases (t.id == rec.id)) [
  | inl hit ↦
      let same : t.id ≡ rec.id = ground arith in
      absurd (omega (arith, find_hash-count h ts rec found, rw same at new))
  | inr miss ↦ miss
]

active_user-id :
    (id : ℕ) (us : List User) (u : User)
    → active_user (kept_user (find_by (λ u. u.id) id us)) ≡ some u
    → u.id ≡ id
active_user-id id us u h = elim (Option-cases (find_by (λ u. u.id) id us)) [
  | inl missing ↦ absurd (ground (arith, rw missing at h))
  | inr (x, found) ↦
      let same : x ≡ u = ground (arith, rw found at h) in
      rw (← same) (find_by-key (λ u. u.id) id us x found)
]

-- A refresh that returns takes a token that is live and not expired, of an active user; it revokes
-- it, and inserts a live token of the same family and user with the hash of the new raw token.
pub rotation_replaces :
    (ext : Externals) (d : Draw) (raw : Text) (ua ip : Option Text) (s t : Store) (r : IssuedTokens)
    → IsChained s.tokens
    → rotate_refresh ext d raw ua ip s ≡ (ok r, t)
    → (old new : Token) × (find_hash (ext.sha256 raw) s.tokens ≡ some old)
      × (old.revoked_at ≡ none)
      × (ltb old.expires_at d.now ≡ false)
      × (find_hash (ext.sha256 raw) t.tokens ≡ some (replaced d.now (some new.id) old))
      × (find_hash (ext.sha256 r.refresh_token) t.tokens ≡ some new)
      × (new.revoked_at ≡ none)
      × (new.family_id ≡ old.family_id)
      × (new.user_id ≡ old.user_id)
rotation_replaces ext d raw ua ip s t r chained h =
    let (rec, found, live, fine, o) = rotate_refresh_ok ext d raw ua ip s t r h in
    let old = ext.sha256 raw in
    let apart : text_eq o.token.token_hash old ≡ false =
      known_hash old o.token.token_hash s.tokens rec found o.unknown in
    let other : (o.token.id == rec.id) ≡ false =
      new_id_apart old o.token rec s.tokens found o.is_new in
    let before : find_hash old (o.token ∷ s.tokens) ≡ some rec = rw apart found in
    let once : count_by (λ t. t.id) rec.id (o.token ∷ s.tokens) ≤ 1 =
      ground (arith, chained.distinct rec.id, other) in
    let is_new : text_eq o.token.token_hash (ext.sha256 r.refresh_token) ≡ true =
      rw o.hashed (text_eq_refl (ext.sha256 r.refresh_token)) in
    (
      rec,
      o.token,
      found,
      live,
      fine,
      rw o.result (
          find_hash-update old (replaced d.now (some o.token.id)) (o.token ∷ s.tokens) rec before
            once refl),
      rw o.result (rw (other, is_new) refl),
      o.not_revoked,
      o.same_family,
      o.same_user ∙ active_user-id rec.user_id s.users o.user o.found,
    )

find_hash-revoke :
    (h : Text) (now : ℕ) (p : Token → Bool) (ts : List Token) (t : Token)
    → find_hash h ts ≡ some t
    → find_hash h (map (revoke now p) ts) ≡ some (revoke now p t)
find_hash-revoke h now p [] t e = cc
find_hash-revoke h now p (x ∷ ts) t e = elim (Bool-cases (text_eq x.token_hash h)) [
  | inl here ↦
      let is : x ≡ t = ground (arith, here, e) in
      let hashed : text_eq (revoke now p t).token_hash h ≡ true = ground (arith, rw is at here) in
      rw is (rw hashed refl)
  | inr elsewhere ↦
      let still : text_eq (revoke now p x).token_hash h ≡ false = ground (arith, elsewhere) in
      rw still (find_hash-revoke h now p ts t (rw elsewhere at e))
]

-- So the old token works once: after a refresh that returned, presenting it again, from anywhere and
-- at any time, is refused as reuse, and ends the family, the new token included.
pub refresh_token_works_once :
    (ext : Externals) (d later : Draw) (raw : Text) (ua ip ua' ip' : Option Text) (s t : Store)
    (r : IssuedTokens)
    → IsChained s.tokens
    → rotate_refresh ext d raw ua ip s ≡ (ok r, t)
    → ((rotate_refresh ext later raw ua' ip' t).0 ≡ err reuse_detected)
      × ((rotate_refresh ext later r.refresh_token ua' ip'
            (after (rotate_refresh ext later raw ua' ip') t)).0
          ≡ err reuse_detected)
refresh_token_works_once ext d later raw ua ip ua' ip' s t r chained h =
    let (old, new, _, _, _, found_old, found_new, live, same_family, _) =
      rotation_replaces ext d raw ua ip s t r chained h in
    let dead : Token = replaced d.now (some new.id) old in
    let refused : rotate_refresh ext later raw ua' ip' t ≡ (
      err reuse_detected,
      record t { tokens = map (revoke later.now (λ x. x.family_id == old.family_id)) t.tokens },
    ) =
      rotate_refresh_found ext later raw ua' ip' dead t found_old in
    let ended : Token = revoke later.now (λ x. x.family_id == old.family_id) new in
    let found_ended : find_hash (ext.sha256 r.refresh_token)
          (after (rotate_refresh ext later raw ua' ip') t).tokens
        ≡ some ended =
      subst (λ p. find_hash (ext.sha256 r.refresh_token) p.1.tokens ≡ some ended) (sym refused)
        (find_hash-revoke (ext.sha256 r.refresh_token) later.now (λ x. x.family_id == old.family_id)
          t.tokens new found_new) in
    let revoked_new : ended.revoked_at ≡ some later.now = ground (arith, live, same_family) in
    (
      ap (λ p. p.0) refused,
      (reuse_ends_family ext later r.refresh_token ua' ip' ended later.now
          (after (rotate_refresh ext later raw ua' ip') t) found_ended revoked_new).0,
    )

none_live :
    (id now : ℕ) (ts : List Token)
    → every
        (λ x. not (x.user_id == id && not (is_some x.revoked_at)))
        (map (revoke now (λ x. x.user_id == id)) ts)
      ≡ true
none_live id now [] = refl
none_live id now (t ∷ ts) = ground (arith, none_live id now ts)

-- A user whose password was changed by `changeOwnPassword` has no live token left.
pub change_password_ends_sessions :
    (ext : Externals) (d : Draw) (id : ℕ) (current next : Text) (s t : Store)
    → change_own_password ext d id current next s ≡ (ok tt, t)
    → every (λ x. not (x.user_id == id && not (is_some x.revoked_at))) t.tokens ≡ true
unfolding change_own_password revoke_all_for_user
change_password_ends_sessions ext d id current next s t h =
    elim (Option-cases (kept_user (find_by (λ u. u.id) id s.users))) [
      | inl missing ↦ absurd (ground (arith, missing))
      | inr (user, found) ↦ elim (Bool-cases (ext.verify user.password_hash current)) [
        | inl right ↦
            let at : t.tokens ≡ map (revoke d.now (λ x. x.user_id == id)) s.tokens =
              ground (arith, found, right) in
            rw at (none_live id d.now s.tokens)
        | inr wrong ↦ absurd (ground (arith, found, wrong))
      ]
    ]
