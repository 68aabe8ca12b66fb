-- ===== src/Auth/Rotation.antt =====
-- Refresh tokens: a family is the chain of the tokens of one sign-in, and at most one is live.
use arka_erp.Base.{
  ℕ, ◌+◌, ◌≤◌, ◌≡◌, refl, sym, subst, Bool, true, false, not, ◌&&◌, Option, none, some, List, [],
  ◌∷◌, map, arith, ◌==◌, if◌then◌else◌, is_some, any, ◌⊎◌, inl, inr, Bool-cases, Option-cases,
}
use arka_erp.Base.Texts.{Text, text_eq, text_eq_refl}
use arka_erp.Base.Tables.{find_by, update_by, count_by, count_by-update_by}
use arka_erp.Base.Effect.{Failure, ok, err, ◌>>=◌, continue-eq-ok, after}
use arka_erp.Auth.{User, Token, Store, Externals, Draw}
use arka_erp.Auth.Users.{revoke, kept_user}
use arka_erp.Auth.Service.{
  find_hash, new_token, insert_token, issue_tokens, rotate, replaced, IssuedTokens, active_user,
  link_replaced,
}

-- A token that is not revoked.
abbrev pub is_live : ℕ → Token → Bool
is_live family t = t.family_id == family && not (is_some t.revoked_at)

-- How many live tokens a family has.
abbrev pub live_in : ℕ → List Token → ℕ
live_in family [] = 0
live_in family (t ∷ ts) = (if is_live family t then 1 else 0) + live_in family ts

-- At most one in each family; and the ids are distinct.
pub record IsChained (ts : List Token) : Type 0 where
  pub distinct : (i : ℕ) → count_by (λ t. t.id) i ts ≤ 1
  pub one_live : (family : ℕ) → live_in family ts ≤ 1

live_in-revoke :
    (family now : ℕ) (p : Token → Bool) (ts : List Token)
    → live_in family (map (revoke now p) ts) ≤ live_in family ts
live_in-revoke family now p [] = omega arith
live_in-revoke family now p (t ∷ ts) = ground (arith, live_in-revoke family now p ts)

count_by-revoke :
    (i now : ℕ) (p : Token → Bool) (ts : List Token)
    → count_by (λ t. t.id) i (map (revoke now p) ts) ≡ count_by (λ t. t.id) i ts
count_by-revoke i now p [] = refl
count_by-revoke i now p (t ∷ ts) = ground (arith, count_by-revoke i now p ts)

pub revoke-IsChained :
    (now : ℕ) (p : Token → Bool) (ts : List Token)
    → IsChained ts
    → IsChained (map (revoke now p) ts)
revoke-IsChained now p ts h = record {
  distinct = λ i. omega (arith, count_by-revoke i now p ts, h.distinct i);
  one_live = λ f. omega (arith, live_in-revoke f now p ts, h.one_live f);
}

-- The row that a hash finds has the hash, and is the one that its id names.
pub find_hash-hash :
    (h : Text) (ts : List Token) (t : Token)
    → find_hash h ts ≡ some t
    → text_eq t.token_hash h ≡ true
find_hash-hash h [] t e = cc
find_hash-hash h (x ∷ ts) t e = ground (arith, find_hash-hash h ts t)

pub find_hash-count :
    (h : Text) (ts : List Token) (t : Token)
    → find_hash h ts ≡ some t
    → 1 ≤ count_by (λ t. t.id) t.id ts
find_hash-count h [] t e = cc
find_hash-count h (x ∷ ts) t e = ground (arith, find_hash-count h ts t)

-- Revoking a live row takes one from its family.
live_in-update :
    (family : ℕ) (h : Text) (f : Token → Token) (ts : List Token) (t : Token)
    → find_hash h ts ≡ some t
    → count_by (λ t. t.id) t.id ts ≤ 1
    → ((x : Token) → is_live family (f x) ≡ false)
    → live_in family (update_by (λ t. t.id) t.id f ts) + (if is_live family t then 1 else 0)
      ≡ live_in family ts
live_in-update family h f [] t e once dead = cc
live_in-update family h f (x ∷ ts) t e once dead = elim (Bool-cases (x.id == t.id)) [
  | inl hit ↦ elim (Bool-cases (text_eq x.token_hash h)) [
    | inl here ↦
        let same : x ≡ t = ground (arith, here, e) in rw hit (rw same (ground (arith, dead t)))
    | inr elsewhere ↦
        let later : find_hash h ts ≡ some t = rw elsewhere at e in
        absurd (omega (arith, find_hash-count h ts t later, rw hit at once))
  ]
  | inr miss ↦
      let later : find_hash h ts ≡ some t = ground (arith, miss, e) in
      rw miss
        (omega (arith, live_in-update family h f ts t later (omega (arith, rw miss at once)) dead))
]

-- A token inserted into its family.
abbrev with_token : Token → Store → Store
with_token t s = record s { tokens = t ∷ s.tokens }

pub insert_token_ok :
    (t : Token) (s : Store) {r : Unit {0}} {u : Store}
    → insert_token t s ≡ (ok r, u)
    → (count_by (λ r. r.id) t.id s.tokens ≡ 0)
      × (any (λ r. text_eq r.token_hash t.token_hash) s.tokens ≡ false)
      × (u ≡ with_token t s)
unfolding insert_token
insert_token_ok t s h = ground arith

pub issue_tokens_ok :
    (ext : Externals) (d : Draw) (user : User) (ua ip : Option Text) (family : Option ℕ) (s : Store)
    {r : IssuedTokens} {u : Store}
    → issue_tokens ext d user ua ip family s ≡ (ok r, u)
    → (count_by (λ r. r.id) d.new_id s.tokens ≡ 0)
      × (any (λ r. text_eq r.token_hash (ext.sha256 d.raw)) s.tokens ≡ false)
      × (u ≡ with_token (new_token ext d user ua ip family) s)
      × (r.refresh_token ≡ d.raw)
unfolding issue_tokens
issue_tokens_ok ext d user ua ip family s h =
    let t = new_token ext d user ua ip family in
    let (_, u, inserted, h1) = continue-eq-ok (insert_token t s) _ h in
    let (new, unknown, at) = insert_token_ok t s inserted in
    (new, unknown, ground arith, ground arith)

pub issue_tokens_err :
    (ext : Externals) (d : Draw) (user : User) (ua ip : Option Text) (family : Option ℕ) (s : Store)
    {x : Failure} {u : Store}
    → issue_tokens ext d user ua ip family s ≡ (err x, u)
    → u ≡ s
unfolding issue_tokens insert_token
issue_tokens_err ext d user ua ip family s h = ground arith

-- A sign-in inserts the first token of a new family.
insert-IsChained :
    (t : Token) (ts : List Token)
    → count_by (λ r. r.id) t.id ts ≡ 0
    → live_in t.family_id ts ≡ 0
    → IsChained ts
    → IsChained (t ∷ ts)
insert-IsChained t ts new first h = record {
  distinct = λ i. ground (arith, h.distinct i, new);
  one_live = λ f. ground (arith, h.one_live f, first);
}

-- A rotation inserts the next token of a family, and takes the live one out.
pub rotate-IsChained :
    (h : Text) (now : ℕ) (by : Option ℕ) (t rec : Token) (ts : List Token)
    → find_hash h ts ≡ some rec
    → rec.revoked_at ≡ none
    → t.family_id ≡ rec.family_id
    → count_by (λ r. r.id) t.id ts ≡ 0
    → IsChained ts
    → IsChained (update_by (λ r. r.id) rec.id (replaced now by) (t ∷ ts))
rotate-IsChained h now by t rec ts found live same_family new chained =
    let other : (t.id == rec.id) ≡ false = apart (Bool-cases (t.id == rec.id)) in
    record {
      distinct = λ i. omega (
        arith,
        count_by-update_by (λ r. r.id) i rec.id (replaced now by) (t ∷ ts) (λ _. refl),
        once i,
      );
      one_live = λ f. rw other (
          ground (
            arith,
            live_in-update f h (replaced now by) ts rec found (chained.distinct rec.id)
                (λ x. dead f x),
            chained.one_live f,
            live,
            same_family,
          ));
    }
  where
    apart : ((t.id == rec.id) ≡ true) ⊎ ((t.id == rec.id) ≡ false) → (t.id == rec.id) ≡ false
    apart (inl hit) =
        let same : t.id ≡ rec.id = ground arith in
        absurd (omega (arith, find_hash-count h ts rec found, rw same at new))
    apart (inr miss) = miss

    once : (i : ℕ) → count_by (λ r. r.id) i (t ∷ ts) ≤ 1
    once i = ground (arith, chained.distinct i, new)

    dead : (f : ℕ) (x : Token) → is_live f (replaced now by x) ≡ false
    dead f x = ground arith

-- The property of the whole store.
abbrev pub StoreChained : Store → Type 0
StoreChained s = IsChained s.tokens

-- A row that cannot be inserted is not.
insert_token-cases :
    (t : Token) (s : Store)
    → (after (insert_token t) s ≡ s)
      ⊎ ((count_by (λ r. r.id) t.id s.tokens ≡ 0) × (after (insert_token t) s ≡ with_token t s))
unfolding insert_token
insert_token-cases t s = elim (Bool-cases (count_by (λ r. r.id) t.id s.tokens == 0)) [
  | inl new ↦ elim (Bool-cases (any (λ r. text_eq r.token_hash t.token_hash) s.tokens)) [
    | inl known ↦ inl (ground (arith, new, known))
    | inr unknown ↦ inr (ground arith, ground (arith, new, unknown))
  ]
  | inr old ↦ inl (ground (arith, old))
]

issue_tokens-state :
    (ext : Externals) (d : Draw) (user : User) (ua ip : Option Text) (family : Option ℕ) (s : Store)
    → after (issue_tokens ext d user ua ip family) s
      ≡ after (insert_token (new_token ext d user ua ip family)) s
unfolding issue_tokens insert_token
issue_tokens-state ext d user ua ip family s = ground arith

pub issue_tokens-first :
    (ext : Externals) (d : Draw) (user : User) (ua ip : Option Text) (s : Store)
    → live_in d.new_family s.tokens ≡ 0
    → StoreChained s
    → StoreChained (after (issue_tokens ext d user ua ip none) s)
issue_tokens-first ext d user ua ip s fresh h =
    subst StoreChained (sym (issue_tokens-state ext d user ua ip none s))
      (elim (insert_token-cases (new_token ext d user ua ip none) s) [
        | inl same ↦ rw same h
        | inr (new, added) ↦ rw added (insert-IsChained _ s.tokens new fresh h)
      ])

-- What `rotate` does.
pub record Rotates (ext : Externals) (d : Draw) (rec : Token) (s u : Store) (r : IssuedTokens)
    : Type 0 where
  pub user : User
  pub found : active_user (kept_user (find_by (λ u. u.id) rec.user_id s.users)) ≡ some user
  pub token : Token
  pub is_new : count_by (λ r. r.id) token.id s.tokens ≡ 0
  pub unknown : any (λ r. text_eq r.token_hash token.token_hash) s.tokens ≡ false
  pub same_user : token.user_id ≡ user.id
  pub same_family : token.family_id ≡ rec.family_id
  pub hashed : token.token_hash ≡ ext.sha256 r.refresh_token
  pub not_revoked : token.revoked_at ≡ none
  pub result : u ≡ record s {
    tokens = update_by (λ t. t.id) rec.id (replaced d.now (some token.id)) (token ∷ s.tokens);
  }

linked_ok :
    (ext : Externals) (d : Draw) (rec : Token) (user : User) (ua ip : Option Text) (s u v : Store)
    (i r : IssuedTokens)
    → active_user (kept_user (find_by (λ u. u.id) rec.user_id s.users)) ≡ some user
    → issue_tokens ext d user ua ip (some rec.family_id) s ≡ (ok i, u)
    → link_replaced ext d rec i u ≡ (ok r, v)
    → Rotates ext d rec s v r
linked_ok ext d rec user ua ip s u v i r found issued linked =
    let t : Token = new_token ext d user ua ip (some rec.family_id) in
    let (new, unknown, at, raw) = issue_tokens_ok ext d user ua ip (some rec.family_id) s issued in
    let same : i ≡ r = ground (arith, linked) in
    let head : find_hash (ext.sha256 d.raw) (t ∷ s.tokens) ≡ some t =
      rw (text_eq_refl (ext.sha256 d.raw)) refl in
    record {
      user = user;
      found = found;
      token = t;
      is_new = new;
      unknown = unknown;
      same_user = refl;
      same_family = refl;
      hashed = rw (← same, raw) refl;
      not_revoked = refl;
      result = ground (arith, linked, at, raw, head);
    }

rotate_user_ok :
    (ext : Externals) (d : Draw) (ua ip : Option Text) (rec : Token) (user : User) (s : Store)
    {r : IssuedTokens} {u : Store}
    → active_user (kept_user (find_by (λ u. u.id) rec.user_id s.users)) ≡ some user
    → (issue_tokens ext d user ua ip (some rec.family_id) >>= link_replaced ext d rec) s ≡ (ok r, u)
    → Rotates ext d rec s u r
rotate_user_ok ext d ua ip rec user s {r = r} {u = u} found h =
    let (i, v, issued, linked) =
      continue-eq-ok (issue_tokens ext d user ua ip (some rec.family_id) s)
        (link_replaced ext d rec) h in
    linked_ok ext d rec user ua ip s v u i r found issued linked

pub rotate_ok :
    (ext : Externals) (d : Draw) (ua ip : Option Text) (rec : Token) (s : Store) {r : IssuedTokens}
    {u : Store}
    → rotate ext d ua ip rec s ≡ (ok r, u)
    → Rotates ext d rec s u r
unfolding rotate
rotate_ok ext d ua ip rec s {r = r} {u = u} h =
    elim (Option-cases (active_user (kept_user (find_by (λ u. u.id) rec.user_id s.users)))) [
      | inl missing ↦ ground arith
      | inr (user, found) ↦ rotate_user_ok ext d ua ip rec user s found (rw found at h)
    ]
