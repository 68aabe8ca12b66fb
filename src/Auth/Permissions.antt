-- ===== src/Auth/Permissions.antt =====
-- What a user may do: the grants of backend/src/users/users.service.ts, `setUserPermissions` and
-- `effectivePermissions`, and the change of a role by `updateUser`.
use arka_erp.Base.{
  ℕ, ◌≡◌, refl, ap, ◌∙◌, Bool, true, false, not, ◌||◌, Option, some, List, [], ◌∷◌, map, filter,
  any, ◌==◌, if◌then◌else◌, is_some, All, arith, inl, inr, Bool-cases,
}
use arka_erp.Base.Texts.{Text, text_eq, text_eq_refl, text_eq-true}
use arka_erp.Base.Tables.{find_by}
use arka_erp.Base.Effect.{ok, after}
use arka_erp.Auth.{UserGrant, Store}
use arka_erp.Auth.Users.{
  custom_or_role, permissions_for_role, effective_permissions, has_grant, insert_grant,
  insert_grants, set_user_permissions, update_user,
}

-- The permissions that a user has of his own.
abbrev pub own : ℕ → List UserGrant → List Text
own id grants = map (λ g. g.permission) (filter (λ g. g.user_id == id) grants)

abbrev with_grant : ℕ → Text → List UserGrant → List UserGrant
with_grant id p grants =
    if has_grant id p grants then grants else record { user_id = id; permission = p } ∷ grants

granted : ℕ → List Text → List UserGrant → List UserGrant
granted id [] grants = grants
granted id (p ∷ ps) grants = granted id ps (with_grant id p grants)

insert_grants_ok :
    (id : ℕ) (ps : List Text) (s : Store)
    → is_some (find_by (λ u. u.id) id s.users) ≡ true
    → All (λ p. any (text_eq p) s.permissions ≡ true) ps
    → insert_grants id ps s ≡ (ok tt, record s { user_grants = granted id ps s.user_grants })
unfolding insert_grants insert_grant granted
insert_grants_ok id [] s user known = refl
insert_grants_ok id (p ∷ ps) s user known =
    rw (user, known.0)
      (insert_grants_ok id ps (record s { user_grants = with_grant id p s.user_grants }) user
        known.1)

own-has_grant :
    (id : ℕ) (p : Text) (grants : List UserGrant)
    → has_grant id p grants ≡ true
    → any (text_eq p) (own id grants) ≡ true
own-has_grant id p [] h = cc
own-has_grant id p (g ∷ grants) h = elim (Bool-cases (g.user_id == id)) [
  | inl mine ↦ elim (Bool-cases (text_eq g.permission p)) [
    | inl this ↦ rw (mine, text_eq-true g.permission p this, text_eq_refl p) refl
    | inr other ↦ rw mine (ground (arith, own-has_grant id p grants (rw (mine, other) at h)))
  ]
  | inr theirs ↦ rw theirs (own-has_grant id p grants (rw theirs at h))
]

own-with_grant :
    (id : ℕ) (p q : Text) (grants : List UserGrant)
    → any (text_eq q) (own id (with_grant id p grants))
      ≡ (any (text_eq q) (own id grants) || text_eq q p)
own-with_grant id p q grants = elim (Bool-cases (has_grant id p grants)) [
  | inl there ↦ rw there (elim (Bool-cases (text_eq q p)) [
    | inl same ↦ rw (text_eq-true q p same, own-has_grant id p grants there) refl
    | inr other ↦ ground (arith, other)
  ])
  | inr new ↦ rw new (ground arith)
]

own-granted :
    (id : ℕ) (ps : List Text) (q : Text) (grants : List UserGrant)
    → any (text_eq q) (own id (granted id ps grants))
      ≡ (any (text_eq q) (own id grants) || any (text_eq q) ps)
unfolding granted
own-granted id [] q grants = ground arith
own-granted id (p ∷ ps) q grants =
    ground (arith, own-granted id ps q (with_grant id p grants), own-with_grant id p q grants)

own-granted_other :
    (id j : ℕ) (ps : List Text) (grants : List UserGrant)
    → (id == j) ≡ false
    → own j (granted id ps grants) ≡ own j grants
unfolding granted
own-granted_other id j [] grants h = refl
own-granted_other id j (p ∷ ps) grants h =
    own-granted_other id j ps (with_grant id p grants) h
    ∙ elim (Bool-cases (has_grant id p grants)) [
      | inl there ↦ rw there refl
      | inr new ↦ rw (new, h) refl
    ]

own-cleared :
    (id : ℕ) (grants : List UserGrant) → own id (filter (λ g. not (g.user_id == id)) grants) ≡ []
own-cleared id [] = refl
own-cleared id (g ∷ grants) = ground (arith, own-cleared id grants)

own-cleared_other :
    (id j : ℕ) (grants : List UserGrant)
    → (id == j) ≡ false
    → own j (filter (λ g. not (g.user_id == id)) grants) ≡ own j grants
own-cleared_other id j [] h = refl
own-cleared_other id j (g ∷ grants) h = elim (Bool-cases (g.user_id == id)) [
  | inl mine ↦ ground (arith, mine, h, own-cleared_other id j grants h)
  | inr theirs ↦ elim (Bool-cases (g.user_id == j)) [
    | inl his ↦ rw (theirs, his, own-cleared_other id j grants h) refl
    | inr none_his ↦ rw (theirs, none_his, own-cleared_other id j grants h) refl
  ]
]

set_user_permissions_ok :
    (id : ℕ) (ps : List Text) (s : Store)
    → is_some (find_by (λ u. u.id) id s.users) ≡ true
    → All (λ p. any (text_eq p) s.permissions ≡ true) ps
    → set_user_permissions id ps s ≡ (
      ok ps,
      record s { user_grants = granted id ps (filter (λ g. not (g.user_id == id)) s.user_grants) },
    )
unfolding set_user_permissions
set_user_permissions_ok id ps s user known =
    rw
      (insert_grants_ok id ps
        (record s { user_grants = filter (λ g. not (g.user_id == id)) s.user_grants }) user known)
      refl

-- Two lists with the same members give the same members after the choice between own and role.
custom_or_role-any :
    (q : Text) (ps ks role : List Text)
    → ((r : Text) → any (text_eq r) ks ≡ any (text_eq r) ps)
    → any (text_eq q) (custom_or_role ks role) ≡ any (text_eq q) (custom_or_role ps role)
custom_or_role-any q [] [] role same = refl
custom_or_role-any q [] (k ∷ ks) role same = absurd (ground (arith, same k, text_eq_refl k))
custom_or_role-any q (p ∷ ps) [] role same = absurd (ground (arith, same p, text_eq_refl p))
custom_or_role-any q (p ∷ ps) (k ∷ ks) role same = same q

-- A user who exists, and permissions that exist: they are set, and then the user may do what is among
-- them, or, if none was given, what the role may; what any other user may do is as before.
pub effective_permissions-set :
    (id : ℕ) (ps : List Text) (role q : Text) (s : Store)
    → is_some (find_by (λ u. u.id) id s.users) ≡ true
    → All (λ p. any (text_eq p) s.permissions ≡ true) ps
    → ((set_user_permissions id ps s).0 ≡ ok ps)
      × (any (text_eq q) (effective_permissions id role (after (set_user_permissions id ps) s))
          ≡ any (text_eq q) (custom_or_role ps (permissions_for_role role s.role_grants)))
      × ((j : ℕ)
          → (id == j) ≡ false
          → effective_permissions j role (after (set_user_permissions id ps) s)
            ≡ effective_permissions j role s)
effective_permissions-set id ps role q s user known = (
  ap (λ r. r.0) done,
  rw stored (
      custom_or_role-any q ps (own id (granted id ps cleared))
        (permissions_for_role role s.role_grants)
        (λ r. own-granted id ps r cleared ∙ rw (own-cleared id s.user_grants) refl)),
  λ j other. rw stored (
      ap (λ ks. custom_or_role ks (permissions_for_role role s.role_grants))
        (own-granted_other id j ps cleared other ∙ own-cleared_other id j s.user_grants other)),
)
  where
    cleared : List UserGrant
    cleared = filter (λ g. not (g.user_id == id)) s.user_grants

    done : set_user_permissions id ps s ≡ (ok ps, record s { user_grants = granted id ps cleared })
    done = set_user_permissions_ok id ps s user known

    stored : after (set_user_permissions id ps) s ≡ record s { user_grants = granted id ps cleared }
    stored = ap (λ r. r.1) done

custom_or_role-custom :
    (p : Text) (ks role other : List Text)
    → any (text_eq p) ks ≡ true
    → custom_or_role ks role ≡ custom_or_role ks other
custom_or_role-custom p [] role other h = cc
custom_or_role-custom p (k ∷ ks) role other h = refl

update_user-grants :
    (id : ℕ) (name role : Option Text) (active : Option Bool) (s : Store)
    → ((after (update_user id name role active) s).user_grants ≡ s.user_grants)
      × ((after (update_user id name role active) s).role_grants ≡ s.role_grants)
unfolding update_user
update_user-grants id name role active s = (ground arith, ground arith)

-- Once a user has been given permissions of his own, no change of his role, to whichever role, and
-- whether it succeeds or is refused, changes what he may do.
pub effective_permissions-role :
    (id : ℕ) (p : Text) (ps : List Text) (role new_role : Text) (full_name : Option Text)
    (is_active : Option Bool) (s : Store)
    → is_some (find_by (λ u. u.id) id s.users) ≡ true
    → All (λ p. any (text_eq p) s.permissions ≡ true) (p ∷ ps)
    → effective_permissions id new_role (
        after
          (update_user id full_name (some new_role) is_active)
          (after (set_user_permissions id (p ∷ ps)) s))
      ≡ effective_permissions id role (after (set_user_permissions id (p ∷ ps)) s)
effective_permissions-role id p ps role new_role full_name is_active s user known =
    let (grants, roles) = update_user-grants id full_name (some new_role) is_active t in
    rw (grants, roles)
      (custom_or_role-custom p (own id t.user_grants) (permissions_for_role new_role t.role_grants)
        (permissions_for_role role t.role_grants) given)
  where
    t : Store
    t = after (set_user_permissions id (p ∷ ps)) s

    given : any (text_eq p) (own id t.user_grants) ≡ true
    given =
        rw
          (
            ap (λ r. r.1) (set_user_permissions_ok id (p ∷ ps) s user known),
            own-granted id (p ∷ ps) p (filter (λ g. not (g.user_id == id)) s.user_grants),
            text_eq_refl p,
          )
          (ground arith)
