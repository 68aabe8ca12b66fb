-- ===== src/Frontend/UserForm.antt =====
-- The form of a new user and the choice of permissions of frontend/src/views/UsersView.vue, with the
-- requests that its buttons send. What the browser's prompts answer is an argument.
use arka_erp.Base.{
  ℕ, ◌+◌, ◌-◌, ◌≤◌, ◌≡◌, refl, sym, ap, ◌∙◌, Bool, true, not, ◌&&◌, Option, none, some, List, [],
  ◌∷◌, ◌++◌, if◌then◌else◌, any, leb, length, is_some, All, All-append, arith, inl, inr, Bool-cases,
}
use arka_erp.Base.Texts.{Text, codes, text_eq, text_eq_refl, text_eq-true, is_truthy}
use arka_erp.Base.Tables.{find_by}
use arka_erp.Auth.{User, Store, Externals, Draw}
use arka_erp.Auth.Users.{custom_or_role, permissions_for_role, effective_permissions}
use arka_erp.Auth.Controller.{
  Call, creates_user, edits_user, sets_permissions, resets_password, resets_mfa, deletes_user,
  handle,
}
use arka_erp.Auth.Permissions.{effective_permissions-set}

pub record Form : Type 0 where
  pub full_name : Text
  pub email : Text
  pub role : Text
  pub password : Text
  pub perms : List Text

-- `applyRoleDefaults`; a role that the API did not send has none.
abbrev pub apply_role_defaults : (Text → List Text) → Form → Form
apply_role_defaults role_map form = record form { perms = role_map form.role }

abbrev pub open_create : (Text → List Text) → Form
open_create role_map =
    apply_role_defaults role_map
      (record { full_name = []; email = []; role = codes "DESIGNER"; password = []; perms = [] })

-- `splice(indexOf(code), 1)`
abbrev pub without_first : Text → List Text → List Text
without_first code [] = []
without_first code (p ∷ ps) =
    let rest = without_first code ps in if text_eq code p then ps else p ∷ rest

-- `togglePerm` and `togglePermSel`
unfoldable pub toggle : Text → List Text → List Text
toggle code perms =
    if any (text_eq code) perms then without_first code perms else perms ++ (code ∷ [])

-- The boxes that were clicked, one after the other.
abbrev pub toggle_all : List Text → List Text → List Text
toggle_all [] perms = perms
toggle_all (c ∷ cs) perms = toggle_all cs (toggle c perms)

-- What `createUser` sends, if it sends anything.
unfoldable pub create_user : Form → Option Call
create_user form =
    if is_truthy form.full_name && is_truthy form.email && leb 8 (length form.password)
    then some (
        creates_user (record {
          email = form.email;
          full_name = form.full_name;
          role = form.role;
          password = form.password;
          is_active = none;
          permissions = form.perms;
        }))
    else none

abbrev pub save_perms : ℕ → List Text → Call
save_perms id selection = sets_permissions id selection

abbrev pub change_role : User → Text → Call
change_role u role = edits_user u.id none (some role) none

abbrev pub toggle_active : User → Call
toggle_active u = edits_user u.id none none (some (not u.is_active))

-- The prompt gives `none` when it is left.
abbrev pub reset_pass : User → Option Text → Option Call
reset_pass u none = none
reset_pass u (some p) = if is_truthy p then some (resets_password u.id p) else none

abbrev pub reset_mfa : Bool → User → Option Call
reset_mfa confirmed u = if confirmed then some (resets_mfa u.id) else none

abbrev pub remove_user : Bool → User → ℕ → Option Call
remove_user confirmed u me = if confirmed then some (deletes_user u.id me) else none

-- How often a permission is selected.
abbrev pub times : Text → List Text → ℕ
times q [] = 0
times q (p ∷ ps) = (if text_eq q p then 1 else 0) + times q ps

any-times : (q : Text) (ps : List Text) → any (text_eq q) ps ≡ leb 1 (times q ps)
any-times q [] = refl
any-times q (p ∷ ps) = ground (arith, any-times q ps)

times-append :
    (q c : Text) (ps : List Text)
    → times q (ps ++ (c ∷ [])) ≡ times q ps + (if text_eq q c then 1 else 0)
times-append q c [] = ground arith
times-append q c (p ∷ ps) = omega (arith, times-append q c ps)

times-without_first :
    (q code : Text) (ps : List Text)
    → any (text_eq code) ps ≡ true
    → times q (without_first code ps) + (if text_eq q code then 1 else 0) ≡ times q ps
times-without_first q code [] h = cc
times-without_first q code (p ∷ ps) h = elim (Bool-cases (text_eq code p)) [
  | inl this ↦ rw (this, sym (text_eq-true code p this)) (ground arith)
  | inr other ↦ rw other (omega (arith, times-without_first q code ps (rw other at h)))
]

-- A click on a box changes what it stands for, and nothing else.
times-toggle :
    (q code : Text) (ps : List Text)
    → times code ps ≤ 1
    → times q (toggle code ps) ≡ (if text_eq q code then 1 - times code ps else times q ps)
unfolding toggle
times-toggle q code ps once = elim (Bool-cases (text_eq q code)) [
  | inl same ↦ rw (text_eq-true q code same, text_eq_refl code) this
  | inr other ↦ rw other (elim (Bool-cases (any (text_eq code) ps)) [
    | inl there ↦ rw there (ground (arith, other, times-without_first q code ps there))
    | inr absent ↦ rw absent (ground (arith, other, times-append q code ps))
  ])
]
  where
    this :
        times code (if any (text_eq code) ps then without_first code ps else ps ++ (code ∷ []))
        ≡ 1 - times code ps
    this = elim (Bool-cases (any (text_eq code) ps)) [
      | inl there ↦ rw there (
          ground (
            arith,
            there,
            once,
            text_eq_refl code,
            any-times code ps,
            times-without_first code code ps there,
          ))
      | inr absent ↦
          rw absent (
            ground (arith, absent, text_eq_refl code, any-times code ps, times-append code code ps))
    ]

-- A permission's box after clicks.
abbrev pub flipped : Text → List Text → Bool → Bool
flipped q [] b = b
flipped q (c ∷ cs) b = flipped q cs (if text_eq q c then not b else b)

-- No permission is selected twice.
abbrev pub IsOnce : List Text → Type 0
IsOnce ps = (q : Text) → times q ps ≤ 1

toggle-IsOnce : (code : Text) (ps : List Text) → IsOnce ps → IsOnce (toggle code ps)
toggle-IsOnce code ps once q = ground (arith, times-toggle q code ps (once code), once q)

any-toggle :
    (q code : Text) (ps : List Text)
    → IsOnce ps
    → any (text_eq q) (toggle code ps)
      ≡ (if text_eq q code then not (any (text_eq q) ps) else any (text_eq q) ps)
any-toggle q code ps once = elim (Bool-cases (text_eq q code)) [
  | inl same ↦ rw (text_eq-true q code same) (
      ground (
        arith,
        text_eq_refl code,
        any-times code (toggle code ps),
        any-times code ps,
        times-toggle code code ps (once code),
        once code,
      ))
  | inr other ↦ rw other (
      ground (
        arith,
        other,
        any-times q (toggle code ps),
        any-times q ps,
        times-toggle q code ps (once code),
      ))
]

any-toggle_all :
    (q : Text) (cs ps : List Text)
    → IsOnce ps
    → any (text_eq q) (toggle_all cs ps) ≡ flipped q cs (any (text_eq q) ps)
any-toggle_all q [] ps once = refl
any-toggle_all q (c ∷ cs) ps once =
    any-toggle_all q cs (toggle c ps) (toggle-IsOnce c ps once)
    ∙ ap (flipped q cs) (any-toggle q c ps once)

module _ (P : Text → Type 0) where
  All-without_first : (code : Text) (ps : List Text) → All P ps → All P (without_first code ps)
  All-without_first code [] h = tt
  All-without_first code (p ∷ ps) h = elim (Bool-cases (text_eq code p)) [
    | inl this ↦ rw this h.1
    | inr other ↦ rw other (h.0, All-without_first code ps h.1)
  ]

  All-toggle : (code : Text) (ps : List Text) → P code → All P ps → All P (toggle code ps)
  unfolding toggle
  All-toggle code ps known h = elim (Bool-cases (any (text_eq code) ps)) [
    | inl there ↦ rw there (All-without_first code ps h)
    | inr absent ↦ rw absent (All-append P ps (code ∷ []) h (known, tt))
  ]

  All-toggle_all : (cs ps : List Text) → All P cs → All P ps → All P (toggle_all cs ps)
  All-toggle_all [] ps known h = h
  All-toggle_all (c ∷ cs) ps known h =
      All-toggle_all cs (toggle c ps) known.1 (All-toggle c ps known.0 h)

custom_or_role-some : (ps role : List Text) → 1 ≤ length ps → custom_or_role ps role ≡ ps
custom_or_role-some [] role h = absurd (omega arith)
custom_or_role-some (p ∷ ps) role h = refl

-- The permissions of a user who exists are opened, some boxes are clicked, and what is selected is
-- saved: if anything is, the user may then do exactly what the clicks made of what was opened. All
-- that was opened or clicked exists, and nothing was opened twice.
pub save_perms-toggled :
    (ext : Externals) (d : Draw) (id : ℕ) (opened clicks : List Text) (role q : Text) (s : Store)
    → is_some (find_by (λ u. u.id) id s.users) ≡ true
    → All (λ p. any (text_eq p) s.permissions ≡ true) opened
    → All (λ p. any (text_eq p) s.permissions ≡ true) clicks
    → IsOnce opened
    → 1 ≤ length (toggle_all clicks opened)
    → any
        (text_eq q)
        (effective_permissions id role (handle ext d (save_perms id (toggle_all clicks opened)) s))
      ≡ flipped q clicks (any (text_eq q) opened)
unfolding handle
save_perms-toggled ext d id opened clicks role q s user known clicked once some_left =
    let selected =
      All-toggle_all (λ p. any (text_eq p) s.permissions ≡ true) clicks opened clicked known in
    let set = effective_permissions-set id (toggle_all clicks opened) role q s user selected in
    set.1
    ∙ ap (any (text_eq q)) (
        custom_or_role-some (toggle_all clicks opened) (permissions_for_role role s.role_grants)
          some_left)
    ∙ any-toggle_all q clicks opened once
