-- ===== src/Frontend/Router.antt =====
-- The routes of frontend/src/router/index.ts and the guard before each of them.
use arka_erp.Base.{
  ℕ, zero, suc, Bool, true, false, not, ◌≡◌, refl, ap, ◌⊎◌, inl, inr, Option, none, some, List, [],
  ◌∷◌, if◌then◌else◌, Bool-cases,
}
use arka_erp.Base.Texts.{Text, codes}
use arka_erp.Frontend.Session.{Session, is_authed, can_user}

-- The names of the routes.
pub data Page : Type 0 where
  login workspace dashboard accounts ledger journal_entries journal_new journal_edit : Page
  trial_balance profit_loss balance_sheet projects customers personnel task_mgmt payroll : Page
  trash users profile system : Page

abbrev pub is_public : Page → Bool
is_public login = true
is_public _ = false

-- `meta.perm`
abbrev pub perm : Page → Option Text
perm dashboard = some (codes "report.ceo")
perm accounts = some (codes "ledger.view")
perm ledger = some (codes "ledger.view")
perm journal_entries = some (codes "ledger.view")
perm journal_new = some (codes "ledger.create")
perm journal_edit = some (codes "ledger.create")
perm trial_balance = some (codes "report.financial")
perm profit_loss = some (codes "report.financial")
perm balance_sheet = some (codes "report.financial")
perm projects = some (codes "project.view")
perm customers = some (codes "customer.view")
perm personnel = some (codes "hr.view")
perm task_mgmt = some (codes "task.manage")
perm payroll = some (codes "payroll.run")
perm users = some (codes "user.manage")
perm system = some (codes "system.admin")
perm _ = none

-- `!perm || auth.can(perm)`
abbrev pub permits : Session → Option Text → Bool
permits s none = true
permits s (some p) = can_user s.user p

-- LANDING_ORDER
abbrev pub landing_order : List Page
landing_order = workspace ∷ dashboard ∷ ledger ∷ projects ∷ profile ∷ []

-- The first page of the list that the user may open.
abbrev pub landing : Session → List Page → Option Page
landing s [] = none
landing s (p ∷ ps) = let rest = landing s ps in if permits s (perm p) then some p else rest

-- The guard's answer: the page, another one, or the name `security`, which no route has.
pub data Decision : Type 0 where
  opens : Decision
  redirects : Page → Decision
  unknown_name : Decision

abbrev pub redirected : Option Page → Decision
redirected none = unknown_name
redirected (some p) = redirects p

-- `beforeEach`, after the session was restored.
unfoldable pub guard : Session → Page → Decision
guard s to =
    if is_public to
    then (if is_authed s then redirects dashboard else opens)
    else if not (is_authed s)
    then redirects login
    else if permits s (perm to)
    then opens
    else redirected (landing s landing_order)

-- The guard is asked again for the page that it redirects to. At most `fuel` pages are asked for.
unfoldable pub navigate : ℕ → Session → Page → Option Page
navigate zero s to = none
navigate (suc fuel) s to = elim (guard s to) [
  | opens ↦ some to
  | redirects next ↦ navigate fuel s next
  | unknown_name ↦ none
]

-- A visitor without a session is shown the page of the sign-in, and a user a page that needs no
-- permission or one that the user has.
abbrev pub MayOpen : Session → Page → Type 0
MayOpen s p =
    ((is_authed s ≡ false) × (p ≡ login))
    ⊎ ((is_authed s ≡ true) × (is_public p ≡ false) × (permits s (perm p) ≡ true))

-- A user gets to a page that is not public, or to the workspace.
private_ends :
    (fuel : ℕ) (s : Session) (to : Page)
    → is_authed s ≡ true
    → is_public to ≡ false
    → (p : Page) × (navigate (suc (suc fuel)) s to ≡ some p) × MayOpen s p
unfolding navigate guard
private_ends fuel s to known private = elim (Bool-cases (permits s (perm to))) [
  | inl may ↦ (to, rw (private, known, may, guard, navigate) refl, inr (known, private, may))
  | inr barred ↦
      (workspace, rw (private, known, barred, known, guard, navigate) refl, inr (known, refl, refl))
]

only_login : (p : Page) → is_public p ≡ true → p ≡ login
only_login login h = refl
only_login p h = cc

stranger_ends :
    (fuel : ℕ) (s : Session) (to : Page)
    → is_authed s ≡ false
    → navigate (suc (suc fuel)) s to ≡ some login
unfolding navigate guard
stranger_ends fuel s to unknown = elim (Bool-cases (is_public to)) [
  | inl public ↦ rw (public, unknown, guard, navigate) (ap some (only_login to public))
  | inr private ↦ rw (private, unknown, unknown, guard, navigate) refl
]

-- Every navigation ends on a page, after two redirections at most, and the page is one that the
-- visitor may open.
pub navigate_ends :
    (s : Session) (to : Page) → (p : Page) × (navigate 3 s to ≡ some p) × MayOpen s p
unfolding navigate guard
navigate_ends s to = elim (Bool-cases (is_authed s)) [
  | inl known ↦ elim (Bool-cases (is_public to)) [
    | inl public ↦
        let (p, shown, may) = private_ends 0 s dashboard known refl in
        (p, rw (public, known, guard, navigate) shown, may)
    | inr private ↦ private_ends 1 s to known private
  ]
  | inr unknown ↦ (login, stranger_ends 1 s to unknown, inl (unknown, refl))
]
