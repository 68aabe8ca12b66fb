-- ===== src/Auth/Lockout.antt =====
-- The lock after failed sign-ins.
use arka_erp.Base.{
  ℕ, ◌+◌, ◌≤◌, ◌<◌, ◌≡◌, refl, sym, subst, ◌∙◌, true, false, not, ◌&&◌, some, List, [], ◌∷◌, arith,
  ◌==◌, is_some, inl, inr, Bool-cases,
}
use arka_erp.Base.Texts.{Text, text_eq}
use arka_erp.Base.Tables.{update_by, count_by}
use arka_erp.Base.Effect.{ok, err, unauthorized, forbidden, after}
use arka_erp.Auth.{User, Store, Externals, Draw}
use arka_erp.Auth.Users.{email_row, failed, logged_in}
use arka_erp.Auth.Service.{is_locked, check_password, validate_user}

email_row-count :
    (ext : Externals) (email : Text) (us : List User) (u : User)
    → email_row ext email us ≡ some u
    → 1 ≤ count_by (λ x. x.id) u.id us
email_row-count ext email [] u e = cc
email_row-count ext email (x ∷ us) u e =
    elim (Bool-cases
      (text_eq (ext.lower x.email) (ext.lower email) && not (is_some x.deleted_at))) [
        | inl here ↦ ground (arith, rw here at e)
        | inr elsewhere ↦ ground (arith, email_row-count ext email us u (rw elsewhere at e))
      ]

-- The row of an address after an update of that row which keeps the address.
pub email_row-update :
    (ext : Externals) (email : Text) (f : User → User) (us : List User) (u : User)
    → email_row ext email us ≡ some u
    → count_by (λ x. x.id) u.id us ≤ 1
    → (f u).email ≡ u.email
    → (f u).deleted_at ≡ u.deleted_at
    → email_row ext email (update_by (λ x. x.id) u.id f us) ≡ some (f u)
email_row-update ext email f [] u e once same kept = cc
email_row-update ext email f (x ∷ us) u e once same kept =
    elim (Bool-cases
      (text_eq (ext.lower x.email) (ext.lower email) && not (is_some x.deleted_at))) [
        | inl here ↦ let is : x ≡ u = ground (arith, rw here at e) in rw is (found (rw is at here))
        | inr elsewhere ↦
            let later : email_row ext email us ≡ some u = rw elsewhere at e in
            elim (Bool-cases (x.id == u.id)) [
              | inl hit ↦
                  absurd (omega (arith, email_row-count ext email us u later, rw hit at once))
              | inr miss ↦
                  rw (miss, elsewhere)
                    (email_row-update ext email f us u later (omega (arith, rw miss at once)) same
                      kept)
            ]
      ]
  where
    found :
        (text_eq (ext.lower u.email) (ext.lower email) && not (is_some u.deleted_at)) ≡ true
        → email_row ext email (update_by (λ x. x.id) u.id f (u ∷ us)) ≡ some (f u)
    found here =
        let own : (u.id == u.id) ≡ true = ground arith in rw own (rw (same, kept, here) refl)

pub validate_user-found :
    (ext : Externals) (d : Draw) (email password : Text) (u : User) (s : Store)
    → email_row ext email s.users ≡ some u
    → validate_user ext d email password s ≡ check_password ext d u password s
unfolding validate_user
validate_user-found ext d email password u s found = rw found refl

-- A wrong password is counted.
pub check_password-wrong :
    (ext : Externals) (d : Draw) (u : User) (password : Text) (s : Store)
    → u.is_active ≡ true
    → is_locked d.now u.locked_until ≡ false
    → ext.verify u.password_hash password ≡ false
    → check_password ext d u password s
      ≡ (err unauthorized, record s { users = update_by (λ x. x.id) u.id (failed d.now) s.users })
unfolding check_password
check_password-wrong ext d u password s active unlocked wrong = rw (active, unlocked, wrong) refl

-- Nobody passes a lock.
check_password-locked :
    (ext : Externals) (d : Draw) (u : User) (password : Text) (s : Store)
    → u.is_active ≡ true
    → is_locked d.now u.locked_until ≡ true
    → check_password ext d u password s ≡ (err forbidden, s)
unfolding check_password
check_password-locked ext d u password s active locked = rw (active, locked) refl

-- Who passes is the user of the address.
pub validate_user-user :
    (ext : Externals) (d : Draw) (email password : Text) (u v : User) (s t : Store)
    → email_row ext email s.users ≡ some u
    → validate_user ext d email password s ≡ (ok v, t)
    → v ≡ u
unfolding check_password
validate_user-user ext d email password u v s t found h =
    let h1 = sym (validate_user-found ext d email password u s found) ∙ h in
    elim (Bool-cases (ext.verify u.password_hash password)) [
      | inl right ↦ ground (arith, rw right at h1)
      | inr wrong ↦ ground (arith, rw wrong at h1)
    ]

-- A right password clears the record.
pub check_password-right :
    (ext : Externals) (d : Draw) (u : User) (password : Text) (s : Store)
    → u.is_active ≡ true
    → is_locked d.now u.locked_until ≡ false
    → ext.verify u.password_hash password ≡ true
    → check_password ext d u password s
      ≡ (ok u, record s { users = update_by (λ x. x.id) u.id (logged_in d.now) s.users })
unfolding check_password
check_password-right ext d u password s active unlocked right = rw (active, unlocked, right) refl

-- Where ids are distinct: a wrong password for an active user who has four failures or more on
-- record locks the user for 15 minutes. In that time each attempt for the address, with any
-- password, is refused and changes nothing.
pub fifth_failure_locks :
    (ext : Externals) (d later : Draw) (email wrong any_password : Text) (u : User) (s : Store)
    → ((i : ℕ) → count_by (λ x. x.id) i s.users ≤ 1)
    → email_row ext email s.users ≡ some u
    → u.is_active ≡ true
    → is_locked d.now u.locked_until ≡ false
    → 4 ≤ u.failed_logins
    → ext.verify u.password_hash wrong ≡ false
    → later.now < d.now + 900000
    → validate_user ext later email any_password (after (validate_user ext d email wrong) s)
      ≡ (err forbidden, after (validate_user ext d email wrong) s)
fifth_failure_locks ext d later email wrong any_password u s distinct found active unlocked many bad
      soon =
    let counted =
      validate_user-found ext d email wrong u s found
      ∙ check_password-wrong ext d u wrong s active unlocked bad in
    let t : Store = record s { users = update_by (λ x. x.id) u.id (failed d.now) s.users } in
    let locked : is_locked later.now (failed d.now u).locked_until ≡ true =
      ground (arith, many, soon) in
    let refused : validate_user ext later email any_password t ≡ (err forbidden, t) =
      validate_user-found ext later email any_password (failed d.now u) t
        (email_row-update ext email (failed d.now) s.users u found (distinct u.id) refl refl)
      ∙ check_password-locked ext later (failed d.now u) any_password t active locked in
    subst (λ p. validate_user ext later email any_password p.1 ≡ (err forbidden, p.1)) (sym counted)
      refused
