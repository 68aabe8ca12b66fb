-- ===== src/Frontend/ProfileForm.antt =====
-- The forms of frontend/src/views/ProfileView.vue: the profile and the password. `lower` is
-- JavaScript's toLowerCase; what the prompt and the API answer are arguments. Messages and pages are
-- left out.
use arka_erp.Base.{
  ◌≡◌, refl, sym, &&-eq-true, [], Bool, true, false, not, ◌&&◌, Option, none, some, if◌then◌else◌,
  leb, length, arith, inl, inr, Bool-cases,
}
use arka_erp.Base.Texts.{Text, text_eq, trim, is_truthy}
use arka_erp.Frontend.Session.{
  SessionUser, Session, Outcome, done, failed, needs_code, Me, logout, change_and_fetch, changes,
  logs_out, HasToken, handle, handle-HasToken,
}

pub record Form : Type 0 where
  pub full_name : Text
  pub email : Text

abbrev pub email_of : Option SessionUser → Text
email_of none = []
email_of (some u) = u.email

abbrev pub email_changed : (Text → Text) → Form → Session → Bool
email_changed lower form s =
    is_truthy (lower (trim form.email))
    && not (text_eq (lower (trim form.email)) (lower (trim (email_of s.user))))

-- A new address signs out, once it is saved.
abbrev pub after_profile : Bool → Outcome × Session → Session
after_profile changed (done, s) = if changed then logout s else s
after_profile changed (_, s) = s

-- What `saveProfile` sends, if it sends anything, and the session after it.
unfoldable pub save_profile :
    (Text → Text) → Me → Bool → Bool → Form → Session → Option Form × Session
save_profile lower me confirmed answered form s =
    if email_changed lower form s && not confirmed
    then (none, s)
    else (some form, after_profile (email_changed lower form s) (change_and_fetch me answered s))

-- `changePassword`: the old and the new password, if they are sent.
unfoldable pub change_password :
    Bool → Text → Text → Text → Session → Option (Text × Text) × Session
change_password answered current next confirm s =
    if text_eq next confirm && leb 8 (length next)
    then (some (current, next), if answered then logout s else s)
    else (none, s)

-- The session after the profile was saved is one that calls of the store lead to.
pub save_profile-HasToken :
    (lower : Text → Text) (me : Me) (confirmed answered : Bool) (form : Form) (s : Session)
    → me none ≡ none
    → HasToken s
    → HasToken (save_profile lower me confirmed answered form s).1
unfolding save_profile handle
save_profile-HasToken lower me confirmed answered form s guarded h =
    elim (Bool-cases (email_changed lower form s && not confirmed)) [
      | inl left ↦ rw left h
      | inr sent ↦ rw sent (
          signed_out (change_and_fetch me answered s) (email_changed lower form s)
            (handle-HasToken me (changes answered) s guarded h))
    ]
  where
    signed_out : (r : Outcome × Session) (b : Bool) → HasToken r.1 → HasToken (after_profile b r)
    signed_out (done, t) true q = handle-HasToken me logs_out t guarded q
    signed_out (done, t) false q = q
    signed_out (failed, t) b q = q
    signed_out (needs_code, t) b q = q

-- A password that is sent has eight characters and was entered twice; once it is answered, nobody is
-- signed in here.
pub change_password-sent :
    (answered : Bool) (current next confirm old new : Text) (s : Session)
    → (change_password answered current next confirm s).0 ≡ some (old, new)
    → (old ≡ current)
      × (new ≡ next)
      × (text_eq next confirm ≡ true)
      × (leb 8 (length new) ≡ true)
      × ((change_password answered current next confirm s).1 ≡ (if answered then logout s else s))
unfolding change_password
change_password-sent answered current next confirm old new s h =
    elim (Bool-cases (text_eq next confirm && leb 8 (length next))) [
      | inl good ↦
          let pair : some (current, next) ≡ some (old, new) = rw good at h in
          let same : next ≡ new = ground (arith, pair) in
          let (twice, long) = &&-eq-true (text_eq next confirm) (leb 8 (length next)) good in
          (ground (arith, pair), sym same, twice, rw (sym same) long, rw good refl)
      | inr bad ↦ ground (arith, bad, h)
    ]
