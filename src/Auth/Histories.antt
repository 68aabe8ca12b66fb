-- ===== src/Auth/Histories.antt =====
-- Histories of requests to the endpoints of sessions and users.
use arka_erp.Base.{ℕ, ◌≡◌, sym, subst, Option, none, some, List, [], ◌∷◌, arith, ◌==◌, not, is_some}
use arka_erp.Base.Texts.{Text, text_eq, is_truthy}
use arka_erp.Base.Tables.{find_by}
use arka_erp.Base.Effect.{
  not_found, ◌>>=◌, ◌>>◌, require, or_throw, after, transaction, >>=_keeps, bad_request,
  unauthorized, Keeps, >>=-Keeps, or_throw-Keeps,
}
use arka_erp.Auth.{Store, Externals, Draw}
use arka_erp.Auth.Users.{
  admin_reset_password, soft_delete, kept_user, find_by_id, set_password_hash, update_user_row,
  gone, revoke_where,
}
use arka_erp.Auth.Service.{
  rotate_refresh, revoke_refresh, revoke_all_for_user, begin_mfa_enrollment, change_own_password,
}
use arka_erp.Auth.Controller.{
  is_valid_login, login, refresh, logout, Call, logs_in, refreshes, logs_out, edits_profile,
  changes_password, enrolls_mfa, activates_mfa, disables_mfa, creates_user, edits_user,
  sets_permissions, resets_password, resets_mfa, deletes_user, handle, run,
}
use arka_erp.Auth.Rotation.{live_in, IsChained, StoreChained, revoke-IsChained}
use arka_erp.Auth.Chains.{
  rotate_refresh-Keeps, create-tokens, update_user-tokens, update_profile-tokens,
  set_user_permissions-tokens, activate_mfa-tokens, disable_mfa-tokens, login-chained,
}

-- The family id that a request may draw, a random UUID, is on no live token yet.
abbrev pub AreFresh : Externals → List (Draw × Call) → Store → Type 0
AreFresh ext [] s = Unit {0}
AreFresh ext ((d, c) ∷ cs) s =
    (live_in d.new_family s.tokens ≡ 0) × AreFresh ext cs (handle ext d c s)

module _ (ext : Externals) (d : Draw) where
  refresh-Keeps : (cookie ua ip : Option Text) → Keeps StoreChained (refresh ext d cookie ua ip)
  unfolding refresh
  refresh-Keeps none ua ip s h = h
  refresh-Keeps (some raw) ua ip s h =
      >>=-Keeps StoreChained (require (is_truthy raw) unauthorized)
        (λ _. rotate_refresh ext d raw ua ip) (λ _ q. q) (λ _. rotate_refresh-Keeps ext d raw ua ip)
        s h

  logout-Keeps : (cookie : Option Text) → Keeps StoreChained (logout ext d cookie)
  unfolding logout revoke_refresh
  logout-Keeps none s h = h
  logout-Keeps (some []) s h = h
  logout-Keeps (some (c ∷ raw)) s h =
      revoke-IsChained d.now (λ t. text_eq t.token_hash (ext.sha256 (c ∷ raw))) s.tokens h

  change_own_password-chained :
      (id : ℕ) (current next : Text) (s : Store)
      → StoreChained s
      → StoreChained (after (change_own_password ext d id current next) s)
  unfolding change_own_password revoke_all_for_user
  change_own_password-chained id current next s h =
      >>=-Keeps StoreChained (or_throw (kept_user (find_by (λ u. u.id) id s.users)) unauthorized)
        (λ user.
          require (ext.verify user.password_hash current) unauthorized
          >> (set_password_hash d id (ext.hash d.salt next) >> revoke_all_for_user d id))
        (or_throw-Keeps StoreChained (kept_user (find_by (λ u. u.id) id s.users)) unauthorized)
        (λ user.
          >>=-Keeps StoreChained (require (ext.verify user.password_hash current) unauthorized)
            (λ _. set_password_hash d id (ext.hash d.salt next) >> revoke_all_for_user d id)
            (λ _ q. q) (λ _ t q. revoke-IsChained d.now (λ t. t.user_id == id) t.tokens q))
        s h

  soft_delete-chained :
      (id by : ℕ) (s : Store) → StoreChained s → StoreChained (after (soft_delete d id by) s)
  unfolding soft_delete
  soft_delete-chained id by s h =
      >>=-Keeps StoreChained (require (not (id == by)) bad_request)
        (λ _. find_by_id id >>= λ target.
          require (is_some target) not_found
          >> transaction (update_user_row id (gone d.now) >> revoke_where d (λ t. t.user_id == id)))
        (λ _ q. q)
        (λ _ t q.
          >>=-Keeps StoreChained
            (require (is_some (kept_user (find_by (λ u. u.id) id t.users))) not_found)
            (λ _.
              transaction
                (update_user_row id (gone d.now) >> revoke_where d (λ t. t.user_id == id)))
            (λ _ q. q) (λ _ u r. revoke-IsChained d.now (λ t. t.user_id == id) u.tokens r) t q)
        s h

  handle-chained :
      (c : Call) (s : Store)
      → live_in d.new_family s.tokens ≡ 0
      → StoreChained s
      → StoreChained (handle ext d c s)
  unfolding handle begin_mfa_enrollment admin_reset_password
  handle-chained (logs_in dto ua ip) s fresh h =
      >>=_keeps StoreChained (require (is_valid_login dto) bad_request) (λ _. login ext d dto ua ip)
        s h
        (λ _ t same q.
          let at : s ≡ t = ground (arith, same) in
          login-chained ext d dto ua ip t (rw at at fresh) q)
  handle-chained (refreshes cookie ua ip) s fresh h = refresh-Keeps cookie ua ip s h
  handle-chained (logs_out cookie) s fresh h = logout-Keeps cookie s h
  handle-chained (edits_profile id name email) s fresh h =
      subst IsChained (sym (update_profile-tokens ext d id name email s)) h
  handle-chained (changes_password id current next) s fresh h =
      change_own_password-chained id current next s h
  handle-chained (enrolls_mfa id) s fresh h = h
  handle-chained (activates_mfa id code) s fresh h =
      subst IsChained (sym (activate_mfa-tokens ext d id code s)) h
  handle-chained (disables_mfa id code) s fresh h =
      subst IsChained (sym (disable_mfa-tokens ext d id code s)) h
  handle-chained (creates_user dto) s fresh h = subst IsChained (sym (create-tokens ext d dto s)) h
  handle-chained (edits_user id name role active) s fresh h =
      subst IsChained (sym (update_user-tokens ext d id name role active s)) h
  handle-chained (sets_permissions id ps) s fresh h =
      subst IsChained (sym (set_user_permissions-tokens ext d id ps s)) h
  handle-chained (resets_password id next) s fresh h =
      revoke-IsChained d.now (λ t. t.user_id == id) s.tokens h
  handle-chained (resets_mfa id) s fresh h = h
  handle-chained (deletes_user id by) s fresh h = soft_delete-chained id by s h

-- From tables where the ids of the refresh tokens are distinct and each family has at most one
-- token that is not revoked, any sequence of requests, each with a new family id at hand, leads to
-- such tables again.
pub run-IsChained :
    (ext : Externals) (cs : List (Draw × Call)) (s : Store)
    → AreFresh ext cs s
    → IsChained s.tokens
    → IsChained (run ext cs s).tokens
unfolding run
run-IsChained ext [] s fresh h = h
run-IsChained ext ((d, c) ∷ cs) s fresh h =
    run-IsChained ext cs (handle ext d c s) fresh.1 (handle-chained ext d c s fresh.0 h)
