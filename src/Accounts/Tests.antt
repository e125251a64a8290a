-- ===== src/Accounts/Tests.antt =====
-- Runs of the account handlers on a small database, and the theorems at inputs of such runs.
use Prim.Native.String.{String}
use text.Mathlib.Text.{◌==◌}
use mathlib.Core.Bool.{false≢true}
use mathlib.Core.List.Memᴰ
use text.Mathlib.TextEquality.{eq_iff}
use wa_graph_rag_backend.Prelude.Text.{join}
use wa_graph_rag_backend.Prelude.{
  ◌≤◌, ◌≡◌, ◌≢◌, ◌↔◌, ◌⊎◌, refl, sym, ap, ◌∙◌, Option, true, false, some, none, List, [], ◌∷◌, Memᴰ,
}
use wa_graph_rag_backend.Database.Action.{ok, err, http, running}
use wa_graph_rag_backend.Accounts.State.{User, OneTimeToken, Db, Env}
use wa_graph_rag_backend.Accounts.Tokens.{
  hash_password, verify_password, create_access_token, create_refresh_token, decode_access_token,
  hash_token, make_otp, refresh_token_expiry, verification_token_expiry, reset_token_expiry,
}
use wa_graph_rag_backend.Accounts.Guards.{
  CurrentUser, bearer_token, get_current_user, get_current_active_user, require_roles, any_elem,
}
use wa_graph_rag_backend.Accounts.Guards.Laws.{IsSignedIn, require_roles-IsSignedIn}
use wa_graph_rag_backend.Accounts.Calls.{
  update_users, insert_users, insert_user_roles, insert_refresh_tokens, revoke_where,
  insert_password_resets, use_up_password_resets, insert_email_verifications,
  use_up_email_verifications, first_user, first_role, first_refresh_token, first_password_reset,
  first_email_verification, new_refresh_token,
}
use wa_graph_rag_backend.Accounts.Auth.{
  LoginRequest, RegisterRequest, TokenResponse, RegisterResponse, get_user_roles,
  build_token_response, assign_role, usable, finish_registration, register, login, logout,
  refresh_token, forgot_password, reset_password, change_password, verify_email,
  resend_verification,
}
use wa_graph_rag_backend.Accounts.Auth.History.{
  Request, post_login, serve, serve_all, AllDiffer, NeverDrawn,
}
use wa_graph_rag_backend.Accounts.Auth.Sessions.{
  HasOneId, BelongsTo, refresh_token_once, logout_ends_session,
}
use wa_graph_rag_backend.Accounts.Auth.Passwords.{
  IsPassword, change_password_lem, reset_password_lem, change_password_ends_sessions,
  reset_password_ends_sessions,
}
use wa_graph_rag_backend.Accounts.Auth.OneTime.{
  reset_token_once, verify_email_lem, verify_email_once,
}
use wa_graph_rag_backend.Accounts.Auth.Registration.{login_lem, forgot_password_tells}
use wa_graph_rag_backend.Accounts.Sample.{
  sample, sample_db, sample_env, ann, old_token, reset_row, check_row,
}

serving : Unit {0}
unfolding running hash_password verify_password create_access_token create_refresh_token
    decode_access_token hash_token make_otp refresh_token_expiry verification_token_expiry
    reset_token_expiry bearer_token get_current_user get_current_active_user require_roles
    update_users insert_users insert_user_roles insert_refresh_tokens revoke_where
    insert_password_resets use_up_password_resets insert_email_verifications
    use_up_email_verifications first_user first_role first_refresh_token first_password_reset
    first_email_verification get_user_roles build_token_response assign_role usable
    finish_registration register login logout refresh_token forgot_password reset_password
    change_password verify_email resend_verification serve serve_all
serving = tt

ne_text : (a b : String) → (a == b) ≡ false → a ≢ b
ne_text a b e same = false≢true (sym e ∙ (eq_iff a b).1 same)

same_row :
    {A : Type 0} (r : A) (f : A → String) {x y : A} → Memᴰ x (r ∷ []) → Memᴰ y (r ∷ []) → f x ≡ f y
same_row r f hx hy = ap f (Memᴰ.eq_of_singleton hx) ∙ sym (ap f (Memᴰ.eq_of_singleton hy))

abbrev handed_out : TokenResponse
handed_out = record {
  access_token = "token";
  refresh_token = "new";
  token_type = "bearer";
  expires_in = 3600;
}

abbrev later_env : Env
later_env = record sample_env { raw_refresh = "other"; row_id = "r3"; otp = "otp2" }

abbrev login_req : LoginRequest
login_req = record { email = "ann@x.pk"; password = "password1" }

abbrev later : List (Request × Env)
later = (post_login login_req, later_env) ∷ []

later_differs : AllDiffer sample "old" later
later_differs = (ne_text "other" "old" refl, tt)

later_reset : NeverDrawn sample "reset" later
later_reset = (ne_text "otp2" "reset" refl, tt)

later_check : NeverDrawn sample "check" later
later_check = (ne_text "otp2" "check" refl, tt)

old_is_one : HasOneId sample "old" sample_db
old_is_one x y hx hy ex ey = same_row old_token (λ t. t.id) hx hy

old_is_anns : BelongsTo sample "u1" "old" sample_db
old_is_anns x hx e = ap (λ t. t.user_id) (Memᴰ.eq_of_singleton hx)

abbrev signed_in : CurrentUser
signed_in = record { user = ann; roles = "user" ∷ [] }

refresh_runs : (refresh_token sample "old" sample_env sample_db).0 ≡ ok handed_out
unfolding serving
refresh_runs = refl

refresh_twice_fails :
    (refresh_token sample "old" later_env (refresh_token sample "old" sample_env sample_db).1).0
    ≡ err (http 401 "Refresh token revoked")
unfolding serving
refresh_twice_fails = refl

forged_header :
    (change_password sample "password1" "password2" "token" sample_env sample_db).0
    ≡ err (http 401 "Missing or invalid Authorization header")
unfolding serving
forged_header = refl

refresh_token_once_example :
    (refresh_token sample "old" later_env
      (serve_all sample later (refresh_token sample "old" sample_env sample_db).1)).0
    ≢ ok handed_out
unfolding serving
refresh_token_once_example =
    refresh_token_once sample "old" sample_env sample_db
      (refresh_token sample "old" sample_env sample_db).1 handed_out later later_env handed_out
      old_is_one (ne_text "new" "old" refl) later_differs refl

logout_ends_session_example :
    (refresh_token sample "old" later_env
      (serve_all sample later (logout sample "old" "Bearer token" sample_env sample_db).1)).0
    ≢ ok handed_out
unfolding serving
logout_ends_session_example =
    logout_ends_session sample "old" "Bearer token" sample_env sample_db
      (logout sample "old" "Bearer token" sample_env sample_db).1 "Logged out successfully" later
      later_env handed_out later_differs refl

abbrev changed : Db sample
changed = (change_password sample "password1" "password2" "Bearer token" sample_env sample_db).1

change_password_lem_example :
    (u : CurrentUser) × IsSignedIn sample "Bearer token" sample_env sample_db u
    × (verify_password sample "password1" u.user.hashed_password ≡ true)
    × IsPassword sample u.user.id "password2" sample_db changed
unfolding serving
change_password_lem_example =
    change_password_lem sample "password1" "password2" "Bearer token" sample_env sample_db changed
      "Password changed successfully. Please log in again." refl

change_password_ends_sessions_example :
    (refresh_token sample "old" later_env (serve_all sample later changed)).0 ≢ ok handed_out
unfolding serving
change_password_ends_sessions_example =
    change_password_ends_sessions sample "password1" "password2" "Bearer token" sample_env sample_db
      changed "Password changed successfully. Please log in again." signed_in "old" later later_env
      handed_out refl refl old_is_anns later_differs

abbrev reset : Db sample
reset = (reset_password sample "reset" "password3" sample_env sample_db).1

reset_password_lem_example :
    (stored : OneTimeToken) × Memᴰ stored (reset_row ∷ [])
    × (stored.token ≡ "reset")
    × (stored.used ≡ false)
    × (1000 ≤ stored.expires_at)
    × IsPassword sample stored.user_id "password3" sample_db reset
unfolding serving
reset_password_lem_example =
    reset_password_lem sample "reset" "password3" sample_env sample_db reset
      "Password reset successfully. Please log in again." refl

reset_password_ends_sessions_example :
    (refresh_token sample "old" later_env (serve_all sample later reset)).0 ≢ ok handed_out
unfolding serving
reset_password_ends_sessions_example =
    reset_password_ends_sessions sample "reset" "password3" sample_env sample_db reset
      "Password reset successfully. Please log in again." "u1" "old" later later_env handed_out
      (λ t ht e. ap (λ r. r.user_id) (Memᴰ.eq_of_singleton ht)) refl old_is_anns later_differs

reset_token_once_example :
    (reset_password sample "reset" "password4" later_env (serve_all sample later reset)).0
    ≢ ok "Password reset successfully. Please log in again."
unfolding serving
reset_token_once_example =
    reset_token_once sample "reset" "password3" sample_env sample_db reset
      "Password reset successfully. Please log in again." later "password4" later_env
      "Password reset successfully. Please log in again."
      (λ x y hx hy ex ey. same_row reset_row (λ t. t.id) hx hy) later_reset refl

abbrev verified : Db sample
verified = (verify_email sample "check" sample_env sample_db).1

verify_email_lem_example :
    (stored : OneTimeToken) × Memᴰ stored (check_row ∷ [])
    × (stored.token ≡ "check")
    × (stored.used ≡ false)
    × (1000 ≤ stored.expires_at)
    × ((r : User) → Memᴰ r verified.users → r.id ≡ stored.user_id → r.is_verified ≡ true)
    × ((r : User) → r.id ≢ stored.user_id → Memᴰ r verified.users ↔ Memᴰ r (ann ∷ []))
unfolding serving
verify_email_lem_example =
    verify_email_lem sample "check" sample_env sample_db verified
      "Email verified successfully. You can now log in." refl

verify_email_once_example :
    (verify_email sample "check" later_env (serve_all sample later verified)).0
    ≢ ok "Email verified successfully. You can now log in."
unfolding serving
verify_email_once_example =
    verify_email_once sample "check" sample_env sample_db verified
      "Email verified successfully. You can now log in." later later_env
      "Email verified successfully. You can now log in."
      (λ x y hx hy ex ey. same_row check_row (λ t. t.id) hx hy) later_check refl

login_lem_example :
    (u : User) × Memᴰ u (ann ∷ [])
    × (u.email ≡ "ann@x.pk")
    × (verify_password sample "password1" u.hashed_password ≡ true)
    × (u.is_active ≡ true)
    × (u.is_verified ≡ true)
    × ((r : User)
        → Memᴰ r (login sample login_req sample_env sample_db).1.users
        → r.id ≡ u.id
        → (y : User) × Memᴰ y (ann ∷ []) × (r ≡ record y { last_login_at = some 1000 }))
    × ((r : User)
        → r.id ≢ u.id
        → Memᴰ r (login sample login_req sample_env sample_db).1.users ↔ Memᴰ r (ann ∷ []))
    × Memᴰ
        (new_refresh_token u.id "new" (refresh_token_expiry sample sample_env) sample_env)
        (login sample login_req sample_env sample_db).1.refresh_tokens
unfolding serving
login_lem_example =
    login_lem sample login_req sample_env sample_db (login sample login_req sample_env sample_db).1
      handed_out refl

abbrev bob_req : RegisterRequest
bob_req = record { email = "bob@x.pk"; password = "password9"; username = none; full_name = none }

abbrev bob_answer : RegisterResponse
bob_answer = record {
  message = "Registration successful. Please verify your email.";
  user_id = "u2";
  verification_token = "otp1";
}

abbrev registered : Db sample
registered = (register sample bob_req sample_env sample_db).1

forgot_password_tells_example :
    ((◌≡◌ {A = Option String} (some "otp1") none)
      × ((r : User) → Memᴰ r (ann ∷ []) → r.email ≢ "ann@x.pk"))
    ⊎ ((◌≡◌ {A = Option String} (some "otp1") (some "otp1"))
        × ((u : User) × Memᴰ u (ann ∷ []) × (u.email ≡ "ann@x.pk")))
unfolding serving
forgot_password_tells_example =
    forgot_password_tells sample "ann@x.pk" sample_env sample_db
      (forgot_password sample "ann@x.pk" sample_env sample_db).1
      (record {
        message = "If that email exists, a reset link has been sent.";
        token = some "otp1";
      })
      refl

signed_in_runs :
    require_roles sample ("admin" ∷ "user" ∷ []) "Bearer token" sample_env sample_db
    ≡ (ok signed_in, sample_db)
unfolding serving join
signed_in_runs = refl

require_roles-IsSignedIn_example :
    IsSignedIn sample "Bearer token" sample_env sample_db signed_in
    × (any_elem ("admin" ∷ "user" ∷ []) ("user" ∷ []) ≡ true)
    × (sample_db ≡ sample_db)
require_roles-IsSignedIn_example =
    require_roles-IsSignedIn sample ("admin" ∷ "user" ∷ []) "Bearer token" sample_env sample_db
      signed_in sample_db signed_in_runs
