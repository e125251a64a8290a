-- ===== src/Accounts/Auth.antt =====
-- agent/auth_router.py: registration, login, token refresh, password reset and e-mail
-- verification. Each handler is a function of the request, of `Env` and of the database. FastAPI's
-- check of a request body's `min_length` stands at the head of the handler that it guards.
pub mod Moves
pub mod History
pub mod Refresh
pub mod Sessions
pub mod Passwords
pub mod OneTime
pub mod Emails
pub mod Registration
use Prim.Native.String.{String, count}
use text.Mathlib.Text.{◌==◌}
use wa_graph_rag_backend.Prelude.{
  ℕ, ◌*◌, ltb, is_some, Bool, true, false, not, Option, none, some, List, if◌then◌else◌,
}
use wa_graph_rag_backend.Database.Action.{
  Action, ◌>>=◌, ◌>>◌, http, unprocessable, pure, raise_if, read, or_raise, maybe,
}
use wa_graph_rag_backend.Accounts.State.{User, OneTimeToken, Client, Db, Env}
use wa_graph_rag_backend.Accounts.Tokens.{
  hash_password, verify_password, create_access_token, create_refresh_token, hash_token,
  refresh_token_expiry, make_otp, verification_token_expiry, reset_token_expiry,
}
use wa_graph_rag_backend.Accounts.Calls.{
  names, new_refresh_token, new_one_time_token, update_users, insert_users, insert_user_roles,
  insert_refresh_tokens, revoke_where, insert_password_resets, use_up_password_resets,
  insert_email_verifications, use_up_email_verifications, first_user, first_role,
  first_refresh_token, first_password_reset, first_email_verification,
}
use wa_graph_rag_backend.Accounts.Guards.{get_current_active_user}

pub record RegisterRequest : Type 0 where
  pub email : String
  pub password : String
  pub username : Option String
  pub full_name : Option String

pub record LoginRequest : Type 0 where
  pub email : String
  pub password : String

pub record TokenResponse : Type 0 where
  pub access_token : String
  pub refresh_token : String
  pub token_type : String
  pub expires_in : ℕ

pub record RegisterResponse : Type 0 where
  pub message : String
  pub user_id : String
  pub verification_token : String

-- A message, with a token if the body has one.
pub record Notice : Type 0 where
  pub message : String
  pub token : Option String

-- `Field(..., min_length=8)`
abbrev pub too_short : String → Bool
too_short password = ltb (count password) 8

abbrev pub new_user : RegisterRequest → String → Env → User
new_user req hashed env = record {
  id = env.uuid;
  email = req.email;
  username = req.username;
  full_name = req.full_name;
  hashed_password = hashed;
  is_active = true;
  is_verified = false;
  last_login_at = none;
  created_at = env.created_at;
  avatar_url = none;
}

-- `stored is None`, already used, or past its time: the checks of a one-time token.
unfoldable pub usable :
    {D : Type 0} → Option OneTimeToken → String → String → String → Env → Action D OneTimeToken
usable found unknown spent expired env = do
  stored ← or_raise found (http 400 unknown)
  raise_if stored.used (http 400 spent)
  raise_if (ltb stored.expires_at env.now) (http 400 expired)
  pure stored

module _ (c : Client) where
  unfoldable pub get_user_roles : String → Action (Db c) (List String)
  get_user_roles user_id = do
    rows ← read (λ db. c.embed_roles (λ l. l.user_id == user_id) db.user_roles db.roles)
    pure (names rows)

  unfoldable pub build_token_response : User → Env → Action (Db c) TokenResponse
  build_token_response user env = do
    roles ← get_user_roles user.id
    let access_token = create_access_token c user.id user.email roles env
    let fresh = create_refresh_token c env
    insert_refresh_tokens c (new_refresh_token user.id fresh.1 (refresh_token_expiry c env) env)
    pure (record {
      access_token = access_token;
      refresh_token = fresh.0;
      token_type = "bearer";
      expires_in = c.access_token_expire_minutes * 60;
    })

  unfoldable pub assign_role : String → String → Action (Db c) (Unit {0})
  assign_role user_id name = do
    role ← first_role c (λ r. r.name == name)
    maybe role (pure tt) (λ r. insert_user_roles c (record { user_id = user_id; role_id = r.id }))

  -- The part of `register` after the insert of the user.
  unfoldable pub finish_registration : RegisterRequest → Env → Action (Db c) RegisterResponse
  finish_registration req env = do
    assign_role env.uuid "user"
    let token = make_otp env
    insert_email_verifications c
        (new_one_time_token env.uuid token (verification_token_expiry env) env)
    pure (record {
      message = "Registration successful. Please verify your email.";
      user_id = env.uuid;
      verification_token = token;
    })

  unfoldable pub register : RegisterRequest → Env → Action (Db c) RegisterResponse
  register req env = do
    raise_if (too_short req.password) unprocessable
    existing ← first_user c (λ u. u.email == req.email)
    raise_if (is_some existing) (http 409 "Email already registered")
    hashed ← hash_password c req.password env
    insert_users c (new_user req hashed env)
    finish_registration req env

  unfoldable pub login : LoginRequest → Env → Action (Db c) TokenResponse
  login req env = do
    found ← first_user c (λ u. u.email == req.email)
    user ← or_raise found (http 401 "Invalid email or password")
    raise_if (not (verify_password c req.password user.hashed_password))
        (http 401 "Invalid email or password")
    raise_if (not user.is_active) (http 403 "Account deactivated")
    raise_if (not user.is_verified) (http 403 "Email not verified. Check your inbox.")
    update_users c (λ u. u.id == user.id) (λ u. record u { last_login_at = some env.now })
    build_token_response user env

  unfoldable pub logout : String → String → Env → Action (Db c) String
  logout token auth env = do
    get_current_active_user c auth env
    revoke_where c (λ t. t.token_hash == hash_token c token)
    pure "Logged out successfully"

  unfoldable pub refresh_token : String → Env → Action (Db c) TokenResponse
  refresh_token token env = do
    found ← first_refresh_token c (λ t. t.token_hash == hash_token c token)
    stored ← or_raise found (http 401 "Invalid refresh token")
    raise_if stored.revoked (http 401 "Refresh token revoked")
    raise_if (ltb stored.expires_at env.now) (http 401 "Refresh token expired")
    revoke_where c (λ t. t.id == stored.id)
    owner ← first_user c (λ u. u.id == stored.user_id)
    user ← or_raise owner (http 401 "User not found or deactivated")
    raise_if (not user.is_active) (http 401 "User not found or deactivated")
    build_token_response user env

  unfoldable pub forgot_password : String → Env → Action (Db c) Notice
  forgot_password email env = do
    found ← first_user c (λ u. u.email == email)
    maybe found
        (pure
          (record { message = "If that email exists, a reset link has been sent."; token = none }))
        λ user. do
          insert_password_resets c
              (new_one_time_token user.id (make_otp env) (reset_token_expiry env) env)
          pure (record {
            message = "If that email exists, a reset link has been sent.";
            token = some (make_otp env);
          })

  unfoldable pub reset_password : String → String → Env → Action (Db c) String
  reset_password token new_password env = do
    raise_if (too_short new_password) unprocessable
    found ← first_password_reset c (λ t. t.token == token)
    stored ←
        usable found "Invalid or expired reset token" "Reset token already used"
          "Reset token expired" env
    new_hash ← hash_password c new_password env
    update_users c (λ u. u.id == stored.user_id) (λ u. record u { hashed_password = new_hash })
    use_up_password_resets c (λ t. t.id == stored.id)
    revoke_where c (λ t. t.user_id == stored.user_id)
    pure "Password reset successfully. Please log in again."

  unfoldable pub change_password : String → String → String → Env → Action (Db c) String
  change_password current_password new_password auth env = do
    user ← get_current_active_user c auth env
    raise_if (too_short new_password) unprocessable
    raise_if (not (verify_password c current_password user.user.hashed_password))
        (http 400 "Current password is incorrect")
    new_hash ← hash_password c new_password env
    update_users c (λ u. u.id == user.user.id) (λ u. record u { hashed_password = new_hash })
    revoke_where c (λ t. t.user_id == user.user.id)
    pure "Password changed successfully. Please log in again."

  unfoldable pub verify_email : String → Env → Action (Db c) String
  verify_email token env = do
    found ← first_email_verification c (λ t. t.token == token)
    stored ←
        usable found "Invalid verification token" "Token already used" "Verification token expired"
          env
    update_users c (λ u. u.id == stored.user_id) (λ u. record u { is_verified = true })
    use_up_email_verifications c (λ t. t.id == stored.id)
    pure "Email verified successfully. You can now log in."

  unfoldable pub resend_verification : String → Env → Action (Db c) Notice
  resend_verification email env = do
    found ← first_user c (λ u. u.email == email)
    maybe found
        (pure (record {
          message = "If that email exists and is unverified, a new token has been sent.";
          token = none;
        }))
        λ user.
          if user.is_verified
          then pure (record { message = "Email is already verified."; token = none })
          else (do
            insert_email_verifications c
                (new_one_time_token user.id (make_otp env) (verification_token_expiry env) env)
            pure (record {
              message = "If that email exists and is unverified, a new token has been sent.";
              token = some (make_otp env);
            }))
