-- ===== src/Accounts/Calls.antt =====
-- The single calls of the client that the account modules make, and the rows that they insert.
use Prim.Native.String.{String}
use mathlib.Core.Option
use wa_graph_rag_backend.Prelude.{ℕ, Bool, true, false, Option, none, some, List, [], ◌∷◌}
use wa_graph_rag_backend.Database.Action.{Action, read, write}
use wa_graph_rag_backend.Accounts.State.{
  User, Role, UserRole, RefreshToken, OneTimeToken, Client, Db, Env,
}

-- `[r["roles"]["name"] for r in rows if r.get("roles")]`
abbrev pub names : List (Option String) → List String
names [] = []
names (none ∷ xs) = names xs
names (some n ∷ xs) = n ∷ names xs

-- The new rows.
abbrev pub new_refresh_token : String → String → ℕ → Env → RefreshToken
new_refresh_token user_id hash expires env = record {
  id = env.row_id;
  user_id = user_id;
  token_hash = hash;
  expires_at = expires;
  revoked = false;
}

abbrev pub new_one_time_token : String → String → ℕ → Env → OneTimeToken
new_one_time_token user_id token expires env = record {
  id = env.row_id;
  user_id = user_id;
  token = token;
  expires_at = expires;
  used = false;
}

abbrev pub revoke : RefreshToken → RefreshToken
revoke t = record t { revoked = true }

abbrev pub use_up : OneTimeToken → OneTimeToken
use_up t = record t { used = true }

module _ (c : Client) where
  -- The single calls of the client, by table.
  unfoldable pub update_users : (User → Bool) → (User → User) → Action (Db c) (Unit {0})
  update_users p f =
      write (λ db. Option.map (λ t. record db { users = t }) (c.users.update p f db.users))

  unfoldable pub insert_users : User → Action (Db c) (Unit {0})
  insert_users r =
      write (λ db. Option.map (λ t. record db { users = t }) (c.users.insert r db.users))

  unfoldable pub insert_user_roles : UserRole → Action (Db c) (Unit {0})
  insert_user_roles r =
      write
        (λ db. Option.map (λ t. record db { user_roles = t }) (c.user_roles.insert r db.user_roles))

  unfoldable pub insert_refresh_tokens : RefreshToken → Action (Db c) (Unit {0})
  insert_refresh_tokens r = write (λ db.
      Option.map (λ t. record db { refresh_tokens = t })
        (c.refresh_tokens.insert r db.refresh_tokens))

  unfoldable pub revoke_where : (RefreshToken → Bool) → Action (Db c) (Unit {0})
  revoke_where p = write (λ db.
      Option.map (λ t. record db { refresh_tokens = t })
        (c.refresh_tokens.update p revoke db.refresh_tokens))

  unfoldable pub insert_password_resets : OneTimeToken → Action (Db c) (Unit {0})
  insert_password_resets r = write (λ db.
      Option.map (λ t. record db { password_resets = t })
        (c.password_resets.insert r db.password_resets))

  unfoldable pub use_up_password_resets : (OneTimeToken → Bool) → Action (Db c) (Unit {0})
  use_up_password_resets p = write (λ db.
      Option.map (λ t. record db { password_resets = t })
        (c.password_resets.update p use_up db.password_resets))

  unfoldable pub insert_email_verifications : OneTimeToken → Action (Db c) (Unit {0})
  insert_email_verifications r = write (λ db.
      Option.map (λ t. record db { email_verifications = t })
        (c.email_verifications.insert r db.email_verifications))

  unfoldable pub use_up_email_verifications : (OneTimeToken → Bool) → Action (Db c) (Unit {0})
  use_up_email_verifications p = write (λ db.
      Option.map (λ t. record db { email_verifications = t })
        (c.email_verifications.update p use_up db.email_verifications))

  unfoldable pub first_user : (User → Bool) → Action (Db c) (Option User)
  first_user p = read (λ db. c.users.select p db.users)

  unfoldable pub delete_user_roles : (UserRole → Bool) → Action (Db c) (Unit {0})
  delete_user_roles p =
      write
        (λ db. Option.map (λ t. record db { user_roles = t }) (c.user_roles.delete p db.user_roles))

  unfoldable pub delete_users : (User → Bool) → Action (Db c) (Unit {0})
  delete_users p =
      write (λ db. Option.map (λ t. record db { users = t }) (c.users.delete p db.users))

  unfoldable pub first_role : (Role → Bool) → Action (Db c) (Option Role)
  first_role p = read (λ db. c.roles.select p db.roles)

  unfoldable pub first_refresh_token : (RefreshToken → Bool) → Action (Db c) (Option RefreshToken)
  first_refresh_token p = read (λ db. c.refresh_tokens.select p db.refresh_tokens)

  unfoldable pub first_password_reset : (OneTimeToken → Bool) → Action (Db c) (Option OneTimeToken)
  first_password_reset p = read (λ db. c.password_resets.select p db.password_resets)

  unfoldable pub first_email_verification :
      (OneTimeToken → Bool) → Action (Db c) (Option OneTimeToken)
  first_email_verification p = read (λ db. c.email_verifications.select p db.email_verifications)
