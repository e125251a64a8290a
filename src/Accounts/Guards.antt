-- ===== src/Accounts/Guards.antt =====
-- agent/auth_deps.py: who sends a request.
pub mod Laws
use Prim.Native.String.{String, len, slice}
use text.Mathlib.Text.{◌==◌, starts_with}
use wa_graph_rag_backend.Prelude.{
  Bool, false, not, ◌||◌, Option, none, some, List, [], ◌∷◌, if◌then◌else◌,
}
use wa_graph_rag_backend.Prelude.Text.{join, ◌+++◌}
use wa_graph_rag_backend.Database.Action.{
  Action, ◌>>=◌, ◌>>◌, http, pure, raise, raise_if, read, or_raise,
}
use wa_graph_rag_backend.Accounts.State.{
  User, Client, Claims, Decoded, claims, expired, invalid, Db, Env,
}
use wa_graph_rag_backend.Accounts.Tokens.{decode_access_token}

-- A row of `users` with the roles of the access token put in.
pub record CurrentUser : Type 0 where
  pub user : User
  pub roles : List String

abbrev pub elem : String → List String → Bool
elem x [] = false
elem x (y ∷ ys) = y == x || elem x ys

-- `any(r in user_roles for r in roles)`
abbrev pub any_elem : List String → List String → Bool
any_elem [] ys = false
any_elem (x ∷ xs) ys = elem x ys || any_elem xs ys

-- `not user_id`, for a claim that may be missing.
abbrev pub truthy : Option String → Option String
truthy none = none
truthy (some s) = if s == "" then none else some s

abbrev pub roles_or_empty : Option (List String) → List String
roles_or_empty none = []
roles_or_empty (some rs) = rs

-- The argument is the header `Authorization`, or "" where it is missing.
unfoldable pub bearer_token : {D : Type 0} → String → Action D String
bearer_token auth =
    if starts_with auth "Bearer "
    then pure (slice auth 7 (len auth))
    else raise (http 401 "Missing or invalid Authorization header")

abbrev pub accepted : {D : Type 0} → Decoded → Action D Claims
accepted (claims p) = pure p
accepted expired = raise (http 401 "Token expired")
accepted invalid = raise (http 401 "Invalid token")

module _ (c : Client) where
  unfoldable pub get_current_user : String → Env → Action (Db c) CurrentUser
  get_current_user auth env = do
    token ← bearer_token auth
    payload ← accepted (decode_access_token c token env)
    user_id ← or_raise (truthy payload.sub) (http 401 "Invalid token payload")
    found ← read (λ db. c.users.select (λ u. u.id == user_id) db.users)
    user ← or_raise found (http 401 "User not found")
    pure (record { user = user; roles = roles_or_empty payload.roles })

  unfoldable pub get_current_active_user : String → Env → Action (Db c) CurrentUser
  get_current_active_user auth env = do
    user ← get_current_user auth env
    raise_if (not user.user.is_active) (http 403 "Account is deactivated")
    pure user

  unfoldable pub require_roles : List String → String → Env → Action (Db c) CurrentUser
  require_roles roles auth env = do
    user ← get_current_active_user auth env
    raise_if (not (any_elem roles user.roles)) (http 403 ("Required role(s): " +++ join ", " roles))
    pure user
