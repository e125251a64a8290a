-- ===== src/Accounts/Users.antt =====
-- agent/users_router.py: users, roles and permissions. Each handler is a function of the request, of
-- the header `Authorization`, of `Env` and of the database; FastAPI resolves the dependency that
-- checks the sender before it checks the body.
pub mod Replace
use Prim.Native.String.{String, count}
use mathlib.Core.Option
use text.Mathlib.Text.{◌==◌}
use wa_graph_rag_backend.Prelude.{
  ℕ, ◌+◌, ltb, is_some, Bool, true, false, not, ◌&&◌, ◌||◌, Option, none, some, List, [], ◌∷◌,
  length, if◌then◌else◌, ◌≡◌, ◌↔◌, Memᴰ,
}
use wa_graph_rag_backend.Prelude.Int.{ℤ, pos, ◌-ℤ◌}
use wa_graph_rag_backend.Prelude.Text.{◌+++◌}
use wa_graph_rag_backend.Database.Action.{
  Action, ◌>>=◌, ◌>>◌, http, unprocessable, pure, raise_if, read, write, or_raise, maybe, when,
  for_each,
}
use wa_graph_rag_backend.Accounts.State.{
  User, Role, UserRole, Permission, RolePermission, Client, Db, Env,
}
use wa_graph_rag_backend.Accounts.Tokens.{hash_password}
use wa_graph_rag_backend.Accounts.Calls.{
  update_users, insert_users, delete_users, delete_user_roles, first_user, first_role,
}
use wa_graph_rag_backend.Accounts.Guards.{CurrentUser, elem, get_current_active_user, require_roles}
use wa_graph_rag_backend.Accounts.Auth.{too_short, get_user_roles, assign_role}

pub record UserCreateRequest : Type 0 where
  pub email : String
  pub password : String
  pub username : Option String
  pub full_name : Option String
  pub is_active : Bool
  pub is_verified : Bool
  pub role_names : List String

pub record UserUpdateRequest : Type 0 where
  pub full_name : Option String
  pub username : Option String
  pub is_active : Option Bool
  pub role_names : Option (List String)

-- A row of `users` with the names of its roles put in.
pub record UserView : Type 0 where
  pub user : User
  pub roles : List String

-- `{"users": …, "total": …, "limit": …, "offset": …}`
pub record UserPage : Type 0 where
  pub users : List UserView
  pub total : ℕ
  pub limit : ℕ
  pub offset : ℕ

-- The identifier, the name or e-mail address, and the message of a creation.
pub record Created : Type 0 where
  pub id : String
  pub name : String
  pub message : String

-- The ordered queries of the client: a page of `users` by descending time of creation, `roles` and
-- `permissions` by name, and PostgREST's embedding of the permissions in `role_permissions`.
pub record Listings (c : Client) : Type 0 where
  pub page_users : ℕ → ℤ → c.users.Store → Option (List User)
  pub page_users_rows :
      (first : ℕ) (last : ℤ) (s : c.users.Store) (rs : List User)
      → page_users first last s ≡ some rs
      → (r : User) → Memᴰ r rs
      → c.users.Has s r
  pub roles_by_name : c.roles.Store → Option (List Role)
  pub permissions_by_name : c.permissions.Store → Option (List Permission)
  pub embed_permissions :
      (RolePermission → Bool)
      → c.role_permissions.Store
      → c.permissions.Store
      → Option (List (Option Permission))

abbrev pub created_user : UserCreateRequest → String → Env → User
created_user req hashed env = record {
  id = env.uuid;
  email = req.email;
  username = req.username;
  full_name = req.full_name;
  hashed_password = hashed;
  is_active = req.is_active;
  is_verified = req.is_verified;
  last_login_at = none;
  created_at = env.created_at;
  avatar_url = none;
}

-- A column with the value of `updates`, if that has one.
abbrev pub updated : {A : Type 0} → Option A → A → A
updated none old = old
updated (some a) old = a

abbrev pub kept_or : {A : Type 0} → Option A → Option A → Option A
kept_or none old = old
kept_or (some a) old = some a

abbrev pub patch_user : UserUpdateRequest → User → User
patch_user req u = record u {
  full_name = kept_or req.full_name u.full_name;
  username = kept_or req.username u.username;
  is_active = updated req.is_active u.is_active;
}

-- `[body(x) for x in xs]`
unfoldable pub collect : {D A B : Type 0} → List A → (A → Action D B) → Action D (List B)
collect [] body = pure []
collect (x ∷ xs) body = do y ← body x; ys ← collect xs body; pure (y ∷ ys)

module _ (c : Client) where
  unfoldable pub admin : String → Env → Action (Db c) CurrentUser
  admin auth env = require_roles c ("admin" ∷ []) auth env

  unfoldable pub list_users : Listings c → ℕ → ℕ → String → Env → Action (Db c) UserPage
  list_users lists limit offset auth env = do
    admin auth env
    users ← read (λ db. lists.page_users offset (pos (offset + limit) -ℤ pos 1) db.users)
    views ←
        collect users
          λ user. do roles ← get_user_roles c user.id; pure (record { user = user; roles = roles })
    pure (record { users = views; total = length users; limit = limit; offset = offset })

  unfoldable pub create_user : UserCreateRequest → String → Env → Action (Db c) Created
  create_user req auth env = do
    admin auth env
    raise_if (too_short req.password) unprocessable
    existing ← first_user c (λ u. u.email == req.email)
    raise_if (is_some existing) (http 409 "Email already registered")
    hashed ← hash_password c req.password env
    insert_users c (created_user req hashed env)
    for_each req.role_names (assign_role c env.uuid)
    pure (record { id = env.uuid; name = req.email; message = "User created successfully" })

  unfoldable pub get_user : String → String → Env → Action (Db c) UserView
  get_user user_id auth env = do
    current ← get_current_active_user c auth env
    raise_if (not (current.user.id == user_id) && not (elem "admin" current.roles))
        (http 403 "Access denied")
    found ← first_user c (λ u. u.id == user_id)
    user ← or_raise found (http 404 "User not found")
    roles ← get_user_roles c user_id
    pure (record { user = user; roles = roles })

  -- "Replace roles"
  unfoldable pub replace_roles : String → List String → Action (Db c) (Unit {0})
  replace_roles user_id names = do
    delete_user_roles c (λ l. l.user_id == user_id)
    for_each names (assign_role c user_id)

  unfoldable pub update_user : String → UserUpdateRequest → String → Env → Action (Db c) String
  update_user user_id req auth env = do
    admin auth env
    when (is_some req.full_name || is_some req.username || is_some req.is_active)
        (update_users c (λ u. u.id == user_id) (patch_user req))
    maybe req.role_names (pure tt) (replace_roles user_id)
    pure "User updated successfully"

  unfoldable pub delete_user : String → String → Env → Action (Db c) (Unit {0})
  delete_user user_id auth env = do admin auth env; delete_users c (λ u. u.id == user_id)
