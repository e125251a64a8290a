-- ===== src/Accounts/Rbac.antt =====
-- agent/users_router.py, the part on roles and permissions.
pub mod Admin
pub mod Laws
mod Tests
use Prim.Native.String.{String, count}
use mathlib.Core.Option
use text.Mathlib.Text.{◌==◌}
use wa_graph_rag_backend.Prelude.{
  ℕ, ◌+◌, ltb, is_some, Bool, true, false, not, ◌&&◌, ◌||◌, Option, none, some, List, [], ◌∷◌,
  length, if◌then◌else◌, ◌≡◌, ◌↔◌, Memᴰ,
}
use wa_graph_rag_backend.Prelude.Int.{ℤ, pos, ◌-ℤ◌}
use wa_graph_rag_backend.Prelude.Text.{◌+++◌}
use wa_graph_rag_backend.Database.Action.{
  Action, ◌>>=◌, ◌>>◌, http, unprocessable, pure, raise_if, read, write, or_raise, maybe, when,
  for_each,
}
use wa_graph_rag_backend.Accounts.State.{
  User, Role, UserRole, Permission, RolePermission, Client, Db, Env,
}
use wa_graph_rag_backend.Accounts.Tokens.{hash_password}
use wa_graph_rag_backend.Accounts.Calls.{
  update_users, insert_users, delete_users, delete_user_roles, first_user, first_role,
}
use wa_graph_rag_backend.Accounts.Guards.{CurrentUser, elem, get_current_active_user, require_roles}
use wa_graph_rag_backend.Accounts.Auth.{too_short, get_user_roles, assign_role}
use wa_graph_rag_backend.Accounts.Users.{admin, Created, Listings, collect}

pub record RoleCreateRequest : Type 0 where
  pub name : String
  pub description : Option String

pub record RoleUpdateRequest : Type 0 where
  pub description : Option String
  pub permission_ids : Option (List String)

pub record PermissionCreateRequest : Type 0 where
  pub name : String
  pub description : Option String
  pub resource : Option String
  pub action : Option String

-- A row of `roles` with its permissions put in.
pub record RoleView : Type 0 where
  pub role : Role
  pub permissions : List Permission

-- `[r["permissions"] for r in rows if r.get("permissions")]`
abbrev pub present : {A : Type 0} → List (Option A) → List A
present [] = []
present (none ∷ xs) = present xs
present (some a ∷ xs) = a ∷ present xs

-- `Field(..., min_length=2)`
abbrev pub too_short_name : String → Bool
too_short_name name = ltb (count name) 2

module _ (c : Client) where
  -- The calls of the client on `roles`, `permissions` and `role_permissions`.
  unfoldable pub insert_roles : Role → Action (Db c) (Unit {0})
  insert_roles r =
      write (λ db. Option.map (λ t. record db { roles = t }) (c.roles.insert r db.roles))

  unfoldable pub update_roles : (Role → Bool) → (Role → Role) → Action (Db c) (Unit {0})
  update_roles p f =
      write (λ db. Option.map (λ t. record db { roles = t }) (c.roles.update p f db.roles))

  unfoldable pub delete_roles : (Role → Bool) → Action (Db c) (Unit {0})
  delete_roles p =
      write (λ db. Option.map (λ t. record db { roles = t }) (c.roles.delete p db.roles))

  unfoldable pub insert_role_permissions : RolePermission → Action (Db c) (Unit {0})
  insert_role_permissions r = write (λ db.
      Option.map (λ t. record db { role_permissions = t })
        (c.role_permissions.insert r db.role_permissions))

  unfoldable pub delete_role_permissions : (RolePermission → Bool) → Action (Db c) (Unit {0})
  delete_role_permissions p = write (λ db.
      Option.map (λ t. record db { role_permissions = t })
        (c.role_permissions.delete p db.role_permissions))

  unfoldable pub insert_permissions : Permission → Action (Db c) (Unit {0})
  insert_permissions r = write (λ db.
      Option.map (λ t. record db { permissions = t }) (c.permissions.insert r db.permissions))

  unfoldable pub delete_permissions : (Permission → Bool) → Action (Db c) (Unit {0})
  delete_permissions p = write (λ db.
      Option.map (λ t. record db { permissions = t }) (c.permissions.delete p db.permissions))

  unfoldable pub list_roles : Listings c → String → Env → Action (Db c) (List RoleView)
  list_roles lists auth env = do
    get_current_active_user c auth env
    roles ← read (λ db. lists.roles_by_name db.roles)
    collect roles λ role. do
      rows ← read (λ db.
          lists.embed_permissions (λ l. l.role_id == role.id) db.role_permissions db.permissions)
      pure (record { role = role; permissions = present rows })

  unfoldable pub create_role : RoleCreateRequest → String → Env → Action (Db c) Created
  create_role req auth env = do
    admin c auth env
    raise_if (too_short_name req.name) unprocessable
    existing ← first_role c (λ r. r.name == req.name)
    raise_if (is_some existing) (http 409 ("Role '" +++ req.name +++ "' already exists"))
    insert_roles (record { id = env.uuid; name = req.name; description = req.description })
    pure (record { id = env.uuid; name = req.name; message = "Role created" })

  unfoldable pub replace_permissions : String → List String → Action (Db c) (Unit {0})
  replace_permissions role_id ids = do
    delete_role_permissions (λ l. l.role_id == role_id)
    for_each ids (λ id. insert_role_permissions (record { role_id = role_id; permission_id = id }))

  unfoldable pub update_role : String → RoleUpdateRequest → String → Env → Action (Db c) String
  update_role role_id req auth env = do
    admin c auth env
    maybe req.description (pure tt)
        (λ text. update_roles (λ r. r.id == role_id) (λ r. record r { description = some text }))
    maybe req.permission_ids (pure tt) (replace_permissions role_id)
    pure "Role updated"

  -- `result.data and result.data[0]["name"] in ("admin", "user")`
  abbrev pub built_in : Option Role → Bool
  built_in none = false
  built_in (some r) = elem r.name ("admin" ∷ "user" ∷ [])

  unfoldable pub delete_role : String → String → Env → Action (Db c) (Unit {0})
  delete_role role_id auth env = do
    admin c auth env
    found ← first_role c (λ r. r.id == role_id)
    raise_if (built_in found) (http 400 "Cannot delete a built-in role")
    delete_roles (λ r. r.id == role_id)

  unfoldable pub list_permissions : Listings c → String → Env → Action (Db c) (List Permission)
  list_permissions lists auth env = do
    get_current_active_user c auth env
    read (λ db. lists.permissions_by_name db.permissions)

  unfoldable pub create_permission : PermissionCreateRequest → String → Env → Action (Db c) Created
  create_permission req auth env = do
    admin c auth env
    raise_if (too_short_name req.name) unprocessable
    existing ← read (λ db. c.permissions.select (λ p. p.name == req.name) db.permissions)
    raise_if (is_some existing) (http 409 ("Permission '" +++ req.name +++ "' already exists"))
    insert_permissions (record {
      id = env.uuid;
      name = req.name;
      description = req.description;
      resource = req.resource;
      action = req.action;
    })
    pure (record { id = env.uuid; name = req.name; message = "Permission created" })

  unfoldable pub delete_permission : String → String → Env → Action (Db c) (Unit {0})
  delete_permission permission_id auth env = do
    admin c auth env
    delete_permissions (λ p. p.id == permission_id)
