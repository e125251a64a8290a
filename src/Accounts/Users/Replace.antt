-- ===== src/Accounts/Users/Replace.antt =====
-- The update of a user and of the user's roles (agent/users_router.py).
use Prim.Native.String.{String}
use mathlib.Core.List.Memᴰ
use text.Mathlib.Text.{◌==◌}
use wa_graph_rag_backend.Prelude.{
  ◌≡◌, ◌↔◌, ◌⊎◌, false, Bool, Option, some, none, List, Memᴰ, if◌then◌else◌,
}
use wa_graph_rag_backend.Accounts.State.{User, Role, UserRole, Client, Db}
use wa_graph_rag_backend.Accounts.Users.{UserUpdateRequest, patch_user}

module _ (c : Client) where
  -- The client finds a role for one of the names, and the link is the user's to this role.
  abbrev pub Given : c.roles.Store → String → List String → UserRole → Type 0
  Given roles user_id names l =
      (n : String) × (r : Role) × Memᴰ n names
      × (c.roles.select (λ r. r.name == n) roles ≡ some (some r))
      × (l ≡ record { user_id = user_id; role_id = r.id })

  abbrev Linked : String → List String → Db c → Db c → Type 0
  Linked user_id names d e =
      (e.roles ≡ d.roles)
      × (e.users ≡ d.users)
      × ((l : UserRole)
          → c.user_roles.Has e.user_roles l
            ↔ (c.user_roles.Has d.user_roles l ⊎ Given d.roles user_id names l))

  -- The rows of `users` after an update of the fields that the request names.
  abbrev Patched : String → UserUpdateRequest → c.users.Store → c.users.Store → Type 0
  Patched user_id req d e =
      (r : User)
      → c.users.Has e r
        ↔ ((x : User) × c.users.Has d x × (r ≡ (if x.id == user_id then patch_user req x else x)))

  -- The links of `user_roles` after an update: untouched if the request names no roles; otherwise
  -- the user's links are replaced and those of the others stay.
  abbrev pub Relinked : String → Option (List String) → Db c → Db c → Type 0
  Relinked user_id none d e =
      (l : UserRole) → c.user_roles.Has e.user_roles l ↔ c.user_roles.Has d.user_roles l
  Relinked user_id (some names) d e =
      (l : UserRole)
      → c.user_roles.Has e.user_roles l ↔ (
          (c.user_roles.Has d.user_roles l × ((l.user_id == user_id) ≡ false))
          ⊎ Given d.roles user_id names l)
