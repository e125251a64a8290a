-- ===== src/Accounts/Rbac/Admin.antt =====
-- Who may change users, roles and permissions (agent/users_router.py).
use Prim.Native.String.{String}
use wa_graph_rag_backend.Prelude.{
  ℕ, ◌≡◌, ◌⊎◌, inl, inr, refl, sym, ap, ◌∙◌, true, Option, some, none, [], ◌∷◌,
}
use wa_graph_rag_backend.Database.Action.{Fault, Result, ok, err, Action, ◌>>=◌, resume}
use wa_graph_rag_backend.Database.Action.Rules.{
  Keeps, pure-Keeps, raise-Keeps, raise_if-Keeps, or_raise-Keeps, read-Keeps, >>=-Keeps, if-Keeps,
}
use wa_graph_rag_backend.Accounts.State.{Claims, Decoded, claims, expired, invalid, Client, Db, Env}
use wa_graph_rag_backend.Accounts.Guards.{
  CurrentUser, any_elem, accepted, bearer_token, get_current_user, get_current_active_user,
  require_roles,
}
use wa_graph_rag_backend.Accounts.Guards.Laws.{IsSignedIn, require_roles-IsSignedIn}
use wa_graph_rag_backend.Accounts.Users.{
  UserCreateRequest, UserUpdateRequest, Listings, admin, list_users, create_user, update_user,
  delete_user,
}
use wa_graph_rag_backend.Accounts.Rbac.{
  RoleCreateRequest, RoleUpdateRequest, PermissionCreateRequest, create_role, update_role,
  delete_role, create_permission, delete_permission,
}

-- The requests that the sources guard by `Depends(_admin)`.
pub data AdminRequest : Type 0 where
  get_users : ℕ → ℕ → AdminRequest
  post_user : UserCreateRequest → AdminRequest
  put_user : String → UserUpdateRequest → AdminRequest
  remove_user : String → AdminRequest
  post_role : RoleCreateRequest → AdminRequest
  put_role : String → RoleUpdateRequest → AdminRequest
  remove_role : String → AdminRequest
  post_permission : PermissionCreateRequest → AdminRequest
  remove_permission : String → AdminRequest

-- The fault that a request ends with, if it does, and the database that it leaves.
abbrev pub outcome : {A D : Type 0} → Result A × D → Option Fault × D
outcome (ok a, d) = (none, d)
outcome (err x, d) = (some x, d)

module _ (c : Client) where
  -- The handler of a request, its answer left out.
  unfoldable pub serve_admin : Listings c → AdminRequest → String → Env → Db c → Option Fault × Db c
  serve_admin lists (AdminRequest.get_users limit offset) auth env db =
      outcome (list_users c lists limit offset auth env db)
  serve_admin lists (AdminRequest.post_user req) auth env db =
      outcome (create_user c req auth env db)
  serve_admin lists (AdminRequest.put_user id req) auth env db =
      outcome (update_user c id req auth env db)
  serve_admin lists (AdminRequest.remove_user id) auth env db =
      outcome (delete_user c id auth env db)
  serve_admin lists (AdminRequest.post_role req) auth env db =
      outcome (create_role c req auth env db)
  serve_admin lists (AdminRequest.put_role id req) auth env db =
      outcome (update_role c id req auth env db)
  serve_admin lists (AdminRequest.remove_role id) auth env db =
      outcome (delete_role c id auth env db)
  serve_admin lists (AdminRequest.post_permission req) auth env db =
      outcome (create_permission c req auth env db)
  serve_admin lists (AdminRequest.remove_permission id) auth env db =
      outcome (delete_permission c id auth env db)

  abbrev Same : Db c → Db c → Type 0
  Same d e = d ≡ e

  Same-refl : (d : Db c) → Same d d
  Same-refl d = refl

  then-Same :
      {A B : Type 0} (m : Action (Db c) A) (f : A → Action (Db c) B)
      → Keeps Same m
      → ((a : A) → Keeps Same (f a))
      → Keeps Same (m >>= f)
  then-Same m f h k = >>=-Keeps Same (λ d e g a b. a ∙ b) m f h k

  ruleset reads = (
    pure-Keeps, raise-Keeps, raise_if-Keeps, or_raise-Keeps, read-Keeps, if-Keeps, Same-refl,
    then-Same,
  )

  bearer_token-Same : (auth : String) → Keeps Same (bearer_token auth)
  unfolding bearer_token
  bearer_token-Same auth = search reads depth 20

  accepted-Same : (r : Decoded) → Keeps Same (accepted r)
  accepted-Same (claims p) = pure-Keeps Same Same-refl p
  accepted-Same expired = raise-Keeps Same Same-refl Claims _
  accepted-Same invalid = raise-Keeps Same Same-refl Claims _

  pub admin-Same : (auth : String) (env : Env) → Keeps Same (admin c auth env)
  unfolding admin require_roles get_current_active_user get_current_user
  admin-Same auth env = search (reads, bearer_token-Same, accepted-Same) depth 30

  -- The sender is signed in as `u`, with the role "admin" in the access token.
  abbrev pub IsAdmin : String → Env → Db c → CurrentUser → Type 0
  IsAdmin auth env db u = IsSignedIn c auth env db u × (any_elem ("admin" ∷ []) u.roles ≡ true)

  abbrev Guarded : String → Env → Db c → Option Fault × Db c → Type 0
  Guarded auth env db r =
      ((u : CurrentUser) × IsAdmin auth env db u) ⊎ ((x : Fault) × (r ≡ (some x, db)))

  guard :
      {A : Type 0} (auth : String) (env : Env) (db : Db c) (f : CurrentUser → Action (Db c) A)
      → Guarded auth env db (outcome ((admin c auth env >>= f) db))
  unfolding ◌>>=◌ admin
  guard {A} auth env db f = go (admin c auth env db) refl
    where
      go :
          (r : Result CurrentUser × Db c)
          → admin c auth env db ≡ r
          → Guarded auth env db (outcome (resume r f))
      go (ok u, d) e =
          let (signed, role, same) = require_roles-IsSignedIn c ("admin" ∷ []) auth env db u d e in
          inl (u, (signed, role))
      go (err x, d) e =
          let same : d ≡ db = ap (λ r. r.1) (sym e) ∙ sym (admin-Same auth env db) in
          inr (x, ap (λ d. (some x, d)) same)

  -- Unless the sender is signed in and the access token names the role "admin", a request that is
  -- for administrators fails and leaves the whole database as it was.
  pub serve_admin_guarded :
      (lists : Listings c) (q : AdminRequest) (auth : String) (env : Env) (db : Db c)
      → ((u : CurrentUser) × IsAdmin auth env db u)
        ⊎ ((x : Fault) × (serve_admin lists q auth env db ≡ (some x, db)))
  unfolding serve_admin list_users create_user update_user delete_user create_role update_role
      delete_role create_permission delete_permission
  serve_admin_guarded lists (AdminRequest.get_users limit offset) auth env db = guard auth env db _
  serve_admin_guarded lists (AdminRequest.post_user req) auth env db = guard auth env db _
  serve_admin_guarded lists (AdminRequest.put_user id req) auth env db = guard auth env db _
  serve_admin_guarded lists (AdminRequest.remove_user id) auth env db = guard auth env db _
  serve_admin_guarded lists (AdminRequest.post_role req) auth env db = guard auth env db _
  serve_admin_guarded lists (AdminRequest.put_role id req) auth env db = guard auth env db _
  serve_admin_guarded lists (AdminRequest.remove_role id) auth env db = guard auth env db _
  serve_admin_guarded lists (AdminRequest.post_permission req) auth env db = guard auth env db _
  serve_admin_guarded lists (AdminRequest.remove_permission id) auth env db = guard auth env db _
