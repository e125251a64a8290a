-- ===== src/Accounts/Emails.antt =====
-- E-mail addresses stay unique in `users` through the requests to agent/auth_router.py and to
-- agent/users_router.py, in any order. Of users_router.py these are the endpoints that are for
-- administrators; the others only read, or write the column `avatar_url`, and are left out.
use Prim.Native.String.{String}
use mathlib.Core.Path.{subst}
use text.Mathlib.Text.{◌==◌}
use wa_graph_rag_backend.Prelude.{ℕ, ◌≡◌, refl, Bool, List, [], ◌∷◌}
use wa_graph_rag_backend.Database.Action.{Action, Result, ok, err, ◌>>◌, pure, for_each}
use wa_graph_rag_backend.Database.Action.Rules.{
  Keeps, pure-Keeps, raise-Keeps, raise_if-Keeps, or_raise-Keeps, read-Keeps, put-Keeps, when-Keeps,
  if-Keeps, maybe-Keeps, >>=-Keeps, for_each-Keeps, read_then, answer_then, raise_if_then, put_then,
}
use wa_graph_rag_backend.Accounts.State.{
  User, Role, UserRole, Permission, RolePermission, Client, Db, Env,
}
use wa_graph_rag_backend.Accounts.Tokens.{hash_password}
use wa_graph_rag_backend.Accounts.Calls.{
  update_users, insert_users, delete_users, insert_user_roles, delete_user_roles, first_user,
  first_role,
}
use wa_graph_rag_backend.Accounts.Auth.{get_user_roles, assign_role}
use wa_graph_rag_backend.Accounts.Auth.Moves.{UsersMove}
use wa_graph_rag_backend.Accounts.Auth.Moves.Handlers.{unused_email}
use wa_graph_rag_backend.Accounts.Auth.History.{Request, serve, serve-Moves}
use wa_graph_rag_backend.Accounts.Auth.Emails.{UniqueEmails, UsersMove-HasOnce}
use wa_graph_rag_backend.Accounts.Users.{
  UserCreateRequest, UserUpdateRequest, Created, Listings, admin, patch_user, collect, list_users,
  create_user, replace_roles, update_user, delete_user,
}
use wa_graph_rag_backend.Accounts.Rbac.{
  insert_roles, update_roles, delete_roles, insert_role_permissions, delete_role_permissions,
  insert_permissions, delete_permissions, create_role, replace_permissions, update_role,
  delete_role, create_permission, delete_permission,
}
use wa_graph_rag_backend.Accounts.Rbac.Admin.{AdminRequest, outcome, serve_admin, admin-Same}

-- A request to either router; one for administrators comes with its header `Authorization`.
pub data AnyRequest : Type 0 where
  signed_by : String → AdminRequest → AnyRequest
  of_auth : Request → AnyRequest

module _ (c : Client) where
  -- The database after a request, whatever its answer.
  abbrev pub serve_any : Listings c → AnyRequest → Env → Db c → Db c
  serve_any lists (signed_by auth q) env db = (serve_admin c lists q auth env db).1
  serve_any lists (of_auth q) env db = serve c q env db

  abbrev pub serve_each : Listings c → List (AnyRequest × Env) → Db c → Db c
  serve_each lists [] db = db
  serve_each lists ((q, env) ∷ qs) db = serve_each lists qs (serve_any lists q env db)

  -- The addresses are as unique in the second database as in the first.
  record Unique (d e : Db c) : Type 0 where
    carry : UniqueEmails c d → UniqueEmails c e

  reflexive : (d : Db c) → Unique d d
  reflexive d = record { carry = λ h. h }

  transitive : (d e f : Db c) → Unique d e → Unique e f → Unique d f
  transitive d e f h k = record { carry = λ u. k.carry (h.carry u) }

  ruleset keeps = (
    >>=-Keeps, read-Keeps, pure-Keeps, raise-Keeps, raise_if-Keeps, or_raise-Keeps, if-Keeps,
    maybe-Keeps, when-Keeps, for_each-Keeps, reflexive, transitive,
  )

  admin-Unique : (auth : String) (env : Env) → Keeps Unique (admin c auth env)
  admin-Unique auth env d = record {
    carry = subst (λ e. UniqueEmails c e) (admin-Same c auth env d);
  }

  update_users-Unique :
      (env : Env) (p : User → Bool) (f : User → User)
      → ((r : User) → (f r).id ≡ r.id)
      → ((r : User) → (f r).email ≡ r.email)
      → Keeps Unique (update_users c p f)
  unfolding update_users
  update_users-Unique env p f id email =
      put-Keeps Unique reflexive _ _ (λ d t done. record {
        carry = UsersMove-HasOnce c env (UsersMove.patched p f id email done);
      })

  delete_users-Unique : (p : User → Bool) → Keeps Unique (delete_users c p)
  unfolding delete_users
  delete_users-Unique p = put-Keeps Unique reflexive _ _ (λ d t done. record {
    carry = λ h x y hx hy e.
        h x y ((c.users.delete_rows p _ _ done x).0 hx).0
          ((c.users.delete_rows p _ _ done y).0 hy).0 e;
  })

  -- The calls on the other tables.
  insert_user_roles-Unique : (r : UserRole) → Keeps Unique (insert_user_roles c r)
  unfolding insert_user_roles
  insert_user_roles-Unique r =
      put-Keeps Unique reflexive _ _ (λ d t done. record { carry = λ h. h })

  delete_user_roles-Unique : (p : UserRole → Bool) → Keeps Unique (delete_user_roles c p)
  unfolding delete_user_roles
  delete_user_roles-Unique p =
      put-Keeps Unique reflexive _ _ (λ d t done. record { carry = λ h. h })

  insert_roles-Unique : (r : Role) → Keeps Unique (insert_roles c r)
  unfolding insert_roles
  insert_roles-Unique r = put-Keeps Unique reflexive _ _ (λ d t done. record { carry = λ h. h })

  update_roles-Unique : (p : Role → Bool) (f : Role → Role) → Keeps Unique (update_roles c p f)
  unfolding update_roles
  update_roles-Unique p f = put-Keeps Unique reflexive _ _ (λ d t done. record { carry = λ h. h })

  delete_roles-Unique : (p : Role → Bool) → Keeps Unique (delete_roles c p)
  unfolding delete_roles
  delete_roles-Unique p = put-Keeps Unique reflexive _ _ (λ d t done. record { carry = λ h. h })

  insert_role_permissions-Unique : (r : RolePermission) → Keeps Unique (insert_role_permissions c r)
  unfolding insert_role_permissions
  insert_role_permissions-Unique r =
      put-Keeps Unique reflexive _ _ (λ d t done. record { carry = λ h. h })

  delete_role_permissions-Unique :
      (p : RolePermission → Bool) → Keeps Unique (delete_role_permissions c p)
  unfolding delete_role_permissions
  delete_role_permissions-Unique p =
      put-Keeps Unique reflexive _ _ (λ d t done. record { carry = λ h. h })

  insert_permissions-Unique : (r : Permission) → Keeps Unique (insert_permissions c r)
  unfolding insert_permissions
  insert_permissions-Unique r =
      put-Keeps Unique reflexive _ _ (λ d t done. record { carry = λ h. h })

  delete_permissions-Unique : (p : Permission → Bool) → Keeps Unique (delete_permissions c p)
  unfolding delete_permissions
  delete_permissions-Unique p =
      put-Keeps Unique reflexive _ _ (λ d t done. record { carry = λ h. h })

  first_role-Unique : (p : Role → Bool) → Keeps Unique (first_role c p)
  unfolding first_role
  first_role-Unique p = read-Keeps Unique reflexive _

  ruleset calls = (
    keeps, admin-Unique, delete_users-Unique, insert_user_roles-Unique, delete_user_roles-Unique,
    insert_roles-Unique, update_roles-Unique, delete_roles-Unique, insert_role_permissions-Unique,
    delete_role_permissions-Unique, insert_permissions-Unique, delete_permissions-Unique,
    first_role-Unique,
  )

  assign_role-Unique : (id name : String) → Keeps Unique (assign_role c id name)
  unfolding assign_role
  assign_role-Unique id name = search calls depth 20

  get_user_roles-Unique : (id : String) → Keeps Unique (get_user_roles c id)
  unfolding get_user_roles
  get_user_roles-Unique id = search keeps depth 20

  collect-Unique :
      {A B : Type 0} (xs : List A) (body : A → Action (Db c) B)
      → ((x : A) → Keeps Unique (body x))
      → Keeps Unique (collect xs body)
  unfolding collect
  collect-Unique [] body h = pure-Keeps Unique reflexive []
  collect-Unique (x ∷ xs) body h = >>=-Keeps Unique transitive _ _ (h x) (λ y.
      >>=-Keeps Unique transitive _ _ (collect-Unique xs body h)
        (λ ys. pure-Keeps Unique reflexive _))

  list_users-Unique :
      (lists : Listings c) (limit offset : ℕ) (auth : String) (env : Env)
      → Keeps Unique (list_users c lists limit offset auth env)
  unfolding list_users
  list_users-Unique lists limit offset auth env =
      search (calls, get_user_roles-Unique, collect-Unique) depth 40

  -- The row is added only where the query has found none with its address.
  create_user-Unique :
      (req : UserCreateRequest) (auth : String) (env : Env)
      → Keeps Unique (create_user c req auth env)
  unfolding create_user first_user hash_password insert_users
  create_user-Unique req auth env = >>=-Keeps Unique transitive _ _ (admin-Unique auth env) λ u d.
      record {
        carry = λ h. raise_if_then (UniqueEmails c) _ h _ _ λ _.
            read_then (UniqueEmails c) _ h _ λ found sel.
              raise_if_then (UniqueEmails c) _ h _ _ λ new.
                answer_then (UniqueEmails c) _ h _ λ hashed _.
                  put_then (UniqueEmails c) _ h _ _ λ t ins. (roles_after _).carry (
                    UsersMove-HasOnce c env
                      (UsersMove.added _ (unused_email c env req.email found d sel new) ins) h);
      }
    where
      roles_after : Keeps Unique {A = Created} (
          for_each req.role_names (assign_role c env.uuid)
          >> pure
              (record { id = env.uuid; name = req.email; message = "User created successfully" }))
      roles_after = search (calls, assign_role-Unique) depth 20

  update_user-Unique :
      (id : String) (req : UserUpdateRequest) (auth : String) (env : Env)
      → Keeps Unique (update_user c id req auth env)
  unfolding update_user replace_roles
  update_user-Unique id req auth env =
      let patched =
        update_users-Unique env (λ u. u.id == id) (patch_user req) (λ r. refl) (λ r. refl) in
      search (calls, patched, assign_role-Unique) depth 40

  -- A handler keeps the relation also with its answer left out.
  outcome-Unique :
      {A : Type 0} (m : Action (Db c) A) → Keeps Unique m → (d : Db c) → Unique d (outcome (m d)).1
  outcome-Unique {A} m h d = go (m d) (h d)
    where
      go : (r : Result A × Db c) → Unique d r.1 → Unique d (outcome r).1
      go (ok a, e) k = k
      go (err x, e) k = k

  serve_admin-Unique :
      (lists : Listings c) (q : AdminRequest) (auth : String) (env : Env) (d : Db c)
      → Unique d (serve_admin c lists q auth env d).1
  unfolding serve_admin delete_user create_role update_role delete_role create_permission
      delete_permission replace_permissions
  serve_admin-Unique lists (AdminRequest.get_users limit offset) auth env =
      outcome-Unique _ (list_users-Unique lists limit offset auth env)
  serve_admin-Unique lists (AdminRequest.post_user req) auth env =
      outcome-Unique _ (create_user-Unique req auth env)
  serve_admin-Unique lists (AdminRequest.put_user id req) auth env =
      outcome-Unique _ (update_user-Unique id req auth env)
  serve_admin-Unique lists (AdminRequest.remove_user id) auth env =
      outcome-Unique (delete_user c id auth env) (search calls depth 20)
  serve_admin-Unique lists (AdminRequest.post_role req) auth env =
      outcome-Unique (create_role c req auth env) (search calls depth 20)
  serve_admin-Unique lists (AdminRequest.put_role id req) auth env =
      outcome-Unique (update_role c id req auth env) (search calls depth 30)
  serve_admin-Unique lists (AdminRequest.remove_role id) auth env =
      outcome-Unique (delete_role c id auth env) (search calls depth 20)
  serve_admin-Unique lists (AdminRequest.post_permission req) auth env =
      outcome-Unique (create_permission c req auth env) (search calls depth 20)
  serve_admin-Unique lists (AdminRequest.remove_permission id) auth env =
      outcome-Unique (delete_permission c id auth env) (search calls depth 20)

  -- No sequence of the requests that change accounts, to agent/auth_router.py and, from whomever, to
  -- the guarded endpoints of agent/users_router.py on users, roles and permissions, in any order and
  -- each served to its end or to a crash of the client, puts one e-mail address on two users.
  pub serve_each-UniqueEmails :
      (lists : Listings c) (qs : List (AnyRequest × Env)) (db : Db c)
      → UniqueEmails c db
      → UniqueEmails c (serve_each lists qs db)
  serve_each-UniqueEmails lists [] db h = h
  serve_each-UniqueEmails lists ((signed_by auth q, env) ∷ qs) db h =
      serve_each-UniqueEmails lists qs _ ((serve_admin-Unique lists q auth env db).carry h)
  serve_each-UniqueEmails lists ((of_auth q, env) ∷ qs) db h =
      serve_each-UniqueEmails lists qs (serve c q env db)
        (UsersMove-HasOnce c env (serve-Moves c q env db).users h)
