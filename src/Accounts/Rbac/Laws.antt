-- ===== src/Accounts/Rbac/Laws.antt =====
-- Roles that are built in stay (agent/users_router.py).
use Prim.Native.String.{String}
use mathlib.Core.Bool.{false≢true}
use text.Mathlib.Text.{◌==◌}
use text.Mathlib.TextEquality.{eq_iff}
use wa_graph_rag_backend.Prelude.{
  ◌≡◌, ◌↔◌, inl, inr, Bool-cases, sym, ap, ◌∙◌, true, false, Option, some, none, [], ◌∷◌,
}
use wa_graph_rag_backend.Database.Action.{ok}
use wa_graph_rag_backend.Database.Action.Rules.{after_read, after_pure, after_raise_if, put-eq-ok}
use wa_graph_rag_backend.Accounts.State.{Role, Client, Db, Env}
use wa_graph_rag_backend.Accounts.Calls.{first_role}
use wa_graph_rag_backend.Accounts.Guards.{elem}
use wa_graph_rag_backend.Accounts.Guards.Laws.{require_roles-IsSignedIn}
use wa_graph_rag_backend.Accounts.Users.{admin}
use wa_graph_rag_backend.Accounts.Rbac.{delete_role, delete_roles, built_in}

module _ (c : Client) where
  -- `roles.id` is the primary key.
  abbrev pub OneRolePerId : Db c → Type 0
  OneRolePerId db =
      (r s : Role) → c.roles.Has db.roles r → c.roles.Has db.roles s → r.id ≡ s.id → r ≡ s

  found_built_in :
      (role_id : String) (db : Db c) (found : Option Role) (r : Role)
      → OneRolePerId db
      → c.roles.select (λ x. x.id == role_id) db.roles ≡ some found
      → c.roles.Has db.roles r
      → (r.id == role_id) ≡ true
      → built_in c found ≡ elem r.name ("admin" ∷ "user" ∷ [])
  found_built_in role_id db none r one sel h e =
      absurd (false≢true (sym (c.roles.select_none _ _ sel r h) ∙ e))
  found_built_in role_id db (some x) r one sel h e =
      let (listed, named) = c.roles.select_some _ _ x sel in
      ap (λ y. elem y.name ("admin" ∷ "user" ∷ []))
        (one x r listed h ((eq_iff _ _).0 named ∙ sym ((eq_iff _ _).0 e)))

  -- If no two roles have the same id, which the table's primary key says, a deletion of a role that
  -- succeeds takes out the rows with the given id and no others, and none of the rows that it takes
  -- out is named "admin" or "user".
  pub delete_role_lem :
      (role_id auth : String) (env : Env) (db db' : Db c) (t : Unit {0})
      → OneRolePerId db
      → delete_role c role_id auth env db ≡ (ok t, db')
      → ((r : Role)
          → c.roles.Has db'.roles r ↔ (c.roles.Has db.roles r × ((r.id == role_id) ≡ false)))
        × ((r : Role)
            → c.roles.Has db.roles r
            → elem r.name ("admin" ∷ "user" ∷ []) ≡ true
            → c.roles.Has db'.roles r)
  unfolding delete_role admin first_role delete_roles
  delete_role_lem role_id auth env db db' t one h =
      let (u, first, h1) =
        after_pure _ _ (λ u e k. (require_roles-IsSignedIn c ("admin" ∷ []) auth env db u e k).2)
          h in
      let (found, sel, h2) = after_read _ _ h1 in
      let (other, h3) = after_raise_if _ _ _ h2 in
      let (roles, done, final) = put-eq-ok _ _ h3 in
      let left = c.roles.delete_rows _ _ _ (done ∙ ap (λ d. some d.roles) final) in
      (
        left,
        λ r hr protected. (left r).1 (
          hr,
          elim (Bool-cases (r.id == role_id)) [
            | inr miss ↦ miss
            | inl hit ↦ absurd (
                false≢true
                  (sym other ∙ found_built_in role_id db found r one sel hr hit ∙ protected))
          ],
        ),
      )
