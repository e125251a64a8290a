-- ===== src/Accounts/Guards/Laws.antt =====
-- What agent/auth_deps.py has established when it lets a request through.
use Prim.Native.String.{String, len, slice}
use text.Mathlib.Text.{starts_with}
use text.Mathlib.TextEquality.{eq_iff}
use mathlib.Core.Path.{subst}
use wa_graph_rag_backend.Prelude.{
  ◌≡◌, refl, sym, ap, ◌∙◌, Bool, true, false, not, Option, none, some, List, arith,
}
use wa_graph_rag_backend.Database.Action.{Action, ◌>>=◌, pure, raise, ok}
use wa_graph_rag_backend.Database.Action.Rules.{
  pure-eq-ok, after_read, after_pure, after_or_raise, after_raise_if,
}
use wa_graph_rag_backend.Accounts.State.{Claims, Decoded, claims, expired, invalid, Client, Db, Env}
use wa_graph_rag_backend.Accounts.Tokens.{decode_access_token}
use wa_graph_rag_backend.Accounts.Guards.{
  CurrentUser, any_elem, truthy, roles_or_empty, bearer_token, accepted, get_current_user,
  get_current_active_user, require_roles,
}

pub not-eq-false : {b : Bool} → not b ≡ false → b ≡ true
not-eq-false {b} h = ground arith

pub pair_eta : {A B : Type 0} {p : A × B} {a : A} → p.0 ≡ a → p ≡ (a, p.1)
pair_eta {p} e = λ i. (e i, p.1)

truthy-eq-some : (o : Option String) {s : String} → truthy o ≡ some s → o ≡ some s
truthy-eq-some none h = cc
truthy-eq-some (some t) h = ground arith

module _ {D : Type 0} where
  after_bearer_token :
      {B : Type 0} (auth : String) (f : String → Action D B) {d d' : D} {b : B}
      → (bearer_token auth >>= f) d ≡ (ok b, d')
      → (starts_with auth "Bearer " ≡ true) × (f (slice auth 7 (len auth)) d ≡ (ok b, d'))
  unfolding bearer_token ◌>>=◌ pure raise
  after_bearer_token auth f h = ground arith

  after_accepted :
      {B : Type 0} (r : Decoded) (f : Claims → Action D B) {d d' : D} {b : B}
      → (accepted r >>= f) d ≡ (ok b, d')
      → (p : Claims) × (r ≡ claims p) × (f p d ≡ (ok b, d'))
  unfolding ◌>>=◌ pure raise
  after_accepted (claims p) f h = (p, refl, h)
  after_accepted expired f h = cc
  after_accepted invalid f h = cc

module _ (c : Client) where
  -- The request carries a valid token of the user, who is stored as given and active, and whose
  -- roles are those of the token.
  pub record IsSignedIn (auth : String) (env : Env) (db : Db c) (u : CurrentUser) : Type 0 where
    pub payload : Claims
    pub bearer : starts_with auth "Bearer " ≡ true
    pub decoded : c.jwt_decode env.now (slice auth 7 (len auth)) ≡ claims payload
    pub subject : payload.sub ≡ some u.user.id
    pub stored : c.users.Has db.users u.user
    pub active : u.user.is_active ≡ true
    pub roles : u.roles ≡ roles_or_empty payload.roles

  pub get_current_user-eq-ok :
      (auth : String) (env : Env) (db : Db c) (u : CurrentUser) (db' : Db c)
      → get_current_user c auth env db ≡ (ok u, db')
      → (p : Claims) × (starts_with auth "Bearer " ≡ true)
        × (c.jwt_decode env.now (slice auth 7 (len auth)) ≡ claims p)
        × (p.sub ≡ some u.user.id)
        × c.users.Has db.users u.user
        × (u.roles ≡ roles_or_empty p.roles)
        × (db ≡ db')
  unfolding get_current_user decode_access_token
  get_current_user-eq-ok auth env db u db' h =
      let (bearer, h1) = after_bearer_token auth _ h in
      let (p, decoded, h2) = after_accepted _ _ h1 in
      let (id, is_id, h3) = after_or_raise _ _ _ h2 in
      let (found, sel, h4) = after_read _ _ h3 in
      let (row, is_row, h5) = after_or_raise _ _ _ h4 in
      let (is_user, same) = pure-eq-ok h5 in
      let (stored, named) = c.users.select_some _ _ row (sel ∙ ap some is_row) in
      let this : row ≡ u.user = ap (λ v. v.user) is_user in
      (
        p,
        bearer,
        decoded,
        truthy-eq-some _ is_id ∙ ap some (sym ((eq_iff _ _).0 named) ∙ ap (λ v. v.id) this),
        subst (c.users.Has db.users) this stored,
        sym (ap (λ v. v.roles) is_user),
        same,
      )

  pub get_current_active_user-IsSignedIn :
      (auth : String) (env : Env) (db : Db c) (u : CurrentUser) (db' : Db c)
      → get_current_active_user c auth env db ≡ (ok u, db')
      → IsSignedIn auth env db u × (db ≡ db')
  unfolding get_current_active_user
  get_current_active_user-IsSignedIn auth env db u db' h =
      let (v, first, h1) =
        after_pure _ _ (λ v e e1. (get_current_user-eq-ok auth env db v e e1).6) h in
      let (active, h2) = after_raise_if _ _ _ h1 in
      let (is_user, same) = pure-eq-ok h2 in
      let (p, bearer, decoded, subject, stored, roles, _) =
        get_current_user-eq-ok auth env db u db
          (subst (λ x. get_current_user c auth env db ≡ (ok x, db)) is_user first) in
      (
        record {
          payload = p;
          bearer = bearer;
          decoded = decoded;
          subject = subject;
          stored = stored;
          active = ap (λ x. x.user.is_active) (sym is_user) ∙ not-eq-false active;
          roles = roles;
        },
        same,
      )

  pub get_current_active_user_state :
      (auth : String) (env : Env) (db : Db c) (u : CurrentUser) (db' : Db c)
      → get_current_active_user c auth env db ≡ (ok u, db')
      → db ≡ db'
  get_current_active_user_state auth env db u db' h =
      (get_current_active_user-IsSignedIn auth env db u db' h).1

  -- `require_roles` lets a request through only if its sender is signed in and the access token
  -- names one of the required roles.
  pub require_roles-IsSignedIn :
      (required : List String) (auth : String) (env : Env) (db : Db c) (u : CurrentUser)
      (db' : Db c)
      → require_roles c required auth env db ≡ (ok u, db')
      → IsSignedIn auth env db u × (any_elem required u.roles ≡ true) × (db ≡ db')
  unfolding require_roles
  require_roles-IsSignedIn required auth env db u db' h =
      let (v, first, h1) = after_pure _ _ (get_current_active_user_state auth env db) h in
      let (allowed, h2) = after_raise_if _ _ _ h1 in
      let (is_user, same) = pure-eq-ok h2 in
      (
        (get_current_active_user-IsSignedIn auth env db u db
            (subst (λ x. get_current_active_user c auth env db ≡ (ok x, db)) is_user first)).0,
        ap (λ x. any_elem required x.roles) (sym is_user) ∙ not-eq-false allowed,
        same,
      )
