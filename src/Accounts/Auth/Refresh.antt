-- ===== src/Accounts/Auth/Refresh.antt =====
-- Refresh tokens of agent/auth_router.py: a token works once, and not after a logout, a password
-- reset or a password change.
use Prim.Native.String.{String}
use text.Mathlib.Text.{◌==◌}
use text.Mathlib.TextEquality.{eq_iff}
use mathlib.Core.Bool.{false≢true}
use wa_graph_rag_backend.Prelude.{◌≡◌, sym, ap, ◌∙◌, true, false, List, some, ltb}
use wa_graph_rag_backend.Database.Action.{ok}
use wa_graph_rag_backend.Database.Action.Rules.{
  pure-eq-ok, after_read, after_pure, after_or_raise, after_raise_if, after_put,
}
use wa_graph_rag_backend.Accounts.State.{User, RefreshToken, Client, Db, Env}
use wa_graph_rag_backend.Accounts.Tokens.{hash_token, refresh_token_expiry, create_refresh_token}
use wa_graph_rag_backend.Accounts.Guards.Laws.{not-eq-false, pair_eta}
use wa_graph_rag_backend.Accounts.Calls.{
  revoke, first_refresh_token, revoke_where, new_refresh_token, first_user, insert_refresh_tokens,
}
use wa_graph_rag_backend.Accounts.Auth.{
  TokenResponse, refresh_token, build_token_response, get_user_roles,
}
use wa_graph_rag_backend.Accounts.Auth.History.{
  Request, serve_all, serve_all-IsDead, HasToken, IsDead, IsRefused, AllDiffer,
}

module _ (c : Client) where
  -- What an exchange that succeeded has found and done.
  pub record Exchanged (token : String) (env : Env) (db db' : Db c) (resp : TokenResponse)
      : Type 0 where
    pub stored : RefreshToken
    pub listed : HasToken c db stored
    pub hashed : stored.token_hash ≡ c.sha256 token
    pub live : stored.revoked ≡ false
    pub in_time : ltb stored.expires_at env.now ≡ false
    pub owner : User
    pub owner_listed : c.users.Has db.users owner
    pub owner_id : owner.id ≡ stored.user_id
    pub owner_active : owner.is_active ≡ true
    pub middle : c.refresh_tokens.Store
    pub revoking :
        c.refresh_tokens.update (λ t. t.id == stored.id) revoke db.refresh_tokens ≡ some middle
    pub issuing :
        c.refresh_tokens.insert
          (new_refresh_token owner.id (c.sha256 env.raw_refresh) (refresh_token_expiry c env) env)
          middle
        ≡ some db'.refresh_tokens
    pub answered : resp.refresh_token ≡ env.raw_refresh

  get_user_roles_state :
      (id : String) (db : Db c) (names : List String) (db' : Db c)
      → get_user_roles c id db ≡ (ok names, db')
      → db ≡ db'
  unfolding get_user_roles
  get_user_roles_state id db names db' h =
      let (rows, found, rest) = after_read _ _ h in (pure-eq-ok rest).1

  pub build_token_response-eq-ok :
      (u : User) (env : Env) (db : Db c) {resp : TokenResponse} {db' : Db c}
      → build_token_response c u env db ≡ (ok resp, db')
      → (c.refresh_tokens.insert
            (new_refresh_token u.id (c.sha256 env.raw_refresh) (refresh_token_expiry c env) env)
            db.refresh_tokens
          ≡ some db'.refresh_tokens)
        × (resp.refresh_token ≡ env.raw_refresh)
        × (db.users ≡ db'.users)
  unfolding build_token_response create_refresh_token insert_refresh_tokens
  build_token_response-eq-ok u env db h =
      let (roles, named, h1) = after_pure _ _ (get_user_roles_state u.id db) h in
      let (t, ins, h2) = after_put _ _ _ h1 in
      let (answer, final) = pure-eq-ok h2 in
      (
        ins ∙ ap (λ d. some d.refresh_tokens) final,
        sym (ap (λ r. r.refresh_token) answer),
        ap (λ d. d.users) final,
      )

  pub refresh_token-eq-ok :
      (token : String) (env : Env) (db : Db c) {resp : TokenResponse} {db' : Db c}
      → refresh_token c token env db ≡ (ok resp, db')
      → Exchanged token env db db' resp
  unfolding refresh_token hash_token first_refresh_token revoke_where first_user
  refresh_token-eq-ok token env db {resp} {db'} h =
      let (found, sel, h1) = after_read _ _ h in
      let (stored, is_row, h2) = after_or_raise _ _ _ h1 in
      let (live, h3) = after_raise_if _ _ _ h2 in
      let (timely, h4) = after_raise_if _ _ _ h3 in
      let (middle, revoking, h5) = after_put _ _ _ h4 in
      let (found_user, sel_user, h6) = after_read _ _ h5 in
      let (owner, is_user, h7) = after_or_raise _ _ _ h6 in
      let (active, h8) = after_raise_if _ _ _ h7 in
      let (issuing, answered, _) = build_token_response-eq-ok owner env _ h8 in
      let (listed, hashed) = c.refresh_tokens.select_some _ _ stored (sel ∙ ap some is_row) in
      let (owner_listed, owned) = c.users.select_some _ _ owner (sel_user ∙ ap some is_user) in
      record {
        stored = stored;
        listed = listed;
        hashed = (eq_iff _ _).0 hashed;
        live = live;
        in_time = timely;
        owner = owner;
        owner_listed = owner_listed;
        owner_id = (eq_iff _ _).0 owned;
        owner_active = not-eq-false active;
        middle = middle;
        revoking = revoking;
        issuing = issuing;
        answered = answered;
      }

  -- A token all of whose rows are revoked is refused.
  pub IsDead-IsRefused :
      (token : String) (db : Db c) → IsDead c (c.sha256 token) db → IsRefused c token db
  IsDead-IsRefused token db dead env resp e =
      let x = refresh_token-eq-ok token env db (pair_eta e) in
      false≢true (sym x.live ∙ dead x.stored x.listed x.hashed)

  -- Refused now is refused after any later requests.
  pub serve_all-IsRefused :
      (token : String) (qs : List (Request × Env)) (db : Db c)
      → AllDiffer c (c.sha256 token) qs
      → IsDead c (c.sha256 token) db
      → IsRefused c token (serve_all c qs db)
  serve_all-IsRefused token qs db others dead =
      IsDead-IsRefused token _ (serve_all-IsDead c (c.sha256 token) qs db others dead)
