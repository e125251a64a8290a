-- ===== src/Accounts/Auth/Sessions.antt =====
-- What ends a session: the exchange of a refresh token, a logout, a password change and a password
-- reset (agent/auth_router.py) leave the tokens concerned refused for good.
use Prim.Native.String.{String}
use text.Mathlib.Text.{◌==◌}
use text.Mathlib.TextEquality.{eq_iff}
use wa_graph_rag_backend.Prelude.{
  ◌≡◌, ◌≢◌, sym, ap, ◌∙◌, inl, inr, Bool, true, false, List, if◌then◌else◌, some,
}
use wa_graph_rag_backend.Database.Action.{ok}
use wa_graph_rag_backend.Database.Action.Rules.{pure-eq-ok, after_pure, after_put}
use wa_graph_rag_backend.Accounts.State.{RefreshToken, Client, Db, Env}
use wa_graph_rag_backend.Accounts.Tokens.{hash_token}
use wa_graph_rag_backend.Accounts.Guards.Laws.{get_current_active_user_state}
use wa_graph_rag_backend.Accounts.Calls.{revoke, revoke_where}
use wa_graph_rag_backend.Accounts.Auth.{TokenResponse, refresh_token, logout}
use wa_graph_rag_backend.Accounts.Auth.History.{
  Request, serve_all, HasToken, IsDead, IsRefused, Differs, AllDiffer,
}
use wa_graph_rag_backend.Accounts.Auth.Refresh.{Exchanged, refresh_token-eq-ok, serve_all-IsRefused}

module _ (c : Client) where
  -- The rows with this hash are one row.
  abbrev pub HasOneId : String → Db c → Type 0
  HasOneId hash db =
      (x y : RefreshToken)
      → HasToken c db x
      → HasToken c db y
      → x.token_hash ≡ hash
      → y.token_hash ≡ hash
      → x.id ≡ y.id

  -- The rows with this hash belong to this user.
  abbrev pub BelongsTo : String → String → Db c → Type 0
  BelongsTo user_id hash db =
      (x : RefreshToken) → HasToken c db x → x.token_hash ≡ hash → x.user_id ≡ user_id

  change_hash :
      (b : Bool) (x y : RefreshToken)
      → x ≡ (if b then revoke y else y)
      → y.token_hash ≡ x.token_hash
  change_hash true x y e = sym (ap (λ t. t.token_hash) e)
  change_hash false x y e = sym (ap (λ t. t.token_hash) e)

  -- Revoking at least the rows with a hash makes the hash dead.
  pub update-IsDead :
      (hash : String) (p : RefreshToken → Bool) (s t : c.refresh_tokens.Store)
      → c.refresh_tokens.update p revoke s ≡ some t
      → ((y : RefreshToken) → c.refresh_tokens.Has s y → y.token_hash ≡ hash → p y ≡ true)
      → (x : RefreshToken) → c.refresh_tokens.Has t x
      → x.token_hash ≡ hash
      → x.revoked ≡ true
  update-IsDead hash p s t done covered x h e =
      let (y, hy, same) = (c.refresh_tokens.update_rows p revoke s t done x).0 h in
      let hit = covered y hy (change_hash (p y) x y same ∙ e) in
      ap (λ t. t.revoked) (same ∙ ap (λ b. if b then revoke y else y) hit)

  Exchanged-IsDead :
      (token : String) (env : Env) (db db' : Db c) (resp : TokenResponse)
      → HasOneId (c.sha256 token) db
      → Differs c (c.sha256 token) env
      → Exchanged c token env db db' resp
      → IsDead c (c.sha256 token) db'
  Exchanged-IsDead token env db db' resp one other x r hr e =
      elim ((c.refresh_tokens.insert_rows _ _ _ x.issuing r).0 hr) [
        | inl new ↦ absurd (other (sym (ap (λ t. t.token_hash) new) ∙ e))
        | inr old ↦
            update-IsDead _ _ _ _ x.revoking
              (λ y hy ey. (eq_iff _ _).1 (one y x.stored hy x.listed ey x.hashed)) r old e
      ]

  -- A refresh token works once. After an exchange that succeeded the same token is refused,
  -- whatever requests are served in between, if the hash of the token stood in one row and no
  -- later random token has the same hash.
  pub refresh_token_once :
      (token : String) (env : Env) (db db' : Db c) (resp : TokenResponse)
      (later : List (Request × Env)) (env' : Env) (resp' : TokenResponse)
      → HasOneId (c.sha256 token) db
      → Differs c (c.sha256 token) env
      → AllDiffer c (c.sha256 token) later
      → refresh_token c token env db ≡ (ok resp, db')
      → (refresh_token c token env' (serve_all c later db')).0 ≢ ok resp'
  refresh_token_once token env db db' resp later env' resp' one other others h =
      serve_all-IsRefused c token later db' others
        (Exchanged-IsDead token env db db' resp one other (refresh_token-eq-ok c token env db h))
        env' resp'

  -- After a logout that succeeds the token that it names is refused, whatever requests are served
  -- in between, if none of them draws a token with its hash.
  pub logout_ends_session :
      (token auth : String) (env : Env) (db db' : Db c) (message : String)
      (later : List (Request × Env)) (env' : Env) (resp : TokenResponse)
      → AllDiffer c (c.sha256 token) later
      → logout c token auth env db ≡ (ok message, db')
      → (refresh_token c token env' (serve_all c later db')).0 ≢ ok resp
  unfolding logout hash_token revoke_where
  logout_ends_session token auth env db db' message later env' resp others h =
      let (u, known, h1) = after_pure _ _ (get_current_active_user_state c auth env db) h in
      let (t, done, h2) = after_put _ _ _ h1 in
      let (said, final) = pure-eq-ok h2 in
      serve_all-IsRefused c token later db' others
        (λ x hx.
          update-IsDead _ _ _ _ (done ∙ ap (λ d. some d.refresh_tokens) final)
            (λ y hy ey. (eq_iff _ _).1 ey) x hx)
        env' resp

  -- Revoking the rows of a user leaves the user's tokens refused for good.
  pub revoke_where-ends_sessions :
      (user_id token : String) (db db' : Db c) (later : List (Request × Env))
      → c.refresh_tokens.update (λ t. t.user_id == user_id) revoke db.refresh_tokens
        ≡ some db'.refresh_tokens
      → BelongsTo user_id (c.sha256 token) db
      → AllDiffer c (c.sha256 token) later
      → IsRefused c token (serve_all c later db')
  revoke_where-ends_sessions user_id token db db' later done owned others =
      serve_all-IsRefused c token later db' others
        (update-IsDead _ _ _ _ done (λ y hy ey. (eq_iff _ _).1 (owned y hy ey)))
