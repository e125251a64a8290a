-- ===== src/Accounts/Auth/Passwords.antt =====
-- Changing and resetting a password (agent/auth_router.py).
use Prim.Native.String.{String}
use mathlib.Core.Path.{subst}
use text.Mathlib.Text.{◌==◌}
use text.Mathlib.TextEquality.{eq_iff}
use wa_graph_rag_backend.Prelude.{
  ◌≡◌, ◌≢◌, refl, sym, ap, ◌∙◌, true, false, List, some, Option, ℕ, ◌≤◌, ◌↔◌, ltb, arith,
}
use wa_graph_rag_backend.Database.Action.{Action, ◌>>=◌, ok}
use wa_graph_rag_backend.Database.Action.Rules.{
  >>=-eq-ok, pure-eq-ok, after_read, after_pure, after_answer, after_or_raise, after_raise_if,
  after_put,
}
use wa_graph_rag_backend.Database.Laws.{update_hits, update_others}
use wa_graph_rag_backend.Accounts.Auth.Sessions.{BelongsTo, revoke_where-ends_sessions}
use wa_graph_rag_backend.Accounts.State.{User, OneTimeToken, Client, Db, Env}
use wa_graph_rag_backend.Accounts.Tokens.{hash_password, verify_password}
use wa_graph_rag_backend.Accounts.Guards.{CurrentUser, get_current_active_user}
use wa_graph_rag_backend.Accounts.Guards.Laws.{
  IsSignedIn, get_current_active_user-IsSignedIn, get_current_active_user_state, not-eq-false,
}
use wa_graph_rag_backend.Accounts.Calls.{
  use_up, revoke, revoke_where, update_users, use_up_password_resets, first_password_reset,
}
use wa_graph_rag_backend.Accounts.Auth.{
  TokenResponse, refresh_token, change_password, reset_password, usable,
}
use wa_graph_rag_backend.Accounts.Auth.History.{Request, serve_all, AllDiffer}

pub ltb-false : {a b : ℕ} → ltb a b ≡ false → b ≤ a
ltb-false {a} {b} h = ground arith

ok_inv : {A : Type 0} {a b : A} → ok a ≡ ok b → a ≡ b
ok_inv e = cc

module _ (c : Client) where
  pub after_usable :
      {B : Type 0} (o : Option OneTimeToken) (x y z : String) (env : Env)
      (f : OneTimeToken → Action (Db c) B) {d d' : Db c} {b : B}
      → (usable o x y z env >>= f) d ≡ (ok b, d')
      → (t : OneTimeToken) × (o ≡ some t)
        × (t.used ≡ false)
        × (ltb t.expires_at env.now ≡ false)
        × (f t d ≡ (ok b, d'))
  unfolding usable
  after_usable o x y z env f {d} {d'} {b} h =
      let (t, e, first, rest) = >>=-eq-ok _ _ d h in
      let (u, is_row, h1) = after_or_raise _ _ _ first in
      let (unused, h2) = after_raise_if _ _ _ h1 in
      let (timely, h3) = after_raise_if _ _ _ h2 in
      let (is_t, same) = pure-eq-ok h3 in
      (
        t,
        is_row ∙ ap some is_t,
        ap (λ r. r.used) (sym is_t) ∙ unused,
        ap (λ r. ltb r.expires_at env.now) (sym is_t) ∙ timely,
        subst (λ x. f t x ≡ (ok b, d')) (sym same) rest,
      )

  -- The new password is the one that the rows of the user accept, and no other row has changed.
  abbrev pub IsPassword : String → String → Db c → Db c → Type 0
  IsPassword id password db db' =
      ((r : User)
        → c.users.Has db'.users r
        → r.id ≡ id
        → verify_password c password r.hashed_password ≡ true)
      × ((r : User) → r.id ≢ id → c.users.Has db'.users r ↔ c.users.Has db.users r)

  pub verify_new :
      (password hashed : String) (env : Env)
      → c.hashpw password env.salt ≡ some hashed
      → verify_password c password hashed ≡ true
  unfolding verify_password
  verify_new password hashed env e =
      rw (c.checkpw-hashpw password env.salt hashed e, verify_password)

  update-IsPassword :
      (id password hashed : String) (env : Env) (db db' : Db c)
      → c.hashpw password env.salt ≡ some hashed
      → c.users.update (λ u. u.id == id) (λ u. record u { hashed_password = hashed }) db.users
        ≡ some db'.users
      → IsPassword id password db db'
  update-IsPassword id password hashed env db db' is_hash done = (
    λ r h e.
        let (y, hy, ey, same) = update_hits c.users (λ u. u.id) id _ (λ r. refl) done r h e in
        subst (λ x. verify_password c password x ≡ true) (sym (ap (λ u. u.hashed_password) same))
          (verify_new password hashed env is_hash),
    update_others c.users (λ u. u.id) id _ (λ r. refl) done,
  )

  -- A password change that succeeds: the sender was signed in and gave the stored password; the
  -- new password is accepted for the sender's rows, and no other row of `users` has changed.
  pub change_password_lem :
      (current new_password auth : String) (env : Env) (db db' : Db c) (message : String)
      → change_password c current new_password auth env db ≡ (ok message, db')
      → (u : CurrentUser) × IsSignedIn c auth env db u
        × (verify_password c current u.user.hashed_password ≡ true)
        × IsPassword u.user.id new_password db db'
  unfolding change_password hash_password update_users revoke_where
  change_password_lem current new_password auth env db db' message h =
      let (u, known, h1) = after_pure _ _ (get_current_active_user_state c auth env db) h in
      let (long, h2) = after_raise_if _ _ _ h1 in
      let (knew, h3) = after_raise_if _ _ _ h2 in
      let (hashed, is_hash, h4) = after_answer _ _ h3 in
      let (users, updating, h5) = after_put _ _ _ h4 in
      let (tokens, revoking, h6) = after_put _ _ _ h5 in
      let (said, final) = pure-eq-ok h6 in
      (
        u,
        (get_current_active_user-IsSignedIn c auth env db u db known).0,
        not-eq-false knew,
        update-IsPassword u.user.id new_password hashed env db db' is_hash
            (updating ∙ ap (λ d. some d.users) final),
      )

  change_password_revokes :
      (current new_password auth : String) (env : Env) (db db' : Db c) (message : String)
      (u : CurrentUser)
      → get_current_active_user c auth env db ≡ (ok u, db)
      → change_password c current new_password auth env db ≡ (ok message, db')
      → c.refresh_tokens.update (λ t. t.user_id == u.user.id) revoke db.refresh_tokens
        ≡ some db'.refresh_tokens
  unfolding change_password hash_password update_users revoke_where
  change_password_revokes current new_password auth env db db' message u known h =
      let (v, known', h1) = after_pure _ _ (get_current_active_user_state c auth env db) h in
      let (long, h2) = after_raise_if _ _ _ h1 in
      let (knew, h3) = after_raise_if _ _ _ h2 in
      let (hashed, is_hash, h4) = after_answer _ _ h3 in
      let (users, updating, h5) = after_put _ _ _ h4 in
      let (tokens, revoking, h6) = after_put _ _ _ h5 in
      let (said, final) = pure-eq-ok h6 in
      let same_user = ok_inv (ap (λ r. r.0) (sym known' ∙ known)) in
      subst
        (λ x.
          c.refresh_tokens.update (λ t. t.user_id == x.user.id) revoke db.refresh_tokens
          ≡ some db'.refresh_tokens)
        same_user (revoking ∙ ap (λ d. some d.refresh_tokens) final)

  -- A password change that succeeds ends the sessions of its sender: a refresh token that belonged
  -- to the sender is refused after any later requests, if none of them draws its hash again.
  pub change_password_ends_sessions :
      (current new_password auth : String) (env : Env) (db db' : Db c) (message : String)
      (u : CurrentUser) (token : String) (later : List (Request × Env)) (env' : Env)
      (resp : TokenResponse)
      → get_current_active_user c auth env db ≡ (ok u, db)
      → change_password c current new_password auth env db ≡ (ok message, db')
      → BelongsTo c u.user.id (c.sha256 token) db
      → AllDiffer c (c.sha256 token) later
      → (refresh_token c token env' (serve_all c later db')).0 ≢ ok resp
  change_password_ends_sessions current new_password auth env db db' message u token later env' resp
        known h owned others =
      revoke_where-ends_sessions c u.user.id token db db' later
        (change_password_revokes current new_password auth env db db' message u known h) owned
        others env' resp

  -- What a reset that succeeded has found and done.
  pub record Reset (token new_password : String) (env : Env) (db db' : Db c) : Type 0 where
    pub stored : OneTimeToken
    pub listed : c.password_resets.Has db.password_resets stored
    pub named : stored.token ≡ token
    pub unused : stored.used ≡ false
    pub timely : env.now ≤ stored.expires_at
    pub hashed : String
    pub is_hash : c.hashpw new_password env.salt ≡ some hashed
    pub updating :
        c.users.update
          (λ u. u.id == stored.user_id)
          (λ u. record u { hashed_password = hashed })
          db.users
        ≡ some db'.users
    pub using :
        c.password_resets.update (λ t. t.id == stored.id) use_up db.password_resets
        ≡ some db'.password_resets
    pub revoking :
        c.refresh_tokens.update (λ t. t.user_id == stored.user_id) revoke db.refresh_tokens
        ≡ some db'.refresh_tokens

  pub reset_password-eq-ok :
      (token new_password : String) (env : Env) (db db' : Db c) (message : String)
      → reset_password c token new_password env db ≡ (ok message, db')
      → Reset token new_password env db db'
  unfolding reset_password hash_password update_users revoke_where use_up_password_resets
      first_password_reset
  reset_password-eq-ok token new_password env db db' message h =
      let (long, h1) = after_raise_if _ _ _ h in
      let (found, sel, h2) = after_read _ _ h1 in
      let (stored, is_row, unused, timely, h3) = after_usable _ _ _ _ env _ h2 in
      let (hashed, is_hash, h4) = after_answer _ _ h3 in
      let (users, updating, h5) = after_put _ _ _ h4 in
      let (resets, using, h6) = after_put _ _ _ h5 in
      let (tokens, revoking, h7) = after_put _ _ _ h6 in
      let (said, final) = pure-eq-ok h7 in
      let (listed, named) = c.password_resets.select_some _ _ stored (sel ∙ ap some is_row) in
      record {
        stored = stored;
        listed = listed;
        named = (eq_iff _ _).0 named;
        unused = unused;
        timely = ltb-false timely;
        hashed = hashed;
        is_hash = is_hash;
        updating = updating ∙ ap (λ d. some d.users) final;
        using = using ∙ ap (λ d. some d.password_resets) final;
        revoking = revoking ∙ ap (λ d. some d.refresh_tokens) final;
      }

  -- A password reset that succeeds: the token was stored, unused and in time; the new password is
  -- accepted for its user's rows, and no other row of `users` has changed.
  pub reset_password_lem :
      (token new_password : String) (env : Env) (db db' : Db c) (message : String)
      → reset_password c token new_password env db ≡ (ok message, db')
      → (stored : OneTimeToken) × c.password_resets.Has db.password_resets stored
        × (stored.token ≡ token)
        × (stored.used ≡ false)
        × (env.now ≤ stored.expires_at)
        × IsPassword stored.user_id new_password db db'
  reset_password_lem token new_password env db db' message h =
      let x = reset_password-eq-ok token new_password env db db' message h in
      (
        x.stored,
        x.listed,
        x.named,
        x.unused,
        x.timely,
        update-IsPassword x.stored.user_id new_password x.hashed env db db' x.is_hash x.updating,
      )

  -- The rows of this reset token are a user's.
  abbrev pub IsResetOf : String → String → Db c → Type 0
  IsResetOf user_id token db =
      (t : OneTimeToken)
      → c.password_resets.Has db.password_resets t
      → t.token ≡ token
      → t.user_id ≡ user_id

  -- A password reset that succeeds ends the sessions of the token's user: a refresh token that
  -- belonged to the user is refused after any later requests, if none of them draws its hash again.
  pub reset_password_ends_sessions :
      (token new_password : String) (env : Env) (db db' : Db c) (message : String)
      (user_id refresh : String) (later : List (Request × Env)) (env' : Env) (resp : TokenResponse)
      → IsResetOf user_id token db
      → reset_password c token new_password env db ≡ (ok message, db')
      → BelongsTo c user_id (c.sha256 refresh) db
      → AllDiffer c (c.sha256 refresh) later
      → (refresh_token c refresh env' (serve_all c later db')).0 ≢ ok resp
  reset_password_ends_sessions token new_password env db db' message user_id refresh later env' resp
        reset_of h owned others =
      let x = reset_password-eq-ok token new_password env db db' message h in
      revoke_where-ends_sessions c user_id refresh db db' later
        (subst
          (λ id.
            c.refresh_tokens.update (λ t. t.user_id == id) revoke db.refresh_tokens
            ≡ some db'.refresh_tokens)
          (reset_of x.stored x.listed x.named) x.revoking)
        owned others env' resp
