-- ===== src/Accounts/Auth/Registration.antt =====
-- Registration and login (agent/auth_router.py).
use Prim.Native.String.{String}
use mathlib.Core.Path.{subst}
use mathlib.Core.Bool.{false≢true}
use text.Mathlib.Text.{◌==◌}
use text.Mathlib.TextEquality.{eq_iff}
use wa_graph_rag_backend.Prelude.{
  ◌≡◌, ◌≢◌, refl, sym, ap, ◌∙◌, inl, inr, true, false, some, none, ◌⊎◌, is_some, Option, ◌↔◌,
}
use wa_graph_rag_backend.Database.Action.{ok}
use wa_graph_rag_backend.Database.Action.Rules.{
  pure-eq-ok, after_read, after_or_raise, after_raise_if, after_put, after_maybe,
}
use wa_graph_rag_backend.Database.Laws.{update_hits, update_others}
use wa_graph_rag_backend.Accounts.Auth.Refresh.{build_token_response-eq-ok}
use wa_graph_rag_backend.Accounts.State.{User, Client, Db, Env}
use wa_graph_rag_backend.Accounts.Tokens.{refresh_token_expiry, make_otp, verify_password}
use wa_graph_rag_backend.Accounts.Guards.Laws.{not-eq-false}
use wa_graph_rag_backend.Accounts.Calls.{
  insert_password_resets, update_users, new_refresh_token, first_user,
}
use wa_graph_rag_backend.Accounts.Auth.{TokenResponse, LoginRequest, login, forgot_password, Notice}

module _ (c : Client) where
  -- A login that succeeds: a stored user has the e-mail address, the password verifies against its
  -- hash, the user is active and verified; afterwards the user's rows carry the time of the login
  -- and are otherwise unchanged, as are all other rows of `users`, and a new row of
  -- `refresh_tokens`, not revoked, holds the hash of the token that is handed out.
  pub login_lem :
      (req : LoginRequest) (env : Env) (db db' : Db c) (resp : TokenResponse)
      → login c req env db ≡ (ok resp, db')
      → (u : User) × c.users.Has db.users u
        × (u.email ≡ req.email)
        × (verify_password c req.password u.hashed_password ≡ true)
        × (u.is_active ≡ true)
        × (u.is_verified ≡ true)
        × ((r : User)
            → c.users.Has db'.users r
            → r.id ≡ u.id
            → (y : User) × c.users.Has db.users y × (r ≡ record y { last_login_at = some env.now }))
        × ((r : User) → r.id ≢ u.id → c.users.Has db'.users r ↔ c.users.Has db.users r)
        × c.refresh_tokens.Has db'.refresh_tokens
            (new_refresh_token u.id (c.sha256 resp.refresh_token) (refresh_token_expiry c env) env)
  unfolding login first_user update_users
  login_lem req env db db' resp h =
      let (found, sel, h1) = after_read _ _ h in
      let (u, is_row, h2) = after_or_raise _ _ _ h1 in
      let (knew, h3) = after_raise_if _ _ _ h2 in
      let (active, h4) = after_raise_if _ _ _ h3 in
      let (verified, h5) = after_raise_if _ _ _ h4 in
      let (users, updating, h6) = after_put _ _ _ h5 in
      let (issuing, answered, kept) = build_token_response-eq-ok c u env _ h6 in
      let (listed, named) = c.users.select_some _ _ u (sel ∙ ap some is_row) in
      let done = updating ∙ ap some kept in
      (
        u,
        listed,
        (eq_iff _ _).0 named,
        not-eq-false knew,
        not-eq-false active,
        not-eq-false verified,
        λ r hr e.
            let (y, hy, ey, same) =
              update_hits c.users (λ u. u.id) u.id _ (λ r. refl) done r hr e in
            (y, hy, same),
        update_others c.users (λ u. u.id) u.id _ (λ r. refl) done,
        subst
            (λ raw.
              c.refresh_tokens.Has db'.refresh_tokens
                (new_refresh_token u.id (c.sha256 raw) (refresh_token_expiry c env) env))
            (sym answered) ((c.refresh_tokens.insert_rows _ _ _ issuing _).1 (inl refl)),
      )

  abbrev KeepsUsers : Db c → Db c → Type 0
  KeepsUsers d e = d.users ≡ e.users

  -- No row has the address if none was found.
  none_found :
      (email : String) (found : Option User) (db : Db c)
      → c.users.select (λ u. u.email == email) db.users ≡ some found
      → is_some found ≡ false
      → (r : User) → c.users.Has db.users r
      → r.email ≢ email
  none_found email none db sel new r h e =
      false≢true (sym (c.users.select_none _ _ sel r h) ∙ (eq_iff _ _).1 e)
  none_found email (some u) db sel new r h e = false≢true (sym new)

  -- The answer to a forgotten password tells whether the address is registered: it carries a token
  -- exactly if some row of `users` has the address.
  pub forgot_password_tells :
      (email : String) (env : Env) (db db' : Db c) (answer : Notice)
      → forgot_password c email env db ≡ (ok answer, db')
      → ((answer.token ≡ none) × ((r : User) → c.users.Has db.users r → r.email ≢ email))
        ⊎ ((answer.token ≡ some env.otp)
            × ((u : User) × c.users.Has db.users u × (u.email ≡ email)))
  unfolding forgot_password first_user insert_password_resets make_otp
  forgot_password_tells email env db db' answer h =
      let (found, sel, h1) = after_read _ _ h in
      elim (after_maybe found _ _ h1) [
        | inl (missing, e) ↦ inl (
          sym (ap (λ a. a.token) (pure-eq-ok e).0),
          none_found email found db sel (ap is_some missing),
        )
        | inr (u, is_row, e) ↦
            let (t, ins, e1) = after_put _ _ _ e in
            let (listed, named) = c.users.select_some _ _ u (sel ∙ ap some is_row) in
            inr (sym (ap (λ a. a.token) (pure-eq-ok e1).0), (u, listed, (eq_iff _ _).0 named))
      ]
