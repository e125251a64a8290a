-- ===== src/Accounts/Auth/History.antt =====
-- Sequences of requests to agent/auth_router.py, in the order in which they are served, and what
-- holds of the table `refresh_tokens` through all of them.
use Prim.Native.String.{String}
use wa_graph_rag_backend.Prelude.{
  ◌≡◌, ◌≢◌, sym, ap, ◌∙◌, inl, inr, Bool, true, false, List, [], ◌∷◌, if◌then◌else◌,
}
use wa_graph_rag_backend.Database.{Table}
use wa_graph_rag_backend.Database.Action.{ok}
use wa_graph_rag_backend.Accounts.State.{RefreshToken, OneTimeToken, Client, Db, Env}
use wa_graph_rag_backend.Accounts.Calls.{revoke, use_up}
use wa_graph_rag_backend.Accounts.Auth.{
  RegisterRequest, LoginRequest, TokenResponse, register, login, logout, refresh_token,
  forgot_password, reset_password, change_password, verify_email, resend_verification,
}
use wa_graph_rag_backend.Accounts.Auth.Moves.{TokensMove, OneTimeMove, Moves}
use wa_graph_rag_backend.Accounts.Auth.Moves.Handlers.{
  register-Moves, login-Moves, logout-Moves, refresh_token-Moves, forgot_password-Moves,
  reset_password-Moves, change_password-Moves, verify_email-Moves, resend_verification-Moves,
}

-- The routes of agent/auth_router.py that change the database.
pub data Request : Type 0 where
  post_register : RegisterRequest → Request
  post_login : LoginRequest → Request
  post_logout : (token auth : String) → Request
  post_refresh_token : (token : String) → Request
  post_forgot_password : (email : String) → Request
  post_reset_password : (token new_password : String) → Request
  post_change_password : (current new_password auth : String) → Request
  post_verify_email : (token : String) → Request
  post_resend_verification : (email : String) → Request

module _ (c : Client) where
  -- The database after a request, whatever its answer.
  unfoldable pub serve : Request → Env → Db c → Db c
  serve (post_register req) env db = (register c req env db).1
  serve (post_login req) env db = (login c req env db).1
  serve (post_logout token auth) env db = (logout c token auth env db).1
  serve (post_refresh_token token) env db = (refresh_token c token env db).1
  serve (post_forgot_password email) env db = (forgot_password c email env db).1
  serve (post_reset_password token pw) env db = (reset_password c token pw env db).1
  serve (post_change_password old pw auth) env db = (change_password c old pw auth env db).1
  serve (post_verify_email token) env db = (verify_email c token env db).1
  serve (post_resend_verification email) env db = (resend_verification c email env db).1

  unfoldable pub serve_all : List (Request × Env) → Db c → Db c
  serve_all [] db = db
  serve_all ((q, env) ∷ qs) db = serve_all qs (serve q env db)

  abbrev pub HasToken : Db c → RefreshToken → Type 0
  HasToken db r = c.refresh_tokens.Has db.refresh_tokens r

  -- Every row with the hash is revoked.
  abbrev pub IsDead : String → Db c → Type 0
  IsDead hash db = (x : RefreshToken) → HasToken db x → x.token_hash ≡ hash → x.revoked ≡ true

  -- The token is refused, whenever the request is made.
  abbrev pub IsRefused : String → Db c → Type 0
  IsRefused token db =
      (env : Env) (resp : TokenResponse) → (refresh_token c token env db).0 ≢ ok resp

  -- The random token that the request may draw does not hash to the given hash.
  abbrev pub Differs : String → Env → Type 0
  Differs hash env = c.sha256 env.raw_refresh ≢ hash

  abbrev pub AllDiffer : String → List (Request × Env) → Type 0
  AllDiffer hash [] = Unit
  AllDiffer hash ((q, env) ∷ qs) = Differs hash env × AllDiffer hash qs

  pub serve-Moves : (q : Request) (env : Env) (db : Db c) → Moves c env db (serve q env db)
  unfolding serve
  serve-Moves (post_register req) env db = register-Moves c env req db
  serve-Moves (post_login req) env db = login-Moves c env req db
  serve-Moves (post_logout token auth) env db = logout-Moves c env token auth db
  serve-Moves (post_refresh_token token) env db = refresh_token-Moves c env token db
  serve-Moves (post_forgot_password email) env db = forgot_password-Moves c env email db
  serve-Moves (post_reset_password token pw) env db = reset_password-Moves c env token pw db
  serve-Moves (post_change_password old pw auth) env db = change_password-Moves c env old pw auth db
  serve-Moves (post_verify_email token) env db = verify_email-Moves c env token db
  serve-Moves (post_resend_verification email) env db = resend_verification-Moves c env email db

  revoked_if :
      (b : Bool) (x r : RefreshToken) (hash : String)
      → (x.token_hash ≡ hash → x.revoked ≡ true)
      → r ≡ (if b then revoke x else x)
      → r.token_hash ≡ hash
      → r.revoked ≡ true
  revoked_if true x r hash dead e h = ap (λ t. t.revoked) e
  revoked_if false x r hash dead e h =
      ap (λ t. t.revoked) e ∙ dead (sym (ap (λ t. t.token_hash) e) ∙ h)

  -- Revoking and issuing leave a dead hash dead, unless it is issued again.
  pub TokensMove-IsDead :
      (hash : String) (env : Env) {s t : c.refresh_tokens.Store}
      → TokensMove c env s t
      → Differs hash env
      → ((x : RefreshToken) → c.refresh_tokens.Has s x → x.token_hash ≡ hash → x.revoked ≡ true)
      → (x : RefreshToken) → c.refresh_tokens.Has t x
      → x.token_hash ≡ hash
      → x.revoked ≡ true
  TokensMove-IsDead hash env TokensMove.same other dead x h e = dead x h e
  TokensMove-IsDead hash env (TokensMove.revoked p done) other dead x h e =
      let (y, hy, same_row) = (c.refresh_tokens.update_rows p revoke _ _ done x).0 h in
      revoked_if (p y) y x hash (dead y hy) same_row e
  TokensMove-IsDead hash env (TokensMove.issued r is_hash done) other dead x h e =
      elim ((c.refresh_tokens.insert_rows r _ _ done x).0 h) [
        | inl new ↦ absurd (other (sym is_hash ∙ sym (ap (λ t. t.token_hash) new) ∙ e))
        | inr old ↦ dead x old e
      ]
  TokensMove-IsDead hash env (TokensMove.both m n) other dead x h e =
      TokensMove-IsDead hash env n other (TokensMove-IsDead hash env m other dead) x h e

  -- A dead hash stays dead through all later requests that do not issue it again.
  pub serve_all-IsDead :
      (hash : String) (qs : List (Request × Env)) (db : Db c)
      → AllDiffer hash qs
      → IsDead hash db
      → IsDead hash (serve_all qs db)
  unfolding serve_all
  serve_all-IsDead hash [] db h dead = dead
  serve_all-IsDead hash ((q, env) ∷ qs) db (here, later) dead =
      serve_all-IsDead hash qs (serve q env db) later
        (TokensMove-IsDead hash env (serve-Moves q env db).tokens here dead)

  -- Every row with the one-time token is used.
  abbrev pub IsSpent : (t : Table OneTimeToken) → String → t.Store → Type 0
  IsSpent t token s = (x : OneTimeToken) → t.Has s x → x.token ≡ token → x.used ≡ true

  -- No later request draws the one-time token again.
  abbrev pub NeverDrawn : String → List (Request × Env) → Type 0
  NeverDrawn token [] = Unit
  NeverDrawn token ((q, env) ∷ qs) = (env.otp ≢ token) × NeverDrawn token qs

  used_if :
      (b : Bool) (x r : OneTimeToken) (token : String)
      → (x.token ≡ token → x.used ≡ true)
      → r ≡ (if b then use_up x else x)
      → r.token ≡ token
      → r.used ≡ true
  used_if true x r token spent e h = ap (λ t. t.used) e
  used_if false x r token spent e h = ap (λ t. t.used) e ∙ spent (sym (ap (λ t. t.token) e) ∙ h)

  pub OneTimeMove-IsSpent :
      (t : Table OneTimeToken) (token : String) (env : Env) {s u : t.Store}
      → OneTimeMove c env t s u
      → env.otp ≢ token
      → IsSpent t token s
      → IsSpent t token u
  OneTimeMove-IsSpent t token env OneTimeMove.same other spent x h e = spent x h e
  OneTimeMove-IsSpent t token env (OneTimeMove.used_up p done) other spent x h e =
      let (y, hy, same_row) = (t.update_rows p use_up _ _ done x).0 h in
      used_if (p y) y x token (spent y hy) same_row e
  OneTimeMove-IsSpent t token env (OneTimeMove.issued r is_token done) other spent x h e =
      elim ((t.insert_rows r _ _ done x).0 h) [
        | inl new ↦ absurd (other (sym is_token ∙ sym (ap (λ t. t.token) new) ∙ e))
        | inr old ↦ spent x old e
      ]
  OneTimeMove-IsSpent t token env (OneTimeMove.both m n) other spent x h e =
      OneTimeMove-IsSpent t token env n other (OneTimeMove-IsSpent t token env m other spent) x h e

  -- A spent token stays spent through all later requests that do not draw it again.
  pub serve_all-IsSpent_reset :
      (token : String) (qs : List (Request × Env)) (db : Db c)
      → NeverDrawn token qs
      → IsSpent c.password_resets token db.password_resets
      → IsSpent c.password_resets token (serve_all qs db).password_resets
  unfolding serve_all
  serve_all-IsSpent_reset token [] db h spent = spent
  serve_all-IsSpent_reset token ((q, env) ∷ qs) db (here, later) spent =
      serve_all-IsSpent_reset token qs (serve q env db) later
        (OneTimeMove-IsSpent _ token env (serve-Moves q env db).resets here spent)

  pub serve_all-IsSpent_check :
      (token : String) (qs : List (Request × Env)) (db : Db c)
      → NeverDrawn token qs
      → IsSpent c.email_verifications token db.email_verifications
      → IsSpent c.email_verifications token (serve_all qs db).email_verifications
  unfolding serve_all
  serve_all-IsSpent_check token [] db h spent = spent
  serve_all-IsSpent_check token ((q, env) ∷ qs) db (here, later) spent =
      serve_all-IsSpent_check token qs (serve q env db) later
        (OneTimeMove-IsSpent _ token env (serve-Moves q env db).checks here spent)
