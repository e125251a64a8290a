-- ===== src/Accounts/Auth/OneTime.antt =====
-- One-time tokens of agent/auth_router.py: a reset token and a verification token work once.
use Prim.Native.String.{String}
use mathlib.Core.Bool.{false≢true}
use text.Mathlib.Text.{◌==◌}
use text.Mathlib.TextEquality.{eq_iff}
use wa_graph_rag_backend.Prelude.{
  ◌≡◌, ◌≢◌, refl, sym, ap, ◌∙◌, Bool, true, false, List, if◌then◌else◌, some, ◌≤◌, ◌↔◌,
}
use wa_graph_rag_backend.Database.{Table}
use wa_graph_rag_backend.Database.Action.{ok}
use wa_graph_rag_backend.Database.Action.Rules.{pure-eq-ok, after_read, after_put}
use wa_graph_rag_backend.Database.Laws.{update_hits, update_others}
use wa_graph_rag_backend.Accounts.Auth.Passwords.{after_usable, reset_password-eq-ok, ltb-false}
use wa_graph_rag_backend.Accounts.State.{User, OneTimeToken, Client, Db, Env}
use wa_graph_rag_backend.Accounts.Guards.Laws.{pair_eta}
use wa_graph_rag_backend.Accounts.Calls.{
  use_up, update_users, use_up_email_verifications, first_email_verification,
}
use wa_graph_rag_backend.Accounts.Auth.{reset_password, verify_email}
use wa_graph_rag_backend.Accounts.Auth.History.{
  Request, serve_all, IsSpent, NeverDrawn, serve_all-IsSpent_reset, serve_all-IsSpent_check,
}

-- The rows with this one-time token are one row.
abbrev pub IsOneRow : (t : Table OneTimeToken) → String → t.Store → Type 0
IsOneRow t token s =
    (x y : OneTimeToken) → t.Has s x → t.Has s y → x.token ≡ token → y.token ≡ token → x.id ≡ y.id

change_token : (b : Bool) (x y : OneTimeToken) → x ≡ (if b then use_up y else y) → y.token ≡ x.token
change_token true x y e = sym (ap (λ t. t.token) e)
change_token false x y e = sym (ap (λ t. t.token) e)

-- Using up the row of a token leaves the token spent.
update-IsSpent :
    (c : Client) (t : Table OneTimeToken) (token : String) (stored : OneTimeToken) (s u : t.Store)
    → IsOneRow t token s
    → t.Has s stored
    → stored.token ≡ token
    → t.update (λ x. x.id == stored.id) use_up s ≡ some u
    → IsSpent c t token u
update-IsSpent c t token stored s u one listed named done x h e =
    let (y, hy, same) = (t.update_rows _ use_up s u done x).0 h in
    let hit : (y.id == stored.id) ≡ true =
      (eq_iff _ _).1 (one y stored hy listed (change_token _ x y same ∙ e) named) in
    ap (λ r. r.used) (same ∙ ap (λ b. if b then use_up y else y) hit)

module _ (c : Client) where
  reset_password-refused :
      (token new_password : String) (env : Env) (db : Db c) (message : String)
      → IsSpent c c.password_resets token db.password_resets
      → (reset_password c token new_password env db).0 ≢ ok message
  reset_password-refused token new_password env db message spent e =
      let x = reset_password-eq-ok c token new_password env db _ message (pair_eta e) in
      false≢true (sym x.unused ∙ spent x.stored x.listed x.named)

  -- A reset token works once. After a reset that succeeded the same token is refused, for any new
  -- password, whatever requests are served in between, if the token stood in one row and no later
  -- request draws it again.
  pub reset_token_once :
      (token new_password : String) (env : Env) (db db' : Db c) (message : String)
      (later : List (Request × Env)) (password : String) (env' : Env) (m : String)
      → IsOneRow c.password_resets token db.password_resets
      → NeverDrawn c token later
      → reset_password c token new_password env db ≡ (ok message, db')
      → (reset_password c token password env' (serve_all c later db')).0 ≢ ok m
  reset_token_once token new_password env db db' message later password env' m one fresh h =
      let x = reset_password-eq-ok c token new_password env db db' message h in
      reset_password-refused token password env' _ m (
        serve_all-IsSpent_reset c token later db' fresh
          (update-IsSpent c c.password_resets token x.stored _ _ one x.listed x.named x.using))

  -- What a verification that succeeded has found and done.
  pub record Verified (token : String) (env : Env) (db db' : Db c) : Type 0 where
    pub stored : OneTimeToken
    pub listed : c.email_verifications.Has db.email_verifications stored
    pub named : stored.token ≡ token
    pub unused : stored.used ≡ false
    pub timely : env.now ≤ stored.expires_at
    pub updating :
        c.users.update (λ u. u.id == stored.user_id) (λ u. record u { is_verified = true }) db.users
        ≡ some db'.users
    pub using :
        c.email_verifications.update (λ t. t.id == stored.id) use_up db.email_verifications
        ≡ some db'.email_verifications

  pub verify_email-eq-ok :
      (token : String) (env : Env) (db db' : Db c) (message : String)
      → verify_email c token env db ≡ (ok message, db')
      → Verified token env db db'
  unfolding verify_email update_users use_up_email_verifications first_email_verification
  verify_email-eq-ok token env db db' message h =
      let (found, sel, h1) = after_read _ _ h in
      let (stored, is_row, unused, timely, h2) = after_usable c _ _ _ _ env _ h1 in
      let (users, updating, h3) = after_put _ _ _ h2 in
      let (checks, using, h4) = after_put _ _ _ h3 in
      let (said, final) = pure-eq-ok h4 in
      let (listed, named) = c.email_verifications.select_some _ _ stored (sel ∙ ap some is_row) in
      record {
        stored = stored;
        listed = listed;
        named = (eq_iff _ _).0 named;
        unused = unused;
        timely = ltb-false timely;
        updating = updating ∙ ap (λ d. some d.users) final;
        using = using ∙ ap (λ d. some d.email_verifications) final;
      }

  -- A verification that succeeds: the token was stored, unused and in time; the rows of its user
  -- are verified afterwards and no other row of `users` has changed.
  pub verify_email_lem :
      (token : String) (env : Env) (db db' : Db c) (message : String)
      → verify_email c token env db ≡ (ok message, db')
      → (stored : OneTimeToken) × c.email_verifications.Has db.email_verifications stored
        × (stored.token ≡ token)
        × (stored.used ≡ false)
        × (env.now ≤ stored.expires_at)
        × ((r : User) → c.users.Has db'.users r → r.id ≡ stored.user_id → r.is_verified ≡ true)
        × ((r : User) → r.id ≢ stored.user_id → c.users.Has db'.users r ↔ c.users.Has db.users r)
  verify_email_lem token env db db' message h =
      let x = verify_email-eq-ok token env db db' message h in
      (
        x.stored,
        x.listed,
        x.named,
        x.unused,
        x.timely,
        λ r hr e.
            let (y, hy, ey, same) =
              update_hits c.users (λ u. u.id) x.stored.user_id _ (λ r. refl) x.updating r hr e in
            ap (λ u. u.is_verified) same,
        update_others c.users (λ u. u.id) x.stored.user_id _ (λ r. refl) x.updating,
      )

  -- A verification token works once: after a verification that succeeded the same token is refused,
  -- whatever requests are served in between, if it stood in one row and no later request draws it
  -- again.
  pub verify_email_once :
      (token : String) (env : Env) (db db' : Db c) (message : String) (later : List (Request × Env))
      (env' : Env) (m : String)
      → IsOneRow c.email_verifications token db.email_verifications
      → NeverDrawn c token later
      → verify_email c token env db ≡ (ok message, db')
      → (verify_email c token env' (serve_all c later db')).0 ≢ ok m
  verify_email_once token env db db' message later env' m one fresh h e =
      let x = verify_email-eq-ok token env db db' message h in
      let y = verify_email-eq-ok token env' _ _ m (pair_eta e) in
      let spent =
        serve_all-IsSpent_check c token later db' fresh (
          update-IsSpent c c.email_verifications token x.stored _ _ one x.listed x.named x.using) in
      false≢true (sym y.unused ∙ spent y.stored y.listed y.named)
