-- ===== src/Accounts/Auth/Moves/Handlers.antt =====
-- Each handler of agent/auth_router.py moves the tables as `Moves` says, on every path.
use Prim.Native.String.{String}
use mathlib.Core.Bool.{false≢true}
use text.Mathlib.Text.{◌==◌}
use text.Mathlib.TextEquality.{eq_iff}
use wa_graph_rag_backend.Prelude.{◌≡◌, ◌≢◌, sym, ◌∙◌, is_some, false, Option, none, some}
use wa_graph_rag_backend.Database.Action.Rules.{
  Keeps, pure-Keeps, raise-Keeps, read_then, answer_then, raise_if_then, put_then,
}
use wa_graph_rag_backend.Accounts.State.{
  Claims, Decoded, claims, expired, invalid, User, OneTimeToken, Client, Db, Env,
}
use wa_graph_rag_backend.Accounts.Tokens.{hash_password, make_otp}
use wa_graph_rag_backend.Accounts.Guards.{
  bearer_token, accepted, get_current_user, get_current_active_user,
}
use wa_graph_rag_backend.Accounts.Calls.{insert_users, first_user}
use wa_graph_rag_backend.Accounts.Auth.{
  RegisterRequest, LoginRequest, assign_role, register, finish_registration, login, logout,
  refresh_token, forgot_password, reset_password, change_password, verify_email,
  resend_verification, usable,
}
use wa_graph_rag_backend.Accounts.Auth.Moves.{
  UsersMove, Moves, reflexive, transitive, keeps, calls, moved_users, build_token_response-Moves,
}

module _ (c : Client) (env : Env) where
  bearer_token-Moves : (auth : String) → Keeps (Moves c env) (bearer_token auth)
  unfolding bearer_token
  bearer_token-Moves auth = search keeps depth 20

  accepted-Moves : (r : Decoded) → Keeps (Moves c env) (accepted r)
  accepted-Moves (claims p) = pure-Keeps (Moves c env) (reflexive c env) p
  accepted-Moves expired = raise-Keeps (Moves c env) (reflexive c env) Claims _
  accepted-Moves invalid = raise-Keeps (Moves c env) (reflexive c env) Claims _

  get_current_user-Moves : (auth : String) → Keeps (Moves c env) (get_current_user c auth env)
  unfolding get_current_user
  get_current_user-Moves auth = search (keeps, bearer_token-Moves, accepted-Moves) depth 20

  get_current_active_user-Moves :
      (auth : String) → Keeps (Moves c env) (get_current_active_user c auth env)
  unfolding get_current_active_user
  get_current_active_user-Moves auth = search (keeps, get_current_user-Moves) depth 20

  assign_role-Moves : (id name : String) → Keeps (Moves c env) (assign_role c id name)
  unfolding assign_role
  assign_role-Moves id name = search calls depth 20

  usable-Moves :
      (o : Option OneTimeToken) (a b e : String) → Keeps (Moves c env) (usable o a b e env)
  unfolding usable
  usable-Moves o a b e = search keeps depth 20

  pub unused_email :
      (email : String) (found : Option User) (d : Db c)
      → c.users.select (λ u. u.email == email) d.users ≡ some found
      → is_some found ≡ false
      → (x : User) → c.users.Has d.users x
      → x.email ≢ email
  unused_email email none d sel new x h e =
      false≢true (sym (c.users.select_none _ _ sel x h) ∙ (eq_iff _ _).1 e)
  unused_email email (some u) d sel new x h e = false≢true (sym new)

  -- What follows the insert of the new user.
  after_insert-Moves : (req : RegisterRequest) → Keeps (Moves c env) (finish_registration c req env)
  unfolding finish_registration make_otp
  after_insert-Moves req = search (calls, assign_role-Moves) depth 30

  pub register-Moves : (req : RegisterRequest) → Keeps (Moves c env) (register c req env)
  unfolding register first_user hash_password insert_users
  register-Moves req d = raise_if_then (Moves c env d) _ (reflexive c env d) _ _ λ _.
      read_then (Moves c env d) _ (reflexive c env d) _ λ found sel.
        raise_if_then (Moves c env d) _ (reflexive c env d) _ _ λ new.
          answer_then (Moves c env d) _ (reflexive c env d) _ λ hashed _.
            put_then (Moves c env d) _ (reflexive c env d) _ _ λ t ins.
              transitive c env d _ _
                (moved_users c env d t
                  (UsersMove.added _ (unused_email req.email found d sel new) ins))
                (after_insert-Moves req _)

  pub login-Moves : (req : LoginRequest) → Keeps (Moves c env) (login c req env)
  unfolding login
  login-Moves req = search (calls, build_token_response-Moves) depth 30

  pub logout-Moves : (token auth : String) → Keeps (Moves c env) (logout c token auth env)
  unfolding logout
  logout-Moves token auth = search (calls, get_current_active_user-Moves) depth 30

  pub refresh_token-Moves : (token : String) → Keeps (Moves c env) (refresh_token c token env)
  unfolding refresh_token
  refresh_token-Moves token = search (calls, build_token_response-Moves) depth 30

  pub forgot_password-Moves : (email : String) → Keeps (Moves c env) (forgot_password c email env)
  unfolding forgot_password make_otp
  forgot_password-Moves email = search calls depth 30

  pub reset_password-Moves :
      (token new_password : String) → Keeps (Moves c env) (reset_password c token new_password env)
  unfolding reset_password
  reset_password-Moves token new_password = search (calls, usable-Moves) depth 30

  pub change_password-Moves :
      (current new_password auth : String)
      → Keeps (Moves c env) (change_password c current new_password auth env)
  unfolding change_password
  change_password-Moves current new_password auth =
      search (calls, get_current_active_user-Moves) depth 30

  pub verify_email-Moves : (token : String) → Keeps (Moves c env) (verify_email c token env)
  unfolding verify_email
  verify_email-Moves token = search (calls, usable-Moves) depth 30

  pub resend_verification-Moves :
      (email : String) → Keeps (Moves c env) (resend_verification c email env)
  unfolding resend_verification make_otp
  resend_verification-Moves email = search calls depth 30
