-- ===== src/Accounts/Auth/Moves.antt =====
-- What each handler of agent/auth_router.py does to the tables of tokens, on every path and also
-- when the client raises half-way: it revokes or uses up rows and issues rows, and nothing else.
pub mod Handlers
use Prim.Native.String.{String}
use mathlib.Core.Bool.{false≢true}
use text.Mathlib.Text.{◌==◌}
use text.Mathlib.TextEquality.{eq_iff}
use wa_graph_rag_backend.Prelude.{
  ◌≡◌, ◌≢◌, refl, sym, ap, ◌∙◌, is_some, Bool, true, false, Option, none, some, List, [], ◌∷◌,
  arith,
}
use wa_graph_rag_backend.Database.{Table}
use wa_graph_rag_backend.Database.Action.{
  Fault, Result, ok, err, Action, ◌>>=◌, ◌>>◌, pure, raise, raise_if, read, write, or_raise,
}
use wa_graph_rag_backend.Database.Action.Rules.{
  Keeps, pure-Keeps, raise-Keeps, raise_if-Keeps, or_raise-Keeps, read-Keeps, write-Keeps, if-Keeps,
  >>=-Keeps, read_then, answer_then, raise_if_then, put_then, put-Keeps, maybe-Keeps, answer-Keeps,
}
use wa_graph_rag_backend.Accounts.State.{
  Claims, Decoded, claims, expired, invalid, Role, User, UserRole, RefreshToken, OneTimeToken,
  Client, Db, Env,
}
use wa_graph_rag_backend.Accounts.Tokens.{hash_password, create_refresh_token, make_otp}
use wa_graph_rag_backend.Accounts.Guards.{
  bearer_token, accepted, get_current_user, get_current_active_user,
}
use wa_graph_rag_backend.Accounts.Calls.{
  revoke, use_up, update_users, insert_users, insert_user_roles, insert_refresh_tokens,
  revoke_where, insert_password_resets, use_up_password_resets, insert_email_verifications,
  use_up_email_verifications, first_user, first_role, first_refresh_token, first_password_reset,
  first_email_verification,
}
use wa_graph_rag_backend.Accounts.Auth.{
  RegisterRequest, LoginRequest, get_user_roles, build_token_response, assign_role, register,
  finish_registration, login, logout, refresh_token, forgot_password, reset_password,
  change_password, verify_email, resend_verification, usable,
}

module _ (c : Client) (env : Env) where
  -- The changes that one request can make.
  pub data TokensMove : c.refresh_tokens.Store → c.refresh_tokens.Store → Type 0 where
    same : {s : c.refresh_tokens.Store} → TokensMove s s
    revoked :
        {s t : c.refresh_tokens.Store} (p : RefreshToken → Bool)
        → c.refresh_tokens.update p revoke s ≡ some t
        → TokensMove s t
    issued :
        {s t : c.refresh_tokens.Store} (r : RefreshToken)
        → r.token_hash ≡ c.sha256 env.raw_refresh
        → c.refresh_tokens.insert r s ≡ some t
        → TokensMove s t
    both : {s t u : c.refresh_tokens.Store} → TokensMove s t → TokensMove t u → TokensMove s u

  -- The same for `password_resets` and `email_verifications`: rows are used up and issued.
  pub data OneTimeMove (t : Table OneTimeToken) : t.Store → t.Store → Type 0 where
    same : {s : t.Store} → OneTimeMove t s s
    used_up :
        {s u : t.Store} (p : OneTimeToken → Bool) → t.update p use_up s ≡ some u → OneTimeMove t s u
    issued :
        {s u : t.Store} (r : OneTimeToken)
        → r.token ≡ env.otp
        → t.insert r s ≡ some u
        → OneTimeMove t s u
    both : {s u v : t.Store} → OneTimeMove t s u → OneTimeMove t u v → OneTimeMove t s v

  -- `users`: rows are patched, with `id` and `email` kept, and a row is added with a new e-mail
  -- address.
  pub data UsersMove : c.users.Store → c.users.Store → Type 0 where
    same : {s : c.users.Store} → UsersMove s s
    patched :
        {s t : c.users.Store} (p : User → Bool) (f : User → User)
        → ((r : User) → (f r).id ≡ r.id)
        → ((r : User) → (f r).email ≡ r.email)
        → c.users.update p f s ≡ some t
        → UsersMove s t
    added :
        {s t : c.users.Store} (r : User)
        → ((x : User) → c.users.Has s x → x.email ≢ r.email)
        → c.users.insert r s ≡ some t
        → UsersMove s t
    both : {s t u : c.users.Store} → UsersMove s t → UsersMove t u → UsersMove s u

  -- The four tables at once.
  pub record Moves (d e : Db c) : Type 0 where
    pub tokens : TokensMove d.refresh_tokens e.refresh_tokens
    pub resets : OneTimeMove c.password_resets d.password_resets e.password_resets
    pub checks : OneTimeMove c.email_verifications d.email_verifications e.email_verifications
    pub users : UsersMove d.users e.users

  reflexive : (d : Db c) → Moves d d
  reflexive d = record {
    tokens = TokensMove.same;
    resets = OneTimeMove.same;
    checks = OneTimeMove.same;
    users = UsersMove.same;
  }

  transitive : (d e f : Db c) → Moves d e → Moves e f → Moves d f
  transitive d e f h k = record {
    tokens = TokensMove.both h.tokens k.tokens;
    resets = OneTimeMove.both h.resets k.resets;
    checks = OneTimeMove.both h.checks k.checks;
    users = UsersMove.both h.users k.users;
  }

  moved_tokens :
      (d : Db c) (t : c.refresh_tokens.Store)
      → TokensMove d.refresh_tokens t
      → Moves d (record d { refresh_tokens = t })
  moved_tokens d t m = record {
    tokens = m;
    resets = OneTimeMove.same;
    checks = OneTimeMove.same;
    users = UsersMove.same;
  }

  moved_resets :
      (d : Db c) (t : c.password_resets.Store)
      → OneTimeMove c.password_resets d.password_resets t
      → Moves d (record d { password_resets = t })
  moved_resets d t m = record {
    tokens = TokensMove.same;
    resets = m;
    checks = OneTimeMove.same;
    users = UsersMove.same;
  }

  moved_checks :
      (d : Db c) (t : c.email_verifications.Store)
      → OneTimeMove c.email_verifications d.email_verifications t
      → Moves d (record d { email_verifications = t })
  moved_checks d t m = record {
    tokens = TokensMove.same;
    resets = OneTimeMove.same;
    checks = m;
    users = UsersMove.same;
  }

  ruleset keeps = (
    >>=-Keeps, read-Keeps, pure-Keeps, raise-Keeps, raise_if-Keeps, or_raise-Keeps, if-Keeps,
    maybe-Keeps, reflexive, transitive,
  )

  moved_users :
      (d : Db c) (t : c.users.Store) → UsersMove d.users t → Moves d (record d { users = t })
  moved_users d t m = record {
    tokens = TokensMove.same;
    resets = OneTimeMove.same;
    checks = OneTimeMove.same;
    users = m;
  }

  update_users-Moves :
      (p : User → Bool) (f : User → User)
      → ((r : User) → (f r).id ≡ r.id)
      → ((r : User) → (f r).email ≡ r.email)
      → Keeps Moves (update_users c p f)
  unfolding update_users
  update_users-Moves p f id email =
      put-Keeps Moves reflexive _ _ (λ d t h. moved_users d t (UsersMove.patched p f id email h))

  insert_refresh_tokens-Moves :
      (r : RefreshToken)
      → r.token_hash ≡ c.sha256 env.raw_refresh
      → Keeps Moves (insert_refresh_tokens c r)
  unfolding insert_refresh_tokens
  insert_refresh_tokens-Moves r e =
      put-Keeps Moves reflexive _ _ (λ d t h. moved_tokens d t (TokensMove.issued r e h))

  revoke_where-Moves : (p : RefreshToken → Bool) → Keeps Moves (revoke_where c p)
  unfolding revoke_where
  revoke_where-Moves p =
      put-Keeps Moves reflexive _ _ (λ d t h. moved_tokens d t (TokensMove.revoked p h))

  get_user_roles-Moves : (id : String) → Keeps Moves (get_user_roles c id)
  unfolding get_user_roles
  get_user_roles-Moves id = search keeps depth 20

  build_token_response-Moves : (u : User) → Keeps Moves (build_token_response c u env)
  unfolding build_token_response create_refresh_token
  build_token_response-Moves u =
      search (keeps, get_user_roles-Moves, insert_refresh_tokens-Moves) depth 20

  insert_user_roles-Moves : (r : UserRole) → Keeps Moves (insert_user_roles c r)
  unfolding insert_user_roles
  insert_user_roles-Moves r = put-Keeps Moves reflexive _ _ (λ d t h. record {
    tokens = TokensMove.same;
    resets = OneTimeMove.same;
    checks = OneTimeMove.same;
    users = UsersMove.same;
  })

  insert_password_resets-Moves :
      (r : OneTimeToken) → r.token ≡ env.otp → Keeps Moves (insert_password_resets c r)
  unfolding insert_password_resets
  insert_password_resets-Moves r e =
      put-Keeps Moves reflexive _ _ (λ d t h. moved_resets d t (OneTimeMove.issued r e h))

  use_up_password_resets-Moves :
      (p : OneTimeToken → Bool) → Keeps Moves (use_up_password_resets c p)
  unfolding use_up_password_resets
  use_up_password_resets-Moves p =
      put-Keeps Moves reflexive _ _ (λ d t h. moved_resets d t (OneTimeMove.used_up p h))

  insert_email_verifications-Moves :
      (r : OneTimeToken) → r.token ≡ env.otp → Keeps Moves (insert_email_verifications c r)
  unfolding insert_email_verifications
  insert_email_verifications-Moves r e =
      put-Keeps Moves reflexive _ _ (λ d t h. moved_checks d t (OneTimeMove.issued r e h))

  use_up_email_verifications-Moves :
      (p : OneTimeToken → Bool) → Keeps Moves (use_up_email_verifications c p)
  unfolding use_up_email_verifications
  use_up_email_verifications-Moves p =
      put-Keeps Moves reflexive _ _ (λ d t h. moved_checks d t (OneTimeMove.used_up p h))

  hash_password-Moves : (plain : String) → Keeps Moves (hash_password c plain env)
  unfolding hash_password
  hash_password-Moves plain = answer-Keeps Moves reflexive _

  first_user-Moves : (p : User → Bool) → Keeps Moves (first_user c p)
  unfolding first_user
  first_user-Moves p = read-Keeps Moves reflexive _

  first_role-Moves : (p : Role → Bool) → Keeps Moves (first_role c p)
  unfolding first_role
  first_role-Moves p = read-Keeps Moves reflexive _

  first_refresh_token-Moves : (p : RefreshToken → Bool) → Keeps Moves (first_refresh_token c p)
  unfolding first_refresh_token
  first_refresh_token-Moves p = read-Keeps Moves reflexive _

  first_password_reset-Moves : (p : OneTimeToken → Bool) → Keeps Moves (first_password_reset c p)
  unfolding first_password_reset
  first_password_reset-Moves p = read-Keeps Moves reflexive _

  first_email_verification-Moves :
      (p : OneTimeToken → Bool) → Keeps Moves (first_email_verification c p)
  unfolding first_email_verification
  first_email_verification-Moves p = read-Keeps Moves reflexive _

  ruleset calls = (
    keeps, update_users-Moves, insert_user_roles-Moves, insert_refresh_tokens-Moves,
    revoke_where-Moves, insert_password_resets-Moves, use_up_password_resets-Moves,
    insert_email_verifications-Moves, use_up_email_verifications-Moves, hash_password-Moves,
    first_user-Moves, first_role-Moves, first_refresh_token-Moves, first_password_reset-Moves,
    first_email_verification-Moves,
  )
