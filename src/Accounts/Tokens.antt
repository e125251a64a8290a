-- ===== src/Accounts/Tokens.antt =====
-- agent/auth_utils.py: passwords and tokens. The handlers read the clock once for a request.
use Prim.Native.String.{String}
use wa_graph_rag_backend.Prelude.{ℕ, ◌+◌, ◌*◌, Bool, false, none, some, List}
use wa_graph_rag_backend.Database.Action.{Action, answer}
use wa_graph_rag_backend.Accounts.State.{Client, Decoded, Db, Env}

module _ (c : Client) where
  unfoldable pub hash_password : String → Env → Action (Db c) String
  hash_password plain env = answer (c.hashpw plain env.salt)

  -- An exception of bcrypt counts as a mismatch.
  unfoldable pub verify_password : String → String → Bool
  verify_password plain hashed = elim (c.checkpw plain hashed) [ none ↦ false | some b ↦ b ]

  unfoldable pub create_access_token : String → String → List String → Env → String
  create_access_token user_id email roles env = c.jwt_encode (record {
    sub = some user_id;
    email = some email;
    roles = some roles;
    kind = "access";
    exp = env.now + c.access_token_expire_minutes * 60;
  })

  -- The raw token, and its hash.
  unfoldable pub create_refresh_token : Env → String × String
  create_refresh_token env = (env.raw_refresh, c.sha256 env.raw_refresh)

  unfoldable pub decode_access_token : String → Env → Decoded
  decode_access_token token env = c.jwt_decode env.now token

  unfoldable pub hash_token : String → String
  hash_token raw = c.sha256 raw

  unfoldable pub refresh_token_expiry : Env → ℕ
  refresh_token_expiry env = env.now + c.refresh_token_expire_days * 86400

unfoldable pub make_otp : Env → String
make_otp env = env.otp

unfoldable pub verification_token_expiry : Env → ℕ
verification_token_expiry env = env.now + 24 * 3600

unfoldable pub reset_token_expiry : Env → ℕ
reset_token_expiry env = env.now + 3600
