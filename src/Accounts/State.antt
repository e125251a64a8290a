-- ===== src/Accounts/State.antt =====
-- The tables that the account modules read and write, and the libraries that they call.
-- A row has the columns that the sources name; a timestamp is a number of seconds, where the
-- sources store its ISO form and parse it back.
use Prim.Native.String.{String}
use wa_graph_rag_backend.Prelude.{ℕ, ◌≡◌, ◌↔◌, Bool, true, Option, some, List, Memᴰ}
use wa_graph_rag_backend.Database.{Table}

pub record User : Type 0 where
  pub id : String
  pub email : String
  pub username : Option String
  pub full_name : Option String
  pub hashed_password : String
  pub is_active : Bool
  pub is_verified : Bool
  pub last_login_at : Option ℕ
  pub created_at : String
  pub avatar_url : Option String

pub record Role : Type 0 where
  pub id : String
  pub name : String
  pub description : Option String

pub record UserRole : Type 0 where
  pub user_id : String
  pub role_id : String

pub record Permission : Type 0 where
  pub id : String
  pub name : String
  pub description : Option String
  pub resource : Option String
  pub action : Option String

pub record RolePermission : Type 0 where
  pub role_id : String
  pub permission_id : String

pub record RefreshToken : Type 0 where
  pub id : String
  pub user_id : String
  pub token_hash : String
  pub expires_at : ℕ
  pub revoked : Bool

-- A row of `password_resets` or of `email_verifications`.
pub record OneTimeToken : Type 0 where
  pub id : String
  pub user_id : String
  pub token : String
  pub expires_at : ℕ
  pub used : Bool

-- The payload of an access token. A token of another origin may lack a claim.
pub record Claims : Type 0 where
  pub sub : Option String
  pub email : Option String
  pub roles : Option (List String)
  pub kind : String
  pub exp : ℕ

-- What `jwt.decode` does: it returns the claims, or raises ExpiredSignatureError or another
-- PyJWTError.
pub data Decoded : Type 0 where
  claims : Claims → Decoded
  expired : Decoded
  invalid : Decoded

-- What the account modules take from outside the repository: the tables, PostgREST's embedding of
-- `roles(name)` in the rows of `user_roles`, bcrypt, PyJWT, SHA-256, and two settings.
pub record Client : Type 1 where
  pub users : Table User
  pub roles : Table Role
  pub user_roles : Table UserRole
  pub permissions : Table Permission
  pub role_permissions : Table RolePermission
  pub refresh_tokens : Table RefreshToken
  pub password_resets : Table OneTimeToken
  pub email_verifications : Table OneTimeToken
  -- `.table("user_roles").select("roles(name)")`: the role's name for each row, or null.
  pub embed_roles :
      (UserRole → Bool) → user_roles.Store → roles.Store → Option (List (Option String))
  pub embed_roles_rows :
      (p : UserRole → Bool) (links : user_roles.Store) (s : roles.Store)
      (names : List (Option String))
      → embed_roles p links s ≡ some names
      → (n : String)
      → Memᴰ (some n) names ↔ (
          (l : UserRole) × (r : Role) × user_roles.Has links l
          × (p l ≡ true)
          × roles.Has s r
          × (r.id ≡ l.role_id)
          × (r.name ≡ n))
  -- `bcrypt.hashpw(plain, salt)`; `none` is a raise.
  pub hashpw : String → String → Option String
  pub checkpw : String → String → Option Bool
  pub checkpw-hashpw :
      (plain salt hashed : String)
      → hashpw plain salt ≡ some hashed
      → checkpw plain hashed ≡ some true
  -- `jwt.encode` and `jwt.decode` with the module's secret; decoding reads the clock.
  pub jwt_encode : Claims → String
  pub jwt_decode : ℕ → String → Decoded
  -- `hashlib.sha256(raw.encode()).hexdigest()`
  pub sha256 : String → String
  -- ACCESS_TOKEN_EXPIRE_MINUTES and REFRESH_TOKEN_EXPIRE_DAYS
  pub access_token_expire_minutes : ℕ
  pub refresh_token_expire_days : ℕ

-- The database.
pub record Db (c : Client) : Type 0 where
  pub users : c.users.Store
  pub roles : c.roles.Store
  pub user_roles : c.user_roles.Store
  pub permissions : c.permissions.Store
  pub role_permissions : c.role_permissions.Store
  pub refresh_tokens : c.refresh_tokens.Store
  pub password_resets : c.password_resets.Store
  pub email_verifications : c.email_verifications.Store

-- What one request draws from its surroundings: the clock, a UUID, the random tokens and the salt,
-- and the values that the database gives to the columns which an insert leaves out.
pub record Env : Type 0 where
  pub now : ℕ
  pub uuid : String
  pub salt : String
  pub otp : String
  pub raw_refresh : String
  pub row_id : String
  pub created_at : String
