-- ===== src/Accounts/Sample.antt =====
-- A client that meets the laws of `Client`, and a database, for the runs in `Tests`: tables as
-- lists, a hash that is the password itself, and one access token.
use Prim.Native.String.{String}
use text.Mathlib.Text.{◌==◌}
use text.Mathlib.TextEquality.{eq_iff}
use mathlib.Core.List.Memᴰ
use mathlib.Core.Path.{subst}
use wa_graph_rag_backend.Prelude.{
  ◌≡◌, ◌↔◌, refl, sym, ap, ◌∙◌, inl, inr, Bool, true, false, Option, none, some, List, [], ◌∷◌,
  ◌++◌, Memᴰ, map, if◌then◌else◌, Bool-cases, some_inv,
}
use wa_graph_rag_backend.Database.InMemory.{in_memory, keep, keep_rows}
use wa_graph_rag_backend.Accounts.State.{
  User, Role, UserRole, Permission, RolePermission, RefreshToken, OneTimeToken, Claims, claims,
  invalid, Client, Db, Env,
}

abbrev pub role_names : List Role → UserRole → List (Option String)
role_names roles l = map (λ (r : Role). some r.name) (keep (λ r. r.id == l.role_id) roles)

abbrev pub embed : (UserRole → Bool) → List UserRole → List Role → List (Option String)
embed p [] roles = []
embed p (l ∷ links) roles =
    if p l then role_names roles l ++ embed p links roles else embed p links roles

role_names_rows :
    (roles : List Role) (l : UserRole) (n : String)
    → Memᴰ (some n) (role_names roles l)
    → (r : Role) × Memᴰ r roles × (r.id ≡ l.role_id) × (r.name ≡ n)
role_names_rows roles l n m =
    let (r, h, e) = Memᴰ.of_map (λ (r : Role). some r.name) _ m in
    let (listed, named) = (keep_rows (λ r. r.id == l.role_id) roles r).0 h in
    (r, listed, (eq_iff _ _).0 named, some_inv e)

embed_sound :
    (p : UserRole → Bool) (links : List UserRole) (roles : List Role) (n : String)
    → Memᴰ (some n) (embed p links roles)
    → (l : UserRole) × (r : Role) × Memᴰ l links
      × (p l ≡ true)
      × Memᴰ r roles
      × (r.id ≡ l.role_id)
      × (r.name ≡ n)
embed_sound p [] roles n m = absurd (Memᴰ.not-nil m)
embed_sound p (l ∷ links) roles n m =
    let ih = embed_sound p links roles n in
    elim (Bool-cases (p l)) [
      | inl hit ↦ elim (Memᴰ.append_cases (role_names roles l) (rw hit at m)) [
        | inl here ↦
            let (r, listed, linked, named) = role_names_rows roles l n here in
            (l, r, Memᴰ.head refl, hit, listed, linked, named)
        | inr there ↦ let (k, r, h, a, b, c, d) = ih there in (k, r, Memᴰ.tail h, a, b, c, d)
      ]
      | inr miss ↦ let (k, r, h, a, b, c, d) = ih (rw miss at m) in (k, r, Memᴰ.tail h, a, b, c, d)
    ]

embed_complete :
    (p : UserRole → Bool) (links : List UserRole) (roles : List Role) (l : UserRole) (r : Role)
    → Memᴰ l links
    → p l ≡ true
    → Memᴰ r roles
    → r.id ≡ l.role_id
    → Memᴰ (some r.name) (embed p links roles)
embed_complete p (x ∷ links) roles l r (Memᴰ.head e) hit listed linked = rw (ap p (sym e) ∙ hit) (
    Memᴰ.append_left (embed p links roles) (
      Memᴰ.map (λ (r : Role). some r.name)
        ((keep_rows _ roles r).1 (listed, (eq_iff _ _).1 (linked ∙ ap (λ k. k.role_id) e)))))
embed_complete p (x ∷ links) roles l r (Memᴰ.tail m) hit listed linked =
    let ih = embed_complete p links roles l r m hit listed linked in
    elim (Bool-cases (p x)) [
      | inl e ↦ rw e (Memᴰ.append_right (role_names roles x) ih)
      | inr e ↦ rw e ih
    ]
embed_complete p [] roles l r m hit listed linked = absurd (Memᴰ.not-nil m)

pub embed_rows :
    (p : UserRole → Bool) (links : List UserRole) (roles : List Role) (names : List (Option String))
    → some (embed p links roles) ≡ some names
    → (n : String)
    → Memᴰ (some n) names ↔ (
        (l : UserRole) × (r : Role) × Memᴰ l links
        × (p l ≡ true)
        × Memᴰ r roles
        × (r.id ≡ l.role_id)
        × (r.name ≡ n))
embed_rows p links roles names e n = (
  λ m. embed_sound p links roles n (subst (λ x. Memᴰ (some n) x) (sym (some_inv e)) m),
  λ (l, r, linked, hit, listed, joined, named).
      subst (λ x. Memᴰ (some x) names) named
        (subst (λ x. Memᴰ (some r.name) x) (some_inv e)
          (embed_complete p links roles l r linked hit listed joined)),
)

-- The one access token that the sample accepts.
abbrev pub ann_claims : Claims
ann_claims = record {
  sub = some "u1";
  email = some "ann@x.pk";
  roles = some ("user" ∷ []);
  kind = "access";
  exp = 5000;
}

abbrev pub sample : Client
sample = record {
  users = in_memory User;
  roles = in_memory Role;
  user_roles = in_memory UserRole;
  permissions = in_memory Permission;
  role_permissions = in_memory RolePermission;
  refresh_tokens = in_memory RefreshToken;
  password_resets = in_memory OneTimeToken;
  email_verifications = in_memory OneTimeToken;
  embed_roles = λ p links roles. some (embed p links roles);
  embed_roles_rows = embed_rows;
  hashpw = λ plain salt. some plain;
  checkpw = λ plain hashed. some (plain == hashed);
  checkpw-hashpw = λ plain salt hashed e. ap some ((eq_iff _ _).1 (some_inv e));
  jwt_encode = λ c. "token";
  jwt_decode = λ now token. if token == "token" then claims ann_claims else invalid;
  sha256 = λ raw. raw;
  access_token_expire_minutes = 60;
  refresh_token_expire_days = 7;
}

abbrev pub ann : User
ann = record {
  id = "u1";
  email = "ann@x.pk";
  username = none;
  full_name = some "Ann";
  hashed_password = "password1";
  is_active = true;
  is_verified = true;
  last_login_at = none;
  created_at = "2025-01-01";
  avatar_url = none;
}

abbrev pub old_token : RefreshToken
old_token = record {
  id = "r1";
  user_id = "u1";
  token_hash = "old";
  expires_at = 9000;
  revoked = false;
}

abbrev pub reset_row : OneTimeToken
reset_row = record { id = "p1"; user_id = "u1"; token = "reset"; expires_at = 9000; used = false }

abbrev pub check_row : OneTimeToken
check_row = record { id = "e1"; user_id = "u1"; token = "check"; expires_at = 9000; used = false }

abbrev pub admin_role : Role
admin_role = record { id = "role1"; name = "admin"; description = none }

abbrev pub user_role : Role
user_role = record { id = "role2"; name = "user"; description = none }

abbrev pub sample_db : Db sample
sample_db = record {
  users = ann ∷ [];
  roles = admin_role ∷ user_role ∷ [];
  user_roles = record { user_id = "u1"; role_id = "role2" } ∷ [];
  permissions = [];
  role_permissions = [];
  refresh_tokens = old_token ∷ [];
  password_resets = reset_row ∷ [];
  email_verifications = check_row ∷ [];
}

abbrev pub sample_env : Env
sample_env = record {
  now = 1000;
  uuid = "u2";
  salt = "salt";
  otp = "otp1";
  raw_refresh = "new";
  row_id = "r2";
  created_at = "2025-02-02";
}
