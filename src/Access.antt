-- ===== src/Access.antt =====
-- agent/access_control.py: who may read a document. `strip` and `split` are Python's `str.strip` and
-- `str.split(",")`, and the texts are the environment variables.
pub mod Laws
mod Tests
use Prim.Native.String.{String}
use text.Mathlib.Text.{◌==◌}
use wa_graph_rag_backend.Prelude.{
  Bool, true, false, ◌||◌, Option, none, some, List, [], ◌∷◌, if◌then◌else◌,
}

pub record AccessEnv : Type 0 where
  pub admin_users : String
  pub private_document_users : String
  pub split : String → List String
  pub strip : String → String

unfoldable pub assign_access_level : String → String
assign_access_level bucket_type = if bucket_type == "private" then "private" else "public"

-- `user_id in {u.strip() for u in parts if u.strip()}`
abbrev pub listed : (String → String) → String → List String → Bool
listed strip user_id [] = false
listed strip user_id (u ∷ us) =
    if strip u == "" then listed strip user_id us else strip u == user_id || listed strip user_id us

module _ (env : AccessEnv) where
  abbrev pub known_user : String → Bool
  known_user user_id =
      if user_id == ""
      then false
      else if listed env.strip user_id (env.split env.admin_users)
      then true
      else listed env.strip user_id (env.split env.private_document_users)

  abbrev pub known : Option String → Bool
  known none = false
  known (some user_id) = known_user user_id

  unfoldable pub can_access_document : Option String → String → Bool
  can_access_document user_id access_level =
      if access_level == "public" then true else known user_id
