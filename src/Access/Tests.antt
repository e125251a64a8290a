-- ===== src/Access/Tests.antt =====
-- The theorem on the access to documents at small lists.
use Prim.Native.String.{String}
use text.Mathlib.Text.{◌==◌}
use wa_graph_rag_backend.Prelude.{◌≡◌, ◌⊎◌, refl, true, false, some, [], ◌∷◌}
use wa_graph_rag_backend.Access.{AccessEnv, assign_access_level, listed, can_access_document}
use wa_graph_rag_backend.Access.Laws.{can_access_document-assign_access_level}

abbrev small_env : AccessEnv
small_env = record {
  admin_users = "ann";
  private_document_users = "bob";
  split = λ text. text ∷ [];
  strip = λ text. text;
}

stranger_refused :
    can_access_document small_env (some "eve") (assign_access_level "private") ≡ false
unfolding can_access_document assign_access_level
stranger_refused = refl

can_access_document-assign_access_level_example :
    (("private" == "private") ≡ false)
    ⊎ ((id : String) × (some "bob" ≡ some id)
        × ((id == "") ≡ false)
        × ((listed (λ text. text) id ("ann" ∷ []) ≡ true)
            ⊎ (listed (λ text. text) id ("bob" ∷ []) ≡ true)))
unfolding can_access_document assign_access_level
can_access_document-assign_access_level_example =
    can_access_document-assign_access_level small_env (some "bob") "private" refl
