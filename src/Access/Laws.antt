-- ===== src/Access/Laws.antt =====
-- Who may read a document of a bucket (agent/access_control.py).
use Prim.Native.String.{String}
use text.Mathlib.Text.{◌==◌}
use wa_graph_rag_backend.Prelude.{
  ◌≡◌, ◌⊎◌, inl, inr, refl, true, false, Option, none, some, arith, Bool-cases,
}
use wa_graph_rag_backend.Access.{AccessEnv, assign_access_level, listed, known, can_access_document}

module _ (env : AccessEnv) where
  known-listed :
      (user_id : Option String)
      → known env user_id ≡ true
      → (id : String) × (user_id ≡ some id)
        × ((id == "") ≡ false)
        × ((listed env.strip id (env.split env.admin_users) ≡ true)
            ⊎ (listed env.strip id (env.split env.private_document_users) ≡ true))
  known-listed none h = cc
  known-listed (some id) h = elim (Bool-cases (id == "")) [
    | inl empty ↦ absurd (ground arith)
    | inr named ↦ elim (Bool-cases (listed env.strip id (env.split env.admin_users))) [
      | inl admin ↦ (id, refl, named, inl admin)
      | inr other ↦ (id, refl, named, inr (ground arith))
    ]
  ]

  -- Whoever may read a document of a bucket: the bucket is not the private one, or the reader has an
  -- identifier and is listed in ADMIN_USERS or in PRIVATE_DOCUMENT_USERS.
  pub can_access_document-assign_access_level :
      (user_id : Option String) (bucket : String)
      → can_access_document env user_id (assign_access_level bucket) ≡ true
      → ((bucket == "private") ≡ false)
        ⊎ ((id : String) × (user_id ≡ some id)
            × ((id == "") ≡ false)
            × ((listed env.strip id (env.split env.admin_users) ≡ true)
                ⊎ (listed env.strip id (env.split env.private_document_users) ≡ true)))
  unfolding can_access_document assign_access_level
  can_access_document-assign_access_level user_id bucket h =
      elim (Bool-cases (bucket == "private")) [
        | inl private_one ↦ inr (known-listed user_id (rw private_one at h))
        | inr other ↦ inl other
      ]
