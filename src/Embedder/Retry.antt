-- ===== src/Embedder/Retry.antt =====
-- How often ingestion/embedder.py calls the service for one text, and how that ends.
use wa_graph_rag_backend.Prelude.{
  ℕ, zero, suc, ◌+◌, ◌≤◌, ◌<◌, ◌≡◌, ◌⊎◌, inl, inr, refl, List, [], ◌∷◌, arith, Option-cases,
}
use wa_graph_rag_backend.Chunker.{Text}
use wa_graph_rag_backend.Embedder.{
  Outcome, value, raised, Service, EmbedderConfig, Vector, pause, first_vector, attempts, truncate,
  generate_embedding,
}

module _ (s : Service) (cfg : EmbedderConfig) (cost : s.World → ℕ)
    (create_cost : (ts : List Text) (w : s.World) → cost (s.create ts w).1 ≤ cost w + 1)
    (sleep_cost : (n : ℕ) (w : s.World) → cost (s.sleep n w) ≤ cost w) where
  abbrev pub Answered : Outcome (Vector s) → Type 0
  Answered o = ((v : Vector s) × (o ≡ value v)) ⊎ (o ≡ raised)

  attempts_bounds :
      (left attempt : ℕ) (t : Text) (w : s.World)
      → (cost (attempts s cfg (suc left) attempt t w).1 ≤ cost w + suc left)
        × Answered (attempts s cfg (suc left) attempt t w).0
  unfolding attempts
  attempts_bounds zero attempt t w =
      elim (Option-cases (first_vector s cfg (s.create (t ∷ []) w).0)) [
        | inr (v, e) ↦ rw e ((omega (arith, create_cost (t ∷ []) w), inl (v, refl)))
        | inl e ↦ rw e ((omega (arith, create_cost (t ∷ []) w), inr refl))
      ]
  attempts_bounds (suc left) attempt t w =
      let r = s.create (t ∷ []) w in
      let n = pause s cfg r.0 attempt in
      let (calls, ends) = attempts_bounds left (attempt + 1) t (s.sleep n r.1) in
      elim (Option-cases (first_vector s cfg (s.create (t ∷ []) w).0)) [
        | inr (v, e) ↦ rw e ((omega (arith, create_cost (t ∷ []) w), inl (v, refl)))
        | inl e ↦ rw e ((omega (arith, calls, create_cost (t ∷ []) w, sleep_cost n r.1), ends))
      ]

  -- `generate_embedding`, with one attempt at least, ends with a vector or with an exception, never
  -- with None; and whatever a call of the service raises by one at most, and a pause does not raise,
  -- such as the number of calls, it raises by `max_retries` at most.
  pub generate_embedding_bounds :
      (t : Text) (w : s.World)
      → 0 < cfg.max_retries
      → (cost (generate_embedding s cfg t w).1 ≤ cost w + cfg.max_retries)
        × (((v : Vector s) × ((generate_embedding s cfg t w).0 ≡ value v))
            ⊎ ((generate_embedding s cfg t w).0 ≡ raised))
  unfolding generate_embedding
  generate_embedding_bounds t w some_attempt = go cfg.max_retries some_attempt
    where
      go :
          (n : ℕ)
          → 0 < n
          → (cost (attempts s cfg n 0 (truncate s cfg t) w).1 ≤ cost w + n)
            × Answered (attempts s cfg n 0 (truncate s cfg t) w).0
      go zero h = absurd (omega arith)
      go (suc n) h = attempts_bounds n 0 (truncate s cfg t) w
