-- ===== src/Chunker/Boundary.antt =====
-- Where `_simple_split` of ingestion/chunker.py cuts, from a start inside the text.
use wa_graph_rag_backend.Prelude.{
  ℕ, zero, suc, ◌+◌, ◌-◌, ◌≤◌, ◌<◌, ◌≡◌, ◌⊎◌, inl, inr, refl, ap, ◌∙◌, max, some, length,
  get_elem?-lt, arith, Bool-cases,
}
use wa_graph_rag_backend.Prelude.Int.{pos, ◌+ℤ◌, ◌-ℤ◌, add_pos, sub_pos, max_ℤ, pos_part}
use wa_graph_rag_backend.Chunker.{Text, ChunkingConfig, is_sentence_end, boundary, chunk_end}

-- The search ends well, at its default or just behind one of the indices that it has read.
boundary_range :
    (k i e : ℕ) (text : Text)
    → k ≤ i
    → i < length text
    → (r : ℕ) × (boundary k text (pos i) (pos e) ≡ some (pos r))
      × ((r ≡ e) ⊎ ((i + 2 ≤ r + k) × (r ≤ i + 1)))
unfolding boundary
boundary_range zero i e text h lt = (e, refl, inl refl)
boundary_range (suc k) i e text h lt =
    let (ch, found) = get_elem?-lt text i lt in
    let (r, ih, range) = boundary_range k (i - 1) e text (omega arith) (omega arith) in
    let back = sub_pos i 1 (omega arith) in
    elim (Bool-cases (is_sentence_end ch)) [
      | inl hit ↦ (
        i + 1,
        rw (found, boundary) (rw hit (ap some (add_pos i 1))),
        inr (omega arith, omega arith),
      )
      | inr miss ↦ (
        r,
        rw (found, boundary) (rw miss (rw back ih)),
        elim range [ inl e ↦ inl e | inr b ↦ inr (omega arith, omega arith) ],
      )
    ]

-- The nearest that a cut can come to the start, less two.
abbrev pub margin : ChunkingConfig → ℕ
margin cfg = max cfg.min_chunk_size (cfg.chunk_size - 200)

pub rounds_lem :
    (s size least : ℕ)
    → pos_part (pos (s + size) -ℤ max_ℤ (pos s +ℤ pos least) (pos (s + size) -ℤ pos 200))
      ≡ size - max least (size - 200)
unfolding ◌-ℤ◌ ◌+ℤ◌
rounds_lem s size least = ground arith

module _ (cfg : ChunkingConfig) where
  pub chunk_end_range :
      (s : ℕ) (text : Text)
      → s + cfg.chunk_size < length text
      → (r : ℕ) × (chunk_end cfg text (pos s) (pos (s + cfg.chunk_size)) ≡ some (pos r))
        × ((r ≡ s + cfg.chunk_size) ⊎ ((s + margin cfg + 2 ≤ r) × (r ≤ s + cfg.chunk_size + 1)))
  unfolding chunk_end
  chunk_end_range s text lt =
      let size = cfg.chunk_size in
      let rounds = rounds_lem s size cfg.min_chunk_size in
      let (r, cut, range) =
        boundary_range (size - margin cfg) (s + size) (s + size) text (omega arith) lt in
      (
        r,
        ap (λ k. boundary k text (pos (s + size)) (pos (s + size))) rounds ∙ cut,
        elim range [ inl e ↦ inl e | inr b ↦ inr (omega arith, omega arith) ],
      )
