-- ===== src/Chunker/Endless.antt =====
-- Configurations that `ChunkingConfig` accepts and under which `_simple_split` of
-- ingestion/chunker.py does not end.
use native.Mathlib.Decide.{dec_lt}
use wa_graph_rag_backend.Prelude.{
  ℕ, zero, suc, ◌+◌, ◌-◌, ◌≤◌, ◌<◌, ◌≡◌, refl, ap, ◌∙◌, true, false, some, length, get_elem?, arith,
  leb, ◌==◌,
}
use wa_graph_rag_backend.Prelude.Int.{ℤ, pos, add_pos, sub_pos}
use wa_graph_rag_backend.Chunker.{
  Text, ChunkingConfig, validated, is_sentence_end, boundary, running, prepend, chunk_end,
  simple_split_from, simple_split, slice,
}
use wa_graph_rag_backend.Chunker.Boundary.{margin, rounds_lem}
use wa_graph_rag_backend.Chunker.Split.{ltb_yes}

-- The last sentence boundary among the indices up to `i` is at `p`.
pub record IsLastEnd (text : Text) (p i : ℕ) : Type 0 where
  pub char : ℕ
  pub at : get_elem? text p ≡ some char
  pub ends : is_sentence_end char ≡ true
  pub rest :
      (j : ℕ) → p < j → j ≤ i → (d : ℕ) × (get_elem? text j ≡ some d) × (is_sentence_end d ≡ false)

boundary_found :
    (k i p e : ℕ) (text : Text)
    → IsLastEnd text p i
    → p ≤ i
    → i < p + k
    → boundary k text (pos i) (pos e) ≡ some (pos (p + 1))
unfolding boundary
boundary_found zero i p e text last le lt = absurd (omega arith)
boundary_found (suc k) i p e text last le lt = elim (dec_lt p i) [
  | no here ↦
      let same : i ≡ p = omega arith in
      rw (ap (get_elem? text) same ∙ last.at, boundary)
        (rw last.ends (ap some (add_pos i 1 ∙ ap (λ n. pos (n + 1)) same)))
  | yes above ↦
      let (d, found, other) = last.rest i above (omega arith) in
      let lower : IsLastEnd text p (i - 1) = record {
        char = last.char;
        at = last.at;
        ends = last.ends;
        rest = λ j h m. last.rest j h (omega arith);
      } in
      rw (found, boundary)
        (rw (other, sub_pos i 1 (omega arith))
          (boundary_found k (i - 1) p e text lower (omega arith) (omega arith)))
]

not_leb : {a b : ℕ} → a < b → leb b a ≡ false
not_leb h = ground arith

not_zero : {a : ℕ} → 0 < a → (a == 0) ≡ false
not_zero h = ground arith

module _ (cfg : ChunkingConfig) (text : Text) where
  -- The first round cuts where the overlap ends, so the second starts where the first did.
  pub record IsStuck : Type 0 where
    pub overlap : cfg.chunk_overlap ≡ margin cfg + 2
    pub less : cfg.chunk_overlap < cfg.chunk_size
    pub some_min : 0 < cfg.min_chunk_size
    pub longer : cfg.chunk_size < length text
    pub last : IsLastEnd text (margin cfg + 1) cfg.chunk_size

  again :
      (fuel : ℕ)
      → IsStuck
      → (c : Text) × (simple_split_from cfg (suc fuel) text (pos 0)
          ≡ prepend c (simple_split_from cfg fuel text (pos 0)))
  unfolding simple_split_from chunk_end
  again fuel stuck =
      let size = cfg.chunk_size in
      let e : 0 + size ≡ size = omega arith in
      let found =
        ap (λ k. boundary k text (pos (0 + size)) (pos (0 + size)))
          (rounds_lem 0 size cfg.min_chunk_size)
        ∙ ap (λ n. boundary (size - margin cfg) text (pos n) (pos n)) e
        ∙ boundary_found (size - margin cfg) size (margin cfg + 1) size text stuck.last
            (omega (arith, stuck.overlap, stuck.less)) (omega (arith, stuck.overlap, stuck.less)) in
      let zero_again : margin cfg + 1 + 1 - cfg.chunk_overlap ≡ 0 = omega (arith, stuck.overlap) in
      let back =
        sub_pos (margin cfg + 1 + 1) cfg.chunk_overlap (omega (arith, stuck.overlap))
        ∙ ap pos zero_again in
      (
        slice text (pos 0) (pos (margin cfg + 1 + 1)),
        rw
            (
              ltb_yes 0 (length text) (omega (arith, stuck.longer)),
              add_pos 0 size,
              ltb_yes (0 + size) (length text) (omega (arith, stuck.longer)),
              found,
            )
            (rw back),
      )

  nothing_yet : (text' : Text) (start : ℤ) → simple_split_from cfg zero text' start ≡ running
  unfolding simple_split_from
  nothing_yet text' start = refl

  round_after_round : (fuel : ℕ) → IsStuck → simple_split_from cfg fuel text (pos 0) ≡ running
  round_after_round zero stuck = nothing_yet text (pos 0)
  round_after_round (suc n) stuck =
      let (c, e) = again n stuck in e ∙ ap (prepend c) (round_after_round n stuck)

  -- On such a text the loop runs for ever: whatever the number of rounds, it has not ended. The
  -- checks of `ChunkingConfig` accept the configuration.
  pub simple_split_endless :
      (fuel : ℕ) → IsStuck → (simple_split cfg fuel text ≡ running) × (validated cfg ≡ some cfg)
  unfolding simple_split validated
  simple_split_endless fuel stuck =
      (round_after_round fuel stuck, rw (not_leb stuck.less, not_zero stuck.some_min))
