-- ===== src/Chunker/Semantic/Bounds.antt =====
-- The sizes of the chunks of `SemanticChunker` (ingestion/chunker.py), and that it ends.
use wa_graph_rag_backend.Prelude.{
  ℕ, ◌+◌, ◌≤◌, ◌<◌, ltb, leb, ◌≡◌, inl, inr, refl, ap, max, Option, none, some, List, [], ◌∷◌, ◌++◌,
  map, length, arith, Bool-cases,
}
use wa_graph_rag_backend.Chunker.{Text, ChunkingConfig, SplitRun, chunks, prepend, simple_split}
use wa_graph_rag_backend.Chunker.Split.{AllWithin, IsSound, simple_split_lem}
use wa_graph_rag_backend.Chunker.Semantic.{
  ChunkTools, is_tabular_data, keep_if, is_valid, valid_or_split, answered, split_long_section,
  potential, flush, group, long_enough, filtered, split_on_structure, semantic_chunk,
}

AllWithin-mono : (a b : ℕ) (cs : List Text) → a ≤ b → AllWithin a cs → AllWithin b cs
AllWithin-mono a b [] h k = tt
AllWithin-mono a b (c ∷ cs) h (k, ks) = (omega arith, AllWithin-mono a b cs h ks)

AllWithin-append :
    (a : ℕ) (cs ds : List Text) → AllWithin a cs → AllWithin a ds → AllWithin a (cs ++ ds)
AllWithin-append a [] ds h k = k
AllWithin-append a (c ∷ cs) ds (h, hs) k = (h, AllWithin-append a cs ds hs k)

-- Every chunk is as long as `least` when stripped.
abbrev pub AllLong : (Text → Text) → ℕ → List Text → Type 0
AllLong strip least [] = Unit {0}
AllLong strip least (c ∷ cs) = (least ≤ length (strip c)) × AllLong strip least cs

module _ (tools : ChunkTools) (shorter : (t : Text) → length (tools.strip t) ≤ length t)
    (cfg : ChunkingConfig) (sound : IsSound cfg) (fuel : ℕ) where
  -- The most that a chunk can have.
  abbrev pub most : ℕ
  most = max (cfg.chunk_size + 1) cfg.max_chunk_size

  simple_split_ends :
      (t : Text)
      → length t < fuel
      → (cs : List Text) × (simple_split cfg fuel t ≡ chunks cs) × AllWithin most cs
  simple_split_ends t enough =
      let (cs, e, whole, within) = simple_split_lem cfg sound t fuel enough in
      (cs, e, AllWithin-mono _ most cs (omega arith) within)

  valid-AllWithin : (ts : List Text) → AllWithin most (keep_if tools (is_valid tools cfg fuel) ts)
  valid-AllWithin [] = tt
  valid-AllWithin (t ∷ ts) = elim (Bool-cases (is_valid tools cfg fuel t)) [
    | inl ok ↦ rw ok ((ground arith, valid-AllWithin ts))
    | inr bad ↦ rw bad (valid-AllWithin ts)
  ]

  valid_or_split_ends :
      (valid : List Text) (t : Text)
      → length t < fuel
      → AllWithin most valid
      → (cs : List Text) × (valid_or_split tools cfg fuel valid t ≡ chunks cs) × AllWithin most cs
  valid_or_split_ends [] t enough h = simple_split_ends t enough
  valid_or_split_ends (c ∷ cs) t enough h = (c ∷ cs, refl, h)

  answered_ends :
      (o : Option Text) (t : Text)
      → length t < fuel
      → (cs : List Text) × (answered tools cfg fuel o t ≡ chunks cs) × AllWithin most cs
  answered_ends none t enough = simple_split_ends t enough
  answered_ends (some result) t enough =
      valid_or_split_ends _ t enough (valid-AllWithin (map tools.strip (tools.split_marks result)))

  split_long_section_ends :
      (t : Text)
      → length t < fuel
      → (cs : List Text) × (split_long_section tools cfg fuel t ≡ chunks cs) × AllWithin most cs
  unfolding split_long_section
  split_long_section_ends t enough = elim (Bool-cases (is_tabular_data tools t)) [
    | inl tabular ↦ rw tabular (simple_split_ends t enough)
    | inr plain ↦ elim (Bool-cases (ltb 20000 (length t))) [
      | inl large ↦ rw (plain, large) (simple_split_ends t enough)
      | inr small ↦ rw (plain, small) (answered_ends (tools.answer t) t enough)
    ]
  ]

  flush_ends :
      (current : Text) (run : SplitRun) (cs : List Text)
      → run ≡ chunks cs
      → length current ≤ most
      → AllWithin most cs
      → (ds : List Text) × (flush tools cfg fuel current run ≡ chunks ds) × AllWithin most ds
  flush_ends [] run cs e h within = (cs, e, within)
  flush_ends (x ∷ xs) run cs e h within = (
    tools.strip (x ∷ xs) ∷ cs,
    ap (prepend (tools.strip (x ∷ xs))) e,
    (omega (arith, shorter (x ∷ xs)), within),
  )

  abbrev pub AllBelow : List Text → Type 0
  AllBelow [] = Unit {0}
  AllBelow (t ∷ ts) = (length t < fuel) × AllBelow ts

  group_ends :
      (sections : List Text) (current : Text)
      → AllBelow sections
      → length current ≤ most
      → (cs : List Text) × (group tools cfg fuel sections current ≡ chunks cs) × AllWithin most cs
  unfolding group
  group_ends [] current enough h = flush_ends current (chunks []) [] refl h tt
  group_ends (t ∷ ts) current (enough, more) h =
      elim (Bool-cases (leb (length (potential tools cfg fuel current t)) cfg.chunk_size)) [
        | inl fits ↦
            rw fits (group_ends ts (potential tools cfg fuel current t) more (ground arith))
        | inr full ↦ elim (Bool-cases (ltb cfg.max_chunk_size (length t))) [
          | inl big ↦
              let (cs, e, within) = split_long_section_ends t enough in
              let (ds, e', within') = group_ends ts [] more (omega arith) in
              rw (full, big)
                (flush_ends current _ (cs ++ ds) (rw (e, e')) h
                  (AllWithin-append most cs ds within within'))
          | inr small ↦
              let (ds, e', within') = group_ends ts t more (ground arith) in
              rw (full, small) (flush_ends current _ ds e' h within')
        ]
      ]

  kept_lem :
      (cs : List Text)
      → AllWithin most cs
      → AllWithin most (keep_if tools (long_enough tools cfg fuel) cs)
        × AllLong tools.strip cfg.min_chunk_size (keep_if tools (long_enough tools cfg fuel) cs)
  kept_lem [] h = (tt, tt)
  kept_lem (c ∷ cs) (h, hs) =
      let (within, long) = kept_lem cs hs in
      elim (Bool-cases (long_enough tools cfg fuel c)) [
        | inl ok ↦ rw ok (((h, within), (ground arith, long)))
        | inr bad ↦ rw bad ((within, long))
      ]

  -- Under a sound configuration, and with a round for each character of the longest section and one
  -- more, `_semantic_chunk` ends, whatever the language model answers; each of its chunks has
  -- `min_chunk_size` characters at least when stripped, and at most the larger of
  -- `chunk_size + 1` and `max_chunk_size`.
  pub semantic_chunk_ends :
      (content : Text)
      → AllBelow (split_on_structure tools content)
      → (cs : List Text) × (semantic_chunk tools cfg fuel content ≡ chunks cs)
        × AllWithin most cs
        × AllLong tools.strip cfg.min_chunk_size cs
  unfolding semantic_chunk
  semantic_chunk_ends content enough =
      let (cs, e, within) = group_ends (split_on_structure tools content) [] enough (omega arith) in
      let (kept, long) = kept_lem cs within in
      (keep_if tools (long_enough tools cfg fuel) cs, ap (filtered tools cfg fuel) e, kept, long)
