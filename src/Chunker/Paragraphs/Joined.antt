-- ===== src/Chunker/Paragraphs/Joined.antt =====
-- What `SimpleChunker` of ingestion/chunker.py does with the paragraphs.
use Prim.Native.String.{String}
use mathlib.Core.List.{append_assoc}
use wa_graph_rag_backend.Prelude.{
  ℕ, ◌+◌, ◌≤◌, leb, ◌≡◌, ◌⊎◌, refl, ap, ◌∙◌, inl, inr, false, List, [], ◌∷◌, ◌++◌, length, Memᴰ,
  arith, if◌then◌else◌, Bool-cases,
}
use wa_graph_rag_backend.Chunker.{Text, ChunkingConfig}
use wa_graph_rag_backend.Chunker.Objects.{Metadata, DocumentChunk, new_chunk}
use wa_graph_rag_backend.Chunker.Paragraphs.{
  is_empty, potential, create_chunk, saved, next_pos, next_index, chunks_from, with_total,
  simple_chunk_document,
}

-- Two texts with a blank line between them, where neither is empty.
abbrev pub glue : Text → Text → Text
glue [] b = b
glue (x ∷ a) [] = x ∷ a
glue (x ∷ a) (y ∷ b) = (x ∷ a) ++ (10 ∷ 10 ∷ y ∷ b)

-- `"\n\n".join(texts)`, for texts that are not empty.
abbrev pub join_blank : List Text → Text
join_blank [] = []
join_blank (t ∷ ts) = glue t (join_blank ts)

glue_assoc : (a b c : Text) → glue (glue a b) c ≡ glue a (glue b c)
glue_assoc [] b c = refl
glue_assoc (x ∷ a) [] c = refl
glue_assoc (x ∷ a) (y ∷ b) [] = refl
glue_assoc (x ∷ a) (y ∷ b) (z ∷ c) = append_assoc (x ∷ a) (10 ∷ 10 ∷ y ∷ b) (10 ∷ 10 ∷ z ∷ c)

potential-glue : (a b : Text) → is_empty b ≡ false → potential a b ≡ glue a b
potential-glue [] b h = refl
potential-glue (x ∷ a) [] h = cc
potential-glue (x ∷ a) (y ∷ b) h = refl

module _ (strip : Text → Text) (paragraphs : Text → List Text) (cfg : ChunkingConfig) where
  -- The paragraphs that are left after stripping.
  abbrev pub stripped : List Text → List Text
  stripped [] = []
  stripped (p ∷ ps) = if is_empty (strip p) then stripped ps else strip p ∷ stripped ps

  -- The objects belong to the texts one by one, numbered from `i`; each has its text stripped, and
  -- the text is within the chunk size or one paragraph.
  abbrev pub IsCut : List Text → ℕ → List Text → List DocumentChunk → Type 0
  IsCut ps i [] [] = Unit {0}
  IsCut ps i [] (d ∷ ds) = ⊥
  IsCut ps i (c ∷ cs) [] = ⊥
  IsCut ps i (c ∷ cs) (d ∷ ds) =
      (d.index ≡ i)
      × (d.content ≡ strip c)
      × (d.end_char ≡ d.start_char + length c)
      × ((length c ≤ cfg.chunk_size) ⊎ Memᴰ c ps)
      × IsCut ps (i + 1) cs ds

  abbrev Fits : List Text → Text → Type 0
  Fits ps c = (length c ≤ cfg.chunk_size) ⊎ Memᴰ c ps

  saved_lem :
      (all : List Text) (base : Metadata) (current : Text) (pos i : ℕ) (rest : Text)
      (cs : List Text) (ds : List DocumentChunk)
      → Fits all current
      → join_blank cs ≡ rest
      → IsCut all (next_index strip paragraphs cfg current i) cs ds
      → (cs' : List Text) × (join_blank cs' ≡ glue current rest)
        × IsCut all i cs' (saved strip paragraphs cfg current i pos base ds)
  unfolding create_chunk new_chunk
  saved_lem all base [] pos i rest cs ds fits e cut = (cs, e, cut)
  saved_lem all base (x ∷ xs) pos i rest cs ds fits e cut =
      ((x ∷ xs) ∷ cs, ap (glue (x ∷ xs)) e, (refl, refl, refl, fits, cut))

  stripped_tail : (p q : Text) (ps : List Text) → Memᴰ q (stripped ps) → Memᴰ q (stripped (p ∷ ps))
  stripped_tail p q ps m = elim (Bool-cases (is_empty (strip p))) [
    | inl blank ↦ rw blank m
    | inr there ↦ rw there (Memᴰ.tail m)
  ]

  stripped_head :
      (p : Text) (ps : List Text) → is_empty (strip p) ≡ false → Memᴰ (strip p) (stripped (p ∷ ps))
  stripped_head p ps there = rw there (Memᴰ.head refl)

  chunks_from_lem :
      (all : List Text) (base : Metadata) (ps : List Text) (current : Text) (pos i : ℕ)
      → ((p : Text) → Memᴰ p (stripped ps) → Memᴰ p all)
      → Fits all current
      → (cs : List Text) × (join_blank cs ≡ glue current (join_blank (stripped ps)))
        × IsCut all i cs (chunks_from strip paragraphs cfg base ps current pos i)
  unfolding chunks_from
  chunks_from_lem all base [] current pos i sub fits =
      saved_lem all base current pos i [] [] [] fits refl tt
  chunks_from_lem all base (p ∷ ps) current pos i sub fits =
      let sub' = λ (q : Text) (m : Memᴰ q (stripped ps)). sub q (stripped_tail p q ps m) in
      elim (Bool-cases (is_empty (strip p))) [
        | inl blank ↦ rw blank (chunks_from_lem all base ps current pos i sub' fits)
        | inr there ↦
            let joined = potential-glue current (strip p) there in
            elim (Bool-cases (leb (length (potential current (strip p))) cfg.chunk_size)) [
              | inl small ↦
                  let (cs, e, cut) =
                    chunks_from_lem all base ps (potential current (strip p)) pos i sub'
                      (inl (ground arith)) in
                  rw (there, small)
                    ((
                      cs,
                      e
                          ∙ ap (λ t. glue t (join_blank (stripped ps))) joined
                          ∙ glue_assoc current (strip p) (join_blank (stripped ps)),
                      cut,
                    ))
              | inr large ↦
                  let (cs, e, cut) =
                    chunks_from_lem all base ps (strip p)
                      (next_pos strip paragraphs cfg current pos)
                      (next_index strip paragraphs cfg current i) sub'
                      (inr (sub (strip p) (stripped_head p ps there))) in
                  rw (there, large) (saved_lem all base current pos i _ cs _ fits e cut)
            ]
      ]

  with_total-IsCut :
      (all : List Text) (n i : ℕ) (cs : List Text) (ds : List DocumentChunk)
      → IsCut all i cs ds
      → IsCut all i cs (with_total strip paragraphs cfg n ds)
  with_total-IsCut all n i [] [] h = tt
  with_total-IsCut all n i [] (d ∷ ds) h = elim h [ ]
  with_total-IsCut all n i (c ∷ cs) [] h = elim h [ ]
  with_total-IsCut all n i (c ∷ cs) (d ∷ ds) (index, same, ends, fits, rest) =
      (index, same, ends, fits, with_total-IsCut all n (i + 1) cs ds rest)

  -- `SimpleChunker` loses no paragraph and cuts none: a document that is not blank becomes texts that,
  -- joined again by blank lines, are its stripped paragraphs joined by blank lines, the empty ones
  -- left out; each text is within the chunk size or is one whole paragraph; and the chunks hold these
  -- texts, stripped, in order and numbered from 0, each with the length of its text.
  pub simple_chunk_document-IsCut :
      (content : Text) (title source : String) (metadata : Metadata)
      → is_empty (strip content) ≡ false
      → (cs : List Text) × (join_blank cs ≡ join_blank (stripped (paragraphs content)))
        × IsCut
            (stripped (paragraphs content))
            0
            cs
            (simple_chunk_document strip paragraphs cfg content title source metadata)
  unfolding simple_chunk_document
  simple_chunk_document-IsCut content title source metadata there =
      let all = stripped (paragraphs content) in
      let (cs, e, cut) =
        chunks_from_lem all _ (paragraphs content) [] 0 0 (λ p m. m) (inl (omega arith)) in
      rw there ((cs, e, with_total-IsCut all _ 0 cs _ cut))
