-- ===== src/Chunker/Paragraphs.antt =====
-- ingestion/chunker.py, `SimpleChunker`: chunks of whole paragraphs.
pub mod Joined
use Prim.Native.String.{String}
use wa_graph_rag_backend.Prelude.{
  ℕ, ◌+◌, ◌-◌, leb, Bool, true, false, not, ◌&&◌, ◌||◌, List, [], ◌∷◌, ◌++◌, length, if◌then◌else◌,
}
use wa_graph_rag_backend.Prelude.Dict.{put, update}
use wa_graph_rag_backend.Chunker.{Text, ChunkingConfig}
use wa_graph_rag_backend.Chunker.Objects.{Value, text, number, Metadata, DocumentChunk, new_chunk}

abbrev is_empty : Text → Bool
is_empty [] = true
is_empty (x ∷ xs) = false

-- `current_chunk + "\n\n" + paragraph if current_chunk else paragraph`
abbrev pub potential : Text → Text → Text
potential [] paragraph = paragraph
potential (x ∷ xs) paragraph = (x ∷ xs) ++ (10 ∷ 10 ∷ paragraph)

-- `strip` is `str.strip`, and `paragraphs` is `re.split(r"\n\s*\n", ·)`.
module _ (strip : Text → Text) (paragraphs : Text → List Text) (cfg : ChunkingConfig) where
  unfoldable pub create_chunk : Text → ℕ → ℕ → ℕ → Metadata → DocumentChunk
  create_chunk content index start_pos end_pos metadata =
      new_chunk (strip content) index start_pos end_pos metadata

  -- `if current_chunk: chunks.append(...)`
  abbrev pub saved : Text → ℕ → ℕ → Metadata → List DocumentChunk → List DocumentChunk
  saved [] index pos base rest = rest
  saved (x ∷ xs) index pos base rest =
      create_chunk (x ∷ xs) index pos (pos + length (x ∷ xs)) base ∷ rest

  abbrev pub next_pos : Text → ℕ → ℕ
  next_pos [] pos = pos
  next_pos (x ∷ xs) pos = pos + (length (x ∷ xs) - cfg.chunk_overlap)

  abbrev pub next_index : Text → ℕ → ℕ
  next_index [] index = index
  next_index (x ∷ xs) index = index + 1

  -- The loop over the paragraphs and the last chunk behind it.
  unfoldable pub chunks_from : Metadata → List Text → Text → ℕ → ℕ → List DocumentChunk
  chunks_from base [] current pos index = saved current index pos base []
  chunks_from base (p ∷ ps) current pos index =
      let paragraph = strip p in
      let blank = is_empty paragraph in
      let fits = leb (length (potential current paragraph)) cfg.chunk_size in
      let rest =
        chunks_from base ps
          (if blank then current else if fits then potential current paragraph else paragraph)
          (if blank then pos else if fits then pos else next_pos current pos)
          (if blank then index else if fits then index else next_index current index) in
      if blank then rest else if fits then rest else saved current index pos base rest

  abbrev pub with_total : ℕ → List DocumentChunk → List DocumentChunk
  with_total n [] = []
  with_total n (d ∷ ds) =
      record d { metadata = put "total_chunks" (number n) d.metadata } ∷ with_total n ds

  unfoldable pub simple_chunk_document : Text → String → String → Metadata → List DocumentChunk
  simple_chunk_document content title source metadata =
      let base =
        update
          (("title", text title) ∷ ("source", text source) ∷ ("chunk_method", text "simple") ∷ [])
          metadata in
      let ds = chunks_from base (paragraphs content) [] 0 0 in
      if is_empty (strip content) then [] else with_total (length ds) ds
