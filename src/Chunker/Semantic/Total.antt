-- ===== src/Chunker/Semantic/Total.antt =====
-- `SemanticChunker.chunk_document` of ingestion/chunker.py always ends with its chunks.
use Prim.Native.String.{String}
use wa_graph_rag_backend.Prelude.{
  ℕ, ◌≤◌, ◌<◌, ◌≡◌, refl, ap, ◌∙◌, Bool, true, false, List, [], ◌∷◌, length, if◌then◌else◌,
}
use wa_graph_rag_backend.Chunker.{Text, ChunkingConfig, chunks}
use wa_graph_rag_backend.Chunker.Split.{IsSound, simple_split_lem}
use wa_graph_rag_backend.Chunker.Objects.{Metadata, DocumentChunk, create_chunk_objects}
use wa_graph_rag_backend.Chunker.Objects.Places.{IsPlaced, create_chunk_objects-IsPlaced}
use wa_graph_rag_backend.Chunker.Semantic.{
  ChunkTools, DocumentRun, documents, as_objects, simple_chunk, split_on_structure, semantic_chunk,
  semantic_or_simple, chunk_document,
}
use wa_graph_rag_backend.Chunker.Semantic.Bounds.{AllBelow, semantic_chunk_ends}

module _ (tools : ChunkTools) (shorter : (t : Text) → length (tools.strip t) ≤ length t)
    (cfg : ChunkingConfig) (sound : IsSound cfg) (fuel : ℕ) (content : Text) where
  abbrev HasChunks : DocumentRun → Type 0
  HasChunks run =
      (ds : List DocumentChunk) × (run ≡ documents ds)
      × ((cs : List Text) × IsPlaced tools.strip cfg content 0 0 cs ds)

  objects_end :
      (cs : List Text) (base : Metadata)
      → HasChunks (documents (create_chunk_objects tools.strip cfg cs content base))
  objects_end cs base =
      (_, refl, (cs, create_chunk_objects-IsPlaced tools.strip cfg cs content base))

  simple_chunk_ends :
      (base : Metadata)
      → length content < fuel
      → HasChunks (simple_chunk tools cfg fuel content base)
  unfolding simple_chunk
  simple_chunk_ends base enough =
      let (cs, e, whole, sizes) = simple_split_lem cfg sound content fuel enough in
      let (ds, same, placed) = objects_end cs base in
      (ds, ap (as_objects tools cfg fuel content base) e ∙ same, placed)

  semantic_or_simple_ends :
      (timed_out : Bool) (base : Metadata) (cs : List Text)
      → length content < fuel
      → HasChunks (semantic_or_simple tools cfg fuel timed_out content base (chunks cs))
  semantic_or_simple_ends timed_out base [] enough = simple_chunk_ends base enough
  semantic_or_simple_ends true base (c ∷ cs) enough = simple_chunk_ends base enough
  semantic_or_simple_ends false base (c ∷ cs) enough = objects_end (c ∷ cs) base

  semantic_ends :
      (timed_out : Bool) (base : Metadata)
      → length content < fuel
      → AllBelow tools shorter cfg sound fuel (split_on_structure tools content)
      → HasChunks (
          semantic_or_simple tools cfg fuel timed_out content base
            (semantic_chunk tools cfg fuel content))
  semantic_ends timed_out base enough below =
      let (cs, e, within, long) = semantic_chunk_ends tools shorter cfg sound fuel content below in
      let (ds, same, placed) = semantic_or_simple_ends timed_out base cs enough in
      (ds, ap (semantic_or_simple tools cfg fuel timed_out content base) e ∙ same, placed)

  choose :
      (a b d : Bool) (x y z : DocumentRun)
      → HasChunks x
      → HasChunks y
      → HasChunks z
      → HasChunks (if a then x else if b then y else if d then z else y)
  choose true b d x y z h k l = h
  choose false true d x y z h k l = k
  choose false false true x y z h k l = l
  choose false false false x y z h k l = k

  -- Under a sound configuration, and with a round for each character of the document and of each of
  -- its sections and one more, `chunk_document` ends with a list of chunks, on every path: whatever
  -- the language model answers, and also when the semantic pass runs into its timeout. The chunks
  -- are placed in the document as `_create_chunk_objects` places them.
  pub chunk_document_ends :
      (timed_out : Bool) (title source : String) (metadata : Metadata)
      → length content < fuel
      → AllBelow tools shorter cfg sound fuel (split_on_structure tools content)
      → (ds : List DocumentChunk) × (chunk_document tools cfg fuel timed_out content title source
            metadata
          ≡ documents ds)
        × ((cs : List Text) × IsPlaced tools.strip cfg content 0 0 cs ds)
  unfolding chunk_document
  chunk_document_ends timed_out title source metadata enough below =
      choose _ _ _ _ _ _ ([], refl, ([], tt)) (simple_chunk_ends _ enough)
        (semantic_ends timed_out _ enough below)
