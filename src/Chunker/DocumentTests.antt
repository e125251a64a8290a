-- ===== src/Chunker/DocumentTests.antt =====
-- Runs of the two chunkers on a small document, and the theorems at inputs of such runs.
use wa_graph_rag_backend.Prelude.{
  ℕ, ◌+◌, ◌≤◌, ◌≡◌, refl, true, false, none, List, [], ◌∷◌, length, map, arith,
}
use wa_graph_rag_backend.Chunker.{
  Text, ChunkingConfig, chunks, boundary, is_sentence_end, chunk_end, simple_split_from,
  simple_split,
}
use wa_graph_rag_backend.Chunker.Split.{AllWithin, IsSound}
use wa_graph_rag_backend.Chunker.Objects.{
  DocumentChunk, new_chunk, find, chunk_metadata, create_from, create_chunk_objects,
}
use wa_graph_rag_backend.Chunker.Objects.Places.{
  IsPlaced, last_end, create_chunk_objects-IsPlaced, create_chunk_objects_overrun,
}
use wa_graph_rag_backend.Chunker.Semantic.{
  ChunkTools, documents, is_tabular_data, split_on_structure, split_long_section, group,
  semantic_chunk, simple_chunk, chunk_document,
}
use wa_graph_rag_backend.Chunker.Semantic.Bounds.{AllLong, AllBelow, most, semantic_chunk_ends}
use wa_graph_rag_backend.Chunker.Semantic.Total.{chunk_document_ends}
use wa_graph_rag_backend.Chunker.Paragraphs.{create_chunk, chunks_from, simple_chunk_document}
use wa_graph_rag_backend.Chunker.Paragraphs.Joined.{
  join_blank, stripped, IsCut, simple_chunk_document-IsCut,
}

chunking : Unit {0}
unfolding boundary is_sentence_end chunk_end simple_split_from simple_split new_chunk find
    chunk_metadata create_from create_chunk_objects is_tabular_data split_on_structure
    split_long_section group semantic_chunk simple_chunk chunk_document create_chunk chunks_from
    simple_chunk_document
chunking = tt

abbrev small : ChunkingConfig
small = record {
  chunk_size = 5;
  chunk_overlap = 1;
  max_chunk_size = 10;
  min_chunk_size = 1;
  use_semantic_splitting = true;
  preserve_structure = true;
}

small-IsSound : IsSound small
small-IsSound = record { less = omega arith; near = omega arith }

-- No whitespace to strip; a document has two sections, its first three characters and the rest.
abbrev same_text : Text → Text
same_text t = t

abbrev halves : Text → List Text
halves (a ∷ b ∷ c ∷ rest) = (a ∷ b ∷ c ∷ []) ∷ rest ∷ []
halves (a ∷ b ∷ []) = (a ∷ b ∷ []) ∷ []
halves (a ∷ []) = (a ∷ []) ∷ []
halves [] = []

abbrev tools : ChunkTools
tools = record {
  strip = same_text;
  splits = halves ∷ [];
  split_marks = λ t. t ∷ [];
  answer = λ t. none;
}

abbrev content : Text
content = 97 ∷ 98 ∷ 99 ∷ 100 ∷ 101 ∷ 102 ∷ 103 ∷ []

abbrev overlapping : List Text
overlapping = (97 ∷ 98 ∷ 99 ∷ 100 ∷ []) ∷ (100 ∷ 101 ∷ 102 ∷ 103 ∷ []) ∷ []

places : List DocumentChunk → List (ℕ × ℕ)
places ds = map (λ (d : DocumentChunk). (d.start_char, d.end_char)) ds

placed_runs :
    places (create_chunk_objects same_text small overlapping content []) ≡ (0, 4) ∷ (4, 8) ∷ []
unfolding chunking places
placed_runs = refl

create_chunk_objects-IsPlaced_example :
    IsPlaced same_text small content 0 0 overlapping
      (create_chunk_objects same_text small overlapping content [])
create_chunk_objects-IsPlaced_example =
    create_chunk_objects-IsPlaced same_text small overlapping content []

create_chunk_objects_overrun_example :
    length content + 1
    ≤ last_end same_text small 0 (create_chunk_objects same_text small overlapping content [])
create_chunk_objects_overrun_example =
    create_chunk_objects_overrun same_text small overlapping content [] (omega arith)

semantic_runs :
    semantic_chunk tools small 20 content
    ≡ chunks ((97 ∷ 98 ∷ 99 ∷ []) ∷ (100 ∷ 101 ∷ 102 ∷ 103 ∷ []) ∷ [])
unfolding chunking
semantic_runs = refl

below : AllBelow tools (λ t. omega arith) small small-IsSound 20 (split_on_structure tools content)
unfolding chunking
below = (omega arith, (omega arith, tt))

semantic_chunk_ends_example :
    (cs : List Text) × (semantic_chunk tools small 20 content ≡ chunks cs)
    × AllWithin (most tools (λ t. omega arith) small small-IsSound 20) cs
    × AllLong same_text 1 cs
semantic_chunk_ends_example =
    semantic_chunk_ends tools (λ t. omega arith) small small-IsSound 20 content below

chunk_document_ends_example :
    (ds : List DocumentChunk) × (chunk_document tools small 20 false content "Title" "doc" []
      ≡ documents ds)
    × ((cs : List Text) × IsPlaced same_text small content 0 0 cs ds)
chunk_document_ends_example =
    chunk_document_ends tools (λ t. omega arith) small small-IsSound 20 content false "Title" "doc"
      [] (omega arith) below

simple_chunk_document-IsCut_example :
    (cs : List Text) × (join_blank cs
      ≡ join_blank (stripped same_text halves small (halves content)))
    × IsCut same_text halves small
        (stripped same_text halves small (halves content))
        0
        cs
        (simple_chunk_document same_text halves small content "Title" "doc" [])
simple_chunk_document-IsCut_example =
    simple_chunk_document-IsCut same_text halves small content "Title" "doc" [] refl
