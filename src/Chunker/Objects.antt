-- ===== src/Chunker/Objects.antt =====
-- ingestion/chunker.py, the chunks of a document: `DocumentChunk` and `_create_chunk_objects`.
pub mod Places
use Prim.Native.String.{String}
use wa_graph_rag_backend.Prelude.{
  ℕ, zero, suc, ◌+◌, ◌/◌, ◌≤◌, ltb, ◌==◌, Bool, true, false, ◌&&◌, Option, none, some, List, [],
  ◌∷◌, length, drop, if◌then◌else◌,
}
use wa_graph_rag_backend.Prelude.Dict.{Dict, put, update}
use wa_graph_rag_backend.Chunker.{Text, ChunkingConfig}

-- A value of the metadata of a document or a chunk.
pub data Value : Type 0 where
  text : String → Value
  number : ℕ → Value
  flag : Bool → Value

abbrev pub Metadata : Type 0
Metadata = Dict Value

pub record DocumentChunk : Type 0 where
  pub content : Text
  pub index : ℕ
  pub start_char : ℕ
  pub end_char : ℕ
  pub metadata : Metadata
  pub token_count : ℕ

-- `__post_init__`, for a chunk whose number of tokens is not given.
unfoldable pub new_chunk : Text → ℕ → ℕ → ℕ → Metadata → DocumentChunk
new_chunk content index start_char end_char metadata = record {
  content = content;
  index = index;
  start_char = start_char;
  end_char = end_char;
  metadata = metadata;
  token_count = length content / 4;
}

abbrev pub is_prefix : Text → Text → Bool
is_prefix [] ys = true
is_prefix (x ∷ xs) [] = false
is_prefix (x ∷ xs) (y ∷ ys) = (x == y) && is_prefix xs ys

abbrev pub moved : Option ℕ → Option ℕ
moved none = none
moved (some n) = some (suc n)

-- The first place of a text at which another one begins.
abbrev pub find_in : Text → Text → Option ℕ
find_in sub [] = if is_prefix sub [] then some 0 else none
find_in sub (x ∷ xs) =
    let rest = find_in sub xs in if is_prefix sub (x ∷ xs) then some 0 else moved rest

abbrev pub shifted : ℕ → Option ℕ → Option ℕ
shifted n none = none
shifted n (some m) = some (n + m)

-- `content.find(sub, start)`; `none` is -1.
unfoldable pub find : Text → Text → ℕ → Option ℕ
find content sub start =
    if ltb (length content) start then none else shifted start (find_in sub (drop start content))

abbrev pub or_else : Option ℕ → ℕ → ℕ
or_else none n = n
or_else (some m) n = m

-- `strip` is Python's `str.strip`.
module _ (strip : Text → Text) (cfg : ChunkingConfig) where
  unfoldable pub chunk_metadata : Metadata → ℕ → Metadata
  chunk_metadata base total =
      put "total_chunks" (number total) (
        put "chunk_method" (text (if cfg.use_semantic_splitting then "semantic" else "simple"))
          base)

  -- The loop, from the chunk `i` on and from the place `current_pos`.
  unfoldable pub create_from : Text → Metadata → ℕ → ℕ → ℕ → List Text → List DocumentChunk
  create_from content base total i current_pos [] = []
  create_from content base total i current_pos (c ∷ cs) =
      let start_pos = or_else (find content c current_pos) current_pos in
      new_chunk (strip c) i start_pos (start_pos + length c) (chunk_metadata base total)
      ∷ create_from content base total (i + 1) (start_pos + length c) cs

  unfoldable pub create_chunk_objects : List Text → Text → Metadata → List DocumentChunk
  create_chunk_objects cs content base = create_from content base (length cs) 0 0 cs
