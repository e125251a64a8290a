-- ===== src/Chunker.antt =====
-- ingestion/chunker.py. A text is the list of its code points, as Python indexes it. Sizes are
-- natural numbers; positions in `_simple_split` are integers, since a step back by the overlap can
-- leave the text on the left, where Python counts from the right end.
pub mod Boundary
pub mod Split
pub mod Endless
pub mod Objects
pub mod Semantic
pub mod Paragraphs
mod Tests
mod DocumentTests
use Prim.Native.Char.{code}
use Prim.Native.String.{String}
use wa_graph_rag_backend.Prelude.{
  ℕ, zero, suc, ◌-◌, ◌+◌, min, ltb, leb, ◌==◌, Bool, true, false, ◌&&◌, ◌||◌, not, Option, none,
  some, List, [], ◌∷◌, ◌++◌, map, length, get_elem?, take, drop, if◌then◌else◌,
}
use wa_graph_rag_backend.Prelude.Int.{ℤ, pos, negsuc, ◌+ℤ◌, ◌-ℤ◌, ltb_ℤ, max_ℤ, pos_part}

abbrev pub Text : Type 0
Text = List ℕ

pub record ChunkingConfig : Type 0 where
  pub chunk_size : ℕ
  pub chunk_overlap : ℕ
  pub max_chunk_size : ℕ
  pub min_chunk_size : ℕ
  pub use_semantic_splitting : Bool
  pub preserve_structure : Bool

-- `__post_init__`: `none` is a ValueError.
unfoldable pub validated : ChunkingConfig → Option ChunkingConfig
validated cfg =
    if leb cfg.chunk_size cfg.chunk_overlap
    then none
    else if cfg.min_chunk_size == 0
    then none
    else some cfg

-- `text[i]`; `none` is an IndexError.
abbrev pub char_at : Text → ℤ → Option ℕ
char_at text (pos i) = get_elem? text i
char_at text (negsuc k) = if ltb k (length text) then get_elem? text (length text - suc k) else none

-- An end of a slice, brought into the text.
abbrev pub clamp : ℕ → ℤ → ℕ
clamp n (pos i) = min i n
clamp n (negsuc k) = n - suc k

-- `text[a:b]`
abbrev pub slice : Text → ℤ → ℤ → Text
slice text a b =
    take (clamp (length text) b - clamp (length text) a) (drop (clamp (length text) a) text)

-- `text[i] in ".!?\n"`
unfoldable pub is_sentence_end : ℕ → Bool
is_sentence_end ch = ch == b'.' || ch == b'!' || ch == b'?' || ch == 10

-- The search for a sentence boundary: `rounds` indices from `i` downwards; `none` is an IndexError.
unfoldable pub boundary : ℕ → Text → ℤ → ℤ → Option ℤ
boundary zero text i end = some end
boundary (suc rounds) text i end =
    let rest = boundary rounds text (i -ℤ pos 1) end in
    elim (char_at text i) [
      | none ↦ none
      | some ch ↦ if is_sentence_end ch then some (i +ℤ pos 1) else rest
    ]

-- How a run of `_simple_split` ends: with the chunks, with an IndexError, or not yet.
pub data SplitRun : Type 0 where
  chunks : List Text → SplitRun
  index_error : SplitRun
  running : SplitRun

abbrev pub prepend : Text → SplitRun → SplitRun
prepend c (chunks cs) = chunks (c ∷ cs)
prepend c index_error = index_error
prepend c running = running

module _ (cfg : ChunkingConfig) where
  unfoldable pub chunk_end : Text → ℤ → ℤ → Option ℤ
  chunk_end text start end =
      let lower = max_ℤ (start +ℤ pos cfg.min_chunk_size) (end -ℤ pos 200) in
      boundary (pos_part (end -ℤ lower)) text end end

  -- The `while` loop, for as many rounds as the fuel allows.
  unfoldable pub simple_split_from : ℕ → Text → ℤ → SplitRun
  simple_split_from zero text start = running
  simple_split_from (suc fuel) text start =
      let end = start +ℤ pos cfg.chunk_size in
      let last = slice text start (pos (length text)) in
      let next = λ (cut : ℤ).
        prepend (slice text start cut)
          (simple_split_from fuel text (cut -ℤ pos cfg.chunk_overlap)) in
      if ltb_ℤ start (pos (length text))
      then (if ltb_ℤ end (pos (length text))
          then (elim (chunk_end text start end) [ none ↦ index_error | some cut ↦ next cut ])
          else chunks (last ∷ []))
      else chunks []

  unfoldable pub simple_split : ℕ → Text → SplitRun
  simple_split fuel text = simple_split_from fuel text (pos 0)
