-- ===== src/Chunker/Semantic.antt =====
-- ingestion/chunker.py, `SemanticChunker` around `_simple_split`. A run is the chunks, an IndexError
-- of `_simple_split`, or not yet at its end; the fuel is that of each `_simple_split`.
pub mod Bounds
pub mod Total
use Prim.Native.String.{String}
use wa_graph_rag_backend.Prelude.{
  ℕ, zero, suc, ◌+◌, ◌*◌, ltb, leb, ◌==◌, Bool, true, false, not, ◌&&◌, ◌||◌, Option, none, some,
  List, [], ◌∷◌, ◌++◌, map, length, take, if◌then◌else◌,
}
use wa_graph_rag_backend.Prelude.Dict.{update}
use wa_graph_rag_backend.Chunker.{
  Text, ChunkingConfig, SplitRun, chunks, index_error, running, prepend, simple_split,
}
use wa_graph_rag_backend.Chunker.Objects.{
  Value, text, Metadata, DocumentChunk, create_chunk_objects,
}

-- What the chunker takes from Python and from the language model: `str.strip`; `re.split` by each of
-- the structural patterns, separators kept; `str.split("---CHUNK---")`; and the model's answer to
-- the prompt that holds a section, where `none` is an exception or a timeout.
pub record ChunkTools : Type 0 where
  pub strip : Text → Text
  pub splits : List (Text → List Text)
  pub split_marks : Text → List Text
  pub answer : Text → Option Text

abbrev pub is_empty : Text → Bool
is_empty [] = true
is_empty (x ∷ xs) = false

-- `line.count(ch)`
abbrev pub count_of : ℕ → Text → ℕ
count_of ch [] = 0
count_of ch (x ∷ xs) = if x == ch then suc (count_of ch xs) else count_of ch xs

abbrev pub cons_line : ℕ → List Text → List Text
cons_line x [] = (x ∷ []) ∷ []
cons_line x (line ∷ rest) = (x ∷ line) ∷ rest

-- `text.split("\n")`
abbrev pub split_lines : Text → List Text
split_lines [] = [] ∷ []
split_lines (x ∷ xs) = let rest = split_lines xs in if x == 10 then [] ∷ rest else cons_line x rest

abbrev pub total : List ℕ → ℕ
total [] = 0
total (n ∷ ns) = n + total ns

abbrev pub extend : SplitRun → SplitRun → SplitRun
extend (chunks xs) (chunks ys) = chunks (xs ++ ys)
extend (chunks xs) index_error = index_error
extend (chunks xs) running = running
extend index_error rest = index_error
extend running rest = running

pub data DocumentRun : Type 0 where
  documents : List DocumentChunk → DocumentRun
  failed : DocumentRun
  not_yet : DocumentRun

module _ (tools : ChunkTools) where
  abbrev pub not_blank : Text → Bool
  not_blank t = not (is_empty (tools.strip t))

  abbrev pub keep_if : (Text → Bool) → List Text → List Text
  keep_if p [] = []
  keep_if p (t ∷ ts) = if p t then t ∷ keep_if p ts else keep_if p ts

  -- `avg >= 3`, for the counts of the lines that are not blank; no lines are not tabular.
  abbrev pub many : List ℕ → Bool
  many [] = false
  many (n ∷ ns) = leb (3 * length (n ∷ ns)) (total (n ∷ ns))

  unfoldable pub is_tabular_data : Text → Bool
  is_tabular_data t =
      let lines = take 10 (split_lines t) in
      let counts = λ (ch : ℕ). map (count_of ch) (keep_if not_blank lines) in
      if ltb (length lines) 2 then false else many (counts 9) || many (counts b',')

  abbrev pub split_parts : (Text → List Text) → List Text → List Text
  split_parts split [] = []
  split_parts split (s ∷ ss) = keep_if not_blank (split s) ++ split_parts split ss

  abbrev pub split_all : List (Text → List Text) → List Text → List Text
  split_all [] sections = sections
  split_all (split ∷ rest) sections = split_all rest (split_parts split sections)

  unfoldable pub split_on_structure : Text → List Text
  split_on_structure content = split_all tools.splits (content ∷ [])

  module _ (cfg : ChunkingConfig) (fuel : ℕ) where
    abbrev pub is_valid : Text → Bool
    is_valid c = leb cfg.min_chunk_size (length c) && leb (length c) cfg.max_chunk_size

    abbrev pub valid_or_split : List Text → Text → SplitRun
    valid_or_split [] section = simple_split cfg fuel section
    valid_or_split (c ∷ cs) section = chunks (c ∷ cs)

    abbrev pub answered : Option Text → Text → SplitRun
    answered none section = simple_split cfg fuel section
    answered (some result) section =
        valid_or_split (keep_if is_valid (map tools.strip (tools.split_marks result))) section

    -- An IndexError inside the `try` runs `_simple_split` again, which raises it again.
    unfoldable pub split_long_section : Text → SplitRun
    split_long_section section =
        if is_tabular_data section
        then simple_split cfg fuel section
        else if ltb 20000 (length section)
        then simple_split cfg fuel section
        else answered (tools.answer section) section

    -- `current_chunk + "\n\n" + section if current_chunk else section`
    abbrev pub potential : Text → Text → Text
    potential [] section = section
    potential (x ∷ xs) section = (x ∷ xs) ++ (10 ∷ 10 ∷ section)

    -- `if current_chunk: chunks.append(current_chunk.strip())`
    abbrev pub flush : Text → SplitRun → SplitRun
    flush [] rest = rest
    flush (x ∷ xs) rest = prepend (tools.strip (x ∷ xs)) rest

    -- The loop over the sections.
    unfoldable pub group : List Text → Text → SplitRun
    group [] current = flush current (chunks [])
    group (section ∷ sections) current =
        let fits = leb (length (potential current section)) cfg.chunk_size in
        let big = ltb cfg.max_chunk_size (length section) in
        let rest =
          group sections
            (if fits then potential current section else if big then [] else section) in
        if fits
        then rest
        else flush current (if big then extend (split_long_section section) rest else rest)

    abbrev pub long_enough : Text → Bool
    long_enough c = leb cfg.min_chunk_size (length (tools.strip c))

    abbrev pub filtered : SplitRun → SplitRun
    filtered (chunks cs) = chunks (keep_if long_enough cs)
    filtered index_error = index_error
    filtered running = running

    unfoldable pub semantic_chunk : Text → SplitRun
    semantic_chunk content = filtered (group (split_on_structure content) [])

    abbrev pub as_objects : Text → Metadata → SplitRun → DocumentRun
    as_objects content base (chunks cs) =
        documents (create_chunk_objects tools.strip cfg cs content base)
    as_objects content base index_error = failed
    as_objects content base running = not_yet

    unfoldable pub simple_chunk : Text → Metadata → DocumentRun
    simple_chunk content base = as_objects content base (simple_split cfg fuel content)

    -- The outcome of `_semantic_chunk` under its timeout. `_simple_split` does not await, so that the
    -- timeout does not end a run of it.
    abbrev pub semantic_or_simple : Bool → Text → Metadata → SplitRun → DocumentRun
    semantic_or_simple timed_out content base running = not_yet
    semantic_or_simple timed_out content base index_error = simple_chunk content base
    semantic_or_simple timed_out content base (chunks []) = simple_chunk content base
    semantic_or_simple timed_out content base (chunks (c ∷ cs)) =
        if timed_out
        then simple_chunk content base
        else documents (create_chunk_objects tools.strip cfg (c ∷ cs) content base)

    unfoldable pub chunk_document : Bool → Text → String → String → Metadata → DocumentRun
    chunk_document timed_out content title source metadata =
        let base = update (("title", text title) ∷ ("source", text source) ∷ []) metadata in
        if not (not_blank content)
        then documents []
        else if is_tabular_data content || leb 500000 (length content)
        then simple_chunk content base
        else if cfg.use_semantic_splitting && ltb cfg.chunk_size (length content)
        then semantic_or_simple timed_out content base (semantic_chunk content)
        else simple_chunk content base
