-- ===== src/Embedder.antt =====
-- ingestion/embedder.py: vectors for the chunks of a document. The embedding service and the clock
-- are a world that each call changes.
pub mod Retry
pub mod Contents
pub mod Cache
mod Tests
use Prim.Native.String.{String}
use package.text.Mathlib.Text.{◌==◌}
use wa_graph_rag_backend.Prelude.{
  ℕ, zero, suc, ◌+◌, ◌-◌, ◌*◌, ◌^◌, ltb, Bool, true, false, Option, none, some, List, [], ◌∷◌, ◌++◌,
  map, length, take, drop, replicate, if◌then◌else◌,
}
use wa_graph_rag_backend.Prelude.Dict.{put}
use wa_graph_rag_backend.Chunker.{Text}
use wa_graph_rag_backend.Chunker.Objects.{Value, text, DocumentChunk}

-- The answer of `embeddings.create`: the vectors, or one of the exceptions that are told apart.
pub data Answer (Vector : Type 0) : Type 0 where
  vectors : List Vector → Answer Vector
  rate_limit : Answer Vector
  api_error : Answer Vector
  other_error : Answer Vector

-- How a coroutine ends: with a value, with None, or with an exception.
pub data Outcome (A : Type 0) : Type 0 where
  value : A → Outcome A
  nothing : Outcome A
  raised : Outcome A

-- The embedding service, `asyncio.sleep` in units of `retry_delay` and for a tenth of a second, the
-- texts of the clock and of the exception raised last, and `str.strip`.
pub record Service : Type 1 where
  pub World : Type 0
  pub Number : Type 0
  pub zero_number : Number
  pub create : List Text → World → Answer (List Number) × World
  pub sleep : ℕ → World → World
  pub short_sleep : World → World
  pub now : World → String
  pub failure : World → String
  pub strip : Text → Text

pub record EmbedderConfig : Type 0 where
  pub model : String
  pub batch_size : ℕ
  pub max_retries : ℕ
  pub dimensions : ℕ
  pub max_tokens : ℕ

-- `__init__`: the sizes of the three known models and the default are the same.
unfoldable pub new_embedder : String → ℕ → ℕ → EmbedderConfig
new_embedder model batch_size max_retries = record {
  model = model;
  batch_size = batch_size;
  max_retries = max_retries;
  dimensions =
      if model == "text-embedding-3-small"
      then 1536
      else if model == "text-embedding-3-large"
      then 3072
      else 1536;
  max_tokens = 8191;
}

abbrev pub is_blank : Text → Bool
is_blank [] = true
is_blank (x ∷ xs) = false

module _ (s : Service) where
  abbrev pub Vector : Type 0
  Vector = List s.Number

  -- A chunk with its attribute `embedding`, which may be None.
  pub record EmbeddedChunk : Type 0 where
    pub chunk : DocumentChunk
    pub embedding : Option Vector

  module _ (cfg : EmbedderConfig) where
    unfoldable pub truncate : Text → Text
    truncate t = if ltb (cfg.max_tokens * 4) (length t) then take (cfg.max_tokens * 4) t else t

    abbrev pub zero_vector : Vector
    zero_vector = replicate cfg.dimensions s.zero_number

    -- The pause after a failed attempt: the rate limit backs off exponentially.
    abbrev pub pause : Answer Vector → ℕ → ℕ
    pause rate_limit attempt = 2 ^ attempt
    pause (vectors vs) attempt = 1
    pause api_error attempt = 1
    pause other_error attempt = 1

    -- `response.data[0].embedding`, where an empty answer raises an IndexError.
    abbrev pub first_vector : Answer Vector → Option Vector
    first_vector (vectors (v ∷ vs)) = some v
    first_vector (vectors []) = none
    first_vector rate_limit = none
    first_vector api_error = none
    first_vector other_error = none

    abbrev pub settled :
        Option Vector → s.World → Outcome Vector × s.World → Outcome Vector × s.World
    settled (some v) w failed = (value v, w)
    settled none w failed = failed

    -- The attempts that are left, behind `attempt` others.
    unfoldable pub attempts : ℕ → ℕ → Text → s.World → Outcome Vector × s.World
    attempts zero attempt t w = (nothing, w)
    attempts (suc left) attempt t w =
        let r = s.create (t ∷ []) w in
        let again = attempts left (attempt + 1) t (s.sleep (pause r.0 attempt) r.1) in
        settled (first_vector r.0) r.1 (elim left [ zero ↦ (raised, r.1) | suc k ↦ again ])

    unfoldable pub generate_embedding : Text → s.World → Outcome Vector × s.World
    generate_embedding t w = attempts cfg.max_retries 0 (truncate t) w

    abbrev pub processed : Text → Text
    processed t = if is_blank (s.strip t) then [] else truncate t

    -- `generate` is the attribute `generate_embedding`, which `create_embedder` may have replaced.
    module _ (generate : Text → s.World → Outcome Vector × s.World) where
      -- `except Exception` puts the zero vector; None is put as it is.
      abbrev pub vector_or_zero : Outcome Vector → Option Vector
      vector_or_zero (value v) = some v
      vector_or_zero nothing = none
      vector_or_zero raised = some zero_vector

      abbrev pub rested : Outcome Vector → s.World → s.World
      rested (value v) w = s.short_sleep w
      rested nothing w = s.short_sleep w
      rested raised w = w

      abbrev pub one_vector : Text → s.World → Option Vector × s.World
      one_vector t w =
          let r = generate t w in
          if is_blank (s.strip t)
          then (some zero_vector, w)
          else (vector_or_zero r.0, rested r.0 r.1)

      unfoldable pub process_individually : List Text → s.World → List (Option Vector) × s.World
      process_individually [] w = ([], w)
      process_individually (t ∷ ts) w =
          let r = one_vector t w in let rest = process_individually ts r.1 in (r.0 ∷ rest.0, rest.1)

      abbrev pub all_some : List Vector → List (Option Vector)
      all_some [] = []
      all_some (v ∷ vs) = some v ∷ all_some vs

      -- The last attempt of a batch.
      abbrev pub given_up :
          Answer Vector → List Text → s.World → Outcome (List (Option Vector)) × s.World
      given_up (vectors vs) ts w = (value (all_some vs), w)
      given_up rate_limit ts w = (raised, w)
      given_up api_error ts w = let r = process_individually ts w in (value r.0, r.1)
      given_up other_error ts w = let r = process_individually ts w in (value r.0, r.1)

      abbrev pub batch_settled :
          Answer Vector
          → s.World
          → Outcome (List (Option Vector)) × s.World
          → Outcome (List (Option Vector)) × s.World
      batch_settled (vectors vs) w failed = (value (all_some vs), w)
      batch_settled rate_limit w failed = failed
      batch_settled api_error w failed = failed
      batch_settled other_error w failed = failed

      unfoldable pub batch_attempts :
          ℕ → ℕ → List Text → s.World → Outcome (List (Option Vector)) × s.World
      batch_attempts zero attempt ts w = (nothing, w)
      batch_attempts (suc left) attempt ts w =
          let r = s.create ts w in
          let again = batch_attempts left (attempt + 1) ts (s.sleep (pause r.0 attempt) r.1) in
          batch_settled r.0 r.1 (elim left [ zero ↦ given_up r.0 ts r.1 | suc k ↦ again ])

      unfoldable pub generate_embeddings_batch :
          List Text → s.World → Outcome (List (Option Vector)) × s.World
      generate_embeddings_batch ts w = batch_attempts cfg.max_retries 0 (map processed ts) w

      abbrev pub with_vector : String → DocumentChunk → Option Vector → EmbeddedChunk
      with_vector now c v = record {
        chunk = record c {
          metadata =
              put "embedding_generated_at" (text now)
                (put "embedding_model" (text cfg.model) c.metadata);
        };
        embedding = v;
      }

      -- `for chunk, embedding in zip(batch_chunks, embeddings)`
      abbrev pub zipped : String → List DocumentChunk → List (Option Vector) → List EmbeddedChunk
      zipped now [] vs = []
      zipped now (c ∷ cs) [] = []
      zipped now (c ∷ cs) (v ∷ vs) = with_vector now c v ∷ zipped now cs vs

      -- The chunks of a batch that failed.
      abbrev pub without_vector : String → String → DocumentChunk → EmbeddedChunk
      without_vector failure now c = record {
        chunk = record c {
          metadata =
              put "embedding_generated_at" (text now)
                (put "embedding_error" (text failure) c.metadata);
        };
        embedding = some zero_vector;
      }

      -- None cannot be zipped: the TypeError is caught like the other exceptions.
      abbrev pub batch_chunks :
          Outcome (List (Option Vector)) → s.World → List DocumentChunk → List EmbeddedChunk
      batch_chunks (value vs) w cs = zipped (s.now w) cs vs
      batch_chunks nothing w cs = map (without_vector (s.failure w) (s.now w)) cs
      batch_chunks raised w cs = map (without_vector (s.failure w) (s.now w)) cs

      -- The batches, for as many rounds as the fuel allows.
      unfoldable pub embed_batches : ℕ → List DocumentChunk → s.World → List EmbeddedChunk × s.World
      embed_batches zero cs w = ([], w)
      embed_batches (suc fuel) [] w = ([], w)
      embed_batches (suc fuel) (c ∷ cs) w =
          let batch = take cfg.batch_size (c ∷ cs) in
          let r = generate_embeddings_batch (map (λ (d : DocumentChunk). d.content) batch) w in
          let rest = embed_batches fuel (drop cfg.batch_size (c ∷ cs)) r.1 in
          (batch_chunks r.0 r.1 batch ++ rest.0, rest.1)

      -- One round for each chunk is enough.
      unfoldable pub embed_chunks : List DocumentChunk → s.World → List EmbeddedChunk × s.World
      embed_chunks cs w = embed_batches (length cs) cs w

      unfoldable pub embed_query : Text → s.World → Outcome Vector × s.World
      embed_query query w = generate query w

    unfoldable pub get_embedding_dimension : ℕ
    get_embedding_dimension = cfg.dimensions
