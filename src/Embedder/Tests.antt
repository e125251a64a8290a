-- ===== src/Embedder/Tests.antt =====
-- The embedder with a small service, and the theorems at inputs of such runs.
use Prim.Native.String.{String}
use wa_graph_rag_backend.Prelude.{
  ℕ, ◌+◌, ◌≤◌, ltb, ◌≡◌, ◌⊎◌, refl, inl, inr, some, List, [], ◌∷◌, length, arith, if◌then◌else◌,
  Bool-cases,
}
use wa_graph_rag_backend.Chunker.{Text}
use wa_graph_rag_backend.Chunker.Objects.{DocumentChunk}
use wa_graph_rag_backend.Embedder.{
  vectors, rate_limit, Outcome, value, raised, Service, EmbedderConfig, new_embedder, truncate,
  attempts, generate_embedding, process_individually, batch_attempts, generate_embeddings_batch,
  embed_batches, embed_chunks,
}
use wa_graph_rag_backend.Embedder.Contents.{AnswersAll, AreEmbedded, embed_chunks-AreEmbedded}
use wa_graph_rag_backend.Embedder.Retry.{generate_embedding_bounds}
use wa_graph_rag_backend.Embedder.Cache.{EmbeddingCache, get, evict, put_embedding}
use wa_graph_rag_backend.Embedder.Cache.Laws.{IsSane, get-put_embedding}

embedding : Unit {0}
unfolding new_embedder truncate attempts generate_embedding process_individually batch_attempts
    generate_embeddings_batch embed_batches embed_chunks get evict put_embedding
embedding = tt

abbrev lengths : List Text → List (List ℕ)
lengths [] = []
lengths (t ∷ ts) = (length t ∷ []) ∷ lengths ts

-- The world counts the calls; the first one meets the rate limit.
abbrev service : Service
service = record {
  World = ℕ;
  Number = ℕ;
  zero_number = 0;
  create = λ ts w. (if ltb w 1 then rate_limit else vectors (lengths ts), w + 1);
  sleep = λ n w. w;
  short_sleep = λ w. w;
  now = λ w. "now";
  failure = λ w. "failure";
  strip = λ t. t;
}

abbrev config : EmbedderConfig
config = record {
  model = "text-embedding-3-small";
  batch_size = 2;
  max_retries = 3;
  dimensions = 2;
  max_tokens = 8191;
}

embedding_runs : generate_embedding service config (97 ∷ 98 ∷ []) 0 ≡ (value (2 ∷ []), 2)
unfolding embedding
embedding_runs = refl

generate_embedding_bounds_example :
    ((generate_embedding service config (97 ∷ 98 ∷ []) 0).1 ≤ 0 + 3)
    × (((v : List ℕ) × ((generate_embedding service config (97 ∷ 98 ∷ []) 0).0 ≡ value v))
        ⊎ ((generate_embedding service config (97 ∷ 98 ∷ []) 0).0 ≡ raised))
generate_embedding_bounds_example =
    generate_embedding_bounds service config (λ w. w) (λ ts w. omega arith) (λ n w. omega arith)
      (97 ∷ 98 ∷ []) 0 (omega arith)

abbrev generate : Text → ℕ → Outcome (List ℕ) × ℕ
generate t w = generate_embedding service config t w

length-lengths : (ts : List Text) → length (lengths ts) ≡ length ts
length-lengths [] = refl
length-lengths (t ∷ ts) = omega (arith, length-lengths ts)

vectors_inv : (vs ws : List (List ℕ)) → vectors vs ≡ vectors ws → vs ≡ ws
vectors_inv vs ws e = cc

service-AnswersAll : AnswersAll service config generate
service-AnswersAll ts w vs e = elim (Bool-cases (ltb w 1)) [
  | inl first ↦ let e' = rw first at e in cc e'
  | inr later ↦
      let e' = vectors_inv (lengths ts) vs (rw later at e) in rw (← e') (length-lengths ts)
]

abbrev chunk : Text → ℕ → DocumentChunk
chunk t i = record {
  content = t;
  index = i;
  start_char = 0;
  end_char = length t;
  metadata = [];
  token_count = 0;
}

abbrev three : List DocumentChunk
three = chunk (97 ∷ []) 0 ∷ chunk (97 ∷ 98 ∷ []) 1 ∷ chunk (99 ∷ []) 2 ∷ []

embed_chunks-AreEmbedded_example :
    AreEmbedded service config generate three (embed_chunks service config generate three 0).0
embed_chunks-AreEmbedded_example =
    embed_chunks-AreEmbedded service config generate three 0 service-AnswersAll (omega arith)

abbrev name_of : Text → String
name_of [] = "empty"
name_of (x ∷ xs) = "other"

-- A full cache of one entry.
abbrev full : EmbeddingCache ℕ name_of
full = record { cache = ("empty", 5) ∷ []; access_times = ("empty", 1) ∷ []; max_size = 1 }

full-IsSane : IsSane ℕ name_of full
full-IsSane = record { together = refl; within = omega arith; room = omega arith }

get-put_embedding_example :
    (d : EmbeddingCache ℕ name_of) × (put_embedding ℕ name_of (97 ∷ []) 7 2 full ≡ some d)
    × IsSane ℕ name_of d
    × ((get ℕ name_of (97 ∷ []) 3 d).0 ≡ some 7)
    × IsSane ℕ name_of (get ℕ name_of (97 ∷ []) 3 d).1
get-put_embedding_example = get-put_embedding ℕ name_of (97 ∷ []) 7 2 3 full full-IsSane
