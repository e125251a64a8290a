-- ===== src/Documents/Tests.antt =====
-- The ingestion of small documents into tables in memory, and the theorems at inputs of such runs.
use Prim.Native.String.{String}
use text.Mathlib.Text.{◌==◌}
use text.Mathlib.TextEquality.{eq_iff}
use mathlib.Core.List.Memᴰ
use wa_graph_rag_backend.Prelude.{
  ℕ, ◌+◌, ltb, ◌≡◌, ◌↔◌, ◌⊎◌, inl, inr, refl, sym, ap, ◌∙◌, Bool, true, false, none, some, List, [],
  ◌∷◌, ◌++◌, map, length, Memᴰ, arith, if◌then◌else◌,
}
use wa_graph_rag_backend.Chunker.{Text}
use wa_graph_rag_backend.Chunker.Objects.{Metadata, DocumentChunk}
use wa_graph_rag_backend.Embedder.{
  vectors, Outcome, Service, EmbedderConfig, generate_embedding, attempts, truncate, batch_attempts,
  generate_embeddings_batch, process_individually, embed_batches, embed_chunks,
}
use wa_graph_rag_backend.Embedder.Contents.{AnswersAll}
use wa_graph_rag_backend.Database.InMemory.{in_memory, keep, keep_rows}
use wa_graph_rag_backend.Database.Action.{running}
use wa_graph_rag_backend.Documents.{
  Document, ChunkRow, Library, Fresh, Archive, get_document_by_source, get_document_chunks,
  upsert_document, delete_chunks_by_ids, save_chunks, new_document,
}
use wa_graph_rag_backend.Documents.Ingest.{
  IngestResult, failed, inserted, skipped, ingest_result, Pipeline, embed, finish, insert_new,
  embed_missing, update_existing, ingest_body, ingest_document,
}
use wa_graph_rag_backend.Documents.Interrupted.{ingest_document_interrupted}
use wa_graph_rag_backend.Documents.Bulk.{
  Bucket, ingest_object, ingest_keys, ingest_from_s3, ingest_all_s3_buckets,
}
use wa_graph_rag_backend.Documents.Bulk.Counts.{
  IsCounted, listed_keys, ingest_all_s3_buckets-IsCounted,
}

ingesting : Unit {0}
unfolding running get_document_by_source get_document_chunks upsert_document delete_chunks_by_ids
    save_chunks embed finish insert_new embed_missing update_existing ingest_body ingest_document
    generate_embedding attempts truncate batch_attempts generate_embeddings_batch
    process_individually embed_batches embed_chunks ingest_object ingest_keys ingest_from_s3
    ingest_all_s3_buckets
ingesting = tt

abbrev lengths : List Text → List (List ℕ)
lengths [] = []
lengths (t ∷ ts) = (length t ∷ []) ∷ lengths ts

-- The world counts the calls of the service.
abbrev service : Service
service = record {
  World = ℕ;
  Number = ℕ;
  zero_number = 0;
  create = λ ts w. (vectors (lengths ts), w + 1);
  sleep = λ n w. w;
  short_sleep = λ w. w;
  now = λ w. "now";
  failure = λ w. "failure";
  strip = λ t. t;
}

abbrev config : EmbedderConfig
config = record {
  model = "text-embedding-3-small";
  batch_size = 2;
  max_retries = 3;
  dimensions = 1;
  max_tokens = 8191;
}

abbrev generate : Text → ℕ → Outcome (List ℕ) × ℕ
generate t w = generate_embedding service config t w

length-lengths : (ts : List Text) → length (lengths ts) ≡ length ts
length-lengths [] = refl
length-lengths (t ∷ ts) = omega (arith, length-lengths ts)

vectors_inv : (vs ws : List (List ℕ)) → vectors vs ≡ vectors ws → vs ≡ ws
vectors_inv vs ws e = cc

service-AnswersAll : AnswersAll service config generate
service-AnswersAll ts w vs e = ap length (sym (vectors_inv (lengths ts) vs e)) ∙ length-lengths ts

mem_append : {A : Type 0} (xs ys : List A) (r : A) → Memᴰ r (xs ++ ys) ↔ (Memᴰ r xs ⊎ Memᴰ r ys)
mem_append [] ys r = (inr, λ m. elim m [ inl n ↦ absurd (Memᴰ.not-nil n) | inr n ↦ n ])
mem_append (x ∷ xs) ys r = (
  λ m. elim (Memᴰ.cases_cons m) [
    | inl e ↦ inl (Memᴰ.head e)
    | inr n ↦ elim ((mem_append xs ys r).0 n) [ inl k ↦ inl (Memᴰ.tail k) | inr k ↦ inr k ]
  ],
  λ m. elim m [
    | inl n ↦ elim (Memᴰ.cases_cons n) [
      | inl e ↦ Memᴰ.head e
      | inr k ↦ Memᴰ.tail ((mem_append xs ys r).1 (inl k))
    ]
    | inr n ↦ Memᴰ.tail ((mem_append xs ys r).1 (inr n))
  ],
)

some_rows : {A : Type 0} (xs ys : List A) → some xs ≡ some ys → xs ≡ ys
some_rows xs ys e = cc

-- The hash of a text tells its first character.
abbrev hash : Text → String
hash [] = "empty"
hash (x ∷ t) = if ltb x 98 then "a" else if ltb x 99 then "b" else "other"

abbrev library : Library service
library = record {
  documents = in_memory Document;
  chunks = in_memory (ChunkRow service);
  insert_chunks = λ rs a. some (rs ++ a);
  insert_chunks_rows = λ rs a b e r. rw (← some_rows (rs ++ a) b e) (mem_append rs a r);
  chunks_of = λ id a. some (keep (λ r. r.document_id == id) a);
  max_rows = 1000;
  chunks_of_rows = λ id a rs e r m.
      let (h, k) =
        (keep_rows (λ (r : ChunkRow service). r.document_id == id) a r).0
          (rw (← some_rows (keep (λ (r : ChunkRow service). r.document_id == id) a) rs e) at m) in
      (h, (eq_iff _ _).0 k);
  chunks_of_all = λ id a rs e few r h k.
      rw (← some_rows (keep (λ (r : ChunkRow service). r.document_id == id) a) rs e)
        ((keep_rows (λ (r : ChunkRow service). r.document_id == id) a r).1 (h, (eq_iff _ _).1 k));
  sha256 = hash;
  delete_graph = λ source w. w;
}

abbrev chunk : Text → ℕ → DocumentChunk
chunk t i = record {
  content = t;
  index = i;
  start_char = 0;
  end_char = length t;
  metadata = [];
  token_count = 0;
}

-- Each character of a document is a chunk of its own.
abbrev characters : ℕ → Text → List DocumentChunk
characters i [] = []
characters i (x ∷ t) = chunk (x ∷ []) i ∷ characters (i + 1) t

abbrev pipeline : Pipeline service library
pipeline = record {
  chunk_document = λ t title source metadata. some (characters 0 t);
  build_graph = λ t v source metadata w. some w;
  rebuild_index = λ t w. w;
}

abbrev fresh : Fresh
fresh = record { document_id = "document 2"; chunk_id = λ i. "chunk 2" }

-- The document "cb" has two chunks; the new version is "ab".
abbrev document : Document
document = record {
  id = "document 1";
  title = "Title";
  source = "doc";
  content = 99 ∷ 98 ∷ [];
  content_hash = "other";
  metadata = [];
  access_level = "public";
}

abbrev row : String → Text → ℕ → ChunkRow service
row id t i = record {
  id = id;
  document_id = "document 1";
  content = t;
  content_hash = some (hash t);
  embedding = none;
  chunk_index = i;
  token_count = 0;
  metadata = [];
}

abbrev archive : Archive service library
archive = record {
  documents = document ∷ [];
  chunks = row "c" (99 ∷ []) 0 ∷ row "b" (98 ∷ []) 1 ∷ [];
  world = 0;
}

run : IngestResult × Archive service library
run =
    ingest_document service library config generate pipeline fresh (97 ∷ 98 ∷ []) "doc" "Title" []
      "public" archive

no_rows : (b : List (ChunkRow service)) → none ≡ some b → ⊥
no_rows b e = cc

-- The insert of chunks raises.
abbrev broken : Library service
broken = record library {
  insert_chunks = λ rs a. none;
  insert_chunks_rows = λ rs a b e r. absurd (no_rows b e);
}

abbrev nothing_stored : Archive service broken
nothing_stored = record { documents = []; chunks = []; world = 0 }

abbrev broken_pipeline : Pipeline service broken
broken_pipeline = record {
  chunk_document = λ t title source metadata. some (characters 0 t);
  build_graph = λ t v source metadata w. some w;
  rebuild_index = λ t w. w;
}

abbrev new_row : Document
new_row = new_document service broken "document 2" "doc" "Title" (97 ∷ []) "a" [] "public"

ingest_document_interrupted_example :
    (b : Archive service broken) × ((ingest_document service broken config generate broken_pipeline
        fresh
        (97 ∷ [])
        "doc"
        "Title"
        []
        "public"
        nothing_stored).1
      ≡ b)
    × ((ingest_document service broken config generate broken_pipeline fresh
          (97 ∷ [])
          "doc"
          "Title"
          []
          "public"
          nothing_stored).0.status
        ≡ failed)
    × (b.chunks ≡ [])
    × ((cfg' : EmbedderConfig) (generate' : Text → ℕ → Outcome (List ℕ) × ℕ)
          (p' : Pipeline service broken) (fresh' : Fresh) (title' : String) (metadata' : Metadata)
          (access_level' : String)
        → (id : String) × (ingest_document service broken cfg' generate' p' fresh'
              (97 ∷ [])
              "doc"
              title'
              metadata'
              access_level'
              b
            ≡ (ingest_result "doc" skipped id 0, b)))
ingest_document_interrupted_example =
    ingest_document_interrupted service broken config generate broken_pipeline fresh (97 ∷ []) "doc"
      "Title" [] "public" nothing_stored (new_row ∷ []) (chunk (97 ∷ []) 0) [] (some new_row)
      service-AnswersAll (omega arith) refl refl refl refl (λ rows. refl)

-- The private bucket has one object, whose download fails; the public one has another.
abbrev bucket : Bucket service
bucket = record {
  verify_s3_access = λ w. true;
  list_documents = λ bucket_type prefix w.
      if bucket_type == "private" then "secret.txt" ∷ [] else "fees.txt" ∷ [];
  download = λ key bucket_type w. (if bucket_type == "private" then false else true, w);
  parse_document = λ key w. (97 ∷ [], []);
  stem = λ key. key;
  private_bucket = "secrets";
}

ingest_all_runs :
    map
      (λ (r : IngestResult). r.status)
      (ingest_all_s3_buckets service library config generate pipeline bucket
        (λ i. fresh)
        (λ i. fresh)
        archive).0.results
    ≡ failed ∷ inserted ∷ []
unfolding ingesting
ingest_all_runs = refl

ingest_all_s3_buckets-IsCounted_example :
    IsCounted
      (ingest_all_s3_buckets service library config generate pipeline bucket
        (λ i. fresh)
        (λ i. fresh)
        archive).0
    × (map
          (λ (r : IngestResult). r.source)
          (ingest_all_s3_buckets service library config generate pipeline bucket
            (λ i. fresh)
            (λ i. fresh)
            archive).0.results
        ≡ listed_keys service library config generate pipeline bucket "private" archive
          ++ listed_keys service library config generate pipeline bucket "public"
              (ingest_from_s3 service library config generate pipeline bucket
                (λ i. fresh)
                "private"
                ""
                archive).1)
ingest_all_s3_buckets-IsCounted_example =
    ingest_all_s3_buckets-IsCounted service library config generate pipeline bucket (λ i. fresh)
      (λ i. fresh) archive
