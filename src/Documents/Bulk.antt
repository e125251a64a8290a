-- ===== src/Documents/Bulk.antt =====
-- ingestion/ingest_service.py: the runs on whole S3 buckets and on one S3 object, with their counts.
pub mod Counts
use Prim.Native.String.{String}
use package.text.Mathlib.Text.{◌==◌}
use wa_graph_rag_backend.Prelude.{
  ℕ, ◌+◌, ◌≡◌, refl, sym, ap, ◌∙◌, Bool, true, false, List, [], ◌∷◌, ◌++◌, map, length, arith,
  if◌then◌else◌, inl, inr, Bool-cases,
}
use wa_graph_rag_backend.Prelude.Dict.{put}
use wa_graph_rag_backend.Access.{assign_access_level}
use wa_graph_rag_backend.Chunker.{Text}
use wa_graph_rag_backend.Chunker.Objects.{Metadata, text}
use wa_graph_rag_backend.Embedder.{Service, EmbedderConfig, Vector, Outcome}
use wa_graph_rag_backend.Documents.{Library, Fresh, Archive}
use wa_graph_rag_backend.Documents.Ingest.{
  Status, inserted, updated, skipped, failed, IngestResult, failure_of, Pipeline, ingest_document,
}

pub record IngestStats : Type 0 where
  pub inserted : ℕ
  pub updated : ℕ
  pub skipped : ℕ
  pub failed : ℕ
  pub results : List IngestResult

unfoldable pub total : IngestStats → ℕ
total stats = stats.inserted + stats.updated + stats.skipped + stats.failed

abbrev pub no_stats : IngestStats
no_stats = record { inserted = 0; updated = 0; skipped = 0; failed = 0; results = [] }

abbrev pub counted : Status → IngestStats → IngestStats
counted inserted stats = record stats { inserted = stats.inserted + 1 }
counted updated stats = record stats { updated = stats.updated + 1 }
counted skipped stats = record stats { skipped = stats.skipped + 1 }
counted failed stats = record stats { failed = stats.failed + 1 }

-- `stats.results.append(result)` and the counter of its status.
abbrev pub tally : IngestResult → IngestStats → IngestStats
tally result stats =
    let n = counted result.status stats in record n { results = n.results ++ (result ∷ []) }

-- The sum of two statistics.
abbrev pub merged : IngestStats → IngestStats → IngestStats
merged a b = record {
  inserted = a.inserted + b.inserted;
  updated = a.updated + b.updated;
  skipped = a.skipped + b.skipped;
  failed = a.failed + b.failed;
  results = a.results ++ b.results;
}

abbrev is_blank : Text → Bool
is_blank [] = true
is_blank (x ∷ xs) = false

-- S3 and the parsers: whether S3 answers; the keys of a bucket; the download of an object to a local
-- file, false if it fails; the text and the metadata of that file, which does not raise; the stem of
-- a key; and the environment's S3_PRIVATE_BUCKET.
pub record Bucket (s : Service) : Type 0 where
  pub verify_s3_access : s.World → Bool
  pub list_documents : String → String → s.World → List String
  pub download : String → String → s.World → Bool × s.World
  pub parse_document : String → s.World → Text × Metadata
  pub stem : String → String
  pub private_bucket : String

module _ (s : Service) (l : Library s) (cfg : EmbedderConfig)
    (generate : Text → s.World → Outcome (Vector s) × s.World) (p : Pipeline s l)
    (s3 : Bucket s) where
  abbrev pub ingest_parsed :
      Fresh → String → String → Text × Metadata → Archive s l → IngestResult × Archive s l
  ingest_parsed fresh bucket_type key (content, file_meta) a =
      if is_blank content
      then (failure_of key "Empty content", a)
      else ingest_document s l cfg generate p fresh content key (s3.stem key)
          (put "s3_key" (text key) (put "bucket_type" (text bucket_type) file_meta))
          (assign_access_level bucket_type) a

  abbrev pub ingest_downloaded :
      Fresh → String → String → Bool → Archive s l → IngestResult × Archive s l
  ingest_downloaded fresh bucket_type key false a = (failure_of key "Download failed", a)
  ingest_downloaded fresh bucket_type key true a =
      ingest_parsed fresh bucket_type key (s3.parse_document key a.world) a

  -- One object: download, parse, ingest.
  unfoldable pub ingest_object : Fresh → String → String → Archive s l → IngestResult × Archive s l
  ingest_object fresh bucket_type key a =
      let r = s3.download key bucket_type a.world in
      ingest_downloaded fresh bucket_type key r.0 (record a { world = r.1 })

  -- The loop over the keys; each object draws its own identifiers.
  unfoldable pub ingest_keys :
      (ℕ → Fresh) → String → ℕ → List String → IngestStats → Archive s l → IngestStats × Archive s l
  ingest_keys fresh bucket_type i [] stats a = (stats, a)
  ingest_keys fresh bucket_type i (key ∷ keys) stats a =
      let r = ingest_object (fresh i) bucket_type key a in
      ingest_keys fresh bucket_type (i + 1) keys (tally r.0 stats) r.1

  unfoldable pub ingest_from_s3 :
      (ℕ → Fresh) → String → String → Archive s l → IngestStats × Archive s l
  ingest_from_s3 fresh bucket_type prefix a =
      if s3.verify_s3_access a.world
      then ingest_keys fresh bucket_type 0 (s3.list_documents bucket_type prefix a.world) no_stats a
      else (no_stats, a)

  unfoldable pub ingest_all_s3_buckets :
      (ℕ → Fresh) → (ℕ → Fresh) → Archive s l → IngestStats × Archive s l
  ingest_all_s3_buckets fresh fresh' a =
      let first = ingest_from_s3 fresh "private" "" a in
      let second = ingest_from_s3 fresh' "public" "" first.1 in
      (merged (merged no_stats first.0) second.0, second.1)

  unfoldable pub ingest_single_s3_object :
      Fresh → String → String → Archive s l → IngestResult × Archive s l
  ingest_single_s3_object fresh key bucket_name a =
      ingest_object fresh (if bucket_name == s3.private_bucket then "private" else "public") key a
