-- ===== src/Documents/Tasks.antt =====
-- The ingestion tasks of worker/tasks.py: runs of the ingestion service with their reports.
use Prim.Native.String.{String}
use wa_graph_rag_backend.Prelude.{ℕ, Option}
use wa_graph_rag_backend.Chunker.{Text}
use wa_graph_rag_backend.Chunker.Objects.{Metadata}
use wa_graph_rag_backend.Embedder.{Service, EmbedderConfig, Vector, Outcome}
use wa_graph_rag_backend.Documents.{Library, Fresh, Archive}
use wa_graph_rag_backend.Documents.Ingest.{Status, IngestResult, Pipeline, ingest_document}
use wa_graph_rag_backend.Documents.Bulk.{
  total, Bucket, ingest_from_s3, ingest_all_s3_buckets, ingest_single_s3_object,
}

pub record SweepReport : Type 0 where
  pub inserted : ℕ
  pub updated : ℕ
  pub skipped : ℕ
  pub failed : ℕ
  pub total : ℕ

pub record BucketReport : Type 0 where
  pub bucket_type : String
  pub prefix : String
  pub inserted : ℕ
  pub updated : ℕ
  pub skipped : ℕ
  pub failed : ℕ

-- The dictionary of the tasks on one document has the fields of the result.
pub record DocumentReport : Type 0 where
  pub source : String
  pub status : Status
  pub document_id : Option String
  pub chunks_created : ℕ
  pub error : Option String

abbrev report_of : IngestResult → DocumentReport
report_of r = record {
  source = r.source;
  status = r.status;
  document_id = r.document_id;
  chunks_created = r.chunks_created;
  error = r.error;
}

module _ (s : Service) (l : Library s) (cfg : EmbedderConfig)
    (generate : Text → s.World → Outcome (Vector s) × s.World) (p : Pipeline s l)
    (s3 : Bucket s) where
  unfoldable pub ingest_all_task :
      (ℕ → Fresh) → (ℕ → Fresh) → Archive s l → SweepReport × Archive s l
  ingest_all_task fresh fresh' a =
      let r = ingest_all_s3_buckets s l cfg generate p s3 fresh fresh' a in
      (
        record {
          inserted = r.0.inserted;
          updated = r.0.updated;
          skipped = r.0.skipped;
          failed = r.0.failed;
          total = total r.0;
        },
        r.1,
      )

  unfoldable pub ingest_bucket_task :
      (ℕ → Fresh) → String → String → Archive s l → BucketReport × Archive s l
  ingest_bucket_task fresh bucket_type prefix a =
      let r = ingest_from_s3 s l cfg generate p s3 fresh bucket_type prefix a in
      (
        record {
          bucket_type = bucket_type;
          prefix = prefix;
          inserted = r.0.inserted;
          updated = r.0.updated;
          skipped = r.0.skipped;
          failed = r.0.failed;
        },
        r.1,
      )

  unfoldable pub ingest_single_s3_task :
      Fresh → String → String → Archive s l → DocumentReport × Archive s l
  ingest_single_s3_task fresh s3_key bucket_name a =
      let r = ingest_single_s3_object s l cfg generate p s3 fresh s3_key bucket_name a in
      (report_of r.0, r.1)

  unfoldable pub ingest_document_task :
      Fresh
      → Text
      → String
      → String
      → Metadata
      → String
      → Archive s l
      → DocumentReport × Archive s l
  ingest_document_task fresh content source title metadata access_level a =
      let r =
        ingest_document s l cfg generate p fresh content source title metadata access_level a in
      (report_of r.0, r.1)
