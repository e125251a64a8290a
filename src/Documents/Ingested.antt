-- ===== src/Documents/Ingested.antt =====
-- `ingest_document` of ingestion/ingest_service.py: what a run that succeeded has stored, and what
-- one that broke off behind the document's row keeps out for good.
use Prim.Native.String.{String}
use mathlib.Core.List.Memᴰ
use wa_graph_rag_backend.Prelude.{◌<◌, ◌≡◌, some, List, Memᴰ}
use wa_graph_rag_backend.Chunker.{Text}
use wa_graph_rag_backend.Chunker.Objects.{DocumentChunk}
use wa_graph_rag_backend.Embedder.{Service, EmbedderConfig, Vector, Outcome}
use wa_graph_rag_backend.Embedder.Contents.{AnswersAll}
use wa_graph_rag_backend.Documents.{Library, Fresh, Archive}
use wa_graph_rag_backend.Documents.Hashes.{hashes}
use wa_graph_rag_backend.Documents.Steps.{IsKept}
use wa_graph_rag_backend.Documents.Stored.{IsStored}
use wa_graph_rag_backend.Documents.Ingest.{IngestResult, Pipeline}

module _ (s : Service) (l : Library s) (cfg : EmbedderConfig)
    (generate : Text → s.World → Outcome (Vector s) × s.World) (p : Pipeline s l) (fresh : Fresh)
    (all : AnswersAll s cfg generate) (some_batch : 0 < cfg.batch_size) where
  -- The result names a document with the given source and hash of its content, whose stored chunks
  -- have the hashes of the given ones.
  abbrev pub IsIngested : String → String → List DocumentChunk → IngestResult → Archive s l → Type 0
  IsIngested source content_hash cs res b =
      (id : String) × (res.document_id ≡ some id)
      × IsKept s l id source content_hash b
      × IsStored s l id (hashes s l cs) b.chunks
