-- ===== src/Documents/Ingest.antt =====
-- ingestion/ingest_service.py: a document becomes rows of the two tables, nodes of the graph and an
-- index of keywords.
use Prim.Native.String.{String}
use package.text.Mathlib.Text.{◌==◌}
use mathlib.Core.Option
use wa_graph_rag_backend.Prelude.{
  ℕ, Bool, true, false, Option, none, some, is_some, List, [], ◌∷◌, length, if◌then◌else◌,
}
use wa_graph_rag_backend.Prelude.Dict.{Dict, lookup, put}
use wa_graph_rag_backend.Chunker.{Text}
use wa_graph_rag_backend.Chunker.Objects.{Metadata, text, DocumentChunk}
use wa_graph_rag_backend.Embedder.{
  Service, EmbedderConfig, Vector, Outcome, EmbeddedChunk, embed_chunks,
}
use wa_graph_rag_backend.Database.Action.{
  Result, ok, err, Action, ◌>>=◌, ◌>>◌, pure, answer, write, maybe, for_each,
}
use wa_graph_rag_backend.Documents.{
  Document, ChunkRow, Library, Fresh, Archive, get_document_by_source, get_document_chunks,
  upsert_document, delete_chunks_by_ids, save_chunks,
}

pub data Status : Type 0 where
  inserted : Status
  updated : Status
  skipped : Status
  failed : Status

pub record IngestResult : Type 0 where
  pub source : String
  pub status : Status
  pub document_id : Option String
  pub chunks_created : ℕ
  pub error : Option String

abbrev pub ingest_result : String → Status → String → ℕ → IngestResult
ingest_result source status id created = record {
  source = source;
  status = status;
  document_id = some id;
  chunks_created = created;
  error = none;
}

abbrev pub failure_of : String → String → IngestResult
failure_of source error = record {
  source = source;
  status = failed;
  document_id = none;
  chunks_created = 0;
  error = some error;
}

module _ (s : Service) (l : Library s) where
  -- What the service is given and calls: the chunker, where `none` is an exception; the graph of one
  -- chunk, likewise; and the index of keywords, whose exceptions are caught.
  pub record Pipeline : Type 0 where
    pub chunk_document : Text → String → String → Metadata → Option (List DocumentChunk)
    pub build_graph : Text → Option (Vector s) → String → Metadata → s.World → Option s.World
    pub rebuild_index : l.chunks.Store → s.World → s.World

  -- `{_sha256(c.content): c for c in chunks}`
  abbrev pub by_hash : Dict DocumentChunk → List DocumentChunk → Dict DocumentChunk
  by_hash d [] = d
  by_hash d (c ∷ cs) = by_hash (put (l.sha256 c.content) c d) cs

  abbrev pub known_hash : Option String → Dict DocumentChunk → Bool
  known_hash none d = false
  known_hash (some h) d = is_some (lookup h d)

  -- The ids of the stored chunks that the new version has not.
  abbrev pub stale_ids : Dict DocumentChunk → List (ChunkRow s) → List String
  stale_ids d [] = []
  stale_ids d (r ∷ rs) =
      if known_hash r.content_hash d then stale_ids d rs else r.id ∷ stale_ids d rs

  abbrev pub has_hash : String → Option String → Bool
  has_hash h none = false
  has_hash h (some k) = if k == "" then false else h == k

  -- `h in old_hashes`, where `old_hashes` holds the hashes of the stored chunks that are not empty.
  abbrev pub in_old : String → List (ChunkRow s) → Bool
  in_old h [] = false
  in_old h (r ∷ rs) = if has_hash h r.content_hash then true else in_old h rs

  abbrev pub to_embed : Dict DocumentChunk → List (ChunkRow s) → List DocumentChunk
  to_embed [] old = []
  to_embed ((h, c) ∷ d) old = if in_old h old then to_embed d old else c ∷ to_embed d old

  abbrev pub is_unchanged : Option Document → String → Bool
  is_unchanged none content_hash = false
  is_unchanged (some d) content_hash = d.content_hash == content_hash

  abbrev pub id_of : Option Document → String
  id_of none = ""
  id_of (some d) = d.id

  module _ (cfg : EmbedderConfig) (generate : Text → s.World → Outcome (Vector s) × s.World)
      (p : Pipeline) (fresh : Fresh) where
    unfoldable pub embed : List DocumentChunk → Action (Archive s l) (List (EmbeddedChunk s))
    embed cs a =
        let r = embed_chunks s cfg generate cs a.world in (ok r.0, record a { world = r.1 })

    abbrev pub set_world : Archive s l → s.World → Archive s l
    set_world a w = record a { world = w }

    -- The graph of the new chunks, the index, and the result.
    unfoldable pub finish :
        Status
        → String
        → String
        → Metadata
        → String
        → List (EmbeddedChunk s)
        → Action (Archive s l) IngestResult
    finish status id source metadata access_level es =
        for_each es (λ e. write (λ a. Option.map (set_world a) (
          p.build_graph e.chunk.content e.embedding source
            (put "doc_id" (text id) (put "access_level" (text access_level) metadata)) a.world)))
        >> (λ a. (ok tt, record a { world = p.rebuild_index a.chunks a.world }))
        >> pure (ingest_result source status id (length es))

    unfoldable pub insert_new :
        String
        → String
        → Text
        → Metadata
        → String
        → List DocumentChunk
        → Action (Archive s l) IngestResult
    insert_new source title content metadata access_level cs =
        upsert_document s l fresh source title content (l.sha256 content) metadata access_level
        >>= λ id. embed cs >>= λ es.
            save_chunks s l fresh id es >> finish inserted id source metadata access_level es

    -- "All chunks identical — only metadata changed", or the missing chunks are embedded.
    unfoldable pub embed_missing :
        String → String → Metadata → String → List DocumentChunk → Action (Archive s l) IngestResult
    embed_missing id source metadata access_level [] = pure (ingest_result source updated id 0)
    embed_missing id source metadata access_level (c ∷ cs) = embed (c ∷ cs) >>= λ es.
        save_chunks s l fresh id es >> finish updated id source metadata access_level es

    unfoldable pub update_existing :
        Document
        → String
        → String
        → Text
        → Metadata
        → String
        → List DocumentChunk
        → Action (Archive s l) IngestResult
    update_existing d source title content metadata access_level cs =
        get_document_chunks s l d.id >>= λ old.
        let new = by_hash [] cs in
        delete_chunks_by_ids s l (stale_ids new old)
        >> upsert_document s l fresh source title content (l.sha256 content) metadata access_level
        >> embed_missing d.id source metadata access_level (to_embed new old)

    -- The body of the `try`.
    unfoldable pub ingest_body :
        Text → String → String → Metadata → String → Action (Archive s l) IngestResult
    ingest_body content source title metadata access_level =
        get_document_by_source s l source >>= λ existing.
        if is_unchanged existing (l.sha256 content)
        then pure (ingest_result source skipped (id_of existing) 0)
        else answer (p.chunk_document content title source metadata) >>= λ cs.
            maybe existing (insert_new source title content metadata access_level cs)
              (λ d. update_existing d source title content metadata access_level cs)

    -- `except Exception`
    abbrev pub caught : String → Result IngestResult × Archive s l → IngestResult × Archive s l
    caught source (ok r, a) = (r, a)
    caught source (err e, a) = (failure_of source (s.failure a.world), a)

    unfoldable pub ingest_document :
        Text → String → String → Metadata → String → Archive s l → IngestResult × Archive s l
    ingest_document content source title metadata access_level a =
        caught source (ingest_body content source title metadata access_level a)
