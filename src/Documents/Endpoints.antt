-- ===== src/Documents/Endpoints.antt =====
-- agent/api.py, the endpoints on documents and ingestion: the deletion of a document, and the jobs that
-- an upload, a request or an event of S3 hands to the worker.
use Prim.Native.String.{String}
use package.text.Mathlib.Text.{◌==◌}
use wa_graph_rag_backend.Prelude.{
  ℕ, ◌+◌, Bool, true, false, ◌||◌, Option, none, some, List, [], ◌∷◌, ◌++◌, if◌then◌else◌,
}
use wa_graph_rag_backend.Prelude.Dict.{put}
use wa_graph_rag_backend.Prelude.Text.{◌+++◌}
use wa_graph_rag_backend.Chunker.{Text}
use wa_graph_rag_backend.Chunker.Objects.{Metadata, text, flag}
use wa_graph_rag_backend.Embedder.{Service}
use wa_graph_rag_backend.Database.Action.{
  Action, Result, ok, err, http, unprocessable, crash, Fault, ◌>>=◌, ◌>>◌, pure, raise, write,
  or_raise,
}
use wa_graph_rag_backend.Documents.{Library, Archive, get_document, delete_document}

-- `except HTTPException: raise`, `except Exception: raise HTTPException(500, str(exc))`; `message` is
-- the text of the exception.
abbrev pub as_http : String → Fault → Fault
as_http message (http code detail) = http code detail
as_http message unprocessable = unprocessable
as_http message crash = http 500 message

abbrev pub or_http : {D A : Type 0} → (D → String) → Result A × D → Result A × D
or_http message (ok a, d) = (ok a, d)
or_http message (err e, d) = (err (as_http (message d) e), d)

module _ (s : Service) (l : Library s) where
  -- `rebuild` is the rebuilt index of keywords, whose exceptions are caught.
  unfoldable pub delete_document_endpoint :
      (l.chunks.Store → s.World → s.World) → String → Action (Archive s l) String
  delete_document_endpoint rebuild id a =
      or_http (λ z. s.failure z.world)
        ((get_document s l id >>= λ found. or_raise found (http 404 "Document not found") >>= λ d.
            delete_document s l id
            >> (λ z. (ok tt, record z { world = rebuild z.chunks z.world }))
            >> pure "Document deleted successfully")
          a)

-- What the endpoints hand to the worker.
pub data IngestJob : Type 0 where
  sweep : IngestJob
  bucket : String → String → IngestJob
  object : String → String → IngestJob
  document : Text → String → String → Metadata → String → IngestJob

pub record Upload : Type 0 where
  pub filename : String
  pub bytes : Text

pub record Queued : Type 0 where
  pub title : String
  pub source : String

-- A record of an S3 event.
pub record S3Record : Type 0 where
  pub bucket_name : String
  pub object_key : String
  pub event_name : String

-- The body of a message of SNS: `Message` as JSON, where `none` is a JSONDecodeError.
pub data SnsBody : Type 0 where
  subscription_confirmation : String → SnsBody
  notification : Option (List S3Record) → SnsBody
  other : SnsBody

pub data EventAnswer : Type 0 where
  confirmed : EventAnswer
  accepted : ℕ → EventAnswer
  ignored : EventAnswer

-- `available` says whether the broker takes a job; the parser, `str.strip` and `Path.stem` are given.
module _ (available : IngestJob → List IngestJob → Bool) (parse_document : Upload → Text × Metadata)
    (strip : Text → Text) (stem : String → String) (message : List IngestJob → String) where
  unfoldable pub delay : IngestJob → Action (List IngestJob) (Unit {0})
  delay job = write (λ q. if available job q then some (q ++ (job ∷ [])) else none)

  unfoldable pub trigger_ingest : Action (List IngestJob) (Unit {0})
  trigger_ingest = delay sweep

  unfoldable pub ingest_s3_bucket : String → String → Action (List IngestJob) (Unit {0})
  ingest_s3_bucket bucket_type prefix = delay (bucket bucket_type prefix)

  abbrev pub is_blank : Text → Bool
  is_blank [] = true
  is_blank (x ∷ xs) = false

  abbrev pub queue_parsed :
      Upload → String → String → Text × Metadata → Action (List IngestJob) Queued
  queue_parsed file access_level uuid (content, file_meta) =
      let source = "upload://" +++ uuid +++ "/" +++ file.filename in
      if is_blank (strip content)
      then raise (http 400 "Document contains no parseable text")
      else delay (
          document content source (stem file.filename)
            (put "file_name" (text file.filename) (put "uploaded" (flag true) file_meta))
            access_level)
        >> pure (record { title = stem file.filename; source = source })

  unfoldable pub upload_document_endpoint :
      Upload → String → String → Action (List IngestJob) Queued
  upload_document_endpoint file access_level uuid q =
      or_http message (queue_parsed file access_level uuid (parse_document file) q)

  -- `event_names` are the tests `"ObjectCreated" in …` and `"ObjectModified" in …`.
  module _ (is_created is_modified : String → Bool) (urlopen : String → Bool) where
    abbrev pub queue_record : S3Record → Action (List IngestJob) ℕ
    queue_record r =
        if r.object_key == ""
        then pure 0
        else if is_created r.event_name || is_modified r.event_name
        then delay (object r.object_key r.bucket_name) >> pure 1
        else pure 0

    unfoldable pub queue_records : List S3Record → Action (List IngestJob) ℕ
    queue_records [] = pure 0
    queue_records (r ∷ rs) = queue_record r >>= λ n. queue_records rs >>= λ k. pure (n + k)

    -- A subscription is confirmed by opening its URL, which may raise.
    unfoldable pub s3_event_webhook : SnsBody → Action (List IngestJob) EventAnswer
    s3_event_webhook (subscription_confirmation url) =
        if urlopen url then pure confirmed else raise crash
    s3_event_webhook (notification none) = raise (http 400 "Invalid SNS message body")
    s3_event_webhook (notification (some records)) =
        queue_records records >>= λ n. pure (accepted n)
    s3_event_webhook other = pure ignored
