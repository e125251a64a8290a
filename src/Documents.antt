-- ===== src/Documents.antt =====
-- agent/db_utils.py, the part on documents and their chunks. Each function is an `Action` on the two
-- tables and on the outside world, which is that of the embedding service.
pub mod Ingest
pub mod Hashes
pub mod Steps
pub mod Stored
pub mod Ingested
pub mod Interrupted
pub mod Bulk
pub mod Tasks
pub mod Endpoints
mod Tests
use Prim.Native.String.{String}
use text.Mathlib.Text.{◌==◌}
use mathlib.Core.Option
use wa_graph_rag_backend.Prelude.{
  ℕ, ◌+◌, ◌<◌, ◌≡◌, ◌↔◌, ◌⊎◌, Bool, true, false, Option, none, some, List, [], ◌∷◌, Memᴰ, length,
  if◌then◌else◌,
}
use wa_graph_rag_backend.Chunker.{Text}
use wa_graph_rag_backend.Chunker.Objects.{Metadata}
use wa_graph_rag_backend.Embedder.{Service, Vector, EmbeddedChunk}
use wa_graph_rag_backend.Database.{Table}
use wa_graph_rag_backend.Database.Action.{Action, ◌>>=◌, ◌>>◌, pure, read, write, maybe, ok, when}

-- A row of `documents`.
pub record Document : Type 0 where
  pub id : String
  pub title : String
  pub source : String
  pub content : Text
  pub content_hash : String
  pub metadata : Metadata
  pub access_level : String

-- A row of `chunks`.
pub record ChunkRow (s : Service) : Type 0 where
  pub id : String
  pub document_id : String
  pub content : Text
  pub content_hash : Option String
  pub embedding : Option (Vector s)
  pub chunk_index : ℕ
  pub token_count : ℕ
  pub metadata : Metadata

-- The two tables; the insert of several rows in one request; a document's chunks in the order of
-- `chunk_index`, which are all of them only if the answer is below the server's limit `max_rows` for
-- the rows of one answer; SHA-256; and the deletion of a document's nodes in the graph, which does not raise.
pub record Library (s : Service) : Type 1 where
  pub documents : Table Document
  pub chunks : Table (ChunkRow s)
  pub insert_chunks : List (ChunkRow s) → chunks.Store → Option chunks.Store
  pub insert_chunks_rows :
      (rs : List (ChunkRow s)) (a b : chunks.Store)
      → insert_chunks rs a ≡ some b
      → (r : ChunkRow s) → chunks.Has b r ↔ (Memᴰ r rs ⊎ chunks.Has a r)
  pub chunks_of : String → chunks.Store → Option (List (ChunkRow s))
  pub max_rows : ℕ
  pub chunks_of_rows :
      (id : String) (a : chunks.Store) (rs : List (ChunkRow s))
      → chunks_of id a ≡ some rs
      → (r : ChunkRow s) → Memᴰ r rs
      → chunks.Has a r × (r.document_id ≡ id)
  pub chunks_of_all :
      (id : String) (a : chunks.Store) (rs : List (ChunkRow s))
      → chunks_of id a ≡ some rs
      → length rs < max_rows
      → (r : ChunkRow s) → chunks.Has a r
      → r.document_id ≡ id
      → Memᴰ r rs
  pub sha256 : Text → String
  pub delete_graph : String → s.World → s.World

-- The identifiers that a request draws: of a new document, and of new chunks by their position.
pub record Fresh : Type 0 where
  pub document_id : String
  pub chunk_id : ℕ → String

abbrev pub is_in : String → List String → Bool
is_in x [] = false
is_in x (y ∷ ys) = if x == y then true else is_in x ys

-- The test of a list.
abbrev pub filled : {A : Type 0} → List A → Bool
filled [] = false
filled (x ∷ xs) = true

module _ (s : Service) (l : Library s) where
  pub record Archive : Type 0 where
    pub documents : l.documents.Store
    pub chunks : l.chunks.Store
    pub world : s.World

  abbrev pub set_documents : Archive → l.documents.Store → Archive
  set_documents a t = record a { documents = t }

  abbrev pub set_chunks : Archive → l.chunks.Store → Archive
  set_chunks a t = record a { chunks = t }

  unfoldable pub get_document_by_source : String → Action Archive (Option Document)
  get_document_by_source source =
      read (λ a. l.documents.select (λ d. d.source == source) a.documents)

  unfoldable pub get_document : String → Action Archive (Option Document)
  get_document id = read (λ a. l.documents.select (λ d. d.id == id) a.documents)

  unfoldable pub get_document_chunks : String → Action Archive (List (ChunkRow s))
  get_document_chunks id = read (λ a. l.chunks_of id a.chunks)

  abbrev pub patched : String → Text → String → Metadata → Document → Document
  patched title content content_hash metadata d = record d {
    title = title;
    content = content;
    content_hash = content_hash;
    metadata = metadata;
  }

  abbrev pub new_document : String → String → String → Text → String → Metadata → String → Document
  new_document id source title content content_hash metadata access_level = record {
    id = id;
    title = title;
    source = source;
    content = content;
    content_hash = content_hash;
    metadata = metadata;
    access_level = access_level;
  }

  unfoldable pub upsert_document :
      Fresh → String → String → Text → String → Metadata → String → Action Archive String
  upsert_document fresh source title content content_hash metadata access_level =
      get_document_by_source source >>= λ existing.
      maybe existing
        (write (λ a. Option.map (set_documents a) (
            l.documents.insert
              (new_document fresh.document_id source title content content_hash metadata
                access_level)
              a.documents))
          >> pure fresh.document_id)
        (λ d.
          write (λ a. Option.map (set_documents a) (
            l.documents.update (λ x. x.id == d.id) (patched title content content_hash metadata)
              a.documents))
          >> pure d.id)

  unfoldable pub delete_document_chunks : String → Action Archive (Unit {0})
  delete_document_chunks id =
      write (λ a. Option.map (set_chunks a) (l.chunks.delete (λ r. r.document_id == id) a.chunks))

  unfoldable pub delete_chunks_by_ids : List String → Action Archive (Unit {0})
  delete_chunks_by_ids ids =
      when (filled ids)
        (write (λ a. Option.map (set_chunks a) (l.chunks.delete (λ r. is_in r.id ids) a.chunks)))

  abbrev pub chunk_rows : String → (ℕ → String) → ℕ → List (EmbeddedChunk s) → List (ChunkRow s)
  chunk_rows document_id chunk_id i [] = []
  chunk_rows document_id chunk_id i (e ∷ es) =
      record {
        id = chunk_id i;
        document_id = document_id;
        content = e.chunk.content;
        content_hash = some (l.sha256 e.chunk.content);
        embedding = e.embedding;
        chunk_index = e.chunk.index;
        token_count = e.chunk.token_count;
        metadata = e.chunk.metadata;
      }
      ∷ chunk_rows document_id chunk_id (i + 1) es

  unfoldable pub save_chunks : Fresh → String → List (EmbeddedChunk s) → Action Archive (Unit {0})
  save_chunks fresh document_id es = when (filled es) (
      write (λ a.
        Option.map (set_chunks a)
          (l.insert_chunks (chunk_rows document_id fresh.chunk_id 0 es) a.chunks)))

  -- `if doc: … if source: await delete_graph_document(source)`
  abbrev pub delete_nodes : Option Document → Action Archive (Unit {0})
  delete_nodes none = pure tt
  delete_nodes (some d) = if d.source == "" then pure tt else λ a.
      (ok tt, record a { world = l.delete_graph d.source a.world })

  unfoldable pub delete_document : String → Action Archive (Unit {0})
  delete_document id = get_document id >>= λ found.
      delete_nodes found
      >> delete_document_chunks id
      >> write
          (λ a. Option.map (set_documents a) (l.documents.delete (λ d. d.id == id) a.documents))
