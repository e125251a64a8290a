-- ===== src/Documents/Interrupted.antt =====
-- `ingest_document` of ingestion/ingest_service.py on a document whose content is known already, and
-- on one whose first run broke off behind the document's row.
use Prim.Native.String.{String}
use text.Mathlib.Text.{◌==◌}
use text.Mathlib.TextEquality.{eq_iff}
use mathlib.Core.Path.{subst}
use mathlib.Core.Bool.{false≢true}
use wa_graph_rag_backend.Prelude.{
  ◌<◌, ◌≡◌, inl, inr, refl, sym, ap, ◌∙◌, Option, none, some, List, [], ◌∷◌, Option-cases,
}
use wa_graph_rag_backend.Chunker.{Text}
use wa_graph_rag_backend.Chunker.Objects.{Metadata, DocumentChunk}
use wa_graph_rag_backend.Embedder.{Service, EmbedderConfig, Vector, Outcome, EmbeddedChunk}
use wa_graph_rag_backend.Embedder.Contents.{AnswersAll, AreEmbedded, embed_chunks-AreEmbedded}
use wa_graph_rag_backend.Database.Action.{running}
use wa_graph_rag_backend.Documents.{
  Document, ChunkRow, Library, Fresh, Archive, new_document, get_document_by_source,
  upsert_document, save_chunks,
}
use wa_graph_rag_backend.Documents.Ingest.{
  failed, skipped, ingest_result, Pipeline, embed, insert_new, ingest_body, ingest_document,
}

module _ (s : Service) (l : Library s) (cfg : EmbedderConfig)
    (generate : Text → s.World → Outcome (Vector s) × s.World) (p : Pipeline s l)
    (fresh : Fresh) where
  -- A document whose stored hash is that of the content is skipped: the answer is its id, and
  -- nothing is written, embedded or sent, whatever is stored of its chunks.
  ingest_document_skips :
      (content : Text) (source title : String) (metadata : Metadata) (access_level : String)
      (a : Archive s l) (d : Document)
      → l.documents.select (λ x. x.source == source) a.documents ≡ some (some d)
      → d.content_hash ≡ l.sha256 content
      → ingest_document s l cfg generate p fresh content source title metadata access_level a
        ≡ (ingest_result source skipped d.id 0, a)
  unfolding ingest_document ingest_body get_document_by_source running
  ingest_document_skips content source title metadata access_level a d sel same =
      rw (sel, (eq_iff _ _).1 same) refl

  some_embedded :
      (c : DocumentChunk) (cs : List DocumentChunk) (es : List (EmbeddedChunk s))
      → AreEmbedded s cfg generate (c ∷ cs) es
      → (e : EmbeddedChunk s) × (rest : List (EmbeddedChunk s)) × (es ≡ e ∷ rest)
  some_embedded c cs [] h = elim h [ ]
  some_embedded c cs (e ∷ es) h = (e, es, refl)

  breaks_off :
      (content : Text) (source title : String) (metadata : Metadata) (access_level : String)
      (a : Archive s l) (t : l.documents.Store) (c : DocumentChunk) (cs : List DocumentChunk)
      → AnswersAll s cfg generate
      → 0 < cfg.batch_size
      → l.documents.select (λ x. x.source == source) a.documents ≡ some none
      → p.chunk_document content title source metadata ≡ some (c ∷ cs)
      → l.documents.insert
          (new_document s l fresh.document_id source title content
            (l.sha256 content)
            metadata
            access_level)
          a.documents
        ≡ some t
      → ((rows : List (ChunkRow s)) → l.insert_chunks rows a.chunks ≡ none)
      → ((ingest_document s l cfg generate p fresh content source title metadata access_level
            a).0.status
          ≡ failed)
        × ((ingest_document s l cfg generate p fresh content source title metadata access_level
              a).1.documents
            ≡ t)
        × ((ingest_document s l cfg generate p fresh content source title metadata access_level
              a).1.chunks
            ≡ a.chunks)
  unfolding ingest_document ingest_body insert_new upsert_document get_document_by_source embed
      save_chunks running
  breaks_off content source title metadata access_level a t c cs all some_batch sel cut put down =
      let (e, es, more) =
        some_embedded c cs _
          (embed_chunks-AreEmbedded s cfg generate (c ∷ cs) a.world all some_batch) in
      rw (sel, cut, sel, put, more, down _) ((refl, refl, refl))

module _ (s : Service) (l : Library s) (cfg : EmbedderConfig)
    (generate : Text → s.World → Outcome (Vector s) × s.World) (p : Pipeline s l)
    (fresh : Fresh) where
  -- If the source is new, its row can be written and read again, and the insert of its chunks
  -- raises, then the run answers "failed" and leaves the row without a chunk; and from then on
  -- every run on the same content, with whatever chunker and embedder and however well they work,
  -- answers "skipped" and changes nothing.
  pub ingest_document_interrupted :
      (content : Text) (source title : String) (metadata : Metadata) (access_level : String)
      (a : Archive s l) (t : l.documents.Store) (c : DocumentChunk) (cs : List DocumentChunk)
      (x : Option Document)
      → AnswersAll s cfg generate
      → 0 < cfg.batch_size
      → l.documents.select (λ x. x.source == source) a.documents ≡ some none
      → p.chunk_document content title source metadata ≡ some (c ∷ cs)
      → l.documents.insert
          (new_document s l fresh.document_id source title content
            (l.sha256 content)
            metadata
            access_level)
          a.documents
        ≡ some t
      → l.documents.select (λ x. x.source == source) t ≡ some x
      → ((rows : List (ChunkRow s)) → l.insert_chunks rows a.chunks ≡ none)
      → (b : Archive s l) × ((ingest_document s l cfg generate p fresh content source title metadata
            access_level a).1
          ≡ b)
        × ((ingest_document s l cfg generate p fresh content source title metadata access_level
              a).0.status
            ≡ failed)
        × (b.chunks ≡ a.chunks)
        × ((cfg' : EmbedderConfig) (generate' : Text → s.World → Outcome (Vector s) × s.World)
              (p' : Pipeline s l) (fresh' : Fresh) (title' : String) (metadata' : Metadata)
              (access_level' : String)
            → (id : String) × (ingest_document s l cfg' generate' p' fresh' content source title'
                  metadata' access_level' b
                ≡ (ingest_result source skipped id 0, b)))
  ingest_document_interrupted content source title metadata access_level a t c cs x all some_batch
        sel cut put again down =
      let (status, docs, chunks) =
        breaks_off s l cfg generate p fresh content source title metadata access_level a t c cs all
          some_batch sel cut put down in
      let b =
        (ingest_document s l cfg generate p fresh content source title metadata access_level a).1 in
      let row =
        new_document s l fresh.document_id source title content (l.sha256 content) metadata
          access_level in
      (
        b,
        refl,
        status,
        chunks,
        λ cfg' generate' p' fresh' title' metadata' access_level'. elim (Option-cases x) [
          | inl gone ↦
              let missed =
                l.documents.select_none _ t (again ∙ ap some gone) row
                  ((l.documents.insert_rows row a.documents t put row).1 (inl refl)) in
              absurd (false≢true (sym missed ∙ (eq_iff source source).1 refl))
          | inr (d, found) ↦
              let (has, same) = l.documents.select_some _ t d (again ∙ ap some found) in
              (
                d.id,
                ingest_document_skips s l cfg' generate' p' fresh' content source title' metadata'
                    access_level' b d
                    (subst (λ z. l.documents.select (λ x. x.source == source) z ≡ some (some d))
                      (sym docs) (again ∙ ap some found))
                    (elim ((l.documents.insert_rows row a.documents t put d).0 has) [
                      | inl is_row ↦ ap (λ (z : Document). z.content_hash) is_row
                      | inr old ↦
                          absurd (false≢true (sym (l.documents.select_none _ _ sel d old) ∙ same))
                    ]),
              )
        ],
      )
