-- ===== src/Documents/Steps.antt =====
-- What the calls of ingestion/ingest_service.py have done when they ended well.
use Prim.Native.String.{String}
use text.Mathlib.Text.{◌==◌}
use text.Mathlib.TextEquality.{eq_iff}
use mathlib.Core.List.Memᴰ
use mathlib.Core.Path.{subst}
use wa_graph_rag_backend.Prelude.{
  ◌<◌, ◌≡◌, ◌↔◌, ◌⊎◌, inl, inr, refl, sym, ap, ◌∙◌, false, Option, none, some, List, [], ◌∷◌, Memᴰ,
  length, arith,
}
use wa_graph_rag_backend.Chunker.{Text}
use wa_graph_rag_backend.Chunker.Objects.{Metadata, DocumentChunk}
use wa_graph_rag_backend.Embedder.{
  Service, EmbedderConfig, Vector, Outcome, EmbeddedChunk, embed_chunks,
}
use wa_graph_rag_backend.Embedder.Contents.{AnswersAll, AreEmbedded, embed_chunks-AreEmbedded}
use wa_graph_rag_backend.Database.Action.{ok, when}
use wa_graph_rag_backend.Database.Action.Rules.{
  Keeps, >>=-Keeps, for_each-Keeps, put-Keeps, pure-Keeps, >>=-eq-ok, pure-eq-ok, after_read,
  after_maybe, after_put, put-eq-ok,
}
use wa_graph_rag_backend.Documents.{
  Document, ChunkRow, Library, Fresh, Archive, get_document_by_source, upsert_document,
  delete_chunks_by_ids, save_chunks, chunk_rows, is_in, patched,
}
use wa_graph_rag_backend.Documents.Hashes.{hashes, embedded_hashes}
use wa_graph_rag_backend.Documents.Ingest.{
  Status, IngestResult, ingest_result, Pipeline, embed, finish, set_world,
}

module _ (s : Service) (l : Library s) where
  -- The two tables are the same.
  abbrev pub SameTables : Archive s l → Archive s l → Type 0
  SameTables a b = (b.documents ≡ a.documents) × (b.chunks ≡ a.chunks)

  SameTables-trans : (a b c : Archive s l) → SameTables a b → SameTables b c → SameTables a c
  SameTables-trans a b c (p, q) (p', q') = (p' ∙ p, q' ∙ q)

  abbrev pub id_or : Fresh → Option Document → String
  id_or fresh none = fresh.document_id
  id_or fresh (some d) = d.id

  -- The document is there with the given source and hash.
  abbrev pub IsKept : String → String → String → Archive s l → Type 0
  IsKept id source content_hash a =
      (d : Document) × l.documents.Has a.documents d
      × (d.id ≡ id)
      × (d.source ≡ source)
      × (d.content_hash ≡ content_hash)

  updated_row :
      (source title : String) (content : Text) (content_hash : String) (metadata : Metadata)
      (d : Document) (a : Archive s l) (t : l.documents.Store)
      → l.documents.select (λ x. x.source == source) a.documents ≡ some (some d)
      → l.documents.update
          (λ x. x.id == d.id)
          (patched s l title content content_hash metadata)
          a.documents
        ≡ some t
      → IsKept d.id source content_hash (record a { documents = t })
  updated_row source title content content_hash metadata d a t sel done =
      let (has, same) = l.documents.select_some _ _ _ sel in
      (
        patched s l title content content_hash metadata d,
        (l.documents.update_rows _ _ _ _ done _).1 (d, has, rw ((eq_iff d.id d.id).1 refl) refl),
        refl,
        (eq_iff _ _).0 same,
        refl,
      )

  pub upsert-eq-ok :
      (fresh : Fresh) (source title : String) (content : Text) (content_hash : String)
      (metadata : Metadata) (access_level : String) (a b : Archive s l) (id : String)
      → upsert_document s l fresh source title content content_hash metadata access_level a
        ≡ (ok id, b)
      → (x : Option Document) × (l.documents.select (λ d. d.source == source) a.documents ≡ some x)
        × (id_or fresh x ≡ id)
        × (b.chunks ≡ a.chunks)
        × IsKept id source content_hash b
  unfolding upsert_document get_document_by_source
  upsert-eq-ok fresh source title content content_hash metadata access_level a b id h =
      let (x, sel, rest) = after_read _ _ h in
      elim (after_maybe x _ _ rest) [
        | inl (e, new) ↦
            let (t, done, last) = after_put _ _ _ new in
            let (same, end) = pure-eq-ok last in
            (
              x,
              sel,
              ap (id_or fresh) e ∙ same,
              ap (λ z. z.chunks) (sym end),
              subst (λ z. IsKept z source content_hash b) same
                  (subst (IsKept fresh.document_id source content_hash) end
                    (_, (l.documents.insert_rows _ _ _ done _).1 (inl refl), refl, refl, refl)),
            )
        | inr (d, e, old) ↦
            let (t, done, last) = after_put _ _ _ old in
            let (same, end) = pure-eq-ok last in
            (
              x,
              sel,
              ap (id_or fresh) e ∙ same,
              ap (λ z. z.chunks) (sym end),
              subst (λ z. IsKept z source content_hash b) same
                  (subst (IsKept d.id source content_hash) end (
                    updated_row source title content content_hash metadata d a t (sel ∙ ap some e)
                      done)),
            )
      ]

  pub save-eq-ok :
      (fresh : Fresh) (id : String) (es : List (EmbeddedChunk s)) (a b : Archive s l) {u : Unit {0}}
      → save_chunks s l fresh id es a ≡ (ok u, b)
      → (b.documents ≡ a.documents)
        × ((r : ChunkRow s)
            → l.chunks.Has b.chunks r
              ↔ (Memᴰ r (chunk_rows s l id fresh.chunk_id 0 es) ⊎ l.chunks.Has a.chunks r))
  unfolding save_chunks when
  save-eq-ok fresh id [] a b h =
      let same = ap (λ z. z.1) h in
      (
        ap (λ z. z.documents) (sym same),
        λ r.
            subst
              (λ (z : Archive s l). l.chunks.Has z.chunks r ↔ (Memᴰ r [] ⊎ l.chunks.Has a.chunks r))
              same (inr, λ m. elim m [ inl n ↦ absurd (Memᴰ.not-nil n) | inr n ↦ n ]),
      )
  save-eq-ok fresh id (e ∷ es) a b h =
      let (t, done, same) = put-eq-ok _ _ h in
      (
        ap (λ z. z.documents) (sym same),
        λ r.
            subst
              (λ (z : Archive s l).
                l.chunks.Has z.chunks r
                ↔ (Memᴰ r (chunk_rows s l id fresh.chunk_id 0 (e ∷ es)) ⊎ l.chunks.Has a.chunks r))
              same (l.insert_chunks_rows _ _ _ done r),
      )

  pub delete_ids-eq-ok :
      (ids : List String) (a b : Archive s l) {u : Unit {0}}
      → delete_chunks_by_ids s l ids a ≡ (ok u, b)
      → (b.documents ≡ a.documents)
        × ((r : ChunkRow s)
            → l.chunks.Has b.chunks r ↔ (l.chunks.Has a.chunks r × (is_in r.id ids ≡ false)))
  unfolding delete_chunks_by_ids when
  delete_ids-eq-ok [] a b h =
      let same = ap (λ z. z.1) h in
      (
        ap (λ z. z.documents) (sym same),
        λ r.
            subst
              (λ (z : Archive s l).
                l.chunks.Has z.chunks r ↔ (l.chunks.Has a.chunks r × (is_in r.id [] ≡ false)))
              same (λ m. (m, refl), λ m. m.0),
      )
  delete_ids-eq-ok (i ∷ ids) a b h =
      let (t, done, same) = put-eq-ok _ _ h in
      (
        ap (λ z. z.documents) (sym same),
        λ r.
            subst
              (λ (z : Archive s l).
                l.chunks.Has z.chunks r
                ↔ (l.chunks.Has a.chunks r × (is_in r.id (i ∷ ids) ≡ false)))
              same (l.chunks.delete_rows _ _ _ done r),
      )

  module _ (cfg : EmbedderConfig) (generate : Text → s.World → Outcome (Vector s) × s.World)
      (p : Pipeline s l) (fresh : Fresh) where
    embedded_lem :
        (cs : List DocumentChunk) (es : List (EmbeddedChunk s))
        → AreEmbedded s cfg generate cs es
        → embedded_hashes s l es ≡ hashes s l cs
    embedded_lem [] [] h = refl
    embedded_lem [] (e ∷ es) h = elim h [ ]
    embedded_lem (c ∷ cs) [] h = elim h [ ]
    embedded_lem (c ∷ cs) (e ∷ es) (same, rest) =
        ap (λ t. l.sha256 t ∷ embedded_hashes s l es) same.0
        ∙ ap (◌∷◌ (l.sha256 c.content)) (embedded_lem cs es rest)

    pub embed-eq-ok :
        (cs : List DocumentChunk) (a b : Archive s l) (es : List (EmbeddedChunk s))
        → AnswersAll s cfg generate
        → 0 < cfg.batch_size
        → embed s l cfg generate p fresh cs a ≡ (ok es, b)
        → SameTables a b × (embedded_hashes s l es ≡ hashes s l cs)
    unfolding embed
    embed-eq-ok cs a b es all some_batch h =
        let got : (embed_chunks s cfg generate cs a.world).0 ≡ es = ground arith in
        let end = ap (λ z. z.1) h in
        (
          (ap (λ z. z.documents) (sym end), ap (λ z. z.chunks) (sym end)),
          ap (embedded_hashes s l) (sym got)
              ∙ embedded_lem cs _
                  (embed_chunks-AreEmbedded s cfg generate cs a.world all some_batch),
        )

    finish-Keeps :
        (status : Status) (id source : String) (metadata : Metadata) (access_level : String)
        (es : List (EmbeddedChunk s))
        → Keeps SameTables
            (finish s l cfg generate p fresh status id source metadata access_level es)
    unfolding finish
    finish-Keeps status id source metadata access_level es =
        >>=-Keeps SameTables SameTables-trans _ _
          (>>=-Keeps SameTables SameTables-trans _ _
            (for_each-Keeps SameTables (λ a. (refl, refl)) SameTables-trans es _
              (λ e.
                put-Keeps SameTables (λ a. (refl, refl)) _ (set_world s l cfg generate p fresh)
                  (λ a w done. (refl, refl))))
            (λ u a. (refl, refl)))
          (λ v. pure-Keeps SameTables (λ a. (refl, refl)) _)

    pub finish-eq-ok :
        (status : Status) (id source : String) (metadata : Metadata) (access_level : String)
        (es : List (EmbeddedChunk s)) (a b : Archive s l) (res : IngestResult)
        → finish s l cfg generate p fresh status id source metadata access_level es a ≡ (ok res, b)
        → SameTables a b × (ingest_result source status id (length es) ≡ res)
    unfolding finish
    finish-eq-ok status id source metadata access_level es a b res h =
        let (u, c, first, rest) = >>=-eq-ok _ _ a h in
        (
          subst (SameTables a) (ap (λ z. z.1) h)
              (finish-Keeps status id source metadata access_level es a),
          (pure-eq-ok rest).0,
        )
