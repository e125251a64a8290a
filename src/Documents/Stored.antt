-- ===== src/Documents/Stored.antt =====
-- What `ingest_document` of ingestion/ingest_service.py leaves in the two tables.
use Prim.Native.String.{String}
use mathlib.Core.List.Memᴰ
use mathlib.Core.Path.{subst}
use mathlib.Core.Bool.{false≢true}
use wa_graph_rag_backend.Prelude.{
  ℕ, ◌<◌, ◌≡◌, ◌↔◌, ◌⊎◌, inl, inr, refl, sym, ap, ◌∙◌, false, some, List, [], Memᴰ, length,
  some_inv, Bool-cases,
}
use wa_graph_rag_backend.Chunker.Objects.{DocumentChunk}
use wa_graph_rag_backend.Embedder.{Service, EmbeddedChunk}
use wa_graph_rag_backend.Embedder.Cache.Laws.{keys}
use wa_graph_rag_backend.Documents.{ChunkRow, Library, chunk_rows, is_in}
use wa_graph_rag_backend.Documents.Hashes.{
  hashes, embedded_hashes, by_hash-IsKeyed, mem_by_hash, known_lem, stale_lem, in_old_lem,
  to_embed_lem, rows-hashes, hashes-rows,
}
use wa_graph_rag_backend.Documents.Ingest.{by_hash, stale_ids, in_old, to_embed, known_hash}

module _ (s : Service) (l : Library s) where
  -- The hashes of a document's stored chunks are the given ones.
  abbrev pub IsStored : String → List String → l.chunks.Store → Type 0
  IsStored id hs t =
      (h : String)
      → ((r : ChunkRow s) × l.chunks.Has t r × (r.document_id ≡ id) × (r.content_hash ≡ some h))
        ↔ Memᴰ h hs

  -- The primary key of the chunks.
  abbrev pub UniqueIds : l.chunks.Store → Type 0
  UniqueIds t = (q r : ChunkRow s) → l.chunks.Has t q → l.chunks.Has t r → q.id ≡ r.id → q ≡ r

  -- No answer with a document's chunks is at the server's limit.
  abbrev pub FewRows : l.chunks.Store → Type 0
  FewRows t =
      (id : String) (rs : List (ChunkRow s)) → l.chunks_of id t ≡ some rs → length rs < l.max_rows

  pub inserted_rows :
      (id : String) (ids : ℕ → String) (es : List (EmbeddedChunk s)) (a b : l.chunks.Store)
      → ((r : ChunkRow s) → l.chunks.Has a r → r.document_id ≡ id → ⊥)
      → ((r : ChunkRow s)
          → l.chunks.Has b r ↔ (Memᴰ r (chunk_rows s l id ids 0 es) ⊎ l.chunks.Has a r))
      → IsStored id (embedded_hashes s l es) b
  inserted_rows id ids es a b none_yet rows h = (
    λ m.
        let (r, has, doc, hash) = m in
        elim ((rows r).0 has) [
          | inl new ↦
              let (_, (k, is_k, among)) = rows-hashes s l id ids 0 es r new in
              subst (λ x. Memᴰ x (embedded_hashes s l es)) (some_inv (sym is_k ∙ hash)) among
          | inr old ↦ absurd (none_yet r old doc)
        ],
    λ m.
        let (r, new, doc, hash) = hashes-rows s l id ids 0 es h m in
        (r, (rows r).1 (inl new), doc, hash),
  )

  module _ (id : String) (ids : ℕ → String) (cs : List DocumentChunk) (old : List (ChunkRow s))
      (es : List (EmbeddedChunk s)) (a b : l.chunks.Store) (unique : UniqueIds a)
      (stored : l.chunks_of id a ≡ some old) (few : length old < l.max_rows)
      (same : embedded_hashes s l es ≡ hashes s l (to_embed s l (by_hash s l [] cs) old))
      (rows : (r : ChunkRow s)
        → l.chunks.Has b r ↔ (
            Memᴰ r (chunk_rows s l id ids 0 es)
            ⊎ (l.chunks.Has a r
                × (is_in r.id (stale_ids s l (by_hash s l [] cs) old) ≡ false)))) where
    among_new : (h : String) → Memᴰ h (keys (by_hash s l [] cs)) → Memᴰ h (hashes s l cs)
    among_new h m = elim ((mem_by_hash s l h [] cs).0 m) [
      | inl n ↦ absurd (Memᴰ.not-nil n)
      | inr n ↦ n
    ]

    -- A row whose hash the new version has is not stale.
    kept_row :
        (h : String) (r : ChunkRow s)
        → l.chunks.Has a r
        → r.content_hash ≡ some h
        → Memᴰ h (hashes s l cs)
        → is_in r.id (stale_ids s l (by_hash s l [] cs) old) ≡ false
    kept_row h r has hash m =
        elim (Bool-cases (is_in r.id (stale_ids s l (by_hash s l [] cs) old))) [
          | inr keep ↦ keep
          | inl stale ↦
              let (q, mq, same_id, unknown) =
                (stale_lem s l (by_hash s l [] cs) old r.id).0 stale in
              let is_r : r ≡ q = unique r q has (l.chunks_of_rows id a old stored q mq).0 same_id in
              let known =
                (known_lem s l h (by_hash s l [] cs)).1 ((mem_by_hash s l h [] cs).1 (inr m)) in
              absurd (
                false≢true (
                  sym unknown
                  ∙ ap (λ (z : ChunkRow s). known_hash s l z.content_hash (by_hash s l [] cs))
                      (sym is_r)
                  ∙ ap (λ o. known_hash s l o (by_hash s l [] cs)) hash
                  ∙ known))
        ]

    -- The hash of a row that is not stale is one of the new version.
    known_row :
        (h : String) (r : ChunkRow s)
        → l.chunks.Has a r
        → r.document_id ≡ id
        → r.content_hash ≡ some h
        → is_in r.id (stale_ids s l (by_hash s l [] cs) old) ≡ false
        → Memᴰ h (hashes s l cs)
    known_row h r has doc hash keep =
        elim (Bool-cases (known_hash s l r.content_hash (by_hash s l [] cs))) [
          | inl known ↦ among_new h (
              (known_lem s l h (by_hash s l [] cs)).0
                (ap (λ o. known_hash s l o (by_hash s l [] cs)) (sym hash) ∙ known))
          | inr unknown ↦ absurd (
              false≢true (
                sym keep
                ∙ (stale_lem s l (by_hash s l [] cs) old r.id).1
                    (r, l.chunks_of_all id a old stored few r has doc, refl, unknown)))
        ]

    -- The diff: the stale rows are gone, and the rows of the missing chunks are there.
    pub replaced_rows : IsStored id (hashes s l cs) b
    replaced_rows h = (
      λ m.
          let (r, has, doc, hash) = m in
          elim ((rows r).0 has) [
            | inl new ↦
                let (_, (k, is_k, among)) = rows-hashes s l id ids 0 es r new in
                let is_h : k ≡ h = some_inv (sym is_k ∙ hash) in
                let missing =
                  subst (Memᴰ h) same (subst (λ x. Memᴰ x (embedded_hashes s l es)) is_h among) in
                among_new h
                  ((to_embed_lem s l h (by_hash s l [] cs) old (by_hash-IsKeyed s l [] cs tt)).0
                    missing).0
            | inr (has_a, keep) ↦ known_row h r has_a doc hash keep
          ],
      λ m. elim (Bool-cases (in_old s l h old)) [
        | inl present ↦
            let (r, mr, hash) = in_old_lem s l h old present in
            let (has, doc) = l.chunks_of_rows id a old stored r mr in
            (r, (rows r).1 (inr (has, kept_row h r has hash m)), doc, hash)
        | inr missing ↦
            let key = (mem_by_hash s l h [] cs).1 (inr m) in
            let new =
              (to_embed_lem s l h (by_hash s l [] cs) old (by_hash-IsKeyed s l [] cs tt)).1
                (key, missing) in
            let (r, mr, doc, hash) =
              hashes-rows s l id ids 0 es h (subst (Memᴰ h) (sym same) new) in
            (r, (rows r).1 (inl mr), doc, hash)
      ],
    )
