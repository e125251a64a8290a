-- ===== src/Documents/Hashes.antt =====
-- The hashes of chunks in the diff of ingestion/ingest_service.py: which the new version has, which
-- of the stored chunks are stale, and which chunks are to be embedded.
use Prim.Native.String.{String}
use text.Mathlib.Text.{◌==◌}
use text.Mathlib.TextEquality.{eq_iff}
use mathlib.Core.List.Memᴰ
use mathlib.Core.Bool.{false≢true}
use wa_graph_rag_backend.Prelude.{
  ℕ, ◌+◌, ◌≡◌, ◌↔◌, ◌⊎◌, inl, inr, refl, sym, ap, ◌∙◌, true, false, Option, none, some, List, [],
  ◌∷◌, map, Memᴰ, Bool-cases,
}
use wa_graph_rag_backend.Prelude.Dict.{Dict, put}
use wa_graph_rag_backend.Chunker.Objects.{DocumentChunk}
use wa_graph_rag_backend.Embedder.{Service, EmbeddedChunk}
use wa_graph_rag_backend.Embedder.Cache.Laws.{keys}
use wa_graph_rag_backend.Documents.{ChunkRow, Library, is_in, chunk_rows}
use wa_graph_rag_backend.Documents.Ingest.{
  by_hash, known_hash, stale_ids, has_hash, in_old, to_embed,
}

module _ (s : Service) (l : Library s) where
  abbrev pub hashes : List DocumentChunk → List String
  hashes cs = map (λ (c : DocumentChunk). l.sha256 c.content) cs

  abbrev pub embedded_hashes : List (EmbeddedChunk s) → List String
  embedded_hashes es = map (λ (e : EmbeddedChunk s). l.sha256 e.chunk.content) es

  -- Each entry has the hash of its chunk as its key.
  abbrev pub IsKeyed : Dict DocumentChunk → Type 0
  IsKeyed [] = Unit {0}
  IsKeyed ((h, c) ∷ d) = (l.sha256 c.content ≡ h) × IsKeyed d

  put-IsKeyed :
      (c : DocumentChunk) (d : Dict DocumentChunk)
      → IsKeyed d
      → IsKeyed (put (l.sha256 c.content) c d)
  put-IsKeyed c [] k = (refl, tt)
  put-IsKeyed c ((j, x) ∷ d) (e, k) = elim (Bool-cases (j == l.sha256 c.content)) [
    | inl hit ↦ rw hit ((sym ((eq_iff _ _).0 hit), k))
    | inr miss ↦ rw miss ((e, put-IsKeyed c d k))
  ]

  mem_put :
      (h j : String) (c : DocumentChunk) (d : Dict DocumentChunk)
      → Memᴰ h (keys (put j c d)) ↔ ((h ≡ j) ⊎ Memᴰ h (keys d))
  mem_put h j c [] = (Memᴰ.cases_cons, λ m. elim m [ inl e ↦ Memᴰ.head e | inr n ↦ Memᴰ.tail n ])
  mem_put h j c ((k, x) ∷ d) = elim (Bool-cases (k == j)) [
    | inl hit ↦
        rw hit
          (λ m. inr m, λ m. elim m [ inl e ↦ Memᴰ.head (e ∙ sym ((eq_iff _ _).0 hit)) | inr n ↦ n ])
    | inr miss ↦ rw miss (
      λ m. elim (Memᴰ.cases_cons m) [
        | inl e ↦ inr (Memᴰ.head e)
        | inr n ↦ elim ((mem_put h j c d).0 n) [ inl e ↦ inl e | inr o ↦ inr (Memᴰ.tail o) ]
      ],
      λ m. elim m [
        | inl e ↦ Memᴰ.tail ((mem_put h j c d).1 (inl e))
        | inr n ↦ elim (Memᴰ.cases_cons n) [
          | inl e ↦ Memᴰ.head e
          | inr o ↦ Memᴰ.tail ((mem_put h j c d).1 (inr o))
        ]
      ],
    )
  ]

  pub by_hash-IsKeyed :
      (d : Dict DocumentChunk) (cs : List DocumentChunk) → IsKeyed d → IsKeyed (by_hash s l d cs)
  by_hash-IsKeyed d [] k = k
  by_hash-IsKeyed d (c ∷ cs) k =
      by_hash-IsKeyed (put (l.sha256 c.content) c d) cs (put-IsKeyed c d k)

  pub mem_by_hash :
      (h : String) (d : Dict DocumentChunk) (cs : List DocumentChunk)
      → Memᴰ h (keys (by_hash s l d cs)) ↔ (Memᴰ h (keys d) ⊎ Memᴰ h (hashes cs))
  mem_by_hash h d [] = (inl, λ m. elim m [ inl n ↦ n | inr n ↦ absurd (Memᴰ.not-nil n) ])
  mem_by_hash h d (c ∷ cs) = (
    λ m. elim ((mem_by_hash h (put (l.sha256 c.content) c d) cs).0 m) [
      | inl n ↦ elim ((mem_put h _ c d).0 n) [ inl e ↦ inr (Memᴰ.head e) | inr o ↦ inl o ]
      | inr n ↦ inr (Memᴰ.tail n)
    ],
    λ m. (mem_by_hash h (put (l.sha256 c.content) c d) cs).1 (elim m [
      | inl n ↦ inl ((mem_put h _ c d).1 (inr n))
      | inr n ↦ elim (Memᴰ.cases_cons n) [
        | inl e ↦ inl ((mem_put h _ c d).1 (inl e))
        | inr o ↦ inr o
      ]
    ]),
  )

  pub known_lem :
      (h : String) (d : Dict DocumentChunk) → (known_hash s l (some h) d ≡ true) ↔ Memᴰ h (keys d)
  known_lem h [] = (λ e. absurd (false≢true e), λ m. absurd (Memᴰ.not-nil m))
  known_lem h ((j, c) ∷ d) = elim (Bool-cases (j == h)) [
    | inl hit ↦ rw hit (λ e. Memᴰ.head (sym ((eq_iff _ _).0 hit)), λ m. refl)
    | inr miss ↦ rw miss (
      λ e. Memᴰ.tail ((known_lem h d).0 e),
      λ m. elim (Memᴰ.cases_cons m) [
        | inl e ↦ absurd (false≢true (sym miss ∙ (eq_iff _ _).1 (sym e)))
        | inr n ↦ (known_lem h d).1 n
      ],
    )
  ]

  -- A row that is not known is stale, and a stale id is that of such a row.
  pub stale_lem :
      (d : Dict DocumentChunk) (old : List (ChunkRow s)) (x : String)
      → (is_in x (stale_ids s l d old) ≡ true)
        ↔ ((r : ChunkRow s) × Memᴰ r old × (x ≡ r.id) × (known_hash s l r.content_hash d ≡ false))
  stale_lem d [] x = (λ e. absurd (false≢true e), λ h. absurd (Memᴰ.not-nil h.1))
  stale_lem d (r ∷ old) x = elim (Bool-cases (known_hash s l r.content_hash d)) [
    | inl known ↦ rw known (
      λ e. let (q, m, same, un) = (stale_lem d old x).0 e in (q, Memᴰ.tail m, same, un),
      λ h.
          let (q, m, same, un) = h in
          elim (Memᴰ.cases_cons m) [
            | inl e ↦ absurd (
                false≢true
                  (sym un ∙ ap (λ (z : ChunkRow s). known_hash s l z.content_hash d) e ∙ known))
            | inr n ↦ (stale_lem d old x).1 (q, n, same, un)
          ],
    )
    | inr unknown ↦ elim (Bool-cases (x == r.id)) [
      | inl hit ↦
          rw (unknown, hit) (λ e. (r, Memᴰ.head refl, (eq_iff _ _).0 hit, unknown), λ h. refl)
      | inr miss ↦
          rw (unknown, miss)
            (
              λ e. let (q, m, same, un) = (stale_lem d old x).0 e in (q, Memᴰ.tail m, same, un),
              λ h.
                  let (q, m, same, un) = h in
                  elim (Memᴰ.cases_cons m) [
                    | inl e ↦ absurd (
                        false≢true
                          (sym miss ∙ (eq_iff _ _).1 (same ∙ ap (λ (z : ChunkRow s). z.id) e)))
                    | inr n ↦ (stale_lem d old x).1 (q, n, same, un)
                  ],
            )
    ]
  ]

  has_hash_lem : (h : String) (o : Option String) → has_hash s l h o ≡ true → o ≡ some h
  has_hash_lem h none e = absurd (false≢true e)
  has_hash_lem h (some k) e = elim (Bool-cases (k == "")) [
    | inl blank ↦ absurd (false≢true (rw blank at e))
    | inr full ↦ let same = rw full at e in ap some (sym ((eq_iff _ _).0 same))
  ]

  pub in_old_lem :
      (h : String) (old : List (ChunkRow s))
      → in_old s l h old ≡ true
      → (r : ChunkRow s) × Memᴰ r old × (r.content_hash ≡ some h)
  in_old_lem h [] e = absurd (false≢true e)
  in_old_lem h (r ∷ old) e = elim (Bool-cases (has_hash s l h r.content_hash)) [
    | inl hit ↦ (r, Memᴰ.head refl, has_hash_lem h r.content_hash hit)
    | inr miss ↦ let (q, m, same) = in_old_lem h old (rw miss at e) in (q, Memᴰ.tail m, same)
  ]

  pub to_embed_lem :
      (h : String) (d : Dict DocumentChunk) (old : List (ChunkRow s))
      → IsKeyed d
      → Memᴰ h (hashes (to_embed s l d old)) ↔ (Memᴰ h (keys d) × (in_old s l h old ≡ false))
  to_embed_lem h [] old k = (λ m. absurd (Memᴰ.not-nil m), λ m. absurd (Memᴰ.not-nil m.0))
  to_embed_lem h ((j, c) ∷ d) old (key, k) = elim (Bool-cases (in_old s l j old)) [
    | inl kept ↦ rw kept (
      λ m. let (n, e) = (to_embed_lem h d old k).0 m in (Memᴰ.tail n, e),
      λ m. elim (Memᴰ.cases_cons m.0) [
        | inl e ↦ absurd (false≢true (sym m.1 ∙ ap (λ x. in_old s l x old) e ∙ kept))
        | inr n ↦ (to_embed_lem h d old k).1 (n, m.1)
      ],
    )
    | inr new ↦ rw new (
      λ m. elim (Memᴰ.cases_cons m) [
        | inl e ↦ (Memᴰ.head (e ∙ key), ap (λ x. in_old s l x old) (e ∙ key) ∙ new)
        | inr n ↦ let (o, e) = (to_embed_lem h d old k).0 n in (Memᴰ.tail o, e)
      ],
      λ m. elim (Memᴰ.cases_cons m.0) [
        | inl e ↦ Memᴰ.head (e ∙ sym key)
        | inr n ↦ Memᴰ.tail ((to_embed_lem h d old k).1 (n, m.1))
      ],
    )
  ]

  -- The rows of embedded chunks have the hashes of these.
  pub rows-hashes :
      (id : String) (ids : ℕ → String) (i : ℕ) (es : List (EmbeddedChunk s)) (r : ChunkRow s)
      → Memᴰ r (chunk_rows s l id ids i es)
      → (r.document_id ≡ id)
        × ((h : String) × (r.content_hash ≡ some h) × Memᴰ h (embedded_hashes es))
  rows-hashes id ids i [] r m = absurd (Memᴰ.not-nil m)
  rows-hashes id ids i (e ∷ es) r m = elim (Memᴰ.cases_cons m) [
    | inl same ↦ (
      ap (λ (z : ChunkRow s). z.document_id) same,
      (_, ap (λ (z : ChunkRow s). z.content_hash) same, Memᴰ.head refl),
    )
    | inr n ↦
        let (doc, (h, has, among)) = rows-hashes id ids (i + 1) es r n in
        (doc, (h, has, Memᴰ.tail among))
  ]

  pub hashes-rows :
      (id : String) (ids : ℕ → String) (i : ℕ) (es : List (EmbeddedChunk s)) (h : String)
      → Memᴰ h (embedded_hashes es)
      → (r : ChunkRow s) × Memᴰ r (chunk_rows s l id ids i es)
        × (r.document_id ≡ id)
        × (r.content_hash ≡ some h)
  hashes-rows id ids i [] h m = absurd (Memᴰ.not-nil m)
  hashes-rows id ids i (e ∷ es) h m = elim (Memᴰ.cases_cons m) [
    | inl same ↦ (_, Memᴰ.head refl, refl, ap some (sym same))
    | inr n ↦
        let (r, among, doc, has) = hashes-rows id ids (i + 1) es h n in
        (r, Memᴰ.tail among, doc, has)
  ]
