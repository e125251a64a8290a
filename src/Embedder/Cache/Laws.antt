-- ===== src/Embedder/Cache/Laws.antt =====
-- The cache of ingestion/embedder.py keeps its two dicts together and within its size, and gives
-- back what was put in.
use Prim.Native.String.{String}
use package.text.Mathlib.Text.{◌==◌}
use package.text.Mathlib.TextEquality.{eq_iff}
use mathlib.Core.List.Memᴰ
use mathlib.Core.Bool.{false≢true}
use mathlib.Core.Path.{subst}
use wa_graph_rag_backend.Prelude.{
  ℕ, suc, ◌+◌, ◌≤◌, ◌<◌, ltb, leb, ◌≡◌, refl, sym, ap, ◌∙◌, inl, inr, false, some, List, [], ◌∷◌,
  length, Memᴰ, arith, if◌then◌else◌, Bool-cases, leb→le, leb_false→lt,
}
use wa_graph_rag_backend.Prelude.Dict.{Dict, lookup, put}
use wa_graph_rag_backend.Chunker.{Text}
use wa_graph_rag_backend.Embedder.Cache.{
  EmbeddingCache, cons_rest, delete, least, oldest, get, evict, put_embedding,
}

abbrev pub keys : {V : Type 0} → Dict V → List String
keys [] = []
keys ((k, v) ∷ d) = k ∷ keys d

abbrev keys_put : String → List String → List String
keys_put k [] = k ∷ []
keys_put k (j ∷ ks) = if j == k then j ∷ ks else j ∷ keys_put k ks

abbrev keys_delete : String → List String → List String
keys_delete k [] = []
keys_delete k (j ∷ ks) = if j == k then ks else j ∷ keys_delete k ks

module _ {V : Type 0} where
  keys-put : (k : String) (v : V) (d : Dict V) → keys (put k v d) ≡ keys_put k (keys d)
  keys-put k v [] = refl
  keys-put k v ((j, w) ∷ d) = elim (Bool-cases (j == k)) [
    | inl hit ↦ rw hit
    | inr miss ↦ rw miss (ap (◌∷◌ j) (keys-put k v d))
  ]

  length-keys : (d : Dict V) → length (keys d) ≡ length d
  length-keys [] = refl
  length-keys ((k, v) ∷ d) = ap suc (length-keys d)

  pub lookup-put : (k : String) (v : V) (d : Dict V) → lookup k (put k v d) ≡ some v
  lookup-put k v [] = rw ((eq_iff k k).1 refl)
  lookup-put k v ((j, w) ∷ d) = elim (Bool-cases (j == k)) [
    | inl hit ↦ rw (hit, hit)
    | inr miss ↦ rw (miss, miss) (lookup-put k v d)
  ]

  delete_lem :
      (k : String) (d : Dict V)
      → Memᴰ k (keys d)
      → (e : Dict V) × (delete k d ≡ some e)
        × (keys e ≡ keys_delete k (keys d))
        × (length e + 1 ≡ length d)
  delete_lem k [] m = absurd (Memᴰ.not-nil m)
  delete_lem k ((j, v) ∷ d) m = elim (Bool-cases (j == k)) [
    | inl hit ↦ rw hit ((d, refl, refl, omega arith))
    | inr miss ↦
        let (e, gone, left, size) = delete_lem k d (later m miss) in
        rw miss (((j, v) ∷ e, ap (cons_rest (j, v)) gone, ap (◌∷◌ j) left, omega (arith, size)))
  ]
    where
      later : Memᴰ k (j ∷ keys d) → (j == k) ≡ false → Memᴰ k (keys d)
      later (Memᴰ.head e) miss = absurd (false≢true (sym miss ∙ (eq_iff j k).1 (sym e)))
      later (Memᴰ.tail n) miss = n

  length-put : (k : String) (v : V) (d : Dict V) → length (put k v d) ≤ length d + 1
  length-put k v [] = omega arith
  length-put k v ((j, w) ∷ d) = elim (Bool-cases (j == k)) [
    | inl hit ↦ rw hit (omega arith)
    | inr miss ↦ rw miss (omega (arith, length-put k v d))
  ]

least-mem : (k : String) (t : ℕ) (d : Dict ℕ) → Memᴰ (least k t d) (k ∷ keys d)
least-mem k t [] = Memᴰ.head refl
least-mem k t ((j, u) ∷ d) = elim (Bool-cases (ltb u t)) [
  | inl older ↦ rw older (Memᴰ.tail (least-mem j u d))
  | inr newer ↦ rw newer (insert_second (least-mem k t d))
]
  where
    insert_second : {x : String} → Memᴰ x (k ∷ keys d) → Memᴰ x (k ∷ j ∷ keys d)
    insert_second (Memᴰ.head e) = Memᴰ.head e
    insert_second (Memᴰ.tail m) = Memᴰ.tail (Memᴰ.tail m)

oldest_lem : (d : Dict ℕ) → 0 < length d → (k : String) × (oldest d ≡ some k) × Memᴰ k (keys d)
oldest_lem [] some_key = absurd (omega (arith, some_key))
oldest_lem ((k, t) ∷ d) some_key = (least k t d, refl, least-mem k t d)

keys_put_lem : (k : String) (ks : List String) → Memᴰ k ks → keys_put k ks ≡ ks
keys_put_lem k [] m = absurd (Memᴰ.not-nil m)
keys_put_lem k (j ∷ ks) m = elim (Bool-cases (j == k)) [
  | inl hit ↦ rw hit refl
  | inr miss ↦ rw miss (ap (◌∷◌ j) (keys_put_lem k ks (later m miss)))
]
  where
    later : Memᴰ k (j ∷ ks) → (j == k) ≡ false → Memᴰ k ks
    later (Memᴰ.head e) miss = absurd (false≢true (sym miss ∙ (eq_iff j k).1 (sym e)))
    later (Memᴰ.tail n) miss = n

keys_put-mem : (k : String) (ks : List String) → Memᴰ k (keys_put k ks)
keys_put-mem k [] = Memᴰ.head refl
keys_put-mem k (j ∷ ks) = elim (Bool-cases (j == k)) [
  | inl hit ↦ rw hit (Memᴰ.head (sym ((eq_iff j k).0 hit)))
  | inr miss ↦ rw miss (Memᴰ.tail (keys_put-mem k ks))
]

module _ (Vector : Type 0) (hash : Text → String) where
  -- Both dicts have the same keys in the same order, and the cache is within its size, which is not
  -- zero.
  pub record IsSane (c : EmbeddingCache Vector hash) : Type 0 where
    pub together : keys c.cache ≡ keys c.access_times
    pub within : length c.cache ≤ c.max_size
    pub room : 0 < c.max_size

  evict_lem :
      (c : EmbeddingCache Vector hash)
      → IsSane c
      → (d : EmbeddingCache Vector hash) × (evict Vector hash c ≡ some d)
        × (keys d.cache ≡ keys d.access_times)
        × (length d.cache < d.max_size)
        × (d.max_size ≡ c.max_size)
  unfolding evict
  evict_lem c sane = elim (Bool-cases (leb c.max_size (length c.cache))) [
    | inr space ↦ rw space ((c, refl, sane.together, leb_false→lt _ _ space, refl))
    | inl full ↦
        let (k, first, m) =
          oldest_lem c.access_times (omega (arith, leb→le _ _ full, sizes, sane.room)) in
        let (vs, gone, kept, less) = delete_lem k c.cache (subst (Memᴰ k) (sym sane.together) m) in
        let (times, gone', kept', less') = delete_lem k c.access_times m in
        rw (full, first, gone, gone')
          ((
            record c { cache = vs; access_times = times },
            refl,
            kept ∙ ap (keys_delete k) sane.together ∙ sym kept',
            omega (arith, less, sane.within),
            refl,
          ))
  ]
    where
      sizes : length c.cache ≡ length c.access_times
      sizes = sym (length-keys c.cache) ∙ ap length sane.together ∙ length-keys c.access_times

  -- Putting in never raises and keeps the cache sane, and the next `get` of the text, at any time,
  -- gives the embedding that was put in and keeps the cache sane too.
  pub get-put_embedding :
      (t : Text) (v : Vector) (now later : ℕ) (c : EmbeddingCache Vector hash)
      → IsSane c
      → (d : EmbeddingCache Vector hash) × (put_embedding Vector hash t v now c ≡ some d)
        × IsSane d
        × ((get Vector hash t later d).0 ≡ some v)
        × IsSane (get Vector hash t later d).1
  unfolding put_embedding get
  get-put_embedding t v now later c sane =
      let (d, made, same, space, size) = evict_lem c sane in
      let found = lookup-put (hash t) v d.cache in
      let kept =
        keys-put (hash t) v d.cache
        ∙ ap (keys_put (hash t)) same
        ∙ sym (keys-put (hash t) now d.access_times) in
      let within : length (put (hash t) v d.cache) ≤ d.max_size =
        omega (arith, length-put (hash t) v d.cache, space) in
      let room : 0 < d.max_size = omega (arith, space) in
      let again =
        keys-put (hash t) later (put (hash t) now d.access_times)
        ∙ keys_put_lem (hash t) _ (
            subst (Memᴰ (hash t)) (sym (keys-put (hash t) now d.access_times))
              (keys_put-mem (hash t) (keys d.access_times))) in
      rw made (
        (
          record d {
            cache = put (hash t) v d.cache;
            access_times = put (hash t) now d.access_times;
          },
          refl,
          record { together = kept; within = within; room = room },
          found,
          rw found (record { together = kept ∙ sym again; within = within; room = room }),
        ))
