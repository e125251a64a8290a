-- ===== src/Embedder/Cache.antt =====
-- `EmbeddingCache` of ingestion/embedder.py. A raise is `none`; `hash` is the MD5 of a text, and the
-- times are those of the clock.
pub mod Laws
use Prim.Native.String.{String}
use package.text.Mathlib.Text.{◌==◌}
use wa_graph_rag_backend.Prelude.{
  ℕ, ltb, leb, Bool, true, false, Option, none, some, is_some, List, [], ◌∷◌, length, if◌then◌else◌,
}
use wa_graph_rag_backend.Prelude.Dict.{Dict, lookup, put}
use wa_graph_rag_backend.Chunker.{Text}

-- `del d[k]`; `none` is a KeyError.
abbrev pub cons_rest : {V : Type 0} → String × V → Option (Dict V) → Option (Dict V)
cons_rest e none = none
cons_rest e (some d) = some (e ∷ d)

abbrev pub delete : {V : Type 0} → String → Dict V → Option (Dict V)
delete k [] = none
delete k ((j, v) ∷ d) = if j == k then some d else cons_rest (j, v) (delete k d)

-- The key with the first of the least times, from a key and its time on.
abbrev pub least : String → ℕ → Dict ℕ → String
least k t [] = k
least k t ((j, u) ∷ d) = least (if ltb u t then j else k) (if ltb u t then u else t) d

-- `min(access_times.keys(), key=…)`; `none` is the ValueError of an empty dict.
abbrev pub oldest : Dict ℕ → Option String
oldest [] = none
oldest ((k, t) ∷ d) = some (least k t d)

module _ (Vector : Type 0) (hash : Text → String) where
  pub record EmbeddingCache : Type 0 where
    pub cache : Dict Vector
    pub access_times : Dict ℕ
    pub max_size : ℕ

  abbrev pub touched : Option Vector → String → ℕ → EmbeddingCache → EmbeddingCache
  touched none k now c = c
  touched (some v) k now c = record c { access_times = put k now c.access_times }

  unfoldable pub get : Text → ℕ → EmbeddingCache → Option Vector × EmbeddingCache
  get t now c = (lookup (hash t) c.cache, touched (lookup (hash t) c.cache) (hash t) now c)

  abbrev pub both_deleted :
      EmbeddingCache → Option (Dict Vector) → Option (Dict ℕ) → Option EmbeddingCache
  both_deleted c none times = none
  both_deleted c (some vs) none = none
  both_deleted c (some vs) (some times) = some (record c { cache = vs; access_times = times })

  abbrev pub evict_key : Option String → EmbeddingCache → Option EmbeddingCache
  evict_key none c = none
  evict_key (some k) c = both_deleted c (delete k c.cache) (delete k c.access_times)

  -- "Evict oldest entries if cache is full"
  unfoldable pub evict : EmbeddingCache → Option EmbeddingCache
  evict c = if leb c.max_size (length c.cache) then evict_key (oldest c.access_times) c else some c

  abbrev pub stored : String → Vector → ℕ → Option EmbeddingCache → Option EmbeddingCache
  stored k v now none = none
  stored k v now (some c) =
      some (record c { cache = put k v c.cache; access_times = put k now c.access_times })

  unfoldable pub put_embedding : Text → Vector → ℕ → EmbeddingCache → Option EmbeddingCache
  put_embedding t v now c = stored (hash t) v now (evict c)
