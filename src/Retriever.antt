-- ===== src/Retriever.antt =====
-- agent/retriever.py: the search by keywords and by vectors, and the fusion of the two lists.
pub mod Sorting
pub mod Fused
mod Tests
use Prim.Native.String.{String}
use wa_graph_rag_backend.Prelude.{
  ℕ, ◌+◌, ltb, Bool, true, false, Option, none, some, is_some, List, [], ◌∷◌, map, take,
  if◌then◌else◌,
}
use wa_graph_rag_backend.Prelude.Dict.{Dict, lookup, put}

-- Python's floats as far as the fusion uses them: `inverse n` is `1.0 / n`.
pub record Scores : Type 1 where
  pub Number : Type 0
  pub nought : Number
  pub plus : Number → Number → Number
  pub inverse : ℕ → Number
  pub below : Number → Number → Bool

-- A chunk as a leg of the search gives it.
pub record Hit (n : Scores) : Type 0 where
  pub chunk_id : Option String
  pub content : String
  pub similarity : Option n.Number
  pub document_title : String
  pub document_source : String
  pub document_id : String

-- A chunk with what the fusion adds.
pub record FusedHit (n : Scores) : Type 0 where
  pub hit : Hit n
  pub vector_rank : Option ℕ
  pub bm25_rank : Option ℕ
  pub cosine_similarity : n.Number
  pub rrf_score : Option n.Number
  pub combined_score : Option n.Number

-- `str(r.get("chunk_id", ""))`
abbrev pub id_or_empty : Option String → String
id_or_empty none = ""
id_or_empty (some id) = id

module _ (n : Scores) where
  abbrev pub id_of : Hit n → String
  id_of r = id_or_empty r.chunk_id

  abbrev pub number_or : Option n.Number → n.Number → n.Number
  number_or none x = x
  number_or (some y) x = y

  abbrev pub plain : Hit n → n.Number → FusedHit n
  plain r cosine = record {
    hit = r;
    vector_rank = none;
    bm25_rank = none;
    cosine_similarity = cosine;
    rrf_score = none;
    combined_score = none;
  }

  -- The two dictionaries of `_rrf_fusion`.
  pub record Ranking : Type 0 where
    pub rrf_scores : Dict n.Number
    pub merged : Dict (FusedHit n)

  module _ (rrf_k : ℕ) where
    -- `1.0 / m`; `none` is a ZeroDivisionError.
    abbrev pub reciprocal : ℕ → Option n.Number
    reciprocal m = if ltb 0 m then some (n.inverse m) else none

    abbrev pub and_then {ℓ κ} : {A : Type ℓ} {B : Type κ} → Option A → (A → Option B) → Option B
    and_then none k = none
    and_then (some a) k = k a

    abbrev pub scored : String → ℕ → Dict n.Number → Option (Dict n.Number)
    scored cid rank d =
        and_then (reciprocal (rank + rrf_k))
          (λ x. some (put cid (n.plus (number_or (lookup cid d) n.nought) x) d))

    -- The loop over the vector results, from a rank on.
    unfoldable pub add_vector : ℕ → List (Hit n) → Ranking → Option Ranking
    add_vector rank [] k = some k
    add_vector rank (r ∷ rs) k = and_then (scored (id_of r) rank k.rrf_scores) (λ scores.
        add_vector (rank + 1) rs (record {
          rrf_scores = scores;
          merged =
              put (id_of r)
                (record (plain r (number_or r.similarity n.nought)) {
                  vector_rank = some (rank + 1);
                })
                k.merged;
        }))

    -- `merged[cid]`, or a new entry for a hit of the keywords alone.
    abbrev pub entry_or : Option (FusedHit n) → Hit n → FusedHit n
    entry_or none r = plain r n.nought
    entry_or (some e) r = e

    -- The loop over the results of the keywords.
    unfoldable pub add_bm25 : ℕ → List (Hit n) → Ranking → Option Ranking
    add_bm25 rank [] k = some k
    add_bm25 rank (r ∷ rs) k = and_then (scored (id_of r) rank k.rrf_scores) (λ scores.
        add_bm25 (rank + 1) rs (record {
          rrf_scores = scores;
          merged =
              put (id_of r)
                (record (entry_or (lookup (id_of r) k.merged) r) { bm25_rank = some (rank + 1) })
                k.merged;
        }))

    -- `sorted(…, reverse=True)`, which keeps the order of equal scores.
    abbrev pub insert_score : String × n.Number → Dict n.Number → Dict n.Number
    insert_score x [] = x ∷ []
    insert_score x (y ∷ ys) = if n.below x.1 y.1 then y ∷ insert_score x ys else x ∷ y ∷ ys

    unfoldable pub sort_scores : Dict n.Number → Dict n.Number
    sort_scores [] = []
    sort_scores (x ∷ xs) = insert_score x (sort_scores xs)

    -- `row.setdefault("similarity", …)` and the two scores.
    abbrev pub finished : n.Number → FusedHit n → FusedHit n
    finished x e = record e {
      hit = record e.hit { similarity = some (number_or e.hit.similarity x) };
      rrf_score = some x;
      combined_score = some x;
    }

    abbrev pub cons_row :
        n.Number → Option (FusedHit n) → Option (List (FusedHit n)) → Option (List (FusedHit n))
    cons_row x none rest = none
    cons_row x (some e) none = none
    cons_row x (some e) (some rest) = some (finished x e ∷ rest)

    -- The rows of the top ids; `none` is a KeyError. In `rrf_fusion` it is that or the division.
    unfoldable pub output : Dict n.Number → Dict (FusedHit n) → Option (List (FusedHit n))
    output [] merged = some []
    output ((cid, x) ∷ top) merged = cons_row x (lookup cid merged) (output top merged)

    unfoldable pub rrf_fusion : List (Hit n) → List (Hit n) → ℕ → Option (List (FusedHit n))
    rrf_fusion vector_results bm25_results limit =
        and_then (add_vector 0 vector_results (record { rrf_scores = []; merged = [] })) (λ half.
          and_then (add_bm25 0 bm25_results half)
            (λ k. output (take limit (sort_scores k.rrf_scores)) k.merged))

  -- A chunk as `_load_all_chunks` gives it, a node of the index, and a node that it has found.
  pub record StoredChunk : Type 0 where
    pub chunk_id : String
    pub document_id : String
    pub content : String
    pub document_title : String
    pub document_source : String

  pub record Node : Type 0 where
    pub id : String
    pub text : String
    pub document_id : String
    pub document_title : String
    pub document_source : String

  pub record ScoredNode : Type 0 where
    pub node : Node
    pub score : Option n.Number

  -- BM25 of llama-index: an index made of nodes, and its answer to a query, where `none` raises.
  pub record Bm25 : Type 1 where
    pub Index : Type 0
    pub available : Bool
    pub from_defaults : List Node → ℕ → Index
    pub retrieve : Index → String → Option (List ScoredNode)

  unfoldable pub to_node : StoredChunk → Node
  to_node c = record {
    id = c.chunk_id;
    text = c.content;
    document_id = c.document_id;
    document_title = c.document_title;
    document_source = c.document_source;
  }

  module _ (b : Bm25) where
    pub record HybridRetriever : Type 0 where
      pub bm25_top_k : ℕ
      pub vector_top_k : ℕ
      pub rrf_k : ℕ
      pub bm25 : Option b.Index

    -- `load` is what `_load_all_chunks` reads, for a call without chunks.
    unfoldable pub build_index :
        Option (List StoredChunk) → List StoredChunk → HybridRetriever → HybridRetriever
    build_index chunks load h = if b.available then built (chosen chunks) else h
      where
        chosen : Option (List StoredChunk) → List StoredChunk
        chosen none = load
        chosen (some cs) = cs

        built : List StoredChunk → HybridRetriever
        built [] = h
        built (c ∷ cs) = record h {
          bm25 = some (b.from_defaults (map to_node (c ∷ cs)) h.bm25_top_k);
        }

    unfoldable pub rebuild_index : List StoredChunk → HybridRetriever → HybridRetriever
    rebuild_index load h = build_index none load h

    abbrev pub hit_of : ScoredNode → Hit n
    hit_of s = record {
      chunk_id = some s.node.id;
      content = s.node.text;
      similarity = some (number_or s.score n.nought);
      document_title = s.node.document_title;
      document_source = s.node.document_source;
      document_id = s.node.document_id;
    }

    abbrev pub hits_of : Option (List ScoredNode) → Option (List (Hit n))
    hits_of none = none
    hits_of (some ns) = some (map hit_of ns)

    unfoldable pub bm25_search : String → HybridRetriever → Option (List (Hit n))
    bm25_search query h = elim h.bm25 [
      | none ↦ some []
      | some index ↦ hits_of (b.retrieve index query)
    ]

    abbrev pub or_nothing : Option (List (Hit n)) → List (Hit n)
    or_nothing none = []
    or_nothing (some rs) = rs

    -- `vector_results` is the answer of `vector_search`; a leg that raises counts as empty.
    unfoldable pub retrieve :
        String → Option (List (Hit n)) → ℕ → HybridRetriever → Option (List (FusedHit n))
    retrieve query vector_results limit h =
        rrf_fusion h.rrf_k (or_nothing vector_results) (or_nothing (bm25_search query h)) limit
