-- ===== src/Retriever/Tests.antt =====
-- The fusion of two short lists, and its theorem at them.
use Prim.Native.String.{String}
use wa_graph_rag_backend.Prelude.{
  ℕ, ◌+◌, ◌/◌, ◌≤◌, ltb, ◌≡◌, ◌⊎◌, refl, Option, none, some, List, [], ◌∷◌, length, map, Memᴰ,
  arith,
}
use wa_graph_rag_backend.Retriever.{
  Scores, Hit, FusedHit, add_vector, add_bm25, sort_scores, output, rrf_fusion,
}
use wa_graph_rag_backend.Retriever.Sorting.{IsDistinct, IsDescending}
use wa_graph_rag_backend.Retriever.Fused.{rrf, HaveScores, rrf_fusion_lem}

-- Scores in millionths.
abbrev millionths : Scores
millionths = record {
  Number = ℕ;
  nought = 0;
  plus = λ x y. x + y;
  inverse = λ n. 1000000 / n;
  below = ltb;
}

abbrev hit : String → Hit millionths
hit id = record {
  chunk_id = some id;
  content = "text";
  similarity = some 500000;
  document_title = "Title";
  document_source = "doc";
  document_id = "d";
}

abbrev by_vector : List (Hit millionths)
by_vector = hit "a" ∷ hit "b" ∷ []

abbrev by_keyword : List (Hit millionths)
by_keyword = hit "b" ∷ hit "c" ∷ []

abbrev ids_of : Option (List (FusedHit millionths)) → List (Option String)
ids_of none = []
ids_of (some rows) = map (λ (e : FusedHit millionths). e.hit.chunk_id) rows

-- "b" stands in both lists.
fusion_runs : ids_of (rrf_fusion millionths 60 by_vector by_keyword 2) ≡ some "b" ∷ some "a" ∷ []
unfolding add_vector add_bm25 sort_scores output rrf_fusion
fusion_runs = refl

-- With `rrf_k = 0` the first rank is a division by zero.
fusion_raises : rrf_fusion millionths 0 by_vector by_keyword 2 ≡ none
unfolding add_vector add_bm25 sort_scores output rrf_fusion
fusion_raises = refl

rrf_fusion_lem_example :
    (rows : List (FusedHit millionths)) × (top : List (String × ℕ)) × (rrf_fusion millionths 60
        by_vector by_keyword 2
      ≡ some rows)
    × HaveScores millionths 60 top rows
    × (length top ≤ 2)
    × IsDistinct top
    × IsDescending millionths 60 top
    × ((c : String) (x : ℕ) → Memᴰ (c, x) top → rrf millionths 60 c by_vector by_keyword ≡ some x)
    × ((c : String) (x : ℕ)
        → rrf millionths 60 c by_vector by_keyword ≡ some x
        → Memᴰ (c, x) top ⊎ (length top ≡ 2))
rrf_fusion_lem_example =
    rrf_fusion_lem millionths 60 (omega arith) by_vector by_keyword 2 (λ x y h. ground arith)
