-- ===== src/Retriever/Fused.antt =====
-- The result of `_rrf_fusion` in agent/retriever.py.
use Prim.Native.String.{String}
use text.Mathlib.Text.{◌==◌}
use text.Mathlib.TextEquality.{eq_iff}
use wa_graph_rag_backend.Prelude.{
  ℕ, ◌+◌, ◌≤◌, ◌<◌, ltb, ◌≡◌, ◌⊎◌, inl, inr, refl, sym, ap, ◌∙◌, true, false, arith, Option, none,
  some, List, [], ◌∷◌, Memᴰ, take, length, if◌then◌else◌, Bool-cases, Option-cases, some_inv,
}
use wa_graph_rag_backend.Prelude.Dict.{Dict, lookup, put}
use wa_graph_rag_backend.Retriever.{
  Scores, Hit, FusedHit, id_of, number_or, plain, Ranking, scored, add_vector, entry_or, add_bm25,
  sort_scores, finished, output, rrf_fusion,
}
use wa_graph_rag_backend.Retriever.Sorting.{
  IsDistinct, lookup-put, put-IsDistinct, lookup_mem, mem_lookup, mem_take, mem_take_or,
  take-IsDistinct, length-take_le, IsDescending, mem_sort, mem_sort_back, sort-IsDistinct,
  sort-IsDescending, take-IsDescending,
}

module _ (n : Scores) (rrf_k : ℕ) where
  -- The score of an id after one leg: the leg's hits with this id, from a rank on, each add
  -- `1 / (rank + rrf_k)` to what there is.
  abbrev pub share : String → ℕ → List (Hit n) → Option n.Number → Option n.Number
  share cid rank [] acc = acc
  share cid rank (r ∷ rs) acc = share cid (rank + 1) rs (
      if id_of n r == cid
      then some (n.plus (number_or n acc n.nought) (n.inverse (rank + rrf_k)))
      else acc)

  -- The score by both legs; none for an id that neither has.
  abbrev pub rrf : String → List (Hit n) → List (Hit n) → Option n.Number
  rrf cid vector_results bm25_results = share cid 0 bm25_results (share cid 0 vector_results none)

  -- The rows have these ids and scores, one by one.
  abbrev pub HaveScores : Dict n.Number → List (FusedHit n) → Type 0
  HaveScores [] [] = Unit {0}
  HaveScores [] (e ∷ es) = ⊥
  HaveScores (x ∷ d) [] = ⊥
  HaveScores (x ∷ d) (e ∷ es) = (id_of n e.hit ≡ x.0) × (e.rrf_score ≡ some x.1) × HaveScores d es

  module _ (positive : 0 < rrf_k) where
    -- The scores after a hit, as the division is defined.
    abbrev score_at : String → ℕ → Dict n.Number → Dict n.Number
    score_at cid rank d =
        put cid (n.plus (number_or n (lookup cid d) n.nought) (n.inverse (rank + rrf_k))) d

    scored_lem :
        (cid : String) (rank : ℕ) (d : Dict n.Number)
        → scored n rrf_k cid rank d ≡ some (score_at cid rank d)
    scored_lem cid rank d = let above : ltb 0 (rank + rrf_k) ≡ true = ground arith in rw above refl

    record IsSound (k : Ranking n) : Type 0 where
      distinct : IsDistinct k.rrf_scores
      keyed : (cid : String) (e : FusedHit n) → lookup cid k.merged ≡ some e → id_of n e.hit ≡ cid
      there :
          (cid : String) (x : n.Number)
          → lookup cid k.rrf_scores ≡ some x
          → (e : FusedHit n) × (lookup cid k.merged ≡ some e)

    step-IsSound :
        (id : String) (rank : ℕ) (e : FusedHit n) (k : Ranking n)
        → id_of n e.hit ≡ id
        → IsSound k
        → IsSound
            (record { rrf_scores = score_at id rank k.rrf_scores; merged = put id e k.merged })
    step-IsSound id rank e k is_id h = record {
      distinct = put-IsDistinct id _ k.rrf_scores h.distinct;
      keyed = λ cid e' found. elim (Bool-cases (id == cid)) [
        | inl hit ↦
            let same : e ≡ e' = some_inv (rw hit at (sym (lookup-put cid id e k.merged) ∙ found)) in
            ap (λ (z : FusedHit n). id_of n z.hit) (sym same) ∙ is_id ∙ (eq_iff id cid).0 hit
        | inr miss ↦ h.keyed cid e' (rw miss at (sym (lookup-put cid id e k.merged) ∙ found))
      ];
      there = λ cid x found. elim (Bool-cases (id == cid)) [
        | inl hit ↦ (e, lookup-put cid id e k.merged ∙ rw hit refl)
        | inr miss ↦
            let (e', old) =
              h.there cid x (rw miss at (sym (lookup-put cid id _ k.rrf_scores) ∙ found)) in
            (e', lookup-put cid id e k.merged ∙ rw miss old)
      ];
    }

    step-share :
        (cid id : String) (rank : ℕ) (d : Dict n.Number)
        → lookup cid (score_at id rank d) ≡ (
            if id == cid
            then some (n.plus (number_or n (lookup cid d) n.nought) (n.inverse (rank + rrf_k)))
            else lookup cid d)
    step-share cid id rank d = elim (Bool-cases (id == cid)) [
      | inl hit ↦
          lookup-put cid id _ d
          ∙ rw hit (
              ap (λ z. some (n.plus (number_or n (lookup z d) n.nought) (n.inverse (rank + rrf_k))))
                ((eq_iff id cid).0 hit))
      | inr miss ↦ lookup-put cid id _ d ∙ rw miss refl
    ]

    add_vector_lem :
        (rank : ℕ) (rs : List (Hit n)) (k : Ranking n)
        → IsSound k
        → (k' : Ranking n) × (add_vector n rrf_k rank rs k ≡ some k')
          × IsSound k'
          × ((cid : String)
              → lookup cid k'.rrf_scores ≡ share cid rank rs (lookup cid k.rrf_scores))
    unfolding add_vector
    add_vector_lem rank [] k h = (k, refl, h, λ cid. refl)
    add_vector_lem rank (r ∷ rs) k h =
        let (k', done, sound, shares) = add_vector_lem (rank + 1) rs _ (
          step-IsSound (id_of n r) rank
            (record (plain n r (number_or n r.similarity n.nought)) {
              vector_rank = some (rank + 1);
            })
            k refl h) in
        (
          k',
          rw (scored_lem (id_of n r) rank k.rrf_scores) done,
          sound,
          λ cid.
              shares cid
              ∙ ap (share cid (rank + 1) rs) (step-share cid (id_of n r) rank k.rrf_scores),
        )

    entry_id :
        (r : Hit n) (k : Ranking n)
        → IsSound k
        → id_of n (entry_or n rrf_k (lookup (id_of n r) k.merged) r).hit ≡ id_of n r
    entry_id r k h = elim (Option-cases (lookup (id_of n r) k.merged)) [
      | inl missing ↦ rw missing refl
      | inr (e, found) ↦ rw found (h.keyed (id_of n r) e found)
    ]

    add_bm25_lem :
        (rank : ℕ) (rs : List (Hit n)) (k : Ranking n)
        → IsSound k
        → (k' : Ranking n) × (add_bm25 n rrf_k rank rs k ≡ some k')
          × IsSound k'
          × ((cid : String)
              → lookup cid k'.rrf_scores ≡ share cid rank rs (lookup cid k.rrf_scores))
    unfolding add_bm25
    add_bm25_lem rank [] k h = (k, refl, h, λ cid. refl)
    add_bm25_lem rank (r ∷ rs) k h =
        let (k', done, sound, shares) = add_bm25_lem (rank + 1) rs _ (
          step-IsSound (id_of n r) rank
            (record (entry_or n rrf_k (lookup (id_of n r) k.merged) r) {
              bm25_rank = some (rank + 1);
            })
            k (entry_id r k h) h) in
        (
          k',
          rw (scored_lem (id_of n r) rank k.rrf_scores) done,
          sound,
          λ cid.
              shares cid
              ∙ ap (share cid (rank + 1) rs) (step-share cid (id_of n r) rank k.rrf_scores),
        )

    output_lem :
        (top : Dict n.Number) (k : Ranking n)
        → IsSound k
        → ((c : String) (x : n.Number) → Memᴰ (c, x) top → lookup c k.rrf_scores ≡ some x)
        → (rows : List (FusedHit n)) × (output n rrf_k top k.merged ≡ some rows)
          × HaveScores top rows
    unfolding output
    output_lem [] k h known = ([], refl, tt)
    output_lem ((c, x) ∷ top) k h known =
        let (e, found) = h.there c x (known c x (Memᴰ.head refl)) in
        let (rows, done, scores) = output_lem top k h (λ c' x' m. known c' x' (Memᴰ.tail m)) in
        (finished n rrf_k x e ∷ rows, rw (found, done) refl, (h.keyed c e found, refl, scores))

    -- With a positive `rrf_k`, `_rrf_fusion` never raises. It gives at most `limit` rows, no id twice and in the order of
    -- descending scores, and the score of each row is the reciprocal rank fusion of its id: the sum of
    -- `1 / (rank + rrf_k)` over its places in the two lists. A chunk of either list is left out only
    -- if `limit` rows are there. The comparison of scores is asymmetric.
    pub rrf_fusion_lem :
        (vector_results bm25_results : List (Hit n)) (limit : ℕ)
        → ((x y : n.Number) → n.below x y ≡ true → n.below y x ≡ false)
        → (rows : List (FusedHit n)) × (top : Dict n.Number) × (rrf_fusion n rrf_k vector_results
              bm25_results limit
            ≡ some rows)
          × HaveScores top rows
          × (length top ≤ limit)
          × IsDistinct top
          × IsDescending n rrf_k top
          × ((c : String) (x : n.Number)
              → Memᴰ (c, x) top
              → rrf c vector_results bm25_results ≡ some x)
          × ((c : String) (x : n.Number)
              → rrf c vector_results bm25_results ≡ some x
              → Memᴰ (c, x) top ⊎ (length top ≡ limit))
    unfolding rrf_fusion
    rrf_fusion_lem vector_results bm25_results limit asymmetric =
        let start : Ranking n = record { rrf_scores = []; merged = [] } in
        let none_yet : IsSound start = record {
          distinct = tt;
          keyed = λ cid e h. cc;
          there = λ cid x h. cc;
        } in
        let (half, by_vector, sound_v, shares_v) = add_vector_lem 0 vector_results start none_yet in
        let (k, by_both, sound, shares_b) = add_bm25_lem 0 bm25_results half sound_v in
        let is_rrf : (c : String) → lookup c k.rrf_scores ≡ rrf c vector_results bm25_results =
          λ c. shares_b c ∙ ap (share c 0 bm25_results) (shares_v c) in
        let sorted = sort_scores n rrf_k k.rrf_scores in
        let known : (c : String) (x : n.Number)
            → Memᴰ (c, x) (take limit sorted)
            → lookup c k.rrf_scores ≡ some x =
          λ c x m.
            lookup_mem c x k.rrf_scores sound.distinct
              (mem_sort n rrf_k (c, x) k.rrf_scores (mem_take limit (c, x) sorted m)) in
        let (rows, done, scores) = output_lem (take limit sorted) k sound known in
        (
          rows,
          take limit sorted,
          rw (by_vector, by_both) done,
          scores,
          length-take_le limit sorted,
          take-IsDistinct limit sorted (sort-IsDistinct n rrf_k k.rrf_scores sound.distinct),
          take-IsDescending n rrf_k asymmetric limit sorted
              (sort-IsDescending n rrf_k asymmetric k.rrf_scores),
          λ c x m. sym (is_rrf c) ∙ known c x m,
          λ c x e.
              mem_take_or limit (c, x) sorted
                (mem_sort_back n rrf_k (c, x) k.rrf_scores
                  (mem_lookup c x k.rrf_scores (is_rrf c ∙ e))),
        )
