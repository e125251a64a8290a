-- ===== src/Retriever/Sorting.antt =====
-- The dictionary of scores in agent/retriever.py, and its sorting.
use Prim.Native.String.{String}
use text.Mathlib.Text.{◌==◌}
use text.Mathlib.TextEquality.{eq_iff}
use mathlib.Core.List.Memᴰ
use mathlib.Core.Bool.{false≢true}
use mathlib.Core.Path.{subst}
use wa_graph_rag_backend.Prelude.{
  ℕ, zero, suc, ◌≡◌, ◌⊎◌, inl, inr, refl, sym, ap, ◌∙◌, true, false, some, [], ◌∷◌, Memᴰ, take,
  length, arith, ◌≤◌, some_inv, if◌then◌else◌, Bool-cases,
}
use wa_graph_rag_backend.Prelude.Dict.{Dict, lookup, put}
use wa_graph_rag_backend.Retriever.{Scores, insert_score, sort_scores}

module _ {V : Type 0} where
  -- No key stands twice.
  abbrev pub IsDistinct : Dict V → Type 0
  IsDistinct [] = Unit {0}
  IsDistinct ((c, x) ∷ d) = ((y : V) → Memᴰ (c, y) d → ⊥) × IsDistinct d

  pub lookup-put :
      (c k : String) (v : V) (d : Dict V)
      → lookup c (put k v d) ≡ (if k == c then some v else lookup c d)
  lookup-put c k v [] = refl
  lookup-put c k v ((j, w) ∷ d) = elim (Bool-cases (j == k)) [
    | inl hit ↦
        let same : j ≡ k = (eq_iff j k).0 hit in
        elim (Bool-cases (k == c)) [
          | inl found ↦ rw (hit, found, same, found) refl
          | inr other ↦ rw (hit, other, same, other) refl
        ]
    | inr miss ↦ elim (Bool-cases (j == c)) [
      | inl here ↦
          let differs : (k == c) ≡ false = elim (Bool-cases (k == c)) [
            | inr other ↦ other
            | inl hit ↦
                let same : j ≡ k = (eq_iff j c).0 here ∙ sym ((eq_iff k c).0 hit) in
                absurd (false≢true (sym miss ∙ (eq_iff j k).1 same))
          ] in
          rw (miss, here, differs) refl
      | inr there ↦ rw (miss, there) (lookup-put c k v d)
    ]
  ]

  mem_put :
      (c k : String) (v y : V) (d : Dict V) → Memᴰ (c, y) (put k v d) → (c ≡ k) ⊎ Memᴰ (c, y) d
  mem_put c k v y [] m = elim (Memᴰ.cases_cons m) [
    | inl e ↦ inl (ap (λ z. z.0) e)
    | inr n ↦ absurd (Memᴰ.not-nil n)
  ]
  mem_put c k v y ((j, w) ∷ d) m = elim (Bool-cases (j == k)) [
    | inl hit ↦ elim (Memᴰ.cases_cons (rw hit at m)) [
      | inl e ↦ inl (ap (λ z. z.0) e ∙ (eq_iff j k).0 hit)
      | inr n ↦ inr (Memᴰ.tail n)
    ]
    | inr miss ↦ elim (Memᴰ.cases_cons (rw miss at m)) [
      | inl e ↦ inr (Memᴰ.head e)
      | inr n ↦ elim (mem_put c k v y d n) [ inl e ↦ inl e | inr o ↦ inr (Memᴰ.tail o) ]
    ]
  ]

  pub put-IsDistinct : (k : String) (v : V) (d : Dict V) → IsDistinct d → IsDistinct (put k v d)
  put-IsDistinct k v [] h = (λ y m. absurd (Memᴰ.not-nil m), tt)
  put-IsDistinct k v ((j, w) ∷ d) (fresh, h) = elim (Bool-cases (j == k)) [
    | inl hit ↦ rw hit ((fresh, h))
    | inr miss ↦ rw miss (
      λ y m. elim (mem_put j k v y d m) [
        | inl e ↦ absurd (false≢true (sym miss ∙ (eq_iff j k).1 e))
        | inr n ↦ fresh y n
      ],
      put-IsDistinct k v d h,
    )
  ]

  pub lookup_mem :
      (c : String) (x : V) (d : Dict V) → IsDistinct d → Memᴰ (c, x) d → lookup c d ≡ some x
  lookup_mem c x [] h m = absurd (Memᴰ.not-nil m)
  lookup_mem c x ((j, w) ∷ d) (fresh, h) m = elim (Memᴰ.cases_cons m) [
    | inl e ↦ rw ((eq_iff j c).1 (sym (ap (λ z. z.0) e))) (ap some (sym (ap (λ z. z.1) e)))
    | inr n ↦ elim (Bool-cases (j == c)) [
      | inl same ↦ absurd (fresh x (subst (λ z. Memᴰ (z, x) d) (sym ((eq_iff j c).0 same)) n))
      | inr other ↦ rw other (lookup_mem c x d h n)
    ]
  ]

  pub mem_take : (n : ℕ) (z : String × V) (d : Dict V) → Memᴰ z (take n d) → Memᴰ z d
  mem_take zero z d m = absurd (Memᴰ.not-nil m)
  mem_take (suc n) z [] m = m
  mem_take (suc n) z (x ∷ d) m = elim (Memᴰ.cases_cons m) [
    | inl e ↦ Memᴰ.head e
    | inr k ↦ Memᴰ.tail (mem_take n z d k)
  ]

  pub take-IsDistinct : (n : ℕ) (d : Dict V) → IsDistinct d → IsDistinct (take n d)
  take-IsDistinct zero d h = tt
  take-IsDistinct (suc n) [] h = tt
  take-IsDistinct (suc n) ((c, x) ∷ d) (fresh, h) =
      (λ y m. fresh y (mem_take n (c, y) d m), take-IsDistinct n d h)

  pub mem_lookup : (c : String) (x : V) (d : Dict V) → lookup c d ≡ some x → Memᴰ (c, x) d
  mem_lookup c x [] e = cc
  mem_lookup c x ((j, w) ∷ d) e = elim (Bool-cases (j == c)) [
    | inl hit ↦
        let same : w ≡ x = some_inv (rw hit at e) in
        Memᴰ.head (ap (λ z. (z, x)) (sym ((eq_iff j c).0 hit)) ∙ ap (λ z. (j, z)) (sym same))
    | inr miss ↦ Memᴰ.tail (mem_lookup c x d (rw miss at e))
  ]

  -- What is not taken is behind as many as were asked for.
  pub mem_take_or :
      (n : ℕ) (z : String × V) (d : Dict V) → Memᴰ z d → Memᴰ z (take n d) ⊎ (length (take n d) ≡ n)
  mem_take_or zero z d m = inr refl
  mem_take_or (suc n) z [] m = inl m
  mem_take_or (suc n) z (x ∷ d) m = elim (Memᴰ.cases_cons m) [
    | inl e ↦ inl (Memᴰ.head e)
    | inr k ↦ elim (mem_take_or n z d k) [
      | inl o ↦ inl (Memᴰ.tail o)
      | inr full ↦ inr (ap suc full)
    ]
  ]

  pub length-take_le : (n : ℕ) (d : Dict V) → length (take n d) ≤ n
  length-take_le zero d = omega arith
  length-take_le (suc n) [] = omega arith
  length-take_le (suc n) (x ∷ d) = omega (arith, length-take_le n d)

module _ (n : Scores) (rrf_k : ℕ) where
  mem_insert_back :
      (x z : String × n.Number) (d : Dict n.Number)
      → (z ≡ x) ⊎ Memᴰ z d
      → Memᴰ z (insert_score n rrf_k x d)
  mem_insert_back x z [] m = elim m [ inl e ↦ Memᴰ.head e | inr k ↦ absurd (Memᴰ.not-nil k) ]
  mem_insert_back x z (y ∷ d) m = elim (Bool-cases (n.below x.1 y.1)) [
    | inl less ↦ rw less (elim m [
      | inl e ↦ Memᴰ.tail (mem_insert_back x z d (inl e))
      | inr k ↦ elim (Memᴰ.cases_cons k) [
        | inl e ↦ Memᴰ.head e
        | inr o ↦ Memᴰ.tail (mem_insert_back x z d (inr o))
      ]
    ])
    | inr not_less ↦ rw not_less (elim m [ inl e ↦ Memᴰ.head e | inr k ↦ Memᴰ.tail k ])
  ]

  pub mem_sort_back :
      (z : String × n.Number) (d : Dict n.Number) → Memᴰ z d → Memᴰ z (sort_scores n rrf_k d)
  unfolding sort_scores
  mem_sort_back z [] m = m
  mem_sort_back z (x ∷ d) m =
      mem_insert_back x z (sort_scores n rrf_k d)
        (elim (Memᴰ.cases_cons m) [ inl e ↦ inl e | inr k ↦ inr (mem_sort_back z d k) ])

  -- Each score is at least the next one.
  abbrev pub IsDescending : Dict n.Number → Type 0
  IsDescending [] = Unit {0}
  IsDescending (x ∷ []) = Unit {0}
  IsDescending (x ∷ y ∷ d) = (n.below x.1 y.1 ≡ false) × IsDescending (y ∷ d)

  mem_insert :
      (x z : String × n.Number) (d : Dict n.Number)
      → Memᴰ z (insert_score n rrf_k x d)
      → (z ≡ x) ⊎ Memᴰ z d
  mem_insert x z [] m = Memᴰ.cases_cons m
  mem_insert x z (y ∷ d) m = elim (Bool-cases (n.below x.1 y.1)) [
    | inl less ↦ elim (Memᴰ.cases_cons (rw less at m)) [
      | inl e ↦ inr (Memᴰ.head e)
      | inr k ↦ elim (mem_insert x z d k) [ inl e ↦ inl e | inr o ↦ inr (Memᴰ.tail o) ]
    ]
    | inr not_less ↦ Memᴰ.cases_cons (rw not_less at m)
  ]

  pub mem_sort :
      (z : String × n.Number) (d : Dict n.Number) → Memᴰ z (sort_scores n rrf_k d) → Memᴰ z d
  unfolding sort_scores
  mem_sort z [] m = m
  mem_sort z (x ∷ d) m = elim (mem_insert x z (sort_scores n rrf_k d) m) [
    | inl e ↦ Memᴰ.head e
    | inr k ↦ Memᴰ.tail (mem_sort z d k)
  ]

  insert-IsDistinct :
      (c : String) (x : n.Number) (d : Dict n.Number)
      → ((y : n.Number) → Memᴰ (c, y) d → ⊥)
      → IsDistinct d
      → IsDistinct (insert_score n rrf_k (c, x) d)
  insert-IsDistinct c x [] new h = (new, tt)
  insert-IsDistinct c x ((j, w) ∷ d) new (fresh, h) = elim (Bool-cases (n.below x w)) [
    | inl less ↦ rw less (
      λ y m. elim (mem_insert (c, x) (j, y) d m) [
        | inl e ↦ new w (Memᴰ.head (ap (λ (z : String). (z, w)) (sym (ap (λ z. z.0) e))))
        | inr k ↦ fresh y k
      ],
      insert-IsDistinct c x d (λ y m. new y (Memᴰ.tail m)) h,
    )
    | inr not_less ↦ rw not_less ((new, (fresh, h)))
  ]

  pub sort-IsDistinct : (d : Dict n.Number) → IsDistinct d → IsDistinct (sort_scores n rrf_k d)
  unfolding sort_scores
  sort-IsDistinct [] h = tt
  sort-IsDistinct ((c, x) ∷ d) (fresh, h) =
      insert-IsDistinct c x (sort_scores n rrf_k d) (λ y m. fresh y (mem_sort (c, y) d m))
        (sort-IsDistinct d h)

  module _ (asymmetric : (x y : n.Number) → n.below x y ≡ true → n.below y x ≡ false) where
    cons-IsDescending :
        (y x : String × n.Number) (d : Dict n.Number)
        → n.below x.1 y.1 ≡ true
        → IsDescending (y ∷ d)
        → IsDescending (insert_score n rrf_k x d)
        → IsDescending (y ∷ insert_score n rrf_k x d)
    cons-IsDescending y x [] less h k = (asymmetric x.1 y.1 less, tt)
    cons-IsDescending y x (z ∷ d) less (first, h) k = elim (Bool-cases (n.below x.1 z.1)) [
      | inl below_z ↦ let k' = rw below_z at k in rw below_z ((first, k'))
      | inr not_below ↦ let k' = rw not_below at k in rw not_below ((asymmetric x.1 y.1 less, k'))
    ]

    tail-IsDescending :
        (y : String × n.Number) (d : Dict n.Number) → IsDescending (y ∷ d) → IsDescending d
    tail-IsDescending y [] h = tt
    tail-IsDescending y (z ∷ d) (first, h) = h

    insert-IsDescending :
        (x : String × n.Number) (d : Dict n.Number)
        → IsDescending d
        → IsDescending (insert_score n rrf_k x d)
    insert-IsDescending x [] h = tt
    insert-IsDescending x (y ∷ d) h = elim (Bool-cases (n.below x.1 y.1)) [
      | inl less ↦
          rw less
            (cons-IsDescending y x d less h (insert-IsDescending x d (tail-IsDescending y d h)))
      | inr not_less ↦ rw not_less ((not_less, h))
    ]

    pub sort-IsDescending : (d : Dict n.Number) → IsDescending (sort_scores n rrf_k d)
    unfolding sort_scores
    sort-IsDescending [] = tt
    sort-IsDescending (x ∷ d) = insert-IsDescending x (sort_scores n rrf_k d) (sort-IsDescending d)

    pub take-IsDescending : (m : ℕ) (d : Dict n.Number) → IsDescending d → IsDescending (take m d)
    take-IsDescending zero d h = tt
    take-IsDescending (suc m) [] h = tt
    take-IsDescending (suc zero) (x ∷ d) h = tt
    take-IsDescending (suc (suc m)) (x ∷ []) h = tt
    take-IsDescending (suc (suc m)) (x ∷ y ∷ d) (first, h) =
        (first, take-IsDescending (suc m) (y ∷ d) h)
