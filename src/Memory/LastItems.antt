-- ===== src/Memory/LastItems.antt =====
-- The last items of a list, `xs[-n:]`, as agent/session_memory.py trims a history.
use wa_graph_rag_backend.Prelude.{
  ℕ, zero, suc, ◌+◌, ◌-◌, ◌≤◌, ◌≡◌, refl, ap, ◌∙◌, List, [], ◌∷◌, ◌++◌, map, length, drop,
  length-append, length-drop, length-map, drop-drop, arith,
}
use wa_graph_rag_backend.Memory.{last_items}

module _ {A : Type 0} where
  pub drop-append : (n : ℕ) (xs ys : List A) → n ≤ length xs → drop n xs ++ ys ≡ drop n (xs ++ ys)
  drop-append zero xs ys h = refl
  drop-append (suc n) [] ys h = absurd (omega arith)
  drop-append (suc n) (x ∷ xs) ys h = drop-append n xs ys (omega arith)

  pub last_items_short : (n : ℕ) (xs : List A) → length xs ≤ n → last_items n xs ≡ xs
  last_items_short zero xs h = refl
  last_items_short (suc n) xs h =
      let none_left : length xs - suc n ≡ 0 = omega arith in ap (λ k. drop k xs) none_left

  -- Trimming before an addition changes nothing for the trimming after it.
  pub last_items-append :
      (n : ℕ) (xs ys : List A) → last_items n (last_items n xs ++ ys) ≡ last_items n (xs ++ ys)
  last_items-append zero xs ys = refl
  last_items-append (suc n) xs ys =
      let a = length xs - suc n in
      let joined = drop-append a xs ys (omega arith) in
      let count : a + (length (xs ++ ys) - a - suc n) ≡ length (xs ++ ys) - suc n =
        omega (arith, length-append xs ys) in
      ap (λ zs. drop (length zs - suc n) zs) joined
      ∙ drop-drop (length (drop a (xs ++ ys)) - suc n) a (xs ++ ys)
      ∙ ap (λ k. drop (a + (k - suc n)) (xs ++ ys)) (length-drop a (xs ++ ys))
      ∙ ap (λ k. drop k (xs ++ ys)) count

pub drop-map :
    {A B : Type 0} (f : A → B) (n : ℕ) (xs : List A) → drop n (map f xs) ≡ map f (drop n xs)
drop-map f zero xs = refl
drop-map f (suc n) [] = refl
drop-map f (suc n) (x ∷ xs) = drop-map f n xs

pub last_items-map :
    {A B : Type 0} (f : A → B) (n : ℕ) (xs : List A)
    → last_items n (map f xs) ≡ map f (last_items n xs)
last_items-map f zero xs = refl
last_items-map f (suc n) xs =
    ap (λ k. drop (k - suc n) (map f xs)) (length-map xs f) ∙ drop-map f (length xs - suc n) xs

pub map-append :
    {A B : Type 0} (f : A → B) (xs ys : List A) → map f (xs ++ ys) ≡ map f xs ++ map f ys
map-append f [] ys = refl
map-append f (x ∷ xs) ys = ap (λ zs. f x ∷ zs) (map-append f xs ys)
