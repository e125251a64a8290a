-- ===== src/Chunker/Objects/Places.antt =====
-- Where `_create_chunk_objects` of ingestion/chunker.py says that the chunks stand.
use mathlib.Core.Path.{ap₂, subst}
use wa_graph_rag_backend.Prelude.{
  ℕ, zero, suc, ◌+◌, ◌≤◌, ◌<◌, ◌-◌, ltb, ◌≡◌, ◌⊎◌, inl, inr, refl, sym, ap, ◌∙◌, true, false,
  Option, none, some, some_inv, List, [], ◌∷◌, length, take, drop, drop-drop, length-drop, arith,
  Bool-cases, Option-cases,
}
use wa_graph_rag_backend.Chunker.{Text, ChunkingConfig}
use wa_graph_rag_backend.Chunker.Objects.{
  Metadata, DocumentChunk, new_chunk, is_prefix, find_in, shifted, find, or_else, create_from,
  create_chunk_objects,
}

prefix_take : (sub xs : Text) → is_prefix sub xs ≡ true → take (length sub) xs ≡ sub
prefix_take [] xs h = refl
prefix_take (x ∷ sub) [] h = cc
prefix_take (x ∷ sub) (y ∷ xs) h =
    let first : x ≡ y = ground arith in
    let rest : is_prefix sub xs ≡ true = ground arith in
    ap₂ ◌∷◌ (sym first) (prefix_take sub xs rest)

find_in-take :
    (sub xs : Text) (n : ℕ) → find_in sub xs ≡ some n → take (length sub) (drop n xs) ≡ sub
find_in-take sub [] n h = elim (Bool-cases (is_prefix sub [])) [
  | inl hit ↦
      let zero_at : 0 ≡ n = ground arith in
      ap (λ k. take (length sub) (drop k [])) (sym zero_at) ∙ prefix_take sub [] hit
  | inr miss ↦ absurd (ground arith)
]
find_in-take sub (x ∷ xs) n h = elim (Bool-cases (is_prefix sub (x ∷ xs))) [
  | inl hit ↦
      let zero_at : 0 ≡ n = ground arith in
      ap (λ k. take (length sub) (drop k (x ∷ xs))) (sym zero_at) ∙ prefix_take sub (x ∷ xs) hit
  | inr miss ↦ elim (Option-cases (find_in sub xs)) [
    | inl nowhere ↦ let gone = rw (miss, nowhere) at h in cc gone
    | inr (m, e) ↦
        let here : suc m ≡ n = some_inv (rw (miss, e) at h) in
        ap (λ j. take (length sub) (drop j (x ∷ xs))) (sym here) ∙ find_in-take sub xs m e
  ]
]

find_in-le : (sub xs : Text) (n : ℕ) → find_in sub xs ≡ some n → n ≤ length xs
find_in-le sub [] n h = elim (Bool-cases (is_prefix sub [])) [
  | inl hit ↦ let place : 0 ≡ n = some_inv (rw hit at h) in omega arith
  | inr miss ↦ let gone = rw miss at h in cc gone
]
find_in-le sub (x ∷ xs) n h = elim (Bool-cases (is_prefix sub (x ∷ xs))) [
  | inl hit ↦ let place : 0 ≡ n = some_inv (rw hit at h) in omega arith
  | inr miss ↦ elim (Option-cases (find_in sub xs)) [
    | inl nowhere ↦ let gone = rw (miss, nowhere) at h in cc gone
    | inr (m, e) ↦
        let here : suc m ≡ n = some_inv (rw (miss, e) at h) in omega (arith, find_in-le sub xs m e)
  ]
]

find_lem :
    (content sub : Text) (start n : ℕ)
    → find content sub start ≡ some n
    → (start ≤ n) × (n ≤ length content) × (take (length sub) (drop n content) ≡ sub)
unfolding find
find_lem content sub start n h = elim (Bool-cases (ltb (length content) start)) [
  | inl past ↦ absurd (ground arith)
  | inr inside ↦ go inside (find_in sub (drop start content)) refl (rw inside at h)
]
  where
    go :
        ltb (length content) start ≡ false
        → (o : Option ℕ) → find_in sub (drop start content) ≡ o
        → shifted start o ≡ some n
        → (start ≤ n) × (n ≤ length content) × (take (length sub) (drop n content) ≡ sub)
    go inside none e k = cc
    go inside (some m) e k =
        let place : start + m ≡ n = some_inv k in
        let least : start ≤ length content = ground arith in
        let short : m ≤ length content - start =
          subst (λ z. m ≤ z) (length-drop start content)
            (find_in-le sub (drop start content) m e) in
        (
          omega arith,
          omega (arith, short, least, place),
          ap (λ j. take (length sub) (drop j content)) (sym place)
              ∙ ap (take (length sub)) (sym (drop-drop m start content))
              ∙ find_in-take sub (drop start content) m e,
        )

-- A text stands in another one at a place.
abbrev pub StandsAt : Text → Text → ℕ → Type 0
StandsAt content sub n = take (length sub) (drop n content) ≡ sub

take_prefix : (sub xs : Text) → take (length sub) xs ≡ sub → is_prefix sub xs ≡ true
take_prefix [] xs h = refl
take_prefix (x ∷ sub) [] h = cc
take_prefix (x ∷ sub) (y ∷ xs) h =
    let first : y ≡ x = cc in
    let rest : take (length sub) xs ≡ sub = cc in
    let inner = take_prefix sub xs rest in ground arith

-- A text that stands at a place is found there or before it.
find_in_lem :
    (sub xs : Text) (j : ℕ)
    → j ≤ length xs
    → StandsAt xs sub j
    → (m : ℕ) × (m ≤ j) × (find_in sub xs ≡ some m)
find_in_lem sub [] zero within h = (0, omega arith, rw (take_prefix sub [] h) refl)
find_in_lem sub [] (suc j) within h = absurd (omega (arith, within))
find_in_lem sub (x ∷ xs) zero within h = (0, omega arith, rw (take_prefix sub (x ∷ xs) h) refl)
find_in_lem sub (x ∷ xs) (suc j) within h = elim (Bool-cases (is_prefix sub (x ∷ xs))) [
  | inl hit ↦ (0, omega arith, rw hit refl)
  | inr miss ↦
      let (m, before, e) = find_in_lem sub xs j (omega arith) h in
      (suc m, omega (arith, before), rw (miss, e) refl)
]

found_by :
    (content sub : Text) (start j : ℕ)
    → start ≤ j
    → j ≤ length content
    → StandsAt content sub j
    → (n : ℕ) × (n ≤ j) × (find content sub start ≡ some n)
unfolding find
found_by content sub start j after within h =
    let inside : ltb (length content) start ≡ false = ground arith in
    let place : start + (j - start) ≡ j = omega arith in
    let (m, before, e) =
      find_in_lem sub (drop start content) (j - start)
        (rw (length-drop start content) (omega arith))
        (ap (take (length sub)) (drop-drop (j - start) start content)
          ∙ ap (λ k. take (length sub) (drop k content)) place
          ∙ h) in
    (start + m, omega (arith, before), rw (inside, e) refl)

module _ (strip : Text → Text) (cfg : ChunkingConfig) where
  -- The place is the first one from `pos` on at which the chunk stands, or the chunk stands nowhere
  -- from `pos` on and the place is `pos`.
  abbrev pub IsFirst : Text → Text → ℕ → ℕ → Type 0
  IsFirst content c pos start =
      (StandsAt content c start × ((j : ℕ) → pos ≤ j → j < start → StandsAt content c j → ⊥))
      ⊎ (((j : ℕ) → pos ≤ j → j ≤ length content → StandsAt content c j → ⊥) × (start ≡ pos))

  -- The objects belong to the chunks one by one, numbered from `i`; each has the stripped text and
  -- covers the chunk's length; it begins at `pos` or later, where `pos` is the end of the object
  -- before it; and it is the first place at which the chunk stands, if there is one.
  abbrev pub IsPlaced : Text → ℕ → ℕ → List Text → List DocumentChunk → Type 0
  IsPlaced content i pos [] [] = Unit {0}
  IsPlaced content i pos [] (d ∷ ds) = ⊥
  IsPlaced content i pos (c ∷ cs) [] = ⊥
  IsPlaced content i pos (c ∷ cs) (d ∷ ds) =
      (d.index ≡ i)
      × (d.content ≡ strip c)
      × (d.end_char ≡ d.start_char + length c)
      × (pos ≤ d.start_char)
      × IsFirst content c pos d.start_char
      × IsPlaced content (i + 1) d.end_char cs ds

  start_lem :
      (content c : Text) (pos : ℕ)
      → (pos ≤ or_else (find content c pos) pos)
        × IsFirst content c pos (or_else (find content c pos) pos)
  start_lem content c pos = elim (Option-cases (find content c pos)) [
    | inl missing ↦ (
      rw missing (omega arith),
      rw missing (
          inr (
            λ j after within h.
                let (n, before, e) = found_by content c pos j after within h in
                let clash = sym missing ∙ e in cc clash,
            refl,
          )),
    )
    | inr (n, e) ↦
        let (after, inside, stands) = find_lem content c pos n e in
        (
          rw e after,
          rw e (
              inl (
                stands,
                λ j from below h.
                    let (m, before, e') = found_by content c pos j from (omega arith) h in
                    let same : n ≡ m = some_inv (sym e ∙ e') in omega arith,
              )),
        )
  ]

  create_from-IsPlaced :
      (content : Text) (base : Metadata) (total i pos : ℕ) (cs : List Text)
      → IsPlaced content i pos cs (create_from strip cfg content base total i pos cs)
  unfolding create_from new_chunk
  create_from-IsPlaced content base total i pos [] = tt
  create_from-IsPlaced content base total i pos (c ∷ cs) =
      let (after, stands) = start_lem content c pos in
      (refl, refl, refl, after, stands, create_from-IsPlaced content base total (i + 1) _ cs)

  -- `_create_chunk_objects` makes one object for each chunk, in order and numbered from 0, with the
  -- chunk's text stripped and its length covered; each begins where the one before it ends or later;
  -- and that place is the first one from there on at which the chunk stands in the document, or, if
  -- the chunk stands nowhere from there on, exactly the place where the object before it ends.
  pub create_chunk_objects-IsPlaced :
      (cs : List Text) (content : Text) (base : Metadata)
      → IsPlaced content 0 0 cs (create_chunk_objects strip cfg cs content base)
  unfolding create_chunk_objects
  create_chunk_objects-IsPlaced cs content base =
      create_from-IsPlaced content base (length cs) 0 0 cs

  abbrev pub total_length : List Text → ℕ
  total_length [] = 0
  total_length (c ∷ cs) = length c + total_length cs

  abbrev pub last_end : ℕ → List DocumentChunk → ℕ
  last_end pos [] = pos
  last_end pos (d ∷ ds) = last_end d.end_char ds

  last_end_from :
      (content : Text) (i pos : ℕ) (cs : List Text) (ds : List DocumentChunk)
      → IsPlaced content i pos cs ds
      → pos + total_length cs ≤ last_end pos ds
  last_end_from content i pos [] [] h = omega arith
  last_end_from content i pos [] (d ∷ ds) h = elim h [ ]
  last_end_from content i pos (c ∷ cs) [] h = elim h [ ]
  last_end_from content i pos (c ∷ cs) (d ∷ ds) (index, same, ends, after, stands, rest) =
      omega (arith, last_end_from content (i + 1) d.end_char cs ds rest)

  -- Where the chunks together are longer than the document, as overlapping chunks are, the object of
  -- the last chunk ends behind the end of the document.
  pub create_chunk_objects_overrun :
      (cs : List Text) (content : Text) (base : Metadata)
      → length content + 1 ≤ total_length cs
      → length content + 1 ≤ last_end 0 (create_chunk_objects strip cfg cs content base)
  create_chunk_objects_overrun cs content base longer =
      omega (arith, last_end_from content 0 0 cs _ (create_chunk_objects-IsPlaced cs content base))
