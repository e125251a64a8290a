-- ===== src/Chunker/Split.antt =====
-- `_simple_split` of ingestion/chunker.py: when it ends, and what its chunks hold.
use mathlib.Core.Path.{ap₂}
use mathlib.Core.List.{append-nil}
use native.Mathlib.Decide.{dec_lt}
use wa_graph_rag_backend.Prelude.{
  ℕ, zero, suc, ◌+◌, ◌-◌, ◌≤◌, ◌<◌, ◌≡◌, sym, ap, ◌∙◌, min, true, false, List, [], ◌∷◌, ◌++◌,
  length, take, drop, arith, take-append-drop, length-take, length-drop, drop-take, drop-drop,
  take_all, drop_all,
}
use wa_graph_rag_backend.Prelude.Int.{pos, add_pos, sub_pos, ltb_ℤ}
use wa_graph_rag_backend.Chunker.{
  Text, ChunkingConfig, slice, chunks, prepend, simple_split_from, simple_split,
}
use wa_graph_rag_backend.Chunker.Boundary.{margin, chunk_end_range}

-- The chunks behind the first, each without the characters that it repeats.
abbrev pub tails : ℕ → List Text → Text
tails overlap [] = []
tails overlap (c ∷ cs) = drop overlap c ++ tails overlap cs

-- All chunks put together again.
abbrev pub stitch : ℕ → List Text → Text
stitch overlap [] = []
stitch overlap (c ∷ cs) = c ++ tails overlap cs

abbrev pub AllWithin : ℕ → List Text → Type 0
AllWithin most [] = Unit
AllWithin most (c ∷ cs) = (length c ≤ most) × AllWithin most cs

-- The configurations under which every round moves the start forward.
pub record IsSound (cfg : ChunkingConfig) : Type 0 where
  pub less : cfg.chunk_overlap < cfg.chunk_size
  pub near : cfg.chunk_overlap ≤ margin cfg + 1

slice_pos :
    (text : Text) (a b : ℕ)
    → a ≤ length text
    → b ≤ length text
    → slice text (pos a) (pos b) ≡ take (b - a) (drop a text)
slice_pos text a b h k =
    let ea : min a (length text) ≡ a = omega arith in
    let eb : min b (length text) ≡ b = omega arith in
    ap (λ n. take (min b (length text) - n) (drop n text)) ea
    ∙ ap (λ n. take (n - a) (drop a text)) eb

pub ltb_yes : (a b : ℕ) → a < b → ltb_ℤ (pos a) (pos b) ≡ true
ltb_yes a b h = ground arith

ltb_no : (a b : ℕ) → b ≤ a → ltb_ℤ (pos a) (pos b) ≡ false
ltb_no a b h = ground arith

module _ (cfg : ChunkingConfig) (sound : IsSound cfg) where
  -- One round, from a start inside the text.
  round_last :
      (fuel s : ℕ) (text : Text)
      → s < length text
      → length text ≤ s + cfg.chunk_size
      → simple_split_from cfg (suc fuel) text (pos s) ≡ chunks (drop s text ∷ [])
  unfolding simple_split_from
  round_last fuel s text lt big =
      let size = cfg.chunk_size in
      let whole =
        slice_pos text s (length text) (omega arith) (omega arith)
        ∙ take_all (length text - s) (drop s text) (omega (arith, length-drop {0} s text)) in
      rw (ltb_yes s (length text) lt, add_pos s size, ltb_no (s + size) (length text) big)
        (ap (λ c. chunks (c ∷ [])) whole)

  round_more :
      (fuel s : ℕ) (text : Text)
      → s + cfg.chunk_size < length text
      → (r : ℕ) × (simple_split_from cfg (suc fuel) text (pos s)
          ≡ prepend
              (take (r - s) (drop s text))
              (simple_split_from cfg fuel text (pos (r - cfg.chunk_overlap))))
        × (s + cfg.chunk_overlap < r)
        × (r ≤ s + cfg.chunk_size + 1)
        × (r ≤ length text)
  unfolding simple_split_from
  round_more fuel s text lt =
      let size = cfg.chunk_size in
      let (r, cut, range) = chunk_end_range cfg s text lt in
      let far : s + cfg.chunk_overlap < r = omega (arith, sound.less, sound.near) in
      let inside : r ≤ length text = omega arith in
      let back = sub_pos r cfg.chunk_overlap (omega arith) in
      (
        r,
        rw
            (
              ltb_yes s (length text) (omega arith),
              add_pos s size,
              ltb_yes (s + size) (length text) lt,
              cut,
            )
            (rw (back, slice_pos text s r (omega arith) inside)),
        far,
        omega arith,
        inside,
      )

  round_none :
      (fuel s : ℕ) (text : Text)
      → length text ≤ s
      → simple_split_from cfg (suc fuel) text (pos s) ≡ chunks []
  unfolding simple_split_from
  round_none fuel s text past = rw (ltb_no s (length text) past)

  -- Two neighbouring pieces of a text, the first without its overlap.
  glue :
      (s r overlap : ℕ) (text : Text)
      → s + overlap ≤ r
      → drop overlap (take (r - s) (drop s text)) ++ drop r text ≡ drop (s + overlap) text
  glue s r overlap text h =
      let n = r - s - overlap in
      let e1 : r - s ≡ overlap + n = omega arith in
      let e2 : r ≡ s + overlap + n = omega arith in
      ap₂ ◌++◌
        (ap (λ k. drop overlap (take k (drop s text))) e1
          ∙ drop-take overlap n (drop s text)
          ∙ ap (take n) (drop-drop overlap s text))
        (ap (λ k. drop k text) e2 ∙ sym (drop-drop n (s + overlap) text))
      ∙ take-append-drop n (drop (s + overlap) text)

  simple_split_from_lem :
      (fuel s : ℕ) (text : Text)
      → s + cfg.chunk_overlap ≤ length text
      → length text < s + fuel
      → (cs : List Text) × (simple_split_from cfg fuel text (pos s) ≡ chunks cs)
        × (tails cfg.chunk_overlap cs ≡ drop (s + cfg.chunk_overlap) text)
        × AllWithin (cfg.chunk_size + 1) cs
  simple_split_from_lem zero s text h lt = absurd (omega arith)
  simple_split_from_lem (suc fuel) s text h lt = elim (dec_lt s (length text)) [
    | no past ↦ (
      [],
      round_none fuel s text (omega arith),
      sym (drop_all (s + cfg.chunk_overlap) text (omega arith)),
      tt,
    )
    | yes inside ↦ elim (dec_lt (s + cfg.chunk_size) (length text)) [
      | no near_end ↦ (
        drop s text ∷ [],
        round_last fuel s text inside (omega arith),
        append-nil _ ∙ drop-drop cfg.chunk_overlap s text,
        (omega (arith, length-drop {0} s text), tt),
      )
      | yes more ↦
          let (r, step, far, close, within) = round_more fuel s text more in
          let (cs, run, rest, bounds) =
            simple_split_from_lem fuel (r - cfg.chunk_overlap) text (omega arith) (omega arith) in
          let e : r - cfg.chunk_overlap + cfg.chunk_overlap ≡ r = omega arith in
          (
            take (r - s) (drop s text) ∷ cs,
            step ∙ ap (prepend (take (r - s) (drop s text))) run,
            ap (λ t. drop cfg.chunk_overlap (take (r - s) (drop s text)) ++ t)
                  (rest ∙ ap (λ k. drop k text) e)
                ∙ glue s r cfg.chunk_overlap text (omega arith),
            (omega (arith, length-take {0} (r - s) (drop s text)), bounds),
          )
    ]
  ]

  -- `_simple_split` ends, within one round for each character and one more, under every sound
  -- configuration; its chunks, each but the first without its first `chunk_overlap` characters, make
  -- up the text again; and no chunk is longer than `chunk_size + 1`.
  pub simple_split_lem :
      (text : Text) (fuel : ℕ)
      → length text < fuel
      → (cs : List Text) × (simple_split cfg fuel text ≡ chunks cs)
        × (stitch cfg.chunk_overlap cs ≡ text)
        × AllWithin (cfg.chunk_size + 1) cs
  unfolding simple_split
  simple_split_lem text zero lt = absurd (omega arith)
  simple_split_lem text (suc fuel) lt = elim (dec_lt 0 (length text)) [
    | no empty ↦ ([], round_none fuel 0 text (omega arith), sym (drop_all 0 text (omega arith)), tt)
    | yes inside ↦ elim (dec_lt cfg.chunk_size (length text)) [
      | no short ↦ (
        text ∷ [],
        round_last fuel 0 text inside (omega arith),
        append-nil text,
        (omega arith, tt),
      )
      | yes more ↦
          let (r, step, far, close, within) = round_more fuel 0 text (omega arith) in
          let (cs, run, rest, bounds) =
            simple_split_from_lem fuel (r - cfg.chunk_overlap) text (omega arith) (omega arith) in
          let e : r - cfg.chunk_overlap + cfg.chunk_overlap ≡ r = omega arith in
          let e0 : r - 0 ≡ r = omega arith in
          (
            take (r - 0) text ∷ cs,
            step ∙ ap (prepend (take (r - 0) text)) run,
            ap₂ ◌++◌ (ap (λ k. take k text) e0) (rest ∙ ap (λ k. drop k text) e)
                ∙ take-append-drop r text,
            (omega (arith, length-take {0} (r - 0) text), bounds),
          )
    ]
  ]
