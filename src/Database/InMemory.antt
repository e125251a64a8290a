-- ===== src/Database/InMemory.antt =====
-- A table as a list of rows, on which no call raises.
use mathlib.Core.List.Memᴰ
use mathlib.Core.Bool.{false≢true}
use wa_graph_rag_backend.Prelude.{
  sym, ◌∙◌, ◌≡◌, ap, ◌↔◌, ◌⊎◌, inl, inr, Bool, true, false, Option, none, some, List, [], ◌∷◌, map,
  Memᴰ, arith, if◌then◌else◌, Bool-cases, some_inv,
}
use wa_graph_rag_backend.Database.Defs.{Table}

module _ {Row : Type 0} where
  abbrev pub find : (Row → Bool) → List Row → Option Row
  find p [] = none
  find p (r ∷ s) = if p r then some r else find p s

  abbrev pub keep : (Row → Bool) → List Row → List Row
  keep p [] = []
  keep p (r ∷ s) = if p r then r ∷ keep p s else keep p s

  abbrev pub change : (Row → Bool) → (Row → Row) → Row → Row
  change p f r = if p r then f r else r

  abbrev pub drop_where : (Row → Bool) → List Row → List Row
  drop_where p [] = []
  drop_where p (r ∷ s) = if p r then drop_where p s else r ∷ drop_where p s

  pub found_row :
      (p : Row → Bool) (s : List Row) (r : Row) → find p s ≡ some r → Memᴰ r s × (p r ≡ true)
  found_row p [] r e = cc
  found_row p (x ∷ s) r e = elim (Bool-cases (p x)) [
    | inl hit ↦ let same : x ≡ r = ground arith in (Memᴰ.head (sym same), rw (← same) hit)
    | inr miss ↦ let (m, h) = found_row p s r (ground arith) in (Memᴰ.tail m, h)
  ]

  pub missing_row :
      (p : Row → Bool) (s : List Row) → find p s ≡ none → (r : Row) → Memᴰ r s → p r ≡ false
  missing_row p [] e r m = elim m [ ]
  missing_row p (x ∷ s) e r (Memᴰ.head same) = rw same (ground arith)
  missing_row p (x ∷ s) e r (Memᴰ.tail m) = missing_row p s (ground arith) r m

  pub keep_rows :
      (p : Row → Bool) (s : List Row) (r : Row) → Memᴰ r (keep p s) ↔ (Memᴰ r s × (p r ≡ true))
  keep_rows p [] r = (λ m. absurd (Memᴰ.not-nil m), λ m. absurd (Memᴰ.not-nil m.0))
  keep_rows p (x ∷ s) r = elim (Bool-cases (p x)) [
    | inl hit ↦ rw hit (
      λ m. elim (Memᴰ.cases_cons m) [
        | inl e ↦ (Memᴰ.head e, rw e hit)
        | inr n ↦ let (k, h) = (keep_rows p s r).0 n in (Memᴰ.tail k, h)
      ],
      λ m. elim (Memᴰ.cases_cons m.0) [
        | inl e ↦ Memᴰ.head e
        | inr n ↦ Memᴰ.tail ((keep_rows p s r).1 (n, m.1))
      ],
    )
    | inr miss ↦ rw miss (
      λ m. let (k, h) = (keep_rows p s r).0 m in (Memᴰ.tail k, h),
      λ m. elim (Memᴰ.cases_cons m.0) [
        | inl e ↦ absurd (false≢true (sym miss ∙ ap p (sym e) ∙ m.1))
        | inr n ↦ (keep_rows p s r).1 (n, m.1)
      ],
    )
  ]

  pub drop_where_rows :
      (p : Row → Bool) (s : List Row) (r : Row)
      → Memᴰ r (drop_where p s) ↔ (Memᴰ r s × (p r ≡ false))
  drop_where_rows p [] r = (λ m. absurd (Memᴰ.not-nil m), λ m. absurd (Memᴰ.not-nil m.0))
  drop_where_rows p (x ∷ s) r = elim (Bool-cases (p x)) [
    | inl hit ↦ rw hit (
      λ m. let (k, h) = (drop_where_rows p s r).0 m in (Memᴰ.tail k, h),
      λ m. elim (Memᴰ.cases_cons m.0) [
        | inl e ↦ absurd (false≢true (sym m.1 ∙ ap p e ∙ hit))
        | inr n ↦ (drop_where_rows p s r).1 (n, m.1)
      ],
    )
    | inr miss ↦ rw miss (
      λ m. elim (Memᴰ.cases_cons m) [
        | inl e ↦ (Memᴰ.head e, rw e miss)
        | inr n ↦ let (k, h) = (drop_where_rows p s r).0 n in (Memᴰ.tail k, h)
      ],
      λ m. elim (Memᴰ.cases_cons m.0) [
        | inl e ↦ Memᴰ.head e
        | inr n ↦ Memᴰ.tail ((drop_where_rows p s r).1 (n, m.1))
      ],
    )
  ]

  pub change_rows :
      (p : Row → Bool) (f : Row → Row) (s : List Row) (r : Row)
      → Memᴰ r (map (change p f) s) ↔ ((x : Row) × Memᴰ x s × (r ≡ (if p x then f x else x)))
  change_rows p f s r = (
    λ m. let (x, h, e) = Memᴰ.of_map (change p f) s m in (x, h, sym e),
    λ m. Memᴰ.cast m.2 (Memᴰ.map (change p f) m.1),
  )

  pub cons_rows : (x : Row) (s : List Row) (r : Row) → Memᴰ r (x ∷ s) ↔ ((r ≡ x) ⊎ Memᴰ r s)
  cons_rows x s r = (Memᴰ.cases_cons, λ h. elim h [ inl e ↦ Memᴰ.head e | inr m ↦ Memᴰ.tail m ])

-- A law about a call that ends in `some v` follows from the law about `v`.
module _ (Row : Type 0) where
  abbrev pub in_memory : Table Row
  in_memory = record {
    Store = List Row;
    Has = λ s r. Memᴰ r s;
    select = λ p s. some (find p s);
    select_all = λ p s. some (keep p s);
    insert = λ x s. some (x ∷ s);
    update = λ p f s. some (map (change p f) s);
    delete = λ p s. some (drop_where p s);
    select_some = λ p s r e. found_row p s r (some_inv e);
    select_none = λ p s e. missing_row p s (some_inv e);
    select_all_rows = λ p s rs e r. rw (sym (some_inv e)) (keep_rows p s r);
    insert_rows = λ x s t e r. rw (sym (some_inv e)) (cons_rows x s r);
    update_rows = λ p f s t e r. rw (sym (some_inv e)) (change_rows p f s r);
    delete_rows = λ p s t e r. rw (sym (some_inv e)) (drop_where_rows p s r);
  }
