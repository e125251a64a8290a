-- ===== src/Database/Defs.antt =====
-- The interface of one table.
use wa_graph_rag_backend.Prelude.{
  ◌≡◌, ◌↔◌, ◌⊎◌, Bool, true, false, Option, none, some, List, Memᴰ, if◌then◌else◌,
}

pub record Table (Row : Type 0) : Type 1 where
  pub Store : Type 0
  -- The row is in the table.
  pub Has : Store → Row → Type 0
  -- At most one of the rows that pass the filter.
  pub select : (Row → Bool) → Store → Option (Option Row)
  -- All the rows that pass the filter.
  pub select_all : (Row → Bool) → Store → Option (List Row)
  pub insert : Row → Store → Option Store
  pub update : (Row → Bool) → (Row → Row) → Store → Option Store
  pub delete : (Row → Bool) → Store → Option Store
  pub select_some :
      (p : Row → Bool) (s : Store) (r : Row) → select p s ≡ some (some r) → Has s r × (p r ≡ true)
  pub select_none :
      (p : Row → Bool) (s : Store) → select p s ≡ some none → (r : Row) → Has s r → p r ≡ false
  pub select_all_rows :
      (p : Row → Bool) (s : Store) (rs : List Row)
      → select_all p s ≡ some rs
      → (r : Row) → Memᴰ r rs ↔ (Has s r × (p r ≡ true))
  pub insert_rows :
      (x : Row) (s t : Store) → insert x s ≡ some t → (r : Row) → Has t r ↔ ((r ≡ x) ⊎ Has s r)
  pub update_rows :
      (p : Row → Bool) (f : Row → Row) (s t : Store)
      → update p f s ≡ some t
      → (r : Row) → Has t r ↔ ((x : Row) × Has s x × (r ≡ (if p x then f x else x)))
  pub delete_rows :
      (p : Row → Bool) (s t : Store)
      → delete p s ≡ some t
      → (r : Row) → Has t r ↔ (Has s r × (p r ≡ false))
