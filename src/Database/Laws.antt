-- ===== src/Database/Laws.antt =====
-- Updates of the rows with a given key, `.update(patch).eq("id", id)`.
use Prim.Native.String.{String}
use text.Mathlib.Text.{◌==◌}
use text.Mathlib.TextEquality.{eq_iff}
use mathlib.Core.Path.{subst}
use wa_graph_rag_backend.Prelude.{
  ◌≡◌, ◌≢◌, ◌↔◌, ◌⊎◌, sym, ap, ◌∙◌, inl, inr, true, false, some, if◌then◌else◌, Bool-cases,
}
use wa_graph_rag_backend.Database.Defs.{Table}

module _ {Row : Type 0} (t : Table Row) (key : Row → String) (id : String) (f : Row → Row)
    (same_key : (r : Row) → key (f r) ≡ key r) {before after : t.Store}
    (done : t.update (λ r. key r == id) f before ≡ some after) where
  -- A row with the key is the patch of a row with the key.
  pub update_hits :
      (r : Row) → t.Has after r → key r ≡ id → (y : Row) × t.Has before y × (key y ≡ id) × (r ≡ f y)
  update_hits r h e =
      let (y, hy, same) = (t.update_rows _ f before after done r).0 h in
      elim (Bool-cases (key y == id)) [
        | inl hit ↦ (y, hy, (eq_iff _ _).0 hit, same ∙ ap (λ b. if b then f y else y) hit)
        | inr miss ↦
            let is_y : r ≡ y = same ∙ ap (λ b. if b then f y else y) miss in
            (y, hy, ap key (sym is_y) ∙ e, absurd (other (ap key (sym is_y) ∙ e) miss))
      ]
    where
      other : {k : String} → k ≡ id → ((k == id) ≡ false) → ⊥
      other e miss = cc (sym miss ∙ (eq_iff _ _).1 e)

  -- The rows with other keys are those from before.
  pub update_others : (r : Row) → key r ≢ id → t.Has after r ↔ t.Has before r
  update_others r ne = (
    λ h.
        let (y, hy, same) = (t.update_rows _ f before after done r).0 h in
        elim (Bool-cases (key y == id)) [
          | inl hit ↦ absurd (
              ne (
                ap key (same ∙ ap (λ b. if b then f y else y) hit)
                ∙ same_key y
                ∙ (eq_iff _ _).0 hit))
          | inr miss ↦ subst (t.Has before) (sym (same ∙ ap (λ b. if b then f y else y) miss)) hy
        ],
    λ h. (t.update_rows _ f before after done r).1 (r, h, keep (Bool-cases (key r == id))),
  )
    where
      keep : ((key r == id) ≡ true) ⊎ ((key r == id) ≡ false) → r ≡ (if key r == id then f r else r)
      keep (inl hit) = absurd (ne ((eq_iff _ _).0 hit))
      keep (inr miss) = sym (ap (λ b. if b then f r else r) miss)
