-- ===== src/AgentSettings/Cache.antt =====
-- What the cache of agent/settings_store.py promises.
use Prim.Native.String.{String}
use text.Mathlib.Text.{◌==◌}
use text.Mathlib.TextEquality.{eq_iff}
use wa_graph_rag_backend.Prelude.{
  ℕ, ◌+◌, ◌<◌, ltb, ◌≡◌, ◌⊎◌, ◌↔◌, inl, inr, refl, ap, Bool, true, false, Option, none, some, arith,
  Bool-cases,
}
use wa_graph_rag_backend.Database.Action.{ok}
use wa_graph_rag_backend.AgentSettings.{
  AgentConfig, SettingsRow, SettingsTable, Cached, text_or, truth, row_to_config, fetched,
  refreshed, get_config,
}

module _ (c : SettingsTable) (defaults : AgentConfig) where
  is_fresh : (now at : ℕ) → now < at + 30 → ltb now (at + 30) ≡ true
  is_fresh now at h = ground arith

  -- A text of the settings is that of its column, or the built-in one for a column that is null or
  -- empty.
  abbrev pub IsColumn : Option String → String → String → Type 0
  IsColumn column built_in text =
      ((column ≡ none) × (text ≡ built_in))
      ⊎ ((column ≡ some "") × (text ≡ built_in))
      ⊎ ((column ≡ some text) × ((text == "") ≡ false))

  column_lem : (column : Option String) (b : String) → IsColumn column b (text_or column b)
  column_lem none b = inl (refl, refl)
  column_lem (some a) b = elim (Bool-cases (a == "")) [
    | inl blank ↦ inr (inl (ap some ((eq_iff _ _).0 blank), rw blank refl))
    | inr there ↦ inr (inr (rw there refl, rw there there))
  ]

  -- The settings are those of a row, column by column.
  pub record IsRow (row : SettingsRow) (config : AgentConfig) : Type 0 where
    pub assistant_name : IsColumn row.assistant_name defaults.assistant_name config.assistant_name
    pub system_prompt : IsColumn row.system_prompt defaults.system_prompt config.system_prompt
    pub scope_description :
        IsColumn row.scope_description defaults.scope_description config.scope_description
    pub enforce_scope : (row.enforce_scope ≡ some true) ↔ (config.enforce_scope ≡ true)
    pub out_of_scope_message :
        IsColumn row.out_of_scope_message defaults.out_of_scope_message config.out_of_scope_message

  -- What a query of the table says of the settings, by what was cached before.
  abbrev pub IsRead : Option (Option SettingsRow) → Option AgentConfig → AgentConfig → Type 0
  IsRead none none config = config ≡ defaults
  IsRead none (some cached) config = config ≡ cached
  IsRead (some none) cache config = config ≡ defaults
  IsRead (some (some row)) cache config = IsRow row config

  truth_lem : (o : Option Bool) → (o ≡ some true) ↔ (truth o ≡ true)
  truth_lem none = (λ h. cc, λ h. cc)
  truth_lem (some b) = (λ h. cc, λ h. cc)

  row_to_config-IsRow : (row : SettingsRow) → IsRow row (row_to_config c defaults row)
  unfolding row_to_config
  row_to_config-IsRow row = record {
    assistant_name = column_lem row.assistant_name _;
    system_prompt = column_lem row.system_prompt _;
    scope_description = column_lem row.scope_description _;
    enforce_scope = truth_lem row.enforce_scope;
    out_of_scope_message = column_lem row.out_of_scope_message _;
  }

  fetched-IsRead :
      (o : Option (Option SettingsRow)) (cache : Option AgentConfig)
      → IsRead o cache (fetched c defaults o cache)
  fetched-IsRead none none = refl
  fetched-IsRead none (some cached) = refl
  fetched-IsRead (some none) cache = refl
  fetched-IsRead (some (some row)) cache = row_to_config-IsRow row

  -- With the client there, a forced read of the settings never fails. Each text that it gives is that
  -- of its own column, or the built-in one where the column is null or empty, and the scope is
  -- enforced exactly if the row says so; without a row it gives the built-in settings; and if the
  -- query raises, the last cached ones, or the built-in ones if there are none. For the next thirty
  -- seconds every read that is not forced gives the same settings and changes nothing.
  pub get_config_lem :
      (st : Cached c) (now : ℕ)
      → (config : AgentConfig) × (st' : Cached c) × (get_config c defaults true true now st
          ≡ (ok config, st'))
        × IsRead (c.select st.rows) st.cache config
        × (st'.rows ≡ st.rows)
        × ((later : ℕ)
            → later < now + 30
            → get_config c defaults true false later st' ≡ (ok config, st'))
  unfolding get_config
  get_config_lem st now = (
    fetched c defaults (c.select st.rows) st.cache,
    refreshed c defaults now st,
    refl,
    fetched-IsRead (c.select st.rows) st.cache,
    refl,
    λ later h. rw (is_fresh later now h),
  )
