-- ===== src/AgentSettings/Endpoints.antt =====
-- agent/settings_router.py. The caller of the first endpoint has passed `get_current_active_user`, of
-- the second one `require_roles("admin")`.
use Prim.Native.String.{String, count}
use wa_graph_rag_backend.Prelude.{ℕ, ltb, Bool, true, false, ◌||◌, Option, none, some, is_some, not}
use wa_graph_rag_backend.Database.Action.{
  Action, Result, ok, err, http, unprocessable, ◌>>◌, raise_if,
}
use wa_graph_rag_backend.AgentSettings.{
  AgentConfig, SettingsRow, SettingsTable, Cached, get_config, update_config,
}

-- The lengths that the request's model allows.
abbrev is_long : ℕ → Option String → Bool
is_long most none = false
is_long most (some text) = ltb most (count text)

abbrev pub is_refused : SettingsRow → Bool
is_refused body =
    is_long 120 body.assistant_name
    || (is_long 20000 body.system_prompt
        || (is_long 4000 body.scope_description || is_long 2000 body.out_of_scope_message))

-- `not patch`, where the patch is the body without its null fields.
abbrev pub is_empty_patch : SettingsRow → Bool
is_empty_patch body = not (
    is_some body.assistant_name
    || (is_some body.system_prompt
        || (is_some body.scope_description
            || (is_some body.enforce_scope || is_some body.out_of_scope_message))))

-- `except Exception: raise HTTPException(500, …)`
abbrev or_failed : {D A : Type 0} → Result A × D → Result A × D
or_failed (ok a, d) = (ok a, d)
or_failed (err x, d) = (err (http 500 "Failed to update settings"), d)

module _ (c : SettingsTable) (defaults : AgentConfig) where
  unfoldable pub get_agent_settings : Bool → ℕ → Action (Cached c) AgentConfig
  get_agent_settings initialized now = get_config c defaults initialized true now

  unfoldable pub update_agent_settings : Bool → SettingsRow → ℕ → Action (Cached c) AgentConfig
  update_agent_settings initialized body now =
      raise_if (is_refused body) unprocessable
      >> raise_if (is_empty_patch body) (http 400 "No fields to update")
      >> (λ st. or_failed (update_config c defaults initialized body now st))
