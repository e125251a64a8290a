-- ===== src/AgentSettings.antt =====
-- agent/settings_store.py: the assistant's settings, cached for thirty seconds. An operation is an
-- `Action` on the module's cache and on the table `app_settings`.
pub mod Cache
pub mod Endpoints
mod Tests
use Prim.Native.String.{String}
use text.Mathlib.Text.{◌==◌}
use wa_graph_rag_backend.Prelude.{
  ℕ, ◌+◌, ltb, Bool, true, false, not, ◌&&◌, Option, none, some, is_some, if◌then◌else◌,
}
use wa_graph_rag_backend.Database.Action.{Action, Result, ok, err, crash, ◌>>=◌, ◌>>◌, pure, write}

pub record AgentConfig : Type 0 where
  pub assistant_name : String
  pub system_prompt : String
  pub scope_description : String
  pub enforce_scope : Bool
  pub out_of_scope_message : String

-- The row of `app_settings` with the id "agent", and a patch of it; a column may be null, and a patch
-- may leave a field out.
pub record SettingsRow : Type 0 where
  pub assistant_name : Option String
  pub system_prompt : Option String
  pub scope_description : Option String
  pub enforce_scope : Option Bool
  pub out_of_scope_message : Option String

-- The table: the row with the id "agent", if there is one, and the upsert of that row. The outer
-- `none` is an exception of the client.
pub record SettingsTable : Type 1 where
  pub Store : Type 0
  pub select : Store → Option (Option SettingsRow)
  pub upsert : SettingsRow → Store → Option Store

pub record Cached (c : SettingsTable) : Type 0 where
  pub cache : Option AgentConfig
  pub cache_at : ℕ
  pub rows : c.Store

-- `row.get(column) or default`
abbrev pub text_or : Option String → String → String
text_or none b = b
text_or (some a) b = if a == "" then b else a

-- `bool(value)`, which is False for null.
abbrev pub truth : Option Bool → Bool
truth none = false
truth (some b) = b

-- `defaults` is `_DEFAULT`, the built-in texts; `initialized` says that the application has its
-- Supabase client; `now` is the monotonic clock in seconds.
module _ (c : SettingsTable) (defaults : AgentConfig) where
  unfoldable pub row_to_config : SettingsRow → AgentConfig
  row_to_config row = record {
    assistant_name = text_or row.assistant_name defaults.assistant_name;
    system_prompt = text_or row.system_prompt defaults.system_prompt;
    scope_description = text_or row.scope_description defaults.scope_description;
    enforce_scope = truth row.enforce_scope;
    out_of_scope_message = text_or row.out_of_scope_message defaults.out_of_scope_message;
  }

  -- `_cache or _DEFAULT`
  abbrev pub cache_or_default : Option AgentConfig → AgentConfig
  cache_or_default none = defaults
  cache_or_default (some config) = config

  -- The new cache, from what the query gives: an exception, no row, or a row.
  abbrev pub fetched : Option (Option SettingsRow) → Option AgentConfig → AgentConfig
  fetched none cache = cache_or_default cache
  fetched (some none) cache = defaults
  fetched (some (some row)) cache = row_to_config row

  abbrev pub fresh : Bool → ℕ → Cached c → Bool
  fresh force now st = not force && is_some st.cache && ltb now (st.cache_at + 30)

  abbrev pub refreshed : ℕ → Cached c → Cached c
  refreshed now st = record st {
    cache = some (fetched (c.select st.rows) st.cache);
    cache_at = now;
  }

  unfoldable pub get_config : Bool → Bool → ℕ → Action (Cached c) AgentConfig
  get_config initialized force now st =
      if fresh force now st
      then (ok (cache_or_default st.cache), st)
      else if not initialized
      then (ok (cache_or_default st.cache), st)
      else (ok (fetched (c.select st.rows) st.cache), refreshed now st)

  abbrev pub with_rows : Cached c → Option c.Store → Option (Cached c)
  with_rows st none = none
  with_rows st (some rows) = some (record st { rows = rows })

  -- A missing client is a RuntimeError.
  unfoldable pub update_config : Bool → SettingsRow → ℕ → Action (Cached c) AgentConfig
  update_config initialized patch now = do
    write (λ st. if initialized then with_rows st (c.upsert patch st.rows) else none)
    get_config initialized true now

  unfoldable pub get_system_prompt : Bool → ℕ → Action (Cached c) String
  get_system_prompt initialized now = do
    config ← get_config initialized false now
    pure config.system_prompt
