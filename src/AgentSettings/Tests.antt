-- ===== src/AgentSettings/Tests.antt =====
-- The theorem on the cached settings at a run with a table in memory.
use wa_graph_rag_backend.Prelude.{ℕ, ◌<◌, ◌≡◌, refl, true, false, Option, some, none}
use wa_graph_rag_backend.Database.Action.{ok}
use wa_graph_rag_backend.AgentSettings.{
  AgentConfig, SettingsRow, SettingsTable, Cached, row_to_config, get_config,
}
use wa_graph_rag_backend.AgentSettings.Cache.{IsRow, get_config_lem}

abbrev one_row : SettingsTable
one_row = record {
  Store = Option SettingsRow;
  select = λ s. some s;
  upsert = λ row s. some (some row);
}

abbrev built_in : AgentConfig
built_in = record {
  assistant_name = "Uchenab Assistant";
  system_prompt = "prompt";
  scope_description = "university";
  enforce_scope = true;
  out_of_scope_message = "Maazrat";
}

abbrev stored : SettingsRow
stored = record {
  assistant_name = some "Helper";
  system_prompt = none;
  scope_description = some "";
  enforce_scope = none;
  out_of_scope_message = none;
}

abbrev start : Cached one_row
start = record { cache = none; cache_at = 0; rows = some stored }

row_runs :
    row_to_config one_row built_in stored
    ≡ record built_in { assistant_name = "Helper"; enforce_scope = false }
unfolding row_to_config
row_runs = refl

get_config_lem_example :
    (config : AgentConfig) × (st' : Cached one_row) × (get_config one_row built_in true true 100
        start
      ≡ (ok config, st'))
    × IsRow one_row built_in stored config
    × (st'.rows ≡ some stored)
    × ((later : ℕ)
        → later < 130
        → get_config one_row built_in true false later st' ≡ (ok config, st'))
get_config_lem_example = get_config_lem one_row built_in start 100
