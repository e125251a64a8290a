-- ===== src/Agent/Tests.antt =====
-- The theorems on a turn at small guards.
use Prim.Native.String.{String, count}
use text.Mathlib.Text.{◌==◌}
use wa_graph_rag_backend.Prelude.{◌≤◌, ◌≡◌, ◌↔◌, ◌⊎◌, refl, true, false, some, none, [], ◌∷◌}
use wa_graph_rag_backend.Prelude.Text.{join}
use wa_graph_rag_backend.Agent.{
  Guards, check_input, redact_pii, scrub_leaks, enforce_roman_urdu, apply_output_guardrails,
}
use wa_graph_rag_backend.Agent.Turn.{
  Reply, Talk, optional_or, fixed_turn, answered_turn, run_agent, on_manager, try_except,
  run_agent_turn,
}
use wa_graph_rag_backend.Agent.Blocked.{check_input_lem, AtMostOne, refusal, run_agent_turn_asks}
use wa_graph_rag_backend.Database.Action.{Result, running}
use wa_graph_rag_backend.Database.Action.Rules.{Holds}
use wa_graph_rag_backend.Memory.{
  get_or_create, create_session, client, add_turn, get_context_string, get_messages, redis_messages,
}
use wa_graph_rag_backend.Memory.Sample.{small_redis, one_turn, new_manager}

abbrev small_guards : Guards
small_guards = record {
  guardrails_enabled = true;
  enforce_roman_urdu = true;
  min_input_chars = 1;
  max_input_chars = 20;
  strip = λ text. text;
  splitlines = λ text. text ∷ [];
  injection_search = λ text. text == "jailbreak";
  abuse_search = λ text. false;
  leak_search = λ text. text == "system prompt";
  devanagari_search = λ text. false;
  drop_markers = λ text. text;
  pii_subs = [];
  transliterate = λ text. none;
}

scrubbed :
    apply_output_guardrails small_guards "system prompt"
    ≡ "Maazrat, main is waqt is sawal ka jawab nahi de sakta."
unfolding apply_output_guardrails enforce_roman_urdu redact_pii scrub_leaks join
scrubbed = refl

check_input_lem_example : ((check_input small_guards "fees?").allowed ≡ true) ↔ (
    (1 ≤ count "fees?")
    × (count "fees?" ≤ 20)
    × (("fees?" == "jailbreak") ≡ false)
    × (false ≡ false))
check_input_lem_example = check_input_lem small_guards "fees?" refl

abbrev quiet : Talk small_redis
quiet = record { memory = new_manager; prompts = [] }

abbrev ask : String → Result Reply × Talk small_redis
ask text =
    run_agent_turn small_redis one_turn small_guards (λ prompt. some "yes") text "a" none "u" quiet

prompts_sent : ((ask "fees?").1.prompts ≡ "fees?" ∷ []) × ((ask "jailbreak").1.prompts ≡ [])
unfolding run_agent_turn fixed_turn answered_turn run_agent on_manager try_except running
    check_input apply_output_guardrails enforce_roman_urdu redact_pii scrub_leaks join get_or_create
    create_session client add_turn get_context_string get_messages redis_messages
prompts_sent = (refl, refl)

run_agent_turn_asks_example :
    (((check_input small_guards "jailbreak").allowed ≡ false)
      × ((ask "jailbreak").1.prompts ≡ [])
      × Holds
          (λ (r : Reply).
            r.text ≡ refusal small_redis one_turn small_guards (λ prompt. some "yes") "jailbreak")
          (ask "jailbreak").0)
    ⊎ (((check_input small_guards "jailbreak").allowed ≡ true)
        × AtMostOne small_redis one_turn
            (optional_or (check_input small_guards "jailbreak").sanitized_input "jailbreak")
            []
            (ask "jailbreak").1.prompts)
run_agent_turn_asks_example =
    run_agent_turn_asks small_redis one_turn small_guards (λ prompt. some "yes") "jailbreak" "a"
      none "u" quiet
