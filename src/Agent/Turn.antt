-- ===== src/Agent/Turn.antt =====
-- agent/conversation.py: a guarded turn of the agent, with the session memory.
use Prim.Native.String.{String}
use text.Mathlib.Text.{◌==◌}
use wa_graph_rag_backend.Prelude.{Option, none, some, List, [], ◌∷◌, ◌++◌, if◌then◌else◌}
use wa_graph_rag_backend.Prelude.Text.{◌+++◌}
use wa_graph_rag_backend.Database.Action.{Action, Result, ok, err, ◌>>=◌, ◌>>◌, pure, answer}
use wa_graph_rag_backend.Memory.{
  Redis, Settings, Manager, branch, get_or_create, add_turn, get_context_string,
}
use wa_graph_rag_backend.Agent.{Guards, check_input, apply_output_guardrails, text_or}

-- The reply, and the identifiers in the AgentDependencies that are returned with it.
pub record Reply : Type 0 where
  pub text : String
  pub session_id : String
  pub user_id : Option String

-- `a or b`, for a text that may be missing.
abbrev pub optional_or : Option String → String → String
optional_or none b = b
optional_or (some a) b = text_or a b

-- `try: … except Exception: …`; the handler starts from the state at the exception.
abbrev pub rescue : {D A : Type 0} → Result A × D → Action D A → Result A × D
rescue (ok a, d) handler = (ok a, d)
rescue (err e, d) handler = handler d

unfoldable pub try_except : {D A : Type 0} → Action D A → Action D A → Action D A
try_except m handler d = rescue (m d) handler

abbrev pub error_response : String
error_response =
    "Maazrat — aap ka message process karte hue masla hua. Baraye meharbani dobara koshish karein."

abbrev pub prompt_of : String → String → String
prompt_of history safe_message =
    if history == ""
    then safe_message
    else "Previous conversation:\n" +++ history +++ "\n\nCurrent question: " +++ safe_message

-- The session memory, and the prompts that have been sent to the language model.
pub record Talk (R : Redis) : Type 0 where
  pub memory : Manager R
  pub prompts : List String

module _ (R : Redis) (cfg : Settings) where
  unfoldable pub on_manager : {A : Type 0} → Action (Manager R) A → Action (Talk R) A
  on_manager m t = let r = m t.memory in (r.0, record t { memory = r.1 })

  -- A turn whose reply is fixed.
  unfoldable pub fixed_turn : String → String → String → Option String → Action (Talk R) Reply
  fixed_turn message text sid user_id = do
    on_manager (add_turn R cfg sid message text)
    pure (record { text = text; session_id = sid; user_id = user_id })

-- `agent` is the run of the language model with its tools: the response to a prompt; `none` is an
-- exception. `uuid` is the identifier of a session that has none.
module _ (R : Redis) (cfg : Settings) (g : Guards) (agent : String → Option String) where
  -- `rag_agent.run`, which also notes the prompt.
  unfoldable pub run_agent : String → Action (Talk R) String
  run_agent prompt t = answer (agent prompt) (record t { prompts = t.prompts ++ (prompt ∷ []) })

  -- The body of the `try`.
  unfoldable pub answered_turn : String → String → String → Option String → Action (Talk R) Reply
  answered_turn message safe_message sid user_id = do
    history ← on_manager R cfg (get_context_string R cfg sid)
    result ← run_agent (prompt_of history safe_message)
    let response = apply_output_guardrails g result
    on_manager R cfg (add_turn R cfg sid message response)
    pure (record { text = response; session_id = sid; user_id = user_id })

  unfoldable pub run_agent_turn : String → String → Option String → String → Action (Talk R) Reply
  run_agent_turn message session_id user_id uuid = do
    sid ← on_manager R cfg (get_or_create R cfg (some session_id) uuid)
    let verdict = check_input g message
    branch verdict.allowed
        (try_except
          (answered_turn message (optional_or verdict.sanitized_input message) sid user_id)
          (fixed_turn R cfg message error_response sid user_id))
        (fixed_turn R cfg message
          (optional_or verdict.user_message "Maazrat, main is sawal ka jawab nahi de sakta.") sid
          user_id)
