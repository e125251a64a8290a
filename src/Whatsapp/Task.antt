-- ===== src/Whatsapp/Task.antt =====
-- `_process_whatsapp_message` of worker/tasks.py, with `send_text` and `mark_read` of
-- integrations/whatsapp.py, `classify_query_scope` of agent/guardrails.py and the confidence gate of
-- agent/tools.py.
pub mod Replies
use Prim.Native.String.{String, count}
use package.text.Mathlib.Text.{◌==◌}
use wa_graph_rag_backend.Prelude.{
  ℕ, Bool, true, false, not, Option, none, some, List, [], ◌∷◌, ◌++◌, if◌then◌else◌,
}
use wa_graph_rag_backend.Prelude.Text.{◌+++◌}
use wa_graph_rag_backend.Database.Action.{
  Action, Result, ok, err, crash, ◌>>=◌, ◌>>◌, pure, raise, raise_if, when,
}
use wa_graph_rag_backend.Chats.{Log, Chats, Defaults, record_inbound, record_outbound}
use wa_graph_rag_backend.Chats.Preview.{first_chars}
use wa_graph_rag_backend.Memory.{Redis, Settings, Manager, get_context_string}
use wa_graph_rag_backend.Agent.{Guards}
use wa_graph_rag_backend.Agent.Turn.{Reply, Talk, run_agent_turn}
use wa_graph_rag_backend.AgentSettings.{AgentConfig, SettingsTable, Cached, get_config}
use wa_graph_rag_backend.Whatsapp.{WhatsAppClient, Message, is_configured, filled}

-- The texts that went out, with their receivers, and the alerts that were queued.
pub record Mail : Type 0 where
  pub sent : List (String × String)
  pub alerts : List (String × String)

-- What comes of a request to send something: it is sent; it is sent, but the call raises, since the
-- answer is late or cannot be read; or it is not sent, and the call raises.
pub data Sending : Type 0 where
  sent_well sent_raising unsent : Sending

-- Python's floats as far as the gate uses them.
pub record Floats : Type 1 where
  pub Number : Type 0
  pub nought : Number
  pub below : Number → Number → Bool

pub record ChunkResult (f : Floats) : Type 0 where
  pub chunk_id : String
  pub content : String
  pub vector_similarity : f.Number

-- `fetch_media_bytes` and `transcribe` together: a text, a TranscriptionError, or another exception.
pub data Heard : Type 0 where
  heard : String → Heard
  transcription_error : String → Heard
  broken : Heard

pub data TaskResult (f : Floats) : Type 0 where
  error : String → TaskResult f
  ignored_type : String → TaskResult f
  ignored_empty : TaskResult f
  out_of_scope_replied : ℕ → TaskResult f
  low_confidence_suppressed : f.Number → TaskResult f
  replied : Bool → ℕ → TaskResult f

-- What a message asks for: nothing else happens after the reply `stopped` or the exception `raised`;
-- `said` is the user's text, with whether it was transcribed.
pub data Input (f : Floats) : Type 0 where
  stopped : String → TaskResult f → Input f
  said : String → Bool → Input f
  raised : Input f

module _ (f : Floats) where
  abbrev pub larger : f.Number → f.Number → f.Number
  larger x y = if f.below x y then y else x

  abbrev pub max_from : f.Number → List (ChunkResult f) → f.Number
  max_from x [] = x
  max_from x (c ∷ cs) = max_from (larger x c.vector_similarity) cs

  unfoldable pub max_cosine_similarity : List (ChunkResult f) → f.Number
  max_cosine_similarity [] = f.nought
  max_cosine_similarity (c ∷ cs) = max_from c.vector_similarity cs

  unfoldable pub is_low_confidence : f.Number → List (ChunkResult f) → Bool
  is_low_confidence least cs = f.below (max_cosine_similarity cs) least

abbrev pub scope_prompt : String → String
scope_prompt scope_description =
    "You are a scope classifier for an AI assistant.\nThe assistant ONLY answers questions about: "
    +++ scope_description
    +++ ".\nIf the user's message is about that scope, reply IN_SCOPE. If it is clearly unrelated (general trivia, unrelated chit-chat, topics outside the scope above), reply OUT_OF_SCOPE.\nRespond with ONLY one word: 'IN_SCOPE' or 'OUT_OF_SCOPE'."

-- Whatever the task draws from its surroundings.
pub record TaskEnv (f : Floats) : Type 0 where
  pub client : WhatsAppClient
  -- What comes of a text for a receiver at the Cloud API, and of an alert at the queue, behind the
  -- others.
  pub delivers : String → String → Mail → Sending
  pub queues : String → String → Mail → Sending
  pub strip : String → String
  pub hear : String → Heard
  -- The model's verdict on a system prompt and a query; `none` is an exception.
  pub classify : String → String → Option String
  -- `"OUT_OF_SCOPE" in verdict.strip().upper()`
  pub is_out_of_scope : String → Bool
  -- The language model with its tools: the response to a prompt, and the chunks that the tools have
  -- left in the dependencies of a turn with this message and this reply.
  pub agent : String → Option String
  pub retrieved_chunks : String → String → List (ChunkResult f)
  -- `json.dumps` of the debug data: of the query, the reply, the chunks and the context.
  pub debug_json : String → String → List (ChunkResult f) → String → String
  pub min_similarity : f.Number
  pub uuid : String
  pub inbound_defaults : Defaults
  pub outbound_defaults : Defaults
  pub initialized : Bool
  pub now : ℕ

module _ (f : Floats) (c : Log) (R : Redis) (cfg : Settings) (g : Guards) (t : SettingsTable)
    (defaults : AgentConfig) where
  pub record Worker : Type 0 where
    pub mail : Mail
    pub log : Chats c
    pub memory : Manager R
    pub prompts : List String
    pub settings : Cached t

  module _ (env : TaskEnv f) where
    unfoldable pub on_log : {A : Type 0} → Action (Chats c) A → Action Worker A
    on_log m w = let r = m w.log in (r.0, record w { log = r.1 })

    unfoldable pub on_memory : {A : Type 0} → Action (Manager R) A → Action Worker A
    on_memory m w = let r = m w.memory in (r.0, record w { memory = r.1 })

    -- A turn of the agent works on the memory and notes the prompts that it sends.
    unfoldable pub on_turn : {A : Type 0} → Action (Talk R) A → Action Worker A
    on_turn m w =
        let r = m (record { memory = w.memory; prompts = w.prompts }) in
        (r.0, record w { memory = r.1.memory; prompts = r.1.prompts })

    unfoldable pub on_settings : {A : Type 0} → Action (Cached t) A → Action Worker A
    on_settings m w = let r = m w.settings in (r.0, record w { settings = r.1 })

    -- `try: … except Exception: log`
    unfoldable pub best_effort : {A : Type 0} → Action Worker A → Action Worker (Unit {0})
    best_effort m w = (ok tt, (m w).1)

    -- The outcome of a request after which the mail is the given one.
    abbrev pub posted : Sending → Mail → Action Worker (Unit {0})
    posted sent_well mail w = (ok tt, record w { mail = mail })
    posted sent_raising mail w = (err crash, record w { mail = mail })
    posted unsent mail w = (err crash, w)

    -- "WhatsApp hard-limits text bodies to 4096 chars."
    unfoldable pub send_text : String → String → Action Worker (Unit {0})
    send_text to body w =
        if not (is_configured env.client)
        then (err crash, w)
        else posted (env.delivers to (first_chars 4096 body) w.mail)
            (record w.mail { sent = w.mail.sent ++ ((to, first_chars 4096 body) ∷ []) }) w

    -- The failure of the request is swallowed.
    unfoldable pub mark_read : String → Action Worker (Unit {0})
    mark_read id = raise_if (not (is_configured env.client)) crash

    unfoldable pub notify_admin : String → String → Action Worker (Unit {0})
    notify_admin wa_id query w =
        posted (env.queues wa_id query w.mail)
          (record w.mail { alerts = w.mail.alerts ++ ((wa_id, query) ∷ []) }) w

    abbrev pub scope_of : Option String → String
    scope_of none = "in_scope"
    scope_of (some verdict) = if env.is_out_of_scope verdict then "out_of_scope" else "in_scope"

    unfoldable pub classify_query_scope : String → Action (Cached t) String
    classify_query_scope query = do
      config ← get_config t defaults env.initialized false env.now
      pure (
          if config.enforce_scope
          then scope_of (env.classify (scope_prompt config.scope_description) query)
          else "in_scope")

    abbrev pub text_of : Option String → String
    text_of none = ""
    text_of (some text) = env.strip text

    abbrev pub input_of_heard : Heard → Input f
    input_of_heard (heard text) = said text true
    input_of_heard (transcription_error reason) =
        stopped "I couldn't transcribe your voice note. Please try again or send text."
          (error reason)
    input_of_heard broken = raised

    abbrev pub input_of_audio : Option String → Input f
    input_of_audio none = stopped "I couldn't read that voice note." (error "no media id")
    input_of_audio (some id) =
        if id == ""
        then stopped "I couldn't read that voice note." (error "no media id")
        else input_of_heard (env.hear id)

    unfoldable pub input_of : Message → Input f
    input_of m =
        if m.kind == "text"
        then said (text_of m.body) false
        else if m.kind == "audio"
        then input_of_audio m.media_id
        else stopped "I can answer text messages and voice notes. Please send one of those."
            (ignored_type m.kind)

    abbrev pub echoed : Bool → String → String → String
    echoed transcribed user_text reply =
        if transcribed then "🎙\u{fe0f} I heard: \"" +++ user_text +++ "\"\n\n" +++ reply else reply

    abbrev pub with_provenance : String → String → String
    with_provenance text json = text +++ "\n\n<!--PROVENANCE:" +++ json +++ "-->"

    abbrev pub system_alert : String
    system_alert =
        "⚠\u{fe0f} [SYSTEM ALERT] Low confidence detected: context is weak/missing. Celery notification has been triggered. Student was NOT replied to. Please reply manually."

    unfoldable pub persist_reply : String → String → Action Worker (Unit {0})
    persist_reply wa_id text =
        best_effort (on_log (record_outbound c wa_id text "agent" none env.outbound_defaults))

    -- The confidence gate and what follows it.
    unfoldable pub gated_reply :
        String → String → Bool → String → String → Action Worker (TaskResult f)
    gated_reply wa_id user_text transcribed answer context =
        let reply = echoed transcribed user_text answer in
        let chunks = env.retrieved_chunks user_text answer in
        let json = env.debug_json user_text reply chunks context in
        if is_low_confidence f env.min_similarity chunks
        then notify_admin wa_id user_text
          >> persist_reply wa_id (with_provenance system_alert json)
          >> pure (low_confidence_suppressed (max_cosine_similarity f chunks))
        else send_text wa_id reply
          >> persist_reply wa_id (with_provenance reply json)
          >> pure (replied transcribed (count reply))

    -- The turn of the agent, in the one session of the contact.
    unfoldable pub agent_reply : String → String → Bool → Action Worker (TaskResult f)
    agent_reply wa_id user_text transcribed =
        let session_id = "whatsapp:" +++ wa_id in
        on_turn (run_agent_turn R cfg g env.agent user_text session_id (some session_id) env.uuid)
        >>= λ turn. on_memory (get_context_string R cfg session_id) >>= λ context.
            gated_reply wa_id user_text transcribed turn.text context

    unfoldable pub scope_reply : String → String → Bool → Action Worker (TaskResult f)
    scope_reply wa_id user_text transcribed =
        on_settings (get_config t defaults env.initialized false env.now) >>= λ config.
        let reply = echoed transcribed user_text config.out_of_scope_message in
        send_text wa_id reply
        >> persist_reply wa_id reply
        >> pure (out_of_scope_replied (count reply))

    unfoldable pub answer_text : String → Message → String → Bool → Action Worker (TaskResult f)
    answer_text wa_id m user_text transcribed =
        best_effort (
          on_log (
            record_inbound c wa_id user_text m.kind transcribed (some m.id) m.contact_name
              env.inbound_defaults))
        >> on_settings (classify_query_scope user_text)
        >>= λ verdict.
            if verdict == "out_of_scope"
            then scope_reply wa_id user_text transcribed
            else agent_reply wa_id user_text transcribed

    unfoldable pub answer_input : String → Message → Input f → Action Worker (TaskResult f)
    answer_input wa_id m (stopped reply status) = send_text wa_id reply >> pure status
    answer_input wa_id m (said user_text transcribed) =
        if user_text == ""
        then send_text wa_id "Your message was empty — please try again." >> pure ignored_empty
        else answer_text wa_id m user_text transcribed
    answer_input wa_id m raised = raise crash

    unfoldable pub process_whatsapp_message : Message → String → Action Worker (TaskResult f)
    process_whatsapp_message m wa_id =
        when (not (m.id == "")) (mark_read m.id) >> answer_input wa_id m (input_of m)
