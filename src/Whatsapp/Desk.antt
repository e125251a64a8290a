-- ===== src/Whatsapp/Desk.antt =====
-- agent/conversations_router.py: the screen on which the staff reads the conversations and writes to a
-- contact. The caller has passed `get_current_active_user`.
use Prim.Native.String.{String, count}
use package.text.Mathlib.Text.{◌==◌}
use wa_graph_rag_backend.Prelude.{
  ℕ, ltb, Bool, false, not, ◌&&◌, ◌||◌, Option, none, some, List, [], ◌∷◌, ◌++◌, map, length,
  if◌then◌else◌,
}
use wa_graph_rag_backend.Prelude.Text.{◌+++◌}
use wa_graph_rag_backend.Database.Action.{
  Action, ok, err, http, unprocessable, ◌>>=◌, ◌>>◌, pure, raise_if, or_raise, when,
}
use wa_graph_rag_backend.Chats.{
  Conversation, WaMessage, Log, Chats, Defaults, given, list_conversations, start_conversation,
  get_conversation, get_messages, mark_read, record_outbound,
}

-- What `send_text` answers: the id of the message if the answer holds one, a WhatsAppConfigError, or
-- another exception.
pub data Delivery : Type 0 where
  delivered : Option String → Delivery
  not_configured : String → Delivery
  refused : String → Delivery

-- `re.sub(r"\D", "", ·)`, the pattern of WhatsApp ids, `str.split`, `str.strip`, `json.loads` to a
-- text that stands for the value, and the Cloud API behind the texts that went out.
pub record DeskTools : Type 0 where
  pub digits : String → String
  pub is_wa_id : String → Bool
  pub split : String → String → List String
  pub strip : String → String
  pub loads : String → Option String
  pub send_text : String → String → List (String × String) → Delivery

pub record ConversationPage : Type 0 where
  pub conversations : List Conversation
  pub limit : ℕ
  pub offset : ℕ
  pub count : ℕ

-- A message as it is shown, with its metadata, none for an empty dictionary.
pub record ShownMessage : Type 0 where
  pub message : WaMessage
  pub metadata : Option String

pub record Transcript : Type 0 where
  pub conversation : Conversation
  pub messages : List ShownMessage
  pub count : ℕ

module _ (c : Log) (tools : DeskTools) where
  pub record Desk : Type 0 where
    pub log : Chats c
    pub sent : List (String × String)

  abbrev on_log : {A : Type 0} → Action (Chats c) A → Action Desk A
  on_log m d = let r = m d.log in (r.0, record d { log = r.1 })

  unfoldable pub normalize_wa_id : String → Action Desk String
  normalize_wa_id raw =
      raise_if (not (tools.is_wa_id (tools.digits raw)))
        (http 400 "Invalid WhatsApp number (use digits, country code first).")
      >> pure (tools.digits raw)

  unfoldable pub list_conversations_endpoint : ℕ → ℕ → Option String → Action Desk ConversationPage
  list_conversations_endpoint limit offset search =
      on_log (list_conversations c limit offset search) >>= λ convos.
      pure
        (record { conversations = convos; limit = limit; offset = offset; count = length convos })

  -- A name of more than 120 characters, which the request's model refuses.
  abbrev pub is_long : Option String → Bool
  is_long none = false
  is_long (some name) = ltb 120 (count name)

  unfoldable pub start_conversation_endpoint :
      String → Option String → Defaults → Action Desk Conversation
  start_conversation_endpoint raw contact_name defaults =
      raise_if (is_long contact_name) unprocessable >> normalize_wa_id raw >>= λ wa_id.
      on_log (start_conversation c wa_id contact_name defaults)

  -- `parts[1].split("-->")[0].strip()`
  abbrev pub first_of : List String → String
  first_of [] = ""
  first_of (x ∷ xs) = x

  -- The parts of a content at the marker: one part, if the marker is not in it.
  abbrev pub without_tag : WaMessage → List String → ShownMessage
  without_tag m [] = record { message = m; metadata = none }
  without_tag m (a ∷ []) = record { message = m; metadata = none }
  without_tag m (a ∷ b ∷ parts) = record {
    message = record m { content = tools.strip a };
    metadata = tools.loads (tools.strip (first_of (tools.split b "-->")));
  }

  unfoldable pub shown : WaMessage → ShownMessage
  shown m =
      if m.direction == "outbound"
      then without_tag m (tools.split m.content "<!--PROVENANCE:")
      else record { message = m; metadata = none }

  unfoldable pub get_messages_endpoint : String → ℕ → Option String → Bool → Action Desk Transcript
  get_messages_endpoint wa_id limit after marks = on_log (get_conversation c wa_id) >>= λ found.
      or_raise found (http 404 "Conversation not found") >>= λ conv.
      on_log (get_messages c wa_id limit after) >>= λ messages.
      when (marks && not (given after)) (on_log (mark_read c wa_id))
      >> pure
          (record { conversation = conv; messages = map shown messages; count = length messages })

  abbrev pub deliver : Delivery → String → String → Action Desk (Option String)
  deliver (delivered id) to body d = (ok id, record d { sent = d.sent ++ ((to, body) ∷ []) })
  deliver (not_configured text) to body d =
      (err (http 503 ("WhatsApp not configured: " +++ text)), d)
  deliver (refused text) to body d = (err (http 502 ("WhatsApp send failed: " +++ text)), d)

  unfoldable pub send_message_endpoint :
      String → String → Defaults → Defaults → Action Desk WaMessage
  send_message_endpoint raw content defaults message_defaults =
      raise_if (ltb (count content) 1 || ltb 4096 (count content)) unprocessable
      >> normalize_wa_id raw
      >>= λ wa_id.
          on_log (start_conversation c wa_id none defaults)
          >> (λ d. deliver (tools.send_text wa_id content d.sent) wa_id content d)
          >>= λ wa_message_id.
              on_log (record_outbound c wa_id content "admin" wa_message_id message_defaults)

  unfoldable pub mark_read_endpoint : String → Action Desk (Unit {0})
  mark_read_endpoint wa_id = on_log (mark_read c wa_id)
