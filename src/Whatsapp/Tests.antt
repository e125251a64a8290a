-- ===== src/Whatsapp/Tests.antt =====
-- The webhook and the task on small messages, and the theorems at inputs of such runs.
use Prim.Native.String.{String}
use package.text.Mathlib.Text.{◌==◌}
use wa_graph_rag_backend.Prelude.{ℕ, ltb, ◌≡◌, ◌⊎◌, refl, true, false, Option, none, some, [], ◌∷◌}
use wa_graph_rag_backend.Database.InMemory.{in_memory}
use wa_graph_rag_backend.Database.Action.{ok, err, crash, running}
use wa_graph_rag_backend.Chats.{Conversation, WaMessage, Log, Defaults}
use wa_graph_rag_backend.Memory.Sample.{small_redis, one_turn, new_manager}
use wa_graph_rag_backend.Agent.{Guards}
use wa_graph_rag_backend.AgentSettings.{AgentConfig, SettingsRow, SettingsTable}
use wa_graph_rag_backend.Whatsapp.{
  WhatsAppClient, Message, Payload, shaped, misshapen, is_ascii, forbidden, verify_signature,
  receive_webhook, signature_of,
}
use wa_graph_rag_backend.Whatsapp.Intake.{answered, receive_webhook_lem}
use wa_graph_rag_backend.Whatsapp.Task.{sent_well, Floats, heard, TaskEnv, Worker}

abbrev client : WhatsAppClient
client = record {
  access_token = "token";
  phone_number_id = "1";
  app_secret = "secret";
  verify_token = "verify";
}

abbrev message : Message
message = record {
  id = "m1";
  kind = "image";
  sender = some "92300";
  body = none;
  media_id = none;
  contact_name = none;
}

abbrev payload : Payload
payload = shaped (
    shaped (
      shaped (record {
        messages =
            shaped (shaped message ∷ shaped (record message { sender = none }) ∷ misshapen ∷ []);
        contacts = shaped [];
      })
      ∷ [])
    ∷ [])

-- A sign that is the key; a body is read as the one payload.
abbrev hmac : String → String → String
hmac secret body = secret

abbrev json : String → Option Payload
json body = some payload

abbrev good : Option String
good = some "sha256=secret"

webhook_runs :
    (receive_webhook (λ q. true) hmac json client "body" (some "sha256=guess") []
      ≡ (ok forbidden, []))
    × (receive_webhook (λ q. true) hmac json client "body" (some "sha256=é") [] ≡ (err crash, []))
    × (signature_of hmac good ≡ some "secret")
unfolding receive_webhook verify_signature running
webhook_runs = (refl, refl, refl)

-- The third message of the payload is no object: the job of the first one is queued, and the answer
-- is an error.
webhook_misshapen :
    answered (some payload) []
    ≡ (err crash, record { message = message; contact_wa_id = "92300" } ∷ [])
webhook_misshapen = refl

receive_webhook_lem_example :
    ((signature_of hmac good ≡ some "secret")
      × (receive_webhook (λ q. true) hmac json client "body" good [] ≡ answered (some payload) []))
    ⊎ ((d : String) × (signature_of hmac good ≡ some d)
        × (is_ascii d ≡ false)
        × (receive_webhook (λ q. true) hmac json client "body" good [] ≡ (err crash, [])))
    ⊎ ((signature_of hmac good ≡ some "secret" → ⊥)
        × ((d : String) → signature_of hmac good ≡ some d → is_ascii d ≡ true)
        × (receive_webhook (λ q. true) hmac json client "body" good [] ≡ (ok forbidden, [])))
receive_webhook_lem_example =
    receive_webhook_lem (λ q. true) (λ q. refl) hmac json client "body" good [] refl refl

abbrev log : Log
log = record {
  conversations = in_memory Conversation;
  messages = in_memory WaMessage;
  page_conversations = λ text first last rows. some rows;
  page_messages = λ wa_id after limit rows. some rows;
}

abbrev row_defaults : Defaults
row_defaults = record {
  conversation_id = "c1";
  unread_count = some 0;
  message_id = "m1";
  transcribed = false;
  created_at = "2025-01-01";
}

abbrev guards : Guards
guards = record {
  guardrails_enabled = true;
  enforce_roman_urdu = false;
  min_input_chars = 1;
  max_input_chars = 20;
  strip = λ text. text;
  splitlines = λ text. text ∷ [];
  injection_search = λ text. false;
  abuse_search = λ text. false;
  leak_search = λ text. false;
  devanagari_search = λ text. false;
  drop_markers = λ text. text;
  pii_subs = [];
  transliterate = λ text. none;
}

abbrev one_row : SettingsTable
one_row = record {
  Store = Option SettingsRow;
  select = λ s. some s;
  upsert = λ row s. some (some row);
}

abbrev built_in : AgentConfig
built_in = record {
  assistant_name = "Uchenab Assistant";
  system_prompt = "prompt";
  scope_description = "university";
  enforce_scope = true;
  out_of_scope_message = "Maazrat";
}

-- Similarities in hundredths.
abbrev floats : Floats
floats = record { Number = ℕ; nought = 0; below = ltb }

-- A question about fees finds a good chunk, any other one a weak chunk.
abbrev env : TaskEnv floats
env = record {
  client = client;
  delivers = λ to body mail. sent_well;
  queues = λ wa_id query mail. sent_well;
  strip = λ text. text;
  hear = λ id. heard "fees?";
  classify = λ prompt query. some "IN_SCOPE";
  is_out_of_scope = λ verdict. verdict == "OUT_OF_SCOPE";
  agent = λ prompt. some "Answer";
  retrieved_chunks = λ query reply.
      (record { chunk_id = "k"; content = "text"; vector_similarity = if_fees query }) ∷ [];
  debug_json = λ query reply chunks context. "{}";
  min_similarity = 45;
  uuid = "u";
  inbound_defaults = row_defaults;
  outbound_defaults = row_defaults;
  initialized = true;
  now = 0;
}
  where
    if_fees : String → ℕ
    if_fees query = elim (query == "fees?") [ true ↦ 80 | false ↦ 10 ]

abbrev worker : Worker floats log small_redis one_turn guards one_row built_in
worker = record {
  mail = record { sent = []; alerts = [] };
  log = record { conversations = []; messages = [] };
  memory = new_manager;
  prompts = [];
  settings = record { cache = none; cache_at = 0; rows = none };
}

abbrev fees : Message
fees = record message { kind = "audio"; media_id = some "v1" }
