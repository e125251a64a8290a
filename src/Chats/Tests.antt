-- ===== src/Chats/Tests.antt =====
-- Runs of the conversation log on tables in memory, and its theorem at such a run.
use mathlib.Core.List.Memᴰ
use wa_graph_rag_backend.Prelude.{◌≡◌, refl, false, none, some, List, [], ◌∷◌, Memᴰ}
use wa_graph_rag_backend.Database.InMemory.{in_memory}
use wa_graph_rag_backend.Database.Action.{running}
use wa_graph_rag_backend.Chats.{
  Conversation, WaMessage, Log, Chats, Defaults, first_conversation, update_conversations,
  insert_conversations, insert_messages, backfill, ensure_conversation, new_unread,
  touch_conversation, record_inbound, record_outbound, start_conversation, mark_read,
}
use wa_graph_rag_backend.Chats.Contacts.{Operation, inbound, HasOnce, run, run_all, run_all-HasOnce}

logging : Unit {0}
unfolding running first_conversation update_conversations insert_conversations insert_messages
    backfill ensure_conversation new_unread touch_conversation record_inbound record_outbound
    start_conversation mark_read run run_all
logging = tt

abbrev small_log : Log
small_log = record {
  conversations = in_memory Conversation;
  messages = in_memory WaMessage;
  page_conversations = λ text first last rows. some rows;
  page_messages = λ wa_id after limit rows. some rows;
}

abbrev first_defaults : Defaults
first_defaults = record {
  conversation_id = "c1";
  unread_count = some 0;
  message_id = "m1";
  transcribed = false;
  created_at = "2025-01-01";
}

abbrev next_defaults : Defaults
next_defaults = record first_defaults { conversation_id = "c2"; message_id = "m2" }

abbrev talk : List Operation
talk =
    inbound "92300" "Salam" "text" false none none first_defaults
    ∷ inbound "92300" "Fees?" "text" false none (some "Ali") next_defaults
    ∷ []

abbrev empty_log : Chats small_log
empty_log = record { conversations = []; messages = [] }

talk_runs :
    (run_all small_log talk empty_log).conversations
    ≡ record {
      id = "c1";
      wa_id = "92300";
      contact_name = some "Ali";
      channel = "whatsapp";
      last_message_preview = some "Fees?";
      last_direction = some "inbound";
      last_message_at = some "2025-01-01";
      updated_at = some "2025-01-01";
      unread_count = some 2;
    }
      ∷ []
unfolding logging
talk_runs = refl

abbrev after_talk : Chats small_log
after_talk = run_all small_log talk empty_log

run_all-HasOnce_example :
    HasOnce small_log (run_all small_log talk empty_log).conversations
    × ((m : WaMessage) → Memᴰ m [] → Memᴰ m (run_all small_log talk empty_log).messages)
run_all-HasOnce_example =
    run_all-HasOnce small_log talk empty_log (λ x y h k e. absurd (Memᴰ.not-nil h))
