-- ===== src/Chats.antt =====
-- agent/conversation_store.py: the log of the WhatsApp conversations. Each function is an `Action` on
-- the two tables; a raise is an exception of the Supabase client.
pub mod Preview
pub mod Contacts
mod Tests
use Prim.Native.String.{String}
use text.Mathlib.Text.{◌==◌}
use mathlib.Core.Option
use wa_graph_rag_backend.Prelude.{
  ℕ, ◌+◌, ltb, Bool, true, false, not, ◌&&◌, Option, none, some, is_some, List, if◌then◌else◌, ◌≡◌,
  Memᴰ,
}
use wa_graph_rag_backend.Prelude.Int.{ℤ, pos, ◌-ℤ◌}
use wa_graph_rag_backend.Chats.Preview.{first_chars}
use wa_graph_rag_backend.Database.{Table}
use wa_graph_rag_backend.Database.Action.{Action, ◌>>=◌, ◌>>◌, pure, read, write, maybe}

-- A row of `wa_conversations`.
pub record Conversation : Type 0 where
  pub id : String
  pub wa_id : String
  pub contact_name : Option String
  pub channel : String
  pub last_message_preview : Option String
  pub last_direction : Option String
  pub last_message_at : Option String
  pub updated_at : Option String
  pub unread_count : Option ℕ

-- A row of `wa_messages`.
pub record WaMessage : Type 0 where
  pub id : String
  pub conversation_id : String
  pub wa_id : String
  pub direction : String
  pub sender : String
  pub message_type : String
  pub content : String
  pub transcribed : Bool
  pub wa_message_id : Option String
  pub created_at : String

-- The two tables, and the ordered queries on them: the conversations that match a search text, if
-- there is one, from the latest to the earliest; and a contact's messages, after a time if one is
-- given, in the order of their creation.
pub record Log : Type 1 where
  pub conversations : Table Conversation
  pub messages : Table WaMessage
  pub page_conversations : Option String → ℕ → ℤ → conversations.Store → Option (List Conversation)
  pub page_messages : String → Option String → ℕ → messages.Store → Option (List WaMessage)

pub record Chats (c : Log) : Type 0 where
  pub conversations : c.conversations.Store
  pub messages : c.messages.Store

-- The values that the database gives to the columns which an insert leaves out.
pub record Defaults : Type 0 where
  pub conversation_id : String
  pub unread_count : Option ℕ
  pub message_id : String
  pub transcribed : Bool
  pub created_at : String

-- The truth value of an optional text.
abbrev pub given : Option String → Bool
given none = false
given (some text) = not (text == "")

-- `count or 0`, for a row that may be missing and a column that may be null.
abbrev pub current_count : Option Conversation → ℕ
current_count none = 0
current_count (some conv) = count_or conv.unread_count
  where
    count_or : Option ℕ → ℕ
    count_or none = 0
    count_or (some n) = n

-- The entry `unread_count` of a patch: none, or the new value.
abbrev pub counted : Option ℕ → Option ℕ → Option ℕ
counted none old = old
counted (some n) old = some n

module _ (c : Log) where
  unfoldable pub first_conversation : (Conversation → Bool) → Action (Chats c) (Option Conversation)
  first_conversation p = read (λ db. c.conversations.select p db.conversations)

  unfoldable pub update_conversations :
      (Conversation → Bool) → (Conversation → Conversation) → Action (Chats c) (Unit {0})
  update_conversations p f = write (λ db.
      Option.map (λ t. record db { conversations = t })
        (c.conversations.update p f db.conversations))

  unfoldable pub insert_conversations : Conversation → Action (Chats c) (Unit {0})
  insert_conversations r = write (λ db.
      Option.map (λ t. record db { conversations = t }) (c.conversations.insert r db.conversations))

  unfoldable pub insert_messages : WaMessage → Action (Chats c) (Unit {0})
  insert_messages r =
      write (λ db. Option.map (λ t. record db { messages = t }) (c.messages.insert r db.messages))

  abbrev pub new_conversation : String → Option String → Defaults → Conversation
  new_conversation wa_id contact_name defaults = record {
    id = defaults.conversation_id;
    wa_id = wa_id;
    contact_name = contact_name;
    channel = "whatsapp";
    last_message_preview = none;
    last_direction = none;
    last_message_at = none;
    updated_at = none;
    unread_count = defaults.unread_count;
  }

  -- The backfill of a contact's name. The answer of the update has the rows that it changed, which
  -- are those that pass its filter afterwards, since it leaves the column `id` alone.
  unfoldable pub backfill : Conversation → Option String → Action (Chats c) Conversation
  backfill row contact_name =
      if given contact_name && not (given row.contact_name)
      then (do
        update_conversations (λ r. r.id == row.id) (λ r. record r { contact_name = contact_name })
        changed ← first_conversation (λ r. r.id == row.id)
        maybe changed (pure row) pure)
      else pure row

  unfoldable pub ensure_conversation :
      String → Option String → Defaults → Action (Chats c) Conversation
  ensure_conversation wa_id contact_name defaults = do
    found ← first_conversation (λ r. r.wa_id == wa_id)
    maybe found
        (insert_conversations (new_conversation wa_id contact_name defaults)
          >> pure (new_conversation wa_id contact_name defaults))
        (λ row. backfill row contact_name)

  -- The new value of `unread_count`, if the patch has one.
  unfoldable pub new_unread : String → ℕ → Bool → Action (Chats c) (Option ℕ)
  new_unread conversation_id inc_unread reset_unread =
      if reset_unread
      then pure (some 0)
      else if ltb 0 inc_unread
      then (do
        found ← first_conversation (λ r. r.id == conversation_id)
        pure (some (current_count found + inc_unread)))
      else pure none

  unfoldable pub touch_conversation :
      String → String → String → String → ℕ → Bool → Action (Chats c) (Unit {0})
  touch_conversation conversation_id preview direction created_at inc_unread reset_unread = do
    unread ← new_unread conversation_id inc_unread reset_unread
    update_conversations (λ r. r.id == conversation_id)
        (λ r. record r {
          last_message_preview = some (first_chars 120 preview);
          last_direction = some direction;
          last_message_at = some created_at;
          updated_at = some created_at;
          unread_count = counted unread r.unread_count;
        })

  unfoldable pub record_inbound :
      String
      → String
      → String
      → Bool
      → Option String
      → Option String
      → Defaults
      → Action (Chats c) WaMessage
  record_inbound wa_id content message_type transcribed wa_message_id contact_name defaults = do
    conv ← ensure_conversation wa_id contact_name defaults
    let msg : WaMessage = record {
      id = defaults.message_id;
      conversation_id = conv.id;
      wa_id = wa_id;
      direction = "inbound";
      sender = "user";
      message_type = message_type;
      content = content;
      transcribed = transcribed;
      wa_message_id = wa_message_id;
      created_at = defaults.created_at;
    }
    insert_messages msg
    touch_conversation conv.id content "inbound" msg.created_at 1 false
    pure msg

  unfoldable pub record_outbound :
      String → String → String → Option String → Defaults → Action (Chats c) WaMessage
  record_outbound wa_id content sender wa_message_id defaults = do
    conv ← ensure_conversation wa_id none defaults
    let msg : WaMessage = record {
      id = defaults.message_id;
      conversation_id = conv.id;
      wa_id = wa_id;
      direction = "outbound";
      sender = sender;
      message_type = "text";
      content = content;
      transcribed = defaults.transcribed;
      wa_message_id = wa_message_id;
      created_at = defaults.created_at;
    }
    insert_messages msg
    touch_conversation conv.id content "outbound" msg.created_at 0 (sender == "admin")
    pure msg

  unfoldable pub start_conversation :
      String → Option String → Defaults → Action (Chats c) Conversation
  start_conversation wa_id contact_name defaults = ensure_conversation wa_id contact_name defaults

  unfoldable pub list_conversations : ℕ → ℕ → Option String → Action (Chats c) (List Conversation)
  list_conversations limit offset search_text = read (λ db.
      c.page_conversations (if given search_text then search_text else none) offset
        (pos (offset + limit) -ℤ pos 1) db.conversations)

  unfoldable pub get_conversation : String → Action (Chats c) (Option Conversation)
  get_conversation wa_id = first_conversation (λ r. r.wa_id == wa_id)

  unfoldable pub get_messages : String → ℕ → Option String → Action (Chats c) (List WaMessage)
  get_messages wa_id limit after =
      read (λ db. c.page_messages wa_id (if given after then after else none) limit db.messages)

  unfoldable pub mark_read : String → Action (Chats c) (Unit {0})
  mark_read wa_id =
      update_conversations (λ r. r.wa_id == wa_id) (λ r. record r { unread_count = some 0 })
