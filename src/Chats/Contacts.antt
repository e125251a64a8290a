-- ===== src/Chats/Contacts.antt =====
-- One conversation for each contact, and no message lost (agent/conversation_store.py).
use Prim.Native.String.{String}
use mathlib.Core.Bool.{false≢true}
use text.Mathlib.Text.{◌==◌}
use text.Mathlib.TextEquality.{eq_iff}
use wa_graph_rag_backend.Prelude.{
  ℕ, ◌≡◌, refl, sym, ap, ◌∙◌, inl, inr, Bool, true, false, Option, none, some, List, [], ◌∷◌,
  if◌then◌else◌,
}
use wa_graph_rag_backend.Database.Action.{◌>>◌, pure, maybe}
use wa_graph_rag_backend.Database.Action.Rules.{
  Keeps, >>=-Keeps, read-Keeps, pure-Keeps, if-Keeps, maybe-Keeps, put-Keeps, read_then, put_then,
}
use wa_graph_rag_backend.Chats.{
  Conversation, WaMessage, Log, Chats, Defaults, first_conversation, update_conversations,
  insert_conversations, insert_messages, new_conversation, backfill, ensure_conversation,
  new_unread, touch_conversation, record_inbound, record_outbound, start_conversation, mark_read,
}

-- The operations that write.
pub data Operation : Type 0 where
  inbound : String → String → String → Bool → Option String → Option String → Defaults → Operation
  outbound : String → String → String → Option String → Defaults → Operation
  start : String → Option String → Defaults → Operation
  read_by_admin : String → Operation

module _ (c : Log) where
  -- Two rows of `wa_conversations` with one `wa_id` have one id.
  abbrev pub HasOnce : c.conversations.Store → Type 0
  HasOnce s =
      (x y : Conversation)
      → c.conversations.Has s x
      → c.conversations.Has s y
      → x.wa_id ≡ y.wa_id
      → x.id ≡ y.id

  -- What every operation keeps.
  pub record Grows (d e : Chats c) : Type 0 where
    pub contacts : HasOnce d.conversations → HasOnce e.conversations
    pub messages : (m : WaMessage) → c.messages.Has d.messages m → c.messages.Has e.messages m

  Grows-refl : (d : Chats c) → Grows d d
  Grows-refl d = record { contacts = λ h. h; messages = λ m h. h }

  Grows-trans : (d e f : Chats c) → Grows d e → Grows e f → Grows d f
  Grows-trans d e f h k = record {
    contacts = λ once. k.contacts (h.contacts once);
    messages = λ m has. k.messages m (h.messages m has);
  }

  patched_key :
      (f : Conversation → Conversation) (g : Conversation → String)
      → ((r : Conversation) → g (f r) ≡ g r)
      → (b : Bool) (x y : Conversation) → x ≡ (if b then f y else y)
      → g x ≡ g y
  patched_key f g keep true x y e = ap g e ∙ keep y
  patched_key f g keep false x y e = ap g e

  update-Grows :
      (p : Conversation → Bool) (f : Conversation → Conversation)
      → ((r : Conversation) → (f r).id ≡ r.id)
      → ((r : Conversation) → (f r).wa_id ≡ r.wa_id)
      → Keeps Grows (update_conversations c p f)
  unfolding update_conversations
  update-Grows p f id wa_id = put-Keeps Grows Grows-refl _ _ λ d t done. record {
    contacts = λ once x y hx hy e.
        let (u, hu, eu) = (c.conversations.update_rows p f _ _ done x).0 hx in
        let (v, hv, ev) = (c.conversations.update_rows p f _ _ done y).0 hy in
        patched_key f (λ r. r.id) id (p u) x u eu
        ∙ once u v hu hv (
            sym (patched_key f (λ r. r.wa_id) wa_id (p u) x u eu)
            ∙ e
            ∙ patched_key f (λ r. r.wa_id) wa_id (p v) y v ev)
        ∙ sym (patched_key f (λ r. r.id) id (p v) y v ev);
    messages = λ m h. h;
  }

  insert_messages-Grows : (r : WaMessage) → Keeps Grows (insert_messages c r)
  unfolding insert_messages
  insert_messages-Grows r = put-Keeps Grows Grows-refl _ _ λ d t done. record {
    contacts = λ once. once;
    messages = λ m h. (c.messages.insert_rows _ _ _ done m).1 (inr h);
  }

  ruleset keeps = (
    >>=-Keeps, read-Keeps, pure-Keeps, if-Keeps, maybe-Keeps, Grows-refl, Grows-trans,
    insert_messages-Grows,
  )

  backfill-Grows : (row : Conversation) (name : Option String) → Keeps Grows (backfill c row name)
  unfolding backfill first_conversation
  backfill-Grows row name = search (keeps, update-Grows) depth 20

  -- A contact without a conversation gets one.
  first_contact :
      (wa_id : String) (r : Conversation) (d : Chats c) (t : c.conversations.Store)
      → r.wa_id ≡ wa_id
      → c.conversations.select (λ x. x.wa_id == wa_id) d.conversations ≡ some none
      → c.conversations.insert r d.conversations ≡ some t
      → Grows d (record d { conversations = t })
  first_contact wa_id r d t is_id sel done =
      let new =
        λ (x : Conversation) (h : c.conversations.Has d.conversations x) (e : x.wa_id ≡ r.wa_id).
          false≢true (sym (c.conversations.select_none _ _ sel x h) ∙ (eq_iff _ _).1 (e ∙ is_id)) in
      record {
        contacts = λ once x y hx hy e. elim ((c.conversations.insert_rows _ _ _ done x).0 hx) [
          | inl is_x ↦ elim ((c.conversations.insert_rows _ _ _ done y).0 hy) [
            | inl is_y ↦ ap (λ z. z.id) (is_x ∙ sym is_y)
            | inr old ↦ absurd (new y old (sym e ∙ ap (λ z. z.wa_id) is_x))
          ]
          | inr old ↦ elim ((c.conversations.insert_rows _ _ _ done y).0 hy) [
            | inl is_y ↦ absurd (new x old (e ∙ ap (λ z. z.wa_id) is_y))
            | inr old_y ↦ once x y old old_y e
          ]
        ];
        messages = λ m h. h;
      }

  found_or_new :
      (wa_id : String) (name : Option String) (defaults : Defaults) (d : Chats c)
      (found : Option Conversation)
      → c.conversations.select (λ x. x.wa_id == wa_id) d.conversations ≡ some found
      → Grows d
          (maybe found
            (insert_conversations c (new_conversation c wa_id name defaults)
              >> pure (new_conversation c wa_id name defaults))
            (λ row. backfill c row name)
            d).1
  unfolding insert_conversations pure
  found_or_new wa_id name defaults d none sel =
      put_then (Grows d) _ (Grows-refl d) _ _
        (λ t done. first_contact wa_id (new_conversation c wa_id name defaults) d t refl sel done)
  found_or_new wa_id name defaults d (some row) sel = backfill-Grows row name d

  ensure-Grows :
      (wa_id : String) (name : Option String) (defaults : Defaults)
      → Keeps Grows (ensure_conversation c wa_id name defaults)
  unfolding ensure_conversation first_conversation
  ensure-Grows wa_id name defaults d =
      read_then (Grows d) _ (Grows-refl d) _
        (λ found sel. found_or_new wa_id name defaults d found sel)

  touch-Grows :
      (id preview direction at : String) (inc : ℕ) (reset : Bool)
      → Keeps Grows (touch_conversation c id preview direction at inc reset)
  unfolding touch_conversation new_unread first_conversation
  touch-Grows id preview direction at inc reset = search (keeps, update-Grows) depth 20

  inbound-Grows :
      (wa_id content kind : String) (transcribed : Bool) (wa_message_id name : Option String)
      (defaults : Defaults)
      → Keeps Grows (record_inbound c wa_id content kind transcribed wa_message_id name defaults)
  unfolding record_inbound
  inbound-Grows wa_id content kind transcribed wa_message_id name defaults =
      search (keeps, ensure-Grows, touch-Grows) depth 30

  outbound-Grows :
      (wa_id content sender : String) (wa_message_id : Option String) (defaults : Defaults)
      → Keeps Grows (record_outbound c wa_id content sender wa_message_id defaults)
  unfolding record_outbound
  outbound-Grows wa_id content sender wa_message_id defaults =
      search (keeps, ensure-Grows, touch-Grows) depth 30

  -- The database after an operation, however it ends.
  unfoldable pub run : Operation → Chats c → Chats c
  run (Operation.inbound wa_id content kind transcribed wa_message_id name defaults) db =
      (record_inbound c wa_id content kind transcribed wa_message_id name defaults db).1
  run (Operation.outbound wa_id content sender wa_message_id defaults) db =
      (record_outbound c wa_id content sender wa_message_id defaults db).1
  run (Operation.start wa_id name defaults) db = (start_conversation c wa_id name defaults db).1
  run (Operation.read_by_admin wa_id) db = (mark_read c wa_id db).1

  unfoldable pub run_all : List Operation → Chats c → Chats c
  run_all [] db = db
  run_all (op ∷ ops) db = run_all ops (run op db)

  run-Grows : (op : Operation) (d : Chats c) → Grows d (run op d)
  unfolding run start_conversation mark_read
  run-Grows (Operation.inbound wa_id content kind transcribed wa_message_id name defaults) d =
      inbound-Grows wa_id content kind transcribed wa_message_id name defaults d
  run-Grows (Operation.outbound wa_id content sender wa_message_id defaults) d =
      outbound-Grows wa_id content sender wa_message_id defaults d
  run-Grows (Operation.start wa_id name defaults) d = ensure-Grows wa_id name defaults d
  run-Grows (Operation.read_by_admin wa_id) d = update-Grows _ _ (λ r. refl) (λ r. refl) d

  -- Through every sequence of operations on the log, each run to its end or to an exception of the
  -- client: if no contact has conversations with two ids before, none has afterwards, and every
  -- message that was stored is stored still.
  pub run_all-HasOnce :
      (ops : List Operation) (db : Chats c)
      → HasOnce db.conversations
      → HasOnce (run_all ops db).conversations
        × ((m : WaMessage)
            → c.messages.Has db.messages m
            → c.messages.Has (run_all ops db).messages m)
  unfolding run_all
  run_all-HasOnce [] db h = (h, λ m k. k)
  run_all-HasOnce (op ∷ ops) db h =
      let step = run-Grows op db in
      let (once, kept) = run_all-HasOnce ops (run op db) (step.contacts h) in
      (once, λ m k. kept m (step.messages m k))
