-- ===== src/Memory.antt =====
-- agent/session_memory.py: the sliding window of each session's messages, in Redis or, where that is
-- not reachable, in the process. An operation is an `Action` on the manager, its process's
-- dictionary and the Redis server; a raise is an exception of the Redis client.
pub mod LastItems
pub mod Window
pub mod Turns
pub mod Sample
mod Tests
use Prim.Native.String.{String}
use text.Mathlib.Text.{◌==◌}
use wa_graph_rag_backend.Prelude.{
  ℕ, zero, suc, ◌*◌, ◌-◌, ◌/◌, ◌<◌, ltb, ◌≡◌, ◌≢◌, Bool, true, false, not, Option, none, some,
  is_some, List, [], ◌∷◌, ◌++◌, length, drop, if◌then◌else◌,
}
use wa_graph_rag_backend.Prelude.Int.{ℤ, pos, negsuc, ◌-ℤ◌}
use wa_graph_rag_backend.Prelude.Text.{join, ◌+++◌}
use wa_graph_rag_backend.Database.Action.{Action, ◌>>=◌, ◌>>◌, ok, pure, read, write, answer}

-- LangChain's HumanMessage and AIMessage.
pub data Message : Type 0 where
  human : String → Message
  ai : String → Message

-- `{"role": role, "content": content}`
pub record Entry : Type 0 where
  pub role : Option String
  pub content : Option String

-- What `json.loads` gives for an item of a list: an object, another JSON value, which has no `get`,
-- or a ValueError.
pub data Loaded : Type 0 where
  entry : Entry → Loaded
  no_object : Loaded
  value_error : Loaded

-- `xs[-n:]`, which is the whole list for n = 0.
abbrev pub last_items : {A : Type 0} → ℕ → List A → List A
last_items zero xs = xs
last_items (suc n) xs = drop (length xs - suc n) xs

-- The Redis server and the JSON codec. The commands of a pipeline are sent together: they are
-- applied together, or the execution raises and none is.
pub record Redis : Type 1 where
  pub Server : Type 0
  -- The items of a list: the JSON texts.
  pub Item : Type 0
  -- The server answers.
  pub up : Server → Bool
  -- The list that is stored at a key; an absent key is the empty list.
  pub content : Server → String → List Item
  pub rpush : String → Item → Server → Server
  pub ltrim : String → ℤ → ℤ → Server → Server
  pub expire : String → ℕ → Server → Server
  pub delete : String → Server → Server
  pub dumps : Entry → Item
  pub loads : Item → Loaded
  pub content-rpush :
      (k : String) (v : Item) (s : Server) → content (rpush k v s) k ≡ content s k ++ (v ∷ [])
  pub content-rpush_other :
      (k j : String) (v : Item) (s : Server) → j ≢ k → content (rpush k v s) j ≡ content s j
  pub content-ltrim :
      (k : String) (n : ℕ) (s : Server)
      → content (ltrim k (pos 0 -ℤ pos n) (negsuc 0) s) k ≡ last_items n (content s k)
  pub content-ltrim_other :
      (k j : String) (a b : ℤ) (s : Server) → j ≢ k → content (ltrim k a b s) j ≡ content s j
  -- A key that has just been given a lifetime is still there; a lifetime of 0 deletes it.
  pub content-expire :
      (k : String) (t : ℕ) (s : Server) → 0 < t → content (expire k t s) k ≡ content s k
  pub content-expire_zero : (k : String) (s : Server) → content (expire k 0 s) k ≡ []
  pub content-expire_other :
      (k j : String) (t : ℕ) (s : Server) → j ≢ k → content (expire k t s) j ≡ content s j
  pub content-delete : (k : String) (s : Server) → content (delete k s) k ≡ []
  pub content-delete_other :
      (k j : String) (s : Server) → j ≢ k → content (delete k s) j ≡ content s j
  pub loads-dumps : (e : Entry) → loads (dumps e) ≡ entry e

-- The settings that `__init__` reads.
pub record Settings : Type 0 where
  pub window_size : ℕ
  pub ttl : ℕ
  pub prefix : String

pub data Backend : Type 0 where
  redis : Backend
  memory : Backend

-- `_backend`, `_redis_checked`, `_redis is not None`, `_histories`, and the server beside them.
pub record Manager (R : Redis) : Type 0 where
  pub backend : Backend
  pub redis_checked : Bool
  pub connected : Bool
  pub histories : String → Option (List Message)
  pub server : R.Server

abbrev pub with_history :
    (String → Option (List Message))
    → String
    → Option (List Message)
    → String
    → Option (List Message)
with_history histories sid h other = if other == sid then h else histories other

abbrev pub or_empty : Option (List Message) → List Message
or_empty none = []
or_empty (some h) = h

abbrev pub is_user : Option String → Bool
is_user none = false
is_user (some role) = role == "user"

abbrev pub text_or : Option String → String
text_or none = ""
text_or (some text) = text

abbrev pub branch : {D A : Type 0} → Bool → Action D A → Action D A → Action D A
branch true m n = m
branch false m n = n

abbrev pub to_message : Entry → Message
to_message e = if is_user e.role then human (text_or e.content) else ai (text_or e.content)

abbrev pub line : Message → String
line (human text) = "User: " +++ text
line (ai text) = "Assistant: " +++ text

abbrev pub lines_of : List Message → List String
lines_of [] = []
lines_of (m ∷ ms) = line m ∷ lines_of ms

pub record SessionInfo : Type 0 where
  pub session_id : String
  pub turn_count : ℕ
  pub message_count : ℕ
  pub window_size : ℕ
  pub backend : Backend

module _ (R : Redis) (cfg : Settings) where
  abbrev pub decoded : Loaded → Option (List Message) → Option (List Message)
  decoded (entry e) none = none
  decoded (entry e) (some rest) = some (to_message e ∷ rest)
  decoded no_object rest = none
  decoded value_error rest = rest

  -- The loop of `get_messages`, which leaves out what is not JSON; `none` is an AttributeError.
  abbrev pub decode : List R.Item → Option (List Message)
  decode [] = some []
  decode (raw ∷ raws) = decoded (R.loads raw) (decode raws)

  abbrev pub key : String → String
  key sid = cfg.prefix +++ sid

  -- What `_client` does to the manager when it asks the server for the first time.
  abbrev pub connect : Bool → Manager R → Manager R
  connect true m = record m { redis_checked = true; connected = true }
  connect false m = record m { redis_checked = true; connected = false; backend = memory }

  abbrev pub resolve : Backend → Bool → Manager R → Bool × Manager R
  resolve memory checked m = (false, m)
  resolve redis true m = (m.connected, m)
  resolve redis false m = (R.up m.server, connect (R.up m.server) m)

  -- The flag says that there is a client of Redis.
  unfoldable pub client : Action (Manager R) Bool
  client m = let r = resolve m.backend m.redis_checked m in (ok r.0, r.1)

  -- A call of Redis, which raises if the server does not answer.
  abbrev pub send : (R.Server → R.Server) → Manager R → Option (Manager R)
  send f m = if R.up m.server then some (record m { server = f m.server }) else none

  abbrev pub ask : {A : Type 0} → (R.Server → A) → Manager R → Option A
  ask f m = if R.up m.server then some (f m.server) else none

  -- `_get_history`, without the registration of a new session.
  abbrev pub history : String → Manager R → List Message
  history sid m = or_empty (m.histories sid)

  abbrev pub put_history : String → Option (List Message) → Manager R → Option (Manager R)
  put_history sid h m = some (record m { histories = with_history m.histories sid h })

  -- `_trim_memory`
  abbrev pub trim : List Message → List Message
  trim messages =
      if ltb (cfg.window_size * 2) (length messages)
      then last_items (cfg.window_size * 2) messages
      else messages

  -- `session_id or str(uuid.uuid4())`
  abbrev pub session_or : Option String → String → String
  session_or none uuid = uuid
  session_or (some sid) uuid = if sid == "" then uuid else sid

  unfoldable pub create_session : Option String → String → Action (Manager R) String
  create_session session_id uuid = do
    let sid = session_or session_id uuid
    live ← client
    branch live (pure tt) (write (λ m. put_history sid (some (or_empty (m.histories sid))) m))
    pure sid

  unfoldable pub get_or_create : Option String → String → Action (Manager R) String
  get_or_create session_id uuid = create_session session_id uuid

  -- The four commands of the pipeline in `add_turn`.
  abbrev pub pipeline : String → String → String → R.Server → R.Server
  pipeline k user_message ai_message s = R.expire k cfg.ttl (
      R.ltrim k (pos 0 -ℤ pos (cfg.window_size * 2)) (negsuc 0) (
        R.rpush k (R.dumps (record { role = some "assistant"; content = some ai_message }))
          (R.rpush k (R.dumps (record { role = some "user"; content = some user_message })) s)))

  unfoldable pub add_turn : String → String → String → Action (Manager R) (Unit {0})
  add_turn sid user_message ai_message = do
    live ← client
    branch live (write (send (pipeline (key sid) user_message ai_message))) (
        write (λ m.
          put_history sid (some (trim (history sid m ++ (human user_message ∷ ai ai_message ∷ []))))
            m))

  unfoldable pub redis_messages : String → Action (Manager R) (List Message)
  redis_messages sid = do raw ← read (ask (λ s. R.content s (key sid))); answer (decode raw)

  -- `_get_history` registers the session if it is new.
  unfoldable pub memory_messages : String → Action (Manager R) (List Message)
  memory_messages sid = do
    write (λ m. put_history sid (some (history sid m)) m)
    read (λ m. some (history sid m))

  unfoldable pub get_messages : String → Action (Manager R) (List Message)
  get_messages sid = do live ← client; branch live (redis_messages sid) (memory_messages sid)

  unfoldable pub get_context_string : String → Action (Manager R) String
  get_context_string sid = do messages ← get_messages sid; pure (join "\n" (lines_of messages))

  unfoldable pub session_exists : String → Action (Manager R) Bool
  session_exists sid = do
    live ← client
    branch live (read (ask (λ s. ltb 0 (length (R.content s (key sid))))))
        (read (λ m. some (is_some (m.histories sid))))

  unfoldable pub clear_session : String → Action (Manager R) (Unit {0})
  clear_session sid = do
    live ← client
    branch live (write (send (R.delete (key sid)))) (write (put_history sid none))

  unfoldable pub session_info : String → Action (Manager R) SessionInfo
  session_info sid = do
    messages ← get_messages sid
    backend ← read (λ m. some m.backend)
    pure (record {
      session_id = sid;
      turn_count = length messages / 2;
      message_count = length messages;
      window_size = cfg.window_size;
      backend = backend;
    })
