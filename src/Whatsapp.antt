-- ===== src/Whatsapp.antt =====
-- agent/whatsapp_router.py and the parts of integrations/whatsapp.py that decide something: the
-- handshake, the signature, and the outbound texts.
pub mod Intake
pub mod Task
pub mod Desk
mod Tests
use Prim.Native.Char.{code}
use Prim.Native.String.{String, [], ◌∷◌}
use package.text.Mathlib.Text
use mathlib.Core.List
use wa_graph_rag_backend.Prelude.{
  ℕ, ◌+◌, ◌==◌, ltb, Bool, true, false, not, ◌&&◌, Option, none, some, List, ◌++◌, if◌then◌else◌,
}
use wa_graph_rag_backend.Database.Action.{Action, crash, ◌>>=◌, ◌>>◌, pure, raise, answer, write}

abbrev same : String → String → Bool
same a b = Text.◌==◌ a b

pub record WhatsAppClient : Type 0 where
  pub access_token : String
  pub phone_number_id : String
  pub app_secret : String
  pub verify_token : String

-- `prefix`'s rest of a text, if the text starts with it.
abbrev pub after_prefix : String → String → Option String
after_prefix [] s = some s
after_prefix (c ∷ p) [] = none
after_prefix (c ∷ p) (d ∷ s) = if code c == code d then after_prefix p s else none

abbrev pub is_configured : WhatsAppClient → Bool
is_configured c = not (same c.access_token "") && not (same c.phone_number_id "")

-- The truth value of an optional text, and a comparison with one.
abbrev pub equals : Option String → String → Bool
equals none b = false
equals (some a) b = same a b

abbrev pub filled : Option String → Bool
filled none = false
filled (some a) = not (same a "")

unfoldable pub verify_subscription :
    WhatsAppClient → Option String → Option String → Option String → Option String
verify_subscription c mode token challenge =
    if equals mode "subscribe" && (filled token && equals token c.verify_token)
    then challenge
    else none

-- `str.isascii`
abbrev pub is_ascii : String → Bool
is_ascii [] = true
is_ascii (c ∷ s) = ltb (code c) 128 && is_ascii s

-- `hmac.compare_digest`, which raises for a text that is not ASCII.
abbrev pub compare_digest : String → String → Option Bool
compare_digest a b = if is_ascii a && is_ascii b then some (same a b) else none

-- `hmac secret body` is the hexadecimal HMAC-SHA256.
module _ (hmac : String → String → String) where
  abbrev pub signature_of : Option String → Option String
  signature_of none = none
  signature_of (some header) = after_prefix "sha256=" header

  abbrev pub compared : Option String → String → Option Bool
  compared none expected = some false
  compared (some provided) expected = compare_digest expected provided

  -- `none` is a TypeError.
  unfoldable pub verify_signature : WhatsAppClient → String → Option String → Option Bool
  verify_signature c body header =
      if same c.app_secret ""
      then some true
      else compared (signature_of header) (hmac c.app_secret body)

-- A message of the webhook, as it goes to the worker; `sender` is its field `from`.
pub record Message : Type 0 where
  pub id : String
  pub kind : String
  pub sender : Option String
  pub body : Option String
  pub media_id : Option String
  pub contact_name : Option String

pub record Contact : Type 0 where
  pub wa_id : Option String
  pub name : Option String

-- A part of the parsed body: `misshapen` is one on which the code's next `.get`, index or loop raises,
-- such as a text for an object or a number for a list.
pub data Shaped (A : Type 0) : Type 0 where
  misshapen : Shaped A
  shaped : A → Shaped A

-- The messages and contacts of a value; what Python takes for false counts as the empty list.
pub record Value : Type 0 where
  pub messages : Shaped (List (Shaped Message))
  pub contacts : Shaped (List Contact)

-- The values of the changes of each entry.
abbrev pub Payload : Type 0
Payload = Shaped (List (Shaped (List (Shaped Value))))

pub record Job : Type 0 where
  pub message : Message
  pub contact_wa_id : String

pub data Response : Type 0 where
  forbidden : Response
  ignored : Response
  accepted : ℕ → Response

abbrev pub name_of : List Contact → Option String
name_of List.[] = none
name_of (List.◌∷◌ c cs) = c.name

abbrev pub wa_id_of : List Contact → Option String
wa_id_of List.[] = none
wa_id_of (List.◌∷◌ c cs) = c.wa_id

-- `msg.get("from") or (contacts[0].get("wa_id") if contacts else None)`
abbrev pub sender_of : Message → List Contact → Option String
sender_of m contacts = if filled m.sender then m.sender else wa_id_of contacts

-- `broker` says whether the queue takes a job.
module _ (broker : List Job → Bool) where
  abbrev pub delay : Job → Action (List Job) ℕ
  delay job = write (λ q. if broker q then some (q ++ (List.◌∷◌ job List.[])) else none) >> pure 1

  abbrev pub queue_message : List Contact → Message → Option String → Action (List Job) ℕ
  queue_message contacts m none = pure 0
  queue_message contacts m (some wa_id) =
      if same wa_id ""
      then pure 0
      else delay
          (record { message = record m { contact_name = name_of contacts }; contact_wa_id = wa_id })

  abbrev pub added : Action (List Job) ℕ → Action (List Job) ℕ → Action (List Job) ℕ
  added m k = m >>= λ a. k >>= λ b. pure (a + b)

  abbrev pub queue_shaped : List Contact → Shaped Message → Action (List Job) ℕ
  queue_shaped contacts misshapen = raise crash
  queue_shaped contacts (shaped m) = queue_message contacts m (sender_of m contacts)

  unfoldable pub queue_messages : List Contact → List (Shaped Message) → Action (List Job) ℕ
  queue_messages contacts List.[] = pure 0
  queue_messages contacts (List.◌∷◌ m ms) =
      added (queue_shaped contacts m) (queue_messages contacts ms)

  -- The contacts are looked at only if there are messages.
  abbrev pub queue_value :
      Shaped (List (Shaped Message)) → Shaped (List Contact) → Action (List Job) ℕ
  queue_value misshapen contacts = raise crash
  queue_value (shaped List.[]) contacts = pure 0
  queue_value (shaped (List.◌∷◌ m ms)) misshapen = raise crash
  queue_value (shaped (List.◌∷◌ m ms)) (shaped contacts) = queue_messages contacts (List.◌∷◌ m ms)

  abbrev pub queue_change : Shaped Value → Action (List Job) ℕ
  queue_change misshapen = raise crash
  queue_change (shaped v) = queue_value v.messages v.contacts

  unfoldable pub queue_values : List (Shaped Value) → Action (List Job) ℕ
  queue_values List.[] = pure 0
  queue_values (List.◌∷◌ v vs) = added (queue_change v) (queue_values vs)

  abbrev pub queue_entry : Shaped (List (Shaped Value)) → Action (List Job) ℕ
  queue_entry misshapen = raise crash
  queue_entry (shaped vs) = queue_values vs

  unfoldable pub queue_entries : List (Shaped (List (Shaped Value))) → Action (List Job) ℕ
  queue_entries List.[] = pure 0
  queue_entries (List.◌∷◌ e es) = added (queue_entry e) (queue_entries es)

  abbrev pub answer_payload : Option Payload → Action (List Job) Response
  answer_payload none = pure ignored
  answer_payload (some misshapen) = raise crash
  answer_payload (some (shaped payload)) = queue_entries payload >>= λ n. pure (accepted n)

  -- `json` parses a body; `none` is a body that is no JSON.
  unfoldable pub receive_webhook :
      (String → String → String)
      → (String → Option Payload)
      → WhatsAppClient
      → String
      → Option String
      → Action (List Job) Response
  receive_webhook hmac json c body header =
      answer (verify_signature hmac c body header) >>= λ genuine.
      if genuine then answer_payload (json body) else pure forbidden
