-- ===== src/Whatsapp/Intake.antt =====
-- Which WhatsApp messages agent/whatsapp_router.py hands to the worker.
use Prim.Native.String.{String}
use package.text.Mathlib.Text.{◌==◌}
use package.text.Mathlib.TextEquality.{eq_iff}
use mathlib.Core.Bool.{false≢true}
use wa_graph_rag_backend.Prelude.{
  ℕ, ◌≡◌, ◌⊎◌, inl, inr, refl, sym, ap, ◌∙◌, Bool, true, false, Option, none, some, List, [], ◌∷◌,
  ◌++◌, length, length-append, some_inv, if◌then◌else◌, Bool-cases, Option-cases,
}
use wa_graph_rag_backend.Database.Action.{
  Action, Result, ok, err, crash, ◌>>=◌, pure, raise, running,
}
use wa_graph_rag_backend.Whatsapp.{
  WhatsAppClient, Message, Contact, Shaped, misshapen, shaped, Value, Payload, Job, Response,
  forbidden, ignored, accepted, name_of, sender_of, queue_message, added, queue_shaped,
  queue_messages, queue_value, queue_change, queue_values, queue_entry, queue_entries,
  answer_payload, receive_webhook, verify_signature, signature_of, is_ascii,
}

-- The job of a message: one if it has a sender.
abbrev pub job_of : List Contact → Message → Option String → List Job
job_of contacts m none = []
job_of contacts m (some wa_id) =
    if wa_id == ""
    then []
    else (record { message = record m { contact_name = name_of contacts }; contact_wa_id = wa_id })
      ∷ []

-- The jobs of a part of the body, and whether all of it is well shaped: behind a misshapen part no
-- job is queued any more.
abbrev pub Due : Type 0
Due = List Job × Bool

abbrev pub followed : Due → Due → Due
followed (js, true) (ks, b) = (js ++ ks, b)
followed (js, false) rest = (js, false)

abbrev pub shaped_due : List Contact → Shaped Message → Due
shaped_due contacts misshapen = ([], false)
shaped_due contacts (shaped m) = (job_of contacts m (sender_of m contacts), true)

abbrev pub messages_due : List Contact → List (Shaped Message) → Due
messages_due contacts [] = ([], true)
messages_due contacts (m ∷ ms) = followed (shaped_due contacts m) (messages_due contacts ms)

abbrev pub value_due : Shaped (List (Shaped Message)) → Shaped (List Contact) → Due
value_due misshapen contacts = ([], false)
value_due (shaped []) contacts = ([], true)
value_due (shaped (m ∷ ms)) misshapen = ([], false)
value_due (shaped (m ∷ ms)) (shaped contacts) = messages_due contacts (m ∷ ms)

abbrev pub change_due : Shaped Value → Due
change_due misshapen = ([], false)
change_due (shaped v) = value_due v.messages v.contacts

abbrev pub values_due : List (Shaped Value) → Due
values_due [] = ([], true)
values_due (v ∷ vs) = followed (change_due v) (values_due vs)

abbrev pub entry_due : Shaped (List (Shaped Value)) → Due
entry_due misshapen = ([], false)
entry_due (shaped vs) = values_due vs

abbrev pub entries_due : List (Shaped (List (Shaped Value))) → Due
entries_due [] = ([], true)
entries_due (e ∷ es) = followed (entry_due e) (entries_due es)

-- The answer and the queue that is due after a body of an accepted request.
abbrev pub counted : Due → List Job → Result Response × List Job
counted (js, true) q = (ok (accepted (length js)), q ++ js)
counted (js, false) q = (err crash, q ++ js)

abbrev pub answered : Option Payload → List Job → Result Response × List Job
answered none q = (ok ignored, q)
answered (some misshapen) q = (err crash, q)
answered (some (shaped es)) q = counted (entries_due es) q

append_assoc : {A : Type 0} (xs ys zs : List A) → (xs ++ ys) ++ zs ≡ xs ++ (ys ++ zs)
append_assoc [] ys zs = refl
append_assoc (x ∷ xs) ys zs = ap (◌∷◌ x) (append_assoc xs ys zs)

append_nil : {A : Type 0} (xs : List A) → xs ++ [] ≡ xs
append_nil [] = refl
append_nil (x ∷ xs) = ap (◌∷◌ x) (append_nil xs)

module _ (broker : List Job → Bool) (up : (q : List Job) → broker q ≡ true) where
  -- The action adds the jobs to the queue, and then answers their number or raises.
  abbrev Queues : Action (List Job) ℕ → Due → Type 0
  Queues m (js, true) = (q : List Job) → m q ≡ (ok (length js), q ++ js)
  Queues m (js, false) = (q : List Job) → m q ≡ (err crash, q ++ js)

  nothing-Queues : Queues (pure 0) ([], true)
  unfolding pure
  nothing-Queues q = ap (λ z. (ok 0, z)) (sym (append_nil q))

  raises-Queues : Queues (raise crash) ([], false)
  unfolding raise
  raises-Queues q = ap (λ z. (err crash, z)) (sym (append_nil q))

  added-Queues :
      (m k : Action (List Job) ℕ) (x y : Due)
      → Queues m x
      → Queues k y
      → Queues (added broker m k) (followed x y)
  unfolding running
  added-Queues m k (js, true) (ks, true) h i = λ q.
      rw (h q, i (q ++ js))
        (ap (λ n. (ok n, (q ++ js) ++ ks)) (sym (length-append js ks))
          ∙ ap (λ z. (ok (length (js ++ ks)), z)) (append_assoc q js ks))
  added-Queues m k (js, true) (ks, false) h i =
      λ q. rw (h q, i (q ++ js)) (ap (λ z. (err crash, z)) (append_assoc q js ks))
  added-Queues m k (js, false) y h i = λ q. rw (h q) refl

  message-Queues :
      (contacts : List Contact) (m : Message) (from : Option String)
      → Queues (queue_message broker contacts m from) (job_of contacts m from, true)
  unfolding running
  message-Queues contacts m none q = nothing-Queues q
  message-Queues contacts m (some wa_id) q = elim (Bool-cases (wa_id == "")) [
    | inl blank ↦ rw blank (nothing-Queues q)
    | inr there ↦ rw (there, up q) refl
  ]

  shaped-Queues :
      (contacts : List Contact) (m : Shaped Message)
      → Queues (queue_shaped broker contacts m) (shaped_due contacts m)
  shaped-Queues contacts misshapen = raises-Queues
  shaped-Queues contacts (shaped m) = message-Queues contacts m (sender_of m contacts)

  messages-Queues :
      (contacts : List Contact) (ms : List (Shaped Message))
      → Queues (queue_messages broker contacts ms) (messages_due contacts ms)
  unfolding queue_messages
  messages-Queues contacts [] = nothing-Queues
  messages-Queues contacts (m ∷ ms) =
      added-Queues _ _ (shaped_due contacts m) (messages_due contacts ms) (shaped-Queues contacts m)
        (messages-Queues contacts ms)

  value-Queues :
      (ms : Shaped (List (Shaped Message))) (cs : Shaped (List Contact))
      → Queues (queue_value broker ms cs) (value_due ms cs)
  value-Queues misshapen cs = raises-Queues
  value-Queues (shaped []) cs = nothing-Queues
  value-Queues (shaped (m ∷ ms)) misshapen = raises-Queues
  value-Queues (shaped (m ∷ ms)) (shaped cs) = messages-Queues cs (m ∷ ms)

  change-Queues : (v : Shaped Value) → Queues (queue_change broker v) (change_due v)
  change-Queues misshapen = raises-Queues
  change-Queues (shaped v) = value-Queues v.messages v.contacts

  values-Queues : (vs : List (Shaped Value)) → Queues (queue_values broker vs) (values_due vs)
  unfolding queue_values
  values-Queues [] = nothing-Queues
  values-Queues (v ∷ vs) =
      added-Queues _ _ (change_due v) (values_due vs) (change-Queues v) (values-Queues vs)

  entry-Queues : (e : Shaped (List (Shaped Value))) → Queues (queue_entry broker e) (entry_due e)
  entry-Queues misshapen = raises-Queues
  entry-Queues (shaped vs) = values-Queues vs

  entries-Queues :
      (es : List (Shaped (List (Shaped Value)))) → Queues (queue_entries broker es) (entries_due es)
  unfolding queue_entries
  entries-Queues [] = nothing-Queues
  entries-Queues (e ∷ es) =
      added-Queues _ _ (entry_due e) (entries_due es) (entry-Queues e) (entries-Queues es)

  counted_lem :
      (m : Action (List Job) ℕ) (x : Due)
      → Queues m x
      → (q : List Job) → (m >>= λ n. pure (accepted n)) q ≡ counted x q
  unfolding running
  counted_lem m (js, true) h q = rw (h q) refl
  counted_lem m (js, false) h q = rw (h q) refl

  payload_lem : (o : Option Payload) (q : List Job) → answer_payload broker o q ≡ answered o q
  unfolding pure raise
  payload_lem none q = refl
  payload_lem (some misshapen) q = refl
  payload_lem (some (shaped es)) q = counted_lem _ (entries_due es) (entries-Queues es) q

  -- With an app secret, a digest in ASCII and a queue that takes every job, `receive_webhook` queues
  -- exactly what is due. If the header is "sha256=" with the HMAC of the body under the secret, it
  -- queues one job for each message with a sender, in the payload's order and behind the jobs that
  -- wait already, and answers their number; if a part of the body is misshapen, it queues the jobs
  -- before that part and raises; for a body that is no JSON it queues nothing. If the text behind
  -- "sha256=" is not ASCII, it raises and queues nothing. With any other header, or none, it answers
  -- 403 and queues nothing, whatever the body holds.
  pub receive_webhook_lem :
      (hmac : String → String → String) (json : String → Option Payload) (c : WhatsAppClient)
      (body : String) (header : Option String) (q : List Job)
      → (c.app_secret == "") ≡ false
      → is_ascii (hmac c.app_secret body) ≡ true
      → ((signature_of hmac header ≡ some (hmac c.app_secret body))
          × (receive_webhook broker hmac json c body header q ≡ answered (json body) q))
        ⊎ ((d : String) × (signature_of hmac header ≡ some d)
            × (is_ascii d ≡ false)
            × (receive_webhook broker hmac json c body header q ≡ (err crash, q)))
        ⊎ ((signature_of hmac header ≡ some (hmac c.app_secret body) → ⊥)
            × ((d : String) → signature_of hmac header ≡ some d → is_ascii d ≡ true)
            × (receive_webhook broker hmac json c body header q ≡ (ok forbidden, q)))
  unfolding receive_webhook verify_signature running
  receive_webhook_lem hmac json c body header q secret digits =
      elim (Option-cases (signature_of hmac header)) [
        | inl e ↦ inr (
            inr (
              λ h. let clash = sym e ∙ h in cc clash,
              λ d h. let clash = sym e ∙ h in cc clash,
              rw (secret, e) refl,
            ))
        | inr (d, e) ↦ elim (Bool-cases (is_ascii d)) [
          | inr other ↦ inr (inl (d, e, other, rw (secret, e, digits, other) refl))
          | inl plain ↦ elim (Bool-cases (hmac c.app_secret body == d)) [
            | inl good ↦ inl (
              e ∙ ap some (sym ((eq_iff _ _).0 good)),
              rw (secret, e, digits, plain, good) (payload_lem (json body) q),
            )
            | inr bad ↦ inr (
                inr (
                  λ h.
                      let same : d ≡ hmac c.app_secret body = some_inv (sym e ∙ h) in
                      absurd (false≢true (sym bad ∙ (eq_iff _ _).1 (sym same))),
                  λ d' h. ap is_ascii (some_inv (sym h ∙ e)) ∙ plain,
                  rw (secret, e, digits, plain, bad) refl,
                ))
          ]
        ]
      ]
