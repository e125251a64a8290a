-- ===== src/Whatsapp/Task/Replies.antt =====
-- What `_process_whatsapp_message` of worker/tasks.py sends to the user.
use Prim.Native.String.{String}
use wa_graph_rag_backend.Prelude.{◌≡◌, ◌⊎◌, [], ◌∷◌, ◌++◌}
use wa_graph_rag_backend.Database.Action.{Action, Result, ok, err}
use wa_graph_rag_backend.Chats.{Log, Chats}
use wa_graph_rag_backend.Chats.Preview.{first_chars}
use wa_graph_rag_backend.Memory.{Redis, Settings}
use wa_graph_rag_backend.Agent.{Guards}
use wa_graph_rag_backend.AgentSettings.{AgentConfig, SettingsTable}
use wa_graph_rag_backend.Whatsapp.Task.{
  Mail, sent_raising, Floats, TaskResult, error, ignored_type, ignored_empty, out_of_scope_replied,
  low_confidence_suppressed, replied, Input, stopped, said, raised, TaskEnv, Worker,
}

module _ (f : Floats) (env : TaskEnv f) (wa_id : String) where
  -- One text went to the contact, of 4096 characters at most, and no alert was queued.
  abbrev pub OneText : Mail → Mail → Type 0
  OneText before after =
      ((body : String) × (after.sent ≡ before.sent ++ ((wa_id, first_chars 4096 body) ∷ [])))
      × (after.alerts ≡ before.alerts)

  -- No text went out, and one alert about the contact was queued.
  abbrev pub OneAlert : Mail → Mail → Type 0
  OneAlert before after =
      (after.sent ≡ before.sent)
      × ((query : String) × (after.alerts ≡ before.alerts ++ ((wa_id, query) ∷ [])))

  -- One text went out, or one alert was queued, by a call that raised nevertheless.
  abbrev pub TextUnanswered : Mail → Mail → Type 0
  TextUnanswered before after =
      (body : String) × (env.delivers wa_id (first_chars 4096 body) before ≡ sent_raising)
      × (after ≡ record before { sent = before.sent ++ ((wa_id, first_chars 4096 body) ∷ []) })

  abbrev pub AlertUnanswered : Mail → Mail → Type 0
  AlertUnanswered before after =
      (query : String) × (env.queues wa_id query before ≡ sent_raising)
      × (after ≡ record before { alerts = before.alerts ++ ((wa_id, query) ∷ []) })

  -- What a result says of the mail before and after.
  abbrev pub IsDue : Mail → Result (TaskResult f) → Mail → Type 0
  IsDue before (ok (low_confidence_suppressed x)) after = OneAlert before after
  IsDue before (ok (error reason)) after = OneText before after
  IsDue before (ok (ignored_type kind)) after = OneText before after
  IsDue before (ok ignored_empty) after = OneText before after
  IsDue before (ok (out_of_scope_replied n)) after = OneText before after
  IsDue before (ok (replied transcribed n)) after = OneText before after
  IsDue before (err x) after =
      (after ≡ before) ⊎ TextUnanswered before after ⊎ AlertUnanswered before after

module _ (f : Floats) (c : Log) (R : Redis) (cfg : Settings) (g : Guards) (t : SettingsTable)
    (defaults : AgentConfig) (env : TaskEnv f) (wa_id : String) where
  abbrev State : Type 0
  State = Worker f c R cfg g t defaults

  abbrev SameMail : State → State → Type 0
  SameMail a b = b.mail ≡ a.mail

  record Answered (m : Action State (TaskResult f)) : Type 0 where
    due : (w : State) → IsDue f env wa_id w.mail (m w).0 (m w).1.mail

  -- A result that stands for one text.
  abbrev IsReply : TaskResult f → Type 0
  IsReply x =
      (before after : Mail)
      → OneText f env wa_id before after
      → IsDue f env wa_id before (ok x) after

  -- A message that is answered at once is answered by one text.
  abbrev IsPlain : Input f → Type 0
  IsPlain (stopped reply x) = IsReply x
  IsPlain (said user_text transcribed) = Unit {0}
  IsPlain raised = Unit {0}
