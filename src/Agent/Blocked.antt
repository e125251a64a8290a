-- ===== src/Agent/Blocked.antt =====
-- Which messages reach the language model (agent/guardrails.py, agent/conversation.py).
use Prim.Native.String.{String, count}
use mathlib.Core.Path.{subst}
use wa_graph_rag_backend.Prelude.{
  ◌≤◌, ◌≡◌, ◌↔◌, ◌⊎◌, inl, inr, refl, sym, ◌∙◌, true, false, Option, none, some, List, [], ◌∷◌,
  ◌++◌, arith, Bool-cases,
}
use wa_graph_rag_backend.Database.Action.{
  Action, Result, ok, err, resume, ◌>>=◌, ◌>>◌, pure, answer,
}
use wa_graph_rag_backend.Database.Action.Rules.{
  Keeps, >>=-Keeps, pure-Keeps, Holds, Answers, >>=-Answers, pure-Answers,
}
use wa_graph_rag_backend.Memory.{Redis, Settings, Manager}
use wa_graph_rag_backend.Agent.{Guards, check_input}
use wa_graph_rag_backend.Agent.Turn.{
  Reply, Talk, on_manager, optional_or, prompt_of, error_response, rescue, try_except, fixed_turn,
  run_agent, answered_turn, run_agent_turn,
}

module _ (g : Guards) where
  -- With the guardrails enabled, exactly those messages are allowed whose text without the blanks at
  -- its ends is within both bounds of length and matches neither the injection nor the abuse
  -- patterns.
  pub check_input_lem :
      (text : String)
      → g.guardrails_enabled ≡ true
      → ((check_input g text).allowed ≡ true) ↔ (
          (g.min_input_chars ≤ count (g.strip text))
          × (count (g.strip text) ≤ g.max_input_chars)
          × (g.injection_search (g.strip text) ≡ false)
          × (g.abuse_search (g.strip text) ≡ false))
  unfolding check_input
  check_input_lem text on = (
    λ h. (ground arith, ground arith, ground arith, ground arith),
    λ (least, most, clean, polite). ground arith,
  )

module _ (R : Redis) (cfg : Settings) where
  abbrev SamePrompts : Talk R → Talk R → Type 0
  SamePrompts a b = b.prompts ≡ a.prompts

  on_manager-SamePrompts :
      {A : Type 0} (m : Action (Manager R) A) → Keeps SamePrompts (on_manager R cfg m)
  unfolding on_manager
  on_manager-SamePrompts m t = refl

  -- A step that leaves the prompts alone, and a pure result.
  noted_then :
      {A B : Type 0} (m : Action (Manager R) A) (b : B)
      → Keeps SamePrompts (on_manager R cfg m >> pure b)
  noted_then m b =
      >>=-Keeps SamePrompts (λ a b d p q. q ∙ p) _ _ (on_manager-SamePrompts m)
        (λ u. pure-Keeps SamePrompts (λ d. refl) b)

  fixed-SamePrompts :
      (message text sid : String) (user_id : Option String)
      → Keeps SamePrompts (fixed_turn R cfg message text sid user_id)
  unfolding fixed_turn
  fixed-SamePrompts message text sid user_id = noted_then _ _

  -- No prompt was sent, or one, made of a history and the given text.
  abbrev pub AtMostOne : String → List String → List String → Type 0
  AtMostOne safe before after =
      (after ≡ before) ⊎ ((history : String) × (after ≡ before ++ (prompt_of history safe ∷ [])))

  quiet_then :
      {A B : Type 0} (safe : String) (m : Action (Talk R) A) (k : A → Action (Talk R) B)
      → Keeps SamePrompts m
      → ((a : A) (e : Talk R) → AtMostOne safe e.prompts (k a e).1.prompts)
      → (t : Talk R) → AtMostOne safe t.prompts ((m >>= k) t).1.prompts
  unfolding ◌>>=◌
  quiet_then {A} {B} safe m k quiet h t = go (m t) (quiet t)
    where
      go :
          (r : Result A × Talk R)
          → r.1.prompts ≡ t.prompts
          → AtMostOne safe t.prompts (resume r k).1.prompts
      go (ok a, e) s = subst (λ z. AtMostOne safe z (k a e).1.prompts) s (h a e)
      go (err x, e) s = inl s

  module _ (g : Guards) (agent : String → Option String) where
    run_then :
        {B : Type 0} (prompt : String) (k : String → Action (Talk R) B)
        → ((a : String) → Keeps SamePrompts (k a))
        → (t : Talk R)
        → ((run_agent R cfg g agent prompt >>= k) t).1.prompts ≡ t.prompts ++ (prompt ∷ [])
    unfolding ◌>>=◌ run_agent answer
    run_then {B} prompt k quiet t = go (agent prompt)
      where
        asked : Talk R
        asked = record t { prompts = t.prompts ++ (prompt ∷ []) }

        go :
            (o : Option String) → (resume (answer o asked) k).1.prompts ≡ t.prompts ++ (prompt ∷ [])
        go none = refl
        go (some a) = quiet a asked

    answered-AtMostOne :
        (message safe sid : String) (user_id : Option String) (t : Talk R)
        → AtMostOne safe t.prompts
            (answered_turn R cfg g agent message safe sid user_id t).1.prompts
    unfolding answered_turn
    answered-AtMostOne message safe sid user_id =
        quiet_then safe _ _ (on_manager-SamePrompts _)
          (λ history e. inr (history, run_then (prompt_of history safe) _ (λ a. noted_then _ _) e))

    try-AtMostOne :
        {B : Type 0} (safe : String) (m handler : Action (Talk R) B)
        → ((t : Talk R) → AtMostOne safe t.prompts (m t).1.prompts)
        → Keeps SamePrompts handler
        → (t : Talk R) → AtMostOne safe t.prompts (try_except m handler t).1.prompts
    unfolding try_except
    try-AtMostOne {B} safe m handler one quiet t = go (m t) (one t)
      where
        go :
            (r : Result B × Talk R)
            → AtMostOne safe t.prompts r.1.prompts
            → AtMostOne safe t.prompts (rescue r handler).1.prompts
        go (ok b, e) h = h
        go (err x, e) h = subst (AtMostOne safe t.prompts) (sym (quiet e)) h

    -- The reply to a message that the check of the input refuses.
    abbrev pub refusal : String → String
    refusal message =
        optional_or (check_input g message).user_message
          "Maazrat, main is sawal ka jawab nahi de sakta."

    fixed-refusal :
        (message sid : String) (user_id : Option String)
        → Answers
            (λ (r : Reply). r.text ≡ refusal message)
            (fixed_turn R cfg message (refusal message) sid user_id)
    unfolding fixed_turn
    fixed-refusal message sid user_id =
        >>=-Answers (λ (r : Reply). r.text ≡ refusal message) _ _
          (λ u. pure-Answers (λ (r : Reply). r.text ≡ refusal message) _ refl)

    -- In a turn, a message that the check of the input refuses is not sent to the language model with
    -- its tools, and if the turn ends with a reply, it is the refusal. For a message that the check
    -- allows, at most one prompt is sent, and it is the checked text behind some history. This is
    -- about `run_agent_turn` alone: worker/tasks.py sends the text to the classifier of scope, which
    -- is a language model too, before it calls `run_agent_turn`.
    pub run_agent_turn_asks :
        (message session_id : String) (user_id : Option String) (uuid : String) (t : Talk R)
        → (((check_input g message).allowed ≡ false)
            × ((run_agent_turn R cfg g agent message session_id user_id uuid t).1.prompts
                ≡ t.prompts)
            × Holds
                (λ (r : Reply). r.text ≡ refusal message)
                (run_agent_turn R cfg g agent message session_id user_id uuid t).0)
          ⊎ (((check_input g message).allowed ≡ true)
              × AtMostOne
                  (optional_or (check_input g message).sanitized_input message)
                  t.prompts
                  (run_agent_turn R cfg g agent message session_id user_id uuid t).1.prompts)
    unfolding run_agent_turn
    run_agent_turn_asks message session_id user_id uuid t =
        elim (Bool-cases (check_input g message).allowed) [
          | inl allowed ↦ inr (
            allowed,
            quiet_then _ _ _ (on_manager-SamePrompts _)
                (λ sid e. rw allowed (
                  try-AtMostOne _ _ _ (answered-AtMostOne message _ sid user_id)
                    (fixed-SamePrompts message error_response sid user_id) e))
                t,
          )
          | inr refused ↦ inl (
            refused,
            >>=-Keeps SamePrompts (λ a b d p q. q ∙ p) _ _ (on_manager-SamePrompts _)
                (λ sid e. rw refused (fixed-SamePrompts message (refusal message) sid user_id e)) t,
            >>=-Answers (λ (r : Reply). r.text ≡ refusal message) _ _
                (λ sid e. rw refused (fixed-refusal message sid user_id e)) t,
          )
        ]
