-- ===== src/Agent.antt =====
-- One turn of the assistant: agent/guardrails.py and agent/conversation.py.
pub mod Turn
pub mod Blocked
mod Tests
use Prim.Native.String.{String, count}
use text.Mathlib.Text.{◌==◌}
use wa_graph_rag_backend.Prelude.{
  ℕ, ltb, Bool, true, false, not, ◌&&◌, Option, none, some, List, [], ◌∷◌, if◌then◌else◌,
}
use wa_graph_rag_backend.Prelude.Text.{join}

-- The settings of agent/guardrails.py, and what it takes from Python's `re` and `str` and from the
-- language model: each compiled pattern as the search or the substitution that it does.
pub record Guards : Type 0 where
  pub guardrails_enabled : Bool
  pub enforce_roman_urdu : Bool
  pub min_input_chars : ℕ
  pub max_input_chars : ℕ
  pub strip : String → String
  pub splitlines : String → List String
  pub injection_search : String → Bool
  pub abuse_search : String → Bool
  pub leak_search : String → Bool
  pub devanagari_search : String → Bool
  -- `re.sub` of the role-play markers.
  pub drop_markers : String → String
  -- `pattern.sub(replacement, ·)` for each of `_PII_PATTERNS`.
  pub pii_subs : List (String → String)
  -- The content of the model's answer; `none` is an exception.
  pub transliterate : String → Option String

pub record GuardrailResult : Type 0 where
  pub allowed : Bool
  pub reason : Option String
  pub user_message : Option String
  pub sanitized_input : Option String

abbrev pub msg_too_long : String
msg_too_long = "Aap ka message bohat lamba hai. Baraye meharbani thora mukhtasar likhein."

abbrev pub msg_empty : String
msg_empty = "Mujhe aap ka sawal samajh nahi aaya. Baraye meharbani dobara likhein."

abbrev pub msg_injection : String
msg_injection =
    "Maazrat — main sirf university (admissions, programs, fees, scholarships waghaira) se mutaliq madad kar sakta hoon. Apna university se mutaliq sawal poochein."

abbrev pub msg_abuse : String
msg_abuse =
    "Baraye meharbani mohzbana andaaz mein baat karein taake main aap ki behtar madad kar sakoon."

abbrev pub refused : String → String → GuardrailResult
refused reason message = record {
  allowed = false;
  reason = some reason;
  user_message = some message;
  sanitized_input = none;
}

abbrev pub accepted : String → GuardrailResult
accepted text = record {
  allowed = true;
  reason = none;
  user_message = none;
  sanitized_input = some text;
}

abbrev pub apply_all : List (String → String) → String → String
apply_all [] out = out
apply_all (sub ∷ subs) out = apply_all subs (sub out)

-- `a or b`
abbrev pub text_or : String → String → String
text_or a b = if a == "" then b else a

module _ (g : Guards) where
  unfoldable pub check_input : String → GuardrailResult
  check_input text =
      let stripped = g.strip text in
      if not g.guardrails_enabled
      then accepted text
      else if ltb (count stripped) g.min_input_chars
      then refused "empty" msg_empty
      else if ltb g.max_input_chars (count stripped)
      then refused "too_long" msg_too_long
      else if g.injection_search stripped
      then refused "prompt_injection" msg_injection
      else if g.abuse_search stripped
      then refused "abuse" msg_abuse
      else accepted (g.drop_markers stripped)

  unfoldable pub redact_pii : String → String
  redact_pii text = apply_all g.pii_subs text

  -- The lines without a leak.
  abbrev pub safe_lines : List String → List String
  safe_lines [] = []
  safe_lines (ln ∷ lns) = if g.leak_search ln then safe_lines lns else ln ∷ safe_lines lns

  unfoldable pub scrub_leaks : String → String
  scrub_leaks text =
      if g.leak_search text
      then text_or (g.strip (join "\n" (safe_lines (g.splitlines text))))
          "Maazrat, main is waqt is sawal ka jawab nahi de sakta."
      else text

  -- The part behind the model's answer; the caught exception gives the text itself.
  abbrev pub converted_or : Option String → String → String
  converted_or none text = text
  converted_or (some answer) text =
      if not (g.strip answer == "") && not (g.devanagari_search (g.strip answer))
      then g.strip answer
      else text

  unfoldable pub enforce_roman_urdu : String → String
  enforce_roman_urdu text =
      if g.enforce_roman_urdu && g.devanagari_search text
      then converted_or (g.transliterate text) text
      else text

  unfoldable pub apply_output_guardrails : String → String
  apply_output_guardrails text =
      if g.guardrails_enabled then enforce_roman_urdu (redact_pii (scrub_leaks text)) else text
