-- ===== src/Chat/Answers.antt =====
-- The check of a model's output (ai/llm/output_validator.py), the formatter of answers (ai/llm/chain.py)
-- and the recognition of a used-up quota (core/exceptions.py).
use text.Mathlib.Text.{◌==◌}
use smart_stock_ai.Prelude.{Bool, true, not, ◌||◌, List, [], ◌∷◌, ◌++◌, String, if◌then◌else◌}
use smart_stock_ai.Prelude.Action.{Result, ok, err, llm_quota_exhausted}
use smart_stock_ai.Chat.{Python}
use smart_stock_ai.Chat.Chain.{contains_any}

abbrev pub dangerous_patterns : List String
dangerous_patterns =
    "INSERT INTO" ∷ "DELETE FROM" ∷ "DROP TABLE" ∷ "ALTER TABLE" ∷ "TRUNCATE " ∷ "EXEC("
    ∷ "OS.SYSTEM" ∷ "SUBPROCESS.CALL" ∷ "SUBPROCESS.POPEN" ∷ "SUBPROCESS.RUN" ∷ "SUBPROCESS.CHECK"
    ∷ "EVAL(" ∷ "__IMPORT__" ∷ []

abbrev pub quota_keywords : List String
quota_keywords =
    "insufficient_quota" ∷ "rate_limit_reached" ∷ "quota_exceeded" ∷ "too many requests"
    ∷ "requests per minute" ∷ "tokens per minute" ∷ "tpm" ∷ "rpm" ∷ "billing"
    ∷ "exceeded your current quota" ∷ "payment" ∷ []

-- What a call of the model ends with: a text, or an exception with a text.
pub data ModelReply : Type 0 where
  answers raises : String → ModelReply

abbrev pub refusal : String
refusal = "I'm sorry, I cannot provide that information."

module _ (python : Python) where
  unfoldable pub validate_response_safety : String → Bool
  validate_response_safety output =
      if output == "" || python.strip output == ""
      then true
      else not (contains_any dangerous_patterns (python.upper output))

  unfoldable pub is_llm_quota_error : String → Bool
  is_llm_quota_error text = contains_any quota_keywords (python.lower text)

  abbrev pub safe_or_refusal : String → String
  safe_or_refusal text = if validate_response_safety text then text else refusal

  -- `fallback` is the text with the raw data.
  abbrev pub format_failure : String → String → Result String
  format_failure text fallback =
      if is_llm_quota_error text then err llm_quota_exhausted else ok (safe_or_refusal fallback)

  abbrev pub format_answer : String → Result String
  format_answer result =
      if result == "" || not (validate_response_safety result) then ok refusal else ok result

  -- `get_llm` raises, in front of the `try`, or there is a model.
  unfoldable pub call_gpt4o_formatter : Result ModelReply → String → Result String
  call_gpt4o_formatter (err e) fallback = err e
  call_gpt4o_formatter (ok (answers text)) fallback = format_answer (python.strip text)
  call_gpt4o_formatter (ok (raises text)) fallback = format_failure text fallback

  -- The chunks of an answer, and how the stream ends. The pieces that were yielded come back with the
  -- exception, if there is one; `get_llm` may raise first.
  abbrev pub yielded : List String → List String
  yielded [] = []
  yielded (c ∷ cs) = let rest = yielded cs in if c == "" then rest else c ∷ rest

  pub data Ending : Type 0 where
    complete : Ending
    breaks : String → Ending

  unfoldable pub call_gpt4o_formatter_stream :
      Result (List String × Ending) → String → List String × Result (Unit {0})
  call_gpt4o_formatter_stream (err e) fallback = ([], err e)
  call_gpt4o_formatter_stream (ok (chunks, complete)) fallback = (yielded chunks, ok tt)
  call_gpt4o_formatter_stream (ok (chunks, breaks text)) fallback =
      if is_llm_quota_error text
      then (yielded chunks, err llm_quota_exhausted)
      else (yielded chunks ++ safe_or_refusal fallback ∷ [], ok tt)
