-- ===== src/Chat/Safe.antt =====
-- What the formatter of answers (ai/llm/chain.py) can return.
use text.Mathlib.Text.{◌==◌}
use smart_stock_ai.Prelude.{
  Bool, true, false, not, ◌||◌, List, [], ◌∷◌, String, ◌≡◌, refl, ◌⊎◌, inl, inr, arith, Bool-cases,
  any,
}
use smart_stock_ai.Prelude.Action.{Result, ok, err, llm_quota_exhausted}
use smart_stock_ai.Chat.{Python, contains}
use smart_stock_ai.Chat.Refused.{NoneOf}
use smart_stock_ai.Chat.Answers.{
  ModelReply, answers, raises, refusal, dangerous_patterns, validate_response_safety,
  is_llm_quota_error, safe_or_refusal, format_answer, call_gpt4o_formatter,
}

any-NoneOf : (f : String → Bool) (xs : List String) → any f xs ≡ false → NoneOf f xs
any-NoneOf f [] h = tt
any-NoneOf f (x ∷ xs) h = (ground arith, any-NoneOf f xs (ground arith))

module _ (python : Python) where
  -- A text without a dangerous pattern in capital letters, or a blank one.
  abbrev pub IsSafe : String → Type 0
  IsSafe text =
      ((text == "" || python.strip text == "") ≡ true)
      ⊎ NoneOf (contains (python.upper text)) dangerous_patterns

  validate-IsSafe : (text : String) → validate_response_safety python text ≡ true → IsSafe text
  unfolding validate_response_safety
  validate-IsSafe text h = elim (Bool-cases (text == "" || python.strip text == "")) [
    | inl blank ↦ inl blank
    | inr full ↦
        inr
          (any-NoneOf (contains (python.upper text)) dangerous_patterns (negated _ (rw full at h)))
  ]
    where
      negated : (b : Bool) → not b ≡ true → b ≡ false
      negated b e = ground arith

  -- A text is passed on if it is safe; if not, the refusal stands in its place.
  abbrev pub PassesOn : String → String → Type 0
  PassesOn source text =
      ((text ≡ source) × IsSafe text)
      ⊎ ((text ≡ refusal) × (validate_response_safety python source ≡ false))

  -- How a call of the formatter ends.
  abbrev pub Ends : Result ModelReply → String → Result String → Type 0
  Ends (err e) fallback out = out ≡ err e
  Ends (ok (answers answer)) fallback (ok text) =
      PassesOn (python.strip answer) text
      ⊎ ((text ≡ refusal) × ((python.strip answer == "") ≡ true))
  Ends (ok (answers answer)) fallback (err e) = ⊥
  Ends (ok (raises why)) fallback (ok text) =
      PassesOn fallback text × (is_llm_quota_error python why ≡ false)
  Ends (ok (raises why)) fallback (err e) =
      (e ≡ llm_quota_exhausted) × (is_llm_quota_error python why ≡ true)

  safe_or_refusal-PassesOn : (text : String) → PassesOn text (safe_or_refusal python text)
  safe_or_refusal-PassesOn text = elim (Bool-cases (validate_response_safety python text)) [
    | inl safe ↦ rw safe (inl (refl, validate-IsSafe text safe))
    | inr unsafe ↦ rw unsafe (inr (refl, refl))
  ]

  format_answer-Ends :
      (text fallback : String)
      → Ends (ok (answers text)) fallback (format_answer python (python.strip text))
  format_answer-Ends text fallback = elim (Bool-cases (python.strip text == "")) [
    | inl blank ↦ rw blank (inr (refl, blank))
    | inr full ↦ rw full (elim (Bool-cases (validate_response_safety python (python.strip text))) [
      | inl safe ↦ rw safe (inl (inl (refl, validate-IsSafe (python.strip text) safe)))
      | inr unsafe ↦ rw unsafe (inl (inr (refl, unsafe)))
    ])
  ]

  -- If the model cannot be made, the formatter raises that exception. Otherwise it returns the
  -- model's answer without blanks at its ends, or the raw data after an exception, if that text
  -- is safe, and a refusal in its place if it fails the check, or if the answer is blank; a safe
  -- text is blank or has none of the dangerous patterns in capital letters. With a model it
  -- raises exactly LLMQuotaExhaustedError, and only after an exception that tells of a quota,
  -- after which it always does.
  pub call_gpt4o_formatter-Ends :
      (reply : Result ModelReply) (fallback : String)
      → Ends reply fallback (call_gpt4o_formatter python reply fallback)
  unfolding call_gpt4o_formatter
  call_gpt4o_formatter-Ends (err e) fallback = refl
  call_gpt4o_formatter-Ends (ok (answers text)) fallback = format_answer-Ends text fallback
  call_gpt4o_formatter-Ends (ok (raises why)) fallback =
      elim (Bool-cases (is_llm_quota_error python why)) [
        | inl quota ↦ rw quota (refl, quota)
        | inr other ↦ rw other (safe_or_refusal-PassesOn fallback, other)
      ]
