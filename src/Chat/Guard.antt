-- ===== src/Chat/Guard.antt =====
-- `prompt_injection_filter` (ai/llm/chain.py). Regular expressions, base64 and the normal forms of
-- Unicode are given.
use smart_stock_ai.Prelude.{
  ℕ, ◌+◌, min, Bool, ◌||◌, Option, none, some, List, [], ◌∷◌, ◌++◌, String, if◌then◌else◌, select,
  leb,
}
use Prim.Native.String.{◌++◌ as joined}
use text.Mathlib.Text.{◌==◌}
use smart_stock_ai.Chat.{contains, is_among}
use smart_stock_ai.Chat.Chain.{contains_any}
use smart_stock_ai.Chat.Patterns.{
  instruction_override_patterns, role_switching_patterns, identity_manipulation_patterns,
  prompt_extraction_patterns, jailbreak_patterns, hidden_instruction_patterns,
  multilingual_patterns, decoded_patterns, all_text_patterns,
}

-- The steps of the normalisation, the regular expression of a role, and the segments of a text that
-- look like base64, decoded; none for a segment that cannot be decoded.
pub record Scanner : Type 0 where
  pub unquote : String → String
  pub nfkc : String → String
  pub translate_homoglyphs : String → String
  pub remove_zero_width : String → String
  pub lower : String → String
  pub collapse_whitespace : String → String
  pub strip : String → String
  pub search_role : String → String → Bool
  pub decoded_segments : String → List (Option String)

-- `min(score, 100)` of the sum of the points
unfoldable pub points : String → ℕ
points p =
    if contains_any instruction_override_patterns p
    then 30
    else if is_among role_switching_patterns p
    then 25
    else if contains_any identity_manipulation_patterns p
    then 20
    else if contains_any prompt_extraction_patterns p
    then 25
    else if contains_any jailbreak_patterns p
    then 15
    else if contains_any hidden_instruction_patterns p
    then 15
    else if contains_any multilingual_patterns p
    then 20
    else 10

unfoldable pub total_points : List String → ℕ
total_points [] = 0
total_points (p ∷ ps) = points p + total_points ps

abbrev pub risk_score : List String → ℕ
risk_score matches = min (total_points matches) 100

abbrev pub first_in : List String → String → Option String
first_in [] text = none
first_in (p ∷ ps) text = if contains text p then some p else first_in ps text

-- `none` is (True, None), and a text the pattern of a refusal.
abbrev pub score_matches : List String → Option String
score_matches [] = none
score_matches (p ∷ ps) = if leb 15 (risk_score (p ∷ ps)) then some p else none

module _ (s : Scanner) where
  unfoldable pub normalize_input : String → String
  normalize_input query = s.strip (
      s.collapse_whitespace
        (s.lower (s.remove_zero_width (s.translate_homoglyphs (s.nfkc (s.unquote query))))))

  -- The first segment that decodes to a text with a pattern.
  abbrev pub first_suspicious : List (Option String) → Option String
  first_suspicious [] = none
  first_suspicious (none ∷ rest) = first_suspicious rest
  first_suspicious (some decoded ∷ rest) =
      if contains_any decoded_patterns (s.lower decoded)
      then some decoded
      else first_suspicious rest

  unfoldable pub detect_base64 : String → Option String
  detect_base64 text = first_suspicious (s.decoded_segments text)

  abbrev pub matched : String → List String
  matched normalized =
      select (λ p. contains normalized p) all_text_patterns
      ++ select (λ role. s.search_role role normalized) role_switching_patterns

  abbrev pub check_plain : String → Option String
  check_plain query = score_matches (matched (normalize_input query))

  abbrev pub check_decoded : Option String → String → Option String
  check_decoded none query = check_plain query
  check_decoded (some decoded) query = elim (first_in all_text_patterns (normalize_input decoded)) [
    | some p ↦ some (joined "base64:" p)
    | none ↦ check_plain query
  ]

  unfoldable pub prompt_injection_filter : String → Option String
  prompt_injection_filter query =
      if query == "" || s.strip query == "" then none else check_decoded (detect_base64 query) query
