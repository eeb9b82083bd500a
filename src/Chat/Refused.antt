-- ===== src/Chat/Refused.antt =====
-- Which questions the filter against prompt injection (ai/llm/chain.py) refuses.
use smart_stock_ai.Prelude.{
  Bool, true, false, ◌||◌, Option, none, some, List, [], ◌∷◌, ◌++◌, String, ◌≡◌, refl, ◌⊎◌, inl,
  inr, ◌↔◌, arith, Bool-cases, Option-cases, any, select, ltb, All,
}
use text.Mathlib.Text.{◌==◌}
use smart_stock_ai.Chat.{contains}
use smart_stock_ai.Chat.Patterns.{all_text_patterns, role_switching_patterns}
use smart_stock_ai.Chat.Guard.{
  Scanner, points, total_points, normalize_input, detect_base64, first_in, matched, score_matches,
  check_plain, check_decoded, prompt_injection_filter,
}

-- The points that are not enough for a refusal.
abbrev light : String → Bool
light p = ltb (points p) 15

heavy_patterns : any light all_text_patterns ≡ false
unfolding points all_text_patterns role_switching_patterns
heavy_patterns = refl

heavy_roles : any light role_switching_patterns ≡ false
unfolding points role_switching_patterns
heavy_roles = refl

select-heavy :
    (f : String → Bool) (xs : List String) → any light xs ≡ false → any light (select f xs) ≡ false
select-heavy f [] h = refl
select-heavy f (x ∷ xs) h = ground (arith, select-heavy f xs)

append-heavy :
    (xs ys : List String)
    → any light xs ≡ false
    → any light ys ≡ false
    → any light (xs ++ ys) ≡ false
append-heavy [] ys h k = k
append-heavy (x ∷ xs) ys h k = ground (arith, append-heavy xs ys)

score_heavy : (ps : List String) → any light ps ≡ false → score_matches ps ≡ none → ps ≡ []
unfolding total_points
score_heavy [] h e = refl
score_heavy (p ∷ ps) h e = ground (arith, e)

-- No element passes the test.
abbrev pub NoneOf : (String → Bool) → List String → Type 0
NoneOf f xs = All (λ x. f x ≡ false) xs

select-empty_iff : (f : String → Bool) (xs : List String) → (select f xs ≡ []) ↔ NoneOf f xs
select-empty_iff f [] = (λ h. tt, λ h. refl)
select-empty_iff f (x ∷ xs) = elim (Bool-cases (f x)) [
  | inl hit ↦ (λ h. cc (hit, h), λ h. cc (hit, h.0))
  | inr miss ↦ (
    λ h. (miss, (select-empty_iff f xs).0 (rw miss at h)),
    λ h. rw miss ((select-empty_iff f xs).1 h.1),
  )
]

append-empty_iff : (xs ys : List String) → (xs ++ ys ≡ []) ↔ ((xs ≡ []) × (ys ≡ []))
append-empty_iff [] ys = (λ h. (refl, h), λ h. h.1)
append-empty_iff (x ∷ xs) ys = (λ h. cc h, λ h. cc (h.0))

first_in-none_iff :
    (ps : List String) (text : String) → (first_in ps text ≡ none) ↔ NoneOf (contains text) ps
first_in-none_iff [] text = (λ h. tt, λ h. refl)
first_in-none_iff (p ∷ ps) text = elim (Bool-cases (contains text p)) [
  | inl hit ↦ (λ h. cc (rw hit at h), λ h. cc (hit, h.0))
  | inr miss ↦ (
    λ h. (miss, (first_in-none_iff ps text).0 (rw miss at h)),
    λ h. rw miss ((first_in-none_iff ps text).1 h.1),
  )
]

module _ (s : Scanner) where
  -- No pattern stands in a text, and no role is announced in it.
  abbrev pub IsClean : String → Type 0
  IsClean text =
      NoneOf (contains text) all_text_patterns
      × NoneOf (λ role. s.search_role role text) role_switching_patterns

  check_plain_iff :
      (query : String) → (check_plain s query ≡ none) ↔ IsClean (normalize_input s query)
  check_plain_iff query =
      let text = normalize_input s query in
      let texts = select-empty_iff (contains text) all_text_patterns in
      let roles = select-empty_iff (λ role. s.search_role role text) role_switching_patterns in
      let both =
        append-empty_iff (select (contains text) all_text_patterns)
          (select (λ role. s.search_role role text) role_switching_patterns) in
      (
        λ h. let (e, e') = both.0 (score_heavy (matched s text) heavy h) in (texts.0 e, roles.0 e'),
        λ h. rw (both.1 (texts.1 h.0, roles.1 h.1)) refl,
      )
    where
      heavy : any light (matched s (normalize_input s query)) ≡ false
      heavy =
          append-heavy _ _
            (select-heavy (contains (normalize_input s query)) all_text_patterns heavy_patterns)
            (select-heavy (λ role. s.search_role role (normalize_input s query))
              role_switching_patterns heavy_roles)

  -- What the decoded segment, if there is a suspicious one, has to be.
  abbrev pub IsCleanDecoded : Option String → Type 0
  IsCleanDecoded none = Unit
  IsCleanDecoded (some decoded) = NoneOf (contains (normalize_input s decoded)) all_text_patterns

  check_decoded_iff :
      (o : Option String) (query : String)
      → (check_decoded s o query ≡ none) ↔ (IsCleanDecoded o × IsClean (normalize_input s query))
  check_decoded_iff none query =
      let plain = check_plain_iff query in (λ h. (tt, plain.0 h), λ h. plain.1 h.1)
  check_decoded_iff (some decoded) query =
      let plain = check_plain_iff query in
      let text = normalize_input s decoded in
      let inside = first_in-none_iff all_text_patterns text in
      elim (Option-cases (first_in all_text_patterns text)) [
        | inl clean ↦ (
          λ h. (inside.0 clean, plain.0 (rw (check_decoded, clean) at h)),
          λ h. rw (check_decoded, clean) (plain.1 h.1),
        )
        | inr (p, hit) ↦ (λ h. cc (rw (check_decoded, hit) at h), λ h. cc (hit, inside.1 h.0))
      ]

  -- The filter against prompt injection lets a question through exactly if it is blank, or no
  -- pattern stands in its normal form, no role is announced there, and no pattern stands in the
  -- normal form of the first suspicious segment in base64, if there is one: the risk score never
  -- saves a question with a match.
  pub prompt_injection_filter_iff :
      (query : String)
      → (prompt_injection_filter s query ≡ none) ↔ (
          ((query == "" || s.strip query == "") ≡ true)
          ⊎ (IsCleanDecoded (detect_base64 s query) × IsClean (normalize_input s query)))
  unfolding prompt_injection_filter
  prompt_injection_filter_iff query =
      let inner = check_decoded_iff (detect_base64 s query) query in
      elim (Bool-cases (query == "" || s.strip query == "")) [
        | inl blank ↦ (λ h. inl blank, λ h. rw blank refl)
        | inr full ↦ (
          λ h. inr (inner.0 (rw full at h)),
          λ h. rw full (elim h [ inl blank ↦ cc (full, blank) | inr clean ↦ inner.1 clean ]),
        )
      ]
