-- ===== src/Llm/Manager.antt =====
-- LLMProviderManager and FailoverChatLLM (ai/llm/llm_provider_manager.py). `_health` is a list of
-- healths by name; a lock around a step is the step.
use text.Mathlib.Text.{◌==◌ as str_eq}
use smart_stock_ai.Prelude.{
  ℕ, ◌*◌, Bool, true, false, ◌&&◌, not, Option, none, some, List, [], ◌∷◌, map, String,
  if◌then◌else◌, ltb, is_some,
}
use smart_stock_ai.Prelude.Action.{
  Action, ok, other_error, ◌>>=◌, ◌>>◌, pure, gets, raise_if, modify,
}
use smart_stock_ai.Llm.Health.{
  ProviderHealth, ProviderStatus, Score, finite, infinite, new_health, record_success,
  record_failure, is_available, score,
}

abbrev is_empty : {A : Type 0} → List A → Bool
is_empty [] = true
is_empty (x ∷ xs) = false

-- The manager and the clock.
pub record Manager : Type 0 where
  pub health : List ProviderHealth
  pub now : ℕ

abbrev pub at_time : ℕ → Manager → Manager
at_time t m = record m { now = t }

-- `_health.get(name)`
abbrev pub health_of : String → List ProviderHealth → Option ProviderHealth
health_of name [] = none
health_of name (h ∷ hs) = if str_eq h.name name then some h else health_of name hs

abbrev pub update_health :
    String → (ProviderHealth → ProviderHealth) → List ProviderHealth → List ProviderHealth
update_health name f [] = []
update_health name f (h ∷ hs) =
    let rest = update_health name f hs in if str_eq h.name name then f h ∷ hs else h ∷ rest

abbrev pub change : String → (ProviderHealth → ProviderHealth) → Manager → Manager
change name f m = record m { health = update_health name f m.health }

abbrev pub provider_priority : List String
provider_priority = "groq" ∷ "openai" ∷ "gemini" ∷ "xai" ∷ []

-- `_initialize`, with the names of the configuration.
abbrev pub initialize : List String → ℕ → Manager
initialize names now = record { health = map new_health names; now = now }

-- LLMProviderManager.record_success and record_failure: nothing for an unknown name.
unfoldable pub manager_record_success : String → ℕ → Manager → Manager
manager_record_success name latency m = change name (record_success latency m.now) m

unfoldable pub manager_record_failure : String → Manager → Manager
manager_record_failure name m = change name (record_failure m.now) m

abbrev pub closed : ProviderHealth → ProviderHealth
closed h = record h {
  consecutive_failures = 0;
  status = ProviderStatus.healthy;
  circuit_open_until = none;
}

-- All providers for none, or for an empty name.
abbrev reset_targets : Option String → List ProviderHealth → List ProviderHealth
reset_targets none hs = map closed hs
reset_targets (some name) hs =
    if str_eq name "" then map closed hs else update_health name closed hs

unfoldable pub reset_circuit_breaker : Option String → Manager → Manager
reset_circuit_breaker provider_name m = record m { health = reset_targets provider_name m.health }

-- Whether a score sorts before another one.
abbrev pub ltb_score : Score → Score → Bool
ltb_score (finite a) (finite b) = ltb (a.numerator * b.denominator) (b.numerator * a.denominator)
ltb_score (finite a) infinite = true
ltb_score infinite _ = false

-- `list.sort(key=...)` is stable: an element stays before those that it equals.
abbrev pub insert : String × Score → List (String × Score) → List (String × Score)
insert x [] = x ∷ []
insert x (y ∷ ys) = let rest = insert x ys in if ltb_score y.1 x.1 then y ∷ rest else x ∷ y ∷ ys

abbrev pub sort : List (String × Score) → List (String × Score)
sort [] = []
sort (x ∷ xs) = insert x (sort xs)

-- `self._health[n].score()`
abbrev pub score_health : String → Option ProviderHealth → Manager → Score × Manager
score_health name none m = (infinite, m)
score_health name (some h) m = let (s, h') = score m.now h in (s, change name (λ x. h') m)

abbrev pub score_of : String → Manager → Score × Manager
score_of name m = score_health name (health_of name m.health) m

abbrev pub with_scores : List String → Manager → List (String × Score) × Manager
with_scores [] m = ([], m)
with_scores (n ∷ ns) m =
    let (s, m') = score_of n m in let (rest, m'') = with_scores ns m' in ((n, s) ∷ rest, m'')

-- Whether the environment has the key of a provider; an unknown name has none.
module _ (has_key : String → Bool) where
  -- The body of the loop: known, available, and with a key.
  abbrev pub ask_health : String → Option ProviderHealth → Manager → Bool × Manager
  ask_health name none m = (false, m)
  ask_health name (some h) m =
      let (available, h') = is_available m.now h in
      (available && has_key name, change name (λ x. h') m)

  abbrev pub is_usable : String → Manager → Bool × Manager
  is_usable name m = ask_health name (health_of name m.health) m

  unfoldable pub usable : List String → Manager → List String × Manager
  usable [] m = ([], m)
  usable (n ∷ ns) m =
      let (use_it, m') = is_usable n m in
      let (rest, m'') = usable ns m' in (if use_it then n ∷ rest else rest, m'')

  unfoldable pub get_available_providers : Manager → List String × Manager
  get_available_providers m =
      let (names, m') = usable provider_priority m in
      let (scored, m'') = with_scores names m' in (map (λ p. p.0) (sort scored), m'')

  -- Models are built by the packages langchain_openai and langchain_google_genai; none if that raises.
  module _ {Llm : Type 0} (construct : String → Option Llm) where
    abbrev pub create_llm : String → Option Llm
    create_llm name = if has_key name then construct name else none

    -- The pool of those that can be created; each other one has a failure recorded, which raises for
    -- an unknown name.
    abbrev pub pool_of : List String → Action Manager (List (String × Llm))
    pool_of [] = pure []
    pool_of (n ∷ ns) = elim (create_llm n) [
      | some llm ↦ do rest ← pool_of ns; pure ((n, llm) ∷ rest)
      | none ↦ do
        m ← gets (λ m. m)
        raise_if (not (is_some (health_of n m.health))) other_error
        modify (change n (record_failure m.now))
        pool_of ns
    ]

    abbrev pub providers_to_try : Option String → Manager → List String × Manager
    providers_to_try none m = get_available_providers m
    providers_to_try (some name) m = (name ∷ [], m)

    unfoldable pub get_llm : Option String → Action Manager (List (String × Llm))
    get_llm provider_override = do
      names ← (λ m. let (names, m') = providers_to_try provider_override m in (ok names, m'))
      raise_if (is_empty names) other_error
      pool ← pool_of names
      raise_if (is_empty pool) other_error
      pure pool
