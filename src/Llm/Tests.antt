-- ===== src/Llm/Tests.antt =====
-- A manager of four providers, two of which have had failures.
use text.Mathlib.Text.{◌==◌ as str_eq}
use smart_stock_ai.Prelude.{ℕ, suc, zero, ◌+◌, Bool, not, List, [], ◌∷◌, ◌≡◌, refl, String, select}
use smart_stock_ai.Llm.Health.{new_health, record_failure, is_available, score, error_rate}
use smart_stock_ai.Llm.Breaker.{Event, Remembers, after, after-Remembers}
use smart_stock_ai.Llm.Manager.{
  Manager, initialize, change, get_available_providers, provider_priority, usable,
}
use smart_stock_ai.Llm.Failover.{Answer, answered, failed, Explains, generate, generate-Explains}
use smart_stock_ai.Llm.Ranking.{Ranks, is_ready, get_available_providers-Ranks}

abbrev events : List Event
events =
    Event.asked 61005
    ∷ Event.fails 1003
    ∷ Event.fails 1002
    ∷ Event.fails 1001
    ∷ Event.succeeds 40 1000
    ∷ []

after-Remembers_example : Remembers events (after events (new_health "groq"))
after-Remembers_example = after-Remembers events "groq"

abbrev broken : Manager
broken =
    change "groq" (λ h. record_failure 1003 (record_failure 1002 (record_failure 1001 h)))
      (initialize ("openai" ∷ "groq" ∷ "gemini" ∷ "xai" ∷ []) 2000)

abbrev has_key : String → Bool
has_key name = not (str_eq name "xai")

get_available_providers-Ranks_example :
    Ranks broken
      (select (is_ready has_key broken) provider_priority)
      (get_available_providers has_key broken).0
get_available_providers-Ranks_example = get_available_providers-Ranks has_key broken

-- groq is left out, since its circuit is open, and xai has no key.
two_left : (get_available_providers has_key broken).0 ≡ "openai" ∷ "gemini" ∷ []
unfolding get_available_providers usable record_failure is_available score error_rate
two_left = refl

-- The first model of the pool is throttled.
abbrev invoke : ℕ → ℕ → Answer ℕ × ℕ
invoke zero now = (failed "429", now + 5)
invoke (suc model) now = (answered 42, now + 20)

abbrev pool : List (String × ℕ)
pool = ("openai", 0) ∷ ("gemini", 1) ∷ []

generate-Explains_example :
    Explains (λ s. s) str_eq invoke pool (generate (λ s. s) str_eq invoke pool broken).0
generate-Explains_example = generate-Explains (λ s. s) str_eq invoke pool broken
