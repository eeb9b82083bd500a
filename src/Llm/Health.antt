-- ===== src/Llm/Health.antt =====
-- ProviderHealth (ai/llm/llm_provider_manager.py): the circuit breaker of one provider. Times are in
-- milliseconds, and a float that the source computes is the fraction that it stands for.
use smart_stock_ai.Prelude.{
  ℕ, ◌+◌, ◌*◌, Bool, true, false, Option, none, some, List, [], ◌∷◌, ◌++◌, String, if◌then◌else◌,
  ltb, leb, length, ◌==◌, not, ◌&&◌,
}

pub data ProviderStatus : Type 0 where
  healthy degraded failed circuit_open : ProviderStatus

pub record Fraction : Type 0 where
  pub numerator : ℕ
  pub denominator : ℕ

pub record ProviderHealth : Type 0 where
  pub name : String
  pub status : ProviderStatus
  pub consecutive_failures : ℕ
  pub total_calls : ℕ
  pub total_failures : ℕ
  pub last_failure_time : Option ℕ
  pub last_success_time : Option ℕ
  pub avg_latency_ms : Fraction
  pub circuit_open_until : Option ℕ
  pub latencies : List ℕ

abbrev pub failure_threshold : ℕ
failure_threshold = 3

abbrev pub circuit_timeout : ℕ
circuit_timeout = 60000

abbrev pub latency_window : ℕ
latency_window = 10

-- `ProviderHealth(name=name)`
abbrev pub new_health : String → ProviderHealth
new_health name = record {
  name = name;
  status = ProviderStatus.healthy;
  consecutive_failures = 0;
  total_calls = 0;
  total_failures = 0;
  last_failure_time = none;
  last_success_time = none;
  avg_latency_ms = record { numerator = 0; denominator = 1 };
  circuit_open_until = none;
  latencies = [];
}

abbrev pub sum : List ℕ → ℕ
sum [] = 0
sum (x ∷ xs) = x + sum xs

-- `pop(0)`
abbrev pub pop_first : List ℕ → List ℕ
pop_first [] = []
pop_first (x ∷ xs) = xs

abbrev pub push_latency : ℕ → List ℕ → List ℕ
push_latency latency xs =
    let longer = xs ++ latency ∷ [] in
    if ltb latency_window (length longer) then pop_first longer else longer

unfoldable pub record_success : ℕ → ℕ → ProviderHealth → ProviderHealth
record_success latency now h =
    let recent = push_latency latency h.latencies in
    record h {
      consecutive_failures = 0;
      total_calls = h.total_calls + 1;
      last_success_time = some now;
      status = ProviderStatus.healthy;
      circuit_open_until = none;
      latencies = recent;
      avg_latency_ms = record { numerator = sum recent; denominator = length recent };
    }

unfoldable pub record_failure : ℕ → ProviderHealth → ProviderHealth
record_failure now h =
    let opens = leb failure_threshold (h.consecutive_failures + 1) in
    record h {
      consecutive_failures = h.consecutive_failures + 1;
      total_calls = h.total_calls + 1;
      total_failures = h.total_failures + 1;
      last_failure_time = some now;
      status = if opens then ProviderStatus.circuit_open else ProviderStatus.degraded;
      circuit_open_until = if opens then some (now + circuit_timeout) else h.circuit_open_until;
    }

-- A time of 0 is false in Python.
abbrev pub is_over : ℕ → Option ℕ → Bool
is_over now none = false
is_over now (some until) = not (until == 0) && ltb until now

-- Whether the provider may be called; a circuit whose time is over is half-open from then on.
abbrev pub when_open : ℕ → ProviderHealth → Bool × ProviderHealth
when_open now h =
    if is_over now h.circuit_open_until
    then (true, record h { status = ProviderStatus.degraded })
    else (false, h)

unfoldable pub is_available : ℕ → ProviderHealth → Bool × ProviderHealth
is_available now h = elim h.status [ circuit_open ↦ when_open now h | _ ↦ (true, h) ]

abbrev pub rate_of : ℕ → ℕ → Fraction
rate_of failures calls =
    if calls == 0
    then record { numerator = 0; denominator = 1 }
    else record { numerator = failures; denominator = calls }

unfoldable pub error_rate : ProviderHealth → Fraction
error_rate h = rate_of h.total_failures h.total_calls

-- `infinite` is float('inf').
pub data Score : Type 0 where
  finite : Fraction → Score
  infinite : Score

abbrev pub weighted : Fraction → Fraction → Fraction
weighted latency rate = record {
  numerator =
      latency.numerator * rate.denominator + rate.numerator * 10 * (latency.denominator * 1000);
  denominator = latency.denominator * 1000 * rate.denominator;
}

unfoldable pub score : ℕ → ProviderHealth → Score × ProviderHealth
score now h =
    let (available, h') = is_available now h in
    (if available then finite (weighted h'.avg_latency_ms (error_rate h')) else infinite, h')
