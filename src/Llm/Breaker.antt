-- ===== src/Llm/Breaker.antt =====
-- What the circuit breaker of a provider remembers, and when it is open.
use smart_stock_ai.Prelude.{
  length-append, Bool-cases, ltb→lt, inl, inr, ◌⊎◌, ℕ, zero, suc, min, ap, ◌∙◌, ◌+◌, ◌≤◌, ◌<◌, true,
  is_some, List, [], ◌∷◌, ◌++◌, ◌≡◌, refl, arith, String, ltb, length,
}
use smart_stock_ai.Llm.Health.{
  ProviderHealth, ProviderStatus, new_health, record_success, record_failure, is_available,
  push_latency,
}

-- A provider that counts at least two failures in a row, and fails once more, is available exactly
-- at the times later than 60 seconds after that failure.
pub is_available-record_failure :
    (h : ProviderHealth) (failed_at now : ℕ)
    → 2 ≤ h.consecutive_failures
    → (is_available now (record_failure failed_at h)).0 ≡ ltb (failed_at + 60000) now
unfolding is_available record_failure
is_available-record_failure h failed_at now many = ground arith

-- What happens to a provider.
pub data Event : Type 0 where
  succeeds : ℕ → ℕ → Event
  fails asked : ℕ → Event

pub react : Event → ProviderHealth → ProviderHealth
react (succeeds latency now) h = record_success latency now h
react (fails now) h = record_failure now h
react (asked now) h = (is_available now h).1

-- The health after events, the last one first.
pub after : List Event → ProviderHealth → ProviderHealth
after [] h = h
after (e ∷ es) h = react e (after es h)

abbrev pub calls_of : List Event → ℕ
calls_of [] = 0
calls_of (asked now ∷ es) = calls_of es
calls_of (_ ∷ es) = suc (calls_of es)

abbrev pub failures_of : List Event → ℕ
failures_of [] = 0
failures_of (fails now ∷ es) = suc (failures_of es)
failures_of (_ ∷ es) = failures_of es

-- The failures since the last success.
abbrev pub failures_in_a_row : List Event → ℕ
failures_in_a_row [] = 0
failures_in_a_row (succeeds latency now ∷ es) = 0
failures_in_a_row (fails now ∷ es) = suc (failures_in_a_row es)
failures_in_a_row (asked now ∷ es) = failures_in_a_row es

-- The latencies of the successes.
abbrev pub latencies_of : List Event → List ℕ
latencies_of [] = []
latencies_of (succeeds latency now ∷ es) = latency ∷ latencies_of es
latencies_of (_ ∷ es) = latencies_of es

abbrev pub take : ℕ → List ℕ → List ℕ
take zero xs = []
take (suc n) [] = []
take (suc n) (x ∷ xs) = x ∷ take n xs

abbrev pub rev : List ℕ → List ℕ
rev [] = []
rev (x ∷ xs) = rev xs ++ x ∷ []

take_all : (n : ℕ) (xs : List ℕ) → length xs ≤ n → take (suc n) xs ≡ take n xs
take_all zero [] h = refl
take_all zero (x ∷ xs) h = ground (arith, h)
take_all (suc n) [] h = refl
take_all (suc n) (x ∷ xs) h = ap (◌∷◌ x) (take_all n xs (omega (arith, h)))

rev-take :
    (n : ℕ) (xs : List ℕ) → n < length xs → (y : ℕ) × (rev (take (suc n) xs) ≡ y ∷ rev (take n xs))
rev-take n [] h = let no : ⊥ = omega (arith, h) in elim no [ ]
rev-take zero (x ∷ xs) h = (x, refl)
rev-take (suc n) (x ∷ xs) h =
    let (y, e) = rev-take n xs (omega (arith, h)) in (y, ap (λ l. l ++ x ∷ []) e)

length-rev-take : (n : ℕ) (xs : List ℕ) → length (rev (take n xs)) ≡ min n (length xs)
length-rev-take zero xs = ground arith
length-rev-take (suc n) [] = ground arith
length-rev-take (suc n) (x ∷ xs) =
    ground (arith, length-append (rev (take n xs)) (x ∷ []), length-rev-take n xs)

-- A push keeps the last ten.
push_latency-rev-take :
    (latency : ℕ) (xs : List ℕ)
    → push_latency latency (rev (take 10 xs)) ≡ rev (take 10 (latency ∷ xs))
push_latency-rev-take latency xs = elim (Bool-cases (ltb 9 (length xs))) [
  | inl many ↦
      let (y, e) = rev-take 9 xs (ltb→lt 9 (length xs) many) in
      rw e (pops y (rev (take 9 xs)) (ground (arith, length-rev-take 9 xs)))
  | inr few ↦
      rw (take_all 9 xs (ground arith))
        (keeps (rev (take 9 xs)) (ground (arith, length-rev-take 9 xs)))
]
  where
    pops :
        (y : ℕ) (ys : List ℕ) → length ys ≡ 9 → push_latency latency (y ∷ ys) ≡ ys ++ latency ∷ []
    pops y ys h = ground (arith, length-append ys (latency ∷ []))

    keeps : (ys : List ℕ) → length ys ≤ 9 → push_latency latency ys ≡ ys ++ latency ∷ []
    keeps ys h = ground (arith, length-append ys (latency ∷ []))

-- Asking changes nothing but the status, and that only of an open circuit.
asked_same :
    (now : ℕ) (h : ProviderHealth)
    → ((is_available now h).1 ≡ h)
      ⊎ ((is_available now h).1 ≡ record h { status = ProviderStatus.degraded })
unfolding is_available
asked_same now h = ground arith

pub record Remembers (es : List Event) (h : ProviderHealth) : Type 0 where
  pub all_calls : h.total_calls ≡ calls_of es
  pub all_failures : h.total_failures ≡ failures_of es
  pub in_a_row : h.consecutive_failures ≡ failures_in_a_row es
  pub window : h.latencies ≡ rev (take 10 (latencies_of es))
  pub opened : h.status ≡ ProviderStatus.circuit_open → 3 ≤ failures_in_a_row es
  pub timed : h.status ≡ ProviderStatus.circuit_open → is_some h.circuit_open_until ≡ true

react_succeeds :
    (latency now : ℕ) (es : List Event) (h : ProviderHealth)
    → Remembers es h
    → Remembers (succeeds latency now ∷ es) (record_success latency now h)
unfolding record_success
react_succeeds latency now es h r = record {
  all_calls = omega (arith, r.all_calls);
  all_failures = r.all_failures;
  in_a_row = refl;
  window = ap (push_latency latency) r.window ∙ push_latency-rev-take latency (latencies_of es);
  opened = λ x. cc;
  timed = λ x. cc;
}

react_fails :
    (now : ℕ) (es : List Event) (h : ProviderHealth)
    → Remembers es h
    → Remembers (fails now ∷ es) (record_failure now h)
unfolding record_failure
react_fails now es h r = record {
  all_calls = omega (arith, r.all_calls);
  all_failures = omega (arith, r.all_failures);
  in_a_row = omega (arith, r.in_a_row);
  window = r.window;
  opened = λ x. ground (arith, r.in_a_row);
  timed = λ x. ground arith;
}

kept :
    (now : ℕ) (es : List Event) (h : ProviderHealth) → Remembers es h → Remembers (asked now ∷ es) h
kept now es h r = record {
  all_calls = r.all_calls;
  all_failures = r.all_failures;
  in_a_row = r.in_a_row;
  window = r.window;
  opened = r.opened;
  timed = r.timed;
}

react_asked :
    (now : ℕ) (es : List Event) (h : ProviderHealth)
    → Remembers es h
    → Remembers (asked now ∷ es) (is_available now h).1
react_asked now es h r = elim (asked_same now h) [
  | inl same ↦ rw same (kept now es h r)
  | inr half_open ↦ rw half_open (record {
    all_calls = r.all_calls;
    all_failures = r.all_failures;
    in_a_row = r.in_a_row;
    window = r.window;
    opened = λ x. cc;
    timed = λ x. cc;
  })
]

react-Remembers :
    (e : Event) (es : List Event) (h : ProviderHealth)
    → Remembers es h
    → Remembers (e ∷ es) (react e h)
unfolding react
react-Remembers (succeeds latency now) es h r = react_succeeds latency now es h r
react-Remembers (fails now) es h r = react_fails now es h r
react-Remembers (asked now) es h r = react_asked now es h r

-- The counters agree with the events: all calls, all failures, and the failures since the last
-- success; an open circuit has seen three failures since then and has a time at which it ends.
pub after-Remembers : (es : List Event) (name : String) → Remembers es (after es (new_health name))
unfolding after
after-Remembers [] name = record {
  all_calls = refl;
  all_failures = refl;
  in_a_row = refl;
  window = refl;
  opened = λ x. cc;
  timed = λ x. cc;
}
after-Remembers (e ∷ es) name =
    react-Remembers e es (after es (new_health name)) (after-Remembers es name)
