-- ===== src/Llm/Registry.antt =====
-- The healths of LLMProviderManager by name: a change of one leaves the others, and what a question
-- about availability changes is not seen by later questions.
use text.Mathlib.Text.{◌==◌ as str_eq}
use text.Mathlib.TextEquality.{eq_iff}
use smart_stock_ai.Prelude.{
  is_some, ◌∙◌, sym, Bool, true, false, ◌≡◌, refl, ap, arith, List, [], ◌∷◌, Option, none, some,
  String, Bool-cases, inl, inr, ℕ, map,
}
use smart_stock_ai.Llm.Health.{ProviderHealth, Score, infinite, is_available, score, error_rate}
use smart_stock_ai.Llm.Manager.{
  closed, Manager, health_of, update_health, change, reset_circuit_breaker,
}

pub health_of-update_self :
    (name : String) (h h' : ProviderHealth) (hs : List ProviderHealth)
    → str_eq h'.name name ≡ true
    → health_of name hs ≡ some h
    → health_of name (update_health name (λ x. h') hs) ≡ some h'
health_of-update_self name h h' [] e f = cc f
health_of-update_self name h h' (x ∷ hs) e f = ground (arith, health_of-update_self name h h' hs e)

pub health_of-update_ne :
    (other name : String) (f : ProviderHealth → ProviderHealth) (hs : List ProviderHealth)
    → ((x : ProviderHealth) → str_eq x.name name ≡ true → str_eq (f x).name name ≡ true)
    → str_eq name other ≡ false
    → health_of other (update_health name f hs) ≡ health_of other hs
health_of-update_ne other name f [] k n = refl
health_of-update_ne other name f (x ∷ hs) k n = ground (
  arith,
  k x,
  eq_iff x.name name,
  eq_iff (f x).name name,
  eq_iff (f x).name other,
  eq_iff x.name other,
  eq_iff name other,
  health_of-update_ne other name f hs k n,
)

is_available-name : (now : ℕ) (h : ProviderHealth) → (is_available now h).1.name ≡ h.name
unfolding is_available
is_available-name now h = ground arith

is_available_twice :
    (now : ℕ) (h : ProviderHealth)
    → (is_available now (is_available now h).1).0 ≡ (is_available now h).0
unfolding is_available
is_available_twice now h = ground arith

score_twice :
    (now : ℕ) (h : ProviderHealth) → (score now (is_available now h).1).0 ≡ (score now h).0
unfolding score is_available error_rate
score_twice now h = ground arith

health_of-name :
    (name : String) (h : ProviderHealth) (hs : List ProviderHealth)
    → health_of name hs ≡ some h
    → str_eq h.name name ≡ true
health_of-name name h [] f = cc f
health_of-name name h (x ∷ hs) f = ground (arith, health_of-name name h hs)

-- Whether the provider of this name may be called.
abbrev pub available_at : ℕ → Option ProviderHealth → Bool
available_at now none = false
available_at now (some h) = (is_available now h).0

abbrev pub score_at : ℕ → Option ProviderHealth → Score
score_at now none = infinite
score_at now (some h) = (score now h).0

-- Two states of the manager at one time that answer alike.
pub record Same (m m' : Manager) : Type 0 where
  pub now : m'.now ≡ m.now
  pub available :
      (k : String)
      → available_at m.now (health_of k m'.health) ≡ available_at m.now (health_of k m.health)
  pub scores :
      (k : String) → score_at m.now (health_of k m'.health) ≡ score_at m.now (health_of k m.health)

pub Same-refl : (m : Manager) → Same m m
Same-refl m = record { now = refl; available = λ k. refl; scores = λ k. refl }

pub Same-trans : (a b c : Manager) → Same a b → Same b c → Same a c
Same-trans a b c h g = record {
  now = g.now ∙ h.now;
  available = λ k. (rw (sym h.now) (g.available k)) ∙ h.available k;
  scores = λ k. (rw (sym h.now) (g.scores k)) ∙ h.scores k;
}

-- Asking a provider whether it is available, which may half-open its circuit.
pub asked-Same :
    (name : String) (h : ProviderHealth) (m : Manager)
    → health_of name m.health ≡ some h
    → Same m (change name (λ x. (is_available m.now h).1) m)
asked-Same name h m e = record {
  now = refl;
  available = λ k. agree Bool (available_at m.now) (is_available_twice m.now h) k;
  scores = λ k. agree Score (score_at m.now) (score_twice m.now h) k;
}
  where
    h' : ProviderHealth
    h' = (is_available m.now h).1

    same_name : str_eq h'.name name ≡ true
    same_name = rw (is_available-name m.now h) (health_of-name name h m.health e)

    agree :
        (A : Type 0) (f : Option ProviderHealth → A)
        → f (some h') ≡ f (some h)
        → (k : String)
        → f (health_of k (update_health name (λ x. h') m.health)) ≡ f (health_of k m.health)
    agree A f twice k = elim (Bool-cases (str_eq name k)) [
      | inl same ↦
          rw (sym ((eq_iff name k).0 same), health_of-update_self name h h' m.health same_name e, e)
            twice
      | inr other ↦ ap f (health_of-update_ne k name (λ x. h') m.health (λ x y. same_name) other)
    ]

closed-available :
    (now : ℕ) (k : String) (hs : List ProviderHealth)
    → available_at now (health_of k (map closed hs)) ≡ is_some (health_of k hs)
unfolding is_available
closed-available now k [] = refl
closed-available now k (h ∷ hs) = ground (arith, closed-available now k hs)

-- After `reset_circuit_breaker()` every known provider is available at any time.
pub reset_circuit_breaker-available :
    (now : ℕ) (k : String) (m : Manager)
    → available_at now (health_of k (reset_circuit_breaker none m).health)
      ≡ is_some (health_of k m.health)
unfolding reset_circuit_breaker
reset_circuit_breaker-available now k m = closed-available now k m.health
