-- ===== src/Llm/Failover.antt =====
-- FailoverChatLLM (ai/llm/llm_provider_manager.py): one provider after the other. The models, and
-- Python's `str.lower` and `in` on texts, are parameters.
use smart_stock_ai.Prelude.{
  ℕ, ◌-◌, Bool, true, false, List, [], ◌∷◌, ◌≡◌, ◌⊎◌, inl, inr, refl, String, if◌then◌else◌, any,
  All, Bool-cases, ap, ◌∙◌,
}
use text.Mathlib.Text.{◌==◌ as str_eq}
use smart_stock_ai.Llm.Health.{record_success, record_failure}
use smart_stock_ai.Llm.Registry.{health_of-update_ne}
use smart_stock_ai.Llm.Manager.{
  Manager, health_of, at_time, manager_record_success, manager_record_failure,
}

-- What a model answers.
pub data Answer (Reply : Type 0) : Type 0 where
  answered : Reply → Answer Reply
  failed : String → Answer Reply

-- How `_generate` ends: with a reply, with the exception of a model, or with RuntimeError.
pub data Generated (Reply : Type 0) : Type 0 where
  returned : Reply → Generated Reply
  raised : String → Generated Reply
  all_failed : Generated Reply

abbrev transient_keywords : List String
transient_keywords =
    "429" ∷ "rate" ∷ "too many" ∷ "resource_exhausted" ∷ "timeout" ∷ "timed out" ∷ "connection"
    ∷ "503" ∷ "502" ∷ "overloaded" ∷ "quota" ∷ "throttl" ∷ []

module _ (lower : String → String) (is_in : String → String → Bool) where
  unfoldable pub is_transient_error : String → Bool
  is_transient_error text = any (λ kw. is_in kw (lower text)) transient_keywords

  module _ {Llm Reply : Type 0} (invoke : Llm → ℕ → Answer Reply × ℕ) where
    abbrev pub on_answer :
        (Manager → Generated Reply × Manager)
        → String
        → ℕ
        → Answer Reply
        → Manager
        → Generated Reply × Manager
    on_answer next name start (answered r) m =
        (returned r, manager_record_success name (m.now - start) m)
    on_answer next name start (failed e) m =
        let m' = manager_record_failure name m in
        if is_transient_error e then next m' else (raised e, m')

    -- `_generate`, and `_stream` when all its chunks are taken.
    unfoldable pub generate : List (String × Llm) → Manager → Generated Reply × Manager
    generate [] m = (all_failed, m)
    generate ((name, llm) ∷ rest) m =
        let (answer, later) = invoke llm m.now in
        on_answer (generate rest) name m.now answer (at_time later m)

    abbrev Answers : (Answer Reply → Type 0) → String × Llm → Type 0
    Answers P (name, llm) = (start : ℕ) × P (invoke llm start).0

    abbrev Failed : (Bool → Type 0) → Answer Reply → Type 0
    Failed P a = (e : String) × (a ≡ failed e) × P (is_transient_error e)

    -- The pool has an entry `stop`, where `Last` holds of the answer, and each entry before it failed
    -- with a transient error.
    abbrev pub EndsAt : (Answer Reply → Type 0) → List (String × Llm) → Type 0
    EndsAt Last [] = ⊥
    EndsAt Last (p ∷ ps) = Answers Last p ⊎ (Answers (Failed (λ b. b ≡ true)) p × EndsAt Last ps)

    -- What the providers did, from how the call ended.
    abbrev pub Explains : List (String × Llm) → Generated Reply → Type 0
    Explains ps (returned r) = EndsAt (λ a. a ≡ answered r) ps
    Explains ps (raised e) = EndsAt (λ a. (a ≡ failed e) × (is_transient_error e ≡ false)) ps
    Explains ps all_failed = All (Answers (Failed (λ b. b ≡ true))) ps

    -- One more provider in front, which fails with a transient error.
    put_front :
        (p : String × Llm) (ps : List (String × Llm)) (g : Generated Reply)
        → Answers (Failed (λ b. b ≡ true)) p
        → Explains ps g
        → Explains (p ∷ ps) g
    put_front p ps (returned r) f h = inr (f, h)
    put_front p ps (raised e) f h = inr (f, h)
    put_front p ps all_failed f h = (f, h)

    on_answer-Explains :
        (name : String) (llm : Llm) (rest : List (String × Llm)) (start : ℕ) (a : Answer Reply)
        (m : Manager)
        → (invoke llm start).0 ≡ a
        → ((t : Manager) → Explains rest (generate rest t).0)
        → Explains ((name, llm) ∷ rest) (on_answer (generate rest) name start a m).0
    on_answer-Explains name llm rest start (answered r) m e h = inl (start, e)
    on_answer-Explains name llm rest start (failed text) m e h =
        elim (Bool-cases (is_transient_error text)) [
          | inl again ↦ rw again (
              put_front (name, llm) rest (generate rest (manager_record_failure name m)).0
                (start, (text, e, again)) (h (manager_record_failure name m)))
          | inr stop ↦ rw stop (inl (start, (e, stop)))
        ]

    -- A reply is the answer of some provider of the pool, and an exception of a model is one that is
    -- not transient; all before it failed with a transient error. RuntimeError means that every
    -- provider failed with a transient error.
    pub generate-Explains : (ps : List (String × Llm)) (m : Manager) → Explains ps (generate ps m).0
    unfolding generate
    generate-Explains [] m = tt
    generate-Explains ((name, llm) ∷ rest) m =
        on_answer-Explains name llm rest m.now (invoke llm m.now).0 (at_time (invoke llm m.now).1 m)
          refl (generate-Explains rest)

    record_success-others :
        (other name : String) (latency : ℕ) (m : Manager)
        → str_eq name other ≡ false
        → health_of other (manager_record_success name latency m).health ≡ health_of other m.health
    unfolding manager_record_success record_success
    record_success-others other name latency m n =
        health_of-update_ne other name (record_success latency m.now) m.health (λ x e. e) n

    record_failure-others :
        (other name : String) (m : Manager)
        → str_eq name other ≡ false
        → health_of other (manager_record_failure name m).health ≡ health_of other m.health
    unfolding manager_record_failure record_failure
    record_failure-others other name m n =
        health_of-update_ne other name (record_failure m.now) m.health (λ x e. e) n

    -- A call of the pool leaves the health of every provider that is not in the pool as it was.
    pub generate-others :
        (other : String) (ps : List (String × Llm)) (m : Manager)
        → All (λ p. str_eq p.0 other ≡ false) ps
        → health_of other (generate ps m).1.health ≡ health_of other m.health
    unfolding generate
    generate-others other [] m n = refl
    generate-others other ((name, llm) ∷ rest) m n =
        by_answer (λ t. generate-others other rest t n.1) (invoke llm m.now).0
          (at_time (invoke llm m.now).1 m) refl
      where
        by_answer :
            ((t : Manager) → health_of other (generate rest t).1.health ≡ health_of other t.health)
            → (a : Answer Reply) (t : Manager) → t.health ≡ m.health
            → health_of other (on_answer (generate rest) name m.now a t).1.health
              ≡ health_of other m.health
        by_answer h (answered r) t e =
            record_success-others other name (t.now - m.now) t n.0 ∙ ap (health_of other) e
        by_answer h (failed text) t e = elim (Bool-cases (is_transient_error text)) [
          | inl again ↦ rw again (
              h (manager_record_failure name t)
              ∙ record_failure-others other name t n.0
              ∙ ap (health_of other) e)
          | inr stop ↦ rw stop (record_failure-others other name t n.0 ∙ ap (health_of other) e)
        ]
