-- ===== src/Chat/Attempts.antt =====
-- What a run of NLQueryChain (ai/llm/chain.py) returns, by the attempts that it makes.
use smart_stock_ai.Prelude.{
  ℕ, zero, suc, ◌+◌, ◌≤◌, ◌<◌, Bool, true, false, Option, some, String, ◌≡◌, refl, ◌⊎◌, inl, inr,
  arith, Bool-cases, ◌==◌, ==_iff, ◌∙◌,
}
use smart_stock_ai.Chat.{Python, NlQueryResult}
use smart_stock_ai.Chat.Chain.{
  Attempt, AttemptOutcome, parsed, unparsable, failed, outcome, on_outcome, is_transient,
  keyword_fallback, help_result, run_from, run,
}

module _ (python : Python) (query : String) (text_of : Attempt python.Float → String) where
  abbrev transient : AttemptOutcome python → Bool
  transient (parsed r) = false
  transient unparsable = false
  transient (failed text) = is_transient python text

  -- An attempt that is worth another one.
  abbrev pub IsTransient : Attempt python.Float → Type 0
  IsTransient a = transient (outcome python text_of a) ≡ true

  abbrev pub final : AttemptOutcome python → NlQueryResult python.Float
  final (parsed r) = r
  final unparsable = help_result python
  final (failed text) = keyword_fallback python query

  module _ (attempts : ℕ → Attempt python.Float) where
    -- Some attempt of those from `k` to `k + left` settles the run: each one before it was transient,
    -- and it is the last one or is not transient.
    abbrev pub Settled : ℕ → ℕ → Option (NlQueryResult python.Float) → Type 0
    Settled k left answer =
        (i : ℕ) × (k ≤ i)
        × (i ≤ k + left)
        × ((j : ℕ) → k ≤ j → j < i → IsTransient (attempts j))
        × ((i ≡ k + left) ⊎ (transient (outcome python text_of (attempts i)) ≡ false))
        × (answer ≡ some (final (outcome python text_of (attempts i))))

    on_outcome_last :
        (o : AttemptOutcome python) (rest : Option (NlQueryResult python.Float))
        → on_outcome python query o 0 rest ≡ some (final o)
    on_outcome_last (parsed r) rest = refl
    on_outcome_last unparsable rest = refl
    on_outcome_last (failed text) rest = ground arith

    on_outcome_more :
        (o : AttemptOutcome python) (left : ℕ) (rest : Option (NlQueryResult python.Float))
        → ((transient o ≡ true) × (on_outcome python query o (suc left) rest ≡ rest))
          ⊎ ((transient o ≡ false) × (on_outcome python query o (suc left) rest ≡ some (final o)))
    on_outcome_more (parsed r) left rest = inr (refl, refl)
    on_outcome_more unparsable left rest = inr (refl, refl)
    on_outcome_more (failed text) left rest = elim (Bool-cases (is_transient python text)) [
      | inl again ↦ inl (again, ground (arith, again))
      | inr once ↦ inr (once, rw once refl)
    ]

    run_from-Settled :
        (k left : ℕ) → Settled k left (run_from python query text_of attempts k (suc left))
    unfolding run_from
    run_from-Settled k zero = (
      k,
      omega arith,
      omega arith,
      λ j p q. absurd (omega arith),
      inl (omega arith),
      on_outcome_last (outcome python text_of (attempts k)) _,
    )
    run_from-Settled k (suc left) =
        elim (on_outcome_more (outcome python text_of (attempts k)) left
          (run_from python query text_of attempts (k + 1) (suc left))) [
            | inl (again, e) ↦
                let (i, above, below, before, stops, e') = run_from-Settled (k + 1) left in
                (
                  i,
                  omega arith,
                  omega arith,
                  λ j p q. first_or_later again before j p q,
                  elim stops [ inl last ↦ inl (omega arith) | inr settled ↦ inr settled ],
                  e ∙ e',
                )
            | inr (once, e) ↦
                (k, omega arith, omega arith, λ j p q. absurd (omega arith), inr once, e)
          ]
      where
        first_or_later :
            {i : ℕ}
            → IsTransient (attempts k)
            → ((j : ℕ) → k + 1 ≤ j → j < i → IsTransient (attempts j))
            → (j : ℕ) → k ≤ j
            → j < i
            → IsTransient (attempts j)
        first_or_later again before j p q = elim (Bool-cases (j == k)) [
          | inl here ↦ rw ((==_iff j k).0 here) again
          | inr later ↦ before j (ground (arith, later)) q
        ]

    -- A run of the query chain returns a query after at most three calls of the model, whatever
    -- these answer or raise: each call before the last one it makes failed with a transient
    -- exception, and the last one settles it, by its parsed answer, by the help query if the
    -- answer cannot be parsed, and by the query of the keywords after an exception.
    pub run-Settled : Settled 0 2 (run python query text_of attempts)
    unfolding run
    run-Settled = run_from-Settled 0 2
