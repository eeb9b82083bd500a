-- ===== src/Decision/Flagged.antt =====
-- The reorder flags that the decision agent leaves (`evaluate_sku`, `evaluate_product` and `run` of
-- ai/agents/decision_agent.py).
use mathlib.Core.Path.{subst}
use smart_stock_ai.Prelude.{
  ℕ, ◌<◌, Bool, true, false, Option, none, some, List, [], ◌∷◌, ◌≡◌, ◌⊎◌, inl, inr, refl, sym, ap,
  arith, if◌then◌else◌, ◌==◌,
}
use smart_stock_ai.Prelude.Action.{Action, Result, ok, err, bind_ind}
use smart_stock_ai.Forecasting.{ReorderFlag, Store}
use smart_stock_ai.Forecasting.Repository.{flag_row}
use smart_stock_ai.Forecasting.Service.{persist_reorder_flag}
use smart_stock_ai.Forecasting.Flags.{IsValid, open_flags}
use smart_stock_ai.Forecasting.Persisted.{
  Persisted, persist_reorder_flag-Persisted, persist_reorder_flag-IsValid,
}
use smart_stock_ai.Decision.Agent.{
  Dialogue, Decision, Reasoner, Observed, decide, explained, conclude, raise_flag, flag_data,
  with_flag, for_sku, for_product, decide_on, observe_sku, observe_product, evaluate_sku,
  evaluate_product,
}

-- A decision asks for a reorder only if no order is open.
abbrev IsConsistent : Decision → Type 0
IsConsistent d = (d.reorder_required ≡ false) ⊎ (d.has_open_po ≡ false)

decide-IsConsistent : (k : Option ℕ) (p : ℕ) (o : Observed) → IsConsistent (decide k p o)
decide-IsConsistent k p o = ground arith

with_flag-IsValid :
    (d : Decision) (f : ReorderFlag) (w : Store) → IsValid w → IsValid (with_flag d f w).1
with_flag-IsValid d f w v = v

raise_flag-IsValid :
    (d : Decision) (w : Store)
    → (d.reorder_required ≡ true) × (d.has_open_po ≡ false)
    → IsValid w
    → IsValid (raise_flag d w).1
raise_flag-IsValid d w h v =
    let persist = persist_reorder_flag d.sku_id d.sku_code (flag_data d) in
    let kept = persist_reorder_flag-IsValid d.sku_id d.sku_code (flag_data d) w h v in
    bind_ind (λ r. IsValid r.1) persist (with_flag d) w (λ f t e. rw (← ap (λ r. r.1) e) kept)
      (λ x t e. rw (← ap (λ r. r.1) e) kept)

conclude-IsValid :
    (d : Decision) (w : Store) → IsConsistent d → IsValid w → IsValid (conclude d w).1
conclude-IsValid d w c v = by_need d.reorder_required refl
  where
    by_need :
        (b : Bool) → d.reorder_required ≡ b → IsValid (if b then raise_flag d w else (ok d, w)).1
    by_need true e = raise_flag-IsValid d w (e, ground (arith, c, e)) v
    by_need false e = v

decide_on-IsValid :
    (reasoner : Reasoner) (decision : Observed → Decision) (r : Result Observed) (w : Store)
    → ((o : Observed) → IsConsistent (decision o))
    → IsValid w
    → IsValid (decide_on reasoner decision r w).1
decide_on-IsValid reasoner decision (err e) w c v = v
decide_on-IsValid reasoner decision (ok o) w c v =
    conclude-IsValid (explained reasoner (decision o)) w (c o) v

-- An evaluation of a SKU or of a product, with what the language model does in it.
pub data Evaluation : Type 0 where
  of_sku of_product : ℕ → Dialogue → Evaluation

module _ (reasoner : Reasoner) (tool_retries : ℕ) where
  abbrev pub evaluate : Evaluation → Action Store Decision
  evaluate (of_sku sku dialogue) = evaluate_sku reasoner tool_retries sku dialogue
  evaluate (of_product product dialogue) = evaluate_product reasoner tool_retries product dialogue

  -- The store after evaluations one after the other, those that raise among them.
  unfoldable pub evaluated : List Evaluation → Store → Store
  evaluated [] w = w
  evaluated (x ∷ xs) w = evaluated xs (evaluate x w).1

  pub evaluate-IsValid : (x : Evaluation) (w : Store) → IsValid w → IsValid (evaluate x w).1
  unfolding evaluate_sku evaluate_product
  evaluate-IsValid (of_sku sku dialogue) w v =
      decide_on-IsValid reasoner (for_sku sku) (observe_sku tool_retries sku dialogue w) w
        (λ o. decide-IsConsistent (some sku) o.stock.product_id o) v
  evaluate-IsValid (of_product product dialogue) w v =
      decide_on-IsValid reasoner (for_product product) (observe_product tool_retries dialogue w) w
        (λ o. decide-IsConsistent none product o) v

  -- A valid table of flags stays valid over any list of evaluations, those that raise among them.
  pub evaluated-IsValid : (xs : List Evaluation) (w : Store) → IsValid w → IsValid (evaluated xs w)
  unfolding evaluated
  evaluated-IsValid [] w v = v
  evaluated-IsValid (x ∷ xs) w v = evaluated-IsValid xs (evaluate x w).1 (evaluate-IsValid x w v)

module _ (sku : ℕ) (w : Store) where
  -- What an evaluation leaves: nothing changes, or the SKU has one open flag, with the numbers of the
  -- decision, and every other SKU has the open flags that it had.
  abbrev pub Flagged : Result Decision × Store → Type 0
  Flagged (err e, t) = t ≡ w
  Flagged (ok d, t) =
      ((d.reorder_required ≡ false) × (d.reorder_flag_id ≡ none) × (t ≡ w))
      ⊎ ((d.reorder_required ≡ true)
          × ((f : ReorderFlag) × (f ≡ flag_row sku (flag_data d) f.id f.created_at)
              × (d.reorder_flag_id ≡ some f.id)
              × ((s : ℕ)
                  → open_flags s t.flags.rows
                    ≡ (if s == sku then f ∷ [] else open_flags s w.flags.rows))
              × (t.db ≡ w.db)
              × (t.forecasts ≡ w.forecasts)))

  module _ (positive : 0 < sku) (valid : IsValid w) where
    raise_flag-Flagged :
        (d : Decision) → d.sku_id ≡ some sku → d.reorder_required ≡ true → Flagged (raise_flag d w)
    raise_flag-Flagged d k h =
        let c = flag_data d in
        let code = d.sku_code in
        let persisted =
          (subst (λ key. Persisted sku c w (persist_reorder_flag key code c w)) (sym k)
            (persist_reorder_flag-Persisted sku code c w positive valid)) in
        bind_ind Flagged (persist_reorder_flag d.sku_id code c) (with_flag d) w
          (λ f t e.
            let u = subst (Persisted sku c w) e persisted in inr (h, (f, u.0, refl, u.1, u.2, u.3)))
          (λ x t e. subst (Persisted sku c w) e persisted)

    conclude-Flagged :
        (d : Decision) → d.sku_id ≡ some sku → d.reorder_flag_id ≡ none → Flagged (conclude d w)
    conclude-Flagged d k n = by_need d.reorder_required refl
      where
        by_need :
            (b : Bool) → d.reorder_required ≡ b → Flagged (if b then raise_flag d w else (ok d, w))
        by_need true e = raise_flag-Flagged d k e
        by_need false e = inl (e, n, refl)

    decide_on-Flagged :
        (reasoner : Reasoner) (r : Result Observed) → Flagged (decide_on reasoner (for_sku sku) r w)
    decide_on-Flagged reasoner (err e) = refl
    decide_on-Flagged reasoner (ok o) =
        conclude-Flagged (explained reasoner (for_sku sku o)) refl refl

    -- With a key other than 0 and on a valid table of flags, an evaluation raises, or requires no
    -- reorder, and changes nothing, or leaves the SKU the one flag of the decision and every other SKU
    -- the open flags that it had.
    pub evaluate_sku-Flagged :
        (reasoner : Reasoner) (tool_retries : ℕ) (dialogue : Dialogue)
        → Flagged (evaluate_sku reasoner tool_retries sku dialogue w)
    unfolding evaluate_sku
    evaluate_sku-Flagged reasoner tool_retries dialogue =
        decide_on-Flagged reasoner (observe_sku tool_retries sku dialogue w)
