-- ===== src/Agent/Gated.antt =====
-- Runs of the purchasing agent (ai/agents/purchasing_agent.py) that nobody approves: without
-- `auto_approve` and without a callback.
use mathlib.Core.Path.{subst}
use smart_stock_ai.Prelude.{
  ℕ, Bool, true, false, not, Option, none, some, ◌∷◌, ◌≡◌, ◌⊎◌, inl, inr, refl, sym, ap, arith, ◌∙◌,
  if◌then◌else◌, ◌==◌, any, String, Bool-cases,
}
use smart_stock_ai.Prelude.Action.{
  Action, Result, bind_ind, Error, ok, err, does_not_exist, ◌>>=◌, ◌>>◌, pure, when,
}
use smart_stock_ai.Prelude.Keeps.{Keeps, >>=-Keeps, catch-Keeps, or_raise-Keeps}
use smart_stock_ai.Prelude.Table.{find, update}
use smart_stock_ai.Database.{
  Db, PurchaseOrder, PurchaseOrderWorkflow, Status, WorkflowStatus, MessageId, same_status,
}
use smart_stock_ai.Orders.Service.{draft_po, transition_po_status}
use smart_stock_ai.Workflow.{
  workflow_key, with_workflows, update_workflow, get_workflow_by_id, create_workflow, update_status,
  found_or_inserted, get_by_po_id,
}
use smart_stock_ai.Orders.Released.{released, draft_po-released, pending-released}
use smart_stock_ai.Agent.Tools.{
  Environment, Context, DraftResult, drafted, draft_failed, po_draft_tool, request,
}
use smart_stock_ai.Agent.Purchasing.{
  Outcome, Settings, OutcomeStatus, about, without_order, handle_approval_gate, move_on, ignored,
  or_continue, with_draft, execute_workflow, run, send_email, poll_for_confirmation,
}

create_workflow-released : (po_id : ℕ) → Keeps released (create_workflow po_id)
unfolding create_workflow
create_workflow-released po_id d = found_or_new (get_by_po_id po_id d)
  where
    found_or_new :
        (o : Option PurchaseOrderWorkflow) → released (found_or_inserted po_id o d).1 ≡ released d
    found_or_new none = refl
    found_or_new (some w) = refl

update_workflow-released :
    (id : ℕ) (f : PurchaseOrderWorkflow → PurchaseOrderWorkflow)
    → Keeps released (update_workflow id f)
unfolding update_workflow get_workflow_by_id
update_workflow-released id f d =
    let rows = update workflow_key id f d.workflows.rows in
    or_raise-Keeps released (find workflow_key id rows) does_not_exist (with_workflows rows d)

update_status-released :
    (id : ℕ) (s : WorkflowStatus) (m : Option MessageId) (x : Option String)
    → Keeps released (update_status id s m x)
unfolding update_status
update_status-released id s m x d = update_workflow-released id _ d

ignored-released : (e : Error) → Keeps released (ignored e)
ignored-released e d = ground arith

-- What an action that keeps the released orders leaves, in front of the rest.
left_by :
    {A : Type 0} {r : Result A} {t : Db} (m : Action Db A) (d : Db)
    → Keeps released m
    → m d ≡ (r, t)
    → released t ≡ released d
left_by m d h e = sym (ap (λ r. released r.1) e) ∙ h d

-- The released orders and the queued mail are as they were, and the outcome is `failed` or
-- `pending_approval`.
abbrev pub Gated : Db → Result Outcome × Db → Type 0
Gated d (ok o, t) =
    ((o.status ≡ OutcomeStatus.failed) ⊎ (o.status ≡ OutcomeStatus.pending_approval))
    × (released t ≡ released d)
Gated d (err e, t) = released t ≡ released d

-- The approval gate stops the run.
abbrev Halts : Db → Result (Option Outcome) × Db → Type 0
Halts d (ok (some o), t) = (o.status ≡ OutcomeStatus.pending_approval) × (released t ≡ released d)
Halts d (ok none, t) = ⊥
Halts d (err e, t) = released t ≡ released d

-- The same from an earlier state with the same released orders and mail.
carry : (d t : Db) (r : Result Outcome × Db) → released t ≡ released d → Gated t r → Gated d r
carry d t (ok o, u) same g = (g.0, g.1 ∙ same)
carry d t (err e, u) same g = g ∙ same

when-released : (b : Bool) (m : Action Db (Unit {0})) → Keeps released m → Keeps released (when b m)
when-released true m h = h
when-released false m h = λ d. refl

module _ (env : Environment) (settings : Settings) (c : Context) where
  move_on-released : (po_id : ℕ) → Keeps released (move_on env settings po_id)
  move_on-released po_id =
      catch-Keeps released (transition_po_status po_id Status.pending_approval >> pure tt) ignored
        (>>=-Keeps released (transition_po_status po_id Status.pending_approval) (λ x. pure tt)
          (pending-released po_id) (λ x d. refl))
        ignored-released

  po_draft_tool-released : Keeps released (po_draft_tool env c)
  unfolding po_draft_tool
  po_draft_tool-released =
      catch-Keeps released (draft_po (request env c) >>= drafted_as)
        (λ e. pure (draft_failed (env.str_of e)))
        (>>=-Keeps released (draft_po (request env c)) drafted_as
          (draft_po-released (request env c)) (λ po d. refl))
        (λ e d. refl)
    where
      drafted_as : PurchaseOrder → Action Db DraftResult
      drafted_as po = pure (drafted po.id po.status)

  module _ (auto : c.auto_approve ≡ false) (alone : c.approval_callback ≡ none) where
    gate-Halts :
        (po_id workflow_id : ℕ) (d : Db)
        → Halts d (handle_approval_gate env settings c po_id workflow_id d)
    unfolding handle_approval_gate
    gate-Halts po_id workflow_id d =
        let file = update_status workflow_id WorkflowStatus.pending_approval none none in
        let filed = update_status-released workflow_id WorkflowStatus.pending_approval none none in
        rw (auto, alone)
          (bind_ind (Halts d) file
            (λ x. pure (some (about OutcomeStatus.pending_approval po_id workflow_id ""))) d
            (λ x t e. (refl, left_by file d filed e)) (λ x t e. left_by file d filed e))

    or_continue-Gated :
        (d t : Db) (stopped : Option Outcome) (next : Action Db Outcome)
        → Halts d (ok stopped, t)
        → Gated d (or_continue env settings stopped next t)
    or_continue-Gated d t (some o) next h = (inr h.0, h.1)
    or_continue-Gated d t none next h = elim h [ ]

    with_draft-Gated :
        (po_id : ℕ) (status : Status) (d : Db) → Gated d (with_draft env settings c po_id status d)
    with_draft-Gated po_id status d =
        bind_ind (Gated d) (create_workflow po_id) (λ w. moved >> gated w.id) d
          (λ w t e.
            carry d t ((moved >> gated w.id) t)
              (left_by (create_workflow po_id) d (create_workflow-released po_id) e)
              (bind_ind (Gated t) moved (λ x. gated w.id) t
                (λ x u f.
                  carry t u (gated w.id u) (left_by moved t moved-released f) (gated-Gated w.id u))
                (λ x u f. left_by moved t moved-released f)))
          (λ x t e. left_by (create_workflow po_id) d (create_workflow-released po_id) e)
      where
        moved : Action Db (Unit {0})
        moved = when (same_status status Status.draft) (move_on env settings po_id)

        moved-released : Keeps released moved
        moved-released =
            when-released (same_status status Status.draft) (move_on env settings po_id)
              (move_on-released po_id)

        mailed : ℕ → Option Outcome → Action Db Outcome
        mailed w stopped = or_continue env settings stopped (do
          unsent ← send_email env settings po_id w
          or_continue env settings unsent (poll_for_confirmation env settings po_id w))

        gated : ℕ → Action Db Outcome
        gated w = handle_approval_gate env settings c po_id w >>= mailed w

        gated-Gated : (w : ℕ) (u : Db) → Gated u (gated w u)
        gated-Gated w u =
            bind_ind (Gated u) (handle_approval_gate env settings c po_id w) (mailed w) u
              (λ stopped v e.
                or_continue-Gated u v stopped
                  (do
                    unsent ← send_email env settings po_id w
                    or_continue env settings unsent (poll_for_confirmation env settings po_id w))
                  (subst (Halts u) e (gate-Halts po_id w u)))
              (λ x v e. subst (Halts u) e (gate-Halts po_id w u))

    started : DraftResult → Action Db Outcome
    started draft = elim draft [
      | draft_failed text ↦ pure (without_order text)
      | drafted po_id status ↦
          if po_id == 0
          then pure (without_order "Failed to create draft PO")
          else with_draft env settings c po_id status
    ]

    started-Gated : (r : DraftResult) (d : Db) → Gated d (started r d)
    unfolding started
    started-Gated (draft_failed text) d = (inl refl, refl)
    started-Gated (drafted po_id status) d = elim (Bool-cases (po_id == 0)) [
      | inl zero_key ↦ rw zero_key (inl refl, refl)
      | inr key ↦ rw key (with_draft-Gated po_id status d)
    ]

    execute_workflow-Gated : (d : Db) → Gated d (execute_workflow env settings c d)
    unfolding execute_workflow started
    execute_workflow-Gated d =
        bind_ind (Gated d) (po_draft_tool env c) started d
          (λ r t e.
            carry d t (started r t) (left_by (po_draft_tool env c) d po_draft_tool-released e)
              (started-Gated r t))
          (λ x t e. left_by (po_draft_tool env c) d po_draft_tool-released e)

    -- Without `auto_approve` and without a callback a run ends with `failed` or `pending_approval`; the
    -- orders that someone has approved and the mail that is queued stay as they were.
    pub run-Gated : (d : Db) → Gated d (run env settings c d)
    unfolding run
    run-Gated d = elim (Bool-cases unsafe) [
      | inl blocked ↦ rw blocked (inl refl, refl)
      | inr clear ↦
          rw clear (failed_or (execute_workflow env settings c d) (execute_workflow-Gated d))
    ]
      where
        unsafe : Bool
        unsafe = any (λ text. not (env.is_safe text)) (c.agent_reasoning ∷ c.other_texts)

        failed_or :
            (r : Result Outcome × Db)
            → Gated d r
            → Gated d (elim r.0 as (λ x. Result Outcome × Db) [
              | ok o ↦ (ok o, r.1)
              | err e ↦ (ok (without_order (env.str_of e)), r.1)
            ])
        failed_or (ok o, t) g = g
        failed_or (err e, t) g = (inl refl, g)
