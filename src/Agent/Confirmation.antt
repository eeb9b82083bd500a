-- ===== src/Agent/Confirmation.antt =====
-- How a run of the purchasing agent (ai/agents/purchasing_agent.py) cannot end.
use smart_stock_ai.Prelude.{
  ℕ, zero, suc, ◌+◌, ◌*◌, min, Bool, not, Option, none, some, ◌≡◌, ◌≢◌, inl, inr, arith, Bool-cases,
  if◌then◌else◌, ◌==◌, any, ◌∷◌,
}
use mathlib.Core.Path.{subst}
use smart_stock_ai.Prelude.Action.{
  Action, Result, ok, err, ◌>>=◌, ◌>>◌, pure, when, bind_ind, then_ind, modify, catch_ind, >>=_err,
}
use smart_stock_ai.Database.{Db, Status, WorkflowStatus, same_status}
use smart_stock_ai.Orders.Service.{mark_confirmed, mark_timeout, mark_failed}
use smart_stock_ai.Workflow.{create_workflow, update_status, increment_polling_attempt}
use smart_stock_ai.Agent.Tools.{
  Environment, Context, DraftResult, drafted, draft_failed, Poll, poll_confirmed, poll_terminal,
  poll_waiting, poll_error, confirmation_tool, po_draft_tool,
}
use smart_stock_ai.Agent.Purchasing.{
  Outcome, Settings, OutcomeStatus, confirmed, on_answer, polled, terminal_error, poll_from,
  poll_for_confirmation, send_email, handle_approval_gate, without_order, or_continue, with_draft,
  move_on, execute_workflow, run,
}
use smart_stock_ai.Agent.Listener.{confirmation_refused}
use smart_stock_ai.Agent.Gates.{
  NotConfirmed, Stops, then-NotConfirmed, send_email-Stops, gate-Stops,
}

module _ (env : Environment) (settings : Settings) where
  on_answer-NotConfirmed :
      (again : Action Db Outcome) (attempts po_id workflow_id : ℕ) (answer : Poll) (d t : Db)
      → confirmation_tool po_id d ≡ (ok answer, t)
      → NotConfirmed (again t)
      → NotConfirmed (on_answer env settings again attempts po_id workflow_id answer t)
  on_answer-NotConfirmed again attempts po_id workflow_id poll_confirmed d t e h =
      rw (>>=_err (mark_confirmed po_id) _ t (confirmation_refused po_id d t e)) tt
  on_answer-NotConfirmed again attempts po_id workflow_id (poll_terminal s) d t e h =
      then-NotConfirmed (mark_failed po_id (terminal_error s))
        (update_status workflow_id WorkflowStatus.failed none (some (terminal_error s)))
        (polled OutcomeStatus.failed po_id workflow_id attempts (terminal_error s)) t (λ p. cc)
  on_answer-NotConfirmed again attempts po_id workflow_id poll_waiting d t e h = h
  on_answer-NotConfirmed again attempts po_id workflow_id poll_error d t e h = h

  poll_from-NotConfirmed :
      (left attempt delay po_id workflow_id : ℕ) (d : Db)
      → NotConfirmed (poll_from env settings left attempt delay po_id workflow_id d)
  unfolding poll_from
  poll_from-NotConfirmed zero attempt delay po_id workflow_id d =
      then-NotConfirmed (mark_timeout po_id)
        (update_status workflow_id WorkflowStatus.timeout none none)
        (polled OutcomeStatus.timeout po_id workflow_id settings.max_attempts
          (env.not_received settings.max_attempts))
        d (λ p. cc)
  poll_from-NotConfirmed (suc left) attempt delay po_id workflow_id d =
      let next = min (delay * 2) settings.max_delay in
      let again = poll_from env settings left (attempt + 1) next po_id workflow_id in
      let read = on_answer env settings again (attempt + 1) po_id workflow_id in
      then_ind NotConfirmed (increment_polling_attempt workflow_id)
        (modify (env.sleep delay) >> (confirmation_tool po_id >>= read)) d
        (λ t.
          bind_ind NotConfirmed (confirmation_tool po_id) read (env.sleep delay t)
            (λ answer u e.
              on_answer-NotConfirmed again (attempt + 1) po_id workflow_id answer
                (env.sleep delay t) u e
                (poll_from-NotConfirmed left (attempt + 1) next po_id workflow_id u))
            (λ x u e. tt))
        (λ x t. tt)

  or_continue-NotConfirmed :
      (stopped : Option Outcome) (next : Action Db Outcome) (t : Db)
      → Stops (ok stopped, t)
      → ((u : Db) → NotConfirmed (next u))
      → NotConfirmed (or_continue env settings stopped next t)
  or_continue-NotConfirmed (some o) next t h k = h
  or_continue-NotConfirmed none next t h k = k t

  with_draft-NotConfirmed :
      (c : Context) (po_id : ℕ) (status : Status) (d : Db)
      → NotConfirmed (with_draft env settings c po_id status d)
  unfolding poll_for_confirmation
  with_draft-NotConfirmed c po_id status d =
      bind_ind NotConfirmed (create_workflow po_id)
        (λ w. when start (move_on env settings po_id) >> gated w.id) d
        (λ w t e.
          then_ind NotConfirmed (when start (move_on env settings po_id)) (gated w.id) t
            (λ u.
              bind_ind NotConfirmed (handle_approval_gate env settings c po_id w.id) (mailed w.id) u
                (λ s v f.
                  or_continue-NotConfirmed s (sent w.id) v
                    (subst Stops f (gate-Stops env settings c po_id w.id u))
                    (sent-NotConfirmed w.id))
                (λ x v f. tt))
            (λ x u. tt))
        (λ x t e. tt)
    where
      start : Bool
      start = same_status status Status.draft

      polled_after : ℕ → Option Outcome → Action Db Outcome
      polled_after w unsent =
          or_continue env settings unsent (poll_for_confirmation env settings po_id w)

      sent : ℕ → Action Db Outcome
      sent w = send_email env settings po_id w >>= polled_after w

      mailed : ℕ → Option Outcome → Action Db Outcome
      mailed w stopped = or_continue env settings stopped (sent w)

      gated : ℕ → Action Db Outcome
      gated w = handle_approval_gate env settings c po_id w >>= mailed w

      sent-NotConfirmed : (w : ℕ) (u : Db) → NotConfirmed (sent w u)
      sent-NotConfirmed w u =
          bind_ind NotConfirmed (send_email env settings po_id w) (polled_after w) u
            (λ s v f.
              or_continue-NotConfirmed s (poll_for_confirmation env settings po_id w) v
                (subst Stops f (send_email-Stops env settings po_id w u))
                (λ x.
                  poll_from-NotConfirmed settings.max_attempts 0 settings.initial_delay po_id w x))
            (λ x v f. tt)

  execute_workflow-NotConfirmed :
      (c : Context) (d : Db) → NotConfirmed (execute_workflow env settings c d)
  unfolding execute_workflow
  execute_workflow-NotConfirmed c d =
      bind_ind NotConfirmed (po_draft_tool env c) started d (λ r t e. start-NotConfirmed r t)
        (λ x t e. tt)
    where
      started : DraftResult → Action Db Outcome
      started draft = elim draft [
        | draft_failed text ↦ pure (without_order text)
        | drafted po_id status ↦
            if po_id == 0
            then pure (without_order "Failed to create draft PO")
            else with_draft env settings c po_id status
      ]

      start-NotConfirmed : (r : DraftResult) (t : Db) → NotConfirmed (started r t)
      start-NotConfirmed (draft_failed text) t = λ p. cc
      start-NotConfirmed (drafted po_id status) t = elim (Bool-cases (po_id == 0)) [
        | inl zero_key ↦ rw zero_key (λ p. cc)
        | inr key ↦ rw key (with_draft-NotConfirmed c po_id status t)
      ]

  run-NotConfirmed : (c : Context) (d : Db) → NotConfirmed (run env settings c d)
  unfolding run
  run-NotConfirmed c d =
      elim (Bool-cases (any (λ text. not (env.is_safe text)) (c.agent_reasoning ∷ c.other_texts))) [
        | inl blocked ↦ rw blocked (λ p. cc)
        | inr safe ↦ rw safe (
            catch_ind NotConfirmed (execute_workflow env settings c)
              (λ e. pure (without_order (env.str_of e))) d
              (λ o t e. subst NotConfirmed e (execute_workflow-NotConfirmed c d))
              (λ e t f. λ p. cc))
      ]

  -- No run of the agent ends with the status `confirmed`, whatever others do while it sleeps and
  -- whatever the supplier answers: the listener reports `confirmed` only of an order that is
  -- confirmed already, and `mark_confirmed` refuses such an order.
  pub run-ne-confirmed :
      (c : Context) (d : Db) (o : Outcome) → (run env settings c d).0 ≡ ok o → o.status ≢ confirmed
  run-ne-confirmed c d o e = result (run env settings c d) (run-NotConfirmed c d) e
    where
      result : (p : Result Outcome × Db) → NotConfirmed p → p.0 ≡ ok o → o.status ≢ confirmed
      result (ok x, t) h f = λ g. h (ground arith)
      result (err x, t) h f = cc
