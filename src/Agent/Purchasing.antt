-- ===== src/Agent/Purchasing.antt =====
-- PurchasingAgent (ai/agents/purchasing_agent.py). Traces, timings, the records of agent runs and
-- the monitoring task are left out but for the status that a run is filed under.
use smart_stock_ai.Prelude.{
  ℕ, zero, suc, ◌+◌, ◌*◌, min, Bool, true, false, not, ◌&&◌, Option, none, some, ◌∷◌, String,
  if◌then◌else◌, ◌==◌, any,
}
use smart_stock_ai.Prelude.Action.{Action, Error, ok, ◌>>=◌, ◌>>◌, pure, raise, catch, modify, when}
use smart_stock_ai.Database.{Db, Status, WorkflowStatus, same_status}
use smart_stock_ai.Orders.Service.{
  approve_po, reject_po, mark_email_sent, mark_waiting_confirmation, mark_confirmed, mark_failed,
  mark_timeout, transition_po_status,
}
use smart_stock_ai.Workflow.{
  create_workflow, update_status, increment_polling_attempt, mark_workflow_confirmed,
}
use smart_stock_ai.Agent.Tools.{
  Poll, Environment, Context, po_draft_tool, drafted, draft_failed, EmailResult, email_sent,
  email_failed, email_send_tool, poll_confirmed, poll_terminal, poll_waiting, poll_error,
  confirmation_tool,
}

-- The `status` of a result, and what else it carries.
pub data OutcomeStatus : Type 0 where
  failed rejected timeout pending_approval confirmed : OutcomeStatus

pub record Outcome : Type 0 where
  pub status : OutcomeStatus
  pub po_id : Option ℕ
  pub workflow_id : Option ℕ
  pub polling_attempts : Option ℕ
  pub error : String

pub record Settings : Type 0 where
  pub initial_delay : ℕ
  pub max_delay : ℕ
  pub max_attempts : ℕ

abbrev pub about : OutcomeStatus → ℕ → ℕ → String → Outcome
about s po_id workflow_id text = record {
  status = s;
  po_id = some po_id;
  workflow_id = some workflow_id;
  polling_attempts = none;
  error = text;
}

abbrev pub polled : OutcomeStatus → ℕ → ℕ → ℕ → String → Outcome
polled s po_id workflow_id attempts text = record {
  status = s;
  po_id = some po_id;
  workflow_id = some workflow_id;
  polling_attempts = some attempts;
  error = text;
}

abbrev pub without_order : String → Outcome
without_order text = record {
  status = failed;
  po_id = none;
  workflow_id = none;
  polling_attempts = none;
  error = text;
}

abbrev pub terminal_error : Status → String
terminal_error Status.rejected = "PO reached terminal status: rejected"
terminal_error Status.cancelled = "PO reached terminal status: cancelled"
terminal_error Status.timeout = "PO reached terminal status: timeout"
terminal_error _ = "PO reached terminal status: failed"

-- `except IllegalPOTransitionError: log`
abbrev pub ignored : Error → Action Db (Unit {0})
ignored Error.illegal_po_transition = pure tt
ignored e = raise e

module _ (env : Environment) (settings : Settings) where
  -- The end of `_poll_for_confirmation`, when the attempts are used up.
  abbrev pub give_up : ℕ → ℕ → Action Db Outcome
  give_up po_id workflow_id = do
    mark_timeout po_id
    update_status workflow_id WorkflowStatus.timeout none none
    pure (
        polled timeout po_id workflow_id settings.max_attempts
          (env.not_received settings.max_attempts))

  abbrev pub confirm : ℕ → ℕ → ℕ → Action Db Outcome
  confirm po_id workflow_id attempts = do
    mark_confirmed po_id
    mark_workflow_confirmed workflow_id
    pure (polled confirmed po_id workflow_id attempts "")

  abbrev pub stop_at : Status → ℕ → ℕ → ℕ → Action Db Outcome
  stop_at s po_id workflow_id attempts = do
    mark_failed po_id (terminal_error s)
    update_status workflow_id WorkflowStatus.failed none (some (terminal_error s))
    pure (polled failed po_id workflow_id attempts (terminal_error s))

  -- What the loop does with an answer; `again` is its next round.
  abbrev pub on_answer : Action Db Outcome → ℕ → ℕ → ℕ → Poll → Action Db Outcome
  on_answer again attempts po_id workflow_id poll_confirmed = confirm po_id workflow_id attempts
  on_answer again attempts po_id workflow_id (poll_terminal s) =
      stop_at s po_id workflow_id attempts
  on_answer again attempts po_id workflow_id poll_waiting = again
  on_answer again attempts po_id workflow_id poll_error = again

  -- The loop of `_poll_for_confirmation`: the attempts that are left, those made, and the delay.
  unfoldable pub poll_from : ℕ → ℕ → ℕ → ℕ → ℕ → Action Db Outcome
  poll_from zero attempt delay po_id workflow_id = give_up po_id workflow_id
  poll_from (suc left) attempt delay po_id workflow_id = do
    increment_polling_attempt workflow_id
    modify (env.sleep delay)
    answer ← confirmation_tool po_id
    let next = min (delay * 2) settings.max_delay
    let again = poll_from left (attempt + 1) next po_id workflow_id
    on_answer again (attempt + 1) po_id workflow_id answer

  unfoldable pub poll_for_confirmation : ℕ → ℕ → Action Db Outcome
  poll_for_confirmation = poll_from settings.max_attempts 0 settings.initial_delay

  -- `_send_email`: none when the e-mail is queued and the order waits.
  abbrev pub after_email : ℕ → ℕ → EmailResult → Action Db (Option Outcome)
  after_email po_id workflow_id (email_failed text) = do
    mark_failed po_id text
    update_status workflow_id WorkflowStatus.failed none (some text)
    pure (some (about failed po_id workflow_id text))
  after_email po_id workflow_id (email_sent m) = do
    mark_email_sent po_id (some m)
    update_status workflow_id WorkflowStatus.email_sent (some m) none
    mark_waiting_confirmation po_id
    update_status workflow_id WorkflowStatus.waiting_confirmation none none
    pure none

  unfoldable pub send_email : ℕ → ℕ → Action Db (Option Outcome)
  send_email po_id workflow_id = do after_email po_id workflow_id (← email_send_tool env po_id)

  abbrev pub approve_by : Option ℕ → ℕ → Action Db (Unit {0})
  approve_by none po_id = pure tt
  approve_by (some user) po_id = approve_po po_id user true >> pure tt

  abbrev pub approved_by_user : Option ℕ → ℕ → ℕ → Action Db (Option Outcome)
  approved_by_user user po_id workflow_id = do
    approve_by user po_id
    update_status workflow_id WorkflowStatus.approved none none
    pure none

  abbrev pub refuse : ℕ → ℕ → Action Db (Option Outcome)
  refuse po_id workflow_id = do
    reject_po po_id
    update_status workflow_id WorkflowStatus.rejected none none
    pure (some (about rejected po_id workflow_id ""))

  abbrev pub ask : Option (ℕ → Db → Bool × Db) → Option ℕ → ℕ → ℕ → Action Db (Option Outcome)
  ask none user po_id workflow_id = pure (some (about pending_approval po_id workflow_id ""))
  ask (some callback) user po_id workflow_id = do
    approved ← (λ d. let (answer, d') = callback po_id d in (ok answer, d'))
    if approved then approved_by_user user po_id workflow_id else refuse po_id workflow_id

  -- `_handle_approval_gate`: none when the order is approved.
  unfoldable pub handle_approval_gate : Context → ℕ → ℕ → Action Db (Option Outcome)
  handle_approval_gate c po_id workflow_id = do
    update_status workflow_id WorkflowStatus.pending_approval none none
    if c.auto_approve && not env.is_production
        then approved_by_user c.user po_id workflow_id
        else ask c.approval_callback c.user po_id workflow_id

  -- A draft is moved on; an illegal transition is logged, and anything else is raised.
  abbrev pub move_on : ℕ → Action Db (Unit {0})
  move_on po_id = catch (transition_po_status po_id Status.pending_approval >> pure tt) ignored

  abbrev pub or_continue : Option Outcome → Action Db Outcome → Action Db Outcome
  or_continue (some outcome) next = pure outcome
  or_continue none next = next

  abbrev pub with_draft : Context → ℕ → Status → Action Db Outcome
  with_draft c po_id status = do
    workflow ← create_workflow po_id
    when (same_status status Status.draft) (move_on po_id)
    stopped ← handle_approval_gate c po_id workflow.id
    or_continue stopped (do
      unsent ← send_email po_id workflow.id
      or_continue unsent (poll_for_confirmation po_id workflow.id))

  unfoldable pub execute_workflow : Context → Action Db Outcome
  execute_workflow c = do
    draft ← po_draft_tool env c
    elim draft [
      | draft_failed text ↦ pure (without_order text)
      | drafted po_id status ↦
          if po_id == 0
          then pure (without_order "Failed to create draft PO")
          else with_draft c po_id status
    ]

  -- How the run is filed: `AgentRun.Status.COMPLETED`, or `FAILED`.
  abbrev pub is_completed : Outcome → Bool
  is_completed o = elim o.status [ failed ↦ false | rejected ↦ false | timeout ↦ false | _ ↦ true ]

  -- `run` never raises: an exception becomes a failed result.
  unfoldable pub run : Context → Action Db Outcome
  run c =
      if any (λ text. not (env.is_safe text)) (c.agent_reasoning ∷ c.other_texts)
      then pure (without_order "Request blocked: prompt injection detected in input payload")
      else catch (execute_workflow c) (λ e. pure (without_order (env.str_of e)))
