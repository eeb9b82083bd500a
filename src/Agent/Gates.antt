-- ===== src/Agent/Gates.antt =====
-- The parts of a run of the purchasing agent that stop it: `_send_email` and the approval gate
-- (ai/agents/purchasing_agent.py).
use smart_stock_ai.Prelude.{ℕ, Bool, true, false, not, ◌&&◌, Option, none, some, ◌≢◌, if◌then◌else◌}
use smart_stock_ai.Prelude.Action.{Action, Result, ok, err, ◌>>◌, pure, bind_ind, then_ind}
use smart_stock_ai.Database.{Db, WorkflowStatus}
use smart_stock_ai.Orders.Service.{
  mark_failed, mark_email_sent, mark_waiting_confirmation, reject_po,
}
use smart_stock_ai.Workflow.{update_status}
use smart_stock_ai.Agent.Tools.{
  Environment, Context, EmailResult, email_sent, email_failed, email_send_tool,
}
use smart_stock_ai.Agent.Purchasing.{
  Outcome, Settings, OutcomeStatus, confirmed, about, send_email, after_email, handle_approval_gate,
  ask, refuse, approved_by_user, approve_by,
}

abbrev pub NotConfirmed : Result Outcome × Db → Type 0
NotConfirmed (ok o, d) = o.status ≢ confirmed
NotConfirmed (err e, d) = Unit

abbrev pub Stops : Result (Option Outcome) × Db → Type 0
Stops (ok (some o), d) = o.status ≢ confirmed
Stops _ = Unit

-- Two actions and a result that says nothing of confirmation.
pub then-NotConfirmed :
    {A B : Type 0} (m : Action Db A) (n : Action Db B) (o : Outcome) (d : Db)
    → o.status ≢ confirmed
    → NotConfirmed ((m >> (n >> pure o)) d)
then-NotConfirmed m n o d h =
    then_ind NotConfirmed m (n >> pure o) d
      (λ t. then_ind NotConfirmed n (pure o) t (λ u. h) (λ e u. tt)) (λ e t. tt)

-- One action before the rest of a gate.
pub then_Stops :
    {A : Type 0} (m : Action Db A) (k : Action Db (Option Outcome))
    → ((t : Db) → Stops (k t))
    → (d : Db) → Stops ((m >> k) d)
then_Stops m k h d = then_ind Stops m k d h (λ e t. tt)

module _ (env : Environment) (settings : Settings) where
  -- `_send_email` and the approval gate stop a run with other outcomes only.
  pub after_email-Stops :
      (po_id workflow_id : ℕ) (answer : EmailResult)
      → (d : Db) → Stops (after_email env settings po_id workflow_id answer d)
  after_email-Stops po_id workflow_id (email_failed text) =
      let file = update_status workflow_id WorkflowStatus.failed none (some text) in
      let stop = pure {S = Db} (some (about OutcomeStatus.failed po_id workflow_id text)) in
      then_Stops (mark_failed po_id text) (file >> stop) (then_Stops file stop (λ u p. cc))
  after_email-Stops po_id workflow_id (email_sent m) =
      let go_on = pure {S = Db} {A = Option Outcome} none in
      let wait = update_status workflow_id WorkflowStatus.waiting_confirmation none none in
      let file = update_status workflow_id WorkflowStatus.email_sent (some m) none in
      let mark = mark_waiting_confirmation po_id in
      then_Stops (mark_email_sent po_id (some m)) (file >> (mark >> (wait >> go_on))) (
        then_Stops file (mark >> (wait >> go_on))
          (then_Stops mark (wait >> go_on) (then_Stops wait go_on (λ u. tt))))

  pub send_email-Stops :
      (po_id workflow_id : ℕ) (d : Db) → Stops (send_email env settings po_id workflow_id d)
  unfolding send_email
  send_email-Stops po_id workflow_id d =
      bind_ind Stops (email_send_tool env po_id) (after_email env settings po_id workflow_id) d
        (λ a t e. after_email-Stops po_id workflow_id a t) (λ x t e. tt)

  pub approved_by_user-Stops :
      (user : Option ℕ) (po_id workflow_id : ℕ) (d : Db)
      → Stops (approved_by_user env settings user po_id workflow_id d)
  approved_by_user-Stops user po_id workflow_id =
      let go_on = pure {S = Db} {A = Option Outcome} none in
      let file = update_status workflow_id WorkflowStatus.approved none none in
      then_Stops (approve_by env settings user po_id) (file >> go_on)
        (then_Stops file go_on (λ u. tt))

  pub refuse-Stops :
      (po_id workflow_id : ℕ) (d : Db) → Stops (refuse env settings po_id workflow_id d)
  refuse-Stops po_id workflow_id =
      let stop = pure {S = Db} (some (about OutcomeStatus.rejected po_id workflow_id "")) in
      let file = update_status workflow_id WorkflowStatus.rejected none none in
      then_Stops (reject_po po_id) (file >> stop) (then_Stops file stop (λ u p. cc))

  pub ask-Stops :
      (callback : Option (ℕ → Db → Bool × Db)) (user : Option ℕ) (po_id workflow_id : ℕ) (d : Db)
      → Stops (ask env settings callback user po_id workflow_id d)
  ask-Stops none user po_id workflow_id d = λ p. cc
  ask-Stops (some callback) user po_id workflow_id d =
      answered (callback po_id d).0 (callback po_id d).1
    where
      answered :
          (b : Bool) (t : Db)
          → Stops (
              (if b
                  then approved_by_user env settings user po_id workflow_id
                  else refuse env settings po_id workflow_id)
                t)
      answered true t = approved_by_user-Stops user po_id workflow_id t
      answered false t = refuse-Stops po_id workflow_id t

  pub gate-Stops :
      (c : Context) (po_id workflow_id : ℕ) (d : Db)
      → Stops (handle_approval_gate env settings c po_id workflow_id d)
  unfolding handle_approval_gate
  gate-Stops c po_id workflow_id d =
      then_ind Stops (update_status workflow_id WorkflowStatus.pending_approval none none)
        (if automatic
          then approved_by_user env settings c.user po_id workflow_id
          else ask env settings c.approval_callback c.user po_id workflow_id)
        d (either automatic) (λ e t. tt)
    where
      automatic : Bool
      automatic = c.auto_approve && not env.is_production

      either :
          (b : Bool) (t : Db)
          → Stops (
              (if b
                  then approved_by_user env settings c.user po_id workflow_id
                  else ask env settings c.approval_callback c.user po_id workflow_id)
                t)
      either true t = approved_by_user-Stops c.user po_id workflow_id t
      either false t = ask-Stops c.approval_callback c.user po_id workflow_id t
