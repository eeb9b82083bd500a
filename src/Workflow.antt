-- ===== src/Workflow.antt =====
-- PurchaseOrderWorkflowService (apps/purchasing/workflow_services.py) over
-- PurchaseOrderWorkflowRepository (apps/purchasing/repositories.py). An order has at most one
-- workflow, so the first row with its key is the one that `get_by_po_id` finds.
use smart_stock_ai.Prelude.{
  ℕ, ◌+◌, Option, none, some, List, [], ◌∷◌, ◌++◌, String, if◌then◌else◌, select, not, ◌==◌,
}
use smart_stock_ai.Prelude.Action.{
  Action, does_not_exist, ◌>>=◌, ◌>>◌, pure, gets, or_raise, modify,
}
use smart_stock_ai.Prelude.Table.{find, update}
use smart_stock_ai.Database.{Db, PurchaseOrderWorkflow, WorkflowStatus, MessageId, is_waiting}
use smart_stock_ai.Orders.Service.{or_kept}

abbrev pub workflow_key : PurchaseOrderWorkflow → ℕ
workflow_key w = w.id

abbrev pub workflow_order : PurchaseOrderWorkflow → ℕ
workflow_order w = w.purchase_order

abbrev pub with_workflows : List PurchaseOrderWorkflow → Db → Db
with_workflows rows d = record d {
  workflows = record { rows = rows; next_id = d.workflows.next_id };
}

unfoldable pub get_workflow_by_id : ℕ → Action Db PurchaseOrderWorkflow
get_workflow_by_id id = do
  or_raise (← gets (λ d. find workflow_key id d.workflows.rows)) does_not_exist

unfoldable pub update_workflow :
    ℕ → (PurchaseOrderWorkflow → PurchaseOrderWorkflow) → Action Db PurchaseOrderWorkflow
update_workflow id f = do
  modify (λ d. with_workflows (update workflow_key id f d.workflows.rows) d)
  get_workflow_by_id id

-- `get_workflow`
abbrev pub get_by_po_id : ℕ → Db → Option PurchaseOrderWorkflow
get_by_po_id po_id d = find workflow_order po_id d.workflows.rows

-- `delete` of the repository
abbrev pub delete_workflow : ℕ → Action Db (Unit {0})
delete_workflow id =
    modify (λ d. with_workflows (select (λ w. not (w.id == id)) d.workflows.rows) d)

abbrev pub new_workflow : ℕ → ℕ → PurchaseOrderWorkflow
new_workflow id po_id = record {
  id = id;
  purchase_order = po_id;
  status = WorkflowStatus.draft;
  message_id = none;
  polling_attempts = 0;
  last_poll_at = none;
  error_message = "";
}

abbrev pub insert_workflow : ℕ → Action Db PurchaseOrderWorkflow
insert_workflow po_id d =
    let w = new_workflow d.workflows.next_id po_id in
    pure w (record d {
      workflows = record { rows = d.workflows.rows ++ w ∷ []; next_id = d.workflows.next_id + 1 };
    })

abbrev pub found_or_inserted : ℕ → Option PurchaseOrderWorkflow → Action Db PurchaseOrderWorkflow
found_or_inserted po_id (some existing) = pure existing
found_or_inserted po_id none = insert_workflow po_id

unfoldable pub create_workflow : ℕ → Action Db PurchaseOrderWorkflow
create_workflow po_id = do found_or_inserted po_id (← gets (get_by_po_id po_id))

abbrev text_or_kept : Option String → String → String
text_or_kept none old = old
text_or_kept (some text) old = text

unfoldable pub update_status :
    ℕ → WorkflowStatus → Option MessageId → Option String → Action Db PurchaseOrderWorkflow
update_status workflow_id status message_id error_message = do
  now ← gets (λ d. d.now)
  update_workflow workflow_id (λ w. record w {
    status = status;
    message_id = or_kept message_id w.message_id;
    last_poll_at = if is_waiting status then some now else w.last_poll_at;
    error_message = text_or_kept error_message w.error_message;
  })

unfoldable pub increment_polling_attempt : ℕ → Action Db PurchaseOrderWorkflow
increment_polling_attempt workflow_id = do
  workflow ← get_workflow_by_id workflow_id
  now ← gets (λ d. d.now)
  update_workflow workflow_id
      (λ w. record w { polling_attempts = workflow.polling_attempts + 1; last_poll_at = some now })

unfoldable pub mark_workflow_confirmed : ℕ → Action Db PurchaseOrderWorkflow
mark_workflow_confirmed workflow_id =
    update_workflow workflow_id (λ w. record w { status = WorkflowStatus.confirmed })
