-- ===== src/Agent/Tests.antt =====
-- A run of the agent in which nobody answers.
use smart_stock_ai.Prelude.{true, false, none, some, [], ◌≡◌, ◌≢◌, refl}
use smart_stock_ai.Prelude.Int.{pos}
use smart_stock_ai.Prelude.Action.{ok}
use smart_stock_ai.Database.{Db}
use smart_stock_ai.Database.Sample.{store}
use smart_stock_ai.Orders.Repository.{
  latest, create, get_by_id, update_order, update_where, uq_active_ok,
}
use smart_stock_ai.Orders.Service.{
  draft_po, transition_po_status, approve_po, delay_email, mark_email_sent,
  mark_waiting_confirmation, mark_timeout, get_po_with_supplier,
}
use smart_stock_ai.Workflow.{
  create_workflow, update_status, update_workflow, get_workflow_by_id, increment_polling_attempt,
}
use smart_stock_ai.Agent.Tools.{
  po_draft_tool, email_send_tool, confirmation_tool, Environment, Context,
}
use smart_stock_ai.Agent.Purchasing.{
  Settings, OutcomeStatus, polled, run, execute_workflow, handle_approval_gate, send_email,
  poll_for_confirmation, poll_from,
}
use smart_stock_ai.Agent.Gated.{Gated, run-Gated}
use smart_stock_ai.Agent.Confirmation.{run-ne-confirmed}

abbrev quiet : Environment
quiet = record {
  user_exists = λ id. true;
  str_of = λ e. "error";
  not_sendable = λ po s. "not sendable";
  not_received = λ attempts. "Confirmation not received";
  random = 7;
  is_safe = λ text. true;
  is_production = false;
  sleep = λ delay d. d;
}

abbrev settings : Settings
settings = record { initial_delay = 60; max_delay = 3600; max_attempts = 2 }

abbrev context : Context
context = record {
  sku_id = 1;
  quantity = pos 5;
  supplier_id = 1;
  user_id = some 7;
  agent_reasoning = "low stock";
  other_texts = [];
  total_cost = pos 1250;
  user = some 7;
  auto_approve = true;
  approval_callback = none;
}

abbrev empty : Db
empty = store []

quiet-run :
    (run quiet settings context empty).0
    ≡ ok (polled OutcomeStatus.timeout 3 1 2 "Confirmation not received")
unfolding run execute_workflow po_draft_tool draft_po latest create create_workflow
    transition_po_status get_by_id update_order update_where uq_active_ok handle_approval_gate
    update_status update_workflow get_workflow_by_id approve_po send_email email_send_tool
    delay_email mark_email_sent mark_waiting_confirmation poll_for_confirmation poll_from
    increment_polling_attempt confirmation_tool mark_timeout get_po_with_supplier
quiet-run = refl

run-ne-confirmed_example : OutcomeStatus.timeout ≢ OutcomeStatus.confirmed
run-ne-confirmed_example =
    run-ne-confirmed quiet settings context empty
      (polled OutcomeStatus.timeout 3 1 2 "Confirmation not received") quiet-run

-- The same run with nobody to approve it.
abbrev unapproved : Context
unapproved = record context { auto_approve = false }

run-Gated_example : Gated empty (run quiet settings unapproved empty)
run-Gated_example = run-Gated quiet settings unapproved refl refl empty
