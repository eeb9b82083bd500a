-- ===== src/Database/Choices.antt =====
-- The `Status` choices of PurchaseOrder and of PurchaseOrderWorkflow, and tests on them.
use smart_stock_ai.Prelude.{ℕ, Bool, true, false, List, any, ◌==◌}

pub data Status : Type 0 where
  draft pending_approval approved email_sent sent waiting_confirmation : Status
  confirmed rejected cancelled failed timeout : Status

pub data WorkflowStatus : Type 0 where
  draft pending_approval approved email_sent waiting_confirmation : WorkflowStatus
  confirmed rejected failed timeout : WorkflowStatus

-- The place of a status among the choices, by which statuses are compared.
abbrev pub code : Status → ℕ
code draft = 0
code pending_approval = 1
code approved = 2
code email_sent = 3
code sent = 4
code waiting_confirmation = 5
code confirmed = 6
code rejected = 7
code cancelled = 8
code failed = 9
code timeout = 10

abbrev pub same_status : Status → Status → Bool
same_status a b = code a == code b

-- `status in [...]`
abbrev pub is_one_of : Status → List Status → Bool
is_one_of s = any (same_status s)

abbrev pub is_draft_or_pending : Status → Bool
is_draft_or_pending draft = true
is_draft_or_pending pending_approval = true
is_draft_or_pending _ = false

abbrev pub is_waiting : WorkflowStatus → Bool
is_waiting WorkflowStatus.waiting_confirmation = true
is_waiting _ = false
