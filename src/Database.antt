-- ===== src/Database.antt =====
-- The database that the services share: the models of apps/inventory/models.py,
-- apps/purchasing/models.py and apps/purchasing/workflow_models.py, with what the handlers reach
-- beside it: the clock, the signals that were sent, the tasks in the Celery queue and the version of
-- the product cache. Times are seconds, money is in cents, and foreign keys are the keys of their
-- rows.
mod Choices
pub mod Sample
pub use Choices.*
use smart_stock_ai.Prelude.{ℕ, Bool, Option, List, String}
use smart_stock_ai.Prelude.Int.{ℤ}
use smart_stock_ai.Prelude.Table.{Table}

pub record Supplier : Type 0 where
  pub id : ℕ
  pub name : String
  pub contact_email : String
  pub default_lead_time_days : ℤ
  pub is_active : Bool

pub record Product : Type 0 where
  pub id : ℕ
  pub name : String
  pub supplier : Option ℕ
  pub unit_price : Option ℕ
  pub reorder_point : ℤ
  pub safety_stock : ℤ
  pub is_active : Bool

pub record Sku : Type 0 where
  pub id : ℕ
  pub product : ℕ
  pub code : String

pub record StockLevel : Type 0 where
  pub id : ℕ
  pub sku : ℕ
  pub quantity_on_hand : ℤ
  pub quantity_reserved : ℤ
  pub reorder_point : ℤ
  pub reorder_quantity : ℤ

-- A Message-ID that the code builds: `po-{id}-approved`, or `po-{id}-{hex}` with random digits.
pub data MessageId : Type 0 where
  approved_message : ℕ → MessageId
  random_message : ℕ → ℕ → MessageId

pub record PurchaseOrder : Type 0 where
  pub id : ℕ
  pub sku_id : ℕ
  pub supplier_id : ℕ
  pub quantity : ℤ
  pub total_cost : ℤ
  pub status : Status
  pub requested_by : Option ℕ
  pub approved_by : Option ℕ
  pub agent_reasoning : String
  pub notes : String
  pub sent_at : Option ℕ
  pub message_id : Option MessageId
  pub confirmed_at : Option ℕ
  pub created_at : ℕ
  pub po_number : Option String
  pub created_by_agent : Bool
  pub agent_name : String

pub record PurchaseOrderWorkflow : Type 0 where
  pub id : ℕ
  pub purchase_order : ℕ
  pub status : WorkflowStatus
  pub message_id : Option MessageId
  pub polling_attempts : ℕ
  pub last_poll_at : Option ℕ
  pub error_message : String

-- The signals of apps/purchasing/services.py and apps/inventory/services.py, with the key of the
-- row that they carry.
pub data Signal : Type 0 where
  po_approved po_rejected po_sent po_confirmed po_email_sent : ℕ → Signal
  po_waiting_confirmation po_failed po_timeout : ℕ → Signal
  po_transitioned : ℕ → Status → Status → Signal
  stock_adjusted : ℕ → ℤ → Signal

-- A queued call of `send_email_with_retry`.
pub record EmailTask : Type 0 where
  pub recipient : String
  pub po_id : ℕ
  pub message_id : MessageId

pub record Db : Type 0 where
  pub suppliers : Table Supplier
  pub products : Table Product
  pub skus : Table Sku
  pub stock_levels : Table StockLevel
  pub orders : Table PurchaseOrder
  pub workflows : Table PurchaseOrderWorkflow
  pub now : ℕ
  pub signals : List Signal
  pub outbox : List EmailTask
  pub broker_up : Bool
  pub cache_version : ℕ
