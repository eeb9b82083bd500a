-- ===== src/Database/Sample.antt =====
-- A small store for the tests: one supplier, one product with one SKU, and the orders given.
use smart_stock_ai.Prelude.{ℕ, true, none, some, [], ◌∷◌, List}
use smart_stock_ai.Prelude.Int.{pos}
use smart_stock_ai.Database.{Db, Supplier, Product, Sku, PurchaseOrder, Status}

abbrev pub acme : Supplier
acme = record {
  id = 1;
  name = "Acme";
  contact_email = "orders@acme.test";
  default_lead_time_days = pos 5;
  is_active = true;
}

abbrev pub bolt : Product
bolt = record {
  id = 1;
  name = "Bolt";
  supplier = some 1;
  unit_price = some 250;
  reorder_point = pos 10;
  safety_stock = pos 2;
  is_active = true;
}

abbrev pub bolt_sku : Sku
bolt_sku = record { id = 1; product = 1; code = "BOLT-1" }

abbrev pub order : ℕ → Status → ℕ → PurchaseOrder
order key status created = record {
  id = key;
  sku_id = 1;
  supplier_id = 1;
  quantity = pos 5;
  total_cost = pos 1250;
  status = status;
  requested_by = none;
  approved_by = none;
  agent_reasoning = "";
  notes = "";
  sent_at = none;
  message_id = none;
  confirmed_at = none;
  created_at = created;
  po_number = none;
  created_by_agent = true;
  agent_name = "";
}

abbrev pub store : List PurchaseOrder → Db
store orders = record {
  suppliers = record { rows = acme ∷ []; next_id = 2 };
  products = record { rows = bolt ∷ []; next_id = 2 };
  skus = record { rows = bolt_sku ∷ []; next_id = 2 };
  stock_levels = record { rows = []; next_id = 1 };
  orders = record { rows = orders; next_id = 3 };
  workflows = record { rows = []; next_id = 1 };
  now = 100;
  signals = [];
  outbox = [];
  broker_up = true;
  cache_version = 0;
}
