-- ===== src/Pipeline/Creator.antt =====
-- POFromFlagCreator (ai/agents/po_from_flag_creator.py): purchase orders from reorder flags.
use smart_stock_ai.Prelude.{
  ℕ, zero, suc, ◌+◌, ◌*◌, false, Option, none, some, List, [], ◌∷◌, String,
}
use smart_stock_ai.Prelude.Int.{ℤ, pos, negsuc}
use smart_stock_ai.Prelude.Action.{
  Action, Result, ok, err, does_not_exist, value_error, other_error, ◌>>=◌, ◌>>◌, pure, raise, gets,
  or_raise, catch, modify,
}
use smart_stock_ai.Prelude.Table.{find, update}
use smart_stock_ai.Database.{Supplier, Product, Sku}
use smart_stock_ai.Orders.Repository.{product_key}
use smart_stock_ai.Inventory.Decisions.{supplier_of}
use smart_stock_ai.Forecasting.{ReorderFlag, FlagStatus, Store, flag_key, on_db}
use smart_stock_ai.Forecasting.Repository.{get_sku, with_flags}
use smart_stock_ai.Agent.Tools.{Environment, Context}
use smart_stock_ai.Agent.Purchasing.{Settings, Outcome, OutcomeStatus, run}

-- A field of the model's answer: absent or false, of no use to `int`, or what `int` makes of it.
pub data Field (A : Type 0) : Type 0 where
  missing unreadable : Field A
  number : A → Field A

-- What asking the language model for a flag gives: an exception, a text that is no JSON, or a JSON
-- object. The key of a supplier is not negative.
pub record Choice : Type 0 where
  pub supplier_id : Field ℕ
  pub quantity : Field ℤ
  pub reasoning : Option String

pub data Answer : Type 0 where
  raises invalid_json : Answer
  chooses : Choice → Answer

pub data FlagResult : Type 0 where
  created : Option ℕ → OutcomeStatus → FlagResult
  skipped_no_supplier : FlagResult
  failed : FlagResult

-- A product of a quantity and a price.
abbrev pub times : ℤ → ℕ → ℤ
times (pos n) price = pos (n * price)
times (negsuc n) zero = pos 0
times (negsuc n) (suc p) = negsuc (n * suc p + p)

-- `Decimal(int(quantity)) * unit_price`, or '0.00'
abbrev pub total_cost : ℤ → Option ℕ → ℤ
total_cost quantity none = pos 0
total_cost quantity (some price) = times quantity price

abbrev pub reasoning_of : Choice → ReorderFlag → String
reasoning_of c flag = elim c.reasoning [ none ↦ flag.reasoning | some text ↦ text ]

-- `flag.save(update_fields=['status'])`
abbrev pub consume : ReorderFlag → Action Store (Unit {0})
consume flag = modify (λ w.
    with_flags
      (update flag_key flag.id (λ f. record f { status = FlagStatus.consumed }) w.flags.rows)
      w.flags.next_id w)

pub record Counts : Type 0 where
  pub created : ℕ
  pub skipped_no_supplier : ℕ
  pub failed : ℕ

abbrev pub count : Result FlagResult → Counts → Counts
count (ok (created po s)) n = record n { created = n.created + 1 }
count (ok skipped_no_supplier) n = record n { skipped_no_supplier = n.skipped_no_supplier + 1 }
count (ok failed) n = record n { failed = n.failed + 1 }
count (err e) n = record n { failed = n.failed + 1 }

abbrev pub no_flags : Counts
no_flags = record { created = 0; skipped_no_supplier = 0; failed = 0 }

-- Every outcome of the purchasing agent but a failed one consumes the flag.
abbrev pub settle_as : ReorderFlag → Option ℕ → OutcomeStatus → Action Store FlagResult
settle_as flag po_id OutcomeStatus.failed = pure failed
settle_as flag po_id s = consume flag >> pure (created po_id s)

abbrev pub settle : ReorderFlag → Outcome → Action Store FlagResult
settle flag o = settle_as flag o.po_id o.status

-- The language model's answers, the text of a total cost, and `system_user_id`; the purchasing agent
-- has its own environment.
module _ (env : Environment) (settings : Settings) (ask : ReorderFlag → Answer)
    (text_of : ℤ → String) (system_user_id : Option ℕ) where
  abbrev pub context : ReorderFlag → ℕ → ℤ → Choice → Option ℕ → Context
  context flag supplier_id quantity c unit_price = record {
    sku_id = flag.sku;
    quantity = quantity;
    supplier_id = supplier_id;
    user_id = system_user_id;
    agent_reasoning = reasoning_of c flag;
    other_texts = text_of (total_cost quantity unit_price) ∷ [];
    total_cost = total_cost quantity unit_price;
    user = none;
    auto_approve = false;
    approval_callback = none;
  }

  -- `except IntegrityError`, and `except Exception`
  abbrev pub order_now : ReorderFlag → Context → Action Store FlagResult
  order_now flag c = catch (on_db (run env settings c) >>= settle flag) (λ e. pure failed)

  -- The total cost is computed in front of the `try` if the product has a price: a quantity that
  -- `int` does not read raises there, and is caught otherwise.
  abbrev pub order_fields :
      ReorderFlag → Option ℕ → Choice → Field ℕ → Field ℤ → Action Store FlagResult
  order_fields flag price c missing quantity = pure failed
  order_fields flag price c unreadable missing = pure failed
  order_fields flag price c (number supplier_id) missing = pure failed
  order_fields flag none c unreadable unreadable = pure failed
  order_fields flag none c (number supplier_id) unreadable = pure failed
  order_fields flag (some u) c unreadable unreadable = raise value_error
  order_fields flag (some u) c (number supplier_id) unreadable = raise value_error
  order_fields flag price c unreadable (number quantity) = pure failed
  order_fields flag price c (number supplier_id) (number quantity) =
      order_now flag (context flag supplier_id quantity c price)

  abbrev pub order_chosen : ReorderFlag → Option ℕ → Choice → Action Store FlagResult
  order_chosen flag price c = order_fields flag price c c.supplier_id c.quantity

  abbrev pub on_answer : ReorderFlag → Option ℕ → Answer → Action Store FlagResult
  on_answer flag unit_price raises = raise other_error
  on_answer flag unit_price invalid_json = pure failed
  on_answer flag unit_price (chooses c) = order_chosen flag unit_price c

  abbrev pub with_supplier : ReorderFlag → Product → Option Supplier → Action Store FlagResult
  with_supplier flag product none = pure skipped_no_supplier
  with_supplier flag product (some s) = on_answer flag product.unit_price (ask flag)

  abbrev pub product_of : Sku → Action Store Product
  product_of sku = do
    or_raise (← gets (λ w. find product_key sku.product w.db.products.rows)) does_not_exist

  abbrev pub order_product : ReorderFlag → Product → Action Store FlagResult
  order_product flag product w = with_supplier flag product (supplier_of product w.db) w

  abbrev pub order_sku : ReorderFlag → Sku → Action Store FlagResult
  order_sku flag sku = product_of sku >>= order_product flag

  unfoldable pub process_single_flag : ReorderFlag → Action Store FlagResult
  process_single_flag flag = get_sku flag.sku >>= order_sku flag

  -- The loop of `process_flags`, from the counts so far.
  unfoldable pub process_from : Counts → List ReorderFlag → Store → Counts × Store
  process_from n [] w = (n, w)
  process_from n (f ∷ fs) w = let (r, t) = process_single_flag f w in process_from (count r n) fs t

  unfoldable pub process_flags : List ReorderFlag → Store → Counts × Store
  process_flags flags w = process_from no_flags flags w
