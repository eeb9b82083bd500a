-- ===== src/Chat.antt =====
-- Questions in natural language (ai/llm): the types of ai/llm/schemas.py, with what the modules below
-- use of Python. The values of a condition, and sort and limit, are kept as the JSON that was given.
pub mod Parser
pub mod Accepted
pub mod Printed
pub mod Chain
pub mod Attempts
pub mod Patterns
pub mod Guard
pub mod Refused
pub mod Answers
pub mod Safe
pub mod Intent
pub mod Tests
use text.Mathlib.Text.{◌==◌, find?}
use smart_stock_ai.Prelude.{
  Bool, true, false, Option, none, some, List, [], ◌∷◌, String, if◌then◌else◌, any, is_some, not,
}
use smart_stock_ai.Prelude.Json.{Json, Items, Fields, truth, is_null}

-- Floats, the decoder of JSON, and the methods of texts.
pub record Python : Type 1 where
  pub Float : Type 0
  pub is_nonzero : Float → Bool
  pub loads : String → Option (Json Float)
  pub strip : String → String
  pub lower : String → String
  pub upper : String → String
  pub split_lines : String → List String
  pub join_lines : List String → String
  pub rstrip_backticks : String → String

-- `t in s`
abbrev pub contains : String → String → Bool
contains s t = is_some (find? s t)

-- `t in ts`
abbrev pub is_among : List String → String → Bool
is_among ts t = any (λ u. u == t) ts

pub data NlQueryAction : Type 0 where
  get_inventory get_sales_report get_low_stock forecast_demand get_supplier_info : NlQueryAction
  get_total_value get_top_products get_supplier_performance help : NlQueryAction

abbrev pub action_value : NlQueryAction → String
action_value get_inventory = "get_inventory"
action_value get_sales_report = "get_sales_report"
action_value get_low_stock = "get_low_stock"
action_value forecast_demand = "forecast_demand"
action_value get_supplier_info = "get_supplier_info"
action_value get_total_value = "get_total_value"
action_value get_top_products = "get_top_products"
action_value get_supplier_performance = "get_supplier_performance"
action_value help = "help"

abbrev pub actions : List NlQueryAction
actions =
    get_inventory ∷ get_sales_report ∷ get_low_stock ∷ forecast_demand ∷ get_supplier_info
    ∷ get_total_value ∷ get_top_products ∷ get_supplier_performance ∷ help ∷ []

abbrev pub first_action : String → List NlQueryAction → Option NlQueryAction
first_action v [] = none
first_action v (a ∷ rest) = if action_value a == v then some a else first_action v rest

-- `NlQueryAction(value)`; `none` is a ValueError.
abbrev pub action_of : {F : Type 0} → Json F → Option NlQueryAction
action_of (Json.str v) = first_action v actions
action_of _ = none

abbrev pub allowed_fields : NlQueryAction → List String
allowed_fields get_inventory =
    "product_name" ∷ "sku_code" ∷ "category" ∷ "supplier_name" ∷ "quantity_on_hand"
    ∷ "quantity_available" ∷ "is_active" ∷ []
allowed_fields get_sales_report =
    "sku_code" ∷ "product_name" ∷ "date_from" ∷ "date_to" ∷ "quantity_sold" ∷ []
allowed_fields get_low_stock =
    "product_name" ∷ "sku_code" ∷ "category" ∷ "quantity_on_hand" ∷ "reorder_point" ∷ []
allowed_fields forecast_demand = "product_name" ∷ "sku_code" ∷ []
allowed_fields get_supplier_info = "supplier_name" ∷ "contact_email" ∷ "is_active" ∷ []
allowed_fields get_total_value = "product_name" ∷ "category" ∷ "supplier_name" ∷ "is_active" ∷ []
allowed_fields get_top_products = "category" ∷ "date_from" ∷ "date_to" ∷ "limit" ∷ []
allowed_fields get_supplier_performance =
    "supplier_name" ∷ "is_active" ∷ "date_from" ∷ "date_to" ∷ []
allowed_fields help = []

abbrev pub valid_operators : List String
valid_operators =
    "eq" ∷ "neq" ∷ "lt" ∷ "lte" ∷ "gt" ∷ "gte" ∷ "contains" ∷ "starts_with" ∷ "ends_with" ∷ "in"
    ∷ "not_in" ∷ []

pub record Condition (F : Type 0) : Type 0 where
  pub field : Json F
  pub op : Json F
  pub value : Json F

pub record NlQueryFilters (F : Type 0) : Type 0 where
  pub conditions : List (Condition F)
  pub sort : Json F
  pub sort_order : Json F
  pub limit : Json F
  pub offset : Json F

pub record NlQueryResult (F : Type 0) : Type 0 where
  pub action : NlQueryAction
  pub filters : NlQueryFilters F

module _ {F : Type 0} where
  abbrev pub no_filters : NlQueryFilters F
  no_filters = record {
    conditions = [];
    sort = Json.null;
    sort_order = Json.str "asc";
    limit = Json.null;
    offset = Json.null;
  }

  -- The methods `to_dict` of the three classes.
  abbrev pub condition_dict : Condition F → Json F
  condition_dict c = Json.obj (
      Fields.field "field" c.field
        (Fields.field "op" c.op (Fields.field "value" c.value Fields.end)))

  abbrev pub condition_dicts : List (Condition F) → Items F
  condition_dicts [] = Items.nil
  condition_dicts (c ∷ cs) = Items.item (condition_dict c) (condition_dicts cs)

  abbrev pub field_if : Bool → String → Json F → Fields F → Fields F
  field_if b k v fs = if b then Fields.field k v fs else fs

  abbrev pub conditions_field : List (Condition F) → Fields F → Fields F
  conditions_field [] fs = fs
  conditions_field (c ∷ cs) fs = Fields.field "conditions" (Json.arr (condition_dicts (c ∷ cs))) fs

  abbrev pub filters_dict : (F → Bool) → NlQueryFilters F → Fields F
  filters_dict t f = conditions_field f.conditions (
      field_if (truth t f.sort) "sort" f.sort (
        field_if (truth t f.sort) "sort_order" f.sort_order (
          field_if (not (is_null f.limit)) "limit" f.limit
            (field_if (not (is_null f.offset)) "offset" f.offset Fields.end))))

  abbrev pub result_dict : (F → Bool) → NlQueryResult F → Json F
  result_dict t r = Json.obj (
      Fields.field "action" (Json.str (action_value r.action))
        (Fields.field "filters" (Json.obj (filters_dict t r.filters)) Fields.end))
