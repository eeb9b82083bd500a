-- ===== src/Chat/Parser.antt =====
-- NLQueryOutputParser (ai/llm/output_parser.py). `other_error` stands for the TypeError and the
-- AttributeError of a value that is no dictionary.
use text.Mathlib.Text.{starts_with}
use smart_stock_ai.Prelude.{
  Bool, true, false, not, ◌&&◌, ◌||◌, Option, none, some, List, [], ◌∷◌, String, if◌then◌else◌,
}
use smart_stock_ai.Prelude.Int.{pos, ltb_ℤ}
use smart_stock_ai.Prelude.Action.{Result, ok, err, nl_query_parse_error, other_error}
use smart_stock_ai.Prelude.Checks.{◌>>=◌, ◌>>◌, refuse_if}
use smart_stock_ai.Prelude.Json.{Json, Items, Fields, get_or, has_key, is_null, truth}
use smart_stock_ai.Chat.{
  Python, NlQueryAction, NlQueryFilters, NlQueryResult, Condition, action_of, allowed_fields,
  valid_operators, is_among,
}

-- `v in ts`, for a value that may be no text.
abbrev pub is_text_among : {F : Type 0} → List String → Json F → Bool
is_text_among ts (Json.str t) = is_among ts t
is_text_among ts _ = false

-- `isinstance(v, int) and v >= 0`; a Boolean is an `int` of Python.
abbrev pub is_count : {F : Type 0} → Json F → Bool
is_count (Json.bool b) = true
is_count (Json.int n) = not (ltb_ℤ n (pos 0))
is_count _ = false

module _ (python : Python) where
  abbrev pub is_true : Json python.Float → Bool
  is_true v = truth python.is_nonzero v

  abbrev pub drop_first : List String → List String
  drop_first [] = []
  drop_first (l ∷ ls) = ls

  abbrev pub strip_fences : String → String
  strip_fences text =
      if starts_with text "```"
      then python.strip
          (python.rstrip_backticks (python.join_lines (drop_first (python.split_lines text))))
      else text

  abbrev pub parse_condition : NlQueryAction → Fields python.Float → Result (Condition python.Float)
  parse_condition action rc = do
    let field = get_or Json.null "field" rc
    let op = get_or Json.null "op" rc
    let value = get_or Json.null "value" rc
    refuse_if (not (is_true field) || not (is_true op)) nl_query_parse_error
    refuse_if (not (is_text_among valid_operators op)) nl_query_parse_error
    refuse_if (not (is_text_among (allowed_fields action) field)) nl_query_parse_error
    ok (record { field = field; op = op; value = value })

  abbrev pub parse_each : NlQueryAction → Json python.Float → Result (Condition python.Float)
  parse_each action (Json.obj rc) = parse_condition action rc
  parse_each action _ = err nl_query_parse_error

  abbrev pub parse_conditions :
      NlQueryAction → Items python.Float → Result (List (Condition python.Float))
  parse_conditions action Items.nil = ok []
  parse_conditions action (Items.item rc rcs) =
      parse_each action rc >>= λ c. parse_conditions action rcs >>= λ cs. ok (c ∷ cs)

  abbrev pub raw_conditions :
      NlQueryAction → Json python.Float → Result (List (Condition python.Float))
  raw_conditions action (Json.arr rcs) = parse_conditions action rcs
  raw_conditions action _ = err nl_query_parse_error

  -- `sort_order or 'asc'` of NlQueryFilters
  abbrev pub order_or_asc : Json python.Float → Json python.Float
  order_or_asc v = if is_true v then v else Json.str "asc"

  abbrev pub parse_filters :
      Fields python.Float → NlQueryAction → Result (NlQueryFilters python.Float)
  parse_filters raw action = do
    conditions ← raw_conditions action (get_or (Json.arr Items.nil) "conditions" raw)
    let sort = get_or Json.null "sort" raw
    let sort_order = get_or (Json.str "asc") "sort_order" raw
    let limit = get_or Json.null "limit" raw
    let offset = get_or Json.null "offset" raw
    refuse_if (is_true sort && not (is_text_among ("asc" ∷ "desc" ∷ []) sort_order))
        nl_query_parse_error
    refuse_if (not (is_null limit) && not (is_count limit)) nl_query_parse_error
    refuse_if (not (is_null offset) && not (is_count offset)) nl_query_parse_error
    ok (record {
      conditions = conditions;
      sort = sort;
      sort_order = order_or_asc sort_order;
      limit = limit;
      offset = offset;
    })

  abbrev pub parse_action : Option NlQueryAction → Result NlQueryAction
  parse_action none = err nl_query_parse_error
  parse_action (some a) = ok a

  abbrev pub filters_of : Json python.Float → NlQueryAction → Result (NlQueryFilters python.Float)
  filters_of (Json.obj raw) action = parse_filters raw action
  filters_of _ action = err nl_query_parse_error

  -- What `parse` makes of the decoded text.
  abbrev pub parse_data : Json python.Float → Result (NlQueryResult python.Float)
  parse_data (Json.obj d) = do
    refuse_if (has_key "error" d) nl_query_parse_error
    let raw_action = get_or Json.null "action" d
    refuse_if (not (is_true raw_action)) nl_query_parse_error
    action ← parse_action (action_of raw_action)
    filters ← filters_of (get_or (Json.obj Fields.end) "filters" d) action
    ok (record { action = action; filters = filters })
  parse_data _ = err other_error

  abbrev pub parse_decoded : Option (Json python.Float) → Result (NlQueryResult python.Float)
  parse_decoded none = err nl_query_parse_error
  parse_decoded (some d) = parse_data d

  unfoldable pub parse : String → Result (NlQueryResult python.Float)
  parse text = parse_decoded (python.loads (strip_fences (python.strip text)))
