-- ===== src/Chat/Chain.antt =====
-- NLQueryChain and its fallback (ai/llm/chain.py). The pauses between attempts are left out.
use smart_stock_ai.Prelude.{
  ℕ, zero, suc, ◌+◌, Bool, ◌&&◌, ◌||◌, Option, none, some, List, [], ◌∷◌, String, if◌then◌else◌,
  any, ltb,
}
use Prim.Native.String.{count}
use text.Mathlib.Text.{◌==◌}
use smart_stock_ai.Prelude.Action.{Result, ok, err, nl_query_parse_error, other_error}
use smart_stock_ai.Prelude.Checks.{◌>>=◌}
use smart_stock_ai.Prelude.Json.{Json, Items, Fields, get, get_or}
use smart_stock_ai.Chat.{
  Python, NlQueryAction, NlQueryResult, Condition, action_of, contains, is_among, no_filters,
}
use smart_stock_ai.Chat.Parser.{parse, parse_action, order_or_asc}

-- `any(t in s for t in ts)`
abbrev pub contains_any : List String → String → Bool
contains_any ts s = any (λ t. contains s t) ts

abbrev pub vague_patterns : List String
vague_patterns =
    "hello" ∷ "hi" ∷ "hey" ∷ "help" ∷ "what can you do" ∷ "what do you do" ∷ "how do you work"
    ∷ "how does this work" ∷ "what are your capabilities" ∷ "what can i ask" ∷ "what can i do"
    ∷ "tell me about yourself" ∷ "who are you" ∷ "what is this" ∷ "guide me" ∷ "commands"
    ∷ "features" ∷ []

-- The action that the first list with a keyword in the text stands for.
abbrev pub keyword_action : String → NlQueryAction
keyword_action q =
    if is_among vague_patterns q || ltb (count q) 3
    then NlQueryAction.help
    else if contains_any
        ("top" ∷ "best" ∷ "most sold" ∷ "highest" ∷ "best selling" ∷ "top selling" ∷ []) q
    then NlQueryAction.get_top_products
    else if contains_any
        ("low stock" ∷ "reorder" ∷ "restock" ∷ "running low" ∷ "below reorder" ∷ "need restocking"
          ∷ [])
        q
    then NlQueryAction.get_low_stock
    else if contains_any
        ("supplier performance" ∷ "supplier metric" ∷ "supplier rate" ∷ "how are suppliers"
          ∷ "supplier scorecard" ∷ [])
        q
    then NlQueryAction.get_supplier_performance
    else if contains_any ("forecast" ∷ "predict" ∷ "demand" ∷ "future" ∷ "next 30" ∷ "next 7" ∷ [])
        q
    then NlQueryAction.forecast_demand
    else if contains_any ("supplier" ∷ "vendor" ∷ []) q
    then NlQueryAction.get_supplier_info
    else if contains_any
        ("total value" ∷ "inventory value" ∷ "worth" ∷ "total stock" ∷ "how much" ∷ []) q
    then NlQueryAction.get_total_value
    else if contains_any ("sales" ∷ "sold" ∷ "revenue" ∷ "sell" ∷ "sold last" ∷ "sales report" ∷ [])
        q
    then NlQueryAction.get_sales_report
    else NlQueryAction.help

-- One call of the model: the arguments of its first tool call, if there is one, with the text of its
-- answer; or the text of an exception.
pub data Attempt (F : Type 0) : Type 0 where
  replies : Option (Fields F) → String → Attempt F
  raises : String → Attempt F

module _ (python : Python) where
  abbrev pub keyword_fallback : String → NlQueryResult python.Float
  keyword_fallback query = record {
    action = keyword_action (python.strip (python.lower query));
    filters = no_filters;
  }

  abbrev pub help_result : NlQueryResult python.Float
  help_result = record { action = NlQueryAction.help; filters = no_filters }

  -- `c[k]`; a missing key is a KeyError.
  abbrev pub subscript : Fields python.Float → String → Result (Json python.Float)
  subscript c k = elim (get k c) [ none ↦ err other_error | some v ↦ ok v ]

  abbrev pub tool_condition : Json python.Float → Result (Condition python.Float)
  tool_condition (Json.obj c) = do
    field ← subscript c "field"
    op ← subscript c "op"
    value ← subscript c "value"
    ok (record { field = field; op = op; value = value })
  tool_condition _ = err other_error

  abbrev pub tool_conditions : Items python.Float → Result (List (Condition python.Float))
  tool_conditions Items.nil = ok []
  tool_conditions (Items.item c cs) =
      tool_condition c >>= λ first. tool_conditions cs >>= λ rest. ok (first ∷ rest)

  -- The loop over `raw_conditions`; the elements of a text and the keys of an object are texts, which
  -- cannot be subscripted by a key.
  abbrev pub iterate_conditions : Json python.Float → Result (List (Condition python.Float))
  iterate_conditions (Json.arr cs) = tool_conditions cs
  iterate_conditions (Json.str s) = if s == "" then ok [] else err other_error
  iterate_conditions (Json.obj Fields.end) = ok []
  iterate_conditions _ = err other_error

  -- `if raw_filters and isinstance(raw_filters, dict)`
  abbrev pub tool_filters : Json python.Float → Result (List (Condition python.Float))
  tool_filters (Json.obj Fields.end) = ok []
  tool_filters (Json.obj (Fields.field k v fs)) =
      iterate_conditions (get_or (Json.arr Items.nil) "conditions" (Fields.field k v fs))
  tool_filters _ = ok []

  abbrev pub parse_tool_args : Fields python.Float → Result (NlQueryResult python.Float)
  parse_tool_args args = do
    action ← parse_action python (action_of (get_or (Json.str "") "action" args))
    conditions ← tool_filters (get_or (Json.obj Fields.end) "filters" args)
    ok (record {
      action = action;
      filters = record {
        conditions = conditions;
        sort = get_or Json.null "sort" args;
        sort_order = order_or_asc python (get_or Json.null "sort_order" args);
        limit = get_or Json.null "limit" args;
        offset = get_or Json.null "offset" args;
      };
    })

  unfoldable pub parse_tool_call :
      Option (Fields python.Float) → String → Result (NlQueryResult python.Float)
  parse_tool_call (some args) content = parse_tool_args args
  parse_tool_call none content =
      if content == "" then err nl_query_parse_error else parse python content

  abbrev pub is_transient : String → Bool
  is_transient text =
      let low = python.lower text in
      contains low "timeout"
      || contains low "timed out"
      || contains low "rate"
      || contains text "429"
      || contains low "too many"
      || contains text "RESOURCE_EXHAUSTED"
      || contains low "tool_use_failed"
      || contains low "bad_request"
      || contains low "invalid_request_error"

  -- What an attempt comes to: a result, an answer that cannot be parsed, or an exception. The text of
  -- an exception of `_parse_tool_call` itself is given by `text_of`.
  pub data AttemptOutcome : Type 0 where
    parsed : NlQueryResult python.Float → AttemptOutcome
    unparsable : AttemptOutcome
    failed : String → AttemptOutcome

  abbrev pub outcome_of : String → Result (NlQueryResult python.Float) → AttemptOutcome
  outcome_of text (ok r) = parsed r
  outcome_of text (err nl_query_parse_error) = unparsable
  outcome_of text (err _) = failed text

  abbrev pub outcome : (Attempt python.Float → String) → Attempt python.Float → AttemptOutcome
  outcome text_of (replies tool content) =
      outcome_of (text_of (replies tool content)) (parse_tool_call tool content)
  outcome text_of (raises text) = failed text

  -- An attempt with `left` more to come, and `rest`, what those give.
  abbrev pub on_outcome :
      String
      → AttemptOutcome
      → ℕ
      → Option (NlQueryResult python.Float)
      → Option (NlQueryResult python.Float)
  on_outcome query (parsed r) left rest = some r
  on_outcome query unparsable left rest = some help_result
  on_outcome query (failed text) left rest =
      if is_transient text && ltb 0 left then rest else some (keyword_fallback query)

  -- The loop, at attempt `k` with `left` attempts to make; `none` is Python's None after the loop.
  unfoldable pub run_from :
      String
      → (Attempt python.Float → String)
      → (ℕ → Attempt python.Float)
      → ℕ
      → ℕ
      → Option (NlQueryResult python.Float)
  run_from query text_of attempts k zero = none
  run_from query text_of attempts k (suc left) =
      on_outcome query (outcome text_of (attempts k)) left
        (run_from query text_of attempts (k + 1) left)

  unfoldable pub run :
      String
      → (Attempt python.Float → String)
      → (ℕ → Attempt python.Float)
      → Option (NlQueryResult python.Float)
  run query text_of attempts = run_from query text_of attempts 0 3
