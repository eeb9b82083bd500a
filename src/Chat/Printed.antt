-- ===== src/Chat/Printed.antt =====
-- `NlQueryResult.to_dict` (ai/llm/schemas.py), read back by the parser (ai/llm/output_parser.py).
use text.Mathlib.Text.{◌==◌}
use text.Mathlib.TextEquality.{eq_iff}
use smart_stock_ai.Prelude.{
  true, false, not, ◌&&◌, List, [], ◌∷◌, String, ◌≡◌, refl, inl, inr, arith, Bool-cases,
  if◌then◌else◌, All,
}
use smart_stock_ai.Prelude.Action.{ok}
use smart_stock_ai.Prelude.Checks.{◌>>=◌, ◌>>◌, refuse_if}
use smart_stock_ai.Prelude.Json.{Json, Items, Fields, get_or, is_null}
use smart_stock_ai.Chat.{
  Python, NlQueryAction, NlQueryFilters, NlQueryResult, Condition, allowed_fields, valid_operators,
  is_among, condition_dict, condition_dicts, filters_dict, result_dict,
}
use smart_stock_ai.Chat.Parser.{
  is_text_among, is_count, is_true, parse_each, parse_conditions, parse_filters, parse_data,
}
use smart_stock_ai.Chat.Accepted.{OneOf, IsLimit, IsCondition, IsQuery}

-- The texts of a list are not empty.
abbrev NoEmpty : List String → Type 0
NoEmpty ts = is_among ts "" ≡ false

is_among_self : (ts : List String) (t : String) → is_among (t ∷ ts) t ≡ true
is_among_self ts t = ground (arith, eq_iff t t)

OneOf-text :
    {F : Type 0} (ts : List String) (v : Json F)
    → OneOf ts v
    → (t : String) × (v ≡ Json.str t) × (is_among ts t ≡ true)
OneOf-text [] v h = absurd h
OneOf-text (t ∷ ts) v (inl e) = (t, e, is_among_self ts t)
OneOf-text (u ∷ ts) v (inr h) = let (t, e, m) = OneOf-text ts v h in (t, e, ground (arith, m))

module _ (python : Python) where
  given_text :
      (ts : List String) (v : Json python.Float)
      → NoEmpty ts
      → OneOf ts v
      → (is_text_among ts v ≡ true) × (is_true python v ≡ true)
  given_text ts v none_empty h = let (t, e, m) = OneOf-text ts v h in rw e (m, full t m)
    where
      full : (t : String) → is_among ts t ≡ true → (if t == "" then false else true) ≡ true
      full t m = elim (Bool-cases (t == "")) [
        | inl blank ↦ cc (none_empty, m, (eq_iff t "").0 blank)
        | inr more ↦ rw more refl
      ]

  allowed-NoEmpty : (action : NlQueryAction) → NoEmpty (allowed_fields action)
  allowed-NoEmpty NlQueryAction.get_inventory = refl
  allowed-NoEmpty _ = refl

  parse_condition-dict :
      (action : NlQueryAction) (c : Condition python.Float)
      → IsCondition action c
      → parse_each python action (condition_dict c) ≡ ok c
  unfolding ◌>>◌ refuse_if
  parse_condition-dict action c h =
      let (known, given) =
        given_text (allowed_fields action) c.field (allowed-NoEmpty action) h.0 in
      let (valid, given') = given_text valid_operators c.op refl h.1 in
      rw (known, given, valid, given')

  parse_conditions-dicts :
      (action : NlQueryAction) (cs : List (Condition python.Float))
      → All (IsCondition action) cs
      → parse_conditions python action (condition_dicts cs) ≡ ok cs
  unfolding ◌>>=◌
  parse_conditions-dicts action [] h = refl
  parse_conditions-dicts action (c ∷ cs) h =
      rw (parse_condition-dict action c h.0, parse_conditions-dicts action cs h.1) refl

  module _ (f : NlQueryFilters python.Float) where
    abbrev dict : Fields python.Float
    dict = filters_dict python.is_nonzero f

    conditions_lem :
        get_or (Json.arr Items.nil) "conditions" dict ≡ Json.arr (condition_dicts f.conditions)
    conditions_lem = ground arith

    sort_lem : get_or Json.null "sort" dict ≡ (if is_true python f.sort then f.sort else Json.null)
    sort_lem = ground arith

    limit_lem : get_or Json.null "limit" dict ≡ f.limit
    limit_lem = ground arith

    order_lem :
        get_or (Json.str "asc") "sort_order" dict
        ≡ (if is_true python f.sort then f.sort_order else Json.str "asc")
    order_lem = ground arith

    offset_lem : get_or Json.null "offset" dict ≡ f.offset
    offset_lem = ground arith

  limit_ok : (v : Json python.Float) → IsLimit v → (not (is_null v) && not (is_count v)) ≡ false
  limit_ok v (inl e) = rw e refl
  limit_ok v (inr (inl (n, e))) = rw e (ground arith)
  limit_ok v (inr (inr (b, e))) = rw e refl

  -- The filters that say nothing more than their dictionary does.
  abbrev pub IsNormal : NlQueryResult python.Float → Type 0
  IsNormal r =
      is_true python r.filters.sort ≡ false
      → (r.filters.sort ≡ Json.null) × (r.filters.sort_order ≡ Json.str "asc")

  parse_filters-dict :
      (action : NlQueryAction) (f : NlQueryFilters python.Float)
      → IsQuery python (record { action = action; filters = f })
      → IsNormal (record { action = action; filters = f })
      → parse_filters python (filters_dict python.is_nonzero f) action ≡ ok f
  unfolding ◌>>=◌ ◌>>◌ refuse_if
  parse_filters-dict action f h n = elim (Bool-cases (is_true python f.sort)) [
    | inl sorted ↦
        let (t, e, m) = OneOf-text ("asc" ∷ "desc" ∷ []) f.sort_order (h.1 sorted) in
        let (known, given) = given_text ("asc" ∷ "desc" ∷ []) f.sort_order refl (h.1 sorted) in
        rw
          (
            conditions_lem f,
            parse_conditions-dicts action f.conditions h.0,
            sort_lem f,
            order_lem f,
            limit_lem f,
            offset_lem f,
            sorted,
            limit_ok f.limit h.2,
            limit_ok f.offset h.3,
            known,
            given,
          )
          (rw sorted refl)
    | inr unsorted ↦
        let (e, e') = n unsorted in
        rw
          (
            conditions_lem f,
            parse_conditions-dicts action f.conditions h.0,
            sort_lem f,
            order_lem f,
            limit_lem f,
            offset_lem f,
            unsorted,
            limit_ok f.limit h.2,
            limit_ok f.offset h.3,
          )
          (ground (arith, e, e'))
  ]

  -- The parser reads back the dictionary that `to_dict` makes of a query, for every query that
  -- meets what the parser asks of one, and has no sort and the order `asc` if its sort is false.
  pub parse_data-result_dict :
      (r : NlQueryResult python.Float)
      → IsQuery python r
      → IsNormal r
      → parse_data python (result_dict python.is_nonzero r) ≡ ok r
  unfolding ◌>>=◌ ◌>>◌ refuse_if
  parse_data-result_dict r h n = go r.action r.filters h n
    where
      go :
          (action : NlQueryAction) (f : NlQueryFilters python.Float)
          → IsQuery python (record { action = action; filters = f })
          → IsNormal (record { action = action; filters = f })
          → parse_data python
              (result_dict python.is_nonzero (record { action = action; filters = f }))
            ≡ ok (record { action = action; filters = f })
      go NlQueryAction.get_inventory f h n =
          rw (parse_filters-dict NlQueryAction.get_inventory f h n) refl
      go action f h n = rw (parse_filters-dict action f h n) refl
