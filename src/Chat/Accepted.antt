-- ===== src/Chat/Accepted.antt =====
-- What NLQueryOutputParser (ai/llm/output_parser.py) accepts.
use text.Mathlib.Text.{◌==◌}
use text.Mathlib.TextEquality.{eq_iff}
use smart_stock_ai.Prelude.{
  ℕ, Bool, true, false, not, ◌&&◌, Option, none, some, List, [], ◌∷◌, String, ◌≡◌, refl, sym, ap,
  ◌⊎◌, inl, inr, arith, Bool-cases, All,
}
use smart_stock_ai.Prelude.Int.{pos, negsuc}
use smart_stock_ai.Prelude.Action.{ok}
use smart_stock_ai.Prelude.Checks.{>>=-eq-ok, refuse_if-eq-ok}
use smart_stock_ai.Prelude.Json.{Json, Items, Fields, get_or, is_null}
use smart_stock_ai.Chat.{
  Python, NlQueryAction, NlQueryFilters, NlQueryResult, Condition, allowed_fields, valid_operators,
  is_among,
}
use smart_stock_ai.Chat.Parser.{
  is_text_among, is_count, is_true, parse_condition, parse_each, parse_conditions, raw_conditions,
  parse_filters, filters_of, parse_data, parse_decoded, strip_fences, parse, order_or_asc,
}

-- A value that is one of the texts.
abbrev pub OneOf : {F : Type 0} → List String → Json F → Type 0
OneOf [] v = ⊥
OneOf (t ∷ ts) v = (v ≡ Json.str t) ⊎ OneOf ts v

-- None, a number that is not negative, or one of Python's two Booleans.
abbrev pub IsLimit : {F : Type 0} → Json F → Type 0
IsLimit v = (v ≡ Json.null) ⊎ ((n : ℕ) × (v ≡ Json.int (pos n))) ⊎ ((b : Bool) × (v ≡ Json.bool b))

abbrev pub IsCondition : {F : Type 0} → NlQueryAction → Condition F → Type 0
IsCondition action c = OneOf (allowed_fields action) c.field × OneOf valid_operators c.op

is_among-OneOf :
    (F : Type 0) (ts : List String) (t : String)
    → is_among ts t ≡ true
    → OneOf {F = F} ts (Json.str t)
is_among-OneOf F [] t h = cc h
is_among-OneOf F (u ∷ ts) t h = elim (Bool-cases (u == t)) [
  | inl same ↦
      inl (ap (λ (x : String). let y : Json F = Json.str x in y) (sym ((eq_iff u t).0 same)))
  | inr other ↦ inr (is_among-OneOf F ts t (rw other at h))
]

is_text_among-OneOf :
    {F : Type 0} (ts : List String) (v : Json F) → is_text_among ts v ≡ true → OneOf ts v
is_text_among-OneOf {F} ts (Json.str t) h = is_among-OneOf F ts t h
is_text_among-OneOf ts Json.null h = cc h
is_text_among-OneOf ts (Json.bool b) h = cc h
is_text_among-OneOf ts (Json.int n) h = cc h
is_text_among-OneOf ts (Json.float x) h = cc h
is_text_among-OneOf ts (Json.arr vs) h = cc h
is_text_among-OneOf ts (Json.obj fs) h = cc h

not-false : (b : Bool) → not b ≡ false → b ≡ true
not-false b h = ground arith

IsLimit-cases :
    {F : Type 0} (v : Json F) → (not (is_null v) && not (is_count v)) ≡ false → IsLimit v
IsLimit-cases Json.null h = inl refl
IsLimit-cases (Json.bool b) h = inr (inr (b, refl))
IsLimit-cases (Json.int (pos n)) h = inr (inl (n, refl))
IsLimit-cases (Json.int (negsuc n)) h = ground arith
IsLimit-cases (Json.float x) h = cc h
IsLimit-cases (Json.str s) h = cc h
IsLimit-cases (Json.arr vs) h = cc h
IsLimit-cases (Json.obj fs) h = cc h

module _ (python : Python) where
  -- The filters that the parser lets through for an action.
  abbrev pub IsFilters : NlQueryAction → NlQueryFilters python.Float → Type 0
  IsFilters action f =
      All (IsCondition action) f.conditions
      × (is_true python f.sort ≡ true → OneOf ("asc" ∷ "desc" ∷ []) f.sort_order)
      × IsLimit f.limit
      × IsLimit f.offset

  abbrev pub IsQuery : NlQueryResult python.Float → Type 0
  IsQuery r = IsFilters r.action r.filters

  parse_condition_lem :
      (action : NlQueryAction) (rc : Fields python.Float) {c : Condition python.Float}
      → parse_condition python action rc ≡ ok c
      → IsCondition action c
  parse_condition_lem action rc {c} h =
      let (given, h1) = refuse_if-eq-ok _ _ _ h in
      let (op_ok, h2) = refuse_if-eq-ok _ _ _ h1 in
      let (field_ok, h3) = refuse_if-eq-ok _ _ _ h2 in
      let e : c.field ≡ get_or Json.null "field" rc = cc h3 in
      let e' : c.op ≡ get_or Json.null "op" rc = cc h3 in
      rw (e, e')
        (
          is_text_among-OneOf (allowed_fields action) (get_or Json.null "field" rc)
              (not-false _ field_ok),
          is_text_among-OneOf valid_operators (get_or Json.null "op" rc) (not-false _ op_ok),
        )

  parse_each_lem :
      (action : NlQueryAction) (v : Json python.Float) {c : Condition python.Float}
      → parse_each python action v ≡ ok c
      → IsCondition action c
  parse_each_lem action (Json.obj rc) h = parse_condition_lem action rc h
  parse_each_lem action Json.null h = cc h
  parse_each_lem action (Json.bool b) h = cc h
  parse_each_lem action (Json.int n) h = cc h
  parse_each_lem action (Json.float x) h = cc h
  parse_each_lem action (Json.str s) h = cc h
  parse_each_lem action (Json.arr vs) h = cc h

  parse_conditions_lem :
      (action : NlQueryAction) (vs : Items python.Float) {cs : List (Condition python.Float)}
      → parse_conditions python action vs ≡ ok cs
      → All (IsCondition action) cs
  parse_conditions_lem action Items.nil {cs} h = let e : cs ≡ [] = cc h in rw e tt
  parse_conditions_lem action (Items.item v vs) {cs} h =
      let (c, h1, first) = >>=-eq-ok _ _ h in
      let (rest, h2, others) = >>=-eq-ok _ _ h1 in
      let e : cs ≡ c ∷ rest = cc h2 in
      rw e (parse_each_lem action v first, parse_conditions_lem action vs others)

  raw_conditions_lem :
      (action : NlQueryAction) (v : Json python.Float) {cs : List (Condition python.Float)}
      → raw_conditions python action v ≡ ok cs
      → All (IsCondition action) cs
  raw_conditions_lem action (Json.arr vs) h = parse_conditions_lem action vs h
  raw_conditions_lem action Json.null h = cc h
  raw_conditions_lem action (Json.bool b) h = cc h
  raw_conditions_lem action (Json.int n) h = cc h
  raw_conditions_lem action (Json.float x) h = cc h
  raw_conditions_lem action (Json.str s) h = cc h
  raw_conditions_lem action (Json.obj fs) h = cc h

  order_lem :
      (sort order : Json python.Float)
      → (is_true python sort && not (is_text_among ("asc" ∷ "desc" ∷ []) order)) ≡ false
      → is_true python sort ≡ true
      → OneOf ("asc" ∷ "desc" ∷ []) (order_or_asc python order)
  order_lem sort order h t =
      elim (is_text_among-OneOf ("asc" ∷ "desc" ∷ []) order
        (not-false (is_text_among ("asc" ∷ "desc" ∷ []) order) (rw t at h))) [
          | inl asc ↦ rw asc (inl refl)
          | inr (inl desc) ↦ rw desc (inr (inl refl))
          | inr (inr neither) ↦ absurd neither
        ]

  parse_filters_lem :
      (raw : Fields python.Float) (action : NlQueryAction) {f : NlQueryFilters python.Float}
      → parse_filters python raw action ≡ ok f
      → IsFilters action f
  parse_filters_lem raw action {f} h =
      let (cs, h1, read) = >>=-eq-ok _ _ h in
      let (order_ok, h2) = refuse_if-eq-ok _ _ _ h1 in
      let (limit_ok, h3) = refuse_if-eq-ok _ _ _ h2 in
      let (offset_ok, h4) = refuse_if-eq-ok _ _ _ h3 in
      let e : f.conditions ≡ cs = cc h4 in
      let e1 : f.sort ≡ get_or Json.null "sort" raw = cc h4 in
      let e2 : f.sort_order ≡ order_or_asc python (get_or (Json.str "asc") "sort_order" raw) =
        cc h4 in
      let e3 : f.limit ≡ get_or Json.null "limit" raw = cc h4 in
      let e4 : f.offset ≡ get_or Json.null "offset" raw = cc h4 in
      (
        rw e (raw_conditions_lem action _ read),
        rw (e1, e2)
            (order_lem (get_or Json.null "sort" raw) (get_or (Json.str "asc") "sort_order" raw)
              order_ok),
        rw e3 (IsLimit-cases _ limit_ok),
        rw e4 (IsLimit-cases _ offset_ok),
      )

  filters_of_lem :
      (v : Json python.Float) (action : NlQueryAction) {f : NlQueryFilters python.Float}
      → filters_of python v action ≡ ok f
      → IsFilters action f
  filters_of_lem (Json.obj raw) action h = parse_filters_lem raw action h
  filters_of_lem Json.null action h = cc h
  filters_of_lem (Json.bool b) action h = cc h
  filters_of_lem (Json.int n) action h = cc h
  filters_of_lem (Json.float x) action h = cc h
  filters_of_lem (Json.str s) action h = cc h
  filters_of_lem (Json.arr vs) action h = cc h

  IsQuery-ok :
      (action : NlQueryAction) (f : NlQueryFilters python.Float) (r : NlQueryResult python.Float)
      → IsFilters action f
      → ok (record { action = action; filters = f }) ≡ ok r
      → IsQuery r
  IsQuery-ok action f r h e = let e' : r ≡ record { action = action; filters = f } = cc e in rw e' h

  parse_data_lem :
      (v : Json python.Float) {r : NlQueryResult python.Float}
      → parse_data python v ≡ ok r
      → IsQuery r
  parse_data_lem (Json.obj d) {r} h =
      let (in_scope, h1) = refuse_if-eq-ok _ _ _ h in
      let (given, h2) = refuse_if-eq-ok _ _ _ h1 in
      let (action, h3, known) = >>=-eq-ok _ _ h2 in
      let (filters, h4, read) = >>=-eq-ok _ _ h3 in
      IsQuery-ok action filters r (filters_of_lem _ action read) h4
  parse_data_lem Json.null h = cc h
  parse_data_lem (Json.bool b) h = cc h
  parse_data_lem (Json.int n) h = cc h
  parse_data_lem (Json.float x) h = cc h
  parse_data_lem (Json.str s) h = cc h
  parse_data_lem (Json.arr vs) h = cc h

  parse_decoded_lem :
      (o : Option (Json python.Float)) {r : NlQueryResult python.Float}
      → parse_decoded python o ≡ ok r
      → IsQuery r
  parse_decoded_lem none h = cc h
  parse_decoded_lem (some v) h = parse_data_lem v h

  -- Whatever text the language model answers with, a query that the parser returns has a known
  -- action, only conditions on fields that ACTION_ALLOWED_FIELDS allows for that action with
  -- operators of VALID_OPERATORS, an order `asc` or `desc` if it sorts, and a limit and an offset
  -- that are absent, natural numbers, or one of Python's Booleans.
  pub parse-IsQuery :
      (text : String) {r : NlQueryResult python.Float} → parse python text ≡ ok r → IsQuery r
  unfolding parse
  parse-IsQuery text h =
      parse_decoded_lem (python.loads (strip_fences python (python.strip text))) h
