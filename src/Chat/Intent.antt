-- ===== src/Chat/Intent.antt =====
-- The classification of a question (ai/llm/intent_classifier.py). The history only goes into the
-- model's prompt, and the model's answer is given.
use smart_stock_ai.Prelude.{not, Option, none, some, List, [], ◌∷◌, String, if◌then◌else◌}
use smart_stock_ai.Prelude.Json.{Json, get_or}
use smart_stock_ai.Chat.{Python}
use smart_stock_ai.Chat.Parser.{is_text_among}
use smart_stock_ai.Chat.Chain.{contains_any}

-- Floats as the classifier uses them; `to_float` is none where `float` raises.
pub record Confidences (F : Type 0) : Type 0 where
  pub half : F
  pub fast : F
  pub to_float : Json F → Option F

pub record ClassificationResult (F : Type 0) : Type 0 where
  pub intent : Json F
  pub confidence : F

abbrev pub rag_keywords : List String
rag_keywords =
    "policy" ∷ "procedure" ∷ "manual" ∷ "document" ∷ "guideline" ∷ "how to" ∷ "rules"
    ∷ "return policy" ∷ "revenue" ∷ "profit" ∷ "quarterly" ∷ "q2" ∷ "q3" ∷ "q1" ∷ "q4" ∷ "report"
    ∷ "business" ∷ "metrics" ∷ "performance" ∷ "mape" ∷ "reliability" ∷ "shrinkage" ∷ "insurance"
    ∷ "capex" ∷ "hiring" ∷ "outlook" ∷ "warehouse location" ∷ "department" ∷ "contact"
    ∷ "utilization" ∷ "capacity" ∷ "throughput" ∷ "warehouse" ∷ "austin" ∷ "atlanta" ∷ "chicago"
    ∷ "region" ∷ "sq ft" ∷ "square feet" ∷ "cold storage" ∷ []

abbrev pub nl_query_keywords : List String
nl_query_keywords =
    "stock" ∷ "inventory" ∷ "product" ∷ "supplier" ∷ "sales" ∷ "forecast" ∷ "reorder" ∷ "low stock"
    ∷ "how many" ∷ "total value" ∷ []

abbrev pub intents : List String
intents = "nl_query" ∷ "rag" ∷ "out_of_scope" ∷ []

module _ (python : Python) (floats : Confidences python.Float) where
  abbrev pub classified : String → python.Float → ClassificationResult python.Float
  classified intent confidence = record { intent = Json.str intent; confidence = confidence }

  unfoldable pub classify_intent_fast : String → Option (ClassificationResult python.Float)
  classify_intent_fast query =
      let low = python.lower query in
      if contains_any rag_keywords low
      then some (classified "rag" floats.fast)
      else if contains_any nl_query_keywords low
      then some (classified "nl_query" floats.fast)
      else none

  -- Every failure, and every unknown intent, comes to this.
  abbrev pub default_result : ClassificationResult python.Float
  default_result = classified "nl_query" floats.half

  abbrev pub read_intent :
      Json python.Float → Option python.Float → ClassificationResult python.Float
  read_intent intent none = default_result
  read_intent intent (some confidence) =
      if not (is_text_among intents intent)
      then default_result
      else record { intent = intent; confidence = confidence }

  abbrev pub classify_parsed : Option (Json python.Float) → ClassificationResult python.Float
  classify_parsed (some (Json.obj parsed)) =
      read_intent (get_or (Json.str "nl_query") "intent" parsed)
        (floats.to_float (get_or (Json.float floats.half) "confidence" parsed))
  classify_parsed _ = default_result

  -- `none` is an exception of the model.
  unfoldable pub classify_intent : Option String → ClassificationResult python.Float
  classify_intent none = default_result
  classify_intent (some raw) = classify_parsed (python.loads (python.strip raw))
