-- ===== src/Retrieval/Tests.antt =====
-- Two searches that share a chunk, with scores in hundredths and weights in tenths.
use smart_stock_ai.Prelude.{
  ℕ, ◌+◌, ◌*◌, Option, none, some, List, [], ◌∷◌, map, ◌≡◌, refl, arith, String, ltb,
}
use smart_stock_ai.Prelude.Int.{ℤ}
use smart_stock_ai.Retrieval.{Values, Row, Engine, Chunk, hybrid_search}
use smart_stock_ai.Retrieval.Fused.{IsAnswer, hybrid_search_lem}

abbrev hundredths : Values
hundredths = record {
  Float = ℕ;
  zero = 0;
  less = ltb;
  plus = λ x y. x + y;
  times = λ x y. x * y;
  dense_weight = 7;
  sparse_weight = 3;
  Vector = String;
  Json = ℕ;
  empty_object = 0;
}

abbrev row : ℕ → ℕ → Row hundredths
row id rank = record {
  id = id;
  chunk_text = "Return policy";
  source_document = "policy.pdf";
  page_number = some (ℤ.pos 2);
  metadata = none;
  document_id = some 1;
  rank = some rank;
}

-- The dense search finds the chunks 4 and 5, the other one 5 and 6.
abbrev engine : Engine hundredths
engine = record {
  embed_query = λ q. some q;
  dense_rows = λ e k. some (row 4 80 ∷ row 5 70 ∷ []);
  sparse_rows = λ q k. some (row 5 40 ∷ row 6 90 ∷ []);
}

abbrev keys : Option (List (Chunk hundredths)) → List ℕ
keys none = []
keys (some cs) = map (λ c. c.id) cs

-- Chunk 5, which both searches found, has 7 * 70 + 3 * 40 and comes first.
shared_first : keys (hybrid_search hundredths engine "returns" 2) ≡ 5 ∷ 6 ∷ []
unfolding hybrid_search
shared_first = refl

-- A search that fails leaves the results of the other one.
dense_fails :
    keys (hybrid_search hundredths (record engine { dense_rows = λ e k. none }) "returns" 2)
    ≡ 6 ∷ 5 ∷ []
unfolding hybrid_search
dense_fails = refl

hybrid_search_lem_example :
    IsAnswer hundredths engine "returns" 2
      (some "returns")
      (hybrid_search hundredths engine "returns" 2)
hybrid_search_lem_example =
    hybrid_search_lem hundredths (λ x y h. ground (arith, h)) engine "returns" 2
      (λ e. (refl, (refl, tt))) (refl, (refl, tt))
