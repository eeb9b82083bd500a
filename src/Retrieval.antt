-- ===== src/Retrieval.antt =====
-- The hybrid search for chunks of documents (ai/rag/retrieval.py): the results of the two searches
-- of the database, merged by key and ranked.
pub mod Ranking
pub mod Fused
pub mod Tests
use smart_stock_ai.Prelude.{ℕ, Bool, Option, none, some, List, [], ◌∷◌, ◌++◌, map, String}
use smart_stock_ai.Prelude.Int.{ℤ}
use smart_stock_ai.Prelude.Table.{find, update}
use smart_stock_ai.Prelude.Sorting.{sort, take}

-- The floats with what the search uses of them, vectors, and JSON.
pub record Values : Type 1 where
  pub Float : Type 0
  pub zero : Float
  pub less : Float → Float → Bool
  pub plus : Float → Float → Float
  pub times : Float → Float → Float
  pub dense_weight : Float
  pub sparse_weight : Float
  pub Vector : Type 0
  pub Json : Type 0
  pub empty_object : Json

-- A row that the database returns, with the score that it computed.
pub record Row (v : Values) : Type 0 where
  pub id : ℕ
  pub chunk_text : String
  pub source_document : String
  pub page_number : Option ℤ
  pub metadata : Option v.Json
  pub document_id : Option ℕ
  pub rank : Option v.Float

-- A dictionary of the results; a key that a search does not set is `none`.
pub record Chunk (v : Values) : Type 0 where
  pub id : ℕ
  pub chunk_text : String
  pub content : String
  pub source_document : String
  pub page_number : Option ℤ
  pub metadata : v.Json
  pub document_id : Option ℕ
  pub score : v.Float
  pub vector_score : Option v.Float
  pub fts_score : Option v.Float

-- The model of embeddings, and the two queries of the database; `none` is an exception.
pub record Engine (v : Values) : Type 0 where
  pub embed_query : String → Option v.Vector
  pub dense_rows : v.Vector → ℕ → Option (List (Row v))
  pub sparse_rows : String → ℕ → Option (List (Row v))

module _ (v : Values) where
  abbrev pub or_zero : Option v.Float → v.Float
  or_zero none = v.zero
  or_zero (some x) = x

  abbrev pub or_empty : Option v.Json → v.Json
  or_empty none = v.empty_object
  or_empty (some j) = j

  abbrev pub chunk_of : Row v → Option v.Float → Option v.Float → Chunk v
  chunk_of r vector_score fts_score = record {
    id = r.id;
    chunk_text = r.chunk_text;
    content = r.chunk_text;
    source_document = r.source_document;
    page_number = r.page_number;
    metadata = or_empty r.metadata;
    document_id = r.document_id;
    score = or_zero r.rank;
    vector_score = vector_score;
    fts_score = fts_score;
  }

  abbrev pub chunks : (Row v → Chunk v) → Option (List (Row v)) → List (Chunk v)
  chunks f none = []
  chunks f (some rows) = map f rows

  abbrev pub dense_search : Engine v → v.Vector → ℕ → List (Chunk v)
  dense_search engine embedding top_k =
      chunks (λ r. chunk_of r (some (or_zero r.rank)) none) (engine.dense_rows embedding top_k)

  abbrev pub sparse_search : Engine v → String → ℕ → List (Chunk v)
  sparse_search engine query top_k =
      chunks (λ r. chunk_of r none (some (or_zero r.rank))) (engine.sparse_rows query top_k)

  abbrev pub chunk_key : Chunk v → ℕ
  chunk_key c = c.id

  -- `merged[cid] = chunk`
  abbrev pub set_chunk : List (Chunk v) → Chunk v → List (Chunk v)
  set_chunk merged c = elim (find chunk_key c.id merged) [
    | none ↦ merged ++ c ∷ []
    | some old ↦ update chunk_key c.id (λ x. c) merged
  ]

  abbrev pub combined : Chunk v → Chunk v → Chunk v
  combined existing c =
      let fts = or_zero c.fts_score in
      record existing {
        fts_score = some fts;
        score =
            v.plus (v.times v.dense_weight (or_zero existing.vector_score))
              (v.times v.sparse_weight fts);
      }

  abbrev pub add_sparse : List (Chunk v) → Chunk v → List (Chunk v)
  add_sparse merged c = elim (find chunk_key c.id merged) [
    | none ↦ merged ++ c ∷ []
    | some existing ↦ update chunk_key c.id (λ x. combined existing c) merged
  ]

  -- A loop over the chunks of one search.
  abbrev pub merge :
      (List (Chunk v) → Chunk v → List (Chunk v)) → List (Chunk v) → List (Chunk v) → List (Chunk v)
  merge step merged [] = merged
  merge step merged (c ∷ cs) = merge step (step merged c) cs

  abbrev pub ranks_before : Chunk v → Chunk v → Bool
  ranks_before y x = v.less x.score y.score

  abbrev pub fuse : List (Chunk v) → List (Chunk v) → ℕ → List (Chunk v)
  fuse dense sparse top_k =
      take top_k (sort ranks_before (merge add_sparse (merge set_chunk [] dense) sparse))

  unfoldable pub hybrid_search : Engine v → String → ℕ → Option (List (Chunk v))
  hybrid_search engine query top_k = elim (engine.embed_query query) [
    | none ↦ none
    | some embedding ↦
        some (fuse (dense_search engine embedding top_k) (sparse_search engine query top_k) top_k)
  ]
