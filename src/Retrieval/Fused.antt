-- ===== src/Retrieval/Fused.antt =====
-- The results of `hybrid_search` (ai/rag/retrieval.py), compared with those of its two searches.
use smart_stock_ai.Prelude.{
  ℕ, true, false, Option, none, some, List, [], ◌∷◌, ◌≡◌, refl, arith, if◌then◌else◌, ◌==◌, String,
}
use smart_stock_ai.Prelude.Table.{find, find_key, find-append}
use smart_stock_ai.Prelude.Sorting.{sort, take, IsSorted, sort-IsSorted}
use smart_stock_ai.Retrieval.{
  Values, Chunk, Engine, chunk_key, set_chunk, combined, add_sparse, merge, ranks_before,
  dense_search, sparse_search, hybrid_search,
}
use smart_stock_ai.Prelude.Keys.{IsDistinct, find-update, IsDistinct-update, IsDistinct-append}
use smart_stock_ai.Retrieval.Ranking.{IsDistinct-sort, find-sort}

module _ (v : Values) where
  -- What the dictionary has for a key: the chunk of the one search that found it, or both combined.
  abbrev pub fused : Option (Chunk v) → Option (Chunk v) → Option (Chunk v)
  fused none sparse = sparse
  fused (some x) none = some x
  fused (some x) (some y) = some (combined v x y)

  abbrev IsDictionary : List (Chunk v) → Type 0
  IsDictionary m = IsDistinct (chunk_key v) m

  find-set_chunk :
      (k : ℕ) (m : List (Chunk v)) (c : Chunk v)
      → find (chunk_key v) k (set_chunk v m c)
        ≡ (if c.id == k then some c else find (chunk_key v) k m)
  find-set_chunk k m c = go (find (chunk_key v) c.id m) refl
    where
      go :
          (f : Option (Chunk v))
          → find (chunk_key v) c.id m ≡ f
          → find (chunk_key v) k (set_chunk v m c)
            ≡ (if c.id == k then some c else find (chunk_key v) k m)
      go none e = ground (arith, e, find-append (chunk_key v) k m c)
      go (some x) e = rw (set_chunk, e) (find-update (chunk_key v) k c.id c m {x = x} refl e)

  find-add_sparse :
      (k : ℕ) (m : List (Chunk v)) (c : Chunk v)
      → find (chunk_key v) k (add_sparse v m c)
        ≡ (if c.id == k then fused (find (chunk_key v) k m) (some c) else find (chunk_key v) k m)
  find-add_sparse k m c = go (find (chunk_key v) c.id m) refl
    where
      go :
          (f : Option (Chunk v))
          → find (chunk_key v) c.id m ≡ f
          → find (chunk_key v) k (add_sparse v m c) ≡ (
              if c.id == k then fused (find (chunk_key v) k m) (some c) else find (chunk_key v) k m)
      go none e = ground (arith, e, find-append (chunk_key v) k m c)
      go (some x) e = ground (
        arith,
        e,
        find_key (chunk_key v) c.id m {r = x} e,
        find-update (chunk_key v) k c.id (combined v x c) m {x = x},
      )

  IsDictionary-set_chunk :
      (m : List (Chunk v)) (c : Chunk v) → IsDictionary m → IsDictionary (set_chunk v m c)
  IsDictionary-set_chunk m c d = go (find (chunk_key v) c.id m) refl
    where
      go : (f : Option (Chunk v)) → find (chunk_key v) c.id m ≡ f → IsDictionary (set_chunk v m c)
      go none e = rw (set_chunk, e) (IsDistinct-append (chunk_key v) c m e d)
      go (some x) e = rw (set_chunk, e) (IsDistinct-update (chunk_key v) c.id c m {x = x} refl e d)

  IsDictionary-add_sparse :
      (m : List (Chunk v)) (c : Chunk v) → IsDictionary m → IsDictionary (add_sparse v m c)
  IsDictionary-add_sparse m c d = go (find (chunk_key v) c.id m) refl
    where
      go : (f : Option (Chunk v)) → find (chunk_key v) c.id m ≡ f → IsDictionary (add_sparse v m c)
      go none e = rw (add_sparse, e) (IsDistinct-append (chunk_key v) c m e d)
      go (some x) e =
          rw (add_sparse, e)
            (IsDistinct-update (chunk_key v) c.id (combined v x c) m {x = x}
              (find_key (chunk_key v) c.id m {r = x} e) e d)

  IsDictionary-merge :
      (step : List (Chunk v) → Chunk v → List (Chunk v))
      → ((m : List (Chunk v)) (c : Chunk v) → IsDictionary m → IsDictionary (step m c))
      → (m cs : List (Chunk v)) → IsDictionary m
      → IsDictionary (merge v step m cs)
  IsDictionary-merge step keeps m [] d = d
  IsDictionary-merge step keeps m (c ∷ cs) d =
      IsDictionary-merge step keeps (step m c) cs (keeps m c d)

  find-merge_dense :
      (k : ℕ) (m cs : List (Chunk v))
      → IsDictionary cs
      → find (chunk_key v) k (merge v (set_chunk v) m cs)
        ≡ elim (find (chunk_key v) k cs) [ none ↦ find (chunk_key v) k m | some x ↦ some x ]
  find-merge_dense k m [] d = refl
  find-merge_dense k m (c ∷ cs) d =
      ground (arith, d.0, find-merge_dense k (set_chunk v m c) cs d.1, find-set_chunk k m c)

  find-merge_sparse :
      (k : ℕ) (m cs : List (Chunk v))
      → IsDictionary cs
      → find (chunk_key v) k (merge v (add_sparse v) m cs)
        ≡ fused (find (chunk_key v) k m) (find (chunk_key v) k cs)
  find-merge_sparse k m [] d = ground arith
  find-merge_sparse k m (c ∷ cs) d =
      ground (arith, d.0, find-merge_sparse k (add_sparse v m c) cs d.1, find-add_sparse k m c)

  -- A ranking of all that the two searches found: keys occur once, no chunk stands directly before
  -- one with a higher score, and each key has what the two searches have for it.
  abbrev pub IsRanking : List (Chunk v) → List (Chunk v) → List (Chunk v) → Type 0
  IsRanking dense sparse all =
      IsDistinct (chunk_key v) all
      × IsSorted (ranks_before v) all
      × ((k : ℕ)
          → find (chunk_key v) k all
            ≡ fused (find (chunk_key v) k dense) (find (chunk_key v) k sparse))

  -- What a search answers to a query, by what the model of embeddings returns for it.
  abbrev pub IsAnswer : Engine v → String → ℕ → Option v.Vector → Option (List (Chunk v)) → Type 0
  IsAnswer engine query top_k none answer = answer ≡ none
  IsAnswer engine query top_k (some embedding) answer =
      (all : List (Chunk v)) × (answer ≡ some (take top_k all))
      × IsRanking (dense_search v engine embedding top_k) (sparse_search v engine query top_k) all

  sort-IsRanking :
      ((x y : v.Float) → v.less x y ≡ true → v.less y x ≡ false)
      → (dense sparse : List (Chunk v)) → IsDistinct (chunk_key v) dense
      → IsDistinct (chunk_key v) sparse
      → IsRanking dense sparse
          (sort (ranks_before v) (merge v (add_sparse v) (merge v (set_chunk v) [] dense) sparse))
  sort-IsRanking asym dense sparse dd ds = (
    IsDistinct-sort (chunk_key v) (ranks_before v) merged distinct,
    sort-IsSorted (ranks_before v) (λ x y. asym y.score x.score) merged,
    λ k. ground (
      arith,
      find-sort (chunk_key v) (ranks_before v) k merged distinct,
      find-merge_sparse k (merge v (set_chunk v) [] dense) sparse ds,
      find-merge_dense k [] dense dd,
    ),
  )
    where
      merged : List (Chunk v)
      merged = merge v (add_sparse v) (merge v (set_chunk v) [] dense) sparse

      distinct : IsDictionary merged
      distinct =
          IsDictionary-merge (add_sparse v) IsDictionary-add_sparse (merge v (set_chunk v) [] dense)
            sparse (IsDictionary-merge (set_chunk v) IsDictionary-set_chunk [] dense tt)

  -- If the rows of each search have different keys, and the order of the floats is asymmetric,
  -- `hybrid_search` raises exactly if the model of embeddings does. Otherwise, also if a search of
  -- the database fails, it returns the first `top_k` chunks of a ranking of all that the two
  -- searches found. In the ranking no key occurs twice, no chunk stands directly before one with a
  -- higher score, and the chunk of a key is the one of the search that has the key or, if both have
  -- it, the chunk of the dense search with the full-text score and the weighted sum of both scores.
  pub hybrid_search_lem :
      ((x y : v.Float) → v.less x y ≡ true → v.less y x ≡ false)
      → (engine : Engine v) → (query : String) (top_k : ℕ)
      → ((e : v.Vector) → IsDistinct (chunk_key v) (dense_search v engine e top_k))
      → IsDistinct (chunk_key v) (sparse_search v engine query top_k)
      → IsAnswer engine query top_k (engine.embed_query query) (hybrid_search v engine query top_k)
  unfolding hybrid_search
  hybrid_search_lem asym engine query top_k dd ds = go (engine.embed_query query) refl
    where
      go :
          (o : Option v.Vector)
          → engine.embed_query query ≡ o
          → IsAnswer engine query top_k
              (engine.embed_query query)
              (hybrid_search v engine query top_k)
      go none e = rw (hybrid_search, e) refl
      go (some embedding) e =
          rw (hybrid_search, e)
            (
              _,
              refl,
              sort-IsRanking asym (dense_search v engine embedding top_k)
                  (sparse_search v engine query top_k) (dd embedding) ds,
            )
