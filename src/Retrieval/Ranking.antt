-- ===== src/Retrieval/Ranking.antt =====
-- Lists without a key twice, as the dictionary of `hybrid_search` (ai/rag/retrieval.py) keeps them,
-- under an update, at the end and sorted.
use smart_stock_ai.Prelude.{
  ℕ, Bool, none, some, List, [], ◌∷◌, ◌≡◌, ◌∙◌, refl, arith, if◌then◌else◌, ◌==◌,
}
use smart_stock_ai.Prelude.Table.{find}
use smart_stock_ai.Prelude.Keys.{IsDistinct}
use smart_stock_ai.Prelude.Sorting.{sort, insert}

module _ {A : Type 0} (key : A → ℕ) where
  module _ (before : A → A → Bool) where
    find-insert :
        (k : ℕ) (x : A) (ys : List A)
        → find key (key x) ys ≡ none
        → find key k (insert before x ys) ≡ (if key x == k then some x else find key k ys)
    find-insert k x [] h = refl
    find-insert k x (y ∷ ys) h = ground (arith, h, find-insert k x ys)

    IsDistinct-insert :
        (x : A) (ys : List A)
        → find key (key x) ys ≡ none
        → IsDistinct key ys
        → IsDistinct key (insert before x ys)
    IsDistinct-insert x [] h d = (refl, tt)
    IsDistinct-insert x (y ∷ ys) h d =
        ground (arith, IsDistinct-insert x ys, find-insert (key y) x ys)

    pub find-sort :
        (k : ℕ) (xs : List A) → IsDistinct key xs → find key k (sort before xs) ≡ find key k xs
    find-sort k [] d = refl
    find-sort k (x ∷ xs) d =
        ground (
          arith,
          find-sort k xs d.1,
          find-sort (key x) xs d.1,
          d.0,
          find-insert k x (sort before xs),
        )

    pub IsDistinct-sort : (xs : List A) → IsDistinct key xs → IsDistinct key (sort before xs)
    IsDistinct-sort [] d = tt
    IsDistinct-sort (x ∷ xs) d =
        IsDistinct-insert x (sort before xs) (find-sort (key x) xs d.1 ∙ d.0)
          (IsDistinct-sort xs d.1)
