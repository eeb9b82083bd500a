-- ===== src/Prelude/Keys.antt =====
-- Rows with different keys, under an update and a new row.
use Prim.Native.Nat.{ℕ}
use mathlib.Core.Path.{◌≡◌, refl}
use mathlib.Core.Option.{none, some}
use mathlib.Core.List.{List, [], ◌∷◌, ◌++◌}
use native.Mathlib.Omega.{arith}
use smart_stock_ai.Prelude.Tests.{◌==◌, if◌then◌else◌}
use smart_stock_ai.Prelude.Table.{find, update, find-append}

module _ {A : Type 0} (key : A → ℕ) where
  -- No key occurs twice.
  abbrev pub IsDistinct : List A → Type 0
  IsDistinct [] = Unit
  IsDistinct (x ∷ xs) = (find key (key x) xs ≡ none) × IsDistinct xs

  pub find-update :
      (j k : ℕ) (y : A) (xs : List A) {x : A}
      → key y ≡ k
      → find key k xs ≡ some x
      → find key j (update key k (λ z. y) xs) ≡ (if k == j then some y else find key j xs)
  find-update j k y [] e h = cc
  find-update j k y (x ∷ xs) {x = old} e h = ground (arith, find-update j k y xs {x = old} e)

  pub IsDistinct-update :
      (k : ℕ) (y : A) (xs : List A) {x : A}
      → key y ≡ k
      → find key k xs ≡ some x
      → IsDistinct xs
      → IsDistinct (update key k (λ z. y) xs)
  IsDistinct-update k y [] e h d = tt
  IsDistinct-update k y (x ∷ xs) {x = old} e h d =
      ground (arith, IsDistinct-update k y xs {x = old} e, find-update (key x) k y xs {x = old} e)

  pub IsDistinct-append :
      (y : A) (xs : List A) → find key (key y) xs ≡ none → IsDistinct xs → IsDistinct (xs ++ y ∷ [])
  IsDistinct-append y [] h d = (refl, tt)
  IsDistinct-append y (x ∷ xs) h d =
      ground (arith, IsDistinct-append y xs, find-append key (key x) xs y)
