-- ===== src/Prelude/Sorting.antt =====
-- Stable sorting by a Boolean order, as `sorted` and ORDER BY do it, and the first elements of a list.
use Prim.Native.Nat.{ℕ, zero, suc, min}
use mathlib.Core.Path.{◌≡◌}
use mathlib.Core.Bool.{Bool, true, false}
use mathlib.Core.Logic.{inl, inr}
use mathlib.Core.List.{List, [], ◌∷◌, Perm}
use mathlib.Core.List.Perm
use native.Mathlib.Omega.{arith}
use smart_stock_ai.Prelude.Tests.{if◌then◌else◌, Bool-cases}
use smart_stock_ai.Prelude.Lists.{length, All}

module _ {A : Type 0} where
  -- `before y x` says that y must stand in front of x; an element stays before those that it equals.
  module _ (before : A → A → Bool) where
    abbrev pub insert : A → List A → List A
    insert x [] = x ∷ []
    insert x (y ∷ ys) = let rest = insert x ys in if before y x then y ∷ rest else x ∷ y ∷ ys

    abbrev pub sort : List A → List A
    sort [] = []
    sort (x ∷ xs) = insert x (sort xs)

    -- No element must stand in front of its predecessor.
    abbrev pub IsSorted : List A → Type 0
    IsSorted [] = Unit
    IsSorted (x ∷ []) = Unit
    IsSorted (x ∷ (y ∷ ys)) = (before y x ≡ false) × IsSorted (y ∷ ys)

    insert-IsSorted :
        ((x y : A) → before x y ≡ true → before y x ≡ false)
        → (x : A) (ys : List A) → IsSorted ys
        → IsSorted (insert x ys)
    insert-IsSorted asym x [] h = tt
    insert-IsSorted asym x (y ∷ []) h = ground (arith, asym y x)
    insert-IsSorted asym x (y ∷ (z ∷ zs)) h =
        ground (arith, asym y x, insert-IsSorted asym x (z ∷ zs) h.1)

    pub sort-IsSorted :
        ((x y : A) → before x y ≡ true → before y x ≡ false) → (xs : List A) → IsSorted (sort xs)
    sort-IsSorted asym [] = tt
    sort-IsSorted asym (x ∷ xs) = insert-IsSorted asym x (sort xs) (sort-IsSorted asym xs)

    insert-perm : (x : A) (ys : List A) → Perm (insert x ys) (x ∷ ys)
    insert-perm x [] = Perm.rfl
    insert-perm x (y ∷ ys) = elim (Bool-cases (before y x)) [
      | inl first ↦ rw first (Perm.trans (Perm.cons y (insert-perm x ys)) (Perm.swap x y ys))
      | inr stays ↦ rw stays Perm.rfl
    ]

    pub sort-perm : (xs : List A) → Perm (sort xs) xs
    sort-perm [] = Perm.rfl
    sort-perm (x ∷ xs) = Perm.trans (insert-perm x (sort xs)) (Perm.cons x (sort-perm xs))

    insert-All : (P : A → Type 0) (x : A) (ys : List A) → P x → All P ys → All P (insert x ys)
    insert-All P x [] p a = (p, tt)
    insert-All P x (y ∷ ys) p a = ground (arith, insert-All P x ys p a.1)

    pub sort-All : (P : A → Type 0) (xs : List A) → All P xs → All P (sort xs)
    sort-All P [] a = tt
    sort-All P (x ∷ xs) a = insert-All P x (sort xs) a.0 (sort-All P xs a.1)

  -- `xs[:n]`
  abbrev pub take : ℕ → List A → List A
  take zero xs = []
  take (suc n) [] = []
  take (suc n) (x ∷ xs) = x ∷ take n xs

  pub length-take : (n : ℕ) (xs : List A) → length (take n xs) ≡ min n (length xs)
  length-take zero xs = ground arith
  length-take (suc n) [] = ground arith
  length-take (suc n) (x ∷ xs) = ground (arith, length-take n xs)
