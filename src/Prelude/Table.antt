-- ===== src/Prelude/Table.antt =====
-- A database table: rows with a primary key. The database keeps primary keys unique, so `update`
-- stops at the row that it finds.
use Prim.Native.Nat.{ℕ, ◌<◌, ◌+◌}
use mathlib.Core.Path.{◌≡◌, refl}
use mathlib.Core.Logic.{◌≢◌}
use mathlib.Core.Option.{Option, none, some}
use mathlib.Core.List.{List, [], ◌∷◌, ◌++◌}
use native.Mathlib.Omega.{arith}
use smart_stock_ai.Prelude.Tests.{◌==◌, if◌then◌else◌}
use smart_stock_ai.Prelude.Lists.{All}

pub record Table (A : Type 0) : Type 0 where
  pub rows : List A
  pub next_id : ℕ

module _ {A : Type 0} (key : A → ℕ) where
  -- `objects.filter(pk=k).first()`
  abbrev pub find : ℕ → List A → Option A
  find k [] = none
  find k (r ∷ rs) = if key r == k then some r else find k rs

  -- `objects.filter(pk=k).update(...)`
  abbrev pub update : ℕ → (A → A) → List A → List A
  update k f [] = []
  update k f (r ∷ rs) = if key r == k then f r ∷ rs else r ∷ update k f rs

  pub find_key : (k : ℕ) (rs : List A) {r : A} → find k rs ≡ some r → key r ≡ k
  find_key k [] h = cc
  find_key k (x ∷ rs) {r} h = ground (arith, find_key k rs {r = r})

  pub find-update_self :
      (k : ℕ) (f : A → A) (rs : List A) {r : A}
      → key (f r) ≡ k
      → find k rs ≡ some r
      → find k (update k f rs) ≡ some (f r)
  find-update_self k f [] e h = cc
  find-update_self k f (x ∷ rs) e h = ground (arith, find-update_self k f rs e)

  pub find-update_ne :
      (j k : ℕ) (f : A → A) (rs : List A) {r : A}
      → key (f r) ≡ k
      → find k rs ≡ some r
      → j ≢ k
      → find j (update k f rs) ≡ find j rs
  find-update_ne j k f [] e h n = refl
  find-update_ne j k f (x ∷ rs) e h n = ground (arith, find-update_ne j k f rs e)

  pub update-none : (k : ℕ) (f : A → A) (rs : List A) → find k rs ≡ none → update k f rs ≡ rs
  update-none k f [] h = refl
  update-none k f (x ∷ rs) h = ground (arith, update-none k f rs)

  -- Every key is below `n`.
  abbrev pub IsBelow : ℕ → List A → Type 0
  IsBelow n rs = All (λ r. key r < n) rs

  pub find_fresh : (n : ℕ) (rs : List A) → IsBelow n rs → find n rs ≡ none
  find_fresh n [] h = refl
  find_fresh n (x ∷ rs) h = ground (arith, find_fresh n rs h.1)

  pub find-append :
      (j : ℕ) (rs : List A) (r : A)
      → find j (rs ++ r ∷ [])
        ≡ elim (find j rs) [ none ↦ if key r == j then some r else none | some x ↦ some x ]
  find-append j [] r = ground arith
  find-append j (x ∷ rs) r = ground (arith, find-append j rs r)

  -- An update writes one value: what `f` makes of the row that it finds.
  pub update_const :
      (k : ℕ) (f : A → A) (rs : List A) {r : A}
      → find k rs ≡ some r
      → update k f rs ≡ update k (λ y. f r) rs
  update_const k f [] h = refl
  update_const k f (x ∷ rs) {r} h = ground (arith, update_const k f rs {r = r})

  pub IsBelow-find : (n k : ℕ) (rs : List A) {r : A} → IsBelow n rs → find k rs ≡ some r → k < n
  IsBelow-find n k [] h e = cc
  IsBelow-find n k (x ∷ rs) {r} h e = ground (arith, IsBelow-find n k rs {r = r} h.1)

  pub IsBelow-update :
      (n k : ℕ) (s : A) (rs : List A) → key s < n → IsBelow n rs → IsBelow n (update k (λ y. s) rs)
  IsBelow-update n k s [] p h = tt
  IsBelow-update n k s (x ∷ rs) p h = ground (arith, IsBelow-update n k s rs p h.1)

  pub IsBelow-append :
      (n : ℕ) (s : A) (rs : List A) → key s ≡ n → IsBelow n rs → IsBelow (n + 1) (rs ++ s ∷ [])
  IsBelow-append n s [] e h = (omega arith, tt)
  IsBelow-append n s (x ∷ rs) e h = (omega arith, IsBelow-append n s rs e h.1)
