-- ===== src/Prelude/Checks.antt =====
-- Computations without a state that return or raise.
use mathlib.Core.Path.{◌≡◌, refl}
use mathlib.Core.Bool.{Bool, true, false}
use smart_stock_ai.Prelude.Action.{Error, Result, ok, err}

infixl 5 ◌>>=◌ ◌>>◌
unfoldable pub ◌>>=◌ : {A B : Type 0} → Result A → (A → Result B) → Result B
ok a >>= f = f a
err e >>= f = err e

unfoldable pub ◌>>◌ : {B : Type 0} → Result (Unit {0}) → Result B → Result B
ok a >> k = k
err e >> k = err e

-- `if b: raise e`
unfoldable pub refuse_if : Bool → Error → Result (Unit {0})
refuse_if true e = err e
refuse_if false e = ok tt

-- A bind that returns has a first part that returns, and returns what the second part makes of it.
module _ {A B : Type 0} (f : A → Result B) where
  pub >>=-eq-ok : (m : Result A) {b : B} → (m >>= f) ≡ ok b → (a : A) × (f a ≡ ok b) × (m ≡ ok a)
  unfolding ◌>>=◌
  >>=-eq-ok (err e) h = cc h
  >>=-eq-ok (ok a) h = (a, h, refl)

pub refuse_if-eq-ok :
    {A : Type 0} (b : Bool) (e : Error) (k : Result A) {a : A}
    → (refuse_if b e >> k) ≡ ok a
    → (b ≡ false) × (k ≡ ok a)
unfolding ◌>>◌ refuse_if
refuse_if-eq-ok true e k h = cc
refuse_if-eq-ok false e k h = (refl, h)
