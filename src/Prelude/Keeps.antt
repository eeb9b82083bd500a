-- ===== src/Prelude/Keeps.antt =====
-- Actions that leave a part of the state as it was, one rule per way to build an action.
use mathlib.Core.Path.{◌≡◌, refl, sym, ap, ◌∙◌}
use mathlib.Core.Bool.{Bool, true, false}
use mathlib.Core.Option.{Option, none, some}
use smart_stock_ai.Prelude.Tests.{if◌then◌else◌}
use smart_stock_ai.Prelude.Action.{
  Action, Result, Error, ok, err, ◌>>=◌, catch, atomic, or_raise, bind_ind, catch_ind,
}

module _ {S X : Type 0} (V : S → X) where
  abbrev pub Keeps : {A : Type 0} → Action S A → Type 0
  Keeps m = (s : S) → V (m s).1 ≡ V s

  module _ {A B : Type 0} where
    pub >>=-Keeps :
        (m : Action S A) (f : A → Action S B) → Keeps m → ((a : A) → Keeps (f a)) → Keeps (m >>= f)
    >>=-Keeps m f h k s =
        bind_ind (λ r. V r.1 ≡ V s) m f s (λ a t e. k a t ∙ (sym (ap (λ r. V r.1) e) ∙ h s))
          (λ x t e. sym (ap (λ r. V r.1) e) ∙ h s)

  module _ {A : Type 0} where
    pub catch-Keeps :
        (m : Action S A) (k : Error → Action S A)
        → Keeps m
        → ((e : Error) → Keeps (k e))
        → Keeps (catch m k)
    catch-Keeps m k h g s =
        catch_ind (λ r. V r.1 ≡ V s) m k s (λ a t e. sym (ap (λ r. V r.1) e) ∙ h s)
          (λ x t e. g x t ∙ (sym (ap (λ r. V r.1) e) ∙ h s))

    pub atomic-Keeps : (m : Action S A) → Keeps m → Keeps (atomic m)
    atomic-Keeps m h s = go (m s) (h s)
      where
        go :
            (r : Result A × S)
            → V r.1 ≡ V s
            → V (elim r.0 as (λ x. Result A × S) [ ok a ↦ (ok a, r.1) | err e ↦ (err e, s) ]).1
              ≡ V s
        go (ok a, t) e = e
        go (err x, t) e = refl

    pub or_raise-Keeps : (o : Option A) (e : Error) → Keeps (or_raise {S = S} o e)
    or_raise-Keeps none e s = refl
    or_raise-Keeps (some a) e s = refl

    pub if-Keeps : (b : Bool) (m n : Action S A) → Keeps m → Keeps n → Keeps (if b then m else n)
    if-Keeps true m n h k = h
    if-Keeps false m n h k = k
