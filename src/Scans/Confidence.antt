-- ===== src/Scans/Confidence.antt =====
-- `_normalize_confidence` (apps/ingestion/services.py), over the floats of Python.
use smart_stock_ai.Prelude.Action.{Result, ok, err, overflow_error}
use smart_stock_ai.Prelude.{
  Bool, true, false, ◌≡◌, ◌≢◌, ◌⊎◌, inl, inr, refl, Bool-cases, if◌then◌else◌,
}

-- The floats, with what the function uses of them; `less` is false if one side is no number.
pub record Floats : Type 1 where
  pub Float : Type 0
  pub zero : Float
  pub one : Float
  pub less : Float → Float → Bool
  pub divided_by_100 : Float → Float

-- A value of the model's answer: None, one for which `float` raises TypeError or ValueError, a whole
-- number too large for a float, for which it raises OverflowError, or one that it reads.
pub data RawConfidence (F : Type 0) : Type 0 where
  none_given unreadable too_large : RawConfidence F
  reads : F → RawConfidence F

module _ (floats : Floats) where
  -- Python's `min(x, 1.0)` and `max(0.0, x)`: the first argument, unless the second one is better.
  abbrev pub at_most_one : floats.Float → floats.Float
  at_most_one x = if floats.less floats.one x then floats.one else x

  abbrev pub at_least_zero : floats.Float → floats.Float
  at_least_zero x = if floats.less floats.zero x then x else floats.zero

  abbrev pub scaled : floats.Float → floats.Float
  scaled x = if floats.less floats.one x then floats.divided_by_100 x else x

  -- OverflowError is not caught.
  unfoldable pub normalize_confidence : RawConfidence floats.Float → Result floats.Float
  normalize_confidence none_given = ok floats.zero
  normalize_confidence unreadable = ok floats.zero
  normalize_confidence too_large = err overflow_error
  normalize_confidence (reads x) = ok (at_least_zero (at_most_one (scaled x)))

  below_one :
      ((x y : floats.Float) → floats.less x y ≡ true → floats.less y x ≡ false)
      → (y : floats.Float) → floats.less floats.one (at_most_one y) ≡ false
  below_one asym y = elim (Bool-cases (floats.less floats.one y)) [
    | inl above ↦ rw above (irreflexive (floats.less floats.one floats.one) refl)
    | inr below ↦ rw below below
  ]
    where
      irreflexive :
          (b : Bool)
          → floats.less floats.one floats.one ≡ b
          → floats.less floats.one floats.one ≡ false
      irreflexive true e = asym floats.one floats.one e
      irreflexive false e = e

  clamped_bounds :
      ((x y : floats.Float) → floats.less x y ≡ true → floats.less y x ≡ false)
      → floats.less floats.zero floats.one ≡ true
      → (y : floats.Float)
      → let r = at_least_zero (at_most_one y) in
        ((r ≡ floats.zero) ⊎ (floats.less floats.zero r ≡ true))
        × (floats.less floats.one r ≡ false)
  clamped_bounds asym order y = elim (Bool-cases (floats.less floats.zero (at_most_one y))) [
    | inl above ↦ rw above (inr above, below_one asym y)
    | inr below ↦ rw below (inl refl, asym floats.zero floats.one order)
  ]

  -- A confidence for a value: an exception for one that is too large, and otherwise a number.
  abbrev pub IsConfidence : RawConfidence floats.Float → Result floats.Float → Type 0
  IsConfidence c (ok r) =
      (c ≢ too_large)
      × ((r ≡ floats.zero) ⊎ (floats.less floats.zero r ≡ true))
      × (floats.less floats.one r ≡ false)
  IsConfidence c (err e) = (c ≡ too_large) × (e ≡ overflow_error)

  -- If the order of the floats is asymmetric and 0.0 is less than 1.0, the confidence of a field
  -- is 0.0 or greater than 0.0, and not greater than 1.0, for every value but a whole number that
  -- is too large for a float, infinite values and values that are no number included; for such a
  -- whole number, and no other value, it raises OverflowError.
  pub normalize_confidence_bounds :
      ((x y : floats.Float) → floats.less x y ≡ true → floats.less y x ≡ false)
      → floats.less floats.zero floats.one ≡ true
      → (c : RawConfidence floats.Float) → IsConfidence c (normalize_confidence c)
  unfolding normalize_confidence
  normalize_confidence_bounds asym order none_given =
      (λ h. cc h, inl refl, asym floats.zero floats.one order)
  normalize_confidence_bounds asym order unreadable =
      (λ h. cc h, inl refl, asym floats.zero floats.one order)
  normalize_confidence_bounds asym order too_large = (refl, refl)
  normalize_confidence_bounds asym order (reads x) =
      let (above, below) = clamped_bounds asym order (scaled x) in (λ h. cc h, above, below)
