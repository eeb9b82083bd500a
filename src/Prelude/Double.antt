-- ===== src/Prelude/Double.antt =====
-- Python's floats, as far as the forecasts need them: a double that is a multiple of 2^-60 is the whole
-- number of those units. Every double of at least 0.01, and every sum or difference of such doubles, is
-- a multiple of 2^-60; results are rounded to 53 significant bits, ties to the even one. Values too large
-- for a double are left out.
use Prim.Native.Nat.{ℕ, zero, suc, ◌+◌, ◌*◌, ◌/◌, ◌%◌, ◌≤◌, ◌<◌}
use mathlib.Core.Path.{◌≡◌, refl}
use mathlib.Core.Bool.{Bool, true, false}
use mathlib.Core.List.{List, [], ◌∷◌}
use native.Mathlib.Omega.{arith}
use smart_stock_ai.Prelude.Tests.{ltb, leb, if◌then◌else◌}
use smart_stock_ai.Prelude.Int.{ℤ, pos, negsuc, pos_part, neg_part, sub_ℕ, ◌+ℤ◌, ◌-ℤ◌}

abbrev pub Double : Type 0
Double = ℤ

-- The least power of two that, as a unit, lets 53 bits hold n; on fuel.
unfoldable pub last_bit : ℕ → ℕ → ℕ
last_bit zero n = 1
last_bit (suc fuel) n = elim (ltb n 9007199254740992) [
  | true ↦ 1
  | false ↦ 2 * last_bit fuel (n / 2)
]

-- With n itself as fuel the unit is large enough.
pub last_bit-fits : (fuel n : ℕ) → n ≤ fuel → n < 9007199254740992 * last_bit fuel n
unfolding last_bit
last_bit-fits zero n h = omega arith
last_bit-fits (suc fuel) n h = go (ltb n 9007199254740992) refl (last_bit-fits fuel (n / 2))
  where
    go :
        (small : Bool)
        → ltb n 9007199254740992 ≡ small
        → (n / 2 ≤ fuel → n / 2 < 9007199254740992 * last_bit fuel (n / 2))
        → n < 9007199254740992 * (elim small [ true ↦ 1 | false ↦ 2 * last_bit fuel (n / 2) ])
    go true e rest = ground (arith, e)
    go false e rest =
        let large : 9007199254740992 ≤ n = ground (arith, e) in
        let small_half = rest (omega (arith, large, h)) in omega (arith, small_half)

-- The multiple of q that is nearest to n, and of two the even one.
abbrev pub nearest : ℕ → ℕ → ℕ
nearest q n =
    let m = n / q in
    let r = n % q in
    if ltb (2 * r) q then m * q else if ltb q (2 * r) then (m + 1) * q else (m + m % 2) * q

abbrev pub rounded_ℕ : ℕ → ℕ
rounded_ℕ n = nearest (last_bit n n) n

abbrev pub rounded : ℤ → Double
rounded (pos n) = pos (rounded_ℕ n)
rounded (negsuc n) = sub_ℕ 0 (rounded_ℕ (suc n))

-- `a + b` and `a - b`
unfoldable pub add_double : Double → Double → Double
add_double a b = rounded (a +ℤ b)

unfoldable pub sub_double : Double → Double → Double
sub_double a b = rounded (a -ℤ b)

-- A whole number below 2^53, which is a double as it stands.
unfoldable pub double_of_int : ℤ → Double
double_of_int (pos n) = pos (n * 1152921504606846976)
double_of_int (negsuc n) = sub_ℕ 0 (suc n * 1152921504606846976)

-- The double nearest to a number of hundredths.
unfoldable pub double_of_hundredths : ℕ → Double
double_of_hundredths h =
    let units = h * 1152921504606846976 in
    let floor = units / 100 in pos (nearest (100 * last_bit floor floor) units / 100)

abbrev abs : Double → ℕ
abs x = pos_part x + neg_part x

-- `sum` of a list of floats, in Python 3.12: what the additions lose is added up on its own
-- (Neumaier), and added at the end.
abbrev lost : Double → Double → Double → Double
lost f x t =
    if leb (abs x) (abs f) then add_double (sub_double f t) x else add_double (sub_double x t) f

unfoldable pub sum_from : Double → Double → List Double → Double
sum_from f c [] = add_double f c
sum_from f c (x ∷ xs) = let t = add_double f x in sum_from t (add_double c (lost f x t)) xs

unfoldable pub sum_doubles : List Double → Double
sum_doubles [] = pos 0
sum_doubles (x ∷ xs) = sum_from x (pos 0) xs
