-- ===== src/Prelude/Json.antt =====
-- JSON as `json.loads` returns it. The keys of an object are distinct, as those of a dictionary are;
-- `F` stands for the floats.
use text.Mathlib.Text.{◌==◌}
use mathlib.Core.Bool.{Bool, true, false}
use mathlib.Core.Option.{Option, none, some}
use Prim.Native.String.{String}
use smart_stock_ai.Prelude.Tests.{if◌then◌else◌, is_some}
use smart_stock_ai.Prelude.Int.{ℤ, pos, eqb_ℤ}

mutual
  pub data Json (F : Type 0) : Type 0 where
    null : Json F
    bool : Bool → Json F
    int : ℤ → Json F
    float : F → Json F
    str : String → Json F
    arr : Items F → Json F
    obj : Fields F → Json F

  pub data Items (F : Type 0) : Type 0 where
    nil : Items F
    item : Json F → Items F → Items F

  pub data Fields (F : Type 0) : Type 0 where
    end : Fields F
    field : String → Json F → Fields F → Fields F

module _ {F : Type 0} where
  -- `d.get(k)`, with `none` for a key that is missing.
  abbrev pub get : String → Fields F → Option (Json F)
  get k end = none
  get k (field j v fs) = if j == k then some v else get k fs

  -- `d.get(k, default)`
  abbrev pub get_or : Json F → String → Fields F → Json F
  get_or default k fs = elim (get k fs) [ none ↦ default | some v ↦ v ]

  abbrev pub has_key : String → Fields F → Bool
  has_key k fs = is_some (get k fs)

  abbrev pub is_null : Json F → Bool
  is_null null = true
  is_null _ = false

  -- Python's truth of a value; that of a float is given.
  abbrev pub truth : (F → Bool) → Json F → Bool
  truth t null = false
  truth t (bool b) = b
  truth t (int n) = if eqb_ℤ n (pos 0) then false else true
  truth t (float x) = t x
  truth t (str s) = if s == "" then false else true
  truth t (arr nil) = false
  truth t (arr (item v vs)) = true
  truth t (obj end) = false
  truth t (obj (field k v fs)) = true
