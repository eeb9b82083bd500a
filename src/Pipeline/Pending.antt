-- ===== src/Pipeline/Pending.antt =====
-- The flags that `_run_po_creation_step` (apps/forecasting/pipeline_orchestrator.py) takes up, and
-- the valid tables of flags that the pipeline leaves.
use smart_stock_ai.Prelude.{
  ℕ, ◌+◌, ◌≢◌, Bool, true, false, none, List, [], ◌∷◌, ◌≡◌, refl, arith, All, select, if◌then◌else◌,
}
use smart_stock_ai.Prelude.Table.{find}
use smart_stock_ai.Prelude.Sorting.{sort, insert, sort-All}
use smart_stock_ai.Forecasting.{ReorderFlag, Store, flag_key}
use smart_stock_ai.Forecasting.Flags.{IsDistinct}
use smart_stock_ai.Pipeline.Counted.{open_count, IsOpenIn, process_flags-open}
use smart_stock_ai.Pipeline.Orchestrator.{
  World, is_pending, newer_flag, pending_flags, run_po_creation_step,
}

find-select :
    (k : ℕ) (p : ReorderFlag → Bool) (fs : List ReorderFlag)
    → find flag_key k fs ≡ none
    → find flag_key k (select p fs) ≡ none
find-select k p [] e = refl
find-select k p (x ∷ xs) e = ground (arith, find-select k p xs)

select-IsDistinct :
    (p : ReorderFlag → Bool) (fs : List ReorderFlag) → IsDistinct fs → IsDistinct (select p fs)
select-IsDistinct p [] d = tt
select-IsDistinct p (x ∷ xs) d =
    ground (arith, find-select x.id p xs d.0, select-IsDistinct p xs d.1)

module _ (before : ReorderFlag → ReorderFlag → Bool) where
  find-insert :
      (k : ℕ) (x : ReorderFlag) (fs : List ReorderFlag)
      → x.id ≢ k
      → find flag_key k fs ≡ none
      → find flag_key k (insert before x fs) ≡ none
  find-insert k x [] n e = ground arith
  find-insert k x (y ∷ ys) n e = ground (arith, find-insert k x ys n)

  insert-IsDistinct :
      (x : ReorderFlag) (fs : List ReorderFlag)
      → find flag_key x.id fs ≡ none
      → IsDistinct fs
      → IsDistinct (insert before x fs)
  insert-IsDistinct x [] e d = (refl, tt)
  insert-IsDistinct x (y ∷ ys) e d = ground (arith, find-insert y.id x ys, insert-IsDistinct x ys)

  find-sort :
      (k : ℕ) (fs : List ReorderFlag)
      → find flag_key k fs ≡ none
      → find flag_key k (sort before fs) ≡ none
  find-sort k [] e = refl
  find-sort k (x ∷ xs) e =
      find-insert k x (sort before xs) (ground (arith, e)) (find-sort k xs (ground (arith, e)))

  sort-IsDistinct : (fs : List ReorderFlag) → IsDistinct fs → IsDistinct (sort before fs)
  sort-IsDistinct [] d = tt
  sort-IsDistinct (x ∷ xs) d =
      insert-IsDistinct x (sort before xs) (find-sort x.id xs d.0) (sort-IsDistinct xs d.1)

-- The rows of `rows` that pass, each found by its key.
weaken :
    (x : ReorderFlag) (rows fs : List ReorderFlag)
    → find flag_key x.id rows ≡ none
    → All (IsOpenIn rows) fs
    → All (IsOpenIn (x ∷ rows)) fs
weaken x rows [] e a = tt
weaken x rows (f ∷ fs) e ((g, found, o), a) =
    ((g, ground (arith, e, found), o), weaken x rows fs e a)

pending-IsOpenIn :
    (rows : List ReorderFlag) → IsDistinct rows → All (IsOpenIn rows) (select is_pending rows)
pending-IsOpenIn [] d = tt
pending-IsOpenIn (x ∷ xs) d =
    by_status (is_pending x) refl (weaken x xs (select is_pending xs) d.0 (pending-IsOpenIn xs d.1))
  where
    by_status :
        (b : Bool)
        → is_pending x ≡ b
        → All (IsOpenIn (x ∷ xs)) (select is_pending xs)
        → All (IsOpenIn (x ∷ xs)) (if b then x ∷ select is_pending xs else select is_pending xs)
    by_status true e a = ((x, ground arith, ground (arith, e)), a)
    by_status false e a = a

module _ (world : World) where
  -- On a table of flags with distinct keys, each order that the step reports takes one open flag.
  pub run_po_creation_step-open :
      (w : Store)
      → IsDistinct w.flags.rows
      → let (n, t) = run_po_creation_step world w in
        open_count t.flags.rows + n.created ≡ open_count w.flags.rows
  unfolding run_po_creation_step pending_flags
  run_po_creation_step-open w d =
      process_flags-open world.env world.settings world.ask world.text_of world.system_user_id
        (pending_flags w) w
        (sort-IsDistinct newer_flag (select is_pending w.flags.rows)
          (select-IsDistinct is_pending w.flags.rows d))
        (sort-All newer_flag (IsOpenIn w.flags.rows) (select is_pending w.flags.rows)
          (pending-IsOpenIn w.flags.rows d))
