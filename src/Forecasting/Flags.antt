-- ===== src/Forecasting/Flags.antt =====
-- `upsert_open_reorder_flag` (apps/forecasting/repositories.py): the open flags of each SKU.
use smart_stock_ai.Prelude.{
  ℕ, ◌≤◌, ◌<◌, true, false, none, List, [], ◌∷◌, ◌++◌, ◌≡◌, refl, arith, if◌then◌else◌, ◌==◌,
  select, length, All,
}
use smart_stock_ai.Prelude.Action.{Result, ok, err}
use smart_stock_ai.Prelude.Table.{
  IsBelow-update, find, update, IsBelow, IsBelow-append, find-append,
}
use smart_stock_ai.Forecasting.{ReorderFlag, Store, flag_key}
use smart_stock_ai.Forecasting.Repository.{
  FlagData, is_open, is_open_for, flag_row, write_or_insert, upsert_open_reorder_flag,
}

abbrev pub IsDistinct : List ReorderFlag → Type 0
IsDistinct [] = Unit
IsDistinct (x ∷ xs) = (find flag_key x.id xs ≡ none) × IsDistinct xs

abbrev pub open_flags : ℕ → List ReorderFlag → List ReorderFlag
open_flags sku fs = select (is_open_for sku) fs

-- A flag is raised only for a reorder, and only if no order is open.
abbrev pub IsCalledFor : ReorderFlag → Type 0
IsCalledFor f = (f.reorder_required ≡ true) × (f.has_open_po ≡ false)

-- The keys are distinct and below the next key, each SKU has at most one open flag, and each flag
-- was raised for a reorder.
abbrev pub IsValid : Store → Type 0
IsValid w =
    IsDistinct w.flags.rows
    × IsBelow flag_key w.flags.next_id w.flags.rows
    × ((sku : ℕ) → length (open_flags sku w.flags.rows) ≤ 1)
    × All IsCalledFor w.flags.rows

-- Every row that is selected has its key in the list.
find-selected :
    (sku : ℕ) (fs : List ReorderFlag) (f : ReorderFlag)
    → find flag_key f.id fs ≡ none
    → open_flags sku fs ≡ f ∷ []
    → ⊥
find-selected sku [] f h e = cc e
find-selected sku (x ∷ xs) f h e = ground (arith, find-selected sku xs f)

-- One flag written in place of the one that is open for a SKU.
open_flags-update :
    (s sku : ℕ) (f g : ReorderFlag) (fs : List ReorderFlag)
    → g.sku ≡ sku
    → is_open g.status ≡ true
    → IsDistinct fs
    → open_flags sku fs ≡ f ∷ []
    → open_flags s (update flag_key f.id (λ x. g) fs)
      ≡ (if s == sku then g ∷ [] else open_flags s fs)
open_flags-update s sku f g [] k o d e = cc e
open_flags-update s sku f g (x ∷ xs) k o d e =
    ground (arith, open_flags-update s sku f g xs k o d.1, find-selected sku xs f)

open_flags-append :
    (s sku : ℕ) (g : ReorderFlag) (fs : List ReorderFlag)
    → g.sku ≡ sku
    → is_open g.status ≡ true
    → open_flags sku fs ≡ []
    → open_flags s (fs ++ g ∷ []) ≡ (if s == sku then g ∷ [] else open_flags s fs)
open_flags-append s sku g [] k o e = ground arith
open_flags-append s sku g (x ∷ xs) k o e = ground (arith, open_flags-append s sku g xs k o)

find-update :
    (k id : ℕ) (g : ReorderFlag) (fs : List ReorderFlag)
    → g.id ≡ id
    → find flag_key k fs ≡ none
    → find flag_key k (update flag_key id (λ x. g) fs) ≡ none
find-update k id g [] h e = refl
find-update k id g (x ∷ xs) h e = ground (arith, find-update k id g xs h)

update-IsDistinct :
    (id : ℕ) (g : ReorderFlag) (fs : List ReorderFlag)
    → g.id ≡ id
    → IsDistinct fs
    → IsDistinct (update flag_key id (λ x. g) fs)
update-IsDistinct id g [] h d = tt
update-IsDistinct id g (x ∷ xs) h d =
    ground (arith, find-update x.id id g xs h d.0, update-IsDistinct id g xs h d.1)

append-IsDistinct :
    (n : ℕ) (g : ReorderFlag) (fs : List ReorderFlag)
    → g.id ≡ n
    → IsDistinct fs
    → IsBelow flag_key n fs
    → IsDistinct (fs ++ g ∷ [])
append-IsDistinct n g [] e d b = (refl, tt)
append-IsDistinct n g (x ∷ xs) e d b =
    (rw (find-append flag_key x.id xs g, d.0) (ground arith), append-IsDistinct n g xs e d.1 b.1)

update-All :
    (P : ReorderFlag → Type 0) (id : ℕ) (g : ReorderFlag) (fs : List ReorderFlag)
    → P g
    → All P fs
    → All P (update flag_key id (λ x. g) fs)
update-All P id g [] p a = tt
update-All P id g (x ∷ xs) p a = ground (arith, update-All P id g xs p a.1)

append-All :
    (P : ReorderFlag → Type 0) (g : ReorderFlag) (fs : List ReorderFlag)
    → P g
    → All P fs
    → All P (fs ++ g ∷ [])
append-All P g [] p a = (p, tt)
append-All P g (x ∷ xs) p a = (a.0, append-All P g xs p a.1)

selected_id :
    (n sku : ℕ) (f : ReorderFlag) (fs : List ReorderFlag)
    → IsBelow flag_key n fs
    → open_flags sku fs ≡ f ∷ []
    → f.id < n
selected_id n sku f [] b e = cc e
selected_id n sku f (x ∷ xs) b e = ground (arith, selected_id n sku f xs b.1)

module _ (sku : ℕ) (c : FlagData) (w : Store) where
  -- What `update_or_create` leaves: the SKU has the one flag, every other SKU has the flags that it
  -- had, and nothing but the flags has changed.
  abbrev pub Upserted : Result ReorderFlag × Store → Type 0
  Upserted (err e, t) = ⊥
  Upserted (ok f, t) =
      (f ≡ flag_row sku c f.id f.created_at)
      × ((s : ℕ)
          → open_flags s t.flags.rows ≡ (if s == sku then f ∷ [] else open_flags s w.flags.rows))
      × (t.db ≡ w.db)
      × (t.forecasts ≡ w.forecasts)

  write_or_insert-Upserted :
      (fs : List ReorderFlag)
      → IsValid w
      → open_flags sku w.flags.rows ≡ fs
      → Upserted (write_or_insert sku c fs w)
  write_or_insert-Upserted [] v e = (
    refl,
    λ s. open_flags-append s sku (flag_row sku c w.flags.next_id w.db.now) w.flags.rows refl refl e,
    refl,
    refl,
  )
  write_or_insert-Upserted (f ∷ []) v e = (
    refl,
    λ s. open_flags-update s sku f (flag_row sku c f.id f.created_at) w.flags.rows refl refl v.0 e,
    refl,
    refl,
  )
  write_or_insert-Upserted (f ∷ (g ∷ gs)) v e = absurd (ground (arith, v.2 sku, e))

  pub upsert_open_reorder_flag-Upserted : IsValid w → Upserted (upsert_open_reorder_flag sku c w)
  unfolding upsert_open_reorder_flag
  upsert_open_reorder_flag-Upserted v =
      write_or_insert-Upserted (open_flags sku w.flags.rows) v refl

  still_one :
      (t : Store) (f : ReorderFlag)
      → IsValid w
      → ((s : ℕ)
          → open_flags s t.flags.rows ≡ (if s == sku then f ∷ [] else open_flags s w.flags.rows))
      → (s : ℕ) → length (open_flags s t.flags.rows) ≤ 1
  still_one t f v h s = rw (h s) (ground (arith, v.2 s))

  module _ (called_for : (c.reorder_required ≡ true) × (c.has_open_po ≡ false)) where
    write_or_insert-IsValid :
        (fs : List ReorderFlag)
        → IsValid w
        → open_flags sku w.flags.rows ≡ fs
        → IsValid (write_or_insert sku c fs w).1
    write_or_insert-IsValid [] v e =
        let g = flag_row sku c w.flags.next_id w.db.now in
        (
          append-IsDistinct w.flags.next_id g w.flags.rows refl v.0 v.1,
          IsBelow-append flag_key w.flags.next_id g w.flags.rows refl v.1,
          still_one (write_or_insert sku c [] w).1 g v (write_or_insert-Upserted [] v e).1,
          append-All IsCalledFor g w.flags.rows called_for v.3,
        )
    write_or_insert-IsValid (f ∷ []) v e =
        let g = flag_row sku c f.id f.created_at in
        (
          update-IsDistinct f.id g w.flags.rows refl v.0,
          IsBelow-update flag_key w.flags.next_id f.id g w.flags.rows
              (selected_id w.flags.next_id sku f w.flags.rows v.1 e) v.1,
          still_one (write_or_insert sku c (f ∷ []) w).1 g v
              (write_or_insert-Upserted (f ∷ []) v e).1,
          update-All IsCalledFor f.id g w.flags.rows called_for v.3,
        )
    write_or_insert-IsValid (f ∷ (g ∷ gs)) v e = v

    pub upsert_open_reorder_flag-IsValid : IsValid w → IsValid (upsert_open_reorder_flag sku c w).1
    unfolding upsert_open_reorder_flag
    upsert_open_reorder_flag-IsValid v =
        write_or_insert-IsValid (open_flags sku w.flags.rows) v refl
