-- ===== src/Pipeline/Counted.antt =====
-- The counts of `process_flags` (ai/agents/po_from_flag_creator.py), and the flags that are open
-- after it.
use mathlib.Core.Path.{subst}
use smart_stock_ai.Prelude.{
  ◌∙◌, ℕ, suc, ◌+◌, ◌≢◌, true, Option, none, some, List, [], ◌∷◌, ◌≡◌, refl, sym, ap, arith, length,
  String, All, if◌then◌else◌,
}
use smart_stock_ai.Prelude.Int.{ℤ}
use smart_stock_ai.Prelude.Action.{Result, ok, err}
use smart_stock_ai.Prelude.Table.{find, find_key, find-update_ne}
use smart_stock_ai.Agent.Tools.{Environment}
use smart_stock_ai.Agent.Purchasing.{Settings}
use smart_stock_ai.Forecasting.{ReorderFlag, FlagStatus, Store, flag_key}
use smart_stock_ai.Forecasting.Repository.{is_open}
use smart_stock_ai.Forecasting.Flags.{IsDistinct}
use smart_stock_ai.Pipeline.Creator.{
  Answer, FlagResult, created, skipped_no_supplier, failed, process_single_flag, Counts, count,
  no_flags, process_from, process_flags,
}
use smart_stock_ai.Pipeline.Consumed.{with_consumed, Settles, process_single_flag-Settles}

abbrev total : Counts → ℕ
total n = n.created + n.skipped_no_supplier + n.failed

-- The number of open flags.
abbrev pub open_count : List ReorderFlag → ℕ
open_count [] = 0
open_count (f ∷ fs) = if is_open f.status then suc (open_count fs) else open_count fs

abbrev pub IsOpenIn : List ReorderFlag → ReorderFlag → Type 0
IsOpenIn rows f = (g : ReorderFlag) × (find flag_key f.id rows ≡ some g) × (is_open g.status ≡ true)

total-count : (r : Result FlagResult) (n : Counts) → total (count r n) ≡ suc (total n)
total-count (ok (created po s)) n = omega arith
total-count (ok skipped_no_supplier) n = omega arith
total-count (ok failed) n = omega arith
total-count (err e) n = omega arith

-- One flag less is open after it is consumed.
open_count_consumed :
    (id : ℕ) (rows : List ReorderFlag) {g : ReorderFlag}
    → find flag_key id rows ≡ some g
    → is_open g.status ≡ true
    → suc (open_count (with_consumed id rows)) ≡ open_count rows
open_count_consumed id [] e o = cc e
open_count_consumed id (x ∷ xs) {g} e o = ground (arith, open_count_consumed id xs {g = g})

consumed_others :
    (k : ℕ) (rows fs : List ReorderFlag) {g : ReorderFlag}
    → find flag_key k rows ≡ some g
    → find flag_key k fs ≡ none
    → All (IsOpenIn rows) fs
    → All (IsOpenIn (with_consumed k rows)) fs
consumed_others k rows [] e n a = tt
consumed_others k rows (f ∷ fs) {g} e n a =
    let other : f.id ≢ k = ground (arith, n) in
    (
      (
        a.0.0,
        find-update_ne flag_key f.id k consumed_flag rows (find_key flag_key k rows e) e other
            ∙ a.0.1,
        a.0.2,
      ),
      consumed_others k rows fs e (ground (arith, n)) a.1,
    )
  where
    consumed_flag : ReorderFlag → ReorderFlag
    consumed_flag f = record f { status = FlagStatus.consumed }

module _ (env : Environment) (settings : Settings) (ask : ReorderFlag → Answer)
    (text_of : ℤ → String) (system_user_id : Option ℕ) where
  process_from-total :
      (n : Counts) (fs : List ReorderFlag) (w : Store)
      → total (process_from env settings ask text_of system_user_id n fs w).0 ≡ total n + length fs
  unfolding process_from
  process_from-total n [] w = omega arith
  process_from-total n (f ∷ fs) w =
      let (r, t) = process_single_flag env settings ask text_of system_user_id f w in
      omega (arith, process_from-total (count r n) fs t, total-count r n)

  -- Every flag is counted once, as created, as skipped or as failed.
  pub process_flags-total :
      (fs : List ReorderFlag) (w : Store)
      → let n = (process_flags env settings ask text_of system_user_id fs w).0 in
        n.created + n.skipped_no_supplier + n.failed ≡ length fs
  unfolding process_flags
  process_flags-total fs w = omega (arith, process_from-total no_flags fs w)

  abbrev Balanced : Counts → Store → Counts × Store → Type 0
  Balanced n w p = open_count p.1.flags.rows + p.0.created ≡ open_count w.flags.rows + n.created

  process_from-Balanced :
      (n : Counts) (fs : List ReorderFlag) (w : Store)
      → IsDistinct fs
      → All (IsOpenIn w.flags.rows) fs
      → Balanced n w (process_from env settings ask text_of system_user_id n fs w)
  unfolding process_from
  process_from-Balanced n [] w d a = refl
  process_from-Balanced n (f ∷ fs) w d a =
      go (process_single_flag env settings ask text_of system_user_id f w)
        (process_single_flag-Settles env settings ask f w text_of system_user_id)
        (λ n t. process_from-Balanced n fs t d.1)
    where
      unchanged :
          (r : Result FlagResult) (t : Store)
          → t.flags ≡ w.flags
          → ((n : Counts) (t : Store)
              → All (IsOpenIn t.flags.rows) fs
              → Balanced n t (process_from env settings ask text_of system_user_id n fs t))
          → (count r n).created ≡ n.created
          → Balanced n w (process_from env settings ask text_of system_user_id (count r n) fs t)
      unchanged r t h next same =
          let after = next (count r n) t (subst (λ x. All (IsOpenIn x.rows) fs) (sym h) a.1) in
          omega (arith, after, ap (λ x. open_count x.rows) h, same)

      go :
          (p : Result FlagResult × Store)
          → Settles env settings ask f w p
          → ((n : Counts) (t : Store)
              → All (IsOpenIn t.flags.rows) fs
              → Balanced n t (process_from env settings ask text_of system_user_id n fs t))
          → Balanced n w (process_from env settings ask text_of system_user_id (count p.0 n) fs p.1)
      go (ok (created po s), t) h next =
          let (g, e, o) = a.0 in
          let rest = consumed_others f.id w.flags.rows fs e d.0 a.1 in
          let after =
            next (count (ok (created po s)) n) t
              (subst (λ rows. All (IsOpenIn rows) fs) (sym h.1) rest) in
          omega (arith, after, ap open_count h.1, open_count_consumed f.id w.flags.rows e o)
      go (ok skipped_no_supplier, t) h next = unchanged (ok skipped_no_supplier) t h next refl
      go (ok failed, t) h next = unchanged (ok failed) t h next refl
      go (err e, t) h next = unchanged (err e) t h next refl

  -- The open flags become as many fewer as flags are counted as created.
  pub process_flags-open :
      (fs : List ReorderFlag) (w : Store)
      → IsDistinct fs
      → All (IsOpenIn w.flags.rows) fs
      → let (n, t) = process_flags env settings ask text_of system_user_id fs w in
        open_count t.flags.rows + n.created ≡ open_count w.flags.rows
  unfolding process_flags
  process_flags-open fs w d a = omega (arith, process_from-Balanced no_flags fs w d a)
