-- ===== src/Pipeline/Consumed.antt =====
-- What POFromFlagCreator (ai/agents/po_from_flag_creator.py) does with the flags and the counts.
use smart_stock_ai.Prelude.{ap, ℕ, false, ◌≢◌, Option, none, some, List, ◌≡◌, refl, String}
use smart_stock_ai.Prelude.Int.{ℤ}
use smart_stock_ai.Prelude.Action.{
  Action, Result, Error, does_not_exist, ok, err, ◌>>=◌, ◌>>◌, pure, or_raise,
}
use smart_stock_ai.Prelude.Table.{find, update}
use smart_stock_ai.Database.{Db, Product, Supplier}
use smart_stock_ai.Orders.Repository.{product_key, sku_key}
use smart_stock_ai.Inventory.Decisions.{supplier_of}
use smart_stock_ai.Agent.Tools.{Environment, Context}
use smart_stock_ai.Agent.Purchasing.{Settings, Outcome, OutcomeStatus, run}
use smart_stock_ai.Forecasting.{ReorderFlag, FlagStatus, Store, flag_key, on_db}
use smart_stock_ai.Forecasting.Repository.{get_sku}
use smart_stock_ai.Pipeline.Creator.{
  Answer, raises, invalid_json, chooses, Choice, Field, missing, unreadable, number, FlagResult,
  created, skipped_no_supplier, failed, consume, context, settle, settle_as, order_now,
  order_fields, on_answer, with_supplier, order_product, order_sku, process_single_flag,
}

-- The flags with one of them consumed.
abbrev pub with_consumed : ℕ → List ReorderFlag → List ReorderFlag
with_consumed id fs = update flag_key id (λ f. record f { status = FlagStatus.consumed }) fs

-- How processing a flag ends. `ran po s d` says that the database `d` is what a run of the agent left
-- that ended with the status `s` and the order `po`.
abbrev pub SettlesFlags :
    (Option ℕ → OutcomeStatus → Db → Type 0)
    → ReorderFlag
    → Store
    → Result FlagResult
    → Store
    → Type 0
SettlesFlags ran flag w (ok (created po s)) t =
    (s ≢ OutcomeStatus.failed)
    × (t.flags.rows ≡ with_consumed flag.id w.flags.rows)
    × (t.flags.next_id ≡ w.flags.next_id)
    × ran po s t.db
SettlesFlags ran flag w (ok skipped_no_supplier) t = t.flags ≡ w.flags
SettlesFlags ran flag w (ok failed) t = t.flags ≡ w.flags
SettlesFlags ran flag w (err e) t = t.flags ≡ w.flags

-- The context asks for the SKU of the flag, for the supplier and the quantity that the model chose, and
-- for no approval but a user's.
abbrev pub IsOrderOf : (ReorderFlag → Answer) → ReorderFlag → Context → Type 0
IsOrderOf ask flag c =
    (choice : Choice) × (ask flag ≡ chooses choice)
    × (choice.supplier_id ≡ number c.supplier_id)
    × (choice.quantity ≡ number c.quantity)
    × (c.sku_id ≡ flag.sku)
    × (c.auto_approve ≡ false)
    × (c.approval_callback ≡ none)

-- The purchasing agent was run from the database `d` with such a context, and ended like this.
abbrev pub Ran :
    Environment
    → Settings
    → (ReorderFlag → Answer)
    → ReorderFlag
    → Db
    → Option ℕ
    → OutcomeStatus
    → Db
    → Type 0
Ran env settings ask flag d po s d' =
    (c : Context) × IsOrderOf ask flag c
    × (o : Outcome) × (run env settings c d ≡ (ok o, d'))
    × (o.po_id ≡ po)
    × (o.status ≡ s)

abbrev pub Settles :
    Environment
    → Settings
    → (ReorderFlag → Answer)
    → ReorderFlag
    → Store
    → Result FlagResult × Store
    → Type 0
Settles env settings ask flag w (r, t) = SettlesFlags (Ran env settings ask flag w.db) flag w r t

module _ (env : Environment) (settings : Settings) (ask : ReorderFlag → Answer) (flag : ReorderFlag)
    (w : Store) where
  consume-Settles :
      (po_id : Option ℕ) (s : OutcomeStatus) (t : Store)
      → s ≢ OutcomeStatus.failed
      → t.flags ≡ w.flags
      → Ran env settings ask flag w.db po_id s t.db
      → Settles env settings ask flag w ((consume flag >> pure (created po_id s)) t)
  consume-Settles po_id s t n e r =
      (n, ap (λ f. with_consumed flag.id f.rows) e, ap (λ f. f.next_id) e, r)

  settle_as-Settles :
      (po_id : Option ℕ) (s : OutcomeStatus) (t : Store)
      → t.flags ≡ w.flags
      → Ran env settings ask flag w.db po_id s t.db
      → Settles env settings ask flag w (settle_as flag po_id s t)
  settle_as-Settles po_id OutcomeStatus.failed t e r = e
  settle_as-Settles po_id OutcomeStatus.rejected t e r =
      consume-Settles po_id OutcomeStatus.rejected t (λ p. cc p) e r
  settle_as-Settles po_id OutcomeStatus.timeout t e r =
      consume-Settles po_id OutcomeStatus.timeout t (λ p. cc p) e r
  settle_as-Settles po_id OutcomeStatus.pending_approval t e r =
      consume-Settles po_id OutcomeStatus.pending_approval t (λ p. cc p) e r
  settle_as-Settles po_id OutcomeStatus.confirmed t e r =
      consume-Settles po_id OutcomeStatus.confirmed t (λ p. cc p) e r

  -- An exception, or a failure, that leaves the flags.
  kept :
      (r : Result FlagResult × Store)
      → Settles env settings ask flag w r
      → Settles env settings ask flag w (elim r.0 [ ok a ↦ (ok a, r.1) | err e ↦ (ok failed, r.1) ])
  kept (ok a, t) h = h
  kept (err e, t) h = h

  or_raise-Settles :
      {A : Type 0} (o : Option A) (x : Error) (k : A → Action Store FlagResult)
      → ((a : A) → Settles env settings ask flag w (k a w))
      → Settles env settings ask flag w ((or_raise {S = Store} o x >>= k) w)
  or_raise-Settles none x k h = refl
  or_raise-Settles (some a) x k h = h a

  module _ (text_of : ℤ → String) (system_user_id : Option ℕ) where
    order_now-Settles :
        (c : Context)
        → IsOrderOf ask flag c
        → Settles env settings ask flag w
            (order_now env settings ask text_of system_user_id flag c w)
    order_now-Settles c asked =
        kept ((on_db (run env settings c) >>= settle flag) w) (go (run env settings c w.db) refl)
      where
        go :
            (r : Result Outcome × Db)
            → run env settings c w.db ≡ r
            → Settles env settings ask flag w (elim r.0 as (λ x. Result FlagResult × Store) [
              | ok o ↦ settle flag o (record w { db = r.1 })
              | err e ↦ (err e, record w { db = r.1 })
            ])
        go (ok o, d) e =
            settle_as-Settles o.po_id o.status (record w { db = d }) refl
              (c, asked, o, e, refl, refl)
        go (err x, d) e = refl

    order_fields-Settles :
        (price : Option ℕ) (c : Choice) (k : Field ℕ) (q : Field ℤ)
        → ask flag ≡ chooses c
        → c.supplier_id ≡ k
        → c.quantity ≡ q
        → Settles env settings ask flag w
            (order_fields env settings ask text_of system_user_id flag price c k q w)
    order_fields-Settles price c missing q asked sid qty = refl
    order_fields-Settles price c unreadable missing asked sid qty = refl
    order_fields-Settles price c (number supplier_id) missing asked sid qty = refl
    order_fields-Settles none c unreadable unreadable asked sid qty = refl
    order_fields-Settles none c (number supplier_id) unreadable asked sid qty = refl
    order_fields-Settles (some u) c unreadable unreadable asked sid qty = refl
    order_fields-Settles (some u) c (number supplier_id) unreadable asked sid qty = refl
    order_fields-Settles price c unreadable (number quantity) asked sid qty = refl
    order_fields-Settles price c (number supplier_id) (number quantity) asked sid qty =
        order_now-Settles
          (context env settings ask text_of system_user_id flag supplier_id quantity c price)
          (c, asked, sid, qty, refl, refl, refl)

    on_answer-Settles :
        (price : Option ℕ) (a : Answer)
        → ask flag ≡ a
        → Settles env settings ask flag w
            (on_answer env settings ask text_of system_user_id flag price a w)
    on_answer-Settles price raises e = refl
    on_answer-Settles price invalid_json e = refl
    on_answer-Settles price (chooses c) e =
        order_fields-Settles price c c.supplier_id c.quantity e refl refl

    with_supplier-Settles :
        (product : Product) (s : Option Supplier)
        → Settles env settings ask flag w
            (with_supplier env settings ask text_of system_user_id flag product s w)
    with_supplier-Settles product none = refl
    with_supplier-Settles product (some s) = on_answer-Settles product.unit_price (ask flag) refl

    -- Processing a flag reports a created order only if the language model chose a supplier and a
    -- quantity, and a run of the purchasing agent for the SKU of the flag with that supplier and
    -- quantity, without automatic approval and callback, from the database as it was, ended with
    -- the status and the order reported, which is not `failed`, and left the database as it is
    -- then; that flag is consumed. In every other case, an exception included, the flags are as
    -- they were.
    pub process_single_flag-Settles :
        Settles env settings ask flag w
          (process_single_flag env settings ask text_of system_user_id flag w)
    unfolding process_single_flag get_sku
    process_single_flag-Settles =
        or_raise-Settles (find sku_key flag.sku w.db.skus.rows) does_not_exist
          (order_sku env settings ask text_of system_user_id flag)
          (λ sku.
            or_raise-Settles (find product_key sku.product w.db.products.rows) does_not_exist
              (order_product env settings ask text_of system_user_id flag)
              (λ product. with_supplier-Settles product (supplier_of product w.db)))
