-- ===== src/Orders/Tests.antt =====
-- The theorems on purchase orders at concrete stores.
use smart_stock_ai.Prelude.{true, none, some, [], ◌∷◌, ◌≡◌, refl, arith, ◌≤◌, List}
use smart_stock_ai.Prelude.Int.{◌+ℤ◌, ◌-ℤ◌, pos}
use smart_stock_ai.Prelude.Action.{ok, err, illegal_po_transition}
use smart_stock_ai.Prelude.Table.{find}
use smart_stock_ai.Database.{Db, Status}
use smart_stock_ai.Orders.Overdue.{overdue_key, get_overdue_suppliers}
use smart_stock_ai.Orders.Overdue.Grouped.{get_overdue_suppliers_lem}
use smart_stock_ai.Prelude.Keys.{IsDistinct}
use smart_stock_ai.Database.Sample.{acme, order, store}
use smart_stock_ai.Orders.Repository.{latest, NewOrder, order_key, get_open_for_sku}
use smart_stock_ai.Orders.Service.{transition_po_status, mark_failed, draft_po}
use smart_stock_ai.Orders.Writes.{Writes}
use smart_stock_ai.Orders.History.{
  Move, Call, perform, edge_of, perform-Writes, run, IsValid, run-IsValid,
}
use smart_stock_ai.Orders.Lifecycle.{run-final}
use smart_stock_ai.Orders.Progress.{moves_made, moves_bounded, draft_po_twice}
use smart_stock_ai.Orders.Open.{IsNewest, is_open_for_sku, get_open_for_sku_lem}
use smart_stock_ai.Orders.Outcomes.{transition_po_status_lem, mark_failed_lem}

-- One closed order and one that is pending.
abbrev two : Db
two = store (order 1 Status.confirmed 10 ∷ order 2 Status.pending_approval 20 ∷ [])

abbrev bolts : NewOrder
bolts = record {
  sku_id = 1;
  quantity = pos 5;
  supplier_id = 1;
  requested_by = none;
  agent_reasoning = "low stock";
  notes = "";
  created_by_agent = true;
  agent_name = "purchasing_agent";
  po_number = none;
  total_cost = some (pos 1250);
}

two-IsValid : IsValid two
two-IsValid = record { ids_below = ground arith; one_active = ground arith }

perform-Writes_example : Writes (edge_of Move.reject) 2 two (perform 2 Move.reject two)
perform-Writes_example = perform-Writes 2 Move.reject two

abbrev calls : List Call
calls =
    Call.draft bolts
    ∷ Call.move 2 (Move.transition Status.approved)
    ∷ Call.move 2 Move.send
    ∷ Call.draft bolts
    ∷ []

run-IsValid_example : IsValid (run calls two)
run-IsValid_example = run-IsValid calls two two-IsValid

run-final_example :
    find order_key 1 (run calls two).orders.rows ≡ some (order 1 Status.confirmed 10)
run-final_example = run-final calls 1 two (ground arith) refl refl

moves_bounded_example : moves_made 2 (Move.approve 7 true ∷ Move.send ∷ Move.reject ∷ []) two ≤ 6
moves_bounded_example =
    moves_bounded (Move.approve 7 true ∷ Move.send ∷ Move.reject ∷ []) 2 two (ground arith) refl

found_again : (draft_po bolts two).0 ≡ ok (order 2 Status.pending_approval 20)
unfolding draft_po latest
found_again = refl

draft_po_twice_example :
    draft_po bolts (draft_po bolts two).1
    ≡ (ok (order 2 Status.pending_approval 20), (draft_po bolts two).1)
draft_po_twice_example = draft_po_twice bolts two found_again

get_open_for_sku_lem_example : IsNewest (is_open_for_sku 1) two.orders.rows (get_open_for_sku 1 two)
get_open_for_sku_lem_example = get_open_for_sku_lem 1 two

transition_po_status_lem_example :
    (transition_po_status 1 Status.draft two).0 ≡ err illegal_po_transition
transition_po_status_lem_example = transition_po_status_lem 1 two two-IsValid refl Status.draft

mark_failed_lem_example : (mark_failed 1 "" two).0 ≡ ok (order 1 Status.failed 10)
mark_failed_lem_example = mark_failed_lem 1 two two-IsValid refl ""

-- An order that was sent, and is late after the five days of the supplier's lead time.
abbrev unanswered : Db
unanswered =
    record (store
      (order 1 Status.draft 10 ∷ record (order 2 Status.sent 20) { sent_at = some 30 } ∷ [])) {
        now = 600000;
      }

get_overdue_suppliers_lem_example :
    IsDistinct overdue_key (get_overdue_suppliers unanswered)
    × (find overdue_key 1 (get_overdue_suppliers unanswered)
        ≡ some record {
          supplier_id = 1;
          supplier_name = "Acme";
          overdue_pos =
              record { po_id = 2; po_number = none; sent_at = 30; deadline = pos 432030 } ∷ [];
          days_overdue = 1;
        })
unfolding ◌+ℤ◌ ◌-ℤ◌
get_overdue_suppliers_lem_example = get_overdue_suppliers_lem unanswered acme refl
