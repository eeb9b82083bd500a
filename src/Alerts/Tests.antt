-- ===== src/Alerts/Tests.antt =====
-- A sweep over two orders, one of which is stale.
use smart_stock_ai.Prelude.{
  Option, zero, suc, ℕ, none, some, [], ◌∷◌, ◌≡◌, refl, arith, String, map, select,
}
use smart_stock_ai.Database.{Db, PurchaseOrder, Status}
use smart_stock_ai.Database.Sample.{store, order}
use smart_stock_ai.Alerts.Escalation.{Desk}
use smart_stock_ai.Alerts.Timeouts.{check_supplier_timeouts, is_stale}
use smart_stock_ai.Alerts.Mail.{SmtpError, Ended, deliver, send_email_with_retry}
use smart_stock_ai.Alerts.Retries.{EndsWell, deliver-EndsWell}
use smart_stock_ai.Alerts.Sweep.{IsDistinct, swept, check_supplier_timeouts-orders}

abbrev mailed : ℕ → ℕ → PurchaseOrder
mailed key at = record (order key Status.waiting_confirmation 10) { sent_at = some at }

abbrev two_days : Db
two_days = record (store (mailed 1 100 ∷ mailed 2 150000 ∷ [])) { now = 172900 }

abbrev desk : Desk
desk = record {
  db = two_days;
  escalations = [];
  next_escalation = 1;
  notices = [];
  mail = [];
  audit = [];
}

abbrev note : ℕ → String
note now = "Timed out"

desk-IsDistinct : IsDistinct desk.db.orders.rows
desk-IsDistinct = ground arith

check_supplier_timeouts-orders_example :
    let after = (check_supplier_timeouts [] note desk).1.db.orders.rows in
    (after ≡ map (swept [] note 172900) desk.db.orders.rows) × (select (is_stale 172900) after ≡ [])
check_supplier_timeouts-orders_example = check_supplier_timeouts-orders [] note desk desk-IsDistinct

one_is_late : (check_supplier_timeouts [] note desk).0 ≡ 1 ∷ []
unfolding check_supplier_timeouts
one_is_late = refl

-- The server is gone twice, and takes the mail at the third attempt.
abbrev answer : ℕ → Option SmtpError
answer zero = some SmtpError.smtp_server_disconnected
answer (suc zero) = some SmtpError.timeout_error
answer (suc (suc n)) = none

deliver-EndsWell_example : EndsWell [] (some 1) answer desk (deliver [] (some 1) answer 4 0 desk)
deliver-EndsWell_example = deliver-EndsWell [] (some 1) answer desk

third_attempt : deliver [] (some 1) answer 4 0 desk ≡ some (Ended.sent 3, desk)
unfolding deliver send_email_with_retry
third_attempt = refl
