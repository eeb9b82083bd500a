-- ===== src/Alerts/Mail.antt =====
-- Mail to suppliers: `send_email_core` (infrastructure/email.py) and the task `send_email_with_retry`
-- (apps/purchasing/email_tasks.py). The mail server's answer to an attempt is a parameter, and so is
-- Celery, which runs a task that retries once more, with one more retry counted.
use smart_stock_ai.Prelude.{
  ℕ, zero, suc, ◌+◌, Bool, true, false, Option, none, some, List, [], ◌∷◌, ◌++◌, ltb, min,
  if◌then◌else◌, String,
}
use smart_stock_ai.Prelude.Table.{find}
use smart_stock_ai.Database.{PurchaseOrder}
use smart_stock_ai.Orders.Repository.{order_key}
use smart_stock_ai.Alerts.Escalation.{Desk, Reason, create_escalation_notification}

-- The exceptions of sending, by their class; `unexpected` is none of the named ones.
pub data SmtpError : Type 0 where
  smtp_authentication_error smtp_recipients_refused smtp_sender_refused : SmtpError
  smtp_server_disconnected smtp_connect_error smtp_helo_error smtp_response_exception : SmtpError
  smtp_exception connection_error timeout_error os_error : SmtpError
  unexpected : SmtpError

-- NON_RETRIABLE_EXCEPTIONS
abbrev pub is_non_retriable : SmtpError → Bool
is_non_retriable smtp_authentication_error = true
is_non_retriable smtp_recipients_refused = true
is_non_retriable smtp_sender_refused = true
is_non_retriable _ = false

-- RETRIABLE_EXCEPTIONS: all subclasses of SMTPException are instances.
abbrev pub is_retriable_class : SmtpError → Bool
is_retriable_class unexpected = false
is_retriable_class _ = true

abbrev pub is_retriable : SmtpError → Bool
is_retriable e = if is_non_retriable e then false else is_retriable_class e

abbrev pub max_retries : ℕ
max_retries = 3

-- RETRY_COUNTDOWN, read at an index.
abbrev pub retry_countdown : ℕ → ℕ
retry_countdown zero = 30
retry_countdown (suc zero) = 120
retry_countdown (suc (suc n)) = 600

-- `send_email_core`: a result, or the exception again.
pub data Core : Type 0 where
  core_sent : Core
  core_failed : Core
  core_raised : SmtpError → Core

abbrev pub send_email_core : Option SmtpError → Core
send_email_core none = core_sent
send_email_core (some e) =
    if is_non_retriable e
    then core_failed
    else if is_retriable_class e
    then core_raised e
    else core_failed

-- How one run of the task ends, with the number of attempts.
pub data Ended : Type 0 where
  sent : ℕ → Ended
  permanently_failed : ℕ → Ended
  retried : ℕ → Ended

module _ (recipients : List String) (po_id : Option ℕ) where
  abbrev pub escalate : Option PurchaseOrder → Desk → Desk
  escalate none k = k
  escalate (some po) k =
      let k' = create_escalation_notification recipients po Reason.email_delivery_failed k in
      record k' { audit = k'.audit ++ po.id ∷ [] }

  -- `_trigger_escalation`: an order that does not exist is logged only.
  abbrev pub trigger_escalation : Desk → Desk
  trigger_escalation k = elim po_id [
    | none ↦ k
    | some id ↦ escalate (find order_key id k.db.orders.rows) k
  ]

  abbrev pub on_core : ℕ → Core → Desk → Ended × Desk
  on_core retry_number core_sent k = (sent (retry_number + 1), k)
  on_core retry_number core_failed k = (permanently_failed (retry_number + 1), trigger_escalation k)
  on_core retry_number (core_raised e) k =
      if ltb retry_number max_retries
      then (retried (retry_countdown (min retry_number 2)), k)
      else (permanently_failed (retry_number + 1), trigger_escalation k)

  unfoldable pub send_email_with_retry : ℕ → Option SmtpError → Desk → Ended × Desk
  send_email_with_retry retry_number answer k = on_core retry_number (send_email_core answer) k

-- What a run leads to; `again` is the next one.
abbrev pub follow : (Desk → Option (Ended × Desk)) → Ended × Desk → Option (Ended × Desk)
follow again (retried seconds, k) = again k
follow again (sent n, k) = some (sent n, k)
follow again (permanently_failed n, k) = some (permanently_failed n, k)

module _ (recipients : List String) (po_id : Option ℕ) (answer : ℕ → Option SmtpError) where
  -- The runs of the task until it retries no more: none if the fuel is used up. The answer of the mail
  -- server depends on the retries so far.
  unfoldable pub deliver : ℕ → ℕ → Desk → Option (Ended × Desk)
  deliver zero retry_number k = none
  deliver (suc fuel) retry_number k =
      follow (deliver fuel (retry_number + 1))
        (send_email_with_retry recipients po_id retry_number (answer retry_number) k)
