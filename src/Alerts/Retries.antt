-- ===== src/Alerts/Retries.antt =====
-- The retries of `send_email_with_retry` (apps/purchasing/email_tasks.py).
use smart_stock_ai.Prelude.{
  ltb→lt, ℕ, zero, suc, ◌+◌, ◌≤◌, ◌<◌, Bool, true, false, Option, none, some, List, ◌≡◌, refl,
  arith, String, ltb, min, if◌then◌else◌,
}
use smart_stock_ai.Alerts.Escalation.{Desk}
use smart_stock_ai.Alerts.Mail.{
  follow, SmtpError, Ended, sent, permanently_failed, retried, send_email_core, Core, core_sent,
  core_failed, core_raised, on_core, send_email_with_retry, trigger_escalation, deliver,
  retry_countdown,
}

-- How the runs end from attempt `r` on: at most at attempt 3, by a mail that is sent, with the state
-- as it was, or by a failure, with an escalation.
abbrev pub EndsWell :
    List String → Option ℕ → (ℕ → Option SmtpError) → Desk → Option (Ended × Desk) → Type 0
EndsWell recipients po_id answer k none = ⊥
EndsWell recipients po_id answer k (some (sent n, k')) =
    (1 ≤ n) × (n ≤ 4) × (k' ≡ k) × (m : ℕ) × (n ≡ m + 1) × (answer m ≡ none)
EndsWell recipients po_id answer k (some (permanently_failed n, k')) =
    (1 ≤ n) × (n ≤ 4) × (k' ≡ trigger_escalation recipients po_id k)
EndsWell recipients po_id answer k (some (retried seconds, k')) = ⊥

answered : (o : Option SmtpError) → send_email_core o ≡ core_sent → o ≡ none
answered o h = ground arith

module _ (recipients : List String) (po_id : Option ℕ) (answer : ℕ → Option SmtpError) where
  -- One run, and what follows if it retries.
  one_run :
      (fuel r : ℕ) (k : Desk) (c : Core)
      → r ≤ 3
      → send_email_core (answer r) ≡ c
      → (r < 3
          → EndsWell recipients po_id answer k (deliver recipients po_id answer fuel (r + 1) k))
      → EndsWell recipients po_id answer k
          (follow (deliver recipients po_id answer fuel (r + 1)) (on_core recipients po_id r c k))
  one_run fuel r k core_sent e a h =
      (omega arith, omega arith, refl, r, refl, answered (answer r) a)
  one_run fuel r k core_failed e a h = (omega arith, omega arith, refl)
  one_run fuel r k (core_raised x) e a h = tested (ltb r 3) refl
    where
      tested :
          (early : Bool)
          → ltb r 3 ≡ early
          → EndsWell recipients po_id answer k (
              follow (deliver recipients po_id answer fuel (r + 1)) (
                if early
                then (retried (retry_countdown (min r 2)), k)
                else (permanently_failed (r + 1), trigger_escalation recipients po_id k)))
      tested true early = h (ltb→lt r 3 early)
      tested false late = (omega arith, omega arith, refl)

  deliver_from :
      (fuel r : ℕ) (k : Desk)
      → r + fuel ≡ 4
      → r ≤ 3
      → EndsWell recipients po_id answer k (deliver recipients po_id answer fuel r k)
  unfolding deliver send_email_with_retry
  deliver_from zero r k e b = omega (arith, e, b)
  deliver_from (suc fuel) r k e b =
      one_run fuel r k (send_email_core (answer r)) b refl
        (λ early. deliver_from fuel (r + 1) k (omega (arith, e)) (omega (arith, early)))

  -- Four runs always suffice, whatever the mail server answers: either an attempt is answered without
  -- an error, and nothing else happens, or the mail has failed for good, and the order is escalated
  -- once.
  pub deliver-EndsWell :
      (k : Desk) → EndsWell recipients po_id answer k (deliver recipients po_id answer 4 0 k)
  deliver-EndsWell k = deliver_from 4 0 k refl (omega arith)
