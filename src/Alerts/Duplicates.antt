-- ===== src/Alerts/Duplicates.antt =====
-- Escalating an order twice (apps/notifications/service.py).
use smart_stock_ai.Prelude.{
  ℕ, Bool, true, false, ◌&&◌, List, [], ◌∷◌, ◌++◌, ◌≡◌, refl, sym, ap, ◌∙◌, String, any, arith,
  Bool-cases, inl, inr,
}
use smart_stock_ai.Database.{PurchaseOrder}
use smart_stock_ai.Alerts.Escalation.{
  is_duplicate, add_escalation, Desk, Escalation, Reason, create_escalation_notification, is_about,
  is_recent, same_reason, send_escalation_email, new_escalation,
}

any-append :
    (p : Escalation → Bool) (xs : List Escalation) (e : Escalation)
    → p e ≡ true
    → any p (xs ++ e ∷ []) ≡ true
any-append p [] e h = ground arith
any-append p (x ∷ xs) e h = ground (arith, any-append p xs e h)

same_reason_self : (r : Reason) → same_reason r r ≡ true
same_reason_self r = ground arith

-- The note of an escalation that was just made stands in the list.
sent_about :
    (up : Bool) (now : ℕ) (e : Escalation) (po : ℕ) (r : Reason)
    → is_about po r (send_escalation_email up now e).0 ≡ is_about po r e
sent_about up now e po r = ground arith

sent_recent :
    (up : Bool) (now at : ℕ) (e : Escalation)
    → is_recent at (send_escalation_email up now e).0 ≡ is_recent at e
sent_recent up now at e = ground arith

new_is_duplicate :
    (recipients : List String) (po : PurchaseOrder) (reason : Reason) (k : Desk)
    → is_duplicate po.id reason (add_escalation recipients po reason k) ≡ true
new_is_duplicate recipients po reason k =
    let e = new_escalation recipients po reason k in
    let up = k.db.broker_up in
    let now = k.db.now in
    any-append (λ x. is_about po.id reason x && is_recent now x) k.escalations
      (send_escalation_email up now e).0
      (rw (sent_about up now e po.id reason, sent_recent up now now e, same_reason_self reason)
        (ground arith))

escalated_before :
    (recipients : List String) (po : PurchaseOrder) (reason : Reason) (k : Desk)
    → is_duplicate po.id reason k ≡ true
    → create_escalation_notification recipients po reason k ≡ k
unfolding create_escalation_notification
escalated_before recipients po reason k d = rw d refl

escalated_now :
    (recipients : List String) (po : PurchaseOrder) (reason : Reason) (k : Desk)
    → is_duplicate po.id reason k ≡ false
    → create_escalation_notification recipients po reason k ≡ add_escalation recipients po reason k
unfolding create_escalation_notification
escalated_now recipients po reason k d = rw d refl

-- Escalating an order a second time at the same moment, for the same reason, changes nothing.
pub create_escalation_notification_twice :
    (recipients : List String) (po : PurchaseOrder) (reason : Reason) (k : Desk)
    → create_escalation_notification recipients po reason
        (create_escalation_notification recipients po reason k)
      ≡ create_escalation_notification recipients po reason k
create_escalation_notification_twice recipients po reason k =
    elim (Bool-cases (is_duplicate po.id reason k)) [
      | inl old ↦ ap again (escalated_before recipients po reason k old)
      | inr new ↦
          let fresh = escalated_now recipients po reason k new in
          ap again fresh
          ∙ escalated_before recipients po reason (add_escalation recipients po reason k)
              (new_is_duplicate recipients po reason k)
          ∙ sym fresh
    ]
  where
    again : Desk → Desk
    again t = create_escalation_notification recipients po reason t
