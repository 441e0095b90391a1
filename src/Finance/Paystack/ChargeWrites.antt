-- ===== src/Finance/Paystack/ChargeWrites.antt =====
-- What charges, transfers and disputes write, however a call ends.
use rydalux_app.Prelude.{
  ℕ, refl, arith, Bool, Option, none, some, find, or_option, or_default, Option-cases, inl, inr,
}
use rydalux_app.Prelude.Int.{ℤ}
use rydalux_app.Money.{Text, codes}
use rydalux_app.Money.Column.{DecimalText}
use rydalux_app.Service.{modify}
use rydalux_app.Service.Keeps.{Keeps, Keeps-modify, keeps_rules}
use rydalux_app.Finance.State.{DisputeStatus, Payment, Payout, TripFare, WebhookData, Db}
use rydalux_app.Finance.Paystack.Api.{PaystackApi, VerificationData, non_empty}
use rydalux_app.Finance.Paystack.Charges.{
  capture_completed, settle_charge, verified_charge, charge_success_of, handle_charge_success,
  fail_charge, charge_failed_of, handle_charge_failed,
}
use rydalux_app.Finance.Paystack.Disputes.{
  has_dispute_id, id_text, upsert_dispute, dispute_event_of, handle_dispute_event,
}
use rydalux_app.Finance.Paystack.Transfers.{
  record_paid, record_payout_paid_ledger, settle_payout, pay_mock_payout, mark_mock_payout_paid,
  pay_transferred, transfer_success_of, handle_transfer_success, fail_transferred, failure_reason,
  transfer_failed_of, handle_transfer_failed,
}
use rydalux_app.Finance.Writes.{Writes}
use rydalux_app.Finance.Writes.Calls.{write_rules, audit-Keeps, capture_payment_for_trip-Keeps}

module _ {webhooks : Bool} {start : Db} where
  fail_charge-Keeps : (o : Option Payment) → Keeps (Writes webhooks start) (fail_charge o)
  unfolding fail_charge
  fail_charge-Keeps none = search keeps_rules
  fail_charge-Keeps (some p) = search write_rules

  charge_failed_of-Keeps : (o : Option Text) → Keeps (Writes webhooks start) (charge_failed_of o)
  unfolding charge_failed_of
  charge_failed_of-Keeps none = search keeps_rules
  charge_failed_of-Keeps (some r) = search (keeps_rules, fail_charge-Keeps)

  upsert_dispute-Writes :
      (id : Text) (payment : Option ℕ) (status : DisputeStatus) (body : WebhookData) (db : Db)
      → Writes webhooks start db
      → Writes webhooks start (upsert_dispute id payment status body db)
  unfolding upsert_dispute
  upsert_dispute-Writes id payment status body db h =
      elim (Option-cases (find (has_dispute_id id) db.disputes)) [
        | inl e ↦
            rw (e, upsert_dispute)
              (Writes.other_tables db _ refl refl refl refl refl (omega arith) h)
        | inr (d, e) ↦
            rw (e, upsert_dispute)
              (Writes.other_tables db _ refl refl refl refl refl (omega arith) h)
      ]

  dispute_event_of-Keeps :
      (event : Text) (body : WebhookData) (id : Option Text)
      → Keeps (Writes webhooks start) (dispute_event_of event body id)
  unfolding dispute_event_of
  dispute_event_of-Keeps event body none = search keeps_rules
  dispute_event_of-Keeps event body (some id) =
      search (keeps_rules, Keeps-modify, upsert_dispute-Writes)

  module _ ⦃decimal : DecimalText⦄ where
    capture_completed-Keeps :
        (o : Option TripFare) → Keeps (Writes webhooks start) (capture_completed o)
    unfolding capture_completed
    capture_completed-Keeps none = search keeps_rules
    capture_completed-Keeps (some trip) = search (keeps_rules, capture_payment_for_trip-Keeps)

    settle_charge-Keeps :
        (v : VerificationData) (o : Option Payment)
        → Keeps (Writes webhooks start) (settle_charge v o)
    unfolding settle_charge
    settle_charge-Keeps v none = search keeps_rules
    settle_charge-Keeps v (some p) = search (write_rules, capture_completed-Keeps)

    verified_charge-Keeps :
        (r : Text) (o : Option VerificationData)
        → Keeps (Writes webhooks start) (verified_charge r o)
    unfolding verified_charge
    verified_charge-Keeps r none = search keeps_rules
    verified_charge-Keeps r (some v) = search (keeps_rules, settle_charge-Keeps)

    charge_success_of-Keeps :
        ⦃api : PaystackApi⦄
        → (o : Option Text) → Keeps (Writes webhooks start) (charge_success_of o)
    unfolding charge_success_of
    charge_success_of-Keeps none = search keeps_rules
    charge_success_of-Keeps (some r) = search (keeps_rules, verified_charge-Keeps)

    -- The ledger of a paid payout.
    record_paid-Writes :
        (p : Payout) (user : ℕ) (amount : ℤ) (db : Db)
        → Writes webhooks start db
        → Writes webhooks start (record_paid p user amount db)
    unfolding record_paid
    record_paid-Writes p user amount db h =
        Writes.account_event _ _ (Writes.account_event _ _ (Writes.wallet_event db _ h))

    record_paid-Keeps :
        (p : Payout) (user : ℕ) (amount : ℤ)
        → Keeps (Writes webhooks start) (modify (record_paid p user amount))
    record_paid-Keeps p user amount = record { at = record_paid-Writes p user amount }

    record_payout_paid_ledger-Keeps :
        (p : Payout) (approver : Option ℕ)
        → Keeps (Writes webhooks start) (record_payout_paid_ledger p approver)
    unfolding record_payout_paid_ledger
    record_payout_paid_ledger-Keeps p approver =
        search (keeps_rules, record_paid-Keeps, audit-Keeps) depth 8

    settle_payout-Keeps :
        (mark : ℕ → Payout → Payout) (p : Payout) (approver : Option ℕ)
        → Keeps (Writes webhooks start) (settle_payout mark p approver)
    unfolding settle_payout
    settle_payout-Keeps mark p approver = search (write_rules, record_payout_paid_ledger-Keeps)

    pay_mock_payout-Keeps :
        (approver : Option ℕ) (comment : Option Text) (o : Option Payout)
        → Keeps (Writes webhooks start) (pay_mock_payout approver comment o)
    unfolding pay_mock_payout
    pay_mock_payout-Keeps approver comment none = search keeps_rules
    pay_mock_payout-Keeps approver comment (some p) = search (keeps_rules, settle_payout-Keeps)

    pub mark_mock_payout_paid-Keeps :
        (payout approver : ℕ) (comment : Option Text)
        → Keeps (Writes webhooks start) (mark_mock_payout_paid payout approver comment)
    unfolding mark_mock_payout_paid
    mark_mock_payout_paid-Keeps payout approver comment =
        search (keeps_rules, pay_mock_payout-Keeps)

    pay_transferred-Keeps : (o : Option Payout) → Keeps (Writes webhooks start) (pay_transferred o)
    unfolding pay_transferred
    pay_transferred-Keeps none = search keeps_rules
    pay_transferred-Keeps (some p) = search (keeps_rules, settle_payout-Keeps)

    transfer_success_of-Keeps :
        (o : Option Text) → Keeps (Writes webhooks start) (transfer_success_of o)
    unfolding transfer_success_of
    transfer_success_of-Keeps none = search keeps_rules
    transfer_success_of-Keeps (some code) = search (keeps_rules, pay_transferred-Keeps)

  fail_transferred-Keeps :
      (reason : Text) (o : Option Payout)
      → Keeps (Writes webhooks start) (fail_transferred reason o)
  unfolding fail_transferred
  fail_transferred-Keeps reason none = search keeps_rules
  fail_transferred-Keeps reason (some p) = search write_rules

  transfer_failed_of-Keeps :
      (reason : Text) (o : Option Text)
      → Keeps (Writes webhooks start) (transfer_failed_of reason o)
  unfolding transfer_failed_of
  transfer_failed_of-Keeps reason none = search keeps_rules
  transfer_failed_of-Keeps reason (some code) = search (keeps_rules, fail_transferred-Keeps)

  pub handle_charge_failed-Keeps :
      (body : WebhookData) → Keeps (Writes webhooks start) (handle_charge_failed body)
  unfolding handle_charge_failed
  handle_charge_failed-Keeps body = charge_failed_of-Keeps (non_empty body.reference)

  pub handle_dispute_event-Keeps :
      (event : Text) (body : WebhookData)
      → Keeps (Writes webhooks start) (handle_dispute_event event body)
  unfolding handle_dispute_event
  handle_dispute_event-Keeps event body =
      dispute_event_of-Keeps event body (non_empty (or_option body.dispute (id_text body.id)))

  pub handle_transfer_failed-Keeps :
      (body : WebhookData) → Keeps (Writes webhooks start) (handle_transfer_failed body)
  unfolding handle_transfer_failed
  handle_transfer_failed-Keeps body =
      transfer_failed_of-Keeps (or_default (failure_reason body) (codes "Paystack transfer failed"))
        (non_empty body.transfer_code)

  module _ ⦃decimal : DecimalText⦄ where
    pub handle_transfer_success-Keeps :
        (body : WebhookData) → Keeps (Writes webhooks start) (handle_transfer_success body)
    unfolding handle_transfer_success
    handle_transfer_success-Keeps body = transfer_success_of-Keeps (non_empty body.transfer_code)

    pub handle_charge_success-Keeps :
        ⦃api : PaystackApi⦄
        → (body : WebhookData) → Keeps (Writes webhooks start) (handle_charge_success body)
    unfolding handle_charge_success
    handle_charge_success-Keeps body = charge_success_of-Keeps (non_empty body.reference)
