-- ===== src/Finance/Paystack/RefundWrites.antt =====
-- What refunds write, and the reversal of the ledger that they end in.
use rydalux_app.Prelude.{ℕ, Bool, Option, none, some, or_option}
use rydalux_app.Prelude.Int.{ℤ}
use rydalux_app.Money.{Text}
use rydalux_app.Money.Column.{DecimalText}
use rydalux_app.Service.{modify}
use rydalux_app.Service.Keeps.{Keeps, keeps_rules}
use rydalux_app.Finance.State.{
  Payment, Payout, Refund, RefundStatus, DriverProfile, WebhookData, Db,
}
use rydalux_app.Finance.Paystack.Api.{PaystackApi, RefundResponse, non_empty}
use rydalux_app.Finance.Paystack.Refunds.{
  record_refund, record_earning_reversed, reverse_earning, reverse_driver, reverse_payout,
  reverse_driver_earning, reverse_full, reverse_processed, reverse_refund,
  reverse_full_refund_ledger, finish_refund, start_refund, refund_captured, request_refund,
  update_refunded, refund_event_of, handle_refund_event, refund_event_status,
}
use rydalux_app.Finance.Writes.{Writes}
use rydalux_app.Finance.Writes.Calls.{write_rules}

module _ {webhooks : Bool} {start : Db} where
  record_refund-Keeps :
      (r : Refund) (p : Payment) (gross : ℤ)
      → Keeps (Writes webhooks start) (modify (record_refund r p gross))
  unfolding record_refund
  record_refund-Keeps r p gross = record {
    at = λ db h. Writes.account_event _ _ (Writes.account_event db _ h);
  }

  record_earning_reversed-Keeps :
      (r : Refund) (p : Payment) (payout : Payout) (user : ℕ) (amount : ℤ)
      → Keeps (Writes webhooks start) (modify (record_earning_reversed r p payout user amount))
  unfolding record_earning_reversed
  record_earning_reversed-Keeps r p payout user amount = record {
    at = λ db h. Writes.account_event _ _ (Writes.wallet_event db _ h);
  }

  module _ ⦃decimal : DecimalText⦄ where
    reverse_earning-Keeps :
        (r : Refund) (p : Payment) (payout : Payout) (user : ℕ) (amount : ℤ)
        → Keeps (Writes webhooks start) (reverse_earning r p payout user amount)
    unfolding reverse_earning
    reverse_earning-Keeps r p payout user amount =
        search (write_rules, record_earning_reversed-Keeps)

    reverse_driver-Keeps :
        (r : Refund) (p : Payment) (amount : ℤ) (payout : Payout) (o : Option DriverProfile)
        → Keeps (Writes webhooks start) (reverse_driver r p amount payout o)
    unfolding reverse_driver
    reverse_driver-Keeps r p amount payout none = search keeps_rules
    reverse_driver-Keeps r p amount payout (some driver) =
        search (write_rules, reverse_earning-Keeps)

    reverse_payout-Keeps :
        (r : Refund) (p : Payment) (amount : ℤ) (o : Option Payout)
        → Keeps (Writes webhooks start) (reverse_payout r p amount o)
    unfolding reverse_payout
    reverse_payout-Keeps r p amount none = search keeps_rules
    reverse_payout-Keeps r p amount (some payout) = search (write_rules, reverse_driver-Keeps)

    reverse_driver_earning-Keeps :
        (r : Refund) (p : Payment) (amount : ℤ)
        → Keeps (Writes webhooks start) (reverse_driver_earning r p amount)
    unfolding reverse_driver_earning
    reverse_driver_earning-Keeps r p amount = search (keeps_rules, reverse_payout-Keeps)

    reverse_full-Keeps :
        (r : Refund) (p : Payment) (gross : ℤ)
        → Keeps (Writes webhooks start) (reverse_full r p gross)
    unfolding reverse_full
    reverse_full-Keeps r p gross =
        search (write_rules, record_refund-Keeps, reverse_driver_earning-Keeps) depth 9

    reverse_processed-Keeps :
        (r : Refund) (o : Option Payment) → Keeps (Writes webhooks start) (reverse_processed r o)
    unfolding reverse_processed
    reverse_processed-Keeps r none = search keeps_rules
    reverse_processed-Keeps r (some p) = search (write_rules, reverse_full-Keeps) depth 8

    reverse_refund-Keeps : (r : Refund) → Keeps (Writes webhooks start) (reverse_refund r)
    unfolding reverse_refund
    reverse_refund-Keeps r = search (keeps_rules, reverse_processed-Keeps)

    pub reverse_full_refund_ledger-Keeps :
        (id : ℕ) → Keeps (Writes webhooks start) (reverse_full_refund_ledger id)
    unfolding reverse_full_refund_ledger
    reverse_full_refund_ledger-Keeps id = search (keeps_rules, reverse_refund-Keeps)

    update_refunded-Keeps :
        (status : RefundStatus) (o : Option Refund)
        → Keeps (Writes webhooks start) (update_refunded status o)
    unfolding update_refunded
    update_refunded-Keeps status none = search keeps_rules
    update_refunded-Keeps status (some r) =
        search (write_rules, reverse_full_refund_ledger-Keeps) depth 8

    refund_event_of-Keeps :
        (status : RefundStatus) (o : Option Text)
        → Keeps (Writes webhooks start) (refund_event_of status o)
    unfolding refund_event_of
    refund_event_of-Keeps status none = search keeps_rules
    refund_event_of-Keeps status (some reference) = search (keeps_rules, update_refunded-Keeps)

    pub handle_refund_event-Keeps :
        (event : Text) (body : WebhookData)
        → Keeps (Writes webhooks start) (handle_refund_event event body)
    unfolding handle_refund_event
    handle_refund_event-Keeps event body =
        refund_event_of-Keeps (refund_event_status event)
          (non_empty (or_option body.refund_reference body.reference))

  finish_refund-Keeps :
      (r : Refund) (o : Option RefundResponse) → Keeps (Writes webhooks start) (finish_refund r o)
  unfolding finish_refund
  finish_refund-Keeps r none = search keeps_rules
  finish_refund-Keeps r (some response) = search write_rules depth 8

  module _ ⦃decimal : DecimalText⦄ ⦃api : PaystackApi⦄ where
    start_refund-Keeps :
        (admin : ℕ) (p : Payment) (reason : Option Text)
        → Keeps (Writes webhooks start) (start_refund admin p reason)
    unfolding start_refund
    start_refund-Keeps admin p reason =
        search (write_rules, finish_refund-Keeps, reverse_full_refund_ledger-Keeps) depth 9

    refund_captured-Keeps :
        (admin : ℕ) (p : Payment) (reason : Option Text) (o : Option Refund)
        → Keeps (Writes webhooks start) (refund_captured admin p reason o)
    unfolding refund_captured
    refund_captured-Keeps admin p reason none = start_refund-Keeps admin p reason
    refund_captured-Keeps admin p reason (some r) = search keeps_rules

    pub request_refund-Keeps :
        (admin payment : ℕ) (reason : Option Text)
        → Keeps (Writes webhooks start) (request_refund admin payment reason)
    unfolding request_refund
    request_refund-Keeps admin payment reason = search (keeps_rules, refund_captured-Keeps) depth 8
