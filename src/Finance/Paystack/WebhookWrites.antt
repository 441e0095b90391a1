-- ===== src/Finance/Paystack/WebhookWrites.antt =====
-- What a webhook, its retry and the reconciliation run write.
use rydalux_app.Prelude.{
  ℕ, ◌≡◌, refl, arith, Bool, Option, true, List, [], ◌∷◌, find, Option-cases, inl, inr,
}
use rydalux_app.Money.{Text}
use rydalux_app.Money.Column.{DecimalText}
use rydalux_app.Service.{Error, modify}
use rydalux_app.Service.Keeps.{Keeps, Keeps-bind, keeps_rules}
use rydalux_app.Finance.State.{Refund, ProviderEvent, WebhookData, WebhookPayload, Db}
use rydalux_app.Finance.Paystack.Api.{PaystackApi}
use rydalux_app.Finance.Paystack.ChargeWrites.{
  handle_charge_failed-Keeps, handle_charge_success-Keeps, handle_dispute_event-Keeps,
  handle_transfer_success-Keeps, handle_transfer_failed-Keeps,
}
use rydalux_app.Finance.Paystack.Refunds.{reverse_full_refund_ledger}
use rydalux_app.Finance.Paystack.Webhooks.{
  EventKind, dispatch, try_event, fail_event, process_provider_event, has_event_id,
  record_provider_event, process_recorded, handle_webhook_event, retry_unprocessed,
  retry_provider_event,
}
use rydalux_app.Finance.Paystack.Reconciliation.{
  reverse_refunds, try_reconciliation, fail_reconciliation, run_manual_reconciliation,
}
use rydalux_app.Finance.Paystack.RefundWrites.{
  handle_refund_event-Keeps, reverse_full_refund_ledger-Keeps,
}
use rydalux_app.Finance.Writes.{Writes}
use rydalux_app.Finance.Writes.Calls.{
  Keeps-other_tables, Keeps-created, write_rules, audit-Keeps, capture_payment_for_trip-Keeps,
}

module _ {webhooks : Bool} {start : Db} where
  module _ ⦃decimal : DecimalText⦄ ⦃api : PaystackApi⦄ where
    pub dispatch-Keeps :
        (kind : EventKind) (event : Text) (body : WebhookData)
        → Keeps (Writes webhooks start) (dispatch kind event body)
    unfolding dispatch
    dispatch-Keeps EventKind.charge_success event body = handle_charge_success-Keeps body
    dispatch-Keeps EventKind.charge_failed event body = handle_charge_failed-Keeps body
    dispatch-Keeps EventKind.transfer_success event body = handle_transfer_success-Keeps body
    dispatch-Keeps EventKind.transfer_failed event body = handle_transfer_failed-Keeps body
    dispatch-Keeps EventKind.refund_update event body = handle_refund_event-Keeps event body
    dispatch-Keeps EventKind.dispute_update event body = handle_dispute_event-Keeps event body
    dispatch-Keeps EventKind.unhandled event body = search keeps_rules

  module _ ⦃decimal : DecimalText⦄ where
    reverse_refunds-Keeps : (rs : List Refund) → Keeps (Writes webhooks start) (reverse_refunds rs)
    unfolding reverse_refunds
    reverse_refunds-Keeps [] = search keeps_rules
    reverse_refunds-Keeps (r ∷ rs) =
        Keeps-bind (reverse_full_refund_ledger r.id) (λ _. reverse_refunds rs)
          (reverse_full_refund_ledger-Keeps r.id) (λ _. reverse_refunds-Keeps rs)

    try_reconciliation-Keeps :
        (operation : ℕ) (admin : Option ℕ)
        → Keeps (Writes webhooks start) (try_reconciliation operation admin)
    unfolding try_reconciliation
    try_reconciliation-Keeps operation admin = search (write_rules, reverse_refunds-Keeps) depth 8

    fail_reconciliation-Keeps :
        (operation : ℕ) (e : Error)
        → Keeps (Writes webhooks start) (fail_reconciliation operation e)
    unfolding fail_reconciliation
    fail_reconciliation-Keeps operation e = search write_rules

    -- The run keeps the balances the sums of their entries, and its loop ends.
    pub run_manual_reconciliation-Keeps :
        (admin : Option ℕ) → Keeps (Writes webhooks start) (run_manual_reconciliation admin)
    unfolding run_manual_reconciliation
    run_manual_reconciliation-Keeps admin =
        search (write_rules, try_reconciliation-Keeps, fail_reconciliation-Keeps)

module _ {start : Db} where
  pub Keeps-event_rows :
      (f : Db → Db)
      → ((db : Db) → (f db).accounts ≡ db.accounts)
      → ((db : Db) → (f db).wallets ≡ db.wallets)
      → ((db : Db) → (f db).transactions ≡ db.transactions)
      → ((db : Db) → (f db).entries ≡ db.entries)
      → ((db : Db) → (f db).next_id ≡ db.next_id)
      → Keeps (Writes true start) (modify f)
  Keeps-event_rows f a w t e n = record {
    at = λ db h.
        Writes.event_rows db (f db) refl (a db) (w db) (t db) (e db) (omega (arith, n db)) h;
  }

pub ruleset event_rules = (write_rules, Keeps-event_rows)

module _ {start : Db} where
  module _ ⦃decimal : DecimalText⦄ ⦃api : PaystackApi⦄ where
    try_event-Keeps :
        (id : ℕ) (payload : WebhookPayload) → Keeps (Writes true start) (try_event id payload)
    unfolding try_event
    try_event-Keeps id payload = search (event_rules, dispatch-Keeps)

    fail_event-Keeps : (id : ℕ) (e : Error) → Keeps (Writes true start) (fail_event id e)
    unfolding fail_event
    fail_event-Keeps id e = search event_rules

    process_provider_event-Keeps :
        (id : ℕ) (payload : WebhookPayload)
        → Keeps (Writes true start) (process_provider_event id payload)
    unfolding process_provider_event
    process_provider_event-Keeps id payload =
        search (event_rules, try_event-Keeps, fail_event-Keeps)

    process_recorded-Keeps :
        (payload : WebhookPayload) (e : ProviderEvent)
        → Keeps (Writes true start) (process_recorded payload e)
    unfolding process_recorded
    process_recorded-Keeps payload e = search (keeps_rules, process_provider_event-Keeps)

  record_provider_event-Keeps :
      (id : Text) (payload : WebhookPayload)
      → Keeps (Writes true start) (record_provider_event id payload)
  unfolding record_provider_event
  record_provider_event-Keeps id payload = record {
    at = λ db h. elim (Option-cases (find (has_event_id id) db.provider_events)) [
      | inl e ↦
          rw (e, record_provider_event)
            (Writes.event_rows db _ refl refl refl refl refl (omega arith) h)
      | inr (row, e) ↦ rw (e, record_provider_event) h
    ];
  }

  module _ ⦃decimal : DecimalText⦄ ⦃api : PaystackApi⦄ where
    pub handle_webhook_event-Keeps :
        (payload : WebhookPayload) → Keeps (Writes true start) (handle_webhook_event payload)
    unfolding handle_webhook_event
    handle_webhook_event-Keeps payload =
        search (keeps_rules, record_provider_event-Keeps, process_recorded-Keeps)

    retry_unprocessed-Keeps :
        (id : ℕ) (admin : Option ℕ) (e : ProviderEvent)
        → Keeps (Writes true start) (retry_unprocessed id admin e)
    unfolding retry_unprocessed
    retry_unprocessed-Keeps id admin e = search (event_rules, process_provider_event-Keeps) depth 8

    pub retry_provider_event-Keeps :
        (id : ℕ) (admin : Option ℕ) → Keeps (Writes true start) (retry_provider_event id admin)
    unfolding retry_provider_event
    retry_provider_event-Keeps id admin = search (keeps_rules, retry_unprocessed-Keeps)
