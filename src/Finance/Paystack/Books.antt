-- ===== src/Finance/Paystack/Books.antt =====
-- The books after any calls and webhooks, in any order and with any answers of the provider.
use rydalux_app.Prelude.{ℕ, true, Option, none, some, List, [], ◌∷◌}
use rydalux_app.Prelude.Int.{ℤ}
use rydalux_app.Money.{Text}
use rydalux_app.Money.Column.{DecimalText}
use rydalux_app.Service.{modify}
use rydalux_app.Service.Keeps.{Keeps, keeps_rules}
use rydalux_app.Finance.State.{Payment, Db}
use rydalux_app.Finance.Events.{AccountEvent, record_account_event}
use rydalux_app.Finance.Events.Reconciled.{IsReconciled}
use rydalux_app.Finance.Writes.{Writes, Writes-IsReconciled}
use rydalux_app.Finance.Writes.Ledger.{Extends, HasDistinctReferences, Writes-Grows}
use rydalux_app.Finance.Writes.Calls.{write_rules}
use rydalux_app.Finance.Paystack.Api.{PaystackApi, InitializeResponse}
use rydalux_app.Finance.Paystack.Charges.{
  create_paystack_payment, checkout, initialize_payment, start_paystack_payment,
  initiate_paystack_payment, create_transfer_recipient, recipient_code, save_driver_bank_account,
}
use rydalux_app.Finance.Paystack.Disputes.{update_dispute_admin_state, resolve_dispute}
use rydalux_app.Finance.Paystack.Webhooks.{dead_letter_provider_event}
use rydalux_app.Finance.Paystack.TransferWrites.{
  initiate_payout_transfer-Keeps, approve_payout_by_transfer-Keeps, retry_payout_transfer-Keeps,
}
use rydalux_app.Finance.Paystack.RefundWrites.{request_refund-Keeps}
use rydalux_app.Finance.Paystack.WebhookWrites.{
  event_rules, handle_webhook_event-Keeps, retry_provider_event-Keeps,
  run_manual_reconciliation-Keeps,
}
use rydalux_app.Finance.Paystack.Calls.{PaystackCall, run_paystack_call, run_paystack_calls}

module _ {start : Db} where
  account_event-Keeps :
      (f : Db → AccountEvent)
      → Keeps (Writes true start) (modify (λ db. (record_account_event (f db) db).1))
  account_event-Keeps f = record { at = λ db h. Writes.account_event db (f db) h }

  checkout-Keeps :
      (p : Payment) (o : Option InitializeResponse) → Keeps (Writes true start) (checkout p o)
  unfolding checkout
  checkout-Keeps p none = search keeps_rules
  checkout-Keeps p (some r) = search keeps_rules

  module _ ⦃decimal : DecimalText⦄ where
    create_paystack_payment-Keeps :
        (user trip : ℕ) (amount : ℤ)
        → Keeps (Writes true start) (create_paystack_payment user trip amount)
    unfolding create_paystack_payment
    create_paystack_payment-Keeps user trip amount =
        search (write_rules, account_event-Keeps) depth 11

    module _ ⦃api : PaystackApi⦄ where
      initialize_payment-Keeps :
          (user : ℕ) (fare : ℤ) (p : Payment)
          → Keeps (Writes true start) (initialize_payment user fare p)
      unfolding initialize_payment
      initialize_payment-Keeps user fare p = search (keeps_rules, checkout-Keeps)

      start_paystack_payment-Keeps :
          (user trip : ℕ) (fare : ℤ) (o : Option Payment)
          → Keeps (Writes true start) (start_paystack_payment user trip fare o)
      unfolding start_paystack_payment
      start_paystack_payment-Keeps user trip fare none =
          search (keeps_rules, create_paystack_payment-Keeps, initialize_payment-Keeps)
      start_paystack_payment-Keeps user trip fare (some p) = search keeps_rules

      initiate_paystack_payment-Keeps :
          (user trip : ℕ) → Keeps (Writes true start) (initiate_paystack_payment user trip)
      unfolding initiate_paystack_payment
      initiate_paystack_payment-Keeps user trip =
          search (keeps_rules, start_paystack_payment-Keeps) depth 9

      recipient_code-Keeps :
          (code name number : Text) (driver : ℕ)
          → Keeps (Writes true start) (recipient_code code name number driver)
      unfolding recipient_code create_transfer_recipient
      recipient_code-Keeps code name number driver = search keeps_rules

      save_driver_bank_account-Keeps :
          (user : ℕ) (code name number : Text)
          → Keeps (Writes true start) (save_driver_bank_account user code name number)
      unfolding save_driver_bank_account
      save_driver_bank_account-Keeps user code name number =
          search (write_rules, recipient_code-Keeps) depth 8

      run_paystack_call-Keeps :
          (call : PaystackCall) → Keeps (Writes true start) (run_paystack_call call)
      unfolding run_paystack_call
      run_paystack_call-Keeps (PaystackCall.initiate_payment user trip) =
          search (keeps_rules, initiate_paystack_payment-Keeps)
      run_paystack_call-Keeps (PaystackCall.save_bank_account user code name number) =
          search (keeps_rules, save_driver_bank_account-Keeps)
      run_paystack_call-Keeps (PaystackCall.approve_payout admin payout comment) =
          search (keeps_rules, approve_payout_by_transfer-Keeps)
      run_paystack_call-Keeps (PaystackCall.initiate_transfer payout admin comment) =
          search (keeps_rules, initiate_payout_transfer-Keeps)
      run_paystack_call-Keeps (PaystackCall.retry_payout payout admin comment) =
          search (keeps_rules, retry_payout_transfer-Keeps)
      run_paystack_call-Keeps (PaystackCall.refund admin payment reason) =
          search (keeps_rules, request_refund-Keeps)
      run_paystack_call-Keeps (PaystackCall.webhook payload) = handle_webhook_event-Keeps payload
      run_paystack_call-Keeps (PaystackCall.retry_event event admin) =
          search (keeps_rules, retry_provider_event-Keeps)
      run_paystack_call-Keeps (PaystackCall.dead_letter_event event admin reason) =
          unfold dead_letter_provider_event in search event_rules depth 12
      run_paystack_call-Keeps (PaystackCall.reconcile admin) =
          search (keeps_rules, run_manual_reconciliation-Keeps)
      run_paystack_call-Keeps (PaystackCall.update_dispute dispute admin status notes) =
          unfold update_dispute_admin_state in search write_rules depth 12
      run_paystack_call-Keeps (PaystackCall.close_dispute dispute admin resolution notes) =
          unfold resolve_dispute in search write_rules depth 12

run_paystack_calls-Writes :
    ⦃decimal : DecimalText⦄
    → (start : Db) (calls : List (PaystackApi × PaystackCall)) (db : Db) → Writes true start db
    → Writes true start (run_paystack_calls calls db)
unfolding run_paystack_calls
run_paystack_calls-Writes start [] db w = w
run_paystack_calls-Writes start ((api, call) ∷ calls) db w =
    run_paystack_calls-Writes start calls (run_paystack_call ⦃api = api⦄ call db).1
      ((run_paystack_call-Keeps ⦃api = api⦄ call).at db w)

module _ ⦃decimal : DecimalText⦄ where
  -- From books where every balance is the sum of its entries and every id is below the next one, any
  -- sequence of calls and webhooks, some of which may throw, leads to such books, whatever the
  -- provider answers.
  pub run_paystack_calls-IsReconciled :
      (calls : List (PaystackApi × PaystackCall)) (db : Db)
      → IsReconciled db
      → IsReconciled (run_paystack_calls calls db)
  run_paystack_calls-IsReconciled calls db h =
      Writes-IsReconciled true db (run_paystack_calls calls db)
        (run_paystack_calls-Writes db calls db Writes.nothing) h

  -- Any sequence of calls and webhooks, from any store and whatever the provider answers, leaves every
  -- ledger entry and every financial transaction as it is: it only puts rows in front of them.
  pub run_paystack_calls-Extends :
      (calls : List (PaystackApi × PaystackCall)) (db : Db)
      → Extends db.entries (run_paystack_calls calls db).entries
        × Extends db.transactions (run_paystack_calls calls db).transactions
  run_paystack_calls-Extends calls db =
      let grown =
        Writes-Grows true db (run_paystack_calls calls db)
          (run_paystack_calls-Writes db calls db Writes.nothing) in
      (grown.entries_grow, grown.transactions_grow)

  -- Where no two financial transactions have one reference, none have after any sequence of calls and
  -- webhooks, whatever the provider answers: no event is booked twice.
  pub run_paystack_calls-HasDistinctReferences :
      (calls : List (PaystackApi × PaystackCall)) (db : Db)
      → HasDistinctReferences db.transactions
      → HasDistinctReferences (run_paystack_calls calls db).transactions
  run_paystack_calls-HasDistinctReferences calls db h =
      (Writes-Grows true db (run_paystack_calls calls db)
          (run_paystack_calls-Writes db calls db Writes.nothing)).distinct
        h
