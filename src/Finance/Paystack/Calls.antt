-- ===== src/Finance/Paystack/Calls.antt =====
-- The calls of the service that write, as the controllers and the scheduler make them, one after
-- another.
use rydalux_app.Prelude.{ℕ, ⊤, Option, List, [], ◌∷◌}
use rydalux_app.Money.{Text}
use rydalux_app.Money.Column.{DecimalText}
use rydalux_app.Service.{Action, pure, ◌>>◌}
use rydalux_app.Finance.State.{WebhookPayload, Db}
use rydalux_app.Finance.Paystack.Api.{PaystackApi}
use rydalux_app.Finance.Paystack.Charges.{initiate_paystack_payment, save_driver_bank_account}
use rydalux_app.Finance.Paystack.Transfers.{
  initiate_payout_transfer, approve_payout_by_transfer, retry_payout_transfer,
}
use rydalux_app.Finance.Paystack.Refunds.{request_refund}
use rydalux_app.Finance.Paystack.Disputes.{Resolution, update_dispute_admin_state, resolve_dispute}
use rydalux_app.Finance.Paystack.Webhooks.{
  handle_webhook_event, retry_provider_event, dead_letter_provider_event,
}
use rydalux_app.Finance.Paystack.Reconciliation.{run_manual_reconciliation}

pub data PaystackCall : Type 0 where
  initiate_payment : ℕ → ℕ → PaystackCall
  save_bank_account : ℕ → Text → Text → Text → PaystackCall
  approve_payout initiate_transfer retry_payout : ℕ → ℕ → Option Text → PaystackCall
  refund : ℕ → ℕ → Option Text → PaystackCall
  webhook : WebhookPayload → PaystackCall
  retry_event : ℕ → Option ℕ → PaystackCall
  dead_letter_event : ℕ → ℕ → Option Text → PaystackCall
  reconcile : Option ℕ → PaystackCall
  update_dispute : ℕ → ℕ → Option Text → Option Text → PaystackCall
  close_dispute : ℕ → ℕ → Resolution → Option Text → PaystackCall

module _ ⦃decimal : DecimalText⦄ where
  unfoldable pub run_paystack_call : ⦃api : PaystackApi⦄ → PaystackCall → Action Db ⊤
  run_paystack_call (PaystackCall.initiate_payment user trip) =
      initiate_paystack_payment user trip >> pure tt
  run_paystack_call (PaystackCall.save_bank_account user code name number) =
      save_driver_bank_account user code name number >> pure tt
  run_paystack_call (PaystackCall.approve_payout admin payout comment) =
      approve_payout_by_transfer admin payout comment >> pure tt
  run_paystack_call (PaystackCall.initiate_transfer payout admin comment) =
      initiate_payout_transfer payout admin comment >> pure tt
  run_paystack_call (PaystackCall.retry_payout payout admin comment) =
      retry_payout_transfer payout admin comment >> pure tt
  run_paystack_call (PaystackCall.refund admin payment reason) =
      request_refund admin payment reason >> pure tt
  run_paystack_call (PaystackCall.webhook payload) = handle_webhook_event payload
  run_paystack_call (PaystackCall.retry_event event admin) =
      retry_provider_event event admin >> pure tt
  run_paystack_call (PaystackCall.dead_letter_event event admin reason) =
      dead_letter_provider_event event admin reason >> pure tt
  run_paystack_call (PaystackCall.reconcile admin) = run_manual_reconciliation admin >> pure tt
  run_paystack_call (PaystackCall.update_dispute dispute admin status notes) =
      update_dispute_admin_state dispute admin status notes >> pure tt
  run_paystack_call (PaystackCall.close_dispute dispute admin resolution notes) =
      resolve_dispute dispute admin resolution notes >> pure tt

  -- The store after the calls; the provider may answer each of them anew.
  unfoldable pub run_paystack_calls : List (PaystackApi × PaystackCall) → Db → Db
  run_paystack_calls [] db = db
  run_paystack_calls ((api, call) ∷ calls) db =
      run_paystack_calls calls (run_paystack_call ⦃api = api⦄ call db).1
