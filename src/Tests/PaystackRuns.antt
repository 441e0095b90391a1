-- ===== src/Tests/PaystackRuns.antt =====
-- Charges, transfers, refunds and webhooks on the small books.
use rydalux_app.Prelude.{◌≡◌, refl, true, false, none, some, List, [], ◌∷◌, arith}
use rydalux_app.Prelude.Int.{pos, ◌+ℤ◌}
use rydalux_app.Money.{codes}
use rydalux_app.Service.{ok}
use rydalux_app.Finance.State.{
  Provider, RefundStatus, Payout, BankAccount, Refund, WebhookData, WebhookPayload, ProviderEvent,
  Db,
}
use rydalux_app.Finance.Events.Reconciled.{IsReconciled}
use rydalux_app.Finance.Payments.{driver_minor, commission_minor}
use rydalux_app.Finance.Writes.Ledger.{Extends, HasDistinctReferences}
use rydalux_app.Finance.Paystack.{PaystackApi, TransferResponse}
use rydalux_app.Finance.Paystack.Calls.{PaystackCall, run_paystack_calls}
use rydalux_app.Finance.Paystack.Books.{
  run_paystack_calls-IsReconciled, run_paystack_calls-Extends,
  run_paystack_calls-HasDistinctReferences,
}
use rydalux_app.Finance.Paystack.Once.{Delivered, handle_webhook_event_delivers}
use rydalux_app.Finance.Paystack.Unapproved.{approve_payout_mocked, approve_payout_unapproved}
use rydalux_app.Finance.Paystack.FullRefund.{
  refunded_commission_short, reverse_full_refund_ledger_once,
}
use rydalux_app.Money.Column.{read_column-pos}
use rydalux_app.Finance.Paystack.Webhooks.{handle_webhook_event}
use rydalux_app.Finance.Paystack.Transfers.{
  approve_payout_by_transfer, paid_result, processing_result, accepted_code,
}
use rydalux_app.Finance.Paystack.Refunds.{
  refunded_earning, refunded_commission, reverse_full_refund_ledger, reversal_result,
  reverse_refund, reverse_processed, reverse_full, reverse_driver_earning, reverse_payout,
  record_refund,
}
use rydalux_app.Finance.Events.{record_account_event, ensure_ledger_account, post_account_event}
use rydalux_app.Tests.Libraries.{plain}
use rydalux_app.Tests.FinanceData.{books, books-IsReconciled, payout, driver}

abbrev accepted_transfer : TransferResponse
accepted_transfer = record { status = true; id = some 900; transfer_code = some (b'T' ∷ b'1' ∷ []) }

-- A provider that accepts what it is asked.
abbrev willing : PaystackApi
willing = record {
  has_secret_key = true;
  user_email = λ _. some (b'e' ∷ []);
  initialize = λ _ _ _. none;
  verify = λ _.
      some
        (record { status = true; verified = some (record { id = 800; status = codes "success" }) });
  create_recipient = λ _ _ _. none;
  transfer = λ _ _ _ _. some accepted_transfer;
  refund = λ _ _ _. none;
  hash_payload = λ _. [];
}

-- A service without a key.
abbrev unconfigured : PaystackApi
unconfigured = record willing { has_secret_key = false }

abbrev body : WebhookData
body = record {
  id = some 77;
  reference = some (b'R' ∷ []);
  transfer_code = none;
  status = none;
  amount = 250050;
  currency = none;
  gateway_response = none;
  reason = none;
  transaction_reference = none;
  refund_reference = none;
  dispute = none;
  category = none;
  message = none;
}

abbrev charge : WebhookPayload
charge = record { event = codes "charge.success"; payload_data = body }

abbrev calls : List (PaystackApi × PaystackCall)
calls =
    (willing, PaystackCall.webhook charge)
    ∷ (unconfigured, PaystackCall.approve_payout 70 6 none)
    ∷ (willing, PaystackCall.reconcile none)
    ∷ []

run_paystack_calls-IsReconciled_example :
    IsReconciled (run_paystack_calls ⦃decimal = plain⦄ calls books)
run_paystack_calls-IsReconciled_example =
    run_paystack_calls-IsReconciled ⦃decimal = plain⦄ calls books books-IsReconciled

run_paystack_calls-Extends_example :
    Extends books.entries (run_paystack_calls ⦃decimal = plain⦄ calls books).entries
    × Extends books.transactions (run_paystack_calls ⦃decimal = plain⦄ calls books).transactions
run_paystack_calls-Extends_example = run_paystack_calls-Extends ⦃decimal = plain⦄ calls books

run_paystack_calls-HasDistinctReferences_example :
    HasDistinctReferences (run_paystack_calls ⦃decimal = plain⦄ calls books).transactions
run_paystack_calls-HasDistinctReferences_example =
    run_paystack_calls-HasDistinctReferences ⦃decimal = plain⦄ calls books tt

handle_webhook_event_delivers_example :
    ((handle_webhook_event ⦃decimal = plain⦄ ⦃api = willing⦄ charge books).0 ≡ ok tt)
    × ((e : ProviderEvent) × Delivered ⦃decimal = plain⦄ ⦃api = willing⦄ charge
          (handle_webhook_event ⦃decimal = plain⦄ ⦃api = willing⦄ charge books).1
          e)
handle_webhook_event_delivers_example =
    handle_webhook_event_delivers ⦃decimal = plain⦄ ⦃api = willing⦄ charge books refl

approve_payout_mocked_example :
    approve_payout_by_transfer ⦃decimal = plain⦄ ⦃api = unconfigured⦄ 70 6 none books
    ≡ (ok paid_result, books)
approve_payout_mocked_example =
    approve_payout_mocked ⦃decimal = plain⦄ ⦃api = unconfigured⦄ 70 6 none payout books refl refl
      refl refl refl

abbrev account : BankAccount
account = record {
  bank_code = [];
  account_name = [];
  account_number_last4 = [];
  recipient_code = some (b'R' ∷ b'C' ∷ []);
  verified_at = none;
  re_auth_required_at = none;
}

-- A payout of the provider that its driver has only requested.
abbrev requested : Payout
requested = record payout { provider = Provider.paystack }

abbrev payable_books : Db
payable_books = record books {
  payouts = requested ∷ [];
  drivers = record driver { bank_account = some account } ∷ [];
}

approve_payout_unapproved_example :
    ((approve_payout_by_transfer ⦃decimal = plain⦄ ⦃api = willing⦄ 70 6 none payable_books).0
      ≡ ok (processing_result (some (b'T' ∷ b'1' ∷ []))))
    × ((approve_payout_by_transfer ⦃decimal = plain⦄ ⦃api = willing⦄ 70 6 none
          payable_books).1.payouts
        ≡ payable_books.payouts)
    × ((approve_payout_by_transfer ⦃decimal = plain⦄ ⦃api = willing⦄ 70 6 none
          payable_books).1.audit_logs
        ≡ payable_books.audit_logs)
approve_payout_unapproved_example =
    approve_payout_unapproved ⦃decimal = plain⦄ ⦃api = willing⦄ 70 6 none requested
      (b'R' ∷ b'C' ∷ []) (pos 200000) accepted_transfer (b'T' ∷ b'1' ∷ []) payable_books refl refl
      refl refl refl (read_column-pos ⦃d = plain⦄ 200000 (omega arith)) refl
      (unfold accepted_code in refl)

refunded_commission_short_example :
    (driver_minor (pos 250051) +ℤ commission_minor (pos 250051) ≡ pos 250051)
    × (refunded_earning (pos 250051) ≡ driver_minor (pos 250051))
    × (commission_minor (pos 250051) ≡ refunded_commission (pos 250051) +ℤ pos 1)
refunded_commission_short_example = refunded_commission_short 250051

abbrev refund : Refund
refund = record {
  id = 9;
  payment_id = 5;
  amount = pos 250050;
  currency = "NGN";
  status = RefundStatus.processed;
  provider = Provider.mock_paystack;
  provider_reference = [];
  provider_refund_id = none;
  reason = none;
  requested_by_id = 70;
  processed_at = some 1000;
  failed_at = none;
  ledger_reversed_at = none;
}

abbrev refunded_books : Db
refunded_books = record books { refunds = refund ∷ [] }

abbrev reversed_books : Db
reversed_books = (reverse_full_refund_ledger ⦃decimal = plain⦄ 9 refunded_books).1

reverses :
    reverse_full_refund_ledger ⦃decimal = plain⦄ 9 refunded_books
    ≡ (ok (reversal_result true false), reversed_books)
unfolding reverse_full_refund_ledger reverse_refund reverse_processed reverse_full
    reverse_driver_earning reverse_payout record_refund record_account_event ensure_ledger_account
    post_account_event
reverses = ground (arith, read_column-pos ⦃d = plain⦄ 250050 (omega arith))

reverse_full_refund_ledger_once_example :
    reverse_full_refund_ledger ⦃decimal = plain⦄ 9 reversed_books
    ≡ (ok (reversal_result true true), reversed_books)
reverse_full_refund_ledger_once_example =
    reverse_full_refund_ledger_once ⦃decimal = plain⦄ 9 refunded_books reversed_books reverses
