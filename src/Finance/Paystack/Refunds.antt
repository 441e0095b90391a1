-- ===== src/Finance/Paystack/Refunds.antt =====
-- Full refunds of captured payments: the request, the event of a refund, and the reversal of the
-- ledger.
use rydalux_app.Prelude.{
  ℕ, ⊤, Bool, true, false, not, ◌&&◌, Option, none, some, find, ◌==◌, is_some, or_option,
  or_default, same_text, if◌then◌else◌,
}
use rydalux_app.Prelude.Int.{ℤ, pos, eqb_ℤ, ltb_ℤ}
use rydalux_app.Money.{
  Text, codes, format_nat, calculate_share, driver_earnings_bps, platform_commission_bps,
}
use rydalux_app.Money.Column.{DecimalText, read_column}
use rydalux_app.Service.{
  Action, bad_request, not_found, internal, pure, raise, gets, or_raise, raise_if, modify,
  transaction, ◌>>=◌, ◌>>◌,
}
use rydalux_app.Finance.State.{
  TransactionType, AccountCode, LedgerEventType, PaymentPhase, RefundPhase, Reference,
  ReferenceType, PaymentStatus, PayoutStatus, RefundStatus, OperationType, OperationStatus,
  FinancialTransaction, FinancialOperation, Wallet, Payment, Payout, Refund, DriverProfile,
  AuditAction, WebhookData, Db,
}
use rydalux_app.Finance.Events.{
  AccountEvent, WalletEvent, record_account_event, record_wallet_event,
}
use rydalux_app.Finance.Payments.{audit, is_payment, is_paystack}
use rydalux_app.Finance.Payouts.{is_payout, update_payout}
use rydalux_app.Finance.Paystack.Api.{
  PaystackApi, RefundResponse, is_text, non_empty, refund_reference,
}
use rydalux_app.Finance.Paystack.Rows.{
  update_payment, is_refund, update_refund, create_refund, create_operation, new_operation,
  fail_operation, update_refund_operations,
}

-- An event of a refund on a platform account.
abbrev pub refund_event :
    LedgerEventType → RefundPhase → Option ℕ → Refund → Payment → AccountCode → ℤ → AccountEvent
refund_event event phase payout r p code amount = record {
  event_type = event;
  reference = Reference.refund_event r.id phase;
  reference_type = ReferenceType.refund_row;
  reference_id = r.id;
  payment_id = some r.payment_id;
  payout_id = payout;
  trip_id = some p.trip_id;
  currency = r.currency;
  amount_minor = amount;
  account_code = code;
  transaction_type = TransactionType.debit;
}

abbrev pub earning_reversed_event : Refund → Payment → Payout → ℕ → ℤ → WalletEvent
earning_reversed_event r p payout user amount = record {
  event_type = LedgerEventType.refund_driver_earning_reversed;
  reference = Reference.refund_event r.id RefundPhase.driver_earning_reversed_wallet;
  reference_type = ReferenceType.refund_row;
  reference_id = r.id;
  payment_id = some r.payment_id;
  payout_id = some payout.id;
  trip_id = some p.trip_id;
  user_id = user;
  currency = r.currency;
  amount_minor = amount;
  transaction_type = TransactionType.debit;
}

-- What the driver earned of a payment, and the commission on it. A refund takes each as a share.
abbrev pub refunded_earning : ℤ → ℤ
refunded_earning gross = calculate_share gross driver_earnings_bps

abbrev pub refunded_commission : ℤ → ℤ
refunded_commission gross = calculate_share gross platform_commission_bps

-- The two events of every full refund.
unfoldable pub record_refund : Refund → Payment → ℤ → Db → Db
record_refund r p gross db =
    (record_account_event
      (refund_event LedgerEventType.refund_commission_reversed RefundPhase.commission_reversed none
        r p AccountCode.commission_revenue (refunded_commission gross))
      (record_account_event
        (refund_event LedgerEventType.refund_processed RefundPhase.processed none r p
          AccountCode.cash_clearing gross)
        db).1).1

-- The two events of an earning that is taken back.
unfoldable pub record_earning_reversed : Refund → Payment → Payout → ℕ → ℤ → Db → Db
record_earning_reversed r p payout user amount db =
    (record_account_event
      (refund_event LedgerEventType.refund_driver_earning_reversed
        RefundPhase.driver_earning_reversed_driver_payable (some payout.id) r p
        AccountCode.driver_payable amount)
      (record_wallet_event (earning_reversed_event r p payout user amount) db).1).1

-- `reference: { endsWith: ':driver-earning' }`; a reversal's reference ends with its stamp.
abbrev pub ends_with_driver_earning : Reference → Bool
ends_with_driver_earning (Reference.payment_event _ PaymentPhase.driver_earning) = true
ends_with_driver_earning _ = false

abbrev pub same_id : Option ℕ → ℕ → Bool
same_id none i = false
same_id (some j) i = j == i

abbrev pub is_driver_earning : ℕ → FinancialTransaction → Bool
is_driver_earning payment t =
    same_id t.payment_id payment
    && ends_with_driver_earning t.reference
    && elim t.event_type [ LedgerEventType.driver_earning_recorded ↦ true | _ ↦ false ]

abbrev pub is_payout_pending : ℕ → FinancialTransaction → Bool
is_payout_pending payment t =
    same_id t.payment_id payment
    && elim t.event_type [ LedgerEventType.driver_payout_pending ↦ true | _ ↦ false ]

-- The payout of the newest transaction that made one pending for the payment.
abbrev pub payout_of : Option FinancialTransaction → Db → Option Payout
payout_of none db = none
payout_of (some t) db = elim t.payout_id [ none ↦ none | some i ↦ find (is_payout i) db.payouts ]

-- An operation for a person to look at.
abbrev pub manual_operation : Refund → ℕ → FinancialOperation
manual_operation r i =
    new_operation OperationType.manual_reconciliation OperationStatus.needs_reconciliation
      (some r.provider_reference) r.id none i

abbrev pub ask_reconciliation : Refund → Db → Db
ask_reconciliation r db = create_operation (manual_operation r db.next_id) db

-- The money of the payout is gone, or going.
abbrev pub is_spent : PayoutStatus → Bool
is_spent PayoutStatus.paid = true
is_spent PayoutStatus.processing = true
is_spent _ = false

abbrev pub is_cancellable : PayoutStatus → Bool
is_cancellable PayoutStatus.requested = true
is_cancellable PayoutStatus.failed = true
is_cancellable _ = false

abbrev pub cancelled_payout : Text → Payout → Payout
cancelled_payout note p = record p { status = PayoutStatus.cancelled; notes = some note }

abbrev pub is_processed : RefundStatus → Bool
is_processed RefundStatus.processed = true
is_processed _ = false

-- A refund that counts as made, or on its way.
abbrev pub is_live : RefundStatus → Bool
is_live RefundStatus.pending = true
is_live RefundStatus.processing = true
is_live RefundStatus.processed = true
is_live _ = false

abbrev pub is_live_refund : ℕ → Refund → Bool
is_live_refund payment r = r.payment_id == payment && is_live r.status

module _ ⦃decimal : DecimalText⦄ where
  abbrev pub wallet_balance_of : Option Wallet → Option ℤ
  wallet_balance_of none = some (pos 0)
  wallet_balance_of (some w) = read_column w.balance

  -- The earning goes back, and a payout that was not approved is cancelled.
  unfoldable pub reverse_earning : Refund → Payment → Payout → ℕ → ℤ → Action Db ⊤
  reverse_earning r p payout user amount = do
    modify (record_earning_reversed r p payout user amount)
    if is_cancellable payout.status
        then modify (
            update_payout payout.id
              (cancelled_payout (codes "Cancelled after full payment refund.")))
        else pure tt

  -- The driver's part, where the payout has a driver.
  unfoldable pub reverse_driver : Refund → Payment → ℤ → Payout → Option DriverProfile → Action Db ⊤
  reverse_driver r p amount payout none = pure tt
  reverse_driver r p amount payout (some driver) = do
    wallets ← gets (λ db. db.wallets)
    balance ←
        or_raise (wallet_balance_of (find (λ w. w.user_id == driver.user_id) wallets))
          (internal "SyntaxError")
    if ltb_ℤ balance amount
        then modify (ask_reconciliation r)
        else reverse_earning r p payout driver.user_id amount

  unfoldable pub reverse_payout : Refund → Payment → ℤ → Option Payout → Action Db ⊤
  reverse_payout r p amount none = pure tt
  reverse_payout r p amount (some payout) =
      if is_spent payout.status then modify (ask_reconciliation r) else (do
        drivers ← gets (λ db. db.drivers)
        reverse_driver r p amount payout (find (λ d. d.id == payout.driver_profile_id) drivers))

  -- The driver's part of a full refund, where an earning is on the books.
  unfoldable pub reverse_driver_earning : Refund → Payment → ℤ → Action Db ⊤
  reverse_driver_earning r p amount = do
    transactions ← gets (λ db. db.transactions)
    payout ← gets (payout_of (find (is_payout_pending r.payment_id) transactions))
    if is_some (find (is_driver_earning r.payment_id) transactions)
        then reverse_payout r p amount payout
        else pure tt

-- What `reverseFullRefundLedger` answers: `reversed`, and `alreadyReversed`.
pub record ReversalResult : Type 0 where
  pub reversed : Bool
  pub already_reversed : Bool

abbrev pub reversal_result : Bool → Bool → ReversalResult
reversal_result reversed already_reversed = record {
  reversed = reversed;
  already_reversed = already_reversed;
}

module _ ⦃decimal : DecimalText⦄ where
  -- The writes of a full refund.
  unfoldable pub reverse_full : Refund → Payment → ℤ → Action Db ReversalResult
  reverse_full r p gross = do
    modify (record_refund r p gross)
    reverse_driver_earning r p (refunded_earning gross)
    modify (λ db. update_refund r.id (λ q. record q { ledger_reversed_at = some db.now }) db)
    modify (update_payment r.payment_id (λ q. record q { status = PaymentStatus.refunded }))
    modify (audit (some r.requested_by_id) AuditAction.refund_ledger_reversed r.id)
    pure (reversal_result true false)

  -- A refund of a part of the payment is left to a person.
  unfoldable pub reverse_processed : Refund → Option Payment → Action Db ReversalResult
  reverse_processed r none = raise (internal "TypeError")
  reverse_processed r (some p) = do
    refund_minor ← or_raise (read_column r.amount) (internal "SyntaxError")
    payment_minor ← or_raise (read_column p.amount) (internal "SyntaxError")
    if eqb_ℤ refund_minor payment_minor
        then reverse_full r p payment_minor
        else modify (ask_reconciliation r) >> pure (reversal_result false false)

  unfoldable pub reverse_refund : Refund → Action Db ReversalResult
  reverse_refund r =
      if is_processed r.status
      then (if is_some r.ledger_reversed_at then pure (reversal_result true true) else (do
        payments ← gets (λ db. db.payments)
        reverse_processed r (find (is_payment r.payment_id) payments)))
      else pure (reversal_result false false)

  -- `reverseFullRefundLedger`
  unfoldable pub reverse_full_refund_ledger : ℕ → Action Db ReversalResult
  reverse_full_refund_ledger refund_id = transaction do
    refunds ← gets (λ db. db.refunds)
    refund ← or_raise (find (is_refund refund_id) refunds) (not_found "Refund not found.")
    reverse_refund refund

abbrev pub is_captured : PaymentStatus → Bool
is_captured PaymentStatus.captured = true
is_captured _ = false

-- Where the provider is asked, the refund is processing until it says more.
abbrev pub requested_refund : Bool → Payment → ℕ → Option Text → Db → Refund
requested_refund asks p admin reason db = record {
  id = db.next_id;
  payment_id = p.id;
  amount = p.amount;
  currency = p.currency;
  status = if asks then RefundStatus.processing else RefundStatus.processed;
  provider = p.provider;
  provider_reference = refund_reference p.id;
  provider_refund_id = none;
  reason = reason;
  requested_by_id = admin;
  processed_at = if asks then none else some db.now;
  failed_at = none;
  ledger_reversed_at = none;
}

abbrev pub refund_operation : Bool → Refund → Db → FinancialOperation
refund_operation asks r db =
    new_operation OperationType.refund_initiation
      (if asks then OperationStatus.processing else OperationStatus.succeeded)
      (some r.provider_reference) r.id (if asks then none else some db.now) db.next_id

abbrev pub refund_accepted : RefundResponse → Refund → Refund
refund_accepted response r = record r {
  provider_refund_id = or_option response.id r.provider_refund_id;
  provider_reference = or_default response.reference r.provider_reference;
}

abbrev pub refund_started : Text → ℕ → FinancialOperation → FinancialOperation
refund_started reference now o = record o {
  status = OperationStatus.succeeded;
  provider_reference = some reference;
  completed_at = some now;
}

-- What follows the provider's answer to a refund.
unfoldable pub finish_refund : Refund → Option RefundResponse → Action Db Refund
finish_refund r none = raise (internal "HttpError")
finish_refund r (some response) =
    if response.status
    then (do
      let accepted = refund_accepted response r
      modify (update_refund r.id (refund_accepted response))
      modify
          λ db. update_refund_operations r.id (refund_started accepted.provider_reference db.now) db
      pure accepted)
    else (do
      modify λ db.
          update_refund r.id
            (λ q. record q { status = RefundStatus.failed; failed_at = some db.now }) db
      modify (λ db. update_refund_operations r.id (fail_operation db.now) db)
      raise (bad_request "Paystack refund initiation failed"))

module _ ⦃decimal : DecimalText⦄ ⦃api : PaystackApi⦄ where
  abbrev pub asks_provider : Payment → Bool
  asks_provider p = api.has_secret_key && is_paystack p.provider

  -- The reference by which the provider knows the payment.
  abbrev pub provider_transaction : Payment → Text
  provider_transaction p = elim p.external_id [ none ↦ p.reference | some i ↦ format_nat i ]

  -- The refund and its operation are written, and then the provider is asked.
  unfoldable pub start_refund : ℕ → Payment → Option Text → Action Db Refund
  start_refund admin p reason = do
    refund ← gets (requested_refund (asks_provider p) p admin reason)
    modify (create_refund refund)
    modify (λ db. create_operation (refund_operation (asks_provider p) refund db) db)
    if asks_provider p
        then (do
          amount ← or_raise (read_column p.amount) (internal "SyntaxError")
          finish_refund refund (api.refund (provider_transaction p) amount reason))
        else reverse_full_refund_ledger refund.id >> pure refund

  unfoldable pub refund_captured : ℕ → Payment → Option Text → Option Refund → Action Db Refund
  refund_captured admin p reason none = start_refund admin p reason
  refund_captured admin p reason (some existing) = pure existing

  -- `requestRefund`
  unfoldable pub request_refund : ℕ → ℕ → Option Text → Action Db Refund
  request_refund admin payment_id reason = do
    payments ← gets (λ db. db.payments)
    payment ← or_raise (find (is_payment payment_id) payments) (not_found "Payment not found.")
    raise_if (not (is_captured payment.status))
        (bad_request "Only captured payments can be refunded.")
    refunds ← gets (λ db. db.refunds)
    refund_captured admin payment reason (find (is_live_refund payment_id) refunds)

-- What an event says of the refund: `refund.processed`, `refund.failed`, any other.
abbrev pub refund_event_status : Text → RefundStatus
refund_event_status event =
    if is_text "refund.processed" event
    then RefundStatus.processed
    else if is_text "refund.failed" event
    then RefundStatus.failed
    else RefundStatus.processing

abbrev pub is_failed_refund : RefundStatus → Bool
is_failed_refund RefundStatus.failed = true
is_failed_refund _ = false

-- The status is written whatever it was.
abbrev pub event_refund : RefundStatus → ℕ → Refund → Refund
event_refund status now r = record r {
  status = status;
  processed_at = if is_processed status then some now else r.processed_at;
  failed_at = if is_failed_refund status then some now else r.failed_at;
}

module _ ⦃decimal : DecimalText⦄ where
  unfoldable pub update_refunded : RefundStatus → Option Refund → Action Db Bool
  update_refunded status none = pure true
  update_refunded status (some refund) = do
    modify (λ db. update_refund refund.id (event_refund status db.now) db)
    if is_processed status
        then (do
          modify
              (update_payment refund.payment_id (λ p. record p { status = PaymentStatus.refunded }))
          reverse_full_refund_ledger refund.id
          pure true)
        else pure true

  unfoldable pub refund_event_of : RefundStatus → Option Text → Action Db Bool
  refund_event_of status none = pure false
  refund_event_of status (some reference) = do
    refunds ← gets (λ db. db.refunds)
    update_refunded status (find (λ r. same_text r.provider_reference reference) refunds)

  -- `handleRefundEvent`
  unfoldable pub handle_refund_event : Text → WebhookData → Action Db Bool
  handle_refund_event event body =
      refund_event_of (refund_event_status event)
        (non_empty (or_option body.refund_reference body.reference))
