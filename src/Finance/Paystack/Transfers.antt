-- ===== src/Finance/Paystack/Transfers.antt =====
-- Payouts to drivers: the transfer that an approval starts, the mock of it, the two events of a
-- transfer, and the retry of a failed payout.
use rydalux_app.Prelude.{
  ℕ, ⊤, Bool, true, false, not, ◌&&◌, ◌||◌, Option, none, some, find, update, ◌==◌, is_some, any,
  or_option, or_default, same_text, some_and, if◌then◌else◌,
}
use rydalux_app.Prelude.Int.{ℤ}
use rydalux_app.Money.{Text, codes}
use rydalux_app.Money.Column.{DecimalText, read_column}
use rydalux_app.Service.{
  Action, Error, message, bad_request, not_found, internal, pure, raise, gets, or_raise, raise_if,
  modify, transaction, attempt, ◌>>=◌, ◌>>◌,
}
use rydalux_app.Finance.State.{
  TransactionType, AccountCode, LedgerEventType, PayoutPhase, Reference, ReferenceType,
  PayoutStatus, OperationType, OperationStatus, FinancialOperation, Payout, DriverProfile,
  AuditAction, WebhookData, Db,
}
use rydalux_app.Finance.Events.{
  WalletEvent, has_reference, record_account_event, record_wallet_event,
}
use rydalux_app.Finance.Payments.{audit, is_paystack}
use rydalux_app.Finance.Payouts.{is_payout, payout_event, update_payout}
use rydalux_app.Finance.Paystack.Api.{PaystackApi, TransferResponse, non_empty, transfer_reference}
use rydalux_app.Finance.Paystack.Rows.{
  is_paid, is_failed, is_processing, new_operation, create_operation, update_operation,
  fail_operation,
}

abbrev pub paid_wallet_event : Payout → ℕ → ℤ → WalletEvent
paid_wallet_event p user amount = record {
  event_type = LedgerEventType.driver_payout_paid;
  reference = Reference.payout_event p.id PayoutPhase.paid_wallet;
  reference_type = ReferenceType.payout_row;
  reference_id = p.id;
  payment_id = none;
  payout_id = some p.id;
  trip_id = none;
  user_id = user;
  currency = p.currency;
  amount_minor = amount;
  transaction_type = TransactionType.debit;
}

-- The three events of a paid payout.
unfoldable pub record_paid : Payout → ℕ → ℤ → Db → Db
record_paid p user amount db =
    (record_account_event
      (payout_event LedgerEventType.driver_payout_paid PayoutPhase.paid_clearing p
        AccountCode.payout_clearing TransactionType.credit amount)
      (record_account_event
        (payout_event LedgerEventType.driver_payout_paid PayoutPhase.paid_driver_payable p
          AccountCode.driver_payable TransactionType.debit amount)
        (record_wallet_event (paid_wallet_event p user amount) db).1).1).1

-- The driver profile of a payout, which a foreign key sees to.
abbrev pub driver_of : Payout → Db → Option DriverProfile
driver_of p db = find (λ d. d.id == p.driver_profile_id) db.drivers

module _ ⦃decimal : DecimalText⦄ where
  -- `recordPayoutPaidLedger`
  unfoldable pub record_payout_paid_ledger : Payout → Option ℕ → Action Db ⊤
  record_payout_paid_ledger payout approver = do
    amount_minor ← or_raise (read_column payout.amount) (internal "SyntaxError")
    driver ← gets (driver_of payout)
    profile ← or_raise driver (internal "TypeError")
    modify (record_paid payout profile.user_id amount_minor)
    modify (audit approver AuditAction.payout_paid payout.id)

  -- The payout is marked, and the ledger is written.
  unfoldable pub settle_payout : (ℕ → Payout → Payout) → Payout → Option ℕ → Action Db ⊤
  settle_payout mark payout approver = do
    now ← gets (λ db. db.now)
    modify (update_payout payout.id (mark now))
    record_payout_paid_ledger payout approver

-- `updateMany` of a payout that is approved or processing.
abbrev pub awaits_money : PayoutStatus → Bool
awaits_money PayoutStatus.approved = true
awaits_money PayoutStatus.processing = true
awaits_money _ = false

-- An absent comment leaves the notes alone.
abbrev pub mock_paid : Option Text → ℕ → Payout → Payout
mock_paid comment now p = record p {
  status = PayoutStatus.paid;
  processed_at = some now;
  notes = or_option comment p.notes;
}

-- What an initiation answers: `status`, and the transfer's code.
pub record TransferResult : Type 0 where
  pub status : PayoutStatus
  pub transfer_code : Option Text

abbrev pub paid_result : TransferResult
paid_result = record { status = PayoutStatus.paid; transfer_code = none }

abbrev pub processing_result : Option Text → TransferResult
processing_result code = record { status = PayoutStatus.processing; transfer_code = code }

module _ ⦃decimal : DecimalText⦄ where
  unfoldable pub pay_mock_payout : Option ℕ → Option Text → Option Payout → Action Db ⊤
  pay_mock_payout approver comment none = pure tt
  pay_mock_payout approver comment (some payout) = if is_paid payout.status then pure tt else (do
    raise_if (is_failed payout.status) (bad_request "Payout has failed and cannot be approved.")
    if awaits_money payout.status
        then settle_payout (mock_paid comment) payout approver
        else pure tt)

  -- `markMockPayoutPaid` answers that the payout is paid, whatever it has done.
  unfoldable pub mark_mock_payout_paid : ℕ → ℕ → Option Text → Action Db TransferResult
  mark_mock_payout_paid payout_id approver comment = do
    transaction (do
      payouts ← gets (λ db. db.payouts)
      pay_mock_payout (some approver) comment (find (is_payout payout_id) payouts))
    pure paid_result

-- What an accepted transfer writes on its payout.
abbrev pub transferred_payout : Text → TransferResponse → Text → Option Text → ℕ → Payout → Payout
transferred_payout reference response code comment now p = record p {
  status = PayoutStatus.processing;
  provider_reference = some reference;
  provider_transfer_id = or_option response.id p.provider_transfer_id;
  provider_transfer_code = some code;
  transfer_initiated_at = some now;
  notes = or_option comment p.notes;
}

abbrev pub is_approved_payout : ℕ → Payout → Bool
is_approved_payout id p = p.id == id && elim p.status [ PayoutStatus.approved ↦ true | _ ↦ false ]

abbrev pub succeed_operation : Option Text → ℕ → FinancialOperation → FinancialOperation
succeed_operation reference now o = record o {
  status = OperationStatus.succeeded;
  provider_reference = reference;
  completed_at = some now;
}

-- The writes after an accepted transfer: none, where the payout is not approved.
unfoldable pub store_transfer : ℕ → ℕ → Text → TransferResponse → Text → Option Text → ℕ → Db → Db
store_transfer payout_id operation reference response code comment approver db =
    if any (is_approved_payout payout_id) db.payouts
    then update_operation operation (succeed_operation (some code) db.now) (
        audit (some approver) AuditAction.payout_transfer_initiated payout_id (record db {
          payouts =
              update (is_approved_payout payout_id)
                (transferred_payout reference response code comment db.now) db.payouts;
        }))
    else db

unfoldable pub accepted_code : TransferResponse → Option Text
accepted_code r = if r.status then non_empty r.transfer_code else none

unfoldable pub accept_transfer :
    ℕ → ℕ → Text → Option Text → ℕ → TransferResponse → Option Text → Action Db TransferResult
accept_transfer payout_id operation reference comment approver response none = do
  modify (λ db. update_operation operation (fail_operation db.now) db)
  raise (bad_request "Paystack transfer initiation failed")
accept_transfer payout_id operation reference comment approver response (some code) = do
  modify (store_transfer payout_id operation reference response code comment approver)
  pure (processing_result (some code))

-- What follows the provider's answer.
unfoldable pub finish_transfer :
    ℕ → ℕ → Text → Option Text → ℕ → Option TransferResponse → Action Db TransferResult
finish_transfer payout_id operation reference comment approver none = do
  modify (λ db. update_operation operation (fail_operation db.now) db)
  raise (internal "HttpError")
finish_transfer payout_id operation reference comment approver (some response) =
    accept_transfer payout_id operation reference comment approver response (accepted_code response)

abbrev pub transfer_operation : Payout → ℕ → FinancialOperation
transfer_operation payout i =
    new_operation OperationType.transfer_initiation OperationStatus.processing
      (some (transfer_reference payout.id)) payout.id none i

-- A transfer of this payout was started before.
abbrev pub is_transferring : Payout → Bool
is_transferring p = is_processing p.status && is_some (non_empty p.provider_transfer_code)

abbrev pub recipient_of : Option DriverProfile → Option Text
recipient_of none = none
recipient_of (some d) = elim d.bank_account [ none ↦ none | some b ↦ non_empty b.recipient_code ]

module _ ⦃decimal : DecimalText⦄ ⦃api : PaystackApi⦄ where
  unfoldable pub start_transfer : Payout → Text → ℕ → Option Text → Action Db TransferResult
  start_transfer payout recipient approver comment = do
    amount_kobo ← or_raise (read_column payout.amount) (internal "SyntaxError")
    operation ← gets (λ db. transfer_operation payout db.next_id)
    modify (create_operation operation)
    finish_transfer payout.id operation.id (transfer_reference payout.id) comment approver
        (api.transfer amount_kobo recipient comment (transfer_reference payout.id))

  -- Nothing asks whether the payout is approved.
  unfoldable pub transfer_payout : ℕ → Option Text → Payout → Action Db TransferResult
  transfer_payout approver comment payout = do
    driver ← gets (driver_of payout)
    recipient ←
        or_raise (recipient_of driver)
          (bad_request "Driver bank account is required before payout approval.")
    if is_transferring payout
        then pure (processing_result payout.provider_transfer_code)
        else start_transfer payout recipient approver comment

  -- `initiatePayoutTransfer`
  unfoldable pub initiate_payout_transfer : ℕ → ℕ → Option Text → Action Db TransferResult
  initiate_payout_transfer payout_id approver comment = do
    payouts ← gets (λ db. db.payouts)
    payout ← or_raise (find (is_payout payout_id) payouts) (not_found "Payout not found.")
    if is_paid payout.status then pure paid_result else (do
      raise_if (is_failed payout.status) (bad_request "Payout has failed and cannot be approved.")
      if not api.has_secret_key || not (is_paystack payout.provider)
          then mark_mock_payout_paid payout_id approver comment
          else transfer_payout approver comment payout)

  -- `AdminService.approvePayout`
  unfoldable pub approve_payout_by_transfer : ℕ → ℕ → Option Text → Action Db TransferResult
  approve_payout_by_transfer approver payout_id comment = do
    payouts ← gets (λ db. db.payouts)
    payout ← or_raise (find (is_payout payout_id) payouts) (not_found "Payout not found.")
    raise_if (is_paid payout.status) (bad_request "Payout has already been paid.")
    raise_if (is_failed payout.status) (bad_request "Payout has failed and cannot be approved.")
    initiate_payout_transfer payout_id approver comment

-- The payout of a transfer.
abbrev pub has_transfer_code : Text → Payout → Bool
has_transfer_code code p = some_and (same_text code) p.provider_transfer_code

abbrev pub transfer_paid : ℕ → Payout → Payout
transfer_paid now p = record p {
  status = PayoutStatus.paid;
  processed_at = some now;
  transfer_failure_reason = none;
}

abbrev pub failure_reason : WebhookData → Option Text
failure_reason body = or_option body.reason (or_option body.gateway_response body.message)

abbrev pub transfer_failed : Text → ℕ → Payout → Payout
transfer_failed reason now p = record p {
  status = PayoutStatus.failed;
  failed_at = some now;
  transfer_failure_reason = some reason;
}

module _ ⦃decimal : DecimalText⦄ where
  unfoldable pub pay_transferred : Option Payout → Action Db ⊤
  pay_transferred none = pure tt
  pay_transferred (some payout) =
      if is_processing payout.status then settle_payout transfer_paid payout none else pure tt

  unfoldable pub transfer_success_of : Option Text → Action Db Bool
  transfer_success_of none = pure false
  transfer_success_of (some code) = do
    transaction (do
      payouts ← gets (λ db. db.payouts)
      pay_transferred (find (has_transfer_code code) payouts))
    pure true

  -- `handleTransferSuccess`
  unfoldable pub handle_transfer_success : WebhookData → Action Db Bool
  handle_transfer_success body = transfer_success_of (non_empty body.transfer_code)

-- The audit log is written whatever the payout's status, short of paid.
unfoldable pub fail_transferred : Text → Option Payout → Action Db ⊤
fail_transferred reason none = pure tt
fail_transferred reason (some payout) = if is_paid payout.status then pure tt else (do
  modify λ db.
      update_payout payout.id
        (λ p. if is_processing p.status then transfer_failed reason db.now p else p) db
  modify (audit none AuditAction.payout_transfer_failed payout.id))

unfoldable pub transfer_failed_of : Text → Option Text → Action Db Bool
transfer_failed_of reason none = pure false
transfer_failed_of reason (some code) = do
  transaction (do
    payouts ← gets (λ db. db.payouts)
    fail_transferred reason (find (has_transfer_code code) payouts))
  pure true

-- `handleTransferFailed`
unfoldable pub handle_transfer_failed : WebhookData → Action Db Bool
handle_transfer_failed body =
    transfer_failed_of (or_default (failure_reason body) (codes "Paystack transfer failed"))
      (non_empty body.transfer_code)

-- What a retry makes of the payout.
abbrev pub retried_payout : Option Text → Payout → Payout
retried_payout comment p = record p {
  status = PayoutStatus.approved;
  provider_reference = none;
  provider_transfer_id = none;
  provider_transfer_code = none;
  transfer_failure_reason = none;
  transfer_initiated_at = none;
  failed_at = none;
  notes = or_option comment p.notes;
}

abbrev pub retry_operation : Payout → ℕ → FinancialOperation
retry_operation payout i =
    new_operation OperationType.payout_retry OperationStatus.processing payout.provider_reference
      payout.id none i

abbrev pub retry_succeeded : ℕ → FinancialOperation → FinancialOperation
retry_succeeded now o = record o { status = OperationStatus.succeeded; completed_at = some now }

module _ ⦃decimal : DecimalText⦄ ⦃api : PaystackApi⦄ where
  -- The `try` of `retryPayoutTransfer`.
  unfoldable pub try_transfer : ℕ → ℕ → ℕ → Option Text → Action Db TransferResult
  try_transfer payout_id operation admin comment = do
    result ← initiate_payout_transfer payout_id admin comment
    modify (λ db. update_operation operation (retry_succeeded db.now) db)
    modify (audit (some admin) AuditAction.payout_retry_initiated payout_id)
    pure result

  -- Its `catch`.
  unfoldable pub fail_retry : ℕ → ℕ → Error → Action Db TransferResult
  fail_retry payout_id operation error = do
    modify (λ db. update_payout payout_id (transfer_failed (codes (message error)) db.now) db)
    modify (λ db. update_operation operation (fail_operation db.now) db)
    raise error

  unfoldable pub retry_failed : ℕ → Option Text → Payout → Action Db TransferResult
  retry_failed admin comment payout = do
    operation ← gets (λ db. retry_operation payout db.next_id)
    modify (create_operation operation)
    modify (update_payout payout.id (retried_payout comment))
    attempt (try_transfer payout.id operation.id admin comment) (fail_retry payout.id operation.id)

  -- `retryPayoutTransfer`
  unfoldable pub retry_payout_transfer : ℕ → ℕ → Option Text → Action Db TransferResult
  retry_payout_transfer payout_id admin comment = do
    payouts ← gets (λ db. db.payouts)
    payout ← or_raise (find (is_payout payout_id) payouts) (not_found "Payout not found.")
    raise_if (not (is_failed payout.status)) (bad_request "Only failed payouts can be retried.")
    transactions ← gets (λ db. db.transactions)
    let paid = Reference.payout_event payout.id PayoutPhase.paid_wallet
    raise_if (is_some (find (has_reference paid) transactions))
        (bad_request "Payout already has paid ledger entries and cannot be retried.")
    retry_failed admin comment payout
