-- ===== src/Finance/Payouts/Admin.antt =====
-- The admin's operations on a payout: `approvePayout`, `rejectPayout`, `markPayoutProcessing`,
-- `markPayoutPaid` and `markPayoutFailed`. Each runs in its caller's transaction.
use rydalux_app.Prelude.{
  ℕ, ⊤, Bool, true, false, not, ◌&&◌, ◌||◌, Option, none, some, [], ◌∷◌, find, update, ◌==◌,
  is_some, is_none, or_option, if◌then◌else◌,
}
use rydalux_app.Prelude.Int.{ℤ}
use rydalux_app.Money.{Text}
use rydalux_app.Money.Column.{DecimalText, read_column}
use rydalux_app.Service.{
  Action, bad_request, not_found, internal, pure, gets, or_raise, raise_if, modify, ◌>>=◌, ◌>>◌,
}
use rydalux_app.Finance.State.{
  TransactionType, AccountCode, LedgerEventType, PayoutPhase, Reference, ReferenceType,
  PayoutStatus, Payout, FinancialTransaction, AuditAction, OutboxEntry, Db,
}
use rydalux_app.Finance.Events.{AccountEvent, has_reference, has_code, record_account_event}
use rydalux_app.Finance.Ledger.{is_blank, validate_ledger_balance}
use rydalux_app.Finance.Payments.{audit}
use rydalux_app.Finance.Payouts.Defs.{is_payout}

abbrev same_status : PayoutStatus → PayoutStatus → Bool
same_status PayoutStatus.requested PayoutStatus.requested = true
same_status PayoutStatus.approved PayoutStatus.approved = true
same_status PayoutStatus.rejected PayoutStatus.rejected = true
same_status PayoutStatus.processing PayoutStatus.processing = true
same_status PayoutStatus.paid PayoutStatus.paid = true
same_status PayoutStatus.failed PayoutStatus.failed = true
same_status PayoutStatus.cancelled PayoutStatus.cancelled = true
same_status _ _ = false

abbrev pub has_status : PayoutStatus → Payout → Bool
has_status s p = same_status p.status s

-- An event of a payout on a platform account.
abbrev pub payout_event :
    LedgerEventType → PayoutPhase → Payout → AccountCode → TransactionType → ℤ → AccountEvent
payout_event event phase p code type amount = record {
  event_type = event;
  reference = Reference.payout_event p.id phase;
  reference_type = ReferenceType.payout_row;
  reference_id = p.id;
  payment_id = none;
  payout_id = some p.id;
  trip_id = none;
  currency = p.currency;
  amount_minor = amount;
  account_code = code;
  transaction_type = type;
}

abbrev is_approved_phase : PayoutPhase → Bool
is_approved_phase PayoutPhase.approved = true
is_approved_phase PayoutPhase.approved_driver_payable = true
is_approved_phase PayoutPhase.approved_payout_clearing = true
is_approved_phase _ = false

-- `reference: { startsWith: 'payout:ID:approved' }`
abbrev pub starts_with_approved : ℕ → Reference → Bool
starts_with_approved id (Reference.payout_event i phase) = i == id && is_approved_phase phase
starts_with_approved id (Reference.payment_event _ _) = false
starts_with_approved id (Reference.refund_event _ _) = false
starts_with_approved id (Reference.manual_adjustment _) = false
starts_with_approved id (Reference.reversal r _) = starts_with_approved id r

abbrev pub of_approval : ℕ → FinancialTransaction → Bool
of_approval id t = starts_with_approved id t.reference

abbrev pub update_payout : ℕ → (Payout → Payout) → Db → Db
update_payout id f db = record db { payouts = update (is_payout id) f db.payouts }

abbrev pub enqueue : OutboxEntry → Db → Db
enqueue e db = record db { outbox = e ∷ db.outbox }

-- The two account events of an approval.
unfoldable pub record_approval : Payout → ℤ → Db → Db
record_approval p amount db =
    (record_account_event
      (payout_event LedgerEventType.driver_payout_pending PayoutPhase.approved_payout_clearing p
        AccountCode.payout_clearing TransactionType.credit amount)
      (record_account_event
        (payout_event LedgerEventType.driver_payout_pending PayoutPhase.approved_driver_payable p
          AccountCode.driver_payable TransactionType.debit amount)
        db).1).1

-- The two account events of a failure, where both accounts are there.
unfoldable pub record_failure : Payout → ℤ → Db → Db
record_failure p amount db =
    if is_some (find (has_code AccountCode.driver_payable) db.accounts)
      && is_some (find (has_code AccountCode.payout_clearing) db.accounts)
    then (record_account_event
        (payout_event LedgerEventType.adjustment PayoutPhase.failed_payout_clearing p
          AccountCode.payout_clearing TransactionType.debit amount)
        (record_account_event
          (payout_event LedgerEventType.adjustment PayoutPhase.failed_driver_payable p
            AccountCode.driver_payable TransactionType.credit amount)
          db).1).1
    else db

module _ ⦃decimal : DecimalText⦄ where
  -- The newest transaction of the approval, if any, is validated.
  unfoldable pub validate_approval : ℕ → Action Db ⊤
  validate_approval payout_id = do
    transactions ← gets (λ db. db.transactions)
    elim (find (of_approval payout_id) transactions) [
      | none ↦ pure tt
      | some last ↦ validate_ledger_balance last.id >> pure tt
    ]

  -- `approvePayout` on a payout that is not approved already.
  unfoldable pub approve_requested : ℕ → Payout → Option Text → Action Db Payout
  approve_requested admin payout comment = do
    raise_if (not (has_status PayoutStatus.requested payout)) (bad_request "Cannot approve payout")
    amount ← or_raise (read_column payout.amount) (internal "SyntaxError")
    accounts ← gets (λ db. db.accounts)
    raise_if
        (is_none (find (has_code AccountCode.driver_payable) accounts)
          || is_none (find (has_code AccountCode.payout_clearing) accounts))
        (bad_request "Required ledger accounts not configured")
    modify (record_approval payout amount)
    validate_approval payout.id
    now ← gets (λ db. db.now)
    let approved : Payout = record payout {
      status = PayoutStatus.approved;
      approved_by_admin_id = some admin;
      approved_at = some now;
      notes = or_option comment payout.notes;
    }
    modify (update_payout payout.id (λ _. approved))
    modify (audit (some admin) AuditAction.payout_approved payout.id)
    modify (enqueue (OutboxEntry.payout_approved payout.id))
    pure approved

  unfoldable pub approve_payout : ℕ → ℕ → Option Text → Action Db Payout
  approve_payout admin payout_id comment = do
    payouts ← gets (λ db. db.payouts)
    payout ← or_raise (find (is_payout payout_id) payouts) (not_found "Payout not found")
    transactions ← gets (λ db. db.transactions)
    let approved = Reference.payout_event payout_id PayoutPhase.approved
    let existing_txn = is_some (find (has_reference approved) transactions)
    if existing_txn && has_status PayoutStatus.approved payout
        then pure payout
        else approve_requested admin payout comment

unfoldable pub reject_payout : ℕ → ℕ → Text → Action Db Payout
reject_payout admin payout_id reason = do
  raise_if (is_blank reason) (bad_request "Rejection reason is required")
  payouts ← gets (λ db. db.payouts)
  payout ← or_raise (find (is_payout payout_id) payouts) (not_found "Payout not found")
  raise_if (not (has_status PayoutStatus.requested payout)) (bad_request "Cannot reject payout")
  now ← gets (λ db. db.now)
  let rejected : Payout = record payout {
    status = PayoutStatus.rejected;
    rejected_by_admin_id = some admin;
    rejected_at = some now;
    rejection_reason = some reason;
  }
  modify (update_payout payout_id (λ _. rejected))
  modify (audit (some admin) AuditAction.payout_rejected payout_id)
  modify (enqueue (OutboxEntry.payout_rejected payout_id))
  pure rejected

unfoldable pub mark_payout_processing : ℕ → ℕ → Action Db Payout
mark_payout_processing admin payout_id = do
  payouts ← gets (λ db. db.payouts)
  payout ← or_raise (find (is_payout payout_id) payouts) (not_found "Payout not found")
  raise_if (not (has_status PayoutStatus.approved payout)) (bad_request "Cannot mark as processing")
  now ← gets (λ db. db.now)
  let processing : Payout = record payout {
    status = PayoutStatus.processing;
    transfer_initiated_at = some now;
  }
  modify (update_payout payout_id (λ _. processing))
  modify (audit (some admin) AuditAction.payout_processing payout_id)
  pure processing

-- `providerReference || payout.providerReference`
abbrev pub or_else : Option Text → Option Text → Option Text
or_else none o = o
or_else (some []) o = o
or_else (some (c ∷ s)) o = some (c ∷ s)

unfoldable pub mark_payout_paid : ℕ → ℕ → Option Text → Action Db Payout
mark_payout_paid admin payout_id provider_reference = do
  payouts ← gets (λ db. db.payouts)
  payout ← or_raise (find (is_payout payout_id) payouts) (not_found "Payout not found")
  raise_if (not (has_status PayoutStatus.processing payout)) (bad_request "Cannot mark as paid")
  now ← gets (λ db. db.now)
  let paid : Payout = record payout {
    status = PayoutStatus.paid;
    processed_at = some now;
    provider_reference = or_else provider_reference payout.provider_reference;
  }
  modify (update_payout payout_id (λ _. paid))
  modify (audit (some admin) AuditAction.payout_paid payout_id)
  pure paid

module _ ⦃decimal : DecimalText⦄ where
  unfoldable pub mark_payout_failed : ℕ → ℕ → Text → Action Db Payout
  mark_payout_failed admin payout_id reason = do
    payouts ← gets (λ db. db.payouts)
    payout ← or_raise (find (is_payout payout_id) payouts) (not_found "Payout not found")
    raise_if (not (has_status PayoutStatus.processing payout)) (bad_request "Cannot mark as failed")
    now ← gets (λ db. db.now)
    let failed : Payout = record payout {
      status = PayoutStatus.failed;
      failed_at = some now;
      transfer_failure_reason = some reason;
    }
    modify (update_payout payout_id (λ _. failed))
    amount ← or_raise (read_column payout.amount) (internal "SyntaxError")
    modify (record_failure payout amount)
    modify (audit (some admin) AuditAction.payout_failed payout_id)
    pure failed
