-- ===== src/Finance/Paystack/Reconciliation.antt =====
-- What does not match between the tables, and the run that repairs the refunds among it.
use rydalux_app.Prelude.{
  ℕ, ◌+◌, ◌-◌, ◌*◌, ⊤, Bool, true, false, ◌&&◌, Option, none, some, List, [], ◌∷◌, find, take,
  length, select, is_none, some_and, ltb, leb, min, if◌then◌else◌,
}
use rydalux_app.Money.Column.{DecimalText}
use rydalux_app.Service.{Action, Error, pure, raise, gets, modify, attempt, ◌>>=◌, ◌>>◌}
use rydalux_app.Finance.State.{
  PayoutPhase, Reference, ProviderEventStatus, OperationType, OperationStatus, Payout,
  ProviderEvent, Refund, FinancialOperation, FinancialTransaction, AuditAction, Db,
}
use rydalux_app.Finance.Events.{has_reference}
use rydalux_app.Finance.Payments.{audit}
use rydalux_app.Finance.Paystack.Rows.{
  is_paid, is_processing, new_operation, create_operation, update_operation, fail_operation,
}
use rydalux_app.Finance.Paystack.Refunds.{is_processed, reverse_full_refund_ledger}

-- `Date.now() - 30 * 60 * 1000`, which is after 1970.
abbrev pub stale_cutoff : ℕ → ℕ
stale_cutoff now = now - 30 * 60 * 1000

abbrev pub is_stale : ℕ → Payout → Bool
is_stale now p =
    is_processing p.status && some_and (λ t. ltb t (stale_cutoff now)) p.transfer_initiated_at

abbrev pub is_open_event : ProviderEvent → Bool
is_open_event e = elim e.status [
  | ProviderEventStatus.pending ↦ true
  | ProviderEventStatus.failed ↦ true
  | _ ↦ false
]

-- A refund that was made and is not on the books.
abbrev pub is_unreversed : Refund → Bool
is_unreversed r = is_processed r.status && is_none r.ledger_reversed_at

abbrev pub is_open_operation : FinancialOperation → Bool
is_open_operation o = elim o.status [
  | OperationStatus.failed ↦ true
  | OperationStatus.needs_reconciliation ↦ true
  | OperationStatus.dead_letter ↦ true
  | _ ↦ false
]

-- `processedAt: 'desc'`: no time comes first, and then the newest.
abbrev pub not_after : Option ℕ → Option ℕ → Bool
not_after none o = true
not_after (some t) none = false
not_after (some t) (some u) = leb u t

unfoldable pub insert_paid : Payout → List Payout → List Payout
insert_paid p [] = p ∷ []
insert_paid p (q ∷ qs) = elim (not_after p.processed_at q.processed_at) [
  | true ↦ p ∷ q ∷ qs
  | false ↦ q ∷ insert_paid p qs
]

unfoldable pub sort_paid : List Payout → List Payout
sort_paid [] = []
sort_paid (p ∷ ps) = insert_paid p (sort_paid ps)

abbrev pub lacks_paid_ledger : List FinancialTransaction → Payout → Bool
lacks_paid_ledger transactions p =
    is_none
      (find (has_reference (Reference.payout_event p.id PayoutPhase.paid_wallet)) transactions)

-- `findPaidPayoutsMissingLedger`
unfoldable pub find_paid_payouts_missing_ledger : ℕ → Db → List Payout
find_paid_payouts_missing_ledger limit db =
    select (lacks_paid_ledger db.transactions)
      (take limit (sort_paid (select (λ p. is_paid p.status) db.payouts)))

abbrev pub default_limit : ℕ
default_limit = 50

-- The `total` of `getReconciliationMismatches`, on its first page.
unfoldable pub mismatch_total : Db → ℕ
mismatch_total db =
    min default_limit (length (select (is_stale db.now) db.payouts))
    + min default_limit (length (select is_open_event db.provider_events))
    + min default_limit (length (select is_unreversed db.refunds))
    + length (find_paid_payouts_missing_ledger default_limit db)
    + min default_limit (length (select is_open_operation db.operations))

abbrev pub run_operation : Db → FinancialOperation
run_operation db =
    new_operation OperationType.manual_reconciliation OperationStatus.processing none db.now none
      db.next_id

abbrev pub run_finished : ℕ → ℕ → FinancialOperation → FinancialOperation
run_finished total now o = record o {
  status = if ltb 0 total then OperationStatus.needs_reconciliation else OperationStatus.succeeded;
  completed_at = some now;
}

module _ ⦃decimal : DecimalText⦄ where
  -- The loop over the refunds, by their ids.
  unfoldable pub reverse_refunds : List Refund → Action Db ⊤
  reverse_refunds [] = pure tt
  reverse_refunds (r ∷ rs) = reverse_full_refund_ledger r.id >> reverse_refunds rs

  unfoldable pub try_reconciliation : ℕ → Option ℕ → Action Db ℕ
  try_reconciliation operation admin = do
    refunds ← gets (λ db. select is_unreversed db.refunds)
    reverse_refunds refunds
    total ← gets mismatch_total
    modify (λ db. update_operation operation (run_finished total db.now) db)
    modify (audit admin AuditAction.finance_reconciliation_run operation)
    pure total

  unfoldable pub fail_reconciliation : ℕ → Error → Action Db ℕ
  fail_reconciliation operation error = do
    modify (λ db. update_operation operation (fail_operation db.now) db)
    raise error

  -- `runManualReconciliation`, which answers the number of mismatches.
  unfoldable pub run_manual_reconciliation : Option ℕ → Action Db ℕ
  run_manual_reconciliation admin = do
    operation ← gets run_operation
    modify (create_operation operation)
    attempt (try_reconciliation operation.id admin) (fail_reconciliation operation.id)
