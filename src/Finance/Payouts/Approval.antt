-- ===== src/Finance/Payouts/Approval.antt =====
-- `approvePayout` writes the two legs of an approval as two transactions of one entry each, and then
-- validates one of them, which throws.
use rydalux_app.Prelude.{
  ℕ, suc, ◌<◌, ◌≡◌, refl, ap, ◌∙◌, true, false, Option, some, none, List, [], ◌∷◌, arith, find,
  find-cons_none, ◌==◌,
}
use rydalux_app.Prelude.Int.{ℤ, pos}
use rydalux_app.Money.{Text}
use rydalux_app.Money.Column.{DecimalText, column_limit, read_column-pos}
use rydalux_app.Service.{succeeded}
use rydalux_app.Finance.State.{
  TransactionType, AccountCode, LedgerEventType, PayoutPhase, Reference, Reference-discrete, Payout,
  FinancialTransaction, Db,
}
use rydalux_app.Finance.Events.{AccountEvent, has_reference, record_account_event}
use rydalux_app.Finance.Events.Facts.{record_account_event-transactions, has_reference_ne}
use rydalux_app.Finance.Ledger.{validate_ledger_balance}
use rydalux_app.Finance.Ledger.SingleEntry.{
  HasFreshEntries, record_account_event-fresh, recorded_event_invalid,
}
use rydalux_app.Finance.Payouts.Defs.{is_payout}
use rydalux_app.Finance.Payouts.Admin.{
  payout_event, starts_with_approved, of_approval, record_approval, validate_approval,
  approve_requested, approve_payout,
}

-- The two events of an approval.
abbrev payable_leg : Payout → ℤ → AccountEvent
payable_leg p amount =
    payout_event LedgerEventType.driver_payout_pending PayoutPhase.approved_driver_payable p
      AccountCode.driver_payable TransactionType.debit amount

abbrev clearing_leg : Payout → ℤ → AccountEvent
clearing_leg p amount =
    payout_event LedgerEventType.driver_payout_pending PayoutPhase.approved_payout_clearing p
      AccountCode.payout_clearing TransactionType.credit amount

-- A transaction that is of no approval of the payout has none of the approval's references.
not_of_approval :
    (id : ℕ) (phase : PayoutPhase) (txs : List FinancialTransaction)
    → starts_with_approved id (Reference.payout_event id phase) ≡ true
    → find (of_approval id) txs ≡ none
    → find (has_reference (Reference.payout_event id phase)) txs ≡ none
not_of_approval id phase [] s h = refl
not_of_approval id phase (t ∷ txs) s h =
    let (front, rest) = find-cons_none (of_approval id) t txs h in
    elim (Reference-discrete t.reference (Reference.payout_event id phase)) [
      | yes e ↦ absurd (cc (front, ap (starts_with_approved id) e, s))
      | no ne ↦ ground (arith, has_reference_ne t _ ne, not_of_approval id phase txs s rest)
    ]

id_self : (id : ℕ) → (id == id) ≡ true
id_self id = ground arith

validate_newest :
    ⦃decimal : DecimalText⦄
    → (id : ℕ) (db : Db) (t : FinancialTransaction) (txs : List FinancialTransaction)
    → db.transactions ≡ t ∷ txs
    → of_approval id t ≡ true
    → succeeded (validate_ledger_balance t.id db).0 ≡ false
    → succeeded (validate_approval id db).0 ≡ false
unfolding validate_approval
validate_newest id db t txs front own bad = ground arith

module _ ⦃decimal : DecimalText⦄ (p : Payout) (n : ℕ) (fits : suc n < column_limit) (db : Db)
    (none_yet : find (of_approval p.id) db.transactions ≡ none) (fresh : HasFreshEntries db) where
  abbrev amount : ℤ
  amount = pos (suc n)

  abbrev payable_db : Db
  payable_db = (record_account_event (payable_leg p amount) db).1

  payable_missing : find (has_reference (payable_leg p amount).reference) db.transactions ≡ none
  payable_missing =
      not_of_approval p.id PayoutPhase.approved_driver_payable db.transactions (rw (id_self p.id))
        none_yet

  clearing_missing :
      find (has_reference (clearing_leg p amount).reference) payable_db.transactions ≡ none
  clearing_missing =
      let (front, same) =
        record_account_event-transactions (payable_leg p amount) db payable_missing in
      rw front (
        ground (
          arith,
          has_reference_ne (record_account_event (payable_leg p amount) db).0
              (clearing_leg p amount).reference (λ e. cc (e, same)),
          not_of_approval p.id PayoutPhase.approved_payout_clearing db.transactions
              (rw (id_self p.id)) none_yet,
        ))

  validate_approval-throws :
      succeeded (validate_approval p.id (record_approval p amount db)).0 ≡ false
  unfolding record_approval
  validate_approval-throws =
      let (front, same) =
        record_account_event-transactions (clearing_leg p amount) payable_db clearing_missing in
      let invalid =
        recorded_event_invalid (clearing_leg p amount) n payable_db clearing_missing
          (record_account_event-fresh (payable_leg p amount) db fresh) refl fits in
      validate_newest p.id (record_account_event (clearing_leg p amount) payable_db).1
        (record_account_event (clearing_leg p amount) payable_db).0 payable_db.transactions front
        (ap (starts_with_approved p.id) same ∙ ground (arith, id_self p.id)) invalid.0

approve_requested-throws :
    ⦃decimal : DecimalText⦄
    → (admin : ℕ) (p : Payout) (comment : Option Text) (n : ℕ) (db : Db) → p.amount ≡ pos (suc n)
    → suc n < column_limit
    → find (of_approval p.id) db.transactions ≡ none
    → HasFreshEntries db
    → succeeded (approve_requested admin p comment db).0 ≡ false
unfolding approve_requested
approve_requested-throws admin p comment n db amount fits none_yet fresh =
    ground
      (arith, read_column-pos (suc n) fits, validate_approval-throws p n fits db none_yet fresh)

-- On a ledger that has no transaction of its approval, and whose entries belong to transactions with
-- ids below the next one, approving a stored payout of a positive amount that a column holds throws,
-- whatever the payout's status.
pub approve_payout_throws :
    ⦃decimal : DecimalText⦄
    → (admin : ℕ) (p : Payout) (comment : Option Text) (n : ℕ) (db : Db)
    → find (is_payout p.id) db.payouts ≡ some p
    → p.amount ≡ pos (suc n)
    → suc n < column_limit
    → find (of_approval p.id) db.transactions ≡ none
    → HasFreshEntries db
    → succeeded (approve_payout admin p.id comment db).0 ≡ false
unfolding approve_payout
approve_payout_throws admin p comment n db found amount fits none_yet fresh = ground (
  arith,
  not_of_approval p.id PayoutPhase.approved db.transactions (rw (id_self p.id)) none_yet,
  approve_requested-throws admin p comment n db amount fits none_yet fresh,
)
