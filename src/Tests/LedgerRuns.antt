-- ===== src/Tests/LedgerRuns.antt =====
-- The ledger service.
use rydalux_app.Prelude.{◌≡◌, ◌⊎◌, refl, false, true, some, any, ℕ, ◌∷◌, [], arith}
use rydalux_app.Prelude.Int.{pos, ◌+ℤ◌}
use rydalux_app.Service.{ok, succeeded}
use rydalux_app.Finance.State.{TransactionType, Reference}
use rydalux_app.Finance.Events.{record_account_event, has_reference, signed_amount}
use rydalux_app.Finance.Events.Facts.{has_reference_ne}
use rydalux_app.Finance.Events.Balances.{account_balance, account_sum}
use rydalux_app.Finance.Ledger.{
  validate_ledger_balance, set_totals, entries_of, create_reversal, record_manual_adjustment,
}
use rydalux_app.Finance.Ledger.Validation.{IsBalanced, debits, credits, validate_ledger_balance_lem}
use rydalux_app.Finance.Ledger.SingleEntry.{recorded_event_invalid}
use rydalux_app.Finance.Ledger.Reversal.{Reverses, create_reversal_lem}
use rydalux_app.Finance.Ledger.Adjustment.{record_manual_adjustment_lem}
use rydalux_app.Tests.Libraries.{plain}
use rydalux_app.Tests.FinanceData.{books, transferred, transfer, captured_event, cash}

validate_ledger_balance_lem_example :
    (IsBalanced (entries_of 8 transferred)
      × (validate_ledger_balance ⦃decimal = plain⦄ 8 transferred ≡ (
        ok true,
        set_totals 8
            (pos (debits (entries_of 8 transferred)), pos (credits (entries_of 8 transferred)))
            transferred,
      )))
    ⊎ (¬ IsBalanced (entries_of 8 transferred)
        × (succeeded (validate_ledger_balance ⦃decimal = plain⦄ 8 transferred).0 ≡ false)
        × ((validate_ledger_balance ⦃decimal = plain⦄ 8 transferred).1 ≡ transferred))
validate_ledger_balance_lem_example =
    validate_ledger_balance_lem ⦃decimal = plain⦄ 8 transferred (omega arith, (omega arith, tt))

recorded_event_invalid_example :
    let (t, db) = record_account_event captured_event books in
    (succeeded (validate_ledger_balance ⦃decimal = plain⦄ t.id db).0 ≡ false)
    × ((validate_ledger_balance ⦃decimal = plain⦄ t.id db).1 ≡ db)
recorded_event_invalid_example =
    recorded_event_invalid ⦃decimal = plain⦄ captured_event 250049 books refl tt refl (omega arith)

free :
    any
      (has_reference (Reference.reversal (Reference.manual_adjustment 900) 1000))
      transferred.transactions
    ≡ false
free = ground (
  arith,
  has_reference_ne transfer (Reference.reversal (Reference.manual_adjustment 900) 1000) (λ h. cc),
)

create_reversal_lem_example :
    let (r, db) = create_reversal ⦃decimal = plain⦄ 8 70 transferred in
    (IsBalanced (entries_of 8 transferred) × (r ≡ ok 10) × Reverses 10 8 transferred db)
    ⊎ (¬ IsBalanced (entries_of 8 transferred) × (succeeded r ≡ false))
create_reversal_lem_example =
    create_reversal_lem ⦃decimal = plain⦄ 8 70 transferred transfer refl refl free
      (omega arith, (omega arith, tt)) (omega arith) (omega arith, (omega arith, tt))

record_manual_adjustment_lem_example :
    let (r, db) =
      record_manual_adjustment ⦃decimal = plain⦄
        (some 70)
        1
        (pos 1500)
        TransactionType.debit
        (b'f' ∷ b'e' ∷ b'e' ∷ [])
        books in
    (r ≡ ok 10)
    × (account_balance 1 db.accounts
        ≡ signed_amount (pos 1500) TransactionType.debit +ℤ account_balance 1 books.accounts)
    × ((i : ℕ) → account_sum i db.entries ≡ account_sum i books.entries)
record_manual_adjustment_lem_example =
    record_manual_adjustment_lem ⦃decimal = plain⦄ 70 1 (pos 1500) TransactionType.debit
      (b'f' ∷ b'e' ∷ b'e' ∷ []) cash books refl refl refl (omega arith) tt
