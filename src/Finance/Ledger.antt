-- ===== src/Finance/Ledger.antt =====
-- services/api/src/payments/ledger.service.ts: validation of a transaction's entries, reversals and
-- manual adjustments.
pub mod Validation
pub mod SingleEntry
pub mod Mirror
pub mod Reversal
pub mod Adjustment
use rydalux_app.Prelude.{
  ℕ, ◌+◌, ⊤, Bool, true, false, not, ◌&&◌, ◌||◌, Option, none, some, List, [], ◌∷◌, String, find,
  update, select, any, ◌==◌, is_some, if◌then◌else◌, leb, ltb,
}
use rydalux_app.Prelude.Int.{ℤ, pos, neg, ◌+ℤ◌, eqb_ℤ}
use rydalux_app.Money.{Text}
use rydalux_app.Money.Column.{DecimalText, read_column}
use rydalux_app.Service.{
  Action, Result, ok, err, bad_request, forbidden, not_found, internal, pure, raise, gets, or_raise,
  raise_if, modify, ◌>>=◌, ◌>>◌,
}
use rydalux_app.Finance.State.{
  TransactionType, LedgerEventType, Reference, ReferenceType, TransactionStatus, Account,
  FinancialTransaction, LedgerEntry, AuditAction, AuditLog, Db,
}
use rydalux_app.Finance.Events.{has_reference, is_account, add_to_account, signed_amount}

abbrev pub is_transaction : ℕ → FinancialTransaction → Bool
is_transaction i t = t.id == i

abbrev pub of_transaction : ℕ → LedgerEntry → Bool
of_transaction i e = e.financial_transaction_id == i

-- The entries of a transaction.
abbrev pub entries_of : ℕ → Db → List LedgerEntry
entries_of i db = select (of_transaction i) db.entries

-- One round of the loop of `validateLedgerBalance` on the debits and credits so far.
abbrev pub add_entry : TransactionType → ℤ → ℤ × ℤ → ℤ × ℤ
add_entry TransactionType.debit amount (d, c) = (d +ℤ amount, c)
add_entry TransactionType.credit amount (d, c) = (d, c +ℤ amount)

module _ ⦃decimal : DecimalText⦄ where
  -- The loop; `none` is the SyntaxError of an amount that is no decimal text.
  unfoldable pub total_entries : List LedgerEntry → ℤ × ℤ → Option (ℤ × ℤ)
  total_entries [] sums = some sums
  total_entries (e ∷ es) sums = elim (read_column e.amount) [
    | none ↦ none
    | some amount ↦ total_entries es (add_entry e.transaction_type amount sums)
  ]

abbrev pub is_empty : List LedgerEntry → Bool
is_empty [] = true
is_empty (_ ∷ _) = false

-- Writes the totals of a transaction.
abbrev pub set_totals : ℕ → ℤ × ℤ → Db → Db
set_totals i (d, c) db = record db {
  transactions =
      update (is_transaction i) (λ t. record t { total_debit = d; total_credit = c })
        db.transactions;
}

module _ ⦃decimal : DecimalText⦄ where
  -- `validateLedgerBalance`
  unfoldable pub validate_ledger_balance : ℕ → Action Db Bool
  validate_ledger_balance i = do
    entries ← gets (entries_of i)
    raise_if (is_empty entries) (bad_request "Ledger transaction must have entries")
    sums ← or_raise (total_entries entries (pos 0, pos 0)) (internal "SyntaxError")
    raise_if (not (eqb_ℤ sums.0 sums.1)) (bad_request "Ledger transaction must balance")
    modify (set_totals i sums)
    pure true

-- `preventEntryModification`: an entry of a transaction posted over a second ago is immutable.
unfoldable pub prevent_entry_modification : ℕ → Action Db ⊤
prevent_entry_modification entry_id = do
  entries ← gets (λ db. db.entries)
  entry ← or_raise (find (λ e. e.id == entry_id) entries) (bad_request "Ledger entry not found")
  old ← gets λ db. elim (find (is_transaction entry.financial_transaction_id) db.transactions) [
    | none ↦ false
    | some t ↦ ltb (t.posted_at + 1000) db.now
  ]
  raise_if old (forbidden "Posted ledger entries are immutable and cannot be modified")

-- A create of a row whose reference is taken violates the unique constraint.
abbrev pub create_transaction : FinancialTransaction → Action Db ⊤
create_transaction t = do
  taken ← gets (λ db. any (has_reference t.reference) db.transactions)
  raise_if taken (internal "P2002")
  modify (λ db. record db { next_id = db.next_id + 1; transactions = t ∷ db.transactions })

abbrev pub create_entry : LedgerEntry → Db → Db
create_entry e db = record db { next_id = db.next_id + 1; entries = e ∷ db.entries }

abbrev pub opposite : TransactionType → TransactionType
opposite TransactionType.debit = TransactionType.credit
opposite TransactionType.credit = TransactionType.debit

-- The entry that a reversal writes for an entry of the original.
abbrev pub reversed_entry : ℕ → LedgerEntry → ℕ → LedgerEntry
reversed_entry reversal_id e i = record e {
  id = i;
  financial_transaction_id = reversal_id;
  transaction_type = opposite e.transaction_type;
}

-- The loop over the original's entries.
unfoldable pub reverse_entries : ℕ → List LedgerEntry → Db → Db
reverse_entries reversal_id [] db = db
reverse_entries reversal_id (e ∷ es) db =
    reverse_entries reversal_id es (create_entry (reversed_entry reversal_id e db.next_id) db)

abbrev pub reversal_transaction : FinancialTransaction → ℕ → Db → FinancialTransaction
reversal_transaction original admin db = record original {
  id = db.next_id;
  reference = Reference.reversal original.reference db.now;
  status = TransactionStatus.posted;
  total_debit = pos 0;
  total_credit = pos 0;
  posted_at = db.now;
  reversed_at = none;
  reversal_reference = none;
  reversal_reference_id = some original.id;
  reversed_by_admin_id = some admin;
}

abbrev pub mark_reversed : Reference → ℕ → ℕ → FinancialTransaction → FinancialTransaction
mark_reversed reversal_reference admin now t = record t {
  status = TransactionStatus.reversed;
  reversed_at = some now;
  reversal_reference = some reversal_reference;
  reversed_by_admin_id = some admin;
}

abbrev pub is_posted : TransactionStatus → Bool
is_posted TransactionStatus.posted = true
is_posted TransactionStatus.reversed = false

module _ ⦃decimal : DecimalText⦄ where
  -- `createReversal`, in the caller's transaction; it returns the reversal's id.
  unfoldable pub create_reversal : ℕ → ℕ → Action Db ℕ
  create_reversal original_id admin = do
    transactions ← gets (λ db. db.transactions)
    original ←
        or_raise (find (is_transaction original_id) transactions)
          (bad_request "Original transaction not found")
    raise_if (not (is_posted original.status)) (bad_request "Can only reverse posted transactions")
    reversal ← gets (reversal_transaction original admin)
    ledger_entries ← gets (entries_of original_id)
    create_transaction reversal
    modify (reverse_entries reversal.id ledger_entries)
    now ← gets (λ db. db.now)
    modify λ db. record db {
      transactions =
          update (is_transaction original_id) (mark_reversed reversal.reference admin now)
            db.transactions;
    }
    validate_ledger_balance reversal.id
    pure reversal.id

-- White space, as `trim` takes it off.
abbrev pub is_space : ℕ → Bool
is_space c =
    (leb 9 c && leb c 13)
    || c == 32
    || c == 160
    || c == 5760
    || (leb 8192 c && leb c 8202)
    || c == 8232
    || c == 8233
    || c == 8239
    || c == 8287
    || c == 12288
    || c == 65279

-- `!reason || reason.trim().length === 0`
abbrev pub is_blank : Text → Bool
is_blank [] = true
is_blank (c ∷ s) = is_space c && is_blank s

abbrev pub adjustment_transaction : Account → ℤ → Db → FinancialTransaction
adjustment_transaction account amount db = record {
  id = db.next_id;
  event_type = LedgerEventType.adjustment;
  reference = Reference.manual_adjustment db.now;
  reference_type = ReferenceType.manual_adjustment;
  reference_id = none;
  payment_id = none;
  payout_id = none;
  trip_id = none;
  currency = account.currency;
  amount = amount;
  status = TransactionStatus.posted;
  total_debit = pos 0;
  total_credit = pos 0;
  posted_at = db.now;
  reversed_at = none;
  reversal_reference = none;
  reversal_reference_id = none;
  reversed_by_admin_id = none;
}

-- One of the two entries of an adjustment; both stand on the adjusted account.
abbrev pub adjustment_entry : ℕ → ℕ → TransactionType → ℤ → ℤ → ReferenceType → Db → LedgerEntry
adjustment_entry account transaction type amount balance_after reference_type db = record {
  id = db.next_id;
  wallet_id = none;
  ledger_account_id = some account;
  financial_transaction_id = transaction;
  event_type = LedgerEventType.adjustment;
  transaction_type = type;
  amount = amount;
  balance_after = balance_after;
  reference_type = reference_type;
  reference_id = none;
}

module _ ⦃decimal : DecimalText⦄ where
  -- `recordManualAdjustment`, in the caller's transaction; an empty admin id is `none`.
  unfoldable pub record_manual_adjustment : Option ℕ → ℕ → ℤ → TransactionType → Text → Action Db ℕ
  record_manual_adjustment admin_id account_id amount type reason = do
    admin ← or_raise admin_id (forbidden "Admin ID required for manual adjustment")
    raise_if (is_blank reason) (bad_request "Manual adjustment reason required")
    accounts ← gets (λ db. db.accounts)
    account ←
        or_raise (find (is_account account_id) accounts) (bad_request "Ledger account not found")
    transaction ← gets (adjustment_transaction account amount)
    create_transaction transaction
    modify λ db. record db {
      accounts =
          update (is_account account_id) (add_to_account (signed_amount amount type)) db.accounts;
    }
    let balance_after = account.balance +ℤ signed_amount amount type
    modify λ db.
        create_entry
          (adjustment_entry account_id transaction.id type amount balance_after
            ReferenceType.manual_adjustment db)
          db
    modify λ db.
        create_entry
          (adjustment_entry account_id transaction.id (opposite type) amount balance_after
            ReferenceType.manual_adjustment_counter db)
          db
    validate_ledger_balance transaction.id
    modify λ db. record db {
      audit_logs =
          record {
            actor_id = some admin;
            action = AuditAction.ledger_manual_adjustment;
            entity_id = transaction.id;
          }
          ∷ db.audit_logs;
    }
    pure transaction.id
