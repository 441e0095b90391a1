-- ===== src/Finance/Ledger/Adjustment.antt =====
-- A manual adjustment moves the account's balance, and writes two entries on it that cancel.
use rydalux_app.Prelude.{ℕ, ◌+◌, ◌≡◌, refl, ◌∙◌, false, some, [], ◌∷◌, arith, find, update, any}
use rydalux_app.Prelude.Int.{ℤ, pos, ◌+ℤ◌, int_laws, zero-+ℤ}
use rydalux_app.Money.{Text}
use rydalux_app.Money.Column.{DecimalText}
use rydalux_app.Service.{ok, pure, modify, ◌>>◌, >>-ok}
use rydalux_app.Finance.State.{
  TransactionType, Account, AuditAction, LedgerEntry, Reference, ReferenceType, Db,
}
use rydalux_app.Finance.Events.{has_reference, is_account, signed_amount, add_to_account}
use rydalux_app.Finance.Events.Balances.{account_balance, account_sum, account_balance-update}
use rydalux_app.Finance.Ledger.{
  entries_of, create_entry, opposite, is_blank, adjustment_transaction, adjustment_entry,
  record_manual_adjustment, validate_ledger_balance, set_totals,
}
use rydalux_app.Finance.Ledger.Validation.{
  IsAmount, HasAmounts, IsBalanced, debits, credits, validate_ledger_balance-cases,
}
use rydalux_app.Finance.Ledger.SingleEntry.{HasFreshEntries, select-fresh}

cancels :
    (t : TransactionType) (x s : ℤ) → signed_amount x (opposite t) +ℤ (signed_amount x t +ℤ s) ≡ s
cancels TransactionType.debit x s = omega int_laws
cancels TransactionType.credit x s = omega int_laws

-- Two entries of one amount and opposite types balance.
pair-IsBalanced :
    (e f : LedgerEntry)
    → e.transaction_type ≡ opposite f.transaction_type
    → e.amount ≡ f.amount
    → IsBalanced (e ∷ f ∷ [])
pair-IsBalanced e f t x = (λ n. cc, ground arith)

module _ (admin account_id : ℕ) (amount : ℤ) (type : TransactionType) (a : Account) (db : Db) where
  -- The store after the balance has moved.
  moved_db : Db
  moved_db = record db {
    next_id = db.next_id + 1;
    transactions = adjustment_transaction a amount db ∷ db.transactions;
    accounts =
        update (is_account account_id) (add_to_account (signed_amount amount type)) db.accounts;
  }

  entry : TransactionType → ReferenceType → Db → LedgerEntry
  entry t r d =
      adjustment_entry account_id db.next_id t amount (a.balance +ℤ signed_amount amount type) r d

  first_db : Db
  unfolding moved_db entry
  first_db = create_entry (entry type ReferenceType.manual_adjustment moved_db) moved_db

  -- The store when the adjustment is validated.
  adjusted_db : Db
  unfolding first_db
  adjusted_db =
      create_entry (entry (opposite type) ReferenceType.manual_adjustment_counter first_db) first_db

  audited : Db → Db
  audited d = record d {
    audit_logs =
        record {
          actor_id = some admin;
          action = AuditAction.ledger_manual_adjustment;
          entity_id = db.next_id;
        }
        ∷ d.audit_logs;
  }

  adjusted-entries :
      HasFreshEntries db
      → entries_of db.next_id adjusted_db
        ≡ entry (opposite type) ReferenceType.manual_adjustment_counter first_db
          ∷ entry type ReferenceType.manual_adjustment moved_db
          ∷ []
  unfolding adjusted_db
  adjusted-entries fresh = ground (arith, select-fresh db.next_id db.next_id db.entries fresh)

  adjusted-IsBalanced :
      IsAmount amount
      → HasFreshEntries db
      → HasAmounts (entries_of db.next_id adjusted_db)
        × IsBalanced (entries_of db.next_id adjusted_db)
  adjusted-IsBalanced h fresh = rw (adjusted-entries fresh) (
    unfold entry in (h, (h, tt)),
    pair-IsBalanced _ _ (unfold entry in refl) (unfold entry in refl),
  )

  -- The two entries add nothing to any account.
  adjusted-account_sum : (i : ℕ) → account_sum i adjusted_db.entries ≡ account_sum i db.entries
  unfolding adjusted_db account_sum
  adjusted-account_sum i = ground (
    arith,
    cancels type amount (account_sum i db.entries),
    zero-+ℤ (pos 0 +ℤ account_sum i db.entries),
    zero-+ℤ (account_sum i db.entries),
  )

  adjusted-balance :
      find (is_account account_id) db.accounts ≡ some a
      → account_balance account_id adjusted_db.accounts
        ≡ signed_amount amount type +ℤ account_balance account_id db.accounts
  unfolding adjusted_db
  adjusted-balance found =
      ground (
        arith,
        account_balance-update account_id account_id (signed_amount amount type) db.accounts,
      )

module _ ⦃decimal : DecimalText⦄ where
  adjustment-validates :
      (admin account_id : ℕ) (amount : ℤ) (type : TransactionType) (reason : Text) (a : Account)
      (db : Db)
      → find (is_account account_id) db.accounts ≡ some a
      → is_blank reason ≡ false
      → any (has_reference (Reference.manual_adjustment db.now)) db.transactions ≡ false
      → record_manual_adjustment (some admin) account_id amount type reason db
        ≡ (validate_ledger_balance db.next_id
              >> (modify (audited admin account_id amount type a db) >> pure db.next_id))
            (adjusted_db admin account_id amount type a db)
  unfolding record_manual_adjustment adjusted_db audited
  adjustment-validates admin account_id amount type reason a db found given unused = ground arith

  -- An adjustment of a known account, by an amount of zero or more, with an admin, a reason and a
  -- free reference, goes through. The account's balance moves by the signed amount, and the sum of
  -- the ledger entries stays the same on every account.
  pub record_manual_adjustment_lem :
      (admin account_id : ℕ) (amount : ℤ) (type : TransactionType) (reason : Text) (a : Account)
      (db : Db)
      → find (is_account account_id) db.accounts ≡ some a
      → is_blank reason ≡ false
      → any (has_reference (Reference.manual_adjustment db.now)) db.transactions ≡ false
      → IsAmount amount
      → HasFreshEntries db
      → let (r, db') = record_manual_adjustment (some admin) account_id amount type reason db in
        (r ≡ ok db.next_id)
        × (account_balance account_id db'.accounts
            ≡ signed_amount amount type +ℤ account_balance account_id db.accounts)
        × ((i : ℕ) → account_sum i db'.entries ≡ account_sum i db.entries)
  unfolding audited
  record_manual_adjustment_lem admin account_id amount type reason a db found given unused h fresh =
      rw runs (
        refl,
        adjusted-balance admin account_id amount type a db found,
        adjusted-account_sum admin account_id amount type a db,
      )
    where
      d : Db
      d = adjusted_db admin account_id amount type a db

      checked : HasAmounts (entries_of db.next_id d) × IsBalanced (entries_of db.next_id d)
      checked = adjusted-IsBalanced admin account_id amount type a db h fresh

      runs : record_manual_adjustment (some admin) account_id amount type reason db ≡ (
        ok db.next_id,
        audited admin account_id amount type a db (
            set_totals db.next_id
              (pos (debits (entries_of db.next_id d)), pos (credits (entries_of db.next_id d)))
              d),
      )
      runs =
          adjustment-validates admin account_id amount type reason a db found given unused
          ∙ >>-ok (validate_ledger_balance db.next_id)
              (modify (audited admin account_id amount type a db) >> pure db.next_id) d
              ((validate_ledger_balance-cases db.next_id d checked.0).0 checked.1)
