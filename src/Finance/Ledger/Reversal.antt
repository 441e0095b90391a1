-- ===== src/Finance/Ledger/Reversal.antt =====
-- A reversal mirrors the entries of its original, and goes through exactly when they balance.
use rydalux_app.Prelude.{
  ℕ, ◌+◌, ◌<◌, ◌≡◌, ◌≢◌, ◌↔◌, ◌⊎◌, refl, ap, ◌∙◌, true, false, some, List, [], ◌∷◌, arith, find,
  update, any, inl, inr,
}
use rydalux_app.Prelude.Int.{pos, ◌+ℤ◌}
use rydalux_app.Money.Column.{DecimalText}
use rydalux_app.Service.{ok, >>-ok, >>-err, succeeded, pure, ◌>>◌}
use rydalux_app.Finance.State.{TransactionStatus, LedgerEntry, FinancialTransaction, Reference, Db}
use rydalux_app.Finance.Events.{has_reference}
use rydalux_app.Finance.Ledger.{
  entries_of, is_transaction, reversed_entry, reverse_entries, create_entry, reversal_transaction,
  mark_reversed, create_reversal, set_totals, validate_ledger_balance,
}
use rydalux_app.Finance.Ledger.Validation.{
  HasAmounts, IsBalanced, IsBalanced-cases, debits, credits, validate_ledger_balance-cases,
}
use rydalux_app.Finance.Events.Balances.{account_sum, wallet_sum}
use rydalux_app.Finance.Ledger.Mirror.{
  mirror, entries_of-reverse_entries, entries_of-reverse_entries_ne, debits-mirror, credits-mirror,
  HasAmounts-mirror, IsBalanced-mirror, account_sum-undone, wallet_sum-undone,
}
use rydalux_app.Finance.Ledger.SingleEntry.{HasFreshEntries, select-fresh}

reverse_entries-now :
    (r : ℕ) (es : List LedgerEntry) (db : Db) → (reverse_entries r es db).now ≡ db.now
unfolding reverse_entries
reverse_entries-now r [] db = refl
reverse_entries-now r (e ∷ es) db =
    reverse_entries-now r es (create_entry (reversed_entry r e db.next_id) db)

-- A transaction reverses another: on every account and every wallet its entries undo the other's, its
-- debits are the other's credits and the other way round, and the other keeps its entries.
pub record Reverses (reversal original : ℕ) (db db' : Db) : Type 0 where
  pub accounts :
      (k : ℕ)
      → account_sum k (entries_of reversal db') +ℤ account_sum k (entries_of original db) ≡ pos 0
  pub wallets :
      (k : ℕ)
      → wallet_sum k (entries_of reversal db') +ℤ wallet_sum k (entries_of original db) ≡ pos 0
  pub debited : debits (entries_of reversal db') ≡ credits (entries_of original db)
  pub credited : credits (entries_of reversal db') ≡ debits (entries_of original db)
  pub kept : entries_of original db' ≡ entries_of original db

module _ (original admin : ℕ) (db : Db) (t : FinancialTransaction) where
  with_reversal : Db
  with_reversal = record db {
    next_id = db.next_id + 1;
    transactions = reversal_transaction t admin db ∷ db.transactions;
  }

  -- The store when the reversal is validated.
  reversed_db : Db
  unfolding with_reversal
  reversed_db =
      let db' = reverse_entries db.next_id (entries_of original db) with_reversal in
      record db' {
        transactions =
            update (is_transaction original)
              (mark_reversed (Reference.reversal t.reference db.now) admin db'.now)
              db'.transactions;
      }

  reversed_db-reversal :
      HasFreshEntries db
      → entries_of db.next_id reversed_db
        ≡ mirror db.next_id (entries_of original db) (db.next_id + 1) []
  unfolding reversed_db with_reversal
  reversed_db-reversal fresh =
      entries_of-reverse_entries db.next_id (entries_of original db) with_reversal
      ∙ ap (mirror db.next_id (entries_of original db) (db.next_id + 1))
          (select-fresh db.next_id db.next_id db.entries fresh (omega arith))

  reversed_db-original :
      db.next_id ≢ original → entries_of original reversed_db ≡ entries_of original db
  unfolding reversed_db with_reversal
  reversed_db-original ne =
      entries_of-reverse_entries_ne db.next_id original (entries_of original db) with_reversal ne

module _ ⦃decimal : DecimalText⦄ where
  create_reversal-validates :
      (original admin : ℕ) (db : Db) (t : FinancialTransaction)
      → find (is_transaction original) db.transactions ≡ some t
      → t.status ≡ TransactionStatus.posted
      → any (has_reference (Reference.reversal t.reference db.now)) db.transactions ≡ false
      → create_reversal original admin db
        ≡ (validate_ledger_balance db.next_id >> pure db.next_id) (reversed_db original admin db t)
  unfolding create_reversal reversed_db with_reversal
  create_reversal-validates original admin db t found posted unused = ground arith

  create_reversal-cases :
      (original admin : ℕ) (db : Db) (t : FinancialTransaction)
      → find (is_transaction original) db.transactions ≡ some t
      → t.status ≡ TransactionStatus.posted
      → any (has_reference (Reference.reversal t.reference db.now)) db.transactions ≡ false
      → HasFreshEntries db
      → original < db.next_id
      → HasAmounts (entries_of original db)
      → let (r, db') = create_reversal original admin db in
        (IsBalanced (entries_of original db)
          → (r ≡ ok db.next_id) × Reverses db.next_id original db db')
        × (¬ IsBalanced (entries_of original db) → succeeded r ≡ false)
  create_reversal-cases original admin db t found posted unused fresh below amounts = (
    λ b. rw (runs b) (
      refl,
      record {
        accounts = λ k.
            ap (λ xs. account_sum k xs +ℤ account_sum k es) mirrored
            ∙ account_sum-undone k db.next_id (db.next_id + 1) es;
        wallets = λ k.
            ap (λ xs. wallet_sum k xs +ℤ wallet_sum k es) mirrored
            ∙ wallet_sum-undone k db.next_id (db.next_id + 1) es;
        debited =
            ap debits mirrored ∙ omega (arith, debits-mirror db.next_id es (db.next_id + 1) []);
        credited =
            ap credits mirrored ∙ omega (arith, credits-mirror db.next_id es (db.next_id + 1) []);
        kept = reversed_db-original original admin db t (omega arith);
      },
    ),
    λ nb.
        rw validates
          (>>-err (validate_ledger_balance db.next_id) (pure db.next_id) db'
            (checked.1 (λ b. nb (balanced.1 b))).0).0,
  )
    where
      db' : Db
      db' = reversed_db original admin db t

      es : List LedgerEntry
      es = entries_of original db

      mirrored : entries_of db.next_id db' ≡ mirror db.next_id es (db.next_id + 1) []
      mirrored = reversed_db-reversal original admin db t fresh

      valid : HasAmounts (entries_of db.next_id db')
      valid = rw mirrored (HasAmounts-mirror db.next_id es (db.next_id + 1) [] amounts tt)

      balanced : IsBalanced es ↔ IsBalanced (entries_of db.next_id db')
      balanced = rw mirrored (IsBalanced-mirror db.next_id es (db.next_id + 1))

      checked :
          (IsBalanced (entries_of db.next_id db')
            → validate_ledger_balance db.next_id db' ≡ (
              ok true,
              set_totals db.next_id
                  (
                    pos (debits (entries_of db.next_id db')),
                    pos (credits (entries_of db.next_id db')),
                  )
                  db',
            ))
          × (¬ IsBalanced (entries_of db.next_id db')
              → (succeeded (validate_ledger_balance db.next_id db').0 ≡ false)
                × ((validate_ledger_balance db.next_id db').1 ≡ db'))
      checked = validate_ledger_balance-cases db.next_id db' valid

      validates :
          create_reversal original admin db
          ≡ (validate_ledger_balance db.next_id >> pure db.next_id) db'
      validates = create_reversal-validates original admin db t found posted unused

      runs :
          IsBalanced es
          → create_reversal original admin db ≡ (
            ok db.next_id,
            set_totals db.next_id
                (
                  pos (debits (entries_of db.next_id db')),
                  pos (credits (entries_of db.next_id db')),
                )
                db',
          )
      runs b =
          validates
          ∙ >>-ok (validate_ledger_balance db.next_id) (pure db.next_id) db'
              (checked.0 (balanced.0 b))

  -- A posted transaction whose reversal reference is free, whose amounts are zero or more and fit a
  -- column, and where its id and those of the transactions that entries name are below the next one,
  -- either has entries that balance and is reversed: on every account and every wallet the
  -- new transaction's entries add up to the negative of the original's, its debits are the original's
  -- credits and the other way round, and the original keeps its entries. Or its entries do not
  -- balance, and the call throws.
  pub create_reversal_lem :
      (original admin : ℕ) (db : Db) (t : FinancialTransaction)
      → find (is_transaction original) db.transactions ≡ some t
      → t.status ≡ TransactionStatus.posted
      → any (has_reference (Reference.reversal t.reference db.now)) db.transactions ≡ false
      → HasFreshEntries db
      → original < db.next_id
      → HasAmounts (entries_of original db)
      → let (r, db') = create_reversal original admin db in
        (IsBalanced (entries_of original db)
          × (r ≡ ok db.next_id)
          × Reverses db.next_id original db db')
        ⊎ (¬ IsBalanced (entries_of original db) × (succeeded r ≡ false))
  create_reversal_lem original admin db t found posted unused fresh below amounts =
      let (reverses, refuses) =
        create_reversal-cases original admin db t found posted unused fresh below amounts in
      elim (IsBalanced-cases (entries_of original db)) [
        | inl b ↦ let (r, done) = reverses b in inl (b, r, done)
        | inr nb ↦ inr (nb, refuses nb)
      ]
