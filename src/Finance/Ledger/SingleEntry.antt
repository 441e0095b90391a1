-- ===== src/Finance/Ledger/SingleEntry.antt =====
-- A transaction that one of the recorders wrote has a single entry, so it is never in balance.
use rydalux_app.Prelude.{
  String, ℕ, suc, ◌+◌, ◌<◌, ◌≤◌, ◌≡◌, refl, false, none, List, [], ◌∷◌, arith, All, select, find,
  Option-cases, inl, inr, ◌==◌, if◌then◌else◌, ◌∙◌,
}
use rydalux_app.Prelude.Int.{pos}
use rydalux_app.Money.Column.{DecimalText, column_limit}
use rydalux_app.Service.{succeeded}
use rydalux_app.Finance.State.{LedgerEntry, Account, AccountCode, Db}
use rydalux_app.Finance.Events.{
  AccountEvent, record_account_event, has_reference, has_code, post_account_event,
  ensure_ledger_account, account_entry,
}
use rydalux_app.Finance.Events.Facts.{record_account_event-new, record_account_event-old}
use rydalux_app.Finance.Ledger.{of_transaction, entries_of, validate_ledger_balance}
use rydalux_app.Finance.Ledger.Validation.{IsBalanced, validate_ledger_balance-cases}

-- No entry belongs to a transaction that is still to come.
abbrev pub HasFreshEntries : Db → Type 0
HasFreshEntries db = All (λ e. e.financial_transaction_id < db.next_id) db.entries

pub select-fresh :
    (i n : ℕ) (es : List LedgerEntry)
    → All (λ e. e.financial_transaction_id < n) es
    → n ≤ i
    → select (of_transaction i) es ≡ []
select-fresh i n [] h le = refl
select-fresh i n (e ∷ es) h le = ground (arith, select-fresh i n es h.1 le)

single-unbalanced : (e : LedgerEntry) (n : ℕ) → e.amount ≡ pos (suc n) → ¬ IsBalanced (e ∷ [])
single-unbalanced e n h b = ground arith

-- What a recorded event adds to the entries of any transaction.
pub post-entries :
    (e : AccountEvent) (a : Account) (db : Db) (i : ℕ)
    → entries_of i (post_account_event e (a, db)).1
      ≡ (if db.next_id == i then account_entry e a db ∷ entries_of i db else entries_of i db)
unfolding post_account_event
post-entries e a db i = refl

entries_below :
    (m n : ℕ) (es : List LedgerEntry)
    → m ≤ n
    → All (λ e. e.financial_transaction_id < m) es
    → All (λ e. e.financial_transaction_id < n) es
entries_below m n [] le h = tt
entries_below m n (e ∷ es) le h = (omega arith, entries_below m n es le h.1)

pub ensure_ledger_account-fresh :
    (c : AccountCode) (s : String) (db : Db)
    → HasFreshEntries db
    → HasFreshEntries (ensure_ledger_account c s db).1
unfolding ensure_ledger_account
ensure_ledger_account-fresh c s db h = elim (Option-cases (find (has_code c) db.accounts)) [
  | inl new ↦
      rw (new, ensure_ledger_account)
        (entries_below db.next_id (db.next_id + 1) db.entries (omega arith) h)
  | inr (a, found) ↦ rw (found, ensure_ledger_account) h
]

post-fresh :
    (e : AccountEvent) (a : Account) (db : Db)
    → HasFreshEntries db
    → HasFreshEntries (post_account_event e (a, db)).1
unfolding post_account_event
post-fresh e a db h =
    (omega arith, entries_below db.next_id (db.next_id + 2) db.entries (omega arith) h)

post-single :
    (e : AccountEvent) (a : Account) (db : Db)
    → HasFreshEntries db
    → entries_of (post_account_event e (a, db)).0.id (post_account_event e (a, db)).1
      ≡ account_entry e a db ∷ []
unfolding post_account_event
post-single e a db h = ground (arith, select-fresh db.next_id db.next_id db.entries h)

pub record_account_event-fresh :
    (e : AccountEvent) (db : Db)
    → HasFreshEntries db
    → HasFreshEntries (record_account_event e db).1
record_account_event-fresh e db h =
    elim (Option-cases (find (has_reference e.reference) db.transactions)) [
      | inl missing ↦ rw (record_account_event-new e db missing) (
          post-fresh e (ensure_ledger_account e.account_code e.currency db).0
            (ensure_ledger_account e.account_code e.currency db).1
            (ensure_ledger_account-fresh e.account_code e.currency db h))
      | inr (t, found) ↦ rw (record_account_event-old e db t found) h
    ]

-- The entries of a transaction that an event has just created.
pub recorded-entries :
    (e : AccountEvent) (db : Db)
    → find (has_reference e.reference) db.transactions ≡ none
    → HasFreshEntries db
    → (en : LedgerEntry) × (entries_of
          (record_account_event e db).0.id
          (record_account_event e db).1
        ≡ en ∷ [])
      × (en.amount ≡ e.amount_minor)
recorded-entries e db missing fresh =
    let (a, db') = ensure_ledger_account e.account_code e.currency db in
    rw (record_account_event-new e db missing) (
      account_entry e a db',
      post-single e a db' (ensure_ledger_account-fresh e.account_code e.currency db fresh),
      refl,
    )

module _ ⦃decimal : DecimalText⦄ where
  pub single-invalid :
      (i : ℕ) (db : Db) (e : LedgerEntry) (n : ℕ)
      → entries_of i db ≡ e ∷ []
      → e.amount ≡ pos (suc n)
      → suc n < column_limit
      → (succeeded (validate_ledger_balance i db).0 ≡ false)
        × ((validate_ledger_balance i db).1 ≡ db)
  single-invalid i db e n one amount fits =
      (validate_ledger_balance-cases i db (rw one (rw amount (fits, tt)))).1
        (rw one (single-unbalanced e n amount))

  -- Where all entries belong to transactions with ids below the next one, a transaction that
  -- `recordAccountEvent` writes under a free reference, of an amount above zero that a column holds,
  -- is refused by `validateLedgerBalance`, which changes nothing.
  pub recorded_event_invalid :
      (e : AccountEvent) (n : ℕ) (db : Db)
      → find (has_reference e.reference) db.transactions ≡ none
      → HasFreshEntries db
      → e.amount_minor ≡ pos (suc n)
      → suc n < column_limit
      → let (t, db') = record_account_event e db in
        (succeeded (validate_ledger_balance t.id db').0 ≡ false)
        × ((validate_ledger_balance t.id db').1 ≡ db')
  recorded_event_invalid e n db missing fresh amount fits =
      let (en, one, same) = recorded-entries e db missing fresh in
      single-invalid (record_account_event e db).0.id (record_account_event e db).1 en n one
        (same ∙ amount) fits
