-- ===== src/Finance/Events/Facts.antt =====
-- What the recorders answer, and which tables they leave alone.
use rydalux_app.Prelude.{
  ◌≡◌, refl, ◌≢◌, true, false, some, none, ◌∷◌, find, holds, Option-cases, inl, inr, arith,
}
use rydalux_app.Finance.State.{FinancialTransaction, Reference, Reference-discrete, Db}
use rydalux_app.Finance.Events.Defs.{
  AccountEvent, WalletEvent, has_reference, ensure_ledger_account, post_account_event,
  record_account_event, ensure_wallet, post_wallet_event, record_wallet_event,
}

-- A reference that is there is answered with its transaction, and nothing is written.
pub record_account_event-old :
    (e : AccountEvent) (db : Db) (t : FinancialTransaction)
    → find (has_reference e.reference) db.transactions ≡ some t
    → record_account_event e db ≡ (t, db)
unfolding record_account_event
record_account_event-old e db t found = rw (found, record_account_event)

-- On a new reference the recorder posts to the account.
pub record_account_event-new :
    (e : AccountEvent) (db : Db)
    → find (has_reference e.reference) db.transactions ≡ none
    → record_account_event e db
      ≡ post_account_event e (ensure_ledger_account e.account_code e.currency db)
unfolding record_account_event
record_account_event-new e db missing = rw (missing, record_account_event)

-- The tables that no ledger account, transaction or entry stands in.
abbrev pub SameRest : Db → Db → Type 0
SameRest a b =
    (a.now ≡ b.now)
    × (a.payments ≡ b.payments)
    × (a.payouts ≡ b.payouts)
    × (a.drivers ≡ b.drivers)
    × (a.trips ≡ b.trips)

record_account_event-SameRest :
    (e : AccountEvent) (db : Db) → SameRest (record_account_event e db).1 db
unfolding record_account_event ensure_ledger_account post_account_event
record_account_event-SameRest e db = ground arith

record_wallet_event-SameRest :
    (e : WalletEvent) (db : Db) → SameRest (record_wallet_event e db).1 db
unfolding record_wallet_event ensure_wallet post_wallet_event
record_wallet_event-SameRest e db = ground arith

module _ (e : AccountEvent) (db : Db) where
  pub record_account_event-now : (record_account_event e db).1.now ≡ db.now
  record_account_event-now = (record_account_event-SameRest e db).0

  pub record_account_event-payments : (record_account_event e db).1.payments ≡ db.payments
  record_account_event-payments = (record_account_event-SameRest e db).1

  pub record_account_event-payouts : (record_account_event e db).1.payouts ≡ db.payouts
  record_account_event-payouts = (record_account_event-SameRest e db).2

  pub record_account_event-drivers : (record_account_event e db).1.drivers ≡ db.drivers
  record_account_event-drivers = (record_account_event-SameRest e db).3

  -- A new reference puts its transaction in front of the others.
  pub record_account_event-transactions :
      find (has_reference e.reference) db.transactions ≡ none
      → ((record_account_event e db).1.transactions
          ≡ (record_account_event e db).0 ∷ db.transactions)
        × ((record_account_event e db).0.reference ≡ e.reference)
  unfolding record_account_event ensure_ledger_account post_account_event
  record_account_event-transactions missing = ground arith

module _ (e : WalletEvent) (db : Db) where
  pub record_wallet_event-payments : (record_wallet_event e db).1.payments ≡ db.payments
  record_wallet_event-payments = (record_wallet_event-SameRest e db).1

  pub record_wallet_event-payouts : (record_wallet_event e db).1.payouts ≡ db.payouts
  record_wallet_event-payouts = (record_wallet_event-SameRest e db).2

-- A reference is found again once it has been recorded, and by no other reference.
has_reference_self :
    (t : FinancialTransaction) (r : Reference) → t.reference ≡ r → has_reference r t ≡ true
has_reference_self t r e = elim (Reference-discrete t.reference r) as (λ d. holds d ≡ true) [
  | yes _ ↦ refl
  | no ne ↦ absurd (ne e)
]

pub has_reference_ne :
    (t : FinancialTransaction) (r : Reference) → t.reference ≢ r → has_reference r t ≡ false
has_reference_ne t r ne = elim (Reference-discrete t.reference r) as (λ d. holds d ≡ false) [
  | yes e ↦ absurd (ne e)
  | no _ ↦ refl
]

found_again :
    (e : AccountEvent) (db : Db)
    → find (has_reference e.reference) db.transactions ≡ none
    → find (has_reference e.reference) (record_account_event e db).1.transactions
      ≡ some (record_account_event e db).0
found_again e db missing =
    let (front, same) = record_account_event-transactions e db missing in
    rw front (ground (arith, has_reference_self (record_account_event e db).0 e.reference same))

-- Recording an event again answers with the transaction of the first time, and writes nothing.
pub record_account_event_idem :
    (e : AccountEvent) (db : Db)
    → record_account_event e (record_account_event e db).1 ≡ record_account_event e db
record_account_event_idem e db =
    elim (Option-cases (find (has_reference e.reference) db.transactions)) [
      | inl missing ↦
          record_account_event-old e (record_account_event e db).1 (record_account_event e db).0
            (found_again e db missing)
      | inr (t, found) ↦
          rw (record_account_event-old e db t found) (record_account_event-old e db t found)
    ]
