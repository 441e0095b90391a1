-- ===== src/Finance/Writes.antt =====
-- The writes that the payment services make on the tables, as a relation of the store before to the
-- store after: events on the ledger, and any change of the tables beside it.
pub mod Ledger
pub mod Calls
use rydalux_app.Prelude.{
  ℕ, ◌≤◌, ◌+◌, ◌≡◌, refl, sym, ap, ◌∙◌, arith, Bool, true, false, none, List, [], ◌∷◌, ◌++◌, find,
  inl, inr, Option-cases,
}
use rydalux_app.Service.{modify}
use rydalux_app.Service.Keeps.{Keeps}
use rydalux_app.Finance.State.{FinancialTransaction, LedgerEntry, Db}
use rydalux_app.Finance.Events.{
  AccountEvent, WalletEvent, has_reference, record_account_event, record_wallet_event,
}
use rydalux_app.Finance.Events.Facts.{record_account_event-transactions}
use rydalux_app.Finance.Events.Reconciled.{
  IsReconciled, other_tables-IsReconciled, record_account_event-IsReconciled,
  record_wallet_event-IsReconciled,
}

-- Where `webhooks` is false, no row of the provider's events is written.
pub data Writes (webhooks : Bool) (start : Db) : Db → Type 0 where
  nothing : Writes webhooks start start
  account_event :
      (db : Db) (e : AccountEvent)
      → Writes webhooks start db
      → Writes webhooks start (record_account_event e db).1
  wallet_event :
      (db : Db) (e : WalletEvent)
      → Writes webhooks start db
      → Writes webhooks start (record_wallet_event e db).1
  other_tables :
      (db db' : Db)
      → db'.accounts ≡ db.accounts
      → db'.wallets ≡ db.wallets
      → db'.transactions ≡ db.transactions
      → db'.entries ≡ db.entries
      → db'.provider_events ≡ db.provider_events
      → db.next_id ≤ db'.next_id
      → Writes webhooks start db
      → Writes webhooks start db'
  event_rows :
      (db db' : Db)
      → webhooks ≡ true
      → db'.accounts ≡ db.accounts
      → db'.wallets ≡ db.wallets
      → db'.transactions ≡ db.transactions
      → db'.entries ≡ db.entries
      → db.next_id ≤ db'.next_id
      → Writes webhooks start db
      → Writes webhooks start db'

pub Writes-IsReconciled :
    (webhooks : Bool) (start db : Db)
    → Writes webhooks start db
    → IsReconciled start
    → IsReconciled db
Writes-IsReconciled webhooks start db nothing h = h
Writes-IsReconciled webhooks start db (Writes.account_event db' e w) h =
    record_account_event-IsReconciled e db' (Writes-IsReconciled webhooks start db' w h)
Writes-IsReconciled webhooks start db (Writes.wallet_event db' e w) h =
    record_wallet_event-IsReconciled e db' (Writes-IsReconciled webhooks start db' w h)
Writes-IsReconciled webhooks start db (Writes.other_tables db' _ a ws t e p n w) h =
    other_tables-IsReconciled db' db a ws e n (Writes-IsReconciled webhooks start db' w h)
Writes-IsReconciled webhooks start db (Writes.event_rows db' _ on a ws t e n w) h =
    other_tables-IsReconciled db' db a ws e n (Writes-IsReconciled webhooks start db' w h)
