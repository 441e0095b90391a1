-- ===== src/Finance/Writes/Ledger.antt =====
-- The ledger under the writes of the payment services: it only grows, and no two transactions have
-- one reference.
use rydalux_app.Prelude.{
  ◌⊎◌, ◌≡◌, refl, ap, ◌∙◌, arith, Bool, false, none, List, [], ◌∷◌, ◌++◌, find, inl, inr,
  Option-cases,
}
use rydalux_app.Finance.State.{FinancialTransaction, LedgerEntry, Db}
use rydalux_app.Finance.Events.{
  AccountEvent, WalletEvent, account_transaction, account_entry, wallet_transaction, wallet_entry,
  has_reference, ensure_ledger_account, post_account_event, record_account_event, ensure_wallet,
  post_wallet_event, record_wallet_event,
}
use rydalux_app.Finance.Writes.{Writes}

-- The first list, with rows in front of it.
abbrev pub Extends {ℓ} : {A : Type ℓ} → List A → List A → Type ℓ
Extends {A = A} xs ys = (front : List A) × (ys ≡ front ++ xs)

Extends-cons :
    {A : Type 0} (xs ys zs : List A) (x : A) → Extends xs ys → zs ≡ x ∷ ys → Extends xs zs
Extends-cons xs ys zs x (front, e) h = (x ∷ front, h ∙ ap (λ l. x ∷ l) e)

-- Every transaction is the first with its reference, from the oldest on.
abbrev pub HasDistinctReferences : List FinancialTransaction → Type 0
HasDistinctReferences [] = Unit
HasDistinctReferences (t ∷ ts) =
    (find (has_reference t.reference) ts ≡ none) × HasDistinctReferences ts

-- What one event does to the ledger: nothing, or one row in front of each table.
abbrev Posts : Db → Db → Type 0
Posts db db' =
    ((db'.transactions ≡ db.transactions) × (db'.entries ≡ db.entries))
    ⊎ ((t : FinancialTransaction) × (x : LedgerEntry) × (db'.transactions ≡ t ∷ db.transactions)
        × (db'.entries ≡ x ∷ db.entries)
        × (find (has_reference t.reference) db.transactions ≡ none))

account_event-Posts : (e : AccountEvent) (db : Db) → Posts db (record_account_event e db).1
unfolding record_account_event ensure_ledger_account post_account_event
account_event-Posts e db = elim (Option-cases (find (has_reference e.reference) db.transactions)) [
  | inr (t, old) ↦ inl (ground arith, ground arith)
  | inl new ↦
      let opened = ensure_ledger_account e.account_code e.currency db in
      inr (
        account_transaction e opened.1,
        account_entry e opened.0 opened.1,
        ground arith,
        ground arith,
        new,
      )
]

wallet_event-Posts : (e : WalletEvent) (db : Db) → Posts db (record_wallet_event e db).1
unfolding record_wallet_event ensure_wallet post_wallet_event
wallet_event-Posts e db = elim (Option-cases (find (has_reference e.reference) db.transactions)) [
  | inr (t, old) ↦ inl (ground arith, ground arith)
  | inl new ↦
      let opened = ensure_wallet e.user_id e.currency db in
      inr (
        wallet_transaction e opened.1,
        wallet_entry e opened.0 opened.1,
        ground arith,
        ground arith,
        new,
      )
]

-- The ledger of `start`, with more rows, and no reference twice where none was.
pub record Grows (start db : Db) : Type 0 where
  pub transactions_grow : Extends start.transactions db.transactions
  pub entries_grow : Extends start.entries db.entries
  pub distinct : HasDistinctReferences start.transactions → HasDistinctReferences db.transactions

Posts-Grows : (start db db' : Db) → Grows start db → Posts db db' → Grows start db'
Posts-Grows start db db' g (inl (t, e)) = record {
  transactions_grow = rw t g.transactions_grow;
  entries_grow = rw e g.entries_grow;
  distinct = λ h. rw t (g.distinct h);
}
Posts-Grows start db db' g (inr (t, x, te, ee, new)) = record {
  transactions_grow =
      Extends-cons start.transactions db.transactions db'.transactions t g.transactions_grow te;
  entries_grow = Extends-cons start.entries db.entries db'.entries x g.entries_grow ee;
  distinct = λ h. rw te (new, g.distinct h);
}

pub Writes-Grows : (webhooks : Bool) (start db : Db) → Writes webhooks start db → Grows start db
Writes-Grows webhooks start db Writes.nothing = record {
  transactions_grow = ([], refl);
  entries_grow = ([], refl);
  distinct = λ h. h;
}
Writes-Grows webhooks start db (Writes.account_event db' e w) =
    Posts-Grows start db' _ (Writes-Grows webhooks start db' w) (account_event-Posts e db')
Writes-Grows webhooks start db (Writes.wallet_event db' e w) =
    Posts-Grows start db' _ (Writes-Grows webhooks start db' w) (wallet_event-Posts e db')
Writes-Grows webhooks start db (Writes.other_tables db' _ a ws t e p n w) =
    Posts-Grows start db' db (Writes-Grows webhooks start db' w) (inl (t, e))
Writes-Grows webhooks start db (Writes.event_rows db' _ on a ws t e n w) =
    Posts-Grows start db' db (Writes-Grows webhooks start db' w) (inl (t, e))

account_event-events :
    (e : AccountEvent) (db : Db)
    → (record_account_event e db).1.provider_events ≡ db.provider_events
unfolding record_account_event ensure_ledger_account post_account_event
account_event-events e db = ground arith

wallet_event-events :
    (e : WalletEvent) (db : Db) → (record_wallet_event e db).1.provider_events ≡ db.provider_events
unfolding record_wallet_event ensure_wallet post_wallet_event
wallet_event-events e db = ground arith

-- Without webhooks the rows of the provider's events stay as they are.
pub Writes-provider_events :
    (start db : Db) → Writes false start db → db.provider_events ≡ start.provider_events
Writes-provider_events start db Writes.nothing = refl
Writes-provider_events start db (Writes.account_event db' e w) =
    account_event-events e db' ∙ Writes-provider_events start db' w
Writes-provider_events start db (Writes.wallet_event db' e w) =
    wallet_event-events e db' ∙ Writes-provider_events start db' w
Writes-provider_events start db (Writes.other_tables db' _ a ws t e p n w) =
    p ∙ Writes-provider_events start db' w
Writes-provider_events start db (Writes.event_rows db' _ on a ws t e n w) = absurd (cc on)
