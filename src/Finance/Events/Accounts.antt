-- ===== src/Finance/Events/Accounts.antt =====
-- The ids of the ledger accounts: `ensureLedgerAccount` gives each a new one.
use rydalux_app.Prelude.{
  ℕ, ◌+◌, ◌<◌, ◌≤◌, ◌≢◌, true, false, List, [], ◌∷◌, String, find, update, All, if◌then◌else◌,
  arith, Option-cases, inl, inr,
}
use rydalux_app.Prelude.Int.{ℤ}
use rydalux_app.Finance.State.{Account, AccountCode, Db}
use rydalux_app.Finance.Events.Defs.{
  AccountEvent, has_code, has_reference, is_account, add_to_account, ensure_ledger_account,
  post_account_event, record_account_event,
}
use rydalux_app.Finance.Events.Facts.{record_account_event-old, record_account_event-new}

-- No two accounts have one id.
abbrev pub HasDistinctIds : List Account → Type 0
HasDistinctIds [] = Unit
HasDistinctIds (a ∷ rows) = All (λ b. b.id ≢ a.id) rows × HasDistinctIds rows

pub record HasOwnAccounts (db : Db) : Type 0 where
  pub distinct : HasDistinctIds db.accounts
  pub fresh : All (λ a. a.id < db.next_id) db.accounts

pub ids_below : (n : ℕ) (rows : List Account) → All (λ a. a.id < n) rows → All (λ b. b.id ≢ n) rows
ids_below n [] all = tt
ids_below n (a ∷ rows) all = ((λ same. absurd (omega arith)), ids_below n rows all.1)

ids-update :
    (P : ℕ → Type 0) (i : ℕ) (x : ℤ) (rows : List Account)
    → All (λ b. P b.id) rows
    → All (λ b. P b.id) (update (is_account i) (add_to_account x) rows)
ids-update P i x [] all = tt
ids-update P i x (a ∷ rows) all = (
  (elim (is_account i a) as (λ b. P (if b then add_to_account x a else a).id) [
    | true ↦ all.0
    | false ↦ all.0
  ]),
  ids-update P i x rows all.1,
)

distinct-update :
    (i : ℕ) (x : ℤ) (rows : List Account)
    → HasDistinctIds rows
    → HasDistinctIds (update (is_account i) (add_to_account x) rows)
distinct-update i x [] apart = tt
distinct-update i x (a ∷ rows) apart =
    let rest = ids-update (λ n. n ≢ a.id) i x rows apart.0 in
    (
      (elim (is_account i a)
          as (λ b.
            All (λ c. c.id ≢ (if b then add_to_account x a else a).id)
              (update (is_account i) (add_to_account x) rows)) [ true ↦ rest | false ↦ rest ]),
      distinct-update i x rows apart.1,
    )

ids_later :
    (m n : ℕ) (rows : List Account) → m ≤ n → All (λ a. a.id < m) rows → All (λ a. a.id < n) rows
ids_later m n [] h all = tt
ids_later m n (a ∷ rows) h all = (omega (arith, all.0), ids_later m n rows h all.1)

ensure_ledger_account-HasOwnAccounts :
    (code : AccountCode) (currency : String) (db : Db)
    → HasOwnAccounts db
    → HasOwnAccounts (ensure_ledger_account code currency db).1
unfolding ensure_ledger_account
ensure_ledger_account-HasOwnAccounts code currency db own =
    elim (Option-cases (find (has_code code) db.accounts)) [
      | inl missing ↦
          rw (missing, ensure_ledger_account)
            (record {
              distinct = (ids_below db.next_id db.accounts own.fresh, own.distinct);
              fresh = (
                omega arith,
                ids_later db.next_id (db.next_id + 1) db.accounts (omega arith) own.fresh,
              );
            })
      | inr (a, found) ↦ rw (found, ensure_ledger_account) own
    ]

post_account_event-HasOwnAccounts :
    (e : AccountEvent) (a : Account) (db : Db)
    → HasOwnAccounts db
    → HasOwnAccounts (post_account_event e (a, db)).1
unfolding post_account_event
post_account_event-HasOwnAccounts e a db own = record {
  distinct = distinct-update a.id _ db.accounts own.distinct;
  fresh =
      ids-update (λ n. n < db.next_id + 2) a.id _ db.accounts
        (ids_later db.next_id (db.next_id + 2) db.accounts (omega arith) own.fresh);
}

pub record_account_event-HasOwnAccounts :
    (e : AccountEvent) (db : Db) → HasOwnAccounts db → HasOwnAccounts (record_account_event e db).1
record_account_event-HasOwnAccounts e db own =
    elim (Option-cases (find (has_reference e.reference) db.transactions)) [
      | inl missing ↦
          let (a, db') = ensure_ledger_account e.account_code e.currency db in
          rw (record_account_event-new e db missing) (
            post_account_event-HasOwnAccounts e a db'
              (ensure_ledger_account-HasOwnAccounts e.account_code e.currency db own))
      | inr (t, found) ↦ rw (record_account_event-old e db t found) own
    ]
