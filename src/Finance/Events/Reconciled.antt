-- ===== src/Finance/Events/Reconciled.antt =====
-- Every balance is the sum of its ledger entries, and the two recorders keep it so.
use rydalux_app.Prelude.{
  ℕ, ◌<◌, ◌≤◌, ◌+◌, ◌≡◌, refl, sym, ap, ◌∙◌, if◌then◌else◌, true, List, [], ◌∷◌, some, arith, find,
  update, is_some, ◌==◌, All, String, Option-cases, inl, inr,
}
use rydalux_app.Prelude.Int.{ℤ, pos, ◌+ℤ◌, zero-+ℤ}
use rydalux_app.Finance.State.{Account, Wallet, AccountCode, Db}
use rydalux_app.Finance.Events.Defs.{
  AccountEvent, WalletEvent, has_reference, has_code, new_account, new_wallet, is_account,
  is_wallet, signed_amount, add_to_account, add_to_wallet, ensure_ledger_account,
  post_account_event, record_account_event, ensure_wallet, post_wallet_event, record_wallet_event,
}
-- Every balance is the sum of its ledger entries, and the two recorders keep it so.
use rydalux_app.Prelude.{
  ℕ, ◌<◌, ◌≤◌, ◌+◌, ◌≡◌, refl, sym, ap, ◌∙◌, if◌then◌else◌, true, List, [], ◌∷◌, some, arith, find,
  update, is_some, ◌==◌, All, String, Option-cases, inl, inr,
}
use rydalux_app.Prelude.Int.{ℤ, pos, ◌+ℤ◌, zero-+ℤ}
use rydalux_app.Finance.State.{Account, Wallet, AccountCode, Db}
use rydalux_app.Finance.Events.Defs.{
  AccountEvent, WalletEvent, has_reference, has_code, new_account, new_wallet, is_account,
  is_wallet, signed_amount, add_to_account, add_to_wallet, ensure_ledger_account,
  post_account_event, record_account_event, ensure_wallet, post_wallet_event, record_wallet_event,
}
use rydalux_app.Finance.Events.Balances.{
  account_balance, wallet_balance, account_sum, wallet_sum, account_balance-update,
  account_balance-new, wallet_balance-update, wallet_balance-new,
}

-- Every balance is the sum of the entries on it, and no id is above the next one.
pub record IsReconciled (db : Db) : Type 0 where
  pub accounts_match : (i : ℕ) → account_balance i db.accounts ≡ account_sum i db.entries
  pub wallets_match : (i : ℕ) → wallet_balance i db.wallets ≡ wallet_sum i db.entries
  pub accounts_fresh : All (λ a. a.id < db.next_id) db.accounts
  pub wallets_fresh : All (λ w. w.id < db.next_id) db.wallets

pub accounts_below :
    (m n : ℕ) (rows : List Account) → m ≤ n → All (λ a. a.id < m) rows → All (λ a. a.id < n) rows
accounts_below m n [] h all = tt
accounts_below m n (a ∷ rows) h all = (omega arith, accounts_below m n rows h all.1)

pub wallets_below :
    (m n : ℕ) (ws : List Wallet) → m ≤ n → All (λ w. w.id < m) ws → All (λ w. w.id < n) ws
wallets_below m n [] h all = tt
wallets_below m n (w ∷ ws) h all = (omega arith, wallets_below m n ws h all.1)

-- Books with the same accounts, wallets and entries are reconciled together.
pub other_tables-IsReconciled :
    (db db' : Db)
    → db'.accounts ≡ db.accounts
    → db'.wallets ≡ db.wallets
    → db'.entries ≡ db.entries
    → db.next_id ≤ db'.next_id
    → IsReconciled db
    → IsReconciled db'
other_tables-IsReconciled db db' a w e n h = record {
  accounts_match = λ i. rw (a, e) (h.accounts_match i);
  wallets_match = λ i. rw (w, e) (h.wallets_match i);
  accounts_fresh = rw a (accounts_below _ _ db.accounts n h.accounts_fresh);
  wallets_fresh = rw w (wallets_below _ _ db.wallets n h.wallets_fresh);
}

update-below :
    (k n : ℕ) (x : ℤ) (rows : List Account)
    → All (λ a. a.id < n) rows
    → All (λ a. a.id < n) (update (is_account k) (add_to_account x) rows)
update-below k n x [] all = tt
update-below k n x (a ∷ rows) all = (ground arith, update-below k n x rows all.1)

update_wallets-below :
    (k n : ℕ) (x : ℤ) (ws : List Wallet)
    → All (λ w. w.id < n) ws
    → All (λ w. w.id < n) (update (is_wallet k) (add_to_wallet x) ws)
update_wallets-below k n x [] all = tt
update_wallets-below k n x (w ∷ ws) all = (ground arith, update_wallets-below k n x ws all.1)

-- An account that is found by its code is found by its id.
find-id :
    (c : AccountCode) (rows : List Account) (a : Account)
    → find (has_code c) rows ≡ some a
    → is_some (find (is_account a.id) rows) ≡ true
find-id c [] a h = cc
find-id c (b ∷ rows) a h = ground (arith, find-id c rows a)

find-wallet_id :
    (u : ℕ) (ws : List Wallet) (w : Wallet)
    → find (λ v. v.user_id == u) ws ≡ some w
    → is_some (find (is_wallet w.id) ws) ≡ true
find-wallet_id u [] w h = cc
find-wallet_id u (v ∷ ws) w h = ground (arith, find-wallet_id u ws w)

-- Opening an account or a wallet that holds nothing.
abbrev with_account : AccountCode → String → Db → Db
with_account c s db = record db {
  next_id = db.next_id + 1;
  accounts = new_account db.next_id c s ∷ db.accounts;
}

abbrev with_wallet : ℕ → String → Db → Db
with_wallet u s db = record db {
  next_id = db.next_id + 1;
  wallets = new_wallet db.next_id u s ∷ db.wallets;
}

with_account-IsReconciled :
    (c : AccountCode) (s : String) (db : Db) → IsReconciled db → IsReconciled (with_account c s db)
with_account-IsReconciled c s db h = record {
  accounts_match = λ i.
      account_balance-new (new_account db.next_id c s) db.accounts i refl h.accounts_fresh
      ∙ h.accounts_match i;
  wallets_match = h.wallets_match;
  accounts_fresh = (omega arith, accounts_below _ _ db.accounts (omega arith) h.accounts_fresh);
  wallets_fresh = wallets_below _ _ db.wallets (omega arith) h.wallets_fresh;
}

with_wallet-IsReconciled :
    (u : ℕ) (s : String) (db : Db) → IsReconciled db → IsReconciled (with_wallet u s db)
with_wallet-IsReconciled u s db h = record {
  accounts_match = h.accounts_match;
  wallets_match = λ i.
      wallet_balance-new (new_wallet db.next_id u s) db.wallets i refl h.wallets_fresh
      ∙ h.wallets_match i;
  accounts_fresh = accounts_below _ _ db.accounts (omega arith) h.accounts_fresh;
  wallets_fresh = (omega arith, wallets_below _ _ db.wallets (omega arith) h.wallets_fresh);
}

-- Posting to an account that is there moves its balance and its sum by the same amount.
post_account_event-IsReconciled :
    (e : AccountEvent) (a : Account) (db : Db)
    → IsReconciled db
    → is_some (find (is_account a.id) db.accounts) ≡ true
    → IsReconciled (post_account_event e (a, db)).1
unfolding post_account_event account_sum wallet_sum
post_account_event-IsReconciled e a db h present = record {
  accounts_match = λ i.
      account_balance-update i a.id _ db.accounts present
      ∙ ap
          (λ s. (if a.id == i then signed_amount e.amount_minor e.transaction_type else pos 0) +ℤ s)
          (h.accounts_match i);
  wallets_match = λ i. h.wallets_match i ∙ sym (zero-+ℤ _);
  accounts_fresh =
      accounts_below _ _ _ (omega arith)
        (update-below a.id db.next_id _ db.accounts h.accounts_fresh);
  wallets_fresh = wallets_below _ _ db.wallets (omega arith) h.wallets_fresh;
}

post_wallet_event-IsReconciled :
    (e : WalletEvent) (w : Wallet) (db : Db)
    → IsReconciled db
    → is_some (find (is_wallet w.id) db.wallets) ≡ true
    → IsReconciled (post_wallet_event e (w, db)).1
unfolding post_wallet_event account_sum wallet_sum
post_wallet_event-IsReconciled e w db h present = record {
  accounts_match = λ i. h.accounts_match i ∙ sym (zero-+ℤ _);
  wallets_match = λ i.
      wallet_balance-update i w.id _ db.wallets present
      ∙ ap
          (λ s. (if w.id == i then signed_amount e.amount_minor e.transaction_type else pos 0) +ℤ s)
          (h.wallets_match i);
  accounts_fresh = accounts_below _ _ db.accounts (omega arith) h.accounts_fresh;
  wallets_fresh =
      wallets_below _ _ _ (omega arith)
        (update_wallets-below w.id db.next_id _ db.wallets h.wallets_fresh);
}

found_self : (n : ℕ) → (n == n) ≡ true
found_self n = ground arith

-- From books where every balance is the sum of its entries and every account and wallet has an id
-- below the next one, recording an event on a ledger account leads to such books.
pub record_account_event-IsReconciled :
    (e : AccountEvent) (db : Db) → IsReconciled db → IsReconciled (record_account_event e db).1
unfolding record_account_event ensure_ledger_account
record_account_event-IsReconciled e db h =
    elim (Option-cases (find (has_reference e.reference) db.transactions)) [
      | inr (t, found) ↦ rw (found, record_account_event) h
      | inl missing ↦ elim (Option-cases (find (has_code e.account_code) db.accounts)) [
        | inr (a, found) ↦
            rw (missing, record_account_event, found, ensure_ledger_account)
              (post_account_event-IsReconciled e a db h
                (find-id e.account_code db.accounts a found))
        | inl fresh ↦
            rw (missing, record_account_event, fresh, ensure_ledger_account)
              (post_account_event-IsReconciled e (new_account db.next_id e.account_code e.currency)
                (with_account e.account_code e.currency db)
                (with_account-IsReconciled e.account_code e.currency db h) (ground arith))
      ]
    ]

-- The same holds of recording an event on a driver's wallet: from books where every balance is the
-- sum of its entries and every id is below the next one, it leads to such books.
pub record_wallet_event-IsReconciled :
    (e : WalletEvent) (db : Db) → IsReconciled db → IsReconciled (record_wallet_event e db).1
unfolding record_wallet_event ensure_wallet
record_wallet_event-IsReconciled e db h =
    elim (Option-cases (find (has_reference e.reference) db.transactions)) [
      | inr (t, found) ↦ rw (found, record_wallet_event) h
      | inl missing ↦ elim (Option-cases (find (λ w. w.user_id == e.user_id) db.wallets)) [
        | inr (w, found) ↦
            rw (missing, record_wallet_event, found, ensure_wallet)
              (post_wallet_event-IsReconciled e w db h
                (find-wallet_id e.user_id db.wallets w found))
        | inl fresh ↦
            rw (missing, record_wallet_event, fresh, ensure_wallet)
              (post_wallet_event-IsReconciled e (new_wallet db.next_id e.user_id e.currency)
                (with_wallet e.user_id e.currency db)
                (with_wallet-IsReconciled e.user_id e.currency db h) (ground arith))
      ]
    ]
