-- ===== src/Finance/Events/Balances.antt =====
-- The balance of an account or wallet under its two writes, and the sum of the ledger entries on it.
use rydalux_app.Prelude.{
  ℕ, ◌<◌, ◌≡◌, ◌≢◌, refl, true, List, [], ◌∷◌, Option, none, some, arith, find, update, is_some,
  ◌==◌, if◌then◌else◌, some_and, All,
}
use rydalux_app.Prelude.Int.{ℤ, pos, zero-+ℤ, +ℤ_comm, ◌+ℤ◌}
use rydalux_app.Finance.State.{Account, Wallet, LedgerEntry}
use rydalux_app.Finance.Events.Defs.{
  is_account, is_wallet, signed_amount, add_to_account, add_to_wallet,
}

abbrev pub balance_or_zero : Option Account → ℤ
balance_or_zero none = pos 0
balance_or_zero (some a) = a.balance

abbrev pub wallet_or_zero : Option Wallet → ℤ
wallet_or_zero none = pos 0
wallet_or_zero (some w) = w.balance

-- The balance of the account with an id; zero where there is none.
unfoldable pub account_balance : ℕ → List Account → ℤ
account_balance i accounts = balance_or_zero (find (is_account i) accounts)

unfoldable pub wallet_balance : ℕ → List Wallet → ℤ
wallet_balance i wallets = wallet_or_zero (find (is_wallet i) wallets)

-- The entries on an account, credits less debits.
unfoldable pub account_sum : ℕ → List LedgerEntry → ℤ
account_sum i [] = pos 0
account_sum i (e ∷ es) =
    (if some_and (λ j. j == i) e.ledger_account_id
      then signed_amount e.amount e.transaction_type
      else pos 0)
    +ℤ account_sum i es

unfoldable pub wallet_sum : ℕ → List LedgerEntry → ℤ
wallet_sum i [] = pos 0
wallet_sum i (e ∷ es) =
    (if some_and (λ j. j == i) e.wallet_id
      then signed_amount e.amount e.transaction_type
      else pos 0)
    +ℤ wallet_sum i es

account_balance-update_self :
    (i : ℕ) (x : ℤ) (rows : List Account)
    → is_some (find (is_account i) rows) ≡ true
    → account_balance i (update (is_account i) (add_to_account x) rows)
      ≡ account_balance i rows +ℤ x
unfolding account_balance
account_balance-update_self i x [] h = cc
account_balance-update_self i x (a ∷ rows) h = ground (arith, account_balance-update_self i x rows)

account_balance-update_ne :
    (i k : ℕ) (x : ℤ) (rows : List Account)
    → k ≢ i
    → account_balance i (update (is_account k) (add_to_account x) rows) ≡ account_balance i rows
unfolding account_balance
account_balance-update_ne i k x [] h = refl
account_balance-update_ne i k x (a ∷ rows) h =
    ground (arith, account_balance-update_ne i k x rows h)

-- Adding to one account adds to its balance and to no other.
pub account_balance-update :
    (i k : ℕ) (x : ℤ) (rows : List Account)
    → is_some (find (is_account k) rows) ≡ true
    → account_balance i (update (is_account k) (add_to_account x) rows)
      ≡ (if k == i then x else pos 0) +ℤ account_balance i rows
account_balance-update i k x rows h = ground (
  arith,
  account_balance-update_ne i k x rows,
  account_balance-update_self k x rows h,
  zero-+ℤ (account_balance i rows),
  +ℤ_comm (account_balance i rows) x,
)

account_balance-fresh :
    (i : ℕ) (rows : List Account) → All (λ a. a.id < i) rows → account_balance i rows ≡ pos 0
unfolding account_balance
account_balance-fresh i [] h = refl
account_balance-fresh i (a ∷ rows) h = ground (arith, account_balance-fresh i rows h.1)

-- A new account that holds nothing changes no balance.
pub account_balance-new :
    (a : Account) (rows : List Account) (i : ℕ)
    → a.balance ≡ pos 0
    → All (λ b. b.id < a.id) rows
    → account_balance i (a ∷ rows) ≡ account_balance i rows
unfolding account_balance
account_balance-new a rows i z h = ground (arith, account_balance-fresh a.id rows h)

wallet_balance-update_self :
    (i : ℕ) (x : ℤ) (rows : List Wallet)
    → is_some (find (is_wallet i) rows) ≡ true
    → wallet_balance i (update (is_wallet i) (add_to_wallet x) rows) ≡ wallet_balance i rows +ℤ x
unfolding wallet_balance
wallet_balance-update_self i x [] h = cc
wallet_balance-update_self i x (w ∷ rows) h = ground (arith, wallet_balance-update_self i x rows)

wallet_balance-update_ne :
    (i k : ℕ) (x : ℤ) (rows : List Wallet)
    → k ≢ i
    → wallet_balance i (update (is_wallet k) (add_to_wallet x) rows) ≡ wallet_balance i rows
unfolding wallet_balance
wallet_balance-update_ne i k x [] h = refl
wallet_balance-update_ne i k x (w ∷ rows) h = ground (arith, wallet_balance-update_ne i k x rows h)

-- Adding to one wallet adds to its balance and to no other.
pub wallet_balance-update :
    (i k : ℕ) (x : ℤ) (rows : List Wallet)
    → is_some (find (is_wallet k) rows) ≡ true
    → wallet_balance i (update (is_wallet k) (add_to_wallet x) rows)
      ≡ (if k == i then x else pos 0) +ℤ wallet_balance i rows
wallet_balance-update i k x rows h = ground (
  arith,
  wallet_balance-update_ne i k x rows,
  wallet_balance-update_self k x rows h,
  zero-+ℤ (wallet_balance i rows),
  +ℤ_comm (wallet_balance i rows) x,
)

wallet_balance-fresh :
    (i : ℕ) (rows : List Wallet) → All (λ v. v.id < i) rows → wallet_balance i rows ≡ pos 0
unfolding wallet_balance
wallet_balance-fresh i [] h = refl
wallet_balance-fresh i (w ∷ rows) h = ground (arith, wallet_balance-fresh i rows h.1)

-- A new wallet that holds nothing changes no balance.
pub wallet_balance-new :
    (w : Wallet) (rows : List Wallet) (i : ℕ)
    → w.balance ≡ pos 0
    → All (λ v. v.id < w.id) rows
    → wallet_balance i (w ∷ rows) ≡ wallet_balance i rows
unfolding wallet_balance
wallet_balance-new w rows i z h = ground (arith, wallet_balance-fresh w.id rows h)
