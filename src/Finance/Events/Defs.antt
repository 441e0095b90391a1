-- ===== src/Finance/Events/Defs.antt =====
-- The two recorders, and the rows that they create.
use rydalux_app.Prelude.{ℕ, ◌+◌, Bool, Option, none, some, ◌∷◌, String, find, update, holds, ◌==◌}
use rydalux_app.Prelude.Int.{ℤ, pos, neg, ◌+ℤ◌}
use rydalux_app.Finance.State.{
  TransactionType, AccountCode, AccountCode-discrete, AccountType, LedgerEventType, Reference,
  Reference-discrete, ReferenceType, TransactionStatus, Account, Wallet, FinancialTransaction,
  LedgerEntry, WalletTransaction, Db,
}

pub record AccountEvent : Type 0 where
  pub event_type : LedgerEventType
  pub reference : Reference
  pub reference_type : ReferenceType
  pub reference_id : ℕ
  pub payment_id : Option ℕ
  pub payout_id : Option ℕ
  pub trip_id : Option ℕ
  pub currency : String
  pub amount_minor : ℤ
  pub account_code : AccountCode
  pub transaction_type : TransactionType

pub record WalletEvent : Type 0 where
  pub event_type : LedgerEventType
  pub reference : Reference
  pub reference_type : ReferenceType
  pub reference_id : ℕ
  pub payment_id : Option ℕ
  pub payout_id : Option ℕ
  pub trip_id : Option ℕ
  pub user_id : ℕ
  pub currency : String
  pub amount_minor : ℤ
  pub transaction_type : TransactionType

abbrev pub has_reference : Reference → FinancialTransaction → Bool
has_reference r t = holds (Reference-discrete t.reference r)

abbrev pub has_code : AccountCode → Account → Bool
has_code c a = holds (AccountCode-discrete a.code c)

abbrev pub is_account : ℕ → Account → Bool
is_account i a = a.id == i

abbrev pub is_wallet : ℕ → Wallet → Bool
is_wallet i w = w.id == i

-- `LEDGER_ACCOUNTS`
abbrev pub account_type : AccountCode → AccountType
account_type AccountCode.cash_clearing = AccountType.asset
account_type AccountCode.commission_revenue = AccountType.revenue
account_type AccountCode.driver_payable = AccountType.liability
account_type AccountCode.payout_clearing = AccountType.liability

-- What a balance is incremented by: credits add, debits take away, whatever the account's type.
abbrev pub signed_amount : ℤ → TransactionType → ℤ
signed_amount amount TransactionType.debit = neg amount
signed_amount amount TransactionType.credit = amount

abbrev pub new_account : ℕ → AccountCode → String → Account
new_account i code currency = record {
  id = i;
  code = code;
  account_type = account_type code;
  currency = currency;
  balance = pos 0;
}

-- `ensureLedgerAccount`: the row with the code, or a new one.
unfoldable pub ensure_ledger_account : AccountCode → String → Db → Account × Db
ensure_ledger_account code currency db = elim (find (has_code code) db.accounts) [
  | some account ↦ (account, db)
  | none ↦
      let account = new_account db.next_id code currency in
      (account, record db { next_id = db.next_id + 1; accounts = account ∷ db.accounts })
]

-- `balance: { increment }`
abbrev pub add_to_account : ℤ → Account → Account
add_to_account x a = record a { balance = a.balance +ℤ x }

abbrev pub add_to_wallet : ℤ → Wallet → Wallet
add_to_wallet x w = record w { balance = w.balance +ℤ x }

abbrev pub account_transaction : AccountEvent → Db → FinancialTransaction
account_transaction input db = record {
  id = db.next_id;
  event_type = input.event_type;
  reference = input.reference;
  reference_type = input.reference_type;
  reference_id = some input.reference_id;
  payment_id = input.payment_id;
  payout_id = input.payout_id;
  trip_id = input.trip_id;
  currency = input.currency;
  amount = input.amount_minor;
  status = TransactionStatus.posted;
  total_debit = pos 0;
  total_credit = pos 0;
  posted_at = db.now;
  reversed_at = none;
  reversal_reference = none;
  reversal_reference_id = none;
  reversed_by_admin_id = none;
}

abbrev pub account_entry : AccountEvent → Account → Db → LedgerEntry
account_entry input account db = record {
  id = db.next_id + 1;
  wallet_id = none;
  ledger_account_id = some account.id;
  financial_transaction_id = db.next_id;
  event_type = input.event_type;
  transaction_type = input.transaction_type;
  amount = input.amount_minor;
  balance_after = account.balance +ℤ signed_amount input.amount_minor input.transaction_type;
  reference_type = input.reference_type;
  reference_id = some input.reference_id;
}

-- The writes, once the account is known.
unfoldable pub post_account_event : AccountEvent → Account × Db → FinancialTransaction × Db
post_account_event input (account, db) = (
  account_transaction input db,
  record db {
    next_id = db.next_id + 2;
    accounts =
        update (is_account account.id)
          (add_to_account (signed_amount input.amount_minor input.transaction_type)) db.accounts;
    transactions = account_transaction input db ∷ db.transactions;
    entries = account_entry input account db ∷ db.entries;
  },
)

-- A reference that is there already is answered with its transaction.
unfoldable pub record_account_event : AccountEvent → Db → FinancialTransaction × Db
record_account_event input db = elim (find (has_reference input.reference) db.transactions) [
  | some existing ↦ (existing, db)
  | none ↦ post_account_event input (ensure_ledger_account input.account_code input.currency db)
]

abbrev pub new_wallet : ℕ → ℕ → String → Wallet
new_wallet i user currency = record { id = i; user_id = user; currency = currency; balance = pos 0 }

-- The upsert of the user's wallet.
unfoldable pub ensure_wallet : ℕ → String → Db → Wallet × Db
ensure_wallet user currency db = elim (find (λ w. w.user_id == user) db.wallets) [
  | some wallet ↦ (wallet, db)
  | none ↦
      let wallet : Wallet = record {
        id = db.next_id;
        user_id = user;
        currency = currency;
        balance = pos 0;
      } in
      (wallet, record db { next_id = db.next_id + 1; wallets = wallet ∷ db.wallets })
]

abbrev pub wallet_transaction : WalletEvent → Db → FinancialTransaction
wallet_transaction input db = record {
  id = db.next_id;
  event_type = input.event_type;
  reference = input.reference;
  reference_type = input.reference_type;
  reference_id = some input.reference_id;
  payment_id = input.payment_id;
  payout_id = input.payout_id;
  trip_id = input.trip_id;
  currency = input.currency;
  amount = input.amount_minor;
  status = TransactionStatus.posted;
  total_debit = pos 0;
  total_credit = pos 0;
  posted_at = db.now;
  reversed_at = none;
  reversal_reference = none;
  reversal_reference_id = none;
  reversed_by_admin_id = none;
}

abbrev pub wallet_entry : WalletEvent → Wallet → Db → LedgerEntry
wallet_entry input wallet db = record {
  id = db.next_id + 1;
  wallet_id = some wallet.id;
  ledger_account_id = none;
  financial_transaction_id = db.next_id;
  event_type = input.event_type;
  transaction_type = input.transaction_type;
  amount = input.amount_minor;
  balance_after = wallet.balance +ℤ signed_amount input.amount_minor input.transaction_type;
  reference_type = input.reference_type;
  reference_id = some input.reference_id;
}

abbrev pub wallet_row : WalletEvent → Wallet → Db → WalletTransaction
wallet_row input wallet db = record {
  wallet_id = wallet.id;
  financial_transaction_id = db.next_id;
  event_type = input.event_type;
  transaction_type = input.transaction_type;
  amount = input.amount_minor;
  balance_before = wallet.balance;
  balance_after = wallet.balance +ℤ signed_amount input.amount_minor input.transaction_type;
}

unfoldable pub post_wallet_event : WalletEvent → Wallet × Db → FinancialTransaction × Db
post_wallet_event input (wallet, db) = (
  wallet_transaction input db,
  record db {
    next_id = db.next_id + 2;
    wallets =
        update (is_wallet wallet.id)
          (add_to_wallet (signed_amount input.amount_minor input.transaction_type)) db.wallets;
    transactions = wallet_transaction input db ∷ db.transactions;
    entries = wallet_entry input wallet db ∷ db.entries;
    wallet_transactions = wallet_row input wallet db ∷ db.wallet_transactions;
  },
)

unfoldable pub record_wallet_event : WalletEvent → Db → FinancialTransaction × Db
record_wallet_event input db = elim (find (has_reference input.reference) db.transactions) [
  | some existing ↦ (existing, db)
  | none ↦ post_wallet_event input (ensure_wallet input.user_id input.currency db)
]
