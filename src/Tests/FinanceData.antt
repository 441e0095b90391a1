-- ===== src/Tests/FinanceData.antt =====
-- A small set of books: three accounts, a payment, a driver and a payout.
use rydalux_app.Prelude.{refl, none, some, [], ◌∷◌, ℕ, arith}
use rydalux_app.Prelude.Int.{pos, ◌+ℤ◌}
use rydalux_app.Finance.State.{
  TransactionType, AccountCode, AccountType, LedgerEventType, Reference, ReferenceType,
  PaymentPhase, TransactionStatus, PaymentStatus, PayoutStatus, Provider, Account,
  FinancialTransaction, LedgerEntry, Payment, Payout, DriverProfile, Db,
}
use rydalux_app.Finance.Events.{AccountEvent, WalletEvent}
use rydalux_app.Finance.Events.Balances.{account_balance, account_sum, wallet_balance, wallet_sum}
use rydalux_app.Finance.Events.Reconciled.{IsReconciled}

abbrev pub cash : Account
cash = record {
  id = 1;
  code = AccountCode.cash_clearing;
  account_type = AccountType.asset;
  currency = "NGN";
  balance = pos 0;
}

abbrev payable : Account
payable = record {
  id = 2;
  code = AccountCode.driver_payable;
  account_type = AccountType.liability;
  currency = "NGN";
  balance = pos 0;
}

abbrev clearing : Account
clearing = record {
  id = 3;
  code = AccountCode.payout_clearing;
  account_type = AccountType.liability;
  currency = "NGN";
  balance = pos 0;
}

abbrev pub driver : DriverProfile
driver = record { id = 4; user_id = 40; payout_account_cooldown_until = none; bank_account = none }

abbrev pub payment : Payment
payment = record {
  id = 5;
  user_id = 50;
  trip_id = 7;
  amount = pos 250050;
  currency = "NGN";
  reference = b'R' ∷ [];
  provider = Provider.mock_paystack;
  status = PaymentStatus.authorized;
  external_id = none;
}

abbrev pub payout : Payout
payout = record {
  id = 6;
  driver_profile_id = 4;
  amount = pos 200000;
  currency = "NGN";
  provider = Provider.mock_paystack;
  status = PayoutStatus.requested;
  provider_reference = none;
  provider_transfer_id = none;
  provider_transfer_code = none;
  transfer_failure_reason = none;
  requested_by_driver_id = some 4;
  approved_by_admin_id = none;
  approved_at = none;
  rejected_by_admin_id = none;
  rejected_at = none;
  rejection_reason = none;
  transfer_initiated_at = none;
  processed_at = none;
  failed_at = none;
  notes = none;
}

abbrev pub books : Db
books = record {
  now = 1000;
  next_id = 10;
  accounts = cash ∷ payable ∷ clearing ∷ [];
  wallets = [];
  transactions = [];
  entries = [];
  wallet_transactions = [];
  payments = payment ∷ [];
  payouts = payout ∷ [];
  drivers = driver ∷ [];
  kyc_checks = [];
  trips = [];
  refunds = [];
  operations = [];
  provider_events = [];
  disputes = [];
  audit_logs = [];
  outbox = [];
}

pub books-IsReconciled : IsReconciled books
unfolding ◌+ℤ◌ account_balance account_sum wallet_balance wallet_sum
books-IsReconciled = record {
  accounts_match = λ i. ground arith;
  wallets_match = λ i. refl;
  accounts_fresh = (omega arith, (omega arith, (omega arith, tt)));
  wallets_fresh = tt;
}

abbrev pub captured_event : AccountEvent
captured_event = record {
  event_type = LedgerEventType.rider_payment_captured;
  reference = Reference.payment_event 5 PaymentPhase.captured;
  reference_type = ReferenceType.payment_row;
  reference_id = 5;
  payment_id = some 5;
  payout_id = none;
  trip_id = some 7;
  currency = "NGN";
  amount_minor = pos 250050;
  account_code = AccountCode.cash_clearing;
  transaction_type = TransactionType.credit;
}

abbrev pub earned_event : WalletEvent
earned_event = record {
  event_type = LedgerEventType.driver_earning_recorded;
  reference = Reference.payment_event 5 PaymentPhase.driver_earning;
  reference_type = ReferenceType.payment_row;
  reference_id = 5;
  payment_id = some 5;
  payout_id = none;
  trip_id = some 7;
  user_id = 40;
  currency = "NGN";
  amount_minor = pos 200040;
  transaction_type = TransactionType.credit;
}

-- A posted transaction with a debit and a credit, and the books that hold it.
abbrev pub transfer : FinancialTransaction
transfer = record {
  id = 8;
  event_type = LedgerEventType.adjustment;
  reference = Reference.manual_adjustment 900;
  reference_type = ReferenceType.manual_adjustment;
  reference_id = none;
  payment_id = none;
  payout_id = none;
  trip_id = none;
  currency = "NGN";
  amount = pos 5000;
  status = TransactionStatus.posted;
  total_debit = pos 5000;
  total_credit = pos 5000;
  posted_at = 900;
  reversed_at = none;
  reversal_reference = none;
  reversal_reference_id = none;
  reversed_by_admin_id = none;
}

abbrev transfer_entry : ℕ → ℕ → TransactionType → LedgerEntry
transfer_entry i account type = record {
  id = i;
  wallet_id = none;
  ledger_account_id = some account;
  financial_transaction_id = 8;
  event_type = LedgerEventType.adjustment;
  transaction_type = type;
  amount = pos 5000;
  balance_after = pos 0;
  reference_type = ReferenceType.manual_adjustment;
  reference_id = none;
}

abbrev pub transferred : Db
transferred = record books {
  transactions = transfer ∷ [];
  entries =
      transfer_entry 9 1 TransactionType.debit ∷ transfer_entry 9 2 TransactionType.credit ∷ [];
}
