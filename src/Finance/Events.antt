-- ===== src/Finance/Events.antt =====
-- `recordAccountEvent` and `recordWalletEvent` of services/api/src/payments/payments.service.ts: one
-- financial transaction with one ledger entry, and the balance that it moves. Neither throws.
mod Defs
pub mod Facts
pub mod Abstract
pub mod Accounts
pub mod Balances
pub mod Reconciled
pub use Defs.{AccountEvent, WalletEvent}
unfoldable pub use Defs.{
  has_reference, has_code, is_account, is_wallet, signed_amount, add_to_account, new_account,
  account_entry, account_transaction, wallet_entry, wallet_transaction, ensure_ledger_account,
  post_account_event, record_account_event, ensure_wallet, post_wallet_event, record_wallet_event,
}
