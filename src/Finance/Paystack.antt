-- ===== src/Finance/Paystack.antt =====
-- services/api/src/payments/paystack.service.ts over the finance tables: charges, bank accounts,
-- payout transfers, refunds, disputes, the provider's webhooks, and reconciliation.
mod Api
mod Rows
pub mod Charges
pub mod Transfers
pub mod Refunds
pub mod Disputes
pub mod Webhooks
pub mod Reconciliation
pub mod Calls
mod ChargeWrites
pub mod TransferWrites
pub mod RefundWrites
pub mod WebhookWrites
pub mod Books
pub mod Once
pub mod Unapproved
pub mod FullRefund
pub use Api.*
