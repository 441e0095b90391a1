-- ===== src/Finance.antt =====
-- The finance side of services/api/src/payments: the tables that it writes, and the services over
-- them, one module for each.
pub mod State
pub mod Events
pub mod Writes
pub mod Ledger
pub mod Payments
pub mod Payouts
pub mod Paystack
