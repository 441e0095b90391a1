-- ===== src/Tests.antt =====
-- The theorems at concrete inputs, with the data and the library interfaces that they run on.
mod Libraries
mod MoneyRuns
mod FinanceData
mod EventRuns
mod LedgerRuns
mod PayoutRuns
mod ShipmentRuns
mod TripRuns
mod OutboxRuns
mod IdempotencyRuns
mod PaystackRuns
mod DeliveryRuns
