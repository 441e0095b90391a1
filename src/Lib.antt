-- ===== src/Lib.antt =====
-- RYDALUX: the payment, payout, refund, trip, shipment, outbox and idempotency logic of the API in services/api/src.
--
-- The API is a NestJS server over one SQL database. Its services read and write tables through a
-- database client, throw HTTP exceptions, and group writes in transactions that a throw rolls back.
-- Here a table is a list of records, a service's state is the record of the tables that it uses, a
-- call is a function from the state to a result and a state (Service), and an exception is a value.
-- What was written before a throw stays written unless the call is in a transaction.
--
-- Prelude: names of the libraries, Boolean tests, lists, options and integers for all files.
-- Money: decimalToMinorUnits, minorUnitsToDecimal and calculateShare of
--   services/api/src/payments/payments.service.ts. Amounts are integers of minor units, texts are
--   lists of code units. Column has the interface to the text of a Decimal column.
-- Finance/State and Finance/Events: the finance tables, and recordAccountEvent and
--   recordWalletEvent, through which every service writes the ledger. A reference text is a value of
--   a data type, one constructor for each template that the code fills in. Events/Abstract has the
--   view by account codes and booked references, Events/Accounts the ids of the accounts.
-- Finance/Ledger: services/api/src/payments/ledger.service.ts: validateLedgerBalance,
--   createReversal, recordManualAdjustment, preventEntryModification.
-- Finance/Payments: initiateMockPayment, authorizePaymentForTrip and capturePaymentForTrip.
-- Finance/Payouts: services/api/src/payments/payouts.service.ts: the driver's requests (Defs) and
--   the admin's calls (Admin), which record events and validate them through the ledger service.
-- Finance/Paystack: services/api/src/payments/paystack.service.ts: payments, bank accounts and charge
--   events (Charges), transfers to drivers (Transfers), refunds (Refunds), disputes (Disputes), the
--   provider's webhooks with recordProviderEvent (Webhooks), and runManualReconciliation
--   (Reconciliation). The provider's HTTP interface is a parameter (Api). Calls has all calls that
--   write, in sequences. Finance/Writes is the relation of what they may write on the tables, and
--   Service/Keeps the rules by which each call is shown to keep to it.
-- Shipments: shipment-state-machine.ts (Machine), shipment-otp.service.ts (Otp) and
--   shipments.service.ts (Service) of services/api/src/shipments: the calls of the driver whom a
--   shipment is assigned to, cancelShipment, and the calls of admins, over its trip, codes and
--   payment. bcrypt is an interface, and random draws are arguments.
-- Trips: transition, acceptDispatch and rejectDispatch of services/api/src/trips/trips.service.ts; a
--   trip that completes captures its payment through Finance/Payments.
-- Outbox: services/api/src/outbox/outbox.service.ts, with its rows oldest first. DeadLetter has the
--   tries of one event, each at a time at which it is due.
-- Idempotency: services/api/src/idempotency/idempotency.service.ts around a handler on any world;
--   Replay is about what is answered again, Lock about requests that come meanwhile.
--
-- The clock is a field of the state and stands still during a call; theorems about later calls set
-- it. Ids are numbers, given out in order. Nothing here runs on fuel: every loop of the modelled
-- code goes once through a list. Integers are unbounded, as bigint is; times and counts are natural
-- numbers below the limits of exact doubles.
--
-- Not modelled: dispatching a trip to drivers and locating them, quotes and the creation of
-- shipments, the Flutterwave client, the HTTP requests that Paystack is sent beside their amounts
-- and references, authentication, drivers, support and safety records, listings and reports,
-- controllers, the console and the mobile app. Descriptions, metadata and the values that an
-- exception's message interpolates are left out, since no modelled code reads them. A payment always
-- has a trip here (the schema lets it have a shipment instead), and the rows that the payment services
-- read of a trip are a table of their own, which the calls on trips do not write.
pub mod Prelude
pub mod Money
pub mod Service
pub mod Finance
pub mod Shipments
pub mod Outbox
pub mod Idempotency
pub mod Trips
pub mod Tests
