-- ===== src/Finance/Paystack/Charges.antt =====
-- Charges: a payment that the provider collects, the two events of its charge, and the bank account
-- that a driver is paid on.
use rydalux_app.Prelude.{
  ℕ, Bool, true, false, not, ◌&&◌, Option, none, some, find, ◌==◌, is_some, some_and, if◌then◌else◌,
  ◌++◌,
}
use rydalux_app.Prelude.Int.{ℤ}
use rydalux_app.Money.{Text, codes, format_nat}
use rydalux_app.Money.Column.{DecimalText, read_column}
use rydalux_app.Service.{
  Action, bad_request, forbidden, not_found, internal, pure, raise, gets, or_raise, raise_if,
  modify, transaction, ◌>>=◌, ◌>>◌,
}
use rydalux_app.Finance.State.{
  TransactionType, AccountCode, LedgerEventType, PaymentPhase, PaymentStatus, Provider, Payment,
  BankAccount, TripFare, AuditAction, WebhookData, Db,
}
use rydalux_app.Finance.Events.{record_account_event}
use rydalux_app.Finance.Payments.{
  audit, for_trip, payment_event, pending_payment, insert_payment, is_pending,
  capture_payment_for_trip,
}
use rydalux_app.Finance.Payouts.{is_user, last4}
use rydalux_app.Finance.Paystack.Api.{
  PaystackApi, VerificationData, VerificationResponse, InitializeResponse, is_text, non_empty,
}
use rydalux_app.Finance.Paystack.Rows.{
  payment_with_reference, update_payment, set_bank_account, is_settled,
}

-- The answer of `initiatePaystackPayment`.
pub record Checkout : Type 0 where
  pub payment : Payment
  pub authorization_url : Option Text
  pub access_code : Option Text

abbrev pub no_checkout : Payment → Checkout
no_checkout p = record { payment = p; authorization_url = none; access_code = none }

-- The row that the service creates: a mock payment's but for the provider.
abbrev pub paystack_payment : ℕ → ℕ → ℤ → Db → Payment
paystack_payment user trip amount db = record (pending_payment user trip amount db) {
  provider = Provider.paystack;
}

module _ ⦃decimal : DecimalText⦄ where
  unfoldable pub create_paystack_payment : ℕ → ℕ → ℤ → Action Db Payment
  create_paystack_payment user trip amount = do
    payment ← gets (paystack_payment user trip amount)
    insert_payment payment
    amount_minor ← or_raise (read_column payment.amount) (internal "SyntaxError")
    modify λ db.
        (record_account_event
          (payment_event LedgerEventType.rider_payment_pending PaymentPhase.pending payment
            AccountCode.cash_clearing TransactionType.credit amount_minor)
          db).1
    modify (audit (some user) AuditAction.payment_pending payment.id)
    pure payment

-- The provider's page, where the answer has one; every other answer throws.
unfoldable pub checkout : Payment → Option InitializeResponse → Action Db Checkout
checkout payment none = raise (bad_request "Paystack initialization failed.")
checkout payment (some r) =
    if r.status && is_some (non_empty r.authorization_url)
    then pure (record {
      payment = payment;
      authorization_url = r.authorization_url;
      access_code = r.access_code;
    })
    else raise (bad_request "Paystack initialization failed.")

module _ ⦃decimal : DecimalText⦄ ⦃api : PaystackApi⦄ where
  -- The call of the provider, once the payment is stored.
  unfoldable pub initialize_payment : ℕ → ℤ → Payment → Action Db Checkout
  unfolding checkout
  initialize_payment user total_fare payment =
      if api.has_secret_key
      then (do
        email ←
            or_raise (non_empty (api.user_email user))
              (bad_request "Rider email is required to initialize Paystack payment.")
        amount_kobo ← or_raise (read_column total_fare) (internal "SyntaxError")
        checkout payment (api.initialize email amount_kobo payment.reference))
      else pure (no_checkout payment)

  -- `initiatePaystackPayment` on a trip that has no payment.
  unfoldable pub start_paystack_payment : ℕ → ℕ → ℤ → Option Payment → Action Db Checkout
  start_paystack_payment user trip_id total_fare (some payment) = pure (no_checkout payment)
  start_paystack_payment user trip_id total_fare none = do
    payment ← transaction (create_paystack_payment user trip_id total_fare)
    initialize_payment user total_fare payment

  unfoldable pub initiate_paystack_payment : ℕ → ℕ → Action Db Checkout
  initiate_paystack_payment user trip_id = do
    trips ← gets (λ db. db.trips)
    trip ← or_raise (find (λ t. t.id == trip_id) trips) (not_found "Trip not found.")
    raise_if (not (some_and (λ u. u == user) trip.rider_user_id)) (forbidden "Access denied.")
    total_fare ← or_raise trip.total_fare (bad_request "No fare quote for this trip.")
    payments ← gets (λ db. db.payments)
    start_paystack_payment user trip_id total_fare (find (for_trip trip_id) payments)

-- `verification.data` of a verification that says `success`.
abbrev pub successful : Option VerificationResponse → Option VerificationData
successful none = none
successful (some v) =
    if v.status && some_and (λ d. is_text "success" d.status) v.verified then v.verified else none

-- What a verified charge writes on its payment. A payment that is not pending keeps its status.
abbrev pub verified_payment : VerificationData → Payment → Payment
verified_payment verified p = record p {
  external_id = some verified.id;
  status = if is_pending p.status then PaymentStatus.authorized else p.status;
}

module _ ⦃decimal : DecimalText⦄ where
  -- A completed trip's payment is captured at once.
  unfoldable pub capture_completed : Option TripFare → Action Db Bool
  capture_completed none = pure true
  capture_completed (some trip) =
      if trip.completed
      then capture_payment_for_trip trip.id trip.driver_profile_id >> pure true
      else pure true

  unfoldable pub settle_charge : VerificationData → Option Payment → Action Db Bool
  settle_charge verified none = pure true
  settle_charge verified (some payment) = if is_settled payment.status then pure true else (do
    modify (update_payment payment.id (verified_payment verified))
    trips ← gets (λ db. db.trips)
    capture_completed (find (λ t. t.id == payment.trip_id) trips))

  unfoldable pub verified_charge : Text → Option VerificationData → Action Db Bool
  verified_charge reference none = pure false
  verified_charge reference (some verified) = do
    payments ← gets (λ db. db.payments)
    settle_charge verified (find (payment_with_reference reference) payments)

  module _ ⦃api : PaystackApi⦄ where
    -- `verifyTransaction` throws where no key is configured.
    abbrev pub verify_transaction : Text → Option VerificationResponse
    verify_transaction reference = if api.has_secret_key then api.verify reference else none

    unfoldable pub charge_success_of : Option Text → Action Db Bool
    charge_success_of none = pure false
    charge_success_of (some reference) =
        verified_charge reference (successful (verify_transaction reference))

    -- `handleChargeSuccess`: what the webhook says of the amount is not read, nor is what the
    -- verification says of it.
    unfoldable pub handle_charge_success : WebhookData → Action Db Bool
    handle_charge_success body = charge_success_of (non_empty body.reference)

unfoldable pub fail_charge : Option Payment → Action Db Bool
fail_charge none = pure true
fail_charge (some payment) = if is_settled payment.status then pure true else (do
  modify (update_payment payment.id (λ p. record p { status = PaymentStatus.failed }))
  modify (audit none AuditAction.payment_failed payment.id)
  pure true)

unfoldable pub charge_failed_of : Option Text → Action Db Bool
charge_failed_of none = pure false
charge_failed_of (some reference) = do
  payments ← gets (λ db. db.payments)
  fail_charge (find (payment_with_reference reference) payments)

-- `handleChargeFailed`
unfoldable pub handle_charge_failed : WebhookData → Action Db Bool
handle_charge_failed body = charge_failed_of (non_empty body.reference)

-- The upserted account: a stored one keeps what the columns of its verification say.
abbrev pub saved_account : Option BankAccount → Text → Text → Text → Text → BankAccount
saved_account stored bank_code account_name account_number recipient = record {
  bank_code = bank_code;
  account_name = account_name;
  account_number_last4 = last4 account_number;
  recipient_code = some recipient;
  verified_at = elim stored [ none ↦ none | some b ↦ b.verified_at ];
  re_auth_required_at = elim stored [ none ↦ none | some b ↦ b.re_auth_required_at ];
}

module _ ⦃api : PaystackApi⦄ where
  -- `createTransferRecipient`
  unfoldable pub create_transfer_recipient : Text → Text → Text → Action Db Text
  create_transfer_recipient bank_code account_name account_number = do
    response ←
        or_raise (api.create_recipient account_name account_number bank_code) (internal "HttpError")
    or_raise (if response.status then non_empty response.recipient_code else none)
        (bad_request "Paystack transfer recipient creation failed")

  unfoldable pub recipient_code : Text → Text → Text → ℕ → Action Db Text
  recipient_code bank_code account_name account_number driver =
      if api.has_secret_key
      then create_transfer_recipient bank_code account_name account_number
      else pure (codes "mock-recipient-" ++ format_nat driver)

  -- `saveDriverBankAccount`
  unfoldable pub save_driver_bank_account : ℕ → Text → Text → Text → Action Db BankAccount
  save_driver_bank_account user bank_code account_name account_number = do
    drivers ← gets (λ db. db.drivers)
    driver ← or_raise (find (is_user user) drivers) (not_found "Driver profile not found.")
    recipient ← recipient_code bank_code account_name account_number driver.id
    let account = saved_account driver.bank_account bank_code account_name account_number recipient
    modify (set_bank_account driver.id account)
    pure account

-- `getDriverBankAccount`
unfoldable pub get_driver_bank_account : ℕ → Action Db (Option BankAccount)
get_driver_bank_account user = do
  drivers ← gets (λ db. db.drivers)
  driver ← or_raise (find (is_user user) drivers) (not_found "Driver profile not found.")
  pure driver.bank_account
