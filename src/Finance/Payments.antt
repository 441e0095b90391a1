-- ===== src/Finance/Payments.antt =====
-- The payment of a trip, in services/api/src/payments/payments.service.ts: created when the trip is,
-- authorized when a driver accepts, captured when the trip completes.
pub mod Split
pub mod Capture
use rydalux_app.Prelude.{
  same_text, any, ℕ, ◌+◌, ⊤, Bool, true, false, not, ◌&&◌, ◌||◌, Option, none, some, List, [], ◌∷◌,
  ◌++◌, String, find, update, ◌==◌, is_some, is_none, some_and, if◌then◌else◌,
}
use rydalux_app.Prelude.Int.{ℤ, pos, ◌-ℤ◌}
use rydalux_app.Money.{Text, codes, base36, driver_earnings_bps, calculate_share}
use rydalux_app.Money.Column.{DecimalText, read_column}
use rydalux_app.Service.{
  Action, Result, ok, err, bad_request, forbidden, not_found, internal, pure, gets, or_raise,
  raise_if, modify, transaction, ◌>>=◌, ◌>>◌,
}
use rydalux_app.Finance.State.{
  TransactionType, AccountCode, LedgerEventType, PaymentPhase, PayoutPhase, Reference,
  ReferenceType, PaymentStatus, PayoutStatus, Provider, Payment, Payout, DriverProfile, TripFare,
  AuditAction, Db,
}
use rydalux_app.Finance.Events.{
  AccountEvent, WalletEvent, record_account_event, record_wallet_event,
}

abbrev pub is_payment : ℕ → Payment → Bool
is_payment i p = p.id == i

abbrev pub for_trip : ℕ → Payment → Bool
for_trip trip p = p.trip_id == trip

abbrev pub audit : Option ℕ → AuditAction → ℕ → Db → Db
audit actor action entity db = record db {
  audit_logs = record { actor_id = actor; action = action; entity_id = entity } ∷ db.audit_logs;
}

-- An event of a payment on a platform account, as the service writes it.
abbrev pub payment_event :
    LedgerEventType → PaymentPhase → Payment → AccountCode → TransactionType → ℤ → AccountEvent
payment_event event phase p code type amount = record {
  event_type = event;
  reference = Reference.payment_event p.id phase;
  reference_type = ReferenceType.payment_row;
  reference_id = p.id;
  payment_id = some p.id;
  payout_id = none;
  trip_id = some p.trip_id;
  currency = p.currency;
  amount_minor = amount;
  account_code = code;
  transaction_type = type;
}

-- `RYD-PAY-` and the time in base 36.
abbrev pub payment_reference : ℕ → Text
payment_reference now = codes "RYD-PAY-" ++ base36 now

abbrev pub pending_payment : ℕ → ℕ → ℤ → Db → Payment
pending_payment user trip amount db = record {
  id = db.next_id;
  user_id = user;
  trip_id = trip;
  amount = amount;
  currency = "NGN";
  reference = payment_reference db.now;
  provider = Provider.mock_paystack;
  status = PaymentStatus.pending;
  external_id = none;
}

-- A create of a payment whose reference is taken violates the unique constraint.
abbrev pub insert_payment : Payment → Action Db ⊤
insert_payment payment = do
  taken ← gets (λ db. any (λ p. same_text p.reference payment.reference) db.payments)
  raise_if taken (internal "P2002")
  modify (λ db. record db { next_id = db.next_id + 1; payments = payment ∷ db.payments })

module _ ⦃decimal : DecimalText⦄ where
  -- The create in `initiateMockPayment`, its event and its audit log.
  unfoldable pub create_payment : ℕ → ℕ → ℤ → Action Db Payment
  create_payment user trip amount = do
    payment ← gets (pending_payment user trip amount)
    insert_payment payment
    amount_minor ← or_raise (read_column payment.amount) (internal "SyntaxError")
    modify λ db.
        (record_account_event
          (payment_event LedgerEventType.rider_payment_pending PaymentPhase.pending payment
            AccountCode.cash_clearing TransactionType.credit amount_minor)
          db).1
    modify (audit (some user) AuditAction.payment_pending payment.id)
    pure payment

  -- `initiateMockPayment`: a trip that has a payment already is answered with it.
  unfoldable pub initiate_mock_payment : ℕ → ℕ → Action Db Payment
  unfolding create_payment
  initiate_mock_payment user trip_id = do
    trips ← gets (λ db. db.trips)
    trip ← or_raise (find (λ t. t.id == trip_id) trips) (not_found "Trip not found.")
    raise_if (not (some_and (λ u. u == user) trip.rider_user_id)) (forbidden "Access denied.")
    total_fare ← or_raise trip.total_fare (bad_request "No fare quote for this trip.")
    payments ← gets (λ db. db.payments)
    elim (find (for_trip trip_id) payments) [
      | some payment ↦ pure payment
      | none ↦ transaction (create_payment user trip_id total_fare)
    ]

  -- The writes of `authorizePaymentForTrip` on a payment that is pending.
  unfoldable pub authorize_payment : Payment → Action Db ⊤
  authorize_payment payment = do
    modify λ db. record db {
      payments =
          update (is_payment payment.id) (λ p. record p { status = PaymentStatus.authorized })
            db.payments;
    }
    amount_minor ← or_raise (read_column payment.amount) (internal "SyntaxError")
    modify λ db.
        (record_account_event
          (payment_event LedgerEventType.rider_payment_authorized PaymentPhase.authorized payment
            AccountCode.cash_clearing TransactionType.credit amount_minor)
          db).1
    modify (audit none AuditAction.payment_authorized payment.id)

abbrev pub is_pending : PaymentStatus → Bool
is_pending PaymentStatus.pending = true
is_pending _ = false

abbrev pub is_capturable : PaymentStatus → Bool
is_capturable PaymentStatus.pending = true
is_capturable PaymentStatus.authorized = true
is_capturable _ = false

abbrev pub is_paystack : Provider → Bool
is_paystack Provider.paystack = true
is_paystack _ = false

module _ ⦃decimal : DecimalText⦄ where
  -- `authorizePaymentForTrip`
  unfoldable pub authorize_payment_for_trip : ℕ → Action Db ⊤
  unfolding authorize_payment
  authorize_payment_for_trip trip_id = transaction do
    payments ← gets (λ db. db.payments)
    elim (find (for_trip trip_id) payments) [
      | none ↦ pure tt
      | some payment ↦ if is_pending payment.status then authorize_payment payment else pure tt
    ]

abbrev pub earning_event : Payment → ℕ → ℤ → WalletEvent
earning_event p user amount = record {
  event_type = LedgerEventType.driver_earning_recorded;
  reference = Reference.payment_event p.id PaymentPhase.driver_earning;
  reference_type = ReferenceType.payment_row;
  reference_id = p.id;
  payment_id = some p.id;
  payout_id = none;
  trip_id = some p.trip_id;
  user_id = user;
  currency = p.currency;
  amount_minor = amount;
  transaction_type = TransactionType.credit;
}

abbrev pub capture_payout : Payment → ℕ → ℤ → ℕ → Payout
capture_payout p driver amount i = record {
  id = i;
  driver_profile_id = driver;
  amount = amount;
  currency = p.currency;
  provider = p.provider;
  status = PayoutStatus.requested;
  provider_reference = none;
  provider_transfer_id = none;
  provider_transfer_code = none;
  transfer_failure_reason = none;
  requested_by_driver_id = none;
  approved_by_admin_id = none;
  approved_at = none;
  rejected_by_admin_id = none;
  rejected_at = none;
  rejection_reason = none;
  transfer_initiated_at = none;
  processed_at = none;
  failed_at = none;
  notes = none;
}

abbrev pub payout_pending_event : Payment → Payout → ℤ → AccountEvent
payout_pending_event p payout amount = record {
  event_type = LedgerEventType.driver_payout_pending;
  reference = Reference.payout_event payout.id PayoutPhase.pending;
  reference_type = ReferenceType.payout_row;
  reference_id = payout.id;
  payment_id = some p.id;
  payout_id = some payout.id;
  trip_id = some p.trip_id;
  currency = payout.currency;
  amount_minor = amount;
  account_code = AccountCode.payout_clearing;
  transaction_type = TransactionType.credit;
}

-- The driver's earning in a capture, where the profile is found.
abbrev pub earned_db : Payment → ℤ → Db → Option DriverProfile → Db
earned_db p amount db none = db
earned_db p amount db (some profile) =
    (record_account_event
      (payment_event LedgerEventType.driver_earning_recorded PaymentPhase.driver_payable p
        AccountCode.driver_payable TransactionType.credit amount)
      (record_wallet_event (earning_event p profile.user_id amount) db).1).1

-- The driver's part of a capture: the earning, and the payout, with a profile or without.
unfoldable pub pay_driver : Payment → ℕ → ℤ → Db → Db
pay_driver p driver amount db =
    let earned = earned_db p amount db (find (λ d. d.id == driver) db.drivers) in
    let payout = capture_payout p driver amount earned.next_id in
    (record_account_event (payout_pending_event p payout amount)
      (record earned { next_id = earned.next_id + 1; payouts = payout ∷ earned.payouts })).1

-- `driverMinor`, and the commission that is what is left.
abbrev pub driver_minor : ℤ → ℤ
driver_minor gross = calculate_share gross driver_earnings_bps

abbrev pub commission_minor : ℤ → ℤ
commission_minor gross = gross -ℤ driver_minor gross

-- The two account events of a capture.
unfoldable pub record_capture : Payment → ℤ → Db → Db
record_capture p gross db =
    (record_account_event
      (payment_event LedgerEventType.platform_commission_recorded PaymentPhase.commission p
        AccountCode.commission_revenue TransactionType.credit (commission_minor gross))
      (record_account_event
        (payment_event LedgerEventType.rider_payment_captured PaymentPhase.captured p
          AccountCode.cash_clearing TransactionType.credit gross)
        db).1).1

abbrev pub mark_captured : Payment → Db → Db
mark_captured p db = record db {
  payments =
      update (is_payment p.id) (λ q. record q { status = PaymentStatus.captured }) db.payments;
}

module _ ⦃decimal : DecimalText⦄ where
  -- The writes of `capturePaymentForTrip` on a payment that it captures.
  unfoldable pub capture_payment : Payment → Option ℕ → Action Db ⊤
  capture_payment payment driver_profile_id = do
    modify (mark_captured payment)
    gross ← or_raise (read_column payment.amount) (internal "SyntaxError")
    modify (record_capture payment gross)
    modify λ db. elim driver_profile_id [
      | none ↦ db
      | some driver ↦ pay_driver payment driver (driver_minor gross) db
    ]
    modify (audit none AuditAction.payment_captured payment.id)

  -- `capturePaymentForTrip`; a Paystack payment waits for its external id.
  unfoldable pub capture_payment_for_trip : ℕ → Option ℕ → Action Db ⊤
  capture_payment_for_trip trip_id driver_profile_id = transaction do
    payments ← gets (λ db. db.payments)
    elim (find (for_trip trip_id) payments) [
      | none ↦ pure tt
      | some payment ↦
          if is_capturable payment.status
            && not (is_paystack payment.provider && is_none payment.external_id)
          then capture_payment payment driver_profile_id
          else pure tt
    ]
