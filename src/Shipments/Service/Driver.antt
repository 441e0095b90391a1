-- ===== src/Shipments/Service/Driver.antt =====
-- The driver's calls on a shipment, and the sender's cancellation.
use rydalux_app.Prelude.{ℕ, Bool, not, none, some, List, ◌∷◌, find, any, ◌==◌}
use rydalux_app.Money.{Text}
use rydalux_app.Money.Column.{DecimalText}
use rydalux_app.Service.{
  Action, Error, bad_request, forbidden, not_found, pure, raise, gets, or_raise, raise_if, modify,
  attempt, ◌>>=◌, ◌>>◌,
}
use rydalux_app.Finance.Payments.{capture_payment_for_trip}
use rydalux_app.Trips.{Trip, TripStatus, TripEventType, transition}
use rydalux_app.Shipments.Machine.{
  ShipmentStatus, is_status, can_be_cancelled, is_in_delivery_phase, OtpType,
}
use rydalux_app.Shipments.Otp.{Bcrypt, verify_otp}
use rydalux_app.Shipments.Service.Defs.{
  Shipment, TrackingType, ShipmentProof, ShipmentStore, is_shipment, update_shipment, clock,
  record_tracking_event, in_trips, in_otps, in_finance, set_trip, add_trip_event,
  resolve_driver_shipment, trip_driver,
}

abbrev pub set_status : ShipmentStatus → Shipment → Shipment
set_status status s = record s { status = status }

module _ ⦃decimal : DecimalText⦄ where
  unfoldable pub arrive_at_pickup : ℕ → ℕ → Action ShipmentStore ShipmentStatus
  arrive_at_pickup shipment_id user = do
    shipment ← resolve_driver_shipment shipment_id user
    in_trips (transition shipment.trip_id (some user) TripStatus.driver_arrived none)
    modify (update_shipment shipment_id (set_status ShipmentStatus.pickup_arrived))
    modify (
        record_tracking_event shipment_id TrackingType.status_changed ShipmentStatus.pickup_arrived)
    pure ShipmentStatus.pickup_arrived

  -- The trip is moved to PIN_VERIFIED with no PIN.
  unfoldable pub start_shipment : ℕ → ℕ → Action ShipmentStore ShipmentStatus
  start_shipment shipment_id user = do
    shipment ← resolve_driver_shipment shipment_id user
    raise_if (not (is_status shipment.status ShipmentStatus.pickup_verified))
        (bad_request "Cannot start shipment until pickup OTP is verified.")
    in_trips (transition shipment.trip_id (some user) TripStatus.pin_verified none)
    in_trips (transition shipment.trip_id (some user) TripStatus.in_progress none)
    modify (update_shipment shipment_id (set_status ShipmentStatus.in_transit))
    modify (record_tracking_event shipment_id TrackingType.status_changed ShipmentStatus.in_transit)
    pure ShipmentStatus.in_transit

unfoldable pub arrive_at_delivery : ℕ → ℕ → Action ShipmentStore ShipmentStatus
arrive_at_delivery shipment_id user = do
  shipment ← resolve_driver_shipment shipment_id user
  raise_if (not (is_status shipment.status ShipmentStatus.in_transit))
      (bad_request "Cannot mark delivery arrival unless shipment is in transit.")
  modify (update_shipment shipment_id (set_status ShipmentStatus.delivery_arrived))
  modify (
      record_tracking_event shipment_id TrackingType.status_changed ShipmentStatus.delivery_arrived)
  pure ShipmentStatus.delivery_arrived

-- What a verified code makes of the shipment.
abbrev pub verified_status : OtpType → ShipmentStatus
verified_status OtpType.pickup = ShipmentStatus.pickup_verified
verified_status OtpType.delivery = ShipmentStatus.delivery_verified

abbrev pub verified_shipment : OtpType → ℕ → Shipment → Shipment
verified_shipment OtpType.pickup now s = record s {
  status = ShipmentStatus.pickup_verified;
  pickup_verified_at = some now;
}
verified_shipment OtpType.delivery now s = record s {
  status = ShipmentStatus.delivery_verified;
  delivery_verified_at = some now;
}

module _ ⦃bcrypt : Bcrypt⦄ where
  unfoldable pub try_code : ℕ → OtpType → Text → Action ShipmentStore ShipmentStatus
  try_code shipment_id type code = do
    in_otps (verify_otp shipment_id type code)
    modify (λ s. update_shipment shipment_id (verified_shipment type (clock s)) s)
    modify (record_tracking_event shipment_id TrackingType.otp_verified (verified_status type))
    pure (verified_status type)

  unfoldable pub refuse_code : ℕ → ShipmentStatus → Error → Action ShipmentStore ShipmentStatus
  refuse_code shipment_id status error =
      modify (record_tracking_event shipment_id TrackingType.otp_failed status) >> raise error

  -- What `verifyPickupOtp` and `verifyDeliveryOtp` both are, by the code's type.
  unfoldable pub verify_shipment_otp : OtpType → ℕ → ℕ → Text → Action ShipmentStore ShipmentStatus
  verify_shipment_otp type shipment_id user code = do
    shipment ← resolve_driver_shipment shipment_id user
    attempt (try_code shipment_id type code) (refuse_code shipment_id shipment.status)

  unfoldable pub verify_pickup_otp : ℕ → ℕ → Text → Action ShipmentStore ShipmentStatus
  verify_pickup_otp shipment_id user code = verify_shipment_otp OtpType.pickup shipment_id user code

  unfoldable pub verify_delivery_otp : ℕ → ℕ → Text → Action ShipmentStore ShipmentStatus
  verify_delivery_otp shipment_id user code =
      verify_shipment_otp OtpType.delivery shipment_id user code

abbrev pub has_proof : ℕ → List ShipmentProof → Bool
has_proof shipment proofs = any (λ p. p.shipment_id == shipment) proofs

abbrev pub delivered_shipment : ℕ → Shipment → Shipment
delivered_shipment now s = record s { status = ShipmentStatus.delivered; delivered_at = some now }

module _ ⦃decimal : DecimalText⦄ where
  unfoldable pub complete_shipment : ℕ → ℕ → Action ShipmentStore ShipmentStatus
  complete_shipment shipment_id user = do
    shipment ← resolve_driver_shipment shipment_id user
    driver ← gets (λ s. trip_driver shipment.trip_id s.trip_store)
    raise_if (not (is_status shipment.status ShipmentStatus.delivery_verified))
        (bad_request "Cannot complete shipment until delivery OTP is verified.")
    proofs ← gets (λ s. s.proofs)
    raise_if (not (has_proof shipment_id proofs))
        (bad_request "Proof of delivery must be submitted before confirming delivery.")
    now ← gets clock
    in_trips (transition shipment.trip_id (some user) TripStatus.completed none)
    modify (update_shipment shipment_id (delivered_shipment now))
    modify (record_tracking_event shipment_id TrackingType.status_changed ShipmentStatus.delivered)
    modify (add_trip_event shipment.trip_id TripEventType.shipment_delivered)
    in_finance (capture_payment_for_trip shipment.trip_id driver)
    pure ShipmentStatus.delivered

abbrev pub add_proof : ShipmentProof → ShipmentStore → ShipmentStore
add_proof p s = record s { proofs = p ∷ s.proofs }

unfoldable pub submit_proof : ℕ → ℕ → Text → Action ShipmentStore ShipmentProof
submit_proof shipment_id user url = do
  shipment ← resolve_driver_shipment shipment_id user
  raise_if (not (is_in_delivery_phase shipment.status))
      (bad_request "Proofs can only be submitted while delivery is active.")
  let proof : ShipmentProof = record { shipment_id = shipment_id; url = url; submitted_by = user }
  modify (add_proof proof)
  modify (add_trip_event shipment.trip_id TripEventType.shipment_proof_submitted)
  modify (record_tracking_event shipment_id TrackingType.proof_uploaded shipment.status)
  pure proof

abbrev pub cancelled_shipment : ℕ → Shipment → Shipment
cancelled_shipment now s = record s { status = ShipmentStatus.cancelled; cancelled_at = some now }

abbrev pub cancelled_trip : TripStatus → ℕ → Trip → Trip
cancelled_trip status now t = record t { status = status; cancelled_at = some now }

-- `cancelShipment`, by the sender.
unfoldable pub cancel_shipment : ℕ → ℕ → Action ShipmentStore ShipmentStatus
cancel_shipment shipment_id user = do
  shipments ← gets (λ s. s.shipments)
  shipment ← or_raise (find (is_shipment shipment_id) shipments) (not_found "Shipment not found.")
  raise_if (not (shipment.sender_user_id == user))
      (forbidden "You do not have access to this shipment.")
  raise_if (not (can_be_cancelled shipment.status)) (bad_request "Shipment cannot be cancelled.")
  now ← gets clock
  modify (update_shipment shipment_id (cancelled_shipment now))
  modify (set_trip shipment.trip_id (cancelled_trip TripStatus.cancelled_by_rider now))
  modify (record_tracking_event shipment_id TrackingType.status_changed ShipmentStatus.cancelled)
  pure ShipmentStatus.cancelled
