-- ===== src/Tests/DeliveryRuns.antt =====
-- The calls on a shipment whose driver has the delivery's code.
use rydalux_app.Prelude.{◌≡◌, ◌⊎◌, refl, true, false, none, some, List, [], ◌∷◌, find, update}
use rydalux_app.Money.{Text}
use rydalux_app.Service.{ok, succeeded}
use rydalux_app.Trips.{TripStatus, Trip, transition, allowed_transitions}
use rydalux_app.Shipments.Machine.{ShipmentStatus, is_status, OtpType}
use rydalux_app.Shipments.Otp.{ShipmentOtp, verify_otp}
use rydalux_app.Shipments.Service.{Shipment, ShipmentStore}
use rydalux_app.Shipments.Service.Defs.{is_shipment, resolve_driver_shipment, in_trips, in_finance}
use rydalux_app.Finance.Payments.{capture_payment_for_trip}
use rydalux_app.Shipments.Service.Driver.{
  verified_shipment, verify_shipment_otp, start_shipment, has_proof, complete_shipment,
  delivered_shipment, set_status,
}
use rydalux_app.Shipments.Service.Stages.{
  AssignedCall, IsDriversOwn, run_assigned_call, run_assigned_call_guarded, start_shipment_throws,
}
use rydalux_app.Shipments.Service.Delivery.{complete_shipment_proven, verify_shipment_otp_skips}
use rydalux_app.Shipments.Service.Final.{DeliveryCall, run_delivery_calls, run_delivery_calls_final}
use rydalux_app.Tests.Libraries.{plain, clear}
use rydalux_app.Tests.FinanceData.{books, driver}

abbrev ride : Trip
ride = record {
  id = 7;
  status = TripStatus.in_progress;
  driver_profile_id = some 4;
  pin_code = none;
  pin_expires_at = none;
  failed_pin_attempts = 0;
  safety_flagged = false;
  arrived_at = none;
  started_at = some 10;
  completed_at = none;
  cancelled_at = none;
}

abbrev parcel : Shipment
parcel = record {
  id = 30;
  trip_id = 7;
  sender_user_id = 50;
  driver_profile_id = some 4;
  status = ShipmentStatus.driver_assigned;
  pickup_verified_at = none;
  delivery_verified_at = none;
  delivered_at = none;
  cancelled_at = none;
}

-- A parcel that was delivered before.
abbrev old_parcel : Shipment
old_parcel = record parcel { id = 29; status = ShipmentStatus.delivered }

abbrev delivery_code : ShipmentOtp
delivery_code = record {
  id = 1;
  shipment_id = 30;
  otp_type = OtpType.delivery;
  otp_hash = 77 ∷ b'1' ∷ b'2' ∷ [];
  attempts = 0;
  max_attempts = 3;
  expires_at = 5000;
  used_at = none;
}

abbrev depot : ShipmentStore
depot = record {
  shipments = parcel ∷ old_parcel ∷ [];
  tracking = [];
  proofs = record { shipment_id = 30; url = []; submitted_by = 40 } ∷ [];
  shipment_audits = [];
  otp_store = record { now = 0; next_id = 2; otps = delivery_code ∷ [] };
  trip_store = record {
    now = 100;
    trips = ride ∷ [];
    events = [];
    audit_logs = [];
    finance = books;
  };
}

abbrev code : Text
code = b'1' ∷ b'2' ∷ []

run_assigned_call_guarded_example :
    ((succeeded
          (run_assigned_call ⦃decimal = plain⦄ ⦃bcrypt = clear⦄ AssignedCall.complete 29 40 depot).0
        ≡ false)
      × ((run_assigned_call ⦃decimal = plain⦄ ⦃bcrypt = clear⦄ AssignedCall.complete 29 40 depot).1
          ≡ depot))
    ⊎ IsDriversOwn 29 40 depot
run_assigned_call_guarded_example =
    run_assigned_call_guarded ⦃decimal = plain⦄ ⦃bcrypt = clear⦄ AssignedCall.complete 29 40 depot

start_shipment_throws_example : succeeded (start_shipment ⦃decimal = plain⦄ 30 40 depot).0 ≡ false
start_shipment_throws_example = start_shipment_throws ⦃decimal = plain⦄ ⦃bcrypt = clear⦄ 30 40 depot

code_verifies :
    verify_otp ⦃bcrypt = clear⦄ 30 OtpType.delivery code (record depot.otp_store { now = 100 }) ≡ (
      ok true,
      (verify_otp ⦃bcrypt = clear⦄ 30 OtpType.delivery code
          (record depot.otp_store { now = 100 })).1,
    )
unfolding verify_otp
code_verifies = refl

verify_shipment_otp_skips_example :
    ((verify_shipment_otp ⦃bcrypt = clear⦄ OtpType.delivery 30 40 code depot).0
      ≡ ok ShipmentStatus.delivery_verified)
    × ((verify_shipment_otp ⦃bcrypt = clear⦄ OtpType.delivery 30 40 code depot).1.shipments
        ≡ update (is_shipment 30) (verified_shipment OtpType.delivery 100) depot.shipments)
verify_shipment_otp_skips_example =
    verify_shipment_otp_skips ⦃bcrypt = clear⦄ OtpType.delivery 30 40 code driver parcel depot
      (verify_otp ⦃bcrypt = clear⦄ 30 OtpType.delivery code
        (record depot.otp_store { now = 100 })).1
      refl refl refl refl code_verifies

-- The code is verified, the trip under way, and nothing is left to pay.
abbrev arrived_depot : ShipmentStore
arrived_depot = record depot {
  shipments = set_status ShipmentStatus.delivery_verified parcel ∷ old_parcel ∷ [];
  trip_store = record depot.trip_store { finance = record books { payments = [] } };
}

abbrev completed_depot : ShipmentStore
completed_depot = (complete_shipment ⦃decimal = plain⦄ 30 40 arrived_depot).1

completes :
    complete_shipment ⦃decimal = plain⦄ 30 40 arrived_depot
    ≡ (ok ShipmentStatus.delivered, completed_depot)
unfolding complete_shipment resolve_driver_shipment in_trips in_finance transition
    allowed_transitions capture_payment_for_trip
completes = refl

complete_shipment_proven_example :
    (shipment : Shipment) × (find (is_shipment 30) arrived_depot.shipments ≡ some shipment)
    × (is_status shipment.status ShipmentStatus.delivery_verified ≡ true)
    × (has_proof 30 arrived_depot.proofs ≡ true)
    × (completed_depot.shipments
        ≡ update (is_shipment 30) (delivered_shipment 100) arrived_depot.shipments)
complete_shipment_proven_example =
    complete_shipment_proven ⦃decimal = plain⦄ 30 40 arrived_depot completed_depot
      ShipmentStatus.delivered completes

abbrev delivery_calls : List DeliveryCall
delivery_calls =
    DeliveryCall.assigned_call (AssignedCall.code OtpType.delivery code) 30 40
    ∷ DeliveryCall.assigned_call AssignedCall.complete 30 40
    ∷ DeliveryCall.cancel_call 29 50
    ∷ []

run_delivery_calls_final_example :
    find
      (is_shipment 29)
      (run_delivery_calls ⦃decimal = plain⦄ ⦃bcrypt = clear⦄ delivery_calls depot).shipments
    ≡ some old_parcel
run_delivery_calls_final_example =
    run_delivery_calls_final ⦃decimal = plain⦄ ⦃bcrypt = clear⦄ delivery_calls 29 old_parcel depot
      refl refl
