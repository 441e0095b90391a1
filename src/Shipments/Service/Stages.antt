-- ===== src/Shipments/Service/Stages.antt =====
-- How the calls on a shipment follow its stages.
use rydalux_app.Prelude.{
  ℕ, ⊤, ◌≡◌, ◌⊎◌, arith, true, false, not, ◌&&◌, none, some, find, Option-cases, Bool-cases, inl,
  inr,
}
use rydalux_app.Money.{Text}
use rydalux_app.Money.Column.{DecimalText}
use rydalux_app.Service.{Action, pure, succeeded, ◌>>=◌, ◌>>◌}
use rydalux_app.Finance.State.{DriverProfile}
use rydalux_app.Finance.Payouts.{is_user}
use rydalux_app.Trips.{TripStatus, verify_pin, transition}
use rydalux_app.Shipments.Machine.{OtpType}
use rydalux_app.Shipments.Otp.{Bcrypt}
use rydalux_app.Shipments.Service.Defs.{
  Shipment, ShipmentStore, is_shipment, is_closed, is_driver_of, in_trips, resolve_driver_shipment,
}
use rydalux_app.Shipments.Service.Driver.{
  arrive_at_pickup, start_shipment, arrive_at_delivery, verify_shipment_otp, complete_shipment,
  submit_proof,
}

-- The calls of a driver to whom a shipment is assigned: `arriveAtPickup`, `startShipment`,
-- `arriveAtDelivery`, `completeShipment`, `verifyPickupOtp` and `verifyDeliveryOtp`, `submitProof`.
pub data AssignedCall : Type 0 where
  arrive_pickup start arrive_delivery complete : AssignedCall
  code : OtpType → Text → AssignedCall
  proof : Text → AssignedCall

module _ ⦃decimal : DecimalText⦄ ⦃bcrypt : Bcrypt⦄ where
  unfoldable pub run_assigned_call : AssignedCall → ℕ → ℕ → Action ShipmentStore ⊤
  run_assigned_call AssignedCall.arrive_pickup shipment user =
      arrive_at_pickup shipment user >> pure tt
  run_assigned_call AssignedCall.start shipment user = start_shipment shipment user >> pure tt
  run_assigned_call AssignedCall.arrive_delivery shipment user =
      arrive_at_delivery shipment user >> pure tt
  run_assigned_call AssignedCall.complete shipment user = complete_shipment shipment user >> pure tt
  run_assigned_call (AssignedCall.code type text) shipment user =
      verify_shipment_otp type shipment user text >> pure tt
  run_assigned_call (AssignedCall.proof url) shipment user =
      submit_proof shipment user url >> pure tt

-- The shipment may be worked on by the user: it is there, assigned to the user's profile, and open.
abbrev pub IsDriversOwn : ℕ → ℕ → ShipmentStore → Type 0
IsDriversOwn shipment_id user s =
    (driver : DriverProfile) × (shipment : Shipment) × (find (is_user user)
        s.trip_store.finance.drivers
      ≡ some driver)
    × (find (is_shipment shipment_id) s.shipments ≡ some shipment)
    × (is_driver_of driver.id shipment ≡ true)
    × (is_closed shipment.status ≡ false)

-- Either the call throws at once and writes nothing, or the shipment is the driver's own.
resolves :
    (shipment_id user : ℕ) (s : ShipmentStore)
    → ((succeeded (resolve_driver_shipment shipment_id user s).0 ≡ false)
        × ((resolve_driver_shipment shipment_id user s).1 ≡ s))
      ⊎ IsDriversOwn shipment_id user s
unfolding resolve_driver_shipment
resolves shipment_id user s =
    elim (Option-cases (find (is_user user) s.trip_store.finance.drivers)) [
      | inl none_such ↦ inl (ground arith)
      | inr (driver, known) ↦ elim (Option-cases (find (is_shipment shipment_id) s.shipments)) [
        | inl missing ↦ inl (ground arith)
        | inr (shipment, found) ↦
            elim (Bool-cases (is_driver_of driver.id shipment && not (is_closed shipment.status))) [
              | inl own ↦ inr (driver, shipment, known, found, ground arith, ground arith)
              | inr foreign ↦ inl (ground arith)
            ]
      ]
    ]

>>=-throws :
    {A B : Type 0} (m : Action ShipmentStore A) (f : A → Action ShipmentStore B) (s : ShipmentStore)
    → succeeded (m s).0 ≡ false
    → (m s).1 ≡ s
    → (succeeded ((m >>= f) s).0 ≡ false) × (((m >>= f) s).1 ≡ s)
>>=-throws m f s e k = ground arith

-- The call throws at once and writes nothing, where the shipment is not the driver's own.
record IsGuarded {A : Type 0} (shipment_id user : ℕ) (m : Action ShipmentStore A) : Type 0 where
  outcome :
      (s : ShipmentStore)
      → ((succeeded (m s).0 ≡ false) × ((m s).1 ≡ s)) ⊎ IsDriversOwn shipment_id user s

resolve-IsGuarded :
    {A : Type 0} (f : Shipment → Action ShipmentStore A) (shipment_id user : ℕ)
    → IsGuarded shipment_id user (resolve_driver_shipment shipment_id user >>= f)
resolve-IsGuarded f shipment_id user = record {
  outcome = λ s. elim (resolves shipment_id user s) [
    | inr own ↦ inr own
    | inl (e, k) ↦ inl (>>=-throws (resolve_driver_shipment shipment_id user) f s e k)
  ];
}

then-IsGuarded :
    {A B : Type 0} (m : Action ShipmentStore A) (k : Action ShipmentStore B) (shipment_id user : ℕ)
    → IsGuarded shipment_id user m
    → IsGuarded shipment_id user (m >> k)
then-IsGuarded m k shipment_id user g = record {
  outcome = λ s. elim (g.outcome s) [
    | inr own ↦ inr own
    | inl (e, same) ↦ inl (>>=-throws m (λ _. k) s e same)
  ];
}

module _ ⦃decimal : DecimalText⦄ ⦃bcrypt : Bcrypt⦄ where
  run_assigned_call-IsGuarded :
      (call : AssignedCall) (shipment_id user : ℕ)
      → IsGuarded shipment_id user (run_assigned_call call shipment_id user)
  unfolding run_assigned_call arrive_at_pickup start_shipment arrive_at_delivery complete_shipment
      verify_shipment_otp submit_proof
  run_assigned_call-IsGuarded AssignedCall.arrive_pickup shipment_id user =
      search (resolve-IsGuarded, then-IsGuarded)
  run_assigned_call-IsGuarded AssignedCall.start shipment_id user =
      search (resolve-IsGuarded, then-IsGuarded)
  run_assigned_call-IsGuarded AssignedCall.arrive_delivery shipment_id user =
      search (resolve-IsGuarded, then-IsGuarded)
  run_assigned_call-IsGuarded AssignedCall.complete shipment_id user =
      search (resolve-IsGuarded, then-IsGuarded)
  run_assigned_call-IsGuarded (AssignedCall.code type text) shipment_id user =
      search (resolve-IsGuarded, then-IsGuarded)
  run_assigned_call-IsGuarded (AssignedCall.proof url) shipment_id user =
      search (resolve-IsGuarded, then-IsGuarded)

  -- Each of the calls arriveAtPickup, verifyPickupOtp, verifyDeliveryOtp, startShipment,
  -- arriveAtDelivery, submitProof and completeShipment either throws and writes nothing at all, or
  -- the shipment is there, assigned to the caller's own profile, and neither delivered nor cancelled
  -- nor disputed nor expired.
  pub run_assigned_call_guarded :
      (call : AssignedCall) (shipment_id user : ℕ) (s : ShipmentStore)
      → ((succeeded (run_assigned_call call shipment_id user s).0 ≡ false)
          × ((run_assigned_call call shipment_id user s).1 ≡ s))
        ⊎ IsDriversOwn shipment_id user s
  run_assigned_call_guarded call shipment_id user =
      (run_assigned_call-IsGuarded call shipment_id user).outcome

  pin_verified-refused :
      (trip_id user : ℕ) (s : ShipmentStore)
      → succeeded (in_trips (transition trip_id (some user) TripStatus.pin_verified none) s).0
        ≡ false
  unfolding in_trips transition verify_pin
  pin_verified-refused trip_id user s = ground arith

  -- No start of a shipment ever returns: the call moves the trip to PIN_VERIFIED without a PIN, which
  -- is refused.
  pub start_shipment_throws :
      (shipment_id user : ℕ) (s : ShipmentStore)
      → succeeded (start_shipment shipment_id user s).0 ≡ false
  unfolding start_shipment
  start_shipment_throws shipment_id user s = grind (arith, pin_verified-refused)
