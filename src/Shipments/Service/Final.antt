-- ===== src/Shipments/Service/Final.antt =====
-- A shipment that is delivered, cancelled, disputed or expired, under the calls of
-- the driver it is assigned to and its cancellation.
use rydalux_app.Prelude.{
  ℕ, ◌≡◌, refl, ap, ◌∙◌, arith, true, false, some, List, [], ◌∷◌, find, update, ◌==◌, Bool-cases,
  inl, inr,
}
use rydalux_app.Money.{Text}
use rydalux_app.Money.Column.{DecimalText}
use rydalux_app.Service.{Action, Error, modify}
use rydalux_app.Service.Keeps.{Keeps, keeps_rules}
use rydalux_app.Finance.State.{Db}
use rydalux_app.Trips.{TripStore}
use rydalux_app.Shipments.Machine.{ShipmentStatus, OtpType, can_be_cancelled}
use rydalux_app.Shipments.Otp.{OtpStore, Bcrypt}
use rydalux_app.Shipments.Service.Defs.{
  Shipment, ShipmentStore, is_shipment, update_shipment, clock, is_closed, in_trips, in_otps,
  in_finance, resolve_driver_shipment,
}
use rydalux_app.Shipments.Service.Driver.{
  arrive_at_pickup, start_shipment, arrive_at_delivery, try_code, refuse_code, verified_shipment,
  verify_shipment_otp, complete_shipment, submit_proof, cancel_shipment,
}
use rydalux_app.Shipments.Service.Stages.{
  AssignedCall, run_assigned_call, run_assigned_call_guarded,
}

-- The shipment that is found by the id.
pub record IsStored (id : ℕ) (shipment : Shipment) (s : ShipmentStore) : Type 0 where
  pub stored : find (is_shipment id) s.shipments ≡ some shipment

find-other :
    (i j : ℕ) (f : Shipment → Shipment) (rows : List Shipment)
    → (j == i) ≡ false
    → ((x : Shipment) → (f x).id ≡ x.id)
    → find (is_shipment i) (update (is_shipment j) f rows) ≡ find (is_shipment i) rows
find-other i j f [] other same = refl
find-other i j f (x ∷ rows) other same = ground (arith, same x, find-other i j f rows other same)

verified-id : (type : OtpType) (now : ℕ) (x : Shipment) → (verified_shipment type now x).id ≡ x.id
verified-id OtpType.pickup now x = refl
verified-id OtpType.delivery now x = refl

module _ {id : ℕ} {shipment : Shipment} where
  Keeps-beside :
      (f : ShipmentStore → ShipmentStore)
      → ((s : ShipmentStore) → (f s).shipments ≡ s.shipments)
      → Keeps (IsStored id shipment) (modify f)
  Keeps-beside f e = record {
    at = λ s h. record { stored = ap (find (is_shipment id)) (e s) ∙ h.stored };
  }

  Keeps-in_trips : {A : Type 0} (m : Action TripStore A) → Keeps (IsStored id shipment) (in_trips m)
  unfolding in_trips
  Keeps-in_trips m = record { at = λ s h. record { stored = h.stored } }

  Keeps-in_otps : {A : Type 0} (m : Action OtpStore A) → Keeps (IsStored id shipment) (in_otps m)
  unfolding in_otps
  Keeps-in_otps m = record { at = λ s h. record { stored = h.stored } }

  Keeps-in_finance : {A : Type 0} (m : Action Db A) → Keeps (IsStored id shipment) (in_finance m)
  unfolding in_finance
  Keeps-in_finance m = record { at = λ s h. record { stored = h.stored } }

  resolve-Keeps : (j user : ℕ) → Keeps (IsStored id shipment) (resolve_driver_shipment j user)
  unfolding resolve_driver_shipment
  resolve-Keeps j user = search keeps_rules depth 9

ruleset stored_rules = (
  keeps_rules, Keeps-beside, Keeps-in_trips, Keeps-in_otps, Keeps-in_finance, resolve-Keeps, refl,
)

module _ {id : ℕ} {shipment : Shipment} (j : ℕ) (other : (j == id) ≡ false) where
  -- A write on another shipment, which keeps its id.
  Keeps-other :
      (f : Shipment → Shipment)
      → ((x : Shipment) → (f x).id ≡ x.id)
      → Keeps (IsStored id shipment) (modify (update_shipment j f))
  Keeps-other f same = record {
    at = λ s h. record { stored = find-other id j f s.shipments other same ∙ h.stored };
  }

  Keeps-verified :
      (type : OtpType)
      → Keeps
          (IsStored id shipment)
          (modify (λ s. update_shipment j (verified_shipment type (clock s)) s))
  Keeps-verified type = record {
    at = λ s h. record {
      stored =
          find-other id j (verified_shipment type (clock s)) s.shipments other
            (verified-id type (clock s))
          ∙ h.stored;
    };
  }

  refuse_code-Keeps :
      ⦃bcrypt : Bcrypt⦄
      → (status : ShipmentStatus) (e : Error)
      → Keeps (IsStored id shipment) (refuse_code j status e)
  unfolding refuse_code
  refuse_code-Keeps status e = search stored_rules

  try_code-Keeps :
      ⦃bcrypt : Bcrypt⦄
      → (type : OtpType) (text : Text) → Keeps (IsStored id shipment) (try_code j type text)
  unfolding try_code
  try_code-Keeps type text = search (stored_rules, Keeps-verified) depth 8

  cancel_shipment-Keeps : (user : ℕ) → Keeps (IsStored id shipment) (cancel_shipment j user)
  unfolding cancel_shipment
  cancel_shipment-Keeps user = search (stored_rules, Keeps-other) depth 12

  other_call-Keeps :
      ⦃decimal : DecimalText⦄
      → ⦃bcrypt : Bcrypt⦄ → (call : AssignedCall) (user : ℕ)
      → Keeps (IsStored id shipment) (run_assigned_call call j user)
  unfolding run_assigned_call arrive_at_pickup start_shipment arrive_at_delivery complete_shipment
      verify_shipment_otp submit_proof
  other_call-Keeps AssignedCall.arrive_pickup user = search (stored_rules, Keeps-other) depth 12
  other_call-Keeps AssignedCall.start user = search (stored_rules, Keeps-other) depth 12
  other_call-Keeps AssignedCall.arrive_delivery user = search (stored_rules, Keeps-other) depth 12
  other_call-Keeps AssignedCall.complete user = search (stored_rules, Keeps-other) depth 15
  other_call-Keeps (AssignedCall.code type text) user =
      search (stored_rules, try_code-Keeps, refuse_code-Keeps) depth 8
  other_call-Keeps (AssignedCall.proof url) user = search stored_rules depth 12

-- A call of an assigned driver, or a sender's `cancelShipment`, on any shipment.
pub data DeliveryCall : Type 0 where
  assigned_call : AssignedCall → ℕ → ℕ → DeliveryCall
  cancel_call : ℕ → ℕ → DeliveryCall

cancel_closed :
    (id user : ℕ) (shipment : Shipment) (s : ShipmentStore)
    → find (is_shipment id) s.shipments ≡ some shipment
    → is_closed shipment.status ≡ true
    → (cancel_shipment id user s).1 ≡ s
unfolding cancel_shipment can_be_cancelled
cancel_closed id user shipment s found closed = ground arith

same_id : (i j : ℕ) → (j == i) ≡ true → j ≡ i
same_id i j h = ground arith

module _ ⦃decimal : DecimalText⦄ ⦃bcrypt : Bcrypt⦄ where
  unfoldable pub run_delivery_call : DeliveryCall → ShipmentStore → ShipmentStore
  run_delivery_call (DeliveryCall.assigned_call call shipment user) s =
      (run_assigned_call call shipment user s).1
  run_delivery_call (DeliveryCall.cancel_call shipment user) s = (cancel_shipment shipment user s).1

  -- The calls, one after another; one that throws is followed by the next.
  unfoldable pub run_delivery_calls : List DeliveryCall → ShipmentStore → ShipmentStore
  run_delivery_calls [] s = s
  run_delivery_calls (call ∷ calls) s = run_delivery_calls calls (run_delivery_call call s)

  assigned_closed :
      (call : AssignedCall) (id user : ℕ) (shipment : Shipment) (s : ShipmentStore)
      → find (is_shipment id) s.shipments ≡ some shipment
      → is_closed shipment.status ≡ true
      → (run_assigned_call call id user s).1 ≡ s
  assigned_closed call id user shipment s found closed =
      elim (run_assigned_call_guarded call id user s) [
        | inl (e, k) ↦ k
        | inr (driver, own, known, found', owned, alive) ↦ absurd (ground arith)
      ]

  delivery_call_keeps :
      (call : DeliveryCall) (id : ℕ) (shipment : Shipment) (s : ShipmentStore)
      → find (is_shipment id) s.shipments ≡ some shipment
      → is_closed shipment.status ≡ true
      → find (is_shipment id) (run_delivery_call call s).shipments ≡ some shipment
  unfolding run_delivery_call
  delivery_call_keeps (DeliveryCall.assigned_call call j user) id shipment s found closed =
      elim (Bool-cases (j == id)) [
        | inl self ↦ rw (same_id id j self) (
            ap (λ (t : ShipmentStore). find (is_shipment id) t.shipments)
              (assigned_closed call id user shipment s found closed)
            ∙ found)
        | inr other ↦
            ((other_call-Keeps {id = id} {shipment = shipment} j other call user).at s
              (record { stored = found })).stored
      ]
  delivery_call_keeps (DeliveryCall.cancel_call j user) id shipment s found closed =
      elim (Bool-cases (j == id)) [
        | inl self ↦ rw (same_id id j self) (
            ap (λ (t : ShipmentStore). find (is_shipment id) t.shipments)
              (cancel_closed id user shipment s found closed)
            ∙ found)
        | inr other ↦
            ((cancel_shipment-Keeps {id = id} {shipment = shipment} j other user).at s
              (record { stored = found })).stored
      ]

  -- A shipment that is found delivered, cancelled, disputed or expired is found as the same row after
  -- any sequence of cancelShipment and of the calls arriveAtPickup, verifyPickupOtp,
  -- verifyDeliveryOtp, startShipment, arriveAtDelivery, submitProof and completeShipment, on it or on
  -- others, by any users, whether they return or throw.
  pub run_delivery_calls_final :
      (calls : List DeliveryCall) (id : ℕ) (shipment : Shipment) (s : ShipmentStore)
      → find (is_shipment id) s.shipments ≡ some shipment
      → is_closed shipment.status ≡ true
      → find (is_shipment id) (run_delivery_calls calls s).shipments ≡ some shipment
  unfolding run_delivery_calls
  run_delivery_calls_final [] id shipment s found closed = found
  run_delivery_calls_final (call ∷ calls) id shipment s found closed =
      run_delivery_calls_final calls id shipment (run_delivery_call call s)
        (delivery_call_keeps call id shipment s found closed) closed
