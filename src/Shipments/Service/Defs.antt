-- ===== src/Shipments/Service/Defs.antt =====
-- The tables of the shipments, and what the calls on them share.
use rydalux_app.Prelude.{
  ℕ, Bool, true, false, not, Option, none, some, List, ◌∷◌, find, update, ◌==◌, some_and,
}
use rydalux_app.Money.{Text}
use rydalux_app.Service.{
  Action, bad_request, forbidden, not_found, pure, gets, or_raise, raise_if, ◌>>=◌, ◌>>◌,
}
use rydalux_app.Finance.State.{Db}
use rydalux_app.Finance.Payouts.{is_user}
use rydalux_app.Trips.{Trip, TripEventType, TripStore, update_trip, add_event}
use rydalux_app.Shipments.Machine.{ShipmentStatus}
use rydalux_app.Shipments.Otp.{OtpStore}

-- A shipment; addresses, the parties' names and the parcel are left out, which no call reads.
pub record Shipment : Type 0 where
  pub id : ℕ
  pub trip_id : ℕ
  pub sender_user_id : ℕ
  pub driver_profile_id : Option ℕ
  pub status : ShipmentStatus
  pub pickup_verified_at : Option ℕ
  pub delivery_verified_at : Option ℕ
  pub delivered_at : Option ℕ
  pub cancelled_at : Option ℕ

pub data TrackingType : Type 0 where
  status_changed otp_verified otp_failed proof_uploaded : TrackingType

pub record TrackingEvent : Type 0 where
  pub shipment_id : ℕ
  pub event_type : TrackingType
  pub status : ShipmentStatus

pub record ShipmentProof : Type 0 where
  pub shipment_id : ℕ
  pub url : Text
  pub submitted_by : ℕ

pub data ShipmentAction : Type 0 where
  admin_assign_driver admin_dispute admin_resolved : ShipmentAction
  admin_status : ShipmentStatus → ShipmentAction
  force_cancelled force_failed : ShipmentAction

pub record ShipmentAudit : Type 0 where
  pub actor_id : ℕ
  pub action : ShipmentAction
  pub shipment_id : ℕ

-- The tables of the shipments beside those of the codes and of the trips, whose clock they share.
pub record ShipmentStore : Type 0 where
  pub shipments : List Shipment
  pub tracking : List TrackingEvent
  pub proofs : List ShipmentProof
  pub shipment_audits : List ShipmentAudit
  pub otp_store : OtpStore
  pub trip_store : TripStore

abbrev pub is_shipment : ℕ → Shipment → Bool
is_shipment i s = s.id == i

abbrev pub update_shipment : ℕ → (Shipment → Shipment) → ShipmentStore → ShipmentStore
update_shipment i f s = record s { shipments = update (is_shipment i) f s.shipments }

abbrev pub clock : ShipmentStore → ℕ
clock s = s.trip_store.now

-- `recordTrackingEvent`
abbrev pub record_tracking_event : ℕ → TrackingType → ShipmentStatus → ShipmentStore → ShipmentStore
record_tracking_event i type status s = record s {
  tracking = record { shipment_id = i; event_type = type; status = status } ∷ s.tracking;
}

abbrev pub audit_shipment : ℕ → ShipmentAction → ℕ → ShipmentStore → ShipmentStore
audit_shipment admin action i s = record s {
  shipment_audits =
      record { actor_id = admin; action = action; shipment_id = i } ∷ s.shipment_audits;
}

-- Calls of the other services.
unfoldable pub in_trips : {A : Type 0} → Action TripStore A → Action ShipmentStore A
in_trips m s = let (r, t) = m s.trip_store in (r, record s { trip_store = t })

unfoldable pub in_otps : {A : Type 0} → Action OtpStore A → Action ShipmentStore A
in_otps m s =
    let (r, o) = m (record s.otp_store { now = clock s }) in (r, record s { otp_store = o })

unfoldable pub in_finance : {A : Type 0} → Action Db A → Action ShipmentStore A
in_finance m s =
    let (r, db) = m s.trip_store.finance in
    (r, record s { trip_store = record s.trip_store { finance = db } })

abbrev pub set_trip : ℕ → (Trip → Trip) → ShipmentStore → ShipmentStore
set_trip i f s = record s { trip_store = update_trip i f s.trip_store }

abbrev pub add_trip_event : ℕ → TripEventType → ShipmentStore → ShipmentStore
add_trip_event i type s = record s { trip_store = add_event i type s.trip_store }

-- A status on which a driver can do nothing more.
abbrev pub is_closed : ShipmentStatus → Bool
is_closed ShipmentStatus.cancelled = true
is_closed ShipmentStatus.delivered = true
is_closed ShipmentStatus.disputed = true
is_closed ShipmentStatus.expired = true
is_closed _ = false

abbrev pub is_driver_of : ℕ → Shipment → Bool
is_driver_of driver s = some_and (λ d. d == driver) s.driver_profile_id

-- `resolveDriverShipment`
unfoldable pub resolve_driver_shipment : ℕ → ℕ → Action ShipmentStore Shipment
resolve_driver_shipment shipment_id user = do
  drivers ← gets (λ s. s.trip_store.finance.drivers)
  driver ← or_raise (find (is_user user) drivers) (forbidden "Driver profile not found.")
  shipments ← gets (λ s. s.shipments)
  shipment ← or_raise (find (is_shipment shipment_id) shipments) (not_found "Shipment not found.")
  raise_if (not (is_driver_of driver.id shipment))
      (forbidden "You are not assigned to this shipment.")
  raise_if (is_closed shipment.status)
      (bad_request "Cannot perform driver actions on shipment in terminal status.")
  pure shipment

-- The driver of the shipment's trip, as the row stands.
abbrev pub trip_driver : ℕ → TripStore → Option ℕ
trip_driver trip_id s = elim (find (λ t. t.id == trip_id) s.trips) [
  | none ↦ none
  | some t ↦ t.driver_profile_id
]
