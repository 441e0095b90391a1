-- ===== src/Shipments/Service/Admin.antt =====
-- The admins' calls on a shipment.
use rydalux_app.Prelude.{ℕ, ⊤, not, Option, none, some, find, ◌==◌}
use rydalux_app.Money.{codes}
use rydalux_app.Money.Column.{DecimalText}
use rydalux_app.Service.{
  Action, bad_request, not_found, internal, pure, raise, gets, or_raise, raise_if, modify, ◌>>=◌,
  ◌>>◌,
}
use rydalux_app.Finance.Payments.{capture_payment_for_trip}
use rydalux_app.Trips.{Trip, TripStatus}
use rydalux_app.Shipments.Machine.{ShipmentStatus, is_status, can_transition}
use rydalux_app.Shipments.Service.Defs.{
  Shipment, TrackingType, ShipmentProof, ShipmentAction, ShipmentStore, is_shipment,
  update_shipment, clock, record_tracking_event, audit_shipment, in_finance, set_trip, trip_driver,
}
use rydalux_app.Shipments.Service.Driver.{
  set_status, delivered_shipment, cancelled_shipment, cancelled_trip, add_proof,
}

abbrev pub find_shipment : ℕ → Action ShipmentStore Shipment
find_shipment shipment_id = do
  shipments ← gets (λ s. s.shipments)
  or_raise (find (is_shipment shipment_id) shipments) (not_found "Shipment not found.")

abbrev pub assigned_shipment : ℕ → Shipment → Shipment
assigned_shipment driver s = record s {
  status = ShipmentStatus.driver_assigned;
  driver_profile_id = some driver;
}

abbrev pub assigned_trip : ℕ → Trip → Trip
assigned_trip driver t = record t {
  status = TripStatus.driver_assigned;
  driver_profile_id = some driver;
}

-- `adminAssignDriver`, whatever the shipment's status.
unfoldable pub admin_assign_driver : ℕ → ℕ → ℕ → Action ShipmentStore ShipmentStatus
admin_assign_driver shipment_id admin driver_id = do
  shipment ← find_shipment shipment_id
  drivers ← gets (λ s. s.trip_store.finance.drivers)
  driver ←
      or_raise (find (λ d. d.id == driver_id) drivers) (bad_request "Invalid driver specified.")
  modify (update_shipment shipment_id (assigned_shipment driver.id))
  modify (set_trip shipment.trip_id (assigned_trip driver.id))
  modify (audit_shipment admin ShipmentAction.admin_assign_driver shipment_id)
  modify
      (record_tracking_event shipment_id TrackingType.status_changed ShipmentStatus.driver_assigned)
  pure ShipmentStatus.driver_assigned

abbrev pub trip_with_status : TripStatus → Trip → Trip
trip_with_status status t = record t { status = status }

-- `adminDisputeShipment`
unfoldable pub admin_dispute_shipment : ℕ → ℕ → Action ShipmentStore ShipmentStatus
admin_dispute_shipment shipment_id admin = do
  shipment ← find_shipment shipment_id
  modify (update_shipment shipment_id (set_status ShipmentStatus.disputed))
  modify (set_trip shipment.trip_id (trip_with_status TripStatus.disputed))
  modify (audit_shipment admin ShipmentAction.admin_dispute shipment_id)
  modify (record_tracking_event shipment_id TrackingType.status_changed ShipmentStatus.disputed)
  pure ShipmentStatus.disputed

-- `targetTripStatus`
abbrev pub target_trip_status : ShipmentStatus → Option TripStatus
target_trip_status ShipmentStatus.requested = some TripStatus.requested
target_trip_status ShipmentStatus.driver_assigned = some TripStatus.driver_assigned
target_trip_status ShipmentStatus.pickup_arrived = some TripStatus.driver_arrived
target_trip_status ShipmentStatus.in_transit = some TripStatus.in_progress
target_trip_status ShipmentStatus.delivered = some TripStatus.completed
target_trip_status ShipmentStatus.cancelled = some TripStatus.cancelled_by_driver
target_trip_status ShipmentStatus.disputed = some TripStatus.disputed
target_trip_status _ = none

abbrev pub sync_trip : ℕ → Option TripStatus → ShipmentStore → ShipmentStore
sync_trip trip none s = s
sync_trip trip (some status) s = set_trip trip (trip_with_status status) s

-- `adminUpdateStatus`, by the state machine.
unfoldable pub admin_update_status : ℕ → ℕ → ShipmentStatus → Action ShipmentStore ShipmentStatus
admin_update_status shipment_id admin next = do
  shipment ← find_shipment shipment_id
  raise_if (not (can_transition shipment.status next)) (bad_request "Invalid state transition")
  modify (update_shipment shipment_id (set_status next))
  modify (sync_trip shipment.trip_id (target_trip_status next))
  modify (audit_shipment admin (ShipmentAction.admin_status next) shipment_id)
  modify (record_tracking_event shipment_id TrackingType.status_changed next)
  pure next

-- The statuses that a force call names; the second is not one of a shipment.
pub data ForcedStatus : Type 0 where
  cancelled failed : ForcedStatus

-- `adminForceStatus`; the client refuses to write FAILED.
unfoldable pub admin_force_status : ℕ → ℕ → ForcedStatus → Action ShipmentStore ⊤
admin_force_status shipment_id admin ForcedStatus.cancelled = do
  shipment ← find_shipment shipment_id
  raise_if (is_status shipment.status ShipmentStatus.delivered)
      (bad_request "Cannot change status of a delivered shipment.")
  now ← gets clock
  modify (update_shipment shipment_id (cancelled_shipment now))
  modify (set_trip shipment.trip_id (cancelled_trip TripStatus.cancelled_by_driver now))
  modify (audit_shipment admin ShipmentAction.force_cancelled shipment_id)
  modify (record_tracking_event shipment_id TrackingType.status_changed ShipmentStatus.cancelled)
admin_force_status shipment_id admin ForcedStatus.failed = do
  shipment ← find_shipment shipment_id
  raise_if (is_status shipment.status ShipmentStatus.delivered)
      (bad_request "Cannot change status of a delivered shipment.")
  raise (internal "PrismaClientValidationError")

-- `adminCancelShipment`
unfoldable pub admin_cancel_shipment : ℕ → ℕ → Action ShipmentStore ⊤
admin_cancel_shipment shipment_id admin =
    admin_force_status shipment_id admin ForcedStatus.cancelled

abbrev pub completed_trip : ℕ → Trip → Trip
completed_trip now t = record t { status = TripStatus.completed; completed_at = some now }

abbrev pub resolution_proof : ℕ → ℕ → ShipmentProof
resolution_proof shipment_id admin = record {
  shipment_id = shipment_id;
  url = codes "admin:resolved";
  submitted_by = admin;
}

module _ ⦃decimal : DecimalText⦄ where
  -- `adminResolveShipment`: the shipment is delivered by decree, and paid for.
  unfoldable pub admin_resolve_shipment : ℕ → ℕ → Action ShipmentStore ShipmentStatus
  admin_resolve_shipment shipment_id admin = do
    shipment ← find_shipment shipment_id
    raise_if (is_status shipment.status ShipmentStatus.delivered)
        (bad_request "Shipment is already delivered.")
    now ← gets clock
    modify (add_proof (resolution_proof shipment_id admin))
    modify (update_shipment shipment_id (delivered_shipment now))
    modify (set_trip shipment.trip_id (completed_trip now))
    modify (audit_shipment admin ShipmentAction.admin_resolved shipment_id)
    driver ← gets (λ s. trip_driver shipment.trip_id s.trip_store)
    in_finance (capture_payment_for_trip shipment.trip_id driver)
    modify (record_tracking_event shipment_id TrackingType.status_changed ShipmentStatus.delivered)
    pure ShipmentStatus.delivered
