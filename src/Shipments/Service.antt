-- ===== src/Shipments/Service.antt =====
-- services/api/src/shipments/shipments.service.ts: the calls of the driver, the sender and the admins
-- on a shipment, over its trip, its codes and its payment.
pub mod Defs
pub mod Driver
pub mod Admin
pub mod Stages
pub mod Delivery
pub mod Final
pub use Defs.{
  Shipment, TrackingType, TrackingEvent, ShipmentProof, ShipmentAction, ShipmentAudit,
  ShipmentStore,
}
