-- ===== src/Shipments.antt =====
-- Shipments, in services/api/src/shipments: the state machine and the one-time codes.
pub mod Machine
pub mod Otp
pub mod Service
