-- ===== src/Shipments/Service/Delivery.antt =====
-- What a delivery takes, and what it does not.
use rydalux_app.Prelude.{
  ℕ, ◌≡◌, ◌⊎◌, arith, true, false, some, find, update, Option-cases, Bool-cases, inl, inr,
}
use rydalux_app.Money.{Text}
use rydalux_app.Money.Column.{DecimalText}
use rydalux_app.Service.{ok, succeeded}
use rydalux_app.Finance.State.{DriverProfile}
use rydalux_app.Finance.Payouts.{is_user}
use rydalux_app.Shipments.Machine.{ShipmentStatus, is_status, can_transition, OtpType}
use rydalux_app.Shipments.Otp.{OtpStore, Bcrypt, verify_otp}
use rydalux_app.Shipments.Service.Defs.{
  Shipment, ShipmentStore, is_shipment, clock, is_closed, is_driver_of, in_trips, in_otps,
  in_finance, resolve_driver_shipment,
}
use rydalux_app.Shipments.Service.Driver.{
  verified_status, verified_shipment, try_code, verify_shipment_otp, has_proof, delivered_shipment,
  complete_shipment, set_status,
}
use rydalux_app.Shipments.Service.Admin.{admin_update_status}

resolved :
    (shipment_id user : ℕ) (driver : DriverProfile) (shipment : Shipment) (s : ShipmentStore)
    → find (is_user user) s.trip_store.finance.drivers ≡ some driver
    → find (is_shipment shipment_id) s.shipments ≡ some shipment
    → is_driver_of driver.id shipment ≡ true
    → is_closed shipment.status ≡ false
    → resolve_driver_shipment shipment_id user s ≡ (ok shipment, s)
unfolding resolve_driver_shipment
resolved shipment_id user driver shipment s known found own alive = ground arith

resolve-found :
    (shipment_id user : ℕ) (shipment : Shipment) (s s' : ShipmentStore)
    → resolve_driver_shipment shipment_id user s ≡ (ok shipment, s')
    → (find (is_shipment shipment_id) s.shipments ≡ some shipment) × (s' ≡ s)
unfolding resolve_driver_shipment
resolve-found shipment_id user shipment s s' h = (ground arith, ground arith)

module _ ⦃decimal : DecimalText⦄ where
  -- A completion that returns has found the shipment in DELIVERY_VERIFIED and with a proof of its
  -- delivery, and it has stored every shipment of that id, and no other, as delivered at that time.
  pub complete_shipment_proven :
      (shipment_id user : ℕ) (s s' : ShipmentStore) (status : ShipmentStatus)
      → complete_shipment shipment_id user s ≡ (ok status, s')
      → (shipment : Shipment) × (find (is_shipment shipment_id) s.shipments ≡ some shipment)
        × (is_status shipment.status ShipmentStatus.delivery_verified ≡ true)
        × (has_proof shipment_id s.proofs ≡ true)
        × (s'.shipments
            ≡ update (is_shipment shipment_id) (delivered_shipment (clock s)) s.shipments)
  unfolding complete_shipment resolve_driver_shipment in_trips in_finance
  complete_shipment_proven shipment_id user s s' status h =
      elim (Option-cases (find (is_shipment shipment_id) s.shipments)) [
        | inl missing ↦ absurd (ground arith)
        | inr (shipment, found) ↦ (shipment, found, ground arith, ground arith, ground arith)
      ]

module _ ⦃bcrypt : Bcrypt⦄ where
  -- A code that verifies moves its shipment to PICKUP_VERIFIED or DELIVERY_VERIFIED, by its type,
  -- from whatever open status the shipment of the driver is in: the stages between are not asked for.
  pub verify_shipment_otp_skips :
      (type : OtpType) (shipment_id user : ℕ) (text : Text) (driver : DriverProfile)
      (shipment : Shipment) (s : ShipmentStore) (o : OtpStore)
      → find (is_user user) s.trip_store.finance.drivers ≡ some driver
      → find (is_shipment shipment_id) s.shipments ≡ some shipment
      → is_driver_of driver.id shipment ≡ true
      → is_closed shipment.status ≡ false
      → verify_otp shipment_id type text (record s.otp_store { now = clock s }) ≡ (ok true, o)
      → ((verify_shipment_otp type shipment_id user text s).0 ≡ ok (verified_status type))
        × ((verify_shipment_otp type shipment_id user text s).1.shipments
            ≡ update (is_shipment shipment_id) (verified_shipment type (clock s)) s.shipments)
  unfolding verify_shipment_otp try_code in_otps
  verify_shipment_otp_skips type shipment_id user text driver shipment s o known found own alive
        verifies =
      ground (arith, resolved shipment_id user driver shipment s known found own alive)

-- An admin's change of status either throws and writes nothing, or has found the shipment in a status
-- from which the table of moves leads to the new one, which is stored.
admin_update_status_moves :
    (shipment_id admin : ℕ) (next : ShipmentStatus) (s : ShipmentStore)
    → ((succeeded (admin_update_status shipment_id admin next s).0 ≡ false)
        × ((admin_update_status shipment_id admin next s).1 ≡ s))
      ⊎ ((shipment : Shipment) × (find (is_shipment shipment_id) s.shipments ≡ some shipment)
          × (can_transition shipment.status next ≡ true)
          × ((admin_update_status shipment_id admin next s).1.shipments
              ≡ update (is_shipment shipment_id) (set_status next) s.shipments))
unfolding admin_update_status
admin_update_status_moves shipment_id admin next s =
    elim (Option-cases (find (is_shipment shipment_id) s.shipments)) [
      | inl missing ↦ inl (ground arith, ground arith)
      | inr (shipment, found) ↦ elim (Bool-cases (can_transition shipment.status next)) [
        | inl allowed ↦ inr (shipment, found, allowed, ground arith)
        | inr refused ↦ inl (ground arith, ground arith)
      ]
    ]
