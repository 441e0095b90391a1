-- ===== src/Tests/ShipmentRuns.antt =====
-- The shipment's states and its one-time codes.
use rydalux_app.Prelude.{◌≡◌, refl, Bool, true, false, none, ℕ, [], ◌∷◌, arith}
use rydalux_app.Money.{Text}
use rydalux_app.Service.{Result, ok, succeeded}
use rydalux_app.Shipments.Machine.{ShipmentStatus, can_transition, allowed_transitions, OtpType}
use rydalux_app.Shipments.Machine.Reach.{Run, start, move, Run-stages}
use rydalux_app.Shipments.Otp.{
  ShipmentOtp, OtpStore, generate_otp, verify_otp, is_otp_verified, is_otp_valid,
}
use rydalux_app.Shipments.Otp.Row.{HasBounds}
use rydalux_app.Shipments.Otp.Once.{
  verify_otp-generate_otp, verify_otp_once, wrong_codes_refuse, verify_each, expired_stays,
}
use rydalux_app.Tests.Libraries.{clear}

requested-Run : Run (ShipmentStatus.requested ∷ ShipmentStatus.quoted ∷ ShipmentStatus.draft ∷ [])
unfolding can_transition allowed_transitions
requested-Run = move refl (move refl start)

Run-stages_example :
    ShipmentStatus.quoted ∷ ShipmentStatus.draft ∷ []
    ≡ ShipmentStatus.quoted ∷ ShipmentStatus.draft ∷ []
Run-stages_example =
    Run-stages ShipmentStatus.requested (ShipmentStatus.quoted ∷ ShipmentStatus.draft ∷ [])
      requested-Run (omega arith)

-- A shipment whose code waits, of two digits for short.
abbrev waiting : ShipmentOtp
waiting = record {
  id = 1;
  shipment_id = 20;
  otp_type = OtpType.pickup;
  otp_hash = 77 ∷ b'1' ∷ b'2' ∷ [];
  attempts = 1;
  max_attempts = 3;
  expires_at = 5000;
  used_at = none;
}

abbrev store : ℕ → OtpStore
store now = record { now = now; next_id = 2; otps = waiting ∷ [] }

store-HasBounds : HasBounds (store 100)
store-HasBounds = ((refl, omega arith), tt)

abbrev digits : ℕ → ℕ
digits n = n

abbrev generated : Result Text × OtpStore
generated = generate_otp ⦃bcrypt = clear⦄ 20 OtpType.delivery digits 77 (store 100)

abbrev six : Text
six = b'0' ∷ b'1' ∷ b'2' ∷ b'3' ∷ b'4' ∷ b'5' ∷ []

generates : generated ≡ (ok six, generated.1)
unfolding generate_otp
generates = refl

verify_otp-generate_otp_example :
    ((verify_otp ⦃bcrypt = clear⦄ 20 OtpType.delivery six (record generated.1 { now = 900000 })).0
      ≡ ok true)
    × (is_otp_verified 20 OtpType.delivery
          (verify_otp ⦃bcrypt = clear⦄ 20 OtpType.delivery six
            (record generated.1 { now = 900000 })).1
        ≡ true)
verify_otp-generate_otp_example =
    verify_otp-generate_otp ⦃bcrypt = clear⦄ 20 OtpType.delivery digits 77 900000 (store 100)
      generated.1 six store-HasBounds generates (omega arith)

abbrev verified : Result Bool × OtpStore
verified = verify_otp ⦃bcrypt = clear⦄ 20 OtpType.pickup (b'1' ∷ b'2' ∷ []) (store 100)

verifies : verified ≡ (ok true, verified.1)
unfolding verify_otp
verifies = refl

verify_otp_once_example :
    (succeeded
        (verify_otp ⦃bcrypt = clear⦄ 20 OtpType.pickup
          (b'1' ∷ b'2' ∷ [])
          (record verified.1 { now = 200 })).0
      ≡ false)
    × ((verify_otp ⦃bcrypt = clear⦄ 20 OtpType.pickup
          (b'1' ∷ b'2' ∷ [])
          (record verified.1 { now = 200 })).1
        ≡ record verified.1 { now = 200 })
verify_otp_once_example =
    verify_otp_once ⦃bcrypt = clear⦄ 20 OtpType.pickup (b'1' ∷ b'2' ∷ []) (b'1' ∷ b'2' ∷ []) 200
      (store 100) verified.1 true verifies

wrong_codes_refuse_example :
    succeeded
      (verify_otp ⦃bcrypt = clear⦄ 20 OtpType.pickup (b'1' ∷ b'2' ∷ []) (
        verify_each ⦃bcrypt = clear⦄ 20 OtpType.pickup
          ((b'9' ∷ []) ∷ (b'8' ∷ []) ∷ [])
          (store 100))).0
    ≡ false
wrong_codes_refuse_example =
    wrong_codes_refuse ⦃bcrypt = clear⦄ 20 OtpType.pickup ((b'9' ∷ []) ∷ (b'8' ∷ []) ∷ [])
      (b'1' ∷ b'2' ∷ []) (store 100) waiting refl (refl, (refl, tt)) (omega arith)

expired_stays_example :
    (is_otp_valid 20 OtpType.pickup (store 6000) ≡ false)
    × (succeeded (generate_otp ⦃bcrypt = clear⦄ 20 OtpType.pickup digits 77 (store 6000)).0 ≡ false)
    × ((generate_otp ⦃bcrypt = clear⦄ 20 OtpType.pickup digits 77 (store 6000)).1 ≡ store 6000)
    × (succeeded (verify_otp ⦃bcrypt = clear⦄ 20 OtpType.pickup (b'1' ∷ b'2' ∷ []) (store 6000)).0
        ≡ false)
    × ((verify_otp ⦃bcrypt = clear⦄ 20 OtpType.pickup (b'1' ∷ b'2' ∷ []) (store 6000)).1
        ≡ store 6000)
expired_stays_example =
    expired_stays ⦃bcrypt = clear⦄ 20 OtpType.pickup digits 77 (b'1' ∷ b'2' ∷ []) (store 6000)
      waiting refl refl (omega arith)
