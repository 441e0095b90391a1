-- ===== src/Tests/TripRuns.antt =====
-- Transitions of a trip whose driver has arrived.
use rydalux_app.Prelude.{
  ◌≡◌, refl, true, false, none, some, [], ◌∷◌, find, same_text, some_and, ltb, arith,
}
use rydalux_app.Money.{Text}
use rydalux_app.Service.{ok, succeeded}
use rydalux_app.Trips.{
  TripStatus, Trip, TripStore, has_id, present, transition, verify_pin, allowed_transitions,
}
use rydalux_app.Trips.Life.{
  Moved, transition-Moved, transition-pin_verified, wrong_pins_flag, try_pins,
}
use rydalux_app.Tests.Libraries.{plain}
use rydalux_app.Tests.FinanceData.{books}

abbrev arrived : Trip
arrived = record {
  id = 7;
  status = TripStatus.driver_arrived;
  driver_profile_id = some 4;
  pin_code = some (b'4' ∷ b'2' ∷ []);
  pin_expires_at = some 900;
  failed_pin_attempts = 1;
  safety_flagged = false;
  arrived_at = some 50;
  started_at = none;
  completed_at = none;
  cancelled_at = none;
}

abbrev street : TripStore
street = record { now = 100; trips = arrived ∷ []; events = []; audit_logs = []; finance = books }

abbrev verified : Trip
verified = record arrived {
  status = TripStatus.pin_verified;
  pin_code = none;
  pin_expires_at = some 100;
  failed_pin_attempts = 0;
}

verifies :
    (transition ⦃decimal = plain⦄ 7
      (some 40)
      TripStatus.pin_verified
      (some (b'4' ∷ b'2' ∷ []))
      street).0
    ≡ ok verified
unfolding transition verify_pin allowed_transitions
verifies = refl

transition-Moved_example :
    Moved 7 TripStatus.pin_verified verified street
      (transition ⦃decimal = plain⦄ 7
        (some 40)
        TripStatus.pin_verified
        (some (b'4' ∷ b'2' ∷ []))
        street).1
transition-Moved_example =
    transition-Moved ⦃decimal = plain⦄ 7 (some 40) TripStatus.pin_verified (some (b'4' ∷ b'2' ∷ []))
      verified street verifies

transition-pin_verified_example :
    (p : Trip) × (pin : Text) × (code : Text) × (find (has_id 7) street.trips ≡ some p)
    × (present (some (b'4' ∷ b'2' ∷ [])) ≡ some pin)
    × (present p.pin_code ≡ some code)
    × (same_text pin code ≡ true)
    × (some_and (λ e. ltb e street.now) p.pin_expires_at ≡ false)
    × (p.safety_flagged ≡ false)
transition-pin_verified_example =
    transition-pin_verified ⦃decimal = plain⦄ 7 (some 40) (some (b'4' ∷ b'2' ∷ [])) verified street
      verifies

wrong_pins_flag_example :
    succeeded
      (transition ⦃decimal = plain⦄ 7
        (some 40)
        TripStatus.pin_verified
        (some (b'4' ∷ b'2' ∷ []))
        (try_pins ⦃decimal = plain⦄ 7 (some 40) ((b'1' ∷ []) ∷ (b'2' ∷ []) ∷ []) street)).0
    ≡ false
wrong_pins_flag_example =
    wrong_pins_flag ⦃decimal = plain⦄ 7 (some 40) ((b'1' ∷ []) ∷ (b'2' ∷ []) ∷ [])
      (some (b'4' ∷ b'2' ∷ [])) (b'4' ∷ b'2' ∷ []) arrived street refl refl (refl, refl, refl)
      (omega arith) ((refl, refl), ((refl, refl), tt)) (omega arith)
