-- ===== src/Trips/Life.antt =====
-- What a transition of a trip promises: it follows the table, a ride starts after its PIN was
-- verified, and a PIN is verified by the right code only.
use rydalux_app.Prelude.{
  ℕ, ◌≡◌, ◌<◌, ◌≤◌, ◌+◌, refl, ap, ◌∙◌, true, false, not, ◌&&◌, Option, some, List, [], ◌∷◌, find,
  update, any, ltb, leb, length, some_and, same_text, arith, Option-cases, Bool-cases, inl, inr,
  All, if◌then◌else◌,
}
use rydalux_app.Money.{Text}
use rydalux_app.Money.Column.{DecimalText}
use rydalux_app.Service.{ok, succeeded, pure}
use rydalux_app.Trips.{
  TripStatus, Trip, TripStore, is_status, has_id, allowed_transitions, transition, verify_pin,
  miss_pin, present, moved_trip, missed_pin, max_failed_pin_attempts,
}

find-moved :
    (i now : ℕ) (next : TripStatus) (rows : List Trip) (t : Trip)
    → find (has_id i) (update (has_id i) (moved_trip next now) rows) ≡ some t
    → t.status ≡ next
find-moved i now next [] t h = cc
find-moved i now next (r ∷ rows) t h = ground (arith, find-moved i now next rows t)

find-missed :
    (i attempts : ℕ) (rows : List Trip) (p : Trip)
    → find (has_id i) rows ≡ some p
    → find (has_id i) (update (has_id p.id) (missed_pin attempts) rows)
      ≡ some (missed_pin attempts p)
find-missed i attempts [] p h = cc
find-missed i attempts (r ∷ rows) p h = ground (arith, find-missed i attempts rows p)

-- A text that is no empty one, and not the code.
abbrev pub IsWrong : Text → Text → Type 0
IsWrong code pin = (present (some pin) ≡ some pin) × (same_text pin code ≡ false)

-- The trip has the code, unexpired, and is not flagged.
abbrev pub CanTry : ℕ → Text → Trip → Type 0
CanTry now code p =
    (present p.pin_code ≡ some code)
    × (some_and (λ e. ltb e now) p.pin_expires_at ≡ false)
    × (p.safety_flagged ≡ false)

-- What a transition that answered with `t` has found: a trip that the table lets move, and that has
-- its PIN verified where the ride starts.
pub record Moved (i : ℕ) (next : TripStatus) (t : Trip) (s s' : TripStore) : Type 0 where
  pub before : Trip
  pub found : find (has_id i) s.trips ≡ some before
  pub allowed : any (is_status next) (allowed_transitions before.status) ≡ true
  pub verified :
      (is_status next TripStatus.in_progress
        && not (is_status before.status TripStatus.pin_verified))
      ≡ false
  pub moved : t.status ≡ next
  pub stored : find (has_id i) s'.trips ≡ some t

module _ ⦃decimal : DecimalText⦄ where
  -- A transition that answers has found the trip, in a status from which the table allows the move;
  -- a ride that starts was in PIN_VERIFIED, although the table has a move to it from DRIVER_ARRIVED;
  -- and the trip is stored in the new status.
  pub transition-Moved :
      (i : ℕ) (actor : Option ℕ) (next : TripStatus) (given : Option Text) (t : Trip)
      (s : TripStore)
      → (transition i actor next given s).0 ≡ ok t
      → Moved i next t s (transition i actor next given s).1
  unfolding transition
  transition-Moved i actor next given t s h = elim (Option-cases (find (has_id i) s.trips)) [
    | inl missing ↦ absurd (ground arith)
    | inr (p, found) ↦
        let s' =
          ((if is_status next TripStatus.pin_verified then verify_pin p given else pure tt) s).1 in
        let row : find (has_id i) (update (has_id i) (moved_trip next s'.now) s'.trips) ≡ some t =
          ground arith in
        record {
          before = p;
          found = found;
          allowed = ground arith;
          verified = ground arith;
          moved = find-moved i s'.now next s'.trips t row;
          stored = ground arith;
        }
  ]

  -- A trip moves to PIN_VERIFIED only by its own PIN, unexpired, and while it is not flagged.
  pub transition-pin_verified :
      (i : ℕ) (actor : Option ℕ) (given : Option Text) (t : Trip) (s : TripStore)
      → (transition i actor TripStatus.pin_verified given s).0 ≡ ok t
      → (p : Trip) × (pin : Text) × (code : Text) × (find (has_id i) s.trips ≡ some p)
        × (present given ≡ some pin)
        × (present p.pin_code ≡ some code)
        × (same_text pin code ≡ true)
        × (some_and (λ e. ltb e s.now) p.pin_expires_at ≡ false)
        × (p.safety_flagged ≡ false)
  unfolding transition verify_pin miss_pin
  transition-pin_verified i actor given t s h = elim (Option-cases (find (has_id i) s.trips)) [
    | inl missing ↦ absurd (ground arith)
    | inr (p, found) ↦ elim (Option-cases (present given)) [
      | inl absent ↦ absurd (ground arith)
      | inr (pin, typed) ↦ elim (Option-cases (present p.pin_code)) [
        | inl unset ↦ absurd (ground arith)
        | inr (code, set) ↦
            (p, pin, code, found, typed, set, ground arith, ground arith, ground arith)
      ]
    ]
  ]

  flagged_refuses :
      (i : ℕ) (actor : Option ℕ) (given : Option Text) (p : Trip) (s : TripStore)
      → find (has_id i) s.trips ≡ some p
      → p.safety_flagged ≡ true
      → (succeeded (transition i actor TripStatus.pin_verified given s).0 ≡ false)
        × ((transition i actor TripStatus.pin_verified given s).1 ≡ s)
  unfolding transition verify_pin
  flagged_refuses i actor given p s found flagged = ground arith

  missed_row :
      (i : ℕ) (actor : Option ℕ) (pin code : Text) (p : Trip) (s : TripStore)
      → find (has_id i) s.trips ≡ some p
      → p.status ≡ TripStatus.driver_arrived
      → IsWrong code pin
      → CanTry s.now code p
      → (find (has_id i) (transition i actor TripStatus.pin_verified (some pin) s).1.trips
          ≡ some (missed_pin (p.failed_pin_attempts + 1) p))
        × ((transition i actor TripStatus.pin_verified (some pin) s).1.now ≡ s.now)
  unfolding transition verify_pin miss_pin allowed_transitions
  missed_row i actor pin code p s found arrived wrong can =
      ground (arith, find-missed i (p.failed_pin_attempts + 1) s.trips p found)

  -- The calls that try one PIN after another.
  abbrev pub try_pins : ℕ → Option ℕ → List Text → TripStore → TripStore
  try_pins i actor [] s = s
  try_pins i actor (w ∷ ws) s =
      try_pins i actor ws (transition i actor TripStatus.pin_verified (some w) s).1

  flagged_stays :
      (i : ℕ) (actor : Option ℕ) (ws : List Text) (p : Trip) (s : TripStore)
      → find (has_id i) s.trips ≡ some p
      → p.safety_flagged ≡ true
      → try_pins i actor ws s ≡ s
  flagged_stays i actor [] p s found flagged = refl
  flagged_stays i actor (w ∷ ws) p s found flagged =
      ap (try_pins i actor ws) (flagged_refuses i actor (some w) p s found flagged).1
      ∙ flagged_stays i actor ws p s found flagged

  -- Where a driver has arrived and the PIN can still be tried, the third miss, earlier ones counted,
  -- ends it: after it no PIN is accepted, the right one included.
  pub wrong_pins_flag :
      (i : ℕ) (actor : Option ℕ) (wrong : List Text) (given : Option Text) (code : Text) (p : Trip)
      (s : TripStore)
      → find (has_id i) s.trips ≡ some p
      → p.status ≡ TripStatus.driver_arrived
      → CanTry s.now code p
      → p.failed_pin_attempts < max_failed_pin_attempts
      → All (IsWrong code) wrong
      → max_failed_pin_attempts ≤ p.failed_pin_attempts + length wrong
      → succeeded (transition i actor TripStatus.pin_verified given (try_pins i actor wrong s)).0
        ≡ false
  wrong_pins_flag i actor [] given code p s found arrived can few misses enough =
      absurd (omega arith)
  wrong_pins_flag i actor (w ∷ ws) given code p s found arrived can few misses enough =
      let (row, clock) = missed_row i actor w code p s found arrived misses.0 can in
      let s' = (transition i actor TripStatus.pin_verified (some w) s).1 in
      let p' = missed_pin (p.failed_pin_attempts + 1) p in
      elim (Bool-cases (leb max_failed_pin_attempts (p.failed_pin_attempts + 1))) [
        | inl last ↦
            ap (λ x. succeeded (transition i actor TripStatus.pin_verified given x).0)
              (flagged_stays i actor ws p' s' row (ground arith))
            ∙ (flagged_refuses i actor given p' s' row (ground arith)).0
        | inr more ↦
            wrong_pins_flag i actor ws given code p' s' row arrived (ground arith) (ground arith)
              misses.1 (omega arith)
      ]
