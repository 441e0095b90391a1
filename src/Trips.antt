-- ===== src/Trips.antt =====
-- Trips, in services/api/src/trips/trips.service.ts: the states of a trip and the calls that move it.
pub mod Life
use rydalux_app.Prelude.{
  ℕ, ◌+◌, ⊤, Bool, true, false, not, ◌&&◌, ◌||◌, Option, none, some, List, [], ◌∷◌, String, find,
  update, any, ◌==◌, ltb, leb, is_some, is_none, some_and, same_text, if◌then◌else◌,
}
use rydalux_app.Money.{Text}
use rydalux_app.Money.Column.{DecimalText}
use rydalux_app.Service.{
  Action, Result, ok, err, bad_request, forbidden, not_found, pure, raise, gets, or_raise, raise_if,
  modify, ◌>>=◌, ◌>>◌,
}
use rydalux_app.Finance.State.{Db}
use rydalux_app.Finance.Payments.{capture_payment_for_trip}

pub data TripStatus : Type 0 where
  draft quoted requested driver_assigned driver_arriving driver_arrived pin_verified in_progress
        completed cancelled_by_rider cancelled_by_driver expired disputed :
      TripStatus

abbrev pub number : TripStatus → ℕ
number TripStatus.draft = 0
number TripStatus.quoted = 1
number TripStatus.requested = 2
number TripStatus.driver_assigned = 3
number TripStatus.driver_arriving = 4
number TripStatus.driver_arrived = 5
number TripStatus.pin_verified = 6
number TripStatus.in_progress = 7
number TripStatus.completed = 8
number TripStatus.cancelled_by_rider = 9
number TripStatus.cancelled_by_driver = 10
number TripStatus.expired = 11
number TripStatus.disputed = 12

abbrev pub is_status : TripStatus → TripStatus → Bool
is_status s t = number s == number t

-- `ALLOWED_TRANSITIONS`
unfoldable pub allowed_transitions : TripStatus → List TripStatus
allowed_transitions TripStatus.draft = TripStatus.quoted ∷ []
allowed_transitions TripStatus.quoted = TripStatus.requested ∷ TripStatus.expired ∷ []
allowed_transitions TripStatus.requested =
    TripStatus.driver_assigned ∷ TripStatus.cancelled_by_rider ∷ TripStatus.expired ∷ []
allowed_transitions TripStatus.driver_assigned =
    TripStatus.driver_arriving ∷ TripStatus.cancelled_by_rider ∷ TripStatus.cancelled_by_driver
    ∷ TripStatus.expired ∷ []
allowed_transitions TripStatus.driver_arriving =
    TripStatus.driver_arrived ∷ TripStatus.cancelled_by_rider ∷ TripStatus.cancelled_by_driver
    ∷ TripStatus.expired ∷ []
allowed_transitions TripStatus.driver_arrived =
    TripStatus.pin_verified ∷ TripStatus.in_progress ∷ TripStatus.cancelled_by_rider
    ∷ TripStatus.cancelled_by_driver ∷ []
allowed_transitions TripStatus.pin_verified =
    TripStatus.in_progress ∷ TripStatus.cancelled_by_rider ∷ TripStatus.cancelled_by_driver ∷ []
allowed_transitions TripStatus.in_progress =
    TripStatus.completed ∷ TripStatus.cancelled_by_driver ∷ TripStatus.disputed ∷ []
allowed_transitions TripStatus.completed = []
allowed_transitions TripStatus.cancelled_by_rider = []
allowed_transitions TripStatus.cancelled_by_driver = []
allowed_transitions TripStatus.expired = []
allowed_transitions TripStatus.disputed = []

-- `HIGH_RISK_STATES`, the changes to which are audited.
abbrev pub is_high_risk : TripStatus → Bool
is_high_risk TripStatus.draft = false
is_high_risk TripStatus.quoted = false
is_high_risk TripStatus.requested = false
is_high_risk _ = true

abbrev pub max_failed_pin_attempts : ℕ
max_failed_pin_attempts = 3

pub record Trip : Type 0 where
  pub id : ℕ
  pub status : TripStatus
  pub driver_profile_id : Option ℕ
  pub pin_code : Option Text
  pub pin_expires_at : Option ℕ
  pub failed_pin_attempts : ℕ
  pub safety_flagged : Bool
  pub arrived_at : Option ℕ
  pub started_at : Option ℕ
  pub completed_at : Option ℕ
  pub cancelled_at : Option ℕ

pub data TripEventType : Type 0 where
  state_change : TripStatus → TripEventType
  pin_verification_failed : ℕ → TripEventType
  safety_flag_triggered pin_was_verified dispatch_accepted dispatch_rejected : TripEventType
  shipment_delivered shipment_proof_submitted : TripEventType

pub record TripEvent : Type 0 where
  pub trip_id : ℕ
  pub event_type : TripEventType

pub record TripAudit : Type 0 where
  pub actor_id : Option ℕ
  pub trip_id : ℕ
  pub status : TripStatus

-- The tables of the trips, newest row first, beside those of the finances.
pub record TripStore : Type 0 where
  pub now : ℕ
  pub trips : List Trip
  pub events : List TripEvent
  pub audit_logs : List TripAudit
  pub finance : Db

abbrev pub has_id : ℕ → Trip → Bool
has_id i t = t.id == i

abbrev pub update_trip : ℕ → (Trip → Trip) → TripStore → TripStore
update_trip i f s = record s { trips = update (has_id i) f s.trips }

abbrev pub add_event : ℕ → TripEventType → TripStore → TripStore
add_event trip type s = record s {
  events = record { trip_id = trip; event_type = type } ∷ s.events;
}

-- The PIN given up, with its counters.
abbrev pub cleared_pin : ℕ → Trip → Trip
cleared_pin now t = record t {
  pin_code = none;
  pin_expires_at = some now;
  failed_pin_attempts = 0;
  safety_flagged = false;
}

-- A PIN that has run out; the flag is left as it is.
abbrev pub expired_pin : ℕ → Trip → Trip
expired_pin now t = record t { pin_code = none; pin_expires_at = some now; failed_pin_attempts = 0 }

abbrev pub missed_pin : ℕ → Trip → Trip
missed_pin attempts t = record t {
  failed_pin_attempts = attempts;
  safety_flagged = leb max_failed_pin_attempts attempts || t.safety_flagged;
}

-- A text that is there and not empty.
abbrev pub present : Option Text → Option Text
present none = none
present (some []) = none
present (some (c ∷ cs)) = some (c ∷ cs)

-- A wrong PIN: the miss is stored before the throw.
unfoldable pub miss_pin : Trip → Action TripStore ⊤
miss_pin stored = do
  let attempts = stored.failed_pin_attempts + 1
  modify (update_trip stored.id (missed_pin attempts))
  modify (add_event stored.id (TripEventType.pin_verification_failed attempts))
  if leb max_failed_pin_attempts attempts
      then modify (add_event stored.id TripEventType.safety_flag_triggered)
        >> raise (forbidden "Too many failed PIN attempts, safety flagged.")
      else raise (bad_request "Invalid PIN")

-- The PIN's check in `transition`.
unfoldable pub verify_pin : Trip → Option Text → Action TripStore ⊤
verify_pin stored given = do
  pin ← or_raise (present given) (bad_request "PIN is required to verify the trip.")
  code ← or_raise (present stored.pin_code) (bad_request "No PIN is set for this trip.")
  raise_if stored.safety_flagged
      (forbidden "Trip is safety-flagged due to repeated failed PIN attempts.")
  now ← gets (λ s. s.now)
  if some_and (λ t. ltb t now) stored.pin_expires_at
      then modify (update_trip stored.id (expired_pin now))
        >> raise (bad_request "PIN has expired.")
      else if not (same_text pin code)
      then miss_pin stored
      else modify (update_trip stored.id (cleared_pin now))
        >> modify (add_event stored.id TripEventType.pin_was_verified)

-- The status with its time stamp.
abbrev pub moved_trip : TripStatus → ℕ → Trip → Trip
moved_trip next now t = record t {
  status = next;
  arrived_at = if is_status next TripStatus.driver_arrived then some now else t.arrived_at;
  started_at = if is_status next TripStatus.in_progress then some now else t.started_at;
  completed_at = if is_status next TripStatus.completed then some now else t.completed_at;
  cancelled_at =
      if is_status next TripStatus.cancelled_by_rider
        || is_status next TripStatus.cancelled_by_driver
      then some now
      else t.cancelled_at;
}

-- The transaction in `transition`.
abbrev pub move_trip : ℕ → Option ℕ → TripStatus → TripStore → TripStore
move_trip i actor next s =
    let s' =
      add_event i (TripEventType.state_change next) (update_trip i (moved_trip next s.now) s) in
    if is_high_risk next
    then record s' {
      audit_logs = record { actor_id = actor; trip_id = i; status = next } ∷ s'.audit_logs;
    }
    else s'

module _ ⦃decimal : DecimalText⦄ where
  abbrev pub capture_for : Trip → Action TripStore ⊤
  capture_for trip s =
      let (r, db) = capture_payment_for_trip trip.id trip.driver_profile_id s.finance in
      (r, record s { finance = db })

  -- `transition`, with the row that it leaves as the answer.
  unfoldable pub transition : ℕ → Option ℕ → TripStatus → Option Text → Action TripStore Trip
  transition trip_id actor next pin = do
    row ← gets (λ s. find (has_id trip_id) s.trips)
    trip ← or_raise row (not_found "Trip not found")
    raise_if (not (any (is_status next) (allowed_transitions trip.status)))
        (bad_request "Invalid transition")
    if is_status next TripStatus.pin_verified then verify_pin trip pin else pure tt
    raise_if
        ((is_status next TripStatus.cancelled_by_rider
            || is_status next TripStatus.cancelled_by_driver)
          && is_status trip.status TripStatus.completed)
        (bad_request "Cannot cancel a completed trip")
    raise_if
        (is_status next TripStatus.in_progress
          && not (is_status trip.status TripStatus.pin_verified))
        (forbidden "Driver must verify PIN before starting the trip")
    modify (move_trip trip_id actor next)
    updated ← gets (λ s. find (has_id trip_id) s.trips)
    t ← or_raise updated (not_found "Trip not found")
    if is_status next TripStatus.completed then capture_for t else pure tt
    pure t

abbrev pub is_driver : ℕ → Option ℕ → Bool
is_driver driver o = some_and (λ d. d == driver) o

-- The guard that accepting and rejecting a dispatch share.
abbrev pub is_dispatched_to : ℕ → Trip → Bool
is_dispatched_to driver t =
    is_status t.status TripStatus.driver_assigned && is_driver driver t.driver_profile_id

unfoldable pub accept_dispatch : ℕ → ℕ → Action TripStore ⊤
accept_dispatch trip_id driver = do
  row ← gets (λ s. find (has_id trip_id) s.trips)
  trip ← or_raise row (not_found "Trip not found")
  raise_if (not (is_dispatched_to driver trip))
      (bad_request "No active dispatch request for this driver.")
  modify (update_trip trip_id (λ t. record t { status = TripStatus.driver_arriving }))
  modify (add_event trip_id TripEventType.dispatch_accepted)

unfoldable pub reject_dispatch : ℕ → ℕ → Action TripStore ⊤
reject_dispatch trip_id driver = do
  row ← gets (λ s. find (has_id trip_id) s.trips)
  trip ← or_raise row (not_found "Trip not found")
  raise_if (not (is_dispatched_to driver trip))
      (bad_request "No active dispatch request for this driver.")
  now ← gets (λ s. s.now)
  modify (update_trip trip_id (λ t. record (cleared_pin now t) { status = TripStatus.requested }))
  modify (add_event trip_id TripEventType.dispatch_rejected)
