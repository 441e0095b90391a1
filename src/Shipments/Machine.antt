-- ===== src/Shipments/Machine.antt =====
-- The states of a shipment and the moves between them, in
-- services/api/src/shipments/shipment-state-machine.ts.
pub mod Reach
use rydalux_app.Prelude.{
  ⊤, Bool, true, false, not, ◌&&◌, ◌||◌, List, [], ◌∷◌, any, ◌==◌, ℕ, String, length, if◌then◌else◌,
}
use rydalux_app.Service.{Result, ok, err, internal}

pub data ShipmentStatus : Type 0 where
  draft quoted requested driver_assigned pickup_arrived pickup_verified in_transit delivery_arrived
        delivery_verified delivered cancelled disputed expired :
      ShipmentStatus

-- The place in the enum, to compare by.
abbrev pub number : ShipmentStatus → ℕ
number ShipmentStatus.draft = 0
number ShipmentStatus.quoted = 1
number ShipmentStatus.requested = 2
number ShipmentStatus.driver_assigned = 3
number ShipmentStatus.pickup_arrived = 4
number ShipmentStatus.pickup_verified = 5
number ShipmentStatus.in_transit = 6
number ShipmentStatus.delivery_arrived = 7
number ShipmentStatus.delivery_verified = 8
number ShipmentStatus.delivered = 9
number ShipmentStatus.cancelled = 10
number ShipmentStatus.disputed = 11
number ShipmentStatus.expired = 12

abbrev pub is_status : ShipmentStatus → ShipmentStatus → Bool
is_status s t = number s == number t

-- `ALLOWED_TRANSITIONS`, which is also `getAllowedNextStates`.
unfoldable pub allowed_transitions : ShipmentStatus → List ShipmentStatus
allowed_transitions ShipmentStatus.draft = ShipmentStatus.quoted ∷ ShipmentStatus.cancelled ∷ []
allowed_transitions ShipmentStatus.quoted =
    ShipmentStatus.requested ∷ ShipmentStatus.cancelled ∷ ShipmentStatus.expired ∷ []
allowed_transitions ShipmentStatus.requested =
    ShipmentStatus.driver_assigned ∷ ShipmentStatus.cancelled ∷ ShipmentStatus.expired ∷ []
allowed_transitions ShipmentStatus.driver_assigned =
    ShipmentStatus.pickup_arrived ∷ ShipmentStatus.cancelled ∷ ShipmentStatus.expired ∷ []
allowed_transitions ShipmentStatus.pickup_arrived =
    ShipmentStatus.pickup_verified ∷ ShipmentStatus.cancelled ∷ []
allowed_transitions ShipmentStatus.pickup_verified =
    ShipmentStatus.in_transit ∷ ShipmentStatus.cancelled ∷ []
allowed_transitions ShipmentStatus.in_transit =
    ShipmentStatus.delivery_arrived ∷ ShipmentStatus.cancelled ∷ []
allowed_transitions ShipmentStatus.delivery_arrived =
    ShipmentStatus.delivery_verified ∷ ShipmentStatus.cancelled ∷ []
allowed_transitions ShipmentStatus.delivery_verified = ShipmentStatus.delivered ∷ []
allowed_transitions ShipmentStatus.delivered = []
allowed_transitions ShipmentStatus.cancelled = []
allowed_transitions ShipmentStatus.disputed = []
allowed_transitions ShipmentStatus.expired = []

unfoldable pub can_transition : ShipmentStatus → ShipmentStatus → Bool
can_transition current next = any (is_status next) (allowed_transitions current)

unfoldable pub assert_transition : ShipmentStatus → ShipmentStatus → Result ⊤
assert_transition current next =
    if can_transition current next then ok tt else err (internal "Invalid state transition")

unfoldable pub is_terminal_state : ShipmentStatus → Bool
is_terminal_state state = length (allowed_transitions state) == 0

pub data StateCategory : Type 0 where
  draft active terminal : StateCategory

abbrev pub is_any : ShipmentStatus → List ShipmentStatus → Bool
is_any state states = any (is_status state) states

-- The four states that the category and the test on cancelling name.
abbrev pub final_states : List ShipmentStatus
final_states =
    ShipmentStatus.delivered ∷ ShipmentStatus.cancelled ∷ ShipmentStatus.disputed
    ∷ ShipmentStatus.expired ∷ []

unfoldable pub get_state_category : ShipmentStatus → StateCategory
get_state_category state =
    if is_status state ShipmentStatus.draft || is_status state ShipmentStatus.quoted
    then StateCategory.draft
    else if is_any state final_states
    then StateCategory.terminal
    else StateCategory.active

unfoldable pub can_be_cancelled : ShipmentStatus → Bool
can_be_cancelled state = not (is_any state final_states)

unfoldable pub is_in_delivery_phase : ShipmentStatus → Bool
is_in_delivery_phase state =
    is_status state ShipmentStatus.in_transit
    || is_status state ShipmentStatus.delivery_arrived
    || is_status state ShipmentStatus.delivery_verified

pub data OtpType : Type 0 where
  pickup delivery : OtpType

unfoldable pub requires_otp_verification : ShipmentStatus → OtpType → Bool
requires_otp_verification state OtpType.pickup = is_status state ShipmentStatus.pickup_arrived
requires_otp_verification state OtpType.delivery = is_status state ShipmentStatus.delivery_arrived

unfoldable pub get_state_label : ShipmentStatus → String
get_state_label ShipmentStatus.draft = "Draft"
get_state_label ShipmentStatus.quoted = "Quote Generated"
get_state_label ShipmentStatus.requested = "Requested"
get_state_label ShipmentStatus.driver_assigned = "Driver Assigned"
get_state_label ShipmentStatus.pickup_arrived = "Driver at Pickup"
get_state_label ShipmentStatus.pickup_verified = "Pickup Verified"
get_state_label ShipmentStatus.in_transit = "In Transit"
get_state_label ShipmentStatus.delivery_arrived = "Driver at Delivery"
get_state_label ShipmentStatus.delivery_verified = "Delivery Verified"
get_state_label ShipmentStatus.delivered = "Delivered"
get_state_label ShipmentStatus.cancelled = "Cancelled"
get_state_label ShipmentStatus.disputed = "Disputed"
get_state_label ShipmentStatus.expired = "Expired"
