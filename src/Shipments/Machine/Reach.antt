-- ===== src/Shipments/Machine/Reach.antt =====
-- What the table of moves implies: terminal states, the codes on the way to a delivery, and where
-- the test on cancelling leaves the table.
use rydalux_app.Prelude.{
  ◌≡◌, ◌↔◌, ◌⊎◌, true, false, refl, arith, ◌&&◌, List, [], ◌∷◌, ◌<◌, ◌-◌, drop,
}
use rydalux_app.Shipments.Machine.{
  ShipmentStatus, allowed_transitions, can_transition, is_terminal_state, StateCategory,
  get_state_category, can_be_cancelled, number,
}

-- The states that a shipment goes through, newest first.
pub data Run : List ShipmentStatus → Type 0 where
  start : Run (ShipmentStatus.draft ∷ [])
  move :
      {s t : ShipmentStatus} {before : List ShipmentStatus}
      → can_transition s t ≡ true
      → Run (s ∷ before)
      → Run (t ∷ s ∷ before)

-- A state is terminal by the table just when its category is, and no move leaves a terminal state.
pub is_terminal_state_lem :
    (s t : ShipmentStatus)
    → (is_terminal_state s ≡ true ↔ get_state_category s ≡ StateCategory.terminal)
      × ((is_terminal_state s && can_transition s t) ≡ false)
unfolding is_terminal_state get_state_category can_transition allowed_transitions
is_terminal_state_lem s t = ground arith

-- `canBeCancelled` answers yes on the states from which the table allows a cancellation, and on
-- `DELIVERY_VERIFIED`, from which it does not.
pub can_be_cancelled_lem :
    (s : ShipmentStatus)
    → can_be_cancelled s ≡ true
      ↔ (can_transition s ShipmentStatus.cancelled ≡ true) ⊎ (s ≡ ShipmentStatus.delivery_verified)
unfolding can_be_cancelled can_transition allowed_transitions
can_be_cancelled_lem s = ground arith

-- The stages before a state on the way to a delivery, latest first.
abbrev pub stages : List ShipmentStatus
stages =
    ShipmentStatus.delivery_verified ∷ ShipmentStatus.delivery_arrived ∷ ShipmentStatus.in_transit
    ∷ ShipmentStatus.pickup_verified ∷ ShipmentStatus.pickup_arrived
    ∷ ShipmentStatus.driver_assigned ∷ ShipmentStatus.requested ∷ ShipmentStatus.quoted
    ∷ ShipmentStatus.draft ∷ []

abbrev pub stages_before : ShipmentStatus → List ShipmentStatus
stages_before s = drop (9 - number s) stages

-- A move to a stage comes from the stage before it.
move-stages :
    (s t : ShipmentStatus) (before : List ShipmentStatus)
    → can_transition s t ≡ true
    → number t < 10
    → (number s < 10 → before ≡ stages_before s)
    → s ∷ before ≡ stages_before t
unfolding can_transition allowed_transitions
move-stages s t before h k ih = ground arith

-- A shipment that has reached a stage of the delivery has been through all the stages before it, in
-- their order and through each once.
pub Run-stages :
    (s : ShipmentStatus) (before : List ShipmentStatus)
    → Run (s ∷ before)
    → number s < 10
    → before ≡ stages_before s
Run-stages _ _ start h = refl
Run-stages _ _ (move {s} {t} {before} e run) h =
    move-stages s t before e h (Run-stages s before run)

not_to_disputed : (s : ShipmentStatus) → ¬ can_transition s ShipmentStatus.disputed ≡ true
unfolding can_transition allowed_transitions
not_to_disputed s h = ground arith

-- No run of moves reaches `DISPUTED`.
pub Run-not_disputed : (before : List ShipmentStatus) → ¬ Run (ShipmentStatus.disputed ∷ before)
Run-not_disputed _ (move {s} e run) = not_to_disputed s e
