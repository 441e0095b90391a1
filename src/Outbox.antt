-- ===== src/Outbox.antt =====
-- The transactional outbox, in services/api/src/outbox/outbox.service.ts.
pub mod Claim
pub mod DeadLetter
pub mod Retry
use rydalux_app.Prelude.{
  ℕ, zero, ◌+◌, ◌-◌, ◌*◌, ◌^◌, min, ⊤, Bool, true, false, not, ◌&&◌, ◌||◌, Option, none, some, List,
  [], ◌∷◌, ◌++◌, String, find, update, select, take, any, ◌==◌, leb, is_none, some_and,
  if◌then◌else◌,
}

pub data OutboxStatus : Type 0 where
  pending processing published failed dead_letter : OutboxStatus

-- The payload, as far as `publishEvent` looks at it: a JSON object, with whether its `failPublish`
-- is true, or another value.
pub data Payload : Type 0 where
  object : Bool → Payload
  other : Payload

pub record OutboxEventRecord : Type 0 where
  pub id : ℕ
  pub aggregate_type : String
  pub aggregate_id : ℕ
  pub event_type : String
  pub payload : Payload
  pub status : OutboxStatus
  pub attempt_count : ℕ
  pub last_error : Option String
  pub created_at : ℕ
  pub published_at : Option ℕ
  pub next_attempt_at : Option ℕ

-- The numbers that the service takes from the environment.
pub record Config : Type 0 where
  pub max_attempts : ℕ
  pub base_backoff_ms : ℕ
  pub max_backoff_ms : ℕ
  pub processing_lease_ms : ℕ

-- The table, oldest row first, and the service's own fields.
pub record Outbox : Type 0 where
  pub now : ℕ
  pub next_id : ℕ
  pub events : List OutboxEventRecord
  pub mock_publish_failure : Bool
  pub published_events : List OutboxEventRecord

pub record EnqueueOutboxEventInput : Type 0 where
  pub aggregate_type : String
  pub aggregate_id : ℕ
  pub event_type : String
  pub payload : Payload

abbrev pub status_number : OutboxStatus → ℕ
status_number OutboxStatus.pending = 0
status_number OutboxStatus.processing = 1
status_number OutboxStatus.published = 2
status_number OutboxStatus.failed = 3
status_number OutboxStatus.dead_letter = 4

abbrev pub is_status : OutboxStatus → OutboxStatus → Bool
is_status s t = status_number s == status_number t

abbrev pub has_id : ℕ → OutboxEventRecord → Bool
has_id i e = e.id == i

abbrev pub update_event : ℕ → (OutboxEventRecord → OutboxEventRecord) → Outbox → Outbox
update_event i f s = record s { events = update (has_id i) f s.events }

abbrev pub new_event : EnqueueOutboxEventInput → ℕ → ℕ → OutboxEventRecord
new_event data_ i now = record {
  id = i;
  aggregate_type = data_.aggregate_type;
  aggregate_id = data_.aggregate_id;
  event_type = data_.event_type;
  payload = data_.payload;
  status = OutboxStatus.pending;
  attempt_count = 0;
  last_error = none;
  created_at = now;
  published_at = none;
  next_attempt_at = none;
}

-- `enqueue`, and `create`, which calls it.
unfoldable pub enqueue : EnqueueOutboxEventInput → Outbox → Outbox
enqueue data_ s = record s {
  next_id = s.next_id + 1;
  events = s.events ++ new_event data_ s.next_id s.now ∷ [];
}

-- The filter of `listPendingEvents`: a time that is missing is due, but not for a row in process.
unfoldable pub is_due : ℕ → OutboxEventRecord → Bool
is_due now e =
    let reached = some_and (λ t. leb t now) e.next_attempt_at in
    (is_status e.status OutboxStatus.pending && (is_none e.next_attempt_at || reached))
    || (is_status e.status OutboxStatus.failed && (is_none e.next_attempt_at || reached))
    || (is_status e.status OutboxStatus.processing && reached)

unfoldable pub list_pending_events : ℕ → Outbox → List OutboxEventRecord
list_pending_events limit s = take limit (select (is_due s.now) s.events)

abbrev pub published_row : ℕ → OutboxEventRecord → OutboxEventRecord
published_row now e = record e {
  status = OutboxStatus.published;
  published_at = some now;
  next_attempt_at = none;
  last_error = none;
}

-- `markPublished`, on rows that are still in process.
unfoldable pub mark_published : ℕ → Outbox → Outbox
mark_published i s =
    update_event i
      (λ e. if is_status e.status OutboxStatus.processing then published_row s.now e else e) s

abbrev pub dead_letter_row : String → ℕ → OutboxEventRecord → OutboxEventRecord
dead_letter_row message attempts e = record e {
  status = OutboxStatus.dead_letter;
  attempt_count = attempts;
  last_error = some message;
  next_attempt_at = none;
  published_at = none;
}

abbrev pub failed_row : String → ℕ → ℕ → OutboxEventRecord → OutboxEventRecord
failed_row message attempts next e = record e {
  status = OutboxStatus.failed;
  attempt_count = attempts;
  last_error = some message;
  next_attempt_at = some next;
  published_at = none;
}

-- Why `publishEvent` throws, if it does.
abbrev pub publish_error : Bool → Payload → Option String
publish_error true p = some "Simulated publishing failure"
publish_error false Payload.other = some "Outbox event payload must be a JSON object"
publish_error false (Payload.object true) = some "Simulated publishing failure"
publish_error false (Payload.object false) = none

pub data ProcessResult : Type 0 where
  published failed dead_lettered skipped : ProcessResult

-- The results of a pass, counted.
pub record Counts : Type 0 where
  pub published : ℕ
  pub failed : ℕ
  pub dead_lettered : ℕ
  pub skipped : ℕ

abbrev pub no_results : Counts
no_results = record { published = 0; failed = 0; dead_lettered = 0; skipped = 0 }

abbrev pub add_result : ProcessResult → Counts → Counts
add_result ProcessResult.published c = record c { published = c.published + 1 }
add_result ProcessResult.failed c = record c { failed = c.failed + 1 }
add_result ProcessResult.dead_lettered c = record c { dead_lettered = c.dead_lettered + 1 }
add_result ProcessResult.skipped c = record c { skipped = c.skipped + 1 }

-- The rows that the claim's `updateMany` changes: those that are as the snapshot has them.
abbrev pub is_as_read : OutboxEventRecord → OutboxEventRecord → Bool
is_as_read event row =
    has_id event.id row
    && is_status row.status event.status
    && (row.attempt_count == event.attempt_count)

abbrev pub claimed_row : ℕ → ℕ → OutboxEventRecord → OutboxEventRecord
claimed_row attempts lease_end e = record e {
  status = OutboxStatus.processing;
  attempt_count = attempts;
  last_error = none;
  next_attempt_at = some lease_end;
}

module _ (config : Config) where
  -- `calculateNextAttemptAt`, from now on.
  unfoldable pub backoff_delay : ℕ → ℕ
  backoff_delay attempts = min (config.base_backoff_ms * 2 ^ (attempts - 1)) config.max_backoff_ms

  -- `markFailed` with an attempt count, and the `markDeadLetter` that it turns into.
  unfoldable pub mark_failed : ℕ → String → ℕ → Outbox → Outbox
  mark_failed i message attempts s =
      if leb config.max_attempts attempts
      then update_event i (dead_letter_row message attempts) s
      else update_event i (failed_row message attempts (s.now + backoff_delay attempts)) s

  -- The claim in `processEvent`, with whether a row was changed.
  unfoldable pub claim_event : OutboxEventRecord → Outbox → Bool × Outbox
  claim_event event s = (
    any (is_as_read event) s.events,
    record s {
      events =
          update (is_as_read event)
            (claimed_row (event.attempt_count + 1) (s.now + config.processing_lease_ms)) s.events;
    },
  )

  -- The `try` in `processEvent` and its `catch`, by what publishing the event came to.
  unfoldable pub settle_event : OutboxEventRecord → Option String → Outbox → ProcessResult × Outbox
  settle_event event none s = (
    ProcessResult.published,
    mark_published event.id (record s {
      published_events =
          s.published_events
          ++ record event {
            status = OutboxStatus.processing;
            attempt_count = event.attempt_count + 1;
          }
            ∷ [];
    }),
  )
  settle_event event (some message) s = (
    (if leb config.max_attempts (event.attempt_count + 1)
        then ProcessResult.dead_lettered
        else ProcessResult.failed),
    mark_failed event.id message (event.attempt_count + 1) s,
  )

  unfoldable pub process_event : OutboxEventRecord → Outbox → ProcessResult × Outbox
  process_event event s =
      let (claimed, s') = claim_event event s in
      if is_status event.status OutboxStatus.published
        || is_status event.status OutboxStatus.dead_letter
      then (ProcessResult.skipped, s)
      else if claimed
      then settle_event event (publish_error s'.mock_publish_failure event.payload) s'
      else (ProcessResult.skipped, s')

  -- The loop of `processPendingEvents`.
  unfoldable pub process_each : List OutboxEventRecord → Counts → Outbox → Counts × Outbox
  process_each [] counts s = (counts, s)
  process_each (e ∷ es) counts s =
      let (r, s') = process_event e s in process_each es (add_result r counts) s'

  unfoldable pub process_pending_events : ℕ → Outbox → Counts × Outbox
  process_pending_events limit s = process_each (list_pending_events limit s) no_results s
