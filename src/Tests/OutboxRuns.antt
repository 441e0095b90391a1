-- ===== src/Tests/OutboxRuns.antt =====
-- The outbox.
use rydalux_app.Prelude.{◌≡◌, refl, inr, true, false, none, some, [], ◌∷◌, find, arith}
use rydalux_app.Outbox.{
  OutboxStatus, Payload, OutboxEventRecord, Config, Outbox, EnqueueOutboxEventInput, ProcessResult,
  has_id, dead_letter_row, is_due, enqueue, claim_event, process_event, process_pending_events,
  publish_error,
}
use rydalux_app.Outbox.Claim.{claim_event_once, process_event_lem, row_after}
use rydalux_app.Outbox.DeadLetter.{tries, tries_dead_letter}
use rydalux_app.Outbox.Retry.{HasTriesLeft, outbox_calls-HasTriesLeft}

-- The defaults of the service.
abbrev defaults : Config
defaults = record {
  max_attempts = 5;
  base_backoff_ms = 1000;
  max_backoff_ms = 60000;
  processing_lease_ms = 300000;
}

abbrev failing : OutboxEventRecord
failing = record {
  id = 1;
  aggregate_type = "PAYOUT";
  aggregate_id = 6;
  event_type = "PAYOUT_APPROVED";
  payload = Payload.object true;
  status = OutboxStatus.failed;
  attempt_count = 4;
  last_error = some "Simulated publishing failure";
  created_at = 10;
  published_at = none;
  next_attempt_at = some 50;
}

abbrev fine : OutboxEventRecord
fine = record failing {
  id = 2;
  payload = Payload.object false;
  status = OutboxStatus.pending;
  attempt_count = 0;
  last_error = none;
  next_attempt_at = none;
}

abbrev outbox : Outbox
outbox = record {
  now = 100;
  next_id = 3;
  events = failing ∷ fine ∷ [];
  mock_publish_failure = false;
  published_events = [];
}

abbrev input : EnqueueOutboxEventInput
input = record {
  aggregate_type = "PAYOUT";
  aggregate_id = 7;
  event_type = "PAYOUT_REJECTED";
  payload = Payload.object false;
}

claim_event_once_example :
    process_event defaults fine (record (claim_event defaults fine outbox).1 { now = 160 })
    ≡ (ProcessResult.skipped, record (claim_event defaults fine outbox).1 { now = 160 })
claim_event_once_example = claim_event_once defaults fine 160 outbox

fine-is_due : is_due 100 failing ≡ true
unfolding is_due
fine-is_due = refl

process_event_lem_example :
    find (has_id 1) (process_event defaults failing outbox).1.events
    ≡ some (row_after defaults failing (publish_error false (Payload.object true)) 100)
process_event_lem_example = process_event_lem defaults failing outbox refl fine-is_due

outbox_calls-HasTriesLeft_example :
    HasTriesLeft defaults (enqueue input outbox)
    × HasTriesLeft defaults (process_pending_events defaults 100 outbox).1
outbox_calls-HasTriesLeft_example =
    outbox_calls-HasTriesLeft defaults input 100 outbox (omega arith)
      (inr (omega arith), (inr (omega arith), tt))

abbrev fading : OutboxEventRecord
fading = record failing { attempt_count = 2 }

abbrev fading_outbox : Outbox
fading_outbox = record outbox { events = fine ∷ fading ∷ [] }

tries_dead_letter_example :
    find (has_id 1) (tries defaults (0 ∷ 500 ∷ 7 ∷ []) 1 fading_outbox).events
    ≡ some (dead_letter_row "Simulated publishing failure" 5 fading)
tries_dead_letter_example =
    tries_dead_letter defaults fading "Simulated publishing failure" 0 (500 ∷ 7 ∷ []) fading_outbox
      (record { stands = refl; waits = refl; throws = refl }) refl
