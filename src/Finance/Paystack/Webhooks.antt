-- ===== src/Finance/Paystack/Webhooks.antt =====
-- The provider's webhooks: each is stored once, processed until it is done, and may be retried or
-- given up by an admin.
use rydalux_app.Prelude.{
  ℕ, ◌+◌, ⊤, Bool, true, false, not, ◌&&◌, ◌||◌, Option, none, some, ◌∷◌, ◌++◌, [], find, ◌==◌,
  is_some, or_option, or_default, same_text, if◌then◌else◌,
}
use rydalux_app.Money.{Text, codes}
use rydalux_app.Money.Column.{DecimalText}
use rydalux_app.Service.{
  Action, Error, message, ok, bad_request, not_found, internal, pure, gets, or_raise, raise_if,
  modify, attempt, ◌>>=◌, ◌>>◌,
}
use rydalux_app.Finance.State.{
  ProviderEventStatus, ProviderEvent, WebhookPayload, WebhookData, AuditAction, Db,
}
use rydalux_app.Finance.Payments.{audit}
use rydalux_app.Finance.Paystack.Api.{PaystackApi, is_text}
use rydalux_app.Finance.Paystack.Rows.{is_event_row, update_event, create_event, minutes_later}
use rydalux_app.Finance.Paystack.Charges.{handle_charge_success, handle_charge_failed}
use rydalux_app.Finance.Paystack.Transfers.{handle_transfer_success, handle_transfer_failed}
use rydalux_app.Finance.Paystack.Refunds.{handle_refund_event}
use rydalux_app.Finance.Paystack.Disputes.{handle_dispute_event, id_text}

-- `s.startsWith(p)`
abbrev pub starts_with : Text → Text → Bool
starts_with [] s = true
starts_with (c ∷ p) [] = false
starts_with (c ∷ p) (d ∷ s) = (c == d) && starts_with p s

unfoldable pub is_dispute_event : Text → Bool
is_dispute_event event = starts_with (codes "charge.dispute.") event

-- The kinds of event that the service tells apart, in the order of its tests.
pub data EventKind : Type 0 where
  charge_success charge_failed transfer_success transfer_failed : EventKind
  refund_update dispute_update unhandled : EventKind

unfoldable pub event_kind : Text → EventKind
event_kind event =
    if is_text "charge.success" event
    then EventKind.charge_success
    else if is_text "charge.failed" event
    then EventKind.charge_failed
    else if is_text "transfer.success" event
    then EventKind.transfer_success
    else if is_text "transfer.failed" event
    then EventKind.transfer_failed
    else if is_text "refund.pending" event
        || is_text "refund.processed" event
        || is_text "refund.failed" event
    then EventKind.refund_update
    else if is_dispute_event event
    then EventKind.dispute_update
    else EventKind.unhandled

module _ ⦃decimal : DecimalText⦄ ⦃api : PaystackApi⦄ where
  unfoldable pub dispatch : EventKind → Text → WebhookData → Action Db Bool
  dispatch EventKind.charge_success event body = handle_charge_success body
  dispatch EventKind.charge_failed event body = handle_charge_failed body
  dispatch EventKind.transfer_success event body = handle_transfer_success body
  dispatch EventKind.transfer_failed event body = handle_transfer_failed body
  dispatch EventKind.refund_update event body = handle_refund_event event body
  dispatch EventKind.dispute_update event body = handle_dispute_event event body
  dispatch EventKind.unhandled event body = pure true

-- A new attempt.
abbrev pub start_attempt : ProviderEvent → ProviderEvent
start_attempt e = record e {
  status = ProviderEventStatus.pending;
  attempt_count = e.attempt_count + 1;
  last_error = none;
  next_retry_at = none;
  dead_lettered_at = none;
}

abbrev pub finish_attempt : ℕ → ProviderEvent → ProviderEvent
finish_attempt now e = record e {
  status = ProviderEventStatus.processed;
  processed_at = some now;
  last_error = none;
  next_retry_at = none;
}

abbrev pub fail_attempt : Text → ℕ → ProviderEvent → ProviderEvent
fail_attempt error now e = record e {
  status = ProviderEventStatus.failed;
  last_error = some error;
  next_retry_at = some (minutes_later 5 now);
}

module _ ⦃decimal : DecimalText⦄ ⦃api : PaystackApi⦄ where
  -- The `try` of `processProviderEvent`.
  unfoldable pub try_event : ℕ → WebhookPayload → Action Db ⊤
  try_event event_id payload = do
    processed ← dispatch (event_kind payload.event) payload.event payload.payload_data
    raise_if (not processed) (internal "Provider event was not processed.")
    modify (λ db. update_event event_id (finish_attempt db.now) db)

  -- Its `catch`; the error does not leave.
  unfoldable pub fail_event : ℕ → Error → Action Db ⊤
  fail_event event_id error =
      modify (λ db. update_event event_id (fail_attempt (codes (message error)) db.now) db)

  -- `processProviderEvent`
  unfoldable pub process_provider_event : ℕ → WebhookPayload → Action Db ⊤
  process_provider_event event_id payload = do
    modify (update_event event_id start_attempt)
    attempt (try_event event_id payload) (fail_event event_id)

-- The reference that the event is listed under.
abbrev pub webhook_reference : WebhookData → Option Text
webhook_reference body =
    or_option body.reference
      (or_option body.transfer_code (or_option body.refund_reference body.transaction_reference))

abbrev pub has_event_id : Text → ProviderEvent → Bool
has_event_id id e = same_text e.provider_event_id id

abbrev pub new_event : Text → WebhookPayload → ℕ → ProviderEvent
new_event id payload i = record {
  id = i;
  provider_event_id = id;
  event_type = payload.event;
  reference = webhook_reference payload.payload_data;
  payload = payload;
  status = ProviderEventStatus.pending;
  attempt_count = 0;
  last_error = none;
  next_retry_at = none;
  processed_at = none;
  dead_lettered_at = none;
}

-- `recordProviderEvent`: an upsert that changes nothing where the row is there.
unfoldable pub record_provider_event : Text → WebhookPayload → Action Db ProviderEvent
record_provider_event id payload db = elim (find (has_event_id id) db.provider_events) [
  | some stored ↦ (ok stored, db)
  | none ↦ (ok (new_event id payload db.next_id), create_event (new_event id payload db.next_id) db)
]

abbrev pub is_dead : ProviderEventStatus → Bool
is_dead ProviderEventStatus.dead_letter = true
is_dead _ = false

-- `refreshed?.status`
abbrev pub status_of : Option ProviderEvent → Option ProviderEventStatus
status_of none = none
status_of (some e) = some e.status

abbrev pub is_done : ProviderEventStatus → Bool
is_done ProviderEventStatus.processed = true
is_done _ = false

module _ ⦃decimal : DecimalText⦄ ⦃api : PaystackApi⦄ where
  -- `${event}:${data.id ?? reference ?? hash}`
  abbrev pub provider_event_id : WebhookPayload → Text
  provider_event_id payload =
      payload.event
      ++ b':'
        ∷ or_default
            (or_option (id_text payload.payload_data.id) (webhook_reference payload.payload_data))
            (api.hash_payload payload)

  unfoldable pub process_recorded : WebhookPayload → ProviderEvent → Action Db ⊤
  process_recorded payload e =
      if is_dead e.status || is_some e.processed_at
      then pure tt
      else process_provider_event e.id payload

  -- `handleWebhookEvent`
  unfoldable pub handle_webhook_event : WebhookPayload → Action Db ⊤
  handle_webhook_event payload = do
    e ← record_provider_event (provider_event_id payload) payload
    process_recorded payload e

  -- `retryProviderEvent`; it answers the status that the event has then.
  unfoldable pub retry_unprocessed :
      ℕ → Option ℕ → ProviderEvent → Action Db (Option ProviderEventStatus)
  retry_unprocessed event_id admin e =
      if is_done e.status || is_some e.processed_at
      then pure (some ProviderEventStatus.processed)
      else (do
        process_provider_event e.id e.payload
        events ← gets (λ db. db.provider_events)
        modify (audit admin AuditAction.provider_event_retry event_id)
        pure (status_of (find (is_event_row event_id) events)))

  unfoldable pub retry_provider_event : ℕ → Option ℕ → Action Db (Option ProviderEventStatus)
  retry_provider_event event_id admin = do
    events ← gets (λ db. db.provider_events)
    e ← or_raise (find (is_event_row event_id) events) (not_found "Provider event not found.")
    retry_unprocessed event_id admin e

-- `deadLetterProviderEvent`
unfoldable pub dead_letter_provider_event : ℕ → ℕ → Option Text → Action Db ProviderEvent
dead_letter_provider_event event_id admin reason = do
  events ← gets (λ db. db.provider_events)
  e ← or_raise (find (is_event_row event_id) events) (not_found "Provider event not found.")
  raise_if (is_done e.status || is_some e.processed_at)
      (bad_request "Processed provider events cannot be dead-lettered.")
  now ← gets (λ db. db.now)
  let dead : ProviderEvent = record e {
    status = ProviderEventStatus.dead_letter;
    last_error =
        some (
          or_default (or_option reason e.last_error)
            (codes "Marked dead-letter by finance admin."));
    dead_lettered_at = some now;
    next_retry_at = none;
  }
  modify (update_event event_id (λ _. dead))
  modify (audit (some admin) AuditAction.provider_event_dead_letter event_id)
  pure dead
