-- ===== src/Finance/Paystack/Once.antt =====
-- A webhook that is delivered again.
use rydalux_app.Prelude.{
  ℕ, ◌≡◌, ◌⊎◌, refl, ◌∙◌, arith, Bool, true, false, Option, none, some, List, ◌∷◌, find, update,
  is_some, same_text_refl, inl, inr, ◌||◌,
}
use rydalux_app.Money.{Text, codes}
use rydalux_app.Money.Column.{DecimalText}
use rydalux_app.Service.{Result, ok, err, message, attempt}
use rydalux_app.Finance.State.{ProviderEventStatus, ProviderEvent, WebhookPayload, Db}
use rydalux_app.Finance.Writes.{Writes}
use rydalux_app.Finance.Writes.Ledger.{Writes-provider_events}
use rydalux_app.Finance.Paystack.Api.{PaystackApi}
use rydalux_app.Finance.Paystack.Rows.{is_event_row, update_event, create_event}
use rydalux_app.Finance.Paystack.Webhooks.{
  event_kind, dispatch, start_attempt, finish_attempt, fail_attempt, try_event, fail_event,
  process_provider_event, has_event_id, new_event, record_provider_event, provider_event_id,
  is_dead, process_recorded, handle_webhook_event,
}
use rydalux_app.Finance.Paystack.WebhookWrites.{dispatch-Keeps}

module _ ⦃decimal : DecimalText⦄ ⦃api : PaystackApi⦄ where
  -- The store once the event is handled, and before its row says so.
  abbrev dispatched : WebhookPayload → Db → Db
  dispatched payload db =
      (dispatch (event_kind payload.event) payload.event payload.payload_data db).1

  dispatched-events :
      (payload : WebhookPayload) (db : Db)
      → (dispatched payload db).provider_events ≡ db.provider_events
  dispatched-events payload db = Writes-provider_events db (dispatched payload db) (
      (dispatch-Keeps (event_kind payload.event) payload.event payload.payload_data).at db
        Writes.nothing)

  -- An attempt ends with the row processed or failed.
  attempted :
      (id : ℕ) (payload : WebhookPayload) (db : Db)
      → (attempt (try_event id payload) (fail_event id) db ≡ (
        ok tt,
        update_event id (finish_attempt (dispatched payload db).now) (dispatched payload db),
      ))
        ⊎ ((reason : Text) × (attempt (try_event id payload) (fail_event id) db ≡ (
          ok tt,
          update_event id (fail_attempt reason (dispatched payload db).now) (dispatched payload db),
        )))
  unfolding try_event fail_event
  attempted id payload db =
      outcome (dispatch (event_kind payload.event) payload.event payload.payload_data db).0 refl
    where
      outcome :
          (r : Result Bool)
          → (dispatch (event_kind payload.event) payload.event payload.payload_data db).0 ≡ r
          → (attempt (try_event id payload) (fail_event id) db ≡ (
            ok tt,
            update_event id (finish_attempt (dispatched payload db).now) (dispatched payload db),
          ))
            ⊎ ((reason : Text) × (attempt (try_event id payload) (fail_event id) db ≡ (
              ok tt,
              update_event id
                  (fail_attempt reason (dispatched payload db).now)
                  (dispatched payload db),
            )))
      outcome (ok true) e = inl (ground (arith, e))
      outcome (ok false) e = inr (codes "Provider event was not processed.", ground (arith, e))
      outcome (err x) e = inr (codes (message x), ground (arith, e))

  -- The row that a webhook is found by.
  abbrev pub recorded : WebhookPayload → Db → Option ProviderEvent
  recorded payload db = find (has_event_id (provider_event_id payload)) db.provider_events

  -- A webhook that is processed or given up is answered, and that is all.
  handle_recorded :
      (payload : WebhookPayload) (e : ProviderEvent) (db : Db)
      → recorded payload db ≡ some e
      → (is_dead e.status || is_some e.processed_at) ≡ true
      → handle_webhook_event payload db ≡ (ok tt, db)
  unfolding handle_webhook_event record_provider_event process_recorded
  handle_recorded payload e db found over = ground arith

  -- A webhook that is not stored goes through one attempt.
  handle_new :
      (payload : WebhookPayload) (db : Db)
      → recorded payload db ≡ none
      → handle_webhook_event payload db
        ≡ attempt (try_event db.next_id payload) (fail_event db.next_id) (
            update_event db.next_id start_attempt
              (create_event (new_event (provider_event_id payload) payload db.next_id) db))
  unfolding handle_webhook_event record_provider_event process_recorded process_provider_event
  handle_new payload db missing = ground arith

  -- The row of a new webhook stands in front, and is found there after a change of it.
  find-front :
      (f : ProviderEvent → ProviderEvent) (payload : WebhookPayload) (i : ℕ)
      (rows rest : List ProviderEvent)
      → rows ≡ start_attempt (new_event (provider_event_id payload) payload i) ∷ rest
      → (f (start_attempt (new_event (provider_event_id payload) payload i))).provider_event_id
        ≡ provider_event_id payload
      → find (has_event_id (provider_event_id payload)) (update (is_event_row i) f rows)
        ≡ some (f (start_attempt (new_event (provider_event_id payload) payload i)))
  find-front f payload i rows rest front same =
      rw front (ground (arith, same_text_refl (provider_event_id payload), same))

  -- The store in which the first attempt starts.
  abbrev started : WebhookPayload → Db → Db
  started payload db =
      update_event db.next_id start_attempt
        (create_event (new_event (provider_event_id payload) payload db.next_id) db)

  started-front :
      (payload : WebhookPayload) (db : Db)
      → (dispatched payload (started payload db)).provider_events
        ≡ start_attempt (new_event (provider_event_id payload) payload db.next_id)
          ∷ update (is_event_row db.next_id) start_attempt db.provider_events
  started-front payload db = dispatched-events payload (started payload db) ∙ ground arith

  -- What is on record of a webhook after its first delivery.
  abbrev pub Delivered : WebhookPayload → Db → ProviderEvent → Type 0
  Delivered payload db e =
      (recorded payload db ≡ some e)
      × (e.attempt_count ≡ 1)
      × (((is_some e.processed_at ≡ true) × (handle_webhook_event payload db ≡ (ok tt, db)))
          ⊎ ((e.status ≡ ProviderEventStatus.failed) × (is_some e.next_retry_at ≡ true)))

  -- The delivery of a webhook that is not on record returns, whatever its handler does, and leaves it
  -- on record with one attempt: either processed, and then a second delivery returns and changes
  -- nothing at all, or failed with a time for its retry.
  pub handle_webhook_event_delivers :
      (payload : WebhookPayload) (db : Db)
      → recorded payload db ≡ none
      → ((handle_webhook_event payload db).0 ≡ ok tt)
        × ((e : ProviderEvent) × Delivered payload (handle_webhook_event payload db).1 e)
  handle_webhook_event_delivers payload db missing =
      elim (attempted db.next_id payload (started payload db)) [
        | inl done ↦ rw (handle_new payload db missing ∙ done) (
          refl,
          (
            processed,
            (
              processed_found,
              refl,
              inl (refl, handle_recorded payload processed _ processed_found refl),
            ),
          ),
        )
        | inr (reason, done) ↦
            rw (handle_new payload db missing ∙ done)
              (refl, (failed reason, (failed_found reason, refl, inr (refl, refl))))
      ]
    where
      row : ProviderEvent
      row = start_attempt (new_event (provider_event_id payload) payload db.next_id)

      end : Db
      end = dispatched payload (started payload db)

      processed : ProviderEvent
      processed = finish_attempt end.now row

      failed : Text → ProviderEvent
      failed reason = fail_attempt reason end.now row

      processed_found :
          recorded payload (update_event db.next_id (finish_attempt end.now) end) ≡ some processed
      processed_found =
          find-front (finish_attempt end.now) payload db.next_id end.provider_events _
            (started-front payload db) refl

      failed_found :
          (reason : Text)
          → recorded payload (update_event db.next_id (fail_attempt reason end.now) end)
            ≡ some (failed reason)
      failed_found reason =
          find-front (fail_attempt reason end.now) payload db.next_id end.provider_events _
            (started-front payload db) refl
