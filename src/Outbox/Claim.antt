-- ===== src/Outbox/Claim.antt =====
-- What becomes of an event when it is processed, and that workers do not share one.
use rydalux_app.Prelude.{
  ℕ, ◌+◌, ◌≡◌, refl, true, false, Option, none, some, List, [], ◌∷◌, find, update, any, arith, leb,
  String, if◌then◌else◌, Bool-cases, inl, inr,
}
use rydalux_app.Outbox.{
  OutboxEventRecord, Config, Outbox, ProcessResult, has_id, is_as_read, is_due, mark_published,
  mark_failed, claim_event, settle_event, process_event, publish_error, claimed_row, published_row,
  failed_row, dead_letter_row, backoff_delay,
}

none-claimed :
    (e : OutboxEventRecord) (lease : ℕ) (rows : List OutboxEventRecord)
    → any (is_as_read e) (update (is_as_read e) (claimed_row (e.attempt_count + 1) lease) rows)
      ≡ false
none-claimed e lease [] = refl
none-claimed e lease (r ∷ rows) = ground (arith, none-claimed e lease rows)

update-none :
    (e : OutboxEventRecord) (f : OutboxEventRecord → OutboxEventRecord)
    (rows : List OutboxEventRecord)
    → any (is_as_read e) rows ≡ false
    → update (is_as_read e) f rows ≡ rows
update-none e f [] h = refl
update-none e f (r ∷ rows) h = ground (arith, update-none e f rows)

find-claimed :
    (e : OutboxEventRecord) (lease : ℕ) (rows : List OutboxEventRecord)
    → find (has_id e.id) rows ≡ some e
    → (any (is_as_read e) rows ≡ true)
      × (find (has_id e.id) (update (is_as_read e) (claimed_row (e.attempt_count + 1) lease) rows)
          ≡ some (claimed_row (e.attempt_count + 1) lease e))
find-claimed e lease [] h = absurd (ground arith)
find-claimed e lease (r ∷ rows) h = ground (arith, find-claimed e lease rows)

find-update_id :
    (i : ℕ) (f : OutboxEventRecord → OutboxEventRecord) (rows : List OutboxEventRecord)
    (r : OutboxEventRecord)
    → ((x : OutboxEventRecord) → (f x).id ≡ x.id)
    → find (has_id i) rows ≡ some r
    → find (has_id i) (update (has_id i) f rows) ≡ some (f r)
find-update_id i f [] r same h = cc
find-update_id i f (x ∷ rows) r same h = ground (arith, same x, find-update_id i f rows r same)

module _ (config : Config) where
  -- After one worker has claimed an event, a worker that read it at the same time does nothing with
  -- it, however much later it comes to it.
  pub claim_event_once :
      (e : OutboxEventRecord) (later : ℕ) (s : Outbox)
      → let s' : Outbox = record (claim_event config e s).1 { now = later } in
        process_event config e s' ≡ (ProcessResult.skipped, s')
  unfolding process_event claim_event
  claim_event_once e later s =
      let lease = s.now + config.processing_lease_ms in
      ground (
        arith,
        none-claimed e lease s.events,
        update-none e (claimed_row (e.attempt_count + 1) (later + config.processing_lease_ms))
            (update (is_as_read e) (claimed_row (e.attempt_count + 1) lease) s.events),
      )

  -- What the row of an event is after it was processed: published, failed until the backoff is over,
  -- or dead.
  abbrev pub row_after : OutboxEventRecord → Option String → ℕ → OutboxEventRecord
  row_after e none now = published_row now (record e { attempt_count = e.attempt_count + 1 })
  row_after e (some message) now =
      if leb config.max_attempts (e.attempt_count + 1)
      then dead_letter_row message (e.attempt_count + 1) e
      else failed_row message (e.attempt_count + 1)
          (now + backoff_delay config (e.attempt_count + 1)) e

  settle_event-row :
      (e : OutboxEventRecord) (o : Option String) (s : Outbox) (lease : ℕ)
      → find (has_id e.id) s.events ≡ some (claimed_row (e.attempt_count + 1) lease e)
      → find (has_id e.id) (settle_event config e o s).1.events ≡ some (row_after e o s.now)
  unfolding settle_event mark_published mark_failed
  settle_event-row e none s lease found =
      find-update_id e.id _ s.events (claimed_row (e.attempt_count + 1) lease e) (λ x. ground arith)
        found
  settle_event-row e (some message) s lease found =
      elim (Bool-cases (leb config.max_attempts (e.attempt_count + 1))) [
        | inl spent ↦ ground (
          arith,
          find-update_id e.id (dead_letter_row message (e.attempt_count + 1)) s.events
              (claimed_row (e.attempt_count + 1) lease e) (λ x. refl) found,
        )
        | inr more ↦ ground (
          arith,
          find-update_id e.id
              (failed_row message (e.attempt_count + 1)
                (s.now + backoff_delay config (e.attempt_count + 1)))
              s.events (claimed_row (e.attempt_count + 1) lease e) (λ x. refl) found,
        )
      ]

  -- An event that is due, one in process whose lease has run out included, and is in the table as it
  -- was read, is tried: afterwards its row is published, or has failed until the backoff is over, or
  -- is dead when the attempts are used up.
  pub process_event_lem :
      (e : OutboxEventRecord) (s : Outbox)
      → find (has_id e.id) s.events ≡ some e
      → is_due s.now e ≡ true
      → find (has_id e.id) (process_event config e s).1.events
        ≡ some (row_after e (publish_error s.mock_publish_failure e.payload) s.now)
  unfolding process_event claim_event is_due
  process_event_lem e s found due =
      let lease = s.now + config.processing_lease_ms in
      let (matches, row) = find-claimed e lease s.events found in
      ground (
        arith,
        settle_event-row e (publish_error s.mock_publish_failure e.payload)
            (claim_event config e s).1 lease row,
        matches,
      )
