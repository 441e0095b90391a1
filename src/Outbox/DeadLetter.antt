-- ===== src/Outbox/DeadLetter.antt =====
-- The end of an event that cannot be published: the tries that one event gets, each at a time at
-- which it is due again (`processEvent`, `calculateNextAttemptAt`).
use rydalux_app.Prelude.{
  ℕ, ◌+◌, ◌≡◌, ◌<◌, refl, true, Option, none, some, List, [], ◌∷◌, find, max, length, ap, ◌∙◌,
  arith, String,
}
use rydalux_app.Outbox.{
  OutboxEventRecord, Config, Outbox, has_id, is_due, mark_published, mark_failed, claim_event,
  settle_event, process_event, publish_error, failed_row, dead_letter_row, backoff_delay,
}
use rydalux_app.Outbox.Claim.{process_event_lem, row_after}
use rydalux_app.Outbox.Retry.{is_waiting}

-- The time is that of the row's next try, and some more.
abbrev pub wait_until : Option ℕ → ℕ → Outbox → Outbox
wait_until none delay s = record s { now = s.now + delay }
wait_until (some t) delay s = record s { now = max s.now t + delay }

is_due-wait_until :
    (e : OutboxEventRecord) (delay : ℕ) (s : Outbox)
    → is_waiting e.status ≡ true
    → is_due (wait_until e.next_attempt_at delay s).now e ≡ true
unfolding is_due
is_due-wait_until e delay s h = ground arith

module _ (config : Config) where
  -- A worker reads the event and processes it.
  abbrev pub try_row : Option OutboxEventRecord → ℕ → Outbox → Outbox
  try_row none delay s = s
  try_row (some e) delay s = (process_event config e (wait_until e.next_attempt_at delay s)).1

  -- One try of an event for each of the delays.
  unfoldable pub tries : List ℕ → ℕ → Outbox → Outbox
  tries [] i s = s
  tries (delay ∷ delays) i s = tries delays i (try_row (find (has_id i) s.events) delay s)

  mark_failed-flag :
      (i : ℕ) (message : String) (n : ℕ) (s : Outbox)
      → (mark_failed config i message n s).mock_publish_failure ≡ s.mock_publish_failure
  unfolding mark_failed
  mark_failed-flag i message n s = ground arith

  settle_event-flag :
      (e : OutboxEventRecord) (o : Option String) (s : Outbox)
      → (settle_event config e o s).1.mock_publish_failure ≡ s.mock_publish_failure
  unfolding settle_event mark_published
  settle_event-flag e none s = refl
  settle_event-flag e (some message) s = mark_failed-flag e.id message (e.attempt_count + 1) s

  process_event-flag :
      (e : OutboxEventRecord) (s : Outbox)
      → (process_event config e s).1.mock_publish_failure ≡ s.mock_publish_failure
  unfolding process_event claim_event
  process_event-flag e s = ground (
    arith,
    settle_event-flag e (publish_error s.mock_publish_failure e.payload) (claim_event config e s).1,
  )

  wait_until-flag :
      (t : Option ℕ) (delay : ℕ) (s : Outbox)
      → (wait_until t delay s).mock_publish_failure ≡ s.mock_publish_failure
  wait_until-flag none delay s = refl
  wait_until-flag (some t) delay s = refl

  wait_until-events :
      (t : Option ℕ) (delay : ℕ) (s : Outbox) → (wait_until t delay s).events ≡ s.events
  wait_until-events none delay s = refl
  wait_until-events (some t) delay s = refl

  -- An event whose publishing fails.
  pub record Fails (e : OutboxEventRecord) (message : String) (s : Outbox) : Type 0 where
    pub stands : find (has_id e.id) s.events ≡ some e
    pub waits : is_waiting e.status ≡ true
    pub throws : publish_error s.mock_publish_failure e.payload ≡ some message

  try_row-row :
      (e : OutboxEventRecord) (message : String) (delay : ℕ) (s : Outbox)
      → Fails e message s
      → find (has_id e.id) (try_row (some e) delay s).events
        ≡ some (row_after config e (some message) (wait_until e.next_attempt_at delay s).now)
  try_row-row e message delay s fails =
      let s' = wait_until e.next_attempt_at delay s in
      ground (
        arith,
        process_event_lem config e s',
        wait_until-events e.next_attempt_at delay s,
        wait_until-flag e.next_attempt_at delay s,
        is_due-wait_until e delay s fails.waits,
        fails.stands,
        fails.throws,
      )

  -- The row when a try has failed and another one follows.
  abbrev next_row : OutboxEventRecord → String → ℕ → Outbox → OutboxEventRecord
  next_row e message delay s =
      let attempts = e.attempt_count + 1 in
      failed_row message attempts
        ((wait_until e.next_attempt_at delay s).now + backoff_delay config attempts) e

  try_row-Fails :
      (e : OutboxEventRecord) (message : String) (delay : ℕ) (s : Outbox)
      → Fails e message s
      → e.attempt_count + 1 < config.max_attempts
      → Fails (next_row e message delay s) message (try_row (some e) delay s)
  try_row-Fails e message delay s fails more = record {
    stands = ground (arith, try_row-row e message delay s fails);
    waits = refl;
    throws = ground (
      arith,
      process_event-flag e (wait_until e.next_attempt_at delay s),
      wait_until-flag e.next_attempt_at delay s,
      fails.throws,
    );
  }

  -- Where an event stands in the table, is pending or has failed, has tries left and its publishing
  -- fails, it is dead after as many tries as it has left, at whatever times at which it is due they
  -- come, where nothing else happens between them; its row then holds the message and all the
  -- attempts.
  pub tries_dead_letter :
      (e : OutboxEventRecord) (message : String) (delay : ℕ) (delays : List ℕ) (s : Outbox)
      → Fails e message s
      → e.attempt_count + length (delay ∷ delays) ≡ config.max_attempts
      → find (has_id e.id) (tries (delay ∷ delays) e.id s).events
        ≡ some (dead_letter_row message config.max_attempts e)
  unfolding tries
  tries_dead_letter e message delay [] s fails count =
      ground (arith, fails.stands, try_row-row e message delay s fails)
  tries_dead_letter e message delay (d ∷ delays) s fails count =
      let next = try_row-Fails e message delay s fails (omega arith) in
      let rest =
        tries_dead_letter (next_row e message delay s) message d delays (try_row (some e) delay s)
          next (omega arith) in
      ap (λ r. find (has_id e.id) (tries (d ∷ delays) e.id (try_row r delay s)).events) fails.stands
      ∙ rest
