-- ===== src/Outbox/Retry.antt =====
-- How long a failed event waits, and how often it is tried.
use rydalux_app.Prelude.{
  ℕ, zero, suc, ◌+◌, ◌-◌, ◌*◌, ◌^◌, ◌≤◌, ◌<◌, ◌≡◌, ◌⊎◌, Bool, true, false, Option, none, some, List,
  [], ◌∷◌, ◌++◌, update, select, take, length, All, arith, leb, String, Bool-cases, inl, inr, ◌||◌,
  if◌then◌else◌,
}
use rydalux_app.Outbox.{
  OutboxStatus, OutboxEventRecord, Config, Outbox, EnqueueOutboxEventInput, is_status, has_id,
  is_as_read, enqueue, list_pending_events, is_due, mark_published, mark_failed, claim_event,
  settle_event, process_event, process_each, process_pending_events, backoff_delay, ProcessResult,
  Counts, no_results, add_result, update_event, failed_row, dead_letter_row, publish_error,
}

power_pos : (n : ℕ) → 1 ≤ 2 ^ n
power_pos zero = omega arith
power_pos (suc n) = omega (arith, power_pos n)

power_grows : (m n : ℕ) → m ≤ n → 2 ^ m ≤ 2 ^ n
power_grows zero n h = power_pos n
power_grows (suc m) zero h = absurd (omega arith)
power_grows (suc m) (suc n) h = omega (arith, power_grows m n (omega arith))

scaled_grows : (b x y : ℕ) → x ≤ y → b * x ≤ b * y
scaled_grows zero x y h = omega arith
scaled_grows (suc b) x y h = omega (arith, scaled_grows b x y h)

-- The statuses from which an event is tried again by its time.
abbrev pub is_waiting : OutboxStatus → Bool
is_waiting OutboxStatus.pending = true
is_waiting OutboxStatus.failed = true
is_waiting _ = false

All-update :
    {A : Type 0} (P : A → Type 0) (p : A → Bool) (f : A → A) (xs : List A)
    → ((x : A) → P x → P (f x))
    → All P xs
    → All P (update p f xs)
All-update P p f [] keeps all = tt
All-update P p f (x ∷ xs) keeps all = (
  (elim (p x) as (λ b. P (if b then f x else x)) [ true ↦ keeps x all.0 | false ↦ all.0 ]),
  All-update P p f xs keeps all.1,
)

All-append :
    {A : Type 0} (P : A → Type 0) (xs : List A) (y : A) → All P xs → P y → All P (xs ++ y ∷ [])
All-append P [] y all h = (h, tt)
All-append P (x ∷ xs) y all h = (all.0, All-append P xs y all.1 h)

length-take : {A : Type 0} (n : ℕ) (xs : List A) → length (take n xs) ≤ n
length-take zero xs = omega arith
length-take (suc n) [] = omega arith
length-take (suc n) (x ∷ xs) = omega (arith, length-take n xs)

module _ (config : Config) where
  -- A longer series of failures never waits less, and no wait is above the limit.
  pub backoff_delay-grows :
      (m n : ℕ)
      → m ≤ n
      → (backoff_delay config m ≤ backoff_delay config n)
        × (backoff_delay config n ≤ config.max_backoff_ms)
  unfolding backoff_delay
  backoff_delay-grows m n h = (
    ground (
      arith,
      scaled_grows config.base_backoff_ms (2 ^ (m - 1)) (2 ^ (n - 1)),
      power_grows (m - 1) (n - 1),
    ),
    omega arith,
  )

  -- A row that waits for a try has one left.
  abbrev pub HasTryLeft : OutboxEventRecord → Type 0
  HasTryLeft e = (is_waiting e.status ≡ false) ⊎ (e.attempt_count < config.max_attempts)

  abbrev pub HasTriesLeft : Outbox → Type 0
  HasTriesLeft s = All HasTryLeft s.events

  claim_event-HasTriesLeft :
      (e : OutboxEventRecord) (s : Outbox)
      → HasTriesLeft s
      → HasTriesLeft (claim_event config e s).1
  unfolding claim_event
  claim_event-HasTriesLeft e s all =
      All-update HasTryLeft (is_as_read e) _ s.events (λ x h. ground arith) all

  mark_failed-spent :
      (i : ℕ) (message : String) (n : ℕ) (s : Outbox)
      → leb config.max_attempts n ≡ true
      → mark_failed config i message n s ≡ update_event i (dead_letter_row message n) s
  unfolding mark_failed
  mark_failed-spent i message n s h = ground arith

  mark_failed-more :
      (i : ℕ) (message : String) (n : ℕ) (s : Outbox)
      → leb config.max_attempts n ≡ false
      → mark_failed config i message n s
        ≡ update_event i (failed_row message n (s.now + backoff_delay config n)) s
  unfolding mark_failed
  mark_failed-more i message n s h = ground arith

  mark_failed-HasTriesLeft :
      (i : ℕ) (message : String) (n : ℕ) (s : Outbox)
      → HasTriesLeft s
      → HasTriesLeft (mark_failed config i message n s)
  unfolding mark_failed
  mark_failed-HasTriesLeft i message n s all = elim (Bool-cases (leb config.max_attempts n)) [
    | inl spent ↦ rw (mark_failed-spent i message n s spent) (
        All-update HasTryLeft (has_id i) (dead_letter_row message n) s.events (λ x h. ground arith)
          all)
    | inr more ↦ rw (mark_failed-more i message n s more) (
        All-update HasTryLeft (has_id i) (failed_row message n (s.now + backoff_delay config n))
          s.events (λ x h. ground arith) all)
  ]

  settle_event-HasTriesLeft :
      (e : OutboxEventRecord) (o : Option String) (s : Outbox)
      → HasTriesLeft s
      → HasTriesLeft (settle_event config e o s).1
  unfolding settle_event mark_published
  settle_event-HasTriesLeft e none s all =
      All-update HasTryLeft (has_id e.id) _ s.events (λ x h. ground arith) all
  settle_event-HasTriesLeft e (some message) s all =
      mark_failed-HasTriesLeft e.id message (e.attempt_count + 1) s all

  if-HasTriesLeft :
      (b : Bool) (x y : ProcessResult × Outbox)
      → HasTriesLeft x.1
      → HasTriesLeft y.1
      → HasTriesLeft (if b then x else y).1
  if-HasTriesLeft true x y h k = h
  if-HasTriesLeft false x y h k = k

  process_event-HasTriesLeft :
      (e : OutboxEventRecord) (s : Outbox)
      → HasTriesLeft s
      → HasTriesLeft (process_event config e s).1
  unfolding process_event
  process_event-HasTriesLeft e s all =
      let c = claim_event config e s in
      let o = publish_error c.1.mock_publish_failure e.payload in
      let later = claim_event-HasTriesLeft e s all in
      if-HasTriesLeft
        (is_status e.status OutboxStatus.published || is_status e.status OutboxStatus.dead_letter)
        (ProcessResult.skipped, s)
        (if c.0 then settle_event config e o c.1 else (ProcessResult.skipped, c.1)) all
        (if-HasTriesLeft c.0 (settle_event config e o c.1) (ProcessResult.skipped, c.1)
          (settle_event-HasTriesLeft e o c.1 later) later)

  process_each-HasTriesLeft :
      (es : List OutboxEventRecord) (c : Counts) (s : Outbox)
      → HasTriesLeft s
      → HasTriesLeft (process_each config es c s).1
  unfolding process_each
  process_each-HasTriesLeft [] c s all = all
  process_each-HasTriesLeft (e ∷ es) c s all =
      process_each-HasTriesLeft es _ _ (process_event-HasTriesLeft e s all)

  -- Where every row that is pending or failed has had fewer attempts than are allowed, and at least
  -- one is, that holds after an enqueue and after a pass.
  pub outbox_calls-HasTriesLeft :
      (input : EnqueueOutboxEventInput) (limit : ℕ) (s : Outbox)
      → 0 < config.max_attempts
      → HasTriesLeft s
      → HasTriesLeft (enqueue input s) × HasTriesLeft (process_pending_events config limit s).1
  unfolding enqueue process_pending_events
  outbox_calls-HasTriesLeft input limit s some_try all = (
    All-append HasTryLeft s.events _ all (inr some_try),
    process_each-HasTriesLeft (list_pending_events limit s) no_results s all,
  )

  -- All the results of a pass.
  abbrev pub total : Counts → ℕ
  total c = c.published + c.failed + c.dead_lettered + c.skipped

  add_result-total : (r : ProcessResult) (c : Counts) → total (add_result r c) ≡ total c + 1
  add_result-total r c = ground arith

  process_each-total :
      (es : List OutboxEventRecord) (c : Counts) (s : Outbox)
      → total (process_each config es c s).0 ≡ total c + length es
  unfolding process_each
  process_each-total [] c s = omega arith
  process_each-total (e ∷ es) c s = omega (
    arith,
    process_each-total es (add_result (process_event config e s).0 c) (process_event config e s).1,
    add_result-total (process_event config e s).0 c,
  )

  -- A pass counts one result for each event that it listed, and lists no more than the limit.
  pub process_pending_events-total :
      (limit : ℕ) (s : Outbox)
      → (total (process_pending_events config limit s).0 ≡ length (list_pending_events limit s))
        × (length (list_pending_events limit s) ≤ limit)
  unfolding process_pending_events list_pending_events
  process_pending_events-total limit s = (
    omega (arith, process_each-total (take limit (select (is_due s.now) s.events)) no_results s),
    length-take limit (select (is_due s.now) s.events),
  )
