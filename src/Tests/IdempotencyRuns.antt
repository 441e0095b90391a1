-- ===== src/Tests/IdempotencyRuns.antt =====
-- Requests with a key, on a world that counts the handler's calls.
use rydalux_app.Prelude.{◌≡◌, refl, ◌≢◌, ◌⊎◌, ◌≤◌, ◌<◌, false, none, some, Option, ℕ, ◌+◌, [], ◌∷◌}
use rydalux_app.Money.{Text}
use rydalux_app.Service.{Result, ok, err, succeeded, bad_request}
use rydalux_app.Idempotency.{
  IdempotencyRequestInput, HeaderValue, KeyStore, Reserved, present_key, get_header_value,
  reserve_key, run_handler, run,
}
use rydalux_app.Idempotency.Lock.{run_locks}
use rydalux_app.Idempotency.Replay.{IsKept, run_replays, run_retries}

abbrev count : ℕ → Result ℕ × ℕ
count n = (ok n, n + 1)

abbrev failing_handler : ℕ → Result ℕ × ℕ
failing_handler n = (err (bad_request "no"), n + 1)

abbrev request : ℕ → IdempotencyRequestInput ℕ
request body = record {
  key = HeaderValue.several ((b'k' ∷ []) ∷ []);
  scope = b's' ∷ [];
  method = b'p' ∷ [];
  endpoint = b'/' ∷ [];
  actor_id = none;
  body = some body;
  ttl_ms = none;
  lock_ms = none;
}

-- The body stands for its digest.
abbrev digest : IdempotencyRequestInput ℕ → Text
digest input = elim input.body [ none ↦ [] | some n ↦ n ∷ [] ]

abbrev same : ℕ → Option ℕ
same n = some n

abbrev empty_store : KeyStore ℕ ℕ
empty_store = record { now = 0; next_id = 1; keys = []; world = 7 }

abbrev answered : Result (Option ℕ) × KeyStore ℕ ℕ
answered = run digest same (request 5) count empty_store

has_given : present_key (get_header_value (request 5).key) ≡ some (b'k' ∷ [])
unfolding get_header_value
has_given = refl

answers : answered ≡ (ok (some 7), answered.1)
unfolding run get_header_value reserve_key run_handler
answers = refl

run_replays_example :
    (answer : Option ℕ) × (run digest same
        (request 5)
        failing_handler
        (record answered.1 { now = 90 })
      ≡ (ok answer, record answered.1 { now = 90 }))
    × IsKept same (some 7) answer
run_replays_example =
    run_replays digest same (request 5) count failing_handler (b'k' ∷ []) 90 empty_store answered.1
      (some 7) has_given answers

abbrev reserved : Result (Reserved ℕ) × KeyStore ℕ ℕ
reserved = reserve_key (request 5) (b'k' ∷ []) (5 ∷ []) empty_store

reserves : reserved ≡ (ok (Reserved.row 1), reserved.1)
unfolding reserve_key
reserves = refl

run_locks_example :
    let s : KeyStore ℕ ℕ = record reserved.1 { now = 59999 } in
    let (answer, after) = run digest same (request 5) count s in
    ((digest (request 5) ≡ digest (request 5)) × (60000 ≤ 59999) × (after.world ≡ 8))
    ⊎ (((digest (request 5) ≢ digest (request 5)) ⊎ (59999 < 60000))
        × (succeeded answer ≡ false)
        × (after ≡ s))
run_locks_example =
    run_locks digest same (request 5) (request 5) count (b'k' ∷ []) 1 59999 empty_store reserved.1
      has_given refl reserves

run_retries_example :
    (run digest same
      (request 5)
      count
      (run digest same (request 5) failing_handler empty_store).1).1.world
    ≡ 9
run_retries_example =
    run_retries digest same (request 5) failing_handler count (b'k' ∷ []) empty_store
      (bad_request "no") 8 has_given refl refl
