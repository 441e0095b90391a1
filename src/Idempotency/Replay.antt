-- ===== src/Idempotency/Replay.antt =====
-- That a request with a key is done once, and answered the same way again.
use rydalux_app.Prelude.{
  same_text, same_text_refl, ℕ, ◌+◌, ◌≡◌, ◌⊎◌, refl, ap, ◌∙◌, true, Option, none, some, List, [],
  ◌∷◌, find, update, arith, Option-cases, Bool-cases, inl, inr,
}
use rydalux_app.Money.{Text}
use rydalux_app.Service.{Result, ok, err, Error}
use rydalux_app.Idempotency.{
  IdempotencyRequestInput, IdempotencyKey, KeyStatus, KeyStore, has_key, has_id, get_header_value,
  present_key, reserve_key, reserve_existing, run_handler, run, completed_key, failed_key, new_key,
  is_completed, locked_again, lock_end, key_expiry, update_key,
}

Result-cases : {A : Type 0} (r : Result A) → ((a : A) × (r ≡ ok a)) ⊎ ((e : Error) × (r ≡ err e))
Result-cases (ok a) = inl (a, refl)
Result-cases (err e) = inr (e, refl)

pub find-update_id :
    {B : Type 0} (scope key : Text) (f : IdempotencyKey B → IdempotencyKey B)
    (rows : List (IdempotencyKey B)) (k : IdempotencyKey B)
    → ((x : IdempotencyKey B) → has_key scope key (f x) ≡ has_key scope key x)
    → find (has_key scope key) rows ≡ some k
    → find (has_key scope key) (update (has_id k.id) f rows) ≡ some (f k)
find-update_id scope key f [] k same h = cc
find-update_id scope key f (x ∷ rows) k same h =
    ground (arith, same x, find-update_id scope key f rows k same)

-- The two ways in which `reserveKey` writes.
abbrev pub fresh_store :
    {B W : Type 0} → IdempotencyRequestInput B → Text → Text → KeyStore B W → KeyStore B W
fresh_store input key hash s = record s {
  next_id = s.next_id + 1;
  keys = new_key input key hash s ∷ s.keys;
}

abbrev pub relocked_store :
    {B W : Type 0} → IdempotencyRequestInput B → IdempotencyKey B → KeyStore B W → KeyStore B W
relocked_store input k s = update_key k.id (locked_again (lock_end input s) (key_expiry input s)) s

-- The answer that is kept for a request which was answered with `r`.
abbrev pub IsKept : {B : Type 0} → (B → Option B) → Option B → Option B → Type 0
IsKept {B} to_json_value r answer =
    (answer ≡ r)
    ⊎ ((b : B) × (r ≡ some b) × ((body : B) × (to_json_value b ≡ some body) × (answer ≡ some body)))

module _ {B W : Type 0} (hash_request : IdempotencyRequestInput B → Text)
    (to_json_value : B → Option B) where
  run-completed :
      (input : IdempotencyRequestInput B) (handler : W → Result B × W) (key : Text)
      (s : KeyStore B W) (k : IdempotencyKey B)
      → present_key (get_header_value input.key) ≡ some key
      → find (has_key input.scope key) s.keys ≡ some k
      → is_completed k.status ≡ true
      → same_text k.request_hash (hash_request input) ≡ true
      → run hash_request to_json_value input handler s ≡ (ok k.response_body, s)
  unfolding run reserve_key reserve_existing
  run-completed input handler key s k given found done same = ground arith

  -- The key's row after the request was answered.
  abbrev pub Kept : IdempotencyRequestInput B → Text → Option B → KeyStore B W → Type 0
  Kept input key r s' =
      (k : IdempotencyKey B) × (find (has_key input.scope key) s'.keys ≡ some k)
      × (is_completed k.status ≡ true)
      × (same_text k.request_hash (hash_request input) ≡ true)
      × IsKept to_json_value r k.response_body

  handled-Kept :
      (input : IdempotencyRequestInput B) (handler : W → Result B × W) (key : Text)
      (s s' : KeyStore B W) (k : IdempotencyKey B) (r : Option B)
      → find (has_key input.scope key) s.keys ≡ some k
      → same_text k.request_hash (hash_request input) ≡ true
      → run_handler to_json_value handler k.id s ≡ (ok r, s')
      → Kept input key r s'
  unfolding run_handler
  handled-Kept input handler key s s' k r found same h = elim (Result-cases (handler s.world).0) [
    | inl (b, e) ↦ elim (Option-cases (to_json_value b)) [
      | inl no_form ↦ absurd (ground arith)
      | inr (body, form) ↦ (
        completed_key body k,
        ground
            (arith, find-update_id input.scope key (completed_key body) s.keys k (λ x. refl) found),
        refl,
        same,
        inr (b, ground arith, (body, form, refl)),
      )
    ]
    | inr (x, e) ↦ absurd (ground arith)
  ]

  run-Kept :
      (input : IdempotencyRequestInput B) (handler : W → Result B × W) (key : Text)
      (s s' : KeyStore B W) (r : Option B)
      → present_key (get_header_value input.key) ≡ some key
      → run hash_request to_json_value input handler s ≡ (ok r, s')
      → Kept input key r s'
  unfolding run reserve_key reserve_existing
  run-Kept input handler key s s' r given h =
      elim (Option-cases (find (has_key input.scope key) s.keys)) [
        | inl missing ↦
            handled-Kept input handler key (fresh_store input key (hash_request input) s) s'
              (new_key input key (hash_request input) s) r
              (ground (arith, same_text_refl input.scope, same_text_refl key))
              (same_text_refl (hash_request input)) (ground arith)
        | inr (k, found) ↦ elim (Bool-cases (is_completed k.status)) [
          | inl done ↦ (k, ground arith, done, ground arith, inl (ground arith))
          | inr undone ↦
              handled-Kept input handler key (relocked_store input k s) s'
                (locked_again (lock_end input s) (key_expiry input s) k) r
                (find-update_id input.scope key
                  (locked_again (lock_end input s) (key_expiry input s)) s.keys k (λ x. refl) found)
                (ground arith) (ground arith)
        ]
      ]

  -- A request with a key that was answered is answered again with the JSON form of the same
  -- response, at any later time and whatever the handler: the handler is not called, and nothing is
  -- written.
  pub run_replays :
      (input : IdempotencyRequestInput B) (handler handler' : W → Result B × W) (key : Text)
      (later : ℕ) (s s' : KeyStore B W) (r : Option B)
      → present_key (get_header_value input.key) ≡ some key
      → run hash_request to_json_value input handler s ≡ (ok r, s')
      → (answer : Option B) × (run hash_request to_json_value input handler'
            (record s' { now = later })
          ≡ (ok answer, record s' { now = later }))
        × IsKept to_json_value r answer
  run_replays input handler handler' key later s s' r given h =
      let (k, found, done, same, kept) = run-Kept input handler key s s' r given h in
      (
        k.response_body,
        run-completed input handler' key (record s' { now = later }) k given found done same,
        kept,
      )

  abbrev failed_store : IdempotencyRequestInput B → Text → Error → W → KeyStore B W → KeyStore B W
  failed_store input key e w s =
      update_key s.next_id (failed_key e s.now)
        (record (fresh_store input key (hash_request input) s) { world = w })

  run-threw :
      (input : IdempotencyRequestInput B) (handler : W → Result B × W) (key : Text)
      (s : KeyStore B W) (e : Error) (w : W)
      → present_key (get_header_value input.key) ≡ some key
      → find (has_key input.scope key) s.keys ≡ none
      → handler s.world ≡ (err e, w)
      → (run hash_request to_json_value input handler s).1 ≡ failed_store input key e w s
  unfolding run reserve_key run_handler
  run-threw input handler key s e w given missing threw = ground arith

  run-failed :
      (input : IdempotencyRequestInput B) (handler : W → Result B × W) (key : Text)
      (s : KeyStore B W) (k : IdempotencyKey B)
      → present_key (get_header_value input.key) ≡ some key
      → find (has_key input.scope key) s.keys ≡ some k
      → k.status ≡ KeyStatus.failed
      → same_text k.request_hash (hash_request input) ≡ true
      → (run hash_request to_json_value input handler s).1.world ≡ (handler s.world).1
  unfolding run reserve_key reserve_existing run_handler
  run-failed input handler key s k given found failed same = ground arith

  -- A request whose handler threw can be made again: its handler is called again, on the world that
  -- the first one left.
  pub run_retries :
      (input : IdempotencyRequestInput B) (handler handler' : W → Result B × W) (key : Text)
      (s : KeyStore B W) (e : Error) (w : W)
      → present_key (get_header_value input.key) ≡ some key
      → find (has_key input.scope key) s.keys ≡ none
      → handler s.world ≡ (err e, w)
      → (run hash_request to_json_value input handler'
          (run hash_request to_json_value input handler s).1).1.world
        ≡ (handler' w).1
  run_retries input handler handler' key s e w given missing threw =
      let k = failed_key e s.now (new_key input key (hash_request input) s) in
      ap (λ x. (run hash_request to_json_value input handler' x).1.world)
        (run-threw input handler key s e w given missing threw)
      ∙ run-failed input handler' key (failed_store input key e w s) k given
          (ground (arith, same_text_refl input.scope, same_text_refl key)) refl
          (same_text_refl (hash_request input))
