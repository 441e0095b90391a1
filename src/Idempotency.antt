-- ===== src/Idempotency.antt =====
-- Idempotency keys, in services/api/src/idempotency/idempotency.service.ts. The digest of a request
-- and the JSON form of a response come from Node's libraries: they are arguments here.
pub mod Lock
pub mod Replay
use rydalux_app.Prelude.{
  same_text, ℕ, ◌+◌, ◌*◌, ⊤, Bool, true, false, not, ◌&&◌, Option, none, some, List, [], ◌∷◌, find,
  update, ◌==◌, ltb, leb, ◌-◌, some_and, or_default, if◌then◌else◌,
}
use rydalux_app.Money.{Text}
use rydalux_app.Service.{
  Action, Result, ok, err, Error, conflict, internal, pure, raise, gets, modify, ◌>>=◌, ◌>>◌,
}

abbrev pub default_ttl_ms : ℕ
default_ttl_ms = 24 * 60 * 60 * 1000

abbrev pub default_lock_ms : ℕ
default_lock_ms = 60 * 1000

-- A header's value, `string | string[] | undefined`.
pub data HeaderValue : Type 0 where
  absent : HeaderValue
  single : Text → HeaderValue
  several : List Text → HeaderValue

pub data KeyStatus : Type 0 where
  in_progress completed failed : KeyStatus

-- `B` is the type of the JSON values.
pub record IdempotencyRequestInput (B : Type 0) : Type 0 where
  pub key : HeaderValue
  pub scope : Text
  pub method : Text
  pub endpoint : Text
  pub actor_id : Option ℕ
  pub body : Option B
  pub ttl_ms : Option ℕ
  pub lock_ms : Option ℕ

pub record IdempotencyKey (B : Type 0) : Type 0 where
  pub id : ℕ
  pub key : Text
  pub scope : Text
  pub method : Text
  pub endpoint : Text
  pub actor_id : Option ℕ
  pub request_hash : Text
  pub status : KeyStatus
  pub response_status : Option ℕ
  pub response_body : Option B
  pub error_body : Option Error
  pub locked_until : Option ℕ
  pub expires_at : ℕ

-- The table, with the rest of the world, on which the handlers act.
pub record KeyStore (B W : Type 0) : Type 0 where
  pub now : ℕ
  pub next_id : ℕ
  pub keys : List (IdempotencyKey B)
  pub world : W

-- `toUpperCase`, on ASCII letters, which the methods of HTTP are written in.
abbrev pub upper_case : Text → Text
upper_case [] = []
upper_case (c ∷ cs) = (if leb b'a' c && leb c b'z' then c - 32 else c) ∷ upper_case cs

-- `errorStatus`
abbrev pub error_status : Error → ℕ
error_status (Error.bad_request _) = 400
error_status (Error.unauthorized _) = 401
error_status (Error.forbidden _) = 403
error_status (Error.not_found _) = 404
error_status (Error.conflict _) = 409
error_status (Error.internal _) = 500

-- What `toJsonValue` throws on a response without a JSON form.
abbrev pub json_error : Error
json_error = internal "TypeError"

abbrev pub is_completed : KeyStatus → Bool
is_completed KeyStatus.completed = true
is_completed _ = false

abbrev pub is_in_progress : KeyStatus → Bool
is_in_progress KeyStatus.in_progress = true
is_in_progress _ = false

unfoldable pub get_header_value : HeaderValue → Option Text
get_header_value HeaderValue.absent = none
get_header_value (HeaderValue.single v) = some v
get_header_value (HeaderValue.several []) = none
get_header_value (HeaderValue.several (v ∷ vs)) = some v

-- `!key`, which an empty string passes too.
abbrev pub present_key : Option Text → Option Text
present_key none = none
present_key (some []) = none
present_key (some (c ∷ cs)) = some (c ∷ cs)

-- What a key is reserved as: a row to work under, or an answer to give again.
pub data Reserved (B : Type 0) : Type 0 where
  row : ℕ → Reserved B
  replay : Option B → Reserved B

module _ {B : Type 0} where
  -- The unique key of the table.
  abbrev pub has_key : Text → Text → IdempotencyKey B → Bool
  has_key scope key k = same_text k.scope scope && same_text k.key key

  abbrev pub has_id : ℕ → IdempotencyKey B → Bool
  has_id i k = k.id == i

  abbrev pub locked_again : ℕ → ℕ → IdempotencyKey B → IdempotencyKey B
  locked_again lock expiry k = record k {
    status = KeyStatus.in_progress;
    response_status = none;
    response_body = none;
    error_body = none;
    locked_until = some lock;
    expires_at = expiry;
  }

  abbrev pub completed_key : B → IdempotencyKey B → IdempotencyKey B
  completed_key response k = record k {
    status = KeyStatus.completed;
    response_status = some 200;
    response_body = some response;
    error_body = none;
    locked_until = none;
  }

  abbrev pub failed_key : Error → ℕ → IdempotencyKey B → IdempotencyKey B
  failed_key error now k = record k {
    status = KeyStatus.failed;
    response_status = some (error_status error);
    response_body = none;
    error_body = some error;
    locked_until = none;
    expires_at = now;
  }

module _ {B W : Type 0} where
  abbrev pub lock_end : IdempotencyRequestInput B → KeyStore B W → ℕ
  lock_end input s = s.now + or_default input.lock_ms default_lock_ms

  abbrev pub key_expiry : IdempotencyRequestInput B → KeyStore B W → ℕ
  key_expiry input s = s.now + or_default input.ttl_ms default_ttl_ms

  abbrev pub new_key : IdempotencyRequestInput B → Text → Text → KeyStore B W → IdempotencyKey B
  new_key input key hash s = record {
    id = s.next_id;
    key = key;
    scope = input.scope;
    method = upper_case input.method;
    endpoint = input.endpoint;
    actor_id = input.actor_id;
    request_hash = hash;
    status = KeyStatus.in_progress;
    response_status = none;
    response_body = none;
    error_body = none;
    locked_until = some (lock_end input s);
    expires_at = key_expiry input s;
  }

  abbrev pub update_key : ℕ → (IdempotencyKey B → IdempotencyKey B) → KeyStore B W → KeyStore B W
  update_key i f s = record s { keys = update (has_id i) f s.keys }

  -- `reserveKey` on a key that is in the table.
  unfoldable pub reserve_existing :
      IdempotencyRequestInput B → Text → IdempotencyKey B → Action (KeyStore B W) (Reserved B)
  reserve_existing input hash k s =
      if not (same_text k.request_hash hash)
      then (err (conflict "Idempotency key was already used with a different request."), s)
      else if is_completed k.status
      then (ok (Reserved.replay k.response_body), s)
      else if is_in_progress k.status && some_and (λ t. ltb s.now t) k.locked_until
      then (err (conflict "Request with this idempotency key is already in progress."), s)
      else (
        ok (Reserved.row k.id),
        update_key k.id (locked_again (lock_end input s) (key_expiry input s)) s,
      )

  unfoldable pub reserve_key :
      IdempotencyRequestInput B → Text → Text → Action (KeyStore B W) (Reserved B)
  reserve_key input key hash s = elim (find (has_key input.scope key) s.keys) [
    | none ↦ (
      ok (Reserved.row s.next_id),
      record s { next_id = s.next_id + 1; keys = new_key input key hash s ∷ s.keys },
    )
    | some k ↦ reserve_existing input hash k s
  ]

  -- The handler's call, with the row settled by what comes of it. A response that has no JSON form
  -- is an error of `toJsonValue`, which `markCompleted` throws.
  unfoldable pub run_handler :
      (B → Option B) → (W → Result B × W) → ℕ → Action (KeyStore B W) (Option B)
  run_handler to_json_value handler i s =
      let (r, w) = handler s.world in
      let s' : KeyStore B W = record s { world = w } in
      elim r [
        | ok response ↦ elim (to_json_value response) [
          | some body ↦ (ok (some response), update_key i (completed_key body) s')
          | none ↦ (err json_error, update_key i (failed_key json_error s.now) s')
        ]
        | err error ↦ (err error, update_key i (failed_key error s.now) s')
      ]

  -- The handler's call without a key.
  abbrev pub run_bare : (W → Result B × W) → Action (KeyStore B W) (Option B)
  run_bare handler s =
      let (r, w) = handler s.world in
      (elim r [ ok response ↦ ok (some response) | err error ↦ err error ], record s { world = w })

  abbrev pub run_reserved :
      (B → Option B) → (W → Result B × W) → Reserved B → Action (KeyStore B W) (Option B)
  run_reserved to_json_value handler (Reserved.replay response) s = (ok response, s)
  run_reserved to_json_value handler (Reserved.row i) s = run_handler to_json_value handler i s

  unfoldable pub run :
      (IdempotencyRequestInput B → Text)
      → (B → Option B)
      → IdempotencyRequestInput B
      → (W → Result B × W)
      → Action (KeyStore B W) (Option B)
  run hash_request to_json_value input handler s = elim (present_key (get_header_value input.key)) [
    | none ↦ run_bare handler s
    | some key ↦
        (reserve_key input key (hash_request input) >>= run_reserved to_json_value handler) s
  ]
