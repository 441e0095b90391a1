-- ===== src/Idempotency/Lock.antt =====
-- How long a key that is reserved for a request keeps others out.
use rydalux_app.Prelude.{
  same_text, same_text_refl, ℕ, ◌≡◌, ◌≢◌, ◌≤◌, ◌<◌, ◌⊎◌, ◌&&◌, refl, sym, ap, ◌∙◌, true, false,
  Option, some, [], ◌∷◌, find, leb, arith, Option-cases, Bool-cases, inl, inr,
}
use rydalux_app.Money.{Text}
use rydalux_app.Service.{Result, ok, succeeded}
use rydalux_app.Idempotency.{
  IdempotencyRequestInput, IdempotencyKey, KeyStatus, KeyStore, Reserved, has_key, get_header_value,
  present_key, reserve_key, reserve_existing, run_handler, run, new_key, locked_again, lock_end,
  key_expiry,
}
use rydalux_app.Idempotency.Replay.{find-update_id}

same_text_eq : (s t : Text) → same_text s t ≡ true → s ≡ t
same_text_eq [] [] h = refl
same_text_eq [] (y ∷ ys) h = absurd (ground arith)
same_text_eq (x ∷ xs) [] h = absurd (ground arith)
same_text_eq (x ∷ xs) (y ∷ ys) h = ground (arith, same_text_eq xs ys)

same_text_ne : (s t : Text) → same_text s t ≡ false → s ≢ t
same_text_ne s t h e =
    let clash : true ≡ false = sym (same_text_refl s) ∙ ap (same_text s) e ∙ h in
    absurd (ground arith)

not_over :
    (s t : Text) (until now : ℕ) → same_text s t && leb until now ≡ false → (s ≢ t) ⊎ (now < until)
not_over s t until now h = elim (Bool-cases (same_text s t)) [
  | inl same ↦ inr (ground arith)
  | inr differ ↦ inl (same_text_ne s t differ)
]

module _ {B W : Type 0} where
  -- The key's row while a request is under way.
  record Locked (scope key hash : Text) (until : ℕ) (world : W) (s : KeyStore B W) : Type 0 where
    row : IdempotencyKey B
    found : find (has_key scope key) s.keys ≡ some row
    status : row.status ≡ KeyStatus.in_progress
    lock : row.locked_until ≡ some until
    hash_ : row.request_hash ≡ hash
    same_world : s.world ≡ world

  reserve_key-Locked :
      (input : IdempotencyRequestInput B) (key hash : Text) (i : ℕ) (s s' : KeyStore B W)
      → reserve_key input key hash s ≡ (ok (Reserved.row i), s')
      → Locked input.scope key hash (lock_end input s) s.world s'
  unfolding reserve_key reserve_existing
  reserve_key-Locked input key hash i s s' h =
      elim (Option-cases (find (has_key input.scope key) s.keys)) [
        | inl missing ↦ record {
          row = new_key input key hash s;
          found = ground (arith, same_text_refl input.scope, same_text_refl key);
          status = refl;
          lock = refl;
          hash_ = refl;
          same_world = ground arith;
        }
        | inr (k, found) ↦ record {
          row = locked_again (lock_end input s) (key_expiry input s) k;
          found = ground (
            arith,
            find-update_id input.scope key (locked_again (lock_end input s) (key_expiry input s))
                s.keys k (λ x. refl) found,
          );
          status = refl;
          lock = refl;
          hash_ = ground (arith, same_text_eq k.request_hash hash);
          same_world = ground arith;
        }
      ]

module _ {B W : Type 0} (hash_request : IdempotencyRequestInput B → Text)
    (to_json_value : B → Option B) where
  -- A request that comes while the row is in process, and what it does to the world.
  run_refused :
      (input : IdempotencyRequestInput B) (handler : W → Result B × W) (key hash : Text) (until : ℕ)
      (world : W) (s : KeyStore B W)
      → present_key (get_header_value input.key) ≡ some key
      → Locked input.scope key hash until world s
      → same_text hash (hash_request input) && leb until s.now ≡ false
      → (succeeded (run hash_request to_json_value input handler s).0 ≡ false)
        × ((run hash_request to_json_value input handler s).1 ≡ s)
  unfolding run reserve_key reserve_existing
  run_refused input handler key hash until world s given l out =
      ground (arith, l.found, l.status, l.lock, ap (λ t. same_text t (hash_request input)) l.hash_)

  run_called :
      (input : IdempotencyRequestInput B) (handler : W → Result B × W) (key hash : Text) (until : ℕ)
      (world : W) (s : KeyStore B W)
      → present_key (get_header_value input.key) ≡ some key
      → Locked input.scope key hash until world s
      → same_text hash (hash_request input) && leb until s.now ≡ true
      → (run hash_request to_json_value input handler s).1.world ≡ (handler world).1
  unfolding run reserve_key reserve_existing run_handler
  run_called input handler key hash until world s given l out = ground (
    arith,
    l.found,
    l.status,
    l.lock,
    ap (λ t. same_text t (hash_request input)) l.hash_,
    l.same_world,
  )

  later-Locked :
      (input input' : IdempotencyRequestInput B) (key : Text) (i later : ℕ) (s s1 : KeyStore B W)
      → input'.scope ≡ input.scope
      → reserve_key input key (hash_request input) s ≡ (ok (Reserved.row i), s1)
      → Locked input'.scope key
          (hash_request input)
          (lock_end input s)
          s.world
          (record s1 { now = later })
  later-Locked input input' key i later s s1 scoped reserved =
      let l = reserve_key-Locked input key (hash_request input) i s s1 reserved in
      rw scoped (record {
        row = l.row;
        found = l.found;
        status = l.status;
        lock = l.lock;
        hash_ = l.hash_;
        same_world = l.same_world;
      })

  -- While the handler of a request runs under a key that it has reserved, a new one or one taken over,
  -- a request with that key and scope either has the same digest and comes when the lock has run out:
  -- then its handler is called as well, on the world that the first request found. Or it has another
  -- digest or comes before the lock's end: then it throws, calls no handler, and writes nothing.
  pub run_locks :
      (input input' : IdempotencyRequestInput B) (handler : W → Result B × W) (key : Text)
      (i later : ℕ) (s s1 : KeyStore B W)
      → present_key (get_header_value input'.key) ≡ some key
      → input'.scope ≡ input.scope
      → reserve_key input key (hash_request input) s ≡ (ok (Reserved.row i), s1)
      → let s' : KeyStore B W = record s1 { now = later } in
        let (answer, after) = run hash_request to_json_value input' handler s' in
        ((hash_request input ≡ hash_request input')
          × (lock_end input s ≤ later)
          × (after.world ≡ (handler s.world).1))
        ⊎ (((hash_request input ≢ hash_request input') ⊎ (later < lock_end input s))
            × (succeeded answer ≡ false)
            × (after ≡ s'))
  run_locks input input' handler key i later s s1 given scoped reserved =
      let s' : KeyStore B W = record s1 { now = later } in
      let l = later-Locked input input' key i later s s1 scoped reserved in
      elim (Bool-cases
        (same_text (hash_request input) (hash_request input') && leb (lock_end input s) later)) [
          | inl out ↦ inl (
            same_text_eq (hash_request input) (hash_request input') (ground arith),
            ground arith,
            run_called input' handler key (hash_request input) (lock_end input s) s.world s' given l
                out,
          )
          | inr locked ↦
              let (throws, keeps) =
                run_refused input' handler key (hash_request input) (lock_end input s) s.world s'
                  given l locked in
              inr (
                not_over (hash_request input) (hash_request input') (lock_end input s) later locked,
                throws,
                keeps,
              )
        ]
