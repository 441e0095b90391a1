-- ===== src/Shipments/Otp/Once.antt =====
-- What a one-time code promises: it verifies while it is fresh, once, and after three misses at most.
use rydalux_app.Prelude.{
  ℕ, ◌+◌, ◌≤◌, ◌<◌, ◌≡◌, refl, ap, ◌∙◌, sym, Bool, true, false, none, some, List, [], ◌∷◌, find,
  update, length, All, arith, Option-cases, Bool-cases, inl, inr,
}
use rydalux_app.Money.{Text}
use rydalux_app.Service.{ok, succeeded}
use rydalux_app.Shipments.Machine.{OtpType}
use rydalux_app.Shipments.Otp.{
  Bcrypt, ShipmentOtp, OtpStore, otp_max_attempts, otp_expiry_ms, has_key, has_id, generate_otp,
  verify_otp, is_otp_verified, is_otp_valid, mark_used, add_attempt, renewed, generate_numeric_code,
  otp_length,
}
use rydalux_app.Shipments.Otp.Row.{
  IsBounded, HasBounds, find-update_id, find-IsBounded, is_refused, generate_otp-row,
  verify_otp-passes, verify_otp-misses, verify_otp-refused, verify_otp-ok, mark_used-row,
}

renewed-bounds :
    (k : ℕ) (t : OtpType) (h : Text) (e : ℕ) (rows : List ShipmentOtp)
    → All IsBounded rows
    → All IsBounded (update (has_key k t) (renewed h e) rows)
renewed-bounds k t h e [] all = tt
renewed-bounds k t h e (r ∷ rows) all = (ground arith, renewed-bounds k t h e rows all.1)

used-bounds :
    (i now : ℕ) (rows : List ShipmentOtp)
    → All IsBounded rows
    → All IsBounded (update (has_id i) (λ r. record r { used_at = some now }) rows)
used-bounds i now [] all = tt
used-bounds i now (r ∷ rows) all = (ground arith, used-bounds i now rows all.1)

attempts-bounds :
    (i a : ℕ) (rows : List ShipmentOtp)
    → a ≤ otp_max_attempts
    → All IsBounded rows
    → All IsBounded (update (has_id i) (λ r. record r { attempts = a }) rows)
attempts-bounds i a [] h all = tt
attempts-bounds i a (r ∷ rows) h all = (ground arith, attempts-bounds i a rows h all.1)

mark_used-verified :
    (k : ℕ) (t : OtpType) (s : OtpStore) (o : ShipmentOtp)
    → find (has_key k t) s.otps ≡ some o
    → is_otp_verified k t (mark_used o s) ≡ true
unfolding is_otp_verified
mark_used-verified k t s o found = ground (arith, mark_used-row k t s o found)

module _ ⦃bcrypt : Bcrypt⦄ where
  -- In a store whose rows allow three attempts and have used no more, a code that was generated
  -- verifies, on its own shipment and for its own purpose, at any time within the fifteen minutes
  -- that it is given, and the store then says that it is verified.
  pub verify_otp-generate_otp :
      (k : ℕ) (t : OtpType) (draw : ℕ → ℕ) (salt later : ℕ) (s s' : OtpStore) (code : Text)
      → HasBounds s
      → generate_otp k t draw salt s ≡ (ok code, s')
      → later ≤ s.now + otp_expiry_ms
      → ((verify_otp k t code (record s' { now = later })).0 ≡ ok true)
        × (is_otp_verified k t (verify_otp k t code (record s' { now = later })).1 ≡ true)
  verify_otp-generate_otp k t draw salt later s s' code bounds h fresh =
      let (o, found, hashed, zero, max, unused, expiry) =
        generate_otp-row k t draw salt s code bounds (ap (λ r. r.0) h) in
      let here : find (has_key k t) s'.otps ≡ some o =
        sym (ap (λ r. find (has_key k t) r.1.otps) h) ∙ found in
      let passes : verify_otp k t code (record s' { now = later })
          ≡ (ok true, mark_used o (record s' { now = later })) =
        verify_otp-passes k t code (record s' { now = later }) o here (ground arith)
          (ap (bcrypt.matches code) hashed ∙ bcrypt.matches-hash code salt) in
      (
        ap (λ r. r.0) passes,
        ap (λ r. is_otp_verified k t r.1) passes
            ∙ mark_used-verified k t (record s' { now = later }) o here,
      )

  -- A code that has verified (the call answered) does not verify again, whatever is typed and however much later, and
  -- the second call leaves the store as it is.
  pub verify_otp_once :
      (k : ℕ) (t : OtpType) (p p' : Text) (later : ℕ) (s s' : OtpStore) (b : Bool)
      → verify_otp k t p s ≡ (ok b, s')
      → (succeeded (verify_otp k t p' (record s' { now = later })).0 ≡ false)
        × ((verify_otp k t p' (record s' { now = later })).1 ≡ record s' { now = later })
  verify_otp_once k t p p' later s s' b h =
      let (o, found, marked) = verify_otp-ok k t p s s' b h in
      verify_otp-refused k t p' (record s' { now = later }) (record o { used_at = some s.now })
        (ap (λ r. find (has_key k t) r.otps) marked ∙ mark_used-row k t s o found) refl

  -- Where every row allows three attempts and has used no more, that holds after either call.
  pub otp_calls-HasBounds :
      (k : ℕ) (t : OtpType) (draw : ℕ → ℕ) (salt : ℕ) (p : Text) (s : OtpStore)
      → HasBounds s
      → HasBounds (generate_otp k t draw salt s).1 × HasBounds (verify_otp k t p s).1
  unfolding generate_otp verify_otp
  otp_calls-HasBounds k t draw salt p s bounds = elim (Option-cases (find (has_key k t) s.otps)) [
    | inl missing ↦ (ground arith, ground arith)
    | inr (o, found) ↦ (
      ground (
        arith,
        renewed-bounds k t (bcrypt.hash (generate_numeric_code draw otp_length) salt)
            (s.now + otp_expiry_ms) s.otps bounds,
      ),
      ground (
        arith,
        find-IsBounded k t s.otps o bounds found,
        used-bounds o.id s.now s.otps bounds,
        attempts-bounds o.id (o.attempts + 1) s.otps,
      ),
    )
  ]

  -- The calls that check one code after another.
  abbrev pub verify_each : ℕ → OtpType → List Text → OtpStore → OtpStore
  verify_each k t [] s = s
  verify_each k t (p ∷ ps) s = verify_each k t ps (verify_otp k t p s).1

  verify_each-refused :
      (k : ℕ) (t : OtpType) (ps : List Text) (s : OtpStore) (o : ShipmentOtp)
      → find (has_key k t) s.otps ≡ some o
      → is_refused o s ≡ true
      → verify_each k t ps s ≡ s
  verify_each-refused k t [] s o found refused = refl
  verify_each-refused k t (p ∷ ps) s o found refused =
      ap (verify_each k t ps) (verify_otp-refused k t p s o found refused).1
      ∙ verify_each-refused k t ps s o found refused

  -- Once as many wrong codes have been typed as the row still allows, no code verifies any more, the
  -- right one included.
  pub wrong_codes_refuse :
      (k : ℕ) (t : OtpType) (wrong : List Text) (p : Text) (s : OtpStore) (o : ShipmentOtp)
      → find (has_key k t) s.otps ≡ some o
      → All (λ w. bcrypt.matches w o.otp_hash ≡ false) wrong
      → o.max_attempts ≤ o.attempts + length wrong
      → succeeded (verify_otp k t p (verify_each k t wrong s)).0 ≡ false
  wrong_codes_refuse k t [] p s o found misses enough =
      (verify_otp-refused k t p s o found (ground arith)).0
  wrong_codes_refuse k t (w ∷ ws) p s o found misses enough = elim (Bool-cases (is_refused o s)) [
    | inl refused ↦
        ap (λ r. succeeded (verify_otp k t p r).0)
          (verify_each-refused k t (w ∷ ws) s o found refused)
        ∙ (verify_otp-refused k t p s o found refused).0
    | inr fresh ↦
        ap (λ r. succeeded (verify_otp k t p (verify_each k t ws r)).0)
          (verify_otp-misses k t w s o found fresh misses.0)
        ∙ wrong_codes_refuse k t ws p (add_attempt o s) (record o { attempts = o.attempts + 1 })
            (find-update_id k t (λ r. record r { attempts = o.attempts + 1 }) s.otps o (λ r. refl)
              found)
            misses.1 (omega arith)
  ]

  -- A code that has expired unused can neither be verified nor be replaced: both calls throw and
  -- leave the store as it is, although `isOtpValid` says that the shipment has no valid code.
  pub expired_stays :
      (k : ℕ) (t : OtpType) (draw : ℕ → ℕ) (salt : ℕ) (p : Text) (s : OtpStore) (o : ShipmentOtp)
      → find (has_key k t) s.otps ≡ some o
      → o.used_at ≡ none
      → o.expires_at < s.now
      → (is_otp_valid k t s ≡ false)
        × (succeeded (generate_otp k t draw salt s).0 ≡ false)
        × ((generate_otp k t draw salt s).1 ≡ s)
        × (succeeded (verify_otp k t p s).0 ≡ false)
        × ((verify_otp k t p s).1 ≡ s)
  unfolding is_otp_valid generate_otp verify_otp
  expired_stays k t draw salt p s o found unused expired = ground arith
