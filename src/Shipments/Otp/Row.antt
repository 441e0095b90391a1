-- ===== src/Shipments/Otp/Row.antt =====
-- The row of a one-time code before and after the calls on it.
use rydalux_app.Prelude.{
  ℕ, ◌+◌, ◌≤◌, ◌≡◌, refl, Bool, true, false, none, some, List, [], ◌∷◌, find, update, ◌||◌, ltb,
  leb, is_some, All, arith, Option-cases, inl, inr,
}
use rydalux_app.Money.{Text}
use rydalux_app.Service.{ok, succeeded}
use rydalux_app.Shipments.Machine.{OtpType}
use rydalux_app.Shipments.Otp.{
  Bcrypt, ShipmentOtp, OtpStore, otp_max_attempts, otp_expiry_ms, has_key, has_id, generate_otp,
  verify_otp, mark_used, add_attempt, renewed, same_type, new_otp, generate_numeric_code,
  otp_length,
}

-- Every row allows three attempts and has used no more.
abbrev pub IsBounded : ShipmentOtp → Type 0
IsBounded o = (o.max_attempts ≡ otp_max_attempts) × (o.attempts ≤ o.max_attempts)

abbrev pub HasBounds : OtpStore → Type 0
HasBounds s = All IsBounded s.otps

pub find-update_key :
    (k : ℕ) (t : OtpType) (f : ShipmentOtp → ShipmentOtp) (rows : List ShipmentOtp)
    (o : ShipmentOtp)
    → ((r : ShipmentOtp) → has_key k t (f r) ≡ has_key k t r)
    → find (has_key k t) rows ≡ some o
    → find (has_key k t) (update (has_key k t) f rows) ≡ some (f o)
find-update_key k t f [] o same h = cc
find-update_key k t f (r ∷ rows) o same h =
    ground (arith, same r, find-update_key k t f rows o same)

pub find-update_id :
    (k : ℕ) (t : OtpType) (f : ShipmentOtp → ShipmentOtp) (rows : List ShipmentOtp)
    (o : ShipmentOtp)
    → ((r : ShipmentOtp) → has_key k t (f r) ≡ has_key k t r)
    → find (has_key k t) rows ≡ some o
    → find (has_key k t) (update (has_id o.id) f rows) ≡ some (f o)
find-update_id k t f [] o same h = cc
find-update_id k t f (r ∷ rows) o same h = ground (arith, same r, find-update_id k t f rows o same)

same_type_refl : (t : OtpType) → same_type t t ≡ true
same_type_refl t = ground arith

pub find-IsBounded :
    (k : ℕ) (t : OtpType) (rows : List ShipmentOtp) (o : ShipmentOtp)
    → All IsBounded rows
    → find (has_key k t) rows ≡ some o
    → IsBounded o
find-IsBounded k t [] o all h = absurd (ground arith)
find-IsBounded k t (r ∷ rows) o all h = ground (arith, find-IsBounded k t rows o)

-- The three guards of `verifyOtp`.
abbrev pub is_refused : ShipmentOtp → OtpStore → Bool
is_refused o s = is_some o.used_at || ltb o.expires_at s.now || leb o.max_attempts o.attempts

pub mark_used-row :
    (k : ℕ) (t : OtpType) (s : OtpStore) (o : ShipmentOtp)
    → find (has_key k t) s.otps ≡ some o
    → find (has_key k t) (mark_used o s).otps ≡ some (record o { used_at = some s.now })
mark_used-row k t s o found =
    find-update_id k t (λ r. record r { used_at = some s.now }) s.otps o (λ r. refl) found

module _ ⦃bcrypt : Bcrypt⦄ where
  -- The row after a code is generated.
  pub generate_otp-row :
      (k : ℕ) (t : OtpType) (draw : ℕ → ℕ) (salt : ℕ) (s : OtpStore) (code : Text)
      → HasBounds s
      → (generate_otp k t draw salt s).0 ≡ ok code
      → (o : ShipmentOtp) × (find (has_key k t) (generate_otp k t draw salt s).1.otps ≡ some o)
        × (o.otp_hash ≡ bcrypt.hash code salt)
        × (o.attempts ≡ 0)
        × (o.max_attempts ≡ otp_max_attempts)
        × (o.used_at ≡ none)
        × (o.expires_at ≡ s.now + otp_expiry_ms)
  unfolding generate_otp
  generate_otp-row k t draw salt s code bounds h = elim (Option-cases (find (has_key k t) s.otps)) [
    | inl missing ↦
        let o =
          new_otp s.next_id k t (bcrypt.hash (generate_numeric_code draw otp_length) salt)
            (s.now + otp_expiry_ms) in
        (o, ground (arith, same_type_refl t), ground arith, refl, refl, refl, refl)
    | inr (r, found) ↦
        let f =
          renewed (bcrypt.hash (generate_numeric_code draw otp_length) salt)
            (s.now + otp_expiry_ms) in
        (
          f r,
          ground (arith, find-update_key k t f s.otps r (λ x. refl) found),
          ground arith,
          refl,
          (find-IsBounded k t s.otps r bounds found).0,
          refl,
          refl,
        )
  ]

  pub verify_otp-passes :
      (k : ℕ) (t : OtpType) (p : Text) (s : OtpStore) (o : ShipmentOtp)
      → find (has_key k t) s.otps ≡ some o
      → is_refused o s ≡ false
      → bcrypt.matches p o.otp_hash ≡ true
      → verify_otp k t p s ≡ (ok true, mark_used o s)
  unfolding verify_otp
  verify_otp-passes k t p s o found fresh match = ground arith

  pub verify_otp-misses :
      (k : ℕ) (t : OtpType) (p : Text) (s : OtpStore) (o : ShipmentOtp)
      → find (has_key k t) s.otps ≡ some o
      → is_refused o s ≡ false
      → bcrypt.matches p o.otp_hash ≡ false
      → (verify_otp k t p s).1 ≡ add_attempt o s
  unfolding verify_otp
  verify_otp-misses k t p s o found fresh miss = ground arith

  pub verify_otp-refused :
      (k : ℕ) (t : OtpType) (p : Text) (s : OtpStore) (o : ShipmentOtp)
      → find (has_key k t) s.otps ≡ some o
      → is_refused o s ≡ true
      → (succeeded (verify_otp k t p s).0 ≡ false) × ((verify_otp k t p s).1 ≡ s)
  unfolding verify_otp
  verify_otp-refused k t p s o found refused = ground arith

  -- What is known of the row when a verification has returned.
  pub verify_otp-ok :
      (k : ℕ) (t : OtpType) (p : Text) (s s' : OtpStore) (b : Bool)
      → verify_otp k t p s ≡ (ok b, s')
      → (o : ShipmentOtp) × (find (has_key k t) s.otps ≡ some o) × (s' ≡ mark_used o s)
  unfolding verify_otp
  verify_otp-ok k t p s s' b h = elim (Option-cases (find (has_key k t) s.otps)) [
    | inl missing ↦ absurd (ground arith)
    | inr (o, found) ↦ (o, found, ground arith)
  ]
