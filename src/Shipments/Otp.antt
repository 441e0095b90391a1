-- ===== src/Shipments/Otp.antt =====
-- The one-time codes of pickup and delivery, in services/api/src/shipments/shipment-otp.service.ts.
-- bcrypt and the random source are not the repository's: they are an interface and arguments here.
pub mod Row
pub mod Once
use rydalux_app.Prelude.{
  ℕ, zero, suc, ◌+◌, ◌*◌, ⊤, ◌≡◌, Bool, true, false, not, ◌&&◌, Option, none, some, List, [], ◌∷◌,
  ◌++◌, String, find, update, ◌==◌, ltb, leb, is_some, is_none, some_and, if◌then◌else◌,
}
use rydalux_app.Money.{Text}
use rydalux_app.Service.{
  Action, Result, ok, err, bad_request, conflict, pure, raise, gets, or_raise, raise_if, modify,
  ◌>>=◌, ◌>>◌,
}
use rydalux_app.Shipments.Machine.{OtpType}

-- bcrypt: the hash of a code under a salt, which the code and, but for collisions, no other matches.
pub record Bcrypt : Type 0 where
  pub hash : Text → ℕ → Text
  pub matches : Text → Text → Bool
  pub matches-hash : (code : Text) (salt : ℕ) → matches code (hash code salt) ≡ true

pub record ShipmentOtp : Type 0 where
  pub id : ℕ
  pub shipment_id : ℕ
  pub otp_type : OtpType
  pub otp_hash : Text
  pub attempts : ℕ
  pub max_attempts : ℕ
  pub expires_at : ℕ
  pub used_at : Option ℕ

-- The table, with the clock in milliseconds.
pub record OtpStore : Type 0 where
  pub now : ℕ
  pub next_id : ℕ
  pub otps : List ShipmentOtp

abbrev pub otp_length : ℕ
otp_length = 6

abbrev pub otp_max_attempts : ℕ
otp_max_attempts = 3

abbrev pub otp_expiry_ms : ℕ
otp_expiry_ms = 15 * 60 * 1000

abbrev pub same_type : OtpType → OtpType → Bool
same_type OtpType.pickup OtpType.pickup = true
same_type OtpType.delivery OtpType.delivery = true
same_type _ _ = false

-- The unique key of the table.
abbrev pub has_key : ℕ → OtpType → ShipmentOtp → Bool
has_key shipment type o = (o.shipment_id == shipment) && same_type o.otp_type type

abbrev pub has_id : ℕ → ShipmentOtp → Bool
has_id i o = o.id == i

-- `generateNumericCode`: the draws are `Math.floor(Math.random() * 10)`, one for each digit.
abbrev pub generate_numeric_code : (ℕ → ℕ) → ℕ → Text
generate_numeric_code draw zero = []
generate_numeric_code draw (suc n) = generate_numeric_code draw n ++ (b'0' + draw n) ∷ []

-- The two sides of the upsert.
abbrev pub renewed : Text → ℕ → ShipmentOtp → ShipmentOtp
renewed hash expires_at o = record o {
  otp_hash = hash;
  attempts = 0;
  expires_at = expires_at;
  used_at = none;
}

abbrev pub new_otp : ℕ → ℕ → OtpType → Text → ℕ → ShipmentOtp
new_otp i shipment type hash expires_at = record {
  id = i;
  shipment_id = shipment;
  otp_type = type;
  otp_hash = hash;
  attempts = 0;
  max_attempts = otp_max_attempts;
  expires_at = expires_at;
  used_at = none;
}

abbrev pub upsert_otp : ℕ → OtpType → Text → OtpStore → OtpStore
upsert_otp shipment type hash s =
    let expires_at = s.now + otp_expiry_ms in
    elim (find (has_key shipment type) s.otps) [
      | some _ ↦ record s { otps = update (has_key shipment type) (renewed hash expires_at) s.otps }
      | none ↦ record s {
        next_id = s.next_id + 1;
        otps = new_otp s.next_id shipment type hash expires_at ∷ s.otps;
      }
    ]

abbrev pub is_unused : ShipmentOtp → Bool
is_unused o = is_none o.used_at

abbrev pub add_attempt : ShipmentOtp → OtpStore → OtpStore
add_attempt o s = record s {
  otps = update (has_id o.id) (λ r. record r { attempts = o.attempts + 1 }) s.otps;
}

abbrev pub mark_used : ShipmentOtp → OtpStore → OtpStore
mark_used o s = record s {
  otps = update (has_id o.id) (λ r. record r { used_at = some s.now }) s.otps;
}

module _ ⦃bcrypt : Bcrypt⦄ where
  unfoldable pub generate_otp : ℕ → OtpType → (ℕ → ℕ) → ℕ → Action OtpStore Text
  generate_otp shipment type draw salt = do
    let code = generate_numeric_code draw otp_length
    existing ← gets (λ s. find (has_key shipment type) s.otps)
    raise_if (some_and is_unused existing)
        (conflict "OTP already exists for this shipment and type")
    modify (upsert_otp shipment type (bcrypt.hash code salt))
    pure code

  unfoldable pub verify_otp : ℕ → OtpType → Text → Action OtpStore Bool
  verify_otp shipment type provided = do
    now ← gets (λ s. s.now)
    row ← gets (λ s. find (has_key shipment type) s.otps)
    otp ← or_raise row (bad_request "OTP not found for this shipment")
    raise_if (is_some otp.used_at) (conflict "OTP has already been verified")
    raise_if (ltb otp.expires_at now) (bad_request "OTP has expired")
    raise_if (leb otp.max_attempts otp.attempts) (bad_request "Maximum OTP attempts exceeded")
    if bcrypt.matches provided otp.otp_hash
        then modify (mark_used otp) >> pure true
        else modify (add_attempt otp) >> raise (bad_request "Invalid OTP code")

unfoldable pub is_otp_verified : ℕ → OtpType → OtpStore → Bool
is_otp_verified shipment type s =
    some_and (λ o. is_some o.used_at) (find (has_key shipment type) s.otps)

unfoldable pub is_otp_valid : ℕ → OtpType → OtpStore → Bool
is_otp_valid shipment type s =
    some_and (λ o. is_unused o && not (ltb o.expires_at s.now))
      (find (has_key shipment type) s.otps)

pub record OtpStatus : Type 0 where
  pub is_verified : Bool
  pub is_expired : Bool
  pub attempts : ℕ
  pub max_attempts : ℕ
  pub expires_at : ℕ

unfoldable pub get_otp_status : ℕ → OtpType → OtpStore → Option OtpStatus
get_otp_status shipment type s = elim (find (has_key shipment type) s.otps) [
  | none ↦ none
  | some o ↦ some record {
    is_verified = is_some o.used_at;
    is_expired = ltb o.expires_at s.now;
    attempts = o.attempts;
    max_attempts = o.max_attempts;
    expires_at = o.expires_at;
  }
]
