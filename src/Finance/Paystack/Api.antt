-- ===== src/Finance/Paystack/Api.antt =====
-- What services/api/src/payments/paystack.service.ts reads outside the finance tables: the
-- provider's HTTP interface, the key that it is called with, and the riders' e-mail addresses.
use rydalux_app.Prelude.{ℕ, Bool, Option, none, some, [], ◌∷◌, ◌++◌, String, same_text}
use rydalux_app.Prelude.Int.{ℤ}
use rydalux_app.Money.{Text, codes, format_nat}
use rydalux_app.Finance.State.{WebhookPayload}

-- Bodies of the provider's answers; a field of an absent `data` is absent.
pub record InitializeResponse : Type 0 where
  pub status : Bool
  pub authorization_url : Option Text
  pub access_code : Option Text

pub record VerificationData : Type 0 where
  pub id : ℕ
  pub status : Text

pub record VerificationResponse : Type 0 where
  pub status : Bool
  pub verified : Option VerificationData

pub record RecipientResponse : Type 0 where
  pub status : Bool
  pub recipient_code : Option Text

pub record TransferResponse : Type 0 where
  pub status : Bool
  pub id : Option ℕ
  pub transfer_code : Option Text

pub record RefundResponse : Type 0 where
  pub status : Bool
  pub id : Option ℕ
  pub reference : Option Text

-- A call that throws is answered by `none`. Amounts are handed over in minor units.
pub record PaystackApi : Type 0 where
  -- A secret key is configured.
  pub has_secret_key : Bool
  pub user_email : ℕ → Option Text
  pub initialize : Text → ℤ → Text → Option InitializeResponse
  pub verify : Text → Option VerificationResponse
  pub create_recipient : Text → Text → Text → Option RecipientResponse
  pub transfer : ℤ → Text → Option Text → Text → Option TransferResponse
  pub refund : Text → ℤ → Option Text → Option RefundResponse
  -- `hashProviderPayload`, a SHA-256 in hexadecimal.
  pub hash_payload : WebhookPayload → Text

-- A text is the given one, as `===` with a literal. Shut, so that no proof computes a literal's codes.
unfoldable pub is_text : String → Text → Bool
is_text s t = same_text (codes s) t

-- An empty text is false, as an absent one is.
abbrev pub non_empty : Option Text → Option Text
non_empty none = none
non_empty (some []) = none
non_empty (some (c ∷ s)) = some (c ∷ s)

abbrev pub transfer_reference : ℕ → Text
transfer_reference payout_id = codes "RYD-TRF-" ++ format_nat payout_id

abbrev pub refund_reference : ℕ → Text
refund_reference payment_id = codes "RYD-RFD-" ++ format_nat payment_id
