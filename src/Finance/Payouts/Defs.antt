-- ===== src/Finance/Payouts/Defs.antt =====
-- The driver's side of services/api/src/payments/payouts.service.ts: a bank account, and the request for
-- a payout.
use rydalux_app.Prelude.{
  ℕ, ◌+◌, ◌*◌, ◌-◌, Bool, true, false, not, Option, none, some, ◌∷◌, find, update, length, drop,
  ◌==◌, is_some, some_and, ltb,
}
use rydalux_app.Prelude.Int.{ℤ, pos, ltb_ℤ}
use rydalux_app.Money.{Text, decimal_to_minor_units}
use rydalux_app.Money.Column.{DecimalText, read_column}
use rydalux_app.Service.{
  Action, bad_request, not_found, internal, pure, gets, or_raise, raise_if, modify, ◌>>=◌, ◌>>◌,
}
use rydalux_app.Finance.State.{
  AccountCode, PayoutStatus, Provider, KycStatus, BankAccount, DriverProfile, KycCheck, Payout,
  AuditAction, Db,
}
use rydalux_app.Finance.Events.{has_code}
use rydalux_app.Finance.Payments.{audit}

-- 1000 NGN in minor units.
abbrev pub min_payout_threshold : ℕ
min_payout_threshold = 100000

abbrev pub payout_cooldown_hours : ℕ
payout_cooldown_hours = 24

abbrev pub reauth_required_days : ℕ
reauth_required_days = 30

abbrev pub is_payout : ℕ → Payout → Bool
is_payout i p = p.id == i

abbrev pub is_user : ℕ → DriverProfile → Bool
is_user user d = d.user_id == user

-- `slice(-4)`
abbrev pub last4 : Text → Text
last4 s = drop (length s - 4) s

abbrev pub cooldown_end : ℕ → ℕ
cooldown_end now = now + payout_cooldown_hours * 60 * 60 * 1000

abbrev pub reauth_end : ℕ → ℕ
reauth_end now = now + reauth_required_days * 24 * 60 * 60 * 1000

abbrev pub payout_account : Text → Text → Text → ℕ → BankAccount
payout_account bank_code account_name account_number now = record {
  bank_code = bank_code;
  account_name = account_name;
  account_number_last4 = last4 account_number;
  recipient_code = none;
  verified_at = some now;
  re_auth_required_at = some (reauth_end now);
}

-- `addPayoutAccount`: the account is verified at once, and the cooldown starts.
unfoldable pub add_payout_account : ℕ → Text → Text → Text → Action Db BankAccount
add_payout_account driver_id bank_code account_name account_number = do
  drivers ← gets (λ db. db.drivers)
  driver ← or_raise (find (is_user driver_id) drivers) (not_found "Driver profile not found")
  now ← gets (λ db. db.now)
  let account = payout_account bank_code account_name account_number now
  modify λ db. record db {
    drivers =
        update (λ d. d.id == driver.id)
          (λ d. record d {
            bank_account = some account;
            payout_account_cooldown_until = some (cooldown_end now);
          })
          db.drivers;
  }
  modify (audit (some driver_id) AuditAction.payout_account_added driver.id)
  pure account

abbrev pub is_approved : KycCheck → Bool
is_approved k = elim k.status [ KycStatus.approved ↦ true | _ ↦ false ]

abbrev pub is_verified : BankAccount → Bool
is_verified b = is_some b.verified_at

abbrev pub requested_payout : DriverProfile → ℕ → ℤ → Option Text → Db → Payout
requested_payout driver driver_id amount reason db = record {
  id = db.next_id;
  driver_profile_id = driver.id;
  amount = amount;
  currency = "NGN";
  provider = Provider.paystack;
  status = PayoutStatus.requested;
  provider_reference = none;
  provider_transfer_id = none;
  provider_transfer_code = none;
  transfer_failure_reason = none;
  requested_by_driver_id = some driver_id;
  approved_by_admin_id = none;
  approved_at = none;
  rejected_by_admin_id = none;
  rejected_at = none;
  rejection_reason = none;
  transfer_initiated_at = none;
  processed_at = none;
  failed_at = none;
  notes = reason;
}

module _ ⦃decimal : DecimalText⦄ where
  -- `requestPayout`; the amount is text from the request, and the row stores what it denotes.
  unfoldable pub request_payout : ℕ → Text → Option Text → Action Db Payout
  request_payout driver_id amount reason = do
    drivers ← gets (λ db. db.drivers)
    driver ← or_raise (find (is_user driver_id) drivers) (not_found "Driver profile not found")
    kyc_checks ← gets (λ db. db.kyc_checks)
    raise_if (not (some_and is_approved (find (λ k. k.user_id == driver_id) kyc_checks)))
        (bad_request "Driver must have approved KYC to request payout")
    raise_if (not (some_and is_verified driver.bank_account))
        (bad_request "Payout account must be added and verified before requesting payout")
    now ← gets (λ db. db.now)
    raise_if (some_and (λ until. ltb now until) driver.payout_account_cooldown_until)
        (bad_request "Payout account change cooldown in effect")
    amount_minor ← or_raise (decimal_to_minor_units amount) (internal "SyntaxError")
    raise_if (ltb_ℤ amount_minor (pos min_payout_threshold)) (bad_request "Minimum payout amount")
    accounts ← gets (λ db. db.accounts)
    payable ←
        or_raise (find (has_code AccountCode.driver_payable) accounts)
          (bad_request "Driver payable account not configured")
    required_balance ← or_raise (read_column payable.balance) (internal "SyntaxError")
    raise_if (ltb_ℤ required_balance amount_minor) (bad_request "Insufficient balance")
    payout ← gets (requested_payout driver driver_id amount_minor reason)
    modify (λ db. record db { next_id = db.next_id + 1; payouts = payout ∷ db.payouts })
    modify (audit (some driver_id) AuditAction.payout_requested payout.id)
    pure payout
