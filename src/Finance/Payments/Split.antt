-- ===== src/Finance/Payments/Split.antt =====
-- How a captured amount is split between the driver and the platform.
use rydalux_app.Prelude.{
  ℕ, ◌+◌, ◌*◌, ◌/◌, ◌%◌, ◌≤◌, ◌<◌, ◌≡◌, refl, ◌-◌, ◌==◌, if◌then◌else◌, arith,
}
use rydalux_app.Prelude.Int.{pos, ◌+ℤ◌, ◌-ℤ◌}
use rydalux_app.Money.{calculate_share, driver_earnings_bps, platform_commission_bps}
use rydalux_app.Finance.Payments.{driver_minor, commission_minor}

-- The two shares of an amount that is not negative are not negative, add up to the amount, and the
-- driver's is four fifths of it, less than one minor unit short.
pub split-exact :
    (gross : ℕ)
    → (d : ℕ) × (c : ℕ) × (driver_minor (pos gross) ≡ pos d)
      × (commission_minor (pos gross) ≡ pos c)
      × (d + c ≡ gross)
      × (5 * d ≤ 4 * gross)
      × (4 * gross < 5 * d + 5)
unfolding calculate_share ◌+ℤ◌ ◌-ℤ◌
split-exact gross =
    let d = gross * driver_earnings_bps / 10000 in
    (d, gross - d, refl, ground arith, omega arith, omega arith, omega arith)

-- The commission on an amount of zero or more is the platform's share by `calculateShare`, and a
-- minor unit more where the amount is no multiple of five.
pub commission-calculate_share :
    (gross : ℕ)
    → commission_minor (pos gross)
      ≡ calculate_share (pos gross) platform_commission_bps
        +ℤ (if gross % 5 == 0 then pos 0 else pos 1)
unfolding calculate_share ◌+ℤ◌ ◌-ℤ◌
commission-calculate_share gross = ground arith
