-- ===== src/Money/Shares.antt =====
-- `calculateShare` and the basis points. Division of a bigint truncates toward zero.
use rydalux_app.Prelude.{ℕ, suc, ◌*◌, ◌/◌}
use rydalux_app.Prelude.Int.{ℤ, pos, negsuc, neg}

abbrev pub driver_earnings_bps : ℕ
driver_earnings_bps = 8000

abbrev pub platform_commission_bps : ℕ
platform_commission_bps = 2000

abbrev pub bps_denominator : ℕ
bps_denominator = 10000

unfoldable pub calculate_share : ℤ → ℕ → ℤ
unfolding neg
calculate_share (pos n) basis_points = pos (n * basis_points / bps_denominator)
calculate_share (negsuc n) basis_points = neg (pos (suc n * basis_points / bps_denominator))
