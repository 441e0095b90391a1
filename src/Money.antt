-- ===== src/Money.antt =====
-- Money as bigint minor units and as decimal text: the top of
-- services/api/src/payments/payments.service.ts. A text is the list of its code units.
mod Digits
mod Decimal
mod Shares
mod Reading
pub mod RoundTrip
pub mod Column
unfoldable pub use Digits.{
  Text, codes, is_digit, to_digits, format_nat, base36, parse_digits, parse_nat, big_int,
}
unfoldable pub use Decimal.{
  before_dot, after_dot, pad_start, decimal_to_minor_units, minor_units_to_decimal,
}
unfoldable pub use Shares.{
  driver_earnings_bps, platform_commission_bps, bps_denominator, calculate_share,
}
