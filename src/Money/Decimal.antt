-- ===== src/Money/Decimal.antt =====
-- `decimalToMinorUnits` and `minorUnitsToDecimal`.
use rydalux_app.Prelude.{
  ℕ, suc, ◌*◌, ◌/◌, ◌%◌, Option, none, some, [], ◌∷◌, ◌++◌, length, take, ltb, ◌==◌, if◌then◌else◌,
}
use rydalux_app.Prelude.Int.{ℤ, pos, negsuc, pos_part, neg_part, sub_ℕ, ◌+ℤ◌}
use rydalux_app.Money.Digits.{Text, format_nat, big_int}

-- The part of a text in front of its first point, and the part behind that point.
unfoldable pub before_dot : Text → Text
before_dot [] = []
before_dot (c ∷ s) = if c == b'.' then [] else c ∷ before_dot s

unfoldable pub after_dot : Text → Text
after_dot [] = []
after_dot (c ∷ s) = if c == b'.' then s else after_dot s

-- `100n * z`
abbrev pub hundredfold : ℤ → ℤ
hundredfold z = sub_ℕ (pos_part z * 100) (neg_part z * 100)

-- `padStart(2, '0')`
abbrev pub pad_start : Text → Text
pad_start s = if ltb (length s) 2 then (if length s == 0 then b'0' ∷ b'0' ∷ [] else b'0' ∷ s) else s

-- `BigInt(whole) * 100n + BigInt(fraction)`; `none` is a SyntaxError of `BigInt`.
abbrev pub hundredths : Option ℤ → Option ℤ → Option ℤ
hundredths (some whole) (some fraction) = some (hundredfold whole +ℤ fraction)
hundredths _ _ = none

-- `const [wholePart, fractionPart = ''] = text.split('.')` takes the first two parts; the fraction
-- is filled and cut to two places.
unfoldable pub decimal_to_minor_units : Text → Option ℤ
decimal_to_minor_units value =
    let whole_part = before_dot value in
    let fraction_part = before_dot (after_dot value) in
    let normalized_fraction = take 2 (fraction_part ++ b'0' ∷ b'0' ∷ []) in
    hundredths (big_int whole_part) (big_int normalized_fraction)

-- The digits of an absolute value in hundredths.
unfoldable pub fixed : ℕ → Text
fixed absolute = format_nat (absolute / 100) ++ (b'.' ∷ pad_start (format_nat (absolute % 100)))

unfoldable pub minor_units_to_decimal : ℤ → Text
minor_units_to_decimal (pos n) = fixed n
minor_units_to_decimal (negsuc n) = b'-' ∷ fixed (suc n)
