-- ===== src/Money/Column.antt =====
-- A Decimal(18, 2) column, as the number of its hundredths. `toString` of such a value belongs to the
-- database client; the code reads amounts through it, so it is an interface here.
use rydalux_app.Prelude.{
  ℕ, suc, ◌+◌, ◌*◌, ◌/◌, ◌%◌, ◌^◌, ◌<◌, ◌≡◌, ◌≢◌, some, Option, ◌∷◌, [], ◌++◌, arith,
}
use native.Mathlib.Decide.{ℕ_discrete}
use rydalux_app.Prelude.Int.{ℤ, pos, negsuc}
use rydalux_app.Money.Digits.{Text, format_nat}
use rydalux_app.Money.Decimal.{pad_start, decimal_to_minor_units}
use rydalux_app.Money.RoundTrip.{decimal-parts, padded-Reads, tenths-Reads, decimal-whole}

-- The first number of hundredths that no Decimal(18, 2) column holds.
abbrev pub column_limit : ℕ
column_limit = 10 ^ 18

-- `Decimal.toString` writes a value that a column holds in plain notation, with no zeros at the end
-- of its fraction and no point where the fraction is zero.
pub record DecimalText : Type 0 where
  pub to_text : ℤ → Text
  pub to_text_whole : (w : ℕ) → w * 100 < column_limit → to_text (pos (w * 100)) ≡ format_nat w
  pub to_text_tenths :
      (w t : ℕ)
      → w * 100 < column_limit
      → 0 < t
      → t < 10
      → to_text (pos (w * 100 + t * 10)) ≡ format_nat w ++ (b'.' ∷ (b'0' + t) ∷ [])
  pub to_text_hundredths :
      (w f : ℕ)
      → w * 100 < column_limit
      → f < 100
      → f % 10 ≢ 0
      → to_text (pos (w * 100 + f)) ≡ format_nat w ++ (b'.' ∷ pad_start (format_nat f))
  pub to_text_minus :
      (n : ℕ) → suc n < column_limit → to_text (negsuc n) ≡ b'-' ∷ to_text (pos (suc n))

-- `decimalToMinorUnits` of a column.
abbrev pub read_column : ⦃d : DecimalText⦄ → ℤ → Option ℤ
read_column ⦃d⦄ value = decimal_to_minor_units (d.to_text value)

module _ ⦃d : DecimalText⦄ where
  read_whole : (n w : ℕ) → n < column_limit → n ≡ w * 100 → read_column (pos n) ≡ some (pos n)
  read_whole n w h e = rw (e, d.to_text_whole w (omega arith)) (decimal-whole w)

  read_tenths :
      (n w t : ℕ)
      → n < column_limit
      → 0 < t
      → t < 10
      → n ≡ w * 100 + t * 10
      → read_column (pos n) ≡ some (pos n)
  read_tenths n w t h lo hi e =
      rw (e, d.to_text_tenths w t (omega arith) lo hi)
        (decimal-parts w (t * 10) _ (tenths-Reads t hi))

  read_hundredths :
      (n w f : ℕ)
      → n < column_limit
      → f < 100
      → f % 10 ≢ 0
      → n ≡ w * 100 + f
      → read_column (pos n) ≡ some (pos n)
  read_hundredths n w f h hi ne e =
      rw (e, d.to_text_hundredths w f (omega arith) hi ne) (decimal-parts w f _ (padded-Reads f hi))

  -- Every amount of zero or more that a column holds is read as it was stored.
  pub read_column-pos : (n : ℕ) → n < column_limit → read_column (pos n) ≡ some (pos n)
  read_column-pos n h = elim (ℕ_discrete (n % 100) 0) [
    | yes z ↦ read_whole n (n / 100) h (omega arith)
    | no nz ↦ elim (ℕ_discrete (n % 10) 0) [
      | yes z ↦ read_tenths n (n / 100) (n % 100 / 10) h (omega arith) (omega arith) (omega arith)
      | no nz' ↦ read_hundredths n (n / 100) (n % 100) h (omega arith) (omega arith) (omega arith)
    ]
  ]
