-- ===== src/Money/RoundTrip.antt =====
-- Decimal text and minor units are read back as they were written, for amounts that are not
-- negative.
use rydalux_app.Prelude.{
  ℕ, zero, suc, ◌+◌, ◌*◌, ◌/◌, ◌%◌, ◌<◌, ◌≡◌, refl, Bool, true, ◌&&◌, Option, some, [], ◌∷◌, ◌++◌,
  ◌↔◌, arith, ap, ◌==◌, take,
}
use rydalux_app.Prelude.Int.{ℤ, pos, negsuc, neg, ◌+ℤ◌}
use rydalux_app.Money.Digits.{Text, format_nat, big_int}
use rydalux_app.Money.Decimal.{
  before_dot, after_dot, pad_start, decimal_to_minor_units, fixed, minor_units_to_decimal,
}
use rydalux_app.Money.Reading.{
  before_dot-AllDigits, after_dot-AllDigits, before_dot-append, after_dot-append,
  format_nat-AllDigits, big_int-format_nat, big_int-minus_format_nat,
}

-- A fraction text that `BigInt` reads as `f` hundredths.
abbrev pub Reads : Text → ℕ → Type 0
Reads s f = big_int (take 2 (before_dot s ++ b'0' ∷ b'0' ∷ [])) ≡ some (pos f)

-- The test of a fraction passes for every fraction up to a limit.
table_holds : (ℕ → Bool) → ℕ → Bool
table_holds test zero = true
table_holds test (suc last) = table_holds test last && test last

table_holds-entry :
    (test : ℕ → Bool) (limit f : ℕ) → f < limit → table_holds test limit ≡ true → test f ≡ true
unfolding table_holds
table_holds-entry test zero f below all = absurd (omega arith)
table_holds-entry test (suc last) f below all = ground (arith, table_holds-entry test last f)

abbrev reads_as : Option ℤ → ℕ → Bool
reads_as (some (pos m)) f = m == f
reads_as _ f = Bool.false

reads_as_sound : (o : Option ℤ) (f : ℕ) → reads_as o f ≡ true → o ≡ some (pos f)
reads_as_sound (some (pos m)) f h = ground arith
reads_as_sound _ f h = cc

padded_table :
    table_holds
      (λ f.
        reads_as (big_int (take 2 (before_dot (pad_start (format_nat f)) ++ b'0' ∷ b'0' ∷ []))) f)
      100
    ≡ true
unfolding table_holds big_int before_dot format_nat
padded_table = refl

tenths_table :
    table_holds
      (λ t. reads_as (big_int (take 2 (before_dot ((b'0' + t) ∷ []) ++ b'0' ∷ b'0' ∷ []))) (t * 10))
      10
    ≡ true
unfolding table_holds big_int before_dot
tenths_table = refl

pub padded-Reads : (f : ℕ) → f < 100 → Reads (pad_start (format_nat f)) f
padded-Reads f h = reads_as_sound _ f (table_holds-entry _ 100 f h padded_table)

pub tenths-Reads : (t : ℕ) → t < 10 → Reads ((b'0' + t) ∷ []) (t * 10)
tenths-Reads t h = reads_as_sound _ (t * 10) (table_holds-entry _ 10 t h tenths_table)

-- A whole part, a point and a fraction read as hundredths.
pub decimal-parts :
    (w f : ℕ) (frac : Text)
    → Reads frac f
    → decimal_to_minor_units (format_nat w ++ (b'.' ∷ frac)) ≡ some (pos (w * 100 + f))
unfolding decimal_to_minor_units
decimal-parts w f frac h =
    rw
      (
        before_dot-append (format_nat w) frac (format_nat-AllDigits w),
        after_dot-append (format_nat w) frac (format_nat-AllDigits w),
        big_int-format_nat w,
        h,
      )
      (unfold ◌+ℤ◌ in ground arith)

no_fraction : big_int (take 2 (before_dot [] ++ b'0' ∷ b'0' ∷ [])) ≡ some (pos 0)
unfolding before_dot big_int
no_fraction = refl

-- A whole part alone.
pub decimal-whole : (w : ℕ) → decimal_to_minor_units (format_nat w) ≡ some (pos (w * 100))
unfolding decimal_to_minor_units
decimal-whole w =
    rw
      (
        before_dot-AllDigits (format_nat w) (format_nat-AllDigits w),
        after_dot-AllDigits (format_nat w) (format_nat-AllDigits w),
        big_int-format_nat w,
        no_fraction,
      )
      (unfold ◌+ℤ◌ in ground arith)

before_dot-minus : (s : Text) → before_dot (b'-' ∷ s) ≡ b'-' ∷ before_dot s
unfolding before_dot
before_dot-minus s = refl

after_dot-minus : (s : Text) → after_dot (b'-' ∷ s) ≡ after_dot s
unfolding after_dot
after_dot-minus s = refl

-- Behind a minus sign the fraction is still added.
pub minus-parts :
    (w f : ℕ) (frac : Text)
    → Reads frac f
    → decimal_to_minor_units (b'-' ∷ (format_nat w ++ (b'.' ∷ frac)))
      ≡ some (neg (pos (w * 100)) +ℤ pos f)
unfolding decimal_to_minor_units
minus-parts w f frac h =
    rw
      (
        before_dot-minus (format_nat w ++ (b'.' ∷ frac)),
        after_dot-minus (format_nat w ++ (b'.' ∷ frac)),
        before_dot-append (format_nat w) frac (format_nat-AllDigits w),
        after_dot-append (format_nat w) frac (format_nat-AllDigits w),
        big_int-minus_format_nat w,
        h,
      )
      (unfold ◌+ℤ◌ neg in ground arith)

decimal-fixed : (n : ℕ) → decimal_to_minor_units (fixed n) ≡ some (pos n)
unfolding fixed
decimal-fixed n =
    rw (decimal-parts (n / 100) (n % 100) _ (padded-Reads (n % 100) (omega arith)))
      (ap (λ m. some (pos m)) (omega arith))

-- An amount of zero or more minor units survives being written as decimal text and read back.
pub decimal-minor_units :
    (n : ℕ) → decimal_to_minor_units (minor_units_to_decimal (pos n)) ≡ some (pos n)
unfolding minor_units_to_decimal
decimal-minor_units n = decimal-fixed n

minus-fixed :
    (n : ℕ)
    → decimal_to_minor_units (minor_units_to_decimal (negsuc n))
      ≡ some (neg (pos (suc n / 100 * 100)) +ℤ pos (suc n % 100))
unfolding minor_units_to_decimal fixed
minus-fixed n = minus-parts (suc n / 100) (suc n % 100) _ (padded-Reads (suc n % 100) (omega arith))

-- An amount below zero survives exactly when it is a whole number of major units: otherwise the
-- text's fraction is added to the negative whole part instead of taken from it.
pub negative_round_trip :
    (n : ℕ)
    → (decimal_to_minor_units (minor_units_to_decimal (negsuc n)) ≡ some (negsuc n))
      ↔ (suc n % 100 ≡ 0)
negative_round_trip n =
    rw (minus-fixed n) (unfold neg ◌+ℤ◌ in (λ e. ground arith, λ e. ground arith))
