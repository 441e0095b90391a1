-- ===== src/Tests/Libraries.antt =====
-- Instances of the interfaces to the database client and to bcrypt.
use rydalux_app.Prelude.{
  same_text, same_text_refl, ℕ, suc, ◌+◌, ◌*◌, ◌/◌, ◌%◌, ◌<◌, ◌≡◌, ◌≢◌, refl, false, ◌∷◌, [], ◌++◌,
  arith, if◌then◌else◌, ◌==◌,
}
use rydalux_app.Prelude.Int.{ℤ, pos, negsuc}
use rydalux_app.Money.{Text, format_nat, pad_start}
use rydalux_app.Money.Column.{DecimalText}
use rydalux_app.Shipments.Otp.{Bcrypt}

-- Plain notation, by the whole part and the hundredths.
abbrev plain_parts : ℕ → ℕ → Text
plain_parts w f =
    if f == 0
    then format_nat w
    else if f % 10 == 0
    then format_nat w ++ (b'.' ∷ (b'0' + f / 10) ∷ [])
    else format_nat w ++ (b'.' ∷ pad_start (format_nat f))

unfoldable plain_text : ℤ → Text
plain_text (pos n) = plain_parts (n / 100) (n % 100)
plain_text (negsuc n) = b'-' ∷ plain_parts (suc n / 100) (suc n % 100)

whole : (w : ℕ) → plain_text (pos (w * 100)) ≡ format_nat w
unfolding plain_text
whole w =
    let q : w * 100 / 100 ≡ w = omega arith in
    let r : w * 100 % 100 ≡ 0 = omega arith in rw (q, r) refl

tenths :
    (w t : ℕ)
    → 0 < t
    → t < 10
    → plain_text (pos (w * 100 + t * 10)) ≡ format_nat w ++ (b'.' ∷ (b'0' + t) ∷ [])
unfolding plain_text
tenths w t some_t digit =
    let q : (w * 100 + t * 10) / 100 ≡ w = omega arith in
    let r : (w * 100 + t * 10) % 100 ≡ t * 10 = omega arith in
    rw (q, r) (tenth_parts w t some_t digit)
  where
    tenth_parts :
        (w t : ℕ)
        → 0 < t
        → t < 10
        → plain_parts w (t * 10) ≡ format_nat w ++ (b'.' ∷ (b'0' + t) ∷ [])
    tenth_parts w t some_t digit = let e : t * 10 / 10 ≡ t = omega arith in ground (arith, e)

hundredths :
    (w f : ℕ)
    → f < 100
    → f % 10 ≢ 0
    → plain_text (pos (w * 100 + f)) ≡ format_nat w ++ (b'.' ∷ pad_start (format_nat f))
unfolding plain_text
hundredths w f small last =
    let q : (w * 100 + f) / 100 ≡ w = omega arith in
    let r : (w * 100 + f) % 100 ≡ f = omega arith in rw (q, r) (hundredth_parts w f last)
  where
    hundredth_parts :
        (w f : ℕ) → f % 10 ≢ 0 → plain_parts w f ≡ format_nat w ++ (b'.' ∷ pad_start (format_nat f))
    hundredth_parts w f last = ground arith

instance pub plain : DecimalText
unfolding plain_text
plain = record {
  to_text = plain_text;
  to_text_whole = λ w h. whole w;
  to_text_tenths = λ w t h. tenths w t;
  to_text_hundredths = λ w f h. hundredths w f;
  to_text_minus = λ n h. refl;
}

-- A hash that keeps the text behind its salt.
abbrev pub clear : Bcrypt
clear = record {
  hash = λ code salt. salt ∷ code;
  matches = λ code hashed. elim hashed [ [] ↦ false | salt ∷ rest ↦ same_text code rest ];
  matches-hash = λ code salt. same_text_refl code;
}
