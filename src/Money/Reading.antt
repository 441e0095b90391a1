-- ===== src/Money/Reading.antt =====
-- How `BigInt` reads the digits that it prints, and where a text of digits is cut at its point.
use rydalux_app.Prelude.{
  ℕ, zero, suc, ◌+◌, ◌-◌, ◌*◌, ◌/◌, ◌%◌, ◌<◌, ◌≡◌, ◌≢◌, refl, some, [], ◌∷◌, ◌++◌, arith, All,
  Bool-cases, ltb, inl, inr, true,
}
use rydalux_app.Prelude.Int.{pos, neg}
use rydalux_app.Money.Digits.{Text, is_digit, to_digits, format_nat, parse_digits, big_int}
use rydalux_app.Money.Decimal.{before_dot, after_dot}

parse_digits-snoc :
    (s : Text) (c a n : ℕ)
    → parse_digits s a ≡ some n
    → is_digit c ≡ true
    → parse_digits (s ++ c ∷ []) a ≡ some (n * 10 + (c - b'0'))
unfolding parse_digits
parse_digits-snoc [] c a n e d = ground arith
parse_digits-snoc (x ∷ s) c a n e d = ground (arith, parse_digits-snoc s c (a * 10 + (x - b'0')) n)

parse-to_digits : (f n : ℕ) → n < f → parse_digits (to_digits f n) 0 ≡ some n
unfolding to_digits
parse-to_digits zero n h = elim h [ ]
parse-to_digits (suc f) n h = elim (Bool-cases (ltb n 10)) [
  | inl small ↦ rw small (unfold parse_digits in ground arith)
  | inr big ↦ rw big (
      ground (
        arith,
        parse_digits-snoc (to_digits f (n / 10)) (b'0' + n % 10) 0 (n / 10),
        parse-to_digits f (n / 10),
      ))
]

abbrev pub AllDigits : Text → Type 0
AllDigits = All (λ c. is_digit c ≡ true)

AllDigits-snoc : (s : Text) (c : ℕ) → AllDigits s → is_digit c ≡ true → AllDigits (s ++ c ∷ [])
AllDigits-snoc [] c h d = (d, tt)
AllDigits-snoc (x ∷ s) c h d = (h.0, AllDigits-snoc s c h.1 d)

to_digits-AllDigits : (f n : ℕ) → AllDigits (to_digits f n)
unfolding to_digits
to_digits-AllDigits zero n = tt
to_digits-AllDigits (suc f) n = elim (Bool-cases (ltb n 10)) [
  | inl small ↦ rw small (ground arith, tt)
  | inr big ↦ rw big (
      AllDigits-snoc (to_digits f (n / 10)) (b'0' + n % 10) (to_digits-AllDigits f (n / 10))
        (ground arith))
]

pub big_int-AllDigits :
    (s : Text) (n : ℕ) → AllDigits s → parse_digits s 0 ≡ some n → big_int s ≡ some (pos n)
unfolding big_int parse_digits
big_int-AllDigits [] n h e = ground arith
big_int-AllDigits (c ∷ s) n h e = ground arith

pub before_dot-AllDigits : (s : Text) → AllDigits s → before_dot s ≡ s
unfolding before_dot
before_dot-AllDigits [] h = refl
before_dot-AllDigits (c ∷ s) h = ground (arith, before_dot-AllDigits s h.1)

pub after_dot-AllDigits : (s : Text) → AllDigits s → after_dot s ≡ []
unfolding after_dot
after_dot-AllDigits [] h = refl
after_dot-AllDigits (c ∷ s) h = ground (arith, after_dot-AllDigits s h.1)

pub before_dot-append : (s t : Text) → AllDigits s → before_dot (s ++ (b'.' ∷ t)) ≡ s
unfolding before_dot
before_dot-append [] t h = refl
before_dot-append (c ∷ s) t h = ground (arith, before_dot-append s t h.1)

pub after_dot-append : (s t : Text) → AllDigits s → after_dot (s ++ (b'.' ∷ t)) ≡ t
unfolding after_dot
after_dot-append [] t h = refl
after_dot-append (c ∷ s) t h = ground (arith, after_dot-append s t h.1)

snoc-ne-nil : (s : Text) (c : ℕ) → s ++ c ∷ [] ≢ []
snoc-ne-nil [] c e = cc
snoc-ne-nil (x ∷ s) c e = cc

format_nat-ne-nil : (n : ℕ) → format_nat n ≢ []
unfolding format_nat to_digits
format_nat-ne-nil n = ground (arith, snoc-ne-nil (to_digits n (n / 10)) (b'0' + n % 10))

big_int-minus :
    (s : Text) (n : ℕ)
    → s ≢ []
    → parse_digits s 0 ≡ some n
    → big_int (b'-' ∷ s) ≡ some (neg (pos n))
unfolding big_int
big_int-minus [] n h e = absurd (h refl)
big_int-minus (c ∷ s) n h e = ground arith

pub format_nat-AllDigits : (n : ℕ) → AllDigits (format_nat n)
unfolding format_nat
format_nat-AllDigits n = to_digits-AllDigits (suc n) n

pub big_int-format_nat : (n : ℕ) → big_int (format_nat n) ≡ some (pos n)
unfolding format_nat
big_int-format_nat n =
    big_int-AllDigits (to_digits (suc n) n) n (to_digits-AllDigits (suc n) n)
      (parse-to_digits (suc n) n (omega arith))

pub big_int-minus_format_nat : (n : ℕ) → big_int (b'-' ∷ format_nat n) ≡ some (neg (pos n))
unfolding format_nat
big_int-minus_format_nat n =
    big_int-minus (to_digits (suc n) n) n (format_nat-ne-nil n)
      (parse-to_digits (suc n) n (omega arith))
