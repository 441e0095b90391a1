-- ===== src/Money/Digits.antt =====
-- `BigInt.toString` and `BigInt(text)` on decimal literals. White space around a literal and the
-- prefixes 0x, 0o and 0b, which `BigInt` reads too, are not among the texts that it is given here.
use Prim.Native.Char.{code}
use rydalux_app.Prelude.{
  ℕ, zero, suc, ◌+◌, ◌-◌, ◌*◌, ◌/◌, ◌%◌, String, Bool, ◌&&◌, Option, none, some, List, [], ◌∷◌,
  ◌++◌, ltb, leb, ◌==◌, if◌then◌else◌,
}
use rydalux_app.Prelude.Int.{ℤ, pos, neg}

abbrev pub Text : Type 0
Text = List ℕ

abbrev pub codes : String → Text
codes String.[] = []
codes (String.◌∷◌ c s) = code c ∷ codes s

abbrev pub is_digit : ℕ → Bool
is_digit c = leb b'0' c && leb c b'9'

-- The decimal digits of a number below the fuel.
unfoldable pub to_digits : ℕ → ℕ → Text
to_digits zero n = []
to_digits (suc f) n =
    let high = to_digits f (n / 10) in
    if ltb n 10 then (b'0' + n) ∷ [] else high ++ ((b'0' + n % 10) ∷ [])

unfoldable pub format_nat : ℕ → Text
unfolding to_digits
format_nat n = to_digits (suc n) n

unfoldable pub parse_digits : Text → ℕ → Option ℕ
parse_digits [] n = some n
parse_digits (c ∷ s) n =
    let rest = parse_digits s (n * 10 + (c - b'0')) in if is_digit c then rest else none

-- The empty text reads as 0.
unfoldable pub parse_nat : Text → Option ℕ
unfolding parse_digits
parse_nat s = parse_digits s 0

-- A sign wants a digit behind it.
signed : Bool → Text → Option ℤ
signed minus [] = none
signed minus (c ∷ s) = elim (parse_nat (c ∷ s)) [
  | none ↦ none
  | some n ↦ if minus then some (neg (pos n)) else some (pos n)
]

-- `BigInt(text)`; `none` is its SyntaxError.
unfoldable pub big_int : Text → Option ℤ
unfolding signed parse_nat neg
big_int [] = some (pos 0)
big_int (c ∷ s) =
    if c == b'-'
    then signed (c == b'-') s
    else if c == b'+'
    then signed (c == b'-') s
    else elim (parse_nat (c ∷ s)) [ none ↦ none | some n ↦ some (pos n) ]

-- `n.toString(36).toUpperCase()`, of a number below the fuel.
abbrev digit36 : ℕ → ℕ
digit36 d = if ltb d 10 then b'0' + d else b'A' + (d - 10)

to_base36 : ℕ → ℕ → Text
to_base36 zero n = []
to_base36 (suc f) n =
    let high = to_base36 f (n / 36) in
    if ltb n 36 then digit36 n ∷ [] else high ++ (digit36 (n % 36) ∷ [])

unfoldable pub base36 : ℕ → Text
unfolding to_base36
base36 n = to_base36 (suc n) n
