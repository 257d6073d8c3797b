-- ===== src/Base/Int.antt =====
-- Python's integers, `int(s, 10)` and `int(s, 16)`, and `str(n)`.
use Prim.Native.Nat.{ℕ, zero, suc, ◌+◌, ◌-◌, ◌*◌, ◌/◌, ◌%◌}
use mathlib.Core.Bool.{Bool, true, false, ◌&&◌, ◌||◌}
use mathlib.Core.Option.{Option, none, some}
use mathlib.Core.Option
use mathlib.Core.List.{[], ◌∷◌}
use ota_server.Base.Conditions.{◌==◌, leb, ltb, if◌then◌else◌}
use ota_server.Base.Lists.{Text}
use ota_server.Base.Words.{is_digit, strip}

-- `negsuc n` is -(n + 1).
pub data ℤ : Type 0 where
  pos : ℕ → ℤ
  negsuc : ℕ → ℤ

abbrev pub negate : ℕ → ℤ
negate zero = pos 0
negate (suc n) = negsuc n

-- The digits of a number, with single underscores between digits; `fresh` says that a digit must
-- come next.
unfoldable pub digits_from : Bool → ℕ → Text → Option ℕ
digits_from true n [] = none
digits_from false n [] = some n
digits_from fresh n (c ∷ s) = elim (is_digit c) [
  | true ↦ digits_from false (n * 10 + (c - b'0')) s
  | false ↦ elim (c == b'_' && elim fresh [ true ↦ false | false ↦ true ]) [
    | true ↦ digits_from true n s
    | false ↦ none
  ]
]

unfoldable pub parse_signed : Text → Option ℤ
unfolding digits_from
parse_signed [] = none
parse_signed (c ∷ s) =
    if c == b'-'
    then Option.map negate (digits_from true 0 s)
    else if c == b'+'
    then Option.map pos (digits_from true 0 s)
    else Option.map pos (digits_from true 0 (c ∷ s))

-- `int(s, 10)` on ASCII digits; `none` is the ValueError.
unfoldable pub parse_int : Text → Option ℤ
unfolding parse_signed strip is_digit
parse_int s = parse_signed (strip s)

-- The digits of `int(s, 16)`.
unfoldable pub hex_value : ℕ → Option ℕ
hex_value c =
    if leb b'0' c && leb c b'9'
    then some (c - b'0')
    else if leb b'a' c && leb c b'f'
    then some (c - b'a' + 10)
    else if leb b'A' c && leb c b'F'
    then some (c - b'A' + 10)
    else none

unfoldable pub hex_digits_from : Bool → ℕ → Text → Option ℕ
unfolding hex_value
hex_digits_from true n [] = none
hex_digits_from false n [] = some n
hex_digits_from fresh n (c ∷ s) = elim (hex_value c) [
  | some v ↦ hex_digits_from false (n * 16 + v) s
  | none ↦ elim (c == b'_' && elim fresh [ true ↦ false | false ↦ true ]) [
    | true ↦ hex_digits_from true n s
    | false ↦ none
  ]
]

-- Behind the prefix `0x` an underscore may come first.
unfoldable pub hex_magnitude : Text → Option ℕ
unfolding hex_digits_from
hex_magnitude [] = none
hex_magnitude (a ∷ []) = hex_digits_from true 0 (a ∷ [])
hex_magnitude (a ∷ b ∷ s) =
    if a == b'0' && (b == b'x' || b == b'X')
    then elim s [
      | [] ↦ none
      | c ∷ rest ↦ hex_digits_from true 0 (if c == b'_' then rest else c ∷ rest)
    ]
    else hex_digits_from true 0 (a ∷ b ∷ s)

unfoldable pub hex_signed : Text → Option ℤ
unfolding hex_magnitude
hex_signed [] = none
hex_signed (c ∷ s) =
    if c == b'-'
    then Option.map negate (hex_magnitude s)
    else if c == b'+'
    then Option.map pos (hex_magnitude s)
    else Option.map pos (hex_magnitude (c ∷ s))

-- `int(s, 16)` on ASCII digits.
unfoldable pub parse_hex : Text → Option ℤ
unfolding hex_signed strip
parse_hex s = hex_signed (strip s)

-- The decimal digits of a number, `str(n)`; the fuel is above the number, so it never runs out.
unfoldable pub decimal_from : ℕ → ℕ → Text → Text
decimal_from zero n acc = acc
decimal_from (suc fuel) n acc =
    let acc' = (b'0' + n % 10) ∷ acc in
    let rest = decimal_from fuel (n / 10) acc' in if ltb n 10 then acc' else rest

unfoldable pub decimal : ℕ → Text
unfolding decimal_from
decimal n = decimal_from (suc n) n []
