-- ===== src/Encoding.antt =====
-- The byte encodings of the wire formats: big-endian numbers (`to_bytes`, `struct.pack`), hexadecimal
-- text, UTF-8, and the unpadded URL-safe base64 of `b64u` and `b64u_decode`
-- (ota_check_security.py, secure_transport.py and, under other names, mqtt_listener.py).
pub mod Base64
pub mod Numbers
pub mod Utf8
use ota_server.Base.{
  ℕ, zero, suc, ◌+◌, ◌-◌, ◌*◌, ◌/◌, ◌%◌, ◌^◌, Text, Option, none, some, List, [], ◌∷◌, ◌++◌, Bool,
  true, false, ◌&&◌, ◌||◌, ◌==◌, all, ltb, leb, if◌then◌else◌, length,
}

-- `value.to_bytes(width, "big")` for a value that fits.
unfoldable pub to_bytes : ℕ → ℕ → Text
to_bytes zero value = []
to_bytes (suc width) value = (value / 256 ^ width % 256) ∷ to_bytes width value

-- `int.from_bytes(bytes, "big")`
unfoldable pub from_bytes : ℕ → Text → ℕ
from_bytes acc [] = acc
from_bytes acc (b ∷ bytes) = from_bytes (acc * 256 + b) bytes

unfoldable pub hex_digit : ℕ → ℕ
hex_digit v = if ltb v 10 then b'0' + v else b'a' + (v - 10)

-- `bytes.hex()`, and `hexdigest()` of a digest.
unfoldable pub hex : Text → Text
unfolding hex_digit
hex [] = []
hex (b ∷ bytes) = hex_digit (b / 16) ∷ hex_digit (b % 16) ∷ hex bytes

-- The UTF-8 bytes of one character.
unfoldable pub utf8_char : ℕ → Text
utf8_char c =
    if ltb c 0x80
    then c ∷ []
    else if ltb c 0x800
    then (0xc0 + c / 64) ∷ (0x80 + c % 64) ∷ []
    else if ltb c 0x10000
    then (0xe0 + c / 4096) ∷ (0x80 + c / 64 % 64) ∷ (0x80 + c % 64) ∷ []
    else (0xf0 + c / 262144) ∷ (0x80 + c / 4096 % 64) ∷ (0x80 + c / 64 % 64) ∷ (0x80 + c % 64) ∷ []

-- `text.encode("utf-8")` for a text with no surrogates; on ASCII also `encode("ascii")`.
unfoldable pub utf8 : Text → Text
unfolding utf8_char
utf8 [] = []
utf8 (c ∷ s) = utf8_char c ++ utf8 s

-- The URL-safe alphabet.
unfoldable pub b64_char : ℕ → ℕ
b64_char v =
    if ltb v 26
    then v + b'A'
    else if ltb v 52
    then v - 26 + b'a'
    else if ltb v 62
    then v - 52 + b'0'
    else if v == 62
    then b'-'
    else b'_'

-- `urlsafe_b64encode(bytes).rstrip("=")`
unfoldable pub b64u : Text → Text
unfolding b64_char
b64u [] = []
b64u (a ∷ []) = b64_char (a / 4) ∷ b64_char (a % 4 * 16) ∷ []
b64u (a ∷ b ∷ []) = b64_char (a / 4) ∷ b64_char (a % 4 * 16 + b / 16) ∷ b64_char (b % 16 * 4) ∷ []
b64u (a ∷ b ∷ c ∷ s) =
    b64_char (a / 4)
    ∷ b64_char (a % 4 * 16 + b / 16)
    ∷ b64_char (b % 16 * 4 + c / 64)
    ∷ b64_char (c % 64)
    ∷ b64u s

-- The value of a character, with `-` for `+` and `_` for `/`; `none` outside the alphabet.
unfoldable pub b64_value : ℕ → Option ℕ
b64_value c =
    if leb b'A' c && leb c b'Z'
    then some (c - b'A')
    else if leb b'a' c && leb c b'z'
    then some (c - b'a' + 26)
    else if leb b'0' c && leb c b'9'
    then some (c - b'0' + 52)
    else if c == b'-' || c == b'+'
    then some 62
    else if c == b'_' || c == b'/'
    then some 63
    else none

-- Where the decoder stands in a group of four: the bits that the group has left over.
pub data Quad : Type 0 where
  q0 : Quad
  q1 q2 q3 : ℕ → Quad

-- One character of a group: the byte that it completes, and the next state.
unfoldable pub quad_step : Quad → ℕ → Option ℕ × Quad
quad_step q0 v = (none, q1 v)
quad_step (q1 left) v = (some (left * 4 + v / 16), q2 (v % 16))
quad_step (q2 left) v = (some (left * 16 + v / 4), q3 (v % 4))
quad_step (q3 left) v = (some (left * 64 + v), q0)

abbrev pub emit : Option ℕ → Option Text → Option Text
emit none rest = rest
emit (some b) none = none
emit (some b) (some bytes) = some (b ∷ bytes)

abbrev pub quad_index : Quad → ℕ
quad_index q0 = 0
quad_index (q1 _) = 1
quad_index (q2 _) = 2
quad_index (q3 _) = 3

-- binascii's decoder, not strict: characters outside the alphabet are skipped, and a full padding
-- ends the text; `none` is the error "Incorrect padding" and its kind.
unfoldable pub a2b : Quad → ℕ → Text → Option Text
unfolding b64_value quad_step
a2b q0 pads [] = some []
a2b (q1 _) pads [] = none
a2b (q2 _) pads [] = none
a2b (q3 _) pads [] = none
a2b q pads (c ∷ s) = elim (c == b'=') [
  | true ↦ elim (leb 2 (quad_index q) && leb 4 (quad_index q + pads + 1)) [
    | true ↦ some []
    | false ↦ a2b q (if leb 2 (quad_index q) then pads + 1 else pads) s
  ]
  | false ↦ elim (b64_value c) [
    | none ↦ a2b q pads s
    | some v ↦ emit (quad_step q v).0 (a2b (quad_step q v).1 0 s)
  ]
]

abbrev pub padding : ℕ → Text
padding zero = []
padding (suc n) = b'=' ∷ padding n

-- `urlsafe_b64decode(value + "=" * ((-len(value)) % 4))`; a text that is not ASCII is refused.
unfoldable pub b64u_decode : Text → Option Text
unfolding a2b
b64u_decode value =
    if all (λ c. ltb c 128) value
    then a2b q0 0 (value ++ padding ((4 - length value % 4) % 4))
    else none
