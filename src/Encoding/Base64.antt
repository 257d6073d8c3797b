-- ===== src/Encoding/Base64.antt =====
-- The round trip of the unpadded base64, and its length.
use ota_server.Base.{
  ℕ, ◌+◌, ◌-◌, ◌*◌, ◌/◌, ◌%◌, ◌<◌, ◌≡◌, refl, ◌∙◌, ap, some, Option, ◌∷◌, [], ◌++◌, Text, all, ltb,
  length, true, false, ◌==◌, arith, and-eq-true,
}
use ota_server.Encoding.{
  b64u, b64u_decode, b64_char, b64_value, a2b, quad_step, q0, q1, q2, q3, Quad, emit, padding,
}

abbrev pub AllBytes : Text → Type 0
AllBytes s = all (λ b. ltb b 256) s ≡ true

b64_value-b64_char : (v : ℕ) → v < 64 → b64_value (b64_char v) ≡ some v
unfolding b64_value b64_char
b64_value-b64_char v h = ground arith

b64_char-not-pad : (v : ℕ) → v < 64 → (b64_char v == b'=') ≡ false
unfolding b64_char
b64_char-not-pad v h = ground arith

b64_char-ascii : (v : ℕ) → ltb (b64_char v) 128 ≡ true
unfolding b64_char
b64_char-ascii v = ground arith

-- One character of the encoding takes the decoder one step.
a2b-b64_char :
    (q : Quad) (v : ℕ) (s : Text)
    → v < 64
    → a2b q 0 (b64_char v ∷ s) ≡ emit (quad_step q v).0 (a2b (quad_step q v).1 0 s)
unfolding a2b
a2b-b64_char q0 v s h = rw (b64_char-not-pad v h, b64_value-b64_char v h, a2b) refl
a2b-b64_char (q1 l) v s h = rw (b64_char-not-pad v h, b64_value-b64_char v h, a2b) refl
a2b-b64_char (q2 l) v s h = rw (b64_char-not-pad v h, b64_value-b64_char v h, a2b) refl
a2b-b64_char (q3 l) v s h = rw (b64_char-not-pad v h, b64_value-b64_char v h, a2b) refl

two_bytes : {x y a b : ℕ} → x ≡ a → y ≡ b → some (x ∷ y ∷ []) ≡ some (a ∷ b ∷ [])
two_bytes p q = cc

emit_eq : {x a : ℕ} {r r' : Option Text} → x ≡ a → r ≡ r' → emit (some x) r ≡ emit (some a) r'
emit_eq p q = λ i. emit (some (p i)) (q i)

-- The two padded ends, and a full group.
decode_one :
    (a : ℕ)
    → a < 256
    → a2b q0 0 (b64_char (a / 4) ∷ b64_char (a % 4 * 16) ∷ padding 2) ≡ some (a ∷ [])
unfolding quad_step
decode_one a h =
    a2b-b64_char q0 (a / 4) _ (omega arith)
    ∙ a2b-b64_char (q1 (a / 4)) (a % 4 * 16) _ (omega arith)
    ∙ (unfold a2b in ap (λ x. some (x ∷ [])) (omega arith))

decode_two :
    (a b : ℕ)
    → a < 256
    → b < 256
    → a2b q0 0
        (b64_char (a / 4) ∷ b64_char (a % 4 * 16 + b / 16) ∷ b64_char (b % 16 * 4) ∷ padding 1)
      ≡ some (a ∷ b ∷ [])
unfolding quad_step
decode_two a b h k =
    a2b-b64_char q0 (a / 4) _ (omega arith)
    ∙ a2b-b64_char (q1 (a / 4)) (a % 4 * 16 + b / 16) _ (omega arith)
    ∙ ap (emit (some (a / 4 * 4 + (a % 4 * 16 + b / 16) / 16)))
        (a2b-b64_char (q2 ((a % 4 * 16 + b / 16) % 16)) (b % 16 * 4) _ (omega arith))
    ∙ (unfold a2b in two_bytes (omega arith) (omega arith))

decode_three :
    (a b c : ℕ) (s : Text)
    → a < 256
    → b < 256
    → c < 256
    → a2b q0 0 (
        b64_char (a / 4)
        ∷ b64_char (a % 4 * 16 + b / 16)
        ∷ b64_char (b % 16 * 4 + c / 64)
        ∷ b64_char (c % 64)
        ∷ s)
      ≡ emit (some a) (emit (some b) (emit (some c) (a2b q0 0 s)))
unfolding quad_step
decode_three a b c s h k l =
    a2b-b64_char q0 (a / 4) _ (omega arith)
    ∙ a2b-b64_char (q1 (a / 4)) (a % 4 * 16 + b / 16) _ (omega arith)
    ∙ emit_eq (omega arith) (
        a2b-b64_char (q2 ((a % 4 * 16 + b / 16) % 16)) (b % 16 * 4 + c / 64) _ (omega arith)
        ∙ emit_eq (omega arith) (
            a2b-b64_char (q3 ((b % 16 * 4 + c / 64) % 4)) (c % 64) s (omega arith)
            ∙ emit_eq (omega arith) refl))

-- How many `=` the decoder puts back.
abbrev pad_count : Text → ℕ
pad_count [] = 0
pad_count (a ∷ []) = 2
pad_count (a ∷ b ∷ []) = 1
pad_count (a ∷ b ∷ c ∷ s) = pad_count s

pad_count_lem : (s : Text) → (4 - length (b64u s) % 4) % 4 ≡ pad_count s
unfolding b64u
pad_count_lem [] = refl
pad_count_lem (a ∷ []) = refl
pad_count_lem (a ∷ b ∷ []) = refl
pad_count_lem (a ∷ b ∷ c ∷ s) = omega (arith, pad_count_lem s)

byte_parts : (b : ℕ) (s : Text) → AllBytes (b ∷ s) → (b < 256) × AllBytes s
byte_parts b s h =
    let parts = and-eq-true (ltb b 256) (all (λ x. ltb x 256) s) h in
    (ground (arith, parts.0), parts.1)

a2b-b64u : (s : Text) → AllBytes s → a2b q0 0 (b64u s ++ padding (pad_count s)) ≡ some s
unfolding b64u
a2b-b64u [] h = unfold a2b in refl
a2b-b64u (a ∷ []) h = decode_one a (byte_parts a [] h).0
a2b-b64u (a ∷ b ∷ []) h =
    let (ha, hb) = byte_parts a (b ∷ []) h in decode_two a b ha (byte_parts b [] hb).0
a2b-b64u (a ∷ b ∷ c ∷ s) h =
    let (ha, h1) = byte_parts a (b ∷ c ∷ s) h in
    let (hb, h2) = byte_parts b (c ∷ s) h1 in
    let (hc, h3) = byte_parts c s h2 in
    decode_three a b c (b64u s ++ padding (pad_count s)) ha hb hc ∙ rw (a2b-b64u s h3)

-- The encoding is ASCII.
pub b64u-IsAscii : (s : Text) → all (λ c. ltb c 128) (b64u s) ≡ true
unfolding b64u
b64u-IsAscii [] = refl
b64u-IsAscii (a ∷ []) = simp b64_char-ascii
b64u-IsAscii (a ∷ b ∷ []) = simp b64_char-ascii
b64u-IsAscii (a ∷ b ∷ c ∷ s) = simp (b64_char-ascii, b64u-IsAscii s)

-- `b64u_decode` of `b64u` of a byte string gives the byte string back.
pub b64u_decode-b64u : (s : Text) → all (λ b. ltb b 256) s ≡ true → b64u_decode (b64u s) ≡ some s
unfolding b64u_decode
b64u_decode-b64u s h = rw (b64u-IsAscii s, pad_count_lem s) (a2b-b64u s h)

-- The length of the encoding of n bytes is 4n/3, rounded up.
pub length-b64u : (s : Text) → length (b64u s) ≡ (length s * 4 + 2) / 3
unfolding b64u
length-b64u [] = refl
length-b64u (a ∷ []) = refl
length-b64u (a ∷ b ∷ []) = refl
length-b64u (a ∷ b ∷ c ∷ s) = omega (arith, length-b64u s)
