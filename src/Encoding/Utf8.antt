-- ===== src/Encoding/Utf8.antt =====
-- Laws of UTF-8.
use ota_server.Base.{
  ◌+◌, ◌≡◌, refl, ap, Text, [], ◌∷◌, ◌++◌, all, ltb, true, and-eq-true, length, length-append,
}
use mathlib.Core.List.{append_assoc}
use ota_server.Encoding.{utf8, utf8_char}

pub utf8-append : (s t : Text) → utf8 (s ++ t) ≡ utf8 s ++ utf8 t
unfolding utf8
utf8-append [] t = refl
utf8-append (c ∷ s) t = rw (utf8-append s t) (rw append_assoc)

abbrev pub IsAscii : Text → Type 0
IsAscii s = all (λ c. ltb c 128) s ≡ true

-- ASCII is its own UTF-8.
pub utf8-IsAscii : (s : Text) → IsAscii s → utf8 s ≡ s
unfolding utf8 utf8_char
utf8-IsAscii [] h = refl
utf8-IsAscii (c ∷ s) h =
    let (hc, hs) = and-eq-true (ltb c 128) (all (λ x. ltb x 128) s) h in rw (hc, utf8-IsAscii s hs)

pub length-utf8-append : (s t : Text) → length (utf8 (s ++ t)) ≡ length (utf8 s) + length (utf8 t)
length-utf8-append s t = rw utf8-append (length-append (utf8 s) (utf8 t))

pub length-utf8-IsAscii : (s : Text) → IsAscii s → length (utf8 s) ≡ length s
length-utf8-IsAscii s h = ap length (utf8-IsAscii s h)
