-- ===== src/Ident/Canonical.antt =====
-- The canonical identities, for `normalize_device_id` and `normalize_ieee`.
use mathlib.Core.List.{reverse, reverse-cons, reverse-reverse}
use ota_server.Base.{
  ℕ, Text, ◌≡◌, refl, sym, if_some, codes, [], ◌∷◌, ◌++◌, map, some, Bool, true, false, ◌&&◌, ◌||◌,
  ◌==◌, length, all, arith, is_hex, is_space, lower, strip_left, strip, starts_with, and-eq-true,
  ==_iff,
}
use ota_server.Ident.{
  normalize_device_id, normalize_ieee, compact_id, format_id, join_pairs, remove, remove_0x,
  keep_hex, dash_to_colon,
}

-- The characters of a canonical identity.
abbrev id_char : ℕ → Bool
id_char c = is_hex c || c == b':'

abbrev AllId : Text → Type 0
AllId s = all id_char s ≡ true

abbrev AllHex : Text → Type 0
AllHex s = all is_hex s ≡ true

all_parts :
    (p : ℕ → Bool) (c : ℕ) (s : Text) → all p (c ∷ s) ≡ true → (p c ≡ true) × (all p s ≡ true)
all_parts p c s h = and-eq-true (p c) (all p s) h

id_char-not-space : (c : ℕ) → id_char c ≡ true → is_space c ≡ false
unfolding is_hex is_space
id_char-not-space c h = ground arith

id_char-lower : (c : ℕ) → id_char c ≡ true → lower c ≡ c
unfolding is_hex lower
id_char-lower c h = ground arith

id_char-ne-x : (c : ℕ) → id_char c ≡ true → (c == b'x') ≡ false
unfolding is_hex
id_char-ne-x c h = ground arith

id_char-dash : (c : ℕ) → id_char c ≡ true → dash_to_colon c ≡ c
unfolding is_hex dash_to_colon
id_char-dash c h = ground arith

hex-ne-colon : (c : ℕ) → is_hex c ≡ true → (c == b':') ≡ false
unfolding is_hex
hex-ne-colon c h = ground arith

strip_left-AllId : (s : Text) → AllId s → strip_left s ≡ s
unfolding strip_left
strip_left-AllId [] h = refl
strip_left-AllId (c ∷ s) h = rw (id_char-not-space c (and-eq-true _ _ h).0)

map-lower-AllId : (s : Text) → AllId s → map lower s ≡ s
map-lower-AllId [] h = refl
map-lower-AllId (c ∷ s) h =
    let parts = all_parts id_char c s h in cc (id_char-lower c parts.0, map-lower-AllId s parts.1)

map-dash-AllId : (s : Text) → AllId s → map dash_to_colon s ≡ s
map-dash-AllId [] h = refl
map-dash-AllId (c ∷ s) h =
    let parts = all_parts id_char c s h in cc (id_char-dash c parts.0, map-dash-AllId s parts.1)

remove_0x-AllId : (s : Text) → AllId s → remove_0x s ≡ s
unfolding remove_0x
remove_0x-AllId [] h = refl
remove_0x-AllId (a ∷ []) h = refl
remove_0x-AllId (a ∷ b ∷ s) h =
    let tail_id = (and-eq-true (id_char a) _ h).1 in
    let not_x = id_char-ne-x b (and-eq-true _ _ tail_id).0 in
    ground (arith, remove_0x-AllId (b ∷ s) tail_id)

starts_with_0x-AllId : (s : Text) → AllId s → starts_with (codes "0x") s ≡ false
unfolding starts_with
starts_with_0x-AllId [] h = refl
starts_with_0x-AllId (a ∷ []) h = ground arith
starts_with_0x-AllId (a ∷ b ∷ s) h = ground (arith, id_char-ne-x b)

all-append : (p : ℕ → Bool) (s t : Text) → all p (s ++ t) ≡ (all p s && all p t)
all-append p [] t = refl
all-append p (c ∷ s) t = ground (arith, all-append p s t)

all-reverse : (p : ℕ → Bool) (s : Text) → all p s ≡ true → all p (reverse s) ≡ true
all-reverse p [] h = refl
all-reverse p (c ∷ s) h = rw (reverse-cons c s, all-append) (ground (arith, all-reverse p s))

strip-AllId : (s : Text) → AllId s → strip s ≡ s
unfolding strip
strip-AllId s h =
    rw (strip_left-AllId s h, strip_left-AllId (reverse s) (all-reverse id_char s h))
      (reverse-reverse s)

join_pairs-AllId : (s : Text) → AllHex s → AllId (join_pairs s)
unfolding join_pairs
join_pairs-AllId [] h = refl
join_pairs-AllId (a ∷ []) h = ground arith
join_pairs-AllId (a ∷ b ∷ []) h = ground arith
join_pairs-AllId (a ∷ b ∷ c ∷ s) h = ground (arith, join_pairs-AllId (c ∷ s))

remove-join_pairs : (s : Text) → AllHex s → remove b':' (join_pairs s) ≡ s
unfolding join_pairs remove
remove-join_pairs [] h = refl
remove-join_pairs (a ∷ []) h = ground (arith, hex-ne-colon a)
remove-join_pairs (a ∷ b ∷ []) h = ground (arith, hex-ne-colon a, hex-ne-colon b)
remove-join_pairs (a ∷ b ∷ c ∷ s) h =
    ground (arith, hex-ne-colon a, hex-ne-colon b, remove-join_pairs (c ∷ s))

colon-not-hex : is_hex b':' ≡ false
unfolding is_hex
colon-not-hex = refl

keep_hex-join_pairs : (s : Text) → AllHex s → keep_hex (join_pairs s) ≡ s
unfolding join_pairs keep_hex
keep_hex-join_pairs [] h = refl
keep_hex-join_pairs (a ∷ []) h = ground arith
keep_hex-join_pairs (a ∷ b ∷ []) h = ground arith
keep_hex-join_pairs (a ∷ b ∷ c ∷ s) h = ground (arith, colon-not-hex, keep_hex-join_pairs (c ∷ s))

compact_id-join_pairs : (s : Text) → AllHex s → compact_id (join_pairs s) ≡ s
unfolding compact_id
compact_id-join_pairs s h =
    let ids = join_pairs-AllId s h in
    rw
      (
        strip-AllId (join_pairs s) ids,
        map-lower-AllId (join_pairs s) ids,
        remove_0x-AllId (join_pairs s) ids,
      )
      (remove-join_pairs s h)

-- An identity in canonical form: sixteen lower-case hexadecimal digits in pairs.
abbrev pub IsCanonical : Text → Type 0
IsCanonical n = (h : Text) × (length h ≡ 16) × (all is_hex h ≡ true) × (n ≡ join_pairs h)

format_id-IsCanonical : (compact n : Text) → format_id compact ≡ some n → IsCanonical n
unfolding format_id
format_id-IsCanonical compact n h =
    let (passed, e) = if_some (length compact == 16 && all is_hex compact) h in
    let parts = and-eq-true (length compact == 16) (all is_hex compact) passed in
    (compact, (==_iff (length compact) 16).0 parts.0, parts.1, sym e)

pub normalize_device_id-IsCanonical :
    (value n : Text) → normalize_device_id value ≡ some n → IsCanonical n
unfolding normalize_device_id
normalize_device_id-IsCanonical value n h = format_id-IsCanonical (compact_id value) n h

format_id-join_pairs :
    (h : Text) → length h ≡ 16 → all is_hex h ≡ true → format_id h ≡ some (join_pairs h)
unfolding format_id
format_id-join_pairs h len hex = ground arith

-- A canonical identity is its own normal form.
pub normalize_device_id_canonical : (n : Text) → IsCanonical n → normalize_device_id n ≡ some n
unfolding normalize_device_id
normalize_device_id_canonical n (h, len, hex, e) =
    rw (e, compact_id-join_pairs h hex) (format_id-join_pairs h len hex)

pub normalize_ieee_canonical : (n : Text) → IsCanonical n → normalize_ieee (some n) ≡ n
unfolding normalize_ieee
normalize_ieee_canonical n (h, len, hex, e) =
    let ids = join_pairs-AllId h hex in
    let j = join_pairs h in
    rw
      (
        e,
        strip-AllId j ids,
        map-lower-AllId j ids,
        map-dash-AllId j ids,
        starts_with_0x-AllId j ids,
        keep_hex-join_pairs h hex,
      )
      (ground arith)

-- If `normalize_device_id` accepts a value and returns `n`, then both `normalize_device_id` and
-- `normalize_ieee` return `n` for `n`.
pub normalize_device_id_stable :
    (value n : Text)
    → normalize_device_id value ≡ some n
    → (normalize_device_id n ≡ some n) × (normalize_ieee (some n) ≡ n)
normalize_device_id_stable value n h =
    let canonical = normalize_device_id-IsCanonical value n h in
    (normalize_device_id_canonical n canonical, normalize_ieee_canonical n canonical)
