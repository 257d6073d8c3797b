-- ===== src/Ident.antt =====
-- Device identities: `normalize_device_id` of device_enrollment.py and device_registry.py (the two
-- copies are alike) and `normalize_ieee` of ota_helper.py.
pub mod Canonical
use ota_server.Base.{
  ℕ, Text, codes, [], ◌∷◌, map, Option, none, some, Bool, ◌&&◌, ◌||◌, leb, ◌==◌, if◌then◌else◌,
  length, all, strip, lower, is_hex, starts_with, drop,
}

-- `s.replace("0x", "")`
unfoldable pub remove_0x : Text → Text
remove_0x [] = []
remove_0x (a ∷ []) = a ∷ []
remove_0x (a ∷ b ∷ s) =
    let cut = remove_0x s in
    let kept = a ∷ remove_0x (b ∷ s) in if a == b'0' && b == b'x' then cut else kept

-- `s.replace(c, "")` for one character.
unfoldable pub remove : ℕ → Text → Text
remove c [] = []
remove c (a ∷ s) = let rest = remove c s in if a == c then rest else a ∷ rest

-- `":".join(compact[i:i+2] for i in range(0, 16, 2))`
unfoldable pub join_pairs : Text → Text
join_pairs [] = []
join_pairs (a ∷ []) = a ∷ []
join_pairs (a ∷ b ∷ []) = a ∷ b ∷ []
join_pairs (a ∷ b ∷ c ∷ s) = a ∷ b ∷ b':' ∷ join_pairs (c ∷ s)

unfoldable pub compact_id : Text → Text
unfolding remove_0x remove strip lower
compact_id value = remove b':' (remove_0x (map lower (strip value)))

-- The length and digit test, and the rendering.
unfoldable pub format_id : Text → Option Text
unfolding join_pairs is_hex
format_id compact =
    if length compact == 16 && all is_hex compact then some (join_pairs compact) else none

-- COMPACT_ID_RE of the listeners: [0-9a-fA-F]
unfoldable pub is_hex_letter : ℕ → Bool
unfolding is_hex
is_hex_letter c = is_hex c || (leb b'A' c && leb c b'F')

-- `none` is the ValueError.
unfoldable pub normalize_device_id : Text → Option Text
unfolding compact_id format_id
normalize_device_id value = format_id (compact_id value)

-- `re.sub(r"[^0-9a-f]", "", s)`
unfoldable pub keep_hex : Text → Text
keep_hex [] = []
keep_hex (c ∷ s) = let rest = keep_hex s in if is_hex c then c ∷ rest else rest

-- `s.replace("-", ":")`
unfoldable pub dash_to_colon : ℕ → ℕ
dash_to_colon c = if c == b'-' then b':' else c

unfoldable pub normalize_ieee : Option Text → Text
unfolding strip lower dash_to_colon keep_hex starts_with join_pairs is_hex
normalize_ieee none = []
normalize_ieee (some value) =
    let value' = map dash_to_colon (map lower (strip value)) in
    let raw = keep_hex (if starts_with (codes "0x") value' then drop 2 value' else value') in
    if length raw == 16 then join_pairs raw else value'
