-- ===== src/Firmware.antt =====
-- Firmware codes of server.py: `_base62_3`, `ensure_image_code` and `resolve_image_code`. A code is
-- tried for each of the 62 ** 3 offsets from the seed of the filename.
pub mod Codes
pub mod Candidates
use ota_server.Base.{
  ℕ, zero, suc, ◌+◌, ◌-◌, ◌*◌, ◌/◌, ◌%◌, ◌^◌, Text, codes, Option, none, some, List, [], ◌∷◌, ◌++◌,
  map, Bool, true, false, ◌&&◌, ◌||◌, not, ◌==◌, ltb, leb, if◌then◌else◌, text_eq, length, take,
  is_some, find_first, select_where, lower, is_digit,
}
use ota_server.Base.Result.{Result, ok, err}
use ota_server.Crypto.{Crypto}
use ota_server.Db.{Db, ImageRow, AliasRow}
use ota_server.Encoding.{utf8, from_bytes}

-- `BASE62[v]` for v < 62.
unfoldable pub base62_char : ℕ → ℕ
base62_char v = if ltb v 10 then b'0' + v else if ltb v 36 then b'A' + (v - 10) else b'a' + (v - 36)

-- `_base62_3`
unfoldable pub base62_3 : ℕ → Text
unfolding base62_char
base62_3 value' =
    let value = value' % 62 ^ 3 in
    base62_char (value / (62 * 62) % 62)
    ∷ base62_char (value / 62 % 62)
    ∷ base62_char (value % 62)
    ∷ []

unfoldable pub has_filename : Text → AliasRow → Bool
has_filename filename row = text_eq row.filename filename

unfoldable pub has_code : Text → AliasRow → Bool
has_code code row = text_eq row.code code

-- int.from_bytes(hashlib.sha256(filename).digest()[:4], "big")
unfoldable pub code_seed : Crypto → Text → ℕ
code_seed crypto filename = from_bytes 0 (take 4 (crypto.sha256 (utf8 filename)))

-- The loop over `range(62 ** 3)`: the first code from an offset on that no alias has, with as many
-- rounds left as the first argument says.
unfoldable pub free_code : ℕ → ℕ → List AliasRow → Option Text
free_code zero value rows = none
free_code (suc rounds) value rows =
    let rest = free_code rounds (value + 1) rows in
    if is_some (find_first (has_code (base62_3 value)) rows) then rest else some (base62_3 value)

unfoldable pub insert_code : ℕ → Text → Option Text → Db → Option Text × Db
insert_code now filename none db = (none, db)
insert_code now filename (some code) db = (
  some code,
  record db {
    firmware_alias =
        record { filename = filename; code = code; created_at = now } ∷ db.firmware_alias;
  },
)

-- `ensure_image_code`; `none` is the RuntimeError after 62 ** 3 codes.
unfoldable pub ensure_image_code : Crypto → ℕ → Text → Db → Option Text × Db
ensure_image_code crypto now filename db =
    elim (find_first (has_filename filename) db.firmware_alias) [
      | some row ↦ (some row.code, db)
      | none ↦
          insert_code now filename
            (free_code (62 ^ 3) (code_seed crypto filename) db.firmware_alias) db
    ]

-- `resolve_image_code`: the image of the alias with the code.
unfoldable pub image_of : Text → ImageRow → Bool
image_of filename row = text_eq row.filename filename

unfoldable pub resolve_image_code : Text → Db → Option ImageRow
resolve_image_code code db = elim (find_first (has_code code) db.firmware_alias) [
  | none ↦ none
  | some alias ↦ find_first (image_of alias.filename) db.firmware_images
]
