-- ===== src/Tests/Catalog.antt =====
-- Firmware files and their codes.
use ota_server.Base.{◌≡◌, refl, codes, some, [], ◌∷◌, find_first, count_where, text_eq, arith}
use ota_server.Db.{Db, empty_db}
use ota_server.Encoding.{utf8, utf8_char, from_bytes}
use ota_server.Firmware.{
  base62_3, base62_char, ensure_image_code, insert_code, free_code, code_seed, has_code,
  has_filename,
}
use ota_server.Firmware.Codes.{
  HasUniqueCodes, ensure_image_code-HasUniqueCodes, ensure_image_code_stable,
}
use ota_server.Tests.{toy_crypto}

abbrev pub one_alias : Db
one_alias = record empty_db {
  firmware_alias = record { filename = codes "a.bin"; code = codes "000"; created_at = 5 } ∷ [];
}

abbrev two_aliases : Db
two_aliases = record empty_db {
  firmware_alias =
      record { filename = codes "b.bin"; code = codes "001"; created_at = 9 }
      ∷ record { filename = codes "a.bin"; code = codes "000"; created_at = 5 }
      ∷ [];
}

one_alias-HasUniqueCodes : HasUniqueCodes one_alias.firmware_alias
unfolding count_where
one_alias-HasUniqueCodes code = ground arith

ensure_image_code-HasUniqueCodes_example :
    HasUniqueCodes ((ensure_image_code toy_crypto 9 (codes "b.bin") one_alias).1.firmware_alias)
ensure_image_code-HasUniqueCodes_example =
    ensure_image_code-HasUniqueCodes toy_crypto 9 (codes "b.bin") one_alias one_alias-HasUniqueCodes

ensured :
    ensure_image_code toy_crypto 9 (codes "b.bin") one_alias ≡ (some (codes "001"), two_aliases)
unfolding ensure_image_code insert_code free_code code_seed has_code has_filename base62_3
    base62_char find_first text_eq from_bytes utf8 utf8_char
ensured = refl

ensure_image_code_stable_example :
    ensure_image_code toy_crypto 20 (codes "b.bin") two_aliases ≡ (some (codes "001"), two_aliases)
ensure_image_code_stable_example =
    ensure_image_code_stable toy_crypto 9 20 (codes "b.bin") (codes "001") one_alias two_aliases
      ensured
