-- ===== src/Encoding/Numbers.antt =====
-- Laws of the big-endian numbers.
use ota_server.Base.{ℕ, zero, suc, ◌≡◌, refl, ap, length}
use ota_server.Encoding.{to_bytes}

pub length-to_bytes : (width value : ℕ) → length (to_bytes width value) ≡ width
unfolding to_bytes
length-to_bytes zero value = refl
length-to_bytes (suc width) value = ap suc (length-to_bytes width value)
