-- ===== src/Enrollment.antt =====
-- device_enrollment.py: the canonical bytes that a device authenticates, the derived secret, and the
-- store of one-time challenges. `none` is an exception. Times are whole seconds. The fields of an
-- enrollment have the types that JSON gives them here: a text, or a number that is not negative.
pub mod Server
pub mod OneTime
pub mod Monotonic
use ota_server.Base.{
  ℕ, ◌+◌, ◌-◌, ◌*◌, ◌^◌, Text, codes, Option, none, some, List, [], ◌∷◌, ◌++◌, Bool, true, false,
  ◌&&◌, ◌||◌, not, ◌==◌, ltb, leb, if◌then◌else◌, text_eq, length, Dict, get, put, remove_key,
  hex_value,
}
use ota_server.Base.Result.{Result, ok, err, ◌>>=◌, ◌>>◌, raise_if, or_raise}
use ota_server.Crypto.{Crypto}
use ota_server.Encoding.{to_bytes, utf8, hex}
use ota_server.Ident.{normalize_device_id}

-- The exceptions of the enrollment.
pub data EnrollError : Type 0 where
  malformed bad_identity wrong_ecosystem invalid_challenge hmac_mismatch not_monotonic weak_master :
      EnrollError

abbrev enrollment_domain : Text
enrollment_domain = codes "JaroslavZemanESP-DEVICE-ENROLL-v1"

abbrev auth_secret_domain : Text
auth_secret_domain = codes "JaroslavZemanESP-DEVICE-AUTH-KEY-v1"

-- What `bytes.fromhex` skips between bytes.
unfoldable pub is_hex_space : ℕ → Bool
is_hex_space c = c == b' ' || (leb 9 c && leb c 13)

-- `bytes.fromhex`
unfoldable pub from_hex : Text → Option Text
unfolding is_hex_space
from_hex [] = some []
from_hex (c ∷ []) = if is_hex_space c then some [] else none
from_hex (c ∷ d ∷ s) =
    let skipped = from_hex (d ∷ s) in
    let rest = from_hex s in
    if is_hex_space c then skipped else elim (hex_value c) [
      | none ↦ none
      | some high ↦ elim (hex_value d) [
        | none ↦ none
        | some low ↦ elim rest [ none ↦ none | some bytes ↦ some ((high * 16 + low) ∷ bytes) ]
      ]
    ]

-- `_u8`, `_u16` and `_u64`, by their width; a number that does not fit raises.
unfoldable pub unsigned : ℕ → ℕ → Result EnrollError Text
unsigned width value = if ltb value (256 ^ width) then ok (to_bytes width value) else err malformed

-- `_len_bytes`
unfoldable pub len_bytes : Text → Result EnrollError Text
len_bytes value =
    if ltb 0xffff (length value) then err malformed else ok (to_bytes 2 (length value) ++ value)

-- `_field` of a text.
unfoldable pub field : Text → Result EnrollError Text
field value = len_bytes (utf8 value)

-- The `fields` of an enrollment request.
pub record Enrollment : Type 0 where
  pub protocol_version : ℕ
  pub message_id : Text
  pub challenge : Text
  pub enrollment_counter : ℕ
  pub device_id : Text
  pub zigbee_ieee : Text
  pub ota_ecosystem : Text
  pub device_model : Text
  pub firmware_product : Text
  pub product_role : Text
  pub hardware_revision : Text
  pub chip_family : Text
  pub flash_size : Text
  pub firmware_version : Text
  pub firmware_channel : Text
  pub device_enc_key_id : ℕ
  pub device_enc_public_key : Text
  pub device_auth_hmac : Text

-- The key has 65 bytes and starts with 4.
unfoldable pub is_uncompressed : Text → Bool
is_uncompressed [] = false
is_uncompressed (b ∷ key) = length key == 64 && b == 4

unfoldable pub decode_key : Text → Result EnrollError Text
decode_key public_key_hex = do
  key ← or_raise (from_hex public_key_hex) malformed
  raise_if (not (is_uncompressed key)) malformed
  ok key

-- `public_key_fingerprint_hex`
unfoldable pub public_key_fingerprint_hex : Crypto → Text → Result EnrollError Text
public_key_fingerprint_hex crypto public_key_hex = do
  key ← decode_key public_key_hex
  ok (hex (crypto.sha256 key))

-- `b"".join` of parts that may raise.
unfoldable pub join_all : List (Result EnrollError Text) → Result EnrollError Text
join_all [] = ok []
join_all (part ∷ parts) = do bytes ← part; rest ← join_all parts; ok (bytes ++ rest)

unfoldable pub identity_field : Text → Result EnrollError Text
identity_field value = or_raise (normalize_device_id value) bad_identity >>= field

-- `canonical_enrollment`
unfoldable pub canonical_enrollment : Enrollment → Result EnrollError Text
canonical_enrollment fields = do
  challenge ← or_raise (from_hex fields.challenge) malformed
  public_key ← decode_key fields.device_enc_public_key
  raise_if (not (length challenge == 32)) malformed
  join_all (
      field enrollment_domain
      ∷ unsigned 1 fields.protocol_version
      ∷ field fields.message_id
      ∷ len_bytes challenge
      ∷ unsigned 8 fields.enrollment_counter
      ∷ identity_field fields.device_id
      ∷ identity_field fields.zigbee_ieee
      ∷ field fields.ota_ecosystem
      ∷ field fields.device_model
      ∷ field fields.product_role
      ∷ field fields.hardware_revision
      ∷ field fields.chip_family
      ∷ field fields.flash_size
      ∷ field fields.firmware_version
      ∷ field fields.firmware_channel
      ∷ unsigned 2 fields.device_enc_key_id
      ∷ len_bytes public_key
      ∷ [])

-- `derive_device_auth_secret`
unfoldable pub derive_device_auth_secret : Crypto → Text → Text → Result EnrollError Text
derive_device_auth_secret crypto master_secret device_id = do
  raise_if (ltb (length master_secret) 32) weak_master
  message ← join_all (field auth_secret_domain ∷ identity_field device_id ∷ [])
  ok (crypto.hmac master_secret message)

-- `enrollment_hmac`
unfoldable pub enrollment_hmac : Crypto → Text → Enrollment → Result EnrollError Text
enrollment_hmac crypto secret fields = do
  message ← canonical_enrollment fields
  ok (crypto.hmac secret message)

pub record Challenge : Type 0 where
  pub device_id : Text
  pub message_id : Text
  pub challenge : Text
  pub expires_at : ℕ

unfoldable pub new_challenge : ℕ → ℕ → Text → Text → Text → Challenge
new_challenge ttl now message_id random32 n = record {
  device_id = n;
  message_id = message_id;
  challenge = random32;
  expires_at = now + ttl;
}

-- `ChallengeStore.create` with what `secrets` returned.
unfoldable pub create_challenge :
    ℕ → ℕ → Text → Text → Text → Dict Challenge → Option Challenge × Dict Challenge
unfolding new_challenge
create_challenge ttl now message_id random32 device_id items =
    elim (normalize_device_id device_id) [
      | none ↦ (none, items)
      | some n ↦ (
        some (new_challenge ttl now message_id random32 n),
        put message_id (new_challenge ttl now message_id random32 n) items,
      )
    ]

-- What `ChallengeStore.consume` asks of the challenge that it took out.
unfoldable pub is_answered : ℕ → Text → Text → Challenge → Bool
is_answered now device_id challenge_hex c =
    not (ltb c.expires_at now)
    && elim (normalize_device_id device_id) [ none ↦ false | some n ↦ text_eq c.device_id n ]
    && elim (from_hex challenge_hex) [ none ↦ false | some received ↦ text_eq c.challenge received ]

unfoldable pub answered : ℕ → Text → Text → Option Challenge → Option Challenge
answered now device_id challenge_hex none = none
answered now device_id challenge_hex (some c) =
    if is_answered now device_id challenge_hex c then some c else none

-- `ChallengeStore.consume`, for a device identity that `normalize_device_id` accepts.
unfoldable pub consume_challenge :
    ℕ → Text → Text → Text → Dict Challenge → Option Challenge × Dict Challenge
consume_challenge now device_id message_id challenge_hex items =
    (answered now device_id challenge_hex (get message_id items), remove_key message_id items)
