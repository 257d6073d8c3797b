-- ===== src/Enrollment/Server.antt =====
-- The enrollment routes of server.py: `record_device_state`, `create_device_auth_challenge` and
-- `validate_device_enrollment`, on the challenge store and the table of devices.
use ota_server.Base.{
  ℕ, Text, codes, Option, none, some, [], ◌∷◌, Bool, true, false, ◌||◌, not, leb, if◌then◌else◌,
  text_eq, is_some, find_first, update_where, Dict,
}
use ota_server.Base.Result.{Result, ok, err, ◌>>=◌, ◌>>◌, raise_if, or_raise}
use ota_server.Crypto.{Crypto}
use ota_server.Db.{Db, DeviceRow, DeviceState}
use ota_server.Encoding.{hex}
use ota_server.Enrollment.{
  EnrollError, malformed, bad_identity, wrong_ecosystem, invalid_challenge, hmac_mismatch,
  not_monotonic, Enrollment, Challenge, create_challenge, consume_challenge, from_hex,
  public_key_fingerprint_hex, derive_device_auth_secret, enrollment_hmac, decode_key,
}
use ota_server.Ident.{normalize_device_id}

-- WHERE device_id=?
unfoldable pub has_device : Text → DeviceRow → Bool
has_device n row = text_eq row.device_id n

abbrev pub unknown : Text
unknown = codes "unknown"

-- The row that both INSERT statements of an unenrolled device make; the columns that they do not name
-- have the defaults of the table.
unfoldable pub new_device : ℕ → Text → DeviceState → Option Text → DeviceRow
new_device now n state reason = record {
  device_id = n;
  device_enc_public_key = [];
  device_key_id = 1;
  device_public_key_fingerprint = none;
  zigbee_ieee = none;
  ota_ecosystem = codes "JaroslavZemanESP";
  device_model = unknown;
  firmware_product = unknown;
  product_role = unknown;
  hardware_revision = unknown;
  chip_family = codes "ESP32-C6";
  flash_size = some (codes "16MB");
  firmware_version = none;
  firmware_channel = codes "stable";
  enrollment_counter = 0;
  state = state;
  last_message_id = none;
  last_challenge = none;
  auth_failed_reason = reason;
  created_at = now;
  updated_at = now;
}

-- INSERT … ON CONFLICT(device_id) DO UPDATE: the new row, or the change of the one that is there.
unfoldable pub upsert_device : Text → DeviceRow → (DeviceRow → DeviceRow) → Db → Db
unfolding has_device
upsert_device n new change db = record db {
  devices =
      if is_some (find_first (has_device n) db.devices)
      then update_where (has_device n) change db.devices
      else new ∷ db.devices;
}

-- `record_device_state`, of an identity in normal form.
unfoldable pub record_device_state : ℕ → Text → DeviceState → Text → Db → Db
unfolding upsert_device new_device
record_device_state now n state reason db =
    upsert_device n (new_device now n state (some reason))
      (λ row. record row { state = state; auth_failed_reason = some reason; updated_at = now }) db

unfoldable pub asked_device : ℕ → Challenge → Db → Db
unfolding upsert_device new_device
asked_device now c db =
    upsert_device c.device_id
      (record (new_device now c.device_id DeviceState.auth_challenge_pending none) {
        last_message_id = some c.message_id;
        last_challenge = some (hex c.challenge);
      })
      (λ row. record row {
        state = DeviceState.auth_challenge_pending;
        last_message_id = some c.message_id;
        last_challenge = some (hex c.challenge);
        updated_at = now;
      })
      db

-- The challenge store of the process and the database.
pub record Server : Type 0 where
  pub device_challenges : Dict Challenge
  pub db : Db

-- `create_device_auth_challenge`; `none` is the exception of `normalize_device_id`.
unfoldable pub create_device_auth_challenge :
    ℕ → Text → Text → Text → Server → Option Challenge × Server
unfolding asked_device
create_device_auth_challenge now message_id random32 device_id server =
    let (made, items) =
      create_challenge 60 now message_id random32 device_id server.device_challenges in
    (
      made,
      elim made [
        | none ↦ server
        | some c ↦ record { device_challenges = items; db = asked_device now c server.db }
      ],
    )

-- `not old or old == fingerprint` of a nullable text.
abbrev pub same_or_unset : Text → Option Text → Bool
same_or_unset fingerprint none = true
same_or_unset fingerprint (some t) = text_eq t [] || text_eq t fingerprint

-- REKEY_REQUIRED where the row has another fingerprint.
unfoldable pub enrollment_state : Text → Option DeviceRow → DeviceState
enrollment_state fingerprint none = DeviceState.authenticated
enrollment_state fingerprint (some row) =
    if same_or_unset fingerprint row.device_public_key_fingerprint
    then DeviceState.authenticated
    else DeviceState.rekey_required

-- `int(row["enrollment_counter"] or 0) >= counter`
unfoldable pub is_old_counter : ℕ → Option DeviceRow → Bool
is_old_counter counter none = false
is_old_counter counter (some row) = leb counter row.enrollment_counter

-- The columns of the UPDATE.
unfoldable pub enrolled : ℕ → Enrollment → Text → Text → DeviceState → DeviceRow → DeviceRow
enrolled now fields public_key fingerprint state row = record row {
  device_enc_public_key = public_key;
  device_key_id = fields.device_enc_key_id;
  device_public_key_fingerprint = some fingerprint;
  zigbee_ieee = some fields.zigbee_ieee;
  ota_ecosystem = fields.ota_ecosystem;
  device_model = fields.device_model;
  firmware_product = fields.firmware_product;
  product_role = fields.product_role;
  hardware_revision = fields.hardware_revision;
  chip_family = fields.chip_family;
  flash_size = some fields.flash_size;
  firmware_version = some fields.firmware_version;
  firmware_channel = fields.firmware_channel;
  enrollment_counter = fields.enrollment_counter;
  state = state;
  last_message_id = some fields.message_id;
  last_challenge = some fields.challenge;
  auth_failed_reason = some [];
  updated_at = now;
}

-- The transaction at the end: the monotonic counter, the state and the upsert.
unfoldable pub store_enrollment :
    ℕ → Enrollment → Text → Text → Db → Result EnrollError DeviceState × Db
unfolding has_device is_old_counter enrolled new_device upsert_device
store_enrollment now fields public_key fingerprint db =
    let row = find_first (has_device fields.device_id) db.devices in
    let state = enrollment_state fingerprint row in
    let change = enrolled now fields public_key fingerprint state in
    if is_old_counter fields.enrollment_counter row then (err not_monotonic, db) else (
      ok state,
      upsert_device fields.device_id (change (new_device now fields.device_id state none)) change
          db,
    )

-- The two sides of the HMAC comparison, the key and its fingerprint.
unfoldable pub authenticate : Crypto → Text → Enrollment → Result EnrollError (Bool × (Text × Text))
authenticate crypto master_secret fields = do
  secret ← derive_device_auth_secret crypto master_secret fields.device_id
  expected ← enrollment_hmac crypto secret fields
  received ← or_raise (from_hex fields.device_auth_hmac) malformed
  public_key ← decode_key fields.device_enc_public_key
  fingerprint ← public_key_fingerprint_hex crypto fields.device_enc_public_key
  ok (text_eq expected received, (public_key, fingerprint))

unfoldable pub finish_enrollment :
    ℕ
    → Enrollment
    → Result EnrollError (Bool × (Text × Text))
    → Db
    → Result EnrollError DeviceState × Db
unfolding record_device_state
finish_enrollment now fields (err e) db = (err e, db)
finish_enrollment now fields (ok (false, key)) db = (
  err hmac_mismatch,
  record_device_state now fields.device_id DeviceState.auth_failed (codes "hmac_mismatch") db,
)
finish_enrollment now fields (ok (true, (public_key, fingerprint))) db =
    store_enrollment now fields public_key fingerprint db

-- After `device_challenges.consume`, with identities in normal form.
unfoldable pub after_challenge :
    Crypto → ℕ → Text → Enrollment → Option Challenge → Db → Result EnrollError DeviceState × Db
unfolding record_device_state
after_challenge crypto now master_secret fields none db = (
  err invalid_challenge,
  record_device_state now fields.device_id DeviceState.auth_failed
      (codes "invalid_or_expired_challenge") db,
)
after_challenge crypto now master_secret fields (some c) db =
    finish_enrollment now fields (authenticate crypto master_secret fields) db

unfoldable pub enroll :
    Crypto → ℕ → Text → Enrollment → Server → Result EnrollError DeviceState × Server
enroll crypto now master_secret fields server =
    let (challenge, items) =
      consume_challenge now fields.device_id fields.message_id fields.challenge
        server.device_challenges in
    let (answer, db) = after_challenge crypto now master_secret fields challenge server.db in
    (answer, record { device_challenges = items; db = db })

-- The checks before the challenge.
unfoldable pub prepare_enrollment : Text → Enrollment → Result EnrollError Enrollment
prepare_enrollment ecosystem fields = do
  device_id ← or_raise (normalize_device_id fields.device_id) bad_identity
  zigbee_ieee ← or_raise (normalize_device_id fields.zigbee_ieee) bad_identity
  raise_if (not (text_eq fields.ota_ecosystem ecosystem)) wrong_ecosystem
  ok (record fields { device_id = device_id; zigbee_ieee = zigbee_ieee })

-- `validate_device_enrollment`
unfoldable pub validate_device_enrollment :
    Crypto → ℕ → Text → Text → Enrollment → Server → Result EnrollError DeviceState × Server
validate_device_enrollment crypto now master_secret ecosystem request server =
    elim (prepare_enrollment ecosystem request) [
      | err e ↦ (err e, server)
      | ok fields ↦ enroll crypto now master_secret fields server
    ]
