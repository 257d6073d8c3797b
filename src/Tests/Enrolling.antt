-- ===== src/Tests/Enrolling.antt =====
-- A device that answers a challenge and enrolls.
use ota_server.Base.{
  ℕ, zero, suc, ◌≡◌, refl, Text, codes, none, some, [], ◌∷◌, ◌++◌, text_eq, find_first, is_hex,
  is_digit, lower, strip, is_space, get, remove_key, arith, hex_value,
}
use ota_server.Base.Result.{ok, err}
use ota_server.Db.{Db, DeviceState, empty_db}
use ota_server.Encoding.{utf8, utf8_char, to_bytes, hex, hex_digit}
use ota_server.Ident.{normalize_device_id, compact_id, format_id, remove, remove_0x, join_pairs}
use ota_server.Enrollment.{
  Enrollment, Challenge, invalid_challenge, not_monotonic, from_hex, is_hex_space, unsigned,
  len_bytes, field, identity_field, join_all, is_uncompressed, decode_key,
  public_key_fingerprint_hex, canonical_enrollment, derive_device_auth_secret, enrollment_hmac,
  consume_challenge, answered, is_answered,
}
use ota_server.Enrollment.Server.{
  Server, prepare_enrollment, validate_device_enrollment, enroll, after_challenge, authenticate,
  finish_enrollment, store_enrollment, has_device, is_old_counter, enrollment_state, new_device,
}
use ota_server.Enrollment.OneTime.{
  Enrolled, validate_device_enrollment_once, validate_device_enrollment_sound,
}
use ota_server.Enrollment.Monotonic.{store_enrollment_replay}
use ota_server.Tests.{zeros, toy_crypto, device}

abbrev digits : ℕ → Text
digits zero = []
digits (suc n) = b'0' ∷ digits n

abbrev ecosystem : Text
ecosystem = codes "JaroslavZemanESP"

abbrev request : Enrollment
request = record {
  protocol_version = 1;
  message_id = codes "m1";
  challenge = digits 64;
  enrollment_counter = 7;
  device_id = device;
  zigbee_ieee = device;
  ota_ecosystem = ecosystem;
  device_model = codes "remote";
  firmware_product = codes "remote";
  product_role = codes "controller";
  hardware_revision = codes "ESP32-C6";
  chip_family = codes "ESP32-C6";
  flash_size = codes "16MB";
  firmware_version = codes "1";
  firmware_channel = codes "stable";
  device_enc_key_id = 1;
  device_enc_public_key = codes "04" ++ digits 128;
  device_auth_hmac = digits 64;
}

abbrev asked : Challenge
asked = record {
  device_id = device;
  message_id = codes "m1";
  challenge = zeros 32;
  expires_at = 160;
}

abbrev waiting_server : Server
waiting_server = record { device_challenges = (codes "m1", asked) ∷ []; db = empty_db }

request_prepared : prepare_enrollment ecosystem request ≡ ok request
unfolding prepare_enrollment normalize_device_id compact_id format_id remove remove_0x join_pairs
    strip lower is_hex is_space is_digit text_eq
request_prepared = refl

request_accepted :
    (validate_device_enrollment toy_crypto 120 (zeros 32) ecosystem request waiting_server).0
    ≡ ok DeviceState.authenticated
unfolding validate_device_enrollment enroll after_challenge authenticate finish_enrollment
    store_enrollment prepare_enrollment normalize_device_id compact_id format_id remove remove_0x
    join_pairs strip lower is_hex is_space is_digit text_eq consume_challenge answered is_answered
    get remove_key from_hex is_hex_space hex_value unsigned len_bytes field identity_field join_all
    is_uncompressed decode_key public_key_fingerprint_hex canonical_enrollment
    derive_device_auth_secret enrollment_hmac utf8 utf8_char to_bytes hex hex_digit has_device
    is_old_counter enrollment_state find_first
request_accepted = refl

validate_device_enrollment_once_example :
    (validate_device_enrollment toy_crypto 130
      (zeros 32)
      ecosystem
      request
      (validate_device_enrollment toy_crypto 120 (zeros 32) ecosystem request waiting_server).1).0
    ≡ err invalid_challenge
validate_device_enrollment_once_example =
    validate_device_enrollment_once toy_crypto 120 130 (zeros 32) ecosystem request request request
      request waiting_server request_prepared request_prepared refl

validate_device_enrollment_sound_example :
    Enrolled toy_crypto 120 (zeros 32) ecosystem request waiting_server
validate_device_enrollment_sound_example =
    validate_device_enrollment_sound toy_crypto 120 (zeros 32) ecosystem request waiting_server
      DeviceState.authenticated request_accepted

abbrev later_request : Enrollment
later_request = record request { enrollment_counter = 8 }

abbrev known_device : Db
known_device = record empty_db {
  devices =
      record (new_device 50 device DeviceState.authenticated none) {
        device_public_key_fingerprint = some (codes "old");
        enrollment_counter = 3;
      }
      ∷ [];
}

abbrev rekeyed_device : Db
rekeyed_device = (store_enrollment 100 request (codes "key") (codes "new") known_device).1

rekey_stored :
    store_enrollment 100 request (codes "key") (codes "new") known_device
    ≡ (ok DeviceState.rekey_required, rekeyed_device)
unfolding store_enrollment has_device is_old_counter enrollment_state find_first text_eq new_device
rekey_stored = refl

store_enrollment_replay_example :
    store_enrollment 110 request (codes "key") (codes "new") rekeyed_device
    ≡ (err not_monotonic, rekeyed_device)
store_enrollment_replay_example =
    store_enrollment_replay 100 110 request request (codes "key") (codes "key") (codes "new")
      (codes "new") known_device rekeyed_device DeviceState.rekey_required rekey_stored refl
      (omega arith)
