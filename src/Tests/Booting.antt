-- ===== src/Tests/Booting.antt =====
-- Boot status frames at a database with one device.
use ota_server.Base.{
  ◌≡◌, ◌<◌, refl, Text, codes, some, none, ◌++◌, true, false, find_first, update_where, count_where,
  text_eq, is_hex, is_digit, lower, strip, is_space, starts_with, split, parse_int, decimal, arith,
}
use ota_server.Base.Result.{ok}
use ota_server.Db.{CertRow}
use ota_server.Encoding.{b64u, b64u_decode, a2b, b64_value, b64_char, quad_step}
use ota_server.Ident.{
  is_hex_letter, normalize_device_id, compact_id, format_id, remove, remove_0x, join_pairs,
}
use ota_server.Registry.{
  has_id, find_cert, update_certs, status_match, status_set, update_status, accept_status_counter,
  get_registered_device,
}
use ota_server.Status.{
  Env, Answer, topic_device_id, compact, parse_status, status_counter_in_range, check_status,
  status_canonical, store_status, verify_frame, verify_and_store,
}
use ota_server.Status.Authentic.{Fields, verify_and_store_accepted, verify_and_store_replay}
use ota_server.Grants.Tokens.{has_bar}
use ota_server.Tests.{
  zeros, toy_crypto, device, compact_device, one_device, one_device-HasUniqueIds,
}

abbrev status_env : Env
status_env = record {
  crypto = toy_crypto;
  now = 1000;
  loads = λ payload. none;
  base_topic = codes "zigbee2mqtt";
  expected_ecosystem = codes "JaroslavZemanESP";
}

abbrev booted : Text
booted = codes "S|7|1.2.0|" ++ b64u (zeros 64)

abbrev booted_again : Text
booted_again = codes "S|6|9|" ++ b64u (zeros 64)

abbrev status_answer : Answer
status_answer = record {
  accepted = true;
  device_id = device;
  counter = 7;
  fw_version = codes "1.2.0";
}

abbrev stale_answer : Answer
stale_answer = record { accepted = false; device_id = device; counter = 6; fw_version = codes "9" }

booted_answer : (verify_and_store status_env compact_device booted one_device).0 ≡ ok status_answer
unfolding verify_and_store topic_device_id is_hex_letter compact normalize_device_id compact_id
    format_id remove remove_0x join_pairs strip lower is_hex is_space is_digit parse_status
    status_counter_in_range has_bar verify_frame get_registered_device check_status status_canonical
    store_status accept_status_counter update_status update_certs status_match status_set find_cert
    has_id find_first update_where count_where b64u b64u_decode a2b b64_value b64_char quad_step
    text_eq starts_with split decimal parse_int
booted_answer = refl

replayed_answer :
    (verify_and_store status_env compact_device booted_again
      (verify_and_store status_env compact_device booted one_device).1).0
    ≡ ok stale_answer
unfolding verify_and_store topic_device_id is_hex_letter compact normalize_device_id compact_id
    format_id remove remove_0x join_pairs strip lower is_hex is_space is_digit parse_status
    status_counter_in_range has_bar verify_frame get_registered_device check_status status_canonical
    store_status accept_status_counter update_status update_certs status_match status_set find_cert
    has_id find_first update_where count_where b64u b64u_decode a2b b64_value b64_char quad_step
    text_eq starts_with split decimal parse_int
replayed_answer = refl

verify_and_store_accepted_example :
    (topic_device_id compact_device ≡ some device)
    × (row : CertRow) × (raw : Text) × (find_cert device one_device ≡ some row)
    × Fields booted 7 (codes "1.2.0") raw
    × (status_env.crypto.verify row.public_key_der raw (status_canonical device 7 (codes "1.2.0"))
        ≡ true)
    × (row.last_status_counter < 7)
    × (find_cert device (verify_and_store status_env compact_device booted one_device).1
        ≡ some (status_set 1000 7 (codes "1.2.0") row))
verify_and_store_accepted_example =
    verify_and_store_accepted status_env compact_device booted one_device status_answer
      one_device-HasUniqueIds booted_answer refl

verify_and_store_replay_example :
    (stale_answer.accepted ≡ false)
    × ((verify_and_store status_env compact_device booted_again
          (verify_and_store status_env compact_device booted one_device).1).1
        ≡ (verify_and_store status_env compact_device booted one_device).1)
verify_and_store_replay_example =
    verify_and_store_replay status_env status_env compact_device compact_device booted booted_again
      one_device status_answer stale_answer one_device-HasUniqueIds booted_answer refl
      replayed_answer refl (omega arith)
