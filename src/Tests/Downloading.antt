-- ===== src/Tests/Downloading.antt =====
-- HTTPS downloads with a token that is open.
use ota_server.Base.{
  ℕ, ◌≡◌, ◌≢◌, refl, Text, codes, none, some, [], ◌∷◌, List, true, false, find_first, text_eq,
  strip, lower, map, is_hex, is_space, is_digit, starts_with, arith,
}
use ota_server.Db.{
  Db, ImageRow, AliasRow, GrantRow, FirmwareStatusRow, download_completed, empty_db,
}
use ota_server.Encoding.{b64u_decode, a2b, b64_value, quad_step, hex, hex_digit}
use ota_server.Ident.{normalize_device_id, compact_id, format_id, remove, remove_0x, join_pairs}
use ota_server.Registry.{or_empty}
use ota_server.Activity.{firmware_device_state}
use ota_server.Grants.Tokens.{hash_token, keep_ascii}
use ota_server.Grants.Downloads.{
  is_open, download_match, dispatch_match, validate_download_token, consume, confirm_match,
  confirm_completed_download_b64,
}
use ota_server.Firmware.{resolve_image_code, has_code, image_of}
use ota_server.Https.{
  Env, Request, Download, Turn, done, broken, sending, unauthorized, completed, code_of,
  basename_from, token_of, validate_dispatch_token, record_state, note_image, note_start, base_get,
  serve_file, begin_get, copy_blocks, finish_get,
}
use ota_server.Https.Downloads.{begin_get_sound, finish_get-incomplete}
use ota_server.Https.Transfers.{begin_get-again, finish_get-once}
use ota_server.Https.Confirmed.{finish_get-confirmed}
use ota_server.Tests.{zeros, toy_crypto, device, upper_device, device_normal, upper_device_normal}

abbrev pub stored_image : ImageRow
stored_image = record {
  filename = codes "a.bin";
  ota_ecosystem = codes "JaroslavZemanESP";
  sha256 = codes "aa";
  size = 3;
  version = codes "1.2";
  revision = 1;
  device_family = [];
  device_model = [];
  product_role = [];
  product = [];
  hardware_revision = [];
  chip_family = [];
  flash_size = [];
  channel = [];
  secure_version = 1;
  active = true;
  first_seen = 10;
  last_seen = 10;
  changed_at = 10;
}

abbrev open_grant : GrantRow
open_grant = record {
  device_id = device;
  code = codes "0Az";
  version = codes "1.2";
  sha256 = codes "aa";
  grant_random = zeros 8;
  token_hash = codes "0000000000000000000000000000000000000000000000000000000000000000";
  created_at = 1000;
  expires_at = 1300;
  consumed_at = none;
}

abbrev pub stored_alias : AliasRow
stored_alias = record { filename = codes "a.bin"; code = codes "0Az"; created_at = 10 }

abbrev granted : Db
granted = record empty_db {
  firmware_images = stored_image ∷ [];
  firmware_alias = stored_alias ∷ [];
  download_grants = open_grant ∷ [];
}

abbrev file_blocks : List Text
file_blocks = (1 ∷ 2 ∷ []) ∷ (3 ∷ []) ∷ []

abbrev https_env : Env
https_env = record {
  crypto = toy_crypto;
  url_path = λ path. path;
  is_file = λ filename. true;
  send_head = λ filename. some file_blocks;
}

abbrev get_request : Request
get_request = record {
  path = codes "/ota/0Az";
  authorization = some (codes "Bearer secret");
  device_id = some device;
}

-- The same token from the device with its identity in capital letters.
abbrev second_request : Request
second_request = record {
  path = codes "/0Az";
  authorization = some (codes "Bearer secret ");
  device_id = some upper_device;
}

file_sent :
    (begin_get https_env 1050 1051 get_request granted).0.answer ≡ sending stored_image file_blocks
unfolding begin_get note_start note_image record_state base_get serve_file validate_dispatch_token
    validate_download_token download_match is_open hash_token keep_ascii hex hex_digit token_of
    code_of basename_from resolve_image_code has_code image_of find_first text_eq starts_with strip
    lower is_hex is_space is_digit normalize_device_id compact_id format_id remove remove_0x
    join_pairs firmware_device_state
file_sent = refl

begin_get_sound_example :
    (resolve_image_code (code_of https_env get_request) granted ≡ some stored_image)
    × (starts_with (codes "Bearer ") (or_empty get_request.authorization) ≡ true)
    × (validate_download_token toy_crypto 1051
          (token_of (or_empty get_request.authorization))
          (code_of https_env get_request)
          (or_empty get_request.device_id)
          (codes "aa")
          granted
        ≡ true)
    × (https_env.send_head (codes "a.bin") ≡ some file_blocks)
begin_get_sound_example =
    begin_get_sound https_env 1050 1051 get_request stored_image file_blocks granted file_sent

begin_get-again_example :
    base_get https_env 1060 second_request (begin_get https_env 1050 1051 get_request granted).1
    ≡ base_get https_env 1060 second_request granted
begin_get-again_example =
    begin_get-again https_env 1050 1051 1060 get_request second_request granted

abbrev broken_at_once : ℕ → Turn
broken_at_once k = broken

broken_copy : (copy_blocks broken_at_once 0 file_blocks).0 ≢ completed
unfolding copy_blocks
broken_copy e = cc

finish_get-incomplete_example :
    base_get https_env 1070 second_request (
      finish_get https_env broken_at_once 1060 get_request
        (begin_get https_env 1050 1051 get_request granted).0
        granted)
    ≡ base_get https_env 1070 second_request granted
finish_get-incomplete_example =
    finish_get-incomplete https_env broken_at_once 1060 get_request
      (begin_get https_env 1050 1051 get_request granted).0 stored_image file_blocks granted
      file_sent broken_copy 1070 second_request

abbrev all_done : ℕ → Turn
all_done k = done

whole_copy : (copy_blocks all_done 0 file_blocks).0 ≡ completed
unfolding copy_blocks
whole_copy = refl

same_token :
    token_of (or_empty second_request.authorization) ≡ token_of (or_empty get_request.authorization)
unfolding token_of strip is_space
same_token = refl

second_resolved : resolve_image_code (code_of https_env second_request) granted ≡ some stored_image
unfolding code_of basename_from resolve_image_code has_code image_of find_first text_eq
second_resolved = refl

stored_hash : text_eq stored_image.sha256 [] ≡ false
unfolding text_eq
stored_hash = refl

finish_get-once_example :
    base_get https_env 1200 second_request (
      finish_get https_env all_done 1100 get_request
        (begin_get https_env 1050 1051 get_request granted).0
        granted)
    ≡ unauthorized
finish_get-once_example =
    finish_get-once https_env all_done 1050 1051 1100 1200 get_request second_request device
      stored_image file_blocks granted granted file_sent whole_copy stored_hash device_normal
      upper_device_normal same_token second_resolved (omega arith)

abbrev noted_download : Download
noted_download = record {
  activity_device_id = device;
  activity_image = stored_image;
  activity_code = codes "0Az";
}

download_noted :
    (begin_get https_env 1050 1051 get_request granted).0.download ≡ some noted_download
unfolding begin_get note_start note_image record_state validate_dispatch_token
    validate_download_token download_match is_open hash_token keep_ascii hex hex_digit token_of
    code_of basename_from resolve_image_code has_code image_of find_first text_eq starts_with strip
    lower is_hex is_space is_digit normalize_device_id compact_id format_id remove remove_0x
    join_pairs
download_noted = refl

bearer_sent : starts_with (codes "Bearer ") (or_empty get_request.authorization) ≡ true
unfolding starts_with
bearer_sent = refl

grant_matched :
    dispatch_match 1100 device
      (map lower stored_image.sha256)
      (hash_token toy_crypto (token_of (or_empty get_request.authorization)))
      open_grant
    ≡ true
unfolding dispatch_match is_open hash_token keep_ascii hex hex_digit token_of text_eq lower strip
    is_space
grant_matched = refl

newest_grant : find_first (confirm_match device (zeros 8)) granted.download_grants ≡ some open_grant
unfolding find_first confirm_match text_eq
newest_grant = refl

random_decoded : b64u_decode (codes "AAAAAAAAAAA") ≡ some (zeros 8)
unfolding b64u_decode a2b b64_value quad_step
random_decoded = refl

finish_get-confirmed_example :
    (s : FirmwareStatusRow) × (confirm_completed_download_b64 device (codes "AAAAAAAAAAA") (
        finish_get https_env all_done 1100 get_request
          (begin_get https_env 1050 1051 get_request granted).0
          granted)
      ≡ some (consume 1100 open_grant, s))
    × (s.state ≡ download_completed)
finish_get-confirmed_example =
    finish_get-confirmed https_env all_done 1100 get_request
      (begin_get https_env 1050 1051 get_request granted).0 noted_download stored_image file_blocks
      device (zeros 8) (codes "AAAAAAAAAAA") open_grant granted file_sent download_noted refl
      device_normal device_normal bearer_sent stored_hash whole_copy grant_matched newest_grant
      random_decoded refl (omega arith)
