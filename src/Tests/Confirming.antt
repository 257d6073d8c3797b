-- ===== src/Tests/Confirming.antt =====
-- An F frame after a completed transfer.
use ota_server.Base.{
  ◌≡◌, refl, codes, none, some, [], ◌∷◌, true, false, find_first, text_eq, strip, lower, is_hex,
  is_space, is_digit,
}
use ota_server.Db.{Db, GrantRow, FirmwareStatusRow, download_completed}
use ota_server.Encoding.{b64u_decode, a2b, b64_value, quad_step}
use ota_server.Grants.Downloads.{
  confirm_completed_download_b64, confirmed, join_status, joins, confirm_match, is_truthy,
}
use ota_server.Grants.Confirm.{confirm_completed_download_b64_sound}
use ota_server.Ident.{normalize_device_id, compact_id, format_id, remove, remove_0x, join_pairs}
use ota_server.Tests.{zeros, device, one_device, device_normal}

abbrev used_grant : GrantRow
used_grant = record {
  device_id = device;
  code = codes "0Az";
  version = codes "1.2";
  sha256 = codes "aa";
  grant_random = zeros 8;
  token_hash = codes "00";
  created_at = 1000;
  expires_at = 1300;
  consumed_at = some 1100;
}

abbrev completed_status : FirmwareStatusRow
completed_status = record {
  device_id = device;
  firmware_sha256 = codes "aa";
  firmware_filename = codes "a.bin";
  firmware_version = codes "1.2";
  firmware_code = some (codes "0Az");
  state = download_completed;
  check_created_at = some 1000;
  check_sent_at = some 1001;
  token_expires_at = some 1300;
  download_started_at = some 1050;
  download_finished_at = some 1100;
  download_failed_at = none;
  grant_consumed_at = none;
  failed = false;
  updated_at = 1100;
}

abbrev completed_db : Db
completed_db = record one_device {
  download_grants = used_grant ∷ [];
  device_firmware_status = completed_status ∷ [];
}

frame_random_decoded : b64u_decode (codes "AAAAAAAAAAA") ≡ some (zeros 8)
unfolding b64u_decode a2b b64_value quad_step
frame_random_decoded = refl

transfer_confirmed :
    confirm_completed_download_b64 device (codes "AAAAAAAAAAA") completed_db
    ≡ some (used_grant, completed_status)
unfolding confirm_completed_download_b64 confirmed join_status joins confirm_match find_first
    text_eq b64u_decode a2b b64_value quad_step normalize_device_id compact_id format_id remove
    remove_0x join_pairs strip lower is_hex is_space is_digit
transfer_confirmed = refl

confirm_completed_download_b64_sound_example :
    (used_grant.device_id ≡ device)
    × (used_grant.grant_random ≡ zeros 8)
    × (completed_status.device_id ≡ device)
    × (completed_status.firmware_sha256 ≡ used_grant.sha256)
    × (is_truthy used_grant.consumed_at ≡ true)
    × (completed_status.state ≡ download_completed)
confirm_completed_download_b64_sound_example =
    confirm_completed_download_b64_sound device device (codes "AAAAAAAAAAA") (zeros 8) completed_db
      used_grant completed_status device_normal frame_random_decoded transfer_confirmed
