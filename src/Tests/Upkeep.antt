-- ===== src/Tests/Upkeep.antt =====
-- Bucket tokens, code candidates and the maintenance of the tables.
use ota_server.Base.{
  ◌≡◌, refl, Text, codes, none, some, [], ◌∷◌, true, false, find_first, text_eq, strip, lower,
  is_space, is_hex, is_digit, starts_with, arith,
}
use ota_server.Encoding.{b64u, b64_char}
use ota_server.Ident.{normalize_ieee, dash_to_colon, keep_hex, join_pairs}
use ota_server.Ident.Canonical.{normalize_device_id_stable}
use ota_server.BucketToken
use ota_server.Registry.{has_id, find_cert}
use ota_server.Firmware.{ensure_image_code, has_filename}
use ota_server.Firmware.Candidates.{
  is_free, generate_firmware_code_candidates, ensure_image_code-candidates,
}
use ota_server.BucketToken.{create_token, validate_token, token_for_bucket, validate_token-create}
use ota_server.Maintenance.{
  Tables, esp, target_of, clear_maintenance_target, clear_target, is_test_cert,
}
use ota_server.Maintenance.Registered.{clear_maintenance_target-find_cert}
use ota_server.Tests.{zeros, toy_crypto, device, upper_device, cert, one_device, device_normal}
use ota_server.Tests.Catalog.{one_alias}

abbrev made_token : Text
made_token = codes "AAAAAAAAAAAAAAAA"

token_created :
    create_token toy_crypto (some (zeros 32)) 1000 (codes "0Az") upper_device (codes "aa")
    ≡ some made_token
unfolding create_token token_for_bucket BucketToken.bucket_token b64u b64_char
token_created = refl

spelled : normalize_ieee (some upper_device) ≡ device
unfolding normalize_ieee strip lower is_space dash_to_colon keep_hex is_hex is_digit starts_with
    join_pairs
spelled = refl

own_form : normalize_ieee (some device) ≡ device
own_form = (normalize_device_id_stable device device device_normal).1

validate_token-create_example :
    validate_token toy_crypto (some (zeros 32)) 1300 made_token (codes "0Az") device (codes "aa")
    ≡ true
validate_token-create_example =
    validate_token-create toy_crypto (some (zeros 32)) 1000 1300 made_token (codes "0Az")
      upper_device device device (codes "aa") spelled own_form device_normal token_created
      (omega arith) (omega arith)

no_code_yet : find_first (has_filename (codes "b.bin")) one_alias.firmware_alias ≡ none
unfolding find_first has_filename text_eq
no_code_yet = refl

ensure_image_code-candidates_example :
    (ensure_image_code toy_crypto 9 (codes "b.bin") one_alias).0
    ≡ find_first
        (is_free one_alias.firmware_alias)
        (generate_firmware_code_candidates toy_crypto (codes "b.bin"))
ensure_image_code-candidates_example =
    ensure_image_code-candidates toy_crypto 9 (codes "b.bin") one_alias no_code_yet

abbrev all_tables : Tables
all_tables = record {
  db = one_device;
  activity_log = [];
  command_counters = [];
  firmware_dir = codes "a.bin" ∷ [];
}

esp_cleared :
    clear_maintenance_target (codes " ESP") all_tables ≡ some (clear_target esp all_tables)
unfolding clear_maintenance_target target_of strip is_space lower text_eq
esp_cleared = refl

device_there : find_cert device one_device ≡ some cert
unfolding find_cert has_id find_first text_eq
device_there = refl

real_device : is_test_cert cert ≡ false
unfolding is_test_cert text_eq
real_device = refl

clear_maintenance_target-find_cert_example :
    find_cert device (clear_target esp all_tables).db ≡ some cert
clear_maintenance_target-find_cert_example =
    clear_maintenance_target-find_cert (codes " ESP") device cert all_tables
      (clear_target esp all_tables) esp_cleared device_there real_device
