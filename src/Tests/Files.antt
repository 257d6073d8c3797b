-- ===== src/Tests/Files.antt =====
-- A scan of the firmware directory, the image that it offers, and a certificate that replaces another.
use ota_server.Base.{
  ◌≡◌, ◌⊎◌, refl, codes, some, List, [], ◌∷◌, true, text_eq, find_first, select_where, is_digit,
  lower,
}
use ota_server.Base.Result.{ok}
use ota_server.Db.{Db, empty_db}
use ota_server.Firmware.{image_of}
use ota_server.Catalog.{FirmwareFile, new_image, scan_file, scan_firmware_images}
use ota_server.Catalog.Versions.{
  is_for_product, is_positive, compare_versions, latest_compatible_firmware, newest, better,
  is_update, compare_images, version_key, version_parts, is_letter, flush, open_number, open_word,
  ended_by_digit, ended_by_letter, compare_keys, compare_parts, compare_numbers, compare_texts,
  first_difference, is_no_key,
}
use ota_server.Catalog.Order.{IsNewer}
use ota_server.Catalog.Newest.{Fits, latest_compatible_firmware_sound}
use ota_server.Registry.{has_id, find_cert}
use ota_server.Registry.Certificates.{
  Certificate, replaced, register_device_certificate, write_certificate, has_other_fingerprint,
}
use ota_server.Registry.Renewal.{register_device_certificate_lem, key_and_counter, kept_counter}
use ota_server.Tests.{device, one_device}

abbrev file_one_nine : FirmwareFile
file_one_nine = record {
  filename = codes "a.bin";
  sha256 = codes "aa";
  size = 10;
  version = codes "1.9";
  ota_ecosystem = codes "JaroslavZemanESP";
  device_family = codes "remote";
  device_model = codes "remote";
  product_role = codes "controller";
  product = codes "remote";
  hardware_revision = codes "C6";
  chip_family = codes "ESP32-C6";
  flash_size = codes "16MB";
  channel = codes "stable";
  secure_version = 0;
  active = true;
}

abbrev file_one_ten : FirmwareFile
file_one_ten = record file_one_nine {
  filename = codes "b.bin";
  version = codes "1.10";
  sha256 = codes "bb";
}

abbrev two_files : List FirmwareFile
two_files = file_one_nine ∷ file_one_ten ∷ []

one_ten_is_newest :
    (latest_compatible_firmware 100 two_files
      (codes "remote")
      (codes "C6")
      (codes "stable")
      (codes "1.2")
      empty_db).0
    ≡ some (new_image 100 file_one_ten)
unfolding latest_compatible_firmware scan_firmware_images scan_file new_image image_of find_first
    text_eq select_where is_for_product is_update is_positive compare_versions newest better
    compare_images version_key version_parts is_letter flush open_number open_word ended_by_digit
    ended_by_letter compare_keys compare_parts compare_numbers compare_texts first_difference
    is_no_key is_digit lower
one_ten_is_newest = refl

latest_compatible_firmware_sound_example :
    Fits (codes "remote") (codes "C6") (codes "stable") (new_image 100 file_one_ten)
    × ((codes "1.2" ≡ []) ⊎ IsNewer (new_image 100 file_one_ten).version (codes "1.2"))
latest_compatible_firmware_sound_example =
    latest_compatible_firmware_sound 100 two_files (codes "remote") (codes "C6") (codes "stable")
      (codes "1.2") empty_db (new_image 100 file_one_ten) one_ten_is_newest

abbrev new_certificate : Certificate
new_certificate = record {
  device_id = device;
  ecosystem = codes "JaroslavZemanESP";
  device_group = codes "lights";
  device_model = codes "remote";
  product_role = codes "controller";
  hardware_revision = codes "C6";
  chip_family = codes "ESP32-C6";
  flash_size = codes "16MB";
  certificate_pem = [];
  certificate_fingerprint = codes "cd";
  public_key_der = [];
  public_key_uncompressed = [];
  certificate_not_before = 10;
  certificate_not_after = 90;
  certificate_subject = [];
  certificate_issuer = [];
}

abbrev renewed : Db
renewed = (register_device_certificate 30 new_certificate one_device).1

certificate_replaced :
    register_device_certificate 30 new_certificate one_device ≡ (ok replaced, renewed)
unfolding register_device_certificate write_certificate has_other_fingerprint has_id find_cert
    find_first text_eq
certificate_replaced = refl

register_device_certificate_lem_example :
    key_and_counter (find_cert device renewed)
    ≡ some (codes "cd", kept_counter new_certificate (find_cert device one_device))
register_device_certificate_lem_example =
    register_device_certificate_lem 30 new_certificate replaced one_device renewed
      certificate_replaced
