-- ===== src/Tests.antt =====
-- Runs of the definitions at concrete data: a device with a certificate, a database that holds it,
-- and functions in place of the cryptographic library.
mod Identities
mod Issue
mod Sessions
mod Catalog
mod Confirming
mod Enrolling
mod Files
mod Booting
mod Downloading
mod Sending
mod Publishing
mod Upkeep
use ota_server.Base.{
  ℕ, zero, suc, ◌+◌, ◌%◌, ◌/◌, ◌*◌, ◌^◌, ◌≤◌, ◌<◌, ◌≡◌, ◌≢◌, refl, ◌↔◌, Text, codes, some, [], ◌∷◌,
  ◌++◌, true, count_where, is_hex, is_digit, lower, strip, is_space, arith, length-append,
}
use ota_server.Crypto.{Crypto, HasSizes}
use ota_server.Db.{Db, CertRow, empty_db}
use ota_server.Ident.{normalize_device_id, compact_id, format_id, remove, remove_0x, join_pairs}
use ota_server.Registry.Counters.{HasUniqueIds}

abbrev pub zeros : ℕ → Text
zeros zero = []
zeros (suc n) = 0 ∷ zeros n

abbrev pub toy_crypto : Crypto
toy_crypto = record {
  hmac = λ key message. zeros 32;
  sha256 = λ message. zeros 32;
  exchange = λ der. some (zeros 32);
  verify = λ der signature message. true;
  sign = λ message. zeros 64;
  encrypt = λ key nonce plain aad. plain ++ zeros 16;
}

abbrev pub device : Text
device = codes "20:6e:f1:ff:fe:0d:45:94"

abbrev pub compact_device : Text
compact_device = codes "206ef1fffe0d4594"

abbrev pub upper_device : Text
upper_device = codes " 0x206EF1FFFE0D4594 "

abbrev pub cert : CertRow
cert = record {
  device_id = device;
  ecosystem = codes "JaroslavZemanESP";
  device_group = codes "lights";
  device_model = codes "remotecontrol7";
  product_role = codes "controller";
  hardware_revision = codes "ESP32-C6";
  chip_family = codes "ESP32-C6";
  flash_size = codes "16MB";
  certificate_pem = [];
  certificate_fingerprint = codes "ab";
  public_key_der = zeros 8;
  public_key_uncompressed = [];
  certificate_not_before = 10;
  certificate_not_after = 100000;
  certificate_subject = [];
  certificate_issuer = [];
  last_hello_counter = 4;
  registered_at = 10;
  updated_at = 10;
  provision_counter = 4;
  provision_random = some (zeros 8);
  provision_context_updated_at = some 20;
  last_status_counter = 2;
  running_firmware_version = codes "1";
  last_status_at = 20;
}

abbrev pub one_device : Db
one_device = record empty_db { device_certificates = cert ∷ [] }

pub one_device-HasUniqueIds : HasUniqueIds one_device
unfolding count_where
one_device-HasUniqueIds n = ground arith

pub toy_crypto-HasSizes : HasSizes toy_crypto
toy_crypto-HasSizes = record {
  length-hmac = λ key message. refl;
  length-sign = λ message. refl;
  length-encrypt = λ key nonce plain aad. length-append plain (zeros 16);
}

pub device_normal : normalize_device_id device ≡ some device
unfolding normalize_device_id compact_id format_id remove remove_0x join_pairs strip lower is_hex
    is_space is_digit
device_normal = refl

pub upper_device_normal : normalize_device_id upper_device ≡ some device
unfolding normalize_device_id compact_id format_id remove remove_0x join_pairs strip lower is_hex
    is_space is_digit
upper_device_normal = refl
