-- ===== src/Registry/Certificates.antt =====
-- `register_device_certificate` of device_registry.py. What `verify_and_extract_device_certificate` returns
-- for the PEM text is an argument, since it rests on the `cryptography` package.
use ota_server.Base.{
  ℕ, Text, Option, none, some, [], ◌∷◌, Bool, ◌&&◌, not, text_eq, if◌then◌else◌, find_first,
  update_where, is_some,
}
use ota_server.Base.Result.{Result, ok, err}
use ota_server.Db.{Db, CertRow}
use ota_server.Registry.{Error, duplicate_fingerprint, has_id, find_cert}

-- The `record` of a certificate that was verified.
pub record Certificate : Type 0 where
  pub device_id : Text
  pub ecosystem : Text
  pub device_group : Text
  pub device_model : Text
  pub product_role : Text
  pub hardware_revision : Text
  pub chip_family : Text
  pub flash_size : Text
  pub certificate_pem : Text
  pub certificate_fingerprint : Text
  pub public_key_der : Text
  pub public_key_uncompressed : Text
  pub certificate_not_before : ℕ
  pub certificate_not_after : ℕ
  pub certificate_subject : Text
  pub certificate_issuer : Text

pub data RegistrationAction : Type 0 where
  registered unchanged replaced : RegistrationAction

-- INSERT INTO device_certificates; the other columns have their defaults.
unfoldable pub registered_row : ℕ → Certificate → CertRow
registered_row now c = record {
  device_id = c.device_id;
  ecosystem = c.ecosystem;
  device_group = c.device_group;
  device_model = c.device_model;
  product_role = c.product_role;
  hardware_revision = c.hardware_revision;
  chip_family = c.chip_family;
  flash_size = c.flash_size;
  certificate_pem = c.certificate_pem;
  certificate_fingerprint = c.certificate_fingerprint;
  public_key_der = c.public_key_der;
  public_key_uncompressed = c.public_key_uncompressed;
  certificate_not_before = c.certificate_not_before;
  certificate_not_after = c.certificate_not_after;
  certificate_subject = c.certificate_subject;
  certificate_issuer = c.certificate_issuer;
  last_hello_counter = 0;
  registered_at = now;
  updated_at = now;
  provision_counter = 0;
  provision_random = none;
  provision_context_updated_at = none;
  last_status_counter = 0;
  running_firmware_version = [];
  last_status_at = 0;
}

-- UPDATE … SET of another certificate: the HELLO counter starts again, the other counters stay.
unfoldable pub replaced_row : ℕ → Certificate → CertRow → CertRow
replaced_row now c row = record row {
  ecosystem = c.ecosystem;
  device_group = c.device_group;
  device_model = c.device_model;
  product_role = c.product_role;
  hardware_revision = c.hardware_revision;
  chip_family = c.chip_family;
  flash_size = c.flash_size;
  certificate_pem = c.certificate_pem;
  certificate_fingerprint = c.certificate_fingerprint;
  public_key_der = c.public_key_der;
  public_key_uncompressed = c.public_key_uncompressed;
  certificate_not_before = c.certificate_not_before;
  certificate_not_after = c.certificate_not_after;
  certificate_subject = c.certificate_subject;
  certificate_issuer = c.certificate_issuer;
  last_hello_counter = 0;
  updated_at = now;
}

unfoldable pub touched_row : ℕ → CertRow → CertRow
touched_row now row = record row { updated_at = now }

-- `certificate_fingerprint` is a unique column: a row of another device that has it.
unfoldable pub has_other_fingerprint : Certificate → CertRow → Bool
has_other_fingerprint c row =
    text_eq row.certificate_fingerprint c.certificate_fingerprint && not (has_id c.device_id row)

unfoldable pub write_certificate : Option CertRow → ℕ → Certificate → Db → RegistrationAction × Db
unfolding registered_row replaced_row touched_row
write_certificate none now c db =
    (registered, record db { device_certificates = registered_row now c ∷ db.device_certificates })
write_certificate (some existing) now c db =
    if text_eq existing.certificate_fingerprint c.certificate_fingerprint
    then (
      unchanged,
      record db {
        device_certificates =
            update_where (has_id c.device_id) (touched_row now) db.device_certificates;
      },
    )
    else (
      replaced,
      record db {
        device_certificates =
            update_where (has_id c.device_id) (replaced_row now c) db.device_certificates;
      },
    )

-- `register_device_certificate`; a fingerprint that another device has breaks the unique column.
unfoldable pub register_device_certificate :
    ℕ → Certificate → Db → Result Error RegistrationAction × Db
register_device_certificate now c db =
    if is_some (find_first (has_other_fingerprint c) db.device_certificates)
    then (err duplicate_fingerprint, db)
    else let (action, db') = write_certificate (find_cert c.device_id db) now c db in
      (ok action, db')
