-- ===== src/Catalog.antt =====
-- The firmware catalog of server.py: `scan_firmware_images` on the files of the firmware directory.
-- Reading a file, its hash and its release metadata are I/O, so a scan gets a list of `FirmwareFile`.
pub mod Versions
pub mod Order
pub mod Newest
use ota_server.Base.{
  ℕ, ◌+◌, Text, Option, none, some, List, [], ◌∷◌, Bool, true, false, not, text_eq, if◌then◌else◌,
  find_first, update_where,
}
use ota_server.Db.{Db, ImageRow, HistoryRow}
use ota_server.Firmware.{image_of}

-- A `.bin` file, with what `get_sha256` and `load_release_metadata` return for it.
pub record FirmwareFile : Type 0 where
  pub filename : Text
  pub sha256 : Text
  pub size : ℕ
  pub version : Text
  pub ota_ecosystem : Text
  pub device_family : Text
  pub device_model : Text
  pub product_role : Text
  pub product : Text
  pub hardware_revision : Text
  pub chip_family : Text
  pub flash_size : Text
  pub channel : Text
  pub secure_version : ℕ
  pub active : Bool

-- INSERT INTO firmware_images, with revision 1.
unfoldable pub new_image : ℕ → FirmwareFile → ImageRow
new_image now file = record {
  filename = file.filename;
  ota_ecosystem = file.ota_ecosystem;
  sha256 = file.sha256;
  size = file.size;
  version = file.version;
  revision = 1;
  device_family = file.device_family;
  device_model = file.device_model;
  product_role = file.product_role;
  product = file.product;
  hardware_revision = file.hardware_revision;
  chip_family = file.chip_family;
  flash_size = file.flash_size;
  channel = file.channel;
  secure_version = file.secure_version;
  active = file.active;
  first_seen = now;
  last_seen = now;
  changed_at = now;
}

-- The UPDATE where the hash is the same: the metadata and the time of the scan.
unfoldable pub same_image : ℕ → FirmwareFile → ImageRow → ImageRow
same_image now file row = record row {
  ota_ecosystem = file.ota_ecosystem;
  size = file.size;
  version = file.version;
  device_family = file.device_family;
  device_model = file.device_model;
  product_role = file.product_role;
  product = file.product;
  hardware_revision = file.hardware_revision;
  chip_family = file.chip_family;
  flash_size = file.flash_size;
  channel = file.channel;
  secure_version = file.secure_version;
  active = file.active;
  last_seen = now;
}

-- The UPDATE where the hash changed: the next revision as well.
unfoldable pub changed_image : ℕ → ℕ → FirmwareFile → ImageRow → ImageRow
unfolding same_image
changed_image now revision file row = record (same_image now file row) {
  sha256 = file.sha256;
  revision = revision;
  changed_at = now;
}

unfoldable pub history_row : ℕ → FirmwareFile → ℕ → HistoryRow
history_row now file revision = record {
  filename = file.filename;
  sha256 = file.sha256;
  size = file.size;
  version = file.version;
  revision = revision;
  detected_at = now;
}

-- One file of the loop; the Boolean is `changed_now`.
unfoldable pub scan_file : ℕ → FirmwareFile → Db → Bool × Db
unfolding history_row
scan_file now file db = elim (find_first (image_of file.filename) db.firmware_images) [
  | none ↦ (
    true,
    record db {
      firmware_images = new_image now file ∷ db.firmware_images;
      firmware_history = history_row now file 1 ∷ db.firmware_history;
    },
  )
  | some row ↦
      if not (text_eq row.sha256 file.sha256)
      then (
        true,
        record db {
          firmware_images =
              update_where (image_of file.filename) (changed_image now (row.revision + 1) file)
                db.firmware_images;
          firmware_history = history_row now file (row.revision + 1) ∷ db.firmware_history;
        },
      )
      else (
        false,
        record db {
          firmware_images =
              update_where (image_of file.filename) (same_image now file) db.firmware_images;
        },
      )
]

-- `scan_firmware_images`: the files in order, with each `changed_now`.
unfoldable pub scan_firmware_images : ℕ → List FirmwareFile → Db → List (Text × Bool) × Db
scan_firmware_images now [] db = ([], db)
scan_firmware_images now (file ∷ files) db =
    let (changed, db1) = scan_file now file db in
    let (result, db2) = scan_firmware_images now files db1 in
    ((file.filename, changed) ∷ result, db2)
