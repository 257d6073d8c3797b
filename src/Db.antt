-- ===== src/Db.antt =====
-- The MySQL schema (migrations/versions) as far as the modelled code uses it: a record for each
-- table's rows, and the database as the list of rows of each table. A table with an autoincrement
-- `id` keeps its rows newest first, so that `ORDER BY id DESC LIMIT 1` is the first match; `id`
-- itself is left out. A nullable column is an `Option`. A column of state names is a data type.
-- `=` between texts is equality of code points.
use ota_server.Base.{ℕ, Text, Option, List, [], Bool}

-- ota_server_device_certificates
pub record CertRow : Type 0 where
  pub device_id : Text
  pub ecosystem : Text
  pub device_group : Text
  pub device_model : Text
  pub product_role : Text
  pub hardware_revision : Text
  pub chip_family : Text
  pub flash_size : Text
  pub certificate_pem : Text
  pub certificate_fingerprint : Text
  pub public_key_der : Text
  pub public_key_uncompressed : Text
  pub certificate_not_before : ℕ
  pub certificate_not_after : ℕ
  pub certificate_subject : Text
  pub certificate_issuer : Text
  pub last_hello_counter : ℕ
  pub registered_at : ℕ
  pub updated_at : ℕ
  pub provision_counter : ℕ
  pub provision_random : Option Text
  pub provision_context_updated_at : Option ℕ
  pub last_status_counter : ℕ
  pub running_firmware_version : Text
  pub last_status_at : ℕ

-- ota_server_download_grants
pub record GrantRow : Type 0 where
  pub device_id : Text
  pub code : Text
  pub version : Text
  pub sha256 : Text
  pub grant_random : Text
  pub token_hash : Text
  pub created_at : ℕ
  pub expires_at : ℕ
  pub consumed_at : Option ℕ

-- The states of a provisioning attempt.
pub data AttemptState : Type 0 where
  hello_seen challenge_sent response_seen provisioning_sent completed timeout error : AttemptState

-- ota_server_provisioning_attempts, whose `error` column is here a flag: whether a text is stored.
pub record AttemptRow : Type 0 where
  pub device_id : Text
  pub counter : ℕ
  pub state : AttemptState
  pub started_at : ℕ
  pub challenge_sent_at : Option ℕ
  pub response_verified_at : Option ℕ
  pub provisioning_sent_at : Option ℕ
  pub completed_at : Option ℕ
  pub updated_at : ℕ
  pub failed : Bool

-- The states of a device with one firmware.
pub data TransferState : Type 0 where
  check_created check_sent download_started download_completed download_failed device_confirmed
        skipped :
      TransferState

-- ota_server_device_firmware_status
pub record FirmwareStatusRow : Type 0 where
  pub device_id : Text
  pub firmware_sha256 : Text
  pub firmware_filename : Text
  pub firmware_version : Text
  pub firmware_code : Option Text
  pub state : TransferState
  pub check_created_at : Option ℕ
  pub check_sent_at : Option ℕ
  pub token_expires_at : Option ℕ
  pub download_started_at : Option ℕ
  pub download_finished_at : Option ℕ
  pub download_failed_at : Option ℕ
  pub grant_consumed_at : Option ℕ
  pub failed : Bool
  pub updated_at : ℕ

-- ota_server_firmware_images
pub record ImageRow : Type 0 where
  pub filename : Text
  pub ota_ecosystem : Text
  pub sha256 : Text
  pub size : ℕ
  pub version : Text
  pub revision : ℕ
  pub device_family : Text
  pub device_model : Text
  pub product_role : Text
  pub product : Text
  pub hardware_revision : Text
  pub chip_family : Text
  pub flash_size : Text
  pub channel : Text
  pub secure_version : ℕ
  pub active : Bool
  pub first_seen : ℕ
  pub last_seen : ℕ
  pub changed_at : ℕ

-- ota_server_firmware_alias
pub record AliasRow : Type 0 where
  pub filename : Text
  pub code : Text
  pub created_at : ℕ

-- ota_server_firmware_history
pub record HistoryRow : Type 0 where
  pub filename : Text
  pub sha256 : Text
  pub size : ℕ
  pub version : Text
  pub revision : ℕ
  pub detected_at : ℕ

-- The states of an enrolled device.
pub data DeviceState : Type 0 where
  discovered auth_challenge_pending authenticated auth_failed rekey_required : DeviceState

-- ota_server_devices
pub record DeviceRow : Type 0 where
  pub device_id : Text
  pub device_enc_public_key : Text
  pub device_key_id : ℕ
  pub device_public_key_fingerprint : Option Text
  pub zigbee_ieee : Option Text
  pub ota_ecosystem : Text
  pub device_model : Text
  pub firmware_product : Text
  pub product_role : Text
  pub hardware_revision : Text
  pub chip_family : Text
  pub flash_size : Option Text
  pub firmware_version : Option Text
  pub firmware_channel : Text
  pub enrollment_counter : ℕ
  pub state : DeviceState
  pub last_message_id : Option Text
  pub last_challenge : Option Text
  pub auth_failed_reason : Option Text
  pub created_at : ℕ
  pub updated_at : ℕ

-- ota_server_dispatch; whether an error text is stored is a flag.
pub record DispatchRow : Type 0 where
  pub ieee : Text
  pub filename : Text
  pub sha256 : Text
  pub revision : ℕ
  pub sent_at : ℕ
  pub success : Bool
  pub failed : Bool

-- The status of a device in ota_server_device_provisioning.
pub data SendStatus : Type 0 where
  denied sent failed : SendStatus

-- ota_server_device_provisioning
pub record ProvisioningRow : Type 0 where
  pub device_id : Text
  pub wifi_ssid : Text
  pub wifi_security : Text
  pub wifi_channel : ℕ
  pub ota_host : Text
  pub ota_port : ℕ
  pub firmware_filename : Option Text
  pub firmware_sha256 : Option Text
  pub transport : Text
  pub status : SendStatus
  pub failed : Bool
  pub updated_at : ℕ

-- ota_server_artifact_publications
pub record PublicationRow : Type 0 where
  pub firmware_version : Text
  pub firmware_filename : Text
  pub firmware_sha256 : Text
  pub firmware_size : ℕ
  pub converter_project : Option Text
  pub converter_filename : Option Text
  pub converter_sha256 : Option Text
  pub publisher_device_id : Text
  pub publisher_certificate_fingerprint : Text
  pub bin_verified : Bool
  pub mjs_verified : Bool
  pub z2m_loaded : Bool
  pub published_at : ℕ
  pub converter_published_at : Option ℕ
  pub failed : Bool

pub record Db : Type 0 where
  pub device_certificates : List CertRow
  pub download_grants : List GrantRow
  pub provisioning_attempts : List AttemptRow
  pub device_firmware_status : List FirmwareStatusRow
  pub firmware_images : List ImageRow
  pub firmware_alias : List AliasRow
  pub firmware_history : List HistoryRow
  pub devices : List DeviceRow
  pub ota_dispatch : List DispatchRow
  pub device_provisioning : List ProvisioningRow
  pub artifact_publications : List PublicationRow

-- A database after the migrations.
abbrev pub empty_db : Db
empty_db = record {
  device_certificates = [];
  download_grants = [];
  provisioning_attempts = [];
  device_firmware_status = [];
  firmware_images = [];
  firmware_alias = [];
  firmware_history = [];
  devices = [];
  ota_dispatch = [];
  device_provisioning = [];
  artifact_publications = [];
}
