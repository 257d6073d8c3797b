-- ===== src/Maintenance.antt =====
-- The maintenance of the user interface: `clear_maintenance_target` and `_clear_test_data` of
-- server_mysql.py. Beside the database there are the activity log, the command counters and the names in
-- the firmware directory, as far as they are deleted from. LIKE compares code points. The number of rows
-- that the message names is left out.
pub mod Registered
use ota_server.Base.{
  ℕ, ◌≡◌, refl, ap, sym, ◌∙◌, Text, codes, Option, none, some, List, [], ◌∷◌, map, Bool, true,
  false, ◌&&◌, ◌||◌, not, if◌then◌else◌, text_eq, strip, lower, starts_with, find_first,
  delete_where, select_where, is_some, arith, Option-cases, Bool-cases, inl, inr,
}
use mathlib.Core.Option.{some-injective}
use ota_server.Base.Result.{Result, ok, err}
use ota_server.Db.{
  Db, CertRow, GrantRow, AttemptRow, FirmwareStatusRow, ImageRow, AliasRow, HistoryRow, DeviceRow,
  DispatchRow, ProvisioningRow, PublicationRow,
}
use ota_server.Registry.{has_id, find_cert}

-- ota_server_activity_log and ota_server_command_counters, by the columns that are compared.
pub record ActivityRow : Type 0 where
  pub device_id : Option Text
  pub detail : Text

pub record CounterRow : Type 0 where
  pub scope : Text

pub record Tables : Type 0 where
  pub db : Db
  pub activity_log : List ActivityRow
  pub command_counters : List CounterRow
  pub firmware_dir : List Text

pub data Target : Type 0 where
  activity artifacts provisioning firmware esp images tests : Target

-- The keys of `labels`; `none` is the ValueError.
unfoldable pub target_of : Text → Option Target
unfolding strip
target_of value =
    let target = map lower (strip value) in
    if text_eq target (codes "activity")
    then some activity
    else if text_eq target (codes "artifacts")
    then some artifacts
    else if text_eq target (codes "provisioning")
    then some provisioning
    else if text_eq target (codes "firmware")
    then some firmware
    else if text_eq target (codes "esp")
    then some esp
    else if text_eq target (codes "images")
    then some images
    else if text_eq target (codes "tests")
    then some tests
    else none

-- column IN (…)
unfoldable pub is_among : List Text → Text → Bool
is_among [] s = false
is_among (id ∷ ids) s = text_eq id s || is_among ids s

abbrev pub is_among_null : List Text → Option Text → Bool
is_among_null ids none = false
is_among_null ids (some s) = is_among ids s

-- LIKE 'ota-e2e-%'
unfoldable pub is_e2e : Text → Bool
is_e2e s = starts_with (codes "ota-e2e-") s

abbrev pub is_e2e_null : Option Text → Bool
is_e2e_null none = false
is_e2e_null (some s) = is_e2e s

-- LIKE '%part%'
unfoldable pub contains : Text → Text → Bool
contains part [] = text_eq part []
contains part (c ∷ s) = starts_with part (c ∷ s) || contains part s

-- device_group=? OR product_role=? OR device_model=?
unfoldable pub is_test_cert : CertRow → Bool
is_test_cert row =
    text_eq row.device_group (codes "ota-e2e-live")
    || text_eq row.product_role (codes "integration-test")
    || text_eq row.device_model (codes "ESP32-C6-E2E")

abbrev pub ids_of : List CertRow → List Text
ids_of [] = []
ids_of (row ∷ rows) = row.device_id ∷ ids_of rows

-- The deletions by the identities of the test devices.
unfoldable pub clear_by_ids : List Text → Tables → Tables
unfolding is_among
clear_by_ids ids t =
    let db' : Db = record t.db {
      device_firmware_status =
          delete_where (λ (r : FirmwareStatusRow). is_among ids r.device_id)
            t.db.device_firmware_status;
      provisioning_attempts =
          delete_where (λ (r : AttemptRow). is_among ids r.device_id) t.db.provisioning_attempts;
      device_provisioning =
          delete_where (λ (r : ProvisioningRow). is_among ids r.device_id) t.db.device_provisioning;
      download_grants =
          delete_where (λ (r : GrantRow). is_among ids r.device_id) t.db.download_grants;
      ota_dispatch = delete_where (λ (r : DispatchRow). is_among ids r.ieee) t.db.ota_dispatch;
      artifact_publications =
          delete_where (λ (r : PublicationRow). is_among ids r.publisher_device_id)
            t.db.artifact_publications;
      devices =
          delete_where (λ (r : DeviceRow). is_among_null ids r.zigbee_ieee)
            (delete_where (λ (r : DeviceRow). is_among ids r.device_id) t.db.devices);
    } in
    record t {
      db = db';
      activity_log =
          delete_where (λ (r : ActivityRow). is_among_null ids r.device_id) t.activity_log;
    }

-- The deletions by the names of the test files.
unfoldable pub clear_by_names : Tables → Tables
unfolding is_e2e contains
clear_by_names t =
    let db' : Db = record t.db {
      device_firmware_status =
          delete_where (λ (r : FirmwareStatusRow). is_e2e r.firmware_filename)
            t.db.device_firmware_status;
      device_provisioning =
          delete_where (λ (r : ProvisioningRow). is_e2e_null r.firmware_filename)
            t.db.device_provisioning;
      ota_dispatch = delete_where (λ (r : DispatchRow). is_e2e r.filename) t.db.ota_dispatch;
      artifact_publications =
          delete_where
            (λ (r : PublicationRow).
              is_e2e r.firmware_filename
              || is_e2e_null r.converter_project
              || is_e2e_null r.converter_filename)
            t.db.artifact_publications;
      firmware_alias = delete_where (λ (r : AliasRow). is_e2e r.filename) t.db.firmware_alias;
      firmware_history = delete_where (λ (r : HistoryRow). is_e2e r.filename) t.db.firmware_history;
      firmware_images = delete_where (λ (r : ImageRow). is_e2e r.filename) t.db.firmware_images;
    } in
    record t {
      db = db';
      activity_log =
          delete_where (λ (r : ActivityRow). contains (codes "ota-e2e-") r.detail) t.activity_log;
      command_counters =
          delete_where (λ (r : CounterRow). contains (codes "ota-e2e-") r.scope) t.command_counters;
    }

-- The loop over the identities in the scopes of the counters.
unfoldable pub clear_scopes : List Text → List CounterRow → List CounterRow
unfolding contains
clear_scopes [] rows = rows
clear_scopes (id ∷ ids) rows =
    clear_scopes ids (delete_where (λ (r : CounterRow). contains id r.scope) rows)

-- `_clear_test_data`
unfoldable pub clear_test_data : Tables → Tables
unfolding clear_by_ids clear_by_names clear_scopes is_test_cert is_e2e
clear_test_data t =
    let ids = ids_of (select_where is_test_cert t.db.device_certificates) in
    let named = clear_by_names (clear_by_ids ids t) in
    record named {
      db = record named.db {
        device_certificates = delete_where is_test_cert named.db.device_certificates;
      };
      command_counters = clear_scopes ids named.command_counters;
      firmware_dir = delete_where is_e2e named.firmware_dir;
    }

-- device_id IS NOT NULL AND device_id <> ''
abbrev pub has_device : ActivityRow → Bool
has_device row = elim row.device_id [ none ↦ false | some d ↦ not (text_eq d []) ]

unfoldable pub clear_target : Target → Tables → Tables
unfolding clear_test_data
clear_target activity t = record t { activity_log = [] }
clear_target artifacts t = record t { db = record t.db { artifact_publications = [] } }
clear_target provisioning t = record t { db = record t.db { provisioning_attempts = [] } }
clear_target firmware t = record t { db = record t.db { device_firmware_status = [] } }
clear_target esp t = record t {
  db = record t.db {
    device_firmware_status = [];
    provisioning_attempts = [];
    device_provisioning = [];
    download_grants = [];
    ota_dispatch = [];
    devices = [];
  };
  activity_log = delete_where has_device t.activity_log;
}
clear_target images t = record t {
  db = record t.db {
    device_firmware_status = [];
    download_grants = [];
    artifact_publications = [];
    ota_dispatch = [];
    firmware_alias = [];
    firmware_history = [];
    firmware_images = [];
  };
}
clear_target tests t = clear_test_data t

-- `clear_maintenance_target`; `none` is the ValueError.
unfoldable pub clear_maintenance_target : Text → Tables → Option Tables
unfolding target_of clear_target
clear_maintenance_target value t = elim (target_of value) [
  | none ↦ none
  | some target ↦ some (clear_target target t)
]
