-- ===== src/Activity.antt =====
-- The state tables of activity.py: `provisioning_state` and `firmware_device_state`. The activity
-- log that they also write, and the texts of the errors, are left out; `failed` says whether an error
-- text is given. `now` is `int(time.time())`. The identity is in normal form.
pub mod Firmware
use ota_server.Base.{
  ℕ, Text, Option, none, some, List, ◌∷◌, Bool, ◌&&◌, ◌==◌, if◌then◌else◌, text_eq, find_first,
  update_where, is_some,
}
use ota_server.Db.{
  Db, AttemptState, AttemptRow, hello_seen, challenge_sent, response_seen, provisioning_sent,
  completed, timeout, error, TransferState, FirmwareStatusRow, check_created, check_sent,
  download_started, download_completed, download_failed, device_confirmed, skipped,
}

-- WHERE device_id=? AND counter=?
unfoldable pub has_attempt_key : Text → ℕ → AttemptRow → Bool
has_attempt_key n counter row = text_eq row.device_id n && row.counter == counter

unfoldable pub new_attempt : ℕ → Text → ℕ → AttemptState → Bool → AttemptRow
new_attempt now n counter state failed = record {
  device_id = n;
  counter = counter;
  state = state;
  started_at = now;
  challenge_sent_at = none;
  response_verified_at = none;
  provisioning_sent_at = none;
  completed_at = none;
  updated_at = now;
  failed = failed;
}

-- INSERT … ON CONFLICT (device_id, counter) DO UPDATE SET state, updated_at, error
unfoldable pub upsert_attempt :
    ℕ → Text → ℕ → AttemptState → Bool → List AttemptRow → List AttemptRow
upsert_attempt now n counter state failed rows =
    if is_some (find_first (has_attempt_key n counter) rows)
    then update_where (has_attempt_key n counter)
        (λ row. record row { state = state; updated_at = now; failed = failed }) rows
    else new_attempt now n counter state failed ∷ rows

-- COALESCE(a, b)
abbrev pub or_else : Option ℕ → ℕ → Option ℕ
or_else none b = some b
or_else (some a) b = some a

-- The time columns that a state fills.
unfoldable pub stamp_attempt : ℕ → AttemptState → AttemptRow → AttemptRow
stamp_attempt now challenge_sent row = record row { challenge_sent_at = some now; updated_at = now }
stamp_attempt now provisioning_sent row = record row {
  response_verified_at = or_else row.response_verified_at now;
  provisioning_sent_at = some now;
  updated_at = now;
}
stamp_attempt now completed row = record row { completed_at = some now; updated_at = now }
stamp_attempt now timeout row = record row { completed_at = some now; updated_at = now }
stamp_attempt now error row = record row { completed_at = some now; updated_at = now }
stamp_attempt now hello_seen row = row
stamp_attempt now response_seen row = row

unfoldable pub provisioning_state : ℕ → Text → ℕ → AttemptState → Bool → Db → Db
provisioning_state now n counter state failed db = record db {
  provisioning_attempts =
      update_where (has_attempt_key n counter) (stamp_attempt now state)
        (upsert_attempt now n counter state failed db.provisioning_attempts);
}

-- WHERE device_id=? AND firmware_sha256=?
unfoldable pub has_status_key : Text → Text → FirmwareStatusRow → Bool
has_status_key n sha256 row = text_eq row.device_id n && text_eq row.firmware_sha256 sha256

-- The arguments of `firmware_device_state`, but for the identity and the hash.
pub record Transfer : Type 0 where
  pub filename : Text
  pub version : Text
  pub code : Option Text
  pub state : TransferState
  pub token_expires_at : Option ℕ
  pub failed : Bool

unfoldable pub new_status : ℕ → Text → Text → Transfer → FirmwareStatusRow
new_status now n sha256 t = record {
  device_id = n;
  firmware_sha256 = sha256;
  firmware_filename = t.filename;
  firmware_version = t.version;
  firmware_code = t.code;
  state = t.state;
  check_created_at = none;
  check_sent_at = none;
  token_expires_at = t.token_expires_at;
  download_started_at = none;
  download_finished_at = none;
  download_failed_at = none;
  grant_consumed_at = none;
  failed = t.failed;
  updated_at = now;
}

abbrev pub or_old : Option ℕ → Option ℕ → Option ℕ
or_old none old = old
or_old (some a) old = some a

unfoldable pub change_status : ℕ → Transfer → FirmwareStatusRow → FirmwareStatusRow
change_status now t row = record row {
  firmware_filename = t.filename;
  firmware_version = t.version;
  firmware_code = t.code;
  state = t.state;
  token_expires_at = or_old t.token_expires_at row.token_expires_at;
  failed = t.failed;
  updated_at = now;
}

unfoldable pub upsert_status :
    ℕ → Text → Text → Transfer → List FirmwareStatusRow → List FirmwareStatusRow
upsert_status now n sha256 t rows =
    if is_some (find_first (has_status_key n sha256) rows)
    then update_where (has_status_key n sha256) (change_status now t) rows
    else new_status now n sha256 t ∷ rows

-- `timestamp_columns`
unfoldable pub stamp_status : ℕ → TransferState → FirmwareStatusRow → FirmwareStatusRow
stamp_status now check_created row = record row { check_created_at = some now }
stamp_status now check_sent row = record row { check_sent_at = some now }
stamp_status now download_started row = record row { download_started_at = some now }
stamp_status now download_completed row = record row { download_finished_at = some now }
stamp_status now download_failed row = record row { download_failed_at = some now }
stamp_status now device_confirmed row = record row { grant_consumed_at = some now }
stamp_status now skipped row = record row { download_finished_at = some now }

unfoldable pub firmware_device_state : ℕ → Text → Text → Transfer → Db → Db
firmware_device_state now n sha256 t db = record db {
  device_firmware_status =
      update_where (has_status_key n sha256) (stamp_status now t.state)
        (upsert_status now n sha256 t db.device_firmware_status);
}
