-- ===== src/Activity/Firmware.antt =====
-- The row that `firmware_device_state` of activity.py leaves for a device and a firmware.
use ota_server.Base.{
  ℕ, ◌≡◌, refl, ◌∙◌, Text, Option, none, some, List, ◌∷◌, arith, Option-cases, inl, inr, find_first,
  find_first-update, find_first_sound, text_eq_refl,
}
use ota_server.Db.{Db, TransferState, FirmwareStatusRow}
use ota_server.Activity.{
  has_status_key, Transfer, new_status, change_status, upsert_status, stamp_status,
  firmware_device_state,
}

-- The row of a device and a firmware.
abbrev pub status_row : Text → Text → Db → Option FirmwareStatusRow
status_row n sha256 db = find_first (has_status_key n sha256) db.device_firmware_status

stamp_status-key :
    (n sha256 : Text) (now : ℕ) (state : TransferState) (row : FirmwareStatusRow)
    → has_status_key n sha256 (stamp_status now state row) ≡ has_status_key n sha256 row
unfolding has_status_key stamp_status
stamp_status-key n sha256 now TransferState.check_created row = refl
stamp_status-key n sha256 now _ row = refl

change_status-key :
    (n sha256 : Text) (now : ℕ) (t : Transfer) (row : FirmwareStatusRow)
    → has_status_key n sha256 (change_status now t row) ≡ has_status_key n sha256 row
unfolding has_status_key change_status
change_status-key n sha256 now t row = refl

new_status-first :
    (now : ℕ) (n sha256 : Text) (t : Transfer) (rows : List FirmwareStatusRow)
    → find_first (has_status_key n sha256) (new_status now n sha256 t ∷ rows)
      ≡ some (new_status now n sha256 t)
unfolding find_first has_status_key new_status
new_status-first now n sha256 t rows = rw (text_eq_refl n, text_eq_refl sha256)

-- The row before the stamp: the one there was, changed, or a new one.
unfoldable pub written_status :
    ℕ → Text → Text → Transfer → Option FirmwareStatusRow → FirmwareStatusRow
written_status now n sha256 t none = new_status now n sha256 t
written_status now n sha256 t (some row) = change_status now t row

upsert_status-row :
    (now : ℕ) (n sha256 : Text) (t : Transfer) (rows : List FirmwareStatusRow)
    → find_first (has_status_key n sha256) (upsert_status now n sha256 t rows)
      ≡ some (written_status now n sha256 t (find_first (has_status_key n sha256) rows))
unfolding upsert_status written_status
upsert_status-row now n sha256 t rows =
    elim (Option-cases (find_first (has_status_key n sha256) rows)) [
      | inl new ↦ rw new (new_status-first now n sha256 t rows)
      | inr (row, found) ↦ rw found (
          find_first-update (has_status_key n sha256) (has_status_key n sha256)
            (change_status now t) rows (change_status-key n sha256 now t)
          ∙ (rw (found, find_first_sound (has_status_key n sha256) rows row found)))
    ]

-- The row after the call.
pub status_row-firmware_device_state :
    (now : ℕ) (n sha256 : Text) (t : Transfer) (db : Db)
    → status_row n sha256 (firmware_device_state now n sha256 t db)
      ≡ some (stamp_status now t.state (written_status now n sha256 t (status_row n sha256 db)))
unfolding firmware_device_state
status_row-firmware_device_state now n sha256 t db =
    let upserted = upsert_status-row now n sha256 t db.device_firmware_status in
    find_first-update (has_status_key n sha256) (has_status_key n sha256) (stamp_status now t.state)
      (upsert_status now n sha256 t db.device_firmware_status)
      (stamp_status-key n sha256 now t.state)
    ∙ (rw (upserted, find_first_sound (has_status_key n sha256) _ _ upserted))

pub stamped_state :
    (now : ℕ) (n sha256 : Text) (t : Transfer) (old : Option FirmwareStatusRow)
    → (stamp_status now t.state (written_status now n sha256 t old)).state ≡ t.state
unfolding stamp_status written_status new_status change_status
stamped_state now n sha256 t none = ground arith
stamped_state now n sha256 t (some row) = ground arith
