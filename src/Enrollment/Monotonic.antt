-- ===== src/Enrollment/Monotonic.antt =====
-- The counter and the key of a device over several calls of `validate_device_enrollment`.
use ota_server.Base.{
  ℕ, Text, ◌≡◌, ◌≤◌, refl, sym, ap, ◌∙◌, ◌≢◌, none, some, true, text_eq_refl, find_first,
  find_first-update, Option-cases, Bool-cases, inl, inr, arith, subst, find_first_sound, List, ◌∷◌,
}
use ota_server.Base.Result.{Result, ok, err}
use ota_server.Db.{Db, DeviceRow, DeviceState}
use ota_server.Enrollment.{EnrollError, not_monotonic, Enrollment}
use ota_server.Enrollment.Server.{
  has_device, new_device, upsert_device, enrolled, enrollment_state, is_old_counter,
  store_enrollment,
}

first_device :
    (n : Text) (new : DeviceRow) (rows : List DeviceRow)
    → has_device n new ≡ true
    → find_first (has_device n) (new ∷ rows) ≡ some new
unfolding find_first
first_device n new rows is_new = rw is_new refl

upsert_device-found :
    (n : Text) (new : DeviceRow) (change : DeviceRow → DeviceRow) (db : Db)
    → has_device n new ≡ true
    → ((row : DeviceRow) → has_device n (change row) ≡ has_device n row)
    → find_first (has_device n) (upsert_device n new change db).devices
      ≡ elim (find_first (has_device n) db.devices) [
        | none ↦ some new
        | some row ↦ some (change row)
      ]
unfolding upsert_device
upsert_device-found n new change db is_new keeps =
    elim (Option-cases (find_first (has_device n) db.devices)) [
      | inl missing ↦ rw missing (first_device n new db.devices is_new)
      | inr (row, found) ↦ rw found (
          find_first-update (has_device n) (has_device n) change db.devices keeps
          ∙ rw (found, find_first_sound (has_device n) db.devices row found) refl)
    ]

stored :
    (now : ℕ) (fields : Enrollment) (key fingerprint : Text) (db db' : Db) (state : DeviceState)
    → store_enrollment now fields key fingerprint db ≡ (ok state, db')
    → (was : DeviceState) × (upsert_device fields.device_id
          (enrolled now fields key fingerprint was (new_device now fields.device_id was none))
          (enrolled now fields key fingerprint was)
          db
        ≡ db')
unfolding store_enrollment
stored now fields key fingerprint db db' state h =
    let row = find_first (has_device fields.device_id) db.devices in
    elim (Bool-cases (is_old_counter fields.enrollment_counter row)) [
      | inl old ↦ absurd (
          not_ok (
            ap (λ (r : Result EnrollError DeviceState × Db). r.0)
              (rw (old, store_enrollment) at h)))
      | inr fresh ↦ (
        enrollment_state fingerprint row,
        ap (λ (r : Result EnrollError DeviceState × Db). r.1) (rw (fresh, store_enrollment) at h),
      )
    ]
  where
    not_ok : err not_monotonic ≢ ok state
    not_ok e = cc

-- The row of the device after an enrollment.
stored_row :
    (now : ℕ) (fields : Enrollment) (key fingerprint : Text) (db db' : Db) (state : DeviceState)
    → store_enrollment now fields key fingerprint db ≡ (ok state, db')
    → (row : DeviceRow) × (find_first (has_device fields.device_id) db'.devices ≡ some row)
      × (row.enrollment_counter ≡ fields.enrollment_counter)
      × (row.device_public_key_fingerprint ≡ some fingerprint)
unfolding enrolled new_device has_device
stored_row now fields key fingerprint db db' state h =
    let (was, e) = stored now fields key fingerprint db db' state h in
    let change = enrolled now fields key fingerprint was in
    let new = change (new_device now fields.device_id was none) in
    let found =
      ap (λ d. find_first (has_device fields.device_id) (Db.devices d)) (sym e)
      ∙ upsert_device-found fields.device_id new change db (text_eq_refl fields.device_id)
          (λ row. refl) in
    elim (Option-cases (find_first (has_device fields.device_id) db.devices)) [
      | inl missing ↦ (new, found ∙ rw missing refl, refl, refl)
      | inr (row, there) ↦ (change row, found ∙ rw there refl, refl, refl)
    ]

-- After an enrollment was stored, the same enrollment or one with a smaller counter is refused for that
-- device and changes nothing.
pub store_enrollment_replay :
    (now now' : ℕ) (fields fields' : Enrollment) (key key' fingerprint fingerprint' : Text)
    (db db' : Db) (state : DeviceState)
    → store_enrollment now fields key fingerprint db ≡ (ok state, db')
    → fields'.device_id ≡ fields.device_id
    → fields'.enrollment_counter ≤ fields.enrollment_counter
    → store_enrollment now' fields' key' fingerprint' db' ≡ (err not_monotonic, db')
unfolding store_enrollment is_old_counter
store_enrollment_replay now now' fields fields' key key' fingerprint fingerprint' db db' state h
      same le =
    let (row, found, counter, kept) = stored_row now fields key fingerprint db db' state h in
    let found' = subst (λ n. find_first (has_device n) db'.devices ≡ some row) (sym same) found in
    rw (found', store_enrollment) (ground (arith, le, counter))
