-- ===== src/Registry/Status.antt =====
-- The status counter in the table of certificates: when `accept_status_counter` of device_registry.py
-- accepts, and what the row holds then.
use ota_server.Base.{
  ℕ, ◌≡◌, refl, sym, ◌∙◌, ap, Text, pos, Option, none, some, [], Bool, true, false, ◌&&◌, ◌||◌, not,
  ◌==◌, ltb, if◌then◌else◌, count_where, arith, count-guarded, find_first-update, count-update,
  update-none, find_first_sound, text_eq,
}
use ota_server.Base.Result.{Result, ok, ok-injective}
use ota_server.Db.{Db, CertRow}
use ota_server.Ident.{normalize_device_id}
use ota_server.Registry.{
  Error, has_id, find_cert, status_match, status_set, update_status, accept_status_counter,
}
use ota_server.Registry.Counters.{HasUniqueIds}

abbrev pub is_fresh_status : ℕ → Option CertRow → Bool
is_fresh_status counter none = false
is_fresh_status counter (some row) = ltb row.last_status_counter counter

-- What the table says of a status: the counter is above 0 and above the last one, and there is a
-- version.
abbrev pub takes_status : ℕ → Text → Option CertRow → Bool
takes_status counter version row =
    not (counter == 0 || text_eq version []) && is_fresh_status counter row

count-status_match :
    (db : Db) (n : Text) (counter : ℕ)
    → HasUniqueIds db
    → count_where (status_match n counter) db.device_certificates
      ≡ (if is_fresh_status counter (find_cert n db) then 1 else 0)
unfolding status_match find_cert
count-status_match db n counter unique = ground (
  arith,
  count-guarded (has_id n) (λ row. ltb row.last_status_counter counter) db.device_certificates
      (unique n),
)

update_status-accepted :
    (now : ℕ) (n : Text) (counter : ℕ) (version : Text) (db : Db)
    → HasUniqueIds db
    → (update_status now n (pos counter) version db).0
      ≡ takes_status counter version (find_cert n db)
unfolding update_status
update_status-accepted now n counter version db unique =
    ground (arith, count-status_match db n counter unique)

update_status-refused :
    (now : ℕ) (n : Text) (counter : ℕ) (version : Text) (db : Db)
    → HasUniqueIds db
    → takes_status counter version (find_cert n db) ≡ false
    → update_status now n (pos counter) version db ≡ (false, db)
unfolding update_status
update_status-refused now n counter version db unique stale = ground (
  arith,
  count-status_match db n counter unique,
  update-none (status_match n counter) (status_set now counter version) db.device_certificates,
)

-- The row of the device after an accepted status.
find_cert-update_status :
    (now : ℕ) (n : Text) (counter : ℕ) (version : Text) (db : Db) (row : CertRow)
    → find_cert n db ≡ some row
    → takes_status counter version (some row) ≡ true
    → find_cert n (update_status now n (pos counter) version db).1
      ≡ some (status_set now counter version row)
unfolding update_status find_cert status_match has_id
find_cert-update_status now n counter version db row found taken = ground (
  arith,
  found,
  taken,
  find_first_sound (has_id n) db.device_certificates row found,
  find_first-update (has_id n) (status_match n counter) (status_set now counter version)
      db.device_certificates (λ r. refl),
)

update_status-HasUniqueIds :
    (now : ℕ) (n : Text) (counter : ℕ) (version : Text) (db : Db)
    → HasUniqueIds db
    → HasUniqueIds (update_status now n (pos counter) version db).1
unfolding update_status has_id
update_status-HasUniqueIds now n counter version db unique m = ground (
  arith,
  unique m,
  count-update (has_id m) (status_match n counter) (status_set now counter version)
      db.device_certificates (λ row. refl),
)

pub accept_status_by_id :
    (now : ℕ) (n : Text) (counter : ℕ) (version : Text) (db : Db)
    → normalize_device_id n ≡ some n
    → accept_status_counter now n (pos counter) version db ≡ (
      ok (update_status now n (pos counter) version db).0,
      (update_status now n (pos counter) version db).1,
    )
unfolding accept_status_counter
accept_status_by_id now n counter version db normal = rw (normal, accept_status_counter)

-- Acceptance, and the row of the device after it.
pub accept_status_counter-accepted :
    (now : ℕ) (n : Text) (counter : ℕ) (version : Text) (db : Db) (row : CertRow)
    → HasUniqueIds db
    → normalize_device_id n ≡ some n
    → find_cert n db ≡ some row
    → (accept_status_counter now n (pos counter) version db).0 ≡ ok true
    → (takes_status counter version (some row) ≡ true)
      × (find_cert n (accept_status_counter now n (pos counter) version db).1
          ≡ some (status_set now counter version row))
accept_status_counter-accepted now n counter version db row unique normal found accepted =
    let by_id = accept_status_by_id now n counter version db normal in
    let was =
      ok-injective _ true (sym (ap (λ (r : Result Error Bool × Db). r.0) by_id) ∙ accepted) in
    let taken =
      sym (
        update_status-accepted now n counter version db unique
        ∙ ap (takes_status counter version) found)
      ∙ was in
    (taken, rw by_id (find_cert-update_status now n counter version db row found taken))

-- A status that is not taken leaves the database as it is.
pub accept_status_counter-refused :
    (now : ℕ) (n : Text) (counter : ℕ) (version : Text) (db : Db)
    → HasUniqueIds db
    → normalize_device_id n ≡ some n
    → takes_status counter version (find_cert n db) ≡ false
    → accept_status_counter now n (pos counter) version db ≡ (ok false, db)
accept_status_counter-refused now n counter version db unique normal stale =
    accept_status_by_id now n counter version db normal
    ∙ rw (update_status-refused now n counter version db unique stale)

pub accept_status_counter-HasUniqueIds :
    (now : ℕ) (n : Text) (counter : ℕ) (version : Text) (db : Db)
    → HasUniqueIds db
    → normalize_device_id n ≡ some n
    → HasUniqueIds (accept_status_counter now n (pos counter) version db).1
accept_status_counter-HasUniqueIds now n counter version db unique normal =
    rw (accept_status_by_id now n counter version db normal)
      (update_status-HasUniqueIds now n counter version db unique)
