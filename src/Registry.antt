-- ===== src/Registry.antt =====
-- device_registry.py, and the provisioning context of ota_check_security.py: the table of device
-- certificates, with the counters that stop replays. A call whose `normalize_device_id` raises
-- returns `err bad_device_id`; each `with db_connect()` block is one update of the table.
pub mod Counters
pub mod Calls
pub mod Replay
pub mod Certificates
pub mod Renewal
pub mod Status
pub mod Refinement
use ota_server.Base.{
  ℕ, ◌≤◌, Text, ℤ, pos, negsuc, Option, none, some, List, [], ◌∷◌, Bool, true, false, ◌&&◌, ◌||◌,
  ◌==◌, ltb, leb, if◌then◌else◌, text_eq, find_first, update_where, count_where, length, is_some,
  not, codes,
}
use ota_server.Base.Result.{Result, ok, err}
use ota_server.Db.{Db, CertRow}
use ota_server.Ident.{normalize_device_id}

-- The exceptions of these modules.
pub data Error : Type 0 where
  bad_device_id not_registered invalid_context no_context duplicate_fingerprint : Error

-- WHERE device_id=?
unfoldable pub has_id : Text → CertRow → Bool
has_id n row = text_eq row.device_id n

unfoldable pub find_cert : Text → Db → Option CertRow
unfolding has_id
find_cert n db = find_first (has_id n) db.device_certificates

-- UPDATE device_certificates SET … WHERE …; the row count and the new database.
unfoldable pub update_certs : (CertRow → Bool) → (CertRow → CertRow) → Db → ℕ × Db
update_certs match change db = (
  count_where match db.device_certificates,
  record db { device_certificates = update_where match change db.device_certificates },
)

unfoldable pub get_registered_device : Text → Db → Result Error (Option CertRow)
unfolding find_cert
get_registered_device device_id db = elim (normalize_device_id device_id) [
  | none ↦ err bad_device_id
  | some n ↦ ok (find_cert n db)
]

-- WHERE device_id=? AND last_hello_counter < ?
unfoldable pub hello_match : Text → ℕ → CertRow → Bool
unfolding has_id
hello_match n counter row = has_id n row && ltb row.last_hello_counter counter

unfoldable pub hello_set : ℕ → ℕ → CertRow → CertRow
hello_set now counter row = record row { last_hello_counter = counter; updated_at = now }

unfoldable pub update_hello : ℕ → Text → ℤ → Db → Bool × Db
unfolding hello_match hello_set update_certs
update_hello now n (negsuc _) db = (false, db)
update_hello now n (pos counter) db =
    if counter == 0
    then (false, db)
    else let (rowcount, db') = update_certs (hello_match n counter) (hello_set now counter) db in
      (rowcount == 1, db')

unfoldable pub accept_hello_counter : ℕ → Text → ℤ → Db → Result Error Bool × Db
unfolding update_hello
accept_hello_counter now device_id counter db = elim (normalize_device_id device_id) [
  | none ↦ (err bad_device_id, db)
  | some n ↦ let (accepted, db') = update_hello now n counter db in (ok accepted, db')
]

-- WHERE device_id=? AND last_status_counter < ?
unfoldable pub status_match : Text → ℕ → CertRow → Bool
unfolding has_id
status_match n counter row = has_id n row && ltb row.last_status_counter counter

unfoldable pub status_set : ℕ → ℕ → Text → CertRow → CertRow
status_set now counter version row = record row {
  last_status_counter = counter;
  running_firmware_version = version;
  last_status_at = now;
  updated_at = now;
}

unfoldable pub update_status : ℕ → Text → ℤ → Text → Db → Bool × Db
unfolding status_match status_set update_certs
update_status now n (negsuc _) version db = (false, db)
update_status now n (pos counter) version db =
    if counter == 0 || text_eq version []
    then (false, db)
    else let (rowcount, db') =
        update_certs (status_match n counter) (status_set now counter version) db in
      (rowcount == 1, db')

unfoldable pub accept_status_counter : ℕ → Text → ℤ → Text → Db → Result Error Bool × Db
unfolding update_status
accept_status_counter now device_id counter version db = elim (normalize_device_id device_id) [
  | none ↦ (err bad_device_id, db)
  | some n ↦ let (accepted, db') = update_status now n counter version db in (ok accepted, db')
]

unfoldable pub context_set : ℕ → ℕ → Text → CertRow → CertRow
context_set now counter random8 row = record row {
  provision_counter = counter;
  provision_random = some random8;
  provision_context_updated_at = some now;
  updated_at = now;
}

-- `save_provisioning_context`; an update that matches no row raises, and is rolled back.
unfoldable pub save_provisioning_context : ℕ → Text → ℕ → Text → Db → Result Error (Unit {0}) × Db
unfolding context_set update_certs has_id
save_provisioning_context now device_id counter random8 db =
    if counter == 0 || not (length random8 == 8)
    then (err invalid_context, db)
    else elim (normalize_device_id device_id) [
      | none ↦ (err bad_device_id, db)
      | some n ↦
          let (rowcount, db') = update_certs (has_id n) (context_set now counter random8) db in
          if rowcount == 1 then (ok tt, db') else (err not_registered, db)
    ]

-- `bytes(row["provision_random"] or b"")`
abbrev pub or_empty : Option Text → Text
or_empty none = []
or_empty (some t) = t

unfoldable pub context_of : Option CertRow → Result Error CertRow
context_of none = err not_registered
context_of (some row) =
    if row.provision_counter == 0 || not (length (or_empty row.provision_random) == 8)
    then err no_context
    else ok row

-- `load_provisioning_context`: the registered row of a device that completed provisioning.
unfoldable pub load_provisioning_context : Text → Db → Result Error CertRow
unfolding context_of find_cert
load_provisioning_context device_id db = elim (normalize_device_id device_id) [
  | none ↦ err bad_device_id
  | some n ↦ context_of (find_cert n db)
]
