-- ===== src/Https/Confirmed.antt =====
-- From a completed HTTPS transfer to the device's F frame: `copyfile` of server_mysql.py, the status
-- row, and `confirm_completed_download_b64` of ota_check_security.py.
use ota_server.Base.{
  ℕ, ◌<◌, ◌≡◌, refl, ap, sym, ◌∙◌, Text, codes, none, some, List, [], ◌∷◌, Bool, true, false, map,
  lower, length, text_eq, text_eq→eq, starts_with, arith, Bool-cases, inl, inr, if◌then◌else◌,
  find_first, find_first-update,
}
use mathlib.Core.Path.{fun_ext}
use mathlib.Core.Option.{some-injective}
use ota_server.Db.{Db, ImageRow, GrantRow, FirmwareStatusRow, TransferState}
use ota_server.Encoding.{b64u_decode}
use ota_server.Ident.{normalize_device_id}
use ota_server.Ident.Canonical.{normalize_device_id_stable}
use ota_server.Registry.{or_empty}
use ota_server.Activity.{has_status_key, stamp_status, Transfer}
use ota_server.Activity.Firmware.{
  status_row, written_status, status_row-firmware_device_state, stamped_state,
}
use ota_server.Grants.Tokens.{hash_token}
use ota_server.Grants.Downloads.{
  dispatch_match, consume, consume_where, joins, join_status, confirm_match, confirmed,
  confirm_completed_download_b64,
}
use ota_server.Grants.OneTime.{dispatch_by_id}
use ota_server.Https.{
  Env, Request, Opened, Download, Turn, sending, token_of, record_state, copy_blocks, record_copy,
  consume_copy, finish_get, completed,
}
use ota_server.Https.Downloads.{finish_get-sending, record_state-SameFiles}
use ota_server.Https.Transfers.{consume_copy-completed, no_identity}

-- `record_state` leaves the state that it was called with.
record_state-row :
    (now : ℕ) (download : Download) (state : TransferState) (failed : Bool) (n : Text) (db : Db)
    → normalize_device_id download.activity_device_id ≡ some n
    → (row : FirmwareStatusRow) × (status_row n
          (map lower download.activity_image.sha256)
          (record_state now download state failed db)
        ≡ some row)
      × (row.state ≡ state)
unfolding record_state
record_state-row now download state failed n db e =
    let sha256 = map lower download.activity_image.sha256 in
    let t : Transfer = record {
      filename = download.activity_image.filename;
      version =
          if text_eq download.activity_image.version []
          then codes "unknown"
          else download.activity_image.version;
      code = some download.activity_code;
      state = state;
      token_expires_at = none;
      failed = failed;
    } in
    (
      stamp_status now state (written_status now n sha256 t (status_row n sha256 db)),
      rw (e, record_state) (status_row-firmware_device_state now n sha256 t db),
      stamped_state now n sha256 t (status_row n sha256 db),
    )

join_status-first :
    (match : GrantRow → Bool) (statuses : List FirmwareStatusRow) (grants : List GrantRow)
    (g : GrantRow) (s : FirmwareStatusRow)
    → find_first match grants ≡ some g
    → find_first (joins g) statuses ≡ some s
    → join_status match statuses grants ≡ some (g, s)
unfolding join_status find_first
join_status-first match statuses [] g s h k = cc
join_status-first match statuses (x ∷ grants) g s h k = elim (Bool-cases (match x)) [
  | inl here ↦
      let same : x ≡ g = some-injective x g (rw here at h) in
      let there = ap (λ r. find_first (joins r) statuses) same ∙ k in
      rw (here, join_status, there) (ap (λ r. some (r, s)) same)
  | inr other ↦
      rw (other, join_status) (join_status-first match statuses grants g s (rw other at h) k)
]

-- The fields that the statement of `consume_dispatch_token` compares.
dispatch_match-fields :
    (now : ℕ) (n sha256 h : Text) (g : GrantRow)
    → dispatch_match now n sha256 h g ≡ true
    → (g.device_id ≡ n) × (g.sha256 ≡ sha256)
unfolding dispatch_match
dispatch_match-fields now n sha256 h g m =
    (text_eq→eq g.device_id n (ground (arith, m)), text_eq→eq g.sha256 sha256 (ground (arith, m)))

confirm_match-consume :
    (now : ℕ) (n random : Text) (g : GrantRow)
    → confirm_match n random (consume now g) ≡ confirm_match n random g
unfolding confirm_match consume
confirm_match-consume now n random g = refl

-- The grant of the random bytes after it was consumed.
consumed_grant :
    (now : ℕ) (n sha256 h random : Text) (db : Db) (g : GrantRow)
    → dispatch_match now n sha256 h g ≡ true
    → find_first (confirm_match n random) db.download_grants ≡ some g
    → find_first
        (confirm_match n random)
        (consume_where now (dispatch_match now n sha256 h) db).1.download_grants
      ≡ some (consume now g)
unfolding consume_where
consumed_grant now n sha256 h random db g m found =
    find_first-update (confirm_match n random) (dispatch_match now n sha256 h) (consume now)
      db.download_grants (confirm_match-consume now n random)
    ∙ (rw (found, m))

joins-status_key :
    (now : ℕ) (n sha256 h : Text) (g : GrantRow) (s : FirmwareStatusRow)
    → g.device_id ≡ n
    → g.sha256 ≡ sha256
    → joins (consume now g) s ≡ has_status_key n sha256 s
unfolding joins consume has_status_key
joins-status_key now n sha256 h g s e e' = rw (e, e')

confirmed-consumed :
    (now : ℕ) (g : GrantRow) (s : FirmwareStatusRow)
    → 0 < now
    → s.state ≡ TransferState.download_completed
    → confirmed (some (consume now g, s)) ≡ some (consume now g, s)
unfolding confirmed consume
confirmed-consumed now g s h e = rw e (ground (arith, h))

confirm_by_random :
    (d n random random_b64 : Text) (db : Db)
    → normalize_device_id d ≡ some n
    → b64u_decode random_b64 ≡ some random
    → length random ≡ 8
    → confirm_completed_download_b64 d random_b64 db
      ≡ confirmed
          (join_status (confirm_match n random) db.device_firmware_status db.download_grants)
unfolding confirm_completed_download_b64
confirm_by_random d n random random_b64 db e decoded size =
    rw (e, decoded, size, confirm_completed_download_b64)

joined :
    (n sha256 h : Text) (now : ℕ) (g : GrantRow) (s : FirmwareStatusRow)
    (statuses : List FirmwareStatusRow)
    → g.device_id ≡ n
    → g.sha256 ≡ sha256
    → find_first (has_status_key n sha256) statuses ≡ some s
    → find_first (joins (consume now g)) statuses ≡ some s
joined n sha256 h now g s statuses e e' found =
    ap (λ p. find_first p statuses) (fun_ext (λ r. joins-status_key now n sha256 h g r e e'))
    ∙ found

-- When a transfer has completed while the grant of its token is open, the F frame of the device with the
-- random bytes of that grant is confirmed: `confirm_completed_download_b64` finds the grant, consumed at
-- the end of the transfer, with a status row in DOWNLOAD_COMPLETED. The newest grant with these bytes is
-- the one of the token, the clock is above 0, and the request's activity is that of this image.
pub finish_get-confirmed :
    (env : Env) (turns : ℕ → Turn) (now : ℕ) (request : Request) (opened : Opened)
    (download : Download) (image : ImageRow) (blocks : List Text) (n random random_b64 : Text)
    (g : GrantRow) (db : Db)
    → opened.answer ≡ sending image blocks
    → opened.download ≡ some download
    → download.activity_image ≡ image
    → normalize_device_id download.activity_device_id ≡ some n
    → normalize_device_id (or_empty request.device_id) ≡ some n
    → starts_with (codes "Bearer ") (or_empty request.authorization) ≡ true
    → text_eq image.sha256 [] ≡ false
    → (copy_blocks turns 0 blocks).0 ≡ completed
    → dispatch_match now n
        (map lower image.sha256)
        (hash_token env.crypto (token_of (or_empty request.authorization)))
        g
      ≡ true
    → find_first (confirm_match n random) db.download_grants ≡ some g
    → b64u_decode random_b64 ≡ some random
    → length random ≡ 8
    → 0 < now
    → (s : FirmwareStatusRow) × (confirm_completed_download_b64 n random_b64
          (finish_get env turns now request opened db)
        ≡ some (consume now g, s))
      × (s.state ≡ TransferState.download_completed)
unfolding record_copy consume_where
finish_get-confirmed env turns now request opened download image blocks n random random_b64 g db
      sent noted same_image id id' bearer hash whole matched newest decoded size clock =
    let t = token_of (or_empty request.authorization) in
    let h = hash_token env.crypto t in
    let d = or_empty request.device_id in
    let sha256 = map lower image.sha256 in
    let db1 = record_state now download TransferState.download_completed false db in
    let used = (consume_where now (dispatch_match now n sha256 h) db1).1 in
    let after : finish_get env turns now request opened db ≡ used =
      finish_get-sending env turns now request opened image blocks db sent
      ∙ ap (λ c. consume_copy env now request image c (record_copy now opened.download c db)) whole
      ∙ ap (λ o. consume_copy env now request image completed (record_copy now o completed db))
          noted
      ∙ consume_copy-completed env now request image db1 hash bearer (no_identity d n id')
      ∙ ap (λ (r : Bool × Db). r.1) (dispatch_by_id env.crypto now t d n image.sha256 db1 id') in
    let (s, there, done) =
      record_state-row now download TransferState.download_completed false n db id in
    let (same_id, same_hash) = dispatch_match-fields now n sha256 h g matched in
    let consumed = consumed_grant now n sha256 h random db1 g matched (
      ap (find_first (confirm_match n random))
        (record_state-SameFiles now download TransferState.download_completed false db).grants
      ∙ newest) in
    let stable = (normalize_device_id_stable d n id').0 in
    let pair =
      join_status-first (confirm_match n random) used.device_firmware_status used.download_grants
        (consume now g) s consumed
        (joined n sha256 h now g s db1.device_firmware_status same_id same_hash (
          ap (λ (i : ImageRow). status_row n (map lower i.sha256) db1) (sym same_image) ∙ there)) in
    (
      s,
      rw after (
          confirm_by_random n n random random_b64 used stable decoded size
          ∙ ap confirmed pair
          ∙ confirmed-consumed now g s clock done),
      done,
    )
