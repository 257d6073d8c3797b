-- ===== src/Grants/Downloads.antt =====
-- The use of a grant: `validate_download_token`, `consume_download_grant` and
-- `confirm_completed_download_b64` of ota_check_security.py, and `consume_dispatch_token` of
-- ota_check_runtime.py.
use ota_server.Base.{
  ℕ, Text, Option, none, some, List, [], ◌∷◌, map, Bool, true, false, ◌&&◌, not, ◌==◌, leb,
  if◌then◌else◌, text_eq, find_first, update_where, count_where, length, is_some, lower,
}
use ota_server.Crypto.{Crypto}
use ota_server.Db.{Db, GrantRow, FirmwareStatusRow, TransferState, download_completed}
use ota_server.Encoding.{b64u_decode}
use ota_server.Ident.{normalize_device_id}
use ota_server.Grants.Tokens.{hash_token}

-- consumed_at IS NULL AND expires_at>=?
unfoldable pub is_open : ℕ → GrantRow → Bool
is_open now row = not (is_some row.consumed_at) && leb now row.expires_at

-- WHERE device_id=? AND code=? AND sha256=? AND token_hash=? AND consumed_at IS NULL AND …
unfoldable pub download_match : ℕ → Text → Text → Text → Text → GrantRow → Bool
unfolding is_open
download_match now n code sha256_hex token_hash row =
    text_eq row.device_id n
    && text_eq row.code code
    && text_eq row.sha256 sha256_hex
    && text_eq row.token_hash token_hash
    && is_open now row

unfoldable pub validate_download_token : Crypto → ℕ → Text → Text → Text → Text → Db → Bool
unfolding download_match hash_token
validate_download_token crypto now token code device_id sha256_hex db =
    elim (normalize_device_id device_id) [
      | none ↦ false
      | some n ↦ is_some (
          find_first (download_match now n code (map lower sha256_hex) (hash_token crypto token))
            db.download_grants)
    ]

unfoldable pub consume : ℕ → GrantRow → GrantRow
consume now row = record row { consumed_at = some now }

-- UPDATE download_grants SET consumed_at=? WHERE …; `rowcount == 1`.
unfoldable pub consume_where : ℕ → (GrantRow → Bool) → Db → Bool × Db
unfolding consume
consume_where now match db = (
  count_where match db.download_grants == 1,
  record db { download_grants = update_where match (consume now) db.download_grants },
)

-- WHERE device_id=? AND grant_random=? AND consumed_at IS NULL AND expires_at>=?
unfoldable pub random_match : ℕ → Text → Text → GrantRow → Bool
unfolding is_open
random_match now n grant_random row =
    text_eq row.device_id n && text_eq row.grant_random grant_random && is_open now row

unfoldable pub consume_download_grant : ℕ → Text → Text → Db → Bool × Db
unfolding random_match consume_where
consume_download_grant now device_id grant_random db =
    if not (length grant_random == 8) then (false, db) else elim (normalize_device_id device_id) [
      | none ↦ (false, db)
      | some n ↦ consume_where now (random_match now n grant_random) db
    ]

unfoldable pub consume_download_grant_b64 : ℕ → Text → Text → Db → Bool × Db
unfolding consume_download_grant
consume_download_grant_b64 now device_id grant_random_b64 db = elim (b64u_decode grant_random_b64) [
  | none ↦ (false, db)
  | some grant_random ↦ consume_download_grant now device_id grant_random db
]

-- WHERE device_id=? AND sha256=? AND token_hash=? AND consumed_at IS NULL AND expires_at>=?
unfoldable pub dispatch_match : ℕ → Text → Text → Text → GrantRow → Bool
unfolding is_open
dispatch_match now n sha256_hex token_hash row =
    text_eq row.device_id n
    && text_eq row.sha256 sha256_hex
    && text_eq row.token_hash token_hash
    && is_open now row

unfoldable pub consume_dispatch_token : Crypto → ℕ → Text → Text → Text → Db → Bool × Db
unfolding dispatch_match consume_where hash_token
consume_dispatch_token crypto now token device_id sha256_hex db =
    elim (normalize_device_id device_id) [
      | none ↦ (false, db)
      | some n ↦
          consume_where now (dispatch_match now n (map lower sha256_hex) (hash_token crypto token))
            db
    ]

-- ON s.device_id=g.device_id AND s.firmware_sha256=g.sha256
unfoldable pub joins : GrantRow → FirmwareStatusRow → Bool
joins g s = text_eq s.device_id g.device_id && text_eq s.firmware_sha256 g.sha256

-- The first grant, newest first, that matches and has a status row; the status is unique by its key.
unfoldable pub join_status :
    (GrantRow → Bool)
    → List FirmwareStatusRow
    → List GrantRow
    → Option (GrantRow × FirmwareStatusRow)
unfolding joins
join_status match statuses [] = none
join_status match statuses (g ∷ grants) =
    let rest = join_status match statuses grants in
    elim (match g) [
      | false ↦ rest
      | true ↦ elim (find_first (joins g) statuses) [ none ↦ rest | some s ↦ some (g, s) ]
    ]

abbrev pub is_download_completed : TransferState → Bool
is_download_completed download_completed = true
is_download_completed _ = false

-- WHERE g.device_id=? AND g.grant_random=?
unfoldable pub confirm_match : Text → Text → GrantRow → Bool
confirm_match n grant_random g = text_eq g.device_id n && text_eq g.grant_random grant_random

-- The truth value of a nullable number.
abbrev pub is_truthy : Option ℕ → Bool
is_truthy none = false
is_truthy (some n) = not (n == 0)

unfoldable pub confirmed :
    Option (GrantRow × FirmwareStatusRow) → Option (GrantRow × FirmwareStatusRow)
confirmed none = none
confirmed (some (g, s)) =
    if is_truthy g.consumed_at && is_download_completed s.state then some (g, s) else none

unfoldable pub confirm_completed_download_b64 :
    Text → Text → Db → Option (GrantRow × FirmwareStatusRow)
unfolding confirmed join_status confirm_match
confirm_completed_download_b64 device_id grant_random_b64 db =
    elim (normalize_device_id device_id) [
      | none ↦ none
      | some n ↦ elim (b64u_decode grant_random_b64) [
        | none ↦ none
        | some grant_random ↦
            if not (length grant_random == 8)
            then none
            else confirmed (
                join_status (confirm_match n grant_random) db.device_firmware_status
                  db.download_grants)
      ]
    ]
