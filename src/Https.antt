-- ===== src/Https.antt =====
-- The HTTPS download of server.py and server_mysql.py: `OTAHandler.do_GET` under
-- `SecureOTAHandler.do_GET`, and `SecureOTAHandler.copyfile`. A request is two steps, the answer up to
-- the headers and the transfer, so that the steps of several requests can be interleaved. What the
-- standard library's file handler does is a parameter. The attributes of the handler are those of one
-- request, since the server speaks HTTP/1.0. Log lines are left out.
pub mod Downloads
pub mod Transfers
pub mod Confirmed
use ota_server.Base.{
  ℕ, suc, ◌+◌, Text, codes, Option, none, some, List, [], ◌∷◌, ◌++◌, map, Bool, true, false, ◌&&◌,
  not, ◌==◌, if◌then◌else◌, text_eq, starts_with, drop, strip, lower,
}
use ota_server.Crypto.{Crypto}
use ota_server.Db.{Db, ImageRow, TransferState}
use ota_server.Ident.{normalize_device_id}
use ota_server.Registry.{or_empty}
use ota_server.Activity.{firmware_device_state, Transfer}
use ota_server.Grants.Downloads.{validate_download_token, consume_dispatch_token}
use ota_server.Firmware.{resolve_image_code}

pub record Request : Type 0 where
  pub path : Text
  -- The headers Authorization and X-Device-ID.
  pub authorization : Option Text
  pub device_id : Option Text

-- One turn of the transfer's loop, or its final flush: done, ended by BrokenPipeError or
-- ConnectionResetError, or by another exception.
pub data Turn : Type 0 where
  done broken raised : Turn

pub record Env : Type 0 where
  pub crypto : Crypto
  -- urllib.parse.urlparse(path).path
  pub url_path : Text → Text
  -- os.path.isfile(os.path.join(FIRMWARE_DIR, filename))
  pub is_file : Text → Bool
  -- SimpleHTTPRequestHandler.send_head: the blocks of the file; `none` where it answers without a body
  pub send_head : Text → Option (List Text)

-- os.path.basename
unfoldable pub basename_from : Text → Text → Text
basename_from name [] = name
basename_from name (c ∷ s) = basename_from (if c == b'/' then [] else name ++ (c ∷ [])) s

unfoldable pub code_of : Env → Request → Text
unfolding basename_from
code_of env request = basename_from [] (env.url_path request.path)

-- `auth[7:].strip()`
unfoldable pub token_of : Text → Text
token_of auth = strip (drop 7 auth)

-- `validate_dispatch_token`, which server_mysql.py puts in the place of `ota_validate_token`.
unfoldable pub validate_dispatch_token : Crypto → ℕ → Text → Text → Text → Text → Db → Bool
validate_dispatch_token crypto now token code device_id sha256_hex db =
    validate_download_token crypto now token code device_id sha256_hex db

-- The attributes that `SecureOTAHandler.do_GET` sets.
pub record Download : Type 0 where
  pub activity_device_id : Text
  pub activity_image : ImageRow
  pub activity_code : Text

-- `firmware_device_state`, which raises where the identity is none; the callers' tokens were valid.
unfoldable pub record_state : ℕ → Download → TransferState → Bool → Db → Db
record_state now download state failed db = elim (normalize_device_id download.activity_device_id) [
  | none ↦ db
  | some n ↦
      firmware_device_state now n (map lower download.activity_image.sha256)
        (record {
          filename = download.activity_image.filename;
          version =
              if text_eq download.activity_image.version []
              then codes "unknown"
              else download.activity_image.version;
          code = some download.activity_code;
          state = state;
          token_expires_at = none;
          failed = failed;
        })
        db
]

abbrev pub may_download : Env → ℕ → Request → ImageRow → Db → Bool
may_download env now request image db =
    starts_with (codes "Bearer ") (or_empty request.authorization)
    && not (text_eq (or_empty request.device_id) [])
    && validate_dispatch_token env.crypto now (token_of (or_empty request.authorization))
        (code_of env request) (or_empty request.device_id) image.sha256 db

-- `SecureOTAHandler.do_GET`, up to the call of its parent.
unfoldable pub note_image : Env → ℕ → Request → ImageRow → Db → Option Download × Db
unfolding record_state validate_dispatch_token
note_image env now request image db =
    let download : Download = record {
      activity_device_id = or_empty request.device_id;
      activity_image = image;
      activity_code = code_of env request;
    } in
    if may_download env now request image db
    then (some download, record_state now download TransferState.download_started false db)
    else (none, db)

unfoldable pub note_start : Env → ℕ → Request → Db → Option Download × Db
unfolding note_image
note_start env now request db = elim (resolve_image_code (code_of env request) db) [
  | none ↦ (none, db)
  | some image ↦ note_image env now request image db
]

-- What the client gets: an error, headers alone, or the blocks of an image.
pub data Answer : Type 0 where
  not_found unauthorized headers_only : Answer
  sending : ImageRow → List Text → Answer

unfoldable pub serve_file : Env → ImageRow → Answer
serve_file env image =
    if not (env.is_file image.filename) then not_found else elim (env.send_head image.filename) [
      | none ↦ headers_only
      | some blocks ↦ sending image blocks
    ]

-- `OTAHandler.do_GET`
unfoldable pub base_get : Env → ℕ → Request → Db → Answer
unfolding serve_file validate_dispatch_token token_of
base_get env now request db = elim (resolve_image_code (code_of env request) db) [
  | none ↦ not_found
  | some image ↦
      if not (starts_with (codes "Bearer ") (or_empty request.authorization))
      then unauthorized
      else if text_eq (or_empty request.device_id) []
      then unauthorized
      else if not (
          validate_dispatch_token env.crypto now (token_of (or_empty request.authorization))
            (code_of env request) (or_empty request.device_id) image.sha256 db)
      then unauthorized
      else serve_file env image
]

-- A request whose answer has been decided, before the transfer.
pub record Opened : Type 0 where
  pub download : Option Download
  pub answer : Answer

-- `do_GET` up to the transfer; the two tests of the token may read two times.
unfoldable pub begin_get : Env → ℕ → ℕ → Request → Db → Opened × Db
unfolding note_start base_get
begin_get env started checked request db =
    let (download, db') = note_start env started request db in
    (record { download = download; answer = base_get env checked request db' }, db')

-- How a transfer ended.
pub data Copy : Type 0 where
  completed transfer_error exception : Copy

-- The loop of `copyfile` and its flush; the number counts the turns.
unfoldable pub copy_blocks : (ℕ → Turn) → ℕ → List Text → Copy × List Text
copy_blocks turns k [] = elim (turns k) [
  | done ↦ (completed, [])
  | broken ↦ (transfer_error, [])
  | raised ↦ (exception, [])
]
copy_blocks turns k (block ∷ blocks) =
    let (copy, sent) = copy_blocks turns (suc k) blocks in
    elim (turns k) [
      | done ↦ (copy, block ∷ sent)
      | broken ↦ (transfer_error, [])
      | raised ↦ (exception, [])
    ]

unfoldable pub record_copy : ℕ → Option Download → Copy → Db → Db
record_copy now none copy db = db
record_copy now (some download) completed db =
    record_state now download TransferState.download_completed false db
record_copy now (some download) transfer_error db =
    record_state now download TransferState.download_failed true db
record_copy now (some download) exception db = db

-- The end of `copyfile`: a completed transfer consumes the grant.
unfoldable pub consume_copy : Env → ℕ → Request → ImageRow → Copy → Db → Db
consume_copy env now request image completed db =
    if not (text_eq image.sha256 [])
      && starts_with (codes "Bearer ") (or_empty request.authorization)
      && not (text_eq (or_empty request.device_id) [])
    then (consume_dispatch_token env.crypto now (token_of (or_empty request.authorization))
        (or_empty request.device_id) image.sha256 db).1
    else db
consume_copy env now request image transfer_error db = db
consume_copy env now request image exception db = db

-- `copyfile` of an open request.
unfoldable pub finish_get : Env → (ℕ → Turn) → ℕ → Request → Opened → Db → Db
unfolding copy_blocks record_copy consume_copy
finish_get env turns now request opened db = elim opened.answer [
  | not_found ↦ db
  | unauthorized ↦ db
  | headers_only ↦ db
  | sending image blocks ↦
      let copy = (copy_blocks turns 0 blocks).0 in
      consume_copy env now request image copy (record_copy now opened.download copy db)
]
