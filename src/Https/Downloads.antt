-- ===== src/Https/Downloads.antt =====
-- What is sent over HTTPS, and to whom: `do_GET` beside the grants.
use ota_server.Base.{
  ℕ, ◌≡◌, ◌≢◌, refl, ap, sym, ◌∙◌, Text, codes, Option, none, some, List, [], Bool, true, false,
  ◌&&◌, not, if◌then◌else◌, text_eq, starts_with, arith, Option-cases, Bool-cases, inl, inr,
}
use ota_server.Db.{Db, ImageRow, TransferState}
use ota_server.Ident.{normalize_device_id}
use ota_server.Registry.{or_empty}
use ota_server.Activity.{firmware_device_state}
use ota_server.Grants.Downloads.{validate_download_token}
use ota_server.Grants.OneTime.{validate-same_grants}
use ota_server.Firmware.{resolve_image_code}
use ota_server.Https
use ota_server.Https.{
  Env, Request, Opened, Answer, Download, Copy, Turn, sending, unauthorized, may_download, code_of,
  token_of, validate_dispatch_token, record_state, note_image, note_start, base_get, serve_file,
  begin_get, copy_blocks, record_copy, consume_copy, finish_get, completed, transfer_error,
  exception,
}

-- The tables that a request reads.
pub record SameFiles (db db' : Db) : Type 0 where
  pub grants : db'.download_grants ≡ db.download_grants
  pub alias : db'.firmware_alias ≡ db.firmware_alias
  pub images : db'.firmware_images ≡ db.firmware_images

pub record_state-SameFiles :
    (now : ℕ) (download : Download) (state : TransferState) (failed : Bool) (db : Db)
    → SameFiles db (record_state now download state failed db)
unfolding record_state firmware_device_state
record_state-SameFiles now download state failed db =
    elim (Option-cases (normalize_device_id download.activity_device_id)) [
      | inl e ↦ rw (e, record_state) (record { grants = refl; alias = refl; images = refl })
      | inr (n, e) ↦ rw (e, record_state) (record { grants = refl; alias = refl; images = refl })
    ]

same_files : (db : Db) → SameFiles db db
same_files db = record { grants = refl; alias = refl; images = refl }

note_image-SameFiles :
    (env : Env) (now : ℕ) (request : Request) (image : ImageRow) (db : Db)
    → SameFiles db (note_image env now request image db).1
unfolding note_image
note_image-SameFiles env now request image db =
    let download : Download = record {
      activity_device_id = or_empty request.device_id;
      activity_image = image;
      activity_code = code_of env request;
    } in
    elim (Bool-cases (may_download env now request image db)) [
      | inl may ↦
          rw (may, note_image)
            (record_state-SameFiles now download TransferState.download_started false db)
      | inr not_may ↦ rw (not_may, note_image) (same_files db)
    ]

pub note_start-SameFiles :
    (env : Env) (now : ℕ) (request : Request) (db : Db)
    → SameFiles db (note_start env now request db).1
unfolding note_start
note_start-SameFiles env now request db =
    elim (Option-cases (resolve_image_code (code_of env request) db)) [
      | inl e ↦ rw (e, note_start) (same_files db)
      | inr (image, e) ↦ rw (e, note_start) (note_image-SameFiles env now request image db)
    ]

pub resolve-SameFiles :
    (code : Text) (db db' : Db)
    → SameFiles db db'
    → resolve_image_code code db' ≡ resolve_image_code code db
unfolding resolve_image_code
resolve-SameFiles code db db' same = ground (arith, same.alias, same.images)

may_download-SameFiles :
    (env : Env) (now : ℕ) (request : Request) (image : ImageRow) (db db' : Db)
    → SameFiles db db'
    → may_download env now request image db' ≡ may_download env now request image db
unfolding validate_dispatch_token
may_download-SameFiles env now request image db db' same =
    ap
      (λ v.
        starts_with (codes "Bearer ") (or_empty request.authorization)
        && not (text_eq (or_empty request.device_id) [])
        && v)
      (validate-same_grants env.crypto now (token_of (or_empty request.authorization))
        (code_of env request) (or_empty request.device_id) image.sha256 db db' same.grants)

-- `base_get` by the one test of the three headers.
pub base_get-some :
    (env : Env) (now : ℕ) (request : Request) (image : ImageRow) (db : Db)
    → resolve_image_code (code_of env request) db ≡ some image
    → base_get env now request db
      ≡ (if may_download env now request image db then serve_file env image else unauthorized)
unfolding base_get
base_get-some env now request image db e = ground (arith, e)

base_get-none :
    (env : Env) (now : ℕ) (request : Request) (db : Db)
    → resolve_image_code (code_of env request) db ≡ none
    → base_get env now request db ≡ Https.not_found
unfolding base_get
base_get-none env now request db e = rw (e, base_get)

pub base_get-SameFiles :
    (env : Env) (now : ℕ) (request : Request) (db db' : Db)
    → SameFiles db db'
    → base_get env now request db' ≡ base_get env now request db
base_get-SameFiles env now request db db' same =
    let resolved = resolve-SameFiles (code_of env request) db db' same in
    elim (Option-cases (resolve_image_code (code_of env request) db)) [
      | inl e ↦
          base_get-none env now request db' (resolved ∙ e)
          ∙ sym (base_get-none env now request db e)
      | inr (image, e) ↦
          base_get-some env now request image db' (resolved ∙ e)
          ∙ ap (λ b. if b then serve_file env image else unauthorized)
              (may_download-SameFiles env now request image db db' same)
          ∙ sym (base_get-some env now request image db e)
    ]

begin_get-answer :
    (env : Env) (started checked : ℕ) (request : Request) (db : Db)
    → (begin_get env started checked request db).0.answer ≡ base_get env checked request db
unfolding begin_get
begin_get-answer env started checked request db =
    base_get-SameFiles env checked request db (note_start env started request db).1
      (note_start-SameFiles env started request db)

serve_file-sending :
    (env : Env) (image image' : ImageRow) (blocks : List Text)
    → serve_file env image ≡ sending image' blocks
    → (image ≡ image') × (env.send_head image.filename ≡ some blocks)
unfolding serve_file
serve_file-sending env image image' blocks h = ground (arith, h)

sent_through_test :
    (may : Bool) (served answer : Answer) (blocks : List Text) (image : ImageRow)
    → (if may then served else unauthorized) ≡ sending image blocks
    → (may ≡ true) × (served ≡ sending image blocks)
sent_through_test true served answer blocks image h = (refl, h)
sent_through_test false served answer blocks image h = cc

may_download-parts :
    (env : Env) (now : ℕ) (request : Request) (image : ImageRow) (db : Db)
    → may_download env now request image db ≡ true
    → (starts_with (codes "Bearer ") (or_empty request.authorization) ≡ true)
      × (validate_dispatch_token env.crypto now
            (token_of (or_empty request.authorization))
            (code_of env request)
            (or_empty request.device_id)
            image.sha256
            db
          ≡ true)
may_download-parts env now request image db may = ground (arith, may)

-- The server sends a file only to a request with a bearer token and a device identity, of a code that
-- resolves to that image, and whose token `validate_download_token` accepts for this code, device and
-- hash at the time of the check; and the blocks are those of the image's file.
pub begin_get_sound :
    (env : Env) (started checked : ℕ) (request : Request) (image : ImageRow) (blocks : List Text)
    (db : Db)
    → (begin_get env started checked request db).0.answer ≡ sending image blocks
    → (resolve_image_code (code_of env request) db ≡ some image)
      × (starts_with (codes "Bearer ") (or_empty request.authorization) ≡ true)
      × (validate_download_token env.crypto checked
            (token_of (or_empty request.authorization))
            (code_of env request)
            (or_empty request.device_id)
            image.sha256
            db
          ≡ true)
      × (env.send_head image.filename ≡ some blocks)
unfolding validate_dispatch_token
begin_get_sound env started checked request image blocks db h =
    let base = sym (begin_get-answer env started checked request db) ∙ h in
    elim (Option-cases (resolve_image_code (code_of env request) db)) [
      | inl e ↦ absurd (cc (base, base_get-none env checked request db e))
      | inr (found, e) ↦
          let (may, served) =
            sent_through_test (may_download env checked request found db) (serve_file env found)
              unauthorized blocks image
              (sym (base_get-some env checked request found db e) ∙ base) in
          let (same, head) = serve_file-sending env found image blocks served in
          let (bearer, valid) = may_download-parts env checked request found db may in
          (e ∙ ap some same, bearer, rw same at valid, rw same at head)
    ]

-- `consume_copy` and `record_copy` beside the grants.
pub record_copy-SameFiles :
    (now : ℕ) (download : Option Download) (copy : Copy) (db : Db)
    → SameFiles db (record_copy now download copy db)
unfolding record_copy
record_copy-SameFiles now none copy db = same_files db
record_copy-SameFiles now (some download) completed db =
    record_state-SameFiles now download TransferState.download_completed false db
record_copy-SameFiles now (some download) transfer_error db =
    record_state-SameFiles now download TransferState.download_failed true db
record_copy-SameFiles now (some download) exception db = same_files db

-- The transfer of an open request that sends an image.
abbrev pub transfer : (ℕ → Turn) → List Text → Copy
transfer turns blocks = (copy_blocks turns 0 blocks).0

pub finish_get-sending :
    (env : Env) (turns : ℕ → Turn) (now : ℕ) (request : Request) (opened : Opened)
    (image : ImageRow) (blocks : List Text) (db : Db)
    → opened.answer ≡ sending image blocks
    → finish_get env turns now request opened db
      ≡ consume_copy env now request image
          (transfer turns blocks)
          (record_copy now opened.download (transfer turns blocks) db)
unfolding finish_get
finish_get-sending env turns now request opened image blocks db e = rw (e, finish_get)

consume_copy-incomplete :
    (env : Env) (now : ℕ) (request : Request) (image : ImageRow) (copy : Copy) (db : Db)
    → copy ≢ completed
    → consume_copy env now request image copy db ≡ db
unfolding consume_copy
consume_copy-incomplete env now request image completed db ne = absurd (ne refl)
consume_copy-incomplete env now request image transfer_error db ne = refl
consume_copy-incomplete env now request image exception db ne = refl

-- A transfer that does not complete, whether the connection broke or another exception ended it, leaves
-- every grant and every image as it was, so the device may ask again with the same token.
pub finish_get-incomplete :
    (env : Env) (turns : ℕ → Turn) (now : ℕ) (request : Request) (opened : Opened)
    (image : ImageRow) (blocks : List Text) (db : Db)
    → opened.answer ≡ sending image blocks
    → (copy_blocks turns 0 blocks).0 ≢ completed
    → (later : ℕ) (again : Request)
    → base_get env later again (finish_get env turns now request opened db)
      ≡ base_get env later again db
finish_get-incomplete env turns now request opened image blocks db e ne later again =
    rw
      (
        finish_get-sending env turns now request opened image blocks db e,
        consume_copy-incomplete env now request image (transfer turns blocks)
            (record_copy now opened.download (transfer turns blocks) db) ne,
      )
      (base_get-SameFiles env later again db
        (record_copy now opened.download (transfer turns blocks) db)
        (record_copy-SameFiles now opened.download (transfer turns blocks) db))
