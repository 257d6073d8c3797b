-- ===== src/Https/Transfers.antt =====
-- What a transfer leaves behind: the token of a completed download, and the state of the device with the
-- firmware.
use ota_server.Base.{
  ℕ, ◌≤◌, ◌≡◌, refl, ap, ◌∙◌, Text, codes, some, List, [], ◌∷◌, Bool, true, false, text_eq,
  starts_with, strip, arith, if◌then◌else◌,
}
use ota_server.Crypto.{Crypto}
use ota_server.Db.{Db, ImageRow, GrantRow}
use ota_server.Ident.{normalize_device_id, compact_id, format_id, remove, remove_0x}
use ota_server.Registry.{or_empty}
use ota_server.Grants.Downloads.{validate_download_token, consume_dispatch_token, consume_where}
use ota_server.Grants.OneTime.{consume_dispatch_token_once, dispatch_by_id}
use ota_server.Firmware.{resolve_image_code}
use ota_server.Https.{
  Env, Request, Turn, sending, unauthorized, may_download, code_of, token_of,
  validate_dispatch_token, base_get, serve_file, begin_get, copy_blocks, record_copy, consume_copy,
  finish_get, completed,
}
use ota_server.Https.Downloads.{
  resolve-SameFiles, base_get-some, base_get-SameFiles, begin_get_sound, finish_get-sending,
  record_copy-SameFiles, note_start-SameFiles,
}

-- A request that has begun takes nothing away: until its transfer ends, every request, also one with the
-- same token, is answered as if it had not begun.
pub begin_get-again :
    (env : Env) (started checked later : ℕ) (request again : Request) (db : Db)
    → base_get env later again (begin_get env started checked request db).1
      ≡ base_get env later again db
unfolding begin_get
begin_get-again env started checked later request again db =
    base_get-SameFiles env later again db _ (note_start-SameFiles env started request db)

consume_where-resolve :
    (now : ℕ) (match : GrantRow → Bool) (code : Text) (db : Db)
    → resolve_image_code code (consume_where now match db).1 ≡ resolve_image_code code db
unfolding consume_where resolve_image_code
consume_where-resolve now match code db = refl

consume_dispatch_token-resolve :
    (crypto : Crypto) (now : ℕ) (token d n sha code : Text) (db : Db)
    → normalize_device_id d ≡ some n
    → resolve_image_code code (consume_dispatch_token crypto now token d sha db).1
      ≡ resolve_image_code code db
consume_dispatch_token-resolve crypto now token d n sha code db e =
    rw (dispatch_by_id crypto now token d n sha db e) (consume_where-resolve now _ code db)

pub consume_copy-completed :
    (env : Env) (now : ℕ) (request : Request) (image : ImageRow) (db : Db)
    → text_eq image.sha256 [] ≡ false
    → starts_with (codes "Bearer ") (or_empty request.authorization) ≡ true
    → text_eq (or_empty request.device_id) [] ≡ false
    → consume_copy env now request image completed db
      ≡ (consume_dispatch_token env.crypto now
          (token_of (or_empty request.authorization))
          (or_empty request.device_id)
          image.sha256
          db).1
unfolding consume_copy
consume_copy-completed env now request image db hash bearer device = rw (hash, bearer, device)

not_valid→unauthorized :
    (env : Env) (later : ℕ) (again : Request) (image : ImageRow) (db : Db)
    → resolve_image_code (code_of env again) db ≡ some image
    → validate_download_token env.crypto later
        (token_of (or_empty again.authorization))
        (code_of env again)
        (or_empty again.device_id)
        image.sha256
        db
      ≡ false
    → base_get env later again db ≡ unauthorized
unfolding validate_dispatch_token
not_valid→unauthorized env later again image db e refused =
    let not_may : may_download env later again image db ≡ false = ground (arith, refused) in
    base_get-some env later again image db e
    ∙ ap (λ b. if b then serve_file env image else unauthorized) not_may

pub no_identity : (d n : Text) → normalize_device_id d ≡ some n → text_eq d [] ≡ false
unfolding text_eq normalize_device_id compact_id format_id remove remove_0x strip
no_identity [] n e = cc
no_identity (c ∷ d) n e = refl

-- After a transfer completed, the token that it was sent for is used up: a request for the same image
-- with that token, from the same device however it spells its identity, is answered 401 from then on.
-- Between the request and the end of its transfer anything may have happened to the database.
pub finish_get-once :
    (env : Env) (turns : ℕ → Turn) (started checked now later : ℕ) (request again : Request)
    (n : Text) (image : ImageRow) (blocks : List Text) (db db' : Db)
    → (begin_get env started checked request db).0.answer ≡ sending image blocks
    → (copy_blocks turns 0 blocks).0 ≡ completed
    → text_eq image.sha256 [] ≡ false
    → normalize_device_id (or_empty request.device_id) ≡ some n
    → normalize_device_id (or_empty again.device_id) ≡ some n
    → token_of (or_empty again.authorization) ≡ token_of (or_empty request.authorization)
    → resolve_image_code (code_of env again) db' ≡ some image
    → now ≤ later
    → base_get env later again
        (finish_get env turns now request (begin_get env started checked request db).0 db')
      ≡ unauthorized
finish_get-once env turns started checked now later request again n image blocks db db' sent whole
      hash id id' token resolved le =
    let opened = (begin_get env started checked request db).0 in
    let (_, bearer, _, _) = begin_get_sound env started checked request image blocks db sent in
    let noted = record_copy now opened.download completed db' in
    let t = token_of (or_empty request.authorization) in
    let d = or_empty request.device_id in
    let used = (consume_dispatch_token env.crypto now t d image.sha256 noted).1 in
    let after : finish_get env turns now request opened db' ≡ used =
      finish_get-sending env turns now request opened image blocks db' sent
      ∙ ap (λ c. consume_copy env now request image c (record_copy now opened.download c db')) whole
      ∙ consume_copy-completed env now request image noted hash bearer (no_identity d n id) in
    let there : resolve_image_code (code_of env again) used ≡ some image =
      consume_dispatch_token-resolve env.crypto now t d n image.sha256 (code_of env again) noted id
      ∙ resolve-SameFiles (code_of env again) db' noted
          (record_copy-SameFiles now opened.download completed db')
      ∙ resolved in
    let refused =
      (consume_dispatch_token_once env.crypto now later t (code_of env again) d
        (or_empty again.device_id) n image.sha256 noted id id' le).0 in
    rw after (not_valid→unauthorized env later again image used there (rw token refused))
