-- ===== src/Publish.antt =====
-- firmware_publish.py, with `record_firmware_publish` of activity.py: a build machine sends a firmware
-- with its metadata, the certificate of a device and a signature. The firmware directory is a table of
-- files, one of release files and one of temporary files; file operations succeed. `json.loads`, the
-- checks of the certificate and the signature are parameters. The activity log is left out.
pub mod Body
pub mod Checks
pub mod Listed
pub mod Verified
pub mod Converter
pub mod Deployed
pub mod Refused
use ota_server.Base.{
  ℕ, zero, suc, ◌+◌, ◌-◌, ◌*◌, Text, codes, ℤ, pos, negsuc, Option, none, some, List, [], ◌∷◌, ◌++◌,
  map, Bool, true, false, ◌&&◌, ◌||◌, not, ◌==◌, ltb, leb, if◌then◌else◌, text_eq, length, all,
  take, drop, lower, strip, is_digit, is_hex, is_some, find_first, update_where, Dict, get, put,
  remove_key,
}
use ota_server.Base.Result.{Result, ok, err, ◌>>=◌, ◌>>◌, raise_if, or_raise}
use ota_server.Db.{Db, PublicationRow}
use ota_server.Encoding.{b64u_decode, hex}
use ota_server.Ident.{normalize_device_id}
use ota_server.Registry.Certificates.{Certificate, RegistrationAction, register_device_certificate}

abbrev pub max_firmware_bytes : ℕ
max_firmware_bytes = 16 * 1024 * 1024

abbrev pub publish_domain : Text
publish_domain = codes "JaroslavZemanESP|firmware-publish-v1|"

-- The metadata object: `str(metadata.get(key) or '')`, `int(metadata.get('secure_version', 0))`, where
-- `none` raises, and `bool(metadata.get('active', True))`.
pub record Metadata : Type 0 where
  pub text : Text → Text
  pub secure_version : Option ℤ
  pub active : Bool

-- A request, and what the environment answers while it is handled.
pub record Env : Type 0 where
  -- int(Content-Length); `none` raises
  pub content_length : Option ℤ
  -- The block that the k-th `rfile.read` of n bytes returns
  pub read : ℕ → ℕ → Text
  -- X-Firmware-Filename, X-Firmware-SHA256, X-Firmware-Metadata, X-Publisher-Certificate, -Signature
  pub filename : Text
  pub sha256_header : Text
  pub metadata_b64 : Text
  pub certificate_b64 : Text
  pub signature_b64 : Text
  -- json.loads(raw.decode("utf-8")): `none` where it raises, `some none` where it is no object
  pub loads : Text → Option (Option Metadata)
  -- verify_and_extract_device_certificate(pem) with a key on a curve; `none` where it raises
  pub extract : Text → Option Certificate
  -- load_pem_x509_certificate(pem).public_key().verify(signature, message, ECDSA(SHA256))
  pub verify : Text → Text → Text → Bool
  -- hashlib.sha256(message).digest()
  pub sha256 : Text → Text
  -- The name that `tempfile.mkstemp` makes
  pub temp_name : Text
  pub now : ℕ

pub data Error : Type 0 where
  invalid_content_length invalid_firmware_size truncated_firmware_body invalid_filename
        invalid_sha256 firmware_sha256_mismatch invalid_base64 metadata_not_json metadata_not_object
        invalid_metadata invalid_certificate invalid_signature metadata_mismatch not_registered
        not_recorded :
      Error

-- The release file.
pub record Release : Type 0 where
  pub values : Dict Text
  pub secure_version : ℤ
  pub active : Bool
  pub sha256 : Text
  pub size : ℕ
  pub publisher_device_id : Text
  pub publisher_certificate_fingerprint : Text

pub record Share : Type 0 where
  pub db : Db
  pub firmware : Dict Text
  pub releases : Dict Release
  pub temps : Dict Text

-- How the loop of `_receive_firmware_body` ends; `out_of_rounds` is no end of the program.
pub data Received : Type 0 where
  body : Text → Received
  truncated out_of_rounds : Received

-- min(64 * 1024, remaining)
abbrev pub block_size : ℕ → ℕ
block_size remaining = if ltb remaining (64 * 1024) then remaining else 64 * 1024

-- `while remaining:`, with the rounds that are left, the number of reads so far and the bytes so far.
unfoldable pub receive : (ℕ → ℕ → Text) → ℕ → ℕ → ℕ → Text → Received
receive read zero remaining k got = if remaining == 0 then body got else out_of_rounds
receive read (suc rounds) remaining k got =
    let block = read k (block_size remaining) in
    let rest = receive read rounds (remaining - length block) (suc k) (got ++ block) in
    if remaining == 0 then body got else if length block == 0 then truncated else rest

-- _FILENAME_RE
unfoldable pub is_name_char : ℕ → Bool
unfolding is_digit
is_name_char c =
    is_digit c
    || (leb b'A' c && leb c b'Z')
    || (leb b'a' c && leb c b'z')
    || c == b'_'
    || c == b'.'
    || c == b'-'

abbrev pub stem : Text → Text
stem filename = take (length filename - 4) filename

unfoldable pub is_firmware_name : Text → Bool
unfolding is_name_char
is_firmware_name filename =
    text_eq (drop (length filename - 4) filename) (codes ".bin")
    && leb 5 (length filename)
    && leb (length filename) 132
    && all is_name_char (stem filename)

-- _SHA_RE
unfoldable pub is_sha256 : Text → Bool
is_sha256 s = length s == 64 && all is_hex s

abbrev pub required : List Text
required =
    codes "ota_ecosystem"
    ∷ codes "device_model"
    ∷ codes "product_role"
    ∷ codes "firmware_product"
    ∷ codes "hardware_revision"
    ∷ codes "chip_family"
    ∷ codes "flash_size"
    ∷ codes "firmware_channel"
    ∷ codes "firmware_version"
    ∷ []

-- The loop over the required keys.
unfoldable pub read_required : Metadata → List Text → Option (Dict Text)
unfolding strip
read_required metadata [] = some []
read_required metadata (key ∷ keys) =
    let value = strip (metadata.text key) in
    elim (read_required metadata keys) [
      | none ↦ none
      | some values ↦
          if text_eq value [] || ltb 96 (length value) then none else some ((key, value) ∷ values)
    ]

abbrev pub value_of : Text → Dict Text → Text
value_of key values = elim (get key values) [ none ↦ [] | some value ↦ value ]

-- `bindings`, with the values of the certificate.
abbrev pub bindings : Certificate → Dict Text
bindings c =
    (codes "ota_ecosystem", c.ecosystem)
    ∷ (codes "device_model", c.device_model)
    ∷ (codes "product_role", c.product_role)
    ∷ (codes "hardware_revision", c.hardware_revision)
    ∷ (codes "chip_family", c.chip_family)
    ∷ (codes "flash_size", c.flash_size)
    ∷ []

unfoldable pub is_bound : Dict Text → Dict Text → Bool
unfolding strip
is_bound values [] = true
is_bound values ((key, cert_value) ∷ more) =
    (text_eq (strip cert_value) [] || text_eq (value_of key values) (strip cert_value))
    && is_bound values more

abbrev pub make_release : Metadata → Dict Text → Text → ℕ → Certificate → ℤ → Release
make_release metadata values sha256_hex size publisher secure_version = record {
  values = values;
  secure_version = secure_version;
  active = metadata.active;
  sha256 = sha256_hex;
  size = size;
  publisher_device_id = publisher.device_id;
  publisher_certificate_fingerprint = publisher.certificate_fingerprint;
}

-- `_validate_metadata`
unfoldable pub validate_metadata : Option Metadata → Text → ℕ → Certificate → Result Error Release
unfolding read_required is_bound
validate_metadata parsed sha256_hex size publisher = do
  metadata ← or_raise parsed metadata_not_object
  values ← or_raise (read_required metadata required) invalid_metadata
  raise_if (not (is_bound values (bindings publisher))) metadata_mismatch
  secure_version ← or_raise metadata.secure_version invalid_metadata
  ok (make_release metadata values sha256_hex size publisher secure_version)

unfoldable pub canonical : Text → Text → Text → Text
canonical filename expected_sha metadata_b64 =
    publish_domain ++ (filename ++ (b'|' ∷ (expected_sha ++ (b'|' ∷ metadata_b64))))

-- A firmware that passed the checks.
pub record Checked : Type 0 where
  pub release : Release
  pub publisher : Certificate

-- The checks of `handle_publish` after the body was received.
unfoldable pub check_publish : Env → ℕ → Text → Result Error Checked
unfolding is_firmware_name is_sha256 validate_metadata canonical
check_publish env size bytes = do
  let expected_sha = map lower env.sha256_header
  raise_if (not (is_firmware_name env.filename)) invalid_filename
  raise_if (not (is_sha256 expected_sha)) invalid_sha256
  raise_if (not (text_eq (hex (env.sha256 bytes)) expected_sha)) firmware_sha256_mismatch
  metadata_raw ← or_raise (b64u_decode env.metadata_b64) invalid_base64
  metadata ← or_raise (env.loads metadata_raw) metadata_not_json
  pem ← or_raise (b64u_decode env.certificate_b64) invalid_base64
  publisher ← or_raise (env.extract pem) invalid_certificate
  signature ← or_raise (b64u_decode env.signature_b64) invalid_base64
  raise_if (not (env.verify pem signature (canonical env.filename expected_sha env.metadata_b64)))
      invalid_signature
  release ← validate_metadata metadata expected_sha size publisher
  ok (record { release = release; publisher = publisher })

-- UNIQUE (firmware_version, firmware_filename)
unfoldable pub is_publication : Text → Text → PublicationRow → Bool
is_publication version filename row =
    text_eq row.firmware_version version && text_eq row.firmware_filename filename

unfoldable pub new_publication : ℕ → Text → Text → Text → ℕ → Text → Text → PublicationRow
new_publication now version filename sha256 size n fingerprint = record {
  firmware_version = version;
  firmware_filename = filename;
  firmware_sha256 = sha256;
  firmware_size = size;
  converter_project = none;
  converter_filename = none;
  converter_sha256 = none;
  publisher_device_id = n;
  publisher_certificate_fingerprint = fingerprint;
  bin_verified = true;
  mjs_verified = false;
  z2m_loaded = false;
  published_at = now;
  converter_published_at = none;
  failed = false;
}

unfoldable pub change_publication : ℕ → Text → ℕ → Text → Text → PublicationRow → PublicationRow
change_publication now sha256 size n fingerprint row = record row {
  firmware_sha256 = sha256;
  firmware_size = size;
  publisher_device_id = n;
  publisher_certificate_fingerprint = fingerprint;
  bin_verified = true;
  published_at = now;
  failed = false;
}

-- INSERT … ON CONFLICT (firmware_version, firmware_filename) DO UPDATE
unfoldable pub upsert_publication :
    ℕ → Text → Text → Text → ℕ → Text → Text → List PublicationRow → List PublicationRow
unfolding is_publication new_publication change_publication
upsert_publication now version filename sha256 size n fingerprint rows =
    if is_some (find_first (is_publication version filename) rows)
    then update_where (is_publication version filename)
        (change_publication now sha256 size n fingerprint) rows
    else new_publication now version filename sha256 size n fingerprint ∷ rows

-- VARCHAR(64) of `firmware_version`
abbrev pub version_column : ℕ
version_column = 64

-- `record_firmware_publish`; `none` where `normalize_device_id` raises, or the INSERT of a version that
-- the column does not hold.
unfoldable pub record_firmware_publish : ℕ → Text → Text → Text → ℕ → Text → Text → Db → Option Db
unfolding upsert_publication
record_firmware_publish now version filename sha256 size publisher_device_id fingerprint db =
    elim (normalize_device_id publisher_device_id) [
      | none ↦ none
      | some n ↦
          if ltb version_column (length version)
          then none
          else some (record db {
            artifact_publications =
                upsert_publication now version filename sha256 size n fingerprint
                  db.artifact_publications;
          })
    ]

pub data Answer : Type 0 where
  published : RegistrationAction → Answer
  rejected : Error → Answer

abbrev pub unlink_temp : Env → Share → Share
unlink_temp env st = record st { temps = remove_key env.temp_name st.temps }

-- The two `os.replace`.
unfoldable pub replace_files : Env → Text → Release → Share → Share
replace_files env bytes release st = record st {
  temps = remove_key env.temp_name st.temps;
  firmware = put env.filename bytes st.firmware;
  releases = put (stem env.filename ++ codes ".release.json") release st.releases;
}

unfoldable pub record_publish : Env → ℕ → Checked → RegistrationAction → Share → Answer × Share
unfolding record_firmware_publish
record_publish env size checked action st =
    elim (record_firmware_publish env.now
      (value_of (codes "firmware_version") checked.release.values) env.filename
      checked.release.sha256 size checked.publisher.device_id
      checked.publisher.certificate_fingerprint st.db) [
        | none ↦ (rejected not_recorded, st)
        | some db' ↦ (published action, record st { db = db' })
      ]

-- From the registration of the certificate on.
unfoldable pub store_publish : Env → ℕ → Text → Checked → Share → Answer × Share
unfolding replace_files record_publish
store_publish env size bytes checked st =
    let (answer, db') = register_device_certificate env.now checked.publisher st.db in
    elim answer [
      | err _ ↦ (rejected not_registered, unlink_temp env st)
      | ok action ↦
          record_publish env size checked action
            (replace_files env bytes checked.release (record st { db = db' }))
    ]

unfoldable pub publish_body : Env → ℕ → Text → Share → Answer × Share
unfolding check_publish store_publish
publish_body env size bytes st = elim (check_publish env size bytes) [
  | err e ↦ (rejected e, unlink_temp env st)
  | ok checked ↦ store_publish env size bytes checked st
]

-- `_receive_firmware_body` writes a temporary file, which it unlinks where it raises.
unfoldable pub after_body : Env → ℕ → Received → Share → Answer × Share
unfolding publish_body
after_body env size (body bytes) st =
    publish_body env size bytes (record st { temps = put env.temp_name bytes st.temps })
after_body env size truncated st = (rejected truncated_firmware_body, unlink_temp env st)
after_body env size out_of_rounds st = (rejected truncated_firmware_body, unlink_temp env st)

unfoldable pub body_size : Option ℤ → Result Error ℕ
body_size none = err invalid_content_length
body_size (some (negsuc _)) = err invalid_firmware_size
body_size (some (pos n)) =
    if n == 0 || ltb max_firmware_bytes n then err invalid_firmware_size else ok n

-- `handle_publish`; each round of the loop reads a byte at least, so the length bounds the rounds.
unfoldable pub handle_publish : Env → Share → Answer × Share
unfolding body_size receive after_body
handle_publish env st = elim (body_size env.content_length) [
  | err e ↦ (rejected e, st)
  | ok size ↦ after_body env size (receive env.read size size 0 []) st
]
