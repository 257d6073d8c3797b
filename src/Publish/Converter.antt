-- ===== src/Publish/Converter.antt =====
-- zigbee2mqtt_publish.py with publish_guard.py and `record_converter_publish` of activity.py: a build
-- machine sends the converter of a firmware. The exchange with Zigbee2MQTT over MQTT is the parameter
-- `deploy`; JSON, base64 and the certificate are parameters too.
use ota_server.Base.{
  ℕ, ◌*◌, Text, codes, ℤ, pos, negsuc, Option, none, some, List, [], ◌∷◌, ◌++◌, Bool, true, false,
  ◌&&◌, ◌||◌, not, ◌==◌, ltb, leb, if◌then◌else◌, text_eq, length, all, drop, strip, split,
  starts_with, find_first, update_where,
}
use ota_server.Base.Result.{Result, ok, err, ◌>>=◌, ◌>>◌, raise_if, or_raise}
use ota_server.Db.{Db, PublicationRow}
use ota_server.Encoding.{b64u_decode, hex}
use ota_server.Ident.{normalize_device_id}
use ota_server.Registry.Certificates.{Certificate}
use ota_server.Publish.{is_name_char, is_publication}

-- The row with the latest `published_at` of those that match.
abbrev pub later_of : PublicationRow → Option PublicationRow → Option PublicationRow
later_of row none = some row
later_of row (some other) = if ltb row.published_at other.published_at then some other else some row

unfoldable pub latest_where : (PublicationRow → Bool) → List PublicationRow → Option PublicationRow
latest_where match [] = none
latest_where match (row ∷ rows) =
    let rest = latest_where match rows in if match row then later_of row rest else rest

-- WHERE firmware_version=? AND publisher_device_id=?
unfoldable pub is_build : Text → Text → PublicationRow → Bool
is_build version n row = text_eq row.firmware_version version && text_eq row.publisher_device_id n

-- … AND bin_verified=1
unfoldable pub is_verified_build : Text → Text → PublicationRow → Bool
unfolding is_build
is_verified_build version n row = is_build version n row && row.bin_verified

pub data Error : Type 0 where
  invalid_size truncated invalid_json invalid_project unsupported_schema invalid_file_set
        file_too_large marker_mismatch invalid_certificate invalid_signature no_verified_bin
        deploy_failed bad_publisher :
      Error

-- `require_verified_firmware_publication`
unfoldable pub require_verified_firmware_publication :
    Text → Text → Db → Result Error PublicationRow
unfolding latest_where is_verified_build
require_verified_firmware_publication version publisher_device_id db =
    elim (normalize_device_id publisher_device_id) [
      | none ↦ err bad_publisher
      | some n ↦
          or_raise (latest_where (is_verified_build version n) db.artifact_publications)
            no_verified_bin
    ]

-- WHERE id=?, by the unique columns of the row
unfoldable pub is_row : PublicationRow → PublicationRow → Bool
is_row picked row = is_publication picked.firmware_version picked.firmware_filename row

unfoldable pub set_converter :
    ℕ → Text → Text → Text → Bool → Bool → PublicationRow → PublicationRow
set_converter now project filename sha256 loaded failed row = record row {
  converter_project = some project;
  converter_filename = some filename;
  converter_sha256 = some sha256;
  mjs_verified = not failed;
  z2m_loaded = loaded;
  converter_published_at = some now;
  failed = failed;
}

-- `record_converter_publish`; `none` where `normalize_device_id` raises.
unfoldable pub record_converter_publish :
    ℕ → Text → Text → Text → Text → Text → Bool → Bool → Db → Option Db
unfolding is_build is_row set_converter
record_converter_publish now version project filename sha256 publisher_device_id loaded failed db =
    elim (normalize_device_id publisher_device_id) [
      | none ↦ none
      | some n ↦ elim (latest_where (is_build version n) db.artifact_publications) [
        | none ↦ some db
        | some row ↦ some (record db {
          artifact_publications =
              update_where (is_row row) (set_converter now project filename sha256 loaded failed)
                db.artifact_publications;
        })
      ]
    ]

-- The members of the request: `str(request.get(key) or '')`, the schema, and the one file, if `files`
-- has exactly one.
pub record Bundle : Type 0 where
  pub project : Text
  -- int(request.get("schema") or 0); `none` raises
  pub schema : Option ℤ
  pub firmware_version : Text
  pub only_file : Option (Text × Text)
  pub certificate : Text
  pub signature : Text

pub record Env : Type 0 where
  pub content_length : Option ℤ
  -- rfile.read(length)
  pub raw : Text
  pub loads : Text → Option Bundle
  -- base64.b64decode(value, validate=True)
  pub b64decode : Text → Option Text
  -- bytes.decode("utf-8")
  pub decode : Text → Option Text
  pub extract : Text → Option Certificate
  pub verify : Text → Text → Text → Bool
  pub sha256 : Text → Text
  -- _deploy_via_zigbee2mqtt(base_topic, name, code, …)["changed"]; `none` raises
  pub deploy : Text → Text → Option Bool
  pub now : ℕ

abbrev pub publish_domain : Text
publish_domain = codes "JaroslavZemanESP|z2m-publish-v1|"

-- PROJECT_RE
unfoldable pub is_project : Text → Bool
is_project s = leb 1 (length s) && leb (length s) 96 && all is_name_char s

abbrev pub marker : Text
marker = codes "// JarZem firmware build: "

-- rb"^// JarZem firmware build: (.+)$" with re.M
unfoldable pub is_marker : Text → Bool
is_marker line = starts_with marker line && ltb (length marker) (length line)

unfoldable pub build_of : Env → Text → Option Text
unfolding is_marker
build_of env content = elim (find_first is_marker (split b'\n' content)) [
  | none ↦ none
  | some line ↦ elim (env.decode (drop (length marker) line)) [
    | none ↦ none
    | some build ↦ some (strip build)
  ]
]

-- A converter that passed the checks before the guard.
pub record Converter : Type 0 where
  pub project : Text
  pub name : Text
  pub version : Text
  pub content : Text
  pub code : Text
  pub publisher : Certificate

abbrev pub expected_name : Text → Text
expected_name project = project ++ codes ".mjs"

unfoldable pub file_digest : Env → Text → Text → Text
file_digest env name content = hex (env.sha256 (name ++ (0 ∷ (content ++ (0 ∷ [])))))

abbrev pub make_converter : Text → Text → Text → Text → Certificate → Converter
make_converter project version content code publisher = record {
  project = project;
  name = expected_name project;
  version = version;
  content = content;
  code = code;
  publisher = publisher;
}

abbrev pub is_schema_2 : ℤ → Bool
is_schema_2 (pos n) = n == 2
is_schema_2 (negsuc n) = false

-- The one file of the bundle, under the project's name.
unfoldable pub file_of : Text → Option (Text × Text) → Option Text
file_of project none = none
file_of project (some (name, content)) =
    if text_eq name (expected_name project) then some content else none

abbrev pub same_build : Text → Option Text → Bool
same_build version none = false
same_build version (some build) = text_eq build version

unfoldable pub check_bundle : Env → Bundle → Result Error Converter
unfolding is_project file_of build_of file_digest strip
check_bundle env bundle = do
  let project = bundle.project
  let version = strip bundle.firmware_version
  raise_if (not (is_project project)) invalid_project
  schema ← or_raise bundle.schema unsupported_schema
  raise_if (not (is_schema_2 schema)) unsupported_schema
  raise_if (text_eq version []) invalid_file_set
  encoded ← or_raise (file_of project bundle.only_file) invalid_file_set
  content ← or_raise (env.b64decode encoded) invalid_file_set
  raise_if (ltb (256 * 1024) (length content)) file_too_large
  raise_if (not (same_build version (build_of env content))) marker_mismatch
  code ← or_raise (env.decode content) invalid_file_set
  pem ← or_raise (b64u_decode bundle.certificate) invalid_certificate
  publisher ← or_raise (env.extract pem) invalid_certificate
  signature ← or_raise (b64u_decode bundle.signature) invalid_signature
  raise_if
      (not (
        env.verify pem signature (
          publish_domain ++ (project ++ (b'|' ∷ file_digest env (expected_name project) content)))))
      invalid_signature
  ok (make_converter project version content code publisher)

unfoldable pub request_of : Env → Result Error Bundle
request_of env = elim env.content_length [
  | none ↦ err invalid_size
  | some (negsuc _) ↦ err invalid_size
  | some (pos n) ↦
      if n == 0 || ltb (512 * 1024) n
      then err invalid_size
      else if not (length env.raw == n)
      then err truncated
      else or_raise (env.loads env.raw) invalid_json
]

unfoldable pub check_converter : Env → Result Error Converter
unfolding request_of check_bundle
check_converter env = do bundle ← request_of env; check_bundle env bundle

-- How a request ends: the answer, whether the converter changed; the database; and the name and the code
-- that were sent to Zigbee2MQTT, if they were.
pub record Deployment : Type 0 where
  pub answer : Result Error Bool
  pub db : Db
  pub sent : Option (Text × Text)

abbrev pub refusal : Error → Db → Deployment
refusal e db = record { answer = err e; db = db; sent = none }

-- The row of the table after a deployment.
unfoldable pub record_deployed : Env → Converter → Bool → Db → Deployment
unfolding record_converter_publish
record_deployed env c changed db =
    elim (record_converter_publish env.now c.version c.project c.name (hex (env.sha256 c.content))
      c.publisher.device_id true false db) [
        | none ↦ record { answer = err bad_publisher; db = db; sent = some (c.name, c.code) }
        | some db' ↦ record { answer = ok changed; db = db'; sent = some (c.name, c.code) }
      ]

-- From the guard on.
unfoldable pub deploy_converter : Env → Converter → Db → Deployment
unfolding require_verified_firmware_publication record_deployed
deploy_converter env c db =
    elim (require_verified_firmware_publication c.version c.publisher.device_id db) [
      | err e ↦ refusal e db
      | ok _ ↦ elim (env.deploy c.name c.code) [
        | none ↦ record { answer = err deploy_failed; db = db; sent = some (c.name, c.code) }
        | some changed ↦ record_deployed env c changed db
      ]
    ]

-- `handle_zigbee2mqtt_publish`
unfoldable pub handle_zigbee2mqtt_publish : Env → Db → Deployment
unfolding check_converter deploy_converter
handle_zigbee2mqtt_publish env db = elim (check_converter env) [
  | err e ↦ refusal e db
  | ok c ↦ deploy_converter env c db
]
