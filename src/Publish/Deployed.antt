-- ===== src/Publish/Deployed.antt =====
-- What a converter went through before `handle_zigbee2mqtt_publish` of zigbee2mqtt_publish.py sends it to
-- Zigbee2MQTT, and what is answered then.
use ota_server.Base.{
  ◌*◌, ◌≡◌, ◌≤◌, Text, codes, pos, Option, none, some, List, ◌∷◌, ◌++◌, Bool, true, length, strip,
}
use ota_server.Base.Result.{Result, ok, err}
use ota_server.Db.{Db, PublicationRow}
use ota_server.Encoding.{b64u_decode}
use ota_server.Ident.{normalize_device_id}
use ota_server.Publish.Converter.{
  Env, Error, Bundle, Converter, Deployment, publish_domain, build_of, file_digest, deploy_failed,
}

-- The bundle of a converter: its one file, the marker in it, and the publisher's signature.
pub record Signed (env : Env) (bundle : Bundle) (c : Converter) : Type 0 where
  pub project : c.project ≡ bundle.project
  pub version : c.version ≡ strip bundle.firmware_version
  pub schema : bundle.schema ≡ some (pos 2)
  pub named : c.name ≡ c.project ++ codes ".mjs"
  pub encoded : Text
  pub only_file : bundle.only_file ≡ some (c.name, encoded)
  pub decoded : env.b64decode encoded ≡ some c.content
  pub small : length c.content ≤ 256 * 1024
  pub marked : build_of env c.content ≡ some c.version
  pub text : env.decode c.content ≡ some c.code
  pub pem : Text
  pub signature : Text
  pub certificate_field : b64u_decode bundle.certificate ≡ some pem
  pub extracted : env.extract pem ≡ some c.publisher
  pub signature_field : b64u_decode bundle.signature ≡ some signature
  pub verified :
      env.verify pem signature
        (publish_domain ++ (c.project ++ (b'|' ∷ file_digest env c.name c.content)))
      ≡ true

-- A verified firmware of the table, of a version and a device.
pub record HasFirmware (version device_id : Text) (db : Db) : Type 0 where
  pub n : Text
  pub normal : normalize_device_id device_id ≡ some n
  pub row : PublicationRow
  pub before : List PublicationRow
  pub after : List PublicationRow
  pub listed : db.artifact_publications ≡ before ++ row ∷ after
  pub same_version : row.firmware_version ≡ version
  pub same_device : row.publisher_device_id ≡ n
  pub bin_verified : row.bin_verified ≡ true

-- The answer to a converter that was sent: an error exactly if Zigbee2MQTT did not take it.
abbrev pub Answered : Option Bool → Result Error Bool → Type 0
Answered none answer = answer ≡ err deploy_failed
Answered (some changed) answer = answer ≡ ok changed

-- A converter that was sent to Zigbee2MQTT.
pub record Deployed (env : Env) (db : Db) (r : Deployment) (name code : Text) : Type 0 where
  pub bundle : Bundle
  pub converter : Converter
  pub announced : env.content_length ≡ some (pos (length env.raw))
  pub parsed : env.loads env.raw ≡ some bundle
  pub signed : Signed env bundle converter
  pub same_name : converter.name ≡ name
  pub same_code : converter.code ≡ code
  pub firmware : HasFirmware converter.version converter.publisher.device_id db
  pub answered : Answered (env.deploy name code) r.answer
