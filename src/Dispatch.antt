-- ===== src/Dispatch.antt =====
-- Sending a firmware to devices: `UIHandler.do_POST` of server.py for the path /send, from the choice
-- of the devices on, with the functions of ota_check_runtime.py that server_mysql.py puts in the place
-- of the older ones. `write_ota_payload_to_zigbee` of server.py, which talks to Home Assistant, is the
-- parameter `zigbee`. HTML, log lines and the form's parsing are left out.
pub mod Payloads
pub mod Issued
pub mod Pending
use ota_server.Base.{
  ℕ, Text, codes, Option, none, some, List, [], ◌∷◌, Bool, true, false, ◌&&◌, if◌then◌else◌,
  text_eq, strip, find_first, update_where, is_some, Dict, get, put, remove_key,
}
use ota_server.Base.Result.{Result, ok, err, ◌>>=◌, or_raise}
use ota_server.Crypto.{Crypto}
use ota_server.Db.{Db, CertRow, ImageRow, DispatchRow, ProvisioningRow, SendStatus}
use ota_server.Ident.{normalize_device_id, normalize_ieee}
use ota_server.Registry.{load_provisioning_context}
use ota_server.Grants.Tokens
use ota_server.Grants.Tokens.{OtaCheckGrant, create_ota_check_grant}
use ota_server.Firmware.{ensure_image_code, has_code}

-- A device of `get_ota_devices`, as far as the handler looks at it.
pub record Device : Type 0 where
  pub ieee : Text
  pub transport : Text

pub record Env : Type 0 where
  pub crypto : Crypto
  -- int(time.time())
  pub now : ℕ
  -- os.urandom(8), for each device
  pub random8 : Text → Text
  -- write_ota_payload_to_zigbee of server.py, by identity and payload: whether it returns
  pub zigbee : Text → Text → Bool
  -- The network name of the form, and runtime_config
  pub ssid : Text
  pub wifi_security : Text
  pub wifi_channel : ℕ
  pub ota_host : Text
  pub ota_port : ℕ

-- The state: the database, `_pending` of ota_check_runtime.py, and what went out over Zigbee.
pub record Dispatcher : Type 0 where
  pub db : Db
  pub pending : Dict Text
  pub outbox : List (Text × Text)

abbrev pub with_db : Db → Dispatcher → Dispatcher
with_db db st = record st { db = db }

-- The exceptions of `create_dispatch_token`.
pub data Error : Type 0 where
  denied no_firmware no_version : Error
  no_grant : Tokens.Error → Error

-- `NOOP_PROVISION_PAYLOAD`
abbrev pub noop_provision_payload : Text
noop_provision_payload = codes "__OTA_PROVISIONING_ALREADY_SECURE__"

-- `ensure_secure_dispatch_device`
unfoldable pub ensure_secure_dispatch_device : Text → Db → Result Error CertRow
ensure_secure_dispatch_device device_id db = elim (load_provisioning_context device_id db) [
  | ok row ↦ ok row
  | err _ ↦ err denied
]

-- WHERE … i.sha256=? AND i.active=1, and the join's condition
unfoldable pub is_active_image : Text → Text → ImageRow → Bool
is_active_image filename sha256_hex image =
    text_eq image.filename filename && text_eq image.sha256 sha256_hex && image.active

-- `_firmware_for_code`; a code has one alias.
unfoldable pub firmware_for_code : Text → Text → Db → Result Error ImageRow
unfolding is_active_image
firmware_for_code code sha256_hex db = elim (find_first (has_code code) db.firmware_alias) [
  | none ↦ err no_firmware
  | some alias ↦
      or_raise (find_first (is_active_image alias.filename sha256_hex) db.firmware_images)
        no_firmware
]

-- `_pending[grant.token] = grant.check_wire`
unfoldable pub keep_wire :
    Result Tokens.Error OtaCheckGrant × Db → Dispatcher → Result Error Text × Dispatcher
keep_wire (err e, db) st = (err (no_grant e), with_db db st)
keep_wire (ok grant, db) st =
    (ok grant.token, record st { db = db; pending = put grant.token grant.check_wire st.pending })

-- The image's version, which must not be blank.
unfoldable pub image_version : ImageRow → Result Error Text
image_version image =
    let version = strip image.version in if text_eq version [] then err no_version else ok version

-- The checks before the grant: the version of the image.
unfoldable pub dispatch_version : Text → Text → Text → Db → Result Error Text
unfolding ensure_secure_dispatch_device firmware_for_code image_version
dispatch_version code device_id sha256_hex db = do
  _ ← ensure_secure_dispatch_device device_id db
  image ← firmware_for_code code sha256_hex db
  image_version image

unfoldable pub create_dispatch_token :
    Env → Text → Text → Text → Dispatcher → Result Error Text × Dispatcher
unfolding dispatch_version keep_wire
create_dispatch_token env code device_id sha256_hex st =
    elim (dispatch_version code device_id sha256_hex st.db) [
      | err e ↦ (err e, st)
      | ok version ↦
          keep_wire
            (create_ota_check_grant env.crypto env.now (env.random8 device_id) device_id version
              code sha256_hex st.db)
            st
    ]

-- `make_check_payload`; `none` is the ValueError.
unfoldable pub make_check_payload : Text → Dispatcher → Option Text × Dispatcher
make_check_payload token st = elim (get token st.pending) [
  | none ↦ (none, st)
  | some wire ↦ (
    if text_eq wire [] then none else some wire,
    record st { pending = remove_key token st.pending },
  )
]

-- `write_ota_payload_to_zigbee` of server_mysql.py; `none` where it raises.
unfoldable pub write_payload : Env → Text → Text → Dispatcher → Option Dispatcher
write_payload env ieee payload st =
    if text_eq payload noop_provision_payload
    then some st
    else if env.zigbee ieee payload
    then some (record st { outbox = (ieee, payload) ∷ st.outbox })
    else none

-- `save_dispatch`
unfoldable pub save_dispatch : Env → Text → ImageRow → Bool → Db → Db
save_dispatch env ieee image success db = record db {
  ota_dispatch =
      record {
        ieee = normalize_ieee (some ieee);
        filename = image.filename;
        sha256 = image.sha256;
        revision = image.revision;
        sent_at = env.now;
        success = success;
        failed = elim success [ true ↦ false | false ↦ true ];
      }
      ∷ db.ota_dispatch;
}

unfoldable pub is_provisioning_of : Text → ProvisioningRow → Bool
is_provisioning_of n row = text_eq row.device_id n

unfoldable pub provisioning_row : Env → Text → Text → ImageRow → SendStatus → Bool → ProvisioningRow
provisioning_row env n transport image status failed = record {
  device_id = n;
  wifi_ssid = env.ssid;
  wifi_security = env.wifi_security;
  wifi_channel = env.wifi_channel;
  ota_host = env.ota_host;
  ota_port = env.ota_port;
  firmware_filename = some image.filename;
  firmware_sha256 = some image.sha256;
  transport = transport;
  status = status;
  failed = failed;
  updated_at = env.now;
}

-- INSERT … ON CONFLICT(device_id) DO UPDATE, which sets every other column.
unfoldable pub upsert_provisioning : ProvisioningRow → List ProvisioningRow → List ProvisioningRow
unfolding is_provisioning_of
upsert_provisioning row rows =
    if is_some (find_first (is_provisioning_of row.device_id) rows)
    then update_where (is_provisioning_of row.device_id) (λ _. row) rows
    else row ∷ rows

-- `save_device_provisioning`; `none` where `normalize_device_id` raises.
unfoldable pub save_device_provisioning :
    Env → Device → ImageRow → SendStatus → Bool → Db → Option Db
unfolding provisioning_row upsert_provisioning
save_device_provisioning env device image status failed db =
    elim (normalize_device_id device.ieee) [
      | none ↦ none
      | some n ↦ some (record db {
        device_provisioning =
            upsert_provisioning (provisioning_row env n device.transport image status failed)
              db.device_provisioning;
      })
    ]

-- How the loop's body ends for a device: its line in the answer, or an exception that leaves `do_POST`.
pub data Outcome : Type 0 where
  refused delivered undelivered raised : Outcome

abbrev pub saved : Outcome → Dispatcher → Option Db → Outcome × Dispatcher
saved outcome st none = (raised, st)
saved outcome st (some db) = (outcome, with_db db st)

-- The `except` branch of the transfer.
unfoldable pub record_failure : Env → Device → ImageRow → Dispatcher → Outcome × Dispatcher
unfolding save_dispatch save_device_provisioning
record_failure env device image st =
    let db' = save_dispatch env device.ieee image false st.db in
    saved undelivered (with_db db' st)
      (save_device_provisioning env device image SendStatus.failed true db')

-- The end of the `try` block.
unfoldable pub record_success : Env → Device → ImageRow → Dispatcher → Outcome × Dispatcher
unfolding save_dispatch save_device_provisioning record_failure
record_success env device image st =
    elim (save_device_provisioning env device image SendStatus.sent false st.db) [
      | none ↦ record_failure env device image st
      | some db' ↦ (delivered, with_db (save_dispatch env device.ieee image true db') st)
    ]

-- The `try` block: the provisioning payload, which is the skipped one, and the check payload.
unfoldable pub send_payloads : Env → Device → ImageRow → Text → Dispatcher → Outcome × Dispatcher
unfolding write_payload record_success record_failure
send_payloads env device image wire st =
    elim (write_payload env device.ieee noop_provision_payload st) [
      | none ↦ record_failure env device image st
      | some first ↦ elim (write_payload env device.ieee wire first) [
        | none ↦ record_failure env device image first
        | some second ↦ record_success env device image second
      ]
    ]

unfoldable pub after_payload :
    Env → Device → ImageRow → Option Text × Dispatcher → Outcome × Dispatcher
after_payload env device image (none, st) = (raised, st)
after_payload env device image (some wire, st) = send_payloads env device image wire st

unfoldable pub send_check :
    Env → Device → ImageRow → Result Error Text × Dispatcher → Outcome × Dispatcher
unfolding after_payload
send_check env device image (err _, st) = (raised, st)
send_check env device image (ok token, st) =
    after_payload env device image (make_check_payload token st)

-- The loop's body, once the device may receive provisioning.
unfoldable pub dispatch_code :
    Env → Device → ImageRow → Option Text × Db → Dispatcher → Outcome × Dispatcher
unfolding create_dispatch_token send_check
dispatch_code env device image (none, db) st = (raised, with_db db st)
dispatch_code env device image (some code, db) st =
    send_check env device image
      (create_dispatch_token env code device.ieee image.sha256 (with_db db st))

unfoldable pub dispatch_device : Env → ImageRow → Device → Dispatcher → Outcome × Dispatcher
unfolding dispatch_code save_dispatch save_device_provisioning ensure_secure_dispatch_device
dispatch_device env image device st = elim (ensure_secure_dispatch_device device.ieee st.db) [
  | ok _ ↦
      dispatch_code env device image (ensure_image_code env.crypto env.now image.filename st.db) st
  | err _ ↦ elim (save_device_provisioning env device image SendStatus.denied true st.db) [
    | none ↦ (raised, st)
    | some db' ↦ (refused, with_db (save_dispatch env device.ieee image false db') st)
  ]
]

abbrev with_result :
    Text → Outcome → Option (List (Text × Outcome)) → Option (List (Text × Outcome))
with_result ieee outcome none = none
with_result ieee outcome (some results) = some ((ieee, outcome) ∷ results)

-- A device's outcome before those of the devices after it; an exception ends the loop, and then there
-- is no answer.
unfoldable pub after_device :
    Text
    → Outcome × Dispatcher
    → Option (List (Text × Outcome)) × Dispatcher
    → Option (List (Text × Outcome)) × Dispatcher
after_device ieee (raised, st') _ = (none, st')
after_device ieee (refused, _) (results, st'') = (with_result ieee refused results, st'')
after_device ieee (delivered, _) (results, st'') = (with_result ieee delivered results, st'')
after_device ieee (undelivered, _) (results, st'') = (with_result ieee undelivered results, st'')

-- The loop over the selected devices.
unfoldable pub dispatch_all :
    Env → ImageRow → List Device → Dispatcher → Option (List (Text × Outcome)) × Dispatcher
unfolding after_device
dispatch_all env image [] st = (some [], st)
dispatch_all env image (device ∷ devices) st =
    let here = dispatch_device env image device st in
    after_device device.ieee here (dispatch_all env image devices here.1)
