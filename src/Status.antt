-- ===== src/Status.antt =====
-- status_listener.py: the signed boot status (S frames) of the devices, from the MQTT message to the
-- table of certificates. The broker connection and the options file are left out. `json.loads` of the
-- payload is the parameter `loads`; of its value only the members that the listener reads are told
-- apart. Log lines are left out.
pub mod Authentic
use ota_server.Base.{
  ℕ, ◌-◌, ◌^◌, Text, codes, ℤ, pos, negsuc, Option, none, some, List, [], ◌∷◌, ◌++◌, map, Bool,
  true, false, ◌&&◌, ◌||◌, not, ◌==◌, ltb, leb, if◌then◌else◌, text_eq, length, all, starts_with,
  split, decimal, parse_int, lower, is_hex, drop, Dict, get,
}
use ota_server.Base.Result.{Result, ok, err, ◌>>=◌, ◌>>◌, raise_if, or_raise}
use ota_server.Crypto.{Crypto}
use ota_server.Db.{Db, CertRow}
use ota_server.Encoding.{b64u_decode}
use ota_server.Ident.{is_hex_letter, normalize_device_id}
use ota_server.Registry.{get_registered_device, accept_status_counter}
use ota_server.Grants.Tokens.{has_bar}

abbrev pub max_counter : ℕ
max_counter = 2 ^ 63 - 1

abbrev pub max_fw_version_len : ℕ
max_fw_version_len = 63

-- A member of a JSON object, and a JSON value.
pub data Member : Type 0 where
  string : Text → Member
  not_string : Member

pub data Json : Type 0 where
  object : Dict Member → Json
  not_object : Json

pub record Env : Type 0 where
  pub crypto : Crypto
  -- int(time.time())
  pub now : ℕ
  -- json.loads(payload.decode("utf-8")); `none` where it raises
  pub loads : Text → Option Json
  pub base_topic : Text
  pub expected_ecosystem : Text

-- The exceptions of `verify_and_store`.
pub data Error : Type 0 where
  bad_topic malformed bad_counter bad_version bad_signature_length not_registered wrong_ecosystem
        not_valid bad_signature registry_error :
      Error

unfoldable pub compact : Text → Text
compact topic_device =
    let name = map lower topic_device in if starts_with (codes "0x") name then drop 2 name else name

unfoldable pub topic_device_id : Text → Option Text
unfolding is_hex_letter compact
topic_device_id topic_device =
    let name = compact topic_device in
    if length name == 16 && all is_hex_letter name then normalize_device_id name else none

unfoldable pub string_member : Option Member → Option Text
string_member (some (string payload)) =
    if starts_with (codes "S|") payload then some payload else none
string_member (some not_string) = none
string_member none = none

unfoldable pub status_payload : Option Json → Option Text
unfolding string_member
status_payload (some (object state)) = string_member (get (codes "ota_transport") state)
status_payload (some not_object) = none
status_payload none = none

-- `extract_status`; `none` where `on_message` returns at once.
unfoldable pub extract_status : Env → Text → Text → Option (Text × Text)
unfolding status_payload
extract_status env topic payload = elim (split b'/' topic) [
  | base ∷ name ∷ [] ↦
      if not (text_eq base env.base_topic) || text_eq name []
      then none
      else elim (status_payload (env.loads payload)) [
        | some frame ↦ some (name, frame)
        | none ↦ none
      ]
  | _ ↦ none
]

-- The frame, up to the signature bytes.
pub record Frame : Type 0 where
  pub counter : ℕ
  pub fw_version : Text
  pub signature_raw : Text

unfoldable pub status_counter_in_range : ℤ → Option ℕ
status_counter_in_range (negsuc _) = none
status_counter_in_range (pos c) = if c == 0 || ltb max_counter c then none else some c

abbrev pub make_frame : ℕ → Text → Text → Frame
make_frame c version raw = record { counter = c; fw_version = version; signature_raw = raw }

unfoldable pub parse_status : List Text → Result Error Frame
unfolding status_counter_in_range has_bar
parse_status (tag ∷ counter ∷ fw_version ∷ signature ∷ []) = do
  raise_if (not (text_eq tag (codes "S"))) malformed
  value ← or_raise (parse_int counter) malformed
  c ← or_raise (status_counter_in_range value) bad_counter
  raise_if
      (text_eq fw_version [] || ltb max_fw_version_len (length fw_version) || has_bar fw_version)
      bad_version
  raw ← or_raise (b64u_decode signature) bad_signature_length
  raise_if (not (length raw == 64)) bad_signature_length
  ok (make_frame c fw_version raw)
parse_status _ = err malformed

-- f"S|{device_id}|{counter}|{fw_version}"
unfoldable pub status_canonical : Text → ℕ → Text → Text
unfolding decimal
status_canonical device_id counter fw_version =
    codes "S|" ++ (device_id ++ (b'|' ∷ (decimal counter ++ (b'|' ∷ fw_version))))

-- The registered certificate and the signature.
unfoldable pub check_status : Env → Text → Frame → Option CertRow → Result Error CertRow
unfolding status_canonical
check_status env device_id frame registered = do
  row ← or_raise registered not_registered
  raise_if (not (text_eq row.ecosystem env.expected_ecosystem)) wrong_ecosystem
  raise_if (ltb env.now row.certificate_not_before || ltb row.certificate_not_after env.now)
      not_valid
  raise_if (not (all (λ c. ltb c 128) (status_canonical device_id frame.counter frame.fw_version)))
      bad_version
  raise_if
      (not (
        env.crypto.verify row.public_key_der frame.signature_raw
          (status_canonical device_id frame.counter frame.fw_version)))
      bad_signature
  ok row

-- What `verify_and_store` returns.
pub record Answer : Type 0 where
  pub accepted : Bool
  pub device_id : Text
  pub counter : ℕ
  pub fw_version : Text

abbrev pub make_answer : Text → Frame → Bool → Answer
make_answer n frame fresh = record {
  accepted = fresh;
  device_id = n;
  counter = frame.counter;
  fw_version = frame.fw_version;
}

unfoldable pub store_status : Env → Text → Frame → Db → Result Error Answer × Db
store_status env n frame db =
    let (answer, db') = accept_status_counter env.now n (pos frame.counter) frame.fw_version db in
    (elim answer [ ok fresh ↦ ok (make_answer n frame fresh) | err _ ↦ err registry_error ], db')

-- `get_registered_device` and what follows it.
unfoldable pub verify_frame : Env → Text → Frame → Db → Result Error Answer × Db
unfolding check_status store_status
verify_frame env n frame db = elim (get_registered_device n db) [
  | err _ ↦ (err registry_error, db)
  | ok registered ↦ elim (check_status env n frame registered) [
    | err e ↦ (err e, db)
    | ok row ↦ store_status env n frame db
  ]
]

unfoldable pub verify_and_store : Env → Text → Text → Db → Result Error Answer × Db
unfolding parse_status verify_frame
verify_and_store env topic_device payload db = elim (topic_device_id topic_device) [
  | none ↦ (err bad_topic, db)
  | some n ↦ elim (parse_status (split b'|' payload)) [
    | err e ↦ (err e, db)
    | ok frame ↦ verify_frame env n frame db
  ]
]

unfoldable pub on_message : Env → Text → Text → Db → Db
unfolding extract_status
on_message env topic payload db = elim (extract_status env topic payload) [
  | none ↦ db
  | some (name, frame) ↦ (verify_and_store env name frame db).1
]
