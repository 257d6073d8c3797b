-- ===== src/Listener/State.antt =====
-- The state of mqtt_listener.py, its timeout loop, the names of topics and what its handlers share.
use ota_server.Base.{
  ℕ, ◌+◌, ◌-◌, ◌^◌, Text, codes, Option, none, some, List, [], ◌∷◌, map, Bool, true, ◌&&◌, ◌==◌,
  leb, if◌then◌else◌, length, all, starts_with, lower, drop, Dict, get, remove_key,
}
use ota_server.Crypto.{Crypto}
use ota_server.Db.{Db, AttemptState}
use ota_server.Ident.{is_hex_letter, normalize_device_id}
use ota_server.Activity.{provisioning_state}
use ota_server.Transport.{SecureSession, Config}

abbrev pub max_counter : ℕ
max_counter = 2 ^ 63 - 1

abbrev pub session_timeout_seconds : ℕ
session_timeout_seconds = 120

-- The state of the listener process, with the shared database.
pub record Listener : Type 0 where
  pub pending_sessions : Dict SecureSession
  pub next_serial : ℕ
  pub outbox : List (Text × Text)
  pub db : Db

-- What the environment answers while a message is handled.
pub record Env : Type 0 where
  pub crypto : Crypto
  -- int(time.time()) and time.monotonic()
  pub now : ℕ
  pub mono : ℕ
  -- os.urandom(8)
  pub random8 : Text
  -- `client.publish` reports MQTT_ERR_SUCCESS
  pub publish_ok : Bool
  -- `provisioning_from_options(options)`; `none` where it raises
  pub config : Option Config
  pub expected_ecosystem : Text

abbrev pub with_db : Db → Listener → Listener
with_db db l = record l { db = db }

-- One pass of `session_timeout_loop`: sessions of 120 seconds and more leave the table.
unfoldable pub is_expired : ℕ → SecureSession → Bool
is_expired mono session = leb (session.created_mono + session_timeout_seconds) mono

-- The loop over `list(pending_sessions.items())`, which pops the expired keys.
unfoldable pub expire : ℕ → Dict SecureSession → Dict SecureSession → Dict SecureSession
unfolding is_expired
expire mono [] d = d
expire mono ((k, s) ∷ items) d = expire mono items (if is_expired mono s then remove_key k d else d)

unfoldable pub record_timeouts : ℕ → ℕ → Dict SecureSession → Db → Db
record_timeouts now mono [] db = db
record_timeouts now mono ((k, s) ∷ d) db =
    let db' =
      if is_expired mono s
      then provisioning_state now k s.counter AttemptState.timeout true db
      else db in
    record_timeouts now mono d db'

unfoldable pub timeout_pass : ℕ → ℕ → Listener → Listener
unfolding expire record_timeouts
timeout_pass now mono l = record l {
  pending_sessions = expire mono l.pending_sessions l.pending_sessions;
  db = record_timeouts now mono l.pending_sessions l.db;
}

-- The passes that the timeout thread makes while a callback is between its locked parts.
unfoldable pub timeout_passes : List (ℕ × ℕ) → Listener → Listener
unfolding timeout_pass
timeout_passes [] l = l
timeout_passes ((now, mono) ∷ pause) l = timeout_passes pause (timeout_pass now mono l)

-- `topic_device_id`: the name of the topic as a compact identity.
unfoldable pub remove_prefix_0x : Text → Text
remove_prefix_0x s = if starts_with (codes "0x") s then drop 2 s else s

unfoldable pub topic_device_id : Text → Option Text
unfolding remove_prefix_0x is_hex_letter
topic_device_id topic_device =
    let value = remove_prefix_0x (map lower topic_device) in
    if length value == 16 && all is_hex_letter value then normalize_device_id value else none

-- `publish_command`: the topic and the wire go out, or it raises.
unfoldable pub publish_command : Env → Text → Text → Listener → Option Listener
publish_command env topic_device wire l =
    if env.publish_ok then some (record l { outbox = (topic_device, wire) ∷ l.outbox }) else none

-- `if pending_sessions.get(device_id) is session: pending_sessions.pop(device_id, None)`
unfoldable pub pop_if_same : Text → ℕ → Listener → Listener
pop_if_same n serial l = elim (get n l.pending_sessions) [
  | none ↦ l
  | some current ↦
      if current.serial == serial
      then record l { pending_sessions = remove_key n l.pending_sessions }
      else l
]

abbrev pub set_attempt : Env → Text → ℕ → AttemptState → Bool → Listener → Listener
set_attempt env n counter state failed l =
    with_db (provisioning_state env.now n counter state failed l.db) l
