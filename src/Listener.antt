-- ===== src/Listener.antt =====
-- mqtt_listener.py: the provisioning state machine that answers the frames H, R and T of the devices,
-- the F confirmation, and the timeout thread. Log lines and the table of broker acknowledgements,
-- which only logs read, are left out; the publish of a command is an entry of `outbox`.
-- MQTT callbacks run in one thread; the timeout thread may run between the two locked parts of the R
-- and the H handler, which the argument `pause` stands for.
pub mod State
pub mod HelloFrame
pub mod ResponseFrame
pub mod Unsent
pub mod Authentic
pub mod Timeouts
pub mod Replay
use ota_server.Base.{
  ℕ, ◌-◌, Text, codes, none, some, List, [], ◌∷◌, map, false, if◌then◌else◌, text_eq, starts_with,
  split, lower,
}
use ota_server.Db.{TransferState}
use ota_server.Activity.{firmware_device_state}
use ota_server.Grants.Downloads.{confirm_completed_download_b64}
use ota_server.Listener.State.{Listener, Env, with_db, topic_device_id}
use ota_server.Listener.HelloFrame.{on_hello}
use ota_server.Listener.ResponseFrame.{on_response, handle_control_state}

-- The F frame: a device confirms a transfer that HTTPS completed.
unfoldable pub confirm_parts : Env → Text → List Text → Listener → Listener
confirm_parts env n (tag ∷ random ∷ []) l =
    if text_eq random [] then l else elim (confirm_completed_download_b64 n random l.db) [
      | none ↦ l
      | some (g, s) ↦
          with_db
            (firmware_device_state env.now n (map lower g.sha256)
              (record {
                filename = s.firmware_filename;
                version = g.version;
                code = some g.code;
                state = TransferState.device_confirmed;
                token_expires_at = none;
                failed = false;
              })
              l.db)
            l
    ]
confirm_parts env n _ l = l

-- `on_message`, from the topic's device name and the text of `ota_transport`.
unfoldable pub on_payload : Env → List (ℕ × ℕ) → Text → Text → Text → Listener → Listener
on_payload env pause n topic_device payload l =
    if starts_with (codes "T|") payload
    then handle_control_state env n payload l
    else if starts_with (codes "F|") payload
    then confirm_parts env n (split b'|' payload) l
    else if starts_with (codes "R|") payload
    then on_response env pause n topic_device payload l
    else if starts_with (codes "H|") payload
    then on_hello env pause n topic_device payload l
    else l

unfoldable pub on_message : Env → List (ℕ × ℕ) → Text → Text → Listener → Listener
on_message env pause topic_device payload l = elim (topic_device_id topic_device) [
  | none ↦ l
  | some n ↦ on_payload env pause n topic_device payload l
]
