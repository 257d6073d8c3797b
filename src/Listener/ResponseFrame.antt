-- ===== src/Listener/ResponseFrame.antt =====
-- The R and T frames of mqtt_listener.py: provisioning goes out, and completion is stored.
use ota_server.Base.{
  ℕ, Text, codes, pos, negsuc, none, some, List, [], ◌∷◌, Bool, true, false, ◌&&◌, ◌||◌, not, ◌==◌,
  if◌then◌else◌, text_eq, split, parse_int, parse_hex, get, put, remove_key,
}
use ota_server.Base.Result.{ok, err}
use ota_server.Db.{AttemptState}
use ota_server.Registry.{save_provisioning_context}
use ota_server.Transport.{
  SessionState, SecureSession, is_wait_response, verify_response, build_provisioning,
}
use ota_server.Listener.State.{
  Listener, Env, with_db, timeout_passes, publish_command, pop_if_same, set_attempt,
}

-- The end of the R handler: the encrypted provisioning goes out.
unfoldable pub send_provisioning : Env → Text → Text → SecureSession → Listener → Listener
send_provisioning env n topic_device session l =
    let failed =
      set_attempt env n session.counter AttemptState.error true (pop_if_same n session.serial l) in
    elim env.config [
      | none ↦ failed
      | some config ↦ elim (build_provisioning env.crypto session config) [
        | err _ ↦ failed
        | ok wire ↦ elim (publish_command env topic_device wire l) [
          | none ↦ failed
          | some sent ↦ set_attempt env n session.counter AttemptState.provisioning_sent false sent
        ]
      ]
    ]

-- The second locked part: the session is still the same object and still waits.
unfoldable pub take_response : Env → Text → Text → SecureSession → Listener → Listener
take_response env n topic_device session l = elim (get n l.pending_sessions) [
  | none ↦ l
  | some current ↦
      if not (current.serial == session.serial) || not (is_wait_response current.state)
      then l
      else let session' = record session { state = SessionState.provisioning_sent } in
        send_provisioning env n topic_device session'
          (record l { pending_sessions = put n session' l.pending_sessions })
]

unfoldable pub on_response : Env → List (ℕ × ℕ) → Text → Text → Text → Listener → Listener
on_response env pause n topic_device payload l = elim (get n l.pending_sessions) [
  | none ↦ l
  | some session ↦
      if not (is_wait_response session.state)
      then l
      else if not (verify_response env.crypto session payload)
      then set_attempt env n session.counter AttemptState.error true
          (pop_if_same n session.serial l)
      else take_response env n topic_device session (
          timeout_passes pause
            (set_attempt env n session.counter AttemptState.response_seen false l))
]

-- `PROVISIONING_FINISHED_STATUS`, with `enabled` 0: the two numbers of a finished T frame.
unfoldable pub is_finished : List Text → Bool
is_finished (tag ∷ enabled ∷ status ∷ []) = text_eq tag (codes "T") && elim (parse_int enabled) [
  | none ↦ false
  | some (pos e) ↦ elim (parse_hex status) [
    | none ↦ false
    | some (pos s) ↦ e == 0 && s == 0x42
    | some (negsuc _) ↦ false
  ]
  | some (negsuc _) ↦ false
]
is_finished _ = false

unfoldable pub complete : Env → Text → SecureSession → Listener → Listener
complete env n session l =
    let (saved, db') = save_provisioning_context env.now n session.counter session.random8 l.db in
    elim saved [
      | err _ ↦ set_attempt env n session.counter AttemptState.error true (with_db db' l)
      | ok _ ↦ set_attempt env n session.counter AttemptState.completed false (with_db db' l)
    ]

-- `handle_control_state`
unfoldable pub handle_control_state : Env → Text → Text → Listener → Listener
handle_control_state env n payload l =
    if not (is_finished (split b'|' payload)) then l else elim (get n l.pending_sessions) [
      | none ↦ l
      | some session ↦
          if is_wait_response session.state
          then l
          else complete env n session
              (record l { pending_sessions = remove_key n l.pending_sessions })
    ]
