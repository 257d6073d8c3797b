-- ===== src/Listener/Authentic.antt =====
-- `on_message` of mqtt_listener.py: how a session gets to PROVISIONING_SENT.
use ota_server.Base.{
  ℕ, ◌≡◌, refl, ap, sym, ◌∙◌, Text, codes, some, List, Bool, true, false, text_eq, text_eq→eq,
  starts_with, split, get, put, arith, Option-cases, Bool-cases, inl, inr,
}
use ota_server.Db.{AttemptState}
use ota_server.Transport.{SecureSession, SessionState, is_wait_response, verify_response}
use ota_server.Listener.State.{Listener, Env, set_attempt, timeout_passes, topic_device_id}
use ota_server.Listener.ResponseFrame.{take_response, on_response}
use ota_server.Listener.{on_payload, on_message}
use ota_server.Listener.Unsent.{
  confirm_parts-KeepsUnsent, handle_control_state-KeepsUnsent, is_sent, is_sent-put,
  on_hello-KeepsUnsent, pop_if_same-KeepsUnsent, send_provisioning-KeepsUnsent,
  timeout_passes-KeepsUnsent,
}

take_response-sent :
    (env : Env) (n topic k : Text) (s : SecureSession) (l : Listener)
    → is_sent k (take_response env n topic s l).pending_sessions ≡ true
    → is_sent k l.pending_sessions ≡ false
    → k ≡ n
unfolding take_response
take_response-sent env n topic k s l h before = elim (Bool-cases (text_eq n k)) [
  | inl same ↦ sym (text_eq→eq n k same)
  | inr differs ↦
      let s' = record s { state = SessionState.provisioning_sent } in
      absurd (
        ground (
          arith,
          h,
          before,
          differs,
          is_sent-put n k s' l.pending_sessions,
          send_provisioning-KeepsUnsent env n topic s'
              (record l { pending_sessions = put n s' l.pending_sessions }) k,
        ))
]

unsent_before : {a b : Bool} → (b ≡ true → a ≡ true) → a ≡ false → b ≡ false
unsent_before {b = true} step h = absurd (cc (step refl, h))
unsent_before {b = false} step h = refl

on_response-sent :
    (env : Env) (pause : List (ℕ × ℕ)) (n topic payload k : Text) (l : Listener)
    → is_sent k (on_response env pause n topic payload l).pending_sessions ≡ true
    → is_sent k l.pending_sessions ≡ false
    → (k ≡ n)
      × (s : SecureSession) × (get n l.pending_sessions ≡ some s)
      × (verify_response env.crypto s payload ≡ true)
unfolding on_response
on_response-sent env pause n topic payload k l h before =
    elim (Option-cases (get n l.pending_sessions)) [
      | inl none_there ↦ absurd (ground (arith, h, before, none_there))
      | inr (s, there) ↦ elim (Bool-cases (is_wait_response s.state)) [
        | inr busy ↦ absurd (ground (arith, h, before, there, busy))
        | inl waits ↦ elim (Bool-cases (verify_response env.crypto s payload)) [
          | inr forged ↦ absurd (
              ground
                (arith, h, before, there, waits, forged, pop_if_same-KeepsUnsent n s.serial l k))
          | inl good ↦
              let seen = set_attempt env n s.counter AttemptState.response_seen false l in
              let later = timeout_passes pause seen in
              let still = unsent_before (timeout_passes-KeepsUnsent pause seen k) before in
              (
                take_response-sent env n topic k s later (rw (there, waits, good, on_response) at h)
                    still,
                s,
                there,
                good,
              )
        ]
      ]
    ]

on_payload-sent :
    (env : Env) (pause : List (ℕ × ℕ)) (n topic payload k : Text) (l : Listener)
    → is_sent k (on_payload env pause n topic payload l).pending_sessions ≡ true
    → is_sent k l.pending_sessions ≡ false
    → (k ≡ n)
      × (s : SecureSession) × (get n l.pending_sessions ≡ some s)
      × (verify_response env.crypto s payload ≡ true)
unfolding on_payload
on_payload-sent env pause n topic payload k l h before =
    elim (Bool-cases (starts_with (codes "T|") payload)) [
      | inl t ↦
          absurd (ground (arith, h, before, t, handle_control_state-KeepsUnsent env n payload l k))
      | inr not_t ↦ elim (Bool-cases (starts_with (codes "F|") payload)) [
        | inl f ↦ absurd (
            ground (
              arith,
              h,
              before,
              not_t,
              f,
              confirm_parts-KeepsUnsent env n (split b'|' payload) l k,
            ))
        | inr not_f ↦ elim (Bool-cases (starts_with (codes "R|") payload)) [
          | inl r ↦
              on_response-sent env pause n topic payload k l (rw (not_t, not_f, r, on_payload) at h)
                before
          | inr not_r ↦ absurd (
              ground (
                arith,
                h,
                before,
                not_t,
                not_f,
                not_r,
                on_hello-KeepsUnsent env pause n topic payload l k,
              ))
        ]
      ]
    ]

-- If after a message the session of `k` is in PROVISIONING_SENT and before it was not, then the topic
-- names the device `k`, `k` had a session, and `verify_response` accepts the payload for that session,
-- whatever timeouts ran while the message was handled.
pub on_message-sent :
    (env : Env) (pause : List (ℕ × ℕ)) (topic payload k : Text) (l : Listener)
    → is_sent k (on_message env pause topic payload l).pending_sessions ≡ true
    → is_sent k l.pending_sessions ≡ false
    → (topic_device_id topic ≡ some k)
      × (s : SecureSession) × (get k l.pending_sessions ≡ some s)
      × (verify_response env.crypto s payload ≡ true)
unfolding on_message
on_message-sent env pause topic payload k l h before = elim (Option-cases (topic_device_id topic)) [
  | inl no_id ↦ absurd (ground (arith, h, before, no_id))
  | inr (n, id) ↦
      let (same, s, there, good) =
        on_payload-sent env pause n topic payload k l (rw (id, on_message) at h) before in
      (id ∙ ap some (sym same), s, ap (λ j. get j l.pending_sessions) same ∙ there, good)
]
