-- ===== src/Listener/Unsent.antt =====
-- The steps of mqtt_listener.py that bring no session to PROVISIONING_SENT.
use ota_server.Base.{
  ℕ, suc, ℤ, pos, negsuc, ◌≡◌, Text, Option, none, some, List, [], ◌∷◌, Bool, true, false, not,
  if◌then◌else◌, text_eq, Dict, get, put, remove_key, get-put, get-remove_key, arith, Option-cases,
  Bool-cases, inl, inr,
}
use ota_server.Base.Result.{Result, ok, err, Result-cases}
use ota_server.Db.{CertRow, AttemptState}
use ota_server.Transport.{SecureSession, is_wait_response, build_challenge}
use ota_server.Listener.State.{
  Listener, Env, with_db, set_attempt, is_expired, expire, timeout_pass, timeout_passes,
  pop_if_same, publish_command,
}
use ota_server.Listener.HelloFrame.{
  Hello, HelloError, accepted, stale, send_challenge, open_session, start_session, record_rejected,
  after_hello, on_hello, hello_counter, verify_single_hello,
}
use ota_server.Listener.ResponseFrame.{send_provisioning, complete, handle_control_state}
use ota_server.Listener.{confirm_parts}

-- The table holds a session of `k` that waits for the device's completion.
abbrev pub sent_session : Option SecureSession → Bool
sent_session none = false
sent_session (some s) = not (is_wait_response s.state)

abbrev pub is_sent : Text → Dict SecureSession → Bool
is_sent k d = sent_session (get k d)

-- No session has moved to PROVISIONING_SENT.
abbrev pub NoNewSent : Dict SecureSession → Dict SecureSession → Type 0
NoNewSent d d' = (k : Text) → is_sent k d' ≡ true → is_sent k d ≡ true

is_sent-remove_key :
    (n k : Text) (d : Dict SecureSession)
    → is_sent k (remove_key n d) ≡ (if text_eq n k then false else is_sent k d)
is_sent-remove_key n k d = ground (arith, get-remove_key n k d)

pub is_sent-put :
    (n k : Text) (s : SecureSession) (d : Dict SecureSession)
    → is_sent k (put n s d) ≡ (if text_eq n k then not (is_wait_response s.state) else is_sent k d)
is_sent-put n k s d = ground (arith, get-put n k s d)

remove-NoNewSent : (n : Text) (d : Dict SecureSession) → NoNewSent d (remove_key n d)
remove-NoNewSent n d k h = ground (arith, is_sent-remove_key n k d, h)

put_waiting-NoNewSent :
    (n : Text) (s : SecureSession) (d : Dict SecureSession)
    → is_wait_response s.state ≡ true
    → NoNewSent d (put n s d)
put_waiting-NoNewSent n s d w k h = ground (arith, is_sent-put n k s d, h, w)

expire-NoNewSent : (mono : ℕ) (items d : Dict SecureSession) → NoNewSent d (expire mono items d)
unfolding expire
expire-NoNewSent mono [] d k h = h
expire-NoNewSent mono ((j, s) ∷ items) d k h = elim (Bool-cases (is_expired mono s)) [
  | inl gone ↦
      remove-NoNewSent j d k (expire-NoNewSent mono items (remove_key j d) k (rw gone at h))
  | inr stays ↦ expire-NoNewSent mono items d k (rw stays at h)
]

-- The same of listeners.
abbrev pub KeepsUnsent : Listener → Listener → Type 0
KeepsUnsent l l' = NoNewSent l.pending_sessions l'.pending_sessions

pub timeout_passes-KeepsUnsent :
    (pause : List (ℕ × ℕ)) (l : Listener) → KeepsUnsent l (timeout_passes pause l)
unfolding timeout_passes
timeout_passes-KeepsUnsent [] l k h = h
timeout_passes-KeepsUnsent ((now, mono) ∷ pause) l k h =
    expire-NoNewSent mono l.pending_sessions l.pending_sessions k
      (timeout_passes-KeepsUnsent pause (timeout_pass now mono l) k h)

pub pop_if_same-KeepsUnsent :
    (n : Text) (serial : ℕ) (l : Listener) → KeepsUnsent l (pop_if_same n serial l)
unfolding pop_if_same
pop_if_same-KeepsUnsent n serial l k h = ground (arith, remove-NoNewSent n l.pending_sessions k, h)

send_challenge-KeepsUnsent :
    (env : Env) (n topic : Text) (s : SecureSession) (l : Listener)
    → KeepsUnsent l (send_challenge env n topic s l)
unfolding send_challenge publish_command
send_challenge-KeepsUnsent env n topic s l k h =
    ground (arith, pop_if_same-KeepsUnsent n s.serial l k, h)

open_session-KeepsUnsent :
    (env : Env) (n topic : Text) (s : SecureSession) (l : Listener)
    → is_wait_response s.state ≡ true
    → KeepsUnsent l (open_session env n topic s l)
unfolding open_session
open_session-KeepsUnsent env n topic s l w k h = ground (
  arith,
  h,
  send_challenge-KeepsUnsent env n topic s
      (record l { pending_sessions = put n s l.pending_sessions }) k,
  put_waiting-NoNewSent n s l.pending_sessions w k,
)

build_challenge-waits :
    (env : Env) (serial : ℕ) (n topic : Text) (counter : ℕ) (der : Text) (s : SecureSession)
    → build_challenge env.crypto serial env.random8 n topic counter der env.mono ≡ ok s
    → is_wait_response s.state ≡ true
unfolding build_challenge
build_challenge-waits env serial n topic counter der s h = ground arith

start_session-KeepsUnsent :
    (env : Env) (pause : List (ℕ × ℕ)) (n topic : Text) (c : ℕ) (row : CertRow) (l : Listener)
    → KeepsUnsent l (start_session env pause n topic c row l)
unfolding start_session
start_session-KeepsUnsent env pause n topic c row l k h =
    elim (Result-cases (
      build_challenge env.crypto l.next_serial env.random8 n topic c row.public_key_der env.mono)) [
        | inr (e, failed) ↦ rw (failed, start_session) at h
        | inl (s, built) ↦
            let seen = set_attempt env n c AttemptState.hello_seen false l in
            let resumed = record seen { next_serial = suc l.next_serial } in
            timeout_passes-KeepsUnsent pause resumed k (
              open_session-KeepsUnsent env n topic s (timeout_passes pause resumed)
                (build_challenge-waits env l.next_serial n topic c row.public_key_der s built) k
                (rw (built, start_session) at h))
      ]

record_rejected-KeepsUnsent :
    (env : Env) (n : Text) (c : Option ℤ) (l : Listener) → KeepsUnsent l (record_rejected env n c l)
unfolding record_rejected
record_rejected-KeepsUnsent env n none l k h = h
record_rejected-KeepsUnsent env n (some (negsuc _)) l k h = h
record_rejected-KeepsUnsent env n (some (pos c)) l k h = ground (arith, h)

after_hello-KeepsUnsent :
    (env : Env) (pause : List (ℕ × ℕ)) (n topic payload : Text) (r : Result HelloError Hello)
    (l : Listener)
    → KeepsUnsent l (after_hello env pause n topic payload r l)
unfolding after_hello
after_hello-KeepsUnsent env pause n topic payload (err _) l k h =
    record_rejected-KeepsUnsent env n (hello_counter payload) l k h
after_hello-KeepsUnsent env pause n topic payload (ok (stale _)) l k h = h
after_hello-KeepsUnsent env pause n topic payload (ok (accepted c row)) l k h =
    start_session-KeepsUnsent env pause n topic c row l k h

pub on_hello-KeepsUnsent :
    (env : Env) (pause : List (ℕ × ℕ)) (n topic payload : Text) (l : Listener)
    → KeepsUnsent l (on_hello env pause n topic payload l)
unfolding on_hello
on_hello-KeepsUnsent env pause n topic payload l k h = ground (
  arith,
  h,
  after_hello-KeepsUnsent env pause n topic payload (verify_single_hello env payload n l.db).0
      (with_db (verify_single_hello env payload n l.db).1 l) k,
)

pub send_provisioning-KeepsUnsent :
    (env : Env) (n topic : Text) (s : SecureSession) (l : Listener)
    → KeepsUnsent l (send_provisioning env n topic s l)
unfolding send_provisioning publish_command
send_provisioning-KeepsUnsent env n topic s l k h =
    ground (arith, h, pop_if_same-KeepsUnsent n s.serial l k)

complete-KeepsUnsent :
    (env : Env) (n : Text) (s : SecureSession) (l : Listener) → KeepsUnsent l (complete env n s l)
unfolding complete
complete-KeepsUnsent env n s l k h = ground (arith, h)

pub handle_control_state-KeepsUnsent :
    (env : Env) (n payload : Text) (l : Listener)
    → KeepsUnsent l (handle_control_state env n payload l)
unfolding handle_control_state
handle_control_state-KeepsUnsent env n payload l k h =
    elim (Option-cases (get n l.pending_sessions)) [
      | inl none_there ↦ ground (arith, h, none_there)
      | inr (s, there) ↦
          let popped = record l { pending_sessions = remove_key n l.pending_sessions } in
          ground (
            arith,
            h,
            there,
            complete-KeepsUnsent env n s popped k,
            remove-NoNewSent n l.pending_sessions k,
          )
    ]

pub confirm_parts-KeepsUnsent :
    (env : Env) (n : Text) (parts : List Text) (l : Listener)
    → KeepsUnsent l (confirm_parts env n parts l)
unfolding confirm_parts
confirm_parts-KeepsUnsent env n [] l k h = h
confirm_parts-KeepsUnsent env n (a ∷ []) l k h = h
confirm_parts-KeepsUnsent env n (a ∷ b ∷ []) l k h = ground (arith, h)
confirm_parts-KeepsUnsent env n (a ∷ b ∷ c ∷ more) l k h = h
