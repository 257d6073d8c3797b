-- ===== src/Listener/HelloFrame.antt =====
-- The H frame of mqtt_listener.py: `verify_single_hello`, and the handler that answers with a challenge.
use ota_server.Base.{
  ℕ, suc, Text, codes, ℤ, pos, negsuc, Option, none, some, List, [], ◌∷◌, ◌++◌, true, false, ◌||◌,
  not, ◌==◌, ltb, if◌then◌else◌, text_eq, length, split, decimal, parse_int, get, put,
}
use ota_server.Base.Result.{Result, ok, err, ◌>>=◌, ◌>>◌, raise_if, or_raise}
use ota_server.Db.{Db, CertRow, AttemptState}
use ota_server.Encoding.{b64u_decode}
use ota_server.Registry.{find_cert, accept_hello_counter}
use ota_server.Transport.{SecureSession, build_challenge}
use ota_server.Listener.State.{
  max_counter, Listener, Env, with_db, timeout_passes, publish_command, pop_if_same, set_attempt,
}

-- What `verify_single_hello` returns.
pub data Hello : Type 0 where
  accepted : ℕ → CertRow → Hello
  stale : ℕ → Hello

-- The exceptions of `verify_single_hello`.
pub data HelloError : Type 0 where
  malformed bad_counter bad_signature_length not_registered wrong_ecosystem not_valid bad_signature
        registry_error :
      HelloError

unfoldable pub hello_counter_in_range : ℤ → Option ℕ
hello_counter_in_range (negsuc _) = none
hello_counter_in_range (pos c) = if c == 0 || ltb max_counter c then none else some c

-- f"H|{device_id}|{counter}"
unfoldable pub hello_canonical : Text → ℕ → Text
unfolding decimal
hello_canonical device_id counter = codes "H|" ++ (device_id ++ (b'|' ∷ decimal counter))

-- The checks of the registered certificate and of the signature.
unfoldable pub check_hello : Env → Text → ℕ → Text → Db → Result HelloError CertRow
unfolding hello_canonical
check_hello env device_id counter raw db = do
  row ← or_raise (find_cert device_id db) not_registered
  raise_if (not (text_eq row.ecosystem env.expected_ecosystem)) wrong_ecosystem
  raise_if (ltb env.now row.certificate_not_before || ltb row.certificate_not_after env.now)
      not_valid
  raise_if (not (env.crypto.verify row.public_key_der raw (hello_canonical device_id counter)))
      bad_signature
  ok row

-- The parts of the frame, up to the signature bytes.
unfoldable pub parse_hello : List Text → Result HelloError (ℕ × Text)
unfolding hello_counter_in_range
parse_hello (tag ∷ counter ∷ signature ∷ []) = do
  raise_if (not (text_eq tag (codes "H"))) malformed
  value ← or_raise (parse_int counter) bad_counter
  c ← or_raise (hello_counter_in_range value) bad_counter
  raw ← or_raise (b64u_decode signature) bad_signature_length
  raise_if (not (length raw == 64)) bad_signature_length
  ok (c, raw)
parse_hello _ = err malformed

unfoldable pub accept_hello : Env → Text → ℕ → CertRow → Db → Result HelloError Hello × Db
accept_hello env device_id c row db =
    let (answer, db') = accept_hello_counter env.now device_id (pos c) db in
    (
      elim answer [
        | ok fresh ↦ ok (if fresh then accepted c row else stale c)
        | err _ ↦ err registry_error
      ],
      db',
    )

unfoldable pub after_parse :
    Env → Text → Result HelloError (ℕ × Text) → Db → Result HelloError Hello × Db
after_parse env device_id (err e) db = (err e, db)
after_parse env device_id (ok (c, raw)) db = elim (check_hello env device_id c raw db) [
  | err e ↦ (err e, db)
  | ok row ↦ accept_hello env device_id c row db
]

unfoldable pub verify_single_hello : Env → Text → Text → Db → Result HelloError Hello × Db
verify_single_hello env payload device_id db =
    after_parse env device_id (parse_hello (split b'|' payload)) db

-- `payload.split("|", 2)` of `hello_counter`: the counter stands between the first two bars.
unfoldable pub raw_counter_of : List Text → Option ℤ
raw_counter_of (tag ∷ counter ∷ rest ∷ more) =
    if text_eq tag (codes "H") then parse_int counter else none
raw_counter_of _ = none

unfoldable pub hello_counter : Text → Option ℤ
unfolding raw_counter_of
hello_counter payload = raw_counter_of (split b'|' payload)

-- The end of the H handler: the challenge goes out.
unfoldable pub send_challenge : Env → Text → Text → SecureSession → Listener → Listener
send_challenge env n topic_device session l =
    elim (publish_command env topic_device session.challenge_wire l) [
      | some sent ↦ set_attempt env n session.counter AttemptState.challenge_sent false sent
      | none ↦
          set_attempt env n session.counter AttemptState.error true (pop_if_same n session.serial l)
    ]

-- The session enters the table, unless one is there.
unfoldable pub open_session : Env → Text → Text → SecureSession → Listener → Listener
open_session env n topic_device session l = elim (get n l.pending_sessions) [
  | some _ ↦ l
  | none ↦
      send_challenge env n topic_device session
        (record l { pending_sessions = put n session l.pending_sessions })
]

unfoldable pub start_session : Env → List (ℕ × ℕ) → Text → Text → ℕ → CertRow → Listener → Listener
start_session env pause n topic_device counter row l =
    let seen = set_attempt env n counter AttemptState.hello_seen false l in
    elim (build_challenge env.crypto l.next_serial env.random8 n topic_device counter
      row.public_key_der env.mono) [
        | err _ ↦ set_attempt env n counter AttemptState.error true seen
        | ok session ↦
            open_session env n topic_device session
              (timeout_passes pause (record seen { next_serial = suc l.next_serial }))
      ]

-- `if raw_counter and raw_counter > 0`. A number too large for the BIGINT column `counter` raises in
-- `provisioning_state`: the exception ends the callback, and no attempt is written.
unfoldable pub record_rejected : Env → Text → Option ℤ → Listener → Listener
record_rejected env n none l = l
record_rejected env n (some (negsuc _)) l = l
record_rejected env n (some (pos c)) l =
    if c == 0 || ltb max_counter c then l else set_attempt env n c AttemptState.error true l

unfoldable pub after_hello :
    Env → List (ℕ × ℕ) → Text → Text → Text → Result HelloError Hello → Listener → Listener
after_hello env pause n topic_device payload (err _) l =
    record_rejected env n (hello_counter payload) l
after_hello env pause n topic_device payload (ok (stale _)) l = l
after_hello env pause n topic_device payload (ok (accepted c row)) l =
    start_session env pause n topic_device c row l

unfoldable pub on_hello : Env → List (ℕ × ℕ) → Text → Text → Text → Listener → Listener
on_hello env pause n topic_device payload l = elim (get n l.pending_sessions) [
  | some _ ↦ l
  | none ↦
      let (answer, db') = verify_single_hello env payload n l.db in
      after_hello env pause n topic_device payload answer (with_db db' l)
]
