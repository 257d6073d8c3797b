-- ===== src/Listener/Replay.antt =====
-- HELLO frames of mqtt_listener.py that are replayed or rejected.
use ota_server.Base.{
  ℕ, suc, pos, ◌≡◌, ◌≤◌, refl, ap, ◌∙◌, Text, Option, none, some, List, ◌∷◌, Bool, true, false,
  split, get, arith, Option-cases, inl, inr, find_first, find_first-update, find_first_sound,
  update_where, text_eq_refl, ==_refl,
}
use ota_server.Base.Result.{ok, err}
use ota_server.Db.{Db, CertRow, AttemptRow, AttemptState}
use ota_server.Ident.{normalize_device_id}
use ota_server.Registry.{find_cert}
use ota_server.Registry.Counters.{HasUniqueIds, is_fresh_hello, last_hello, update_hello-refused}
use ota_server.Registry.Calls.{accept_by_id}
use ota_server.Activity.{
  has_attempt_key, stamp_attempt, upsert_attempt, new_attempt, provisioning_state,
}
use ota_server.Listener.State.{max_counter, with_db, Listener, Env, set_attempt}
use ota_server.Listener.HelloFrame.{
  HelloError, stale, check_hello, parse_hello, accept_hello, after_parse, verify_single_hello,
  on_hello, after_hello, record_rejected, hello_counter,
}

old_counter : (c : ℕ) (row : Option CertRow) → c ≤ last_hello row → is_fresh_hello c row ≡ false
old_counter c none h = refl
old_counter c (some row) h = ground arith

accept_hello-stale :
    (env : Env) (n : Text) (c : ℕ) (row : CertRow) (db : Db)
    → HasUniqueIds db
    → normalize_device_id n ≡ some n
    → c ≤ last_hello (find_cert n db)
    → accept_hello env n c row db ≡ (ok (stale c), db)
unfolding accept_hello
accept_hello-stale env n c row db unique normal le = rw (
  accept_by_id env.now n n (pos c) db normal,
  update_hello-refused env.now n c db unique (old_counter c (find_cert n db) le),
)

-- A HELLO whose signature and certificate are good, but whose counter is not above the last one that
-- the table holds for its device, changes nothing at all: no session, no attempt, no counter.
pub on_hello_stale :
    (env : Env) (pause : List (ℕ × ℕ)) (n topic payload raw : Text) (c : ℕ) (row : CertRow)
    (l : Listener)
    → HasUniqueIds l.db
    → normalize_device_id n ≡ some n
    → parse_hello (split b'|' payload) ≡ ok (c, raw)
    → check_hello env n c raw l.db ≡ ok row
    → c ≤ last_hello (find_cert n l.db)
    → on_hello env pause n topic payload l ≡ l
unfolding on_hello after_hello
on_hello_stale env pause n topic payload raw c row l unique normal parsed checked le =
    let answer : verify_single_hello env payload n l.db ≡ (ok (stale c), l.db) =
      (unfold verify_single_hello after_parse in
        rw (parsed, checked, after_parse) (accept_hello-stale env n c row l.db unique normal le)) in
    elim (Option-cases (get n l.pending_sessions)) [
      | inr (s, busy) ↦ rw (busy, on_hello)
      | inl idle ↦ rw (idle, answer, on_hello)
    ]

-- The state that the table holds for an attempt.
abbrev pub attempt_state : Text → ℕ → Db → Option AttemptState
attempt_state n c db = elim (find_first (has_attempt_key n c) db.provisioning_attempts) [
  | none ↦ none
  | some row ↦ some row.state
]

stamp_attempt-key :
    (n : Text) (c now : ℕ) (state : AttemptState) (row : AttemptRow)
    → has_attempt_key n c (stamp_attempt now state row) ≡ has_attempt_key n c row
unfolding has_attempt_key stamp_attempt
stamp_attempt-key n c now AttemptState.hello_seen row = refl
stamp_attempt-key n c now _ row = refl

stamp_attempt-state :
    (now : ℕ) (state : AttemptState) (row : AttemptRow)
    → (stamp_attempt now state row).state ≡ row.state
unfolding stamp_attempt
stamp_attempt-state now AttemptState.hello_seen row = refl
stamp_attempt-state now _ row = refl

stamped :
    (n : Text) (c now : ℕ) (state : AttemptState) (rows : List AttemptRow) (row : AttemptRow)
    → find_first (has_attempt_key n c) rows ≡ some row
    → row.state ≡ state
    → elim (find_first
        (has_attempt_key n c)
        (update_where (has_attempt_key n c) (stamp_attempt now state) rows)) [
          | none ↦ none
          | some r ↦ some r.state
        ]
      ≡ some state
stamped n c now state rows row found e =
    rw
      (
        find_first-update (has_attempt_key n c) (has_attempt_key n c) (stamp_attempt now state) rows
            (stamp_attempt-key n c now state),
        found,
        find_first_sound (has_attempt_key n c) rows row found,
      )
      (ap some (stamp_attempt-state now state row ∙ e))

change_key :
    (n : Text) (c now : ℕ) (state : AttemptState) (failed : Bool) (row : AttemptRow)
    → has_attempt_key n c (record row { state = state; updated_at = now; failed = failed })
      ≡ has_attempt_key n c row
unfolding has_attempt_key
change_key n c now state failed row = refl

new_row :
    (now : ℕ) (n : Text) (c : ℕ) (state : AttemptState) (failed : Bool) (rows : List AttemptRow)
    → find_first (has_attempt_key n c) (new_attempt now n c state failed ∷ rows)
      ≡ some (new_attempt now n c state failed)
unfolding find_first has_attempt_key new_attempt
new_row now n c state failed rows = rw (text_eq_refl n, ==_refl c)

new_state :
    (now : ℕ) (n : Text) (c : ℕ) (state : AttemptState) (failed : Bool)
    → (new_attempt now n c state failed).state ≡ state
unfolding new_attempt
new_state now n c state failed = refl

upserted :
    (now : ℕ) (n : Text) (c : ℕ) (state : AttemptState) (failed : Bool) (rows : List AttemptRow)
    → (row : AttemptRow) × (find_first
          (has_attempt_key n c)
          (upsert_attempt now n c state failed rows)
        ≡ some row)
      × (row.state ≡ state)
unfolding upsert_attempt
upserted now n c state failed rows = elim (Option-cases (find_first (has_attempt_key n c) rows)) [
  | inl new ↦ (
    new_attempt now n c state failed,
    rw new (new_row now n c state failed rows),
    new_state now n c state failed,
  )
  | inr (row, found) ↦
      let change =
        λ (r : AttemptRow). record r { state = state; updated_at = now; failed = failed } in
      let there : find_first (has_attempt_key n c) (update_where (has_attempt_key n c) change rows)
          ≡ some (change row) =
        rw (
          find_first-update (has_attempt_key n c) (has_attempt_key n c) change rows
              (change_key n c now state failed),
          found,
          find_first_sound (has_attempt_key n c) rows row found,
        ) in
      (change row, rw found there, refl)
]

-- `provisioning_state` leaves the attempt in the state that it was called with.
pub provisioning_state-attempt_state :
    (now : ℕ) (n : Text) (c : ℕ) (state : AttemptState) (failed : Bool) (db : Db)
    → attempt_state n c (provisioning_state now n c state failed db) ≡ some state
unfolding provisioning_state
provisioning_state-attempt_state now n c state failed db =
    let (row, found, e) = upserted now n c state failed db.provisioning_attempts in
    stamped n c now state _ row found e

record_rejected-suc :
    (env : Env) (n : Text) (c : ℕ) (l : Listener)
    → suc c ≤ max_counter
    → record_rejected env n (some (pos (suc c))) l
      ≡ set_attempt env n (suc c) AttemptState.error true l
unfolding record_rejected
record_rejected-suc env n c l le = ground (arith, le)

-- A HELLO that `verify_single_hello` rejects while the device is idle opens no session, and the
-- attempt of the counter that its text names, if that is above 0 and fits the BIGINT column, is in state
-- ERROR afterwards, whatever state it had before.
pub on_hello_rejected :
    (env : Env) (pause : List (ℕ × ℕ)) (n topic payload : Text) (c : ℕ) (e : HelloError)
    (l : Listener) (db' : Db)
    → get n l.pending_sessions ≡ none
    → verify_single_hello env payload n l.db ≡ (err e, db')
    → hello_counter payload ≡ some (pos (suc c))
    → suc c ≤ max_counter
    → ((on_hello env pause n topic payload l).pending_sessions ≡ l.pending_sessions)
      × (attempt_state n (suc c) (on_hello env pause n topic payload l).db
          ≡ some AttemptState.error)
unfolding on_hello after_hello
on_hello_rejected env pause n topic payload c e l db' idle rejected counter fits = (
  rw (idle, rejected, counter, on_hello, record_rejected-suc env n c (with_db db' l) fits),
  rw (idle, rejected, counter, on_hello, record_rejected-suc env n c (with_db db' l) fits)
      (provisioning_state-attempt_state env.now n (suc c) AttemptState.error true db'),
)
