-- ===== src/Registry/Replay.antt =====
-- Replays of HELLO counters against `accept_hello_counter` of device_registry.py.
use ota_server.Base.{
  ℕ, zero, suc, ◌≤◌, ◌≡◌, sym, Text, pos, some, List, [], ◌∷◌, true, false, arith, Bool-cases, inl,
  inr, ◌∙◌,
}
use ota_server.Base.Result.{ok}
use ota_server.Db.{Db}
use ota_server.Ident.{normalize_device_id}
use ota_server.Registry.{find_cert, update_hello, accept_hello_counter}
use ota_server.Registry.Counters.{
  HasUniqueIds, last_hello, update_hello-accepted, update_hello-HasUniqueIds, update_hello-refused,
  stale_after,
}
use ota_server.Registry.Calls.{
  accept_by_id, zero_refused, HelloCall, accepts, accepted_hellos, IsIncreasingFrom, call_step,
}

-- If `accept_hello_counter` accepts a counter of a device, then a call with that counter or a
-- smaller one, at any later time and for any spelling of the same identity, returns False and
-- leaves the database as it is. `device_id` is unique in the table.
pub hello_replay_refused :
    (now now' : ℕ) (d d' n : Text) (counter counter' : ℕ) (db db' : Db)
    → HasUniqueIds db
    → normalize_device_id d ≡ some n
    → normalize_device_id d' ≡ some n
    → counter' ≤ counter
    → accept_hello_counter now d (pos counter) db ≡ (ok true, db')
    → accept_hello_counter now' d' (pos counter') db' ≡ (ok false, db')
hello_replay_refused now now' d d' n zero counter' db db' unique e e' le accepted =
    absurd (cc (accepted, accept_by_id now d n (pos 0) db e, zero_refused now n db))
hello_replay_refused now now' d d' n (suc c) counter' db db' unique e e' le accepted =
    let after = update_hello now n (pos (suc c)) db in
    let both = sym (accept_by_id now d n (pos (suc c)) db e) ∙ accepted in
    let was_accepted : after.0 ≡ true = ground (arith, both) in
    let same_db : after.1 ≡ db' = ground (arith, both) in
    let fresh = sym (update_hello-accepted now n (suc c) db unique (omega arith)) ∙ was_accepted in
    let stale = stale_after now n (suc c) counter' db (omega arith) fresh le in
    let refused =
      update_hello-refused now' n counter' after.1
        (update_hello-HasUniqueIds now n (pos (suc c)) db unique) stale in
    accept_by_id now' d' n (pos counter') db' e' ∙ rw (← same_db, refused)

-- Over any sequence of calls of `accept_hello_counter`, for any devices, the counters that are
-- accepted for one device increase strictly, and the first is above the counter that the table
-- holds for it at the start (0 where it is not registered). `device_id` is unique in the table.
pub accepted_hellos-IsIncreasing :
    (n : Text) (calls : List HelloCall) (db : Db)
    → HasUniqueIds db
    → IsIncreasingFrom (last_hello (find_cert n db)) (accepted_hellos n calls db)
unfolding accepted_hellos
accepted_hellos-IsIncreasing n [] db unique = tt
accepted_hellos-IsIncreasing n (call ∷ calls) db unique =
    let step = call_step n call db unique in
    let rest =
      accepted_hellos-IsIncreasing n calls
        (accept_hello_counter call.now call.device_id call.counter db).1 step.unique in
    elim (Bool-cases (accepts n call db)) [
      | inl taken ↦ rw taken ((step.taken taken).0, rw (step.taken taken).1 at rest)
      | inr kept ↦ rw kept (rw (step.kept kept) at rest)
    ]
