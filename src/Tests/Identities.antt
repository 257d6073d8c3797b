-- ===== src/Tests/Identities.antt =====
-- Identities, encodings and hello counters of a registered device.
use ota_server.Base.{
  Text, ◌≡◌, refl, some, List, [], ◌∷◌, true, false, pos, update_where, count_where, text_eq,
  is_hex, is_digit, lower, strip, is_space, arith,
}
use ota_server.Base.Result.{ok}
use ota_server.Db.{Db, empty_db}
use ota_server.Encoding.{b64u, b64u_decode}
use ota_server.Ident.{
  normalize_device_id, compact_id, format_id, remove, remove_0x, join_pairs, normalize_ieee,
}
use ota_server.Ident.Canonical.{normalize_device_id_stable}
use ota_server.Encoding.Base64.{b64u_decode-b64u}
use ota_server.Registry.{
  has_id, find_cert, update_certs, hello_match, hello_set, update_hello, accept_hello_counter,
}
use ota_server.Registry.Counters.{last_hello}
use ota_server.Registry.Refinement.{registers_of, moves, move, accept_hello_counter-move}
use ota_server.Registry.Replay.{hello_replay_refused, accepted_hellos-IsIncreasing}
use ota_server.Registry.Calls.{accepted_hellos, HelloCall, IsIncreasingFrom}
use ota_server.Tests.{
  device, upper_device, cert, one_device, one_device-HasUniqueIds, device_normal,
  upper_device_normal,
}

normalize_device_id_stable_example :
    (normalize_device_id device ≡ some device) × (normalize_ieee (some device) ≡ device)
normalize_device_id_stable_example =
    normalize_device_id_stable upper_device device upper_device_normal

b64u_decode-b64u_example : b64u_decode (b64u (0 ∷ 255 ∷ 17 ∷ 3 ∷ [])) ≡ some (0 ∷ 255 ∷ 17 ∷ 3 ∷ [])
b64u_decode-b64u_example = b64u_decode-b64u (0 ∷ 255 ∷ 17 ∷ 3 ∷ []) refl

abbrev after_hello_9 : Db
after_hello_9 = record empty_db {
  device_certificates = record cert { last_hello_counter = 9; updated_at = 100 } ∷ [];
}

hello_9_accepted :
    accept_hello_counter 100 upper_device (pos 9) one_device ≡ (ok true, after_hello_9)
unfolding accept_hello_counter update_hello update_certs hello_match hello_set has_id text_eq
    count_where update_where normalize_device_id compact_id format_id remove remove_0x join_pairs
    strip lower is_hex is_space is_digit
hello_9_accepted = refl

hello_replay_refused_example :
    accept_hello_counter 200 device (pos 7) after_hello_9 ≡ (ok false, after_hello_9)
hello_replay_refused_example =
    hello_replay_refused 100 200 upper_device device device 9 7 one_device after_hello_9
      one_device-HasUniqueIds upper_device_normal device_normal (omega arith) hello_9_accepted

abbrev hello_calls : List HelloCall
hello_calls =
    record { now = 100; device_id = device; counter = pos 9 }
    ∷ record { now = 101; device_id = upper_device; counter = pos 9 }
    ∷ record { now = 102; device_id = device; counter = pos 12 }
    ∷ []

accepted_hellos-IsIncreasing_example :
    IsIncreasingFrom
      (last_hello (find_cert device one_device))
      (accepted_hellos device hello_calls one_device)
accepted_hellos-IsIncreasing_example =
    accepted_hellos-IsIncreasing device hello_calls one_device one_device-HasUniqueIds

accept_hello_counter-move_example :
    ((accept_hello_counter 1000 upper_device (pos 9) one_device).0
      ≡ ok (moves 9 (registers_of one_device device)))
    × ((m : Text)
        → registers_of (accept_hello_counter 1000 upper_device (pos 9) one_device).1 m
          ≡ move device 9 (registers_of one_device) m)
accept_hello_counter-move_example =
    accept_hello_counter-move 1000 upper_device device 9 one_device one_device-HasUniqueIds
      upper_device_normal
