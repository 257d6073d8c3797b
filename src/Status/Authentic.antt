-- ===== src/Status/Authentic.antt =====
-- What a boot status that is stored went through, and replays of it.
use ota_server.Base.{
  ℕ, ◌≤◌, ◌<◌, ◌≡◌, refl, ap, sym, subst, ◌∙◌, Text, codes, ℤ, pos, negsuc, Option, none, some,
  List, [], ◌∷◌, Bool, true, false, not, ◌||◌, ◌==◌, ltb, length, text_eq, text_eq→eq, parse_int,
  split, arith, Option-cases, Bool-cases, inl, inr,
}
use mathlib.Core.Option.{some-injective}
use ota_server.Base.Result.{
  Result, ok, ok-injective, Result-cases, raise_if->>-eq-ok, or_raise->>=-eq-ok,
}
use ota_server.Encoding.{b64u_decode}
use ota_server.Db.{Db, CertRow}
use ota_server.Ident.{normalize_device_id}
use ota_server.Ident.Canonical.{normalize_device_id_stable}
use ota_server.Registry
use ota_server.Registry.{find_cert, get_registered_device, accept_status_counter, status_set}
use ota_server.Registry.Counters.{HasUniqueIds}
use ota_server.Registry.Status.{
  takes_status, accept_status_counter-accepted, accept_status_counter-refused,
  accept_status_counter-HasUniqueIds,
}
use ota_server.Grants.Tokens.{has_bar}
use ota_server.Status.{
  Env, Error, Frame, Answer, topic_device_id, compact, parse_status, status_canonical, check_status,
  store_status, verify_frame, verify_and_store, make_answer, make_frame, max_counter,
  max_fw_version_len, status_counter_in_range, malformed, bad_counter, bad_version,
  bad_signature_length,
}

topic_device_id-normal :
    (topic n : Text) → topic_device_id topic ≡ some n → normalize_device_id n ≡ some n
unfolding topic_device_id
topic_device_id-normal topic n h =
    (normalize_device_id_stable (compact topic) n (ground (arith, h))).0

check_status-ok :
    (env : Env) (n : Text) (frame : Frame) (registered : Option CertRow) (row : CertRow)
    → check_status env n frame registered ≡ ok row
    → (registered ≡ some row)
      × (env.crypto.verify row.public_key_der frame.signature_raw
            (status_canonical n frame.counter frame.fw_version)
          ≡ true)
unfolding check_status
check_status-ok env n frame none row h = cc
check_status-ok env n frame (some r) row h = ground (arith, h)

counter_in_range-pos : (v : ℤ) (c : ℕ) → status_counter_in_range v ≡ some c → v ≡ pos c
unfolding status_counter_in_range
counter_in_range-pos (negsuc k) c h = cc
counter_in_range-pos (pos k) c h = elim (Bool-cases (k == 0 || ltb max_counter k)) [
  | inl bad ↦ absurd (cc (rw bad at h))
  | inr good ↦ ap pos (some-injective k c (rw good at h))
]

-- The four fields of a frame, with the counter, the version and the signature that are read from them.
pub record Fields (payload : Text) (counter : ℕ) (fw_version raw : Text) : Type 0 where
  pub counter_text : Text
  pub signature : Text
  pub split_at : split b'|' payload ≡ codes "S" ∷ counter_text ∷ fw_version ∷ signature ∷ []
  pub number : parse_int counter_text ≡ some (pos counter)
  pub decoded : b64u_decode signature ≡ some raw
  pub sized : length raw ≡ 64

parse_status-Fields :
    (payload : Text) (parts : List Text) (frame : Frame)
    → split b'|' payload ≡ parts
    → parse_status parts ≡ ok frame
    → Fields payload frame.counter frame.fw_version frame.signature_raw
unfolding parse_status
parse_status-Fields payload [] frame e h = cc
parse_status-Fields payload (a ∷ []) frame e h = cc
parse_status-Fields payload (a ∷ b ∷ []) frame e h = cc
parse_status-Fields payload (a ∷ b ∷ c ∷ []) frame e h = cc
parse_status-Fields payload (a ∷ b ∷ c ∷ d ∷ x ∷ more) frame e h = cc
parse_status-Fields payload (tag ∷ counter ∷ fw_version ∷ signature ∷ []) frame e h =
    let (tagged, h1) = raise_if->>-eq-ok (not (text_eq tag (codes "S"))) malformed _ h in
    let (value, number, h2) = or_raise->>=-eq-ok (parse_int counter) malformed _ h1 in
    let (c, in_range, h3) = or_raise->>=-eq-ok (status_counter_in_range value) bad_counter _ h2 in
    let (_, h4) =
      raise_if->>-eq-ok
        (text_eq fw_version [] || ltb max_fw_version_len (length fw_version) || has_bar fw_version)
        bad_version _ h3 in
    let (raw, decoded, h5) = or_raise->>=-eq-ok (b64u_decode signature) bad_signature_length _ h4 in
    let (sized, h6) = raise_if->>-eq-ok (not (length raw == 64)) bad_signature_length _ h5 in
    let own : Fields payload c fw_version raw = record {
      counter_text = counter;
      signature = signature;
      split_at =
          e
          ∙ ap (λ t. t ∷ counter ∷ fw_version ∷ signature ∷ [])
              (text_eq→eq tag (codes "S") (ground (arith, tagged)));
      number = number ∙ ap some (counter_in_range-pos value c in_range);
      decoded = decoded;
      sized = ground (arith, sized);
    } in
    subst (λ (f : Frame). Fields payload f.counter f.fw_version f.signature_raw)
      (ok-injective (make_frame c fw_version raw) frame h6) own

-- The call that is left when all the checks passed.
record Checked (env : Env) (topic payload : Text) (db : Db) (r : Result Error Answer × Db)
    : Type 0 where
  n : Text
  frame : Frame
  row : CertRow
  named : topic_device_id topic ≡ some n
  parsed : parse_status (split b'|' payload) ≡ ok frame
  registered : find_cert n db ≡ some row
  signed :
      env.crypto.verify row.public_key_der frame.signature_raw
        (status_canonical n frame.counter frame.fw_version)
      ≡ true
  stored : r ≡ store_status env n frame db

lookup :
    (n : Text) (db : Db)
    → normalize_device_id n ≡ some n
    → get_registered_device n db ≡ ok (find_cert n db)
unfolding get_registered_device
lookup n db normal = rw (normal, get_registered_device)

verify_and_store-Checked :
    (env : Env) (topic payload : Text) (db : Db) (answer : Answer)
    → (verify_and_store env topic payload db).0 ≡ ok answer
    → Checked env topic payload db (verify_and_store env topic payload db)
unfolding verify_and_store verify_frame
verify_and_store-Checked env topic payload db answer h =
    elim (Option-cases (topic_device_id topic)) [
      | inl no_id ↦ absurd (ground (arith, h, no_id))
      | inr (n, named) ↦ elim (Result-cases (parse_status (split b'|' payload))) [
        | inr (e, bad) ↦ absurd (ground (arith, h, named, bad))
        | inl (frame, parsed) ↦
            let found = lookup n db (topic_device_id-normal topic n named) in
            elim (Result-cases (check_status env n frame (find_cert n db))) [
              | inr (e, bad) ↦ absurd (ground (arith, h, named, parsed, found, bad))
              | inl (row, good) ↦
                  let (registered, signed) =
                    check_status-ok env n frame (find_cert n db) row good in
                  record {
                    n = n;
                    frame = frame;
                    row = row;
                    named = named;
                    parsed = parsed;
                    registered = registered;
                    signed = signed;
                    stored = rw (named, parsed, found, good, verify_and_store, verify_frame);
                  }
            ]
      ]
    ]

-- The answer and the database of `store_status`, by what `accept_status_counter` returns.
store_status-ok :
    (env : Env) (n : Text) (frame : Frame) (db : Db) (answer : Answer)
    → (store_status env n frame db).0 ≡ ok answer
    → ((accept_status_counter env.now n (pos frame.counter) frame.fw_version db).0
        ≡ ok answer.accepted)
      × (answer ≡ make_answer n frame answer.accepted)
unfolding store_status
store_status-ok env n frame db answer h =
    elim (Result-cases
      (accept_status_counter env.now n (pos frame.counter) frame.fw_version db).0) [
        | inr (e, raised) ↦ absurd (ground (arith, h, raised))
        | inl (fresh, returned) ↦
            let same =
              ok-injective (make_answer n frame fresh) answer (rw (returned, store_status) at h) in
            (
              returned ∙ ap (λ (a : Answer). ok a.accepted) same,
              sym same ∙ ap (λ (a : Answer). make_answer n frame a.accepted) same,
            )
      ]

store_status-db :
    (env : Env) (n : Text) (frame : Frame) (db : Db)
    → (store_status env n frame db).1
      ≡ (accept_status_counter env.now n (pos frame.counter) frame.fw_version db).1
unfolding store_status
store_status-db env n frame db = refl

takes_status-lt :
    (counter : ℕ) (version : Text) (row : CertRow)
    → takes_status counter version (some row) ≡ true
    → row.last_status_counter < counter
takes_status-lt counter version row h = ground (arith, h)

-- If `verify_and_store` accepts a boot status, then its topic names a registered device, the key of
-- that device's certificate verifies the 64 bytes of the frame's fourth field over the identity, the
-- counter and the version that are returned, which are the frame's second and third field, the counter is above the one stored before, and the device's row then has
-- the counter, the version and the time. `device_id` is unique in the table.
pub verify_and_store_accepted :
    (env : Env) (topic payload : Text) (db : Db) (answer : Answer)
    → HasUniqueIds db
    → (verify_and_store env topic payload db).0 ≡ ok answer
    → answer.accepted ≡ true
    → (topic_device_id topic ≡ some answer.device_id)
      × (row : CertRow) × (raw : Text) × (find_cert answer.device_id db ≡ some row)
      × Fields payload answer.counter answer.fw_version raw
      × (env.crypto.verify row.public_key_der raw
            (status_canonical answer.device_id answer.counter answer.fw_version)
          ≡ true)
      × (row.last_status_counter < answer.counter)
      × (find_cert answer.device_id (verify_and_store env topic payload db).1
          ≡ some (status_set env.now answer.counter answer.fw_version row))
verify_and_store_accepted env topic payload db answer unique h fresh =
    let checked = verify_and_store-Checked env topic payload db answer h in
    let stored = ap (λ (r : Result Error Answer × Db). r.0) checked.stored in
    let (returned, same) = store_status-ok env checked.n checked.frame db answer (sym stored ∙ h) in
    let normal = topic_device_id-normal topic checked.n checked.named in
    let (taken, after) =
      accept_status_counter-accepted env.now checked.n checked.frame.counter
        checked.frame.fw_version db checked.row unique normal checked.registered
        (returned ∙ ap ok fresh) in
    rw same (
      checked.named,
      checked.row,
      checked.frame.signature_raw,
      checked.registered,
      parse_status-Fields payload (split b'|' payload) checked.frame refl checked.parsed,
      checked.signed,
      takes_status-lt checked.frame.counter checked.frame.fw_version checked.row taken,
      rw (checked.stored, store_status-db env checked.n checked.frame db) after,
    )

old_status :
    (counter counter' : ℕ) (now : ℕ) (version version' : Text) (row : CertRow)
    → counter' ≤ counter
    → takes_status counter' version' (some (status_set now counter version row)) ≡ false
unfolding status_set
old_status counter counter' now version version' row le = ground (arith, le)

-- After a boot status was accepted, no frame for that device with the same or a smaller counter is:
-- whenever it arrives, whatever its version and its signature, `verify_and_store` answers that it is
-- stale and leaves the database as it is. `device_id` is unique in the table.
pub verify_and_store_replay :
    (env env' : Env) (topic topic' payload payload' : Text) (db : Db) (answer answer' : Answer)
    → HasUniqueIds db
    → (verify_and_store env topic payload db).0 ≡ ok answer
    → answer.accepted ≡ true
    → (verify_and_store env' topic' payload' (verify_and_store env topic payload db).1).0
      ≡ ok answer'
    → answer'.device_id ≡ answer.device_id
    → answer'.counter ≤ answer.counter
    → (answer'.accepted ≡ false)
      × ((verify_and_store env' topic' payload' (verify_and_store env topic payload db).1).1
          ≡ (verify_and_store env topic payload db).1)
verify_and_store_replay env env' topic topic' payload payload' db answer answer' unique h fresh h'
      same_id le =
    let first = verify_and_store-Checked env topic payload db answer h in
    let db' = (verify_and_store env topic payload db).1 in
    let (_, row, _, _, _, _, _, after) =
      verify_and_store_accepted env topic payload db answer unique h fresh in
    let unique' : HasUniqueIds db' =
      rw (first.stored, store_status-db env first.n first.frame db)
        (accept_status_counter-HasUniqueIds env.now first.n first.frame.counter
          first.frame.fw_version db unique (topic_device_id-normal topic first.n first.named)) in
    let second = verify_and_store-Checked env' topic' payload' db' answer' h' in
    let (returned, same) =
      store_status-ok env' second.n second.frame db' answer'
        (sym (ap (λ (r : Result Error Answer × Db). r.0) second.stored) ∙ h') in
    let id : second.n ≡ answer.device_id = sym (ap (λ (a : Answer). a.device_id) same) ∙ same_id in
    let le' : second.frame.counter ≤ answer.counter =
      rw (ap (λ (a : Answer). a.counter) same) at le in
    let stale : takes_status second.frame.counter second.frame.fw_version (find_cert second.n db')
        ≡ false =
      rw (id, after)
        (old_status answer.counter second.frame.counter env.now answer.fw_version
          second.frame.fw_version row le') in
    let refused =
      accept_status_counter-refused env'.now second.n second.frame.counter second.frame.fw_version
        db' unique' (topic_device_id-normal topic' second.n second.named) stale in
    (
      ok-injective answer'.accepted false
          (sym returned ∙ ap (λ (r : Result Registry.Error Bool × Db). r.0) refused),
      ap (λ (r : Result Error Answer × Db). r.1) second.stored
          ∙ store_status-db env' second.n second.frame db'
          ∙ ap (λ (r : Result Registry.Error Bool × Db). r.1) refused,
    )
