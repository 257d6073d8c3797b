-- ===== src/Enrollment/OneTime.antt =====
-- The challenges of an enrollment: `ChallengeStore.consume` within `validate_device_enrollment`.
use ota_server.Base.{
  ℕ, Text, ◌≡◌, refl, sym, ap, ◌∙◌, Option, none, some, Bool, true, false, text_eq_refl, if_some,
  get, get-remove_key, ◌≢◌, inl, inr, subst, not, text_eq, text_eq→eq, ◌≤◌, Option-cases, arith,
}
use ota_server.Base.Result.{
  Result, ok, err, >>=-eq-ok, Result-cases, or_raise, raise_if, ok-injective, raise_if->>-eq-ok,
  or_raise->>=-eq-ok,
}
use mathlib.Core.Option.{some-injective}
use ota_server.Crypto.{Crypto}
use ota_server.Db.{Db, DeviceState}
use ota_server.Enrollment.{
  EnrollError, invalid_challenge, bad_identity, wrong_ecosystem, Enrollment, Challenge,
  consume_challenge, answered, is_answered, malformed, from_hex, decode_key,
  public_key_fingerprint_hex, derive_device_auth_secret, enrollment_hmac, canonical_enrollment,
}
use ota_server.Enrollment.Server.{
  Server, after_challenge, finish_enrollment, authenticate, enroll, prepare_enrollment,
  validate_device_enrollment,
}
use ota_server.Ident.{normalize_device_id}
use ota_server.Ident.Canonical.{normalize_device_id_stable}

prepare_enrollment-message_id :
    (ecosystem : Text) (request fields : Enrollment)
    → prepare_enrollment ecosystem request ≡ ok fields
    → (fields.message_id ≡ request.message_id)
unfolding prepare_enrollment
prepare_enrollment-message_id ecosystem request fields h =
    let (d, normal, h1) =
      >>=-eq-ok (or_raise (normalize_device_id request.device_id) bad_identity) _ h in
    let (z, normal_z, h2) =
      >>=-eq-ok (or_raise (normalize_device_id request.zigbee_ieee) bad_identity) _ h1 in
    let (u, checked, h3) =
      >>=-eq-ok {A = Unit {0}}
        (raise_if (not (text_eq request.ota_ecosystem ecosystem)) wrong_ecosystem)
        (λ v. ok (record request { device_id = d; zigbee_ieee = z })) h2 in
    sym (
      ap (λ (e : Enrollment). e.message_id)
        (ok-injective (record request { device_id = d; zigbee_ieee = z }) fields h3))

consumed_is_gone :
    (crypto : Crypto) (now : ℕ) (master : Text) (fields : Enrollment) (server : Server)
    → get fields.message_id (enroll crypto now master fields server).1.device_challenges ≡ none
unfolding enroll consume_challenge
consumed_is_gone crypto now master fields server =
    rw
      (
        get-remove_key fields.message_id fields.message_id server.device_challenges,
        text_eq_refl fields.message_id,
      )
      refl

enroll-gone :
    (crypto : Crypto) (now : ℕ) (master : Text) (fields : Enrollment) (server : Server)
    → get fields.message_id server.device_challenges ≡ none
    → (enroll crypto now master fields server).0 ≡ err invalid_challenge
unfolding enroll consume_challenge answered after_challenge
enroll-gone crypto now master fields server gone = rw gone refl

validate-prepared :
    (crypto : Crypto) (now : ℕ) (master ecosystem : Text) (request fields : Enrollment)
    (server : Server)
    → prepare_enrollment ecosystem request ≡ ok fields
    → validate_device_enrollment crypto now master ecosystem request server
      ≡ enroll crypto now master fields server
unfolding validate_device_enrollment
validate-prepared crypto now master ecosystem request fields server prepared =
    rw (prepared, validate_device_enrollment) refl

-- A challenge is good for one enrollment: after `validate_device_enrollment` consumed the challenge of
-- a message, whatever it answered, it answers "invalid or expired challenge" to every request with the
-- same message id whose identities and ecosystem are right.
pub validate_device_enrollment_once :
    (crypto : Crypto) (now now' : ℕ) (master ecosystem : Text)
    (request request' fields fields' : Enrollment) (server : Server)
    → prepare_enrollment ecosystem request ≡ ok fields
    → prepare_enrollment ecosystem request' ≡ ok fields'
    → request'.message_id ≡ request.message_id
    → (validate_device_enrollment crypto now' master ecosystem request'
        (validate_device_enrollment crypto now master ecosystem request server).1).0
      ≡ err invalid_challenge
validate_device_enrollment_once crypto now now' master ecosystem request request' fields fields'
      server p p' same =
    rw
      (
        validate-prepared crypto now master ecosystem request fields server p,
        validate-prepared crypto now' master ecosystem request' fields'
            (enroll crypto now master fields server).1 p',
      )
      (enroll-gone crypto now' master fields' (enroll crypto now master fields server).1 (
        subst (λ m. get m (enroll crypto now master fields server).1.device_challenges ≡ none)
          (sym (
            prepare_enrollment-message_id ecosystem request' fields' p'
            ∙ same
            ∙ sym (prepare_enrollment-message_id ecosystem request fields p)))
          (consumed_is_gone crypto now master fields server)))

answered-some :
    (now : ℕ) (d hex : Text) (o : Option Challenge) (c : Challenge)
    → answered now d hex o ≡ some c
    → (o ≡ some c) × (is_answered now d hex c ≡ true)
unfolding answered
answered-some now d hex none c h = absurd (none_is_some h)
  where
    none_is_some : none ≡ some c → ⊥
    none_is_some e = cc
answered-some now d hex (some x) c h =
    let (test, same) = if_some (is_answered now d hex x) h in
    (ap some same, subst (λ y. is_answered now d hex y ≡ true) same test)

finish_enrollment-ok :
    (now : ℕ) (fields : Enrollment) (result : Result EnrollError (Bool × (Text × Text))) (db : Db)
    (state : DeviceState)
    → (finish_enrollment now fields result db).0 ≡ ok state
    → (key : Text × Text) × (result ≡ ok (true, key))
unfolding finish_enrollment
finish_enrollment-ok now fields (err e) db state h = cc
finish_enrollment-ok now fields (ok (false, key)) db state h = cc
finish_enrollment-ok now fields (ok (true, key)) db state h = (key, refl)

after_challenge-ok :
    (crypto : Crypto) (now : ℕ) (master : Text) (fields : Enrollment) (o : Option Challenge)
    (db : Db) (state : DeviceState)
    → (after_challenge crypto now master fields o db).0 ≡ ok state
    → (c : Challenge) × (key : Text × Text) × (o ≡ some c)
      × (authenticate crypto master fields ≡ ok (true, key))
unfolding after_challenge
after_challenge-ok crypto now master fields none db state h = cc
after_challenge-ok crypto now master fields (some c) db state h =
    let (key, good) =
      finish_enrollment-ok now fields (authenticate crypto master fields) db state h in
    (c, key, refl, good)

enroll-ok :
    (crypto : Crypto) (now : ℕ) (master : Text) (fields : Enrollment) (server : Server)
    (state : DeviceState)
    → (enroll crypto now master fields server).0 ≡ ok state
    → (c : Challenge) × (key : Text × Text) × (get fields.message_id server.device_challenges
        ≡ some c)
      × (is_answered now fields.device_id fields.challenge c ≡ true)
      × (authenticate crypto master fields ≡ ok (true, key))
unfolding enroll consume_challenge
enroll-ok crypto now master fields server state h =
    let (c, key, taken, good) =
      after_challenge-ok crypto now master fields
        (answered now fields.device_id fields.challenge
          (get fields.message_id server.device_challenges))
        server.db state h in
    let (there, test) =
      answered-some now fields.device_id fields.challenge
        (get fields.message_id server.device_challenges) c taken in
    (c, key, there, test, good)

validate-refused :
    (crypto : Crypto) (now : ℕ) (master ecosystem : Text) (request : Enrollment) (server : Server)
    (e : EnrollError)
    → prepare_enrollment ecosystem request ≡ err e
    → (validate_device_enrollment crypto now master ecosystem request server).0 ≡ err e
unfolding validate_device_enrollment
validate-refused crypto now master ecosystem request server e refused =
    rw (refused, validate_device_enrollment) refl

err-ne-ok : {A : Type 0} (e : EnrollError) (a : A) → err e ≢ ok a
err-ne-ok e a h = cc

is_answered-Matches :
    (now : ℕ) (d hex : Text) (c : Challenge)
    → is_answered now d hex c ≡ true
    → (now ≤ c.expires_at)
      × (normalize_device_id d ≡ some c.device_id)
      × (from_hex hex ≡ some c.challenge)
unfolding is_answered
is_answered-Matches now d hex c h = elim (Option-cases (normalize_device_id d)) [
  | inl bad ↦ absurd (ground (arith, h, bad))
  | inr (n, normal) ↦ elim (Option-cases (from_hex hex)) [
    | inl bad ↦ absurd (ground (arith, h, bad))
    | inr (received, decoded) ↦
        let tests = rw (normal, decoded) at h in
        (
          ground (arith, tests),
          normal ∙ ap some (sym (text_eq→eq c.device_id n (ground (arith, tests)))),
          decoded ∙ ap some (sym (text_eq→eq c.challenge received (ground (arith, tests)))),
        )
  ]
]

authenticate-Hmac :
    (crypto : Crypto) (master : Text) (fields : Enrollment) (key : Text × Text)
    → authenticate crypto master fields ≡ ok (true, key)
    → (secret : Text) × (message : Text) × (derive_device_auth_secret crypto master fields.device_id
        ≡ ok secret)
      × (canonical_enrollment fields ≡ ok message)
      × (from_hex fields.device_auth_hmac ≡ some (crypto.hmac secret message))
unfolding authenticate enrollment_hmac
authenticate-Hmac crypto master fields key h =
    let (secret, derived, h1) =
      >>=-eq-ok (derive_device_auth_secret crypto master fields.device_id) _ h in
    let (expected, hmac, h2) = >>=-eq-ok (enrollment_hmac crypto secret fields) _ h1 in
    let (message, canonical, made) = >>=-eq-ok (canonical_enrollment fields) _ hmac in
    let (received, decoded, h3) =
      or_raise->>=-eq-ok (from_hex fields.device_auth_hmac) malformed _ h2 in
    let (public_key, _, h4) = >>=-eq-ok (decode_key fields.device_enc_public_key) _ h3 in
    let (fingerprint, _, h5) =
      >>=-eq-ok (public_key_fingerprint_hex crypto fields.device_enc_public_key) _ h4 in
    let equal : text_eq expected received ≡ true =
      ap (λ (p : Bool × (Text × Text)). p.0)
        (ok-injective (text_eq expected received, (public_key, fingerprint)) (true, key) h5) in
    (
      secret,
      message,
      derived,
      canonical,
      decoded
          ∙ ap some (
              sym (text_eq→eq expected received equal)
              ∙ sym (ok-injective (crypto.hmac secret message) expected made)),
    )

prepare_enrollment-Normal :
    (ecosystem : Text) (request fields : Enrollment)
    → prepare_enrollment ecosystem request ≡ ok fields
    → (d : Text) × (z : Text) × (normalize_device_id request.device_id ≡ some d)
      × (normalize_device_id request.zigbee_ieee ≡ some z)
      × (request.ota_ecosystem ≡ ecosystem)
      × (fields ≡ record request { device_id = d; zigbee_ieee = z })
unfolding prepare_enrollment
prepare_enrollment-Normal ecosystem request fields h =
    let (d, normal, h1) =
      or_raise->>=-eq-ok (normalize_device_id request.device_id) bad_identity _ h in
    let (z, normal_z, h2) =
      or_raise->>=-eq-ok (normalize_device_id request.zigbee_ieee) bad_identity _ h1 in
    let (same, h3) =
      raise_if->>-eq-ok (not (text_eq request.ota_ecosystem ecosystem)) wrong_ecosystem _ h2 in
    (
      d,
      z,
      normal,
      normal_z,
      text_eq→eq request.ota_ecosystem ecosystem (ground (arith, same)),
      sym (ok-injective (record request { device_id = d; zigbee_ieee = z }) fields h3),
    )

-- An enrollment that the server took: its request in normal form, the challenge that it answers, and the
-- HMAC that its text carries.
pub record Enrolled (crypto : Crypto) (now : ℕ) (master ecosystem : Text) (request : Enrollment)
    (server : Server) : Type 0 where
  pub d : Text
  pub z : Text
  pub challenge : Challenge
  pub secret : Text
  pub message : Text
  pub normal : normalize_device_id request.device_id ≡ some d
  pub normal_z : normalize_device_id request.zigbee_ieee ≡ some z
  pub same_ecosystem : request.ota_ecosystem ≡ ecosystem
  pub held : get request.message_id server.device_challenges ≡ some challenge
  pub unexpired : now ≤ challenge.expires_at
  pub own_challenge : challenge.device_id ≡ d
  pub answer : from_hex request.challenge ≡ some challenge.challenge
  pub derived : derive_device_auth_secret crypto master d ≡ ok secret
  pub signed_bytes :
      canonical_enrollment (record request { device_id = d; zigbee_ieee = z }) ≡ ok message
  pub hmac : from_hex request.device_auth_hmac ≡ some (crypto.hmac secret message)

-- An enrollment that succeeds answers a challenge that the server holds for its message id: made for the
-- same device, not expired at `now`, with the same bytes; its ecosystem is the server's; and the HMAC that
-- it carries is that of its canonical bytes under the secret derived from the master secret and the device.
pub validate_device_enrollment_sound :
    (crypto : Crypto) (now : ℕ) (master ecosystem : Text) (request : Enrollment) (server : Server)
    (state : DeviceState)
    → (validate_device_enrollment crypto now master ecosystem request server).0 ≡ ok state
    → Enrolled crypto now master ecosystem request server
validate_device_enrollment_sound crypto now master ecosystem request server state h =
    elim (Result-cases (prepare_enrollment ecosystem request)) [
      | inr (e, refused) ↦ absurd (
          err-ne-ok e state
            (sym (validate-refused crypto now master ecosystem request server e refused) ∙ h))
      | inl (fields, prepared) ↦
          let (d, z, normal, normal_z, same, form) =
            prepare_enrollment-Normal ecosystem request fields prepared in
          let own : Enrollment = record request { device_id = d; zigbee_ieee = z } in
          let (c, key, there, test, good) = enroll-ok crypto now master own server state (
            rw
              (validate-prepared crypto now master ecosystem request own server
                (prepared ∙ ap ok form))
              at h) in
          let (unexpired, device, answer) = is_answered-Matches now d request.challenge c test in
          let (secret, message, derived, canonical, hmac) =
            authenticate-Hmac crypto master own key good in
          record {
            d = d;
            z = z;
            challenge = c;
            secret = secret;
            message = message;
            normal = normal;
            normal_z = normal_z;
            same_ecosystem = same;
            held = there;
            unexpired = unexpired;
            own_challenge =
                some-injective c.device_id d
                  (sym device ∙ (normalize_device_id_stable request.device_id d normal).0);
            answer = answer;
            derived = derived;
            signed_bytes = canonical;
            hmac = hmac;
          }
    ]
