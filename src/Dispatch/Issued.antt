-- ===== src/Dispatch/Issued.antt =====
-- What /send puts on Zigbee, and the grants behind it.
use ota_server.Base.{
  ℕ, ◌≡◌, ◌⊎◌, refl, ap, sym, ◌∙◌, ◌≤◌, ◌+◌, map, lower, strip, get-put, Text, Option, none, some,
  [], ◌∷◌, true, get, put, remove_key, text_eq, text_eq_refl, text_eq→eq, find_first,
  find_first_sound, arith, Option-cases, Bool-cases, inl, inr, if◌then◌else◌,
}
use ota_server.Base.Result.{Result, ok, err, Result-cases, >>=-eq-ok, or_raise-ok, ok-injective}
use ota_server.Db.{Db, ImageRow, AliasRow}
use ota_server.Ident.{normalize_device_id}
use ota_server.Grants.Tokens
use ota_server.Grants.Tokens.{
  OtaCheckGrant, create_ota_check_grant, prepare_grant, store_grant, insert_grant, grant_row,
}
use ota_server.Grants.Downloads.{validate_download_token}
use ota_server.Grants.OneTime.{validate-same_grants}
use ota_server.Grants.Issue.{create_ota_check_grant-validate, create_ota_check_grant-arguments}
use ota_server.Firmware.{ensure_image_code, has_code}
use ota_server.Dispatch.{
  Env, Device, Dispatcher, Error, with_db, ensure_secure_dispatch_device, dispatch_version,
  firmware_for_code, is_active_image, image_version, no_firmware, keep_wire, create_dispatch_token,
  make_check_payload, save_dispatch, save_device_provisioning, send_payloads, after_payload,
  send_check, dispatch_code, dispatch_device, raised,
}
use ota_server.Dispatch.Payloads.{Quiet, SentOnly, send_payloads-SentOnly}

-- What a grant of /send is made from: the code that the image has or gets, the database after the code, and
-- the version of an active image of the code's file with the hash that is sent.
pub record Origin (env : Env) (device : Device) (image : ImageRow) (st : Dispatcher)
    (code version : Text) (db : Db) : Type 0 where
  pub coded : ensure_image_code env.crypto env.now image.filename st.db ≡ (some code, db)
  pub alias : AliasRow
  pub picked : ImageRow
  pub same_code : alias.code ≡ code
  pub same_file : picked.filename ≡ alias.filename
  pub same_hash : picked.sha256 ≡ image.sha256
  pub active : picked.active ≡ true
  pub versioned : version ≡ strip picked.version

image_version-strip :
    (image : ImageRow) (version : Text)
    → image_version image ≡ ok version
    → version ≡ strip image.version
unfolding image_version
image_version-strip image version h = elim (Bool-cases (text_eq (strip image.version) [])) [
  | inl blank ↦ absurd (cc (rw (blank, image_version) at h))
  | inr there ↦ sym (ok-injective (strip image.version) version (rw (there, image_version) at h))
]

dispatch_version-Origin :
    (env : Env) (device : Device) (image : ImageRow) (st : Dispatcher) (code version : Text)
    (db : Db)
    → ensure_image_code env.crypto env.now image.filename st.db ≡ (some code, db)
    → dispatch_version code device.ieee image.sha256 db ≡ ok version
    → Origin env device image st code version db
unfolding dispatch_version firmware_for_code is_active_image has_code
dispatch_version-Origin env device image st code version db coded h =
    let (row, _, h1) = >>=-eq-ok (ensure_secure_dispatch_device device.ieee db) _ h in
    let (picked, found, h2) = >>=-eq-ok (firmware_for_code code image.sha256 db) _ h1 in
    elim (Option-cases (find_first (has_code code) db.firmware_alias)) [
      | inl missing ↦ absurd (cc (rw (missing, firmware_for_code) at found))
      | inr (alias, there) ↦
          let chosen =
            or_raise-ok
              (find_first (is_active_image alias.filename image.sha256) db.firmware_images)
              no_firmware (rw (there, firmware_for_code) at found) in
          let good =
            find_first_sound (is_active_image alias.filename image.sha256) db.firmware_images picked
              chosen in
          record {
            coded = coded;
            alias = alias;
            picked = picked;
            same_code =
                text_eq→eq alias.code code
                  (find_first_sound (has_code code) db.firmware_alias alias there);
            same_file = text_eq→eq picked.filename alias.filename (ground (arith, good));
            same_hash = text_eq→eq picked.sha256 image.sha256 (ground (arith, good));
            active = ground (arith, good);
            versioned = image_version-strip picked version h2;
          }
    ]

-- The grant of a send, as `create_ota_check_grant` returned it for the device and the image, its wire on
-- Zigbee, and what the grant's token is good for.
pub record Granted (env : Env) (image : ImageRow) (device : Device) (st st' : Dispatcher)
    : Type 0 where
  pub code : Text
  pub version : Text
  pub db : Db
  pub db' : Db
  pub grant : OtaCheckGrant
  pub origin : Origin env device image st code version db
  pub created :
      create_ota_check_grant env.crypto env.now
        (env.random8 device.ieee)
        device.ieee
        version
        code
        image.sha256
        db
      ≡ (ok grant, db')
  pub out : st'.outbox ≡ (device.ieee, grant.check_wire) ∷ st.outbox
  pub accepted :
      (later : ℕ) (sha256_hex : Text)
      → map lower sha256_hex ≡ strip (map lower image.sha256)
      → later ≤ env.now + 300
      → validate_download_token env.crypto later grant.token
          (strip code)
          device.ieee
          sha256_hex
          st'.db
        ≡ true

-- Nothing goes out, or the wire of a grant for the device.
abbrev pub SendsGrant : Env → ImageRow → Device → Dispatcher → Dispatcher → Type 0
SendsGrant env image device st st' = (st'.outbox ≡ st.outbox) ⊎ Granted env image device st st'

sent-SendsGrant :
    (env : Env) (device : Device) (image : ImageRow) (version code : Text) (grant : OtaCheckGrant)
    (db : Db) (st st' st'' : Dispatcher)
    → Origin env device image st code version db
    → create_ota_check_grant env.crypto env.now
        (env.random8 device.ieee)
        device.ieee
        version
        code
        image.sha256
        db
      ≡ (ok grant, st'.db)
    → st'.outbox ≡ st.outbox
    → SentOnly device.ieee grant.check_wire st' st''
    → SendsGrant env image device st st''
sent-SendsGrant env device image version code grant db st st' st'' origin made same sent =
    elim sent.outbox [
      | inl e ↦ inl (e ∙ same)
      | inr e ↦ inr (record {
        code = code;
        version = version;
        db = db;
        db' = st'.db;
        grant = grant;
        origin = origin;
        created = made;
        out = e ∙ ap (λ o. (device.ieee, grant.check_wire) ∷ o) same;
        accepted = λ later sha256_hex hash le.
            let (same_code, same_hash) =
              create_ota_check_grant-arguments env.crypto env.now (env.random8 device.ieee)
                device.ieee version code image.sha256 grant db st'.db made in
            validate-same_grants env.crypto later grant.token (strip code) device.ieee sha256_hex
              st'.db st''.db sent.grants
            ∙ (create_ota_check_grant-validate env.crypto env.now later (env.random8 device.ieee)
                  device.ieee device.ieee version code (strip code) image.sha256 sha256_hex grant db
                  st'.db made).1
                (refl, sym same_code, hash ∙ sym same_hash, le);
      })
    ]

-- `make_check_payload` for a token whose wire was just kept.
pub taken_wire :
    (token wire : Text) (st : Dispatcher)
    → get token st.pending ≡ some wire
    → make_check_payload token st ≡ (
      if text_eq wire [] then none else some wire,
      record st { pending = remove_key token st.pending },
    )
unfolding make_check_payload
taken_wire token wire st e = rw (e, make_check_payload)

-- The answer to a wire that was taken: an exception where it is empty, else the sending.
pub send_check-taken :
    (env : Env) (device : Device) (image : ImageRow) (token wire : Text) (st : Dispatcher)
    → get token st.pending ≡ some wire
    → send_check env device image (ok token, st) ≡ (
        if text_eq wire []
        then (raised, record st { pending = remove_key token st.pending })
        else send_payloads env device image wire
            (record st { pending = remove_key token st.pending }))
unfolding send_check after_payload
send_check-taken env device image token wire st e = elim (Bool-cases (text_eq wire [])) [
  | inl blank ↦ rw (taken_wire token wire st e, blank)
  | inr there ↦ rw (taken_wire token wire st e, there)
]

send_check-SendsGrant :
    (env : Env) (device : Device) (image : ImageRow) (version code : Text) (grant : OtaCheckGrant)
    (db : Db) (st kept : Dispatcher)
    → Origin env device image st code version db
    → create_ota_check_grant env.crypto env.now
        (env.random8 device.ieee)
        device.ieee
        version
        code
        image.sha256
        db
      ≡ (ok grant, kept.db)
    → kept.outbox ≡ st.outbox
    → get grant.token kept.pending ≡ some grant.check_wire
    → SendsGrant env image device st (send_check env device image (ok grant.token, kept)).1
send_check-SendsGrant env device image version code grant db st kept origin made same there =
    let popped : Dispatcher = record kept { pending = remove_key grant.token kept.pending } in
    rw (send_check-taken env device image grant.token grant.check_wire kept there)
      (elim (Bool-cases (text_eq grant.check_wire [])) [
        | inl blank ↦ rw blank (inl same)
        | inr wire ↦ rw wire (
            sent-SendsGrant env device image version code grant db st popped
              (send_payloads env device image grant.check_wire popped).1 origin made same
              (send_payloads-SentOnly env device image grant.check_wire popped))
      ])

pub created_token :
    (env : Env) (code device_id version sha256_hex : Text) (st : Dispatcher)
    → dispatch_version code device_id sha256_hex st.db ≡ ok version
    → create_dispatch_token env code device_id sha256_hex st
      ≡ keep_wire
          (create_ota_check_grant env.crypto env.now
            (env.random8 device_id)
            device_id
            version
            code
            sha256_hex
            st.db)
          st
unfolding create_dispatch_token
created_token env code device_id version sha256_hex st e = rw (e, create_dispatch_token)

keep_wire-SendsGrant :
    (env : Env) (device : Device) (image : ImageRow) (version code : Text) (db : Db)
    (st st' : Dispatcher) (made : Result Tokens.Error OtaCheckGrant × Db)
    → Origin env device image st code version db
    → create_ota_check_grant env.crypto env.now
        (env.random8 device.ieee)
        device.ieee
        version
        code
        image.sha256
        db
      ≡ made
    → st'.outbox ≡ st.outbox
    → SendsGrant env image device st (send_check env device image (keep_wire made st')).1
unfolding keep_wire send_check
keep_wire-SendsGrant env device image version code db st st' (err e, db') origin created same =
    inl same
keep_wire-SendsGrant env device image version code db st st' (ok grant, db') origin created same =
    let kept : Dispatcher = record st' {
      db = db';
      pending = put grant.token grant.check_wire st'.pending;
    } in
    send_check-SendsGrant env device image version code grant db st kept origin created same (
      get-put grant.token grant.token grant.check_wire st'.pending
      ∙ (rw (text_eq_refl grant.token)))

dispatch_code-SendsGrant :
    (env : Env) (device : Device) (image : ImageRow) (coded : Option Text × Db) (st : Dispatcher)
    → ensure_image_code env.crypto env.now image.filename st.db ≡ coded
    → SendsGrant env image device st (dispatch_code env device image coded st).1
unfolding dispatch_code create_dispatch_token send_check
dispatch_code-SendsGrant env device image (none, db) st coded = inl refl
dispatch_code-SendsGrant env device image (some code, db) st coded =
    elim (Result-cases (dispatch_version code device.ieee image.sha256 db)) [
      | inr (e, bad) ↦ rw (bad, create_dispatch_token, send_check) (inl refl)
      | inl (version, good) ↦
          rw (created_token env code device.ieee version image.sha256 (with_db db st) good) (
            keep_wire-SendsGrant env device image version code db st (with_db db st) _
              (dispatch_version-Origin env device image st code version db coded good) refl refl)
    ]

pub denied-Quiet :
    (env : Env) (image : ImageRow) (device : Device) (st : Dispatcher) (e : Error)
    → ensure_secure_dispatch_device device.ieee st.db ≡ err e
    → Quiet st (dispatch_device env image device st).1
unfolding dispatch_device save_device_provisioning save_dispatch
denied-Quiet env image device st e refusal = elim (Option-cases (normalize_device_id device.ieee)) [
  | inl bad ↦
      rw (refusal, bad, dispatch_device, save_device_provisioning)
        (record { outbox = refl; pending = refl; grants = refl })
  | inr (n, id) ↦
      rw (refusal, id, dispatch_device, save_device_provisioning)
        (record { outbox = refl; pending = refl; grants = refl })
]

-- What /send does for one device: nothing goes out over Zigbee, or exactly one payload does, the C wire
-- that `create_ota_check_grant` returned for that device, the image's code and hash, and the version of an
-- active image of the code with that hash; and then the
-- HTTPS side accepts the grant's token for the device, the code and the hash for 300 seconds.
pub dispatch_device-SendsGrant :
    (env : Env) (image : ImageRow) (device : Device) (st : Dispatcher)
    → SendsGrant env image device st (dispatch_device env image device st).1
unfolding dispatch_device
dispatch_device-SendsGrant env image device st =
    elim (Result-cases (ensure_secure_dispatch_device device.ieee st.db)) [
      | inr (e, refusal) ↦ inl (denied-Quiet env image device st e refusal).outbox
      | inl (row, secure) ↦
          rw (secure, dispatch_device)
            (dispatch_code-SendsGrant env device image
              (ensure_image_code env.crypto env.now image.filename st.db) st refl)
    ]
