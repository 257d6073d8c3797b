-- ===== src/Dispatch/Pending.antt =====
-- `_pending` of ota_check_runtime.py over a whole /send, and the exceptions that leave the handler.
use ota_server.Base.{
  ◌≡◌, refl, ap, sym, ◌++◌, arith, ◌∙◌, Text, Option, none, some, List, [], ◌∷◌, put, get-put,
  remove_key, text_eq, text_eq_refl, Bool-cases, inl, inr,
}
use ota_server.Base.Result.{Result, ok, err, Result-cases}
use ota_server.Db.{Db, CertRow, ImageRow}
use ota_server.Grants.Tokens
use ota_server.Grants.Tokens.{OtaCheckGrant, create_ota_check_grant}
use ota_server.Firmware.{ensure_image_code}
use ota_server.Dispatch.{
  Env, Device, Dispatcher, Error, Outcome, with_db, ensure_secure_dispatch_device, dispatch_version,
  keep_wire, create_dispatch_token, send_check, dispatch_code, dispatch_device, after_device,
  dispatch_all, raised, refused, delivered, undelivered,
}
use ota_server.Dispatch.Payloads.{send_payloads-SentOnly}
use ota_server.Dispatch.Issued.{send_check-taken, denied-Quiet, created_token}

nothing_kept : (token wire : Text) → remove_key token (put token wire []) ≡ []
unfolding put remove_key
nothing_kept token wire = rw (text_eq_refl token)

keep_wire-empty :
    (env : Env) (device : Device) (image : ImageRow) (st : Dispatcher)
    (made : Result Tokens.Error OtaCheckGrant × Db)
    → st.pending ≡ []
    → (send_check env device image (keep_wire made st)).1.pending ≡ []
unfolding keep_wire send_check
keep_wire-empty env device image st (err e, db) empty = empty
keep_wire-empty env device image st (ok grant, db) empty =
    let kept : Dispatcher = record st {
      db = db;
      pending = put grant.token grant.check_wire st.pending;
    } in
    let popped : Dispatcher = record kept { pending = remove_key grant.token kept.pending } in
    let gone : popped.pending ≡ [] =
      ap (λ d. remove_key grant.token (put grant.token grant.check_wire d)) empty
      ∙ nothing_kept grant.token grant.check_wire in
    rw
      (send_check-taken env device image grant.token grant.check_wire kept (
        get-put grant.token grant.token grant.check_wire st.pending
        ∙ (rw (text_eq_refl grant.token))))
      (elim (Bool-cases (text_eq grant.check_wire [])) [
        | inl blank ↦ rw blank gone
        | inr wire ↦
            rw wire
              ((send_payloads-SentOnly env device image grant.check_wire popped).pending ∙ gone)
      ])

dispatch_code-empty :
    (env : Env) (device : Device) (image : ImageRow) (coded : Option Text × Db) (st : Dispatcher)
    → st.pending ≡ []
    → (dispatch_code env device image coded st).1.pending ≡ []
unfolding dispatch_code create_dispatch_token send_check
dispatch_code-empty env device image (none, db) st empty = empty
dispatch_code-empty env device image (some code, db) st empty =
    elim (Result-cases (dispatch_version code device.ieee image.sha256 db)) [
      | inr (e, bad) ↦ rw (bad, create_dispatch_token, send_check) empty
      | inl (version, good) ↦
          rw (created_token env code device.ieee version image.sha256 (with_db db st) good)
            (keep_wire-empty env device image (with_db db st) _ empty)
    ]

dispatch_device-empty :
    (env : Env) (image : ImageRow) (device : Device) (st : Dispatcher)
    → st.pending ≡ []
    → (dispatch_device env image device st).1.pending ≡ []
unfolding dispatch_device
dispatch_device-empty env image device st empty =
    elim (Result-cases (ensure_secure_dispatch_device device.ieee st.db)) [
      | inr (e, refusal) ↦ (denied-Quiet env image device st e refusal).pending ∙ empty
      | inl (row, secure) ↦
          rw (secure, dispatch_device)
            (dispatch_code-empty env device image
              (ensure_image_code env.crypto env.now image.filename st.db) st empty)
    ]

after_device-empty :
    (ieee : Text) (here : Outcome × Dispatcher) (rest : Option (List (Text × Outcome)) × Dispatcher)
    → here.1.pending ≡ []
    → rest.1.pending ≡ []
    → (after_device ieee here rest).1.pending ≡ []
unfolding after_device
after_device-empty ieee (raised, st) rest e e' = e
after_device-empty ieee (refused, st) (results, st') e e' = e'
after_device-empty ieee (delivered, st) (results, st') e e' = e'
after_device-empty ieee (undelivered, st) (results, st') e e' = e'

-- No C wire stays behind: if `_pending` is empty before a /send it is empty after it, whichever devices
-- were refused, whatever could not be delivered, and also where an exception ends the handler.
pub dispatch_all-empty :
    (env : Env) (image : ImageRow) (devices : List Device) (st : Dispatcher)
    → st.pending ≡ []
    → (dispatch_all env image devices st).1.pending ≡ []
unfolding dispatch_all
dispatch_all-empty env image [] st empty = empty
dispatch_all-empty env image (device ∷ devices) st empty =
    let here = dispatch_device-empty env image device st empty in
    after_device-empty device.ieee (dispatch_device env image device st)
      (dispatch_all env image devices (dispatch_device env image device st).1) here
      (dispatch_all-empty env image devices (dispatch_device env image device st).1 here)

-- Where the loop has answers, the devices before an exception have answered.
after_device-some :
    (ieee : Text) (here : Outcome × Dispatcher) (rest : Option (List (Text × Outcome)) × Dispatcher)
    (results : List (Text × Outcome)) (st : Dispatcher)
    → after_device ieee here rest ≡ (some results, st)
    → ((found : List (Text × Outcome)) × (rest ≡ (some found, st)))
      × ((last : Dispatcher) → after_device ieee here (none, last) ≡ (none, last))
unfolding after_device
after_device-some ieee (raised, st') rest results st h = absurd (ground (arith, h))
after_device-some ieee (refused, st') (none, st'') results st h = absurd (ground (arith, h))
after_device-some ieee (refused, st') (some found, st'') results st h =
    ((found, ground (arith, h)), λ last. refl)
after_device-some ieee (delivered, st') (none, st'') results st h = absurd (ground (arith, h))
after_device-some ieee (delivered, st') (some found, st'') results st h =
    ((found, ground (arith, h)), λ last. refl)
after_device-some ieee (undelivered, st') (none, st'') results st h = absurd (ground (arith, h))
after_device-some ieee (undelivered, st') (some found, st'') results st h =
    ((found, ground (arith, h)), λ last. refl)

raised_later :
    (env : Env) (image : ImageRow) (before rest : List Device) (results : List (Text × Outcome))
    (st st' st'' : Dispatcher)
    → dispatch_all env image before st ≡ (some results, st')
    → dispatch_all env image rest st' ≡ (none, st'')
    → dispatch_all env image (before ++ rest) st ≡ (none, st'')
unfolding dispatch_all
raised_later env image [] rest results st st' st'' h last =
    ap (dispatch_all env image rest)
      (ap (λ (p : Option (List (Text × Outcome)) × Dispatcher). p.1) h)
    ∙ last
raised_later env image (device ∷ before) rest results st st' st'' h last =
    let here = dispatch_device env image device st in
    let ((found, there), passes) =
      after_device-some device.ieee here (dispatch_all env image before here.1) results st' h in
    ap (after_device device.ieee here)
      (raised_later env image before rest found here.1 st' st'' there last)
    ∙ passes st''

raised_device :
    (env : Env) (image : ImageRow) (device : Device) (code : Text) (row : CertRow) (db : Db)
    (e : Error) (st st' : Dispatcher)
    → ensure_secure_dispatch_device device.ieee st.db ≡ ok row
    → ensure_image_code env.crypto env.now image.filename st.db ≡ (some code, db)
    → create_dispatch_token env code device.ieee image.sha256 (with_db db st) ≡ (err e, st')
    → dispatch_device env image device st ≡ (raised, st')
unfolding dispatch_device dispatch_code send_check
raised_device env image device code row db e st st' secure coded bad =
    rw (secure, coded, bad, dispatch_device, dispatch_code, send_check)

keep_wire-outbox :
    (made : Result Tokens.Error OtaCheckGrant × Db) (st : Dispatcher)
    → (keep_wire made st).1.outbox ≡ st.outbox
unfolding keep_wire
keep_wire-outbox (err e, db) st = refl
keep_wire-outbox (ok grant, db) st = refl

create_dispatch_token-outbox :
    (env : Env) (code device_id sha256_hex : Text) (st : Dispatcher)
    → (create_dispatch_token env code device_id sha256_hex st).1.outbox ≡ st.outbox
unfolding create_dispatch_token
create_dispatch_token-outbox env code device_id sha256_hex st =
    elim (Result-cases (dispatch_version code device_id sha256_hex st.db)) [
      | inr (e, bad) ↦ rw (bad, create_dispatch_token)
      | inl (version, good) ↦ rw (good, create_dispatch_token) (keep_wire-outbox _ st)
    ]

-- Any exception of `create_dispatch_token`, of its own checks or of `create_ota_check_grant`, leaves the
-- handler, for whatever device of the loop it comes: if the devices before were answered and the device
-- may receive provisioning and has a code, then /send has no answer, the devices after it are not served,
-- and on Zigbee is what was sent to the devices before it.
pub dispatch_all_raised :
    (env : Env) (image : ImageRow) (before after : List Device) (device : Device) (code : Text)
    (row : CertRow) (db : Db) (e : Error) (results : List (Text × Outcome))
    (st st' st'' : Dispatcher)
    → dispatch_all env image before st ≡ (some results, st')
    → ensure_secure_dispatch_device device.ieee st'.db ≡ ok row
    → ensure_image_code env.crypto env.now image.filename st'.db ≡ (some code, db)
    → create_dispatch_token env code device.ieee image.sha256 (with_db db st') ≡ (err e, st'')
    → (dispatch_all env image (before ++ device ∷ after) st ≡ (none, st''))
      × (st''.outbox ≡ st'.outbox)
unfolding dispatch_all after_device
dispatch_all_raised env image before after device code row db e results st st' st'' h secure coded
      bad =
    (
      raised_later env image before (device ∷ after) results st st' st'' h (
          ap (λ here. after_device device.ieee here (dispatch_all env image after here.1))
            (raised_device env image device code row db e st' st'' secure coded bad)),
      ap (λ (p : Result Error Text × Dispatcher). p.1.outbox) (sym bad)
          ∙ create_dispatch_token-outbox env code device.ieee image.sha256 (with_db db st'),
    )
