-- ===== src/Publish/Refused.antt =====
-- Publications that are refused.
use ota_server.Base.{
  ℕ, ◌<◌, ◌≡◌, ◌⊎◌, refl, ap, sym, ◌∙◌, Text, codes, [], get, put, Option, none, some, length,
  text_eq, is_some, find_first, Option-cases, Bool-cases, inl, inr,
}
use ota_server.Base.Result.{Result-cases}
use ota_server.Db.{Db, CertRow}
use ota_server.Ident.{normalize_device_id}
use ota_server.Registry.{find_cert}
use ota_server.Registry.Certificates.{
  Certificate, RegistrationAction, register_device_certificate, write_certificate,
  has_other_fingerprint,
}
use ota_server.Publish
use ota_server.Publish.{
  Share, Answer, Checked, Release, Received, body, truncated, out_of_rounds, rejected, receive,
  check_publish, body_size, not_recorded, record_firmware_publish, value_of, replace_files,
  record_publish, store_publish, publish_body, after_body, handle_publish, unlink_temp,
}
use ota_server.Publish.Checks.{Genuine, check_publish-Genuine}
use ota_server.Publish.Listed.{record_firmware_publish-none}
use ota_server.Publish.Verified.{replaced_file}

-- What a publication may have changed.
pub record Untouched (st st' : Share) : Type 0 where
  pub db : st'.db ≡ st.db
  pub firmware : st'.firmware ≡ st.firmware
  pub releases : st'.releases ≡ st.releases

unlink-Untouched : (env : Publish.Env) (st : Share) → Untouched st (unlink_temp env st)
unlink-Untouched env st = record { db = refl; firmware = refl; releases = refl }

-- A firmware that passed the checks and was written, but not listed, as the table does not take it.
pub record Unrecorded (env : Publish.Env) (e : Publish.Error) (st st' : Share) : Type 0 where
  pub size : ℕ
  pub bytes : Text
  pub checked : Checked
  pub error : e ≡ not_recorded
  pub genuine : Genuine env size bytes checked
  pub cause :
      (normalize_device_id checked.publisher.device_id ≡ none)
      ⊎ (64 < length (value_of (codes "firmware_version") checked.release.values))
  pub stored : get env.filename st'.firmware ≡ some bytes
  pub unlisted : st'.db.artifact_publications ≡ st.db.artifact_publications

same_error : (e e' : Publish.Error) → ◌≡◌ {A = Answer} (rejected e) (rejected e') → e ≡ e'
same_error e e' h = cc

write_certificate-publications :
    (found : Option CertRow) (now : ℕ) (c : Certificate) (db : Db)
    → (write_certificate found now c db).1.artifact_publications ≡ db.artifact_publications
unfolding write_certificate
write_certificate-publications none now c db = refl
write_certificate-publications (some row) now c db =
    elim (Bool-cases (text_eq row.certificate_fingerprint c.certificate_fingerprint)) [
      | inl same ↦ rw same refl
      | inr other ↦ rw other refl
    ]

register-publications :
    (now : ℕ) (c : Certificate) (db : Db)
    → (register_device_certificate now c db).1.artifact_publications ≡ db.artifact_publications
unfolding register_device_certificate
register-publications now c db =
    elim (Bool-cases (is_some (find_first (has_other_fingerprint c) db.device_certificates))) [
      | inl taken ↦ rw taken refl
      | inr free ↦ rw free (write_certificate-publications (find_cert c.device_id db) now c db)
    ]

record_publish-refused :
    (env : Publish.Env) (size : ℕ) (checked : Checked) (action : RegistrationAction) (st : Share)
    (e : Publish.Error)
    → (record_publish env size checked action st).0 ≡ rejected e
    → (e ≡ not_recorded)
      × ((record_publish env size checked action st).1 ≡ st)
      × ((normalize_device_id checked.publisher.device_id ≡ none)
          ⊎ (64 < length (value_of (codes "firmware_version") checked.release.values)))
unfolding record_publish
record_publish-refused env size checked action st e h =
    let version = value_of (codes "firmware_version") checked.release.values in
    elim (Option-cases (
      record_firmware_publish env.now version env.filename checked.release.sha256 size
        checked.publisher.device_id checked.publisher.certificate_fingerprint st.db)) [
          | inl bad ↦ (
            sym (same_error not_recorded e (rw (bad, record_publish) at h)),
            rw (bad, record_publish) refl,
            record_firmware_publish-none env.now version env.filename checked.release.sha256 size
                checked.publisher.device_id checked.publisher.certificate_fingerprint st.db bad,
          )
          | inr (db', listed) ↦ absurd (cc (rw (listed, record_publish) at h))
        ]

store_publish-refused :
    (env : Publish.Env) (size : ℕ) (bytes : Text) (checked : Checked) (st : Share)
    (e : Publish.Error)
    → Genuine env size bytes checked
    → (store_publish env size bytes checked st).0 ≡ rejected e
    → Untouched st (store_publish env size bytes checked st).1
      ⊎ Unrecorded env e st (store_publish env size bytes checked st).1
unfolding store_publish
store_publish-refused env size bytes checked st e genuine h =
    elim (Result-cases (register_device_certificate env.now checked.publisher st.db).0) [
      | inr (raised, refused) ↦ rw (refused, store_publish) (inl (unlink-Untouched env st))
      | inl (action, registered) ↦
          let db' = (register_device_certificate env.now checked.publisher st.db).1 in
          let with_row : Share = record st { db = db' } in
          let written = replace_files env bytes checked.release with_row in
          let (error, same, cause) =
            record_publish-refused env size checked action written e
              (rw (registered, store_publish) at h) in
          rw (registered, store_publish)
            (inr (record {
              size = size;
              bytes = bytes;
              checked = checked;
              error = error;
              genuine = genuine;
              cause = cause;
              stored =
                  ap (λ (s : Share). get env.filename s.firmware) same
                  ∙ replaced_file env bytes checked.release with_row;
              unlisted =
                  ap (λ (s : Share). s.db.artifact_publications) same
                  ∙ replaced_publications env bytes checked.release with_row
                  ∙ register-publications env.now checked.publisher st.db;
            }))
    ]
  where
    replaced_publications :
        (env : Publish.Env) (bytes : Text) (release : Release) (s : Share)
        → (replace_files env bytes release s).db.artifact_publications ≡ s.db.artifact_publications
    replaced_publications env bytes release s = unfold replace_files in refl

publish_body-refused :
    (env : Publish.Env) (size : ℕ) (bytes : Text) (st : Share) (e : Publish.Error)
    → (publish_body env size bytes st).0 ≡ rejected e
    → Untouched st (publish_body env size bytes st).1
      ⊎ Unrecorded env e st (publish_body env size bytes st).1
unfolding publish_body
publish_body-refused env size bytes st e h = elim (Result-cases (check_publish env size bytes)) [
  | inr (raised, refused) ↦ rw (refused, publish_body) (inl (unlink-Untouched env st))
  | inl (checked, passed) ↦
      rw (passed, publish_body)
        (store_publish-refused env size bytes checked st e
          (check_publish-Genuine env size bytes checked passed) (rw (passed, publish_body) at h))
]

-- The temporary file before the checks is no change of what counts.
without_temp :
    (env : Publish.Env) (bytes : Text) (e : Publish.Error) (st st' : Share)
    → Untouched (record st { temps = put env.temp_name bytes st.temps }) st'
      ⊎ Unrecorded env e (record st { temps = put env.temp_name bytes st.temps }) st'
    → Untouched st st' ⊎ Unrecorded env e st st'
without_temp env bytes e st st' (inl u) =
    inl (record { db = u.db; firmware = u.firmware; releases = u.releases })
without_temp env bytes e st st' (inr u) = inr (record {
  size = u.size;
  bytes = u.bytes;
  checked = u.checked;
  error = u.error;
  genuine = u.genuine;
  cause = u.cause;
  stored = u.stored;
  unlisted = u.unlisted;
})

after_body-refused :
    (env : Publish.Env) (size : ℕ) (r : Received) (st : Share) (e : Publish.Error)
    → (after_body env size r st).0 ≡ rejected e
    → Untouched st (after_body env size r st).1 ⊎ Unrecorded env e st (after_body env size r st).1
unfolding after_body
after_body-refused env size (body bytes) st e h =
    let with_temp : Share = record st { temps = put env.temp_name bytes st.temps } in
    without_temp env bytes e st (publish_body env size bytes with_temp).1
      (publish_body-refused env size bytes with_temp e h)
after_body-refused env size truncated st e h = inl (unlink-Untouched env st)
after_body-refused env size out_of_rounds st e h = inl (unlink-Untouched env st)

-- A firmware that `handle_publish` refuses leaves the database, the firmware files and the release files as
-- they were, except in one case: it passed every check, but the identity in the certificate is none or its
-- version has more than 64 characters, which the table of publications does not take; then the file is
-- stored and the table of publications is unchanged.
pub handle_publish-refused :
    (env : Publish.Env) (st : Share) (e : Publish.Error)
    → (handle_publish env st).0 ≡ rejected e
    → Untouched st (handle_publish env st).1 ⊎ Unrecorded env e st (handle_publish env st).1
unfolding handle_publish
handle_publish-refused env st e h = elim (Result-cases (body_size env.content_length)) [
  | inr (raised, refused) ↦
      rw (refused, handle_publish) (inl (record { db = refl; firmware = refl; releases = refl }))
  | inl (size, announced) ↦
      rw (announced, handle_publish)
        (after_body-refused env size (receive env.read size size 0 []) st e
          (rw (announced, handle_publish) at h))
]
