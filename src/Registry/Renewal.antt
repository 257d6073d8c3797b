-- ===== src/Registry/Renewal.antt =====
-- What a registration leaves in the table of certificates.
use ota_server.Base.{
  ℕ, Text, ◌≡◌, refl, ap, ◌∙◌, Option, none, some, List, ◌∷◌, text_eq, text_eq_refl, text_eq→eq,
  if◌then◌else◌, find_first, update_where, find_first-update, find_first_sound, Option-cases,
  Bool-cases, inl, inr, subst, ◌≢◌, is_some,
}
use ota_server.Base.Result.{Result, ok, err}
use ota_server.Db.{Db, CertRow}
use ota_server.Registry.{Error, duplicate_fingerprint, has_id, find_cert}
use ota_server.Registry.Certificates.{
  Certificate, RegistrationAction, registered_row, replaced_row, touched_row, write_certificate,
  register_device_certificate, has_other_fingerprint,
}

-- The fingerprint and the last HELLO counter of a row.
abbrev pub key_and_counter : Option CertRow → Option (Text × ℕ)
key_and_counter none = none
key_and_counter (some row) = some (row.certificate_fingerprint, row.last_hello_counter)

-- The counter that a registration leaves: the one that is there, for the same certificate only.
abbrev pub kept_counter : Certificate → Option CertRow → ℕ
kept_counter c none = 0
kept_counter c (some row) =
    if text_eq row.certificate_fingerprint c.certificate_fingerprint
    then row.last_hello_counter
    else 0

first_cert :
    (now : ℕ) (c : Certificate) (rows : List CertRow)
    → find_first (has_id c.device_id) (registered_row now c ∷ rows) ≡ some (registered_row now c)
unfolding find_first has_id registered_row
first_cert now c rows = rw (text_eq_refl c.device_id) refl

updated_cert :
    (n : Text) (change : CertRow → CertRow) (rows : List CertRow) (row : CertRow)
    → ((r : CertRow) → has_id n (change r) ≡ has_id n r)
    → find_first (has_id n) rows ≡ some row
    → find_first (has_id n) (update_where (has_id n) change rows) ≡ some (change row)
updated_cert n change rows row keeps found =
    find_first-update (has_id n) (has_id n) change rows keeps
    ∙ rw (found, find_first_sound (has_id n) rows row found) refl

written :
    (now : ℕ) (c : Certificate) (db : Db)
    → key_and_counter
        (find_cert c.device_id (write_certificate (find_cert c.device_id db) now c db).1)
      ≡ some (c.certificate_fingerprint, kept_counter c (find_cert c.device_id db))
unfolding write_certificate find_cert has_id registered_row replaced_row touched_row
written now c db = elim (Option-cases (find_cert c.device_id db)) [
  | inl new ↦
      rw (new, write_certificate) (ap key_and_counter (first_cert now c db.device_certificates))
  | inr (row, found) ↦
      elim (Bool-cases (text_eq row.certificate_fingerprint c.certificate_fingerprint)) [
        | inl same ↦
            rw (found, write_certificate, same)
              (ap key_and_counter (
                  updated_cert c.device_id (touched_row now) db.device_certificates row (λ r. refl)
                    found)
                ∙ ap (λ t. some (t, row.last_hello_counter))
                    (text_eq→eq row.certificate_fingerprint c.certificate_fingerprint same))
        | inr other ↦
            rw (found, write_certificate, other)
              (ap key_and_counter (
                updated_cert c.device_id (replaced_row now c) db.device_certificates row (λ r. refl)
                  found))
      ]
]

-- After `register_device_certificate` returned for a certificate, the row of its device has its fingerprint;
-- the HELLO counter of the row stays exactly if the certificate is the one that was there, and is 0 else.
pub register_device_certificate_lem :
    (now : ℕ) (c : Certificate) (action : RegistrationAction) (db db' : Db)
    → register_device_certificate now c db ≡ (ok action, db')
    → key_and_counter (find_cert c.device_id db')
      ≡ some (c.certificate_fingerprint, kept_counter c (find_cert c.device_id db))
unfolding register_device_certificate
register_device_certificate_lem now c action db db' h =
    let other = is_some (find_first (has_other_fingerprint c) db.device_certificates) in
    elim (Bool-cases other) [
      | inl taken ↦ absurd (
          refused (
            ap (λ (r : Result Error RegistrationAction × Db). r.0)
              (rw (taken, register_device_certificate) at h)))
      | inr free ↦
          subst
            (λ d.
              key_and_counter (find_cert c.device_id d)
              ≡ some (c.certificate_fingerprint, kept_counter c (find_cert c.device_id db)))
            (ap (λ (r : Result Error RegistrationAction × Db). r.1)
              (rw (free, register_device_certificate) at h))
            (written now c db)
    ]
  where
    refused : err duplicate_fingerprint ≢ ok action
    refused e = cc
