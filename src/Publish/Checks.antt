-- ===== src/Publish/Checks.antt =====
-- What the checks of `handle_publish` of firmware_publish.py say of a body that passes them.
use ota_server.Base.{
  ℕ, ◌≡◌, ◌≢◌, ◌≤◌, ◌⊎◌, refl, ap, sym, subst, ◌∙◌, Text, Option, some, List, [], ◌∷◌, ◌||◌, true,
  false, not, map, lower, strip, length, ltb, Dict, Every, Option-cases, Bool-cases, inl, inr,
  text_eq, text_eq→eq, eq→text_eq, arith,
}
use mathlib.Core.Option.{some-injective}
use ota_server.Base.Result.{ok, >>=-eq-ok, raise_if->>-eq-ok, or_raise->>=-eq-ok, ok-injective}
use ota_server.Encoding.{b64u_decode, hex}
use ota_server.Registry.Certificates.{Certificate}
use ota_server.Publish.{
  Env, Checked, Release, Metadata, invalid_filename, invalid_sha256, firmware_sha256_mismatch,
  invalid_base64, metadata_not_json, invalid_certificate, invalid_signature, is_firmware_name,
  is_sha256, metadata_not_object, invalid_metadata, metadata_mismatch, read_required, required,
  is_bound, bindings, make_release, value_of, check_publish, validate_metadata, canonical,
}

-- A value of the metadata that is neither blank nor longer than 96 characters.
abbrev pub IsFilled : Metadata → Text → Type 0
IsFilled metadata key = (strip (metadata.text key) ≢ []) × (length (strip (metadata.text key)) ≤ 96)

-- A value of the certificate is blank or the one that the metadata has for its key.
abbrev pub Agrees : Dict Text → Text × Text → Type 0
Agrees values binding = (strip binding.1 ≡ []) ⊎ (value_of binding.0 values ≡ strip binding.1)

-- The release of a metadata object, a body and its publisher.
pub record Released (metadata : Metadata) (sha : Text) (size : ℕ) (publisher : Certificate)
    (release : Release) : Type 0 where
  pub values : release.values ≡ map (λ key. (key, strip (metadata.text key))) required
  pub filled : Every (IsFilled metadata) required
  pub agrees : Every (Agrees release.values) (bindings publisher)
  pub secure_version : metadata.secure_version ≡ some release.secure_version
  pub active : release.active ≡ metadata.active
  pub body : ◌≡◌ {A = Text × ℕ} (release.sha256, release.size) (sha, size)
  pub author :
      ◌≡◌ {A = Text × Text}
        (release.publisher_device_id, release.publisher_certificate_fingerprint)
        (publisher.device_id, publisher.certificate_fingerprint)

-- What the checks of `handle_publish` say of a body and the headers of its request.
pub record Genuine (env : Env) (size : ℕ) (bytes : Text) (checked : Checked) : Type 0 where
  pub digest : hex (env.sha256 bytes) ≡ map lower env.sha256_header
  pub raw : Text
  pub metadata : Metadata
  pub pem : Text
  pub signature : Text
  pub metadata_header : b64u_decode env.metadata_b64 ≡ some raw
  pub parsed : env.loads raw ≡ some (some metadata)
  pub certificate_header : b64u_decode env.certificate_b64 ≡ some pem
  pub extracted : env.extract pem ≡ some checked.publisher
  pub signature_header : b64u_decode env.signature_b64 ≡ some signature
  pub signed :
      env.verify pem signature
        (canonical env.filename (map lower env.sha256_header) env.metadata_b64)
      ≡ true
  pub released :
      Released metadata (map lower env.sha256_header) size checked.publisher checked.release

not_blank : (s : Text) → text_eq s [] ≡ false → s ≢ []
not_blank s test e = cc (test, eq→text_eq s [] e)

read_required-values :
    (metadata : Metadata) (keys : List Text) (values : Dict Text)
    → read_required metadata keys ≡ some values
    → (values ≡ map (λ key. (key, strip (metadata.text key))) keys) × Every (IsFilled metadata) keys
unfolding read_required
read_required-values metadata [] values h = (sym (some-injective [] values h), tt)
read_required-values metadata (key ∷ keys) values h =
    let value = strip (metadata.text key) in
    elim (Option-cases (read_required metadata keys)) [
      | inl bad ↦ absurd (cc (rw (bad, read_required) at h))
      | inr (rest, found) ↦ elim (Bool-cases (text_eq value [] || ltb 96 (length value))) [
        | inl bad ↦ absurd (cc (rw (found, bad, read_required) at h))
        | inr good ↦
            let (same, filled) = read_required-values metadata keys rest found in
            (
              sym (
                    some-injective ((key, value) ∷ rest) values
                      (rw (found, good, read_required) at h))
                  ∙ ap (λ (d : Dict Text). (key, value) ∷ d) same,
              ((not_blank value (ground (arith, good)), ground (arith, good)), filled),
            )
      ]
    ]

is_bound-Agrees :
    (values bound : Dict Text) → is_bound values bound ≡ true → Every (Agrees values) bound
unfolding is_bound
is_bound-Agrees values [] h = tt
is_bound-Agrees values ((key, cert_value) ∷ more) h =
    let rest = is_bound-Agrees values more (ground (arith, h)) in
    elim (Bool-cases (text_eq (strip cert_value) [])) [
      | inl blank ↦ (inl (text_eq→eq (strip cert_value) [] blank), rest)
      | inr there ↦ (
        inr (text_eq→eq (value_of key values) (strip cert_value) (ground (arith, h, there))),
        rest,
      )
    ]

validate_metadata-Released :
    (parsed : Option Metadata) (sha : Text) (size : ℕ) (publisher : Certificate) (release : Release)
    → validate_metadata parsed sha size publisher ≡ ok release
    → (metadata : Metadata) × (parsed ≡ some metadata)
      × Released metadata sha size publisher release
unfolding validate_metadata
validate_metadata-Released parsed sha size publisher release h =
    let (metadata, there, h1) = or_raise->>=-eq-ok parsed metadata_not_object _ h in
    let (values, read, h2) =
      or_raise->>=-eq-ok (read_required metadata required) invalid_metadata _ h1 in
    let (unbound, h3) =
      raise_if->>-eq-ok (not (is_bound values (bindings publisher))) metadata_mismatch _ h2 in
    let (secure_version, number, h4) =
      or_raise->>=-eq-ok metadata.secure_version invalid_metadata _ h3 in
    let made = make_release metadata values sha size publisher secure_version in
    let (same, filled) = read_required-values metadata required values read in
    let found : Released metadata sha size publisher made = record {
      values = same;
      filled = filled;
      agrees = is_bound-Agrees values (bindings publisher) (ground (arith, unbound));
      secure_version = number;
      active = refl;
      body = refl;
      author = refl;
    } in
    (
      metadata,
      there,
      subst (Released metadata sha size publisher) (ok-injective made release h4) found,
    )

pub check_publish-Genuine :
    (env : Env) (size : ℕ) (bytes : Text) (checked : Checked)
    → check_publish env size bytes ≡ ok checked
    → Genuine env size bytes checked
unfolding check_publish
check_publish-Genuine env size bytes checked h =
    let expected_sha = map lower env.sha256_header in
    let (_, h1) = raise_if->>-eq-ok (not (is_firmware_name env.filename)) invalid_filename _ h in
    let (_, h2) = raise_if->>-eq-ok (not (is_sha256 expected_sha)) invalid_sha256 _ h1 in
    let (same, h3) =
      raise_if->>-eq-ok (not (text_eq (hex (env.sha256 bytes)) expected_sha))
        firmware_sha256_mismatch _ h2 in
    let (raw, raw_there, h4) =
      or_raise->>=-eq-ok (b64u_decode env.metadata_b64) invalid_base64 _ h3 in
    let (parsed, loaded, h5) = or_raise->>=-eq-ok (env.loads raw) metadata_not_json _ h4 in
    let (pem, pem_there, h6) =
      or_raise->>=-eq-ok (b64u_decode env.certificate_b64) invalid_base64 _ h5 in
    let (publisher, extracted, h7) =
      or_raise->>=-eq-ok (env.extract pem) invalid_certificate _ h6 in
    let (signature, signature_there, h8) =
      or_raise->>=-eq-ok (b64u_decode env.signature_b64) invalid_base64 _ h7 in
    let (signed, h9) =
      raise_if->>-eq-ok
        (not (env.verify pem signature (canonical env.filename expected_sha env.metadata_b64)))
        invalid_signature _ h8 in
    let (release, validated, made) =
      >>=-eq-ok (validate_metadata parsed expected_sha size publisher) _ h9 in
    let found : Checked = record { release = release; publisher = publisher } in
    let (metadata, is_object, released) =
      validate_metadata-Released parsed expected_sha size publisher release validated in
    let genuine : Genuine env size bytes found = record {
      digest = text_eq→eq (hex (env.sha256 bytes)) expected_sha (ground (arith, same));
      raw = raw;
      metadata = metadata;
      pem = pem;
      signature = signature;
      metadata_header = raw_there;
      parsed = loaded ∙ ap some is_object;
      certificate_header = pem_there;
      extracted = extracted;
      signature_header = signature_there;
      signed = ground (arith, signed);
      released = released;
    } in
    subst (Genuine env size bytes) (ok-injective found checked made) genuine
