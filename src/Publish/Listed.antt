-- ===== src/Publish/Listed.antt =====
-- The row that `record_firmware_publish` of activity.py leaves, and the guard of publish_guard.py.
use ota_server.Base.{
  ℕ, ◌≡◌, ◌⊎◌, ◌<◌, ◌++◌, length, refl, ap, sym, subst, ◌∙◌, Text, Option, none, some, List, [],
  ◌∷◌, Bool, true, text_eq_refl, find_first, update_where, arith, Option-cases, Bool-cases, inl,
  inr, ltb, find_first-update, find_first_sound,
}
use mathlib.Core.Option.{some-injective}
use ota_server.Base.Result.{ok}
use ota_server.Db.{Db, PublicationRow}
use ota_server.Ident.{normalize_device_id}
use ota_server.Publish.{
  record_firmware_publish, is_publication, new_publication, change_publication, upsert_publication,
  version_column,
}
use ota_server.Publish.Converter.{
  later_of, latest_where, is_verified_build, is_build, require_verified_firmware_publication,
}

pub latest_where-some :
    (p q : PublicationRow → Bool) (rows : List PublicationRow) (row : PublicationRow)
    → find_first p rows ≡ some row
    → q row ≡ true
    → (latest : PublicationRow) × (latest_where q rows ≡ some latest)
unfolding latest_where find_first
latest_where-some p q [] row h good = cc
latest_where-some p q (first ∷ rows) row h good = elim (Bool-cases (q first)) [
  | inl here ↦ rw here (picked first (latest_where q rows))
  | inr other ↦ elim (Bool-cases (p first)) [
    | inl found ↦ absurd (cc (other, ap q (some-injective first row (rw found at h)), good))
    | inr not_found ↦ rw other (latest_where-some p q rows row (rw not_found at h) good)
  ]
]
  where
    picked :
        (first : PublicationRow) (rest : Option PublicationRow)
        → (latest : PublicationRow) × (later_of first rest ≡ some latest)
    picked first none = (first, refl)
    picked first (some other) = elim (Bool-cases (ltb first.published_at other.published_at)) [
      | inl older ↦ (other, rw older)
      | inr newer ↦ (first, rw newer)
    ]

is_publication-change :
    (version filename : Text) (now : ℕ) (sha : Text) (size : ℕ) (n fingerprint : Text)
    (row : PublicationRow)
    → is_publication version filename (change_publication now sha size n fingerprint row)
      ≡ is_publication version filename row
unfolding is_publication change_publication
is_publication-change version filename now sha size n fingerprint row = refl

is_publication-new :
    (now : ℕ) (version filename sha : Text) (size : ℕ) (n fingerprint : Text)
    (rows : List PublicationRow)
    → find_first
        (is_publication version filename)
        (new_publication now version filename sha size n fingerprint ∷ rows)
      ≡ some (new_publication now version filename sha size n fingerprint)
unfolding is_publication new_publication find_first
is_publication-new now version filename sha size n fingerprint rows =
    rw (text_eq_refl version, text_eq_refl filename)

verified-new :
    (now : ℕ) (version filename sha : Text) (size : ℕ) (n fingerprint : Text)
    → is_verified_build version n (new_publication now version filename sha size n fingerprint)
      ≡ true
unfolding is_verified_build is_build new_publication
verified-new now version filename sha size n fingerprint = rw (text_eq_refl version, text_eq_refl n)

verified-change :
    (now : ℕ) (version filename sha : Text) (size : ℕ) (n fingerprint : Text) (row : PublicationRow)
    → is_publication version filename row ≡ true
    → is_verified_build version n (change_publication now sha size n fingerprint row) ≡ true
unfolding is_verified_build is_build change_publication is_publication
verified-change now version filename sha size n fingerprint row h =
    rw (text_eq_refl n) (ground (arith, h))

upsert_publication-latest :
    (now : ℕ) (version filename sha : Text) (size : ℕ) (n fingerprint : Text)
    (rows : List PublicationRow)
    → (row : PublicationRow) × (latest_where
          (is_verified_build version n)
          (upsert_publication now version filename sha size n fingerprint rows)
        ≡ some row)
unfolding upsert_publication
upsert_publication-latest now version filename sha size n fingerprint rows =
    elim (Option-cases (find_first (is_publication version filename) rows)) [
      | inl new ↦ rw new (
          latest_where-some (is_publication version filename) (is_verified_build version n)
            (new_publication now version filename sha size n fingerprint ∷ rows)
            (new_publication now version filename sha size n fingerprint)
            (is_publication-new now version filename sha size n fingerprint rows)
            (verified-new now version filename sha size n fingerprint))
      | inr (row, found) ↦
          let matched = find_first_sound (is_publication version filename) rows row found in
          let change = change_publication now sha size n fingerprint in
          rw found (
            latest_where-some (is_publication version filename) (is_verified_build version n)
              (update_where (is_publication version filename) change rows) (change row)
              (find_first-update (is_publication version filename) (is_publication version filename)
                  change rows (is_publication-change version filename now sha size n fingerprint)
                ∙ (rw (found, matched)))
              (verified-change now version filename sha size n fingerprint row matched))
    ]

guard_by_id :
    (version d n : Text) (db : Db) (row : PublicationRow)
    → normalize_device_id d ≡ some n
    → latest_where (is_verified_build version n) db.artifact_publications ≡ some row
    → require_verified_firmware_publication version d db ≡ ok row
unfolding require_verified_firmware_publication
guard_by_id version d n db row e found = rw (e, found, require_verified_firmware_publication)

-- After `record_firmware_publish` the guard of the converter passes.
pub record_firmware_publish-listed :
    (now : ℕ) (version filename sha : Text) (size : ℕ) (d fingerprint : Text) (db db' : Db)
    → record_firmware_publish now version filename sha size d fingerprint db ≡ some db'
    → (row : PublicationRow) × (require_verified_firmware_publication version d db' ≡ ok row)
unfolding record_firmware_publish
record_firmware_publish-listed now version filename sha size d fingerprint db db' h =
    elim (Option-cases (normalize_device_id d)) [
      | inl bad ↦ absurd (cc (rw (bad, record_firmware_publish) at h))
      | inr (n, e) ↦ elim (Bool-cases (ltb version_column (length version))) [
        | inl long ↦ absurd (cc (rw (e, long, record_firmware_publish) at h))
        | inr fits ↦
            let (row, latest) =
              upsert_publication-latest now version filename sha size n fingerprint
                db.artifact_publications in
            let after : Db = record db {
              artifact_publications =
                  upsert_publication now version filename sha size n fingerprint
                    db.artifact_publications;
            } in
            (
              row,
              subst (λ k. require_verified_firmware_publication version d k ≡ ok row)
                  (some-injective after db' (rw (e, fits, record_firmware_publish) at h))
                  (guard_by_id version d n after row e latest),
            )
      ]
    ]

-- `record_firmware_publish` raises for an identity that is none, and for a version too long.
pub record_firmware_publish-none :
    (now : ℕ) (version filename sha : Text) (size : ℕ) (d fingerprint : Text) (db : Db)
    → record_firmware_publish now version filename sha size d fingerprint db ≡ none
    → (normalize_device_id d ≡ none) ⊎ (64 < length version)
unfolding record_firmware_publish
record_firmware_publish-none now version filename sha size d fingerprint db h =
    elim (Option-cases (normalize_device_id d)) [
      | inl bad ↦ inl bad
      | inr (n, e) ↦ elim (Bool-cases (ltb version_column (length version))) [
        | inl long ↦ inr (ground (arith, long))
        | inr fits ↦ absurd (cc (rw (e, fits, record_firmware_publish) at h))
      ]
    ]

-- The row that the guard picks is one of the table, and passes its test.
pub latest_where-Listed :
    (match : PublicationRow → Bool) (rows : List PublicationRow) (row : PublicationRow)
    → latest_where match rows ≡ some row
    → (match row ≡ true)
      × (before : List PublicationRow) × (after : List PublicationRow) × (rows
          ≡ before ++ row ∷ after)
unfolding latest_where
latest_where-Listed match [] row h = absurd (cc h)
latest_where-Listed match (first ∷ rows) row h = elim (Bool-cases (match first)) [
  | inr other ↦ later (latest_where-Listed match rows row (rw (other, latest_where) at h))
  | inl here ↦ elim (Option-cases (latest_where match rows)) [
    | inl none_there ↦ own here (rw (here, none_there, latest_where) at h)
    | inr (best, found) ↦ elim (Bool-cases (ltb first.published_at best.published_at)) [
      | inl older ↦
          let same : some best ≡ some row = rw (here, found, older, latest_where) at h in
          later (latest_where-Listed match rows row (found ∙ same))
      | inr newer ↦ own here (rw (here, found, newer, latest_where) at h)
    ]
  ]
]
  where
    later :
        ((match row ≡ true)
          × (before : List PublicationRow) × (after : List PublicationRow) × (rows
              ≡ before ++ row ∷ after))
        → (match row ≡ true)
          × (before : List PublicationRow) × (after : List PublicationRow) × (first ∷ rows
              ≡ before ++ row ∷ after)
    later (good, before, after, e) = (good, first ∷ before, after, ap (λ r. first ∷ r) e)

    own :
        match first ≡ true
        → some first ≡ some row
        → (match row ≡ true)
          × (before : List PublicationRow) × (after : List PublicationRow) × (first ∷ rows
              ≡ before ++ row ∷ after)
    own here e =
        let same = some-injective first row e in
        (ap match (sym same) ∙ here, [], rows, ap (λ r. r ∷ rows) same)
