-- ===== src/Grants/Issue.antt =====
-- What a grant of `create_ota_check_grant` allows.
use mathlib.Core.Option.{some-injective}
use ota_server.Base.{
  strip, ℕ, ◌+◌, ◌≤◌, ◌≡◌, refl, sym, ap, subst, ◌∙◌, Text, Option, some, none, Bool, true, false,
  arith, find_first, map, lower, is_some, eq→text_eq, text_eq_iff, find_first-none_of_imp, ◌∷◌,
  Bool-cases, inl, inr, ◌↔◌, ◌⊎◌, Option-cases,
}
use ota_server.Base.Result.{Result, ok, err, ok-injective, ◌>>=◌}
use ota_server.Crypto.{Crypto}
use ota_server.Db.{Db, GrantRow}
use ota_server.Ident.{normalize_device_id}
use ota_server.Grants.Tokens.{
  Error, duplicate_token, OtaCheckGrant, hash_token, has_token_hash, grant_row, insert_grant,
  store_grant, prepare_grant, create_ota_check_grant, check_arguments,
}
use ota_server.Grants.Downloads.{download_match, validate_download_token}
use ota_server.Grants.OneTime.{validate_by_id}

-- What a grant that was stored says of the database before and after.
pub record Stored (crypto : Crypto) (grant : OtaCheckGrant) (db db' : Db) : Type 0 where
  pub is_new : find_first (has_token_hash (hash_token crypto grant.token)) db.download_grants ≡ none
  pub inserted : db' ≡ record db { download_grants = grant_row crypto grant ∷ db.download_grants }

is_some-none : {A : Type 0} (o : Option A) → is_some o ≡ false → o ≡ none
is_some-none none h = refl
is_some-none (some a) h = cc

insert_cases :
    (row : GrantRow) (db : Db)
    → (insert_grant row db ≡ (err duplicate_token, db))
      ⊎ ((find_first (has_token_hash row.token_hash) db.download_grants ≡ none)
          × (insert_grant row db
              ≡ (ok tt, record db { download_grants = row ∷ db.download_grants })))
unfolding insert_grant
insert_cases row db =
    elim (Bool-cases (is_some (find_first (has_token_hash row.token_hash) db.download_grants))) [
      | inl old ↦ inl (rw old)
      | inr new ↦ inr (is_some-none _ new, rw new)
    ]

Stored-grant_row :
    (crypto : Crypto) (g grant : OtaCheckGrant) (db db' : Db)
    → find_first (has_token_hash (grant_row crypto g).token_hash) db.download_grants ≡ none
    → ◌≡◌ {A = Result Error OtaCheckGrant} (ok g) (ok grant)
    → record db { download_grants = grant_row crypto g ∷ db.download_grants } ≡ db'
    → Stored crypto grant db db'
unfolding grant_row
Stored-grant_row crypto g grant db db' new same after =
    subst (λ k. Stored crypto k db db') (ok-injective g grant same)
      (record { is_new = new; inserted = sym after })

store_grant-Stored :
    (crypto : Crypto) (prepared : Result Error OtaCheckGrant) (grant : OtaCheckGrant) (db db' : Db)
    → store_grant crypto prepared db ≡ (ok grant, db')
    → (prepared ≡ ok grant) × Stored crypto grant db db'
unfolding store_grant
store_grant-Stored crypto (err e) grant db db' h =
    absurd (cc (ap (λ (r : Result Error OtaCheckGrant × Db). r.0) h))
store_grant-Stored crypto (ok g) grant db db' h = elim (insert_cases (grant_row crypto g) db) [
  | inl refused ↦ absurd (
      cc (
        ap (λ (r : Result Error (Unit {0}) × Db). r.0 >>= λ _. ok g) refused,
        ap (λ (r : Result Error OtaCheckGrant × Db). r.0) h,
      ))
  | inr (new, stored) ↦
      let same =
        sym (ap (λ (r : Result Error (Unit {0}) × Db). r.0 >>= λ _. ok g) stored)
        ∙ ap (λ (r : Result Error OtaCheckGrant × Db). r.0) h in
      let after =
        sym (ap (λ (r : Result Error (Unit {0}) × Db). r.1) stored)
        ∙ ap (λ (r : Result Error OtaCheckGrant × Db). r.1) h in
      (same, Stored-grant_row crypto g grant db db' new same after)
]

-- What a prepared grant says of the arguments that it was made from.
pub record Prepared (now : ℕ) (device_id : Text) (grant : OtaCheckGrant) : Type 0 where
  pub normal : normalize_device_id device_id ≡ some grant.device_id
  pub checked : check_arguments grant.version grant.code grant.sha256 ≡ ok tt
  pub created : grant.created_at ≡ now
  pub expires : grant.expires_at ≡ now + 300

prepare_grant-Prepared :
    (crypto : Crypto) (now : ℕ) (random8 d version code sha : Text) (grant : OtaCheckGrant)
    (db : Db)
    → prepare_grant crypto now random8 d version code sha db ≡ ok grant
    → Prepared now d grant
unfolding prepare_grant
prepare_grant-Prepared crypto now random8 d version code sha grant db h = record {
  normal = ground arith;
  checked = ground arith;
  created = ground arith;
  expires = ground arith;
}

prepare_grant-arguments :
    (crypto : Crypto) (now : ℕ) (random8 d version code sha : Text) (grant : OtaCheckGrant)
    (db : Db)
    → prepare_grant crypto now random8 d version code sha db ≡ ok grant
    → (grant.code ≡ strip code) × (grant.sha256 ≡ strip (map lower sha))
unfolding prepare_grant
prepare_grant-arguments crypto now random8 d version code sha grant db h =
    (ground (arith, h), ground (arith, h))

-- The code and the hash of a grant are those of the call, without blanks around them.
pub create_ota_check_grant-arguments :
    (crypto : Crypto) (now : ℕ) (random8 d version code sha : Text) (grant : OtaCheckGrant)
    (db db' : Db)
    → create_ota_check_grant crypto now random8 d version code sha db ≡ (ok grant, db')
    → (grant.code ≡ strip code) × (grant.sha256 ≡ strip (map lower sha))
unfolding create_ota_check_grant
create_ota_check_grant-arguments crypto now random8 d version code sha grant db db' h =
    prepare_grant-arguments crypto now random8 d version code sha grant db
      (store_grant-Stored crypto (prepare_grant crypto now random8 d version code sha db) grant db
        db' h).0

-- A search that the new row does not answer finds nothing: its token was new.
old_rows :
    (now : ℕ) (n code sha h : Text) (db : Db)
    → find_first (has_token_hash h) db.download_grants ≡ none
    → find_first (download_match now n code sha h) db.download_grants ≡ none
unfolding has_token_hash download_match
old_rows now n code sha h db new =
    (find_first-none_of_imp (has_token_hash h) (download_match now n code sha h) db.download_grants
      (λ row hit. ground (arith, hit)) new).0

found_is_row :
    (q : GrantRow → Bool) (row : GrantRow) (db : Db)
    → find_first q db.download_grants ≡ none
    → is_some (find_first q (row ∷ db.download_grants)) ≡ q row
unfolding find_first
found_is_row q row db h = ground (arith, h)

validate-inserted :
    (crypto : Crypto) (now : ℕ) (code d n sha : Text) (grant : OtaCheckGrant) (db db' : Db)
    → Stored crypto grant db db'
    → normalize_device_id d ≡ some n
    → validate_download_token crypto now grant.token code d sha db'
      ≡ download_match now n code
          (map lower sha)
          (hash_token crypto grant.token)
          (grant_row crypto grant)
validate-inserted crypto now code d n sha grant db db' stored e =
    let h = hash_token crypto grant.token in
    validate_by_id crypto now grant.token code d n sha db' e
    ∙ rw stored.inserted (
        found_is_row (download_match now n code (map lower sha) h) (grant_row crypto grant) db
          (old_rows now n code (map lower sha) h db stored.is_new))

match-grant_row :
    (crypto : Crypto) (now : ℕ) (n code sha : Text) (grant : OtaCheckGrant)
    → (download_match now n code sha (hash_token crypto grant.token) (grant_row crypto grant)
        ≡ true)
      ↔ ((n ≡ grant.device_id)
          × (code ≡ grant.code)
          × (sha ≡ grant.sha256)
          × (now ≤ grant.expires_at))
unfolding download_match grant_row
match-grant_row crypto now n code sha grant = (
  λ m. ground (
    arith,
    m,
    text_eq_iff grant.device_id n,
    text_eq_iff grant.code code,
    text_eq_iff grant.sha256 sha,
  ),
  λ (en, ec, es, le). ground (
    arith,
    en,
    ec,
    es,
    text_eq_iff grant.device_id n,
    text_eq_iff grant.code code,
    text_eq_iff grant.sha256 sha,
    eq→text_eq (hash_token crypto grant.token) _ refl,
  ),
)

invalid_id :
    (crypto : Crypto) (now : ℕ) (token code d sha : Text) (db : Db)
    → normalize_device_id d ≡ none
    → validate_download_token crypto now token code d sha db ≡ false
unfolding validate_download_token
invalid_id crypto now token code d sha db e = rw (e, validate_download_token)

-- Once `create_ota_check_grant` has returned a grant at time `now`, `validate_download_token`
-- accepts its token exactly for the device that it was made for, in any spelling, with its code and
-- its firmware hash, in any case of the letters, and not after `now + 300`.
pub create_ota_check_grant-validate :
    (crypto : Crypto) (now now' : ℕ) (random8 d d' version code code' sha sha' : Text)
    (grant : OtaCheckGrant) (db db' : Db)
    → create_ota_check_grant crypto now random8 d version code sha db ≡ (ok grant, db')
    → (validate_download_token crypto now' grant.token code' d' sha' db' ≡ true) ↔ (
        (normalize_device_id d' ≡ normalize_device_id d)
        × (code' ≡ grant.code)
        × (map lower sha' ≡ grant.sha256)
        × (now' ≤ now + 300))
unfolding create_ota_check_grant
create_ota_check_grant-validate crypto now now' random8 d d' version code code' sha sha' grant db
      db' h =
    let (made, stored) =
      store_grant-Stored crypto (prepare_grant crypto now random8 d version code sha db) grant db
        db' h in
    let p = prepare_grant-Prepared crypto now random8 d version code sha grant db made in
    elim (Option-cases (normalize_device_id d')) [
      | inl bad ↦ (
        λ valid. absurd (cc (valid, invalid_id crypto now' grant.token code' d' sha' db' bad)),
        λ (same, _, _, _). absurd (cc (sym bad ∙ same ∙ p.normal)),
      )
      | inr (n, e) ↦
          let by_row = validate-inserted crypto now' code' d' n sha' grant db db' stored e in
          let row_iff = match-grant_row crypto now' n code' (map lower sha') grant in
          (
            λ valid.
                let (en, ec, es, le) = row_iff.0 (sym by_row ∙ valid) in
                (e ∙ ap some en ∙ sym p.normal, ec, es, rw p.expires at le),
            λ (same, ec, es, le).
                by_row
                ∙ row_iff.1 (
                  some-injective n grant.device_id (sym e ∙ same ∙ p.normal),
                  ec,
                  es,
                  rw p.expires le,
                ),
          )
    ]
