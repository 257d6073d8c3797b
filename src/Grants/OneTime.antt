-- ===== src/Grants/OneTime.antt =====
-- A download token over several calls: `consume_dispatch_token` against itself and against
-- `validate_download_token`.
use ota_server.Base.{
  ℕ, ◌≤◌, ◌≡◌, ◌∙◌, sym, Option-cases, inl, inr, Text, some, false, if◌then◌else◌, arith,
  none_after_update, find_first, map, lower, is_some,
}
use ota_server.Crypto.{Crypto}
use ota_server.Db.{Db, GrantRow}
use ota_server.Ident.{normalize_device_id}
use ota_server.Grants.Downloads.{
  dispatch_match, download_match, consume, consume_where, consume_dispatch_token,
  validate_download_token,
}
use ota_server.Grants.Tokens.{hash_token}

consumed_not_dispatched :
    (now now' : ℕ) (n sha h : Text) (row : GrantRow)
    → now ≤ now'
    → dispatch_match now' n sha h (if dispatch_match now n sha h row then consume now row else row)
      ≡ false
unfolding dispatch_match consume
consumed_not_dispatched now now' n sha h row le = ground arith

consumed_not_downloaded :
    (now now' : ℕ) (n code sha h : Text) (row : GrantRow)
    → now ≤ now'
    → download_match now' n code sha h
        (if dispatch_match now n sha h row then consume now row else row)
      ≡ false
unfolding dispatch_match download_match consume
consumed_not_downloaded now now' n code sha h row le = ground arith

pub dispatch_by_id :
    (crypto : Crypto) (now : ℕ) (token d n sha : Text) (db : Db)
    → normalize_device_id d ≡ some n
    → consume_dispatch_token crypto now token d sha db
      ≡ consume_where now (dispatch_match now n (map lower sha) (hash_token crypto token)) db
unfolding consume_dispatch_token
dispatch_by_id crypto now token d n sha db e = rw (e, consume_dispatch_token)

pub validate_by_id :
    (crypto : Crypto) (now : ℕ) (token code d n sha : Text) (db : Db)
    → normalize_device_id d ≡ some n
    → validate_download_token crypto now token code d sha db
      ≡ is_some (
          find_first
            (download_match now n code (map lower sha) (hash_token crypto token))
            db.download_grants)
unfolding validate_download_token
validate_by_id crypto now token code d n sha db e = rw (e, validate_download_token)

-- Whatever `consume_dispatch_token` answered for a token, from then on neither
-- `validate_download_token`, for any code, nor `consume_dispatch_token` accepts the token for that
-- device and firmware, at that time or later, however the device identity is spelled.
pub consume_dispatch_token_once :
    (crypto : Crypto) (now now' : ℕ) (token code d d' n sha : Text) (db : Db)
    → normalize_device_id d ≡ some n
    → normalize_device_id d' ≡ some n
    → now ≤ now'
    → let db' = (consume_dispatch_token crypto now token d sha db).1 in
      (validate_download_token crypto now' token code d' sha db' ≡ false)
      × ((consume_dispatch_token crypto now' token d' sha db').0 ≡ false)
unfolding consume_where
consume_dispatch_token_once crypto now now' token code d d' n sha db e e' le =
    let s = map lower sha in
    let h = hash_token crypto token in
    let none_valid =
      none_after_update (dispatch_match now n s h) (download_match now' n code s h) (consume now)
        db.download_grants (λ row. consumed_not_downloaded now now' n code s h row le) in
    let none_open =
      none_after_update (dispatch_match now n s h) (dispatch_match now' n s h) (consume now)
        db.download_grants (λ row. consumed_not_dispatched now now' n s h row le) in
    rw (dispatch_by_id crypto now token d n sha db e) (
      validate_by_id crypto now' token code d' n sha _ e' ∙ rw none_valid.0,
      rw (dispatch_by_id crypto now' token d' n sha _ e', none_open.1),
    )

-- The answer of `validate_download_token` depends on the grants alone.
pub validate-same_grants :
    (crypto : Crypto) (now : ℕ) (token code d sha : Text) (db db' : Db)
    → db'.download_grants ≡ db.download_grants
    → validate_download_token crypto now token code d sha db'
      ≡ validate_download_token crypto now token code d sha db
unfolding validate_download_token
validate-same_grants crypto now token code d sha db db' same =
    elim (Option-cases (normalize_device_id d)) [
      | inl e ↦ rw (e, validate_download_token)
      | inr (n, e) ↦
          validate_by_id crypto now token code d n sha db' e
          ∙ (rw same)
          ∙ sym (validate_by_id crypto now token code d n sha db e)
    ]
