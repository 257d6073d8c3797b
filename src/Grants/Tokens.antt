-- ===== src/Grants/Tokens.antt =====
-- ota_check_security.py: keys, tokens, wires and the creation of a grant.
use ota_server.Base.{
  ℕ, ◌+◌, Text, codes, none, [], ◌∷◌, ◌++◌, map, Bool, false, ◌&&◌, ◌||◌, not, ◌==◌, ltb, leb,
  if◌then◌else◌, text_eq, find_first, length, take, all, is_some, strip, lower, is_hex, is_digit,
}
use ota_server.Base.Result.{Result, ok, err, ◌>>=◌, ◌>>◌, raise_if, or_raise}
use ota_server.Crypto.{Crypto, derive_session_key}
use ota_server.Db.{Db, GrantRow}
use ota_server.Encoding.{b64u, hex, utf8}
use ota_server.Ident.{normalize_device_id}
use ota_server.Registry.{load_provisioning_context, or_empty}

-- The exceptions, by the check that raises them.
pub data Error : Type 0 where
  bad_device_id bad_version bad_code bad_sha256 no_context bad_key wire_too_long duplicate_token :
      Error

abbrev pub download_ttl_seconds : ℕ
download_ttl_seconds = 300

abbrev pub check_key_domain : Text
check_key_domain = codes "JaroslavZemanESP|ota-check-key-v1|"

abbrev token_key_domain : Text
token_key_domain = codes "JaroslavZemanESP|ota-download-token-key-v1|"

abbrev check_mac_domain : Text
check_mac_domain = codes "JaroslavZemanESP|ota-check-v1|"

abbrev token_domain : Text
token_domain = codes "JaroslavZemanESP|ota-download-token-v1|"

abbrev pub bar : Text
bar = b'|' ∷ []

-- `"|" in text`
unfoldable pub has_bar : Text → Bool
has_bar [] = false
has_bar (c ∷ s) = c == b'|' || has_bar s

-- `str.isalnum` of an ASCII character. (A code with other letters fails at its `encode("ascii")`.)
unfoldable pub is_alnum : ℕ → Bool
unfolding is_digit
is_alnum c = is_digit c || (leb b'A' c && leb c b'Z') || (leb b'a' c && leb c b'z')

-- `_check_canonical`
unfoldable pub check_canonical : Text → Text → Text → Text
check_canonical version code grant_random =
    check_mac_domain ++ (utf8 version ++ (bar ++ (code ++ (bar ++ grant_random))))

-- `_token_canonical`, of an identity in normal form.
unfoldable pub token_canonical : Text → Text → Text → Text → Text
token_canonical device_id version code grant_random =
    token_domain
    ++ (device_id ++ (bar ++ (utf8 version ++ (bar ++ (code ++ (bar ++ grant_random))))))

-- hashlib.sha256(token.encode("ascii", "ignore")).hexdigest()
unfoldable pub keep_ascii : Text → Text
keep_ascii [] = []
keep_ascii (c ∷ s) = let rest = keep_ascii s in if ltb c 128 then c ∷ rest else rest

unfoldable pub hash_token : Crypto → Text → Text
hash_token crypto token = hex (crypto.sha256 (keep_ascii token))

-- `OtaCheckGrant`
pub record OtaCheckGrant : Type 0 where
  pub device_id : Text
  pub version : Text
  pub code : Text
  pub sha256 : Text
  pub grant_random : Text
  pub token : Text
  pub check_wire : Text
  pub created_at : ℕ
  pub expires_at : ℕ

-- The three checks of the arguments, after `strip` and `lower`.
unfoldable pub check_arguments : Text → Text → Text → Result Error (Unit {0})
check_arguments version code sha256_hex = do
  raise_if (text_eq version [] || has_bar version || ltb 32 (length (utf8 version))) bad_version
  raise_if (not (length code == 3) || not (all is_alnum code)) bad_code
  raise_if (not (length sha256_hex == 64) || not (all is_hex sha256_hex)) bad_sha256

-- `derive_persisted_session_key`
unfoldable pub derive_persisted_session_key : Crypto → Text → Db → Result Error Text
derive_persisted_session_key crypto device_id db = elim (load_provisioning_context device_id db) [
  | err _ ↦ err no_context
  | ok row ↦
      or_raise
        (derive_session_key crypto row.public_key_der row.device_id row.provision_counter
          (or_empty row.provision_random))
        bad_key
]

unfoldable pub make_token : Crypto → Text → Text → Text → Text → Text → Text
unfolding token_canonical
make_token crypto session_key device_id version code grant_random = b64u (
    take 12 (
      crypto.hmac (crypto.hmac session_key token_key_domain)
        (token_canonical device_id version code grant_random)))

unfoldable pub make_check_wire : Crypto → Text → Text → Text → Text → Text
unfolding check_canonical
make_check_wire crypto session_key version code grant_random =
    codes "C|"
    ++ (version
        ++ (bar
            ++ (code
                ++ (bar
                    ++ (b64u grant_random
                        ++ (bar
                            ++ b64u (
                                take 16 (
                                  crypto.hmac (crypto.hmac session_key check_key_domain)
                                    (check_canonical version code grant_random)))))))))

-- From the session key on: the wire, its size check and the grant.
unfoldable pub finish_grant :
    Crypto → ℕ → Text → Text → Text → Text → Text → Text → Result Error OtaCheckGrant
finish_grant crypto now grant_random n version code sha256_hex session_key =
    let wire = make_check_wire crypto session_key version code grant_random in
    if ltb 100 (length (utf8 wire))
    then err wire_too_long
    else ok (record {
      device_id = n;
      version = version;
      code = code;
      sha256 = sha256_hex;
      grant_random = grant_random;
      token = make_token crypto session_key n version code grant_random;
      check_wire = wire;
      created_at = now;
      expires_at = now + download_ttl_seconds;
    })

-- The value that `create_ota_check_grant` builds before it writes to the database.
unfoldable pub prepare_grant :
    Crypto → ℕ → Text → Text → Text → Text → Text → Db → Result Error OtaCheckGrant
unfolding finish_grant
prepare_grant crypto now grant_random device_id version' code' sha256' db = do
  n ← or_raise (normalize_device_id device_id) bad_device_id
  let version = strip version'
  let code = strip code'
  let sha256_hex = strip (map lower sha256')
  check_arguments version code sha256_hex
  session_key ← derive_persisted_session_key crypto n db
  finish_grant crypto now grant_random n version code sha256_hex session_key

unfoldable pub has_token_hash : Text → GrantRow → Bool
has_token_hash token_hash row = text_eq row.token_hash token_hash

unfoldable pub grant_row : Crypto → OtaCheckGrant → GrantRow
unfolding hash_token
grant_row crypto grant = record {
  device_id = grant.device_id;
  code = grant.code;
  version = grant.version;
  sha256 = grant.sha256;
  grant_random = grant.grant_random;
  token_hash = hash_token crypto grant.token;
  created_at = grant.created_at;
  expires_at = grant.expires_at;
  consumed_at = none;
}

-- INSERT INTO download_grants; `token_hash` is a unique column.
unfoldable pub insert_grant : GrantRow → Db → Result Error (Unit {0}) × Db
unfolding has_token_hash
insert_grant row db =
    if is_some (find_first (has_token_hash row.token_hash) db.download_grants)
    then (err duplicate_token, db)
    else (ok tt, record db { download_grants = row ∷ db.download_grants })

unfoldable pub store_grant :
    Crypto → Result Error OtaCheckGrant → Db → Result Error OtaCheckGrant × Db
unfolding insert_grant grant_row
store_grant crypto (err e) db = (err e, db)
store_grant crypto (ok grant) db =
    let (inserted, db') = insert_grant (grant_row crypto grant) db in
    (inserted >>= λ _. ok grant, db')

unfoldable pub create_ota_check_grant :
    Crypto → ℕ → Text → Text → Text → Text → Text → Db → Result Error OtaCheckGrant × Db
unfolding prepare_grant store_grant
create_ota_check_grant crypto now grant_random device_id version code sha256_hex db =
    store_grant crypto (prepare_grant crypto now grant_random device_id version code sha256_hex db)
      db
