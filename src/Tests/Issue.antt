-- ===== src/Tests/Issue.antt =====
-- A grant that is issued, checked and consumed.
use ota_server.Base.{
  ◌+◌, ◌≤◌, ◌≡◌, refl, ◌↔◌, Text, codes, none, [], ◌∷◌, map, true, false, find_first, text_eq,
  is_hex, is_digit, lower, strip, is_space, arith,
}
use ota_server.Base.Result.{ok}
use ota_server.Crypto.{derive_session_key}
use ota_server.Db.{Db, GrantRow}
use ota_server.Encoding.{b64u, b64_char, utf8, utf8_char, hex, hex_digit, to_bytes}
use ota_server.Ident.{normalize_device_id, compact_id, format_id, remove, remove_0x, join_pairs}
use ota_server.Registry.{has_id, find_cert, load_provisioning_context, context_of}
use ota_server.Grants.Tokens.{
  OtaCheckGrant, create_ota_check_grant, prepare_grant, finish_grant, store_grant, insert_grant,
  grant_row, hash_token, keep_ascii, has_token_hash, make_token, make_check_wire, token_canonical,
  check_canonical, derive_persisted_session_key, check_arguments, has_bar, is_alnum,
}
use ota_server.Grants.Downloads.{validate_download_token, consume_dispatch_token}
use ota_server.Grants.Issue.{create_ota_check_grant-validate}
use ota_server.Grants.OneTime.{consume_dispatch_token_once}
use ota_server.Grants.Wire.{prepare_grant-FitsFrame, FitsFrame}
use ota_server.Tests.{
  zeros, toy_crypto, device, upper_device, one_device, toy_crypto-HasSizes, device_normal,
  upper_device_normal,
}

abbrev pub sha256_text : Text
sha256_text = codes "00112233445566778899aabbccddeeff00112233445566778899aabbccddeeff"

abbrev sha256_upper : Text
sha256_upper = codes "00112233445566778899AABBCCDDEEFF00112233445566778899aabbccddeeff"

abbrev issued_grant : OtaCheckGrant
issued_grant = record {
  device_id = device;
  version = codes "1.2";
  code = codes "0Az";
  sha256 = sha256_text;
  grant_random = zeros 8;
  token = codes "AAAAAAAAAAAAAAAA";
  check_wire = codes "C|1.2|0Az|AAAAAAAAAAA|AAAAAAAAAAAAAAAAAAAAAA";
  created_at = 1000;
  expires_at = 1300;
}

abbrev issued_row : GrantRow
issued_row = record {
  device_id = device;
  code = codes "0Az";
  version = codes "1.2";
  sha256 = sha256_text;
  grant_random = zeros 8;
  token_hash = codes "0000000000000000000000000000000000000000000000000000000000000000";
  created_at = 1000;
  expires_at = 1300;
  consumed_at = none;
}

abbrev issued_db : Db
issued_db = record one_device { download_grants = issued_row ∷ [] }

grant_issued :
    create_ota_check_grant toy_crypto 1000
      (zeros 8)
      upper_device
      (codes "1.2 ")
      (codes "0Az")
      sha256_upper
      one_device
    ≡ (ok issued_grant, issued_db)
unfolding create_ota_check_grant prepare_grant finish_grant store_grant insert_grant grant_row
    hash_token keep_ascii has_token_hash make_token make_check_wire token_canonical check_canonical
    derive_persisted_session_key check_arguments has_bar is_alnum load_provisioning_context
    context_of find_cert has_id find_first text_eq derive_session_key normalize_device_id compact_id
    format_id remove remove_0x join_pairs strip lower is_hex is_space is_digit b64u b64_char utf8
    utf8_char hex hex_digit to_bytes
grant_issued = refl

create_ota_check_grant-validate_example :
    (validate_download_token toy_crypto 1200 issued_grant.token
        (codes "0Az")
        device
        sha256_upper
        issued_db
      ≡ true)
    ↔ ((normalize_device_id device ≡ normalize_device_id upper_device)
        × (codes "0Az" ≡ issued_grant.code)
        × (map lower sha256_upper ≡ issued_grant.sha256)
        × (1200 ≤ 1000 + 300))
create_ota_check_grant-validate_example =
    create_ota_check_grant-validate toy_crypto 1000 1200 (zeros 8) upper_device device
      (codes "1.2 ") (codes "0Az") (codes "0Az") sha256_upper sha256_upper issued_grant one_device
      issued_db grant_issued

consume_dispatch_token_once_example :
    let db' =
      (consume_dispatch_token toy_crypto 1100 issued_grant.token device sha256_text issued_db).1 in
    (validate_download_token toy_crypto 1200 issued_grant.token
        (codes "0Az")
        upper_device
        sha256_text
        db'
      ≡ false)
    × ((consume_dispatch_token toy_crypto 1200 issued_grant.token upper_device sha256_text db').0
        ≡ false)
consume_dispatch_token_once_example =
    consume_dispatch_token_once toy_crypto 1100 1200 issued_grant.token (codes "0Az") device
      upper_device device sha256_text issued_db device_normal upper_device_normal (omega arith)

prepare_grant-FitsFrame_example : FitsFrame (
    prepare_grant toy_crypto 1000
      (zeros 8)
      device
      (codes "1.2")
      (codes "0Az")
      sha256_text
      one_device)
prepare_grant-FitsFrame_example =
    prepare_grant-FitsFrame toy_crypto 1000 (zeros 8) device (codes "1.2") (codes "0Az") sha256_text
      one_device toy_crypto-HasSizes refl
