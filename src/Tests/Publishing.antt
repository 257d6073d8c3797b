-- ===== src/Tests/Publishing.antt =====
-- A firmware that is published, one that is refused, and a converter after its firmware.
use ota_server.Base.{
  ◌≡◌, ◌⊎◌, refl, codes, none, some, [], ◌∷◌, true, false, pos, text_eq, take, length-take, lower,
  is_digit, arith,
}
use ota_server.Db.{Db, PublicationRow, empty_db}
use ota_server.Encoding.{hex}
use ota_server.Registry.Certificates.{Certificate}
use ota_server.Publish
use ota_server.Publish.{
  Metadata, Share, rejected, invalid_filename, handle_publish, body_size, receive, after_body,
  publish_body, check_publish, is_firmware_name, is_name_char,
}
use ota_server.Publish.Body.{ReadsAtMost, Ends, receive_total}
use ota_server.Publish.Refused.{Untouched, Unrecorded, handle_publish-refused}
use ota_server.Publish.Deployed.{Deployed}
use ota_server.Publish.Converter
use ota_server.Publish.Converter.{Bundle}
use ota_server.Tests.{zeros, device}

abbrev publisher_cert : Certificate
publisher_cert = record {
  device_id = device;
  ecosystem = codes "x";
  device_group = [];
  device_model = codes "x";
  product_role = [];
  hardware_revision = codes "x ";
  chip_family = codes "x";
  flash_size = codes "x";
  certificate_pem = [];
  certificate_fingerprint = codes "cd";
  public_key_der = [];
  public_key_uncompressed = [];
  certificate_not_before = 10;
  certificate_not_after = 90;
  certificate_subject = [];
  certificate_issuer = [];
}

abbrev all_x : Metadata
all_x = record { text = λ key. codes "x"; secure_version = some (pos 1); active = true }

abbrev publish_env : Publish.Env
publish_env = record {
  content_length = some (pos 3);
  read = λ k n. take n (zeros 2);
  filename = codes "a.bin";
  sha256_header = hex (zeros 32);
  metadata_b64 = [];
  certificate_b64 = [];
  signature_b64 = [];
  loads = λ raw. some (some all_x);
  extract = λ pem. some publisher_cert;
  verify = λ pem signature message. true;
  sha256 = λ message. zeros 32;
  temp_name = codes ".publish-1.bin";
  now = 50;
}

abbrev empty_share : Share
empty_share = record { db = empty_db; firmware = []; releases = []; temps = [] }

read_at_most : ReadsAtMost publish_env.read
read_at_most k n = omega (arith, length-take n (zeros 2))

receive_total_example : Ends publish_env.read 3 (receive publish_env.read 3 3 0 [])
receive_total_example = receive_total publish_env.read 3 read_at_most

abbrev badly_named : Publish.Env
badly_named = record publish_env { filename = codes "../a.bin" }

name_refused : (handle_publish badly_named empty_share).0 ≡ rejected invalid_filename
unfolding handle_publish body_size receive after_body publish_body check_publish is_firmware_name
    is_name_char text_eq is_digit lower
name_refused = refl

handle_publish-refused_example :
    Untouched empty_share (handle_publish badly_named empty_share).1
    ⊎ Unrecorded badly_named invalid_filename empty_share (handle_publish badly_named empty_share).1
handle_publish-refused_example =
    handle_publish-refused badly_named empty_share invalid_filename name_refused

abbrev published_row : PublicationRow
published_row = record {
  firmware_version = codes "1.2";
  firmware_filename = codes "a.bin";
  firmware_sha256 = codes "aa";
  firmware_size = 3;
  converter_project = none;
  converter_filename = none;
  converter_sha256 = none;
  publisher_device_id = device;
  publisher_certificate_fingerprint = codes "cd";
  bin_verified = true;
  mjs_verified = false;
  z2m_loaded = false;
  published_at = 50;
  converter_published_at = none;
  failed = false;
}

abbrev published_db : Db
published_db = record empty_db { artifact_publications = published_row ∷ [] }

abbrev bundle : Bundle
bundle = record {
  project = codes "lamp";
  schema = some (pos 2);
  firmware_version = codes "1.2";
  only_file = some (codes "lamp.mjs", codes "// JarZem firmware build: 1.2");
  certificate = [];
  signature = [];
}

abbrev converter_env : Converter.Env
converter_env = record {
  content_length = some (pos 2);
  raw = codes "{}";
  loads = λ raw. some bundle;
  b64decode = λ value. some value;
  decode = λ bytes. some bytes;
  extract = λ pem. some publisher_cert;
  verify = λ pem signature message. true;
  sha256 = λ message. zeros 32;
  deploy = λ name code. some true;
  now = 60;
}
