-- ===== src/Tests/Sending.antt =====
-- Sending a firmware to a device that completed provisioning.
use ota_server.Base.{
  ◌≡◌, refl, codes, none, some, [], ◌∷◌, true, false, find_first, text_eq, strip, lower, is_hex,
  is_space, is_digit,
}
use ota_server.Base.Result.{ok, err}
use ota_server.Db.{Db, ImageRow}
use ota_server.Ident.{normalize_device_id, compact_id, format_id, remove, remove_0x, join_pairs}
use ota_server.Registry.{has_id, find_cert, load_provisioning_context, context_of}
use ota_server.Firmware.{ensure_image_code, has_filename, has_code}
use ota_server.Dispatch.{
  create_dispatch_token, Env, Device, Dispatcher, with_db, no_firmware, dispatch_device,
  dispatch_all, ensure_secure_dispatch_device, dispatch_version, firmware_for_code, is_active_image,
}
use ota_server.Dispatch.Issued.{SendsGrant, dispatch_device-SendsGrant}
use ota_server.Dispatch.Pending.{dispatch_all-empty, dispatch_all_raised}
use ota_server.Tests.{zeros, toy_crypto, device, cert, one_device}
use ota_server.Tests.Issue.{sha256_text}
use ota_server.Tests.Downloading.{stored_image, stored_alias}

abbrev send_env : Env
send_env = record {
  crypto = toy_crypto;
  now = 1000;
  random8 = λ device_id. zeros 8;
  zigbee = λ ieee payload. true;
  ssid = codes "home";
  wifi_security = codes "wpa2";
  wifi_channel = 6;
  ota_host = codes "192.168.1.10";
  ota_port = 8443;
}

abbrev bulb : Device
bulb = record { ieee = device; transport = codes "zigbee2mqtt" }

abbrev inactive_image : ImageRow
inactive_image = record stored_image { active = false }

abbrev inactive_db : Db
inactive_db = record one_device {
  firmware_images = inactive_image ∷ [];
  firmware_alias = stored_alias ∷ [];
}

abbrev dispatcher : Dispatcher
dispatcher = record { db = inactive_db; pending = []; outbox = [] }

abbrev active_image : ImageRow
active_image = record stored_image { sha256 = sha256_text }

abbrev active_dispatcher : Dispatcher
active_dispatcher = record {
  db = record one_device {
    firmware_images = active_image ∷ [];
    firmware_alias = stored_alias ∷ [];
  };
  pending = [];
  outbox = [];
}

dispatch_device-SendsGrant_example :
    SendsGrant send_env active_image bulb active_dispatcher
      (dispatch_device send_env active_image bulb active_dispatcher).1
dispatch_device-SendsGrant_example =
    dispatch_device-SendsGrant send_env active_image bulb active_dispatcher

dispatch_all-empty_example :
    (dispatch_all send_env inactive_image (bulb ∷ []) dispatcher).1.pending ≡ []
dispatch_all-empty_example = dispatch_all-empty send_env inactive_image (bulb ∷ []) dispatcher refl

bulb_secure : ensure_secure_dispatch_device device inactive_db ≡ ok cert
unfolding ensure_secure_dispatch_device load_provisioning_context context_of find_cert has_id
    find_first text_eq normalize_device_id compact_id format_id remove remove_0x join_pairs strip
    lower is_hex is_space is_digit
bulb_secure = refl

image_coded :
    ensure_image_code toy_crypto 1000 (codes "a.bin") inactive_db
    ≡ (some (codes "0Az"), inactive_db)
unfolding ensure_image_code has_filename find_first text_eq
image_coded = refl

image_inactive : dispatch_version (codes "0Az") device (codes "aa") inactive_db ≡ err no_firmware
unfolding dispatch_version firmware_for_code is_active_image has_code ensure_secure_dispatch_device
    load_provisioning_context context_of find_cert has_id find_first text_eq normalize_device_id
    compact_id format_id remove remove_0x join_pairs strip lower is_hex is_space is_digit
image_inactive = refl

token_refused :
    create_dispatch_token send_env
      (codes "0Az")
      device
      (codes "aa")
      (with_db inactive_db dispatcher)
    ≡ (err no_firmware, with_db inactive_db dispatcher)
unfolding create_dispatch_token
token_refused = rw (image_inactive, create_dispatch_token)

dispatch_all_raised_example :
    (dispatch_all send_env inactive_image (bulb ∷ bulb ∷ []) dispatcher
      ≡ (none, with_db inactive_db dispatcher))
    × ((with_db inactive_db dispatcher).outbox ≡ dispatcher.outbox)
unfolding dispatch_all
dispatch_all_raised_example =
    dispatch_all_raised send_env inactive_image [] (bulb ∷ []) bulb (codes "0Az") cert inactive_db
      no_firmware [] dispatcher dispatcher (with_db inactive_db dispatcher) refl bulb_secure
      image_coded token_refused
