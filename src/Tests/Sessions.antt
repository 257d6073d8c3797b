-- ===== src/Tests/Sessions.antt =====
-- Messages at a listener whose device waits for a response.
use ota_server.Base.{
  ◌≡◌, refl, Text, codes, some, [], ◌∷◌, ◌++◌, true, pos, find_first, text_eq, is_hex, is_digit,
  lower, strip, is_space, starts_with, split, parse_int, decimal, get, put, arith,
}
use ota_server.Base.Result.{ok, err}
use ota_server.Db.{AttemptState}
use ota_server.Encoding.{
  b64u, b64u_decode, a2b, b64_value, b64_char, quad_step, utf8, utf8_char, to_bytes,
}
use ota_server.Ident.{
  is_hex_letter, normalize_device_id, compact_id, format_id, remove, remove_0x, join_pairs,
}
use ota_server.Registry.{has_id, find_cert}
use ota_server.Transport.{
  SecureSession, SessionState, Config, verify_response, verify_parts, response_canonical,
  build_provisioning, seal, encode_provision_plain, encode_host, plain_bytes, in_range,
  security_code, upper, parse_ipv4, four_octets, parse_octet, octet_value, leading_zero,
}
use ota_server.Listener.State.{
  Listener, Env, topic_device_id, remove_prefix_0x, publish_command, pop_if_same, timeout_passes,
  timeout_pass,
}
use ota_server.Listener.HelloFrame.{
  bad_signature_length, on_hello, verify_single_hello, after_parse, parse_hello,
  hello_counter_in_range, check_hello, hello_canonical, hello_counter, raw_counter_of,
}
use ota_server.Listener.{on_message, on_payload}
use ota_server.Listener.ResponseFrame.{on_response, take_response, send_provisioning}
use ota_server.Listener.Authentic.{on_message-sent}
use ota_server.Listener.Unsent.{is_sent}
use ota_server.Listener.Timeouts.{live, timeout_pass-live}
use ota_server.Listener.Replay.{on_hello_stale, on_hello_rejected, attempt_state}
use ota_server.Tests.{
  zeros, toy_crypto, device, compact_device, cert, one_device, one_device-HasUniqueIds,
  device_normal,
}

abbrev wifi : Config
wifi = record {
  ssid = codes "home";
  password = codes "secret-password";
  host = codes "192.168.1.10";
  port = pos 8443;
  security = codes "wpa2";
  channel = pos 6;
}

abbrev toy_env : Env
toy_env = record {
  crypto = toy_crypto;
  now = 1000;
  mono = 50;
  random8 = zeros 8;
  publish_ok = true;
  config = some wifi;
  expected_ecosystem = codes "JaroslavZemanESP";
}

abbrev waiting : SecureSession
waiting = record {
  serial = 0;
  device_id = device;
  topic_device = compact_device;
  counter = 4;
  random8 = zeros 8;
  device_public_key_der = zeros 8;
  session_key = zeros 32;
  challenge_wire = codes "A|";
  created_mono = 40;
  state = SessionState.wait_response;
}

abbrev busy : Listener
busy = record {
  pending_sessions = (device, waiting) ∷ [];
  next_serial = 1;
  outbox = [];
  db = one_device;
}

abbrev idle : Listener
idle = record { pending_sessions = []; next_serial = 0; outbox = []; db = one_device }

abbrev response : Text
response = codes "R|" ++ b64u (zeros 64)

response_sent :
    is_sent device (on_message toy_env [] compact_device response busy).pending_sessions ≡ true
unfolding on_message on_payload on_response take_response send_provisioning publish_command
    pop_if_same timeout_passes topic_device_id remove_prefix_0x is_hex_letter normalize_device_id
    compact_id format_id remove remove_0x join_pairs strip lower is_hex is_space is_digit
    verify_response verify_parts response_canonical build_provisioning seal encode_provision_plain
    encode_host plain_bytes in_range security_code upper parse_ipv4 four_octets parse_octet
    octet_value leading_zero b64u b64u_decode a2b b64_value b64_char quad_step utf8 utf8_char
    to_bytes get put text_eq starts_with split decimal
response_sent = refl

on_message-sent_example :
    (topic_device_id compact_device ≡ some device)
    × (s : SecureSession) × (get device busy.pending_sessions ≡ some s)
    × (verify_response toy_env.crypto s response ≡ true)
unfolding get text_eq
on_message-sent_example =
    on_message-sent toy_env [] compact_device response device busy response_sent refl

timeout_pass-live_example :
    get device (timeout_pass 1000 200 busy).pending_sessions
    ≡ live 200 (get device busy.pending_sessions)
unfolding get
timeout_pass-live_example = timeout_pass-live 1000 200 device busy (refl, tt)

abbrev old_hello : Text
old_hello = codes "H|4|" ++ b64u (zeros 64)

old_hello_parsed : parse_hello (split b'|' old_hello) ≡ ok (4, zeros 64)
unfolding parse_hello split text_eq parse_int hello_counter_in_range b64u b64u_decode a2b b64_value
    b64_char quad_step
old_hello_parsed = refl

old_hello_checked : check_hello toy_env device 4 (zeros 64) one_device ≡ ok cert
unfolding check_hello hello_canonical find_cert has_id find_first text_eq decimal
old_hello_checked = refl

on_hello_stale_example : on_hello toy_env [] device compact_device old_hello idle ≡ idle
unfolding find_cert find_first text_eq
on_hello_stale_example =
    on_hello_stale toy_env [] device compact_device old_hello (zeros 64) 4 cert idle
      one_device-HasUniqueIds device_normal old_hello_parsed old_hello_checked (omega arith)

abbrev forged_hello : Text
forged_hello = codes "H|4|AAAA"

forged_hello_rejected :
    verify_single_hello toy_env forged_hello device one_device
    ≡ (err bad_signature_length, one_device)
unfolding verify_single_hello after_parse parse_hello split text_eq parse_int hello_counter_in_range
    b64u_decode a2b b64_value quad_step
forged_hello_rejected = refl

forged_hello_counter : hello_counter forged_hello ≡ some (pos 4)
unfolding hello_counter raw_counter_of split text_eq parse_int
forged_hello_counter = refl

on_hello_rejected_example :
    ((on_hello toy_env [] device compact_device forged_hello idle).pending_sessions
      ≡ idle.pending_sessions)
    × (attempt_state device 4 (on_hello toy_env [] device compact_device forged_hello idle).db
        ≡ some AttemptState.error)
unfolding get
on_hello_rejected_example =
    on_hello_rejected toy_env [] device compact_device forged_hello 3 bad_signature_length idle
      one_device refl forged_hello_rejected forged_hello_counter (omega arith)
