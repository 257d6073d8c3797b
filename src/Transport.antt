-- ===== src/Transport.antt =====
-- secure_transport.py: the challenge A, the response R and the encrypted provisioning P. `none` is an
-- exception. Identities are ASCII, counters fit 64 bits.
use ota_server.Base.{
  ℕ, ◌+◌, ◌*◌, ◌-◌, Text, codes, ℤ, pos, negsuc, Option, none, some, List, [], ◌∷◌, ◌++◌, map, Bool,
  true, false, ◌&&◌, ◌||◌, not, ◌==◌, ltb, leb, if◌then◌else◌, text_eq, length, take, all, is_digit,
  starts_with, split, decimal,
}
use ota_server.Base.Result.{Result, ok, err, ◌>>=◌, ◌>>◌, raise_if, or_raise}
use ota_server.Crypto.{Crypto, derive_session_key}
use ota_server.Encoding.{b64u, b64u_decode, to_bytes, utf8}

pub data SessionState : Type 0 where
  wait_response provisioning_sent : SessionState

-- `SecureSession`. `serial` is the identity of the Python object, which `is` compares.
pub record SecureSession : Type 0 where
  pub serial : ℕ
  pub device_id : Text
  pub topic_device : Text
  pub counter : ℕ
  pub random8 : Text
  pub device_public_key_der : Text
  pub session_key : Text
  pub challenge_wire : Text
  pub created_mono : ℕ
  pub state : SessionState

-- The exceptions of this module.
pub data Error : Type 0 where
  bad_key wire_too_long bad_length bad_channel_or_port bad_security bad_host : Error

unfoldable pub challenge_canonical : Text → ℕ → Text → Text
unfolding decimal
challenge_canonical device_id counter random8 =
    codes "A|" ++ (device_id ++ (b'|' ∷ (decimal counter ++ (b'|' ∷ random8))))

unfoldable pub response_canonical : Text → ℕ → Text → Text
unfolding decimal
response_canonical device_id counter random8 =
    codes "R|" ++ (device_id ++ (b'|' ∷ (decimal counter ++ (b'|' ∷ (random8 ++ codes "|OK")))))

-- f"A|{b64u(random8)}|{b64u(signature)}"
unfoldable pub make_challenge_wire : Crypto → Text → ℕ → Text → Text
unfolding challenge_canonical
make_challenge_wire crypto device_id counter random8 =
    codes "A|"
    ++ (b64u random8 ++ (b'|' ∷ b64u (crypto.sign (challenge_canonical device_id counter random8))))

-- `random8` is what `os.urandom(8)` returned.
unfoldable pub build_challenge :
    Crypto → ℕ → Text → Text → Text → ℕ → Text → ℕ → Result Error SecureSession
unfolding make_challenge_wire
build_challenge crypto serial random8 device_id topic_device counter public_key_der created_mono =
    do
      let wire = make_challenge_wire crypto device_id counter random8
      raise_if (ltb 100 (length (utf8 wire))) wire_too_long
      session_key ←
          or_raise (derive_session_key crypto public_key_der device_id counter random8) bad_key
      ok (record {
        serial = serial;
        device_id = device_id;
        topic_device = topic_device;
        counter = counter;
        random8 = random8;
        device_public_key_der = public_key_der;
        session_key = session_key;
        challenge_wire = wire;
        created_mono = created_mono;
        state = wait_response;
      })

abbrev pub is_wait_response : SessionState → Bool
is_wait_response wait_response = true
is_wait_response provisioning_sent = false

-- The signature check of `verify_response`, once the payload has two parts.
unfoldable pub verify_parts : Crypto → SecureSession → List Text → Bool
unfolding response_canonical
verify_parts crypto session (tag ∷ signature ∷ []) = elim (b64u_decode signature) [
  | none ↦ false
  | some raw ↦
      length raw == 64
      && crypto.verify session.device_public_key_der raw
          (response_canonical session.device_id session.counter session.random8)
]
verify_parts crypto session _ = false

unfoldable pub verify_response : Crypto → SecureSession → Text → Bool
unfolding verify_parts
verify_response crypto session payload =
    if not (is_wait_response session.state) || not (starts_with (codes "R|") payload)
    then false
    else verify_parts crypto session (split b'|' payload)

-- A decimal octet: one to three ASCII digits, at most 255, no leading zero.
unfoldable pub octet_value : ℕ → Text → ℕ
octet_value acc [] = acc
octet_value acc (c ∷ s) = octet_value (acc * 10 + (c - b'0')) s

unfoldable pub leading_zero : Text → Bool
leading_zero (c ∷ d ∷ s) = c == b'0'
leading_zero _ = false

unfoldable pub parse_octet : Text → Option ℕ
unfolding octet_value leading_zero is_digit
parse_octet s =
    if not (text_eq s [])
      && leb (length s) 3
      && all is_digit s
      && not (leading_zero s)
      && leb (octet_value 0 s) 255
    then some (octet_value 0 s)
    else none

unfoldable pub four_octets : List Text → Option Text
four_octets (a ∷ b ∷ c ∷ d ∷ []) = elim (parse_octet a) [
  | none ↦ none
  | some x ↦ elim (parse_octet b) [
    | none ↦ none
    | some y ↦ elim (parse_octet c) [
      | none ↦ none
      | some z ↦ elim (parse_octet d) [ none ↦ none | some w ↦ some (x ∷ y ∷ z ∷ w ∷ []) ]
    ]
  ]
]
four_octets _ = none

-- `ipaddress.ip_address(host).packed` of an IPv4 address; an IPv6 address raises in the source and is
-- handled like any other name.
unfoldable pub parse_ipv4 : Text → Option Text
unfolding four_octets parse_octet split
parse_ipv4 host = four_octets (split b'.' host)

-- `str.upper` of an ASCII character.
unfoldable pub upper : ℕ → ℕ
upper c = if leb b'a' c && leb c b'z' then c - 32 else c

-- `SECURITY_MAP.get(security.upper())`
unfoldable pub security_code : Text → Option ℕ
unfolding upper
security_code security =
    let s = map upper security in
    if text_eq s (codes "OPEN")
    then some 0
    else if text_eq s (codes "WPA2")
    then some 1
    else if text_eq s (codes "WPA3")
    then some 2
    else if text_eq s (codes "WPA2_WPA3")
    then some 3
    else none

-- The options that provisioning sends, `provisioning_from_options` of mqtt_listener.py.
pub record Config : Type 0 where
  pub ssid : Text
  pub password : Text
  pub host : Text
  pub port : ℤ
  pub security : Text
  pub channel : ℤ

-- low <= value <= high, with the value
unfoldable pub in_range : ℕ → ℕ → ℤ → Option ℕ
in_range low high (pos v) = if leb low v && leb v high then some v else none
in_range low high (negsuc v) = none

-- The kind of a host and its bytes.
unfoldable pub encode_host : Text → Result Error (ℕ × Text)
encode_host host = elim (parse_ipv4 host) [
  | some packed ↦ ok (1, packed)
  | none ↦
      if leb 1 (length (utf8 host)) && leb (length (utf8 host)) 64
      then ok (0, utf8 host)
      else err bad_host
]

-- The record of seven header bytes, the three fields and the port.
unfoldable pub plain_bytes : ℕ → ℕ → Text → Text → ℕ × Text → ℕ → Text
plain_bytes security_byte channel ssid_b password_b (host_type, host_b) port =
    1
    ∷ security_byte
    ∷ channel
    ∷ length ssid_b
    ∷ length password_b
    ∷ host_type
    ∷ length host_b
    ∷ (ssid_b ++ (password_b ++ (host_b ++ to_bytes 2 port)))

unfoldable pub encode_provision_plain : Config → Result Error Text
unfolding in_range plain_bytes
encode_provision_plain config = do
  let ssid_b = utf8 config.ssid
  let password_b = utf8 config.password
  raise_if (not (leb 1 (length ssid_b) && leb (length ssid_b) 32) || ltb 64 (length password_b))
      bad_length
  channel ← or_raise (in_range 0 14 config.channel) bad_channel_or_port
  port ← or_raise (in_range 1 65535 config.port) bad_channel_or_port
  security_byte ← or_raise (security_code config.security) bad_security
  host ← encode_host config.host
  ok (plain_bytes security_byte channel ssid_b password_b host port)

abbrev pub nonce_domain : Text
nonce_domain = codes "JaroslavZemanESP|provisioning-nonce-v1|"

-- "P|" + b64u(encrypted)
unfoldable pub seal : Crypto → SecureSession → Text → Text
unfolding decimal
seal crypto session plain =
    let material =
      nonce_domain ++ (utf8 session.device_id ++ (to_bytes 8 session.counter ++ session.random8)) in
    let nonce = take 12 (crypto.hmac session.session_key material) in
    let aad =
      codes "P|"
      ++ (session.device_id ++ (b'|' ∷ (decimal session.counter ++ (b'|' ∷ session.random8)))) in
    codes "P|" ++ b64u (crypto.encrypt session.session_key nonce plain aad)

unfoldable pub build_provisioning : Crypto → SecureSession → Config → Result Error Text
build_provisioning crypto session config = do
  plain ← encode_provision_plain config
  let wire = seal crypto session plain
  raise_if (ltb 100 (length (utf8 wire))) wire_too_long
  ok wire
