-- ===== src/Crypto.antt =====
-- What the program calls of `hashlib`, `hmac` and the `cryptography` package, as parameters, and
-- `derive_session_key` of secure_transport.py over them. Byte strings are lists of bytes.
use ota_server.Base.{ℕ, ◌+◌, Text, Option, none, some, Bool, ◌++◌, codes, length, ◌≡◌}
use ota_server.Encoding.{to_bytes, utf8}

pub record Crypto : Type 0 where
  -- hmac.new(key, message, hashlib.sha256).digest()
  pub hmac : Text → Text → Text
  -- hashlib.sha256(message).digest()
  pub sha256 : Text → Text
  -- _SERVER_PRIVATE.exchange(ECDH, load_der_public_key(der)); `none` where the key does not load or
  -- is not on P-256.
  pub exchange : Text → Option Text
  -- load_der_public_key(der).verify(signature, message, ECDSA(SHA256)) for a raw signature of 64
  -- bytes: whether it returns.
  pub verify : Text → Text → Text → Bool
  -- raw64_from_der(_SERVER_PRIVATE.sign(message, ECDSA(SHA256)))
  pub sign : Text → Text
  -- AESGCM(key).encrypt(nonce, plain, aad)
  pub encrypt : Text → Text → Text → Text → Text

-- The sizes of what these functions return: SHA-256 has 32 bytes, a raw signature 64, and AES-GCM
-- adds a tag of 16 bytes.
pub record HasSizes (crypto : Crypto) : Type 0 where
  pub length-hmac : (key message : Text) → length (crypto.hmac key message) ≡ 32
  pub length-sign : (message : Text) → length (crypto.sign message) ≡ 64
  pub length-encrypt :
      (key nonce plain aad : Text) → length (crypto.encrypt key nonce plain aad) ≡ length plain + 16

abbrev pub kdf_domain : Text
kdf_domain = codes "JaroslavZemanESP|provisioning-v1|"

-- `none` is the exception; `device_id` is ASCII and `counter` fits 64 bits where this is called.
unfoldable pub derive_session_key : Crypto → Text → Text → ℕ → Text → Option Text
derive_session_key crypto public_key_der device_id counter random8 =
    elim (crypto.exchange public_key_der) [
      | none ↦ none
      | some shared ↦
          some
            (crypto.hmac shared (kdf_domain ++ (utf8 device_id ++ (to_bytes 8 counter ++ random8))))
    ]
