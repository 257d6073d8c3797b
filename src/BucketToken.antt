-- ===== src/BucketToken.antt =====
-- The tokens of ota_helper.py: an HMAC over a bucket of 300 seconds, which `validate_token` accepts in that
-- bucket and in the next one. `secret` is what `get_token_secret` returns, or `none` where it raises.
use ota_server.Base.{
  ℕ, zero, suc, ◌+◌, ◌/◌, ◌≤◌, ◌≡◌, ◌⊎◌, sym, ap, ◌∙◌, Text, ℤ, pos, negsuc, Option, none, some,
  ◌∷◌, ◌++◌, Bool, true, false, ◌||◌, take, decimal, text_eq, eq→text_eq, arith, inl, inr,
}
use mathlib.Core.Option.{some-injective}
use ota_server.Crypto.{Crypto}
use ota_server.Encoding.{b64u, utf8}
use ota_server.Ident.{normalize_device_id, normalize_ieee}
use ota_server.Ident.Canonical.{normalize_device_id_stable}

abbrev pub token_bucket_seconds : ℕ
token_bucket_seconds = 300

abbrev token_bytes : ℕ
token_bytes = 12

-- f"{bucket}"
unfoldable pub bucket_text : ℤ → Text
bucket_text (pos n) = decimal n
bucket_text (negsuc n) = b'-' ∷ decimal (suc n)

-- The HMAC of a bucket for an identity that is normalized.
unfoldable pub bucket_token : Crypto → Text → Text → Text → ℤ → Text → Text
unfolding bucket_text
bucket_token crypto n code sha256_hex bucket token_secret = b64u (
    take token_bytes (
      crypto.hmac token_secret
        (utf8 (bucket_text bucket ++ (b'|' ∷ (n ++ (b'|' ∷ (code ++ (b'|' ∷ sha256_hex)))))))))

-- `_token_for_bucket`
unfoldable pub token_for_bucket : Crypto → Text → Text → Text → ℤ → Text → Text
unfolding bucket_token
token_for_bucket crypto device_id code sha256_hex bucket token_secret =
    bucket_token crypto (normalize_ieee (some device_id)) code sha256_hex bucket token_secret

-- `create_token`; `none` is the FileNotFoundError.
unfoldable pub create_token : Crypto → Option Text → ℕ → Text → Text → Text → Option Text
unfolding token_for_bucket
create_token crypto none now code device_id sha256_hex = none
create_token crypto (some token_secret) now code device_id sha256_hex = some (
    token_for_bucket crypto device_id code sha256_hex (pos (now / token_bucket_seconds))
      token_secret)

-- bucket - 1
abbrev pub previous : ℕ → ℤ
previous zero = negsuc 0
previous (suc bucket) = pos bucket

-- `validate_token`
unfoldable pub validate_token : Crypto → Option Text → ℕ → Text → Text → Text → Text → Bool
unfolding token_for_bucket
validate_token crypto none now token code device_id sha256_hex = false
validate_token crypto (some token_secret) now token code device_id sha256_hex =
    let n = normalize_ieee (some device_id) in
    let bucket = now / token_bucket_seconds in
    text_eq token (token_for_bucket crypto n code sha256_hex (pos bucket) token_secret)
    || text_eq token (token_for_bucket crypto n code sha256_hex (previous bucket) token_secret)

same_bucket :
    (now later : ℕ)
    → now ≤ later
    → later ≤ now + 300
    → (later / 300 ≡ now / 300) ⊎ (later / 300 ≡ suc (now / 300))
same_bucket now later le le' = ground (arith, le, le')

normal_ieee : (d : Text) → normalize_device_id d ≡ some d → normalize_ieee (some d) ≡ d
normal_ieee d normal = (normalize_device_id_stable d d normal).1

-- The two tokens that `validate_token` takes for an identity with 16 hexadecimal digits.
validate-normal :
    (crypto : Crypto) (token_secret : Text) (now : ℕ) (token code d n sha256_hex : Text)
    → normalize_ieee (some d) ≡ n
    → normalize_device_id n ≡ some n
    → validate_token crypto (some token_secret) now token code d sha256_hex ≡ (
        text_eq token (bucket_token crypto n code sha256_hex (pos (now / 300)) token_secret)
        || text_eq token
            (bucket_token crypto n code sha256_hex (previous (now / 300)) token_secret))
unfolding validate_token token_for_bucket
validate-normal crypto token_secret now token code d n sha256_hex e normal =
    ap
      (λ (k : Text).
        text_eq token (bucket_token crypto k code sha256_hex (pos (now / 300)) token_secret)
        || text_eq token
            (bucket_token crypto k code sha256_hex (previous (now / 300)) token_secret))
      (ap (λ k. normalize_ieee (some k)) e ∙ normal_ieee n normal)

-- A token that `create_token` makes for an identity is accepted by `validate_token`, with the same secret,
-- code and hash, for any spelling of the identity and for 300 seconds at least. A spelling is one that
-- `normalize_ieee` gives the normal form of 16 digits.
pub validate_token-create :
    (crypto : Crypto) (secret : Option Text) (now later : ℕ) (token code d d' n sha256_hex : Text)
    → normalize_ieee (some d) ≡ n
    → normalize_ieee (some d') ≡ n
    → normalize_device_id n ≡ some n
    → create_token crypto secret now code d sha256_hex ≡ some token
    → now ≤ later
    → later ≤ now + 300
    → validate_token crypto secret later token code d' sha256_hex ≡ true
unfolding create_token token_for_bucket
validate_token-create crypto none now later token code d d' n sha256_hex e e' normal made le le' =
    cc
validate_token-create crypto (some token_secret) now later token code d d' n sha256_hex e e' normal
      made le le' =
    let made_token = λ (bucket : ℤ). bucket_token crypto n code sha256_hex bucket token_secret in
    let spelled =
      λ (k : Text). bucket_token crypto k code sha256_hex (pos (now / 300)) token_secret in
    let own : made_token (pos (now / 300)) ≡ token =
      sym (ap spelled e) ∙ some-injective (spelled (normalize_ieee (some d))) token made in
    validate-normal crypto token_secret later token code d' n sha256_hex e' normal
    ∙ (elim (same_bucket now later le le') [
      | inl here ↦
          first_equal _ _ (eq→text_eq token _ (sym own ∙ ap (λ b. made_token (pos b)) (sym here)))
      | inr next ↦
          second_equal _ _
            (eq→text_eq token _ (sym own ∙ ap (λ b. made_token (previous b)) (sym next)))
    ])
  where
    first_equal : (a b : Bool) → a ≡ true → (a || b) ≡ true
    first_equal a b h = ground (arith, h)

    second_equal : (a b : Bool) → b ≡ true → (a || b) ≡ true
    second_equal a b h = ground (arith, h)
