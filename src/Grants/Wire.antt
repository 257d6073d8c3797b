-- ===== src/Grants/Wire.antt =====
-- The size of the OTA CHECK wire format of `create_ota_check_grant`.
use ota_server.Base.{
  ℕ, ◌+◌, ◌≤◌, ◌≡◌, ◌≢◌, refl, ◌∙◌, ◌*◌, ◌/◌, Text, true, false, ltb, all, length, take, arith,
  and-eq-true, codes, ◌∷◌, [], length-take, Option, none, some, strip, map, lower,
}
use ota_server.Base.Result.{Result, ok, err, or_raise, ◌>>=◌}
use ota_server.Crypto.{Crypto, HasSizes}
use ota_server.Db.{Db}
use ota_server.Encoding.{b64u, utf8}
use ota_server.Encoding.Base64.{b64u-IsAscii, length-b64u}
use ota_server.Encoding.Utf8.{IsAscii, length-utf8-append, length-utf8-IsAscii}
use ota_server.Ident.{normalize_device_id}
use ota_server.Grants.Tokens.{
  Error, check_arguments, make_check_wire, is_alnum, bar, check_canonical, check_key_domain,
  wire_too_long, prepare_grant, finish_grant, OtaCheckGrant, derive_persisted_session_key,
  bad_device_id,
}

alnum-ascii : (c : ℕ) → is_alnum c ≡ true → ltb c 128 ≡ true
unfolding is_alnum
alnum-ascii c h = ground arith

all-alnum-IsAscii : (s : Text) → all is_alnum s ≡ true → IsAscii s
all-alnum-IsAscii [] h = refl
all-alnum-IsAscii (c ∷ s) h =
    let (hc, hs) = and-eq-true (is_alnum c) (all is_alnum s) h in
    ground (arith, alnum-ascii c hc, all-alnum-IsAscii s hs)

check_arguments-sizes :
    (version code sha : Text)
    → check_arguments version code sha ≡ ok tt
    → (length (utf8 version) ≤ 32) × (length code ≡ 3) × (all is_alnum code ≡ true)
unfolding check_arguments
check_arguments-sizes version code sha h = (ground arith, ground arith, ground arith)

length-utf8-b64u : (s : Text) → length (utf8 (b64u s)) ≡ (length s * 4 + 2) / 3
length-utf8-b64u s = length-utf8-IsAscii (b64u s) (b64u-IsAscii s) ∙ length-b64u s

-- The five fields and the four separators.
length-make_check_wire :
    (crypto : Crypto) (key version code random8 : Text)
    → HasSizes crypto
    → length random8 ≡ 8
    → length code ≡ 3
    → all is_alnum code ≡ true
    → length (utf8 (make_check_wire crypto key version code random8)) ≡ length (utf8 version) + 41
unfolding make_check_wire
length-make_check_wire crypto key version code random8 sizes r c alnum =
    let mac =
      crypto.hmac (crypto.hmac key check_key_domain) (check_canonical version code random8) in
    simp length-utf8-append (
      omega (
        arith,
        length-utf8-IsAscii code (all-alnum-IsAscii code alnum),
        length-utf8-b64u random8,
        length-utf8-b64u (take 16 mac),
        length-take 16 mac,
        sizes.length-hmac _ _,
        length-utf8-IsAscii (codes "C|") refl,
        length-utf8-IsAscii bar refl,
      ))

wire-le :
    (crypto : Crypto) (key version code sha random8 : Text)
    → HasSizes crypto
    → length random8 ≡ 8
    → check_arguments version code sha ≡ ok tt
    → length (utf8 (make_check_wire crypto key version code random8)) ≤ 73
wire-le crypto key version code sha random8 sizes r h =
    let (v, c, alnum) = check_arguments-sizes version code sha h in
    omega (arith, length-make_check_wire crypto key version code random8 sizes r c alnum)

-- The wire is never too long for the Zigbee frame.
abbrev pub FitsFrame : Result Error OtaCheckGrant → Type 0
FitsFrame (ok grant) = length (utf8 grant.check_wire) ≤ 73
FitsFrame (err e) = e ≢ wire_too_long

finish_grant-FitsFrame :
    (crypto : Crypto) (now : ℕ) (random8 n version code sha key : Text)
    → HasSizes crypto
    → length random8 ≡ 8
    → check_arguments version code sha ≡ ok tt
    → FitsFrame (finish_grant crypto now random8 n version code sha key)
unfolding finish_grant
finish_grant-FitsFrame crypto now random8 n version code sha key sizes r h =
    let fits = wire-le crypto key version code sha random8 sizes r h in
    let short : ltb 100 (length (utf8 (make_check_wire crypto key version code random8))) ≡ false =
      ground arith in
    rw short fits

bind_FitsFrame :
    {A : Type 0} (m : Result Error A) (f : A → Result Error OtaCheckGrant)
    → ((e : Error) → m ≡ err e → e ≢ wire_too_long)
    → ((a : A) → m ≡ ok a → FitsFrame (f a))
    → FitsFrame (m >>= f)
bind_FitsFrame (ok a) f bad good = good a refl
bind_FitsFrame (err e) f bad good = bad e refl

check_arguments-errors :
    (version code sha : Text) (e : Error)
    → check_arguments version code sha ≡ err e
    → e ≢ wire_too_long
unfolding check_arguments
check_arguments-errors version code sha e h = ground arith

derive-errors :
    (crypto : Crypto) (n : Text) (db : Db) (e : Error)
    → derive_persisted_session_key crypto n db ≡ err e
    → e ≢ wire_too_long
unfolding derive_persisted_session_key
derive-errors crypto n db e h = ground arith

normal-errors : (o : Option Text) (e : Error) → or_raise o bad_device_id ≡ err e → e ≢ wire_too_long
normal-errors none e h = ground arith
normal-errors (some n) e h = cc

-- With SHA-256 outputs of 32 bytes and 8 random bytes, `create_ota_check_grant` never raises its
-- "exceeds Zigbee 100-byte protocol limit", and the wire that it returns has at most 73 bytes.
pub prepare_grant-FitsFrame :
    (crypto : Crypto) (now : ℕ) (random8 d version code sha : Text) (db : Db)
    → HasSizes crypto
    → length random8 ≡ 8
    → FitsFrame (prepare_grant crypto now random8 d version code sha db)
unfolding prepare_grant
prepare_grant-FitsFrame crypto now random8 d version code sha db sizes r =
    let v = strip version in
    let c = strip code in
    let s = strip (map lower sha) in
    bind_FitsFrame (or_raise (normalize_device_id d) bad_device_id) _
      (normal-errors (normalize_device_id d))
      λ n _. bind_FitsFrame (check_arguments v c s) _ (check_arguments-errors v c s) λ _ checked.
        bind_FitsFrame (derive_persisted_session_key crypto n db) _ (derive-errors crypto n db)
          λ key _. finish_grant-FitsFrame crypto now random8 n v c s key sizes r checked
