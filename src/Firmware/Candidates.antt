-- ===== src/Firmware/Candidates.antt =====
-- `generate_firmware_code_candidates` of ota_helper.py beside `ensure_image_code` of server.py.
use ota_server.Base.{
  ℕ, zero, suc, ◌+◌, ◌*◌, ◌/◌, ◌%◌, ◌^◌, take, ◌<◌, ◌≡◌, ◌==◌, ◌&&◌, true, false, codes, subst,
  arith, refl, ap, sym, ◌∙◌, Text, Option, none, some, List, [], ◌∷◌, Bool, not, is_some,
  find_first, Bool-cases, inl, inr,
}
use ota_server.Crypto.{Crypto}
use ota_server.Db.{Db, AliasRow}
use ota_server.Encoding.{utf8, from_bytes}
use ota_server.Firmware
use ota_server.Firmware.{
  base62_char, has_code, has_filename, free_code, insert_code, ensure_image_code, code_seed,
}

-- `BASE62` of ota_helper.py, and `s[n]`; every index is below 62.
abbrev pub base62 : Text
base62 = codes "0123456789ABCDEFGHIJKLMNOPQRSTUVWXYZabcdefghijklmnopqrstuvwxyz"

unfoldable pub char_at : ℕ → Text → ℕ
char_at n [] = 0
char_at zero (c ∷ s) = c
char_at (suc n) (c ∷ s) = char_at n s

-- `_base62_3` of ota_helper.py
unfoldable pub base62_3 : ℕ → Text
unfolding char_at
base62_3 value =
    char_at (value % 62 ^ 3 / (62 * 62) % 62) base62
    ∷ char_at (value % 62 ^ 3 / 62 % 62) base62
    ∷ char_at (value % 62 ^ 3 % 62) base62
    ∷ []

-- The seed of ota_helper.py, the first four bytes of the digest as a number.
unfoldable pub seed : Crypto → Text → ℕ
seed crypto filename = from_bytes 0 (take 4 (crypto.sha256 (utf8 filename)))

-- The codes of `range(62 ** 3)` from an offset on.
unfoldable pub candidates_from : ℕ → ℕ → List Text
candidates_from zero value = []
candidates_from (suc rounds) value = base62_3 value ∷ candidates_from rounds (value + 1)

unfoldable pub generate_firmware_code_candidates : Crypto → Text → List Text
generate_firmware_code_candidates crypto filename = candidates_from (62 ^ 3) (seed crypto filename)

-- The two alphabets have the same letters below n.
same_below : ℕ → Bool
same_below zero = true
same_below (suc n) = char_at n base62 == base62_char n && same_below n

same_below_62 : same_below 62 ≡ true
unfolding same_below char_at base62_char
same_below_62 = refl

same_letter : (n v : ℕ) → same_below n ≡ true → v < n → char_at v base62 ≡ base62_char v
unfolding same_below
same_letter zero v h less = absurd (omega arith)
same_letter (suc n) v h less = elim (Bool-cases (v == n)) [
  | inl last ↦
      let same : n ≡ v = ground (arith, last) in
      let here : char_at n base62 ≡ base62_char n =
        number_eq (char_at n base62) (base62_char n) (both _ _ h) in
      subst (λ k. char_at k base62 ≡ base62_char k) same here
  | inr other ↦ same_letter n v (rest _ _ h) (ground (arith, less, other))
]
  where
    both : (a b : Bool) → (a && b) ≡ true → a ≡ true
    both true b e = refl
    both false b e = cc

    rest : (a b : Bool) → (a && b) ≡ true → b ≡ true
    rest true b e = e
    rest false b e = cc

    number_eq : (a b : ℕ) → (a == b) ≡ true → a ≡ b
    number_eq a b e = ground (arith, e)

-- The two encoders and the two seeds agree.
same_code : (value : ℕ) → base62_3 value ≡ Firmware.base62_3 value
unfolding base62_3 Firmware.base62_3
same_code value =
    let letter = λ (v : ℕ) (less : v < 62). same_letter 62 v same_below_62 less in
    rw
      (
        letter (value % 62 ^ 3 / (62 * 62) % 62) (omega arith),
        letter (value % 62 ^ 3 / 62 % 62) (omega arith),
        letter (value % 62 ^ 3 % 62) (omega arith),
      )
      refl

same_seed : (crypto : Crypto) (filename : Text) → seed crypto filename ≡ code_seed crypto filename
unfolding seed code_seed
same_seed crypto filename = refl

-- No alias has the code.
abbrev pub is_free : List AliasRow → Text → Bool
is_free rows code = not (is_some (find_first (has_code code) rows))

free_code-candidates :
    (rounds value : ℕ) (rows : List AliasRow)
    → free_code rounds value rows ≡ find_first (is_free rows) (candidates_from rounds value)
unfolding free_code candidates_from find_first
free_code-candidates zero value rows = refl
free_code-candidates (suc rounds) value rows =
    rw (same_code value)
      (elim (Bool-cases (is_some (find_first (has_code (Firmware.base62_3 value)) rows))) [
        | inl used ↦ rw used (free_code-candidates rounds (value + 1) rows)
        | inr unused ↦ rw unused refl
      ])

-- The codes of ota_helper.py, with its own encoder and seed, are those that the server tries: for a file
-- without a code, `ensure_image_code` answers the first of the candidates that no alias has, and none exactly if all of them are in use.
pub ensure_image_code-candidates :
    (crypto : Crypto) (now : ℕ) (filename : Text) (db : Db)
    → find_first (has_filename filename) db.firmware_alias ≡ none
    → (ensure_image_code crypto now filename db).0
      ≡ find_first (is_free db.firmware_alias) (generate_firmware_code_candidates crypto filename)
unfolding ensure_image_code generate_firmware_code_candidates
ensure_image_code-candidates crypto now filename db new =
    rw (new, ensure_image_code)
      (answer (free_code (62 ^ 3) (code_seed crypto filename) db.firmware_alias)
        ∙ free_code-candidates (62 ^ 3) (code_seed crypto filename) db.firmware_alias
        ∙ ap (λ v. find_first (is_free db.firmware_alias) (candidates_from (62 ^ 3) v))
            (sym (same_seed crypto filename)))
  where
    answer : (code : Option Text) → (insert_code now filename code db).0 ≡ code
    answer none = unfold insert_code in refl
    answer (some code) = unfold insert_code in refl
