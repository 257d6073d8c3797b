-- ===== src/Firmware/Codes.antt =====
-- The three-character codes of `ensure_image_code`.
use ota_server.Base.{
  ℕ, zero, suc, ◌+◌, ◌*◌, ◌/◌, ◌%◌, ◌^◌, ◌<◌, ◌≤◌, ◌≡◌, refl, ap, subst, Text, Option, none, some,
  List, [], ◌∷◌, true, text_eq→eq, text_eq_refl, count-zero_of_none, find_first, count_where, arith,
  Bool-cases, Option-cases, inl, inr,
}
use ota_server.Crypto.{Crypto}
use ota_server.Db.{Db, AliasRow}
use ota_server.Firmware.{
  base62_char, base62_3, has_code, has_filename, free_code, insert_code, ensure_image_code,
  code_seed,
}

base62_char-injective : (a b : ℕ) → a < 62 → b < 62 → base62_char a ≡ base62_char b → a ≡ b
unfolding base62_char
base62_char-injective a b ha hb h = ground arith

cons3 : {a b c x y z : ℕ} → a ∷ b ∷ c ∷ [] ≡ x ∷ y ∷ z ∷ [] → (a ≡ x) × (b ≡ y) × (c ≡ z)
cons3 h = (cc, cc, cc)

-- Two numbers have the same code only if they are equal modulo 62 ** 3.
base62_3-injective : (a b : ℕ) → base62_3 a ≡ base62_3 b → a % 62 ^ 3 ≡ b % 62 ^ 3
unfolding base62_3
base62_3-injective a b h =
    let (e1, e2, e3) = cons3 h in
    let d1 =
      base62_char-injective (a % 62 ^ 3 / (62 * 62) % 62) (b % 62 ^ 3 / (62 * 62) % 62)
        (omega arith) (omega arith) e1 in
    let d2 =
      base62_char-injective (a % 62 ^ 3 / 62 % 62) (b % 62 ^ 3 / 62 % 62) (omega arith)
        (omega arith) e2 in
    let d3 =
      base62_char-injective (a % 62 ^ 3 % 62) (b % 62 ^ 3 % 62) (omega arith) (omega arith) e3 in
    omega arith

-- No code stands twice in the table.
abbrev pub HasUniqueCodes : List AliasRow → Type 0
HasUniqueCodes rows = (code : Text) → count_where (has_code code) rows ≤ 1

free_code-is_free :
    (rounds value : ℕ) (rows : List AliasRow) (code : Text)
    → free_code rounds value rows ≡ some code
    → find_first (has_code code) rows ≡ none
unfolding free_code
free_code-is_free zero value rows code h = absurd cc
free_code-is_free (suc rounds) value rows code h =
    elim (Option-cases (find_first (has_code (base62_3 value)) rows)) [
      | inl free ↦ subst (λ c. find_first (has_code c) rows ≡ none) (first_free free) free
      | inr (row, taken) ↦ free_code-is_free rounds (value + 1) rows code (ground arith)
    ]
  where
    first_free : find_first (has_code (base62_3 value)) rows ≡ none → base62_3 value ≡ code
    first_free free = ground arith

same_code : (code : Text) (row : AliasRow) → has_code code row ≡ true → row.code ≡ code
unfolding has_code
same_code code row h = text_eq→eq row.code code h

count-insert :
    (row : AliasRow) (rows : List AliasRow)
    → find_first (has_code row.code) rows ≡ none
    → HasUniqueCodes rows
    → HasUniqueCodes (row ∷ rows)
unfolding count_where
count-insert row rows free unique code = elim (Bool-cases (has_code code row)) [
  | inl same ↦ ground (arith, same, absent same)
  | inr other ↦ ground (arith, other, unique code)
]
  where
    absent : has_code code row ≡ true → count_where (has_code code) rows ≡ 0
    absent same =
        subst (λ c. count_where (has_code c) rows ≡ 0) (same_code code row same)
          (count-zero_of_none (has_code row.code) rows free)

insert_code-HasUniqueCodes :
    (now : ℕ) (filename : Text) (found : Option Text) (db : Db)
    → ((code : Text) → found ≡ some code → find_first (has_code code) db.firmware_alias ≡ none)
    → HasUniqueCodes db.firmware_alias
    → HasUniqueCodes ((insert_code now filename found db).1.firmware_alias)
unfolding insert_code
insert_code-HasUniqueCodes now filename none db free unique = unique
insert_code-HasUniqueCodes now filename (some code) db free unique =
    count-insert (record { filename = filename; code = code; created_at = now }) db.firmware_alias
      (free code refl) unique

-- The answer of `ensure_image_code` keeps every code unique: a code it makes up is one that no
-- alias had.
pub ensure_image_code-HasUniqueCodes :
    (crypto : Crypto) (now : ℕ) (filename : Text) (db : Db)
    → HasUniqueCodes db.firmware_alias
    → HasUniqueCodes ((ensure_image_code crypto now filename db).1.firmware_alias)
unfolding ensure_image_code
ensure_image_code-HasUniqueCodes crypto now filename db unique =
    elim (Option-cases (find_first (has_filename filename) db.firmware_alias)) [
      | inl new ↦
          rw (new, ensure_image_code)
            (insert_code-HasUniqueCodes now filename
              (free_code (62 ^ 3) (code_seed crypto filename) db.firmware_alias) db
              (λ code.
                free_code-is_free (62 ^ 3) (code_seed crypto filename) db.firmware_alias code)
              unique)
      | inr (row, known) ↦ rw (known, ensure_image_code) unique
    ]

ensured_known :
    (crypto : Crypto) (later : ℕ) (filename : Text) (row : AliasRow) (db : Db)
    → find_first (has_filename filename) db.firmware_alias ≡ some row
    → ensure_image_code crypto later filename db ≡ (some row.code, db)
unfolding ensure_image_code
ensured_known crypto later filename row db known = rw (known, ensure_image_code) refl

first_inserted :
    (row : AliasRow) (rows : List AliasRow)
    → find_first (has_filename row.filename) (row ∷ rows) ≡ some row
unfolding find_first has_filename
first_inserted row rows = rw (text_eq_refl row.filename) refl

inserted :
    (crypto : Crypto) (now later : ℕ) (filename code : Text) (db : Db)
    → ensure_image_code crypto later filename ((insert_code now filename (some code) db).1)
      ≡ (some code, (insert_code now filename (some code) db).1)
unfolding insert_code
inserted crypto now later filename code db =
    ensured_known crypto later filename new ((insert_code now filename (some code) db).1)
      (first_inserted new db.firmware_alias)
  where
    new : AliasRow
    new = record { filename = filename; code = code; created_at = now }

-- What the call for a file that has no code returns is what a later call returns.
created_stable :
    (crypto : Crypto) (now later : ℕ) (filename code : Text) (found : Option Text) (db after : Db)
    → insert_code now filename found db ≡ (some code, after)
    → ensure_image_code crypto later filename after ≡ (some code, after)
unfolding insert_code
created_stable crypto now later filename code none db after h =
    absurd (none_code (ap (λ (r : Option Text × Db). r.0) h))
  where
    none_code : none ≡ some code → ⊥
    none_code e = cc
created_stable crypto now later filename code (some c) db after h =
    subst (λ (r : Option Text × Db). ensure_image_code crypto later filename r.1 ≡ r) h
      (inserted crypto now later filename c db)

-- A file keeps its code: once `ensure_image_code` returned a code, every later call for that file
-- returns the same one and changes nothing.
pub ensure_image_code_stable :
    (crypto : Crypto) (now later : ℕ) (filename code : Text) (db after : Db)
    → ensure_image_code crypto now filename db ≡ (some code, after)
    → ensure_image_code crypto later filename after ≡ (some code, after)
unfolding ensure_image_code
ensure_image_code_stable crypto now later filename code db after h =
    elim (Option-cases (find_first (has_filename filename) db.firmware_alias)) [
      | inl new ↦
          created_stable crypto now later filename code
            (free_code (62 ^ 3) (code_seed crypto filename) db.firmware_alias) db after
            (rw (new, ensure_image_code) at h)
      | inr (row, known) ↦
          subst (λ (r : Option Text × Db). ensure_image_code crypto later filename r.1 ≡ r)
            (rw (known, ensure_image_code) at h) (ensured_known crypto later filename row db known)
    ]
