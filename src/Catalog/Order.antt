-- ===== src/Catalog/Order.antt =====
-- The order of versions that `compare_versions` of server.py decides: by the parts of their keys, numbers
-- above words, numbers by size and words by letters, a longer key above its beginning.
use ota_server.Base.{
  ℕ, ◌<◌, ◌≡◌, ◌≢◌, ◌⊎◌, refl, ap, Text, ℤ, pos, negsuc, List, [], ◌∷◌, Bool, true, false, ◌||◌,
  ◌==◌, if◌then◌else◌, eq→text_eq, Bool-cases, inl, inr, arith,
}
use ota_server.Catalog.Versions.{
  Part, number, word, compare_numbers, compare_texts, compare_parts, first_difference, compare_keys,
  is_no_key, version_key, compare_versions, is_positive,
}

abbrev pub IsTextAbove : Text → Text → Type 0
IsTextAbove [] t = ⊥
IsTextAbove (a ∷ s) [] = Unit {0}
IsTextAbove (a ∷ s) (b ∷ t) = (b < a) ⊎ ((a ≡ b) × IsTextAbove s t)

abbrev pub IsPartAbove : Part → Part → Type 0
IsPartAbove (number a) (number b) = b < a
IsPartAbove (number a) (word b) = Unit {0}
IsPartAbove (word a) (number b) = ⊥
IsPartAbove (word a) (word b) = IsTextAbove a b

abbrev pub IsKeyAbove : List Part → List Part → Type 0
IsKeyAbove [] t = ⊥
IsKeyAbove (a ∷ s) [] = Unit {0}
IsKeyAbove (a ∷ s) (b ∷ t) = IsPartAbove a b ⊎ ((a ≡ b) × IsKeyAbove s t)

-- A version is newer if its key is above, or if one of the two has no key and they differ.
abbrev pub IsNewer : Text → Text → Type 0
IsNewer version current =
    IsKeyAbove (version_key version) (version_key current)
    ⊎ (((version_key version ≡ []) ⊎ (version_key current ≡ [])) × (version ≢ current))

compare_numbers-above : (a b : ℕ) → is_positive (compare_numbers a b) ≡ true → b < a
unfolding compare_numbers is_positive
compare_numbers-above a b h = ground (arith, h)

compare_numbers-zero : (a b : ℕ) → compare_numbers a b ≡ pos 0 → a ≡ b
unfolding compare_numbers
compare_numbers-zero a b h = ground (arith, h)

same_number : (a b : ℕ) → (a == b) ≡ true → a ≡ b
same_number a b h = ground (arith, h)

compare_texts-zero : (s t : Text) → compare_texts s t ≡ pos 0 → s ≡ t
unfolding compare_texts compare_numbers
compare_texts-zero [] [] h = refl
compare_texts-zero [] (b ∷ t) h = cc
compare_texts-zero (a ∷ s) [] h = ground (arith, h)
compare_texts-zero (a ∷ s) (b ∷ t) h = elim (Bool-cases (a == b)) [
  | inl same ↦
      let rest = compare_texts-zero s t (rw (same, compare_texts) at h) in
      cc (same_number a b same, rest)
  | inr other ↦ absurd (ground (arith, h, other))
]

compare_texts-above : (s t : Text) → is_positive (compare_texts s t) ≡ true → IsTextAbove s t
unfolding compare_texts is_positive
compare_texts-above [] [] h = absurd (ground (arith, h))
compare_texts-above [] (b ∷ t) h = cc
compare_texts-above (a ∷ s) [] h = tt
compare_texts-above (a ∷ s) (b ∷ t) h = elim (Bool-cases (a == b)) [
  | inl same ↦ inr (same_number a b same, compare_texts-above s t (rw (same, compare_texts) at h))
  | inr other ↦ inl (compare_numbers-above a b (rw (other, compare_texts) at h))
]

compare_parts-zero : (a b : Part) → compare_parts a b ≡ pos 0 → a ≡ b
unfolding compare_parts
compare_parts-zero (number a) (number b) h = ap number (compare_numbers-zero a b h)
compare_parts-zero (number a) (word b) h = absurd (ground (arith, h))
compare_parts-zero (word a) (number b) h = cc
compare_parts-zero (word a) (word b) h = ap word (compare_texts-zero a b h)

compare_parts-above : (a b : Part) → is_positive (compare_parts a b) ≡ true → IsPartAbove a b
unfolding compare_parts is_positive
compare_parts-above (number a) (number b) h = compare_numbers-above a b h
compare_parts-above (number a) (word b) h = tt
compare_parts-above (word a) (number b) h = cc
compare_parts-above (word a) (word b) h = compare_texts-above a b h

first_difference-positive :
    (here rest : ℤ)
    → is_positive (first_difference here rest) ≡ true
    → (is_positive here ≡ true) ⊎ ((here ≡ pos 0) × (is_positive rest ≡ true))
unfolding first_difference is_positive
first_difference-positive (negsuc a) rest h = cc
first_difference-positive (pos a) rest h = elim (Bool-cases (a == 0)) [
  | inl zero_here ↦ inr (ap pos (same_number a 0 zero_here), rw (zero_here, first_difference) at h)
  | inr above ↦ inl (ground (arith, above))
]

pub compare_keys-above : (s t : List Part) → is_positive (compare_keys s t) ≡ true → IsKeyAbove s t
unfolding compare_keys
compare_keys-above [] [] h = absurd (nothing h)
  where
    nothing : is_positive (pos 0) ≡ true → ⊥
    nothing e = unfold is_positive in ground (arith, e)
compare_keys-above [] (b ∷ t) h = absurd (nothing h)
  where
    nothing : is_positive (negsuc 0) ≡ true → ⊥
    nothing e = unfold is_positive in cc
compare_keys-above (a ∷ s) [] h = tt
compare_keys-above (a ∷ s) (b ∷ t) h =
    elim (first_difference-positive (compare_parts a b) (compare_keys s t) h) [
      | inl above ↦ inl (compare_parts-above a b above)
      | inr (same, rest) ↦ inr (compare_parts-zero a b same, compare_keys-above s t rest)
    ]

no_key : (key : List Part) → is_no_key key ≡ true → key ≡ []
unfolding is_no_key
no_key [] h = refl
no_key (part ∷ key) h = cc

either_key : (s t : List Part) → (is_no_key s || is_no_key t) ≡ true → (s ≡ []) ⊎ (t ≡ [])
either_key s t h = elim (Bool-cases (is_no_key s)) [
  | inl none_here ↦ inl (no_key s none_here)
  | inr some_here ↦ inr (no_key t (ground (arith, h, some_here)))
]

-- What `compare_versions` answers with 1 is newer.
pub compare_versions-IsNewer :
    (version current : Text)
    → is_positive (compare_versions version current) ≡ true
    → IsNewer version current
unfolding compare_versions
compare_versions-IsNewer version current h =
    elim (Bool-cases (is_no_key (version_key version) || is_no_key (version_key current))) [
      | inr keys ↦ inl (
          compare_keys-above (version_key version) (version_key current)
            (rw (keys, compare_versions) at h))
      | inl missing ↦ inr (
        either_key (version_key version) (version_key current) missing,
        λ e. differs (eq→text_eq version current e) (rw (missing, compare_versions) at h),
      )
    ]
  where
    differs : {b : Bool} → b ≡ true → is_positive (if b then pos 0 else pos 1) ≡ true → ⊥
    differs {b = true} e positive = unfold is_positive in ground (arith, positive)
    differs {b = false} e positive = cc
