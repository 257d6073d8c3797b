-- ===== src/Catalog/Newest.antt =====
-- What `latest_compatible_firmware` offers, and what a scan does to the row of a file.
use ota_server.Base.{
  ℕ, ◌+◌, ◌≡◌, refl, ◌⊎◌, Text, Option, none, some, List, [], ◌∷◌, Bool, true, false, text_eq,
  text_eq→eq, if◌then◌else◌, select_where, Every, Bool-cases, inl, inr, arith, subst,
}
use ota_server.Db.{Db, ImageRow}
use ota_server.Catalog.{FirmwareFile, scan_firmware_images}
use ota_server.Catalog.Order.{IsNewer, compare_versions-IsNewer}
use ota_server.Catalog.Versions.{
  better, newest, is_for_product, is_update, is_positive, compare_images,
  latest_compatible_firmware,
}

-- Rows that a SELECT keeps pass its test.
select_where-Every :
    (p : ImageRow → Bool) (rows : List ImageRow) → Every (λ row. p row ≡ true) (select_where p rows)
unfolding select_where
select_where-Every p [] = tt
select_where-Every p (row ∷ rows) = either (p row) refl (select_where-Every p rows)
  where
    either :
        (b : Bool)
        → p row ≡ b
        → Every (λ r. p r ≡ true) (select_where p rows)
        → Every (λ r. p r ≡ true) (if b then row ∷ select_where p rows else select_where p rows)
    either true e rest = (e, rest)
    either false e rest = rest

-- A SELECT keeps what holds of every row.
select_where_keeps :
    (P : ImageRow → Type 0) (p : ImageRow → Bool) (rows : List ImageRow)
    → Every P rows
    → Every P (select_where p rows)
unfolding select_where
select_where_keeps P p [] every = tt
select_where_keeps P p (row ∷ rows) (here, rest) = either (p row) (select_where_keeps P p rows rest)
  where
    either :
        (b : Bool)
        → Every P (select_where p rows)
        → Every P (if b then row ∷ select_where p rows else select_where p rows)
    either true kept = (here, kept)
    either false kept = kept

better-Every :
    (P : ImageRow → Type 0) (image : ImageRow) (o : Option ImageRow)
    → P image
    → ((best : ImageRow) → o ≡ some best → P best)
    → P (better image o)
unfolding better
better-Every P image none here rest = here
better-Every P image (some best) here rest = either (is_positive (compare_images best image))
  where
    either : (b : Bool) → P (if b then best else image)
    either true = rest best refl
    either false = here

newest-Every :
    (P : ImageRow → Type 0) (images : List ImageRow) (image : ImageRow)
    → Every P images
    → newest images ≡ some image
    → P image
unfolding newest
newest-Every P [] image every h = absurd (none_is_some h)
  where
    none_is_some : none ≡ some image → ⊥
    none_is_some e = cc
newest-Every P (first ∷ images) image (here, rest) h = subst P (same h) (
    better-Every P first (newest images) here (λ best found. newest-Every P images best rest found))
  where
    same : some (better first (newest images)) ≡ some image → better first (newest images) ≡ image
    same e = cc

update_cases :
    (current : Text) (image : ImageRow)
    → is_update current image ≡ true
    → (current ≡ []) ⊎ IsNewer image.version current
unfolding is_update
update_cases current image e = elim (Bool-cases (text_eq current [])) [
  | inl blank ↦ inl (text_eq→eq current [] blank)
  | inr named ↦ inr (compare_versions-IsNewer image.version current (ground (arith, named, e)))
]

-- An active image of a product, hardware revision and channel.
pub record Fits (asked_product hardware asked_channel : Text) (image : ImageRow) : Type 0 where
  pub active : image.active ≡ true
  pub product : image.product ≡ asked_product
  pub hardware_revision : image.hardware_revision ≡ hardware
  pub channel : image.channel ≡ asked_channel

is_for_product-Fits :
    (product hardware channel : Text) (image : ImageRow)
    → is_for_product product hardware channel image ≡ true
    → Fits product hardware channel image
unfolding is_for_product
is_for_product-Fits product hardware channel image h = record {
  active = ground (arith, h);
  product = text_eq→eq image.product product (ground (arith, h));
  hardware_revision = text_eq→eq image.hardware_revision hardware (ground (arith, h));
  channel = text_eq→eq image.channel channel (ground (arith, h));
}

-- An image that `latest_compatible_firmware` offers is active, of the product, hardware revision and
-- channel that were asked for, and, where the device names its version, newer: its version's key is above
-- the key of the device's version in the order of parts, or one of the two versions has no key, as
-- "unknown" has none, and they differ.
pub latest_compatible_firmware_sound :
    (now : ℕ) (files : List FirmwareFile) (product hardware channel current_version : Text)
    (db : Db) (image : ImageRow)
    → (latest_compatible_firmware now files product hardware channel current_version db).0
      ≡ some image
    → Fits product hardware channel image
      × ((current_version ≡ []) ⊎ IsNewer image.version current_version)
unfolding latest_compatible_firmware
latest_compatible_firmware_sound now files product hardware channel current_version db image h =
    let rows =
      select_where (is_for_product product hardware channel)
        (scan_firmware_images now files db).1.firmware_images in
    let chosen = select_where (is_update current_version) rows in
    (
      is_for_product-Fits product hardware channel image (
          newest-Every (λ r. is_for_product product hardware channel r ≡ true) chosen image
            (select_where_keeps _ (is_update current_version) rows
              (select_where-Every (is_for_product product hardware channel) _))
            h),
      update_cases current_version image (
          newest-Every (λ r. is_update current_version r ≡ true) chosen image
            (select_where-Every (is_update current_version) rows) h),
    )

-- The hash and the revision that the table holds for a file name.
abbrev pub revision_of : Option ImageRow → Option (Text × ℕ)
revision_of none = none
revision_of (some row) = some (row.sha256, row.revision)

abbrev pub next_revision : FirmwareFile → Option ImageRow → ℕ
next_revision file none = 1
next_revision file (some row) =
    if text_eq row.sha256 file.sha256 then row.revision else row.revision + 1
