-- ===== src/Catalog/Versions.antt =====
-- `version_key`, `compare_versions`, the choice of the newest image and `device_update_status` of
-- server.py. A version is ASCII.
use ota_server.Base.{
  ℕ, ◌+◌, ◌-◌, ◌*◌, Text, codes, ℤ, pos, negsuc, Option, none, some, List, [], ◌∷◌, ◌++◌, Bool,
  true, false, ◌&&◌, ◌||◌, not, ◌==◌, ltb, leb, if◌then◌else◌, text_eq, is_digit, lower,
  select_where,
}
use ota_server.Db.{Db, ImageRow, DeviceRow, DeviceState}
use ota_server.Catalog.{FirmwareFile, scan_firmware_images}

-- A part of a version key: (1, number) or (0, word).
pub data Part : Type 0 where
  number : ℕ → Part
  word : Text → Part

unfoldable pub is_letter : ℕ → Bool
is_letter c = (leb b'A' c && leb c b'Z') || (leb b'a' c && leb c b'z')

-- The part that ended, before the rest.
unfoldable pub flush : Option Part → List Part → List Part
flush none parts = parts
flush (some part) parts = part ∷ parts

-- A digit or a letter joins the part that is open, if that is of its kind.
unfoldable pub open_number : Option Part → ℕ → Option Part
open_number (some (number n)) v = some (number (n * 10 + v))
open_number _ v = some (number v)

unfoldable pub open_word : Option Part → ℕ → Option Part
open_word (some (word w)) c = some (word (w ++ (c ∷ [])))
open_word _ c = some (word (c ∷ []))

unfoldable pub ended_by_digit : Option Part → Option Part
ended_by_digit (some (word w)) = some (word w)
ended_by_digit _ = none

unfoldable pub ended_by_letter : Option Part → Option Part
ended_by_letter (some (number n)) = some (number n)
ended_by_letter _ = none

-- re.findall(r"\d+|[A-Za-z]+"), with numbers as numbers and words in lower case.
unfoldable pub version_parts : Option Part → Text → List Part
unfolding is_letter flush open_number open_word ended_by_digit ended_by_letter
version_parts part [] = flush part []
version_parts part (c ∷ s) = elim (is_digit c) [
  | true ↦ flush (ended_by_digit part) (version_parts (open_number part (c - b'0')) s)
  | false ↦ elim (is_letter c) [
    | true ↦ flush (ended_by_letter part) (version_parts (open_word part (lower c)) s)
    | false ↦ flush part (version_parts none s)
  ]
]

unfoldable pub version_key : Text → List Part
unfolding version_parts
version_key value = if text_eq value (codes "unknown") then [] else version_parts none value

-- Comparisons as -1, 0 and 1: of numbers, texts, parts and keys, as Python compares tuples.
unfoldable pub compare_numbers : ℕ → ℕ → ℤ
compare_numbers a b = if ltb a b then negsuc 0 else if ltb b a then pos 1 else pos 0

unfoldable pub compare_texts : Text → Text → ℤ
unfolding compare_numbers
compare_texts [] [] = pos 0
compare_texts [] (b ∷ t) = negsuc 0
compare_texts (a ∷ s) [] = pos 1
compare_texts (a ∷ s) (b ∷ t) =
    let rest = compare_texts s t in if a == b then rest else compare_numbers a b

unfoldable pub compare_parts : Part → Part → ℤ
unfolding compare_numbers compare_texts
compare_parts (number a) (number b) = compare_numbers a b
compare_parts (number a) (word b) = pos 1
compare_parts (word a) (number b) = negsuc 0
compare_parts (word a) (word b) = compare_texts a b

-- The first comparison that is not 0.
unfoldable pub first_difference : ℤ → ℤ → ℤ
first_difference (pos a) rest = if a == 0 then rest else pos a
first_difference (negsuc a) rest = negsuc a

unfoldable pub compare_keys : List Part → List Part → ℤ
unfolding compare_parts first_difference
compare_keys [] [] = pos 0
compare_keys [] (b ∷ t) = negsuc 0
compare_keys (a ∷ s) [] = pos 1
compare_keys (a ∷ s) (b ∷ t) = first_difference (compare_parts a b) (compare_keys s t)

unfoldable pub is_no_key : List Part → Bool
is_no_key [] = true
is_no_key (part ∷ key) = false

unfoldable pub compare_versions : Text → Text → ℤ
unfolding version_key compare_keys is_no_key
compare_versions left right =
    if is_no_key (version_key left) || is_no_key (version_key right)
    then if text_eq left right then pos 0 else pos 1
    else compare_keys (version_key left) (version_key right)

unfoldable pub is_positive : ℤ → Bool
is_positive (pos n) = ltb 0 n
is_positive (negsuc n) = false

-- The sort key: version, secure version, revision, filename.
unfoldable pub compare_images : ImageRow → ImageRow → ℤ
unfolding version_key compare_keys compare_numbers compare_texts first_difference
compare_images a b =
    first_difference (compare_keys (version_key a.version) (version_key b.version)) (
      first_difference (compare_numbers a.secure_version b.secure_version) (
        first_difference (compare_numbers a.revision b.revision)
          (compare_texts a.filename b.filename)))

-- The first row of `candidates.sort(…, reverse=True)`: the first among the greatest.
unfoldable pub better : ImageRow → Option ImageRow → ImageRow
unfolding compare_images is_positive
better image none = image
better image (some best) = if is_positive (compare_images best image) then best else image

unfoldable pub newest : List ImageRow → Option ImageRow
unfolding better
newest [] = none
newest (image ∷ images) = some (better image (newest images))

-- WHERE product = ? AND hardware_revision = ? AND channel = ? AND active = 1
unfoldable pub is_for_product : Text → Text → Text → ImageRow → Bool
is_for_product product hardware_revision channel image =
    text_eq image.product product
    && text_eq image.hardware_revision hardware_revision
    && text_eq image.channel channel
    && image.active

-- `if current_version and compare_versions(…) <= 0: continue`
unfoldable pub is_update : Text → ImageRow → Bool
is_update current_version image =
    text_eq current_version [] || is_positive (compare_versions image.version current_version)

-- `latest_compatible_firmware`, with the files that its scan finds.
unfoldable pub latest_compatible_firmware :
    ℕ → List FirmwareFile → Text → Text → Text → Text → Db → Option ImageRow × Db
latest_compatible_firmware now files product hardware_revision channel current_version db =
    let (scanned, db') = scan_firmware_images now files db in
    (
      newest (
          select_where (is_update current_version)
            (select_where (is_for_product product hardware_revision channel) db'.firmware_images)),
      db',
    )

-- WHERE active = 1 AND channel = ? AND hardware_revision = ? AND (device_model = ? OR …)
unfoldable pub is_for_device : DeviceRow → ImageRow → Bool
is_for_device device image =
    image.active
    && text_eq image.channel
        (if text_eq device.firmware_channel [] then codes "stable" else device.firmware_channel)
    && text_eq image.hardware_revision device.hardware_revision
    && (text_eq image.device_model device.device_model
        || text_eq image.product_role device.product_role
        || text_eq image.product device.firmware_product)

-- `latest_compatible_firmware_for_device`
unfoldable pub latest_compatible_firmware_for_device :
    ℕ → List FirmwareFile → DeviceRow → Db → Option ImageRow × Db
latest_compatible_firmware_for_device now files device db =
    let (scanned, db') = scan_firmware_images now files db in
    (newest (select_where (is_for_device device) db'.firmware_images), db')

pub data UpdateStatus : Type 0 where
  enrollment_required no_compatible_bin unknown_current_version update_available current :
      UpdateStatus

abbrev pub is_authenticated : DeviceState → Bool
is_authenticated DeviceState.authenticated = true
is_authenticated _ = false

unfoldable pub is_enrolled : DeviceRow → Bool
is_enrolled device =
    is_authenticated device.state
    && not (text_eq device.device_model [])
    && not (text_eq device.device_model (codes "unknown"))
    && not (text_eq device.hardware_revision [])
    && not (text_eq device.hardware_revision (codes "unknown"))

unfoldable pub status_of : Text → Option ImageRow → UpdateStatus
status_of current_version none = no_compatible_bin
status_of current_version (some latest) =
    if text_eq current_version []
    then unknown_current_version
    else if is_positive (compare_versions latest.version current_version)
    then update_available
    else current

abbrev pub or_blank : Option Text → Text
or_blank none = []
or_blank (some t) = t

-- `device_update_status`; an unenrolled device is answered before any scan.
unfoldable pub device_update_status :
    ℕ → List FirmwareFile → DeviceRow → Db → (UpdateStatus × Option ImageRow) × Db
device_update_status now files device db =
    if not (is_enrolled device)
    then ((enrollment_required, none), db)
    else let (latest, db') = latest_compatible_firmware_for_device now files device db in
      ((status_of (or_blank device.firmware_version) latest, latest), db')
