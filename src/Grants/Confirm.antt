-- ===== src/Grants/Confirm.antt =====
-- The F confirmation: `confirm_completed_download_b64` of ota_check_security.py.
use ota_server.Base.{
  ◌≡◌, ◌≢◌, refl, ◌∙◌, Text, Option, none, some, List, [], ◌∷◌, Bool, true, false, ◌&&◌, text_eq,
  text_eq→eq, find_first, find_first_sound, Option-cases, Bool-cases, inl, inr, subst, if_some,
  and-eq-true, length, ◌==◌, not, if◌then◌else◌,
}
use mathlib.Core.Option.{some-injective}
use ota_server.Db.{Db, GrantRow, FirmwareStatusRow, TransferState, download_completed}
use ota_server.Encoding.{b64u_decode}
use ota_server.Grants.Downloads.{
  joins, join_status, confirm_match, confirmed, confirm_completed_download_b64, is_truthy,
  is_download_completed,
}
use ota_server.Ident.{normalize_device_id}

none-ne-pair :
    (g : GrantRow) (s : FirmwareStatusRow)
    → ◌≢◌ {A = Option (GrantRow × FirmwareStatusRow)} none (some (g, s))
none-ne-pair g s e = cc

join_status_sound :
    (match : GrantRow → Bool) (statuses : List FirmwareStatusRow) (grants : List GrantRow)
    (g : GrantRow) (s : FirmwareStatusRow)
    → join_status match statuses grants ≡ some (g, s)
    → (match g ≡ true) × (joins g s ≡ true)
unfolding join_status
join_status_sound match statuses [] g s h = absurd (none-ne-pair g s h)
join_status_sound match statuses (first ∷ grants) g s h = elim (Bool-cases (match first)) [
  | inr other ↦ join_status_sound match statuses grants g s (rw (other, join_status) at h)
  | inl here ↦ elim (Option-cases (find_first (joins first) statuses)) [
    | inl missing ↦
        join_status_sound match statuses grants g s (rw (here, join_status, missing) at h)
    | inr (row, found) ↦
        pair first row here (find_first_sound (joins first) statuses row found)
          (rw (here, join_status, found) at h)
  ]
]
  where
    pair :
        (g' : GrantRow) (s' : FirmwareStatusRow)
        → match g' ≡ true
        → joins g' s' ≡ true
        → ◌≡◌ {A = Option (GrantRow × FirmwareStatusRow)} (some (g', s')) (some (g, s))
        → (match g ≡ true) × (joins g s ≡ true)
    pair g' s' m j e =
        subst (λ (p : GrantRow × FirmwareStatusRow). (match p.0 ≡ true) × (joins p.0 p.1 ≡ true))
          (some-injective (g', s') (g, s) e) (m, j)

is_completed :
    (state : TransferState) → is_download_completed state ≡ true → state ≡ download_completed
is_completed download_completed h = refl
is_completed _ h = cc

confirmed_sound :
    (o : Option (GrantRow × FirmwareStatusRow)) (g : GrantRow) (s : FirmwareStatusRow)
    → confirmed o ≡ some (g, s)
    → (o ≡ some (g, s)) × (is_truthy g.consumed_at ≡ true) × (s.state ≡ download_completed)
unfolding confirmed
confirmed_sound none g s h = absurd (none-ne-pair g s h)
confirmed_sound (some (g', s')) g s h =
    let (test, e) = if_some (is_truthy g'.consumed_at && is_download_completed s'.state) h in
    let (taken, done) =
      and-eq-true (is_truthy g'.consumed_at) (is_download_completed s'.state) test in
    subst
      (λ (p : GrantRow × FirmwareStatusRow).
        (◌≡◌ {A = Option (GrantRow × FirmwareStatusRow)} (some (g', s')) (some p))
        × (is_truthy p.0.consumed_at ≡ true)
        × (p.1.state ≡ download_completed))
      e (refl, taken, is_completed s'.state done)

confirmable :
    (n grant_random : Text) (g : GrantRow) (s : FirmwareStatusRow)
    → confirm_match n grant_random g ≡ true
    → joins g s ≡ true
    → (g.device_id ≡ n)
      × (g.grant_random ≡ grant_random)
      × (s.device_id ≡ n)
      × (s.firmware_sha256 ≡ g.sha256)
unfolding confirm_match joins
confirmable n grant_random g s m j =
    let (id, random) =
      and-eq-true (text_eq g.device_id n) (text_eq g.grant_random grant_random) m in
    let (same_id, same_sha) =
      and-eq-true (text_eq s.device_id g.device_id) (text_eq s.firmware_sha256 g.sha256) j in
    let e = text_eq→eq g.device_id n id in
    (
      e,
      text_eq→eq g.grant_random grant_random random,
      text_eq→eq s.device_id g.device_id same_id ∙ e,
      text_eq→eq s.firmware_sha256 g.sha256 same_sha,
    )

-- A transfer that `confirm_completed_download_b64` returns is one that HTTPS completed: its grant is of the
-- device and has the random bytes that the frame names, the grant was consumed, and the status of the same
-- device and firmware is DOWNLOAD_COMPLETED.
pub confirm_completed_download_b64_sound :
    (d n random_b64 grant_random : Text) (db : Db) (g : GrantRow) (s : FirmwareStatusRow)
    → normalize_device_id d ≡ some n
    → b64u_decode random_b64 ≡ some grant_random
    → confirm_completed_download_b64 d random_b64 db ≡ some (g, s)
    → (g.device_id ≡ n)
      × (g.grant_random ≡ grant_random)
      × (s.device_id ≡ n)
      × (s.firmware_sha256 ≡ g.sha256)
      × (is_truthy g.consumed_at ≡ true)
      × (s.state ≡ download_completed)
unfolding confirm_completed_download_b64
confirm_completed_download_b64_sound d n random_b64 grant_random db g s normal decoded h =
    let (joined, taken, done) =
      confirmed_sound
        (join_status (confirm_match n grant_random) db.device_firmware_status db.download_grants) g
        s
        (guarded (not (length grant_random == 8)) _
          (rw (normal, confirm_completed_download_b64, decoded) at h)) in
    let (m, j) =
      join_status_sound (confirm_match n grant_random) db.device_firmware_status db.download_grants
        g s joined in
    let (id, random, same_id, same_sha) = confirmable n grant_random g s m j in
    (id, random, same_id, same_sha, taken, done)
  where
    guarded :
        (b : Bool) (o : Option (GrantRow × FirmwareStatusRow))
        → (if b then none else o) ≡ some (g, s)
        → o ≡ some (g, s)
    guarded true o e = cc
    guarded false o e = e
