-- ===== src/Maintenance/Registered.antt =====
-- The registered devices under `clear_maintenance_target` of server_mysql.py.
use ota_server.Base.{
  ◌≡◌, ap, sym, ◌∙◌, Text, some, List, [], ◌∷◌, Bool, false, find_first, delete_where, Option-cases,
  Bool-cases, inl, inr,
}
use mathlib.Core.Option.{some-injective}
use ota_server.Db.{CertRow}
use ota_server.Registry.{has_id, find_cert}
use ota_server.Maintenance.{
  Tables, Target, activity, artifacts, provisioning, firmware, esp, images, tests, target_of,
  is_test_cert, clear_by_ids, clear_by_names, clear_test_data, clear_target,
  clear_maintenance_target,
}

find_first-delete :
    (p q : CertRow → Bool) (rows : List CertRow) (row : CertRow)
    → find_first p rows ≡ some row
    → q row ≡ false
    → find_first p (delete_where q rows) ≡ some row
unfolding find_first delete_where
find_first-delete p q [] row h stays = cc
find_first-delete p q (first ∷ rows) row h stays = elim (Bool-cases (p first)) [
  | inl found ↦
      let same = some-injective first row (rw found at h) in
      rw (ap q same ∙ stays, found) (ap some same)
  | inr other ↦
      let rest = find_first-delete p q rows row (rw other at h) stays in
      elim (Bool-cases (q first)) [ inl gone ↦ rw gone rest | inr kept ↦ rw (kept, other) rest ]
]

clear_target-find_cert :
    (target : Target) (n : Text) (row : CertRow) (t : Tables)
    → find_cert n t.db ≡ some row
    → is_test_cert row ≡ false
    → find_cert n (clear_target target t).db ≡ some row
unfolding clear_target find_cert clear_test_data clear_by_names clear_by_ids
clear_target-find_cert tests n row t found real =
    find_first-delete (has_id n) is_test_cert t.db.device_certificates row found real
clear_target-find_cert activity n row t found real = found
clear_target-find_cert artifacts n row t found real = found
clear_target-find_cert provisioning n row t found real = found
clear_target-find_cert firmware n row t found real = found
clear_target-find_cert esp n row t found real = found
clear_target-find_cert images n row t found real = found

-- Whatever target is cleared, the row of a registered device that is no test device stays as it is, with
-- its counters and its provisioning context.
pub clear_maintenance_target-find_cert :
    (value n : Text) (row : CertRow) (t t' : Tables)
    → clear_maintenance_target value t ≡ some t'
    → find_cert n t.db ≡ some row
    → is_test_cert row ≡ false
    → find_cert n t'.db ≡ some row
unfolding clear_maintenance_target
clear_maintenance_target-find_cert value n row t t' cleared found real =
    elim (Option-cases (target_of value)) [
      | inl unknown ↦ absurd (cc (rw (unknown, clear_maintenance_target) at cleared))
      | inr (target, known) ↦
          ap (λ (k : Tables). find_cert n k.db)
            (sym (
              some-injective (clear_target target t) t'
                (rw (known, clear_maintenance_target) at cleared)))
          ∙ clear_target-find_cert target n row t found real
    ]
