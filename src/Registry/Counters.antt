-- ===== src/Registry/Counters.antt =====
-- The HELLO counter in the table: acceptance, replays, and the rows that an accepted counter leaves alone.
use ota_server.Base.{
  ℕ, ◌≤◌, ◌≡◌, refl, ◌≢◌, ◌∙◌, Text, ℤ, pos, negsuc, Option, none, some, Bool, true, false, ltb,
  if◌then◌else◌, count_where, arith, count-guarded, count-update, find_first-update, update-none,
  text_eq_iff, Option-cases, inl, inr, find_first_sound,
}
use ota_server.Db.{Db, CertRow}
use ota_server.Registry.{has_id, find_cert, hello_match, hello_set, update_hello}

-- `device_id` is a primary key.
abbrev pub HasUniqueIds : Db → Type 0
HasUniqueIds db = (n : Text) → count_where (has_id n) db.device_certificates ≤ 1

-- What the table says of a hello counter: it is accepted for a registered device whose last
-- counter is smaller.
abbrev pub is_fresh_hello : ℕ → Option CertRow → Bool
is_fresh_hello counter none = false
is_fresh_hello counter (some row) = ltb row.last_hello_counter counter

abbrev pub last_hello : Option CertRow → ℕ
last_hello none = 0
last_hello (some row) = row.last_hello_counter

count-hello_match :
    (db : Db) (n : Text) (counter : ℕ)
    → HasUniqueIds db
    → count_where (hello_match n counter) db.device_certificates
      ≡ (if is_fresh_hello counter (find_cert n db) then 1 else 0)
unfolding hello_match find_cert
count-hello_match db n counter unique = ground (
  arith,
  count-guarded (has_id n) (λ row. ltb row.last_hello_counter counter) db.device_certificates
      (unique n),
)

pub update_hello-accepted :
    (now : ℕ) (n : Text) (counter : ℕ) (db : Db)
    → HasUniqueIds db
    → 1 ≤ counter
    → (update_hello now n (pos counter) db).0 ≡ is_fresh_hello counter (find_cert n db)
unfolding update_hello
update_hello-accepted now n counter db unique h =
    ground (arith, count-hello_match db n counter unique)

-- The row of each device after the statement.
pub find_cert-update_hello :
    (now : ℕ) (n m : Text) (counter : ℕ) (db : Db)
    → 1 ≤ counter
    → find_cert m (update_hello now n (pos counter) db).1 ≡ elim (find_cert m db) [
      | none ↦ none
      | some row ↦ some (if hello_match n counter row then hello_set now counter row else row)
    ]
unfolding update_hello find_cert has_id
find_cert-update_hello now n m counter db h = ground (
  arith,
  find_first-update (has_id m) (hello_match n counter) (hello_set now counter)
      db.device_certificates (λ row. refl),
)

pub update_hello-HasUniqueIds :
    (now : ℕ) (n : Text) (counter : ℤ) (db : Db)
    → HasUniqueIds db
    → HasUniqueIds (update_hello now n counter db).1
unfolding update_hello has_id
update_hello-HasUniqueIds now n (negsuc _) db unique m = unique m
update_hello-HasUniqueIds now n (pos counter) db unique m = ground (
  arith,
  unique m,
  count-update (has_id m) (hello_match n counter) (hello_set now counter) db.device_certificates
      (λ row. refl),
)

-- A refused counter leaves the database as it is.
pub update_hello-refused :
    (now : ℕ) (n : Text) (counter : ℕ) (db : Db)
    → HasUniqueIds db
    → is_fresh_hello counter (find_cert n db) ≡ false
    → update_hello now n (pos counter) db ≡ (false, db)
unfolding update_hello
update_hello-refused now n counter db unique stale = ground (
  arith,
  count-hello_match db n counter unique,
  update-none (hello_match n counter) (hello_set now counter) db.device_certificates,
)

has_id-find_cert :
    (n : Text) (db : Db) (row : CertRow) → find_cert n db ≡ some row → has_id n row ≡ true
unfolding find_cert
has_id-find_cert n db row h = find_first_sound (has_id n) db.device_certificates row h

other_id : (n m : Text) (row : CertRow) → n ≢ m → has_id m row ≡ true → has_id n row ≡ false
unfolding has_id
other_id n m row ne h = ground (arith, text_eq_iff row.device_id n, text_eq_iff row.device_id m)

-- The row of the device itself.
pub find_cert-update_hello_self :
    (now : ℕ) (n : Text) (counter : ℕ) (db : Db)
    → 1 ≤ counter
    → find_cert n (update_hello now n (pos counter) db).1 ≡ elim (find_cert n db) [
      | none ↦ none
      | some row ↦
          some (if ltb row.last_hello_counter counter then hello_set now counter row else row)
    ]
unfolding hello_match
find_cert-update_hello_self now n counter db h = elim (Option-cases (find_cert n db)) [
  | inl missing ↦ find_cert-update_hello now n n counter db h ∙ (rw missing)
  | inr (row, found) ↦
      find_cert-update_hello now n n counter db h ∙ (rw (found, has_id-find_cert n db row found))
]

-- The rows of the other devices.
pub find_cert-update_hello_ne :
    (now : ℕ) (n m : Text) (counter : ℕ) (db : Db)
    → 1 ≤ counter
    → n ≢ m
    → find_cert m (update_hello now n (pos counter) db).1 ≡ find_cert m db
unfolding hello_match
find_cert-update_hello_ne now n m counter db h ne = elim (Option-cases (find_cert m db)) [
  | inl missing ↦ find_cert-update_hello now n m counter db h ∙ (rw missing)
  | inr (row, found) ↦ find_cert-update_hello now n m counter db h ∙ (rw (found, other row found))
]
  where
    other : (row : CertRow) → find_cert m db ≡ some row → has_id n row ≡ false
    other row found = other_id n m row ne (has_id-find_cert m db row found)

-- After a counter was accepted, no counter up to it is accepted from the device again.
pub stale_after :
    (now : ℕ) (n : Text) (counter counter' : ℕ) (db : Db)
    → 1 ≤ counter
    → is_fresh_hello counter (find_cert n db) ≡ true
    → counter' ≤ counter
    → is_fresh_hello counter' (find_cert n (update_hello now n (pos counter) db).1) ≡ false
unfolding hello_set
stale_after now n counter counter' db h fresh le =
    rw (find_cert-update_hello_self now n counter db h) (elim (Option-cases (find_cert n db)) [
      | inl missing ↦ rw missing
      | inr (row, found) ↦ rw found (ground (arith, found))
    ])
