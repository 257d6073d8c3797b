-- ===== src/Registry/Calls.antt =====
-- Single calls of `accept_hello_counter` of device_registry.py.
use ota_server.Base.{
  ℕ, zero, suc, ◌<◌, ◌≡◌, ◌≢◌, refl, Text, ℤ, pos, negsuc, Option, none, some, List, [], ◌∷◌, Bool,
  true, false, ◌&&◌, arith, Option-cases, Bool-cases, inl, inr, text_eq, text_eq→eq, eq→text_eq,
  if◌then◌else◌, ◌∙◌, ap, subst,
}
use ota_server.Base.Result.{Result, ok, err}
use ota_server.Db.{Db, CertRow}
use ota_server.Ident.{normalize_device_id}
use ota_server.Registry
use ota_server.Registry.{Error, find_cert, hello_set, update_hello, accept_hello_counter}
use ota_server.Registry.Counters.{
  HasUniqueIds, is_fresh_hello, last_hello, update_hello-accepted, update_hello-HasUniqueIds,
  update_hello-refused, find_cert-update_hello_self, find_cert-update_hello_ne,
}

pub accept_by_id :
    (now : ℕ) (d n : Text) (counter : ℤ) (db : Db)
    → normalize_device_id d ≡ some n
    → accept_hello_counter now d counter db
      ≡ (ok (update_hello now n counter db).0, (update_hello now n counter db).1)
unfolding accept_hello_counter
accept_by_id now d n counter db e = rw (e, accept_hello_counter)

bad_id_refused :
    (now : ℕ) (d : Text) (counter : ℤ) (db : Db)
    → normalize_device_id d ≡ none
    → accept_hello_counter now d counter db ≡ (err Registry.bad_device_id, db)
unfolding accept_hello_counter
bad_id_refused now d counter db e = rw (e, accept_hello_counter)

negative_refused :
    (now : ℕ) (n : Text) (c : ℕ) (db : Db) → update_hello now n (negsuc c) db ≡ (false, db)
unfolding update_hello
negative_refused now n c db = refl

pub zero_refused : (now : ℕ) (n : Text) (db : Db) → update_hello now n (pos 0) db ≡ (false, db)
unfolding update_hello
zero_refused now n db = refl

-- A call of `accept_hello_counter`.
pub record HelloCall : Type 0 where
  pub now : ℕ
  pub device_id : Text
  pub counter : ℤ

abbrev pub is_for : Text → Option Text → Bool
is_for n none = false
is_for n (some m) = text_eq m n

abbrev pub is_ok_true : Result Error Bool → Bool
is_ok_true (ok b) = b
is_ok_true (err _) = false

abbrev pub magnitude : ℤ → ℕ
magnitude (pos c) = c
magnitude (negsuc c) = 0

abbrev pub accepts : Text → HelloCall → Db → Bool
accepts n call db =
    is_for n (normalize_device_id call.device_id)
    && is_ok_true (accept_hello_counter call.now call.device_id call.counter db).0

-- The counters that a sequence of calls accepts for the device `n`, in order.
unfoldable pub accepted_hellos : Text → List HelloCall → Db → List ℕ
accepted_hellos n [] db = []
accepted_hellos n (call ∷ calls) db =
    let rest =
      accepted_hellos n calls (accept_hello_counter call.now call.device_id call.counter db).1 in
    if accepts n call db then magnitude call.counter ∷ rest else rest

-- Each number is above the one before it, and the first above `low`.
abbrev pub IsIncreasingFrom : ℕ → List ℕ → Type 0
IsIncreasingFrom low [] = Unit {0}
IsIncreasingFrom low (c ∷ cs) = (low < c) × IsIncreasingFrom c cs

-- One call, seen from the row of the device `n`.
pub record CallStep (n : Text) (call : HelloCall) (db : Db) : Type 0 where
  pub unique : HasUniqueIds (accept_hello_counter call.now call.device_id call.counter db).1
  pub taken :
      accepts n call db ≡ true
      → (last_hello (find_cert n db) < magnitude call.counter)
        × (last_hello (find_cert n (accept_hello_counter call.now call.device_id call.counter db).1)
            ≡ magnitude call.counter)
  pub kept :
      accepts n call db ≡ false
      → last_hello (find_cert n (accept_hello_counter call.now call.device_id call.counter db).1)
        ≡ last_hello (find_cert n db)

not_taken : (a b : Bool) → (a && b) ≡ true → b ≡ false → ⊥
not_taken a b h e = ground arith

call_refused :
    (n : Text) (call : HelloCall) (db : Db)
    → HasUniqueIds db
    → (accept_hello_counter call.now call.device_id call.counter db).1 ≡ db
    → is_ok_true (accept_hello_counter call.now call.device_id call.counter db).0 ≡ false
    → CallStep n call db
call_refused n call db unique same refused = record {
  unique = rw same unique;
  taken = λ h. absurd (not_taken _ _ h refused);
  kept = λ h. rw same;
}

fresh→lt : (c : ℕ) (row : Option CertRow) → is_fresh_hello c row ≡ true → last_hello row < c
fresh→lt c none h = cc
fresh→lt c (some row) h = ground arith

last_hello-accepted :
    (now : ℕ) (n : Text) (c : ℕ) (db : Db)
    → is_fresh_hello (suc c) (find_cert n db) ≡ true
    → last_hello (find_cert n (update_hello now n (pos (suc c)) db).1) ≡ suc c
unfolding hello_set
last_hello-accepted now n c db fresh =
    rw (find_cert-update_hello_self now n (suc c) db (omega arith))
      (elim (Option-cases (find_cert n db)) [
        | inl missing ↦ absurd (cc (fresh, ap (is_fresh_hello (suc c)) missing))
        | inr (row, found) ↦ rw found (ground (arith, ap (is_fresh_hello (suc c)) found))
      ])

after_call :
    (m : Text) (call : HelloCall) (c : ℕ) (db : Db)
    → call.counter ≡ pos (suc c)
    → normalize_device_id call.device_id ≡ some m
    → (accept_hello_counter call.now call.device_id call.counter db).1
      ≡ (update_hello call.now m (pos (suc c)) db).1
after_call m call c db counter_eq id_eq = rw counter_eq (
    ap (λ (r : Result Error Bool × Db). r.1)
      (accept_by_id call.now call.device_id m (pos (suc c)) db id_eq))

result_of_call :
    (m : Text) (call : HelloCall) (c : ℕ) (db : Db)
    → call.counter ≡ pos (suc c)
    → normalize_device_id call.device_id ≡ some m
    → is_ok_true (accept_hello_counter call.now call.device_id call.counter db).0
      ≡ (update_hello call.now m (pos (suc c)) db).0
result_of_call m call c db counter_eq id_eq = rw counter_eq (
    ap (λ (r : Result Error Bool × Db). is_ok_true r.0)
      (accept_by_id call.now call.device_id m (pos (suc c)) db id_eq))

-- A fresh counter of the device itself.
call_own :
    (n : Text) (call : HelloCall) (c : ℕ) (db : Db)
    → HasUniqueIds db
    → call.counter ≡ pos (suc c)
    → normalize_device_id call.device_id ≡ some n
    → is_fresh_hello (suc c) (find_cert n db) ≡ true
    → CallStep n call db
call_own n call c db unique counter_eq id_eq fresh = record {
  unique =
      rw (after_call n call c db counter_eq id_eq)
        (update_hello-HasUniqueIds call.now n (pos (suc c)) db unique);
  taken = λ h. (
    rw counter_eq (fresh→lt (suc c) (find_cert n db) fresh),
    rw (after_call n call c db counter_eq id_eq, counter_eq)
        (last_hello-accepted call.now n c db fresh),
  );
  kept = λ h. absurd (
      own_taken (is_for n (normalize_device_id call.device_id)) _ (rw id_eq (eq→text_eq n n refl))
        (result_of_call n call c db counter_eq id_eq
          ∙ update_hello-accepted call.now n (suc c) db unique (omega arith)
          ∙ fresh)
        h);
}
  where
    own_taken : (a b : Bool) → a ≡ true → b ≡ true → (a && b) ≡ false → ⊥
    own_taken a b p q r = ground arith

-- A fresh counter of another device.
call_other :
    (n m : Text) (call : HelloCall) (c : ℕ) (db : Db)
    → HasUniqueIds db
    → call.counter ≡ pos (suc c)
    → normalize_device_id call.device_id ≡ some m
    → m ≢ n
    → CallStep n call db
call_other n m call c db unique counter_eq id_eq ne = record {
  unique =
      rw (after_call m call c db counter_eq id_eq)
        (update_hello-HasUniqueIds call.now m (pos (suc c)) db unique);
  taken = λ h. absurd (ne (text_eq→eq m n (ground (arith, ap (is_for n) id_eq, h))));
  kept = λ h.
      rw (after_call m call c db counter_eq id_eq)
        (ap last_hello (find_cert-update_hello_ne call.now m n (suc c) db (omega arith) ne));
}

-- A call whose statement is refused.
call_no_update :
    (n m : Text) (call : HelloCall) (db : Db)
    → HasUniqueIds db
    → normalize_device_id call.device_id ≡ some m
    → update_hello call.now m call.counter db ≡ (false, db)
    → CallStep n call db
call_no_update n m call db unique id_eq refused =
    let whole : accept_hello_counter call.now call.device_id call.counter db ≡ (ok false, db) =
      accept_by_id call.now call.device_id m call.counter db id_eq ∙ rw refused in
    call_refused n call db unique (ap (λ (r : Result Error Bool × Db). r.1) whole)
      (ap (λ (r : Result Error Bool × Db). is_ok_true r.0) whole)

call_positive :
    (n m : Text) (call : HelloCall) (c : ℕ) (db : Db)
    → HasUniqueIds db
    → call.counter ≡ pos (suc c)
    → normalize_device_id call.device_id ≡ some m
    → CallStep n call db
call_positive n m call c db unique counter_eq id_eq =
    elim (Bool-cases (is_fresh_hello (suc c) (find_cert m db))) [
      | inr stale ↦
          call_no_update n m call db unique id_eq
            (rw counter_eq (update_hello-refused call.now m (suc c) db unique stale))
      | inl fresh ↦ elim (Bool-cases (text_eq m n)) [
        | inl same ↦
            let e = text_eq→eq m n same in
            call_own n call c db unique counter_eq (rw e at id_eq)
              (subst (λ k. is_fresh_hello (suc c) (find_cert k db) ≡ true) e fresh)
        | inr differs ↦
            call_other n m call c db unique counter_eq id_eq (λ e. cc (differs, eq→text_eq m n e))
      ]
    ]

call_by_counter :
    (n m : Text) (call : HelloCall) (db : Db) (counter : ℤ)
    → HasUniqueIds db
    → call.counter ≡ counter
    → normalize_device_id call.device_id ≡ some m
    → CallStep n call db
call_by_counter n m call db (negsuc c) unique counter_eq id_eq =
    call_no_update n m call db unique id_eq (rw counter_eq (negative_refused call.now m c db))
call_by_counter n m call db (pos zero) unique counter_eq id_eq =
    call_no_update n m call db unique id_eq (rw counter_eq (zero_refused call.now m db))
call_by_counter n m call db (pos (suc c)) unique counter_eq id_eq =
    call_positive n m call c db unique counter_eq id_eq

pub call_step : (n : Text) (call : HelloCall) (db : Db) → HasUniqueIds db → CallStep n call db
call_step n call db unique = elim (Option-cases (normalize_device_id call.device_id)) [
  | inl bad ↦
      let whole = bad_id_refused call.now call.device_id call.counter db bad in
      call_refused n call db unique (ap (λ (r : Result Error Bool × Db). r.1) whole)
        (ap (λ (r : Result Error Bool × Db). is_ok_true r.0) whole)
  | inr (m, id_eq) ↦ call_by_counter n m call db call.counter unique refl id_eq
]
