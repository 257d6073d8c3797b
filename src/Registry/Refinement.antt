-- ===== src/Registry/Refinement.antt =====
-- The HELLO counters of the table as one register for each device, which `accept_hello_counter` of
-- device_registry.py implements.
use ota_server.Base.{
  ℕ, zero, suc, ◌≡◌, refl, ap, sym, ◌∙◌, Text, pos, Option, none, some, Bool, false, ◌&&◌, ltb,
  text_eq, text_eq→eq, eq→text_eq, if◌then◌else◌, arith, Bool-cases, inl, inr,
}
use ota_server.Base.Result.{ok}
use ota_server.Db.{Db, CertRow}
use ota_server.Ident.{normalize_device_id}
use ota_server.Registry.{find_cert, hello_set, update_hello, accept_hello_counter}
use ota_server.Registry.Counters.{
  HasUniqueIds, is_fresh_hello, update_hello-accepted, find_cert-update_hello_self,
  find_cert-update_hello_ne,
}
use ota_server.Registry.Calls.{accept_by_id, zero_refused}

-- The register of each registered device.
abbrev pub Registers : Type 0
Registers = Text → Option ℕ

-- A device may move its register to a larger counter only.
unfoldable pub moves : ℕ → Option ℕ → Bool
moves counter none = false
moves counter (some last) = ltb last counter

unfoldable pub move : Text → ℕ → Registers → Registers
unfolding moves
move n counter registers m =
    if text_eq n m && moves counter (registers n) then some counter else registers m

-- What the table says of the registers.
unfoldable pub counter_of : Option CertRow → Option ℕ
counter_of none = none
counter_of (some row) = some row.last_hello_counter

unfoldable pub registers_of : Db → Registers
unfolding counter_of
registers_of db n = counter_of (find_cert n db)

moves-fresh :
    (counter : ℕ) (row : Option CertRow)
    → moves counter (counter_of row) ≡ is_fresh_hello counter row
unfolding moves counter_of
moves-fresh counter none = refl
moves-fresh counter (some row) = refl

own_register :
    (now counter : ℕ) (row : Option CertRow)
    → counter_of (elim row [
      | none ↦ none
      | some r ↦ some (if ltb r.last_hello_counter counter then hello_set now counter r else r)
    ])
      ≡ (if moves counter (counter_of row) then some counter else counter_of row)
unfolding moves counter_of hello_set
own_register now counter none = refl
own_register now counter (some row) = ground arith

-- The statement with a counter above 0 moves the registers as the specification says.
update_hello-move :
    (now : ℕ) (n : Text) (c : ℕ) (db : Db) (m : Text)
    → registers_of (update_hello now n (pos (suc c)) db).1 m ≡ move n (suc c) (registers_of db) m
unfolding registers_of move
update_hello-move now n c db m = elim (Bool-cases (text_eq n m)) [
  | inl same ↦
      let e = text_eq→eq n m same in
      rw same (
        ap (λ k. counter_of (find_cert k (update_hello now n (pos (suc c)) db).1)) (sym e)
        ∙ ap counter_of (find_cert-update_hello_self now n (suc c) db (omega arith))
        ∙ own_register now (suc c) (find_cert n db)
        ∙ ap
            (λ k.
              if moves (suc c) (counter_of (find_cert n db))
              then some (suc c)
              else counter_of (find_cert k db))
            e)
  | inr differs ↦ rw differs (
      ap counter_of (
        find_cert-update_hello_ne now n m (suc c) db (omega arith)
          (λ e. cc (differs, eq→text_eq n m e))))
]

zero_moves : (last : Option ℕ) → moves 0 last ≡ false
unfolding moves
zero_moves none = refl
zero_moves (some last) = ground arith

zero_move : (n : Text) (registers : Registers) (m : Text) → move n 0 registers m ≡ registers m
unfolding move
zero_move n registers m = elim (Bool-cases (text_eq n m)) [
  | inl same ↦ rw (same, zero_moves (registers n))
  | inr differs ↦ rw differs
]

-- `accept_hello_counter` implements one register for each registered device that moves up only: a call
-- for a valid identity answers whether the register of that device may move to the counter, and afterwards
-- the table holds the registers of the specification, for every device. `device_id` is unique in the table.
pub accept_hello_counter-move :
    (now : ℕ) (d n : Text) (counter : ℕ) (db : Db)
    → HasUniqueIds db
    → normalize_device_id d ≡ some n
    → ((accept_hello_counter now d (pos counter) db).0 ≡ ok (moves counter (registers_of db n)))
      × ((m : Text)
          → registers_of (accept_hello_counter now d (pos counter) db).1 m
            ≡ move n counter (registers_of db) m)
unfolding registers_of
accept_hello_counter-move now d n zero db unique e =
    let call = accept_by_id now d n (pos 0) db e ∙ (rw (zero_refused now n db)) in
    rw call (
      ap ok (sym (zero_moves (counter_of (find_cert n db)))),
      λ m. sym (zero_move n (registers_of db) m),
    )
accept_hello_counter-move now d n (suc c) db unique e =
    rw (accept_by_id now d n (pos (suc c)) db e) (
      ap ok (
          update_hello-accepted now n (suc c) db unique (omega arith)
          ∙ sym (moves-fresh (suc c) (find_cert n db))),
      λ m. update_hello-move now n c db m,
    )
