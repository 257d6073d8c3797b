-- ===== src/Base/Result.antt =====
-- A Python call that returns a value or raises, with the exceptions of one component as `E`.
use mathlib.Core.Path.{◌≡◌, refl}
use mathlib.Core.Logic.{◌⊎◌, inl, inr}
use mathlib.Core.Bool.{Bool, true, false}
use mathlib.Core.Option.{Option, none, some}

pub data Result (E A : Type 0) : Type 0 where
  err : E → Result E A
  ok : A → Result E A

module _ {E : Type 0} where
  -- `if bad: raise e`
  abbrev pub raise_if : Bool → E → Result E (Unit {0})
  raise_if bad e = elim bad [ true ↦ err e | false ↦ ok tt ]

  -- A lookup that raises `e` where it finds nothing.
  abbrev pub or_raise : {A : Type 0} → Option A → E → Result E A
  or_raise (some found) e = ok found
  or_raise none e = err e

  infixl 5 ◌>>=◌ ◌>>◌
  -- An exception skips what follows.
  abbrev pub ◌>>=◌ : {A B : Type 0} → Result E A → (A → Result E B) → Result E B
  err raised >>= next = err raised
  ok value >>= next = next value

  abbrev pub ◌>>◌ : {B : Type 0} → Result E (Unit {0}) → Result E B → Result E B
  check >> next = check >>= λ nothing. next

  pub >>=-eq-ok :
      {A B : Type 0} (call : Result E A) (next : A → Result E B) {last : B}
      → (call >>= next) ≡ ok last
      → (value : A) × (call ≡ ok value) × (next value ≡ ok last)
  >>=-eq-ok (err raised) next returned = cc
  >>=-eq-ok (ok value) next returned = (value, refl, returned)

  pub ok-injective : {A : Type 0} (x y : A) → ◌≡◌ {A = Result E A} (ok x) (ok y) → x ≡ y
  ok-injective x y same = cc

  pub raise_if-ok : (bad : Bool) (e : E) → raise_if bad e ≡ ok tt → bad ≡ false
  raise_if-ok false e passed = refl
  raise_if-ok true e passed = cc

  pub or_raise-ok :
      {A : Type 0} (lookup : Option A) (e : E) {found : A}
      → or_raise lookup e ≡ ok found
      → lookup ≡ some found
  or_raise-ok (some x) e returned = cc
  or_raise-ok none e returned = cc

  pub Result-cases :
      {A : Type 0} (call : Result E A)
      → ((value : A) × (call ≡ ok value)) ⊎ ((raised : E) × (call ≡ err raised))
  Result-cases (err raised) = inr (raised, refl)
  Result-cases (ok value) = inl (value, refl)

  -- A call that returned passed the check in front of it.
  pub raise_if->>-eq-ok :
      {B : Type 0} (bad : Bool) (e : E) (rest : Result E B) {last : B}
      → (raise_if bad e >> rest) ≡ ok last
      → (bad ≡ false) × (rest ≡ ok last)
  raise_if->>-eq-ok false e rest returned = (refl, returned)
  raise_if->>-eq-ok true e rest returned = cc

  -- A call that returned found what it looked up in front.
  pub or_raise->>=-eq-ok :
      {A B : Type 0} (lookup : Option A) (e : E) (next : A → Result E B) {last : B}
      → (or_raise lookup e >>= next) ≡ ok last
      → (found : A) × (lookup ≡ some found) × (next found ≡ ok last)
  or_raise->>=-eq-ok (some found) e next returned = (found, refl, returned)
  or_raise->>=-eq-ok none e next returned = cc
