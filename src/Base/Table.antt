-- ===== src/Base/Table.antt =====
-- Database tables as lists of rows, and the statements that the program sends: the first row that
-- matches, an update with its count of matched rows, a deletion.
use Prim.Native.Nat.{ℕ, suc, ◌≤◌}
use mathlib.Core.Path.{◌≡◌, refl, subst}
use mathlib.Core.Bool.{Bool, true, false, ◌&&◌}
use mathlib.Core.Option.{Option, none, some, some-injective}
use mathlib.Core.List.{List, [], ◌∷◌}
use native.Mathlib.Omega.{arith}
use ota_server.Base.Conditions.{if◌then◌else◌}

module _ {A : Type 0} where
  -- SELECT … WHERE p LIMIT 1
  unfoldable pub find_first : (A → Bool) → List A → Option A
  find_first p [] = none
  find_first p (a ∷ t) = let rest = find_first p t in if p a then some a else rest

  -- UPDATE … SET f WHERE p
  unfoldable pub update_where : (A → Bool) → (A → A) → List A → List A
  update_where p f [] = []
  update_where p f (a ∷ t) = (if p a then f a else a) ∷ update_where p f t

  -- The row count of a statement: how many rows match.
  unfoldable pub count_where : (A → Bool) → List A → ℕ
  count_where p [] = 0
  count_where p (a ∷ t) = let rest = count_where p t in if p a then suc rest else rest

  -- DELETE FROM … WHERE p
  unfoldable pub delete_where : (A → Bool) → List A → List A
  delete_where p [] = []
  delete_where p (a ∷ t) = let rest = delete_where p t in if p a then rest else a ∷ rest

  -- SELECT … WHERE p
  unfoldable pub select_where : (A → Bool) → List A → List A
  select_where p [] = []
  select_where p (a ∷ t) = let rest = select_where p t in if p a then a ∷ rest else rest

  -- Every row has the property.
  abbrev pub Every : (A → Type 0) → List A → Type 0
  Every P [] = Unit {0}
  Every P (a ∷ t) = P a × Every P t

  pub find_first_sound : (p : A → Bool) (t : List A) (a : A) → find_first p t ≡ some a → p a ≡ true
  unfolding find_first
  find_first_sound p [] a h = cc
  find_first_sound p (b ∷ t) a h = ground (arith, find_first_sound p t a, same_row)
    where
      same_row : b ≡ a → p b ≡ p a
      same_row e = λ i. p (e i)

  either_row :
      (P : A → Type 0) (test : Bool) (here found : A) (rest : Option A)
      → P here
      → (rest ≡ some found → P found)
      → (if test then some here else rest) ≡ some found
      → P found
  either_row P true here found rest h k e = subst P (some-injective here found e) h
  either_row P false here found rest h k e = k e

  pub find_first-Every :
      (P : A → Type 0) (p : A → Bool) (t : List A) (a : A)
      → Every P t
      → find_first p t ≡ some a
      → P a
  unfolding find_first
  find_first-Every P p [] a every h = cc
  find_first-Every P p (b ∷ t) a (here, rest) h =
      either_row P (p b) b a (find_first p t) here (find_first-Every P p t a rest) h

  pub count-zero_of_none : (p : A → Bool) (t : List A) → find_first p t ≡ none → count_where p t ≡ 0
  unfolding find_first count_where
  count-zero_of_none p [] h = refl
  count-zero_of_none p (a ∷ t) h = ground (arith, count-zero_of_none p t)

  pub count-pos_of_some :
      (p : A → Bool) (t : List A) (a : A) → find_first p t ≡ some a → 1 ≤ count_where p t
  unfolding find_first count_where
  count-pos_of_some p [] a h = cc
  count-pos_of_some p (b ∷ t) a h = ground (arith, count-pos_of_some p t a)

  -- An update that keeps what a search tests leaves the search with the updated row.
  pub find_first-update :
      (p q : A → Bool) (f : A → A) (t : List A)
      → ((a : A) → p (f a) ≡ p a)
      → find_first p (update_where q f t)
        ≡ elim (find_first p t) [ none ↦ none | some a ↦ some (if q a then f a else a) ]
  unfolding find_first update_where
  find_first-update p q f [] keep = refl
  find_first-update p q f (a ∷ t) keep = ground (arith, keep a, find_first-update p q f t keep)

  pub Every-update :
      {P : A → Type 0} (q : A → Bool) (f : A → A) (t : List A)
      → ((a : A) → P a → q a ≡ true → P (f a))
      → Every P t
      → Every P (update_where q f t)
  unfolding update_where
  Every-update q f [] step h = tt
  Every-update {P} q f (a ∷ t) step (here, rest) = (go (q a) refl, Every-update q f t step rest)
    where
      go : (b : Bool) → q a ≡ b → P (if b then f a else a)
      go true e = step a here e
      go false e = here

module _ {A : Type 0} where
  count-guarded_none :
      (p q : A → Bool) (t : List A) → count_where p t ≡ 0 → count_where (λ a. p a && q a) t ≡ 0
  unfolding count_where
  count-guarded_none p q [] h = refl
  count-guarded_none p q (a ∷ t) h = ground (arith, count-guarded_none p q t)

  -- Where at most one row has the key, the row count of a guarded statement is that of its row.
  pub count-guarded :
      (p q : A → Bool) (t : List A)
      → count_where p t ≤ 1
      → count_where (λ a. p a && q a) t
        ≡ elim (find_first p t) [ none ↦ 0 | some a ↦ if q a then 1 else 0 ]
  unfolding count_where find_first
  count-guarded p q [] h = refl
  count-guarded p q (a ∷ t) h = ground (arith, count-guarded p q t, count-guarded_none p q t)

  pub count-update :
      (p q : A → Bool) (f : A → A) (t : List A)
      → ((a : A) → p (f a) ≡ p a)
      → count_where p (update_where q f t) ≡ count_where p t
  unfolding count_where update_where
  count-update p q f [] keep = refl
  count-update p q f (a ∷ t) keep = ground (arith, keep a, count-update p q f t keep)

  -- An update that matches no row changes nothing.
  pub update-none :
      (p : A → Bool) (f : A → A) (t : List A) → count_where p t ≡ 0 → update_where p f t ≡ t
  unfolding count_where update_where
  update-none p f [] h = refl
  update-none p f (a ∷ t) h = ground (arith, update-none p f t)

module _ {A : Type 0} where
  -- A search that no row of an updated table answers.
  pub none_after_update :
      (p q : A → Bool) (f : A → A) (t : List A)
      → ((a : A) → q (if p a then f a else a) ≡ false)
      → (find_first q (update_where p f t) ≡ none) × (count_where q (update_where p f t) ≡ 0)
  unfolding find_first update_where count_where
  none_after_update p q f [] no_row = (refl, refl)
  none_after_update p q f (a ∷ t) no_row =
      ground (arith, no_row a, none_after_update p q f t no_row)

  -- A narrower search finds nothing either.
  pub find_first-none_of_imp :
      (p q : A → Bool) (t : List A)
      → ((a : A) → q a ≡ true → p a ≡ true)
      → find_first p t ≡ none
      → (find_first q t ≡ none) × (count_where q t ≡ 0)
  unfolding find_first count_where
  find_first-none_of_imp p q [] imp h = (refl, refl)
  find_first-none_of_imp p q (a ∷ t) imp h = ground (arith, imp a, find_first-none_of_imp p q t imp)
