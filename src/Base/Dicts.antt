-- ===== src/Base/Dicts.antt =====
-- A Python dict keyed by texts. The program does not depend on the order of the entries.
use mathlib.Core.Path.{◌≡◌}
use mathlib.Core.Option.{Option, none, some}
use mathlib.Core.List.{List, [], ◌∷◌}
use native.Mathlib.Omega.{arith}
use ota_server.Base.Conditions.{if◌then◌else◌}
use ota_server.Base.Lists.{Text, text_eq, text_eq_iff}

abbrev pub Dict : Type 0 → Type 0
Dict V = List (Text × V)

module _ {V : Type 0} where
  -- d.get(k)
  unfoldable pub get : Text → Dict V → Option V
  get k [] = none
  get k ((j, v) ∷ d) = let rest = get k d in if text_eq j k then some v else rest

  -- d.pop(k, None)
  unfoldable pub remove_key : Text → Dict V → Dict V
  remove_key k [] = []
  remove_key k ((j, v) ∷ d) =
      let rest = remove_key k d in if text_eq j k then rest else (j, v) ∷ rest

  -- d[k] = v
  unfoldable pub put : Text → V → Dict V → Dict V
  unfolding remove_key
  put k v d = (k, v) ∷ remove_key k d

  pub get-remove_key :
      (k j : Text) (d : Dict V) → get j (remove_key k d) ≡ (if text_eq k j then none else get j d)
  unfolding get remove_key
  get-remove_key k j [] = ground arith
  get-remove_key k j ((i, v) ∷ d) =
      ground (arith, get-remove_key k j d, text_eq_iff i k, text_eq_iff i j, text_eq_iff k j)

  pub get-put :
      (k j : Text) (v : V) (d : Dict V)
      → get j (put k v d) ≡ (if text_eq k j then some v else get j d)
  unfolding put get
  get-put k j v d = ground (arith, get-remove_key k j d)

pub ruleset dict_laws = (get-remove_key, get-put)
