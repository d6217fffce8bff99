-- ===== src/Base/Dict.antt =====
-- A JavaScript `Map` or plain object with string keys. Nothing in the program iterates over one,
-- so the order of its entries is not modelled.
use Prim.Native.String.{String}
use mathlib.Core.Path.{◌≡◌}
use mathlib.Core.Bool.{Bool}
use mathlib.Core.List.{List, [], ◌∷◌}
use mathlib.Core.Option.{Option, none, some}
use native.Mathlib.Omega.{arith}
use surakshanet.Base.Tests.{str_eq, str_eq_iff, str_eq_refl, is_some, if◌then◌else◌}

abbrev pub Dict {ℓ} : Type ℓ → Type ℓ
Dict V = List (String × V)

abbrev pub empty {ℓ} : {V : Type ℓ} → Dict V
empty = []

module _ {ℓ} {V : Type ℓ} where
  -- m.get(k)
  unfoldable pub get : Dict V → String → Option V
  get [] k = none
  get ((j, v) ∷ m) k = if str_eq j k then some v else get m k

  -- m.delete(k)
  unfoldable pub remove : Dict V → String → Dict V
  remove [] k = []
  remove ((j, v) ∷ m) k = let rest = remove m k in if str_eq j k then rest else (j, v) ∷ rest

  -- m.set(k, v)
  unfoldable pub put : Dict V → String → V → Dict V
  put m k v = (k, v) ∷ remove m k

  -- m.has(k)
  abbrev pub has : Dict V → String → Bool
  has m k = is_some (get m k)

  pub get-remove :
      (m : Dict V) (k j : String) → get (remove m k) j ≡ (if str_eq k j then none else get m j)
  unfolding get remove
  get-remove [] k j = ground arith
  get-remove ((i, v) ∷ m) k j =
      ground (arith, get-remove m k j, str_eq_iff i k, str_eq_iff i j, str_eq_iff k j)

  pub get-put :
      (m : Dict V) (k : String) (v : V) (j : String)
      → get (put m k v) j ≡ (if str_eq k j then some v else get m j)
  unfolding get put
  get-put m k v j = ground (arith, get-remove m k j)

  pub get-put_self : (m : Dict V) (k : String) (v : V) → get (put m k v) k ≡ some v
  get-put_self m k v = ground (arith, get-put m k v k, str_eq_refl k)

  pub get-remove_self : (m : Dict V) (k : String) → get (remove m k) k ≡ none
  get-remove_self m k = ground (arith, get-remove m k k, str_eq_refl k)

pub ruleset dict_laws = (get-remove, get-put)
