-- ===== src/Base/Dict.antt =====
-- Go's maps with text keys, as association lists. The order of the list stands for the order in
-- which `range` visits the entries.
use Prim.Native.String.{String}
use mathlib.Core.Path.{◌≡◌, refl}
use mathlib.Core.Bool.{Bool, true, false, ◌||◌}
use mathlib.Core.Option.{Option, none, some}
use mathlib.Core.List.{List, [], ◌∷◌}
use native.Mathlib.Omega.{arith}
use im_manager.Base.Equality.{◌==◌, string_eq, if◌then◌else◌}

abbrev pub Dict {ℓ} : Type ℓ → Type ℓ
Dict V = List (String × V)

module _ {ℓ} {V : Type ℓ} where
  -- v, ok := m[k]
  unfoldable pub get : Dict V → String → Option V
  get [] k = none
  get ((j, v) ∷ m) k = if k == j then some v else get m k

  -- m[k] = v
  unfoldable pub put : Dict V → String → V → Dict V
  put [] k v = (k, v) ∷ []
  put ((j, w) ∷ m) k v = if k == j then (j, v) ∷ m else (j, w) ∷ put m k v

  -- delete(m, k)
  unfoldable pub remove : Dict V → String → Dict V
  remove [] k = []
  remove ((j, w) ∷ m) k = let rest = remove m k in if k == j then rest else (j, w) ∷ rest

  -- _, ok := m[k]
  unfoldable pub has : Dict V → String → Bool
  has [] k = false
  has ((j, v) ∷ m) k = k == j || has m k

  pub get-put :
      (m : Dict V) (k j : String) (v : V) → get (put m k v) j ≡ (if j == k then some v else get m j)
  unfolding get put
  get-put [] k j v = refl
  get-put ((i, w) ∷ m) k j v = ground (arith, get-put m k j v)

  pub has-put : (m : Dict V) (k j : String) (v : V) → has (put m k v) j ≡ (j == k || has m j)
  unfolding has put
  has-put [] k j v = refl
  has-put ((i, w) ∷ m) k j v = ground (arith, has-put m k j v)

  pub get-remove :
      (m : Dict V) (k j : String) → get (remove m k) j ≡ (if j == k then none else get m j)
  unfolding get remove
  get-remove [] k j = ground arith
  get-remove ((i, w) ∷ m) k j = ground (arith, get-remove m k j)

  pub has_iff_get :
      (m : Dict V) (k : String) → has m k ≡ elim (get m k) [ none ↦ false | some _ ↦ true ]
  unfolding has get
  has_iff_get [] k = refl
  has_iff_get ((i, w) ∷ m) k = ground (arith, has_iff_get m k)
