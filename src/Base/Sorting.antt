-- ===== src/Base/Sorting.antt =====
-- cmp.Compare on texts, and slices.SortFunc, which leaves open the order of elements that compare
-- alike: here they keep the order that they had.
pub mod Laws
use Prim.Native.Char.{Char, code}
use Prim.Native.String.{String}
use mathlib.Core.Bool.{Bool, true, false, ◌&&◌, ◌||◌}
use mathlib.Core.List.{List, [], ◌∷◌}
use im_manager.Base.Equality.{◌==◌, nat_eq, ltb, if◌then◌else◌}

-- a <= b, by code points, which is the order of the bytes.
unfoldable pub text_leb : String → String → Bool
text_leb String.[] t = true
text_leb (String.◌∷◌ c s) String.[] = false
text_leb (String.◌∷◌ c s) (String.◌∷◌ d t) =
    ltb (code c) (code d) || (code c == code d && text_leb s t)

module _ {ℓ} {A : Type ℓ} (key : A → String) where
  pub insert_by : A → List A → List A
  insert_by x [] = x ∷ []
  insert_by x (y ∷ ys) =
      let rest = insert_by x ys in if text_leb (key x) (key y) then x ∷ y ∷ ys else y ∷ rest

  unfoldable pub sort_by : List A → List A
  unfolding insert_by
  sort_by [] = []
  sort_by (x ∷ xs) = insert_by x (sort_by xs)
