-- ===== src/Base/Sorting/Laws.antt =====
-- The result of a sort is in order and has the same elements.
use Prim.Native.String.{String}
use mathlib.Core.Path.{◌≡◌, refl}
use mathlib.Core.Bool.{true, false, ◌||◌}
use mathlib.Core.Logic.{inl, inr}
use mathlib.Core.List.{List, [], ◌∷◌, Perm, map}
use mathlib.Core.List.Perm
use native.Mathlib.Omega.{arith}
use im_manager.Base.Equality.{◌==◌, nat_eq, string_eq, Bool-cases}
use im_manager.Base.Logic.{All}
use im_manager.Base.Lists.{contains}
use im_manager.Base.Sorting.{text_leb, insert_by, sort_by}

text_leb_total : (s t : String) → text_leb s t ≡ false → text_leb t s ≡ true
unfolding text_leb
text_leb_total String.[] t h = cc
text_leb_total (String.◌∷◌ c s) String.[] h = refl
text_leb_total (String.◌∷◌ c s) (String.◌∷◌ d t) h = ground (arith, text_leb_total s t)

text_leb_trans : (s t u : String) → text_leb s t ≡ true → text_leb t u ≡ true → text_leb s u ≡ true
unfolding text_leb
text_leb_trans String.[] t u h k = refl
text_leb_trans (String.◌∷◌ c s) String.[] u h k = cc
text_leb_trans (String.◌∷◌ c s) (String.◌∷◌ d t) String.[] h k = cc
text_leb_trans (String.◌∷◌ c s) (String.◌∷◌ d t) (String.◌∷◌ e u) h k =
    ground (arith, text_leb_trans s t u)

module _ {A : Type 0} (key : A → String) where
  -- Each element comes before the later ones.
  abbrev pub IsSorted : List A → Type 0
  IsSorted [] = Unit
  IsSorted (x ∷ xs) = All (λ y. text_leb (key x) (key y) ≡ true) xs × IsSorted xs

  below_trans :
      (x y : A) (xs : List A)
      → text_leb (key x) (key y) ≡ true
      → All (λ z. text_leb (key y) (key z) ≡ true) xs
      → All (λ z. text_leb (key x) (key z) ≡ true) xs
  below_trans x y [] h b = tt
  below_trans x y (z ∷ xs) h b =
      (text_leb_trans (key x) (key y) (key z) h b.0, below_trans x y xs h b.1)

  insert_by-All :
      (P : A → Type 0) (x : A) (xs : List A) → P x → All P xs → All P (insert_by key x xs)
  unfolding insert_by
  insert_by-All P x [] p ps = (p, tt)
  insert_by-All P x (y ∷ ys) p ps = elim (Bool-cases (text_leb (key x) (key y))) [
    | inl first ↦ rw first (p, ps)
    | inr later ↦ rw later (ps.0, insert_by-All P x ys p ps.1)
  ]

  pub sort_by-All : (P : A → Type 0) (xs : List A) → All P xs → All P (sort_by key xs)
  unfolding sort_by
  sort_by-All P [] ps = tt
  sort_by-All P (x ∷ xs) ps = insert_by-All P x (sort_by key xs) ps.0 (sort_by-All P xs ps.1)

  insert_by-IsSorted : (x : A) (xs : List A) → IsSorted xs → IsSorted (insert_by key x xs)
  unfolding insert_by
  insert_by-IsSorted x [] s = (tt, tt)
  insert_by-IsSorted x (y ∷ ys) s = elim (Bool-cases (text_leb (key x) (key y))) [
    | inl first ↦ rw first ((first, below_trans x y ys first s.0), s)
    | inr later ↦ rw later (
      insert_by-All (λ z. text_leb (key y) (key z) ≡ true) x ys
          (text_leb_total (key x) (key y) later) s.0,
      insert_by-IsSorted x ys s.1,
    )
  ]

  pub sort_by-IsSorted : (xs : List A) → IsSorted (sort_by key xs)
  unfolding sort_by
  sort_by-IsSorted [] = tt
  sort_by-IsSorted (x ∷ xs) = insert_by-IsSorted x (sort_by key xs) (sort_by-IsSorted xs)

  insert_by-perm : (x : A) (xs : List A) → Perm (insert_by key x xs) (x ∷ xs)
  unfolding insert_by
  insert_by-perm x [] = Perm.rfl
  insert_by-perm x (y ∷ ys) = elim (Bool-cases (text_leb (key x) (key y))) [
    | inl first ↦ rw first Perm.rfl
    | inr later ↦ rw later (Perm.trans (Perm.cons y (insert_by-perm x ys)) (Perm.swap x y ys))
  ]

  pub sort_by-perm : (xs : List A) → Perm (sort_by key xs) xs
  unfolding sort_by
  sort_by-perm [] = Perm.rfl
  sort_by-perm (x ∷ xs) =
      Perm.trans (insert_by-perm x (sort_by key xs)) (Perm.cons x (sort_by-perm xs))

  insert_by-contains :
      (x : A) (xs : List A) (k : String)
      → contains (map key (insert_by key x xs)) k ≡ (k == key x || contains (map key xs) k)
  unfolding insert_by contains
  insert_by-contains x [] k = refl
  insert_by-contains x (y ∷ ys) k = ground (arith, insert_by-contains x ys k)

  -- A sort keeps the keys.
  pub sort_by-contains :
      (xs : List A) (k : String) → contains (map key (sort_by key xs)) k ≡ contains (map key xs) k
  unfolding sort_by contains
  sort_by-contains [] k = refl
  sort_by-contains (x ∷ xs) k =
      ground (arith, insert_by-contains x (sort_by key xs) k, sort_by-contains xs k)
