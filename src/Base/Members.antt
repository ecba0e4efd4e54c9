-- ===== src/Base/Members.antt =====
-- The tests of `Lists` and the library's propositions.
use mathlib.Core.Path.{◌≡◌, sym, ◌∙◌}
use mathlib.Core.Logic.{∥∥₁_elim}
use mathlib.Core.Bool.{true, false≢true, Bool-set}
use mathlib.Core.List.{
  List, [], ◌∷◌, Mem, Memᴰ, Nodup, Perm, Nodup-cons, Nodup-nil, perm_ext_iff_of_Nodup,
  mem-cons_of_mem,
}
use native.Mathlib.Omega.{arith}
use im_manager.Base.Equality.{Eq}
use im_manager.Base.Lists.{contains, Distinct}

module _ {ℓ} {A : Type ℓ} ⦃e : Eq A⦄ where
  pub mem_of_contains : (xs : List A) (a : A) → contains xs a ≡ true → Mem a xs
  unfolding contains
  mem_of_contains [] a h = cc
  mem_of_contains (x ∷ xs) a h = elim (e.dec a x) [
    | yes p ↦ ∣ Memᴰ.head p ∣₁
    | no n ↦ mem-cons_of_mem x (mem_of_contains xs a (ground arith))
  ]

  contains_of_Memᴰ : (xs : List A) (a : A) → Memᴰ a xs → contains xs a ≡ true
  unfolding contains
  contains_of_Memᴰ [] a m = elim m [ ]
  contains_of_Memᴰ (x ∷ xs) a (Memᴰ.head p) = ground arith
  contains_of_Memᴰ (x ∷ xs) a (Memᴰ.tail m) = ground (arith, contains_of_Memᴰ xs a m)

  pub contains_of_mem : (xs : List A) (a : A) → Mem a xs → contains xs a ≡ true
  contains_of_mem xs a m = ∥∥₁_elim m (Bool-set _ _) (contains_of_Memᴰ xs a)

  Distinct-Nodup : (xs : List A) → Distinct xs → Nodup xs
  Distinct-Nodup [] d = Nodup-nil
  Distinct-Nodup (x ∷ xs) d =
      Nodup-cons.1 ((λ m. false≢true (sym d.0 ∙ contains_of_mem xs x m)), Distinct-Nodup xs d.1)

  -- Lists of distinct elements with the same members are permutations of one another.
  pub perm_of_Distinct :
      (xs ys : List A)
      → Distinct xs
      → Distinct ys
      → ((a : A) → contains xs a ≡ contains ys a)
      → Perm xs ys
  perm_of_Distinct xs ys p q h =
      (perm_ext_iff_of_Nodup (Distinct-Nodup xs p) (Distinct-Nodup ys q)).1 λ a. (
        λ m. mem_of_contains ys a (sym (h a) ∙ contains_of_mem xs a m),
        λ m. mem_of_contains xs a (h a ∙ contains_of_mem ys a m),
      )
