-- ===== src/Base/Parting.antt =====
-- A list in two parts, as a filter leaves it.
use mathlib.Core.List.{List, [], ◌∷◌, ◌++◌, Perm, perm_middle}
use mathlib.Core.List.Perm
use im_manager.Base.Logic.{All}

module _ {A : Type 0} (P Q : A → Type 0) where
  -- The elements of the second list are those of the first that have `P`, as often as they occur there:
  -- all others have `Q`.
  abbrev pub IsPart : List A → List A → Type 0
  IsPart xs kept = (rest : List A) × Perm xs (kept ++ rest) × All P kept × All Q rest

  pub IsPart-nil : IsPart [] []
  IsPart-nil = ([], Perm.rfl, tt, tt)

  pub IsPart-keep : (x : A) (xs kept : List A) → P x → IsPart xs kept → IsPart (x ∷ xs) (x ∷ kept)
  IsPart-keep x xs kept p (rest, same, ps, qs) = (rest, Perm.cons x same, (p, ps), qs)

  pub IsPart-drop : (x : A) (xs kept : List A) → Q x → IsPart xs kept → IsPart (x ∷ xs) kept
  IsPart-drop x xs kept q (rest, same, ps, qs) =
      (x ∷ rest, Perm.trans (Perm.cons x same) (Perm.symm (perm_middle kept rest)), ps, (q, qs))

  pub IsPart-perm :
      (xs kept kept' : List A) → Perm kept kept' → All P kept' → IsPart xs kept → IsPart xs kept'
  IsPart-perm xs kept kept' moved ps' (rest, same, ps, qs) =
      (rest, Perm.trans same (Perm.append_right rest moved), ps', qs)
