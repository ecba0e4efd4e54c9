-- ===== src/Base/Decimal/Laws.antt =====
-- Reading back what was printed.
use Prim.Native.Char.{code}
use Prim.Native.Nat.{ℕ, zero, suc, ◌<◌, ◌+◌, ◌-◌, ◌*◌, ◌/◌, ◌%◌, ◌^◌}
use Prim.Native.String.{String, ◌++◌ as ◌<>◌}
use mathlib.Core.Path.{◌≡◌, refl, ◌∙◌, ap}
use mathlib.Core.Logic.{◌≢◌, inl, inr}
use mathlib.Core.Bool.{Bool, true, false}
use mathlib.Core.Option.{Option, none, some}
use native.Mathlib.Omega.{arith}
use text.Mathlib.TextLemmas.{nil-append, cons-append}
use im_manager.Base.Equality.{ltb, Bool-cases, nat_eq}
use im_manager.Base.Decimal.{
  digit, digits, decimal, read_digits, in_range, parse_uint, signed, parse_int, format_int,
}

abbrev then_digit : ℕ → Option ℕ → Option ℕ
then_digit d none = none
then_digit d (some m) = some (m * 10 + d)

read_digits-digit : (a d : ℕ) → d < 10 → read_digits a (digit d) ≡ some (a * 10 + d)
unfolding read_digits digit
read_digits-digit a zero h = ap some (omega arith)
read_digits-digit a (suc zero) h = ap some (omega arith)
read_digits-digit a (suc (suc zero)) h = ap some (omega arith)
read_digits-digit a (suc (suc (suc zero))) h = ap some (omega arith)
read_digits-digit a (suc (suc (suc (suc zero)))) h = ap some (omega arith)
read_digits-digit a (suc (suc (suc (suc (suc zero))))) h = ap some (omega arith)
read_digits-digit a (suc (suc (suc (suc (suc (suc zero)))))) h = ap some (omega arith)
read_digits-digit a (suc (suc (suc (suc (suc (suc (suc zero))))))) h = ap some (omega arith)
read_digits-digit a (suc (suc (suc (suc (suc (suc (suc (suc zero)))))))) h = ap some (omega arith)
read_digits-digit a (suc (suc (suc (suc (suc (suc (suc (suc (suc zero))))))))) h =
    ap some (omega arith)
read_digits-digit a (suc (suc (suc (suc (suc (suc (suc (suc (suc (suc n)))))))))) h =
    absurd (omega arith)

read_digits-append :
    (s : String) (a d : ℕ) → d < 10 → read_digits a (s <> digit d) ≡ then_digit d (read_digits a s)
unfolding read_digits
read_digits-append String.[] a d h = rw (nil-append (digit d)) (read_digits-digit a d h)
read_digits-append (String.◌∷◌ c s) a d h =
    rw (cons-append c s (digit d))
      (ground (arith, read_digits-append s (a * 10 + (code c - 48)) d h))

read_digits-digits : (f n : ℕ) → n < f → read_digits 0 (digits f n) ≡ some n
unfolding digits
read_digits-digits zero n h = absurd (omega arith)
read_digits-digits (suc f) n h = elim (Bool-cases (ltb n 10)) [
  | inl small ↦ rw small (read_digits-digit 0 n (ground arith) ∙ ap some (omega arith))
  | inr large ↦ rw large (
      read_digits-append (digits f (n / 10)) 0 (n % 10) (omega arith)
      ∙ ap (then_digit (n % 10)) (read_digits-digits f (n / 10) (ground arith))
      ∙ ap some (omega arith))
]

nonempty : String → Bool
nonempty String.[] = false
nonempty (String.◌∷◌ c s) = true

nonempty-digit : (d : ℕ) → nonempty (digit d) ≡ true
unfolding nonempty digit
nonempty-digit zero = refl
nonempty-digit (suc zero) = refl
nonempty-digit (suc (suc zero)) = refl
nonempty-digit (suc (suc (suc zero))) = refl
nonempty-digit (suc (suc (suc (suc zero)))) = refl
nonempty-digit (suc (suc (suc (suc (suc zero))))) = refl
nonempty-digit (suc (suc (suc (suc (suc (suc zero)))))) = refl
nonempty-digit (suc (suc (suc (suc (suc (suc (suc zero))))))) = refl
nonempty-digit (suc (suc (suc (suc (suc (suc (suc (suc zero)))))))) = refl
nonempty-digit (suc (suc (suc (suc (suc (suc (suc (suc (suc zero))))))))) = refl
nonempty-digit (suc (suc (suc (suc (suc (suc (suc (suc (suc (suc n)))))))))) = refl

nonempty-append : (s t : String) → nonempty t ≡ true → nonempty (s <> t) ≡ true
unfolding nonempty
nonempty-append String.[] t h = rw (nil-append t) h
nonempty-append (String.◌∷◌ c s) t h = rw (cons-append c s t) refl

nonempty-digits : (f n : ℕ) → nonempty (digits (suc f) n) ≡ true
unfolding digits
nonempty-digits f n = elim (Bool-cases (ltb n 10)) [
  | inl small ↦ rw small (nonempty-digit n)
  | inr large ↦
      rw large (nonempty-append (digits f (n / 10)) (digit (n % 10)) (nonempty-digit (n % 10)))
]

parse_uint-of_digits :
    (s : String) (n : ℕ)
    → nonempty s ≡ true
    → read_digits 0 s ≡ some n
    → n < 2 ^ 64
    → parse_uint s ≡ some n
unfolding parse_uint nonempty in_range
parse_uint-of_digits String.[] n h e small = cc
parse_uint-of_digits (String.◌∷◌ c s) n h e small = rw e (ground arith)

parse_int-of_digits :
    (s : String) (n : ℕ)
    → nonempty s ≡ true
    → read_digits 0 s ≡ some n
    → n < 2 ^ 63
    → parse_int s ≡ some n
unfolding parse_int nonempty signed
parse_int-of_digits String.[] n h e small = cc
parse_int-of_digits (String.◌∷◌ c s) n h e small =
    rw (parse_uint-of_digits (String.◌∷◌ c s) n h e (omega arith)) (ground arith)

-- `strconv.ParseUint` reads back what `%d` prints, for a number of 64 bits.
pub parse_uint-decimal : (n : ℕ) → n < 2 ^ 64 → parse_uint (decimal n) ≡ some n
unfolding decimal
parse_uint-decimal n small =
    parse_uint-of_digits (digits (suc n) n) n (nonempty-digits n n)
      (read_digits-digits (suc n) n (omega arith)) small

-- `strconv.ParseInt` reads back what `strconv.FormatInt` prints, for a number that is not negative.
pub parse_int-format_int : (n : ℕ) → n < 2 ^ 63 → parse_int (format_int n) ≡ some n
unfolding format_int decimal
parse_int-format_int n small =
    let printed : format_int n ≡ decimal n = ground arith in
    rw printed (
      parse_int-of_digits (digits (suc n) n) n (nonempty-digits n n)
        (read_digits-digits (suc n) n (omega arith)) small)

pub format_int-nonempty : (n : ℕ) → n < 2 ^ 63 → format_int n ≢ ""
unfolding format_int decimal nonempty
format_int-nonempty n small e =
    let printed : format_int n ≡ decimal n = ground arith in cc (nonempty-digits n n, printed, e)
