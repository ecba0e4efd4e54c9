-- ===== src/Base/Decimal.antt =====
-- `%d`, strconv.ParseUint, ParseInt and FormatInt, at base ten.
pub mod Laws
use Prim.Native.Char.{code}
use Prim.Native.Nat.{ℕ, zero, suc, ◌<◌, ◌+◌, ◌-◌, ◌*◌, ◌/◌, ◌%◌, ◌^◌}
use mathlib.Core.Path.{◌≡◌, refl}
use native.Mathlib.Omega.{arith}
use mathlib.Core.Bool.{Bool, true, false, ◌&&◌}
use mathlib.Core.Option.{Option, none, some}
use Prim.Native.String.{String, ◌++◌ as ◌<>◌}
use im_manager.Base.Equality.{ltb, leb, if◌then◌else◌, ◌==◌, nat_eq}

pub digit : ℕ → String
digit zero = "0"
digit (suc zero) = "1"
digit (suc (suc zero)) = "2"
digit (suc (suc (suc zero))) = "3"
digit (suc (suc (suc (suc zero)))) = "4"
digit (suc (suc (suc (suc (suc zero))))) = "5"
digit (suc (suc (suc (suc (suc (suc zero)))))) = "6"
digit (suc (suc (suc (suc (suc (suc (suc zero))))))) = "7"
digit (suc (suc (suc (suc (suc (suc (suc (suc zero)))))))) = "8"
digit _ = "9"

-- One round for each digit: `n + 1` rounds are more than `n` has digits.
pub digits : ℕ → ℕ → String
digits zero n = ""
digits (suc f) n =
    let more = digits f (n / 10) <> digit (n % 10) in if ltb n 10 then digit n else more

unfoldable pub decimal : ℕ → String
unfolding digits digit
decimal n = digits (suc n) n

-- The value of a text of digits, read after digits of the value `n`.
pub read_digits : ℕ → String → Option ℕ
read_digits n String.[] = some n
read_digits n (String.◌∷◌ c s) =
    let rest = read_digits (n * 10 + (code c - 48)) s in
    if leb 48 (code c) && leb (code c) 57 then rest else none

pub in_range : Option ℕ → Option ℕ
in_range none = none
in_range (some n) = if ltb n (2 ^ 64) then some n else none

in_range-lt : (o : Option ℕ) (n : ℕ) → in_range o ≡ some n → n < 2 ^ 64
unfolding in_range
in_range-lt none n e = cc
in_range-lt (some m) n e = ground arith

-- strconv.ParseUint(s, 10, 64): `none` for an error.
unfoldable pub parse_uint : String → Option ℕ
unfolding in_range read_digits
parse_uint String.[] = none
parse_uint (String.◌∷◌ c s) = in_range (read_digits 0 (String.◌∷◌ c s))

parse_42 : parse_uint "042" ≡ some 42
unfolding parse_uint
parse_42 = refl

pub parse_uint-range : (s : String) (n : ℕ) → parse_uint s ≡ some n → n < 2 ^ 64
unfolding parse_uint
parse_uint-range String.[] n e = cc
parse_uint-range (String.◌∷◌ c s) n e = in_range-lt (read_digits 0 (String.◌∷◌ c s)) n e

-- The magnitude after the sign, as a number modulo 2 ^ 64.
pub signed : Bool → Option ℕ → Option ℕ
signed negative none = none
signed true (some n) = if leb n (2 ^ 63) then some ((2 ^ 64 - n) % 2 ^ 64) else none
signed false (some n) = if ltb n (2 ^ 63) then some n else none

-- strconv.ParseInt(s, 10, 64), modulo 2 ^ 64: `none` for an error.
unfoldable pub parse_int : String → Option ℕ
unfolding signed parse_uint
parse_int String.[] = none
parse_int (String.◌∷◌ c s) =
    if code c == 45
    then signed true (parse_uint s)
    else if code c == 43
    then signed false (parse_uint s)
    else signed false (parse_uint (String.◌∷◌ c s))

-- strconv.FormatInt of a number that is kept modulo 2 ^ 64.
unfoldable pub format_int : ℕ → String
unfolding decimal
format_int n = if ltb n (2 ^ 63) then decimal n else "-" <> decimal (2 ^ 64 - n)
