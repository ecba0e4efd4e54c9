-- ===== src/Base/Text.antt =====
-- strings.HasSuffix, strings.HasPrefix, strings.Contains, strings.TrimSuffix,
-- strings.TrimPrefix and strings.TrimFunc.
use Prim.Native.Char.{Char, code}
use Prim.Native.String.{String, count, ◌++◌ as ◌<>◌}
use mathlib.Core.Path.{◌≡◌, refl, ap}
use mathlib.Core.Logic.{◌≢◌}
use mathlib.Core.Bool.{Bool, true, false, ◌&&◌, ◌||◌}
use native.Mathlib.Omega.{arith}
use text.Mathlib.TextLemmas.{nil-append, cons-append, length-append, length-cons}
use im_manager.Base.Equality.{leb, ◌==◌, string_eq, nat_eq, if◌then◌else◌}

unfoldable pub has_suffix : String → String → Bool
has_suffix String.[] t = String.[] == t
has_suffix (String.◌∷◌ c s) t = String.◌∷◌ c s == t || has_suffix s t

unfoldable pub has_prefix : String → String → Bool
has_prefix s String.[] = true
has_prefix String.[] (String.◌∷◌ d t) = false
has_prefix (String.◌∷◌ c s) (String.◌∷◌ d t) = code c == code d && has_prefix s t

-- strings.Contains
unfoldable pub contains_text : String → String → Bool
contains_text String.[] t = String.[] == t
contains_text (String.◌∷◌ c s) t = has_prefix (String.◌∷◌ c s) t || contains_text s t

unfoldable pub trim_suffix : String → String → String
trim_suffix String.[] t = String.[]
trim_suffix (String.◌∷◌ c s) t =
    let rest = String.◌∷◌ c (trim_suffix s t) in if String.◌∷◌ c s == t then String.[] else rest

-- s[len(t):], or the empty text.
unfoldable pub dropped : String → String → String
dropped s String.[] = s
dropped String.[] (String.◌∷◌ d t) = String.[]
dropped (String.◌∷◌ c s) (String.◌∷◌ d t) = dropped s t

unfoldable pub trim_prefix : String → String → String
trim_prefix s t = if has_prefix s t then dropped s t else s

-- unicode.IsSpace
unfoldable pub is_space : Char → Bool
is_space c =
    (leb 9 (code c) && leb (code c) 13)
    || (code c == 32
        || (code c == 133
            || (code c == 160
                || (code c == 5760
                    || ((leb 8192 (code c) && leb (code c) 8202)
                        || (code c == 8232
                            || (code c == 8233
                                || (code c == 8239 || (code c == 8287 || code c == 12288)))))))))

unfoldable pub trim_left : (Char → Bool) → String → String
trim_left cut String.[] = String.[]
trim_left cut (String.◌∷◌ c s) =
    let rest = trim_left cut s in if cut c then rest else String.◌∷◌ c s

-- A character at the end is left out if nothing is left of what follows it.
unfoldable pub trim_right : (Char → Bool) → String → String
trim_right cut String.[] = String.[]
trim_right cut (String.◌∷◌ c s) =
    let rest = trim_right cut s in
    if cut c && rest == String.[] then String.[] else String.◌∷◌ c rest

-- strings.TrimFunc
unfoldable pub trim : (Char → Bool) → String → String
trim cut s = trim_right cut (trim_left cut s)

has_suffix_self : (t : String) → has_suffix t t ≡ true
unfolding has_suffix
has_suffix_self String.[] = ground arith
has_suffix_self (String.◌∷◌ d t) = ground arith

pub has_suffix-append : (s t : String) → has_suffix (s <> t) t ≡ true
unfolding has_suffix
has_suffix-append String.[] t = rw (nil-append t) (has_suffix_self t)
has_suffix-append (String.◌∷◌ c s) t =
    rw (cons-append c s t) (ground (arith, has_suffix-append s t))

trim_suffix_self : (t : String) → trim_suffix t t ≡ ""
unfolding trim_suffix
trim_suffix_self String.[] = refl
trim_suffix_self (String.◌∷◌ d t) = ground arith

longer : (c : Char) (s t : String) → String.◌∷◌ c (s <> t) ≢ t
longer c s t e = let n = ap count e in omega (arith, n, length-cons c (s <> t), length-append s t)

pub trim_suffix-append : (s t : String) → trim_suffix (s <> t) t ≡ s
unfolding trim_suffix
trim_suffix-append String.[] t = rw (nil-append t) (trim_suffix_self t)
trim_suffix-append (String.◌∷◌ c s) t =
    rw (cons-append c s t) (ground (arith, longer c s t, trim_suffix-append s t))

pub trim_suffix-absent : (s t : String) → has_suffix s t ≡ false → trim_suffix s t ≡ s
unfolding trim_suffix has_suffix
trim_suffix-absent String.[] t h = refl
trim_suffix-absent (String.◌∷◌ c s) t h = ground (arith, trim_suffix-absent s t)
