-- ===== src/Errdef.antt =====
-- internal/errdef/errdef.go: errors with a class, and Go's result pairs.
-- An error carries its class and the text of its format string, without the arguments.
use im_manager.Base.{
  ◌≡◌, refl, String, ◌<>◌, ◌⊎◌, inl, inr, Bool, true, false, List, [], ◌∷◌, if◌then◌else◌,
}

-- The wrapper types of errdef.go; `plain` is any other error. `panic` stands for a run-time panic,
-- which is no error value: it passes through whatever handles errors.
pub data Kind : Type 0 where
  plain forbidden bad_request duplicated unauthorized not_found conflict service_unavailable panic :
      Kind

pub record Error : Type 0 where
  pub kind : Kind
  pub message : String

-- `(_, err)` and `(value, nil)`
pub data Result {ℓ} (A : Type ℓ) : Type ℓ where
  err : Error → Result A
  ok : A → Result A

-- `if err != nil { return err }`, and the code after it.
infixl 5 ◌>>=◌
abbrev pub ◌>>=◌ {κ ℓ} : {B : Type κ} {A : Type ℓ} → Result B → (B → Result A) → Result A
(err failure) >>= continue = err failure
(ok value) >>= continue = continue value

infixl 5 ◌>>◌
abbrev pub ◌>>◌ {ℓ} : {A : Type ℓ} → Result (Unit {0}) → Result A → Result A
checked >> rest = checked >>= (λ _. rest)

-- errors.New, fmt.Errorf
abbrev pub errorf : String → Error
errorf m = record { kind = plain; message = m }

abbrev pub new_forbidden : String → Error
new_forbidden m = record { kind = forbidden; message = m }

abbrev pub new_bad_request : String → Error
new_bad_request m = record { kind = bad_request; message = m }

abbrev pub new_duplicated : String → Error
new_duplicated m = record { kind = duplicated; message = m }

abbrev pub new_unauthorized : String → Error
new_unauthorized m = record { kind = unauthorized; message = m }

abbrev pub new_not_found : String → Error
new_not_found m = record { kind = not_found; message = m }

abbrev pub new_conflict : String → Error
new_conflict m = record { kind = conflict; message = m }

abbrev pub new_service_unavailable : String → Error
new_service_unavailable m = record { kind = service_unavailable; message = m }

abbrev pub is_forbidden : Error → Bool
is_forbidden e = elim e.kind [ forbidden ↦ true | _ ↦ false ]

abbrev pub is_bad_request : Error → Bool
is_bad_request e = elim e.kind [ bad_request ↦ true | _ ↦ false ]

abbrev pub is_duplicated : Error → Bool
is_duplicated e = elim e.kind [ duplicated ↦ true | _ ↦ false ]

abbrev pub is_unauthorized : Error → Bool
is_unauthorized e = elim e.kind [ unauthorized ↦ true | _ ↦ false ]

abbrev pub is_not_found : Error → Bool
is_not_found e = elim e.kind [ not_found ↦ true | _ ↦ false ]

abbrev pub is_conflict : Error → Bool
is_conflict e = elim e.kind [ conflict ↦ true | _ ↦ false ]

abbrev pub is_service_unavailable : Error → Bool
is_service_unavailable e = elim e.kind [ service_unavailable ↦ true | _ ↦ false ]

-- `fmt.Errorf("…: %w", err)` keeps the class of the error that it wraps.
abbrev pub wrap : String → Error → Error
wrap m e = record { kind = e.kind; message = m <> e.message }

-- The dereference of a nil pointer.
abbrev pub nil_pointer : Error
nil_pointer = record { kind = panic; message = "invalid memory address or nil pointer dereference" }

abbrev pub is_panic : Error → Bool
is_panic e = elim e.kind [ panic ↦ true | _ ↦ false ]

-- `if err != nil { return g(err) }`
abbrev pub on_error {ℓ} : {A : Type ℓ} → Result A → (Error → Error) → Result A
on_error (ok a) g = ok a
on_error (err e) g = err (if is_panic e then e else g e)

joined_text : List Error → String
joined_text [] = ""
joined_text (e ∷ []) = e.message
joined_text (e ∷ es) = e.message <> ("\n" <> joined_text es)

-- errors.Join over the plain errors that the program joins: nil if there is none.
unfoldable pub join_errors : List Error → Result (Unit {0})
unfolding joined_text
join_errors [] = ok tt
join_errors (e ∷ es) = err (errorf (joined_text (e ∷ es)))

pub join_errors-eq-ok : (es : List Error) → join_errors es ≡ ok tt → es ≡ []
unfolding join_errors
join_errors-eq-ok [] h = refl
join_errors-eq-ok (e ∷ es) h = cc

pub ok-injective {ℓ} : {A : Type ℓ} {a b : A} → ok a ≡ ok b → a ≡ b
ok-injective h = cc

pub err-injective {ℓ} : {A : Type ℓ} {x y : Error} → ◌≡◌ {A = Result A} (err x) (err y) → x ≡ y
err-injective h = cc

-- Code that goes on after a step and succeeds has a step that succeeded.
pub >>=-eq-ok {κ ℓ} :
    {B : Type κ} {A : Type ℓ} {last : A} (step : Result B) (rest : B → Result A)
    → step >>= rest ≡ ok last
    → (value : B) × (step ≡ ok value) × (rest value ≡ ok last)
>>=-eq-ok (err failure) rest e = cc
>>=-eq-ok (ok value) rest e = (value, refl, e)

pub Result-cases {ℓ} :
    {A : Type ℓ} (r : Result A) → ((a : A) × (r ≡ ok a)) ⊎ ((e : Error) × (r ≡ err e))
Result-cases (ok a) = inl (a, refl)
Result-cases (err e) = inr (e, refl)
