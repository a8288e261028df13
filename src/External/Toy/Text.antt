-- ===== src/External/Toy/Text.antt =====
-- A text from its scalar values, for the content types of the concrete `Cose`.
use Prim.Native.Nat.{Ordering, compare}
use Prim.Native.Char.{char, IsLt, IsScalar}
use soverign_founder_os.Base.{ℕ, ◌≡◌, refl, ap, ◌∙◌, String, Option, some, none, [], ◌∷◌}
use soverign_founder_os.Base.Text.{Bytes, codes}

-- The three comparisons of `IsScalar`, named.
abbrev BothLt : Ordering → Ordering → Type 0
BothLt Ordering.lt o = IsLt o
BothLt Ordering.eq _ = ⊥
BothLt Ordering.gt _ = ⊥

abbrev Scalar : Ordering → Ordering → Ordering → Type 0
Scalar Ordering.lt _ _ = Unit
Scalar Ordering.eq o p = BothLt o p
Scalar Ordering.gt o p = BothLt o p

abbrev is_lt : (o : Ordering) → Option (IsLt o)
is_lt Ordering.lt = some tt
is_lt Ordering.eq = none
is_lt Ordering.gt = none

abbrev both : (o p : Ordering) → Option (BothLt o p)
both Ordering.lt p = is_lt p
both Ordering.eq p = none
both Ordering.gt p = none

abbrev is_scalar : (o p q : Ordering) → Option (Scalar o p q)
is_scalar Ordering.lt p q = some tt
is_scalar Ordering.eq p q = both p q
is_scalar Ordering.gt p q = both p q

is_lt-some : (o : Ordering) (x : IsLt o) → is_lt o ≡ some x
is_lt-some Ordering.lt x = refl
is_lt-some Ordering.eq x = absurd x
is_lt-some Ordering.gt x = absurd x

both-some : (o p : Ordering) (x : BothLt o p) → both o p ≡ some x
both-some Ordering.lt p x = is_lt-some p x
both-some Ordering.eq p x = absurd x
both-some Ordering.gt p x = absurd x

is_scalar-some : (o p q : Ordering) (x : Scalar o p q) → is_scalar o p q ≡ some x
is_scalar-some Ordering.lt p q x = refl
is_scalar-some Ordering.eq p q x = both-some p q x
is_scalar-some Ordering.gt p q x = both-some p q x

abbrev prepend : (n : ℕ) → Option (IsScalar n) → String → String
prepend n none rest = rest
prepend n (some p) rest = String.◌∷◌ (char n p) rest

abbrev scalar_of : (n : ℕ) → Option (IsScalar n)
scalar_of n = is_scalar (compare n 55296) (compare 57343 n) (compare n 1114112)

abbrev pub of_codes : Bytes → String
of_codes [] = ""
of_codes (n ∷ b) = prepend n (scalar_of n) (of_codes b)

pub of_codes-codes : (s : String) → of_codes (codes s) ≡ s
of_codes-codes String.[] = refl
of_codes-codes (String.◌∷◌ (char n p) s) =
    ap (λ (o : Option (IsScalar n)). prepend n o (of_codes (codes s)))
      (is_scalar-some (compare n 55296) (compare 57343 n) (compare n 1114112) p)
    ∙ ap (String.◌∷◌ (char n p)) (of_codes-codes s)
