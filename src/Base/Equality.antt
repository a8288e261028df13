-- ===== src/Base/Equality.antt =====
-- `PartialEq` as an interface: a test that decides equality, and checks that stop at a difference.
use Prim.Native.Nat.{ℕ}
use Prim.Native.String.{String}
use mathlib.Core.Path.{◌≡◌, refl, ap}
use mathlib.Core.Logic.{◌≢◌, ◌↔◌}
use mathlib.Core.Bool.{Bool, true, false, not, ◌&&◌, false≢true}
use mathlib.Core.Option.{Option, none, some}
use mathlib.Core.List.{List, [], ◌∷◌}
use native.Mathlib.Omega.{arith}
use text.Mathlib.Text.{◌==◌ as str_eq}
use text.Mathlib.TextEquality.{eq_iff}
use soverign_founder_os.Base.Tests.{nat_beq, nat_beq_iff}
use soverign_founder_os.Base.Results.{Result, ok, reject}

pub record Eq {ℓ} (A : Type ℓ) : Type ℓ where
  pub beq : (x y : A) → Bool
  pub beq_iff : (x y : A) → (beq x y ≡ true) ↔ (x ≡ y)

infix 50 ◌==◌ ◌!=◌
abbrev pub ◌==◌ {ℓ} : {A : Type ℓ} ⦃e : Eq A⦄ (x y : A) → Bool
◌==◌ ⦃e⦄ x y = e.beq x y

abbrev pub ◌!=◌ {ℓ} : {A : Type ℓ} ⦃e : Eq A⦄ → A → A → Bool
a != b = not (a == b)

instance abbrev pub string_eq : Eq String
string_eq = record { beq_iff = eq_iff; beq = str_eq }

instance abbrev pub nat_eq : Eq ℕ
nat_eq = record { beq_iff = nat_beq_iff; beq = nat_beq }

-- A derived `PartialEq`, from a decision procedure.
abbrev pub dec_beq {ℓ} : {A : Type ℓ} → Discrete A → A → A → Bool
dec_beq d a b = elim (d a b) [ yes _ ↦ true | no _ ↦ false ]

pub dec_beq_iff {ℓ} : {A : Type ℓ} (d : Discrete A) (a b : A) → (dec_beq d a b ≡ true) ↔ (a ≡ b)
dec_beq_iff d a b = from (d a b)
  where
    from : (t : Dec (a ≡ b)) → (elim t [ yes _ ↦ true | no _ ↦ false ] ≡ true) ↔ (a ≡ b)
    from (yes p) = (λ _. p, λ _. refl)
    from (no n) = (λ h. cc, λ p. absurd (n p))

abbrev pub derived_eq {ℓ} : {A : Type ℓ} → Discrete A → Eq A
derived_eq d = record { beq = dec_beq d; beq_iff = dec_beq_iff d }

unfoldable pub String_discrete : Discrete String
String_discrete s t = from (str_eq s t) (eq_iff s t)
  where
    from : (b : Bool) → (b ≡ true) ↔ (s ≡ t) → Dec (s ≡ t)
    from true e = yes (e.0 refl)
    from false e = no (λ p. false≢true (e.1 p))

module _ {ℓ} {A : Type ℓ} ⦃e : Eq A⦄ where
  pub ==-refl : (a : A) → (a == a) ≡ true
  ==-refl a = (e.beq_iff a a).1 refl

  pub ==-eq : {a b : A} → (a == b) ≡ true → a ≡ b
  ==-eq {a} {b} h = (e.beq_iff a b).0 h

  pub !=-refl : (a : A) → (a != a) ≡ false
  !=-refl a = ap not (==-refl a)

  pub !=-false : {a b : A} → (a != b) ≡ false → a ≡ b
  !=-false {a} {b} h = ==-eq (ground arith)

  pub ne→== : {a b : A} → a ≢ b → (a == b) ≡ false
  ne→== {a} {b} h = ground (arith, e.beq_iff a b)

  -- the slices and vectors of an equality type
  abbrev pub list_beq : List A → List A → Bool
  list_beq [] [] = true
  list_beq (x ∷ xs) (y ∷ ys) = (x == y) && list_beq xs ys
  list_beq _ _ = false

  pub list_beq_iff : (xs ys : List A) → (list_beq xs ys ≡ true) ↔ (xs ≡ ys)
  list_beq_iff [] [] = ground arith
  list_beq_iff [] (y ∷ ys) = ground arith
  list_beq_iff (x ∷ xs) [] = ground arith
  list_beq_iff (x ∷ xs) (y ∷ ys) = ground (arith, e.beq_iff x y, list_beq_iff xs ys)

  abbrev pub option_beq : Option A → Option A → Bool
  option_beq none none = true
  option_beq (some x) (some y) = x == y
  option_beq _ _ = false

  pub option_beq_iff : (x y : Option A) → (option_beq x y ≡ true) ↔ (x ≡ y)
  option_beq_iff none none = ground arith
  option_beq_iff none (some y) = ground arith
  option_beq_iff (some x) none = ground arith
  option_beq_iff (some x) (some y) = ground (arith, e.beq_iff x y)

instance abbrev pub list_eq {ℓ} : {A : Type ℓ} ⦃e : Eq A⦄ → Eq (List A)
list_eq ⦃e⦄ = record { beq = list_beq; beq_iff = list_beq_iff }

instance abbrev pub option_eq {ℓ} : {A : Type ℓ} ⦃e : Eq A⦄ → Eq (Option A)
option_eq ⦃e⦄ = record { beq = option_beq; beq_iff = option_beq_iff }

-- Inversion of a chain of checks, one check at a time.
-- `if a != b { return Err(f); }`
abbrev pub require_eq {ℓ κ} : {A : Type ℓ} ⦃e : Eq A⦄ {F : Type κ} → A → A → F → Result F (Unit {0})
require_eq a b f = reject (a != b) f

module _ {ℓ κ} {A : Type ℓ} ⦃e : Eq A⦄ {F : Type κ} where
  pub require_eq-ok : {a b : A} (f : F) {u : Unit} → require_eq a b f ≡ ok u → a ≡ b
  require_eq-ok {a} {b} f h = ground (arith, e.beq_iff a b)

  pub require_eq_refl : (a : A) (f : F) → require_eq a a f ≡ ok tt
  require_eq_refl a f = ground (arith, e.beq_iff a a)

pub reject-ok {ℓ} : {F : Type ℓ} (t : Bool) (f : F) {u : Unit} → reject t f ≡ ok u → t ≡ false
reject-ok t f h = ground arith
