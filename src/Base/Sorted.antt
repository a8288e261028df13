-- ===== src/Base/Sorted.antt =====
-- `BTreeMap<String, V>` as a list in the order of its keys, and the decimal form of a number.
use Prim.Native.Nat.{ℕ, zero, suc, ◌/◌, ◌%◌, Ordering}
use Prim.Native.String.{String, ◌++◌ as str_append, compare}
use mathlib.Core.Path.{◌≡◌, refl}
use mathlib.Core.Bool.{Bool, true, false}
use mathlib.Core.Option.{Option, none, some}
use mathlib.Core.List.{List, [], ◌∷◌}
use native.Mathlib.Omega.{arith}
use text.Mathlib.TextEquality.{eq_iff}
use soverign_founder_os.Base.Tests.{ltb, if◌then◌else◌}
use soverign_founder_os.Base.Equality.{◌==◌, string_eq}
use soverign_founder_os.Base.Lists.{get_elem?}

-- `a < b` for texts
abbrev pub string_lt : String → String → Bool
string_lt a b = elim (compare a b) [ Ordering.lt ↦ true | _ ↦ false ]

module _ {ℓ} {V : Type ℓ} where
  unfoldable pub get : String → List (String × V) → Option V
  get key [] = none
  get key ((k, v) ∷ entries) = if k == key then some v else get key entries

  -- `insert`, where the key is not there: before the first greater key
  unfoldable pub insert_new : String → V → List (String × V) → List (String × V)
  insert_new key value [] = (key, value) ∷ []
  insert_new key value ((k, v) ∷ entries) =
      if string_lt key k
      then (key, value) ∷ (k, v) ∷ entries
      else (k, v) ∷ insert_new key value entries

  -- `remove`, for the entries that stay
  unfoldable pub without : String → List (String × V) → List (String × V)
  without key [] = []
  without key ((k, v) ∷ entries) =
      let rest = without key entries in if k == key then rest else (k, v) ∷ rest

  -- `get` after `insert` of a new key, and after `remove`
  pub get-insert_new :
      (j key : String) (value : V) (m : List (String × V))
      → get key m ≡ none
      → get j (insert_new key value m) ≡ (if key == j then some value else get j m)
  unfolding get insert_new
  get-insert_new j key value [] h = refl
  get-insert_new j key value ((k, v) ∷ m) h =
      ground (arith, eq_iff key j, eq_iff k key, eq_iff k j, get-insert_new j key value m)

  pub get-without :
      (j key : String) (m : List (String × V))
      → get j (without key m) ≡ (if key == j then none else get j m)
  unfolding get without
  get-without j key [] = ground (arith, eq_iff key j)
  get-without j key ((k, v) ∷ m) =
      ground (arith, eq_iff key j, eq_iff k key, eq_iff k j, get-without j key m)

abbrev digit : ℕ → String
digit n =
    elim (get_elem? {A = String} ("0" ∷ "1" ∷ "2" ∷ "3" ∷ "4" ∷ "5" ∷ "6" ∷ "7" ∷ "8" ∷ "9" ∷ [])
      n) [ none ↦ "" | some d ↦ d ]

-- the last `width` digits of a number at most, with no zero in front
unfoldable pub decimal_within : ℕ → ℕ → String
decimal_within zero n = ""
decimal_within (suc width) n =
    let front = decimal_within width (n / 10) in
    if ltb n 10 then digit n else str_append front (digit (n % 10))

-- `usize` as `Display` writes it: below 2 ^ 64, so twenty digits are enough
unfoldable pub decimal : ℕ → String
unfolding decimal_within
decimal n = decimal_within 20 n

decimal_runs : decimal 1042 ≡ "1042"
unfolding decimal
decimal_runs = refl
