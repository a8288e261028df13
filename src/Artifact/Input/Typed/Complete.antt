-- ===== src/Artifact/Input/Typed/Complete.antt =====
-- A value of the schema's type is accepted by `validate_value` of crates/artifact/src/schema.rs.
use Prim.Native.String.{len, ◌++◌ as str_append}
use soverign_founder_os.Base.{
  ℕ, suc, ◌≤◌, ◌≡◌, ◌≢◌, ◌↔◌, refl, String, Bool, false, Option, some, none, List, [], ◌∷◌, All, ok,
  ◌>>◌, arith, ltb, le→ltb-false, Option-cases, ◌>>=◌, reject, ok_or, inl, inr,
}
use soverign_founder_os.Base.Int.{ℤ}
use soverign_founder_os.Artifact.{InputSchema, Properties}
use soverign_founder_os.Artifact.Json.{
  Value, null, bool, array, object, Values, nil, cons, Members, end, member, find_member,
  count_members, count_values, as_str,
}
use soverign_founder_os.Artifact.Schema.{find_property}
use soverign_founder_os.Base.Sorted.{decimal}
use soverign_founder_os.Artifact.Errors.{ArtifactError}
use soverign_founder_os.Artifact.Input.{
  Check, child_path, first_unknown, first_missing, reject_key, check_string, check_integer,
  validate_at, validate_members, validate_items, validate_value,
}
use soverign_founder_os.Artifact.Input.Typed.{IsInteger, HasType, HaveTypes, HaveType}
use soverign_founder_os.Artifact.Input.Typed.Sound.{validate_at-HasType}

first_missing-none :
    (keys : List String) (members : Members)
    → All (λ key. find_member key members ≢ none) keys
    → first_missing keys members ≡ none
unfolding first_missing
first_missing-none [] members h = refl
first_missing-none (key ∷ keys) members h = elim (Option-cases (find_member key members)) [
  | inl e ↦ absurd (h.0 e)
  | inr e ↦ rw (e.1, first_missing) (first_missing-none keys members h.1)
]

first_unknown-none :
    (properties : Properties) (members : Members)
    → HaveTypes properties members
    → first_unknown members properties ≡ none
unfolding first_unknown HasType
first_unknown-none properties end h = refl
first_unknown-none properties (member name child members) h =
    let ((schema, found, _), rest) = h in
    rw (found, first_unknown) (first_unknown-none properties members rest)

-- the converses
reject_passes :
    (t : Bool) (e : ArtifactError) (rest : Check)
    → t ≡ false
    → rest ≡ ok tt
    → (reject t e >> rest) ≡ ok tt
reject_passes t e rest h k = rw h k

key_passes :
    (key : Option String) (path reason : String) (rest : Check)
    → key ≡ none
    → rest ≡ ok tt
    → (reject_key key path reason >> rest) ≡ ok tt
unfolding reject_key
key_passes key path reason rest h k = rw h k

then_passes : (first rest : Check) → first ≡ ok tt → rest ≡ ok tt → (first >> rest) ≡ ok tt
then_passes first rest h k = rw h k

found_passes :
    (o : Option InputSchema) (e : ArtifactError) (next : InputSchema → Check) (schema : InputSchema)
    → o ≡ some schema
    → next schema ≡ ok tt
    → (ok_or o e >>= next) ≡ ok tt
found_passes o e next schema h k = rw h k

string_passes :
    (high : ℕ) (path : String) (o : Option String) (s : String)
    → o ≡ some s
    → len s ≤ high
    → check_string high path o ≡ ok tt
unfolding check_string
string_passes high path o s h short = rw h (rw (le→ltb-false _ _ short) refl)

integer_passes :
    (minimum maximum : Option ℤ) (path : String) (z : ℤ)
    → IsInteger minimum maximum z
    → check_integer minimum maximum path (some z) ≡ ok tt
unfolding check_integer
integer_passes none none path z h = ground arith
integer_passes none (some b) path z h = ground arith
integer_passes (some a) none path z h = ground arith
integer_passes (some a) (some b) path z h = ground arith

mutual
  unfolding validate_at HasType

  HasType-validate_at :
      (schema : InputSchema) (value : Value) (path : String)
      → HasType schema value
      → validate_at schema value path ≡ ok tt
  HasType-validate_at (InputSchema.object properties required high) (object members) path h =
      reject_passes (ltb high (count_members members)) _ _ (le→ltb-false _ _ h.0) (
        key_passes (first_unknown members properties) path "unknown object field" _
          (first_unknown-none properties members h.1)
          (key_passes (first_missing required members) path "required field is missing" _
            (first_missing-none required members h.2)
            (HaveTypes-validate_members properties members path h.1)))
  HasType-validate_at (InputSchema.object properties required high) _ path h = absurd h
  HasType-validate_at (InputSchema.array items high) (array values) path h =
      reject_passes (ltb high (count_values values)) _ _ (le→ltb-false _ _ h.0)
        (HaveType-validate_items items values 0 path h.1)
  HasType-validate_at (InputSchema.array items high) _ path h = absurd h
  HasType-validate_at (InputSchema.string high) value path h =
      string_passes high path (as_str value) h.0 h.1 h.2
  HasType-validate_at (InputSchema.integer minimum maximum) value path h =
      let (z, found, within) = h in rw found (integer_passes minimum maximum path z within)
  HasType-validate_at InputSchema.boolean (bool b) path h = refl
  HasType-validate_at InputSchema.boolean _ path h = absurd h
  HasType-validate_at InputSchema.null null path h = refl
  HasType-validate_at InputSchema.null _ path h = absurd h

  HaveTypes-validate_members :
      (properties : Properties) (members : Members) (path : String)
      → HaveTypes properties members
      → validate_members properties members path ≡ ok tt
  HaveTypes-validate_members properties end path h = refl
  HaveTypes-validate_members properties (member name child members) path h =
      let ((schema, found, typed), rest) = h in
      let here = HasType-validate_at schema child (child_path path name) typed in
      found_passes (find_property name properties) _
        (λ schema.
          validate_at schema child (child_path path name)
          >> validate_members properties members path)
        schema found
        (then_passes (validate_at schema child (child_path path name)) _ here
          (HaveTypes-validate_members properties members path rest))

  HaveType-validate_items :
      (items : InputSchema) (values : Values) (index : ℕ) (path : String)
      → HaveType items values
      → validate_items items values index path ≡ ok tt
  HaveType-validate_items items nil index path h = refl
  HaveType-validate_items items (cons child values) index path h =
      let here = str_append path (str_append "/" (decimal index)) in
      then_passes (validate_at items child here) _ (HasType-validate_at items child here h.0)
        (HaveType-validate_items items values (suc index) path h.1)

-- `validate_value` accepts exactly the values of the schema's type: an object has at most as many
-- members as it may, each of them declared and of the type of its property, and every required one;
-- an array has at most as many items as it may, each of the type of the items; a text is short
-- enough; an integer is safe in I-JSON and within its bounds.
pub validate_value-HasType :
    (schema : InputSchema) (value : Value)
    → (validate_value schema value ≡ ok tt) ↔ HasType schema value
unfolding validate_value
validate_value-HasType schema value =
    (validate_at-HasType schema value "", HasType-validate_at schema value "")
