-- ===== src/Artifact/Input/Typed/Sound.antt =====
-- What `validate_value` of crates/artifact/src/schema.rs accepts has the type of the schema.
use Prim.Native.String.{len, ◌++◌ as str_append}
use soverign_founder_os.Base.{
  ℕ, suc, ◌≤◌, ◌≡◌, ◌≢◌, refl, String, Bool, true, false, Option, some, none, List, [], ◌∷◌, All,
  ok, err, ◌>>◌, arith, ltb, ltb-false, Option-cases, ◌>>=◌, reject, ok_or, reject-ok, inl, inr,
}
use soverign_founder_os.Base.Int.{ℤ}
use soverign_founder_os.Artifact.{InputSchema, Properties}
use soverign_founder_os.Artifact.Json.{
  Value, null, bool, array, object, Values, nil, cons, Members, end, member, find_member,
  count_members, count_values, as_i64, as_str,
}
use soverign_founder_os.Artifact.Schema.{find_property}
use soverign_founder_os.Base.Sorted.{decimal}
use soverign_founder_os.Artifact.Errors.{ArtifactError}
use soverign_founder_os.Artifact.Input.{
  Check, mismatch, child_path, first_unknown, first_missing, reject_key, check_string,
  check_integer, validate_at, validate_members, validate_items,
}
use soverign_founder_os.Artifact.Input.Typed.{IsInteger, HasType, HaveTypes, HaveType}

check_string-HasType :
    (high : ℕ) (path : String) (s : Option String)
    → check_string high path s ≡ ok tt
    → (t : String) × (s ≡ some t) × (len t ≤ high)
unfolding check_string
check_string-HasType high path none h = cc
check_string-HasType high path (some t) h = (t, refl, ground arith)

check_integer-HasType :
    (minimum maximum : Option ℤ) (path : String) (z : Option ℤ)
    → check_integer minimum maximum path z ≡ ok tt
    → (t : ℤ) × (z ≡ some t) × IsInteger minimum maximum t
unfolding check_integer
check_integer-HasType minimum maximum path none h = cc
check_integer-HasType none none path (some t) h = (t, refl, (ground arith, ground arith, tt, tt))
check_integer-HasType none (some b) path (some t) h =
    (t, refl, (ground arith, ground arith, tt, ground arith))
check_integer-HasType (some a) none path (some t) h =
    (t, refl, (ground arith, ground arith, ground arith, tt))
check_integer-HasType (some a) (some b) path (some t) h =
    (t, refl, (ground arith, ground arith, ground arith, ground arith))

first_missing-All :
    (keys : List String) (members : Members)
    → first_missing keys members ≡ none
    → All (λ key. find_member key members ≢ none) keys
unfolding first_missing
first_missing-All [] members h = tt
first_missing-All (key ∷ keys) members h = elim (Option-cases (find_member key members)) [
  | inl e ↦ absurd (cc)
  | inr e ↦ (λ n. cc, first_missing-All keys members (ground arith))
]

-- the checks before the recursive calls
object_checks :
    (many : Bool) (e : ArtifactError) (unknown missing : Option String) (path r1 r2 : String)
    (rest : Check)
    → (reject many e >> (reject_key unknown path r1 >> (reject_key missing path r2 >> rest)))
      ≡ ok tt
    → (many ≡ false) × (unknown ≡ none) × (missing ≡ none) × (rest ≡ ok tt)
unfolding reject_key
object_checks false e none none path r1 r2 rest h = (refl, refl, refl, h)
object_checks false e none (some key) path r1 r2 rest h = cc
object_checks false e (some key) missing path r1 r2 rest h = cc
object_checks true e unknown missing path r1 r2 rest h = cc

pub then_ok : (first rest : Check) → (first >> rest) ≡ ok tt → (first ≡ ok tt) × (rest ≡ ok tt)
then_ok (ok _) rest h = (refl, h)
then_ok (err e) rest h = cc

found_ok :
    (o : Option InputSchema) (e : ArtifactError) (next : InputSchema → Check)
    → (ok_or o e >>= next) ≡ ok tt
    → (schema : InputSchema) × (o ≡ some schema) × (next schema ≡ ok tt)
found_ok none e next h = cc
found_ok (some schema) e next h = (schema, refl, h)

mutual
  unfolding validate_at HasType

  pub validate_at-HasType :
      (schema : InputSchema) (value : Value) (path : String)
      → validate_at schema value path ≡ ok tt
      → HasType schema value
  validate_at-HasType (InputSchema.object properties required high) (object members) path h =
      let (few, known, there, rest) =
        object_checks (ltb high (count_members members))
          (mismatch path "object exceeds max_properties") (first_unknown members properties)
          (first_missing required members) path "unknown object field" "required field is missing"
          (validate_members properties members path) h in
      (
        ltb-false _ _ few,
        validate_members-HaveTypes properties members path rest,
        first_missing-All required members there,
      )
  validate_at-HasType (InputSchema.object properties required high) _ path h = cc
  validate_at-HasType (InputSchema.array items high) (array values) path h =
      let (few, rest) =
        then_ok (reject (ltb high (count_values values)) (mismatch path "array exceeds max_items"))
          (validate_items items values 0 path) h in
      (
        ltb-false _ _ (reject-ok (ltb high (count_values values)) _ few),
        validate_items-HaveType items values 0 path rest,
      )
  validate_at-HasType (InputSchema.array items high) _ path h = cc
  validate_at-HasType (InputSchema.string high) value path h =
      check_string-HasType high path (as_str value) h
  validate_at-HasType (InputSchema.integer minimum maximum) value path h =
      check_integer-HasType minimum maximum path (as_i64 value) h
  validate_at-HasType InputSchema.boolean (bool b) path h = tt
  validate_at-HasType InputSchema.boolean _ path h = cc
  validate_at-HasType InputSchema.null null path h = tt
  validate_at-HasType InputSchema.null _ path h = cc

  validate_members-HaveTypes :
      (properties : Properties) (members : Members) (path : String)
      → validate_members properties members path ≡ ok tt
      → HaveTypes properties members
  validate_members-HaveTypes properties end path h = tt
  validate_members-HaveTypes properties (member name child members) path h =
      let (schema, found, h1) =
        found_ok (find_property name properties)
          (mismatch (child_path path name) "unknown object field")
          (λ schema.
            validate_at schema child (child_path path name)
            >> validate_members properties members path)
          h in
      let (typed, rest) =
        then_ok (validate_at schema child (child_path path name))
          (validate_members properties members path) h1 in
      (
        (schema, found, validate_at-HasType schema child (child_path path name) typed),
        validate_members-HaveTypes properties members path rest,
      )

  validate_items-HaveType :
      (items : InputSchema) (values : Values) (index : ℕ) (path : String)
      → validate_items items values index path ≡ ok tt
      → HaveType items values
  validate_items-HaveType items nil index path h = tt
  validate_items-HaveType items (cons child values) index path h =
      let here = str_append path (str_append "/" (decimal index)) in
      let (typed, rest) =
        then_ok (validate_at items child here) (validate_items items values (suc index) path) h in
      (
        validate_at-HasType items child here typed,
        validate_items-HaveType items values (suc index) path rest,
      )
