-- ===== src/Artifact/Input.antt =====
-- crates/artifact/src/schema.rs: the values that an input schema accepts, and the reader of inputs.
pub mod Typed
use Prim.Native.Char.{code}
use Prim.Native.String.{◌++◌ as str_append, len}
use soverign_founder_os.Base.{
  ℕ, suc, String, Bool, true, false, ◌||◌, Option, some, none, List, [], ◌∷◌, Result, ok, err,
  reject, ok_or, map_err, ◌>>=◌, ◌>>◌, ◌==◌, string_eq, nat_eq, length, ltb, if◌then◌else◌,
}
use soverign_founder_os.Base.Int.{ℤ, ltb_ℤ}
use soverign_founder_os.Base.Sorted.{decimal}
use soverign_founder_os.Base.Text.{Bytes}
use soverign_founder_os.Artifact.{InputLimits, InputSchema, Properties}
use soverign_founder_os.Artifact.Errors.{
  ArtifactError, input_schema_mismatch, input_too_large, input_too_deep, duplicate_input_key,
  invalid_input_json, StrictJsonError, duplicate_key, invalid,
}
use soverign_founder_os.Artifact.Json.{
  Value, null, bool, array, object, Values, nil, cons, Members, end, member, find_member,
  count_members, count_values, as_i64, as_str, Reader, parse_strict_json, json_depth,
}
use soverign_founder_os.Artifact.Schema.{find_property, unsafe_integer}

abbrev pub Check : Type 0
Check = Result ArtifactError (Unit {0})

unfoldable pub mismatch : String → String → ArtifactError
mismatch path reason = input_schema_mismatch (if path == "" then "/" else path) reason

-- both calls of `replace`
unfoldable pub escaped : String → String
escaped String.[] = ""
escaped (String.◌∷◌ c s) =
    let rest = escaped s in
    if code c == b'~'
    then str_append "~0" rest
    else if code c == b'/'
    then str_append "~1" rest
    else String.◌∷◌ c rest

unfoldable pub child_path : String → String → String
child_path parent name = str_append parent (str_append "/" (escaped name))

-- `keys().find` for a key that no property declares, and `required.iter().find` for one that is missing
unfoldable pub first_unknown : Members → Properties → Option String
first_unknown end properties = none
first_unknown (member key value members) properties = elim (find_property key properties) [
  | none ↦ some key
  | some schema ↦ first_unknown members properties
]

unfoldable pub first_missing : List String → Members → Option String
first_missing [] members = none
first_missing (key ∷ keys) members = elim (find_member key members) [
  | none ↦ some key
  | some value ↦ first_missing keys members
]

-- `if let Some(key) = … { return Err(mismatch(…)); }`
unfoldable pub reject_key : Option String → String → String → Check
reject_key none path reason = ok tt
reject_key (some key) path reason = err (mismatch (child_path path key) reason)

unfoldable pub check_string : ℕ → String → Option String → Check
check_string max_utf8_bytes path none = err (mismatch path "expected string")
check_string max_utf8_bytes path (some s) =
    reject (ltb max_utf8_bytes (len s)) (mismatch path "string exceeds max_utf8_bytes")

abbrev pub below : Option ℤ → ℤ → Bool
below none z = false
below (some minimum) z = ltb_ℤ z minimum

abbrev pub above : Option ℤ → ℤ → Bool
above none z = false
above (some maximum) z = ltb_ℤ maximum z

unfoldable pub check_integer : Option ℤ → Option ℤ → String → Option ℤ → Check
check_integer minimum maximum path none = err (mismatch path "expected I-JSON safe integer")
check_integer minimum maximum path (some z) = do
  reject (unsafe_integer z) (mismatch path "integer is outside the I-JSON safe range")
  reject (below minimum z || above maximum z)
      (mismatch path "integer is outside the declared range")

-- `InputSchema::validate_at`. A property that is not declared has been refused before the loop over
-- the members, where the source would panic.
unfoldable mutual
  pub validate_at : InputSchema → Value → String → Check
  validate_at (InputSchema.object properties required max_properties) (object members) path = do
    reject (ltb max_properties (count_members members))
        (mismatch path "object exceeds max_properties")
    reject_key (first_unknown members properties) path "unknown object field"
    reject_key (first_missing required members) path "required field is missing"
    validate_members properties members path
  validate_at (InputSchema.object properties required max_properties) _ path =
      err (mismatch path "expected object")
  validate_at (InputSchema.array items max_items) (array values) path = do
    reject (ltb max_items (count_values values)) (mismatch path "array exceeds max_items")
    validate_items items values 0 path
  validate_at (InputSchema.array items max_items) _ path = err (mismatch path "expected array")
  validate_at (InputSchema.string max_utf8_bytes) value path =
      check_string max_utf8_bytes path (as_str value)
  validate_at (InputSchema.integer minimum maximum) value path =
      check_integer minimum maximum path (as_i64 value)
  validate_at InputSchema.boolean (bool b) path = ok tt
  validate_at InputSchema.boolean _ path = err (mismatch path "expected boolean")
  validate_at InputSchema.null null path = ok tt
  validate_at InputSchema.null _ path = err (mismatch path "expected null")

  pub validate_members : Properties → Members → String → Check
  validate_members properties end path = ok tt
  validate_members properties (member name child members) path = do
    schema ←
        ok_or (find_property name properties)
          (mismatch (child_path path name) "unknown object field")
    validate_at schema child (child_path path name)
    validate_members properties members path

  pub validate_items : InputSchema → Values → ℕ → String → Check
  validate_items items nil index path = ok tt
  validate_items items (cons child values) index path = do
    validate_at items child (str_append path (str_append "/" (decimal index)))
    validate_items items values (suc index) path

-- `InputSchema::validate_value`
unfoldable pub validate_value : InputSchema → Value → Check
validate_value schema value = validate_at schema value ""

unfoldable pub input_error : StrictJsonError → ArtifactError
input_error (duplicate_key key) = duplicate_input_key key
input_error (invalid message) = invalid_input_json message

-- the test of the depth, which always ends
unfoldable pub check_depth : InputLimits → Option ℕ → Check
check_depth limits none = err input_too_deep
check_depth limits (some depth) = reject (ltb limits.max_depth depth) input_too_deep

unfoldable pub parse_strict_input : Reader → Bytes → InputLimits → Result ArtifactError Value
parse_strict_input reader raw_json limits = do
  reject (ltb limits.max_bytes (length raw_json)) input_too_large
  parsed ← map_err input_error (parse_strict_json reader raw_json)
  check_depth limits (json_depth parsed)
  ok parsed
