-- ===== src/Artifact/Schema.antt =====
-- crates/artifact/src/schema.rs: the declaration of an input schema, and the values that it accepts.
pub mod Declared
use Prim.Native.Char.{code}
use Prim.Native.String.{◌++◌ as str_append, len}
use soverign_founder_os.Base.{
  ℕ, zero, suc, ◌+◌, ◌*◌, String, Bool, true, false, not, ◌||◌, Option, some, none, List, [], ◌∷◌,
  Result, ok, err, reject, ok_or, map_err, ◌>>=◌, ◌>>◌, ◌==◌, string_eq, nat_eq, any, length, ltb,
  if◌then◌else◌,
}
use soverign_founder_os.Base.Int.{ℤ, pos, negsuc, ltb_ℤ}
use soverign_founder_os.Base.Sorted.{decimal}
use soverign_founder_os.Base.Text.{Bytes, codes, is_control}
use soverign_founder_os.Artifact.{InputLimits, InputSchema, Properties, end, property}
use soverign_founder_os.Artifact.Errors.{
  ArtifactError, invalid_input_schema, input_schema_mismatch, input_too_large, input_too_deep,
  duplicate_input_key, invalid_input_json, StrictJsonError, duplicate_key, invalid,
}
use soverign_founder_os.Artifact.Json.{
  Value, null, bool, number, string, array, object, Values, nil, cons, Members, member, find_member,
  count_members, count_values, as_i64, as_str, Reader, parse_strict_json, json_depth,
}

abbrev pub max_declared_input_bytes : ℕ
max_declared_input_bytes = 1024 * 1024

abbrev pub max_declared_input_depth : ℕ
max_declared_input_depth = 64

abbrev pub ijson_safe_integer_min : ℤ
ijson_safe_integer_min = negsuc 9007199254740990

abbrev pub ijson_safe_integer_max : ℤ
ijson_safe_integer_max = pos 9007199254740991

abbrev pub max_schema_properties : ℕ
max_schema_properties = 256

abbrev pub max_declared_array_items : ℕ
max_declared_array_items = 65536

abbrev pub Check : Type 0
Check = Result ArtifactError (Unit {0})

-- the negation of `(1..=high).contains(&n)`
abbrev pub outside : ℕ → ℕ → Bool
outside high n = n == 0 || ltb high n

-- `InputLimits::validate`
unfoldable pub validate_limits : InputLimits → Check
validate_limits limits = do
  reject (outside max_declared_input_bytes limits.max_bytes)
      (invalid_input_schema "max_bytes must be in 1..=1048576")
  reject (outside max_declared_input_depth limits.max_depth)
      (invalid_input_schema "max_depth must be in 1..=64")

-- `InputLimits::new`
pub new_limits : ℕ → ℕ → Result ArtifactError InputLimits
new_limits max_bytes max_depth = do
  let limits : InputLimits = record { max_bytes = max_bytes; max_depth = max_depth }
  validate_limits limits
  ok limits

unfoldable pub find_property : String → Properties → Option InputSchema
find_property name end = none
find_property name (property k schema rest) =
    if k == name then some schema else find_property name rest

abbrev pub is_none : {A : Type 0} → Option A → Bool
is_none none = true
is_none (some a) = false

unfoldable pub count_properties : Properties → ℕ
count_properties end = 0
count_properties (property name schema rest) = suc (count_properties rest)

abbrev pub bad_property_name : String → Bool
bad_property_name name = name == "" || ltb 128 (len name) || any is_control (codes name)

unfoldable pub validate_property_name : String → Check
validate_property_name name =
    reject (bad_property_name name)
      (invalid_input_schema "property names must contain 1..=128 non-control UTF-8 bytes")

unfoldable pub validate_names : Properties → Check
validate_names end = ok tt
validate_names (property name schema rest) = do validate_property_name name; validate_names rest

-- The stack of `validate_declaration`. The last child that is pushed is the first to be popped.
abbrev pub Stack : Type 0
Stack = List (InputSchema × ℕ)

unfoldable pub push_properties : Properties → ℕ → Stack → Stack
push_properties end depth stack = stack
push_properties (property name schema rest) depth stack =
    push_properties rest depth ((schema, depth) ∷ stack)

abbrev pub unsafe_integer : ℤ → Bool
unsafe_integer z = ltb_ℤ z ijson_safe_integer_min || ltb_ℤ ijson_safe_integer_max z

-- `Option::is_some_and`
abbrev pub is_some_and : (ℤ → Bool) → Option ℤ → Bool
is_some_and test none = false
is_some_and test (some z) = test z

abbrev pub crossed : Option ℤ → Option ℤ → Bool
crossed (some minimum) (some maximum) = ltb_ℤ maximum minimum
crossed _ _ = false

-- the body of the loop, on the rest of the stack
unfoldable pub visit_schema : InputLimits → InputSchema → ℕ → Stack → Result ArtifactError Stack
visit_schema limits (InputSchema.object properties required max_properties) depth stack = do
  reject (outside max_schema_properties max_properties)
      (invalid_input_schema "max_properties must be in 1..=256")
  reject (ltb max_properties (count_properties properties))
      (invalid_input_schema "properties exceed max_properties")
  reject (any (λ name. is_none (find_property name properties)) required)
      (invalid_input_schema "required contains an undeclared property")
  validate_names properties
  ok (push_properties properties (suc depth) stack)
visit_schema limits (InputSchema.array items max_items) depth stack = do
  reject (outside max_declared_array_items max_items)
      (invalid_input_schema "max_items must be in 1..=65536")
  ok ((items, suc depth) ∷ stack)
visit_schema limits (InputSchema.string max_utf8_bytes) depth stack = do
  reject (outside limits.max_bytes max_utf8_bytes)
      (invalid_input_schema "max_utf8_bytes must fit the operation byte limit")
  ok stack
visit_schema limits (InputSchema.integer minimum maximum) depth stack = do
  reject (is_some_and unsafe_integer minimum || is_some_and unsafe_integer maximum)
      (invalid_input_schema "integer bounds must stay in -9007199254740991..=9007199254740991")
  reject (crossed minimum maximum) (invalid_input_schema "integer minimum exceeds maximum")
  ok stack
visit_schema limits InputSchema.boolean depth stack = ok stack
visit_schema limits InputSchema.null depth stack = ok stack

unfoldable pub pop_schema : InputLimits → InputSchema → ℕ → Stack → Result ArtifactError Stack
pop_schema limits schema depth stack = do
  reject (ltb limits.max_depth depth)
      (invalid_input_schema "schema depth exceeds declared input depth")
  visit_schema limits schema depth stack

-- `?` in the loop
unfoldable pub after_visit : Result ArtifactError Stack → (Stack → Option Check) → Option Check
after_visit (err error) next = some (err error)
after_visit (ok stack) next = next stack

-- the loop; `none` is the end of the fuel
unfoldable pub declaration_loop : InputLimits → ℕ → Stack → Option Check
declaration_loop limits fuel [] = some (ok tt)
declaration_loop limits zero (entry ∷ stack) = none
declaration_loop limits (suc fuel) ((schema, depth) ∷ stack) =
    after_visit (pop_schema limits schema depth stack) (declaration_loop limits fuel)

-- how many schemas there are in a schema, itself among them
unfoldable mutual
  pub schema_size : InputSchema → ℕ
  schema_size (InputSchema.object properties required max_properties) =
      suc (properties_size properties)
  schema_size (InputSchema.array items max_items) = suc (schema_size items)
  schema_size (InputSchema.string max_utf8_bytes) = 1
  schema_size (InputSchema.integer minimum maximum) = 1
  schema_size InputSchema.boolean = 1
  schema_size InputSchema.null = 1

  pub properties_size : Properties → ℕ
  properties_size end = 0
  properties_size (property name schema rest) = schema_size schema + properties_size rest

-- `InputSchema::validate_declaration`
unfoldable pub validate_declaration : InputSchema → InputLimits → Option Check
validate_declaration schema limits =
    after_visit (validate_limits limits >> ok ((schema, 1) ∷ []))
      (declaration_loop limits (schema_size schema))
