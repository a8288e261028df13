-- ===== src/Artifact/Input/Typed.antt =====
-- The values that `validate_value` of crates/artifact/src/schema.rs accepts, as a typing relation.
pub mod Sound
pub mod Complete
use Prim.Native.String.{len, ◌++◌ as str_append}
use soverign_founder_os.Base.{
  ℕ, suc, ◌≤◌, ◌≡◌, ◌≢◌, ◌↔◌, refl, String, Bool, true, false, Option, some, none, List, [], ◌∷◌,
  All, ok, err, ◌>>◌, arith, ltb, ltb-false, le→ltb-false, Option-cases, ◌>>=◌, reject, ok_or,
  reject-ok, inl, inr,
}
use soverign_founder_os.Base.Int.{ℤ, ◌≤ℤ◌}
use soverign_founder_os.Artifact.{InputSchema, Properties}
use soverign_founder_os.Artifact.Json.{
  Value, null, bool, array, object, Values, nil, cons, Members, end, member, find_member,
  count_members, count_values, as_i64, as_str,
}
use soverign_founder_os.Artifact.Schema.{
  find_property, ijson_safe_integer_min, ijson_safe_integer_max,
}
use soverign_founder_os.Base.Sorted.{decimal}
use soverign_founder_os.Artifact.Errors.{ArtifactError}
use soverign_founder_os.Artifact.Input.{
  Check, mismatch, child_path, first_unknown, first_missing, reject_key, check_string,
  check_integer, validate_at, validate_members, validate_items, validate_value,
}

abbrev pub AtLeast : ℤ → Option ℤ → Type 0
AtLeast z none = Unit
AtLeast z (some minimum) = minimum ≤ℤ z

abbrev pub AtMost : ℤ → Option ℤ → Type 0
AtMost z none = Unit
AtMost z (some maximum) = z ≤ℤ maximum

abbrev pub IsInteger : Option ℤ → Option ℤ → ℤ → Type 0
IsInteger minimum maximum z =
    (ijson_safe_integer_min ≤ℤ z)
    × (z ≤ℤ ijson_safe_integer_max)
    × AtLeast z minimum
    × AtMost z maximum

-- the type of a schema
unfoldable mutual
  pub HasType : InputSchema → Value → Type 0
  HasType (InputSchema.object properties required max_properties) (object members) =
      (count_members members ≤ max_properties)
      × HaveTypes properties members
      × All (λ key. find_member key members ≢ none) required
  HasType (InputSchema.object properties required max_properties) _ = ⊥
  HasType (InputSchema.array items max_items) (array values) =
      (count_values values ≤ max_items) × HaveType items values
  HasType (InputSchema.array items max_items) _ = ⊥
  HasType (InputSchema.string max_utf8_bytes) value =
      (s : String) × (as_str value ≡ some s) × (len s ≤ max_utf8_bytes)
  HasType (InputSchema.integer minimum maximum) value =
      (z : ℤ) × (as_i64 value ≡ some z) × IsInteger minimum maximum z
  HasType InputSchema.boolean (bool b) = Unit
  HasType InputSchema.boolean _ = ⊥
  HasType InputSchema.null null = Unit
  HasType InputSchema.null _ = ⊥

  -- each member is declared, and has the type of its property
  pub HaveTypes : Properties → Members → Type 0
  HaveTypes properties end = Unit
  HaveTypes properties (member name child members) =
      ((schema : InputSchema) × (find_property name properties ≡ some schema)
        × HasType schema child)
      × HaveTypes properties members

  pub HaveType : InputSchema → Values → Type 0
  HaveType items nil = Unit
  HaveType items (cons child values) = HasType items child × HaveType items values
