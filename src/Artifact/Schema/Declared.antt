-- ===== src/Artifact/Schema/Declared.antt =====
-- What `validate_declaration` in crates/artifact/src/schema.rs asks of a schema and its children, and
-- what one round of its loop does.
pub mod Loop
use Prim.Native.String.{len}
use soverign_founder_os.Base.{
  false≢true, ne→==, ◌==◌, string_eq, ℕ, zero, suc, ◌+◌, ◌≤◌, ◌≡◌, ◌≢◌, ◌↔◌, refl, ap, ◌∙◌, sym,
  subst, String, Bool, true, false, ◌⊎◌, inl, inr, Option, some, none, List, [], ◌∷◌, All, any,
  any-false, Result, ok, err, arith, ltb, ltb-false, ◌>>=◌, ◌>>◌, reject, Bool-cases,
}
use soverign_founder_os.Base.Int.{ℤ, pos, negsuc, ◌≤ℤ◌}
use soverign_founder_os.Base.Text.{codes, is_control}
use soverign_founder_os.Artifact.{InputLimits, InputSchema, Properties, end, property}
use soverign_founder_os.Artifact.Errors.{ArtifactError}
use soverign_founder_os.Artifact.Schema.{
  Check, Stack, outside, max_schema_properties, max_declared_array_items, max_declared_input_bytes,
  max_declared_input_depth, bad_property_name, unsafe_integer, is_some_and, crossed, find_property,
  is_none, count_properties, validate_limits, validate_property_name, validate_names,
  push_properties, visit_schema, pop_schema, after_visit, declaration_loop, schema_size,
  properties_size, validate_declaration,
}

-- 1..=high
abbrev pub Within : ℕ → ℕ → Type 0
Within high n = (1 ≤ n) × (n ≤ high)

-- 1 to 128 bytes, and no control characters
abbrev pub IsPropertyName : String → Type 0
IsPropertyName name =
    (name ≢ "") × (len name ≤ 128) × All (λ code. is_control code ≡ false) (codes name)

-- A bound, where there is one, is an integer that a double represents exactly.
abbrev pub IsSafe : Option ℤ → Type 0
IsSafe none = Unit
IsSafe (some z) = (negsuc 9007199254740990 ≤ℤ z) × (z ≤ℤ pos 9007199254740991)

abbrev pub AreOrdered : Option ℤ → Option ℤ → Type 0
AreOrdered (some minimum) (some maximum) = minimum ≤ℤ maximum
AreOrdered _ _ = Unit

abbrev pub NamesFit : Properties → Type 0
NamesFit end = Unit
NamesFit (property name schema rest) = IsPropertyName name × NamesFit rest

-- what the declaration says of a schema itself
abbrev pub IsNode : InputLimits → InputSchema → Type 0
IsNode limits (InputSchema.object properties required max_properties) =
    Within max_schema_properties max_properties
    × (count_properties properties ≤ max_properties)
    × All (λ name. is_none (find_property name properties) ≡ false) required
    × NamesFit properties
IsNode limits (InputSchema.array items max_items) = Within max_declared_array_items max_items
IsNode limits (InputSchema.string max_utf8_bytes) = Within limits.max_bytes max_utf8_bytes
IsNode limits (InputSchema.integer minimum maximum) =
    IsSafe minimum × IsSafe maximum × AreOrdered minimum maximum
IsNode limits InputSchema.boolean = Unit
IsNode limits InputSchema.null = Unit

-- and of the schemas in it
unfoldable mutual
  pub IsDeclared : InputLimits → ℕ → InputSchema → Type 0
  IsDeclared limits depth (InputSchema.object properties required max_properties) =
      (depth ≤ limits.max_depth)
      × IsNode limits (InputSchema.object properties required max_properties)
      × AreDeclared limits (suc depth) properties
  IsDeclared limits depth (InputSchema.array items max_items) =
      (depth ≤ limits.max_depth)
      × IsNode limits (InputSchema.array items max_items)
      × IsDeclared limits (suc depth) items
  IsDeclared limits depth (InputSchema.string max_utf8_bytes) =
      (depth ≤ limits.max_depth) × IsNode limits (InputSchema.string max_utf8_bytes)
  IsDeclared limits depth (InputSchema.integer minimum maximum) =
      (depth ≤ limits.max_depth) × IsNode limits (InputSchema.integer minimum maximum)
  IsDeclared limits depth InputSchema.boolean = depth ≤ limits.max_depth
  IsDeclared limits depth InputSchema.null = depth ≤ limits.max_depth

  pub AreDeclared : InputLimits → ℕ → Properties → Type 0
  AreDeclared limits depth end = Unit
  AreDeclared limits depth (property name schema rest) =
      IsDeclared limits depth schema × AreDeclared limits depth rest

any-All : {A : Type 0} (p : A → Bool) (xs : List A) → All (λ x. p x ≡ false) xs → any p xs ≡ false
any-All p [] h = refl
any-All p (x ∷ xs) h = ground (arith, any-All p xs h.1)

bad_property_name_iff : (name : String) → (bad_property_name name ≡ false) ↔ IsPropertyName name
bad_property_name_iff name = (
  λ h.
      let named : (name == "") ≡ false = ground arith in
      (
        λ empty. absurd (false≢true (sym named ∙ ap (λ n. n == "") empty)),
        ground arith,
        any-false is_control (codes name) (ground arith),
      ),
  λ h.
      let named : (name == "") ≡ false = ne→== h.0 in
      ground (arith, any-All is_control (codes name) h.2),
)

IsSafe-iff : (bound : Option ℤ) → (is_some_and unsafe_integer bound ≡ false) ↔ IsSafe bound
IsSafe-iff none = ground arith
IsSafe-iff (some z) = ground arith

crossed_iff :
    (minimum maximum : Option ℤ) → (crossed minimum maximum ≡ false) ↔ AreOrdered minimum maximum
crossed_iff none maximum = ground arith
crossed_iff (some a) none = ground arith
crossed_iff (some a) (some b) = ground arith

module _ (limits : InputLimits) where
  Waiting : Stack → Type 0
  Waiting [] = Unit
  Waiting ((schema, depth) ∷ stack) = IsDeclared limits depth schema × Waiting stack

  names_fit : (properties : Properties) → validate_names properties ≡ ok tt → NamesFit properties
  unfolding validate_names validate_property_name
  names_fit end h = tt
  names_fit (property name schema rest) h =
      ((bad_property_name_iff name).0 (ground arith), names_fit rest (ground arith))

  names_pass : (properties : Properties) → NamesFit properties → validate_names properties ≡ ok tt
  unfolding validate_names validate_property_name
  names_pass end h = refl
  names_pass (property name schema rest) h =
      ground (arith, (bad_property_name_iff name).1 h.0, names_pass rest h.1)

  push-Waiting :
      (properties : Properties) (depth : ℕ) (stack : Stack)
      → Waiting (push_properties properties depth stack)
      → AreDeclared limits depth properties × Waiting stack
  unfolding push_properties IsDeclared Waiting
  push-Waiting end depth stack h = (tt, h)
  push-Waiting (property name schema rest) depth stack h =
      let (below, (here, on)) = push-Waiting rest depth ((schema, depth) ∷ stack) h in
      ((here, below), on)

  Waiting-push :
      (properties : Properties) (depth : ℕ) (stack : Stack)
      → AreDeclared limits depth properties
      → Waiting stack
      → Waiting (push_properties properties depth stack)
  unfolding push_properties IsDeclared Waiting
  Waiting-push end depth stack h on = on
  Waiting-push (property name schema rest) depth stack h on =
      Waiting-push rest depth ((schema, depth) ∷ stack) h.1 (h.0, on)

  -- the stack after a schema that passes
  pushed : InputSchema → ℕ → Stack → Stack
  pushed (InputSchema.object properties required high) depth stack =
      push_properties properties (suc depth) stack
  pushed (InputSchema.array items high) depth stack = (items, suc depth) ∷ stack
  pushed (InputSchema.string high) depth stack = stack
  pushed (InputSchema.integer minimum maximum) depth stack = stack
  pushed InputSchema.boolean depth stack = stack
  pushed InputSchema.null depth stack = stack

  visited-IsNode :
      (schema : InputSchema) (depth : ℕ) (stack left : Stack)
      → visit_schema limits schema depth stack ≡ ok left
      → IsNode limits schema × (pushed schema depth stack ≡ left)
  unfolding visit_schema pushed
  visited-IsNode (InputSchema.object properties required high) depth stack left h = (
    (
      (ground arith, ground arith),
      ground arith,
      any-false _ required (ground arith),
      names_fit properties (ground arith),
    ),
    ground arith,
  )
  visited-IsNode (InputSchema.array items high) depth stack left h =
      ((ground arith, ground arith), ground arith)
  visited-IsNode (InputSchema.string high) depth stack left h =
      ((ground arith, ground arith), ground arith)
  visited-IsNode (InputSchema.integer minimum maximum) depth stack left h = (
    (
      (IsSafe-iff minimum).0 (ground arith),
      (IsSafe-iff maximum).0 (ground arith),
      (crossed_iff minimum maximum).0 (ground arith),
    ),
    ground arith,
  )
  visited-IsNode InputSchema.boolean depth stack left h = (tt, ground arith)
  visited-IsNode InputSchema.null depth stack left h = (tt, ground arith)

  IsNode-visited :
      (schema : InputSchema) (depth : ℕ) (stack : Stack)
      → IsNode limits schema
      → visit_schema limits schema depth stack ≡ ok (pushed schema depth stack)
  unfolding visit_schema pushed
  IsNode-visited (InputSchema.object properties required high) depth stack h = ground (
    arith,
    names_pass properties h.3,
    any-All (λ name. is_none (find_property name properties)) required h.2,
  )
  IsNode-visited (InputSchema.array items high) depth stack h = ground arith
  IsNode-visited (InputSchema.string high) depth stack h = ground arith
  IsNode-visited (InputSchema.integer minimum maximum) depth stack h = ground (
    arith,
    (IsSafe-iff minimum).1 h.0,
    (IsSafe-iff maximum).1 h.1,
    (crossed_iff minimum maximum).1 h.2,
  )
  IsNode-visited InputSchema.boolean depth stack h = refl
  IsNode-visited InputSchema.null depth stack h = refl

  pushed-Waiting :
      (schema : InputSchema) (depth : ℕ) (stack : Stack)
      → depth ≤ limits.max_depth
      → IsNode limits schema
      → Waiting (pushed schema depth stack)
      → IsDeclared limits depth schema × Waiting stack
  unfolding pushed IsDeclared Waiting
  pushed-Waiting (InputSchema.object properties required high) depth stack deep node on =
      let (below, rest) = push-Waiting properties (suc depth) stack on in
      ((deep, node, below), rest)
  pushed-Waiting (InputSchema.array items high) depth stack deep node on =
      ((deep, node, on.0), on.1)
  pushed-Waiting (InputSchema.string high) depth stack deep node on = ((deep, node), on)
  pushed-Waiting (InputSchema.integer minimum maximum) depth stack deep node on = ((deep, node), on)
  pushed-Waiting InputSchema.boolean depth stack deep node on = (deep, on)
  pushed-Waiting InputSchema.null depth stack deep node on = (deep, on)

  Waiting-pushed :
      (schema : InputSchema) (depth : ℕ) (stack : Stack)
      → IsDeclared limits depth schema
      → Waiting stack
      → (depth ≤ limits.max_depth) × IsNode limits schema × Waiting (pushed schema depth stack)
  unfolding pushed IsDeclared Waiting
  Waiting-pushed (InputSchema.object properties required high) depth stack h on =
      (h.0, h.1, Waiting-push properties (suc depth) stack h.2 on)
  Waiting-pushed (InputSchema.array items high) depth stack h on = (h.0, h.1, (h.2, on))
  Waiting-pushed (InputSchema.string high) depth stack h on = (h.0, h.1, on)
  Waiting-pushed (InputSchema.integer minimum maximum) depth stack h on = (h.0, h.1, on)
  Waiting-pushed InputSchema.boolean depth stack h on = (h, tt, on)
  Waiting-pushed InputSchema.null depth stack h on = (h, tt, on)

  popped :
      (schema : InputSchema) (depth : ℕ) (stack left : Stack)
      → pop_schema limits schema depth stack ≡ ok left
      → (depth ≤ limits.max_depth) × IsNode limits schema × (pushed schema depth stack ≡ left)
  unfolding pop_schema
  popped schema depth stack left h =
      let (node, e) = visited-IsNode schema depth stack left (ground arith) in
      (ground arith, node, e)

  pops :
      (schema : InputSchema) (depth : ℕ) (stack : Stack)
      → depth ≤ limits.max_depth
      → IsNode limits schema
      → pop_schema limits schema depth stack ≡ ok (pushed schema depth stack)
  unfolding pop_schema
  pops schema depth stack deep node = ground (arith, IsNode-visited schema depth stack node)
