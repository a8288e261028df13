-- ===== src/Artifact/Schema/Declared/Loop.antt =====
-- The loop of `validate_declaration` in crates/artifact/src/schema.rs ends, and what it accepts.
use soverign_founder_os.Base.{
  ℕ, zero, suc, ◌+◌, ◌≤◌, ◌≡◌, ◌↔◌, refl, sym, subst, Option, some, [], ◌∷◌, Result, ok, err, arith,
  ◌>>◌,
}
use soverign_founder_os.Artifact.{InputLimits, InputSchema, Properties, end, property}
use soverign_founder_os.Artifact.Errors.{ArtifactError}
use soverign_founder_os.Artifact.Schema.{
  Check, Stack, max_declared_input_bytes, max_declared_input_depth, validate_limits,
  push_properties, pop_schema, after_visit, declaration_loop, schema_size, properties_size,
  validate_declaration,
}
use soverign_founder_os.Artifact.Schema.Declared.{
  Within, IsDeclared, Waiting, pushed, pushed-Waiting, Waiting-pushed, popped, pops,
}

-- what the loop has still to visit
waiting_size : Stack → ℕ
waiting_size [] = 0
waiting_size ((schema, depth) ∷ stack) = schema_size schema + waiting_size stack

push-waiting_size :
    (properties : Properties) (depth : ℕ) (stack : Stack)
    → waiting_size (push_properties properties depth stack)
      ≡ properties_size properties + waiting_size stack
unfolding push_properties waiting_size schema_size
push-waiting_size end depth stack = omega arith
push-waiting_size (property name schema rest) depth stack =
    omega (arith, push-waiting_size rest depth ((schema, depth) ∷ stack))

pushed-waiting_size :
    (limits : InputLimits) (schema : InputSchema) (depth : ℕ) (stack : Stack)
    → suc (waiting_size (pushed limits schema depth stack))
      ≡ schema_size schema + waiting_size stack
unfolding pushed waiting_size schema_size
pushed-waiting_size limits (InputSchema.object properties required high) depth stack =
    omega (arith, push-waiting_size properties (suc depth) stack)
pushed-waiting_size limits (InputSchema.array items high) depth stack = omega arith
pushed-waiting_size limits (InputSchema.string high) depth stack = omega arith
pushed-waiting_size limits (InputSchema.integer minimum maximum) depth stack = omega arith
pushed-waiting_size limits InputSchema.boolean depth stack = omega arith
pushed-waiting_size limits InputSchema.null depth stack = omega arith

schema_size-pos : (schema : InputSchema) → 1 ≤ schema_size schema
unfolding schema_size
schema_size-pos (InputSchema.object properties required high) = omega arith
schema_size-pos (InputSchema.array items high) = omega arith
schema_size-pos (InputSchema.string high) = omega arith
schema_size-pos (InputSchema.integer minimum maximum) = omega arith
schema_size-pos InputSchema.boolean = omega arith
schema_size-pos InputSchema.null = omega arith

after_ok :
    (r : Result ArtifactError Stack) (next : Stack → Option Check)
    → after_visit r next ≡ some (ok tt)
    → (left : Stack) × (r ≡ ok left) × (next left ≡ some (ok tt))
unfolding after_visit
after_ok (err error) next h = cc
after_ok (ok left) next h = (left, refl, h)

after_ends :
    (r : Result ArtifactError Stack) (next : Stack → Option Check)
    → ((left : Stack) → r ≡ ok left → (c : Check) × (next left ≡ some c))
    → (c : Check) × (after_visit r next ≡ some c)
unfolding after_visit
after_ends (err error) next h = (err error, refl)
after_ends (ok left) next h = h left refl

module _ (limits : InputLimits) where
  loop_ends :
      (fuel : ℕ) (stack : Stack)
      → waiting_size stack ≤ fuel
      → (c : Check) × (declaration_loop limits fuel stack ≡ some c)
  unfolding declaration_loop waiting_size
  loop_ends zero [] enough = (ok tt, refl)
  loop_ends (suc fuel) [] enough = (ok tt, refl)
  loop_ends zero ((schema, depth) ∷ stack) enough = absurd (omega (arith, schema_size-pos schema))
  loop_ends (suc fuel) ((schema, depth) ∷ stack) enough =
      after_ends (pop_schema limits schema depth stack) (declaration_loop limits fuel) (λ left e.
        loop_ends fuel left (
          subst (λ s. waiting_size s ≤ fuel) ((popped limits schema depth stack left e).2)
            (omega (arith, pushed-waiting_size limits schema depth stack))))

  loop_sound :
      (fuel : ℕ) (stack : Stack)
      → declaration_loop limits fuel stack ≡ some (ok tt)
      → Waiting limits stack
  unfolding declaration_loop Waiting
  loop_sound zero [] h = tt
  loop_sound (suc fuel) [] h = tt
  loop_sound zero (entry ∷ stack) h = cc
  loop_sound (suc fuel) ((schema, depth) ∷ stack) h =
      let (left, e, rest) =
        after_ok (pop_schema limits schema depth stack) (declaration_loop limits fuel) h in
      let (deep, node, p) = popped limits schema depth stack left e in
      pushed-Waiting limits schema depth stack deep node
        (subst (Waiting limits) (sym p) (loop_sound fuel left rest))

  loop_complete :
      (fuel : ℕ) (stack : Stack)
      → waiting_size stack ≤ fuel
      → Waiting limits stack
      → declaration_loop limits fuel stack ≡ some (ok tt)
  unfolding declaration_loop waiting_size Waiting after_visit
  loop_complete zero [] enough on = refl
  loop_complete (suc fuel) [] enough on = refl
  loop_complete zero ((schema, depth) ∷ stack) enough on =
      absurd (omega (arith, schema_size-pos schema))
  loop_complete (suc fuel) ((schema, depth) ∷ stack) enough on =
      let (deep, node, rest) = Waiting-pushed limits schema depth stack on.0 on.1 in
      rw (pops limits schema depth stack deep node) (
        loop_complete fuel (pushed limits schema depth stack)
          (omega (arith, pushed-waiting_size limits schema depth stack)) rest)

abbrev pub IsFitting : InputLimits → Type 0
IsFitting limits =
    Within max_declared_input_bytes limits.max_bytes
    × Within max_declared_input_depth limits.max_depth

limits_fit : (limits : InputLimits) → validate_limits limits ≡ ok tt → IsFitting limits
unfolding validate_limits
limits_fit limits h = ((ground arith, ground arith), (ground arith, ground arith))

limits_pass : (limits : InputLimits) → IsFitting limits → validate_limits limits ≡ ok tt
unfolding validate_limits
limits_pass limits h = ground arith

opened :
    (limits : InputLimits) (schema : InputSchema) (left : Stack)
    → (validate_limits limits >> ok ((schema, 1) ∷ [])) ≡ ok left
    → IsFitting limits × (((schema, 1) ∷ []) ≡ left)
opened limits schema left h = (limits_fit limits (ground arith), ground arith)

-- The loop always ends, after at most one round for each schema in the declaration. It accepts exactly
-- the declarations whose limits are in range and in which every schema lies within the depth, has
-- bounds in range and in order, at most as many properties as it may, with proper names, and requires
-- only properties that it has.
pub validate_declaration_ends :
    (schema : InputSchema) (limits : InputLimits)
    → ((c : Check) × (validate_declaration schema limits ≡ some c))
      × ((validate_declaration schema limits ≡ some (ok tt))
          ↔ (IsFitting limits × IsDeclared limits 1 schema))
unfolding validate_declaration waiting_size Waiting after_visit
validate_declaration_ends schema limits =
    let first : Result ArtifactError Stack = validate_limits limits >> ok ((schema, 1) ∷ []) in
    let loop = declaration_loop limits (schema_size schema) in
    (
      after_ends first loop (λ left e. loop_ends limits (schema_size schema) left (
          subst (λ s. waiting_size s ≤ schema_size schema) ((opened limits schema left e).1)
            (omega arith))),
      (
        λ h.
            let (left, e, rest) = after_ok first loop h in
            let (fitting, p) = opened limits schema left e in
            (
              fitting,
              (subst (Waiting limits) (sym p) (loop_sound limits (schema_size schema) left rest)).0,
            ),
        λ h.
            rw (limits_pass limits h.0) (
              loop_complete limits (schema_size schema) ((schema, 1) ∷ []) (omega arith) (h.1, tt)),
      ),
    )
