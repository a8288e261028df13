-- ===== src/Artifact/Manifest/Valid.antt =====
-- The operation of a manifest that crates/artifact/src/manifest.rs finds.
use soverign_founder_os.Base.{
  ◌≡◌, refl, subst, true, inl, inr, some, List, [], ◌∷◌, Elem, arith, Bool-cases, string_eq,
}
use text.Mathlib.TextEquality.{eq_iff}
use soverign_founder_os.Artifact.{OperationSelector, OperationDefinition}
use soverign_founder_os.Artifact.Manifest.{find_operation, selector_beq}

-- the definition of an operation, among those of a manifest
pub record IsDefinition (operation : OperationSelector) (operations : List OperationDefinition)
    (definition : OperationDefinition) : Type 0 where
  pub listed : Elem definition operations
  pub tool : definition.selector.tool_id ≡ operation.tool_id
  pub version : definition.selector.tool_version ≡ operation.tool_version
  pub name : definition.selector.operation_id ≡ operation.operation_id

selector_beq-eq :
    (a b : OperationSelector)
    → selector_beq a b ≡ true
    → (a.tool_id ≡ b.tool_id)
      × (a.tool_version ≡ b.tool_version)
      × (a.operation_id ≡ b.operation_id)
selector_beq-eq a b h = (
  ground (arith, eq_iff a.tool_id b.tool_id),
  ground (arith, eq_iff a.tool_version b.tool_version),
  ground (arith, eq_iff a.operation_id b.operation_id),
)

pub find_operation-IsDefinition :
    (operation : OperationSelector) (operations : List OperationDefinition)
    (definition : OperationDefinition)
    → find_operation operation operations ≡ some definition
    → IsDefinition operation operations definition
unfolding find_operation
find_operation-IsDefinition operation [] definition h = cc
find_operation-IsDefinition operation (first ∷ rest) definition h =
    elim (Bool-cases (selector_beq first.selector operation)) [
      | inl here ↦
          let same : first ≡ definition = ground arith in
          let (tool, version, name) = selector_beq-eq first.selector operation here in
          subst (IsDefinition operation (first ∷ rest)) same
            (record { listed = inl refl; tool = tool; version = version; name = name })
      | inr there ↦
          let found = find_operation-IsDefinition operation rest definition (ground arith) in
          record {
            listed = inr found.listed;
            tool = found.tool;
            version = found.version;
            name = found.name;
          }
    ]
