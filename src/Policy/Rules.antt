-- ===== src/Policy/Rules.antt =====
-- What `evaluate_rules` decides, against a description of the requests by their texts.
use text.Mathlib.TextEquality.{eq_iff}
use soverign_founder_os.Base.{
  ℕ, leb, refl, Bool, false, not, inl, inr, ◌++◌, Elem, ◌≡◌, ◌↔◌, ◌⊎◌, ◌≤◌, String, true, ◌&&◌, ◌∷◌,
  [], List, any, is_empty, arith, ◌==◌, string_eq,
}
use soverign_founder_os.Base.Text.{codes, HasPrefix, HasInfix, starts_with_iff, contains_iff}
use soverign_founder_os.Contracts.{DataClass, red, AutomationLevel, discriminant}
use soverign_founder_os.Policy.{
  evaluate_rules, denial_reasons, approval_reasons, push_if, high_risk_operations,
}

-- Red-zone data for a cloud tool.
abbrev pub IsCloudLeak : String → DataClass → Type 0
IsCloudLeak tool data_class = (data_class ≡ red) × HasPrefix (codes "cloud.") (codes tool)

-- A resource outside the venture: it climbs, or it is absolute.
abbrev pub IsEscape : String → Type 0
IsEscape resource = HasInfix (codes "..") (codes resource) ⊎ HasPrefix (codes "/") (codes resource)

module _ (tool resource : String) (data_class : DataClass) where
  denials_iff :
      (is_empty (denial_reasons tool resource data_class) ≡ true)
      ↔ (¬ IsCloudLeak tool data_class × ¬ IsEscape resource)
  denials_iff = ground (
    arith,
    starts_with_iff (codes "cloud.") (codes tool),
    contains_iff (codes "..") (codes resource),
    starts_with_iff (codes "/") (codes resource),
  )

  -- A request is allowed exactly when it does not send red-zone data to a cloud tool and its
  -- resource neither contains `..` nor starts with `/`, whatever the operation and the level.
  pub evaluate_rules-allowed :
      (operation : String) (level : AutomationLevel)
      → ((evaluate_rules tool operation resource data_class level).allowed ≡ true)
        ↔ (¬ IsCloudLeak tool data_class × ¬ IsEscape resource)
  unfolding evaluate_rules
  evaluate_rules-allowed operation level = denials_iff

-- The pair is one of the table of high-risk operations.
abbrev pub IsHighRisk : String → String → Type 0
IsHighRisk tool operation = Elem (tool, operation) high_risk_operations

any-Elem :
    (tool operation : String) (table : List (String × String))
    → (any (λ pair. (pair.0 == tool) && (pair.1 == operation)) table ≡ true)
      ↔ Elem (tool, operation) table
any-Elem tool operation [] = ground arith
any-Elem tool operation ((t, o) ∷ table) =
    ground (arith, eq_iff t tool, eq_iff o operation, any-Elem tool operation table)

some_reason :
    (a b : Bool) (r s : String)
    → (not (is_empty (push_if a r ++ push_if b s)) ≡ true) ↔ ((a ≡ true) ⊎ (b ≡ true))
some_reason true b r s = (λ h. inl refl, λ h. refl)
some_reason false true r s = (λ h. inr refl, λ h. refl)
some_reason false false r s = (λ h. inl h, λ h. elim h [ inl p ↦ p | inr p ↦ p ])

leb_iff : (m n : ℕ) → (leb m n ≡ true) ↔ (m ≤ n)
leb_iff m n = ground arith

approvals_iff :
    (tool operation : String) (level : AutomationLevel)
    → (not (is_empty (approval_reasons tool operation level)) ≡ true)
      ↔ ((2 ≤ discriminant level) ⊎ IsHighRisk tool operation)
approvals_iff tool operation level =
    let pushed =
      some_reason (leb 2 (discriminant level))
        (any (λ pair. (pair.0 == tool) && (pair.1 == operation)) high_risk_operations)
        "L2+ actions require human approval" "high-risk operation requires explicit approval" in
    let late = leb_iff 2 (discriminant level) in
    let risky = any-Elem tool operation high_risk_operations in
    (
      λ h. elim (pushed.0 h) [ inl l ↦ inl (late.0 l) | inr r ↦ inr (risky.0 r) ],
      λ d. pushed.1 (elim d [ inl l ↦ inl (late.1 l) | inr r ↦ inr (risky.1 r) ]),
    )

-- A human must approve exactly the requests of level L2 and above and those of a high-risk pair of
-- tool and operation, whatever the resource and the data class.
pub evaluate_rules-requires_approval :
    (tool operation resource : String) (data_class : DataClass) (level : AutomationLevel)
    → ((evaluate_rules tool operation resource data_class level).requires_approval ≡ true)
      ↔ ((2 ≤ discriminant level) ⊎ IsHighRisk tool operation)
unfolding evaluate_rules
evaluate_rules-requires_approval tool operation resource data_class level =
    approvals_iff tool operation level
