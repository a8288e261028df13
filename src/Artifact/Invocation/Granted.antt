-- ===== src/Artifact/Invocation/Granted.antt =====
-- The collected grants and one round of the loop over the rules in crates/artifact/src/invocation.rs.
pub mod Gather
pub mod Prepared
use Prim.Native.String.{len}
use soverign_founder_os.Base.{
  ℕ, ◌≤◌, ◌≡◌, refl, subst, String, Bool, true, false, ◌⊎◌, inl, inr, Option, some, none, List, [],
  ◌∷◌, ◌++◌, All, Elem, Result, ok, err, reject, ok_or, ◌>>=◌, ◌>>◌, arith, ◌==◌, string_eq,
  >>=-eq-ok, reject-ok, Option-cases, if◌then◌else◌,
}
use text.Mathlib.TextEquality.{eq_iff}
use soverign_founder_os.Base.Sorted.{get, insert_new, without, get-insert_new, get-without}
use soverign_founder_os.External.{Crypto}
use soverign_founder_os.Artifact.{ResourceBindingRule, GrantCommitment}
use soverign_founder_os.Artifact.Json.{Value, as_str}
use soverign_founder_os.Artifact.Manifest.{is_supported}
use soverign_founder_os.Artifact.Serde.{Serde}
use soverign_founder_os.Artifact.Invocation.{
  RawResourceGrant, Grants, Gathered, is_some, collect_grants, resource_of, check_grant, commitment,
  grant_rule, gather, primary_of, insert_sorted, sorted, no_grant_left,
}

abbrev pub IsGrant : String → String → RawResourceGrant → Type 0
IsGrant id resource grant = (grant.binding_id ≡ id) × (grant.resource ≡ resource)

-- some grant of the list
abbrev pub Supplies : String → String → List RawResourceGrant → Type 0
Supplies id resource [] = ⊥
Supplies id resource (grant ∷ grants) = IsGrant id resource grant ⊎ Supplies id resource grants

-- a grant that is collected is the first of its binding
collected :
    (grant : RawResourceGrant) (grants : List RawResourceGrant) (acc m : Grants)
    → collect_grants (grant ∷ grants) acc ≡ ok m
    → (get grant.binding_id acc ≡ none)
      × (collect_grants grants (insert_new grant.binding_id grant.resource acc) ≡ ok m)
unfolding collect_grants
collected grant grants acc m h = (ground arith, ground arith)

collect_keeps :
    (grants : List RawResourceGrant) (acc m : Grants) (id resource : String)
    → collect_grants grants acc ≡ ok m
    → get id acc ≡ some resource
    → get id m ≡ some resource
unfolding collect_grants
collect_keeps [] acc m id resource h g = cc
collect_keeps (grant ∷ grants) acc m id resource h g =
    let (fresh, rest) = collected grant grants acc m h in
    collect_keeps grants (insert_new grant.binding_id grant.resource acc) m id resource rest (
      ground (
        arith,
        eq_iff grant.binding_id id,
        get-insert_new id grant.binding_id grant.resource acc fresh,
      ))

-- each grant is in the map of the collected grants
pub collect_complete :
    (grants : List RawResourceGrant) (acc m : Grants) (id resource : String)
    → collect_grants grants acc ≡ ok m
    → Supplies id resource grants
    → get id m ≡ some resource
collect_complete [] acc m id resource h supplies = elim supplies [ ]
collect_complete (grant ∷ grants) acc m id resource h (inl is_grant) =
    let (fresh, rest) = collected grant grants acc m h in
    collect_keeps grants (insert_new grant.binding_id grant.resource acc) m id resource rest (
      ground (
        arith,
        eq_iff grant.binding_id id,
        get-insert_new id grant.binding_id grant.resource acc fresh,
      ))
collect_complete (grant ∷ grants) acc m id resource h (inr later) =
    let (fresh, rest) = collected grant grants acc m h in
    collect_complete grants (insert_new grant.binding_id grant.resource acc) m id resource rest
      later

-- and nothing else is
pub collect_sound :
    (grants : List RawResourceGrant) (acc m : Grants) (id resource : String)
    → collect_grants grants acc ≡ ok m
    → get id m ≡ some resource
    → (get id acc ≡ some resource) ⊎ Supplies id resource grants
unfolding collect_grants
collect_sound [] acc m id resource h g = inl (cc)
collect_sound (grant ∷ grants) acc m id resource h g =
    let (fresh, rest) = collected grant grants acc m h in
    elim (collect_sound grants (insert_new grant.binding_id grant.resource acc) m id resource rest
      g) [
        | inr later ↦ inr (inr later)
        | inl here ↦ at_head (grant.binding_id == id) refl (
            subst (λ o. o ≡ some resource)
              (get-insert_new id grant.binding_id grant.resource acc fresh) here)
      ]
  where
    at_head :
        (same : Bool)
        → (grant.binding_id == id) ≡ same
        → (if same then some grant.resource else get id acc) ≡ some resource
        → (get id acc ≡ some resource) ⊎ Supplies id resource (grant ∷ grants)
    at_head true e k = inr (inl ((eq_iff grant.binding_id id).0 e, ground arith))
    at_head false e k = inl k

module _ (c : Crypto) (s : Serde) (input : Value) where
  -- the input names the resource for the rule: a text of 1 to 4096 bytes at its pointer
  pub record Names (rule : ResourceBindingRule) (resource : String) : Type 0 where
    pub supported : is_supported rule ≡ true
    pub value : Value
    pub at_pointer : s.pointer input rule.json_pointer ≡ some value
    pub is_text : as_str value ≡ some resource
    pub not_empty : 1 ≤ len resource
    pub fits : len resource ≤ 4096

  resource_of-Names :
      (rule : ResourceBindingRule) (resource : String)
      → resource_of c s input rule ≡ ok resource
      → Names rule resource
  unfolding resource_of
  resource_of-Names rule resource h = elim (Option-cases (s.pointer input rule.json_pointer)) [
    | inl missing ↦ absurd (ground arith)
    | inr (value, e) ↦ record {
      supported = ground arith;
      value = value;
      at_pointer = e;
      is_text = ground arith;
      not_empty = ground arith;
      fits = ground arith;
    }
  ]

  check_grant-ok :
      (rule : ResourceBindingRule) (resource : String) (supplied : Grants) {u : Unit}
      → check_grant c s rule resource supplied ≡ ok u
      → get rule.binding_id supplied ≡ some resource
  unfolding check_grant
  check_grant-ok rule resource supplied h = elim (Option-cases (get rule.binding_id supplied)) [
    | inl missing ↦ absurd (ground arith)
    | inr (granted, e) ↦ ground (arith, eq_iff granted resource)
  ]

  -- one round of the loop
  pub gathered :
      (rule : ResourceBindingRule) (rules : List ResourceBindingRule) (g g' : Gathered)
      → gather c s input (rule ∷ rules) g ≡ ok g'
      → (resource : String) × (resource_of c s input rule ≡ ok resource)
        × (get rule.binding_id g.supplied ≡ some resource)
        × (gather c s input rules (grant_rule c s rule resource g) ≡ ok g')
  unfolding gather
  gathered rule rules g g' h =
      let (resource, found, h1) =
        >>=-eq-ok (resource_of c s input rule)
          (λ resource.
            check_grant c s rule resource g.supplied
            >> gather c s input rules (grant_rule c s rule resource g))
          h in
      let (_, granted, rest) =
        >>=-eq-ok (check_grant c s rule resource g.supplied)
          (λ _. gather c s input rules (grant_rule c s rule resource g)) h1 in
      (resource, found, check_grant-ok rule resource g.supplied granted, rest)
