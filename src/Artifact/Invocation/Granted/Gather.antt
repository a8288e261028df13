-- ===== src/Artifact/Invocation/Granted/Gather.antt =====
-- The loop over the rules in crates/artifact/src/invocation.rs.
use soverign_founder_os.Base.{
  ◌≡◌, ap, sym, subst, String, ◌⊎◌, inl, inr, Option, some, List, [], ◌∷◌, All, Elem, Elem-append,
  Elem-snoc, ok, arith, ◌==◌, string_eq, Bool-cases,
}
use text.Mathlib.TextEquality.{eq_iff}
use soverign_founder_os.Base.Sorted.{get, without, get-without, string_lt}
use soverign_founder_os.External.{Crypto}
use soverign_founder_os.Artifact.{ResourceBindingRule, GrantCommitment}
use soverign_founder_os.Artifact.Json.{Value}
use soverign_founder_os.Artifact.Serde.{Serde}
use soverign_founder_os.Artifact.Invocation.{
  Gathered, Grants, commitment, grant_rule, gather, primary_of, insert_sorted, sorted,
}
use soverign_founder_os.Artifact.Invocation.Granted.{Names, resource_of-Names, gathered}

-- some rule of the list
abbrev pub IsBound : String → List ResourceBindingRule → Type 0
IsBound id [] = ⊥
IsBound id (rule ∷ rules) = (rule.binding_id ≡ id) ⊎ IsBound id rules

Elem-insert_sorted :
    (x y : GrantCommitment) (ys : List GrantCommitment)
    → (x ≡ y) ⊎ Elem x ys
    → Elem x (insert_sorted y ys)
unfolding insert_sorted
Elem-insert_sorted x y [] m = m
Elem-insert_sorted x y (z ∷ zs) m = elim (Bool-cases (string_lt y.binding_id z.binding_id)) [
  | inl first ↦ rw first m
  | inr later ↦ rw later (place m (Elem-insert_sorted x y zs))
]
  where
    place :
        (x ≡ y) ⊎ ((x ≡ z) ⊎ Elem x zs)
        → ((x ≡ y) ⊎ Elem x zs → Elem x (insert_sorted y zs))
        → (x ≡ z) ⊎ Elem x (insert_sorted y zs)
    place (inl e) rest = inr (rest (inl e))
    place (inr (inl e)) rest = inl e
    place (inr (inr m)) rest = inr (rest (inr m))

pub Elem-sorted :
    (x : GrantCommitment) (xs done : List GrantCommitment)
    → Elem x xs ⊎ Elem x done
    → Elem x (sorted xs done)
unfolding sorted
Elem-sorted x [] done (inl m) = elim m [ ]
Elem-sorted x [] done (inr m) = m
Elem-sorted x (y ∷ ys) done (inl (inl e)) =
    Elem-sorted x ys (insert_sorted y done) (inr (Elem-insert_sorted x y done (inl e)))
Elem-sorted x (y ∷ ys) done (inl (inr m)) = Elem-sorted x ys (insert_sorted y done) (inl m)
Elem-sorted x (y ∷ ys) done (inr m) =
    Elem-sorted x ys (insert_sorted y done) (inr (Elem-insert_sorted x y done (inr m)))

module _ (c : Crypto) (s : Serde) (input : Value) where
  gather_nil : (g g' : Gathered) → gather c s input [] g ≡ ok g' → g ≡ g'
  unfolding gather
  gather_nil g g' h = cc

  gather_commits :
      (x : GrantCommitment) (rules : List ResourceBindingRule) (g g' : Gathered)
      → gather c s input rules g ≡ ok g'
      → Elem x g.commitments
      → Elem x g'.commitments
  unfolding grant_rule
  gather_commits x [] g g' h m =
      subst (λ (t : Gathered). Elem x t.commitments) (gather_nil g g' h) m
  gather_commits x (rule ∷ rules) g g' h m =
      let (resource, found, granted, rest) = gathered c s input rule rules g g' h in
      gather_commits x rules (grant_rule c s rule resource g) g' rest
        (Elem-append x g.commitments (commitment c s rule resource ∷ []) m)

  before_without :
      (id key resource : String) (m : Grants)
      → get id (without key m) ≡ some resource
      → get id m ≡ some resource
  before_without id key resource m h = ground (arith, eq_iff key id, get-without id key m)

  -- the rule is met by the grants that are left, and is committed to
  pub record IsMet (supplied : Grants) (commitments : List GrantCommitment)
      (rule : ResourceBindingRule) : Type 0 where
    pub resource : String
    pub names : Names c s input rule resource
    pub granted : get rule.binding_id supplied ≡ some resource
    pub committed : Elem (commitment c s rule resource) commitments

  pub gather_meets :
      (rules : List ResourceBindingRule) (g g' : Gathered) (supplied : Grants)
      → gather c s input rules g ≡ ok g'
      → ((id resource : String)
          → get id g.supplied ≡ some resource
          → get id supplied ≡ some resource)
      → All (IsMet supplied g'.commitments) rules
  unfolding grant_rule
  gather_meets [] g g' supplied h within = tt
  gather_meets (rule ∷ rules) g g' supplied h within =
      let (resource, found, granted, rest) = gathered c s input rule rules g g' h in
      let next = grant_rule c s rule resource g in
      (
        record {
          resource = resource;
          names = resource_of-Names c s input rule resource found;
          granted = within rule.binding_id resource granted;
          committed =
              gather_commits (commitment c s rule resource) rules next g' rest
                (Elem-snoc (commitment c s rule resource) g.commitments);
        },
        gather_meets rules next g' supplied rest
            (λ id r e. within id r (before_without id rule.binding_id r g.supplied e)),
      )

  -- a grant is left, or a rule has used it
  pub gather_uses :
      (rules : List ResourceBindingRule) (g g' : Gathered) (id resource : String)
      → gather c s input rules g ≡ ok g'
      → get id g.supplied ≡ some resource
      → (get id g'.supplied ≡ some resource) ⊎ IsBound id rules
  unfolding grant_rule
  gather_uses [] g g' id resource h e =
      inl (subst (λ (t : Gathered). get id t.supplied ≡ some resource) (gather_nil g g' h) e)
  gather_uses (rule ∷ rules) g g' id resource h e =
      let (r, found, granted, rest) = gathered c s input rule rules g g' h in
      let next = grant_rule c s rule r g in
      elim (Bool-cases (rule.binding_id == id)) [
        | inl same ↦ inr (inl ((eq_iff rule.binding_id id).0 same))
        | inr other ↦ later rule rules g' (
            gather_uses rules next g' id resource rest
              (ground (arith, get-without id rule.binding_id g.supplied)))
      ]
    where
      later :
          (rule : ResourceBindingRule) (rules : List ResourceBindingRule) (g' : Gathered)
          → (get id g'.supplied ≡ some resource) ⊎ IsBound id rules
          → (get id g'.supplied ≡ some resource) ⊎ ((rule.binding_id ≡ id) ⊎ IsBound id rules)
      later rule rules g' (inl left) = inl left
      later rule rules g' (inr bound) = inr (inr bound)

  -- the primary resource is that of the last primary rule, if there is one
  abbrev pub IsPrimary : List ResourceBindingRule → Option String → Option String → Type 0
  IsPrimary [] before after = after ≡ before
  IsPrimary (rule ∷ rules) before after =
      (resource : String) × Names c s input rule resource
      × IsPrimary rules (primary_of rule.primary resource before) after

  pub gather-IsPrimary :
      (rules : List ResourceBindingRule) (g g' : Gathered)
      → gather c s input rules g ≡ ok g'
      → IsPrimary rules g.primary_resource g'.primary_resource
  unfolding grant_rule
  gather-IsPrimary [] g g' h = ap (λ (t : Gathered). t.primary_resource) (sym (gather_nil g g' h))
  gather-IsPrimary (rule ∷ rules) g g' h =
      let (resource, found, granted, rest) = gathered c s input rule rules g g' h in
      (
        resource,
        resource_of-Names c s input rule resource found,
        gather-IsPrimary rules (grant_rule c s rule resource g) g' rest,
      )
