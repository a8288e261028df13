-- ===== src/Capability/Toy.antt =====
-- A concrete `Jcs`, for the witnesses: the fields of the claims as a list of byte strings.
use soverign_founder_os.Base.{◌≡◌, refl, ap, ◌∙◌, Option, some, none, List, [], ◌∷◌}
use soverign_founder_os.Base.Text.{Bytes, codes}
use soverign_founder_os.External.Toy.Text.{of_codes, of_codes-codes}
use soverign_founder_os.External.Toy.Fields.{
  number_of, int_bytes, int_of, int_of-int_bytes, write_fields, read_fields,
  read_fields-write_fields,
}
use soverign_founder_os.Artifact.Toy.{
  risk_bytes, risk_of, risk_of-risk_bytes, backend_bytes, backend_of, backend_of-backend_bytes,
}
use soverign_founder_os.Capability.Claims.{
  ApprovalEvidenceV2, CapabilityClaimsV2, ApprovalClaimsV1, Jcs,
}

abbrev evidence_bytes : Option ApprovalEvidenceV2 → Bytes
evidence_bytes none = []
evidence_bytes (some x) =
    write_fields
      ((x.approval_id ∷ []) ∷ codes x.approver_subject_id ∷ int_bytes x.approved_at_unix ∷ [])

abbrev evidence_in : List Bytes → Option ApprovalEvidenceV2
evidence_in (b0 ∷ b1 ∷ b2 ∷ []) = some (record {
  approval_id = number_of b0;
  approver_subject_id = of_codes b1;
  approved_at_unix = int_of b2;
})
evidence_in _ = none

abbrev evidence_of : Bytes → Option ApprovalEvidenceV2
evidence_of b = evidence_in (read_fields b)

evidence_of-evidence_bytes : (x : Option ApprovalEvidenceV2) → evidence_of (evidence_bytes x) ≡ x
evidence_of-evidence_bytes none = refl
evidence_of-evidence_bytes (some x) =
    ap evidence_in (
      read_fields-write_fields
        ((x.approval_id ∷ []) ∷ codes x.approver_subject_id ∷ int_bytes x.approved_at_unix ∷ []))
    ∙ (λ i. some (record {
      approval_id = x.approval_id;
      approver_subject_id = of_codes-codes x.approver_subject_id i;
      approved_at_unix = int_of-int_bytes x.approved_at_unix i;
    }))

abbrev pub claims_fields : CapabilityClaimsV2 → List Bytes
claims_fields x =
    (codes x.typ)
    ∷ (x.version ∷ [])
    ∷ (codes x.issuer)
    ∷ x.issuer_key_id
    ∷ (codes x.audience)
    ∷ (x.token_id ∷ [])
    ∷ (codes x.venture_id)
    ∷ (codes x.subject_id)
    ∷ (x.session_id ∷ [])
    ∷ (codes x.tool.tool_id)
    ∷ (codes x.tool.tool_version)
    ∷ (codes x.tool.operation)
    ∷ x.component_digest
    ∷ x.manifest_digest
    ∷ x.canonical_input_digest
    ∷ x.resource_bindings_digest
    ∷ (codes x.canonicalization_profile)
    ∷ (codes x.primary_resource)
    ∷ (x.policy_decision_id ∷ [])
    ∷ x.policy_decision_digest
    ∷ (evidence_bytes x.approval_evidence)
    ∷ (x.idempotency_key ∷ [])
    ∷ (int_bytes x.issued_at_unix)
    ∷ (int_bytes x.expires_at_unix)
    ∷ (x.max_uses ∷ [])
    ∷ (risk_bytes x.risk_class)
    ∷ (backend_bytes x.backend)
    ∷ []

abbrev claims_of : List Bytes → Option CapabilityClaimsV2
claims_of
      (b0 ∷ b1 ∷ b2 ∷ b3 ∷ b4 ∷ b5 ∷ b6 ∷ b7 ∷ b8 ∷ b9 ∷ b10 ∷ b11 ∷ b12 ∷ b13 ∷ b14 ∷ b15 ∷ b16
        ∷ b17 ∷ b18 ∷ b19 ∷ b20 ∷ b21 ∷ b22 ∷ b23 ∷ b24 ∷ b25 ∷ b26 ∷ []) =
    some (record {
      typ = of_codes b0;
      version = number_of b1;
      issuer = of_codes b2;
      issuer_key_id = b3;
      audience = of_codes b4;
      token_id = number_of b5;
      venture_id = of_codes b6;
      subject_id = of_codes b7;
      session_id = number_of b8;
      tool = record {
        tool_id = of_codes b9;
        tool_version = of_codes b10;
        operation = of_codes b11;
      };
      component_digest = b12;
      manifest_digest = b13;
      canonical_input_digest = b14;
      resource_bindings_digest = b15;
      canonicalization_profile = of_codes b16;
      primary_resource = of_codes b17;
      policy_decision_id = number_of b18;
      policy_decision_digest = b19;
      approval_evidence = evidence_of b20;
      idempotency_key = number_of b21;
      issued_at_unix = int_of b22;
      expires_at_unix = int_of b23;
      max_uses = number_of b24;
      risk_class = risk_of b25;
      backend = backend_of b26;
    })
claims_of _ = none

claims_of-claims_fields : (x : CapabilityClaimsV2) → claims_of (claims_fields x) ≡ some x
claims_of-claims_fields x = λ i. some (record {
  typ = of_codes-codes x.typ i;
  version = x.version;
  issuer = of_codes-codes x.issuer i;
  issuer_key_id = x.issuer_key_id;
  audience = of_codes-codes x.audience i;
  token_id = x.token_id;
  venture_id = of_codes-codes x.venture_id i;
  subject_id = of_codes-codes x.subject_id i;
  session_id = x.session_id;
  tool = record {
    tool_id = of_codes-codes x.tool.tool_id i;
    tool_version = of_codes-codes x.tool.tool_version i;
    operation = of_codes-codes x.tool.operation i;
  };
  component_digest = x.component_digest;
  manifest_digest = x.manifest_digest;
  canonical_input_digest = x.canonical_input_digest;
  resource_bindings_digest = x.resource_bindings_digest;
  canonicalization_profile = of_codes-codes x.canonicalization_profile i;
  primary_resource = of_codes-codes x.primary_resource i;
  policy_decision_id = x.policy_decision_id;
  policy_decision_digest = x.policy_decision_digest;
  approval_evidence = evidence_of-evidence_bytes x.approval_evidence i;
  idempotency_key = x.idempotency_key;
  issued_at_unix = int_of-int_bytes x.issued_at_unix i;
  expires_at_unix = int_of-int_bytes x.expires_at_unix i;
  max_uses = x.max_uses;
  risk_class = risk_of-risk_bytes x.risk_class i;
  backend = backend_of-backend_bytes x.backend i;
})

pub claims_read_back :
    (x : CapabilityClaimsV2) (bytes : Bytes)
    → some (write_fields (claims_fields x)) ≡ some bytes
    → claims_of (read_fields bytes) ≡ some x
claims_read_back x bytes h =
    let same : bytes ≡ write_fields (claims_fields x) = cc in
    ap (λ (b : Bytes). claims_of (read_fields b)) same
    ∙ ap claims_of (read_fields-write_fields (claims_fields x))
    ∙ claims_of-claims_fields x

abbrev pub approval_fields : ApprovalClaimsV1 → List Bytes
approval_fields x =
    (codes x.typ)
    ∷ (x.version ∷ [])
    ∷ (x.approval_id ∷ [])
    ∷ (codes x.approver_issuer)
    ∷ x.approver_key_id
    ∷ (codes x.approver_subject_id)
    ∷ (codes x.audience)
    ∷ (codes x.venture_id)
    ∷ (codes x.subject_id)
    ∷ (x.session_id ∷ [])
    ∷ (codes x.tool.tool_id)
    ∷ (codes x.tool.tool_version)
    ∷ (codes x.tool.operation)
    ∷ x.component_digest
    ∷ x.manifest_digest
    ∷ x.canonical_input_digest
    ∷ x.resource_bindings_digest
    ∷ (codes x.primary_resource)
    ∷ (x.policy_decision_id ∷ [])
    ∷ x.policy_decision_digest
    ∷ (codes x.canonicalization_profile)
    ∷ (int_bytes x.approved_at_unix)
    ∷ (int_bytes x.expires_at_unix)
    ∷ []

abbrev approval_of : List Bytes → Option ApprovalClaimsV1
approval_of
      (b0 ∷ b1 ∷ b2 ∷ b3 ∷ b4 ∷ b5 ∷ b6 ∷ b7 ∷ b8 ∷ b9 ∷ b10 ∷ b11 ∷ b12 ∷ b13 ∷ b14 ∷ b15 ∷ b16
        ∷ b17 ∷ b18 ∷ b19 ∷ b20 ∷ b21 ∷ b22 ∷ []) =
    some (record {
      typ = of_codes b0;
      version = number_of b1;
      approval_id = number_of b2;
      approver_issuer = of_codes b3;
      approver_key_id = b4;
      approver_subject_id = of_codes b5;
      audience = of_codes b6;
      venture_id = of_codes b7;
      subject_id = of_codes b8;
      session_id = number_of b9;
      tool = record {
        tool_id = of_codes b10;
        tool_version = of_codes b11;
        operation = of_codes b12;
      };
      component_digest = b13;
      manifest_digest = b14;
      canonical_input_digest = b15;
      resource_bindings_digest = b16;
      primary_resource = of_codes b17;
      policy_decision_id = number_of b18;
      policy_decision_digest = b19;
      canonicalization_profile = of_codes b20;
      approved_at_unix = int_of b21;
      expires_at_unix = int_of b22;
    })
approval_of _ = none

approval_of-approval_fields : (x : ApprovalClaimsV1) → approval_of (approval_fields x) ≡ some x
approval_of-approval_fields x = λ i. some (record {
  typ = of_codes-codes x.typ i;
  version = x.version;
  approval_id = x.approval_id;
  approver_issuer = of_codes-codes x.approver_issuer i;
  approver_key_id = x.approver_key_id;
  approver_subject_id = of_codes-codes x.approver_subject_id i;
  audience = of_codes-codes x.audience i;
  venture_id = of_codes-codes x.venture_id i;
  subject_id = of_codes-codes x.subject_id i;
  session_id = x.session_id;
  tool = record {
    tool_id = of_codes-codes x.tool.tool_id i;
    tool_version = of_codes-codes x.tool.tool_version i;
    operation = of_codes-codes x.tool.operation i;
  };
  component_digest = x.component_digest;
  manifest_digest = x.manifest_digest;
  canonical_input_digest = x.canonical_input_digest;
  resource_bindings_digest = x.resource_bindings_digest;
  primary_resource = of_codes-codes x.primary_resource i;
  policy_decision_id = x.policy_decision_id;
  policy_decision_digest = x.policy_decision_digest;
  canonicalization_profile = of_codes-codes x.canonicalization_profile i;
  approved_at_unix = int_of-int_bytes x.approved_at_unix i;
  expires_at_unix = int_of-int_bytes x.expires_at_unix i;
})

pub approval_read_back :
    (x : ApprovalClaimsV1) (bytes : Bytes)
    → some (write_fields (approval_fields x)) ≡ some bytes
    → approval_of (read_fields bytes) ≡ some x
approval_read_back x bytes h =
    let same : bytes ≡ write_fields (approval_fields x) = cc in
    ap (λ (b : Bytes). approval_of (read_fields b)) same
    ∙ ap approval_of (read_fields-write_fields (approval_fields x))
    ∙ approval_of-approval_fields x

abbrev pub toy_jcs : Jcs
toy_jcs = record {
  claims_to_vec = λ x. some (write_fields (claims_fields x));
  claims_from_slice = λ b. claims_of (read_fields b);
  approval_to_vec = λ x. some (write_fields (approval_fields x));
  approval_from_slice = λ b. approval_of (read_fields b);
  policy_to_vec = λ d. some (d.decision_id ∷ d.session_id ∷ []);
  fingerprint_to_vec = λ x. some (x.session_id ∷ codes x.audience);
  claims-from-to = claims_read_back;
  approval-from-to = approval_read_back;
}
