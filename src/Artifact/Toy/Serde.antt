-- ===== src/Artifact/Toy/Serde.antt =====
-- A concrete `Serde`, for the witnesses: a text that starts with zero is one fixed object, and any other
-- text is the array of its bytes.
use soverign_founder_os.Base.{
  zero, suc, ◌≡◌, refl, ap, ◌∙◌, subst, String, Option, some, none, List, [], ◌∷◌, Result, ok, err,
  ◌==◌, string_eq, if◌then◌else◌, length,
}
use soverign_founder_os.Base.Int.{pos}
use soverign_founder_os.Base.Text.{Bytes, codes}
use soverign_founder_os.External.Toy.Text.{of_codes, of_codes-codes}
use soverign_founder_os.External.Toy.Fields.{
  number_of, int_bytes, int_of, int_of-int_bytes, write_fields, read_fields,
  read_fields-write_fields,
}
use soverign_founder_os.Artifact.{PluginManifest}
use soverign_founder_os.Artifact.Toy.{
  risk_bytes, risk_of, risk_of-risk_bytes, backend_bytes, backend_of, backend_of-backend_bytes,
  abi_bytes, abi_of, abi_of-abi_bytes,
}
use soverign_founder_os.Artifact.Json.{
  Value, number, string, array, object, whole, Values, nil, cons, end, member, visit, visit_seq,
  find_member, Reader, parse_strict_json,
}
use soverign_founder_os.Artifact.Serde.{
  InstallationState, admitted, revoked, AdmissionRecordClaimsV1, Serde,
}

abbrev state_bytes : InstallationState → Bytes
state_bytes admitted = 0 ∷ []
state_bytes revoked = 1 ∷ []
state_bytes InstallationState.unsupported = []

abbrev state_of : Bytes → InstallationState
state_of [] = InstallationState.unsupported
state_of (zero ∷ _) = admitted
state_of (suc _ ∷ _) = revoked

state_of-state_bytes : (s : InstallationState) → state_of (state_bytes s) ≡ s
state_of-state_bytes admitted = refl
state_of-state_bytes revoked = refl
state_of-state_bytes InstallationState.unsupported = refl

abbrev texts_bytes : List String → List Bytes
texts_bytes [] = []
texts_bytes (s ∷ ss) = codes s ∷ texts_bytes ss

abbrev texts_of : List Bytes → List String
texts_of [] = []
texts_of (b ∷ bs) = of_codes b ∷ texts_of bs

texts_of-texts_bytes : (ss : List String) → texts_of (texts_bytes ss) ≡ ss
texts_of-texts_bytes [] = refl
texts_of-texts_bytes (s ∷ ss) = λ i. of_codes-codes s i ∷ texts_of-texts_bytes ss i

texts_back : (ss : List String) → texts_of (read_fields (write_fields (texts_bytes ss))) ≡ ss
texts_back ss = ap texts_of (read_fields-write_fields (texts_bytes ss)) ∙ texts_of-texts_bytes ss

abbrev record_fields : AdmissionRecordClaimsV1 → List Bytes
record_fields x =
    (codes x.typ)
    ∷ (x.version ∷ [])
    ∷ (x.admission_id ∷ [])
    ∷ (codes x.admitting_issuer)
    ∷ x.admitting_key_id
    ∷ x.component_digest
    ∷ x.manifest_digest
    ∷ (backend_bytes x.backend)
    ∷ (risk_bytes x.risk_class)
    ∷ (abi_bytes x.abi)
    ∷ (write_fields (texts_bytes x.effective_host_capabilities))
    ∷ (state_bytes x.installation_state)
    ∷ (codes x.canonicalization_profile)
    ∷ (int_bytes x.admitted_at_unix)
    ∷ []

abbrev record_of : List Bytes → Result String AdmissionRecordClaimsV1
record_of (b0 ∷ b1 ∷ b2 ∷ b3 ∷ b4 ∷ b5 ∷ b6 ∷ b7 ∷ b8 ∷ b9 ∷ b10 ∷ b11 ∷ b12 ∷ b13 ∷ []) =
    ok (record {
      typ = of_codes b0;
      version = number_of b1;
      admission_id = number_of b2;
      admitting_issuer = of_codes b3;
      admitting_key_id = b4;
      component_digest = b5;
      manifest_digest = b6;
      backend = backend_of b7;
      risk_class = risk_of b8;
      abi = abi_of b9;
      effective_host_capabilities = texts_of (read_fields b10);
      installation_state = state_of b11;
      canonicalization_profile = of_codes b12;
      admitted_at_unix = int_of b13;
    })
record_of _ = err "not a record"

record_of-record_fields : (x : AdmissionRecordClaimsV1) → record_of (record_fields x) ≡ ok x
record_of-record_fields x = λ i. ok (record {
  typ = of_codes-codes x.typ i;
  version = x.version;
  admission_id = x.admission_id;
  admitting_issuer = of_codes-codes x.admitting_issuer i;
  admitting_key_id = x.admitting_key_id;
  component_digest = x.component_digest;
  manifest_digest = x.manifest_digest;
  backend = backend_of-backend_bytes x.backend i;
  risk_class = risk_of-risk_bytes x.risk_class i;
  abi = abi_of-abi_bytes x.abi i;
  effective_host_capabilities = texts_back x.effective_host_capabilities i;
  installation_state = state_of-state_bytes x.installation_state i;
  canonicalization_profile = of_codes-codes x.canonicalization_profile i;
  admitted_at_unix = int_of-int_bytes x.admitted_at_unix i;
})

abbrev values_of : Bytes → Values
values_of [] = nil
values_of (n ∷ b) = cons (number (whole (pos n))) (values_of b)

abbrev bytes_of : Values → Bytes
bytes_of nil = []
bytes_of (cons (number (whole (pos n))) values) = n ∷ bytes_of values
bytes_of (cons _ values) = bytes_of values

bytes_of-values_of : (b : Bytes) → bytes_of (values_of b) ≡ b
bytes_of-values_of [] = refl
bytes_of-values_of (n ∷ b) = ap (λ (x : Bytes). n ∷ x) (bytes_of-values_of b)

visit_seq-values_of : (b : Bytes) → visit_seq (values_of b) ≡ ok (values_of b)
unfolding visit_seq visit
visit_seq-values_of [] = refl
visit_seq-values_of (n ∷ b) = rw (visit_seq-values_of b) refl

visit-values_of : (b : Bytes) → visit (array (values_of b)) ≡ ok (array (values_of b))
unfolding visit
visit-values_of b = rw (visit_seq-values_of b) refl

-- {"doc": "notes"}
abbrev pub toy_object : Value
toy_object = object (member "doc" (string "notes") end)

abbrev pub toy_events : Bytes → Result String Value
toy_events (zero ∷ _) = ok toy_object
toy_events b = ok (array (values_of b))

abbrev pub toy_value_to_vec : Value → Option Bytes
toy_value_to_vec (object _) = some (0 ∷ [])
toy_value_to_vec (array values) = some (bytes_of values)
toy_value_to_vec _ = none

abbrev pub toy_record_from_value : Value → Result String AdmissionRecordClaimsV1
toy_record_from_value (array values) = record_of (read_fields (bytes_of values))
toy_record_from_value _ = err "not a record"

abbrev pub toy_pointer : Value → String → Option Value
toy_pointer (object members) pointer = if pointer == "/doc" then find_member "doc" members else none
toy_pointer _ _ = none

abbrev pub toy_reader : Reader
toy_reader = record { events = toy_events }

record_read_back :
    (x : AdmissionRecordClaimsV1)
    → (v : Value) × (parse_strict_json toy_reader (write_fields (record_fields x)) ≡ ok v)
      × (toy_value_to_vec v ≡ some (write_fields (record_fields x)))
      × (toy_record_from_value v ≡ ok x)
unfolding parse_strict_json
record_read_back x =
    let b = write_fields (record_fields x) in
    (
      array (values_of b),
      visit-values_of b,
      ap some (bytes_of-values_of b),
      ap (λ (y : Bytes). record_of (read_fields y)) (bytes_of-values_of b)
          ∙ ap record_of (read_fields-write_fields (record_fields x))
          ∙ record_of-record_fields x,
    )

pub read_back :
    (x : AdmissionRecordClaimsV1) (b : Bytes)
    → some (write_fields (record_fields x)) ≡ some b
    → (v : Value) × (parse_strict_json toy_reader b ≡ ok v)
      × (toy_value_to_vec v ≡ some b)
      × (toy_record_from_value v ≡ ok x)
read_back x b h =
    let same : write_fields (record_fields x) ≡ b = cc in
    subst
      (λ (y : Bytes).
        (v : Value) × (parse_strict_json toy_reader y ≡ ok v)
        × (toy_value_to_vec v ≡ some y)
        × (toy_record_from_value v ≡ ok x))
      same (record_read_back x)

-- every manifest is read as the given one
abbrev pub toy_serde : PluginManifest → Serde
toy_serde manifest = record {
  reader = toy_reader;
  value_to_vec = toy_value_to_vec;
  commitments_to_vec = λ commitments. some (length commitments ∷ []);
  record_to_vec = λ x. some (write_fields (record_fields x));
  manifest_from_value = λ v. ok manifest;
  record_from_value = toy_record_from_value;
  pointer = toy_pointer;
  record_value = read_back;
}
