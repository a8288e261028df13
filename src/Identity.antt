-- ===== src/Identity.antt =====
-- crates/identity/src: lib.rs (the errors), roles.rs (the signing roles) and the checks of signer.rs.
pub mod Device
pub mod Trust
pub mod Toy
mod Tests
use Prim.Native.String.{len}
use soverign_founder_os.Base.{
  ℕ, String, Bool, ◌||◌, ltb, Result, reject, ◌==◌, ◌!=◌, nat_eq, string_eq, list_eq,
}
use soverign_founder_os.Base.Text.{codes, trim}

pub data IdentityError : Type 0 where
  invalid_key key_material_mismatch : String → IdentityError
  unsupported_identity_version : ℕ → IdentityError
  verification_failed : IdentityError
  unsafe_path : String → IdentityError
  identity_file_too_large invalid_issuer invalid_validity duplicate_key_id : IdentityError
  unknown_key_id issuer_mismatch key_revoked key_not_yet_valid key_expired : IdentityError
  invalid_protected_headers unprotected_headers_forbidden : IdentityError
  missing_payload non_canonical_cose : IdentityError
  cose io json : String → IdentityError

-- The closed set of roles; the source has a type for each.
pub data SigningRole : Type 0 where
  publisher authority audit admission approval compiled_cache : SigningRole

abbrev pub role_name : SigningRole → String
role_name publisher = "publisher"
role_name authority = "authority"
role_name audit = "audit"
role_name admission = "artifact-admission"
role_name approval = "approval"
role_name compiled_cache = "compiled-cache"

abbrev pub content_type : SigningRole → String
content_type publisher = "application/sovereign.plugin-manifest+json;v=1"
content_type authority = "application/sovereign.capability+json;v=2"
content_type audit = "application/sovereign.audit-event+json;v=1"
content_type admission = "application/sovereign.artifact-admission+json;v=1"
content_type approval = "application/sovereign.approval+json;v=1"
content_type compiled_cache = "application/sovereign.compiled-cache-record+json;v=1"

abbrev pub external_aad : SigningRole → String
external_aad publisher = "sovereign:plugin-manifest:v1"
external_aad authority = "sovereign:capability:v2"
external_aad audit = "sovereign:audit-event:v1"
external_aad admission = "sovereign:artifact-admission:v1"
external_aad approval = "sovereign:approval:v1"
external_aad compiled_cache = "sovereign:compiled-cache-record:v1"

abbrev pub bad_issuer : String → Bool
bad_issuer issuer = (issuer == "") || (trim (codes issuer) != codes issuer) || ltb 256 (len issuer)

unfoldable pub validate_issuer : String → Result IdentityError (Unit {0})
validate_issuer issuer = reject (bad_issuer issuer) invalid_issuer
