-- ===== src/Capability.antt =====
-- crates/capability/src: v2.rs and approval.rs. The children hold the errors, the signed claims, the
-- checks, the two sides (issuer and validator) and the approvals.
pub mod Errors
pub mod V1
pub mod Claims
pub mod Toy
pub mod Checks
pub mod Approval
pub mod Issuer
pub mod Validator
