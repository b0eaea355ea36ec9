-- ===== src/Guardrails.antt =====
-- backend/app/guardrails: the policy rules and the approval tokens.
pub mod Crypto
pub mod Approval
pub mod Policy
pub mod Untrusted
