-- ===== src/Identity.antt =====
-- app/identity: access tokens and client registration.
pub mod TokenValidator
pub mod ClientRegistration
pub mod ProtectedResource
