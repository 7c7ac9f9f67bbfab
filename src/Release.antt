-- ===== src/Release.antt =====
-- internal/release: versions and their order, the signatures of builds and of release manifests, and
-- lists of trusted keys.
pub mod Precedence
pub mod Version
pub mod Signing
pub mod Manifest
pub mod TrustList
mod Examples
