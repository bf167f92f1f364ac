-- ===== src/AccessKey.antt =====
-- internal/controller/accesskey_controller.go: the reconciler of GarageAccessKey objects.
mod SecretContent
mod Reconcile
pub mod Credentials
mod TextPieces
pub mod SecretRead
pub mod Deletion
pub mod Retention
pub mod Calls
pub mod Provision
pub mod NoPanic
pub mod Release
unfoldable pub use SecretContent.*
unfoldable pub use Reconcile.*
