-- ===== src/Permission.antt =====
-- internal/controller/permission_controller.go: the reconciler of GaragePermission objects.
mod Reconcile
pub mod Calls
pub mod Grants
pub mod Settled
pub mod Revocation
pub mod NoPanic
pub mod Deletion
unfoldable pub use Reconcile.*
