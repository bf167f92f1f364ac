-- ===== src/Bucket.antt =====
-- internal/controller/bucket_controller.go: the reconciler of GarageBucket objects.
mod Resources
mod Reconcile
pub mod Frames
pub mod Deletion
pub mod Retention
pub mod Steady
pub mod Provision
pub mod Ownership
pub mod Managed
pub mod Disowned
pub mod Deleted
pub mod NilSafety
pub mod NoPanic
pub mod Release
unfoldable pub use Resources.*
unfoldable pub use Reconcile.*
