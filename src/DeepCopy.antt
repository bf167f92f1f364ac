-- ===== src/DeepCopy.antt =====
-- api/v1alpha1/zz_generated.deepcopy.go: the deep copies, on a memory with pointers.
mod Cells
mod Layouts
mod Copies
mod Pointers
pub mod Shown
pub mod Isolation
pub mod Fields
pub mod Specs
pub mod Clusters
pub mod Objects
pub mod Lists
unfoldable pub use Cells.*
unfoldable pub use Layouts.*
unfoldable pub use Copies.*
unfoldable pub use Pointers.*
