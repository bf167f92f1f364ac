-- ===== src/Api.antt =====
-- The custom resources of api/v1alpha1, with their children passed on.
mod Shared
mod Cluster
mod AccessKey
mod Bucket
mod Permission
pub mod TargetName
unfoldable pub use Shared.*
pub use Cluster.*
unfoldable pub use AccessKey.*
unfoldable pub use Bucket.*
unfoldable pub use Permission.*
