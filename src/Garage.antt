-- ===== src/Garage.antt =====
-- internal/controller/garage.go: `GarageAPI`, which the reconcilers use, and `GarageManager`, which
-- implements it by the admin SDK.
mod Interface
mod Connect
mod Manager
pub mod Laws
pub mod Connection
pub mod Follows
pub mod Lists
pub mod Listing
pub mod Rights
pub mod Server
pub mod Grants
pub mod Lawful
pub mod NoPanic
pub use Interface.*
unfoldable pub use Connect.*
unfoldable pub use Manager.*
