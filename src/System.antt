-- ===== src/System.antt =====
-- The three controllers together, over one API server and one Garage.
pub mod Laws
pub mod Frames
pub mod Manager
mod Keys
mod Permissions
mod Buckets
pub mod Guarded
mod Branches
mod Turn
pub mod Invariant
pub mod Names
pub mod Local
pub mod NoPanic
pub mod CalmManager
pub mod CalmRequests
pub mod Delivery
