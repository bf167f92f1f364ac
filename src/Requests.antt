-- ===== src/Requests.antt =====
-- How many requests to Garage one reconciliation makes.
pub mod Metered
mod Manager
mod Buckets
mod Keys
mod Permissions
pub mod Bound
