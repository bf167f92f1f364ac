-- ===== src/Startup.antt =====
-- Start-up, cmd/main.go: the flags, the options of the two servers and of the manager, and `main`.
pub mod Options
pub mod Controllers
pub mod Main
pub mod Servers
pub mod Order
