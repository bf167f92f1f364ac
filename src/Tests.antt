-- ===== src/Tests.antt =====
-- Runs of the model and the theorems at concrete inputs.
mod Memory
mod MemoryLaws
mod MemoryObjects
mod Data
mod Witnesses
mod Services
mod Lifecycle
mod Runs
mod MemoryCalm
mod MemorySystem
mod Shared
mod Launch
mod Release
mod CopyData
mod Copies
mod Meter
mod NilSafety
mod Delivery
mod Steady
mod Disowned
mod Connect
