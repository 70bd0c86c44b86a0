-- ===== src/Samples.antt =====
-- A storage driver that meets the assumptions, a sorted list, and the theorems at concrete inputs.
mod Memory
mod States
mod Keys
mod Stores
mod Unary
mod Commands
mod Values
mod Updates
mod Hashes
mod Queues
mod Zsets
mod Replicas
mod SetAlgebra
