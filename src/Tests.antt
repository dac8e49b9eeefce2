-- ===== src/Tests.antt =====
-- Runs of the program on a store in memory, and the theorems at concrete inputs.
pub mod Pack
pub mod Shop
mod Documents
mod Keys
mod Access
mod Pages
mod Traversals
mod Schemas
mod Registrations
mod Minting
mod Requests
mod Answers
mod Restores
mod Resumptions
