-- ===== src/Tests.antt =====
-- Runs at concrete inputs, and the theorems at inputs that meet their hypotheses.
mod MemoryGit
mod Gates
mod Ranges
mod Texts
mod Retries
mod Triage
mod Floors
mod Pins
mod Identities
mod Operations
mod Migrations
mod Hubs
mod Contracts
mod Sources
mod Seeds
mod Detectors
mod Dockerfiles
mod Sdks
mod Generators
