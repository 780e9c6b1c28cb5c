-- ===== src/Tests.antt =====
-- Concrete inputs, and each theorem applied to one.
mod Data
mod Codecs
mod Sets
mod Merges
mod Commits
mod Documents
mod Members
mod Patches
mod Regions
mod Outputs
mod Paths
mod Verifies
