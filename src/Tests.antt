-- ===== src/Tests.antt =====
-- The theorems at concrete inputs, and runs of the definitions.
mod Paths
mod Graphs
mod Values
mod Settings
mod Texts
mod Filesystems
mod Dependencies
mod Plists
mod HeaderMaps
mod Ninjas
mod DerivedHashes
mod Executors
mod Objects
mod Jsons
