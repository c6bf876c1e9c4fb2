-- ===== src/Tests.antt =====
-- Tests at concrete inputs, and the theorems at inputs that meet their hypotheses.
mod Flash
mod Formats
mod Discovery
mod HashIndex
mod Alloc
mod Format
mod Journal
mod Metadata
mod AllocMap
mod Sector
mod Mount
mod Names
