-- ===== src/Tests.antt =====
-- Runs of the definitions at concrete inputs, and the properties at these inputs.
mod Data
mod Volumes
mod Molecules
mod Formats
mod Tables
mod Commands
mod Flags
mod Images
mod Layouts
mod Cycles
mod Paths
mod Races
mod Rounds
mod Extracts
mod Fuses
