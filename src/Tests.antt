-- ===== src/Tests.antt =====
-- Runs of the theorems at concrete inputs.
mod Data
mod Keys
mod Memory
mod Log
mod Stored
mod Tables
mod Levels
