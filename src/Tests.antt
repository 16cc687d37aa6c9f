-- ===== src/Tests.antt =====
-- Runs of the modelled code on concrete data, and the theorems applied to it.
mod Data
mod World
mod Structures
mod Closing
mod Fluids
mod Disk
mod Actions
mod Sorted
mod Cache
mod Wire
mod Packets
mod Players
mod Roster
mod Eating
mod Mobs
mod Crafting
