-- ===== src/Examples.antt =====
-- Concrete inputs: tests, and the theorems applied to them.
mod Wires
mod Snapshots
mod Values
mod Arenas
mod Raises
mod Prints
mod Sessions
mod Calls
mod Pools
mod Policies
