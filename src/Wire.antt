-- ===== src/Wire.antt =====
-- wire.go, its fields and frames. The protowire package is not of this repository: it is the
-- parameter `Protowire`, and what the code relies on are the hypotheses `Laws`.
pub mod Proto
pub mod Fields
pub mod Parse
pub mod Message
pub mod Returns
pub mod Invariant
pub mod Frame
pub mod Plain
