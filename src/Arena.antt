-- ===== src/Arena.antt =====
-- arena.go: the values of a message as one list of nodes, which name their parts by the index of an
-- earlier node.
pub mod Encode
pub mod Decode
pub mod Total
pub mod Ends
pub mod Prefix
use monty_go.Common.{ℕ, List, [], ◌∷◌}

-- `legacyNodeTags` takes each of its keys to itself: these are the keys.
abbrev pub legacy_node_tags : List ℕ
legacy_node_tags =
    1 ∷ 2 ∷ 3 ∷ 4 ∷ 5 ∷ 6 ∷ 7 ∷ 8 ∷ 9 ∷ 11 ∷ 12 ∷ 13 ∷ 14 ∷ 15 ∷ 16 ∷ 17 ∷ 18 ∷ 19 ∷ 20 ∷ 21 ∷ 22
    ∷ 23 ∷ 25 ∷ 26 ∷ 27 ∷ 28 ∷ 29 ∷ 30 ∷ 31 ∷ 32 ∷ []
