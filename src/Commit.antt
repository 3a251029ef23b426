-- ===== src/Commit.antt =====
-- The first commit phase, in c1.
pub mod Output
pub mod PathElement
pub mod TreeProof
pub mod TreeDccProof
pub mod LabelProof
pub mod ColumnProof
pub mod NodeReader
pub mod Challenge
pub mod Driver
