-- ===== src/Pc1.antt =====
-- pc1/: the walk through the graph of parents, and the requests to the drives.
pub mod ParentIter
pub mod NodeRw
pub mod Rows
pub mod TreeD
pub mod TreeBuilder
pub mod TreeC
pub mod TreeR
