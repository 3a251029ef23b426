-- ===== src/Pc2.antt =====
-- The trees of pc2: the order in which their nodes are hashed.
pub mod Planner
