-- ===== src/Tests.antt =====
-- Runs of the definitions at fixed inputs, and an instance of each theorem that has hypotheses.
mod Fifos
mod Rings
mod Ids
mod Paths
mod Proofs
mod Columns
mod Planner
mod Discarded
mod Driver
mod Queues
mod Trees
