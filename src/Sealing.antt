-- ===== src/Sealing.antt =====
-- sealing/: node ids and the parameters of a sector.
pub mod NodeId
pub mod SectorParameters
