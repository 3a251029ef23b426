-- ===== src/Nvme.antt =====
-- nvme/: the queues between threads, and to the drives.
pub mod Window
pub mod Fifo
pub mod Pool
pub mod RingBuffer
pub mod RingCounter
pub mod Qpair
