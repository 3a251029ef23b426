-- ===== src/Lib.antt =====
-- Verification of supra_seal, which seals Filecoin sectors: it labels the nodes of a sector layer by
-- layer on NVMe drives (pc1), builds Merkle trees over them (pc2), and answers challenges with
-- inclusion proofs (c1).
--
-- The parts, and the files that model them:
-- - Nvme: the queues and rings of nvme/ring_t.hpp, which stand between the threads of pc1 and the
--   drives. Nvme/Fifo is `mt_fifo_t`, and Nvme/Fifo/Threads its use by one producer and one consumer,
--   as steps between the accesses to the shared memory. Nvme/Pool is `pool_t`, and its use under a
--   mutex, `mtx_fifo_t`. Nvme/RingBuffer is `ring_buffer_t`, whose slots are reserved, become valid
--   when the drive has answered, and are released. Nvme/RingCounter is `ring_counter_t`. Nvme/Window
--   is what they share: the places of a circular array, and the window of it that is in use.
--   Nvme/Qpair is the count of outstanding operations of nvme/nvme_qpair_t.hpp, and how the controller
--   of nvme/nvme_controller_t.hpp waits for the last of them: fuel for the polls that a drive needs for
--   each of them is enough. A poll with an error fails an assertion.
-- - Sealing: Sealing/NodeId is `node_id_t` of sealing/data_structures.hpp, which puts a layer and a
--   node into a word, and Sealing/SectorParameters the numbers of a sector size, from
--   sealing/sector_parameters.hpp.
-- - Pc1: `parent_iter_t` of pc1/parent_iter_t.hpp, which walks the parent graph through those ids, and
--   Pc1/NodeRw, a turn of the loop of pc1/node_rw_t.hpp, which takes batches of requests off a FIFO of
--   Nvme/Fifo and hands them to the queue pairs. Pc1/TreeD is pc1/tree_d.hpp and Pc1/TreeBuilder
--   pc1/tree_builder.hpp with one thread, which write the trees that c1 proves inclusion in; Pc1/Rows
--   is the loop that they share. Pc1/TreeC is pc1/tree_c.hpp, which puts the labels of a node in all
--   layers into a column, and Pc1/TreeR is pc1/tree_r.hpp, which adds the data to the last layer.
--   Both build the files of a sector with TreeBuilder, and the root above them. The code builds sectors of
--   at most 2^15 bytes so, and larger ones over a thread pool, which is not modelled. The loops over rows have fuel for 64 levels, more than a 64-bit count
--   of leaves can have, and the loop over a row has fuel for each of its nodes.
-- - Pc2: the planner of pc2/planner.cpp, which fixes the order in which the nodes of a tree are hashed
--   and the buffers that they are hashed into. Pc2/Planner is the scheduler with its stack, its map of
--   waiting nodes and its pool, Pc2/Planner/Postorder the recursion that it is to follow.
-- - Commit: the proofs of c1. Commit/Output is the file that they are written to, Commit/PathElement
--   is c1/path_element.hpp, Commit/TreeProof and Commit/TreeDccProof are the classes of
--   c1/tree_proof.hpp and the table of c1/tree_d_cc_nodes.h, with the levels below the discarded rows in Commit/TreeProof/First,
--   Commit/LabelProof is c1/label_proof.hpp and Commit/ColumnProof is c1/column_proof.hpp.
--   Commit/NodeReader is c1/streaming_node_reader_files.hpp, Commit/Challenge is c1/challenge.hpp,
--   which puts those proofs together for a challenge, and Commit/Driver is c1/c1.hpp, which does so
--   for a sector.
-- - Prelude: lists and options over the native numbers, 64-bit words and masks.
-- - Tests: runs at fixed inputs, and an instance of each theorem below that has hypotheses.
--
-- An object is a record of its fields, and a member function takes the object and gives back its
-- result and the object after it. A pointer to an element of a queue is an `Option`, with `none` for
-- null; a pointer to a node in a buffer is the node, or `none` outside the buffer. A failed assertion
-- is `none`. Sums and differences of `size_t` wrap at 2^64, written out (`add64`, `sub64`). Sizes of
-- containers are at most 2^62, so that the sums of indices are exact.
--
-- Fuel stands for the distance that a loop can go. `advance_valid` and `release_valid` are given as
-- much as there are slots in their way, and are shown to end with it. `log2` is given 64 halvings,
-- which reach 1 from any 64-bit word. The loop of the planner's `run` is given fuel for a hash of each
-- node, and shown to end with it. The loops over layers of a label proof and over partitions, whose
-- counters have 32 and 8 bits, have fuel for each turn, and are shown to end when the counter can pass
-- the last one. All other loops run a number of times that is known before.
--
-- The hash of a tree's nodes is a parameter, an arbitrary function on lists of nodes: SHA-256 and
-- Poseidon are assembly and CUDA. So are the sum of two field elements, which the field library
-- makes, and the digest that a challenge is made of, and the planner's hash
-- callback, of which the theorem on the root asks that it writes a node's hash to the node's buffer and
-- nothing else. The contents of the input files of c1 are fields, and a new file holds zeros. Atomic
-- accesses are sequentially consistent, as the code asks for. What a
-- drive answers to a command and to a poll is a parameter. Not modelled: the drives and SPDK, the
-- opening and mapping of files, the threads and topology of pc1, the CUDA code of pc2, c2 and poseidon,
-- and the programs in tools and demos.
pub mod Prelude
pub mod Nvme
pub mod Sealing
pub mod Pc1
pub mod Pc2
pub mod Commit
pub mod Tests
