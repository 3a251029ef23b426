-- ===== src/Pc1/TreeR/Proof.antt =====
-- The sealed file and the tree over it are those that c1 proves inclusion in.
use supra_seal.Commit.TreeProof.{TreeProof}
use supra_seal.Pc1.TreeBuilder.{TreeBuilder}
