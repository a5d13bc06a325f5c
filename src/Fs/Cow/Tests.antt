-- ===== src/Fs/Cow/Tests.antt =====
-- The nodes of a small tree, and the theorems on them.
use zeroxos_os.Base.{◌≡◌, refl, true, none, some, [], ◌∷◌, arith}
use zeroxos_os.Fs.Checksum.{crc32}
use zeroxos_os.Fs.Cow.{CowTree, CowNode, find_node, write, verify, verify_nodes}
use zeroxos_os.Fs.Cow.Nodes.{find_node-write_shared}

abbrev shared_leaf : CowNode
shared_leaf = record {
  id = 0;
  parent = none;
  keys = [];
  children = [];
  bytes = 3 ∷ [];
  refcount = 2;
  checksum = crc32 (3 ∷ []);
}

abbrev tree : CowTree
tree = record { root = 0; nodes = shared_leaf ∷ []; next_id = 1; snapshot_count = 1 }

tree-verifies : verify tree ≡ true
unfolding verify verify_nodes crc32
tree-verifies = refl

tree-found : find_node tree 0 ≡ some shared_leaf
unfolding find_node
tree-found = refl

find_node-write_shared_example :
    find_node (write tree 0 (4 ∷ [])) 0 ≡ some (record shared_leaf { refcount = 1 })
find_node-write_shared_example =
    (find_node-write_shared tree 0 0 (4 ∷ []) shared_leaf (omega arith, tt) tree-found
      (omega arith)).0
