-- ===== src/Fs/Cow.antt =====
-- crates/zerox-fs/src/cow.rs: the nodes of the copy-on-write tree. The checksum of a node is the
-- `crc32` of its data.
pub mod Nodes
mod Tests
use zeroxos_os.Base.{
  ℕ, ◌+◌, ◌-◌, ◌%◌, Bool, true, false, ◌&&◌, Option, none, some, List, [], ◌∷◌, if◌then◌else◌, ◌==◌,
  ltb, length, push, find, update_first, add64, u32_mod,
}
use zeroxos_os.Fs.Checksum.{crc32}

pub record CowNode : Type 0 where
  pub id : ℕ
  pub parent : Option ℕ
  pub keys : List ℕ
  pub children : List ℕ
  pub bytes : List ℕ
  pub refcount : ℕ
  pub checksum : ℕ

pub new_leaf : ℕ → List ℕ → CowNode
new_leaf id bytes = record {
  id = id;
  parent = none;
  keys = [];
  children = [];
  bytes = bytes;
  refcount = 1;
  checksum = crc32 bytes;
}

pub record CowTree : Type 0 where
  pub root : ℕ
  pub nodes : List CowNode
  pub next_id : ℕ
  pub snapshot_count : ℕ

pub new : CowTree
new = record { root = 0; nodes = new_leaf 0 [] ∷ []; next_id = 1; snapshot_count = 0 }

-- `self.nodes.iter_mut().find(|n| n.id == id)`
pub find_node : CowTree → ℕ → Option CowNode
find_node t id = find (λ n. n.id == id) t.nodes

pub snapshot : CowTree → ℕ × CowTree
snapshot t = (
  t.root,
  record t {
    snapshot_count = (t.snapshot_count + 1) % u32_mod;
    nodes =
        update_first (λ n. n.id == t.root) (λ n. record n { refcount = (n.refcount + 1) % u32_mod })
          t.nodes;
  },
)

-- A shared node keeps its data, and a copy with the new data is added at the end; a node that is
-- not shared is overwritten.
pub write : CowTree → ℕ → List ℕ → CowTree
write t leaf_id new_data = elim (find_node t leaf_id) [
  | none ↦ t
  | some node ↦
      if ltb 1 node.refcount
      then record t {
        next_id = add64 t.next_id 1;
        nodes =
            push
              (update_first (λ n. n.id == leaf_id) (λ n. record n { refcount = n.refcount - 1 })
                t.nodes)
              (record node {
                id = t.next_id;
                refcount = 1;
                bytes = new_data;
                checksum = crc32 new_data;
              });
      }
      else record t {
        nodes =
            update_first (λ n. n.id == leaf_id)
              (λ n. record n { bytes = new_data; checksum = crc32 new_data }) t.nodes;
      }
]

pub verify_nodes : List CowNode → Bool
verify_nodes [] = true
verify_nodes (n ∷ ns) = n.checksum == crc32 n.bytes && verify_nodes ns

pub verify : CowTree → Bool
verify t = verify_nodes t.nodes

pub node_count : CowTree → ℕ
node_count t = length t.nodes
