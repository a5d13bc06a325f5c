-- ===== src/Fs/Cow/Nodes.antt =====
-- The checksums of the nodes, and the data of shared nodes.
use zeroxos_os.Base.{
  subst, ==_iff, All, ℕ, ◌-◌, ◌<◌, ◌≡◌, refl, sym, ap, ◌∙◌, Bool, true, Option, none, some, List,
  [], ◌∷◌, if◌then◌else◌, ◌==◌, ==_self, ltb, push, find, update_first, inl, inr, Bool-cases, arith,
  add64,
}
use zeroxos_os.Fs.Checksum.{crc32}
use zeroxos_os.Fs.Cow.{CowNode, CowTree, find_node, snapshot, write, verify_nodes, verify}

verify_nodes-push :
    (ns : List CowNode) (n : CowNode)
    → verify_nodes ns ≡ true
    → n.checksum ≡ crc32 n.bytes
    → verify_nodes (push ns n) ≡ true
unfolding verify_nodes
verify_nodes-push [] n h e = ground (arith, ==_self (crc32 n.bytes))
verify_nodes-push (x ∷ ns) n h e = ground (arith, verify_nodes-push ns n)

verify_nodes-update_first :
    (test : CowNode → Bool) (change : CowNode → CowNode) (ns : List CowNode)
    → ((n : CowNode) → n.checksum ≡ crc32 n.bytes → (change n).checksum ≡ crc32 (change n).bytes)
    → verify_nodes ns ≡ true
    → verify_nodes (update_first test change ns) ≡ true
unfolding verify_nodes
verify_nodes-update_first test change [] keep h = refl
verify_nodes-update_first test change (x ∷ ns) keep h =
    ground (arith, verify_nodes-update_first test change ns keep, keep x)

verify-write :
    (t : CowTree) (leaf_id : ℕ) (bytes : List ℕ) (o : Option CowNode)
    → find_node t leaf_id ≡ o
    → verify t ≡ true
    → verify (write t leaf_id bytes) ≡ true
unfolding write verify
verify-write t leaf_id bytes none e h = rw (e, write) h
verify-write t leaf_id bytes (some node) e h = elim (Bool-cases (ltb 1 node.refcount)) [
  | inl y ↦
      rw (e, write, y)
        (verify_nodes-push _ _ (verify_nodes-update_first _ _ t.nodes (λ n k. k) h) refl)
  | inr y ↦ rw (e, write, y) (verify_nodes-update_first _ _ t.nodes (λ n k. refl) h)
]

-- If every node of a tree has the checksum of its data, then so it is after a snapshot and after a
-- write of any data to any id.
pub verify-snapshot-write :
    (t : CowTree) (leaf_id : ℕ) (bytes : List ℕ)
    → verify t ≡ true
    → (verify (snapshot t).1 ≡ true) × (verify (write t leaf_id bytes) ≡ true)
unfolding snapshot verify
verify-snapshot-write t leaf_id bytes h = (
  verify_nodes-update_first _ _ t.nodes (λ n k. k) h,
  verify-write t leaf_id bytes (find_node t leaf_id) refl h,
)

abbrev pub map_node : (CowNode → CowNode) → Option CowNode → Option CowNode
map_node f none = none
map_node f (some n) = some (f n)

find_id : ℕ → List CowNode → Option CowNode
find_id j ns = find (λ n. n.id == j) ns

find_id-update_first :
    (id j : ℕ) (change : CowNode → CowNode) (ns : List CowNode)
    → ((n : CowNode) → (change n).id ≡ n.id)
    → find_id j (update_first (λ n. n.id == id) change ns)
      ≡ (if j == id then map_node change (find_id j ns) else find_id j ns)
unfolding find_id
find_id-update_first id j change [] keep = ground arith
find_id-update_first id j change (n ∷ ns) keep =
    ground (arith, find_id-update_first id j change ns keep, keep n)

abbrev pub IdBelow : ℕ → CowNode → Type 0
IdBelow k n = n.id < k

find_id-push_fresh :
    (k j : ℕ) (ns : List CowNode) (n : CowNode)
    → All (IdBelow k) ns
    → n.id ≡ k
    → find_id j (push ns n) ≡ (if j == k then some n else find_id j ns)
unfolding find_id
find_id-push_fresh k j [] n h e = ground arith
find_id-push_fresh k j (x ∷ ns) n h e = ground (arith, find_id-push_fresh k j ns n h.1 e)

IdBelow-update_first :
    (k : ℕ) (test : CowNode → Bool) (change : CowNode → CowNode) (ns : List CowNode)
    → ((n : CowNode) → (change n).id ≡ n.id)
    → All (IdBelow k) ns
    → All (IdBelow k) (update_first test change ns)
IdBelow-update_first k test change [] keep h = tt
IdBelow-update_first k test change (n ∷ ns) keep h =
    ground (arith, IdBelow-update_first k test change ns keep, keep n)

abbrev pub copy_of : CowTree → CowNode → List ℕ → CowNode
copy_of t node new_data = record node {
  id = t.next_id;
  refcount = 1;
  bytes = new_data;
  checksum = crc32 new_data;
}

write_shared :
    (t : CowTree) (leaf_id : ℕ) (new_data : List ℕ) (node : CowNode)
    → find_node t leaf_id ≡ some node
    → ltb 1 node.refcount ≡ true
    → write t leaf_id new_data ≡ record t {
      next_id = add64 t.next_id 1;
      nodes =
          push
            (update_first
              (λ n. n.id == leaf_id)
              (λ n. record n { refcount = n.refcount - 1 })
              t.nodes)
            (copy_of t node new_data);
    }
unfolding write
write_shared t leaf_id new_data node e shared = rw (write, e, shared) refl

other_reads :
    (t : CowTree) (leaf_id j : ℕ) (node : CowNode)
    → find_id leaf_id t.nodes ≡ some node
    → (if j == leaf_id
        then map_node (λ n. record n { refcount = n.refcount - 1 }) (find_id j t.nodes)
        else find_id j t.nodes)
      ≡ (if j == leaf_id
          then some (record node { refcount = node.refcount - 1 })
          else find_id j t.nodes)
other_reads t leaf_id j node e = elim (Bool-cases (j == leaf_id)) [
  | inl y ↦ rw y (
      ap (map_node (λ n. record n { refcount = n.refcount - 1 }))
        (subst (λ k. find_id k t.nodes ≡ some node) (sym ((==_iff j leaf_id).0 y)) e))
  | inr y ↦ rw y refl
]

-- In a tree whose ids are all below the next one, a write to a node that is shared leaves the data
-- of every node that was there: the node loses one reference, a copy with the new data and its
-- checksum stands under the next id, every other id names what it named, and the root id stays.
pub find_node-write_shared :
    (t : CowTree) (leaf_id j : ℕ) (new_data : List ℕ) (node : CowNode)
    → All (IdBelow t.next_id) t.nodes
    → find_node t leaf_id ≡ some node
    → 1 < node.refcount
    → (find_node (write t leaf_id new_data) j ≡ (
        if j == t.next_id
        then some (copy_of t node new_data)
        else (if j == leaf_id
            then some (record node { refcount = node.refcount - 1 })
            else find_node t j)))
      × ((write t leaf_id new_data).root ≡ t.root)
unfolding find_node find_id
find_node-write_shared t leaf_id j new_data node fresh e shared =
    rw (write_shared t leaf_id new_data node e (ground arith)) (
      find_id-push_fresh t.next_id j _ (copy_of t node new_data)
            (IdBelow-update_first t.next_id _ _ t.nodes (λ n. refl) fresh) refl
          ∙ ap (λ o. if j == t.next_id then some (copy_of t node new_data) else o)
              (find_id-update_first leaf_id j (λ n. record n { refcount = n.refcount - 1 }) t.nodes
                  (λ n. refl)
                ∙ other_reads t leaf_id j node e),
      refl,
    )
