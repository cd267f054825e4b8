-- ===== src/Examples/Codec.antt =====
-- The theorems of `Codec` at a record with a branch of two leaves.
use mpt_flat_poc.Prelude.{ℕ, ◌≡◌, ◌<◌, zero, suc, refl, List, [], ◌∷◌, replicate, length, arith}
use mpt_flat_poc.Node.{
  hash, inline, Node, leaf, branch, overflow, filled, vacant_slots, size, hash_node,
}
use mpt_flat_poc.Codec.Write.{
  DiskSubtree, serialize_subtree, record_size, write_node, node_size, half_up, ref_size,
}
use mpt_flat_poc.Codec.Lazy.{deserialize_subtree_lazy}
use mpt_flat_poc.Codec.Size.{Fits, serialize_subtree-size}
use mpt_flat_poc.Codec.Copy.{
  Storable, Copy, st_branch, st_leaf, st_overflow, StorableSlots, st_filled, st_vacant, st_end,
}
use mpt_flat_poc.Codec.Reread.All.{deserialize_subtree_lazy-serialize_subtree}
use mpt_flat_poc.Examples.Toy.{toy}
use mpt_flat_poc.Result.{ok}

abbrev small_leaf : Node
small_leaf = leaf (3 ∷ 4 ∷ 5 ∷ []) (9 ∷ 8 ∷ []) (inline (7 ∷ []))

abbrev two_leaves : Node
two_leaves =
    branch (filled small_leaf (filled small_leaf (vacant_slots 14))) (hash (replicate 32 6))

abbrev two_leaf_record : DiskSubtree
two_leaf_record = record { prefix = 1 ∷ 2 ∷ []; node = two_leaves }

small_leaf-Fits : Fits small_leaf
small_leaf-Fits = ((omega arith, (omega arith, (omega arith, tt))), omega arith, omega arith)

serialize_subtree-size_example :
    (payload : List ℕ) × (serialize_subtree two_leaf_record
      ≡ ok (let l : List ℕ × ℕ = (payload, length payload) in l))
    × (length payload ≡ record_size 2 two_leaves)
unfolding vacant_slots
serialize_subtree-size_example =
    serialize_subtree-size two_leaf_record (omega arith, (omega arith, tt)) (omega arith)
      (refl, (small_leaf-Fits, (small_leaf-Fits, tt)))

vacant-StorableSlots : (n : ℕ) → StorableSlots (vacant_slots n)
unfolding vacant_slots
vacant-StorableSlots zero = st_end
vacant-StorableSlots (suc n) = st_vacant (vacant_slots n) (vacant-StorableSlots n)

small_leaf-Storable : Storable small_leaf
small_leaf-Storable =
    st_leaf (3 ∷ 4 ∷ 5 ∷ []) (9 ∷ 8 ∷ []) (inline (7 ∷ []))
      (omega arith, (omega arith, (omega arith, tt))) (omega arith) (omega arith) (omega arith)

small_leaf_fits : node_size small_leaf < 4294967296
unfolding node_size half_up ref_size
small_leaf_fits = omega arith

-- A branch of a leaf and of a link to an overflow record.
abbrev linked : Node
linked =
    branch
      (filled small_leaf
        (filled (overflow (record { unit = 70000; len = 300 }) (replicate 32 4)) (vacant_slots 14)))
      (hash (replicate 32 6))

linked-Storable : Storable linked
unfolding size vacant_slots node_size
linked-Storable = st_branch _ (hash (replicate 32 6)) refl refl (
    st_filled small_leaf _ small_leaf_fits small_leaf-Storable (
      st_filled _ _ (omega arith)
        (st_overflow 70000 300 (replicate 32 4) (omega arith) (omega arith) refl)
        (vacant-StorableSlots 14)))

abbrev linked_record : DiskSubtree
linked_record = record { prefix = 1 ∷ 2 ∷ []; node = linked }

deserialize_subtree_lazy-serialize_subtree_example :
    (payload : List ℕ) × (total : ℕ) × (node : Node) × (serialize_subtree linked_record
      ≡ ok (let l : List ℕ × ℕ = (payload, total) in l))
    × (deserialize_subtree_lazy payload
        ≡ ok (let s : DiskSubtree = record { prefix = 1 ∷ 2 ∷ []; node = node } in s))
    × Copy linked node
    × Storable node
    × (hash_node node ≡ hash_node linked)
    × (write_node node ≡ write_node linked)
deserialize_subtree_lazy-serialize_subtree_example =
    deserialize_subtree_lazy-serialize_subtree linked_record (omega arith, (omega arith, tt))
      (omega arith) linked-Storable
