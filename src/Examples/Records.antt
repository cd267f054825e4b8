-- ===== src/Examples/Records.antt =====
-- The theorems on records of the frontier at concrete records.
use mpt_flat_poc.Prelude.{
  ℕ, zero, suc, ◌≡◌, ◌≤◌, refl, subst, Option, false, none, some, List, [], ◌∷◌, ◌++◌, replicate,
  length, length-append, length-replicate, list_eqb, arith, if◌then◌else◌, ◌%◌,
}
use mpt_flat_poc.Node.{
  Node, Slots, hash, empty, branch, filled, vacant_slots, make_branch, hash_node, finalize, slot_at,
  leaf_node, leaf_ref, mk_ref, branch_items, fill_slot, empty_box_children, embed, size,
  make_extension,
}
use mpt_flat_poc.Node.Access.{is_empty, occupied, slot_at-vacant_slots}
use mpt_flat_poc.Node.BranchRef.{slot_items, slots_ref, make_branch_lem}
use mpt_flat_poc.Codec.Write.{
  DiskSubtree, serialize_subtree, record_size, node_size, half_up, ref_size, write_nibble_path,
  write_node, len_bytes, write_ref,
}
use mpt_flat_poc.Eth.{pack_pairs, rlp_list, rlp_string, hex_prefix}
use mpt_flat_poc.Codec.Lazy.{deserialize_subtree_lazy}
use mpt_flat_poc.Codec.Size.{length-take}
use mpt_flat_poc.Frontier.{RamChild, ram_child_hash, mem}
use mpt_flat_poc.Frontier.Get.{record_get, ram_get_child}
use mpt_flat_poc.Frontier.Insert.{insert_in_record}
use mpt_flat_poc.Frontier.Leaf.{LeafTrie, record_get-insert_in_record}
use mpt_flat_poc.Frontier.Promote.{promote_to_mem, max_record_bytes}
use mpt_flat_poc.Frontier.Promoted.{Splits, promote_to_mem-branch}
use mpt_flat_poc.Frontier.Extended.{promote_to_mem-extension}
use mpt_flat_poc.Record.Ops.{LeafOp}
use mpt_flat_poc.Record.Insert.{
  record_node_insert, expand, insert_expanded, insert_at_leaf, common_prefix, split, index, rehome,
  place_new, wrap_branch,
}
use mpt_flat_poc.Record.Get.{Store, node_get, local_depth}
use mpt_flat_poc.Record.Trie.{Trie, value, single, fork, terminal}
use mpt_flat_poc.Record.Values.{IsValue}
use mpt_flat_poc.Examples.Toy.{toy}
use mpt_flat_poc.Result.{Result, ok, err, panicked}

abbrev pub nothing_stored : Store
nothing_stored ptr = err panicked

pub toy_wide : (bytes : List ℕ) → length (toy.keccak256 bytes) ≡ 32
toy_wide bytes =
    length-take 32 (length bytes % 256 ∷ (bytes ++ replicate 32 0)) (
      omega (arith, length-append bytes (replicate 32 0), length-replicate 32 (let z : ℕ = 0 in z)))

-- A record of one value below the prefix 1.
abbrev value_record : DiskSubtree
value_record = record { prefix = 1 ∷ []; node = terminal (value (7 ∷ [])) (1 ∷ 2 ∷ []) }

abbrev bytes_of : Result (List ℕ × ℕ) → List ℕ
bytes_of (ok r) = r.0
bytes_of (err e) = []

abbrev node_of : Result Node → Node
node_of (ok n) = n
node_of (err e) = empty

abbrev value_payload : List ℕ
value_payload = bytes_of (serialize_subtree value_record)

value_parsed : deserialize_subtree_lazy value_payload ≡ ok value_record
unfolding deserialize_subtree_lazy serialize_subtree terminal write_nibble_path write_node
    pack_pairs len_bytes write_ref leaf_ref mk_ref rlp_list rlp_string hex_prefix
value_parsed = refl

abbrev value_LeafTrie : LeafTrie 2 value_payload (finalize (hash_node value_record.node))
value_LeafTrie = record {
  sub = value_record;
  parsed = value_parsed;
  prefix_fits = (omega arith, tt);
  prefix_short = omega arith;
  tree = single (value (7 ∷ [])) (1 ∷ 2 ∷ []) tt (omega arith, (omega arith, tt)) refl;
  rooted = refl;
}

-- The same value at another path: the leaf is split.
abbrev two_values : Node
two_values = node_of (record_node_insert 3 value_record.node (4 ∷ 5 ∷ []) (LeafOp.value (9 ∷ [])))

two_values_inserted :
    record_node_insert 3 value_record.node (4 ∷ 5 ∷ []) (LeafOp.value (9 ∷ [])) ≡ ok two_values
unfolding record_node_insert terminal expand insert_expanded insert_at_leaf common_prefix split
    index rehome place_new make_branch branch_items fill_slot empty_box_children vacant_slots
two_values_inserted = refl

two_values_small : record_size 1 two_values ≤ 200
unfolding record_node_insert record_size terminal node_size half_up ref_size leaf_ref mk_ref
    rlp_list rlp_string hex_prefix pack_pairs expand insert_expanded insert_at_leaf common_prefix
    split index rehome place_new make_branch branch_items fill_slot empty_box_children vacant_slots
    wrap_branch embed
two_values_small = omega arith

record_get-insert_in_record_example :
    (bytes' : List ℕ) × (root' : List ℕ) × (insert_in_record nothing_stored 200 3
        (ok value_payload)
        (1 ∷ 4 ∷ 5 ∷ [])
        (LeafOp.value (9 ∷ []))
      ≡ ok (mem bytes' root'))
    × LeafTrie 2 bytes' root'
    × (record_get nothing_stored 10 (1 ∷ 4 ∷ 5 ∷ []) (ok bytes') ≡ (
        if list_eqb (4 ∷ 5 ∷ []) (4 ∷ 5 ∷ [])
        then ok (some (9 ∷ []))
        else record_get nothing_stored 10 (1 ∷ 4 ∷ 5 ∷ []) (ok value_payload)))
unfolding local_depth
record_get-insert_in_record_example =
    record_get-insert_in_record toy_wide nothing_stored 200 3 10 2 value_payload _ (1 ∷ 4 ∷ 5 ∷ [])
      (1 ∷ 4 ∷ 5 ∷ []) (9 ∷ []) two_values value_LeafTrie (omega arith)
      (omega arith, (omega arith, tt)) refl refl (omega arith) (omega arith) two_values_inserted
      two_values_small (omega arith)

-- A branch of two long values.
abbrev long_leaf : Node
long_leaf = terminal (value (replicate 40 7)) (3 ∷ [])

abbrev pub two_of : Node → Slots
two_of a = filled a (filled a (vacant_slots 14))

abbrev two_long : Slots
two_long = two_of long_leaf

long_leaf-Trie : Trie IsValue 1 long_leaf
long_leaf-Trie = single (value (replicate 40 7)) (3 ∷ []) tt (omega arith, tt) refl

-- What holds of the leaf holds of every child.
pub each_of :
    (a : Node) (P : Node → Type 0) → P a → (i : ℕ) (c : Node) → slot_at (two_of a) i ≡ some c → P c
unfolding slot_at
each_of a P p zero c hit = let same : a ≡ c = cc in subst P same p
each_of a P p (suc zero) c hit = let same : a ≡ c = cc in subst P same p
each_of a P p (suc (suc i)) c hit = absurd (none_left (slot_at-vacant_slots 14 i) hit)
  where
    none_left : {o : Option Node} → o ≡ none → o ≡ some c → ⊥
    none_left e f = cc

each_child :
    (P : Node → Type 0) → P long_leaf → (i : ℕ) (c : Node) → slot_at two_long i ≡ some c → P c
each_child = each_of long_leaf

long_leaf_full : is_empty long_leaf ≡ false
unfolding terminal leaf_node
long_leaf_full = refl

long_leaf_hashed : hash_node long_leaf ≡ hash (finalize (hash_node long_leaf))
unfolding terminal leaf_node leaf_ref mk_ref rlp_list rlp_string hex_prefix pack_pairs
long_leaf_hashed = refl

long_leaf_small : record_size 2 long_leaf ≤ max_record_bytes
unfolding terminal leaf_node record_size node_size half_up ref_size leaf_ref mk_ref rlp_list
    rlp_string hex_prefix pack_pairs
long_leaf_small = omega arith

two_long-Splits : Splits 2 two_long
two_long-Splits = record {
  hashed = each_child (λ c. hash_node c ≡ hash (finalize (hash_node c))) long_leaf_hashed;
  small = each_child (λ c. record_size 2 c ≤ max_record_bytes) long_leaf_small;
}

two_long_sixteen : size two_long ≡ 16
unfolding size vacant_slots
two_long_sixteen = refl

two_long-Trie : Trie IsValue 2 (branch two_long (slots_ref two_long))
unfolding occupied
two_long-Trie =
    fork 1 two_long (slots_ref two_long) refl two_long_sixteen (omega arith)
      (make_branch_lem two_long two_long_sixteen)
      (each_child (λ c. is_empty c ≡ false) long_leaf_full)
      (each_child (λ c. Trie IsValue 1 c) long_leaf-Trie)

promote_to_mem-branch_example :
    (c : RamChild) × (promote_to_mem (1 ∷ []) (branch two_long (slots_ref two_long)) ≡ ok c)
    × (ram_child_hash c ≡ ok (finalize (hash_node (branch two_long (slots_ref two_long)))))
    × (ram_get_child nothing_stored 10 c (1 ∷ 0 ∷ 3 ∷ []) 0
        ≡ node_get nothing_stored 10
            (1 ∷ 0 ∷ 3 ∷ [])
            (branch two_long (slots_ref two_long))
            (0 ∷ 3 ∷ []))
promote_to_mem-branch_example =
    promote_to_mem-branch toy_wide (1 ∷ []) (omega arith, tt) (omega arith) 1 (omega arith)
      nothing_stored 10 0 two_long (slots_ref two_long) (1 ∷ 0 ∷ 3 ∷ []) refl two_long-Trie
      two_long-Splits (omega arith, (omega arith, tt)) refl (omega arith)

two_long_ref-hash : slots_ref two_long ≡ hash (finalize (slots_ref two_long))
unfolding slots_ref slot_items terminal leaf_node leaf_ref mk_ref rlp_list rlp_string hex_prefix
    pack_pairs vacant_slots embed
two_long_ref-hash = refl

long_leaf_small_deeper : record_size 3 long_leaf ≤ max_record_bytes
unfolding terminal leaf_node record_size node_size half_up ref_size leaf_ref mk_ref rlp_list
    rlp_string hex_prefix pack_pairs
long_leaf_small_deeper = omega arith

two_long-Splits_deeper : Splits 3 two_long
two_long-Splits_deeper = record {
  hashed = each_child (λ c. hash_node c ≡ hash (finalize (hash_node c))) long_leaf_hashed;
  small = each_child (λ c. record_size 3 c ≤ max_record_bytes) long_leaf_small_deeper;
}

abbrev long_record : Node
long_record = make_extension (2 ∷ []) (branch two_long (slots_ref two_long))

promote_to_mem-extension_example :
    (c : RamChild) × (promote_to_mem (1 ∷ []) long_record ≡ ok c)
    × (ram_child_hash c ≡ ok (finalize (hash_node long_record)))
    × (ram_get_child nothing_stored 10 c (1 ∷ 2 ∷ 0 ∷ 3 ∷ []) 0
        ≡ node_get nothing_stored 10 (1 ∷ 2 ∷ 0 ∷ 3 ∷ []) long_record (2 ∷ 0 ∷ 3 ∷ []))
promote_to_mem-extension_example =
    promote_to_mem-extension toy_wide (1 ∷ []) 2 [] (omega arith, (omega arith, tt)) (omega arith) 1
      (omega arith) nothing_stored 10 0 two_long (slots_ref two_long) (1 ∷ 2 ∷ 0 ∷ 3 ∷ []) refl
      two_long-Trie two_long_ref-hash (omega arith, tt) two_long-Splits_deeper
      (omega arith, (omega arith, (omega arith, tt))) refl (omega arith)

make_branch_lem_example : make_branch two_long ≡ ok (branch two_long (slots_ref two_long))
make_branch_lem_example = make_branch_lem two_long two_long_sixteen
