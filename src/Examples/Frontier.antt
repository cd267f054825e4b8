-- ===== src/Examples/Frontier.antt =====
-- The theorems of `Frontier` at concrete frontiers.
use mpt_flat_poc.Prelude.{
  ℕ, zero, suc, ◌≡◌, refl, false, none, some, length, List, [], ◌∷◌, replicate, arith,
}
use mpt_flat_poc.Node.{leaf_ref, mk_ref, Node, Slots, branch, size, vacant_slots, leaf_node}
use mpt_flat_poc.Node.Access.{is_empty, occupied}
use mpt_flat_poc.Node.BranchRef.{slots_ref, make_branch_lem}
use mpt_flat_poc.Examples.Records.{two_of, each_of}
use mpt_flat_poc.Frontier.Collect.Gather.{Listed}
use mpt_flat_poc.Frontier.Collect.Complete.{collect_storage_subtree_lem}
use mpt_flat_poc.Eth.{pack_pairs, rlp_list, rlp_string, hex_prefix}
use mpt_flat_poc.Codec.Write.{
  DiskSubtree, serialize_subtree, write_nibble_path, write_node, len_bytes, write_ref,
}
use mpt_flat_poc.Codec.Lazy.{deserialize_subtree_lazy}
use mpt_flat_poc.Frontier.{RamNode, ram_branch, mem, ram_filled, ram_vacant, ram_end}
use mpt_flat_poc.Frontier.Collect.{ram_collect_storage, Collected, collect_storage_subtree}
use mpt_flat_poc.Frontier.Collect.Composite.{
  TwoKeys, under_branch, later, in_mem, ram_collect_storage-panics,
}
use mpt_flat_poc.Record.Trie.{Trie, value, single, fork, terminal, Nibbles}
use mpt_flat_poc.Record.Values.{IsValue}
use mpt_flat_poc.Examples.Toy.{toy}
use mpt_flat_poc.Record.Get.{Store, node_get}
use mpt_flat_poc.Result.{Result, ok, err, panicked}

abbrev no_records : Store
no_records ptr = err panicked

-- The record of one slot: the account's 64 nibbles and the first of the slot's key, then a leaf.
abbrev slot_record : DiskSubtree
slot_record = record { prefix = replicate 65 1; node = terminal (value (5 ∷ [])) (replicate 63 2) }

abbrev payload_of : Result (List ℕ × ℕ) → List ℕ
payload_of (ok r) = r.0
payload_of (err e) = []

abbrev slot_payload : List ℕ
slot_payload = payload_of (serialize_subtree slot_record)

slot_parsed : deserialize_subtree_lazy slot_payload ≡ ok slot_record
unfolding deserialize_subtree_lazy serialize_subtree terminal write_nibble_path write_node
    pack_pairs len_bytes write_ref leaf_ref mk_ref rlp_list rlp_string hex_prefix
slot_parsed = refl

abbrev storage : RamNode
storage = ram_branch (ram_vacant (ram_filled (mem slot_payload []) ram_end)) none

twos : (n : ℕ) → Nibbles (replicate n 2)
twos zero = tt
twos (suc n) = (omega arith, twos n)

slot_record-TwoKeys : TwoKeys no_records 200 (ok slot_payload)
slot_record-TwoKeys = record {
  bytes = slot_payload;
  sub = slot_record;
  Good = IsValue;
  h = 63;
  there = refl;
  parsed = slot_parsed;
  tree = single (value (5 ∷ [])) (replicate 63 2) tt (twos 63) refl;
  some_slot = unfold terminal in refl;
  both_keys = refl;
  enough = omega arith;
}

ram_collect_storage-panics_example : ram_collect_storage no_records 200 storage [] ≡ err panicked
ram_collect_storage-panics_example =
    ram_collect_storage-panics no_records 200 storage []
      (under_branch _ none (later _ (in_mem slot_payload [] ram_end slot_record-TwoKeys)))

-- A branch of two slots behind the nibble 1.
abbrev slot_leaf : Node
slot_leaf = terminal (value (5 ∷ [])) (replicate 62 2)

abbrev two_slots : Slots
two_slots = two_of slot_leaf

slot_leaf_full : is_empty slot_leaf ≡ false
unfolding terminal leaf_node
slot_leaf_full = refl

two_slots_sixteen : size two_slots ≡ 16
unfolding size vacant_slots
two_slots_sixteen = refl

two_slots-Trie : Trie IsValue 63 (branch two_slots (slots_ref two_slots))
unfolding occupied
two_slots-Trie =
    fork 62 two_slots (slots_ref two_slots) refl two_slots_sixteen (omega arith)
      (make_branch_lem two_slots two_slots_sixteen)
      (each_of slot_leaf (λ c. is_empty c ≡ false) slot_leaf_full)
      (each_of slot_leaf (λ c. Trie IsValue 62 c)
        (single (value (5 ∷ [])) (replicate 62 2) tt (twos 62) refl))

collect_storage_subtree_lem_example :
    (slots : Collected) × (collect_storage_subtree 128
        (branch two_slots (slots_ref two_slots))
        (1 ∷ [])
      ≡ ok slots)
    × ((rest v : List ℕ)
        → length rest ≡ 63
        → node_get no_records 128 [] (branch two_slots (slots_ref two_slots)) rest ≡ ok (some v)
        → Listed (pack_pairs (1 ∷ rest), v) slots)
    × ((key v : List ℕ)
        → Listed (key, v) slots
        → (rest : List ℕ) × (length rest ≡ 63)
          × (key ≡ pack_pairs (1 ∷ rest))
          × (node_get no_records 128 [] (branch two_slots (slots_ref two_slots)) rest
              ≡ ok (some v)))
collect_storage_subtree_lem_example =
    collect_storage_subtree_lem no_records [] 128 128 (1 ∷ []) two_slots-Trie refl (omega arith)
      (omega arith)
