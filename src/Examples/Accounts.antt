-- ===== src/Examples/Accounts.antt =====
-- The theorem on promoted accounts at an account with two slots.
use mpt_flat_poc.Prelude.{ℕ, zero, suc, ◌≡◌, ◌≤◌, refl, false, [], ◌∷◌, replicate, arith}
use mpt_flat_poc.Node.{
  Node, Slots, branch, hash, hash_node, finalize, size, vacant_slots, leaf_node, leaf_ref, mk_ref,
  account_node,
}
use mpt_flat_poc.Node.Access.{is_empty, occupied}
use mpt_flat_poc.Node.BranchRef.{slots_ref, make_branch_lem}
use mpt_flat_poc.Eth.{rlp_list, rlp_string, hex_prefix, pack_pairs}
use mpt_flat_poc.Codec.Write.{record_size, node_size, half_up, ref_size}
use mpt_flat_poc.Codec.Size.{PathFits}
use mpt_flat_poc.Frontier.{RamChild, ram_child_hash}
use mpt_flat_poc.Frontier.Get.{ram_get_child, ram_get_storage_child}
use mpt_flat_poc.Frontier.Promote.{promote_account_to_ram, max_record_bytes}
use mpt_flat_poc.Frontier.Promoted.{Splits}
use mpt_flat_poc.Frontier.Account.{promote_account_to_ram_lem}
use mpt_flat_poc.Record.Get.{node_get, node_get_storage}
use mpt_flat_poc.Record.Trie.{Trie, Nibbles, value, single, fork, terminal}
use mpt_flat_poc.Record.Values.{IsValue, Bytes}
use mpt_flat_poc.Examples.Toy.{toy}
use mpt_flat_poc.Examples.Records.{two_of, each_of, toy_wide, nothing_stored}
use mpt_flat_poc.Result.{ok}

abbrev slot_leaf : Node
slot_leaf = terminal (value (5 ∷ [])) (replicate 63 2)

abbrev storage_slots : Slots
storage_slots = two_of slot_leaf

twos : (n : ℕ) → Nibbles (replicate n 2)
twos zero = tt
twos (suc n) = (omega arith, twos n)

ones : (n : ℕ) → PathFits (replicate n 1)
ones zero = tt
ones (suc n) = (omega arith, ones n)

twos-Bytes : (n : ℕ) → Bytes (replicate n 2)
twos-Bytes zero = tt
twos-Bytes (suc n) = (omega arith, twos-Bytes n)

slot_leaf_full : is_empty slot_leaf ≡ false
unfolding terminal leaf_node
slot_leaf_full = refl

slot_leaf_hashed : hash_node slot_leaf ≡ hash (finalize (hash_node slot_leaf))
unfolding terminal leaf_node leaf_ref mk_ref rlp_list rlp_string hex_prefix pack_pairs
slot_leaf_hashed = refl

slot_leaf_small : record_size 65 slot_leaf ≤ max_record_bytes
unfolding terminal leaf_node record_size node_size half_up ref_size leaf_ref mk_ref rlp_list
    rlp_string hex_prefix pack_pairs
slot_leaf_small = omega arith

storage-Splits : Splits 65 storage_slots
storage-Splits = record {
  hashed = each_of slot_leaf (λ c. hash_node c ≡ hash (finalize (hash_node c))) slot_leaf_hashed;
  small = each_of slot_leaf (λ c. record_size 65 c ≤ max_record_bytes) slot_leaf_small;
}

storage_sixteen : size storage_slots ≡ 16
unfolding size vacant_slots
storage_sixteen = refl

storage-Trie : Trie IsValue 64 (branch storage_slots (slots_ref storage_slots))
unfolding occupied
storage-Trie =
    fork 63 storage_slots (slots_ref storage_slots) refl storage_sixteen (omega arith)
      (make_branch_lem storage_slots storage_sixteen)
      (each_of slot_leaf (λ c. is_empty c ≡ false) slot_leaf_full)
      (each_of slot_leaf (λ c. Trie IsValue 63 c)
        (single (value (5 ∷ [])) (replicate 63 2) tt (twos 63) refl))

abbrev account : Node
account =
    account_node (replicate 63 1) 7 9 (replicate 32 3)
      (branch storage_slots (slots_ref storage_slots))

promote_account_to_ram_lem_example :
    (c : RamChild) × (promote_account_to_ram (record { prefix = 1 ∷ []; node = account }) ≡ ok c)
    × (ram_child_hash c ≡ ok (finalize (hash_node account)))
    × (ram_get_child nothing_stored 200 c (replicate 64 1) 0
        ≡ node_get nothing_stored 201 (replicate 64 1) account (replicate 63 1))
    × (ram_get_storage_child nothing_stored 200 c (replicate 64 1) 0 (replicate 32 2)
        ≡ node_get_storage nothing_stored 201
            (replicate 64 1)
            (replicate 32 2)
            account
            (replicate 63 1))
promote_account_to_ram_lem_example =
    promote_account_to_ram_lem toy_wide (1 ∷ []) (replicate 63 1) refl (ones 64) 7 9 (omega arith)
      (replicate 32 3) storage_slots (slots_ref storage_slots) nothing_stored 200 0 (replicate 64 1)
      (replicate 32 2) refl storage-Trie storage-Splits refl (twos-Bytes 32) (omega arith)
