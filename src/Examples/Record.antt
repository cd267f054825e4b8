-- ===== src/Examples/Record.antt =====
-- The theorems of `Record` at concrete inputs, and runs of the record functions.
use mpt_flat_poc.Prelude.{
  ℕ, ◌≡◌, refl, List, [], ◌∷◌, arith, replicate, length, some, list_eqb, if◌then◌else◌, none,
}
use mpt_flat_poc.Examples.Toy.{toy}
use mpt_flat_poc.Node.{Node, empty, raw, hash_node, leaf_node, leaf_ref, mk_ref}
use mpt_flat_poc.Eth.{rlp_list, rlp_string, hex_prefix}
use mpt_flat_poc.Codec.Lazy.{parse_node_lazy}
use mpt_flat_poc.Codec.Holds.{Cut}
use mpt_flat_poc.Codec.Write.{write_node, write_nibble_path, len_bytes, write_ref}
use mpt_flat_poc.Eth.{pack_pairs}
use mpt_flat_poc.Frontier.Collect.{Collected, node_collect_storage}
use mpt_flat_poc.Frontier.Collect.Gather.{Listed}
use mpt_flat_poc.Frontier.Collect.Account.{node_collect_storage_lem}
use mpt_flat_poc.Record.Ops.{LeafOp}
use mpt_flat_poc.Record.DeleteOps.{DeleteOp, NodeDelete, absent}
use mpt_flat_poc.Record.Delete.{record_node_delete}
use mpt_flat_poc.Record.Deletes.{node_get-delete_value, record_node_delete-insert}
use mpt_flat_poc.Record.Insert.{record_node_insert}
use mpt_flat_poc.Record.Get.{Store, node_get, node_get_storage}
use mpt_flat_poc.Record.Values.{IsValue, Bytes, node_get-insert_value}
use mpt_flat_poc.Record.Accounts.{node_get-insert_account, node_get_storage-insert_storage}
use mpt_flat_poc.Record.Effects.{storage_of}
use mpt_flat_poc.Record.Order.{hash_node-of_node_get, record_node_insert_comm}
use mpt_flat_poc.Record.Trie.{
  Trie, nothing, single, sliced, terminal, look, payload_value, value, fields,
}
use mpt_flat_poc.Record.Trie.GetStorage.{IsAccount}
use mpt_flat_poc.Result.{ok, err, panicked}

-- No record on disk.
abbrev no_store : Store
no_store ptr = err panicked

-- A trie of two-nibble paths with one value.
one_leaf :
    (n' : Node) × (record_node_insert 3 empty (1 ∷ 2 ∷ []) (LeafOp.value (7 ∷ [])) ≡ ok n')
    × Trie IsValue 2 n'
    × (node_get no_store 6 [] n' (1 ∷ 2 ∷ []) ≡ ok (some (7 ∷ [])))
unfolding list_eqb
one_leaf =
    node_get-insert_value no_store [] (7 ∷ []) (1 ∷ 2 ∷ []) (1 ∷ 2 ∷ []) 3 6 nothing (omega arith)
      refl refl (omega arith) (omega arith)

node_get-insert_value_example :
    (n' : Node) × (record_node_insert 3 one_leaf.0 (1 ∷ 5 ∷ []) (LeafOp.value (9 ∷ [])) ≡ ok n')
    × Trie IsValue 2 n'
    × (node_get no_store 6 [] n' (1 ∷ 2 ∷ []) ≡ node_get no_store 6 [] one_leaf.0 (1 ∷ 2 ∷ []))
unfolding list_eqb
node_get-insert_value_example =
    node_get-insert_value no_store [] (9 ∷ []) (1 ∷ 5 ∷ []) (1 ∷ 2 ∷ []) 3 6 one_leaf.2
      (omega arith) refl refl (omega arith) (omega arith)

record_node_insert_comm_example :
    (a : Node) × (b : Node) × (c : Node) × (d : Node) × (record_node_insert 3 one_leaf.0
        (1 ∷ 5 ∷ [])
        (LeafOp.value (9 ∷ []))
      ≡ ok a)
    × (record_node_insert 3 a (4 ∷ 0 ∷ []) (LeafOp.value (8 ∷ [])) ≡ ok b)
    × (record_node_insert 3 one_leaf.0 (4 ∷ 0 ∷ []) (LeafOp.value (8 ∷ [])) ≡ ok c)
    × (record_node_insert 3 c (1 ∷ 5 ∷ []) (LeafOp.value (9 ∷ [])) ≡ ok d)
    × (hash_node b ≡ hash_node d)
record_node_insert_comm_example =
    record_node_insert_comm (9 ∷ []) (8 ∷ []) (1 ∷ 5 ∷ []) (4 ∷ 0 ∷ []) 3 one_leaf.2 (omega arith)
      (omega arith) refl refl (λ e. cc) (omega arith)

-- The leaf of `one_leaf`, and its bytes as an unparsed slice.
abbrev plain : Node
plain = leaf_node (1 ∷ 2 ∷ []) (7 ∷ [])

abbrev plain_bytes : List ℕ
plain_bytes = 1 ∷ 2 ∷ 18 ∷ 1 ∷ 0 ∷ 0 ∷ 0 ∷ 7 ∷ 1 ∷ 7 ∷ 192 ∷ 5 ∷ 2 ∷ 32 ∷ 18 ∷ 1 ∷ 7 ∷ []

plain-Trie : Trie IsValue 2 plain
unfolding terminal leaf_node
plain-Trie = single (value (7 ∷ [])) (1 ∷ 2 ∷ []) tt (omega arith) refl

plain_parses : parse_node_lazy plain_bytes 0 17 ≡ ok plain
unfolding parse_node_lazy leaf_node leaf_ref mk_ref rlp_list rlp_string hex_prefix
plain_parses = refl

plain-Cut : Cut plain_bytes 0 17 plain
unfolding write_node write_nibble_path pack_pairs len_bytes write_ref leaf_node leaf_ref mk_ref
    rlp_list rlp_string hex_prefix
plain-Cut = record {
  bytes = plain_bytes;
  written = refl;
  there = record { inside = omega arith; same = refl };
  measured = refl;
}

slice-Trie : Trie IsValue 2 (raw plain_bytes 0 17 (hash_node plain))
slice-Trie =
    sliced plain_bytes 0 17 plain plain_parses plain-Cut (unfold leaf_node in refl)
      (unfold leaf_node in refl) plain-Trie

same_reads :
    (j : List ℕ)
    → length j ≡ 2
    → node_get no_store 6 [] (raw plain_bytes 0 17 (hash_node plain)) j
      ≡ node_get no_store 6 [] plain j
unfolding node_get leaf_node leaf_ref mk_ref rlp_list rlp_string hex_prefix
same_reads j e = refl

hash_node-of_node_get_example : hash_node (raw plain_bytes 0 17 (hash_node plain)) ≡ hash_node plain
hash_node-of_node_get_example =
    hash_node-of_node_get no_store [] 6 slice-Trie plain-Trie (omega arith) same_reads

-- 64-nibble account paths and 32-byte slots.
abbrev path_one : List ℕ
path_one = replicate 64 1

abbrev slot_two : List ℕ
slot_two = replicate 32 2

node_get-insert_account_example :
    (n' : Node) × (record_node_insert 65 empty path_one (LeafOp.account 1 5 (3 ∷ [])) ≡ ok n')
    × Trie IsAccount 64 n'
    × (node_get no_store 264 [] n' path_one ≡ (
        if list_eqb path_one path_one
        then ok (some (payload_value (fields 1 5 (3 ∷ []) (storage_of (look empty path_one)))))
        else node_get no_store 264 [] empty path_one))
    × (node_get_storage no_store 264 [] slot_two n' path_one
        ≡ node_get_storage no_store 264 [] slot_two empty path_one)
node_get-insert_account_example =
    node_get-insert_account no_store [] 1 5 (3 ∷ []) path_one path_one slot_two 65 264 nothing
      (omega arith) refl refl refl (omega arith) (omega arith)

one_account :
    (n' : Node) × (record_node_insert 130 empty path_one (LeafOp.storage slot_two (4 ∷ [])) ≡ ok n')
    × Trie IsAccount 64 n'
    × (node_get_storage no_store 264 [] slot_two n' path_one ≡ ok (some (4 ∷ [])))
unfolding list_eqb
one_account =
    node_get_storage-insert_storage no_store [] slot_two (4 ∷ []) path_one path_one slot_two 130 264
      nothing (omega arith) refl (omega arith) refl refl refl (omega arith) (omega arith)

node_get_storage-insert_storage_example :
    (n' : Node) × (record_node_insert 130 one_account.0 path_one (LeafOp.storage slot_two (6 ∷ []))
      ≡ ok n')
    × Trie IsAccount 64 n'
    × (node_get_storage no_store 264 [] slot_two n' path_one ≡ ok (some (6 ∷ [])))
unfolding list_eqb
node_get_storage-insert_storage_example =
    node_get_storage-insert_storage no_store [] slot_two (6 ∷ []) path_one path_one slot_two 130 264
      one_account.2 (omega arith) refl (omega arith) refl refl refl (omega arith) (omega arith)

node_collect_storage_lem_example :
    (slots : Collected) × (node_collect_storage 260 one_account.0 path_one ≡ ok slots)
    × ((slot v : List ℕ)
        → length slot ≡ 32
        → Bytes slot
        → node_get_storage no_store 264 [] slot one_account.0 path_one ≡ ok (some v)
        → Listed (slot, v) slots)
    × ((slot v : List ℕ)
        → length slot ≡ 32
        → Listed (slot, v) slots
        → node_get_storage no_store 264 [] slot one_account.0 path_one ≡ ok (some v))
node_collect_storage_lem_example =
    node_collect_storage_lem no_store [] 260 264 path_one one_account.2 refl (omega arith)
      (omega arith)

-- The leaf of `one_leaf` is deleted.
node_get-delete_value_example :
    (n' : Node) × (outcome : NodeDelete) × (record_node_delete 3 one_leaf.0
        (1 ∷ 2 ∷ [])
        DeleteOp.value
      ≡ ok (n', outcome))
    × Trie IsValue 2 n'
    × (node_get no_store 6 [] n' (1 ∷ 2 ∷ []) ≡ ok none)
    × (node_get no_store 6 [] one_leaf.0 (1 ∷ 2 ∷ []) ≡ ok none
        → (outcome ≡ absent) × (hash_node n' ≡ hash_node one_leaf.0))
unfolding list_eqb
node_get-delete_value_example =
    node_get-delete_value no_store [] (1 ∷ 2 ∷ []) 3 6 (1 ∷ 2 ∷ []) one_leaf.2 (omega arith) refl
      refl (omega arith) (omega arith)

record_node_delete-insert_example :
    (a : Node) × (b : Node) × (outcome : NodeDelete) × (record_node_insert 3 plain
        (1 ∷ 5 ∷ [])
        (LeafOp.value (9 ∷ []))
      ≡ ok a)
    × (record_node_delete 3 a (1 ∷ 5 ∷ []) DeleteOp.value ≡ ok (b, outcome))
    × (hash_node b ≡ hash_node plain)
record_node_delete-insert_example =
    record_node_delete-insert no_store [] (1 ∷ 5 ∷ []) 3 6 (9 ∷ []) plain-Trie (omega arith) refl
      (omega arith) (omega arith) unread
  where
    unread : node_get no_store 6 [] plain (1 ∷ 5 ∷ []) ≡ ok none
    unread = unfold node_get in unfold leaf_node in unfold list_eqb in refl
