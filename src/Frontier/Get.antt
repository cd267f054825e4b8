-- ===== src/Frontier/Get.antt =====
-- src/lib.rs: `ram_get` and `ram_get_storage`, point reads through the frontier. `fuel` is for the
-- reads inside a record.
use mpt_flat_poc.Prelude.{
  ℕ, zero, suc, ◌+◌, Option, none, some, List, [], ◌∷◌, length, drop, list_eqb, if◌then◌else◌,
}
use mpt_flat_poc.Externals.{Externals}
use mpt_flat_poc.Eth.{key_nibbles}
use mpt_flat_poc.Codec.Lazy.{deserialize_subtree_lazy}
use mpt_flat_poc.Frontier.{
  RamNode, ram_empty, ram_extension, ram_branch, RamChild, ram, disk, promoted, mem, RamSlots,
  ram_end, ram_vacant, ram_filled, hash_ram, ram_account_rlp,
}
use mpt_flat_poc.Record.Get.{Store, starts_with, local_depth, node_get, node_get_storage}
use mpt_flat_poc.Result.{Result, ok, err, ◌>>=◌, panicked}

-- `nibbles[depth]`.
abbrev pub nibble : List ℕ → Result ℕ
nibble [] = err panicked
nibble (n ∷ rest) = ok n

module _ ⦃x : Externals⦄ (store : Store) (fuel : ℕ) where
  -- A read of a record that the frontier has reached.
  unfoldable pub record_get : List ℕ → Result (List ℕ) → Result (Option (List ℕ))
  unfolding node_get local_depth deserialize_subtree_lazy
  record_get nibbles payload = do
    bytes ← payload
    sub ← deserialize_subtree_lazy bytes
    node_get store fuel nibbles sub.node (drop (local_depth sub.prefix) nibbles)

  unfoldable mutual
    pub ram_get : RamNode → List ℕ → ℕ → Result (Option (List ℕ))
    ram_get ram_empty nibbles depth = ok none
    ram_get (ram_extension path child cell) nibbles depth =
        let below = ram_get child nibbles (depth + length path) in
        if starts_with (drop depth nibbles) path then below else ok none
    ram_get (ram_branch children cell) nibbles depth = do
      idx ← nibble (drop depth nibbles)
      ram_get_at children idx nibbles depth

    -- `match &children[idx]`, a panic out of range.
    pub ram_get_at : RamSlots → ℕ → List ℕ → ℕ → Result (Option (List ℕ))
    ram_get_at ram_end idx nibbles depth = err panicked
    ram_get_at (ram_vacant cs) zero nibbles depth = ok none
    ram_get_at (ram_vacant cs) (suc idx) nibbles depth = ram_get_at cs idx nibbles depth
    ram_get_at (ram_filled c cs) zero nibbles depth = ram_get_child c nibbles depth
    ram_get_at (ram_filled c cs) (suc idx) nibbles depth = ram_get_at cs idx nibbles depth

    pub ram_get_child : RamChild → List ℕ → ℕ → Result (Option (List ℕ))
    ram_get_child (ram child) nibbles depth = ram_get child nibbles (depth + 1)
    ram_get_child (disk ptr root) nibbles depth = record_get nibbles (store ptr)
    ram_get_child (mem bytes root) nibbles depth = record_get nibbles (ok bytes)
    ram_get_child (promoted path nonce balance code_hash storage) nibbles depth =
        if list_eqb (drop (depth + 1) nibbles) path
        then (hash_ram storage >>= λ sr. ok (some (ram_account_rlp nonce balance code_hash sr)))
        else ok none

  unfoldable pub record_get_storage : List ℕ → Result (List ℕ) → List ℕ → Result (Option (List ℕ))
  unfolding node_get_storage local_depth deserialize_subtree_lazy
  record_get_storage nibbles payload slot_key = do
    bytes ← payload
    sub ← deserialize_subtree_lazy bytes
    node_get_storage store fuel nibbles slot_key sub.node (drop (local_depth sub.prefix) nibbles)

  unfoldable mutual
    pub ram_get_storage : RamNode → List ℕ → ℕ → List ℕ → Result (Option (List ℕ))
    ram_get_storage ram_empty nibbles depth slot_key = ok none
    ram_get_storage (ram_extension path child cell) nibbles depth slot_key =
        let below = ram_get_storage child nibbles (depth + length path) slot_key in
        if starts_with (drop depth nibbles) path then below else ok none
    ram_get_storage (ram_branch children cell) nibbles depth slot_key = do
      idx ← nibble (drop depth nibbles)
      ram_get_storage_at children idx nibbles depth slot_key

    pub ram_get_storage_at : RamSlots → ℕ → List ℕ → ℕ → List ℕ → Result (Option (List ℕ))
    ram_get_storage_at ram_end idx nibbles depth slot_key = err panicked
    ram_get_storage_at (ram_vacant cs) zero nibbles depth slot_key = ok none
    ram_get_storage_at (ram_vacant cs) (suc idx) nibbles depth slot_key =
        ram_get_storage_at cs idx nibbles depth slot_key
    ram_get_storage_at (ram_filled c cs) zero nibbles depth slot_key =
        ram_get_storage_child c nibbles depth slot_key
    ram_get_storage_at (ram_filled c cs) (suc idx) nibbles depth slot_key =
        ram_get_storage_at cs idx nibbles depth slot_key

    pub ram_get_storage_child : RamChild → List ℕ → ℕ → List ℕ → Result (Option (List ℕ))
    ram_get_storage_child (ram child) nibbles depth slot_key =
        ram_get_storage child nibbles (depth + 1) slot_key
    ram_get_storage_child (disk ptr root) nibbles depth slot_key =
        record_get_storage nibbles (store ptr) slot_key
    ram_get_storage_child (mem bytes root) nibbles depth slot_key =
        record_get_storage nibbles (ok bytes) slot_key
    ram_get_storage_child (promoted path nonce balance code_hash storage) nibbles depth slot_key =
        if list_eqb (drop (depth + 1) nibbles) path
        then ram_get storage (key_nibbles slot_key) 0
        else ok none
