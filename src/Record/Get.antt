-- ===== src/Record/Get.antt =====
-- src/lib.rs: `node_get`. The store is a parameter: the record payload at a pointer.
use mpt_flat_poc.Prelude.{
  ℕ, zero, suc, ◌-◌, Bool, Option, none, some, List, [], ◌∷◌, length, take, drop, ltb, list_eqb,
  if◌then◌else◌,
}
use mpt_flat_poc.Externals.{Externals}
use mpt_flat_poc.Eth.{key_nibbles}
use mpt_flat_poc.Node.{
  DiskPtr, Node, Slots, empty, leaf, extension, branch, overflow, raw, account, slot_at,
}
use mpt_flat_poc.Codec.Lazy.{parse_node_lazy, deserialize_subtree_lazy}
use mpt_flat_poc.Result.{Result, ok, err, ◌>>=◌, panicked, out_of_fuel}

-- `FlatFile::read_lazy` up to its parse: the payload bytes of a record.
abbrev pub Store : Type 0
Store = DiskPtr → Result (List ℕ)

unfoldable pub starts_with : List ℕ → List ℕ → Bool
starts_with rest path = list_eqb (take (length path) rest) path

-- `(nibbles[depth..] == path[..]).then(|| value)`.
unfoldable pub at_path : List ℕ → List ℕ → List ℕ → Option (List ℕ)
at_path rest path value = if list_eqb rest path then some value else none

unfoldable pub local_depth : List ℕ → ℕ
local_depth prefix = if ltb 64 (length prefix) then length prefix - 64 else length prefix

-- A read that goes on in a child, on the nibbles left.
abbrev pub Descend : Type 0
Descend = Node → List ℕ → Result (Option (List ℕ))

unfoldable pub get_in_slot : Descend → Option Node → List ℕ → Result (Option (List ℕ))
get_in_slot get none rest = ok none
get_in_slot get (some child) rest = get child rest

unfoldable pub get_at_branch : Descend → Slots → List ℕ → Result (Option (List ℕ))
unfolding get_in_slot slot_at
get_at_branch get children [] = err panicked
get_at_branch get children (idx ∷ rest) = get_in_slot get (slot_at children idx) rest

module _ ⦃x : Externals⦄ (store : Store) where
  -- `nibbles` is the whole key, which an overflow record is entered with; `rest` is
  -- `nibbles[depth..]`. A raw slice and an overflow record cost a unit of fuel too.
  unfoldable pub node_get : ℕ → List ℕ → Node → List ℕ → Result (Option (List ℕ))
  unfolding at_path starts_with get_at_branch parse_node_lazy deserialize_subtree_lazy local_depth
  node_get zero nibbles node rest = err out_of_fuel
  node_get (suc fuel) nibbles empty rest = ok none
  node_get (suc fuel) nibbles (leaf path v nref) rest = ok (at_path rest path v)
  node_get (suc fuel) nibbles (account path nonce balance code_hash s root nref) rest = ok (
      at_path rest path (
        x.encode_account (record {
          nonce = nonce;
          balance = balance;
          storage_root = root;
          code_hash = code_hash;
        })))
  node_get (suc fuel) nibbles (extension path child nref) rest =
      let below = node_get fuel nibbles child (drop (length path) rest) in
      if starts_with rest path then below else ok none
  node_get (suc fuel) nibbles (branch children nref) rest =
      get_at_branch (node_get fuel nibbles) children rest
  node_get (suc fuel) nibbles (overflow ptr root) rest = store ptr >>= λ payload.
      deserialize_subtree_lazy payload >>= λ sub.
      node_get fuel nibbles sub.node (drop (local_depth sub.prefix) nibbles)
  node_get (suc fuel) nibbles (raw buf off len nref) rest =
      parse_node_lazy buf off len >>= λ n. node_get fuel nibbles n rest

  -- `node_get_storage`: `slot` is the hashed slot key.
  unfoldable pub node_get_storage : ℕ → List ℕ → List ℕ → Node → List ℕ → Result (Option (List ℕ))
  unfolding starts_with get_at_branch parse_node_lazy deserialize_subtree_lazy local_depth
  node_get_storage zero nibbles slot node rest = err out_of_fuel
  node_get_storage (suc fuel) nibbles slot empty rest = ok none
  node_get_storage (suc fuel) nibbles slot (leaf path v nref) rest = ok none
  node_get_storage (suc fuel) nibbles slot (account path _ _ _ s root nref) rest =
      if list_eqb rest path then node_get fuel (key_nibbles slot) s (key_nibbles slot) else ok none
  node_get_storage (suc fuel) nibbles slot (extension path child nref) rest =
      let below = node_get_storage fuel nibbles slot child (drop (length path) rest) in
      if starts_with rest path then below else ok none
  node_get_storage (suc fuel) nibbles slot (branch children nref) rest =
      get_at_branch (node_get_storage fuel nibbles slot) children rest
  node_get_storage (suc fuel) nibbles slot (overflow ptr root) rest = store ptr >>= λ payload.
      deserialize_subtree_lazy payload >>= λ sub.
      node_get_storage fuel nibbles slot sub.node (drop (local_depth sub.prefix) nibbles)
  node_get_storage (suc fuel) nibbles slot (raw buf off len nref) rest =
      parse_node_lazy buf off len >>= λ n. node_get_storage fuel nibbles slot n rest
