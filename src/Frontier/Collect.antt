-- ===== src/Frontier/Collect.antt =====
-- src/lib.rs: `nibbles_to_key`, `collect_storage_subtree`, `node_collect_storage` and
-- `ram_collect_storage`: all the slots of an account's storage. A function here returns what the
-- code appends to `out`; `path` is the code's stack of nibbles at the call.
pub mod Composite
pub mod Keys
pub mod Gather
pub mod Branches
pub mod Complete
pub mod Account
use mpt_flat_poc.Prelude.{
  ℕ, zero, suc, ◌+◌, Option, none, some, List, [], ◌∷◌, ◌++◌, length, drop, list_eqb, ◌==◌,
  if◌then◌else◌,
}
use mpt_flat_poc.Externals.{Externals}
use mpt_flat_poc.Eth.{pack_pairs}
use mpt_flat_poc.Codec.Lazy.{parse_node_lazy, deserialize_subtree_lazy}
use mpt_flat_poc.Codec.Write.{DiskSubtree}
use mpt_flat_poc.Node.{
  Node, Slots, empty, leaf, extension, branch, overflow, raw, account, end, vacant, filled, slot_at,
}
use mpt_flat_poc.Frontier.{
  RamNode, ram_empty, ram_extension, ram_branch, RamChild, ram, disk, promoted, mem, RamSlots,
  ram_end, ram_vacant, ram_filled,
}
use mpt_flat_poc.Record.Get.{Store, starts_with}
use mpt_flat_poc.Result.{Result, ok, err, ◌>>=◌, panicked, out_of_fuel}

-- Pairs of a slot key and its value.
abbrev pub Collected : Type 0
Collected = List (List ℕ × List ℕ)

-- A debug build, where `debug_assert_eq!` panics. A release build panics only on a path of more than
-- 64 nibbles, at `k[i]`, and leaves zeros behind a shorter one.
unfoldable pub nibbles_to_key : List ℕ → Result (List ℕ)
unfolding pack_pairs
nibbles_to_key nibbles = if length nibbles == 64 then ok (pack_pairs nibbles) else err panicked

-- The loop over `children`, from slot `i` on.
unfoldable pub collect_children :
    (Node → List ℕ → Result Collected) → Slots → ℕ → List ℕ → Result Collected
collect_children collect end i path = ok []
collect_children collect (vacant cs) i path = collect_children collect cs (suc i) path
collect_children collect (filled c cs) i path = do
  here ← collect c (path ++ i ∷ [])
  others ← collect_children collect cs (suc i) path
  ok (here ++ others)

module _ ⦃x : Externals⦄ where
  unfoldable pub collect_storage_subtree : ℕ → Node → List ℕ → Result Collected
  unfolding nibbles_to_key collect_children parse_node_lazy
  collect_storage_subtree zero node path = err out_of_fuel
  collect_storage_subtree (suc fuel) empty path = ok []
  collect_storage_subtree (suc fuel) (leaf lp value nref) path =
      nibbles_to_key (path ++ lp) >>= λ k. ok ((k, value) ∷ [])
  collect_storage_subtree (suc fuel) (extension ep child nref) path =
      collect_storage_subtree fuel child (path ++ ep)
  collect_storage_subtree (suc fuel) (branch children nref) path =
      collect_children (collect_storage_subtree fuel) children 0 path
  collect_storage_subtree (suc fuel) (raw buf off len nref) path =
      parse_node_lazy buf off len >>= λ parsed. collect_storage_subtree fuel parsed path
  collect_storage_subtree (suc fuel) (account _ _ _ _ _ _ _) path = err panicked
  collect_storage_subtree (suc fuel) (overflow ptr root) path = err panicked

  -- `rest` is `nibbles[depth..]`.
  unfoldable pub node_collect_storage : ℕ → Node → List ℕ → Result Collected
  unfolding collect_storage_subtree parse_node_lazy starts_with slot_at
  node_collect_storage zero node rest = err out_of_fuel
  node_collect_storage (suc fuel) empty rest = ok []
  node_collect_storage (suc fuel) (leaf _ _ _) rest = ok []
  node_collect_storage (suc fuel) (account path nonce balance code_hash storage root nref) rest =
      if list_eqb rest path then collect_storage_subtree fuel storage [] else ok []
  node_collect_storage (suc fuel) (extension path child nref) rest =
      let below = node_collect_storage fuel child (drop (length path) rest) in
      if starts_with rest path then below else ok []
  node_collect_storage (suc fuel) (branch children nref) [] = err panicked
  node_collect_storage (suc fuel) (branch children nref) (idx ∷ rest) =
      elim (slot_at children idx) [
        | none ↦ ok []
        | some child ↦ node_collect_storage fuel child rest
      ]
  node_collect_storage (suc fuel) (raw buf off len nref) rest =
      parse_node_lazy buf off len >>= λ parsed. node_collect_storage fuel parsed rest
  node_collect_storage (suc fuel) (overflow ptr root) rest = err panicked

module _ ⦃x : Externals⦄ (store : Store) (fuel : ℕ) where
  -- A record below a promoted account, from its own prefix.
  unfoldable pub collect_record : Result (List ℕ) → Result Collected
  unfolding collect_storage_subtree deserialize_subtree_lazy
  collect_record payload = do
    bytes ← payload
    sub ← deserialize_subtree_lazy bytes
    collect_storage_subtree fuel sub.node sub.prefix

  unfoldable mutual
    pub ram_collect_storage : RamNode → List ℕ → Result Collected
    ram_collect_storage ram_empty path = ok []
    ram_collect_storage (ram_extension ep child cell) path = ram_collect_storage child (path ++ ep)
    ram_collect_storage (ram_branch children cell) path = ram_collect_children children 0 path

    pub ram_collect_children : RamSlots → ℕ → List ℕ → Result Collected
    ram_collect_children ram_end i path = ok []
    ram_collect_children (ram_vacant cs) i path = ram_collect_children cs (suc i) path
    ram_collect_children (ram_filled c cs) i path = do
      here ← ram_collect_child c (path ++ i ∷ [])
      others ← ram_collect_children cs (suc i) path
      ok (here ++ others)

    pub ram_collect_child : RamChild → List ℕ → Result Collected
    ram_collect_child (ram sub) path = ram_collect_storage sub path
    ram_collect_child (disk ptr root) path = collect_record (store ptr)
    ram_collect_child (mem bytes root) path = collect_record (ok bytes)
    ram_collect_child (promoted _ _ _ _ _) path = err panicked
