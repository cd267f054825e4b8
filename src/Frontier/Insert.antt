-- ===== src/Frontier/Insert.antt =====
-- src/lib.rs: `insert_ram` and `insert_into_child`. Beside the new node a function here returns the
-- records that the code frees, in order, where the insert succeeds; the code frees a record before it
-- promotes or rewrites it, so that an error there leaves it freed, which is not modelled.
-- `hot_records_enabled()` is on.
use mpt_flat_poc.Prelude.{
  ℕ, zero, suc, ◌+◌, ◌-◌, none, List, [], ◌∷◌, ◌++◌, length, take, drop, ltb, ◌==◌, if◌then◌else◌,
}
use mpt_flat_poc.Externals.{Externals}
use mpt_flat_poc.Eth.{key_nibbles}
use mpt_flat_poc.Node.{DiskPtr}
use mpt_flat_poc.Codec.Write.{DiskSubtree, be_bytes}
use mpt_flat_poc.Codec.Lazy.{deserialize_subtree_lazy}
use mpt_flat_poc.Frontier.{
  RamNode, ram_empty, ram_extension, ram_branch, RamChild, ram, disk, promoted, mem, RamSlots,
  ram_end, ram_vacant, ram_filled,
}
use mpt_flat_poc.Frontier.Promote.{
  make_mem_leaf, should_promote, should_promote_account, promote_to_mem, promote_account_to_ram,
}
use mpt_flat_poc.Record.Ops.{LeafOp}
use mpt_flat_poc.Record.Get.{Store, local_depth}
use mpt_flat_poc.Record.Insert.{common_prefix, index, place_new, record_node_insert}
use mpt_flat_poc.Result.{Result, ok, err, ◌>>=◌, panicked, key_ends, promoted_value}

unfoldable pub walk_depth : List ℕ → ℕ
walk_depth prefix = if ltb (length prefix) 64 then length prefix else length prefix - 64

abbrev pub ram_vacant_slots : ℕ → RamSlots
ram_vacant_slots zero = ram_end
ram_vacant_slots (suc n) = ram_vacant (ram_vacant_slots n)

unfoldable pub empty_children : RamSlots
empty_children = ram_vacant_slots 16

-- `children[i] = Some(child)`; a write out of range changes nothing.
unfoldable pub set_child : RamSlots → ℕ → RamChild → RamSlots
set_child ram_end i c = ram_end
set_child (ram_vacant cs) zero c = ram_filled c cs
set_child (ram_vacant cs) (suc i) c = ram_vacant (set_child cs i c)
set_child (ram_filled b cs) zero c = ram_filled c cs
set_child (ram_filled b cs) (suc i) c = ram_filled b (set_child cs i c)

-- A child under the rest of an extension that was split.
abbrev pub under_path : List ℕ → RamNode → RamNode
under_path [] child = child
under_path (n ∷ path) child = ram_extension (n ∷ path) child none

-- A branch below the part of a path that is shared.
abbrev pub over : List ℕ → RamSlots → RamNode
over path children = under_path path (ram_branch children none)

abbrev pub Freed : Type 0
Freed = List DiskPtr

-- The account's own key: `into` descends its storage frontier with a slot, from the account's
-- nibbles on.
unfoldable pub insert_promoted :
    (List ℕ → List ℕ → Result (RamNode × Freed))
    → List ℕ
    → ℕ
    → List ℕ
    → List ℕ
    → RamNode
    → LeafOp
    → Result (RamChild × Freed)
insert_promoted into path nonce balance code_hash storage (LeafOp.storage slot v) = do
  (s, freed) ← into slot v
  ok (promoted path nonce balance code_hash s, freed)
insert_promoted into path _ _ _ storage (LeafOp.account nonce balance code_hash) =
    ok (promoted path nonce (be_bytes 32 balance) code_hash storage, [])
insert_promoted into path _ _ _ storage (LeafOp.value v) = err promoted_value

module _ ⦃x : Externals⦄ (store : Store) (max_leaf_bytes fuel : ℕ) where
  -- A fresh record of the key at `prefix`.
  unfoldable pub new_leaf : List ℕ → List ℕ → LeafOp → Result RamChild
  unfolding place_new make_mem_leaf walk_depth
  new_leaf prefix nibbles op = do
    node ← place_new (record_node_insert fuel) op (drop (walk_depth prefix) nibbles)
    make_mem_leaf (record { prefix = prefix; node = node })

  -- The child for a record that was rewritten.
  unfoldable pub rewritten_leaf : DiskSubtree → Result RamChild
  unfolding should_promote promote_to_mem should_promote_account promote_account_to_ram
      make_mem_leaf
  rewritten_leaf subtree =
      if should_promote max_leaf_bytes subtree
      then promote_to_mem subtree.prefix subtree.node
      else if should_promote_account max_leaf_bytes subtree
      then promote_account_to_ram subtree
      else make_mem_leaf subtree

  -- The `Mem` and `Disk` arms: read the record, insert, write it again.
  unfoldable pub insert_in_record : Result (List ℕ) → List ℕ → LeafOp → Result RamChild
  unfolding deserialize_subtree_lazy record_node_insert local_depth rewritten_leaf
  insert_in_record payload nibbles op = do
    bytes ← payload
    sub ← deserialize_subtree_lazy bytes
    node ← record_node_insert fuel sub.node (drop (local_depth sub.prefix) nibbles) op
    rewritten_leaf (record { prefix = sub.prefix; node = node })

  -- A key that leaves a promoted account's path after `common` nibbles.
  unfoldable pub split_account :
      List ℕ
      → ℕ
      → List ℕ
      → List ℕ
      → RamNode
      → List ℕ
      → List ℕ
      → LeafOp
      → ℕ
      → Result (RamChild × Freed)
  unfolding new_leaf empty_children set_child index walk_depth
  split_account path nonce balance code_hash storage prefix nibbles op common = do
    old_idx ← index path common
    new_idx ← index nibbles (walk_depth prefix + common)
    let rest = drop (walk_depth prefix) nibbles
    child ← new_leaf (prefix ++ take (common + 1) rest) nibbles op
    let old = promoted (drop (common + 1) path) nonce balance code_hash storage
    ok (
      ram (
          over (take common path) (set_child (set_child empty_children old_idx old) new_idx child)),
      [],
    )

  -- A key that leaves an extension's path after `common` nibbles.
  unfoldable pub split_extension :
      List ℕ → RamNode → List ℕ → List ℕ → LeafOp → ℕ → Result (RamNode × Freed)
  unfolding new_leaf empty_children set_child index walk_depth
  split_extension path child prefix nibbles op common = do
    old_idx ← index path common
    new_idx ← index nibbles (walk_depth prefix + common)
    leaf ← new_leaf (prefix ++ (take common path ++ new_idx ∷ [])) nibbles op
    let old = ram (under_path (drop (common + 1) path) child)
    ok (over (take common path) (set_child (set_child empty_children old_idx old) new_idx leaf), [])

  unfoldable mutual
    pub insert_ram : RamNode → List ℕ → List ℕ → LeafOp → Result (RamNode × Freed)
    insert_ram ram_empty prefix nibbles op = do
      idx ← index nibbles (walk_depth prefix)
      leaf ← new_leaf (prefix ++ idx ∷ []) nibbles op
      ok (ram_branch (set_child empty_children idx leaf) none, [])
    insert_ram (ram_extension path child cell) prefix nibbles op =
        let below = insert_ram child (prefix ++ path) nibbles op in
        let common = common_prefix path (drop (walk_depth prefix) nibbles) in
        if ltb common (length path)
        then split_extension path child prefix nibbles op common
        else (below >>= λ (c, freed). ok (ram_extension path c none, freed))
    insert_ram (ram_branch children cell) prefix nibbles op =
        let descend : ℕ → Result (RamNode × Freed) = λ idx.
          insert_at children idx (prefix ++ idx ∷ []) nibbles op >>= λ (cs, freed).
          ok (ram_branch cs none, freed) in
        if walk_depth prefix == length nibbles
        then err key_ends
        else (index nibbles (walk_depth prefix) >>= descend)

    -- `insert_into_child` on `children[idx]`, a panic out of range.
    pub insert_at : RamSlots → ℕ → List ℕ → List ℕ → LeafOp → Result (RamSlots × Freed)
    insert_at ram_end idx prefix nibbles op = err panicked
    insert_at (ram_vacant cs) zero prefix nibbles op = do
      leaf ← new_leaf prefix nibbles op
      ok (ram_filled leaf cs, [])
    insert_at (ram_vacant cs) (suc idx) prefix nibbles op = do
      (cs', freed) ← insert_at cs idx prefix nibbles op
      ok (ram_vacant cs', freed)
    insert_at (ram_filled c cs) zero prefix nibbles op = do
      (c', freed) ← insert_into_child c prefix nibbles op
      ok (ram_filled c' cs, freed)
    insert_at (ram_filled c cs) (suc idx) prefix nibbles op = do
      (cs', freed) ← insert_at cs idx prefix nibbles op
      ok (ram_filled c cs', freed)

    pub insert_into_child : RamChild → List ℕ → List ℕ → LeafOp → Result (RamChild × Freed)
    insert_into_child (ram child) prefix nibbles op = do
      (c, freed) ← insert_ram child prefix nibbles op
      ok (ram c, freed)
    insert_into_child (mem bytes root) prefix nibbles op = do
      c ← insert_in_record (ok bytes) nibbles op
      ok (c, [])
    insert_into_child (disk ptr root) prefix nibbles op = do
      c ← insert_in_record (store ptr) nibbles op
      ok (c, ptr ∷ [])
    insert_into_child (promoted path nonce balance code_hash storage) prefix nibbles op =
        let common = common_prefix path (drop (walk_depth prefix) nibbles) in
        let same =
          insert_promoted (λ slot v. insert_ram storage nibbles (key_nibbles slot) (LeafOp.value v))
            path nonce balance code_hash storage op in
        if common == length path
        then same
        else split_account path nonce balance code_hash storage prefix nibbles op common
