-- ===== src/Frontier/Collect/Composite.antt =====
-- src/lib.rs: the slots of a promoted account's storage. Its records have composite prefixes, the
-- 64 nibbles of the account's key before those of the slot, and `ram_collect_storage` passes a prefix
-- on whole.
use mpt_flat_poc.Prelude.{
  ℕ, zero, suc, ◌+◌, ◌*◌, ◌<◌, ◌≤◌, ◌≡◌, ◌≢◌, refl, true, false, Option, some, List, [], ◌∷◌, ◌++◌,
  length, length-append, arith,
}
use mpt_flat_poc.Externals.{Externals}
use mpt_flat_poc.Node.{
  DiskPtr, Node, Slots, empty, leaf, extension, branch, overflow, account, raw, end, vacant, filled,
  slot_at, make_extension, leaf_node, account_node,
}
use mpt_flat_poc.Node.Access.{occupied}
use mpt_flat_poc.Codec.Lazy.{deserialize_subtree_lazy}
use mpt_flat_poc.Codec.Write.{DiskSubtree}
use mpt_flat_poc.Record.Get.{Store}
use mpt_flat_poc.Record.Trie.{
  Payload, value, fields, Trie, nothing, single, along, fork, sliced, terminal,
}
use mpt_flat_poc.Node.Access.{is_empty, is_branch}
use mpt_flat_poc.Record.Trie.Look.{slack, slack_le}
use mpt_flat_poc.Frontier.{
  RamNode, ram_extension, ram_branch, ram, disk, mem, RamSlots, ram_vacant, ram_filled,
}
use mpt_flat_poc.Frontier.Collect.{
  Collected, nibbles_to_key, collect_children, collect_storage_subtree, collect_record,
  ram_collect_storage, ram_collect_children,
}
use mpt_flat_poc.Result.{Result, ok, err, panicked}

-- The first child present fails as all do.
collect_children-panics :
    (collect : Node → List ℕ → Result Collected) (path : List ℕ) (cs : Slots) (i : ℕ)
    → 1 ≤ occupied cs
    → ((j : ℕ) (c : Node)
        → slot_at cs j ≡ some c
        → (n : ℕ) → collect c (path ++ n ∷ []) ≡ err panicked)
    → collect_children collect cs i path ≡ err panicked
unfolding collect_children occupied slot_at
collect_children-panics collect path end i occ all = absurd (omega arith)
collect_children-panics collect path (vacant cs) i occ all =
    collect_children-panics collect path cs (suc i) occ (λ j. all (suc j))
collect_children-panics collect path (filled c cs) i occ all = rw (all 0 c refl i) refl

off_key : (nibbles : List ℕ) → length nibbles ≢ 64 → nibbles_to_key nibbles ≡ err panicked
unfolding nibbles_to_key
off_key nibbles ne = ground arith

module _ ⦃x : Externals⦄ where
  terminal-panics :
      (fuel : ℕ) (p : Payload) (lp path : List ℕ)
      → length path + length lp ≢ 64
      → collect_storage_subtree (suc fuel) (terminal p lp) path ≡ err panicked
  unfolding collect_storage_subtree terminal leaf_node account_node
  terminal-panics fuel (value v) lp path ne =
      rw (off_key (path ++ lp) (λ e. ne (rw (length-append path lp) at e))) refl
  terminal-panics fuel (fields nonce balance code_hash storage) lp path ne = refl

  branch-full : (n : Node) → is_branch n ≡ true → is_empty n ≡ false
  branch-full (branch cs nref) e = refl
  branch-full empty e = cc
  branch-full (leaf _ _ _) e = cc
  branch-full (extension _ _ _) e = cc
  branch-full (overflow _ _) e = cc
  branch-full (raw _ _ _ _) e = cc
  branch-full (account _ _ _ _ _ _ _) e = cc

  -- A leaf whose path is not a whole slot key stops the walk.
  subtree-panics :
      {Good : Payload → Type 0} {h : ℕ} {n : Node}
      → Trie Good h n
      → (fuel : ℕ) (path : List ℕ) → is_empty n ≡ false
      → length path + h ≢ 64
      → 2 * h + slack n < fuel
      → collect_storage_subtree fuel n path ≡ err panicked
  unfolding collect_storage_subtree make_extension
  subtree-panics t zero path some_leaf ne a = absurd (omega arith)
  subtree-panics nothing (suc f) path some_leaf ne a = cc
  subtree-panics (single p lp good nib len) (suc f) path some_leaf ne a =
      terminal-panics f p lp path (λ e. ne (omega arith))
  subtree-panics {Good = Good} {h = h} (along k n ep child nib len br t) (suc f) path some_leaf ne
        a =
      subtree-panics {h = k} t f (path ++ n ∷ ep) (branch-full child br)
        (λ e. ne (omega (arith, length-append path (n ∷ ep)))) (omega (arith, slack_le child))
  subtree-panics {Good = Good} {h = h} (fork k cs nref eh sz occ mk full ts) (suc f) path some_leaf
        ne a =
      collect_children-panics (collect_storage_subtree f) path cs 0 (omega arith) (λ j c hit n.
        subtree-panics {h = k} (ts j c hit) f (path ++ n ∷ []) (full j c hit)
          (λ e. ne (omega (arith, length-append path (n ∷ [])))) (omega (arith, slack_le c)))
  subtree-panics {Good = Good} {h = h} (sliced buf off len n parse cut nr some_n t) (suc f) path
        some_leaf ne a =
      rw parse (subtree-panics {h = h} t f path some_n ne (ground arith))

module _ ⦃x : Externals⦄ (store : Store) (fuel : ℕ) where
  -- The payload of a record with a slot in it, whose prefix and paths together are the nibbles of
  -- an account's key and of a slot's key.
  pub record TwoKeys (payload : Result (List ℕ)) : Type 1 where
    pub bytes : List ℕ
    pub sub : DiskSubtree
    pub Good : Payload → Type 0
    pub h : ℕ
    pub there : payload ≡ ok bytes
    pub parsed : deserialize_subtree_lazy bytes ≡ ok sub
    pub tree : Trie Good h sub.node
    pub some_slot : is_empty sub.node ≡ false
    pub both_keys : length sub.prefix + h ≡ 128
    pub enough : 2 * h + 1 < fuel

  -- The first record below is such a one.
  mutual
    pub data Composite : RamNode → Type 1 where
      under_extension :
          (ep : List ℕ) (child : RamNode) (cell : Option (List ℕ))
          → Composite child
          → Composite (ram_extension ep child cell)
      under_branch :
          (cs : RamSlots) (cell : Option (List ℕ))
          → CompositeSlots cs
          → Composite (ram_branch cs cell)

    pub data CompositeSlots : RamSlots → Type 1 where
      later : (cs : RamSlots) → CompositeSlots cs → CompositeSlots (ram_vacant cs)
      in_ram :
          (sub : RamNode) (cs : RamSlots) → Composite sub → CompositeSlots (ram_filled (ram sub) cs)
      on_disk :
          (ptr : DiskPtr) (root : List ℕ) (cs : RamSlots)
          → TwoKeys (store ptr)
          → CompositeSlots (ram_filled (disk ptr root) cs)
      in_mem :
          (bytes root : List ℕ) (cs : RamSlots)
          → TwoKeys (ok bytes)
          → CompositeSlots (ram_filled (mem bytes root) cs)

  record-panics :
      (payload : Result (List ℕ))
      → TwoKeys payload
      → collect_record store fuel payload ≡ err panicked
  unfolding collect_record
  record-panics payload k =
      rw (k.there, k.parsed)
        (subtree-panics k.tree fuel k.sub.prefix k.some_slot
          (λ e. absurd (omega (arith, e, k.both_keys)))
          (omega (arith, slack_le k.sub.node, k.enough)))

  mutual
    unfolding ram_collect_storage

    node-panics :
        (node : RamNode) (path : List ℕ)
        → Composite node
        → ram_collect_storage store fuel node path ≡ err panicked
    node-panics _ path (under_extension ep child cell c) = node-panics child (path ++ ep) c
    node-panics _ path (under_branch cs cell c) = children-panics cs 0 path c

    children-panics :
        (cs : RamSlots) (i : ℕ) (path : List ℕ)
        → CompositeSlots cs
        → ram_collect_children store fuel cs i path ≡ err panicked
    children-panics _ i path (later cs c) = children-panics cs (suc i) path c
    children-panics _ i path (in_ram sub cs c) = rw (node-panics sub (path ++ i ∷ []) c) refl
    children-panics _ i path (on_disk ptr root cs k) = rw (record-panics (store ptr) k) refl
    children-panics _ i path (in_mem bytes root cs k) = rw (record-panics (ok bytes) k) refl

  -- `ram_collect_storage` panics on the storage of a promoted account whose first record has a
  -- composite prefix, the nibbles of the account's key before those of the slot's.
  pub ram_collect_storage-panics :
      (node : RamNode) (path : List ℕ)
      → Composite node
      → ram_collect_storage store fuel node path ≡ err panicked
  ram_collect_storage-panics = node-panics
