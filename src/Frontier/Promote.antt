-- ===== src/Frontier/Promote.antt =====
-- src/lib.rs: `make_mem_leaf`, and the promotion of a record into the frontier: `should_promote`,
-- `promote_to_mem`, `promote_account_to_ram`. `hot_records_enabled()` is on, the default, so that a
-- record made is a `Mem` leaf and no promotion writes to the file.
use mpt_flat_poc.Prelude.{
  ℕ, suc, ◌*◌, ◌-◌, Bool, true, false, ◌&&◌, Option, none, some, List, [], ◌∷◌, ◌++◌, length, ltb,
  if◌then◌else◌,
}
use mpt_flat_poc.Externals.{Externals}
use mpt_flat_poc.Node.{
  Node, Slots, extension, branch, account, end, vacant, filled, hash_node, finalize,
}
use mpt_flat_poc.Codec.Write.{DiskSubtree, be_bytes, record_size, serialize_subtree}
use mpt_flat_poc.Frontier.{
  ram_extension, ram_branch, RamChild, ram, promoted, mem, RamSlots, ram_end, ram_vacant,
  ram_filled,
}
use mpt_flat_poc.Result.{Result, ok, err, ◌>>=◌, panicked, oversized}

-- `REGION_BYTES - RECORD_HDR`, of 8 pages of 16384 bytes.
abbrev pub max_record_bytes : ℕ
max_record_bytes = 8 * 16384 - 4

unfoldable pub top_branch_prefix : DiskSubtree → Option (List ℕ)
top_branch_prefix subtree = elim subtree.node [
  | branch children nref ↦ some subtree.prefix
  | extension path (branch children _) nref ↦ some (subtree.prefix ++ path)
  | _ ↦ none
]

abbrev pub has_prefix : Option (List ℕ) → Bool
has_prefix none = false
has_prefix (some p) = true

-- `max_leaf_bytes` is a field of `cfg`.
unfoldable pub should_promote : ℕ → DiskSubtree → Bool
unfolding top_branch_prefix record_size
should_promote max_leaf_bytes subtree =
    ltb max_leaf_bytes (record_size (length subtree.prefix) subtree.node)
    && has_prefix (top_branch_prefix subtree)

unfoldable pub has_top_branch : Node → Bool
has_top_branch (account _ _ _ _ (branch _ _) _ _) = true
has_top_branch (account _ _ _ _ (extension _ _ _) _ _) = true
has_top_branch _ = false

unfoldable pub should_promote_account : ℕ → DiskSubtree → Bool
unfolding has_top_branch record_size
should_promote_account max_leaf_bytes subtree =
    ltb max_leaf_bytes (record_size (length subtree.prefix) subtree.node)
    && has_top_branch subtree.node

-- An extension over the branch, where there is a path.
unfoldable pub ram_wrap : List ℕ → RamSlots → RamChild
ram_wrap [] children = ram (ram_branch children none)
ram_wrap (n ∷ path) children = ram (ram_extension (n ∷ path) (ram_branch children none) none)

module _ ⦃x : Externals⦄ where
  unfoldable pub make_mem_leaf : DiskSubtree → Result RamChild
  unfolding serialize_subtree finalize hash_node
  make_mem_leaf subtree = do
    (payload, _) ← serialize_subtree subtree
    ok (mem payload (finalize (hash_node subtree.node)))

  unfoldable pub promoted_account : List ℕ → ℕ → ℕ → List ℕ → RamChild → Result RamChild
  unfolding be_bytes
  promoted_account path nonce balance code_hash (ram storage) =
      ok (promoted path nonce (be_bytes 32 balance) code_hash storage)
  promoted_account path nonce balance code_hash _ = err panicked

  unfoldable mutual
    pub promote_to_mem : List ℕ → Node → Result RamChild
    promote_to_mem prefix (branch children nref) = do
      cs ← promote_children prefix 0 children
      ok (ram_wrap [] cs)
    promote_to_mem prefix (extension path (branch children _) nref) = do
      cs ← promote_children (prefix ++ path) 0 children
      ok (ram_wrap path cs)
    promote_to_mem prefix _ = err panicked

    -- The loop over `children`, from slot `i` on.
    pub promote_children : List ℕ → ℕ → Slots → Result RamSlots
    promote_children prefix i end = ok ram_end
    promote_children prefix i (vacant cs) = do
      others ← promote_children prefix (suc i) cs
      ok (ram_vacant others)
    promote_children prefix i (filled c cs) = do
      let split = promote_oversized_mem (prefix ++ i ∷ []) c
      child ←
          if ltb max_record_bytes (record_size (length (prefix ++ i ∷ [])) c)
          then split
          else make_mem_leaf (record { prefix = prefix ++ i ∷ []; node = c })
      others ← promote_children prefix (suc i) cs
      ok (ram_filled child others)

    -- The call of `promote_to_mem` on a branch or an extension is written out.
    pub promote_oversized_mem : List ℕ → Node → Result RamChild
    promote_oversized_mem prefix (branch children nref) = do
      cs ← promote_children prefix 0 children
      ok (ram_wrap [] cs)
    promote_oversized_mem prefix (extension path (branch children _) nref) = do
      cs ← promote_children (prefix ++ path) 0 children
      ok (ram_wrap path cs)
    promote_oversized_mem prefix (extension path _ nref) = err panicked
    promote_oversized_mem prefix (account path nonce balance code_hash storage root nref) = do
      c ← promote_to_mem (prefix ++ path) storage
      promoted_account path nonce balance code_hash c
    promote_oversized_mem prefix _ = err oversized

  unfoldable pub promote_account_to_ram : DiskSubtree → Result RamChild
  unfolding promote_to_mem promoted_account
  promote_account_to_ram subtree = elim subtree.node [
    | account path nonce balance code_hash storage root nref ↦
        promote_to_mem (subtree.prefix ++ path) storage >>= λ c.
        promoted_account path nonce balance code_hash c
    | _ ↦ err panicked
  ]
