-- ===== src/Record/Delete.antt =====
-- src/lib.rs: `record_node_delete` with `prepend_path` and `apply_delete_op`. A call returns the
-- node that it leaves in place and the outcome.
use mpt_flat_poc.Prelude.{
  ℕ, zero, suc, Option, none, some, List, [], ◌∷◌, ◌++◌, length, drop, list_eqb, if◌then◌else◌,
}
use mpt_flat_poc.Externals.{Externals, Account}
use mpt_flat_poc.Eth.{key_nibbles}
use mpt_flat_poc.Node.{
  Node, Slots, NodeRef, end, vacant, filled, empty, leaf, extension, branch, overflow, raw, account,
  slot_at, fill_slot, clear_slot, leaf_node, account_node, make_extension, make_branch,
}
use mpt_flat_poc.Record.Ops.{empty_root}
use mpt_flat_poc.Record.DeleteOps.{DeleteOp, NodeDelete, absent, changed, removed}
use mpt_flat_poc.Record.Applied.{Applied}
use mpt_flat_poc.Record.Insert.{expand}
use mpt_flat_poc.Record.Get.{starts_with}
use mpt_flat_poc.Result.{
  Result, ok, err, ◌>>=◌, opaque_storage, kind_mismatch, panicked, out_of_fuel,
}

-- A call of the recursion, on the nibbles that it leaves.
abbrev pub NodeDeletion : Type 0
NodeDeletion = Node → List ℕ → DeleteOp → Result (Node × NodeDelete)

-- `children.iter().filter(|c| c.is_some()).count()`.
unfoldable pub survivors : Slots → ℕ
survivors end = 0
survivors (vacant cs) = survivors cs
survivors (filled c cs) = suc (survivors cs)

-- The first child and its slot.
unfoldable pub survivor : Slots → Option (ℕ × Node)
survivor end = none
survivor (vacant cs) = elim (survivor cs) [ none ↦ none | some p ↦ some (suc p.0, p.1) ]
survivor (filled c cs) = some (0, c)

unfoldable pub is_empty_node : Node → NodeDelete
is_empty_node empty = absent
is_empty_node _ = changed

module _ ⦃x : Externals⦄ where
  unfoldable pub prepend_expanded : Node → List ℕ → Result Node
  unfolding leaf_node account_node make_extension
  prepend_expanded (leaf path v _) edge = ok (leaf_node (edge ++ path) v)
  prepend_expanded (account path nonce balance code_hash s _ _) edge =
      ok (account_node (edge ++ path) nonce balance code_hash s)
  prepend_expanded (extension path child _) edge = ok (make_extension (edge ++ path) child)
  prepend_expanded (branch children nref) edge = ok (make_extension edge (branch children nref))
  prepend_expanded _ edge = err panicked

  unfoldable pub prepend_path : Node → List ℕ → Result Node
  unfolding expand prepend_expanded
  prepend_path node [] = expand node
  prepend_path node (e ∷ edge) = expand node >>= λ n. prepend_expanded n (e ∷ edge)

  -- A slot delete or a wipe on an account that is stored as an opaque leaf.
  unfoldable pub delete_opaque_slot : Option Account → Node → Result Applied
  delete_opaque_slot none old = err kind_mismatch
  delete_opaque_slot (some prior) old =
      if list_eqb prior.storage_root empty_root then ok (Applied.absent old) else err opaque_storage

  unfoldable pub wipe_opaque : Option Account → List ℕ → List ℕ → Result Applied
  unfolding leaf_node account_node
  wipe_opaque none path v = err kind_mismatch
  wipe_opaque (some prior) path v =
      if list_eqb prior.storage_root empty_root
      then ok (Applied.absent (leaf_node path v))
      else ok (Applied.changed (account_node path prior.nonce prior.balance prior.code_hash empty))

  -- The account that a slot delete leaves.
  unfoldable pub slot_deleted : List ℕ → ℕ → ℕ → List ℕ → Node → NodeDelete → Applied
  unfolding account_node
  slot_deleted path nonce balance code_hash s absent =
      Applied.absent (account_node path nonce balance code_hash s)
  slot_deleted path nonce balance code_hash s changed =
      Applied.changed (account_node path nonce balance code_hash s)
  slot_deleted path nonce balance code_hash s removed =
      Applied.changed (account_node path nonce balance code_hash empty)

  unfoldable pub wiped : List ℕ → ℕ → ℕ → List ℕ → NodeDelete → Applied
  unfolding account_node
  wiped path nonce balance code_hash absent =
      Applied.absent (account_node path nonce balance code_hash empty)
  wiped path nonce balance code_hash _ =
      Applied.changed (account_node path nonce balance code_hash empty)

  unfoldable pub apply_delete_op : NodeDeletion → Node → DeleteOp → Result Applied
  unfolding slot_deleted wiped is_empty_node delete_opaque_slot wipe_opaque
  apply_delete_op delete (leaf path v nref) DeleteOp.value = ok Applied.removed
  apply_delete_op delete (leaf path v nref) DeleteOp.account = ok Applied.removed
  apply_delete_op delete (leaf path v nref) (DeleteOp.storage slot) =
      delete_opaque_slot (x.decode_account v) (leaf path v nref)
  apply_delete_op delete (leaf path v nref) DeleteOp.wipe_storage =
      wipe_opaque (x.decode_account v) path v
  apply_delete_op delete (account _ _ _ _ _ _ _) DeleteOp.account = ok Applied.removed
  apply_delete_op delete (account path nonce balance code_hash s _ _) (DeleteOp.storage slot) =
      delete s (key_nibbles slot) DeleteOp.value >>= λ d.
      ok (slot_deleted path nonce balance code_hash d.0 d.1)
  apply_delete_op delete (account path nonce balance code_hash s _ _) DeleteOp.wipe_storage =
      ok (wiped path nonce balance code_hash (is_empty_node s))
  apply_delete_op delete _ op = err kind_mismatch

  unfoldable pub settle : Applied → Node × NodeDelete
  settle (Applied.absent n) = (n, absent)
  settle (Applied.changed n) = (n, changed)
  settle Applied.removed = (empty, removed)

  -- The leaf and account arm.
  unfoldable pub delete_at_leaf :
      NodeDeletion → Node → List ℕ → List ℕ → DeleteOp → Result (Node × NodeDelete)
  unfolding settle apply_delete_op
  delete_at_leaf delete old path rest op =
      if list_eqb path rest
      then (apply_delete_op delete old op >>= λ a. ok (settle a))
      else ok (old, absent)

  -- What the extension does after its child's delete.
  unfoldable pub refold_extension :
      List ℕ → NodeRef → Node × NodeDelete → Result (Node × NodeDelete)
  unfolding prepend_path
  refold_extension path nref (child, absent) = ok (extension path child nref, absent)
  refold_extension path nref (child, removed) = ok (empty, removed)
  refold_extension path nref (child, changed) = prepend_path child path >>= λ n. ok (n, changed)

  unfoldable pub delete_at_extension :
      NodeDeletion → List ℕ → Node → NodeRef → List ℕ → DeleteOp → Result (Node × NodeDelete)
  unfolding starts_with refold_extension
  delete_at_extension delete path child nref rest op =
      if starts_with rest path
      then (delete child (drop (length path) rest) op >>= λ d. refold_extension path nref d)
      else ok (extension path child nref, absent)

  -- The branch whose slot was cleared: gone, collapsed into its lone survivor, or folded anew.
  unfoldable pub collapse : Slots → ℕ → Option (ℕ × Node) → Result (Node × NodeDelete)
  unfolding prepend_path
  collapse children zero s = ok (empty, removed)
  collapse children (suc zero) none = err panicked
  collapse children (suc zero) (some s) = prepend_path s.1 (s.0 ∷ []) >>= λ n. ok (n, changed)
  collapse children (suc (suc n)) s = make_branch children >>= λ b. ok (b, changed)

  unfoldable pub refold_branch :
      Slots → ℕ → NodeRef → Node × NodeDelete → Result (Node × NodeDelete)
  unfolding collapse survivors survivor
  refold_branch children idx nref (child, absent) =
      ok (branch (fill_slot children idx child) nref, absent)
  refold_branch children idx nref (child, changed) =
      make_branch (fill_slot children idx child) >>= λ b. ok (b, changed)
  refold_branch children idx nref (child, removed) =
      let cs = clear_slot children idx in collapse cs (survivors cs) (survivor cs)

  unfoldable pub delete_in_slot :
      NodeDeletion
      → Slots
      → ℕ
      → NodeRef
      → Option Node
      → List ℕ
      → DeleteOp
      → Result (Node × NodeDelete)
  unfolding refold_branch
  delete_in_slot delete children idx nref none rest op = ok (branch children nref, absent)
  delete_in_slot delete children idx nref (some (overflow ptr root)) rest op = err panicked
  delete_in_slot delete children idx nref (some child) rest op =
      delete child rest op >>= λ d. refold_branch children idx nref d

  -- The `match` of `record_node_delete` on an expanded node.
  unfoldable pub delete_expanded :
      NodeDeletion → Node → List ℕ → DeleteOp → Result (Node × NodeDelete)
  unfolding delete_at_leaf delete_at_extension delete_in_slot
  delete_expanded delete empty rest op = ok (empty, absent)
  delete_expanded delete (leaf path v nref) rest op =
      delete_at_leaf delete (leaf path v nref) path rest op
  delete_expanded delete (account path nonce balance code_hash s root nref) rest op =
      delete_at_leaf delete (account path nonce balance code_hash s root nref) path rest op
  delete_expanded delete (extension path child nref) rest op =
      delete_at_extension delete path child nref rest op
  delete_expanded delete (branch children nref) [] op = err panicked
  delete_expanded delete (branch children nref) (idx ∷ rest) op =
      delete_in_slot delete children idx nref (slot_at children idx) rest op
  delete_expanded delete (overflow ptr root) rest op = err panicked
  delete_expanded delete (raw buf off len nref) rest op = err panicked

  -- Each level of the descent and each step into an account's storage costs one unit of fuel.
  unfoldable pub record_node_delete : ℕ → NodeDeletion
  record_node_delete zero node rest op = err out_of_fuel
  record_node_delete (suc fuel) node rest op =
      expand node >>= λ n. delete_expanded (record_node_delete fuel) n rest op
