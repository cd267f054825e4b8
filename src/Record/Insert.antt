-- ===== src/Record/Insert.antt =====
-- src/lib.rs: `record_node_insert` with `place_new`, `rehome` and `apply_op`.
use mpt_flat_poc.Prelude.{
  ℕ, zero, suc, ◌+◌, Option, none, some, List, [], ◌∷◌, length, take, drop, ◌==◌, list_eqb,
  if◌then◌else◌,
}
use mpt_flat_poc.Externals.{Externals, Account}
use mpt_flat_poc.Eth.{key_nibbles}
use mpt_flat_poc.Node.{
  Node, Slots, empty, leaf, extension, branch, overflow, raw, account, slot_at, fill_slot,
  empty_box_children, leaf_node, account_node, make_extension, make_branch,
}
use mpt_flat_poc.Record.Ops.{LeafOp, empty_root, empty_code_hash}
use mpt_flat_poc.Codec.Lazy.{parse_node_lazy}
use mpt_flat_poc.Result.{
  Result, ok, err, ◌>>=◌, opaque_storage, kind_mismatch, panicked, out_of_fuel,
}

unfoldable pub common_prefix : List ℕ → List ℕ → ℕ
common_prefix [] bs = 0
common_prefix (a ∷ as') [] = 0
common_prefix (a ∷ as') (b ∷ bs) =
    let rest : ℕ = suc (common_prefix as' bs) in if a == b then rest else 0

-- `list[i]`, a panic out of range.
unfoldable pub index : List ℕ → ℕ → Result ℕ
index [] i = err panicked
index (n ∷ ns) zero = ok n
index (n ∷ ns) (suc i) = index ns i

-- A nested storage insert: `record_node_insert(…, &mut storage, 0, slot, LeafOp::Value(value))`.
abbrev pub StorageInsert : Type 0
StorageInsert = Node → List ℕ → LeafOp → Result Node

module _ ⦃x : Externals⦄ where
  unfoldable pub place_new : StorageInsert → LeafOp → List ℕ → Result Node
  unfolding leaf_node account_node
  place_new insert (LeafOp.value v) path = ok (leaf_node path v)
  place_new insert (LeafOp.account nonce balance code_hash) path =
      ok (account_node path nonce balance code_hash empty)
  place_new insert (LeafOp.storage slot v) path = do
    s ← insert empty (key_nibbles slot) (LeafOp.value v)
    ok (account_node path 0 0 empty_code_hash s)

  unfoldable pub rehome : Node → List ℕ → Result Node
  unfolding leaf_node account_node
  rehome (leaf _ v _) path = ok (leaf_node path v)
  rehome (account _ nonce balance code_hash s _ _) path =
      ok (account_node path nonce balance code_hash s)
  rehome _ path = err panicked

  -- A field update of an account that is stored as an opaque leaf.
  unfoldable pub update_opaque : Option Account → List ℕ → ℕ → ℕ → List ℕ → Node
  unfolding leaf_node account_node
  update_opaque none path nonce balance code_hash = account_node path nonce balance code_hash empty
  update_opaque (some prior) path nonce balance code_hash =
      if list_eqb prior.storage_root empty_root
      then account_node path nonce balance code_hash empty
      else leaf_node path (
          x.encode_account (record {
            nonce = nonce;
            balance = balance;
            storage_root = prior.storage_root;
            code_hash = code_hash;
          }))

  -- A slot write on an account that is stored as an opaque leaf.
  unfoldable pub store_opaque :
      StorageInsert → Option Account → List ℕ → List ℕ → List ℕ → Result Node
  unfolding account_node
  store_opaque insert none path slot v = err kind_mismatch
  store_opaque insert (some prior) path slot v =
      if list_eqb prior.storage_root empty_root
      then (insert empty (key_nibbles slot) (LeafOp.value v) >>= λ s.
          ok (account_node path prior.nonce prior.balance prior.code_hash s))
      else err opaque_storage

  unfoldable pub apply_op : StorageInsert → Node → List ℕ → LeafOp → Result Node
  unfolding update_opaque store_opaque leaf_node account_node
  apply_op insert (leaf _ old _) path (LeafOp.value v) = ok (leaf_node path v)
  apply_op insert (leaf _ old _) path (LeafOp.account nonce balance code_hash) =
      ok (update_opaque (x.decode_account old) path nonce balance code_hash)
  apply_op insert (leaf _ old _) path (LeafOp.storage slot v) =
      store_opaque insert (x.decode_account old) path slot v
  apply_op insert (account _ _ _ _ s _ _) path (LeafOp.account nonce balance code_hash) =
      ok (account_node path nonce balance code_hash s)
  apply_op insert (account _ nonce balance code_hash s _ _) path (LeafOp.storage slot v) = do
    s' ← insert s (key_nibbles slot) (LeafOp.value v)
    ok (account_node path nonce balance code_hash s')
  apply_op insert _ path op = err kind_mismatch

  -- `if common == 0 { branch } else { make_extension(path[..common], branch) }`.
  unfoldable pub wrap_branch : List ℕ → ℕ → Node → Node
  wrap_branch path common b = if common == 0 then b else make_extension (take common path) b

  -- The branch that a divergence at `common` makes: the old subtree, already re-homed, in the slot
  -- of `path`, then the new node in the slot of `rest`.
  unfoldable pub split :
      StorageInsert → LeafOp → List ℕ → List ℕ → ℕ → (List ℕ → Result Node) → Result Node
  split insert op path rest common rehomed = do
    old_idx ← index path common
    old ← rehomed (drop (common + 1) path)
    new_idx ← index rest common
    new ← place_new insert op (drop (common + 1) rest)
    b ← make_branch (fill_slot (fill_slot empty_box_children old_idx old) new_idx new)
    ok (wrap_branch path common b)

  -- The leaf and account arm.
  unfoldable pub insert_at_leaf : StorageInsert → Node → List ℕ → List ℕ → LeafOp → Result Node
  insert_at_leaf insert old path rest op =
      let common = common_prefix path rest in
      if common == length path
      then apply_op insert old path op
      else split insert op path rest common (rehome old)

  -- The rest of an extension's path above its child.
  unfoldable pub shorten : Node → List ℕ → Result Node
  unfolding make_extension
  shorten child [] = ok child
  shorten child (n ∷ path) = ok (make_extension (n ∷ path) child)

  -- A call of the recursion, on the nibbles that it leaves.
  unfoldable pub insert_at_extension : StorageInsert → List ℕ → Node → List ℕ → LeafOp → Result Node
  insert_at_extension insert path child rest op =
      let common = common_prefix path rest in
      if common == length path
      then (insert child (drop common rest) op >>= λ c. ok (make_extension path c))
      else split insert op path rest common (shorten child)

  unfoldable pub insert_in_slot : StorageInsert → Option Node → List ℕ → LeafOp → Result Node
  unfolding place_new
  insert_in_slot insert none rest op = place_new insert op rest
  insert_in_slot insert (some (overflow ptr root)) rest op = err panicked
  insert_in_slot insert (some child) rest op = insert child rest op

  unfoldable pub insert_at_branch : StorageInsert → Slots → List ℕ → LeafOp → Result Node
  insert_at_branch insert children [] op = err panicked
  insert_at_branch insert children (idx ∷ rest) op = do
    c ← insert_in_slot insert (slot_at children idx) rest op
    make_branch (fill_slot children idx c)

  -- The `match` of `record_node_insert` on an expanded node.
  unfoldable pub insert_expanded : StorageInsert → Node → List ℕ → LeafOp → Result Node
  insert_expanded insert empty rest op = place_new insert op rest
  insert_expanded insert (leaf path v nref) rest op =
      insert_at_leaf insert (leaf path v nref) path rest op
  insert_expanded insert (account path nonce balance code_hash s root nref) rest op =
      insert_at_leaf insert (account path nonce balance code_hash s root nref) path rest op
  insert_expanded insert (extension path child nref) rest op =
      insert_at_extension insert path child rest op
  insert_expanded insert (branch children nref) rest op = insert_at_branch insert children rest op
  insert_expanded insert (overflow ptr root) rest op = err panicked
  insert_expanded insert (raw buf off len nref) rest op = err panicked

  -- Expand a `Raw` one level.
  unfoldable pub expand : Node → Result Node
  expand (raw buf off len nref) = parse_node_lazy buf off len
  expand empty = ok empty
  expand (leaf path v nref) = ok (leaf path v nref)
  expand (account path nonce balance code_hash s root nref) =
      ok (account path nonce balance code_hash s root nref)
  expand (extension path child nref) = ok (extension path child nref)
  expand (branch children nref) = ok (branch children nref)
  expand (overflow ptr root) = ok (overflow ptr root)

  -- Each level of the descent and each step into an account's storage costs one unit of fuel.
  unfoldable pub record_node_insert : ℕ → Node → List ℕ → LeafOp → Result Node
  record_node_insert zero node rest op = err out_of_fuel
  record_node_insert (suc fuel) node rest op =
      expand node >>= λ n. insert_expanded (record_node_insert fuel) n rest op
