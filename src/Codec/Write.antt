-- ===== src/Codec/Write.antt =====
-- src/lib.rs: `write_node`, `write_ref`, `write_nibble_path`, `serialize_subtree`, and the
-- allocation-free size walk (`node_size`, `ref_size`, `record_size`). A writer returns the bytes
-- that the code appends to `out`.
use mpt_flat_poc.Prelude.{
  ℕ, zero, suc, ◌+◌, ◌*◌, ◌/◌, ◌%◌, Bool, false, ◌||◌, List, [], ◌∷◌, ◌++◌, length, ltb,
  if◌then◌else◌,
}
use mpt_flat_poc.Node.{
  NodeRef, hash, inline, Node, Slots, empty, leaf, extension, branch, overflow, raw, account, end,
  vacant, filled, branch_bitmap,
}
use mpt_flat_poc.Prelude.{take, drop}
use mpt_flat_poc.Eth.{pack_pairs}
use mpt_flat_poc.Result.{Result, ok, err, ◌>>=◌, path_too_long, invalid_nibble, panicked}

-- The `n` low bytes of a word, least significant first: `to_le_bytes`.
unfoldable pub le_bytes : ℕ → ℕ → List ℕ
le_bytes zero v = []
le_bytes (suc n) v = v % 256 ∷ le_bytes n (v / 256)

-- `to_be_bytes`.
unfoldable pub be_bytes : ℕ → ℕ → List ℕ
be_bytes zero v = []
be_bytes (suc n) v = be_bytes n (v / 256) ++ v % 256 ∷ []

-- A length cast `as u32`, in bytes.
unfoldable pub len_bytes : ℕ → List ℕ
unfolding le_bytes
len_bytes n = le_bytes 4 (n % 4294967296)

unfoldable pub any_above_nibble : List ℕ → Bool
any_above_nibble [] = false
any_above_nibble (n ∷ path) = ltb 15 n || any_above_nibble path

unfoldable pub write_nibble_path : List ℕ → Result (List ℕ)
unfolding any_above_nibble
write_nibble_path path =
    if ltb 255 (length path)
    then err path_too_long
    else if any_above_nibble path
    then err invalid_nibble
    else ok (length path ∷ pack_pairs path)

unfoldable pub write_ref : NodeRef → List ℕ
write_ref (hash h) = 0 ∷ h
write_ref (inline rlp) = 1 ∷ length rlp % 256 ∷ rlp

-- `buf[off..off + len]`, a panic out of range.
unfoldable pub slice : List ℕ → ℕ → ℕ → Result (List ℕ)
slice buf off len =
    if ltb (length buf) (off + len) then err panicked else ok (take len (drop off buf))

unfoldable mutual
  pub write_node : Node → Result (List ℕ)
  write_node empty = ok (0 ∷ [])
  write_node (leaf path value nref) = do
    p ← write_nibble_path path
    ok (1 ∷ (p ++ (len_bytes (length value) ++ (value ++ write_ref nref))))
  write_node (extension path child nref) = do
    p ← write_nibble_path path
    c ← write_node child
    ok (2 ∷ (p ++ (write_ref nref ++ c)))
  write_node (branch children nref) = do
    (table, body) ← write_children children
    ok (3 ∷ (le_bytes 2 (branch_bitmap children) ++ (write_ref nref ++ (table ++ body))))
  write_node (overflow ptr root) = ok (4 ∷ (le_bytes 4 ptr.unit ++ (le_bytes 4 ptr.len ++ root)))
  write_node (raw buf off len nref) = slice buf off len
  write_node (account path nonce balance code_hash storage storage_root nref) = do
    p ← write_nibble_path path
    s ← write_node storage
    ok (5 ∷ (p ++ (le_bytes 8 nonce ++ (be_bytes 32 balance ++ (code_hash ++ s)))))

  -- The child-length table, and the children behind it.
  pub write_children : Slots → Result (List ℕ × List ℕ)
  write_children end = ok ([], [])
  write_children (vacant cs) = write_children cs
  write_children (filled c cs) = do
    bytes ← write_node c
    (table, body) ← write_children cs
    ok (len_bytes (length bytes) ++ table, bytes ++ body)

-- `struct DiskSubtree`.
pub record DiskSubtree : Type 0 where
  pub prefix : List ℕ
  pub node : Node

unfoldable pub ref_size : NodeRef → ℕ
ref_size (hash h) = 1 + 32
ref_size (inline rlp) = 1 + (1 + length rlp)

-- `n.div_ceil(2)`.
unfoldable pub half_up : ℕ → ℕ
half_up n = (n + 1) / 2

unfoldable mutual
  pub node_size : Node → ℕ
  node_size empty = 1
  node_size (leaf path value nref) =
      1 + (1 + half_up (length path)) + 4 + length value + ref_size nref
  node_size (extension path child nref) =
      1 + (1 + half_up (length path)) + ref_size nref + node_size child
  node_size (branch children nref) =
      1 + 2 + ref_size nref + child_count children * 4 + children_size children
  node_size (overflow ptr root) = 1 + 4 + 4 + 32
  node_size (raw buf off len nref) = len
  node_size (account path nonce balance code_hash storage storage_root nref) =
      1 + (1 + half_up (length path)) + 8 + 32 + 32 + node_size storage

  pub child_count : Slots → ℕ
  child_count end = 0
  child_count (vacant cs) = child_count cs
  child_count (filled c cs) = 1 + child_count cs

  pub children_size : Slots → ℕ
  children_size end = 0
  children_size (vacant cs) = children_size cs
  children_size (filled c cs) = node_size c + children_size cs

unfoldable pub record_size : ℕ → Node → ℕ
unfolding half_up
record_size prefix_len node = 1 + half_up prefix_len + node_size node

unfoldable pub serialize_subtree : DiskSubtree → Result (List ℕ × ℕ)
unfolding record_size
serialize_subtree subtree = do
  let total = record_size (length subtree.prefix) subtree.node
  p ← write_nibble_path subtree.prefix
  n ← write_node subtree.node
  ok (p ++ n, total)
