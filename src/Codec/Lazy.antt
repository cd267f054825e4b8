-- ===== src/Codec/Lazy.antt =====
-- src/lib.rs: `LazyReader::node`, `extract_ref` and `parse_node_lazy`: the reader that leaves the
-- leaf, extension and branch children of a branch as unparsed `Raw` slices.
use mpt_flat_poc.Prelude.{
  ℕ, zero, suc, ◌+◌, ◌/◌, ◌%◌, List, [], ◌∷◌, length, drop, ◌==◌, if◌then◌else◌, ◌||◌,
}
use mpt_flat_poc.Externals.{Externals}
use mpt_flat_poc.Node.{
  NodeRef, hash, Node, Slots, branch, raw, end, vacant, filled, empty, empty_hash,
}
use mpt_flat_poc.Codec.Write.{DiskSubtree, slice}
use mpt_flat_poc.Codec.Reader.{
  Read, read_u8, read_u16, read_u32, read_bytes, read_hash, read_ref, read_nibble_path,
  skip_nibble_path, count_ones, read_leaf, read_extension, read_overflow, read_account,
}
use mpt_flat_poc.Result.{
  Result, ok, err, ◌>>=◌, truncated, trailing_bytes, invalid_tag, out_of_fuel, panicked,
}

module _ ⦃x : Externals⦄ where
  -- The tag's arm of `extract_ref`, at the position behind the tag.
  unfoldable pub extract_tagged : ℕ → List ℕ → ℕ → Result NodeRef
  unfolding empty_hash skip_nibble_path read_u32 read_bytes read_ref read_u16 read_hash
  extract_tagged zero bytes pos = ok (hash empty_hash)
  extract_tagged (suc zero) bytes pos = do
    pos₁ ← skip_nibble_path bytes pos
    (vlen, pos₂) ← read_u32 bytes pos₁
    (_, pos₃) ← read_bytes vlen bytes pos₂
    (nref, _) ← read_ref bytes pos₃
    ok nref
  extract_tagged (suc (suc zero)) bytes pos = do
    pos₁ ← skip_nibble_path bytes pos
    (nref, _) ← read_ref bytes pos₁
    ok nref
  extract_tagged (suc (suc (suc zero))) bytes pos = do
    (_, pos₁) ← read_u16 bytes pos
    (nref, _) ← read_ref bytes pos₁
    ok nref
  extract_tagged (suc (suc (suc (suc zero)))) bytes pos = do
    (_, pos₁) ← read_bytes (4 + 4) bytes pos
    (h, _) ← read_hash bytes pos₁
    ok (hash h)
  extract_tagged _ bytes pos = err invalid_tag

  unfoldable pub extract_ref : List ℕ → Result NodeRef
  unfolding extract_tagged read_u8
  extract_ref bytes = do (tag, pos) ← read_u8 bytes 0; extract_tagged tag bytes pos

-- `lens`: one u32 for each of the `n` children present.
unfoldable pub read_lens : ℕ → Read (List ℕ)
unfolding read_u32
read_lens zero buf pos = ok ([], pos)
read_lens (suc n) buf pos = do
  (len, pos') ← read_u32 buf pos
  (lens, pos'') ← read_lens n buf pos'
  ok (len ∷ lens, pos'')

-- `self.buf.get(self.pos)`.
unfoldable pub peek_u8 : List ℕ → ℕ → Result ℕ
peek_u8 buf pos = elim (drop pos buf) [ [] ↦ err truncated | b ∷ _ ↦ ok b ]

unfoldable pub next_len : List ℕ → Result (ℕ × List ℕ)
next_len [] = err panicked
next_len (len ∷ lens) = ok (len, lens)

module _ ⦃x : Externals⦄ where
  -- One present child of a branch: tags 1, 2 and 3 stay `Raw`.
  unfoldable pub read_child_lazy : Read Node → ℕ → Read Node
  unfolding peek_u8 slice extract_ref
  read_child_lazy child len buf pos = do
    tag ← peek_u8 buf pos
    let sliced : Result (Node × ℕ) = do
      bytes ← slice buf pos len
      nref ← extract_ref bytes
      ok (raw buf pos len nref, pos + len)
    if (tag == 1) || ((tag == 2) || (tag == 3)) then sliced else child buf pos

  unfoldable pub read_children_lazy : Read Node → ℕ → ℕ → List ℕ → Read Slots
  unfolding read_child_lazy next_len
  read_children_lazy child zero bitmap lens buf pos = ok (end, pos)
  read_children_lazy child (suc slots) bitmap lens buf pos =
      let absent : Result (Slots × ℕ) = (do
        (cs, pos') ← read_children_lazy child slots (bitmap / 2) lens buf pos
        ok (vacant cs, pos')) in
      let present : Result (Slots × ℕ) = (do
        (len, lens') ← next_len lens
        (c, pos') ← read_child_lazy child len buf pos
        (cs, pos'') ← read_children_lazy child slots (bitmap / 2) lens' buf pos'
        ok (filled c cs, pos'')) in
      if bitmap % 2 == 1 then present else absent

  unfoldable pub read_branch_lazy : Read Node → Read Node
  unfolding read_u16 read_ref count_ones read_lens read_children_lazy
  read_branch_lazy child buf pos = do
    (bitmap, pos₁) ← read_u16 buf pos
    (nref, pos₂) ← read_ref buf pos₁
    (lens, pos₃) ← read_lens (count_ones 16 bitmap) buf pos₂
    (children, pos₄) ← read_children_lazy child 16 bitmap lens buf pos₃
    ok (branch children nref, pos₄)

  -- The `match` of `LazyReader::node` on the tag.
  unfoldable pub read_tagged_lazy : ℕ → Read Node → Read Node
  unfolding read_leaf read_extension read_branch_lazy read_overflow read_account
  read_tagged_lazy zero child buf pos = ok (empty, pos)
  read_tagged_lazy (suc zero) child buf pos = read_leaf buf pos
  read_tagged_lazy (suc (suc zero)) child buf pos = read_extension child buf pos
  read_tagged_lazy (suc (suc (suc zero))) child buf pos = read_branch_lazy child buf pos
  read_tagged_lazy (suc (suc (suc (suc zero)))) child buf pos = read_overflow buf pos
  read_tagged_lazy (suc (suc (suc (suc (suc zero))))) child buf pos = read_account child buf pos
  read_tagged_lazy _ child buf pos = err invalid_tag

  unfoldable pub read_node_lazy : ℕ → Read Node
  unfolding read_u8 read_tagged_lazy
  read_node_lazy zero buf pos = err out_of_fuel
  read_node_lazy (suc fuel) buf pos = do
    (tag, pos') ← read_u8 buf pos
    read_tagged_lazy tag (read_node_lazy fuel) buf pos'

  unfoldable pub parse_node_lazy : List ℕ → ℕ → ℕ → Result Node
  unfolding read_node_lazy
  parse_node_lazy buf off len = do
    (node, pos) ← read_node_lazy (length buf + 1) buf off
    if pos == off + len then ok node else err trailing_bytes

  unfoldable pub deserialize_subtree_lazy : List ℕ → Result DiskSubtree
  unfolding read_nibble_path read_node_lazy
  deserialize_subtree_lazy buf = do
    (prefix, pos) ← read_nibble_path buf 0
    (node, pos') ← read_node_lazy (length buf + 1) buf pos
    if pos' == length buf then ok (record { prefix = prefix; node = node }) else err trailing_bytes
