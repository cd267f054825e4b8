-- ===== src/Codec/Reader.antt =====
-- src/lib.rs: `CompactReader`. A reader takes the buffer and a position, and returns what it read
-- with the new position. `LazyReader` has the same primitives, word for word, so `Codec.Lazy`
-- reads through these. `pos.checked_add(len)` cannot fail: a length read is below 2^32.
use mpt_flat_poc.Prelude.{
  ℕ, zero, suc, ◌+◌, ◌*◌, ◌/◌, ◌%◌, List, [], ◌∷◌, length, take, drop, ltb, ◌==◌, if◌then◌else◌,
}
use mpt_flat_poc.Externals.{Externals}
use mpt_flat_poc.Node.{
  NodeRef, hash, inline, Node, Slots, empty, leaf, extension, branch, overflow, end, vacant, filled,
  account_node,
}
use mpt_flat_poc.Codec.Write.{DiskSubtree, half_up}
use mpt_flat_poc.Result.{
  Result, ok, err, ◌>>=◌, truncated, trailing_bytes, path_too_long, invalid_tag, out_of_fuel,
  panicked,
}

abbrev pub Read {ℓ} : Type ℓ → Type ℓ
Read A = List ℕ → ℕ → Result (A × ℕ)

unfoldable pub read_bytes : ℕ → Read (List ℕ)
read_bytes len buf pos =
    if ltb (length buf) (pos + len) then err truncated else ok (take len (drop pos buf), pos + len)

-- `from_le_bytes`, `U256::from_be_slice`.
unfoldable pub le_value : List ℕ → ℕ
le_value [] = 0
le_value (b ∷ bs) = b + 256 * le_value bs

unfoldable pub be_value : ℕ → List ℕ → ℕ
be_value acc [] = acc
be_value acc (b ∷ bs) = be_value (acc * 256 + b) bs

unfoldable pub first : List ℕ → Result ℕ
first [] = err panicked
first (b ∷ bs) = ok b

unfoldable pub read_u8 : Read ℕ
unfolding read_bytes first
read_u8 buf pos = do (bytes, pos') ← read_bytes 1 buf pos; b ← first bytes; ok (b, pos')

unfoldable pub read_u16 : Read ℕ
unfolding read_bytes le_value
read_u16 buf pos = do (bytes, pos') ← read_bytes 2 buf pos; ok (le_value bytes, pos')

unfoldable pub read_u32 : Read ℕ
unfolding read_bytes le_value
read_u32 buf pos = do (bytes, pos') ← read_bytes 4 buf pos; ok (le_value bytes, pos')

unfoldable pub read_hash : Read (List ℕ)
unfolding read_bytes
read_hash buf pos = read_bytes 32 buf pos

-- The `for _ in 0..len.div_ceil(2)` loop over the nibbles left: the low nibble of the last byte
-- is dropped where the path is odd.
unfoldable pub read_nibbles : ℕ → Read (List ℕ)
unfolding read_u8
read_nibbles zero buf pos = ok ([], pos)
read_nibbles (suc zero) buf pos = do (byte, pos') ← read_u8 buf pos; ok (byte / 16 ∷ [], pos')
read_nibbles (suc (suc left)) buf pos = do
  (byte, pos') ← read_u8 buf pos
  (path, pos'') ← read_nibbles left buf pos'
  ok (byte / 16 ∷ byte % 16 ∷ path, pos'')

unfoldable pub read_nibble_path : Read (List ℕ)
unfolding read_u8 read_nibbles
read_nibble_path buf pos = do
  (len, pos') ← read_u8 buf pos
  if ltb 128 len then err path_too_long else read_nibbles len buf pos'

unfoldable pub skip_nibble_path : List ℕ → ℕ → Result ℕ
unfolding read_u8 read_bytes half_up
skip_nibble_path buf pos = do
  (len, pos') ← read_u8 buf pos
  if ltb 128 len
      then err path_too_long
      else read_bytes (half_up len) buf pos' >>= λ (_, pos''). ok pos''

unfoldable pub read_ref : Read NodeRef
unfolding read_u8 read_hash read_bytes
read_ref buf pos = do
  (tag, pos₁) ← read_u8 buf pos
  let hashed : Result (NodeRef × ℕ) = do (h, pos₂) ← read_hash buf pos₁; ok (hash h, pos₂)
  let inlined : Result (NodeRef × ℕ) = do
    (len, pos₂) ← read_u8 buf pos₁
    (rlp, pos₃) ← read_bytes len buf pos₂
    ok (inline rlp, pos₃)
  if tag == 0 then hashed else if tag == 1 then inlined else err invalid_tag

-- `bitmap.count_ones()` of a 16-bit word, over the bits left.
unfoldable pub count_ones : ℕ → ℕ → ℕ
count_ones zero bitmap = 0
count_ones (suc bits) bitmap = bitmap % 2 + count_ones bits (bitmap / 2)

-- The `for (idx, slot) in children.iter_mut().enumerate()` loop over the slots left.
unfoldable pub read_children : Read Node → ℕ → ℕ → Read Slots
read_children child zero bitmap buf pos = ok (end, pos)
read_children child (suc slots) bitmap buf pos =
    let absent : Result (Slots × ℕ) = (do
      (cs, pos') ← read_children child slots (bitmap / 2) buf pos
      ok (vacant cs, pos')) in
    let present : Result (Slots × ℕ) = (do
      (c, pos') ← child buf pos
      (cs, pos'') ← read_children child slots (bitmap / 2) buf pos'
      ok (filled c cs, pos'')) in
    if bitmap % 2 == 1 then present else absent

module _ ⦃x : Externals⦄ where
  unfoldable pub read_leaf : Read Node
  unfolding read_nibble_path read_u32 read_bytes read_ref
  read_leaf buf pos = do
    (path, pos₁) ← read_nibble_path buf pos
    (vlen, pos₂) ← read_u32 buf pos₁
    (value, pos₃) ← read_bytes vlen buf pos₂
    (nref, pos₄) ← read_ref buf pos₃
    ok (leaf path value nref, pos₄)

  unfoldable pub read_extension : Read Node → Read Node
  unfolding read_nibble_path read_ref
  read_extension child buf pos = do
    (path, pos₁) ← read_nibble_path buf pos
    (nref, pos₂) ← read_ref buf pos₁
    (c, pos₃) ← child buf pos₂
    ok (extension path c nref, pos₃)

  unfoldable pub read_branch : Read Node → Read Node
  unfolding read_u16 read_ref read_bytes count_ones read_children
  read_branch child buf pos = do
    (bitmap, pos₁) ← read_u16 buf pos
    (nref, pos₂) ← read_ref buf pos₁
    (_, pos₃) ← read_bytes (count_ones 16 bitmap * 4) buf pos₂
    (children, pos₄) ← read_children child 16 bitmap buf pos₃
    ok (branch children nref, pos₄)

  unfoldable pub read_overflow : Read Node
  unfolding read_u32 read_hash
  read_overflow buf pos = do
    (unit, pos₁) ← read_u32 buf pos
    (len, pos₂) ← read_u32 buf pos₁
    (root, pos₃) ← read_hash buf pos₂
    ok (overflow (record { unit = unit; len = len }) root, pos₃)

  unfoldable pub read_account : Read Node → Read Node
  unfolding read_nibble_path read_bytes le_value be_value account_node
  read_account child buf pos = do
    (path, pos₁) ← read_nibble_path buf pos
    (nonce, pos₂) ← read_bytes 8 buf pos₁
    (balance, pos₃) ← read_bytes 32 buf pos₂
    (code_hash, pos₄) ← read_bytes 32 buf pos₃
    (storage, pos₅) ← child buf pos₄
    ok (account_node path (le_value nonce) (be_value 0 balance) code_hash storage, pos₅)

  -- The `match` of `read_node` on the tag.
  unfoldable pub read_tagged : ℕ → Read Node → Read Node
  unfolding read_leaf read_extension read_branch read_overflow read_account
  read_tagged zero child buf pos = ok (empty, pos)
  read_tagged (suc zero) child buf pos = read_leaf buf pos
  read_tagged (suc (suc zero)) child buf pos = read_extension child buf pos
  read_tagged (suc (suc (suc zero))) child buf pos = read_branch child buf pos
  read_tagged (suc (suc (suc (suc zero)))) child buf pos = read_overflow buf pos
  read_tagged (suc (suc (suc (suc (suc zero))))) child buf pos = read_account child buf pos
  read_tagged _ child buf pos = err invalid_tag

  -- Each call reads a tag byte, so a fuel above the bytes left is enough.
  unfoldable pub read_node : ℕ → Read Node
  unfolding read_u8 read_tagged
  read_node zero buf pos = err out_of_fuel
  read_node (suc fuel) buf pos = do
    (tag, pos') ← read_u8 buf pos
    read_tagged tag (read_node fuel) buf pos'

  unfoldable pub deserialize_subtree : List ℕ → Result DiskSubtree
  unfolding read_node
  deserialize_subtree payload = do
    (prefix, pos) ← read_nibble_path payload 0
    (node, pos') ← read_node (length payload + 1) payload pos
    if pos' == length payload
        then ok (record { prefix = prefix; node = node })
        else err trailing_bytes
