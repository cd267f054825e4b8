-- ===== src/Codec/Size.antt =====
-- src/lib.rs: `write_node` succeeds on nodes whose parts fit their fields, and `node_size`,
-- `record_size` are the lengths of what `write_node` and `serialize_subtree` write.
use mpt_flat_poc.Prelude.{
  ℕ, zero, suc, ◌+◌, ◌*◌, ◌/◌, ◌%◌, ◌<◌, ◌≤◌, ◌≡◌, refl, ap, false, List, [], ◌∷◌, ◌++◌, length,
  length-append, length-drop, take, drop, arith,
}
use mpt_flat_poc.Eth.{pack_pairs}
use mpt_flat_poc.Node.{
  NodeRef, hash, inline, Node, Slots, empty, leaf, extension, branch, overflow, raw, account, end,
  vacant, filled, branch_bitmap,
}
use mpt_flat_poc.Codec.Write.{
  le_bytes, be_bytes, len_bytes, any_above_nibble, write_nibble_path, write_ref, slice, write_node,
  write_children, DiskSubtree, ref_size, half_up, node_size, child_count, children_size,
  record_size, serialize_subtree,
}
use mpt_flat_poc.Result.{ok}

abbrev pub PathFits : List ℕ → Type 0
PathFits [] = Unit
PathFits (n ∷ path) = (n < 16) × PathFits path

abbrev pub RefFits : NodeRef → Type 0
RefFits (hash h) = length h ≡ 32
RefFits (inline rlp) = length rlp < 256

-- A `Hash` has 32 bytes, a path at most 255 nibbles, and a slice lies in its buffer.
abbrev mutual
  pub Fits : Node → Type 0
  Fits empty = Unit
  Fits (leaf path value nref) = PathFits path × (length path ≤ 255) × RefFits nref
  Fits (extension path child nref) = PathFits path × (length path ≤ 255) × RefFits nref × Fits child
  Fits (branch children nref) = RefFits nref × SlotsFit children
  Fits (overflow ptr root) = length root ≡ 32
  Fits (raw buf off len nref) = off + len ≤ length buf
  Fits (account path nonce balance code_hash storage storage_root nref) =
      PathFits path × (length path ≤ 255) × (length code_hash ≡ 32) × Fits storage

  pub SlotsFit : Slots → Type 0
  SlotsFit end = Unit
  SlotsFit (vacant cs) = SlotsFit cs
  SlotsFit (filled c cs) = Fits c × SlotsFit cs

pub length-le_bytes : (n v : ℕ) → length (le_bytes n v) ≡ n
unfolding le_bytes
length-le_bytes zero v = refl
length-le_bytes (suc n) v = ap suc (length-le_bytes n (v / 256))

pub length-be_bytes : (n v : ℕ) → length (be_bytes n v) ≡ n
unfolding be_bytes
length-be_bytes zero v = refl
length-be_bytes (suc n) v =
    omega (arith, length-append (be_bytes n (v / 256)) (v % 256 ∷ []), length-be_bytes n (v / 256))

pub length-pack_pairs : (path : List ℕ) → length (pack_pairs path) ≡ half_up (length path)
unfolding pack_pairs half_up
length-pack_pairs [] = omega arith
length-pack_pairs (hi ∷ []) = omega arith
length-pack_pairs (hi ∷ lo ∷ rest) = omega (arith, length-pack_pairs rest)

no_wide_nibble : (path : List ℕ) → PathFits path → any_above_nibble path ≡ false
unfolding any_above_nibble
no_wide_nibble [] f = refl
no_wide_nibble (n ∷ path) f = ground (arith, no_wide_nibble path f.1, f.0)

pub write_nibble_path-fits :
    (path : List ℕ)
    → PathFits path
    → length path ≤ 255
    → write_nibble_path path ≡ ok (length path ∷ pack_pairs path)
unfolding write_nibble_path
write_nibble_path-fits path f short = rw (no_wide_nibble path f) (ground arith)

pub length-take : (n : ℕ) (xs : List ℕ) → n ≤ length xs → length (take n xs) ≡ n
length-take zero xs h = refl
length-take (suc n) [] h = absurd (omega arith)
length-take (suc n) (x ∷ xs) h = omega (arith, length-take n xs)

slice-fits :
    (buf : List ℕ) (off len : ℕ)
    → off + len ≤ length buf
    → (bytes : List ℕ) × (slice buf off len ≡ ok bytes) × (length bytes ≡ len)
unfolding slice
slice-fits buf off len h = (
  take len (drop off buf),
  ground arith,
  length-take len (drop off buf) (omega (arith, length-drop off buf)),
)

pub length-write_ref : (r : NodeRef) → RefFits r → length (write_ref r) ≡ ref_size r
unfolding write_ref ref_size
length-write_ref (hash h) f = omega (arith, f)
length-write_ref (inline rlp) f = omega arith

pub length-len_bytes : (n : ℕ) → length (len_bytes n) ≡ 4
unfolding len_bytes
length-len_bytes n = length-le_bytes 4 (n % 4294967296)

pub record Written (n : Node) : Type 0 where
  pub bytes : List ℕ
  pub written : write_node n ≡ ok bytes
  pub sized : length bytes ≡ node_size n

record WrittenSlots (cs : Slots) : Type 0 where
  table : List ℕ
  body : List ℕ
  written : write_children cs ≡ ok (let l : List ℕ × List ℕ = (table, body) in l)
  table_sized : length table ≡ child_count cs * 4
  body_sized : length body ≡ children_size cs

mutual
  unfolding write_node node_size

  pub write_node-Written : (n : Node) → Fits n → Written n
  write_node-Written empty f = record { bytes = 0 ∷ []; written = refl; sized = refl }
  write_node-Written (leaf path value nref) f = record {
    bytes =
        1
        ∷ ((length path ∷ pack_pairs path)
            ++ (len_bytes (length value) ++ (value ++ write_ref nref)));
    written = rw (write_nibble_path-fits path f.0 f.1) refl;
    sized =
        simp (length-append, length-len_bytes, length-pack_pairs, length-write_ref nref f.2)
          (omega arith);
  }
  write_node-Written (extension path child nref) f =
      let c = write_node-Written child f.3 in
      record {
        bytes = 2 ∷ ((length path ∷ pack_pairs path) ++ (write_ref nref ++ c.bytes));
        written = rw (write_nibble_path-fits path f.0 f.1, c.written) refl;
        sized =
            simp (length-append, length-pack_pairs, length-write_ref nref f.2, c.sized)
              (omega arith);
      }
  write_node-Written (branch children nref) f =
      let w = write_children-Written children f.1 in
      record {
        bytes =
            3 ∷ (le_bytes 2 (branch_bitmap children) ++ (write_ref nref ++ (w.table ++ w.body)));
        written = rw w.written refl;
        sized =
            simp
              (
                length-append,
                length-le_bytes,
                length-write_ref nref f.0,
                w.table_sized,
                w.body_sized,
              )
              (omega arith);
      }
  write_node-Written (overflow ptr root) f = record {
    bytes = 4 ∷ (le_bytes 4 ptr.unit ++ (le_bytes 4 ptr.len ++ root));
    written = refl;
    sized = simp (length-append, length-le_bytes, f) refl;
  }
  write_node-Written (raw buf off len nref) f =
      let s = slice-fits buf off len f in record { bytes = s.0; written = s.1; sized = s.2 }
  write_node-Written (account path nonce balance code_hash storage storage_root nref) f =
      let s = write_node-Written storage f.3 in
      record {
        bytes =
            5
            ∷ ((length path ∷ pack_pairs path)
                ++ (le_bytes 8 nonce ++ (be_bytes 32 balance ++ (code_hash ++ s.bytes))));
        written = rw (write_nibble_path-fits path f.0 f.1, s.written) refl;
        sized =
            simp (length-append, length-le_bytes, length-be_bytes, length-pack_pairs, f.2, s.sized)
              (omega arith);
      }

  write_children-Written : (cs : Slots) → SlotsFit cs → WrittenSlots cs
  write_children-Written end f = record {
    table = [];
    body = [];
    written = refl;
    table_sized = refl;
    body_sized = refl;
  }
  write_children-Written (vacant cs) f =
      let w = write_children-Written cs f in
      record {
        table = w.table;
        body = w.body;
        written = w.written;
        table_sized = w.table_sized;
        body_sized = w.body_sized;
      }
  write_children-Written (filled c cs) f =
      let n = write_node-Written c f.0 in
      let w = write_children-Written cs f.1 in
      record {
        table = len_bytes (length n.bytes) ++ w.table;
        body = n.bytes ++ w.body;
        written = rw (n.written, w.written) refl;
        table_sized = simp (length-append, length-len_bytes, w.table_sized) (omega arith);
        body_sized = simp (length-append, n.sized, w.body_sized) refl;
      }

-- `serialize_subtree` succeeds on a record whose parts fit their fields (nibbles below 16, at most
-- 255 of them in a path, hashes of 32 bytes, slices inside their buffers), and `record_size`, which
-- it returns, is the length of the payload.
pub serialize_subtree-size :
    (subtree : DiskSubtree)
    → PathFits subtree.prefix
    → length subtree.prefix ≤ 255
    → Fits subtree.node
    → (payload : List ℕ) × (serialize_subtree subtree
        ≡ ok (let l : List ℕ × ℕ = (payload, length payload) in l))
      × (length payload ≡ record_size (length subtree.prefix) subtree.node)
unfolding serialize_subtree record_size
serialize_subtree-size subtree fits short f =
    let n = write_node-Written subtree.node f in
    let size = sized n in
    (
      (length subtree.prefix ∷ pack_pairs subtree.prefix) ++ n.bytes,
      rw (write_nibble_path-fits subtree.prefix fits short, n.written, size) refl,
      size,
    )
  where
    sized :
        (n : Written subtree.node)
        → length ((length subtree.prefix ∷ pack_pairs subtree.prefix) ++ n.bytes)
          ≡ 1 + half_up (length subtree.prefix) + node_size subtree.node
    sized n = simp (length-append, length-pack_pairs, n.sized) (omega arith)
