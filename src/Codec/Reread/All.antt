-- ===== src/Codec/Reread/All.antt =====
-- src/lib.rs: any node written and read again, and whole records.
use mpt_flat_poc.Prelude.{
  ℕ, suc, ◌+◌, ◌*◌, ◌^◌, ◌<◌, ◌≤◌, ◌≡◌, refl, sym, ◌∙◌, ap, subst, List, [], ◌∷◌, ◌++◌, length,
  length-append, arith, eq→eqb,
}
use mpt_flat_poc.Externals.{Externals}
use mpt_flat_poc.Node.{
  NodeRef, Node, Slots, branch, raw, end, vacant, filled, size, hash_node, branch_bitmap,
}
use mpt_flat_poc.Node.BranchRef.{even_bit, odd_bit, even_half, odd_half}
use mpt_flat_poc.Node.Access.{occupied}
use mpt_flat_poc.Codec.Write.{le_bytes, write_ref, write_node}
use mpt_flat_poc.Codec.Reader.{Read, read_u16, read_ref, count_ones}
use mpt_flat_poc.Codec.Lazy.{
  extract_tagged, extract_ref, read_lens, read_children_lazy, read_branch_lazy, read_tagged_lazy,
  read_node_lazy, parse_node_lazy,
}
use mpt_flat_poc.Codec.Size.{PathFits, RefFits, write_nibble_path-fits, length-le_bytes}
use mpt_flat_poc.Codec.Holds.{
  Holds, left, right, slice-Holds, read_u8-Holds, read_u16-Holds, read_ref-Holds,
  read_nibble_path-Holds,
}
use mpt_flat_poc.Codec.Copy.{
  Storable, st_empty, st_leaf, st_extension, st_branch, st_overflow, st_account, st_raw,
  StorableSlots, st_end, st_vacant, st_filled, Copy, cp_branch, cp_raw_left,
}
use mpt_flat_poc.Result.{Result, ok, ◌>>=◌}
use mpt_flat_poc.Codec.Reread.{Back, Reread, by_tag, whole, path_bytes, empty-Reread}
use mpt_flat_poc.Codec.Reread.Leaf.{leaf-Reread}
use mpt_flat_poc.Codec.Reread.Extension.{extension-Reread}
use mpt_flat_poc.Codec.Reread.Account.{account-Reread}
use mpt_flat_poc.Codec.Reread.Overflow.{overflow-Reread}
use mpt_flat_poc.Codec.Reread.Children.{
  RereadSlots, end-RereadSlots, vacant-RereadSlots, filled-RereadSlots,
}
use mpt_flat_poc.Codec.Write.{DiskSubtree, serialize_subtree, record_size}
use mpt_flat_poc.Codec.Lazy.{deserialize_subtree_lazy}

branch_bitmap-bound : (cs : Slots) → branch_bitmap cs < 2 ^ size cs
unfolding branch_bitmap size
branch_bitmap-bound end = omega arith
branch_bitmap-bound (vacant cs) =
    let doubled : 2 * branch_bitmap cs < 2 ^ suc (size cs) =
      omega (arith, branch_bitmap-bound cs) in
    doubled
branch_bitmap-bound (filled c cs) =
    let doubled : 1 + 2 * branch_bitmap cs < 2 ^ suc (size cs) =
      omega (arith, branch_bitmap-bound cs) in
    doubled

count_ones-bitmap : (cs : Slots) → count_ones (size cs) (branch_bitmap cs) ≡ occupied cs
unfolding count_ones branch_bitmap size occupied
count_ones-bitmap end = refl
count_ones-bitmap (vacant cs) =
    rw (even_bit (branch_bitmap cs), even_half (branch_bitmap cs))
      (omega (arith, count_ones-bitmap cs))
count_ones-bitmap (filled c cs) =
    rw (odd_bit (branch_bitmap cs), odd_half (branch_bitmap cs))
      (omega (arith, count_ones-bitmap cs))

module _ ⦃x : Externals⦄ (cs : Slots) (nref : NodeRef) (sixteen : size cs ≡ 16) (r : RefFits nref)
    (sr : RereadSlots cs) where
  abbrev branch_rest : List ℕ
  branch_rest = le_bytes 2 (branch_bitmap cs) ++ (write_ref nref ++ (sr.table ++ sr.body))

  record BranchAt (buf : List ℕ) (q : ℕ) : Type 0 where
    bitmap_at : Holds buf q (le_bytes 2 (branch_bitmap cs))
    ref_at : Holds buf (q + 2) (write_ref nref)
    table_at : Holds buf (q + 2 + length (write_ref nref)) sr.table
    body_at : Holds buf (q + 2 + length (write_ref nref) + length sr.table) sr.body

  branch_at : (buf : List ℕ) (pos : ℕ) → Holds buf pos (3 ∷ branch_rest) → BranchAt buf (pos + 1)
  branch_at buf pos h =
      let tail₂ : List ℕ = sr.table ++ sr.body in
      let tail₁ : List ℕ = write_ref nref ++ tail₂ in
      let bits : List ℕ = le_bytes 2 (branch_bitmap cs) in
      let h₁ : Holds buf (pos + 1) branch_rest = right (3 ∷ []) branch_rest h refl in
      let h₂ : Holds buf (pos + 1 + 2) tail₁ =
        right bits tail₁ h₁ (omega (arith, length-le_bytes 2 (branch_bitmap cs))) in
      let h₃ : Holds buf (pos + 1 + 2 + length (write_ref nref)) tail₂ =
        right (write_ref nref) tail₂ h₂ refl in
      record {
        bitmap_at = left bits tail₁ h₁;
        ref_at = left (write_ref nref) tail₂ h₂;
        table_at = left sr.table sr.body h₃;
        body_at = right sr.table sr.body h₃ refl;
      }

  bits_fit : branch_bitmap cs < 65536
  bits_fit =
      omega
        (arith, (let b : branch_bitmap cs < 2 ^ 16 = rw (sixteen) at (branch_bitmap-bound cs) in b))

  ones : count_ones 16 (branch_bitmap cs) ≡ occupied cs
  ones = rw sixteen at (count_ones-bitmap cs)

  branch-extract : extract_ref (3 ∷ branch_rest) ≡ ok nref
  unfolding extract_ref extract_tagged
  branch-extract =
      let at = branch_at (3 ∷ branch_rest) 0 (whole (3 ∷ branch_rest)) in
      rw
        (
          read_u8-Holds {pos = 0} 3 branch_rest (whole (3 ∷ branch_rest)),
          read_u16-Holds (branch_bitmap cs) at.bitmap_at bits_fit,
          read_ref-Holds nref at.ref_at r,
        )
        refl

  branch_end :
      (pos : ℕ)
      → pos + 1 + 2 + length (write_ref nref) + length sr.table + length sr.body
        ≡ pos + length (3 ∷ branch_rest)
  branch_end pos = simp (length-append, length-le_bytes) (omega arith)

  -- `slots` stands for 16: a numeral would be counted down.
  branch_steps :
      (slots : ℕ) (child : Read Node) (buf : List ℕ) (q pos' : ℕ) (cs' : Slots)
      → BranchAt buf q
      → count_ones slots (branch_bitmap cs) ≡ occupied cs
      → read_children_lazy child slots
          (branch_bitmap cs)
          sr.lens
          buf
          (q + 2 + length (write_ref nref) + length sr.table)
        ≡ ok (let l : Slots × ℕ = (cs', pos') in l)
      → (read_u16 buf q >>= λ (bitmap, pos₁). read_ref buf pos₁ >>= λ (r', pos₂).
          read_lens (count_ones slots bitmap) buf pos₂ >>= λ (lens, pos₃).
          read_children_lazy child slots bitmap lens buf pos₃ >>= λ (children, pos₄).
          ok (let l : Node × ℕ = (branch children r', pos₄) in l))
        ≡ ok (let l : Node × ℕ = (branch cs' nref, pos') in l)
  branch_steps slots child buf q pos' cs' at counted run =
      rw
        (
          read_u16-Holds (branch_bitmap cs) at.bitmap_at bits_fit,
          read_ref-Holds nref at.ref_at r,
          counted,
          sr.read_table buf _ at.table_at,
          run,
        )
        refl

  branch-runs :
      (child : Read Node) (buf : List ℕ) (q pos' : ℕ) (cs' : Slots)
      → BranchAt buf q
      → read_children_lazy child 16
          (branch_bitmap cs)
          sr.lens
          buf
          (q + 2 + length (write_ref nref) + length sr.table)
        ≡ ok (let l : Slots × ℕ = (cs', pos') in l)
      → read_branch_lazy child buf q ≡ ok (let l : Node × ℕ = (branch cs' nref, pos') in l)
  unfolding read_branch_lazy
  branch-runs child buf q pos' cs' at run = branch_steps 16 child buf q pos' cs' at ones run

  in_sixteen :
      (child : Read Node) (buf : List ℕ) (pos : ℕ) (result : Result (Slots × ℕ))
      → read_children_lazy child (size cs) (branch_bitmap cs) sr.lens buf pos ≡ result
      → read_children_lazy child 16 (branch_bitmap cs) sr.lens buf pos ≡ result
  in_sixteen child buf pos result e =
      subst (λ n. read_children_lazy child n (branch_bitmap cs) sr.lens buf pos ≡ result) sixteen e

  branch-Back :
      (buf : List ℕ) (pos fuel : ℕ)
      → Holds buf pos (3 ∷ branch_rest)
      → length branch_rest ≤ fuel
      → Back
          (branch cs nref)
          (3 ∷ branch_rest)
          (read_tagged_lazy 3 (read_node_lazy fuel) buf (pos + 1))
          (pos + length (3 ∷ branch_rest))
  unfolding write_node read_tagged_lazy hash_node
  branch-Back buf pos fuel h enough =
      let at = branch_at buf pos h in
      let b = sr.read buf _ fuel at.body_at (omega (arith, enough, branch_end 0)) in
      record {
        n' = branch b.cs' nref;
        runs =
            branch-runs (read_node_lazy fuel) buf (pos + 1) _ b.cs' at
              (in_sixteen (read_node_lazy fuel) buf _ _ b.runs)
            ∙ ap (λ p. ok (let l : Node × ℕ = (branch b.cs' nref, p) in l)) (branch_end pos);
        copy = cp_branch cs b.cs' nref b.copy;
        storable = st_branch b.cs' nref (b.same_size ∙ sixteen) r b.storable;
        rewritten = rw (b.rewritten, b.same_bitmap) refl;
        not_raw = refl;
        same_hash = refl;
      }

  branch-Reread : Reread (branch cs nref)
  unfolding write_node hash_node
  branch-Reread = record {
    tag = 3;
    rest = branch_rest;
    written = rw sr.written refl;
    read = by_tag (branch cs nref) 3 branch_rest branch-Back;
    extract = λ e. branch-extract;
  }

module _ ⦃x : Externals⦄ where
  raw-Reread :
      (buf : List ℕ) (off : ℕ) (bytes : List ℕ) (n : Node)
      → parse_node_lazy buf off (length bytes) ≡ ok n
      → write_node n ≡ ok bytes
      → Holds buf off bytes
      → Reread n
      → Reread (raw buf off (length bytes) (hash_node n))
  unfolding write_node hash_node
  raw-Reread buf off bytes n parsed w h rr =
      let same : bytes ≡ rr.tag ∷ rr.rest = cc (w, rr.written) in
      record {
        tag = rr.tag;
        rest = rr.rest;
        written = slice-Holds bytes h ∙ ap ok same;
        read = λ buf' pos fuel h' enough.
            let b = rr.read buf' pos fuel h' enough in
            record {
              n' = b.n';
              runs = b.runs;
              copy = cp_raw_left buf off (length bytes) (hash_node n) n b.n' parsed b.copy;
              storable = b.storable;
              rewritten = b.rewritten;
              not_raw = b.not_raw;
              same_hash = b.same_hash;
            };
        extract = rr.extract;
      }

  mutual
    pub Storable-Reread : {n : Node} → Storable n → Reread n
    Storable-Reread st_empty = empty-Reread
    Storable-Reread (st_leaf path value nref f short small r) =
        leaf-Reread path value nref f short small r
    Storable-Reread (st_extension path child nref f short r st) =
        extension-Reread path child nref f short r (Storable-Reread st)
    Storable-Reread (st_branch cs nref sz r sts) =
        branch-Reread cs nref sz r (StorableSlots-RereadSlots sts)
    Storable-Reread (st_overflow unit len root small short wide) =
        overflow-Reread unit len root small short wide
    Storable-Reread (st_account path nonce balance code_hash storage f short nf bf cf st) =
        account-Reread path nonce balance code_hash storage f short nf bf cf (Storable-Reread st)
    Storable-Reread (st_raw buf off bytes n parsed w h nr full st) =
        raw-Reread buf off bytes n parsed w h (Storable-Reread st)

    StorableSlots-RereadSlots : {cs : Slots} → StorableSlots cs → RereadSlots cs
    StorableSlots-RereadSlots st_end = end-RereadSlots
    StorableSlots-RereadSlots (st_vacant cs sts) =
        vacant-RereadSlots cs (StorableSlots-RereadSlots sts)
    StorableSlots-RereadSlots (st_filled c cs small st sts) =
        filled-RereadSlots c cs st small (Storable-Reread st) (StorableSlots-RereadSlots sts)

  -- A record whose parts fit their fields (nibbles below 16 and at most 128 of them in a path,
  -- integers within their width, hashes of 32 bytes, 16 slots in a branch), whose accounts have the
  -- cached references that `account_node` computes, and whose slices are what the writer makes of the
  -- node, neither empty nor a slice, that they parse to: `serialize_subtree` gives a
  -- payload, and `deserialize_subtree_lazy` reads back from it the prefix and a node with the same
  -- content and the same reference, which fits a record again and is written as the same bytes.
  pub deserialize_subtree_lazy-serialize_subtree :
      (subtree : DiskSubtree)
      → PathFits subtree.prefix
      → length subtree.prefix ≤ 128
      → Storable subtree.node
      → (payload : List ℕ) × (total : ℕ) × (node : Node) × (serialize_subtree subtree
          ≡ ok (let l : List ℕ × ℕ = (payload, total) in l))
        × (deserialize_subtree_lazy payload
            ≡ ok (let s : DiskSubtree = record { prefix = subtree.prefix; node = node } in s))
        × Copy subtree.node node
        × Storable node
        × (hash_node node ≡ hash_node subtree.node)
        × (write_node node ≡ write_node subtree.node)
  unfolding serialize_subtree deserialize_subtree_lazy
  deserialize_subtree_lazy-serialize_subtree subtree f short st =
      let rr = Storable-Reread st in
      let p : List ℕ = path_bytes subtree.prefix in
      let bytes : List ℕ = rr.tag ∷ rr.rest in
      let at_node : Holds (p ++ bytes) (0 + length p) bytes =
        right p bytes (whole (p ++ bytes)) refl in
      let b =
        rr.read (p ++ bytes) (0 + length p) (length (p ++ bytes) + 1) at_node
          (omega (arith, length-append p bytes)) in
      (
        p ++ bytes,
        record_size (length subtree.prefix) subtree.node,
        b.n',
        rw (write_nibble_path-fits subtree.prefix f (omega arith), rr.written) refl,
        rw
            (
              read_nibble_path-Holds {buf = p ++ bytes} subtree.prefix 0
                  (left p bytes (whole (p ++ bytes))) f short,
              b.runs,
              eq→eqb (0 + length p + length bytes) (length (p ++ bytes))
                  (omega (arith, length-append p bytes)),
            )
            refl,
        b.copy,
        b.storable,
        b.same_hash,
        b.rewritten ∙ sym rr.written,
      )
