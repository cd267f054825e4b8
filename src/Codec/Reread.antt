-- ===== src/Codec/Reread.antt =====
-- src/lib.rs: `LazyReader::node` and `extract_ref` on what `write_node` wrote.
pub mod Leaf
pub mod Extension
pub mod Account
pub mod Overflow
pub mod Children
pub mod All
use mpt_flat_poc.Prelude.{
  ℕ, zero, suc, ◌+◌, ◌*◌, ◌-◌, ◌/◌, ◌%◌, ◌^◌, ◌<◌, ◌≤◌, ◌≡◌, refl, sym, ◌∙◌, ap, subst, Bool, true,
  false, ◌||◌, List, [], ◌∷◌, ◌++◌, length, length-append, take, drop, ltb, arith, ◌==◌,
  if◌then◌else◌, eq→eqb,
}
use mpt_flat_poc.Externals.{Externals}
use mpt_flat_poc.Eth.{pack_pairs}
use mpt_flat_poc.Node.{
  NodeRef, hash, inline, Node, Slots, empty, leaf, extension, branch, overflow, raw, account, end,
  vacant, filled, size, hash_node, finalize, account_node, branch_bitmap,
}
use mpt_flat_poc.Node.Access.{occupied}
use mpt_flat_poc.Codec.Write.{
  le_bytes, be_bytes, len_bytes, write_ref, write_nibble_path, slice, write_node, write_children,
  node_size,
}
use mpt_flat_poc.Codec.Reader.{
  read_bytes, read_u8, read_u16, read_u32, read_ref, read_nibble_path, skip_nibble_path, count_ones,
  read_leaf, read_extension, read_account, le_value, be_value,
}
use mpt_flat_poc.Codec.Lazy.{
  extract_tagged, extract_ref, read_lens, peek_u8, next_len, read_child_lazy, read_children_lazy,
  read_branch_lazy, read_tagged_lazy, read_node_lazy, parse_node_lazy,
}
use mpt_flat_poc.Codec.Size.{
  PathFits, RefFits, Fits, SlotsFit, Written, write_node-Written, write_nibble_path-fits,
  length-le_bytes, length-be_bytes, length-len_bytes,
}
use mpt_flat_poc.Codec.Holds.{
  Holds, left, right, read_bytes-Holds, slice-Holds, read_u8-Holds, read_u16-Holds, read_u32-Holds,
  read_ref-Holds, read_nibble_path-Holds, skip_nibble_path-Holds, le_value-le_bytes,
  be_value-be_bytes,
}
use mpt_flat_poc.Codec.Copy.{
  Storable, st_empty, st_leaf, st_extension, st_branch, st_overflow, st_account, st_raw,
  StorableSlots, st_end, st_vacant, st_filled, Copy, cp_empty, cp_leaf, cp_extension, cp_branch,
  cp_account, cp_raw_left, cp_raw_right, CopySlots, cp_end, cp_vacant, cp_filled,
}
use mpt_flat_poc.Node.Access.{is_raw}
use mpt_flat_poc.Result.{Result, ok, err, ◌>>=◌}

module _ ⦃x : Externals⦄ where
  -- What the reader makes of the bytes of a node.
  pub record Back (n : Node) (bytes : List ℕ) (result : Result (Node × ℕ)) (pos' : ℕ) : Type 0 where
    pub n' : Node
    pub runs : result ≡ ok (let l : Node × ℕ = (n', pos') in l)
    pub copy : Copy n n'
    pub storable : Storable n'
    pub rewritten : write_node n' ≡ ok bytes
    pub not_raw : is_raw n' ≡ false
    pub same_hash : hash_node n' ≡ hash_node n

  abbrev pub sliced_tag : ℕ → Bool
  sliced_tag tag = (tag == 1) || ((tag == 2) || (tag == 3))

  pub record Reread (n : Node) : Type 0 where
    pub tag : ℕ
    pub rest : List ℕ
    pub written : write_node n ≡ ok (tag ∷ rest)
    pub read :
        (buf : List ℕ) (pos fuel : ℕ)
        → Holds buf pos (tag ∷ rest)
        → length (tag ∷ rest) ≤ fuel
        → Back n (tag ∷ rest) (read_node_lazy fuel buf pos) (pos + length (tag ∷ rest))
    pub extract : sliced_tag tag ≡ true → extract_ref (tag ∷ rest) ≡ ok (hash_node n)

  mutual
    unfolding account_node

    Storable-Fits : {n : Node} → Storable n → Fits n
    Storable-Fits st_empty = tt
    Storable-Fits (st_leaf path value nref f short v r) = (f, omega arith, r)
    Storable-Fits (st_extension path child nref f short r st) =
        (f, omega arith, r, Storable-Fits st)
    Storable-Fits (st_branch cs nref sz r sts) = (r, StorableSlots-Fit sts)
    Storable-Fits (st_overflow unit len root a b w) = w
    Storable-Fits (st_account path nonce balance code_hash storage f short a b c st) =
        (f, omega arith, c, Storable-Fits st)
    Storable-Fits (st_raw buf off bytes n p w h nr full st) = h.inside

    StorableSlots-Fit : {cs : Slots} → StorableSlots cs → SlotsFit cs
    StorableSlots-Fit st_end = tt
    StorableSlots-Fit (st_vacant cs sts) = StorableSlots-Fit sts
    StorableSlots-Fit (st_filled c cs small st sts) = (Storable-Fits st, StorableSlots-Fit sts)

  pub sized :
      {n : Node} {bytes : List ℕ}
      → Storable n
      → write_node n ≡ ok bytes
      → length bytes ≡ node_size n
  sized {n} {bytes} st w =
      let u = write_node-Written n (Storable-Fits st) in
      let e : u.bytes ≡ bytes = cc (u.written, w) in rw (← e) u.sized

  abbrev pub Reader : Node → ℕ → List ℕ → Type 0
  Reader n tag rest =
      (buf : List ℕ) (pos fuel : ℕ)
      → Holds buf pos (tag ∷ rest)
      → length rest ≤ fuel
      → Back n (tag ∷ rest) (read_tagged_lazy tag (read_node_lazy fuel) buf (pos + 1))
          (pos + length (tag ∷ rest))

  pub by_tag :
      (n : Node) (tag : ℕ) (rest : List ℕ)
      → Reader n tag rest
      → (buf : List ℕ) (pos fuel : ℕ) → Holds buf pos (tag ∷ rest)
      → length (tag ∷ rest) ≤ fuel
      → Back n (tag ∷ rest) (read_node_lazy fuel buf pos) (pos + length (tag ∷ rest))
  unfolding read_node_lazy
  by_tag n tag rest read buf pos zero h enough = absurd (omega arith)
  by_tag n tag rest read buf pos (suc fuel) h enough =
      rw (read_u8-Holds tag rest h) (read buf pos fuel h (omega arith))

  pub empty-Reread : Reread empty
  unfolding write_node read_tagged_lazy
  empty-Reread = record {
    tag = 0;
    rest = [];
    written = refl;
    read = by_tag empty 0 [] (λ buf pos fuel h enough. record {
      n' = empty;
      runs = refl;
      copy = cp_empty;
      storable = st_empty;
      rewritten = refl;
      not_raw = refl;
      same_hash = refl;
    });
    extract = λ e. cc;
  }

pub whole : (bytes : List ℕ) → Holds bytes 0 bytes
whole bytes = record { inside = omega arith; same = take_all bytes }
  where
    take_all : (bs : List ℕ) → take (length bs) bs ≡ bs
    take_all [] = refl
    take_all (b ∷ bs) = rw (take_all bs) refl

abbrev pub path_bytes : List ℕ → List ℕ
path_bytes path = length path ∷ pack_pairs path
