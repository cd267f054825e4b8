-- ===== src/Record/Trie/Parts.antt =====
-- src/lib.rs: what a canonical value trie is made of, by the node on top.
use mpt_flat_poc.Prelude.{
  ℕ, suc, ◌+◌, ◌≤◌, ◌≡◌, refl, sym, ◌∙◌, true, false, some, List, ◌∷◌, length,
}
use mpt_flat_poc.Externals.{Externals}
use mpt_flat_poc.Node.{
  DiskPtr, overflow, NodeRef, Node, Slots, extension, branch, raw, account, slot_at, size,
  hash_node, leaf_node, account_node, make_extension, make_branch, ext_ref,
}
use mpt_flat_poc.Node.Access.{is_raw, is_empty, is_branch, occupied}
use mpt_flat_poc.Codec.Lazy.{parse_node_lazy}
use mpt_flat_poc.Record.Trie.{
  value, fields, Trie, nothing, single, along, fork, sliced, terminal, Nibbles,
}
use mpt_flat_poc.Record.Values.{IsValue}
use mpt_flat_poc.Result.{ok}

module _ ⦃x : Externals⦄ where
  pub record AlongParts (h : ℕ) (path : List ℕ) (child : Node) (nref : NodeRef) : Type 0 where
    pub k : ℕ
    pub n : ℕ
    pub path' : List ℕ
    pub path_eq : path ≡ n ∷ path'
    pub nib : Nibbles (n ∷ path')
    pub len : length (n ∷ path') + k ≡ h
    pub branches : is_branch child ≡ true
    pub below : Trie IsValue k child
    pub ref_eq : nref ≡ ext_ref (n ∷ path') (hash_node child)

  pub along_parts :
      {h : ℕ} {m : Node} (path : List ℕ) (child : Node) (nref : NodeRef)
      → Trie IsValue h m
      → m ≡ extension path child nref
      → AlongParts h path child nref
  unfolding terminal leaf_node account_node make_extension
  along_parts path child nref nothing e = cc
  along_parts path child nref (single (value v) p good nib len) e = cc
  along_parts path child nref (single (fields _ _ _ _) p good nib len) e = absurd good
  along_parts {h} path child nref (along k n path' child' nib len br t) e =
      let child_eq : child' ≡ child = cc in
      let path_eq : path ≡ n ∷ path' = cc in
      let ref_eq : nref ≡ ext_ref (n ∷ path') (hash_node child') = cc in
      rw (← child_eq) (record {
        k = k;
        n = n;
        path' = path';
        path_eq = path_eq;
        nib = nib;
        len = len;
        branches = br;
        below = t;
        ref_eq = ref_eq;
      })
  along_parts path child nref (fork k cs nref' eh sz occ mk ne ts) e = cc
  along_parts path child nref (sliced buf off len n parse cut nr ne t) e = cc

  pub record ForkParts (h : ℕ) (cs : Slots) (nref : NodeRef) : Type 0 where
    pub k : ℕ
    pub depth : h ≡ suc k
    pub sixteen : size cs ≡ 16
    pub two : 2 ≤ occupied cs
    pub made : make_branch cs ≡ ok (branch cs nref)
    pub full : (i : ℕ) (c : Node) → slot_at cs i ≡ some c → is_empty c ≡ false
    pub below : (i : ℕ) (c : Node) → slot_at cs i ≡ some c → Trie IsValue k c

  pub fork_parts :
      {h : ℕ} {m : Node} (cs : Slots) (nref : NodeRef)
      → Trie IsValue h m
      → m ≡ branch cs nref
      → ForkParts h cs nref
  unfolding terminal leaf_node account_node make_extension
  fork_parts cs nref nothing e = cc
  fork_parts cs nref (single (value v) p good nib len) e = cc
  fork_parts cs nref (single (fields _ _ _ _) p good nib len) e = absurd good
  fork_parts cs nref (along k n path' child' nib len br t) e = cc
  fork_parts cs nref (fork k ds nref' eh sz occ mk ne ts) e =
      let cs_eq : ds ≡ cs = cc in
      let ref_eq : nref' ≡ nref = cc in
      rw (← cs_eq, ← ref_eq)
        (record { k = k; depth = eh; sixteen = sz; two = occ; made = mk; full = ne; below = ts })
  fork_parts cs nref (sliced buf off len n parse cut nr ne t) e = cc

  pub no_account :
      {h : ℕ} {m : Node} (path : List ℕ) (nonce balance : ℕ) (code_hash : List ℕ) (s : Node)
      (root : List ℕ) (nref : NodeRef)
      → Trie IsValue h m
      → m ≡ account path nonce balance code_hash s root nref
      → ⊥
  unfolding terminal leaf_node make_extension
  no_account _ _ _ _ _ _ _ nothing e = cc
  no_account _ _ _ _ _ _ _ (single (value v) p good nib len) e = cc
  no_account _ _ _ _ _ _ _ (single (fields _ _ _ _) p good nib len) e = absurd good
  no_account _ _ _ _ _ _ _ (along k n path' child' nib len br t) e = cc
  no_account _ _ _ _ _ _ _ (fork k ds nref' eh sz occ mk ne ts) e = cc
  no_account _ _ _ _ _ _ _ (sliced buf off len n parse cut nr ne t) e = cc

  pub no_overflow :
      {h : ℕ} {m : Node} (ptr : DiskPtr) (root : List ℕ)
      → Trie IsValue h m
      → m ≡ overflow ptr root
      → ⊥
  unfolding terminal leaf_node make_extension
  no_overflow _ _ nothing e = cc
  no_overflow _ _ (single (value v) p good nib len) e = cc
  no_overflow _ _ (single (fields _ _ _ _) p good nib len) e = absurd good
  no_overflow _ _ (along k n path' child' nib len br t) e = cc
  no_overflow _ _ (fork k ds nref' eh sz occ mk ne ts) e = cc
  no_overflow _ _ (sliced buf off len n parse cut nr ne t) e = cc

  pub record SliceParts (h : ℕ) (buf : List ℕ) (off len : ℕ) (nref : NodeRef) : Type 0 where
    pub n : Node
    pub parsed : parse_node_lazy buf off len ≡ ok n
    pub not_raw : is_raw n ≡ false
    pub full : is_empty n ≡ false
    pub tree : Trie IsValue h n
    pub ref_eq : nref ≡ hash_node n

  pub slice_parts :
      {h : ℕ} {m : Node} (buf : List ℕ) (off len : ℕ) (nref : NodeRef)
      → Trie IsValue h m
      → m ≡ raw buf off len nref
      → SliceParts h buf off len nref
  unfolding terminal leaf_node make_extension
  slice_parts buf off len nref nothing e = cc
  slice_parts buf off len nref (single (value v) p good nib len') e = cc
  slice_parts buf off len nref (single (fields _ _ _ _) p good nib len') e = absurd good
  slice_parts buf off len nref (along k n path' child' nib len' br t) e = cc
  slice_parts buf off len nref (fork k ds nref' eh sz occ mk ne ts) e = cc
  slice_parts buf off len nref (sliced buf' off' len' n parse cut nr ne t) e =
      let buf_eq : buf' ≡ buf = cc in
      let off_eq : off' ≡ off = cc in
      let len_eq : len' ≡ len = cc in
      let same : parse_node_lazy buf' off' len' ≡ parse_node_lazy buf off len =
        rw (buf_eq, off_eq, len_eq) refl in
      record { n = n; parsed = sym same ∙ parse; not_raw = nr; full = ne; tree = t; ref_eq = cc }
