-- ===== src/Record/Trie/Copied.antt =====
-- src/lib.rs: a canonical value trie that was written and read again is canonical and holds the same.
use mpt_flat_poc.Prelude.{
  ℕ, zero, suc, ◌+◌, ◌≡◌, refl, sym, ◌∙◌, ap, true, false, none, some, List, [], ◌∷◌, length, drop,
  length-drop, arith, Option-cases, inl, inr, if◌then◌else◌,
}
use mpt_flat_poc.Externals.{Externals}
use mpt_flat_poc.Node.{
  NodeRef, Node, Slots, extension, branch, raw, end, vacant, filled, slot_at, size, hash_node,
  account_node, make_extension, make_branch, branch_bitmap, child_refs, branch_ref, branch_node_ref,
}
use mpt_flat_poc.Node.Access.{is_raw, is_empty, is_branch, occupied}
use mpt_flat_poc.Codec.Lazy.{parse_node_lazy}
use mpt_flat_poc.Codec.Holds.{Cut}
use mpt_flat_poc.Codec.Copy.{
  Storable, st_raw, st_extension, st_branch, StorableSlots, st_vacant, st_filled, Copy, cp_empty,
  cp_leaf, cp_extension, cp_branch, cp_overflow, cp_account, cp_raw_left, cp_raw_right, CopySlots,
  cp_end, cp_vacant, cp_filled,
}
use mpt_flat_poc.Record.Get.{starts_with}
use mpt_flat_poc.Record.Trie.{Trie, along, fork, sliced, look}
use mpt_flat_poc.Record.Trie.Look.{look-along, look-fork, look-sliced}
use mpt_flat_poc.Record.Values.{IsValue}
use mpt_flat_poc.Result.{Result, ok, err, ◌>>=◌}
use mpt_flat_poc.Record.Trie.Parts.{
  AlongParts, along_parts, ForkParts, fork_parts, no_account, no_overflow, slice_parts,
}

module _ ⦃x : Externals⦄ where
  -- A copy of a canonical value trie is one, holds the same, and has the same reference.
  pub record Copied (h : ℕ) (n n' : Node) : Type 0 where
    pub tree : Trie IsValue h n'
    pub same : (rest : List ℕ) → length rest ≡ h → look n' rest ≡ look n rest
    pub same_hash : hash_node n' ≡ hash_node n
    pub same_empty : is_empty n' ≡ is_empty n

  -- The same for each slot of a branch.
  record CopiedSlots (k : ℕ) (cs cs' : Slots) : Type 0 where
    same_bitmap : branch_bitmap cs' ≡ branch_bitmap cs
    same_refs : child_refs cs' ≡ child_refs cs
    same_count : occupied cs' ≡ occupied cs
    same_vacant : (i : ℕ) → slot_at cs i ≡ none → slot_at cs' i ≡ none
    same_child :
        (i : ℕ) (c : Node)
        → slot_at cs i ≡ some c
        → (c' : Node) × (slot_at cs' i ≡ some c') × Copied k c c'

  slice-Copied :
      {h : ℕ} (n m : Node) (buf : List ℕ) (off len : ℕ) (nref : NodeRef)
      → Copied h n m
      → Storable (raw buf off len nref)
      → parse_node_lazy buf off len ≡ ok m
      → Copied h n (raw buf off len nref)
  unfolding hash_node account_node
  slice-Copied {h} n m buf off len nref c (st_raw _ _ bytes m' parse' w there nr full st) parse =
      let m_eq : m' ≡ m = cc (parse', parse) in
      let cut : Cut buf off (length bytes) m' = record {
        bytes = bytes;
        written = w;
        there = there;
        measured = refl;
      } in
      let tree : Trie IsValue h m' = rw m_eq c.tree in
      record {
        tree = sliced buf off (length bytes) m' parse' cut nr full tree;
        same = λ rest e.
            look-sliced buf off (length bytes) _ rest parse' nr tree e ∙ (rw m_eq (c.same rest e));
        same_hash = rw m_eq c.same_hash;
        same_empty = sym full ∙ rw m_eq c.same_empty;
      }

  stored_slice :
      (buf : List ℕ) (off len : ℕ) (nref : NodeRef) (m : Node)
      → Storable (raw buf off len nref)
      → parse_node_lazy buf off len ≡ ok m
      → Storable m
  unfolding account_node
  stored_slice buf off len nref m (st_raw _ _ bytes m' parse' w there nr full st) parse =
      let m_eq : m' ≡ m = cc (parse', parse) in rw (← m_eq) st

  extension_back :
      {h : ℕ} (path : List ℕ) (c c' : Node) (nref : NodeRef)
      → (v : AlongParts h path c nref) → is_branch c' ≡ true
      → Copied v.k c c'
      → Copied h (extension path c nref) (extension path c' nref)
  unfolding hash_node make_extension
  extension_back {h} path c c' nref v br b =
      let old : extension path c nref ≡ make_extension (v.n ∷ v.path') c =
        rw (v.path_eq, v.ref_eq) refl in
      let new : extension path c' nref ≡ make_extension (v.n ∷ v.path') c' =
        rw (v.path_eq, v.ref_eq, b.same_hash) refl in
      rw (old, new)
        (record {
          tree = along v.k v.n v.path' c' v.nib v.len br b.tree;
          same = same;
          same_hash = rw b.same_hash refl;
          same_empty = refl;
        })
    where
      same :
          (rest : List ℕ)
          → length rest ≡ h
          → look (make_extension (v.n ∷ v.path') c') rest
            ≡ look (make_extension (v.n ∷ v.path') c) rest
      same rest e =
          let fits : length (v.n ∷ v.path') + v.k ≡ length rest = omega (arith, e, v.len) in
          let left : length (drop (length (v.n ∷ v.path')) rest) ≡ v.k =
            omega (arith, length-drop (length (v.n ∷ v.path')) rest, fits) in
          look-along v.n v.path' rest b.tree fits
          ∙ ap (λ o. if starts_with rest (v.n ∷ v.path') then o else none)
              (b.same (drop (length (v.n ∷ v.path')) rest) left)
          ∙ sym (look-along v.n v.path' rest v.below fits)

  pub ref_made :
      (cs : Slots) (nref : NodeRef) (r : Result NodeRef)
      → (r >>= λ n. ok (branch cs n)) ≡ ok (branch cs nref)
      → r ≡ ok nref
  ref_made cs nref (ok n) e = cc
  ref_made cs nref (err why) e = cc

  remade :
      (cs cs' : Slots) (nref : NodeRef)
      → branch_bitmap cs' ≡ branch_bitmap cs
      → child_refs cs' ≡ child_refs cs
      → make_branch cs ≡ ok (branch cs nref)
      → make_branch cs' ≡ ok (branch cs' nref)
  unfolding make_branch branch_node_ref
  remade cs cs' nref bits refs mk =
      rw (bits, refs, ref_made cs nref (branch_ref (branch_bitmap cs) (child_refs cs)) mk) refl

  branch_back :
      {h : ℕ} (cs cs' : Slots) (nref : NodeRef)
      → (v : ForkParts h cs nref) → size cs' ≡ 16
      → CopiedSlots v.k cs cs'
      → Copied h (branch cs nref) (branch cs' nref)
  unfolding hash_node
  branch_back {h} cs cs' nref v sz b = record {
    tree =
        fork v.k cs' nref v.depth sz (omega (arith, v.two, b.same_count)) made
          (λ i c' hit. let o = origin i c' hit in o.2.same_empty ∙ v.full i o.0 o.1)
          (λ i c' hit. let o = origin i c' hit in o.2.tree);
    same = same;
    same_hash = refl;
    same_empty = refl;
  }
    where
      origin :
          (i : ℕ) (c' : Node)
          → slot_at cs' i ≡ some c'
          → (c : Node) × (slot_at cs i ≡ some c) × Copied v.k c c'
      origin i c' hit = elim (Option-cases (slot_at cs i)) [
        | inl miss ↦ let no = b.same_vacant i miss in cc
        | inr (c, there) ↦
            let d = b.same_child i c there in
            let same_node : d.0 ≡ c' = cc (d.1, hit) in (c, there, rw (← same_node) d.2)
      ]

      made : make_branch cs' ≡ ok (branch cs' nref)
      made = remade cs cs' nref b.same_bitmap b.same_refs v.made

      same :
          (rest : List ℕ)
          → length rest ≡ h
          → look (branch cs' nref) rest ≡ look (branch cs nref) rest
      same [] e = absurd (omega (arith, e, v.depth))
      same (i ∷ rest) e =
          let short : v.k ≡ length rest = omega (arith, e, v.depth) in
          look-fork cs' nref i rest (λ j c' hit. (origin j c' hit).2.tree) short
          ∙ elim (Option-cases (slot_at cs i)) [
            | inl miss ↦ rw (miss, b.same_vacant i miss) refl
            | inr (c, there) ↦
                let d = b.same_child i c there in rw (there, d.1) (d.2.same rest (sym short))
          ]
          ∙ sym (look-fork cs nref i rest v.below short)

  end_back : (k : ℕ) → CopiedSlots k end end
  unfolding slot_at
  end_back k = record {
    same_bitmap = refl;
    same_refs = refl;
    same_count = refl;
    same_vacant = λ i e. refl;
    same_child = λ i c e. cc;
  }

  vacant_back :
      (k : ℕ) (cs cs' : Slots) → CopiedSlots k cs cs' → CopiedSlots k (vacant cs) (vacant cs')
  unfolding slot_at occupied branch_bitmap child_refs
  vacant_back k cs cs' b = record {
    same_bitmap = omega (arith, b.same_bitmap);
    same_refs = b.same_refs;
    same_count = b.same_count;
    same_vacant = vacant_at;
    same_child = child_at;
  }
    where
      vacant_at : (i : ℕ) → slot_at (vacant cs) i ≡ none → slot_at (vacant cs') i ≡ none
      vacant_at zero e = refl
      vacant_at (suc i) e = b.same_vacant i e

      child_at :
          (i : ℕ) (c : Node)
          → slot_at (vacant cs) i ≡ some c
          → (c' : Node) × (slot_at (vacant cs') i ≡ some c') × Copied k c c'
      child_at zero c e = cc
      child_at (suc i) c e = b.same_child i c e

  filled_back :
      (k : ℕ) (c c' : Node) (cs cs' : Slots)
      → Copied k c c'
      → CopiedSlots k cs cs'
      → CopiedSlots k (filled c cs) (filled c' cs')
  unfolding slot_at occupied branch_bitmap child_refs
  filled_back k c c' cs cs' bc b = record {
    same_bitmap = omega (arith, b.same_bitmap);
    same_refs = rw (bc.same_hash, b.same_refs) refl;
    same_count = omega (arith, b.same_count);
    same_vacant = vacant_at;
    same_child = child_at;
  }
    where
      vacant_at : (i : ℕ) → slot_at (filled c cs) i ≡ none → slot_at (filled c' cs') i ≡ none
      vacant_at zero e = cc
      vacant_at (suc i) e = b.same_vacant i e

      child_at :
          (i : ℕ) (d : Node)
          → slot_at (filled c cs) i ≡ some d
          → (d' : Node) × (slot_at (filled c' cs') i ≡ some d') × Copied k d d'
      child_at zero d e = let c_eq : c ≡ d = cc in (c', refl, rw (← c_eq) bc)
      child_at (suc i) d e = b.same_child i d e

  branch-Copy :
      {c c' : Node} → Copy c c' → is_branch c ≡ true → is_raw c' ≡ false → is_branch c' ≡ true
  branch-Copy (cp_branch _ _ _ _) br nr = refl
  branch-Copy cp_empty br nr = cc
  branch-Copy (cp_leaf _ _ _) br nr = cc
  branch-Copy (cp_extension _ _ _ _ _ _) br nr = cc
  branch-Copy (cp_overflow _ _) br nr = cc
  branch-Copy (cp_account _ _ _ _ _ _ _ _ _) br nr = cc
  branch-Copy (cp_raw_left _ _ _ _ _ _ _ _) br nr = cc
  branch-Copy (cp_raw_right _ _ _ _ _ _ _ _) br nr = cc

  mutual
    unfolding make_extension hash_node account_node slot_at

    pub copied : {h : ℕ} {n n' : Node} → Trie IsValue h n → Copy n n' → Storable n' → Copied h n n'
    copied t cp_empty st = record {
      tree = t;
      same = λ rest e. refl;
      same_hash = refl;
      same_empty = refl;
    }
    copied t (cp_leaf path v nref) st = record {
      tree = t;
      same = λ rest e. refl;
      same_hash = refl;
      same_empty = refl;
    }
    copied t (cp_account path nonce balance code_hash s s' root nref c) st =
        absurd (no_account path nonce balance code_hash s root nref t refl)
    copied t (cp_overflow ptr root) st = absurd (no_overflow ptr root t refl)
    copied {h} t (cp_raw_right buf off len nref n m parse c) st =
        slice-Copied n m buf off len nref (copied t c (stored_slice buf off len nref m st parse)) st
          parse
    copied {h} t (cp_raw_left buf off len nref m m' parse c) st =
        let v = slice_parts buf off len nref t refl in
        let m_eq : v.n ≡ m = cc (v.parsed, parse) in
        let tree : Trie IsValue h m = rw (← m_eq) v.tree in
        let b = copied tree c st in
        record {
          tree = b.tree;
          same = λ rest e.
              b.same rest e
              ∙ sym (look-sliced buf off len nref rest parse (rw (← m_eq) v.not_raw) tree e);
          same_hash = b.same_hash ∙ ap hash_node (sym m_eq) ∙ sym v.ref_eq;
          same_empty = b.same_empty ∙ rw (← m_eq) v.full;
        }
    copied {h} t (cp_extension path c c' nref nr cp) (st_extension _ _ _ f short r st) =
        let v = along_parts path c nref t refl in
        extension_back path c c' nref v (branch-Copy cp v.branches nr) (copied v.below cp st)
    copied {h} t (cp_branch cs cs' nref cps) (st_branch _ _ sz r sts) =
        let v = fork_parts cs nref t refl in
        branch_back cs cs' nref v sz (copied_slots v.k v.below cps sts)

    copied_slots :
        (k : ℕ) {cs cs' : Slots}
        → ((i : ℕ) (c : Node) → slot_at cs i ≡ some c → Trie IsValue k c)
        → CopySlots cs cs'
        → StorableSlots cs'
        → CopiedSlots k cs cs'
    copied_slots k ts cp_end st = end_back k
    copied_slots k ts (cp_vacant cs cs' cps) (st_vacant _ sts) =
        vacant_back k cs cs' (copied_slots k (λ i. ts (suc i)) cps sts)
    copied_slots k ts (cp_filled c c' cs cs' cp cps) (st_filled _ _ small st sts) =
        filled_back k c c' cs cs' (copied (ts 0 c refl) cp st)
          (copied_slots k (λ i. ts (suc i)) cps sts)
