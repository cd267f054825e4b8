-- ===== src/Record/Trie/Stored.antt =====
-- src/lib.rs: a canonical value trie fits a record, whatever its values, up to its size in bytes.
use mpt_flat_poc.Prelude.{
  ℕ, suc, ◌<◌, ◌≤◌, ◌≡◌, refl, ap, Bool-cases, some, List, [], ◌∷◌, length, ltb, arith, inl, inr,
}
use mpt_flat_poc.Externals.{Externals}
use mpt_flat_poc.Node.{
  NodeRef, Node, Slots, branch, end, vacant, filled, slot_at, size, hash_node, leaf_node,
  make_extension, make_branch, mk_ref, leaf_ref, ext_ref,
}
use mpt_flat_poc.Node.BranchRef.{slots_ref, make_branch_lem}
use mpt_flat_poc.Codec.Write.{node_size, children_size}
use mpt_flat_poc.Codec.Size.{PathFits, RefFits, Fits, SlotsFit, write_node-Written}
use mpt_flat_poc.Codec.Lazy.{parse_node_lazy}
use mpt_flat_poc.Codec.Copy.{
  Storable, st_empty, st_leaf, st_extension, st_branch, st_raw, StorableSlots, st_end, st_vacant,
  st_filled,
}
use mpt_flat_poc.Record.Trie.{
  value, fields, Trie, nothing, single, along, fork, sliced, terminal, Nibbles,
}
use mpt_flat_poc.Record.Values.{IsValue}
use mpt_flat_poc.Result.{ok}

Nibbles-fit : (path : List ℕ) → Nibbles path → PathFits path
Nibbles-fit [] n = tt
Nibbles-fit (d ∷ path) n = (n.0, Nibbles-fit path n.1)

-- keccak256 gives 32 bytes.
module _ ⦃x : Externals⦄ (wide : (bytes : List ℕ) → length (x.keccak256 bytes) ≡ 32) where
  mk_ref-fits : (rlp : List ℕ) → RefFits (mk_ref rlp)
  unfolding mk_ref
  mk_ref-fits rlp = elim (Bool-cases (ltb (length rlp) 32)) [
    | inl short ↦ rw short (ground arith)
    | inr long ↦ rw long (wide rlp)
  ]

  leaf_ref-fits : (path v : List ℕ) → RefFits (leaf_ref path v)
  unfolding leaf_ref
  leaf_ref-fits path v = mk_ref-fits _

  ext_ref-fits : (path : List ℕ) (r : NodeRef) → RefFits (ext_ref path r)
  unfolding ext_ref
  ext_ref-fits path r = mk_ref-fits _

  branch-fits :
      (cs : Slots) (nref : NodeRef)
      → size cs ≡ 16
      → make_branch cs ≡ ok (branch cs nref)
      → RefFits nref
  unfolding slots_ref
  branch-fits cs nref sz mk =
      let same : slots_ref cs ≡ nref = cc (make_branch_lem cs sz, mk) in rw (← same) (mk_ref-fits _)

  slots-fit : (cs : Slots) → ((i : ℕ) (c : Node) → slot_at cs i ≡ some c → Fits c) → SlotsFit cs
  unfolding slot_at
  slots-fit end f = tt
  slots-fit (vacant cs) f = slots-fit cs (λ i. f (suc i))
  slots-fit (filled c cs) f = (f 0 c refl, slots-fit cs (λ i. f (suc i)))

  trie-Fits : {h : ℕ} {n : Node} → Trie IsValue h n → h ≤ 128 → Fits n
  unfolding terminal leaf_node make_extension
  trie-Fits nothing b = tt
  trie-Fits (single (value v) path good nib len) b =
      (Nibbles-fit path nib, omega (arith, len, b), leaf_ref-fits path v)
  trie-Fits (single (fields _ _ _ _) path good nib len) b = absurd good
  trie-Fits {h} (along k n path child nib len br t) b = (
    Nibbles-fit (n ∷ path) nib,
    omega (arith, len, b),
    ext_ref-fits (n ∷ path) (hash_node child),
    trie-Fits {h = k} t (omega (arith, len, b)),
  )
  trie-Fits {h} (fork k cs nref eh sz occ mk ne ts) b = (
    branch-fits cs nref sz mk,
    slots-fit cs (λ i c hit. trie-Fits {h = k} (ts i c hit) (omega (arith, eh, b))),
  )
  trie-Fits (sliced buf off len n parse cut nr ne t) b =
      omega (arith, cut.there.inside, cut.measured)

  slots-stored :
      (cs : Slots)
      → children_size cs < 4294967296
      → ((i : ℕ) (c : Node) → slot_at cs i ≡ some c → node_size c < 4294967296 → Storable c)
      → StorableSlots cs
  unfolding slot_at node_size
  slots-stored end s f = st_end
  slots-stored (vacant cs) s f = st_vacant cs (slots-stored cs s (λ i. f (suc i)))
  slots-stored (filled c cs) s f =
      let small : node_size c < 4294967296 = omega (arith, s) in
      st_filled c cs small (f 0 c refl small) (slots-stored cs (omega (arith, s)) (λ i. f (suc i)))

  pub trie-Storable :
      {h : ℕ} {n : Node} → Trie IsValue h n → h ≤ 128 → node_size n < 4294967296 → Storable n
  unfolding terminal leaf_node make_extension node_size
  trie-Storable nothing b s = st_empty
  trie-Storable (single (value v) path good nib len) b s =
      st_leaf path v (leaf_ref path v) (Nibbles-fit path nib) (omega (arith, len, b))
        (omega (arith, s)) (leaf_ref-fits path v)
  trie-Storable (single (fields _ _ _ _) path good nib len) b s = absurd good
  trie-Storable {h} (along k n path child nib len br t) b s =
      st_extension (n ∷ path) child _ (Nibbles-fit (n ∷ path) nib) (omega (arith, len, b))
        (ext_ref-fits (n ∷ path) (hash_node child))
        (trie-Storable {h = k} t (omega (arith, len, b)) (omega (arith, s)))
  trie-Storable {h} (fork k cs nref eh sz occ mk ne ts) b s =
      st_branch cs nref sz (branch-fits cs nref sz mk) (
        slots-stored cs (omega (arith, s))
          (λ i c hit. trie-Storable {h = k} (ts i c hit) (omega (arith, eh, b))))
  trie-Storable {h} (sliced buf off len n parse cut nr ne t) b s =
      let w = write_node-Written n (trie-Fits {h = h} t b) in
      let bytes_eq : w.bytes ≡ cut.bytes = cc (w.written, cut.written) in
      let small : node_size n < 4294967296 =
        omega (arith, s, cut.measured, w.sized, ap length bytes_eq) in
      let parsed : parse_node_lazy buf off (length cut.bytes) ≡ ok n = rw cut.measured parse in
      rw (← cut.measured) (
        st_raw buf off cut.bytes n parsed cut.written cut.there nr ne
          (trie-Storable {h = h} t b small))
