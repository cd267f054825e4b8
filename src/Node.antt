-- ===== src/Node.antt =====
-- src/lib.rs: the nodes of a flat-file record, their Merkle references, and the constructors that
-- compute a reference once (`enum Node`, `enum NodeRef`, `leaf_node` … `make_branch`).
pub mod Access
pub mod BranchRef
use mpt_flat_poc.Prelude.{
  ℕ, zero, suc, ◌+◌, ◌*◌, ◌/◌, ◌%◌, true, false, Option, none, some, List, [], ◌∷◌, length, ltb,
  ◌==◌, if◌then◌else◌,
}
use mpt_flat_poc.Externals.{Externals}
use mpt_flat_poc.Eth.{hex_prefix, rlp_string, rlp_list}
use mpt_flat_poc.Result.{Result, ok, err, ◌>>=◌, panicked}

pub record DiskPtr : Type 0 where
  pub unit : ℕ
  pub len : ℕ

pub data NodeRef : Type 0 where
  hash : List ℕ → NodeRef
  inline : List ℕ → NodeRef

-- `Slots` is the array `[Option<Box<Node>>; 16]`, slot 0 first.
mutual
  pub data Node : Type 0 where
    empty : Node
    -- path, value, nref
    leaf : List ℕ → List ℕ → NodeRef → Node
    -- path, child, nref
    extension : List ℕ → Node → NodeRef → Node
    branch : Slots → NodeRef → Node
    -- ptr, root
    overflow : DiskPtr → List ℕ → Node
    -- buf, off, len, nref
    raw : List ℕ → ℕ → ℕ → NodeRef → Node
    -- path, nonce, balance, code_hash, storage, storage_root, nref
    account : List ℕ → ℕ → ℕ → List ℕ → Node → List ℕ → NodeRef → Node

  pub data Slots : Type 0 where
    end : Slots
    vacant : Slots → Slots
    filled : Node → Slots → Slots

-- `children[i]`, `None` out of range.
unfoldable pub slot_at : Slots → ℕ → Option Node
slot_at end i = none
slot_at (vacant cs) zero = none
slot_at (vacant cs) (suc i) = slot_at cs i
slot_at (filled c cs) zero = some c
slot_at (filled c cs) (suc i) = slot_at cs i

-- `children[i] = Some(child)`; a write out of range changes nothing.
unfoldable pub fill_slot : Slots → ℕ → Node → Slots
fill_slot end i n = end
fill_slot (vacant cs) zero n = filled n cs
fill_slot (vacant cs) (suc i) n = vacant (fill_slot cs i n)
fill_slot (filled c cs) zero n = filled n cs
fill_slot (filled c cs) (suc i) n = filled c (fill_slot cs i n)

-- `children[i] = None`.
unfoldable pub clear_slot : Slots → ℕ → Slots
clear_slot end i = end
clear_slot (vacant cs) zero = vacant cs
clear_slot (vacant cs) (suc i) = vacant (clear_slot cs i)
clear_slot (filled c cs) zero = vacant cs
clear_slot (filled c cs) (suc i) = filled c (clear_slot cs i)

-- `children.len()`.
unfoldable pub size : Slots → ℕ
size end = 0
size (vacant cs) = suc (size cs)
size (filled c cs) = suc (size cs)

unfoldable pub vacant_slots : ℕ → Slots
vacant_slots zero = end
vacant_slots (suc n) = vacant (vacant_slots n)

unfoldable pub empty_box_children : Slots
empty_box_children = vacant_slots 16

-- The presence bits packed into a word, slot 0 in bit 0.
unfoldable pub branch_bitmap : Slots → ℕ
branch_bitmap end = 0
branch_bitmap (vacant cs) = 2 * branch_bitmap cs
branch_bitmap (filled c cs) = 1 + 2 * branch_bitmap cs

module _ ⦃x : Externals⦄ where
  unfoldable pub embed : NodeRef → List ℕ
  embed (hash h) = rlp_string h
  embed (inline rlp) = rlp

  unfoldable pub finalize : NodeRef → List ℕ
  finalize (hash h) = h
  finalize (inline rlp) = x.keccak256 rlp

  unfoldable pub mk_ref : List ℕ → NodeRef
  mk_ref rlp = if ltb (length rlp) 32 then inline rlp else hash (x.keccak256 rlp)

  unfoldable pub empty_hash : List ℕ
  empty_hash = x.keccak256 (rlp_string [])

  unfoldable pub hash_node : Node → NodeRef
  hash_node empty = hash empty_hash
  hash_node (leaf path value nref) = nref
  hash_node (extension path child nref) = nref
  hash_node (branch children nref) = nref
  hash_node (overflow ptr root) = hash root
  hash_node (raw buf off len nref) = nref
  hash_node (account path nonce balance code_hash storage storage_root nref) = nref

  unfoldable pub ext_ref : List ℕ → NodeRef → NodeRef
  ext_ref path child = mk_ref (rlp_list (rlp_string (hex_prefix path false) ∷ embed child ∷ []))

  unfoldable pub leaf_ref : List ℕ → List ℕ → NodeRef
  leaf_ref path value =
      mk_ref (rlp_list (rlp_string (hex_prefix path true) ∷ rlp_string value ∷ []))

  -- `children.iter().flatten().map(hash_node)`.
  unfoldable pub child_refs : Slots → List NodeRef
  child_refs end = []
  child_refs (vacant cs) = child_refs cs
  child_refs (filled c cs) = hash_node c ∷ child_refs cs

  -- `child_refs.next().expect(…)`.
  next_ref : List NodeRef → Result (NodeRef × List NodeRef)
  next_ref [] = err panicked
  next_ref (r ∷ refs) = ok (r, refs)

  -- The `for i in 0..16` loop of `branch_ref` over the rounds left: bit i of the bitmap is the
  -- lowest bit after i halvings. The last item is the empty value slot.
  unfoldable pub branch_items : ℕ → ℕ → List NodeRef → Result (List (List ℕ))
  unfolding next_ref
  branch_items zero bitmap refs = ok (rlp_string [] ∷ [])
  branch_items (suc rounds) bitmap refs =
      let rest : Result (List (List ℕ)) = branch_items rounds (bitmap / 2) refs in
      let present : NodeRef × List NodeRef → Result (List (List ℕ)) =
        λ (r, refs'). branch_items rounds (bitmap / 2) refs' >>= λ items. ok (embed r ∷ items) in
      if bitmap % 2 == 1
      then next_ref refs >>= present
      else rest >>= λ items. ok (rlp_string [] ∷ items)

  unfoldable pub branch_ref : ℕ → List NodeRef → Result NodeRef
  branch_ref bitmap refs = branch_items 16 bitmap refs >>= λ items. ok (mk_ref (rlp_list items))

  unfoldable pub branch_node_ref : Slots → Result NodeRef
  unfolding branch_ref branch_bitmap child_refs
  branch_node_ref children = branch_ref (branch_bitmap children) (child_refs children)

  unfoldable pub leaf_node : List ℕ → List ℕ → Node
  leaf_node path value = leaf path value (leaf_ref path value)

  unfoldable pub account_node : List ℕ → ℕ → ℕ → List ℕ → Node → Node
  unfolding hash_node finalize
  account_node path nonce balance code_hash storage =
      let root = finalize (hash_node storage) in
      let rlp =
        x.encode_account (record {
          nonce = nonce;
          balance = balance;
          storage_root = root;
          code_hash = code_hash;
        }) in
      account path nonce balance code_hash storage root (leaf_ref path rlp)

  unfoldable pub make_extension : List ℕ → Node → Node
  unfolding hash_node
  make_extension path child = extension path child (ext_ref path (hash_node child))

  unfoldable pub make_branch : Slots → Result Node
  unfolding branch_node_ref
  make_branch children = branch_node_ref children >>= λ nref. ok (branch children nref)
