-- ===== src/Node/BranchRef.antt =====
-- src/lib.rs: the reference of a branch, read off its slots with no bitmap and no iterator.
use mpt_flat_poc.Prelude.{ℕ, ◌+◌, ◌*◌, ◌/◌, ◌%◌, ◌≡◌, refl, subst, List, [], ◌∷◌, arith}
use mpt_flat_poc.Externals.{Externals}
use mpt_flat_poc.Eth.{rlp_string, rlp_list}
use mpt_flat_poc.Node.{
  Slots, NodeRef, end, vacant, filled, embed, hash_node, mk_ref, branch_bitmap, child_refs,
  branch_items, make_branch, branch, size,
}
use mpt_flat_poc.Result.{ok}

pub even_bit : (n : ℕ) → (2 * n) % 2 ≡ 0
even_bit n = omega arith

pub odd_bit : (n : ℕ) → (1 + 2 * n) % 2 ≡ 1
odd_bit n = omega arith

pub even_half : (n : ℕ) → (2 * n) / 2 ≡ n
even_half n = omega arith

pub odd_half : (n : ℕ) → (1 + 2 * n) / 2 ≡ n
odd_half n = omega arith

module _ ⦃x : Externals⦄ where
  -- One item for each slot, and the value slot.
  unfoldable pub slot_items : Slots → List (List ℕ)
  slot_items end = rlp_string [] ∷ []
  slot_items (vacant cs) = rlp_string [] ∷ slot_items cs
  slot_items (filled c cs) = embed (hash_node c) ∷ slot_items cs

  unfoldable pub slots_ref : Slots → NodeRef
  slots_ref cs = mk_ref (rlp_list (slot_items cs))

  branch_items-bitmap :
      (cs : Slots) → branch_items (size cs) (branch_bitmap cs) (child_refs cs) ≡ ok (slot_items cs)
  unfolding branch_items size branch_bitmap child_refs slot_items
  branch_items-bitmap end = refl
  branch_items-bitmap (vacant cs) =
      rw (even_bit (branch_bitmap cs), even_half (branch_bitmap cs), branch_items-bitmap cs)
  branch_items-bitmap (filled c cs) =
      rw (odd_bit (branch_bitmap cs), odd_half (branch_bitmap cs), branch_items-bitmap cs)

  -- On the 16 slots of a branch `make_branch` does not panic, and the reference that it caches is
  -- over one item for each slot in order and the empty value slot.
  pub make_branch_lem : (cs : Slots) → size cs ≡ 16 → make_branch cs ≡ ok (branch cs (slots_ref cs))
  unfolding make_branch slots_ref
  make_branch_lem cs h = rw sixteen
    where
      sixteen : branch_items 16 (branch_bitmap cs) (child_refs cs) ≡ ok (slot_items cs)
      sixteen =
          subst (λ n. branch_items n (branch_bitmap cs) (child_refs cs) ≡ ok (slot_items cs)) h
            (branch_items-bitmap cs)
