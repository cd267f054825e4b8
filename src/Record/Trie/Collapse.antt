-- ===== src/Record/Trie/Collapse.antt =====
-- src/lib.rs: `record_node_delete` in a branch's slot: the branch is folded anew, or collapses into
-- its lone survivor.
use mpt_flat_poc.Prelude.{
  ℕ, zero, suc, ◌<◌, ◌≡◌, refl, ◌∙◌, sym, ap, Bool, true, false, Option, none, some, List, [], ◌∷◌,
  length, arith, list_eqb, if◌then◌else◌, ◌==◌,
}
use mpt_flat_poc.Externals.{Externals}
use mpt_flat_poc.Node.{
  Node, Slots, end, vacant, filled, branch, hash_node, NodeRef, slot_at, fill_slot, clear_slot,
  size, make_extension,
}
use mpt_flat_poc.Node.Access.{slot_at-clear_slot, occupied}
use mpt_flat_poc.Node.BranchRef.{slot_items}
use mpt_flat_poc.Record.DeleteOps.{DeleteOp}
use mpt_flat_poc.Record.Delete.{NodeDeletion, delete_in_slot, refold_branch, survivors, survivor}
use mpt_flat_poc.Record.Trie.{
  Payload, Trie, nothing, single, along, fork, sliced, terminal, look, look_in, value, fields,
}
use mpt_flat_poc.Record.Trie.Look.{look-fork}
use mpt_flat_poc.Record.Trie.Remove.{without}
use mpt_flat_poc.Result.{◌>>=◌}

-- The children of cleared slots are children.
pub clear-children :
    (P : Node → Type 0) (cs : Slots) (i : ℕ)
    → ((j : ℕ) (d : Node) → slot_at cs j ≡ some d → P d)
    → (j : ℕ) (d : Node) → slot_at (clear_slot cs i) j ≡ some d
    → P d
clear-children P cs i old j d e = pick (i == j) (sym (slot_at-clear_slot cs i j) ∙ e)
  where
    pick : (b : Bool) → (if b then none else slot_at cs j) ≡ some d → P d
    pick true q = cc
    pick false q = old j d q

pub survivors-eq : (cs : Slots) → survivors cs ≡ occupied cs
unfolding survivors occupied
survivors-eq end = refl
survivors-eq (vacant cs) = survivors-eq cs
survivors-eq (filled c cs) = ap suc (survivors-eq cs)

pub occupied-clear_slot :
    (cs : Slots) (i : ℕ) (c : Node)
    → slot_at cs i ≡ some c
    → suc (occupied (clear_slot cs i)) ≡ occupied cs
unfolding clear_slot slot_at occupied
occupied-clear_slot end i c h = cc
occupied-clear_slot (vacant cs) zero c h = cc
occupied-clear_slot (vacant cs) (suc i) c h = occupied-clear_slot cs i c h
occupied-clear_slot (filled d cs) zero c h = refl
occupied-clear_slot (filled d cs) (suc i) c h = ap suc (occupied-clear_slot cs i c h)

none_left : (cs : Slots) → occupied cs ≡ 0 → (i : ℕ) → slot_at cs i ≡ none
unfolding slot_at occupied
none_left end h i = refl
none_left (vacant cs) h zero = refl
none_left (vacant cs) h (suc i) = none_left cs h i
none_left (filled c cs) h i = absurd (omega arith)

-- The lone child of slots that have one.
pub record Lone (cs : Slots) : Type 0 where
  pub at : ℕ
  pub child : Node
  pub found : survivor cs ≡ some (at, child)
  pub low : at < size cs
  pub only : (j : ℕ) → slot_at cs j ≡ (if j == at then some child else none)

pub lone : (cs : Slots) → occupied cs ≡ 1 → Lone cs
unfolding survivor occupied slot_at size
lone end h = absurd (omega arith)
lone (vacant cs) h = shifted (lone cs h)
  where
    shifted : Lone cs → Lone (vacant cs)
    shifted l = record {
      at = suc l.at;
      child = l.child;
      found = rw l.found refl;
      low = omega (arith, l.low);
      only = at_slot;
    }
      where
        at_slot : (j : ℕ) → slot_at (vacant cs) j ≡ (if j == suc l.at then some l.child else none)
        at_slot zero = ground arith
        at_slot (suc j) = ground (arith, l.only j)
lone (filled c cs) h = record { at = 0; child = c; found = refl; low = omega arith; only = at_slot }
  where
    at_slot : (j : ℕ) → slot_at (filled c cs) j ≡ (if j == 0 then some c else none)
    at_slot zero = ground arith
    at_slot (suc j) = ground (arith, none_left cs (omega arith) j)

module _ ⦃x : Externals⦄ where
  -- Filling a slot with a node of the same reference keeps the branch's reference.
  pub slot_items-fill_slot :
      (cs : Slots) (i : ℕ) (c d : Node)
      → slot_at cs i ≡ some c
      → hash_node d ≡ hash_node c
      → slot_items (fill_slot cs i d) ≡ slot_items cs
  unfolding slot_items fill_slot slot_at
  slot_items-fill_slot end i c d h e = cc
  slot_items-fill_slot (vacant cs) zero c d h e = cc
  slot_items-fill_slot (vacant cs) (suc i) c d h e = rw (slot_items-fill_slot cs i c d h e) refl
  slot_items-fill_slot (filled b cs) zero c d h e = cc
  slot_items-fill_slot (filled b cs) (suc i) c d h e = rw (slot_items-fill_slot cs i c d h e) refl

module _ ⦃x : Externals⦄ {Good : Payload → Type 0} where
  -- A child of a canonical tree is no overflow record.
  pub delete_in_slot-child :
      {k : ℕ} {c : Node} (delete : NodeDeletion) (cs : Slots) (i : ℕ) (nref : NodeRef)
      (rest : List ℕ) (op : DeleteOp)
      → Trie Good k c
      → delete_in_slot delete cs i nref (some c) rest op
        ≡ (delete c rest op >>= λ d. refold_branch cs i nref d)
  unfolding delete_in_slot make_extension terminal
  delete_in_slot-child delete cs i nref rest op nothing = refl
  delete_in_slot-child delete cs i nref rest op (single (value v) path good nib e) = refl
  delete_in_slot-child delete cs i nref rest op (single (fields _ _ _ _) path good nib e) = refl
  delete_in_slot-child delete cs i nref rest op (along k n path child nib e br t) = refl
  delete_in_slot-child delete cs i nref rest op (fork k ds nref' eh sz occ mk ne ts) = refl
  delete_in_slot-child delete cs i nref rest op (sliced buf off len n parse cut nr ne t) = refl

  -- A branch's slots after a delete in one of them, seen at the branch.
  pub seen-fork :
      {k : ℕ} (cs ds : Slots) (nref nref' : NodeRef) (i : ℕ) (rest : List ℕ) (o : Option Node)
      → ((j : ℕ) (d : Node) → slot_at cs j ≡ some d → Trie Good k d)
      → ((j : ℕ) (d : Node) → slot_at ds j ≡ some d → Trie Good k d)
      → ((j : ℕ) → slot_at ds j ≡ (if i == j then o else slot_at cs j))
      → ((j : List ℕ) → length j ≡ k → look_in o j ≡ without rest (look_in (slot_at cs i)) j)
      → (j : List ℕ) → length j ≡ suc k
      → look (branch ds nref') j ≡ without (i ∷ rest) (look (branch cs nref)) j
  seen-fork cs ds nref nref' i rest o ts ts' slots below [] ej = absurd (omega arith)
  seen-fork cs ds nref nref' i rest o ts ts' slots below (m ∷ j) ej =
      rw (look-fork {Good = Good} ds nref' m j ts' (omega arith), slots m)
        (unfold without list_eqb in
          ground
            (arith, below j (omega arith), look-fork {Good = Good} cs nref m j ts (omega arith)))
