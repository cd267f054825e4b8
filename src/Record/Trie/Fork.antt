-- ===== src/Record/Trie/Fork.antt =====
-- src/lib.rs: `record_node_insert` into a branch's slot.
use mpt_flat_poc.Prelude.{
  ℕ, suc, ◌<◌, ◌≤◌, ◌≡◌, refl, ◌∙◌, sym, subst, Bool, true, false, Option-cases, inl, inr, some,
  List, [], ◌∷◌, length, arith, ◌==◌, list_eqb, if◌then◌else◌,
}
use mpt_flat_poc.Externals.{Externals}
use mpt_flat_poc.Node.{
  Node, NodeRef, make_extension, branch, Slots, slot_at, fill_slot, size, make_branch,
}
use mpt_flat_poc.Node.Access.{size-fill_slot, slot_at-fill_slot, occupied, occupied-fill_slot}
use mpt_flat_poc.Node.BranchRef.{slots_ref, make_branch_lem}
use mpt_flat_poc.Record.Ops.{LeafOp}
use mpt_flat_poc.Record.Insert.{StorageInsert, record_node_insert, insert_at_branch, insert_in_slot}
use mpt_flat_poc.Record.Trie.{
  Payload, Trie, nothing, single, along, fork, sliced, terminal, look, look_in, Nibbles, value,
  fields,
}
use mpt_flat_poc.Node.Access.{is_empty}
use mpt_flat_poc.Record.Trie.Look.{look-single, look-fork}
use mpt_flat_poc.Record.Trie.Under.{put}
use mpt_flat_poc.Record.Trie.Split.{is_empty-terminal}
use mpt_flat_poc.Record.Trie.Insert.{Effect, Inserted, after}

module _ ⦃x : Externals⦄ {Good : Payload → Type 0} where
  -- A child of a canonical tree is no overflow record.
  pub insert_in_slot-child :
      {k : ℕ} {c : Node} (insert : StorageInsert) (rest : List ℕ) (op : LeafOp)
      → Trie Good k c
      → insert_in_slot insert (some c) rest op ≡ insert c rest op
  unfolding insert_in_slot make_extension terminal
  insert_in_slot-child insert rest op nothing = refl
  insert_in_slot-child insert rest op (single (value v) path good nib e) = refl
  insert_in_slot-child insert rest op (single (fields _ _ _ _) path good nib e) = refl
  insert_in_slot-child insert rest op (along k n path child nib e br t) = refl
  insert_in_slot-child insert rest op (fork k cs nref eh sz occ mk ne ts) = refl
  insert_in_slot-child insert rest op (sliced buf off len n parse cut nr ne t) = refl

-- What holds of every child goes on holding when one slot is filled with such a node.
pub fill-children :
    (P : Node → Type 0) (cs : Slots) (i : ℕ) (c : Node)
    → i < size cs
    → ((j : ℕ) (d : Node) → slot_at cs j ≡ some d → P d)
    → P c
    → (j : ℕ) (d : Node) → slot_at (fill_slot cs i c) j ≡ some d
    → P d
fill-children P cs i c lt old pc j d e = pick (i == j) (sym (slot_at-fill_slot cs i j c lt) ∙ e)
  where
    pick : (b : Bool) → (if b then some c else slot_at cs j) ≡ some d → P d
    pick true q = subst P (cc) pc
    pick false q = old j d q

pub occupied-grows :
    (cs : Slots) (i : ℕ) (c : Node) → i < size cs → occupied cs ≤ occupied (fill_slot cs i c)
occupied-grows cs i c lt = ground (arith, occupied-fill_slot cs i c lt)

module _ ⦃x : Externals⦄ {Good : Payload → Type 0} where
  fill-Inserted :
      {k : ℕ} (cs : Slots) (nref : NodeRef) (i : ℕ) (rest : List ℕ) (p : Payload) (c : Node)
      → size cs ≡ 16
      → 2 ≤ occupied cs
      → ((j : ℕ) (d : Node) → slot_at cs j ≡ some d → is_empty d ≡ false)
      → ((j : ℕ) (d : Node) → slot_at cs j ≡ some d → Trie Good k d)
      → i < 16
      → length rest ≡ k
      → is_empty c ≡ false
      → Trie Good k c
      → ((j : List ℕ) → length j ≡ k → look c j ≡ put rest p (look_in (slot_at cs i)) j)
      → Inserted Good (suc k) (branch cs nref) (i ∷ rest) p (make_branch (fill_slot cs i c))
  fill-Inserted {k} cs nref i rest p c sz occ ne ts lt e filled t holds_c = record {
    node = branch (fill_slot cs i c) (slots_ref (fill_slot cs i c));
    runs = make_branch_lem (fill_slot cs i c) size_ok;
    trie =
        fork k (fill_slot cs i c) _ refl size_ok (omega (arith, occupied-grows cs i c within))
          (make_branch_lem (fill_slot cs i c) size_ok)
          (fill-children (λ d. is_empty d ≡ false) cs i c within ne filled) ts';
    filled = refl;
    branches = λ q. refl;
    holds = holds;
  }
    where
      within : i < size cs
      within = omega arith

      size_ok : size (fill_slot cs i c) ≡ 16
      size_ok = size-fill_slot cs i c ∙ sz

      ts' : (j : ℕ) (d : Node) → slot_at (fill_slot cs i c) j ≡ some d → Trie Good k d
      ts' = fill-children (Trie Good k) cs i c within ts t

      holds :
          (j : List ℕ)
          → length j ≡ suc k
          → look (branch (fill_slot cs i c) (slots_ref (fill_slot cs i c))) j
            ≡ put (i ∷ rest) p (look (branch cs nref)) j
      holds [] ej = absurd (omega arith)
      holds (m ∷ j) ej =
          rw
            (
              look-fork {Good = Good} (fill_slot cs i c) (slots_ref (fill_slot cs i c)) m j ts'
                  (omega arith),
              slot_at-fill_slot cs i m c within,
            )
            (unfold put list_eqb in
              ground (
                arith,
                holds_c j (omega arith),
                look-fork {Good = Good} cs nref m j ts (omega arith),
              ))

module _ ⦃x : Externals⦄ {Good : Payload → Type 0} {op : LeafOp} (s : Effect Good op) where
  pub insert-fork :
      {k : ℕ} (f : ℕ) (cs : Slots) (nref : NodeRef) (i : ℕ) (rest : List ℕ)
      → s.bound ≤ f
      → size cs ≡ 16
      → 2 ≤ occupied cs
      → ((j : ℕ) (d : Node) → slot_at cs j ≡ some d → is_empty d ≡ false)
      → ((j : ℕ) (d : Node) → slot_at cs j ≡ some d → Trie Good k d)
      → Nibbles (i ∷ rest)
      → length rest ≡ k
      → ((c : Node)
          → slot_at cs i ≡ some c
          → Inserted Good k c rest (after s (look c rest)) (record_node_insert f c rest op))
      → Inserted Good
          (suc k)
          (branch cs nref)
          (i ∷ rest)
          (after s (look (branch cs nref) (i ∷ rest)))
          (insert_at_branch (record_node_insert f) cs (i ∷ rest) op)
  unfolding insert_at_branch
  insert-fork f cs nref i rest b sz occ ne ts nib e below = elim (Option-cases (slot_at cs i)) [
    | inl miss ↦
        rw (look-fork {Good = Good} cs nref i rest ts (sym e), miss)
          (unfold insert_in_slot in
            rw (s.place f rest b) (
              fill-Inserted cs nref i rest s.new (terminal s.new rest) sz occ ne ts nib.0 e
                (is_empty-terminal s.new rest) (single s.new rest s.new_good nib.1 e)
                (λ j ej. rw miss (unfold put in look-single s.new rest j))))
    | inr (c, hit) ↦
        let inner = below c hit in
        rw (look-fork {Good = Good} cs nref i rest ts (sym e), hit)
          (rw (insert_in_slot-child (record_node_insert f) rest op (ts i c hit), inner.runs)
            (fill-Inserted cs nref i rest (after s (look c rest)) inner.node sz occ ne ts nib.0 e
              inner.filled inner.trie (λ j ej. rw hit (inner.holds j ej))))
  ]
