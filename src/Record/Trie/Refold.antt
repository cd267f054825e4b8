-- ===== src/Record/Trie/Refold.antt =====
-- src/lib.rs: what `record_node_delete` makes of a branch after the delete in its slot.
use mpt_flat_poc.Prelude.{
  ℕ, zero, suc, ◌<◌, ◌≤◌, ◌≡◌, ◌≢◌, refl, ◌∙◌, sym, subst, ap, false, none, some, List, [], ◌∷◌,
  length, arith, eq→eqb,
}
use mpt_flat_poc.Externals.{Externals}
use mpt_flat_poc.Eth.{rlp_list}
use mpt_flat_poc.Node.{
  Node, Slots, branch, make_branch, hash_node, mk_ref, NodeRef, slot_at, fill_slot, clear_slot,
  size,
}
use mpt_flat_poc.Node.Access.{
  size-fill_slot, slot_at-fill_slot, size-clear_slot, slot_at-clear_slot, occupied,
}
use mpt_flat_poc.Node.BranchRef.{slots_ref, make_branch_lem}
use mpt_flat_poc.Record.DeleteOps.{absent, changed}
use mpt_flat_poc.Record.Delete.{refold_branch, collapse, survivor, prepend_path}
use mpt_flat_poc.Record.Trie.{Payload, Trie, fork, look}
use mpt_flat_poc.Node.Access.{is_empty}
use mpt_flat_poc.Record.Trie.Look.{look-fork}
use mpt_flat_poc.Record.Trie.Under.{under}
use mpt_flat_poc.Record.Trie.Fork.{fill-children, occupied-grows}
use mpt_flat_poc.Record.Trie.Lift.{Lifted, prepend_path_lem}
use mpt_flat_poc.Record.Trie.Remove.{without, Fate, Deleted}
use mpt_flat_poc.Record.Trie.Collapse.{
  clear-children, occupied-clear_slot, Lone, lone, slot_items-fill_slot, seen-fork,
}
use mpt_flat_poc.Result.{ok}

module _ ⦃x : Externals⦄ where
  -- A canonical branch.
  pub record Branch (Good : Payload → Type 0) (k : ℕ) (cs : Slots) (nref : NodeRef) : Type 0 where
    pub sixteen : size cs ≡ 16
    pub two : 2 ≤ occupied cs
    pub ref : make_branch cs ≡ ok (branch cs nref)
    pub full : (j : ℕ) (d : Node) → slot_at cs j ≡ some d → is_empty d ≡ false
    pub tries : (j : ℕ) (d : Node) → slot_at cs j ≡ some d → Trie Good k d

module _ ⦃x : Externals⦄ {Good : Payload → Type 0} where
  pub Branch-Trie :
      {k : ℕ} {cs : Slots} {nref : NodeRef}
      → Branch Good k cs nref
      → Trie Good (suc k) (branch cs nref)
  Branch-Trie {k} {cs} {nref} b = fork k cs nref refl b.sixteen b.two b.ref b.full b.tries

  Branch-slots_ref :
      {k : ℕ} {cs : Slots} {nref : NodeRef} → Branch Good k cs nref → slots_ref cs ≡ nref
  Branch-slots_ref {k} {cs} {nref} b = cc (make_branch_lem cs b.sixteen, b.ref)

  module _ {k : ℕ} (cs : Slots) (nref : NodeRef) (b : Branch Good k cs nref) (i : ℕ) (rest : List ℕ)
      (c : Node) (lt : i < 16) (hit : slot_at cs i ≡ some c) where
    filled_Branch :
        (d : Node)
        → is_empty d ≡ false
        → Trie Good k d
        → Branch Good k (fill_slot cs i d) (slots_ref (fill_slot cs i d))
    filled_Branch d ne t = record {
      sixteen = size-fill_slot cs i d ∙ b.sixteen;
      two = omega (arith, occupied-grows cs i d (omega (arith, b.sixteen)), b.two);
      ref = make_branch_lem (fill_slot cs i d) (size-fill_slot cs i d ∙ b.sixteen);
      full = fill-children (λ e. is_empty e ≡ false) cs i d (omega (arith, b.sixteen)) b.full ne;
      tries = fill-children (Trie Good k) cs i d (omega (arith, b.sixteen)) b.tries t;
    }

    pub at_slot : (length rest ≡ k) → look (branch cs nref) (i ∷ rest) ≡ look c rest
    at_slot e = look-fork {Good = Good} cs nref i rest b.tries (omega arith) ∙ rw hit refl

    seen-fill :
        (d : Node) (nref' : NodeRef)
        → is_empty d ≡ false
        → Trie Good k d
        → ((j : List ℕ) → length j ≡ k → look d j ≡ without rest (look c) j)
        → (j : List ℕ) → length j ≡ suc k
        → look (branch (fill_slot cs i d) nref') j ≡ without (i ∷ rest) (look (branch cs nref)) j
    seen-fill d nref' ne t below =
        seen-fork {Good = Good} cs (fill_slot cs i d) nref nref' i rest (some d) b.tries
          (filled_Branch d ne t).tries (λ j. slot_at-fill_slot cs i j d (omega (arith, b.sixteen)))
          (λ j ej. rw hit (below j ej))

    seen-clear :
        (nref' : NodeRef)
        → length rest ≡ k
        → ((j : List ℕ) → length j ≡ k → none ≡ without rest (look c) j)
        → (j : List ℕ) → length j ≡ suc k
        → look (branch (clear_slot cs i) nref') j ≡ without (i ∷ rest) (look (branch cs nref)) j
    seen-clear nref' e below =
        seen-fork {Good = Good} cs (clear_slot cs i) nref nref' i rest none b.tries
          (clear-children (Trie Good k) cs i b.tries) (λ j. slot_at-clear_slot cs i j)
          (λ j ej. rw hit (below j ej))

    pub refold-absent :
        (d : Node)
        → length rest ≡ k
        → Trie Good k d
        → Fate absent c d (look c rest)
        → ((j : List ℕ) → length j ≡ k → look d j ≡ without rest (look c) j)
        → Deleted Good (suc k) (branch cs nref) (i ∷ rest) (refold_branch cs i nref (d, absent))
    refold-absent d e t fate below = record {
      node = branch (fill_slot cs i d) nref;
      outcome = absent;
      runs = unfold refold_branch in refl;
      trie =
          subst (λ r. Trie Good (suc k) (branch (fill_slot cs i d) r)) same_ref
            (Branch-Trie (filled_Branch d ne t));
      holds = seen-fill d nref ne t below;
      fate = (at_slot e ∙ fate.0, (unfold hash_node in refl), refl, λ q. q);
    }
      where
        ne : is_empty d ≡ false
        ne = fate.2 ∙ b.full i c hit

        same_items : slots_ref (fill_slot cs i d) ≡ slots_ref cs
        same_items =
            unfold slots_ref in
            ap (λ s. mk_ref (rlp_list s)) (slot_items-fill_slot cs i c d hit fate.1)

        same_ref : slots_ref (fill_slot cs i d) ≡ nref
        same_ref = same_items ∙ Branch-slots_ref b

    pub refold-changed :
        (d : Node)
        → length rest ≡ k
        → Trie Good k d
        → Fate changed c d (look c rest)
        → ((j : List ℕ) → length j ≡ k → look d j ≡ without rest (look c) j)
        → Deleted Good (suc k) (branch cs nref) (i ∷ rest) (refold_branch cs i nref (d, changed))
    refold-changed d e t fate below = record {
      node = branch (fill_slot cs i d) (slots_ref (fill_slot cs i d));
      outcome = changed;
      runs = unfold refold_branch in rw (filled_Branch d fate.0 t).ref refl;
      trie = Branch-Trie (filled_Branch d fate.0 t);
      holds = seen-fill d (slots_ref (fill_slot cs i d)) fate.0 t below;
      fate = (refl, λ q. fate.1 (sym (at_slot e) ∙ q));
    }

    pub collapsed :
        (m : ℕ)
        → length rest ≡ k
        → look c rest ≢ none
        → ((j : List ℕ) → length j ≡ k → none ≡ without rest (look c) j)
        → m ≡ occupied (clear_slot cs i)
        → Deleted Good
            (suc k)
            (branch cs nref)
            (i ∷ rest)
            (collapse (clear_slot cs i) m (survivor (clear_slot cs i)))
    collapsed zero e there below eq = absurd (omega (arith, occupied-clear_slot cs i c hit, b.two))
    collapsed (suc zero) e there below eq = record {
      node = up.node;
      outcome = changed;
      runs = unfold collapse in rw (l.found, up.runs) refl;
      trie = up.trie;
      holds = λ j ej. up.holds j ej ∙ lone_reads j ej ∙ seen-clear nref e below j ej;
      fate = (up.filled, λ q. there (sym (at_slot e) ∙ q));
    }
      where
        l : Lone (clear_slot cs i)
        l = lone (clear_slot cs i) (sym eq)

        found_at : slot_at (clear_slot cs i) l.at ≡ some l.child
        found_at = l.only l.at ∙ rw (eq→eqb l.at l.at refl) refl

        up : Lifted Good (suc k) l.child (l.at ∷ []) (prepend_path l.child (l.at ∷ []))
        up =
            prepend_path_lem {k = k} {h = suc k} l.at []
              (clear-children (Trie Good k) cs i b.tries l.at l.child found_at)
              (clear-children (λ d. is_empty d ≡ false) cs i b.full l.at l.child found_at)
              (omega (arith, l.low, size-clear_slot cs i, b.sixteen), tt) (omega arith)

        lone_reads :
            (j : List ℕ)
            → length j ≡ suc k
            → under (l.at ∷ []) (look l.child) j ≡ look (branch (clear_slot cs i) nref) j
        lone_reads [] ej = absurd (omega arith)
        lone_reads (m ∷ j) ej =
            unfold under in
            ground (
              arith,
              look-fork {Good = Good} (clear_slot cs i) nref m j
                  (clear-children (Trie Good k) cs i b.tries) (omega arith),
              l.only m,
            )
    collapsed (suc (suc m)) e there below eq = record {
      node = branch (clear_slot cs i) (slots_ref (clear_slot cs i));
      outcome = changed;
      runs = unfold collapse in rw (make_branch_lem (clear_slot cs i) sixteen) refl;
      trie = Branch-Trie (record {
        sixteen = sixteen;
        two = omega arith;
        ref = make_branch_lem (clear_slot cs i) sixteen;
        full = clear-children (λ d. is_empty d ≡ false) cs i b.full;
        tries = clear-children (Trie Good k) cs i b.tries;
      });
      holds = seen-clear (slots_ref (clear_slot cs i)) e below;
      fate = (refl, λ q. there (sym (at_slot e) ∙ q));
    }
      where
        sixteen : size (clear_slot cs i) ≡ 16
        sixteen = size-clear_slot cs i ∙ b.sixteen
