-- ===== src/Record/Trie/Delete.antt =====
-- src/lib.rs: `record_node_delete` as a whole, over every canonical tree, for an operation that
-- removes whatever it meets at the key.
use mpt_flat_poc.Prelude.{
  ℕ, zero, suc, ◌<◌, ◌≡◌, refl, ◌∙◌, sym, subst, false, Option-cases, inl, inr, none, some, List,
  [], ◌∷◌, length, arith,
}
use mpt_flat_poc.Externals.{Externals}
use mpt_flat_poc.Node.{
  Node, Slots, NodeRef, empty, branch, raw, make_extension, hash_node, ext_ref, slot_at,
}
use mpt_flat_poc.Codec.Lazy.{parse_node_lazy}
use mpt_flat_poc.Record.DeleteOps.{DeleteOp, NodeDelete, absent, changed, removed}
use mpt_flat_poc.Record.Insert.{expand}
use mpt_flat_poc.Record.Delete.{
  NodeDeletion, record_node_delete, delete_expanded, delete_at_leaf, delete_at_extension,
  delete_in_slot, refold_branch,
}
use mpt_flat_poc.Record.Trie.{
  Payload, Trie, nothing, single, along, fork, sliced, terminal, look, Nibbles, value, fields,
}
use mpt_flat_poc.Node.Access.{is_empty}
use mpt_flat_poc.Node.Access.{is_raw}
use mpt_flat_poc.Record.Trie.Look.{look-nothing, look-sliced, look-fork}
use mpt_flat_poc.Record.Trie.Refine.{expand-eq, is_raw-terminal}
use mpt_flat_poc.Record.Trie.Remove.{
  without, without-cong, without_absent, Fate, Deleted, Removes, delete-nothing, delete-single,
}
use mpt_flat_poc.Record.Trie.Shorten.{delete-extension}
use mpt_flat_poc.Record.Trie.Collapse.{delete_in_slot-child}
use mpt_flat_poc.Record.Trie.Refold.{Branch, Branch-Trie, refold-absent, refold-changed, collapsed}
use mpt_flat_poc.Record.Trie.Collapse.{survivors-eq}
use mpt_flat_poc.Node.{clear_slot}
use mpt_flat_poc.Result.{Result, ok}

module _ ⦃x : Externals⦄ where
  delete_step :
      (f : ℕ) (n : Node) (rest : List ℕ) (op : DeleteOp)
      → is_raw n ≡ false
      → record_node_delete (suc f) n rest op ≡ delete_expanded (record_node_delete f) n rest op
  unfolding record_node_delete
  delete_step f n rest op h = rw (expand-eq n h) refl

  delete_step_raw :
      (f : ℕ) (buf : List ℕ) (off len : ℕ) (nref : NodeRef) (n : Node) (rest : List ℕ)
      (op : DeleteOp)
      → parse_node_lazy buf off len ≡ ok n
      → is_raw n ≡ false
      → record_node_delete (suc f) (raw buf off len nref) rest op
        ≡ record_node_delete (suc f) n rest op
  unfolding record_node_delete expand
  delete_step_raw f buf off len nref n rest op parse nr = rw (parse, expand-eq n nr) refl

  delete_expanded-terminal :
      (delete : NodeDeletion) (p : Payload) (path rest : List ℕ) (op : DeleteOp)
      → delete_expanded delete (terminal p path) rest op
        ≡ delete_at_leaf delete (terminal p path) path rest op
  unfolding delete_expanded terminal
  delete_expanded-terminal delete (value v) path rest op = refl
  delete_expanded-terminal delete (fields _ _ _ _) path rest op = refl

  delete_expanded-extension :
      (delete : NodeDeletion) (path rest : List ℕ) (child : Node) (op : DeleteOp)
      → delete_expanded delete (make_extension path child) rest op
        ≡ delete_at_extension delete path child (ext_ref path (hash_node child)) rest op
  unfolding delete_expanded make_extension
  delete_expanded-extension delete path rest child op = refl

module _ ⦃x : Externals⦄ {Good : Payload → Type 0} where
  refold-branch :
      {k : ℕ} (cs : Slots) (nref : NodeRef) (b : Branch Good k cs nref) (i : ℕ) (rest : List ℕ)
      (c node : Node) (outcome : NodeDelete)
      → i < 16
      → slot_at cs i ≡ some c
      → length rest ≡ k
      → Trie Good k node
      → Fate outcome c node (look c rest)
      → ((j : List ℕ) → length j ≡ k → look node j ≡ without rest (look c) j)
      → Deleted Good (suc k) (branch cs nref) (i ∷ rest) (refold_branch cs i nref (node, outcome))
  refold-branch cs nref b i rest c node absent lt hit e t fate holds =
      refold-absent cs nref b i rest c lt hit node e t fate holds
  refold-branch cs nref b i rest c node changed lt hit e t fate holds =
      refold-changed cs nref b i rest c lt hit node e t fate holds
  refold-branch cs nref b i rest c node removed lt hit e t fate holds =
      unfold refold_branch in
      collapsed cs nref b i rest c lt hit _ e fate.1
        (λ j ej. sym (look-nothing j) ∙ sym (rw fate.0 refl) ∙ holds j ej)
        (survivors-eq (clear_slot cs i))

  delete-fork :
      {k : ℕ} (op : DeleteOp) (f : ℕ) (cs : Slots) (nref : NodeRef) (i : ℕ) (rest : List ℕ)
      → Branch Good k cs nref
      → i < 16
      → length rest ≡ k
      → ((c : Node)
          → slot_at cs i ≡ some c
          → Deleted Good k c rest (record_node_delete f c rest op))
      → Deleted Good
          (suc k)
          (branch cs nref)
          (i ∷ rest)
          (delete_expanded (record_node_delete f) (branch cs nref) (i ∷ rest) op)
  unfolding delete_expanded
  delete-fork {k} op f cs nref i rest b lt e below = elim (Option-cases (slot_at cs i)) [
    | inl miss ↦
        rw (miss, delete_in_slot)
          (record {
            node = branch cs nref;
            outcome = absent;
            runs = refl;
            trie = Branch-Trie b;
            holds =
                λ j ej. sym (without_absent (i ∷ rest) (look (branch cs nref)) j (nothing_at miss));
            fate = (nothing_at miss, refl, refl, λ q. q);
          })
    | inr (c, hit) ↦
        let d = below c hit in
        rw
          (
            hit,
            delete_in_slot-child (record_node_delete f) cs i nref rest op (b.tries i c hit),
            d.runs,
          )
          (refold-branch cs nref b i rest c d.node d.outcome lt hit e d.trie d.fate d.holds)
  ]
    where
      nothing_at : slot_at cs i ≡ none → look (branch cs nref) (i ∷ rest) ≡ none
      nothing_at miss = look-fork {Good = Good} cs nref i rest b.tries (omega arith) ∙ rw miss refl

  slice-Deleted :
      {h : ℕ} (buf : List ℕ) (off len : ℕ) (n : Node) (rest : List ℕ)
      (r : Result (Node × NodeDelete))
      → parse_node_lazy buf off len ≡ ok n
      → is_raw n ≡ false
      → is_empty n ≡ false
      → Trie Good h n
      → length rest ≡ h
      → Deleted Good h n rest r
      → Deleted Good h (raw buf off len (hash_node n)) rest r
  slice-Deleted {h} buf off len n rest r parse nr ne t e d = record {
    node = d.node;
    outcome = d.outcome;
    runs = d.runs;
    trie = d.trie;
    holds = λ j ej.
        d.holds j ej
        ∙ without-cong rest (look n) (look (raw buf off len (hash_node n))) j (sym (same j ej));
    fate = rw (same rest e) (fate_of d.outcome d.fate);
  }
    where
      same : (j : List ℕ) → length j ≡ h → look (raw buf off len (hash_node n)) j ≡ look n j
      same j ej = look-sliced buf off len (hash_node n) j parse nr t ej

      fate_of :
          (o : NodeDelete)
          → Fate o n d.node (look n rest)
          → Fate o (raw buf off len (hash_node n)) d.node (look n rest)
      fate_of absent fate =
          (fate.0, fate.1 ∙ (unfold hash_node in refl), fate.2 ∙ ne, λ q. absurd (cc))
      fate_of changed fate = fate
      fate_of removed fate = fate

module _ ⦃x : Externals⦄ {Good : Payload → Type 0} (op : DeleteOp) (gone : Removes Good op) where
  pub record_node_delete_lem :
      {h : ℕ} {n : Node}
      → Trie Good h n
      → (f : ℕ) (rest : List ℕ) → Nibbles rest
      → length rest ≡ h
      → h < f
      → Deleted Good h n rest (record_node_delete f n rest op)
  record_node_delete_lem t zero rest nib e b = absurd (omega arith)
  record_node_delete_lem nothing (suc f) rest nib e b =
      rw (delete_step f empty rest op refl) (unfold delete_expanded in delete-nothing rest)
  record_node_delete_lem (single p path good nib' e') (suc f) rest nib e b =
      rw
        (
          delete_step f (terminal p path) rest op (is_raw-terminal p path),
          delete_expanded-terminal (record_node_delete f) p path rest op,
        )
        (delete-single op gone f p path rest good nib' e')
  record_node_delete_lem {h = h} (along k n path child nib' e' br t) (suc f) rest nib e b =
      let below = λ (tail : List ℕ) (nt : Nibbles tail) (et : length tail ≡ k).
        record_node_delete_lem {h = k} t f tail nt et (omega arith) in
      rw
        (
          delete_step f (make_extension (n ∷ path) child) rest op (unfold make_extension in refl),
          delete_expanded-extension (record_node_delete f) (n ∷ path) rest child op,
        )
        (delete-extension {k = k} op f n path rest child nib' nib e' e br t below)
  record_node_delete_lem {h = h} (fork k cs nref eh sz occ mk ne ts) (suc f) [] nib e b =
      absurd (omega arith)
  record_node_delete_lem {h = h} (fork k cs nref eh sz occ mk ne ts) (suc f) (i ∷ rest) nib e b =
      let below = λ (c : Node) (hit : slot_at cs i ≡ some c).
        record_node_delete_lem {h = k} (ts i c hit) f rest nib.1 (omega arith) (omega arith) in
      subst
        (λ m.
          Deleted Good m (branch cs nref) (i ∷ rest)
            (record_node_delete (suc f) (branch cs nref) (i ∷ rest) op))
        (sym eh)
        (rw (delete_step f (branch cs nref) (i ∷ rest) op refl) (
          delete-fork {k = k} op f cs nref i rest
            (record { sixteen = sz; two = occ; ref = mk; full = ne; tries = ts }) nib.0
            (omega arith) below))
  record_node_delete_lem {h = h} (sliced buf off len n parse cut nr ne t) (suc f) rest nib e b =
      let inner = record_node_delete_lem {h = h} t (suc f) rest nib e b in
      rw (delete_step_raw f buf off len (hash_node n) n rest op parse nr) (
        slice-Deleted buf off len n rest (record_node_delete (suc f) n rest op) parse nr ne t e
          inner)
