-- ===== src/Record/Trie/Refine.antt =====
-- src/lib.rs: `record_node_insert` as a whole, over every canonical tree.
use mpt_flat_poc.Prelude.{
  ℕ, zero, suc, ◌+◌, ◌<◌, ◌≡◌, refl, ◌∙◌, sym, subst, false, List, [], ◌∷◌, length, arith, some,
}
use mpt_flat_poc.Externals.{Externals}
use mpt_flat_poc.Node.{
  Node, empty, leaf, account, overflow, extension, raw, branch, make_extension, hash_node, slot_at,
  Slots, NodeRef,
}
use mpt_flat_poc.Codec.Lazy.{parse_node_lazy}
use mpt_flat_poc.Record.Ops.{LeafOp}
use mpt_flat_poc.Record.Insert.{
  record_node_insert, insert_expanded, insert_at_leaf, insert_at_extension, insert_at_branch,
  expand,
}
use mpt_flat_poc.Record.Paths.{view}
use mpt_flat_poc.Record.Trie.{
  Payload, Trie, nothing, single, along, fork, sliced, terminal, look, Nibbles, value, fields,
}
use mpt_flat_poc.Node.Access.{is_raw}
use mpt_flat_poc.Record.Trie.Look.{look-nothing, look-sliced}
use mpt_flat_poc.Record.Trie.Under.{put-cong}
use mpt_flat_poc.Record.Trie.Insert.{Effect, Inserted, after, insert-nothing, insert-single}
use mpt_flat_poc.Record.Trie.Descend.{insert-extension}
use mpt_flat_poc.Record.Trie.Fork.{insert-fork}
use mpt_flat_poc.Result.{Result, ok}

module _ ⦃x : Externals⦄ where
  pub expand-eq : (n : Node) → is_raw n ≡ false → expand n ≡ ok n
  unfolding expand
  expand-eq empty h = refl
  expand-eq (leaf _ _ _) h = refl
  expand-eq (extension _ _ _) h = refl
  expand-eq (branch _ _) h = refl
  expand-eq (overflow _ _) h = refl
  expand-eq (account _ _ _ _ _ _ _) h = refl
  expand-eq (raw _ _ _ _) h = cc

  pub is_raw-terminal : (p : Payload) (path : List ℕ) → is_raw (terminal p path) ≡ false
  unfolding terminal
  is_raw-terminal (value v) path = refl
  is_raw-terminal (fields _ _ _ _) path = refl

  pub step :
      (f : ℕ) (n : Node) (rest : List ℕ) (op : LeafOp)
      → is_raw n ≡ false
      → record_node_insert (suc f) n rest op ≡ insert_expanded (record_node_insert f) n rest op
  unfolding record_node_insert
  step f n rest op h = rw (expand-eq n h)

  pub insert_expanded-terminal :
      (f : ℕ) (p : Payload) (path rest : List ℕ) (op : LeafOp)
      → record_node_insert (suc f) (terminal p path) rest op
        ≡ insert_at_leaf (record_node_insert f) (terminal p path) path rest op
  insert_expanded-terminal f p path rest op =
      step f (terminal p path) rest op (is_raw-terminal p path) ∙ arm p
    where
      arm :
          (p : Payload)
          → insert_expanded (record_node_insert f) (terminal p path) rest op
            ≡ insert_at_leaf (record_node_insert f) (terminal p path) path rest op
      arm (value v) = unfold insert_expanded terminal in refl
      arm (fields _ _ _ _) = unfold insert_expanded terminal in refl

  pub expanded_extension :
      (f : ℕ) (path : List ℕ) (child : Node) (rest : List ℕ) (op : LeafOp)
      → insert_expanded (record_node_insert f) (make_extension path child) rest op
        ≡ insert_at_extension (record_node_insert f) path child rest op
  unfolding insert_expanded make_extension
  expanded_extension f path child rest op = refl

  pub expanded_branch :
      (f : ℕ) (cs : Slots) (nref : NodeRef) (rest : List ℕ) (op : LeafOp)
      → insert_expanded (record_node_insert f) (branch cs nref) rest op
        ≡ insert_at_branch (record_node_insert f) cs rest op
  unfolding insert_expanded
  expanded_branch f cs nref rest op = refl

  -- A raw slice is parsed, and then treated as the node.
  pub step_raw :
      (f : ℕ) (buf : List ℕ) (off len : ℕ) (nref : NodeRef) (n : Node) (rest : List ℕ) (op : LeafOp)
      → parse_node_lazy buf off len ≡ ok n
      → is_raw n ≡ false
      → record_node_insert (suc f) (raw buf off len nref) rest op
        ≡ record_node_insert (suc f) n rest op
  step_raw f buf off len nref n rest op parse nr =
      rw (step f n rest op nr) (unfold record_node_insert in rw (parsed))
    where
      parsed : expand (raw buf off len nref) ≡ ok n
      parsed = unfold expand in parse

module _ ⦃x : Externals⦄ {Good : Payload → Type 0} {op : LeafOp} (s : Effect Good op) where
  slice-Inserted :
      {h : ℕ} (buf : List ℕ) (off len : ℕ) (n : Node) (rest : List ℕ) (r : Result Node)
      → parse_node_lazy buf off len ≡ ok n
      → is_raw n ≡ false
      → Trie Good h n
      → length rest ≡ h
      → Inserted Good h n rest (after s (look n rest)) r
      → Inserted Good h
          (raw buf off len (hash_node n))
          rest
          (after s (look (raw buf off len (hash_node n)) rest))
          r
  slice-Inserted {h} buf off len n rest r parse nr t e inner =
      rw (look-sliced buf off len (hash_node n) rest parse nr t e) (record {
        node = inner.node;
        runs = inner.runs;
        trie = inner.trie;
        filled = inner.filled;
        branches = λ q. cc;
        holds = λ j ej.
            inner.holds j ej
            ∙ put-cong rest (after s (look n rest)) (look n) (look (raw buf off len (hash_node n)))
                j (sym (look-sliced buf off len (hash_node n) j parse nr t ej));
      })

  pub record_node_insert_lem :
      {h : ℕ} {n : Node}
      → Trie Good h n
      → (f : ℕ) (rest : List ℕ) → Nibbles rest
      → length rest ≡ h
      → h + s.bound < f
      → Inserted Good h n rest (after s (look n rest)) (record_node_insert f n rest op)
  record_node_insert_lem t zero rest nib e b = absurd (omega arith)
  record_node_insert_lem nothing (suc f) rest nib e b =
      rw (step f empty rest op refl, look-nothing rest)
        (insert-nothing s f rest (omega arith) nib e)
  record_node_insert_lem (single p path good nib' e') (suc f) rest nib e b =
      rw (insert_expanded-terminal f p path rest op)
        (insert-single s f p (view path rest (omega arith)) (omega arith) good nib' nib e' e)
  record_node_insert_lem {h = h} (along k n path child nib' e' br t) (suc f) rest nib e b =
      let below = λ (tail : List ℕ) (nt : Nibbles tail) (et : length tail ≡ k).
        record_node_insert_lem {h = k} t f tail nt et (omega arith) in
      rw (step f (make_extension (n ∷ path) child) rest op (unfold make_extension in refl)) (
        rw (expanded_extension f (n ∷ path) child rest op) (
          insert-extension s {k = k} f child (view (n ∷ path) rest (omega arith)) (omega arith)
            (omega arith) nib' nib e' e br t below))
  record_node_insert_lem {h = h} (fork k cs nref eh sz occ mk ne ts) (suc f) [] nib e b =
      absurd (omega arith)
  record_node_insert_lem {h = h} (fork k cs nref eh sz occ mk ne ts) (suc f) (i ∷ rest) nib e b =
      let below = λ (c : Node) (hit : slot_at cs i ≡ some c).
        record_node_insert_lem {h = k} (ts i c hit) f rest nib.1 (omega arith) (omega arith) in
      subst
        (λ m.
          Inserted Good m (branch cs nref) (i ∷ rest) (after s (look (branch cs nref) (i ∷ rest)))
            (record_node_insert (suc f) (branch cs nref) (i ∷ rest) op))
        (sym eh)
        (rw (step f (branch cs nref) (i ∷ rest) op refl, expanded_branch f cs nref (i ∷ rest) op)
          (insert-fork s f cs nref i rest (omega arith) sz occ ne ts nib (omega arith) below))
  record_node_insert_lem {h = h} (sliced buf off len n parse cut nr ne t) (suc f) rest nib e b =
      let inner = record_node_insert_lem {h = h} t (suc f) rest nib e b in
      rw (step_raw f buf off len (hash_node n) n rest op parse nr) (
        slice-Inserted buf off len n rest (record_node_insert (suc f) n rest op) parse nr t e inner)
