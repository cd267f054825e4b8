-- ===== src/Record/Trie/Lift.antt =====
-- src/lib.rs: `prepend_path` re-roots a canonical tree some levels higher.
use mpt_flat_poc.Prelude.{
  ℕ, ◌+◌, ◌≡◌, refl, ◌∙◌, sym, false, List, [], ◌∷◌, ◌++◌, length, length-append, arith,
}
use mpt_flat_poc.Externals.{Externals}
use mpt_flat_poc.Node.{Node, branch, raw, make_extension, hash_node, NodeRef}
use mpt_flat_poc.Codec.Lazy.{parse_node_lazy}
use mpt_flat_poc.Record.Insert.{expand}
use mpt_flat_poc.Record.Delete.{prepend_path, prepend_expanded}
use mpt_flat_poc.Record.Trie.{
  Payload, Trie, nothing, single, along, fork, sliced, terminal, look, Nibbles, value, fields,
}
use mpt_flat_poc.Node.Access.{is_empty}
use mpt_flat_poc.Node.Access.{is_raw}
use mpt_flat_poc.Record.Trie.Look.{look-sliced}
use mpt_flat_poc.Record.Trie.Under.{under, under-cong, under-append, look-terminal, look-extension}
use mpt_flat_poc.Record.Trie.Split.{is_empty-terminal}
use mpt_flat_poc.Record.Trie.Descend.{is_empty-extension}
use mpt_flat_poc.Record.Trie.Refine.{expand-eq, is_raw-terminal}
use mpt_flat_poc.Result.{Result, ok}

Nibbles-append : (a b : List ℕ) → Nibbles a → Nibbles b → Nibbles (a ++ b)
Nibbles-append [] b h g = g
Nibbles-append (n ∷ a) b h g = (h.0, Nibbles-append a b h.1 g)

module _ ⦃x : Externals⦄ where
  -- A re-rooted tree.
  pub record Lifted (Good : Payload → Type 0) (h : ℕ) (n : Node) (edge : List ℕ)
      (result : Result Node) : Type 0 where
    pub node : Node
    pub runs : result ≡ ok node
    pub trie : Trie Good h node
    pub filled : is_empty node ≡ false
    pub holds : (j : List ℕ) → length j ≡ h → look node j ≡ under edge (look n) j

  prepend-terminal :
      (p : Payload) (path edge : List ℕ)
      → prepend_expanded (terminal p path) edge ≡ ok (terminal p (edge ++ path))
  unfolding prepend_expanded terminal
  prepend-terminal (value v) path edge = refl
  prepend-terminal (fields _ _ _ _) path edge = refl

  prepend-extension :
      (path edge : List ℕ) (child : Node)
      → prepend_expanded (make_extension path child) edge ≡ ok (make_extension (edge ++ path) child)
  unfolding prepend_expanded make_extension
  prepend-extension path edge child = refl

  prepend-step :
      (n : Node) (e : ℕ) (edge : List ℕ)
      → is_raw n ≡ false
      → prepend_path n (e ∷ edge) ≡ prepend_expanded n (e ∷ edge)
  unfolding prepend_path
  prepend-step n e edge h = rw (expand-eq n h) refl

  prepend-raw :
      (buf : List ℕ) (off len : ℕ) (nref : NodeRef) (n : Node) (e : ℕ) (edge : List ℕ)
      → parse_node_lazy buf off len ≡ ok n
      → is_raw n ≡ false
      → prepend_path (raw buf off len nref) (e ∷ edge) ≡ prepend_path n (e ∷ edge)
  unfolding prepend_path expand
  prepend-raw buf off len nref n e edge parse nr = rw (parse, expand-eq n nr) refl

module _ ⦃x : Externals⦄ {Good : Payload → Type 0} where
  pub prepend_path_lem :
      {k h : ℕ} {n : Node} (e : ℕ) (edge : List ℕ)
      → Trie Good k n
      → is_empty n ≡ false
      → Nibbles (e ∷ edge)
      → length (e ∷ edge) + k ≡ h
      → Lifted Good h n (e ∷ edge) (prepend_path n (e ∷ edge))
  prepend_path_lem e edge nothing ne nib len = absurd (cc)
  prepend_path_lem {h = h} e edge (single p path good nib' len') ne nib len = record {
    node = terminal p ((e ∷ edge) ++ path);
    runs =
        prepend-step (terminal p path) e edge (is_raw-terminal p path)
        ∙ prepend-terminal p path (e ∷ edge);
    trie =
        single p ((e ∷ edge) ++ path) good (Nibbles-append (e ∷ edge) path nib nib')
          (omega (arith, length-append {0} (e ∷ edge) path));
    filled = is_empty-terminal p ((e ∷ edge) ++ path);
    holds = λ j ej. look-terminal (e ∷ edge) path p j;
  }
  prepend_path_lem {k = m} {h = h} e edge (along k n path child nib' len' br t) ne nib len =
      record {
        node = make_extension ((e ∷ edge) ++ (n ∷ path)) child;
        runs =
            prepend-step (make_extension (n ∷ path) child) e edge (unfold make_extension in refl)
            ∙ prepend-extension (n ∷ path) (e ∷ edge) child;
        trie =
            along k e (edge ++ (n ∷ path)) child (Nibbles-append (e ∷ edge) (n ∷ path) nib nib')
              (omega (arith, length-append {0} edge (n ∷ path))) br t;
        filled = is_empty-extension ((e ∷ edge) ++ (n ∷ path)) child;
        holds = λ j ej.
            look-extension e (edge ++ (n ∷ path)) j t
              (omega (arith, length-append {0} edge (n ∷ path)))
            ∙ under-append (e ∷ edge) (n ∷ path) (look child) j
            ∙ under-cong (e ∷ edge) (under (n ∷ path) (look child))
                (look (make_extension (n ∷ path) child)) m
                (λ i ei. sym (look-extension n path i t (omega arith))) j (omega arith);
      }
  prepend_path_lem {k = m} {h = h} e edge (fork k cs nref eh sz occ mk nes ts) ne nib len = record {
    node = make_extension (e ∷ edge) (branch cs nref);
    runs = prepend-step (branch cs nref) e edge refl ∙ (unfold prepend_expanded in refl);
    trie = along m e edge (branch cs nref) nib len refl (fork k cs nref eh sz occ mk nes ts);
    filled = is_empty-extension (e ∷ edge) (branch cs nref);
    holds = λ j ej. look-extension e edge j (fork k cs nref eh sz occ mk nes ts) (omega arith);
  }
  prepend_path_lem {k = m} {h = h} e edge (sliced buf off len' n parse cut nr full t) ne nib len =
      let inner = prepend_path_lem {k = m} {h = h} e edge t full nib len in
      record {
        node = inner.node;
        runs = prepend-raw buf off len' (hash_node n) n e edge parse nr ∙ inner.runs;
        trie = inner.trie;
        filled = inner.filled;
        holds = λ j ej.
            inner.holds j ej
            ∙ under-cong (e ∷ edge) (look n) (look (raw buf off len' (hash_node n))) m
                (λ i ei. sym (look-sliced buf off len' (hash_node n) i parse nr t ei)) j
                (omega arith);
      }
