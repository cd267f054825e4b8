-- ===== src/Record/Trie/Remove.antt =====
-- src/lib.rs: `record_node_delete` at a leaf and below an extension of a canonical tree.
use mpt_flat_poc.Prelude.{
  ℕ, ◌≡◌, ◌≢◌, refl, ◌∙◌, sym, true, false, Bool-cases, inl, inr, Option, none, List, [], ◌∷◌, ◌++◌,
  drop, length, arith, list_eqb, list_eqb→eq, if◌then◌else◌,
}
use mpt_flat_poc.Externals.{Externals}
use mpt_flat_poc.Node.{Node, empty, hash_node}
use mpt_flat_poc.Record.DeleteOps.{DeleteOp, NodeDelete, absent, changed, removed}
use mpt_flat_poc.Record.Applied.{Applied}
use mpt_flat_poc.Record.Get.{starts_with}
use mpt_flat_poc.Record.Delete.{record_node_delete, apply_delete_op, delete_at_leaf, settle}
use mpt_flat_poc.Record.Trie.{Payload, Trie, nothing, single, terminal, look, Nibbles}
use mpt_flat_poc.Node.Access.{is_empty, is_branch}
use mpt_flat_poc.Record.Trie.Look.{look-nothing, look-single}
use mpt_flat_poc.Record.Trie.Under.{Holds, under}
use mpt_flat_poc.Result.{Result, ok}

-- `F` with nothing at `rest`.
unfoldable pub without : List ℕ → Holds → Holds
without rest F j = if list_eqb j rest then none else F j

pub without-cong :
    (rest : List ℕ) (F G : Holds) (j : List ℕ) → F j ≡ G j → without rest F j ≡ without rest G j
unfolding without
without-cong rest F G j e = rw e

pub without_absent :
    (rest : List ℕ) (F : Holds) (j : List ℕ) → F rest ≡ none → without rest F j ≡ F j
unfolding without
without_absent rest F j e = elim (Bool-cases (list_eqb j rest)) [
  | inl same ↦ rw (same) (sym (rw (list_eqb→eq j rest same) e))
  | inr other ↦ rw other refl
]

pub under-without :
    (pre q : List ℕ) (F : Holds) (j : List ℕ)
    → under pre (without q F) j ≡ without (pre ++ q) (under pre F) j
unfolding under without list_eqb
under-without [] q F j = refl
under-without (n ∷ pre) q F [] = refl
under-without (n ∷ pre) q F (i ∷ j) = ground (arith, under-without pre q F j)

pub under-none :
    (pre : List ℕ) (F : Holds) (j : List ℕ) → ((i : List ℕ) → F i ≡ none) → under pre F j ≡ none
unfolding under
under-none [] F j h = h j
under-none (n ∷ pre) F [] h = refl
under-none (n ∷ pre) F (i ∷ j) h = ground (arith, under-none pre F j h)

list_eqb_sym : (a b : List ℕ) → list_eqb a b ≡ list_eqb b a
unfolding list_eqb
list_eqb_sym [] [] = refl
list_eqb_sym [] (c ∷ b) = refl
list_eqb_sym (d ∷ a) [] = refl
list_eqb_sym (d ∷ a) (c ∷ b) = ground (arith, list_eqb_sym a b)

pub starts_with-append : (path tail : List ℕ) → starts_with (path ++ tail) path ≡ true
unfolding starts_with list_eqb
starts_with-append [] tail = refl
starts_with-append (n ∷ path) tail = ground (arith, starts_with-append path tail)

pub starts_with-eq :
    (rest path : List ℕ) → starts_with rest path ≡ true → rest ≡ path ++ drop (length path) rest
unfolding starts_with list_eqb
starts_with-eq rest [] h = refl
starts_with-eq [] (n ∷ path) h = ground arith
starts_with-eq (m ∷ rest) (n ∷ path) h = ground (arith, starts_with-eq rest path)

module _ ⦃x : Externals⦄ where
  -- What an outcome says of the node before, the node after and what the key held.
  abbrev pub Fate : NodeDelete → Node → Node → Option Payload → Type 0
  Fate absent n node o =
      (o ≡ none)
      × (hash_node node ≡ hash_node n)
      × (is_empty node ≡ is_empty n)
      × (is_branch n ≡ true → is_branch node ≡ true)
  Fate changed n node o = (is_empty node ≡ false) × (o ≢ none)
  Fate removed n node o = (node ≡ empty) × (o ≢ none)

  -- A successful delete in `n` at `rest`.
  pub record Deleted (Good : Payload → Type 0) (h : ℕ) (n : Node) (rest : List ℕ)
      (result : Result (Node × NodeDelete)) : Type 0 where
    pub node : Node
    pub outcome : NodeDelete
    pub runs : result ≡ ok (node, outcome)
    pub trie : Trie Good h node
    pub holds : (j : List ℕ) → length j ≡ h → look node j ≡ without rest (look n) j
    pub fate : Fate outcome n node (look n rest)

  pub delete-nothing :
      {Good : Payload → Type 0} {h : ℕ} (rest : List ℕ)
      → Deleted Good h empty rest (ok (empty, absent))
  delete-nothing rest = record {
    node = empty;
    outcome = absent;
    runs = refl;
    trie = nothing;
    holds = λ j ej. sym (without_absent rest (look empty) j (look-nothing rest));
    fate = (look-nothing rest, refl, refl, λ q. q);
  }

  -- An operation that removes every payload that may stand in the tree.
  abbrev pub Removes : (Payload → Type 0) → DeleteOp → Type 0
  Removes Good op =
      (f : ℕ) (p : Payload) (path : List ℕ)
      → Good p
      → apply_delete_op (record_node_delete f) (terminal p path) op ≡ ok Applied.removed

module _ ⦃x : Externals⦄ {Good : Payload → Type 0} (op : DeleteOp) (gone : Removes Good op) where
  pub delete-single :
      {h : ℕ} (f : ℕ) (p : Payload) (path rest : List ℕ)
      → Good p
      → Nibbles path
      → length path ≡ h
      → Deleted Good h
          (terminal p path)
          rest
          (delete_at_leaf (record_node_delete f) (terminal p path) path rest op)
  unfolding delete_at_leaf
  delete-single f p path rest good nib e = elim (Bool-cases (list_eqb path rest)) [
    | inl same ↦
        rw (same, gone f p path good)
          (record {
            node = empty;
            outcome = removed;
            runs = unfold settle in refl;
            trie = nothing;
            holds = λ j ej. look-nothing j ∙ sym (cleared same j);
            fate = (refl, there same);
          })
    | inr other ↦ rw other (record {
      node = terminal p path;
      outcome = absent;
      runs = refl;
      trie = single p path good nib e;
      holds = λ j ej. sym (without_absent rest (look (terminal p path)) j (missing other));
      fate = (missing other, refl, refl, λ q. q);
    })
  ]
    where
      missing : list_eqb path rest ≡ false → look (terminal p path) rest ≡ none
      missing h = look-single p path rest ∙ rw (list_eqb_sym rest path, h) refl

      there : list_eqb path rest ≡ true → look (terminal p path) rest ≢ none
      there h q = ground (arith, look-single p path rest, list_eqb_sym rest path)

      cleared :
          list_eqb path rest ≡ true → (j : List ℕ) → without rest (look (terminal p path)) j ≡ none
      cleared h j = unfold without in ground (arith, look-single p path j, list_eqb→eq path rest)
