-- ===== src/Record/Trie/Insert.antt =====
-- src/lib.rs: `record_node_insert` terminates without an error or a panic, keeps the tree canonical
-- with its cached references right, and changes what the tree holds at the one key.
use mpt_flat_poc.Prelude.{
  ℕ, suc, ◌+◌, ◌≤◌, ◌≡◌, refl, ◌≢◌, ◌∙◌, sym, subst, true, false, Option, none, some, List, [], ◌∷◌,
  ◌++◌, length, length-append, arith, eq→eqb, list_eqb_refl, append_assoc, append-nil,
}
use mpt_flat_poc.Externals.{Externals}
use mpt_flat_poc.Node.{Node, empty}
use mpt_flat_poc.Record.Ops.{LeafOp}
use mpt_flat_poc.Record.Insert.{
  StorageInsert, record_node_insert, insert_expanded, insert_at_leaf, expand, place_new, split,
  apply_op, rehome,
}
use mpt_flat_poc.Record.Paths.{
  common_prefix_self, parts-lt, list_eqb-parts, View, covers, parts, common_prefix-parts,
  Nibbles-left, Nibbles-right,
}
use mpt_flat_poc.Record.Trie.{Payload, Trie, single, terminal, look, Nibbles, value, fields}
use mpt_flat_poc.Node.Access.{is_empty, is_branch}
use mpt_flat_poc.Record.Trie.Look.{look-nothing, look-single}
use mpt_flat_poc.Record.Trie.Under.{under, put, put-cong, look-terminal}
use mpt_flat_poc.Record.Trie.Split.{
  forked, split_lem, forked-Trie, forked-look, is_empty-terminal, is_empty-forked,
}
use mpt_flat_poc.Result.{Result, ok}

module _ ⦃x : Externals⦄ where
  -- What an operation does to a payload, with the fuel that it needs at the leaf.
  pub record Effect (Good : Payload → Type 0) (op : LeafOp) : Type 0 where
    pub bound : ℕ
    pub new : Payload
    pub update : Payload → Payload
    pub new_good : Good new
    pub update_good : (p : Payload) → Good p → Good (update p)
    pub place :
        (f : ℕ) (path : List ℕ)
        → bound ≤ f
        → place_new (record_node_insert f) op path ≡ ok (terminal new path)
    pub apply :
        (f : ℕ) (p : Payload) (path : List ℕ)
        → bound ≤ f
        → Good p
        → apply_op (record_node_insert f) (terminal p path) path op ≡ ok (terminal (update p) path)

  insert_expanded-terminal :
      (insert : StorageInsert) (p : Payload) (path rest : List ℕ) (op : LeafOp)
      → insert_expanded insert (terminal p path) rest op
        ≡ insert_at_leaf insert (terminal p path) path rest op
  unfolding insert_expanded terminal
  insert_expanded-terminal insert (value v) path rest op = refl
  insert_expanded-terminal insert (fields nonce balance code_hash storage) path rest op = refl

  pub expand-terminal :
      (p : Payload) (path : List ℕ) → expand (terminal p path) ≡ ok (terminal p path)
  unfolding expand terminal
  expand-terminal (value v) path = refl
  expand-terminal (fields nonce balance code_hash storage) path = refl

  rehome-terminal : (p : Payload) (path q : List ℕ) → rehome (terminal p path) q ≡ ok (terminal p q)
  unfolding rehome terminal
  rehome-terminal (value v) path q = refl
  rehome-terminal (fields nonce balance code_hash storage) path q = refl

  -- What the key holds after the operation.
  abbrev pub after :
      {Good : Payload → Type 0} {op : LeafOp} → Effect Good op → Option Payload → Payload
  after s none = s.new
  after s (some p) = s.update p

  -- A successful insert into `n` at `rest`.
  pub record Inserted (Good : Payload → Type 0) (h : ℕ) (n : Node) (rest : List ℕ) (p : Payload)
      (result : Result Node) : Type 0 where
    pub node : Node
    pub runs : result ≡ ok node
    pub trie : Trie Good h node
    pub filled : is_empty node ≡ false
    pub branches : is_branch n ≡ true → is_branch node ≡ true
    pub holds : (j : List ℕ) → length j ≡ h → look node j ≡ put rest p (look n) j

  pub is_branch-terminal : (p : Payload) (path : List ℕ) → is_branch (terminal p path) ≡ false
  unfolding terminal
  is_branch-terminal (value v) path = refl
  is_branch-terminal (fields nonce balance code_hash storage) path = refl

module _ ⦃x : Externals⦄ {Good : Payload → Type 0} {op : LeafOp} (s : Effect Good op) where
  pub insert-nothing :
      {h : ℕ} (f : ℕ) (rest : List ℕ)
      → s.bound ≤ f
      → Nibbles rest
      → length rest ≡ h
      → Inserted Good h empty rest s.new (insert_expanded (record_node_insert f) empty rest op)
  unfolding insert_expanded put
  insert-nothing f rest b nib e = record {
    node = terminal s.new rest;
    runs = s.place f rest b;
    trie = single s.new rest s.new_good nib e;
    filled = is_empty-terminal s.new rest;
    branches = λ q. cc;
    holds = λ j ej. rw (look-single s.new rest j, look-nothing j);
  }

  insert-same :
      {h : ℕ} (f : ℕ) (p : Payload) (path : List ℕ)
      → s.bound ≤ f
      → Good p
      → Nibbles path
      → length path ≡ h
      → Inserted Good h
          (terminal p path)
          path
          (s.update p)
          (insert_at_leaf (record_node_insert f) (terminal p path) path path op)
  unfolding insert_at_leaf put
  insert-same f p path b good nib e = record {
    node = terminal (s.update p) path;
    runs =
        rw (common_prefix_self path, eq→eqb (length path) (length path) refl)
          (s.apply f p path b good);
    trie = single (s.update p) path (s.update_good p good) nib e;
    filled = is_empty-terminal (s.update p) path;
    branches = λ q. cc (is_branch-terminal p path);
    holds = λ j ej. rw (look-single (s.update p) path j, look-single p path j) (ground arith);
  }

  -- The new key leaves the old path at a nibble; `old` is what stands behind it.
  pub insert-split :
      {h k : ℕ} (f : ℕ) (n old : Node) (pre : List ℕ) (a c : ℕ) (q r : List ℕ)
      (rehomed : List ℕ → Result Node)
      → is_branch n ≡ false
      → a ≢ c
      → s.bound ≤ f
      → rehomed q ≡ ok old
      → is_empty old ≡ false
      → Trie Good k old
      → Nibbles (pre ++ (a ∷ q))
      → Nibbles (pre ++ (c ∷ r))
      → length r ≡ k
      → length pre + suc k ≡ h
      → ((j : List ℕ) → length j ≡ h → look n j ≡ under (pre ++ (a ∷ [])) (look old) j)
      → Inserted Good h n
          (pre ++ (c ∷ r))
          s.new
          (split (record_node_insert f) op (pre ++ (a ∷ q)) (pre ++ (c ∷ r)) (length pre) rehomed)
  insert-split {h} {k} f n old pre a c q r rehomed nb ne b eo filled to nib nib' er e describes =
      record {
        node = forked pre a old c (terminal s.new r);
        runs =
            split_lem (record_node_insert f) op pre a c q r rehomed old (terminal s.new r) eo
              (s.place f r b);
        trie =
            forked-Trie pre a c old (terminal s.new r) nib_pre below_a.0 below_c.0 ne filled
              (is_empty-terminal s.new r) to new_trie e;
        filled = is_empty-forked pre a c old (terminal s.new r);
        branches = λ t. cc;
        holds = λ j ej.
            forked-look pre a c r old s.new nib_pre below_a.0 below_c.0 ne filled to new_trie e j ej
            ∙ put-cong (pre ++ (c ∷ r)) s.new (under (pre ++ (a ∷ [])) (look old)) (look n) j
                (sym (describes j ej));
      }
    where
      nib_pre : Nibbles pre
      nib_pre = Nibbles-left pre (a ∷ q) nib

      below_a : Nibbles (a ∷ q)
      below_a = Nibbles-right pre (a ∷ q) nib

      below_c : Nibbles (c ∷ r)
      below_c = Nibbles-right pre (c ∷ r) nib'

      new_trie : Trie Good k (terminal s.new r)
      new_trie = single s.new r s.new_good below_c.1 er

  pub insert-single :
      {h : ℕ} (f : ℕ) (p : Payload) {path rest : List ℕ}
      → View path rest
      → s.bound ≤ f
      → Good p
      → Nibbles path
      → Nibbles rest
      → length path ≡ h
      → length rest ≡ h
      → Inserted Good h
          (terminal p path)
          rest
          (after s (look (terminal p path) rest))
          (insert_at_leaf (record_node_insert f) (terminal p path) path rest op)
  insert-single {h} f p (covers path []) b good nib nib' e e' =
      subst
        (λ r.
          Inserted Good h (terminal p path) r (after s (look (terminal p path) r))
            (insert_at_leaf (record_node_insert f) (terminal p path) path r op))
        (sym (append-nil path))
        (rw (look-single p path path, list_eqb_refl path) (insert-same f p path b good nib e))
  insert-single f p (covers path (t ∷ ts)) b good nib nib' e e' =
      absurd (omega (arith, length-append {0} path (t ∷ ts)))
  insert-single f p (parts pre a c q r ne) b good nib nib' e e' =
      rw (look-single p (pre ++ (a ∷ q)) (pre ++ (c ∷ r)), list_eqb-parts pre a c q r ne)
        (unfold insert_at_leaf in
          rw (common_prefix-parts pre a c q r ne, parts-lt pre a q)
            (insert-split {k = length q} f (terminal p (pre ++ (a ∷ q))) (terminal p q) pre a c q r
              (rehome (terminal p (pre ++ (a ∷ q)))) (is_branch-terminal p (pre ++ (a ∷ q))) ne b
              (rehome-terminal p (pre ++ (a ∷ q)) q) (is_empty-terminal p q)
              (single p q good (Nibbles-right pre (a ∷ q) nib).1 refl) nib nib'
              (omega (arith, length-append {0} pre (a ∷ q), length-append {0} pre (c ∷ r)))
              (omega (arith, length-append {0} pre (a ∷ q))) (λ j ej. describes j)))
    where
      describes :
          (j : List ℕ)
          → look (terminal p (pre ++ (a ∷ q))) j ≡ under (pre ++ (a ∷ [])) (look (terminal p q)) j
      describes j = rw (← append_assoc pre (a ∷ []) q) (look-terminal (pre ++ (a ∷ [])) q p j)
