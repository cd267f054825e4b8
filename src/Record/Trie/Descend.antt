-- ===== src/Record/Trie/Descend.antt =====
-- src/lib.rs: the arms of `record_node_insert` that go down: into an extension's child and into a
-- branch's slot.
use mpt_flat_poc.Prelude.{
  ℕ, ◌+◌, ◌<◌, ◌≤◌, ◌≡◌, refl, ◌∙◌, sym, subst, true, false, none, List, [], ◌∷◌, ◌++◌, length,
  length-append, arith, eq→eqb, append_assoc,
}
use mpt_flat_poc.Externals.{Externals}
use mpt_flat_poc.Node.{Node, make_extension}
use mpt_flat_poc.Record.Ops.{LeafOp}
use mpt_flat_poc.Record.Insert.{record_node_insert, insert_at_extension, shorten}
use mpt_flat_poc.Record.Paths.{
  View, covers, parts, common_prefix-covers, common_prefix-parts, drop-append, Nibbles-right,
  parts-lt,
}
use mpt_flat_poc.Record.Trie.{Payload, Trie, along, look, Nibbles}
use mpt_flat_poc.Node.Access.{is_empty, is_branch}
use mpt_flat_poc.Record.Trie.Under.{
  Holds, under, put, under-cong, under-put, put-cong, look-extension, under-append, under-parts,
  under_self,
}
use mpt_flat_poc.Record.Trie.Insert.{Effect, Inserted, after, insert-split}
use mpt_flat_poc.Result.{ok}

-- An extension's path, known not to be empty.
module _ ⦃x : Externals⦄ {Good : Payload → Type 0} where
  pub along_path :
      {h k : ℕ} (path : List ℕ) (child : Node)
      → 0 < length path
      → Nibbles path
      → length path + k ≡ h
      → is_branch child ≡ true
      → Trie Good k child
      → Trie Good h (make_extension path child)
  along_path [] child pos nib e br t = elim pos [ ]
  along_path {k} (n ∷ path) child pos nib e br t = along k n path child nib e br t

  pub look_path :
      {k : ℕ} (path : List ℕ) {child : Node} (j : List ℕ)
      → 0 < length path
      → Trie Good k child
      → length path + k ≡ length j
      → look (make_extension path child) j ≡ under path (look child) j
  look_path [] j pos t e = elim pos [ ]
  look_path (n ∷ path) j pos t e = look-extension n path j t e

module _ ⦃x : Externals⦄ where
  pub is_empty-extension :
      (path : List ℕ) (child : Node) → is_empty (make_extension path child) ≡ false
  unfolding make_extension
  is_empty-extension path child = refl

  pub is_branch-extension :
      (path : List ℕ) (child : Node) → is_branch (make_extension path child) ≡ false
  unfolding make_extension
  is_branch-extension path child = refl

  pub not_empty_branch : (n : Node) → is_branch n ≡ true → is_empty n ≡ false
  not_empty_branch n h = ground arith

  -- What is left of an extension behind the nibble where the new key leaves it.
  shortened : List ℕ → Node → Node
  shortened [] child = child
  shortened (n ∷ path) child = make_extension (n ∷ path) child

  shorten-eq : (path : List ℕ) (child : Node) → shorten child path ≡ ok (shortened path child)
  unfolding shorten shortened
  shorten-eq [] child = refl
  shorten-eq (n ∷ path) child = refl

  is_empty-shortened :
      (path : List ℕ) (child : Node)
      → is_branch child ≡ true
      → is_empty (shortened path child) ≡ false
  unfolding shortened
  is_empty-shortened [] child br = not_empty_branch child br
  is_empty-shortened (n ∷ path) child br = is_empty-extension (n ∷ path) child

module _ ⦃x : Externals⦄ {Good : Payload → Type 0} where
  shortened-Trie :
      {h k : ℕ} (path : List ℕ) (child : Node)
      → Nibbles path
      → length path + k ≡ h
      → is_branch child ≡ true
      → Trie Good k child
      → Trie Good h (shortened path child)
  unfolding shortened
  shortened-Trie {h} {k} [] child nib e br t =
      subst (λ m. Trie Good m child) (let q : k ≡ h = omega arith in q) t
  shortened-Trie {k = k} (n ∷ path) child nib e br t = along k n path child nib e br t

  look-shortened :
      {k : ℕ} (path : List ℕ) (child : Node) (j : List ℕ)
      → Trie Good k child
      → length path + k ≡ length j
      → look (shortened path child) j ≡ under path (look child) j
  unfolding shortened under
  look-shortened [] child j t e = refl
  look-shortened (n ∷ path) child j t e = look-extension n path j t e

module _ ⦃x : Externals⦄ {Good : Payload → Type 0} {op : LeafOp} (s : Effect Good op) where
  pub insert-extension :
      {h k : ℕ} (f : ℕ) (child : Node) {path rest : List ℕ}
      → View path rest
      → 0 < length path
      → s.bound ≤ f
      → Nibbles path
      → Nibbles rest
      → length path + k ≡ h
      → length rest ≡ h
      → is_branch child ≡ true
      → Trie Good k child
      → ((tail : List ℕ)
          → Nibbles tail
          → length tail ≡ k
          → Inserted Good k child tail
              (after s (look child tail))
              (record_node_insert f child tail op))
      → Inserted Good h
          (make_extension path child)
          rest
          (after s (look (make_extension path child) rest))
          (insert_at_extension (record_node_insert f) path child rest op)
  insert-extension {h} {k} f child (covers path tail) pos b nib nib' e e' br t below =
      rw (look_path path (path ++ tail) pos t (omega arith), under_self path tail (look child))
        (unfold insert_at_extension in
          record {
            node = make_extension path inner.node;
            runs = rw (
              common_prefix-covers path tail,
              eq→eqb (length path) (length path) refl,
              drop-append path tail,
              inner.runs,
            );
            trie = along_path path inner.node pos nib e (inner.branches br) inner.trie;
            filled = is_empty-extension path inner.node;
            branches = λ q. cc (is_branch-extension path child);
            holds = holds;
          })
    where
      inner :
          Inserted Good k child tail
            (after s (look child tail))
            (record_node_insert f child tail op)
      inner = below tail (Nibbles-right path tail nib') (omega (arith, length-append {0} path tail))

      holds :
          (j : List ℕ)
          → length j ≡ h
          → look (make_extension path inner.node) j
            ≡ put (path ++ tail) (after s (look child tail)) (look (make_extension path child)) j
      holds j ej =
          look_path path j pos inner.trie (omega arith)
          ∙ under-cong path (look inner.node) (put tail (after s (look child tail)) (look child)) k
              inner.holds j (omega arith)
          ∙ under-put path tail (after s (look child tail)) (look child) j
          ∙ put-cong (path ++ tail) (after s (look child tail)) (under path (look child))
              (look (make_extension path child)) j (sym (look_path path j pos t (omega arith)))
  insert-extension {h} {k} f child (parts pre a c q r ne) pos b nib nib' e e' br t below =
      rw (look_path (pre ++ (a ∷ q)) (pre ++ (c ∷ r)) pos t (omega arith), misses)
        (unfold insert_at_extension in
          rw (common_prefix-parts pre a c q r ne, parts-lt pre a q)
            (insert-split s {k = length q + k} f (make_extension (pre ++ (a ∷ q)) child)
              (shortened q child) pre a c q r (shorten child)
              (is_branch-extension (pre ++ (a ∷ q)) child) ne b (shorten-eq q child)
              (is_empty-shortened q child br)
              (shortened-Trie q child (Nibbles-right pre (a ∷ q) nib).1 refl br t) nib nib'
              (omega (arith, length-append {0} pre (a ∷ q), length-append {0} pre (c ∷ r)))
              (omega (arith, length-append {0} pre (a ∷ q))) describes))
    where
      splits :
          (F : Holds) (j : List ℕ)
          → under (pre ++ (a ∷ q)) F j ≡ under (pre ++ (a ∷ [])) (under q F) j
      splits F j = rw (← append_assoc pre (a ∷ []) q) (under-append (pre ++ (a ∷ [])) q F j)

      misses : under (pre ++ (a ∷ q)) (look child) (pre ++ (c ∷ r)) ≡ none
      misses =
          splits (look child) (pre ++ (c ∷ r)) ∙ under-parts pre a c r (under q (look child)) ne

      describes :
          (j : List ℕ)
          → length j ≡ h
          → look (make_extension (pre ++ (a ∷ q)) child) j
            ≡ under (pre ++ (a ∷ [])) (look (shortened q child)) j
      describes j ej =
          look_path (pre ++ (a ∷ q)) j pos t (omega arith)
          ∙ splits (look child) j
          ∙ under-cong (pre ++ (a ∷ [])) (under q (look child)) (look (shortened q child))
              (length q + k) (λ i ei. sym (look-shortened q child i t (omega arith))) j
              (omega (arith, length-append {0} pre (a ∷ q), length-append {0} pre (a ∷ [])))
