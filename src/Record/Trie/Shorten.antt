-- ===== src/Record/Trie/Shorten.antt =====
-- src/lib.rs: `record_node_delete` below an extension of a canonical tree.
use mpt_flat_poc.Prelude.{
  ℕ, ◌+◌, ◌≡◌, refl, ◌∙◌, sym, subst, ap, true, false, Bool-cases, inl, inr, none, List, ◌∷◌, ◌++◌,
  drop, length, length-append, length-drop, arith,
}
use mpt_flat_poc.Externals.{Externals}
use mpt_flat_poc.Node.{Node, empty, make_extension, hash_node, ext_ref}
use mpt_flat_poc.Record.DeleteOps.{DeleteOp, NodeDelete, absent, changed, removed}
use mpt_flat_poc.Record.Get.{starts_with}
use mpt_flat_poc.Record.Delete.{
  record_node_delete, delete_at_extension, refold_extension, prepend_path,
}
use mpt_flat_poc.Record.Paths.{drop-append, Nibbles-right}
use mpt_flat_poc.Record.Trie.{Payload, Trie, nothing, along, look, Nibbles}
use mpt_flat_poc.Node.Access.{is_branch}
use mpt_flat_poc.Record.Trie.Look.{look-nothing, look-along}
use mpt_flat_poc.Record.Trie.Under.{under, under-cong, under_self, look-extension}
use mpt_flat_poc.Record.Trie.Descend.{is_empty-extension, is_branch-extension}
use mpt_flat_poc.Record.Trie.Lift.{Lifted, prepend_path_lem}
use mpt_flat_poc.Record.Trie.Remove.{
  without, without-cong, without_absent, under-without, under-none, starts_with-append,
  starts_with-eq, Fate, Deleted,
}
use mpt_flat_poc.Result.{Result}

module _ ⦃x : Externals⦄ {Good : Payload → Type 0} where
  -- A delete in the child, seen at the extension.
  seen-along :
      {h k : ℕ} (n : ℕ) (path tail : List ℕ) (child : Node) {r : Result (Node × NodeDelete)}
      → Trie Good k child
      → length (n ∷ path) + k ≡ h
      → (d : Deleted Good k child tail r) → (j : List ℕ) → length j ≡ h
      → under (n ∷ path) (look d.node) j
        ≡ without ((n ∷ path) ++ tail) (look (make_extension (n ∷ path) child)) j
  seen-along {k = k} n path tail child t e d j ej =
      under-cong (n ∷ path) (look d.node) (without tail (look child)) k d.holds j (omega arith)
      ∙ under-without (n ∷ path) tail (look child) j
      ∙ without-cong ((n ∷ path) ++ tail) (under (n ∷ path) (look child))
          (look (make_extension (n ∷ path) child)) j (sym (look-extension n path j t (omega arith)))

  refold-extension :
      {h k : ℕ} (n : ℕ) (path tail : List ℕ) (child node : Node) (outcome : NodeDelete)
      → Nibbles (n ∷ path)
      → length (n ∷ path) + k ≡ h
      → is_branch child ≡ true
      → Trie Good k child
      → Trie Good k node
      → Fate outcome child node (look child tail)
      → ((j : List ℕ)
          → length j ≡ h
          → under (n ∷ path) (look node) j
            ≡ without ((n ∷ path) ++ tail) (look (make_extension (n ∷ path) child)) j)
      → length ((n ∷ path) ++ tail) ≡ h
      → Deleted Good h
          (make_extension (n ∷ path) child)
          ((n ∷ path) ++ tail)
          (refold_extension (n ∷ path) (ext_ref (n ∷ path) (hash_node child)) (node, outcome))
  refold-extension {h} {k} n path tail child node absent nib e br t t' fate seen el = record {
    node = make_extension (n ∷ path) node;
    outcome = absent;
    runs = unfold refold_extension in unfold make_extension in rw (fate.1) refl;
    trie = along k n path node nib e (fate.3 br) t';
    holds = λ j ej. look-extension n path j t' (omega arith) ∙ seen j ej;
    fate = (
      look-extension n path ((n ∷ path) ++ tail) t (omega arith)
          ∙ under_self (n ∷ path) tail (look child)
          ∙ fate.0,
      (unfold make_extension in unfold hash_node in ap (ext_ref (n ∷ path)) fate.1),
      is_empty-extension (n ∷ path) node ∙ sym (is_empty-extension (n ∷ path) child),
      λ q. absurd (cc (is_branch-extension (n ∷ path) child)),
    );
  }
  refold-extension {h} {k} n path tail child node changed nib e br t t' fate seen el = record {
    node = up.node;
    outcome = changed;
    runs = unfold refold_extension in rw up.runs refl;
    trie = up.trie;
    holds = λ j ej. up.holds j ej ∙ seen j ej;
    fate = (
      up.filled,
      λ q. fate.1 (
          sym (under_self (n ∷ path) tail (look child))
          ∙ sym (look-extension n path ((n ∷ path) ++ tail) t (omega arith))
          ∙ q),
    );
  }
    where
      up : Lifted Good h node (n ∷ path) (prepend_path node (n ∷ path))
      up = prepend_path_lem {k = k} {h = h} n path t' fate.0 nib e
  refold-extension {h} {k} n path tail child node removed nib e br t t' fate seen el = record {
    node = empty;
    outcome = removed;
    runs = unfold refold_extension in refl;
    trie = nothing;
    holds = λ j ej.
        look-nothing j
        ∙ sym (under-none (n ∷ path) (look node) j (λ i. rw fate.0 (look-nothing i)))
        ∙ seen j ej;
    fate = (
      refl,
      λ q. fate.1 (
          sym (under_self (n ∷ path) tail (look child))
          ∙ sym (look-extension n path ((n ∷ path) ++ tail) t (omega arith))
          ∙ q),
    );
  }

  covered :
      {h k : ℕ} (op : DeleteOp) (f n : ℕ) (path tail : List ℕ) (child : Node)
      → Nibbles (n ∷ path)
      → length (n ∷ path) + k ≡ h
      → length ((n ∷ path) ++ tail) ≡ h
      → is_branch child ≡ true
      → Trie Good k child
      → Deleted Good k child tail (record_node_delete f child tail op)
      → Deleted Good h (make_extension (n ∷ path) child) ((n ∷ path) ++ tail) (
          delete_at_extension
            (record_node_delete f)
            (n ∷ path)
            child
            (ext_ref (n ∷ path) (hash_node child))
            ((n ∷ path) ++ tail)
            op)
  unfolding delete_at_extension
  covered op f n path tail child nib e el br t d =
      rw (starts_with-append (n ∷ path) tail, drop-append (n ∷ path) tail, d.runs)
        (refold-extension n path tail child d.node d.outcome nib e br t d.trie d.fate
          (seen-along n path tail child t e d) el)

  pub delete-extension :
      {h k : ℕ} (op : DeleteOp) (f n : ℕ) (path rest : List ℕ) (child : Node)
      → Nibbles (n ∷ path)
      → Nibbles rest
      → length (n ∷ path) + k ≡ h
      → length rest ≡ h
      → is_branch child ≡ true
      → Trie Good k child
      → ((tail : List ℕ)
          → Nibbles tail
          → length tail ≡ k
          → Deleted Good k child tail (record_node_delete f child tail op))
      → Deleted Good h (make_extension (n ∷ path) child) rest (
          delete_at_extension
            (record_node_delete f)
            (n ∷ path)
            child
            (ext_ref (n ∷ path) (hash_node child))
            rest
            op)
  delete-extension {h} {k} op f n path rest child nib nib' e e' br t below =
      elim (Bool-cases (starts_with rest (n ∷ path))) [
        | inl along_it ↦ hit (starts_with-eq rest (n ∷ path) along_it)
        | inr off ↦ miss off
      ]
    where
      tail : List ℕ
      tail = drop (length (n ∷ path)) rest

      Goal : List ℕ → Type 0
      Goal r = Deleted Good h (make_extension (n ∷ path) child) r (
          delete_at_extension (record_node_delete f) (n ∷ path) child
            (ext_ref (n ∷ path) (hash_node child)) r op)

      hit : rest ≡ (n ∷ path) ++ tail → Goal rest
      hit eq = subst Goal (sym eq) (
          covered {k = k} op f n path tail child nib e
            (omega (arith, length-append {0} (n ∷ path) tail, length-drop (length (n ∷ path)) rest))
            br t
            (below tail (Nibbles-right (n ∷ path) tail (subst Nibbles eq nib'))
              (omega (arith, length-drop (length (n ∷ path)) rest))))

      miss : starts_with rest (n ∷ path) ≡ false → Goal rest
      miss off =
          unfold delete_at_extension in
          rw off (record {
            node = make_extension (n ∷ path) child;
            outcome = absent;
            runs = unfold make_extension in refl;
            trie = along k n path child nib e br t;
            holds = λ j ej.
                sym (without_absent rest (look (make_extension (n ∷ path) child)) j none_there);
            fate = (none_there, refl, refl, λ q. q);
          })
        where
          none_there : look (make_extension (n ∷ path) child) rest ≡ none
          none_there = look-along n path rest t (omega arith) ∙ rw off refl
