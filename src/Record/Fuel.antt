-- ===== src/Record/Fuel.antt =====
-- src/lib.rs: the fuel of `record_node_insert` does not show in its result, for a value.
use mpt_flat_poc.Prelude.{
  ℕ, zero, suc, ◌<◌, ◌≡◌, refl, ◌∙◌, sym, Bool-cases, Option-cases, inl, inr, some, List, [], ◌∷◌,
  length, length-drop, drop, arith, ◌==◌, eqb→eq,
}
use mpt_flat_poc.Externals.{Externals}
use mpt_flat_poc.Node.{Node, Slots, make_extension, empty, branch, slot_at, hash_node}
use mpt_flat_poc.Record.Ops.{LeafOp}
use mpt_flat_poc.Record.Insert.{
  StorageInsert, record_node_insert, insert_expanded, insert_at_leaf, insert_at_extension,
  insert_at_branch, insert_in_slot, common_prefix, split, place_new, apply_op,
}
use mpt_flat_poc.Record.Trie.{
  Payload, Trie, nothing, single, along, fork, sliced, terminal, value, fields,
}
use mpt_flat_poc.Record.Trie.Fork.{insert_in_slot-child}
use mpt_flat_poc.Record.Trie.Refine.{
  step, step_raw, expanded_extension, expanded_branch, insert_expanded-terminal,
}
use mpt_flat_poc.Result.{Result}

module _ ⦃x : Externals⦄ (v : List ℕ) where
  insert_at_leaf-value :
      (f g : StorageInsert) (p : Payload) (path rest : List ℕ)
      → insert_at_leaf f (terminal p path) path rest (LeafOp.value v)
        ≡ insert_at_leaf g (terminal p path) path rest (LeafOp.value v)
  unfolding insert_at_leaf apply_op split place_new terminal
  insert_at_leaf-value f g (value u) path rest = refl
  insert_at_leaf-value f g (fields _ _ _ _) path rest = refl

  split-value :
      (f g : StorageInsert) (path rest : List ℕ) (common : ℕ) (rehomed : List ℕ → Result Node)
      → split f (LeafOp.value v) path rest common rehomed
        ≡ split g (LeafOp.value v) path rest common rehomed
  unfolding split place_new
  split-value f g path rest common rehomed = refl

  insert_at_extension-value :
      (f g : StorageInsert) (path : List ℕ) (child : Node) (rest : List ℕ)
      → (common_prefix path rest ≡ length path
          → f child (drop (length path) rest) (LeafOp.value v)
            ≡ g child (drop (length path) rest) (LeafOp.value v))
      → insert_at_extension f path child rest (LeafOp.value v)
        ≡ insert_at_extension g path child rest (LeafOp.value v)
  unfolding insert_at_extension
  insert_at_extension-value f g path child rest h =
      elim (Bool-cases (common_prefix path rest == length path)) [
        | inl whole ↦
            let e = eqb→eq (common_prefix path rest) (length path) whole in rw (whole, e, h e)
        | inr part ↦ rw part (split-value f g path rest (common_prefix path rest) _)
      ]

  insert_at_branch-value :
      {Good : Payload → Type 0} {k : ℕ} {c : Node} (f g : StorageInsert) (cs : Slots) (i : ℕ)
      (rest : List ℕ)
      → slot_at cs i ≡ some c
      → Trie Good k c
      → f c rest (LeafOp.value v) ≡ g c rest (LeafOp.value v)
      → insert_at_branch f cs (i ∷ rest) (LeafOp.value v)
        ≡ insert_at_branch g cs (i ∷ rest) (LeafOp.value v)
  unfolding insert_at_branch
  insert_at_branch-value f g cs i rest hit t e = rw (
    hit,
    insert_in_slot-child f rest (LeafOp.value v) t,
    insert_in_slot-child g rest (LeafOp.value v) t,
    e,
  )

  pub insert_value-fuel :
      {Good : Payload → Type 0} {h : ℕ} {n : Node}
      → Trie Good h n
      → (f g : ℕ) (rest : List ℕ) → length rest ≡ h
      → h < f
      → h < g
      → record_node_insert f n rest (LeafOp.value v) ≡ record_node_insert g n rest (LeafOp.value v)
  insert_value-fuel t zero g rest e a b = absurd (omega arith)
  insert_value-fuel t (suc f) zero rest e a b = absurd (omega arith)
  insert_value-fuel nothing (suc f) (suc g) rest e a b =
      rw (step f empty rest (LeafOp.value v) refl, step g empty rest (LeafOp.value v) refl)
        (unfold insert_expanded place_new in refl)
  insert_value-fuel (single p path good nib e') (suc f) (suc g) rest e a b =
      insert_expanded-terminal f p path rest (LeafOp.value v)
      ∙ insert_at_leaf-value (record_node_insert f) (record_node_insert g) p path rest
      ∙ sym (insert_expanded-terminal g p path rest (LeafOp.value v))
  insert_value-fuel {h = h} (along k n path child nib e' br t) (suc f) (suc g) rest e a b =
      let below =
        insert_value-fuel {h = k} t f g (drop (length (n ∷ path)) rest)
          (omega (arith, length-drop (length (n ∷ path)) rest)) (omega arith) (omega arith) in
      rw
        (
          step f (make_extension (n ∷ path) child) rest (LeafOp.value v)
              (unfold make_extension in refl),
          step g (make_extension (n ∷ path) child) rest (LeafOp.value v)
              (unfold make_extension in refl),
          expanded_extension f (n ∷ path) child rest (LeafOp.value v),
          expanded_extension g (n ∷ path) child rest (LeafOp.value v),
        )
        (insert_at_extension-value _ _ (n ∷ path) child rest (λ c. below))
  insert_value-fuel (fork k cs nref eh sz occ mk ne ts) (suc f) (suc g) [] e a b =
      absurd (omega arith)
  insert_value-fuel {h = h} (fork k cs nref eh sz occ mk ne ts) (suc f) (suc g) (i ∷ rest) e a b =
      let below = λ (c : Node) (hit : slot_at cs i ≡ some c).
        insert_value-fuel {h = k} (ts i c hit) f g rest (omega arith) (omega arith) (omega arith) in
      rw
        (
          step f (branch cs nref) (i ∷ rest) (LeafOp.value v) refl,
          step g (branch cs nref) (i ∷ rest) (LeafOp.value v) refl,
          expanded_branch f cs nref (i ∷ rest) (LeafOp.value v),
          expanded_branch g cs nref (i ∷ rest) (LeafOp.value v),
        )
        (elim (Option-cases (slot_at cs i)) [
          | inl miss ↦ unfold insert_at_branch insert_in_slot place_new in rw miss
          | inr (c, hit) ↦ insert_at_branch-value _ _ cs i rest hit (ts i c hit) (below c hit)
        ])
  insert_value-fuel {h = h} (sliced buf off len n parse cut nr ne t) (suc f) (suc g) rest e a b =
      rw
        (
          step_raw f buf off len (hash_node n) n rest (LeafOp.value v) parse nr,
          step_raw g buf off len (hash_node n) n rest (LeafOp.value v) parse nr,
        )
        (insert_value-fuel {h = h} t (suc f) (suc g) rest e a b)
