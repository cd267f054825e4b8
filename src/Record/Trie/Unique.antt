-- ===== src/Record/Trie/Unique.antt =====
-- src/lib.rs: the reference of a canonical tree (`hash_node`) is a function of what it holds.
use mpt_flat_poc.Prelude.{
  ℕ, suc, ◌+◌, ◌<◌, ◌≡◌, refl, sym, ◌∙◌, ap, ◌≢◌, true, false, Option, none, some, List, [], ◌∷◌,
  ◌++◌, length, length-append, arith, subst, list_eqb_refl,
}
use native.Mathlib.Decide.{dec_le}
use mpt_flat_poc.Externals.{Externals}
use mpt_flat_poc.Node.{
  Node, NodeRef, Slots, end, vacant, filled, slot_at, size, make_extension, hash_node, branch, raw,
  empty, ext_ref, make_branch,
}
use mpt_flat_poc.Node.BranchRef.{slot_items, slots_ref, make_branch_lem}
use mpt_flat_poc.Record.Paths.{view}
use mpt_flat_poc.Record.Trie.{
  Payload, Trie, nothing, single, along, fork, sliced, terminal, look, look_in,
}
use mpt_flat_poc.Node.Access.{is_empty, is_branch}
use mpt_flat_poc.Record.Trie.Look.{look-single, look-fork, look-nothing, look-sliced}
use mpt_flat_poc.Record.Trie.Split.{is_empty-terminal}
use mpt_flat_poc.Record.Trie.Descend.{is_empty-extension, look_path}
use mpt_flat_poc.Record.Trie.Under.{under_self, look-extension}
use mpt_flat_poc.Record.Trie.Keys.{a-Key}
use mpt_flat_poc.Record.Trie.Apart.{
  single_not_two, branch_keys, extension_not_two, path_unique, single_key,
}
use mpt_flat_poc.Result.{ok}

module _ ⦃x : Externals⦄ where
  -- The two trees hold the same at every path of `h` nibbles.
  abbrev pub SameHolds : ℕ → Node → Node → Type 0
  SameHolds h n m = (j : List ℕ) → length j ≡ h → look n j ≡ look m j

  abbrev SameSlot : Option Node → Option Node → Type 0
  SameSlot none none = Unit
  SameSlot none (some d) = ⊥
  SameSlot (some c) none = ⊥
  SameSlot (some c) (some d) = hash_node c ≡ hash_node d

  slot_items-eq :
      (cs ds : Slots)
      → size cs ≡ size ds
      → ((i : ℕ) → SameSlot (slot_at cs i) (slot_at ds i))
      → slot_items cs ≡ slot_items ds
  unfolding slot_items size slot_at
  slot_items-eq end end e same = refl
  slot_items-eq end (vacant ds) e same = absurd (omega arith)
  slot_items-eq end (filled d ds) e same = absurd (omega arith)
  slot_items-eq (vacant cs) end e same = absurd (omega arith)
  slot_items-eq (filled c cs) end e same = absurd (omega arith)
  slot_items-eq (vacant cs) (vacant ds) e same =
      rw (slot_items-eq cs ds (omega arith) (λ i. same (suc i)))
  slot_items-eq (vacant cs) (filled d ds) e same = absurd (same 0)
  slot_items-eq (filled c cs) (vacant ds) e same = absurd (same 0)
  slot_items-eq (filled c cs) (filled d ds) e same =
      rw (slot_items-eq cs ds (omega arith) (λ i. same (suc i)), same 0)

  hash_node-extension :
      (path : List ℕ) (child : Node)
      → hash_node (make_extension path child) ≡ ext_ref path (hash_node child)
  unfolding hash_node make_extension
  hash_node-extension path child = refl

  hash_node-branch : (cs : Slots) (nref : NodeRef) → hash_node (branch cs nref) ≡ nref
  unfolding hash_node
  hash_node-branch cs nref = refl

  hash_node-raw :
      (buf : List ℕ) (off len : ℕ) (nref : NodeRef) → hash_node (raw buf off len nref) ≡ nref
  unfolding hash_node
  hash_node-raw buf off len nref = refl

  slots_ref-eq :
      (cs ds : Slots)
      → size cs ≡ size ds
      → ((i : ℕ) → SameSlot (slot_at cs i) (slot_at ds i))
      → slots_ref cs ≡ slots_ref ds
  unfolding slots_ref
  slots_ref-eq cs ds e same = rw (slot_items-eq cs ds e same)

  nref_of :
      (cs : Slots) (nref : NodeRef)
      → size cs ≡ 16
      → make_branch cs ≡ ok (branch cs nref)
      → nref ≡ slots_ref cs
  nref_of cs nref sz mk = cc (make_branch_lem cs sz)

module _ ⦃x : Externals⦄ where
  own : (p : Payload) (path : List ℕ) → look (terminal p path) path ≡ some p
  own p path = rw (look-single p path path, list_eqb_refl path)

  same_singles :
      {h : ℕ} (p q : Payload) (path other : List ℕ)
      → length path ≡ h
      → SameHolds h (terminal p path) (terminal q other)
      → hash_node (terminal p path) ≡ hash_node (terminal q other)
  same_singles p q path other e same = cc (one_path, one_payload)
    where
      one_path : path ≡ other
      one_path = single_key q other path (rw (← same path e, own p path) (λ z. cc))

      one_payload : some p ≡ some q
      one_payload =
          sym (own p path)
          ∙ same path e
          ∙ subst (λ z. look (terminal q other) z ≡ some q) (sym one_path) (own q other)

  flip : {h : ℕ} (n m : Node) → SameHolds h n m → SameHolds h m n
  flip n m same j e = sym (same j e)

module _ ⦃x : Externals⦄ {Good : Payload → Type 0} where
  -- An empty tree is not one that holds a key.
  empty_differs : {h : ℕ} {n : Node} → Trie Good h n → is_empty n ≡ false → SameHolds h empty n → ⊥
  empty_differs t ne same =
      let k = a-Key t ne in k.held (sym (same k.key k.len) ∙ look-nothing k.key)

  single_extension :
      {h k : ℕ} (p : Payload) (path : List ℕ) (n : ℕ) (rest : List ℕ) (child : Node)
      → length (n ∷ rest) + k ≡ h
      → is_branch child ≡ true
      → Trie Good k child
      → SameHolds h (terminal p path) (make_extension (n ∷ rest) child)
      → ⊥
  single_extension {h} {k} p path n rest child e br t same =
      let (k', ek, two) = branch_keys t br in
      single_not_two p path (n ∷ rest) two.i two.j two.u two.w two.apart
        (held (two.i ∷ two.u) (omega (arith, two.len_u)) two.held_u)
        (held (two.j ∷ two.w) (omega (arith, two.len_w)) two.held_w)
    where
      held :
          (j : List ℕ)
          → length j ≡ k
          → look child j ≢ none
          → look (terminal p path) ((n ∷ rest) ++ j) ≢ none
      held j ej hj =
          rw
            (
              same ((n ∷ rest) ++ j) (omega (arith, length-append {0} (n ∷ rest) j)),
              look-extension {Good = Good} n rest ((n ∷ rest) ++ j) t
                  (omega (arith, length-append {0} (n ∷ rest) j)),
              under_self (n ∷ rest) j (look child),
            )
            hj

  single_branch :
      {h : ℕ} (p : Payload) (path : List ℕ) {b : Node}
      → is_branch b ≡ true
      → Trie Good h b
      → SameHolds h (terminal p path) b
      → ⊥
  single_branch p path br t same =
      let (k, ek, two) = branch_keys t br in
      single_not_two p path [] two.i two.j two.u two.w two.apart
        (rw (same (two.i ∷ two.u) (omega (arith, two.len_u))) two.held_u)
        (rw (same (two.j ∷ two.w) (omega (arith, two.len_w))) two.held_w)

  extension_branch :
      {h k : ℕ} (n : ℕ) (rest : List ℕ) (child : Node) {b : Node}
      → length (n ∷ rest) + k ≡ h
      → Trie Good k child
      → is_branch b ≡ true
      → Trie Good h b
      → SameHolds h (make_extension (n ∷ rest) child) b
      → ⊥
  extension_branch n rest child e t br tb same =
      let (k, ek, two) = branch_keys tb br in
      extension_not_two n rest child two.i two.j two.u two.w t (omega (arith, two.len_u))
        (omega (arith, two.len_w)) two.apart
        (rw (same (two.i ∷ two.u) (omega (arith, two.len_u))) two.held_u)
        (rw (same (two.j ∷ two.w) (omega (arith, two.len_w))) two.held_w)

  one_path :
      {h k l : ℕ} (c d : Node) (path other : List ℕ)
      → 0 < length path
      → 0 < length other
      → length path + k ≡ h
      → length other + l ≡ h
      → is_branch c ≡ true
      → is_branch d ≡ true
      → Trie Good k c
      → Trie Good l d
      → SameHolds h (make_extension path c) (make_extension other d)
      → path ≡ other
  one_path c d path other pos pos' e e' br br' t t' same =
      elim (dec_le (length path) (length other)) [
        | yes le ↦ path_unique c d (view path other le) pos pos' e e' br t t' same
        | no gt ↦ sym (
            path_unique d c (view other path (omega arith)) pos' pos e' e br' t' t
              (flip (make_extension path c) (make_extension other d) same))
      ]

  -- Below one path the children hold the same.
  same_children :
      {h k : ℕ} (c d : Node) (path : List ℕ)
      → 0 < length path
      → length path + k ≡ h
      → Trie Good k c
      → Trie Good k d
      → SameHolds h (make_extension path c) (make_extension path d)
      → SameHolds k c d
  same_children {h} {k} c d path pos e t t' same j ej =
      rw
        (
          ← under_self path j (look c),
          ← under_self path j (look d),
          ← look_path path (path ++ j) pos t (omega (arith, length-append {0} path j)),
          ← look_path path (path ++ j) pos t' (omega (arith, length-append {0} path j)),
        )
        (same (path ++ j) (omega (arith, length-append {0} path j)))

  same_slot :
      {k : ℕ} (cs ds : Slots) (nc nd : NodeRef)
      → ((i : ℕ) (c : Node) → slot_at cs i ≡ some c → is_empty c ≡ false)
      → ((i : ℕ) (c : Node) → slot_at cs i ≡ some c → Trie Good k c)
      → ((i : ℕ) (c : Node) → slot_at ds i ≡ some c → is_empty c ≡ false)
      → ((i : ℕ) (c : Node) → slot_at ds i ≡ some c → Trie Good k c)
      → SameHolds (suc k) (branch cs nc) (branch ds nd)
      → ((i : ℕ) (c d : Node)
          → slot_at cs i ≡ some c
          → slot_at ds i ≡ some d
          → SameHolds k c d
          → hash_node c ≡ hash_node d)
      → (i : ℕ) → SameSlot (slot_at cs i) (slot_at ds i)
  same_slot {k} cs ds nc nd nec tc ned td same below i =
      slots (slot_at cs i) (slot_at ds i) refl refl
    where
      at_slot : (u : List ℕ) → length u ≡ k → look_in (slot_at cs i) u ≡ look_in (slot_at ds i) u
      at_slot u e =
          rw
            (
              ← look-fork {Good = Good} cs nc i u tc (sym e),
              ← look-fork {Good = Good} ds nd i u td (sym e),
            )
            (same (i ∷ u) (omega arith))

      slots : (o p : Option Node) → slot_at cs i ≡ o → slot_at ds i ≡ p → SameSlot o p
      slots none none eo ep = tt
      slots none (some d) eo ep =
          let key = a-Key (td i d ep) (ned i d ep) in
          key.held (sym (rw (eo, ep) at (at_slot key.key key.len)))
      slots (some c) none eo ep =
          let key = a-Key (tc i c eo) (nec i c eo) in
          key.held (rw (eo, ep) at (at_slot key.key key.len))
      slots (some c) (some d) eo ep = below i c d eo ep (λ u e. rw (eo, ep) at (at_slot u e))

  -- Two canonical trees that hold the same have the same reference.
  pub hash_node_unique :
      {h : ℕ} {n m : Node}
      → Trie Good h n
      → Trie Good h m
      → SameHolds h n m
      → hash_node n ≡ hash_node m
  hash_node_unique nothing nothing same = refl
  hash_node_unique nothing (single p path good nib e) same =
      absurd (empty_differs (single p path good nib e) (is_empty-terminal p path) same)
  hash_node_unique nothing (along k n path child nib e br t) same =
      absurd
        (empty_differs (along k n path child nib e br t) (is_empty-extension (n ∷ path) child) same)
  hash_node_unique nothing (fork k cs nref eh sz occ mk ne ts) same =
      absurd (empty_differs (fork k cs nref eh sz occ mk ne ts) refl same)
  hash_node_unique (single p path good nib e) nothing same = absurd (
      empty_differs (single p path good nib e) (is_empty-terminal p path)
        (flip (terminal p path) empty same))
  hash_node_unique (single p path good nib e) (single q other good' nib' e') same =
      same_singles p q path other e same
  hash_node_unique (single p path good nib e) (along k n rest child nib' e' br t) same =
      absurd (single_extension p path n rest child e' br t same)
  hash_node_unique (single p path good nib e) (fork k cs nref eh sz occ mk ne ts) same =
      absurd (single_branch p path refl (fork k cs nref eh sz occ mk ne ts) same)
  hash_node_unique (along k n path child nib e br t) nothing same = absurd (
      empty_differs (along k n path child nib e br t) (is_empty-extension (n ∷ path) child)
        (flip (make_extension (n ∷ path) child) empty same))
  hash_node_unique (along k n path child nib e br t) (single q other good nib' e') same = absurd (
      single_extension q other n path child e br t
        (flip (make_extension (n ∷ path) child) (terminal q other) same))
  hash_node_unique {h = h} (along k n path child nib e br t) (along l m other d nib' e' br' t')
        same =
      let q =
        one_path child d (n ∷ path) (m ∷ other) (omega arith) (omega arith) e e' br br' t t' same in
      let kl : l ≡ k = omega (arith, ap length q) in
      let t'' = subst (λ z. Trie Good z d) kl t' in
      let same' =
        subst (λ z. SameHolds h (make_extension (n ∷ path) child) (make_extension z d)) (sym q)
          same in
      rw (
        hash_node-extension (n ∷ path) child,
        hash_node-extension (m ∷ other) d,
        ← q,
        hash_node_unique {h = k} t t''
            (same_children child d (n ∷ path) (omega arith) e t t'' same'),
      )
  hash_node_unique (along k n path child nib e br t) (fork l cs nref eh sz occ mk ne ts) same =
      absurd (extension_branch n path child e t refl (fork l cs nref eh sz occ mk ne ts) same)
  hash_node_unique (fork k cs nref eh sz occ mk ne ts) nothing same =
      absurd
        (empty_differs (fork k cs nref eh sz occ mk ne ts) refl (flip (branch cs nref) empty same))
  hash_node_unique (fork k cs nref eh sz occ mk ne ts) (single q other good nib e) same = absurd (
      single_branch q other refl (fork k cs nref eh sz occ mk ne ts)
        (flip (branch cs nref) (terminal q other) same))
  hash_node_unique (fork k cs nref eh sz occ mk ne ts) (along l n path child nib e br t) same =
      absurd (
        extension_branch n path child e t refl (fork k cs nref eh sz occ mk ne ts)
          (flip (branch cs nref) (make_extension (n ∷ path) child) same))
  hash_node_unique {h = h} (fork k cs nref eh sz occ mk ne ts)
        (fork l ds nref' eh' sz' occ' mk' ne' ts') same =
      let lk : l ≡ k = omega arith in
      let ts'' = λ (i : ℕ) (d : Node) (e : slot_at ds i ≡ some d).
        subst (λ z. Trie Good z d) lk (ts' i d e) in
      let below =
        λ (i : ℕ) (c d : Node) (ec : slot_at cs i ≡ some c) (ed : slot_at ds i ≡ some d)
            (s : SameHolds k c d).
          hash_node_unique {h = k} (ts i c ec) (ts'' i d ed) s in
      rw
        (
          hash_node-branch cs nref,
          hash_node-branch ds nref',
          nref_of cs nref sz mk,
          nref_of ds nref' sz' mk',
        )
        (slots_ref-eq cs ds (sz ∙ sym sz') (
          same_slot cs ds nref nref' ne ts ne' ts''
            (subst (λ z. SameHolds z (branch cs nref) (branch ds nref')) eh same) below))
  hash_node_unique {h = h} (sliced buf off len n parse cut nr ne t) t' same =
      rw (hash_node-raw buf off len (hash_node n)) (
        hash_node_unique {h = h} t t'
          (λ j e. sym (look-sliced buf off len (hash_node n) j parse nr t e) ∙ same j e))
  hash_node_unique {h = h} t (sliced buf off len n parse cut nr ne t') same =
      rw (hash_node-raw buf off len (hash_node n)) (
        hash_node_unique {h = h} t t'
          (λ j e. same j e ∙ look-sliced buf off len (hash_node n) j parse nr t' e))
