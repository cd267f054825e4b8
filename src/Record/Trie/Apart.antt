-- ===== src/Record/Trie/Apart.antt =====
-- Trees of different shapes hold different keys (src/lib.rs: why the canonical form is unique).
use mpt_flat_poc.Prelude.{
  ℕ, suc, ◌+◌, ◌<◌, ◌≡◌, refl, sym, ◌∙◌, ◌≢◌, true, Bool-cases, inl, inr, none, List, [], ◌∷◌, ◌++◌,
  length, length-append, arith, list_eqb→eq, list_eqb, eqb→eq, ◌==◌, append-nil, append_assoc,
}
use mpt_flat_poc.Externals.{Externals}
use mpt_flat_poc.Node.{Node, make_extension}
use mpt_flat_poc.Record.Paths.{View, covers, parts}
use mpt_flat_poc.Record.Trie.{Payload, Trie, nothing, single, along, fork, sliced, terminal, look}
use mpt_flat_poc.Node.Access.{is_branch}
use mpt_flat_poc.Record.Trie.Look.{look-single}
use mpt_flat_poc.Record.Trie.Insert.{is_branch-terminal}
use mpt_flat_poc.Record.Trie.Descend.{is_branch-extension, not_empty_branch, look_path}
use mpt_flat_poc.Record.Trie.Under.{
  Holds, under, under_self, under-append, look-extension, under_elsewhere,
}
use mpt_flat_poc.Record.Trie.Keys.{Key, TwoKeys, two_keys, a-Key}

-- A key below a prefix begins with it.
under_first :
    (n : ℕ) (path : List ℕ) (F : Holds) (i : ℕ) (j : List ℕ)
    → under (n ∷ path) F (i ∷ j) ≢ none
    → i ≡ n
unfolding under
under_first n path F i j h = elim (Bool-cases (i == n)) [
  | inl same ↦ eqb→eq i n same
  | inr differ ↦ absurd (h (rw (differ, under)))
]

append_first : (pre : List ℕ) (i j : ℕ) (u w : List ℕ) → pre ++ (i ∷ u) ≡ pre ++ (j ∷ w) → i ≡ j
append_first [] i j u w e = cc
append_first (n ∷ pre) i j u w e = append_first pre i j u w (cc)

module _ ⦃x : Externals⦄ where
  pub single_key : (p : Payload) (path j : List ℕ) → look (terminal p path) j ≢ none → j ≡ path
  single_key p path j h = elim (Bool-cases (list_eqb j path)) [
    | inl same ↦ list_eqb→eq j path same
    | inr differ ↦ absurd (h (rw (look-single p path j, differ)))
  ]

  -- A leaf does not hold two keys that part behind a prefix.
  pub single_not_two :
      (p : Payload) (path pre : List ℕ) (i j : ℕ) (u w : List ℕ)
      → i ≢ j
      → look (terminal p path) (pre ++ (i ∷ u)) ≢ none
      → look (terminal p path) (pre ++ (j ∷ w)) ≢ none
      → ⊥
  single_not_two p path pre i j u w ne hu hw = ne (
      append_first pre i j u w
        (single_key p path (pre ++ (i ∷ u)) hu ∙ sym (single_key p path (pre ++ (j ∷ w)) hw)))

module _ ⦃x : Externals⦄ {Good : Payload → Type 0} where
  pub branch_keys :
      {h : ℕ} {n : Node} → Trie Good h n → is_branch n ≡ true → (k : ℕ) × (h ≡ suc k) × TwoKeys k n
  branch_keys nothing br = cc
  branch_keys (single p path good nib e) br = cc (is_branch-terminal p path)
  branch_keys (along k n path child nib e b t) br = cc (is_branch-extension (n ∷ path) child)
  branch_keys (fork k cs nref eh sz occ mk nes ts) br = (k, eh, two_keys cs nref occ nes ts)
  branch_keys (sliced buf off len n parse cut nr ne t) br = cc

  -- An extension does not hold two keys with different first nibbles.
  pub extension_not_two :
      {k : ℕ} (n : ℕ) (path : List ℕ) (child : Node) (i j : ℕ) (u w : List ℕ)
      → Trie Good k child
      → length (n ∷ path) + k ≡ length (i ∷ u)
      → length (n ∷ path) + k ≡ length (j ∷ w)
      → i ≢ j
      → look (make_extension (n ∷ path) child) (i ∷ u) ≢ none
      → look (make_extension (n ∷ path) child) (j ∷ w) ≢ none
      → ⊥
  extension_not_two n path child i j u w t eu ew ne hu hw = ne (
      under_first n path (look child) i u
        (rw (look-extension {Good = Good} n path (i ∷ u) t eu) at hu)
      ∙ sym (
          under_first n path (look child) j w
            (rw (look-extension {Good = Good} n path (j ∷ w) t ew) at hw)))

  -- Two extensions that hold the same keys have one path.
  pub path_unique :
      {k l h : ℕ} (c d : Node) {path other : List ℕ}
      → View path other
      → 0 < length path
      → 0 < length other
      → length path + k ≡ h
      → length other + l ≡ h
      → is_branch c ≡ true
      → Trie Good k c
      → Trie Good l d
      → ((j : List ℕ)
          → length j ≡ h
          → look (make_extension path c) j ≡ look (make_extension other d) j)
      → path ≡ other
  path_unique c d (covers path []) pos pos' e e' br t t' same = sym (append-nil path)
  path_unique {k} {l} {h} c d (covers path (a ∷ tail)) pos pos' e e' br t t' same =
      let (k', ek, two) = branch_keys t br in
      absurd (
        two.apart (
          follows (two.i ∷ two.u) two.i two.u refl (omega (arith, two.len_u)) two.held_u
          ∙ sym (follows (two.j ∷ two.w) two.j two.w refl (omega (arith, two.len_w)) two.held_w)))
    where
      follows :
          (key : List ℕ) (i : ℕ) (u : List ℕ)
          → key ≡ i ∷ u
          → length (i ∷ u) ≡ k
          → look c (i ∷ u) ≢ none
          → i ≡ a
      follows key i u q len held = under_first a tail (look d) i u (
          rw
            (
              ← under_self path (i ∷ u) (under (a ∷ tail) (look d)),
              ← under-append path (a ∷ tail) (look d) (path ++ (i ∷ u)),
              ← look_path (path ++ (a ∷ tail)) (path ++ (i ∷ u)) pos' t' whole,
              ← same (path ++ (i ∷ u)) whole',
              look_path path (path ++ (i ∷ u)) pos t whole'',
              under_self path (i ∷ u) (look c),
            )
            held)
        where
          whole : length (path ++ (a ∷ tail)) + l ≡ length (path ++ (i ∷ u))
          whole = omega (arith, length-append {0} path (i ∷ u))

          whole' : length (path ++ (i ∷ u)) ≡ h
          whole' = omega (arith, length-append {0} path (i ∷ u))

          whole'' : length path + k ≡ length (path ++ (i ∷ u))
          whole'' = omega (arith, length-append {0} path (i ∷ u))
  path_unique {k} {l} {h} c d (parts pre a b p r ne) pos pos' e e' br t t' same =
      absurd (held_there (under_elsewhere pre a b r (p ++ below.key) (look d) ne))
    where
      below : Key k c
      below = a-Key t (not_empty_branch c br)

      key : List ℕ
      key = (pre ++ (a ∷ p)) ++ below.key

      len_c : length (pre ++ (a ∷ p)) + k ≡ length key
      len_c = omega (arith, length-append {0} (pre ++ (a ∷ p)) below.key, below.len)

      len_d : length (pre ++ (b ∷ r)) + l ≡ length key
      len_d = omega (arith, len_c)

      held_here : look (make_extension (pre ++ (a ∷ p)) c) key ≢ none
      held_here =
          rw
            (
              look_path (pre ++ (a ∷ p)) key pos t len_c,
              under_self (pre ++ (a ∷ p)) below.key (look c),
            )
            below.held

      held_there : under (pre ++ (b ∷ r)) (look d) (pre ++ (a ∷ (p ++ below.key))) ≢ none
      held_there =
          rw
            (
              ← append_assoc pre (a ∷ p) below.key,
              ← look_path (pre ++ (b ∷ r)) key pos' t' len_d,
              ← same key (omega (arith, len_c)),
            )
            held_here
