-- ===== src/Frontier/Extended.antt =====
-- src/lib.rs: a record with an extension over a branch, promoted into the frontier.
use mpt_flat_poc.Prelude.{
  ℕ, zero, suc, ◌+◌, ◌*◌, ◌<◌, ◌≤◌, ◌≡◌, refl, sym, ◌∙◌, ap, none, List, [], ◌∷◌, ◌++◌, length,
  length-append, drop, arith,
}
use mpt_flat_poc.Externals.{Externals}
use mpt_flat_poc.Node.{NodeRef, hash, Slots, branch, hash_node, finalize}
use mpt_flat_poc.Codec.Size.{PathFits}
use mpt_flat_poc.Frontier.{ram_branch, RamChild, ram, hash_ram, ram_child_hash}
use mpt_flat_poc.Frontier.Get.{ram_get, ram_get_child}
use mpt_flat_poc.Frontier.Promote.{promote_to_mem, promote_children, ram_wrap}
use mpt_flat_poc.Record.Get.{Store, node_get}
use mpt_flat_poc.Record.Trie.{Trie, along, Nibbles, look}
use mpt_flat_poc.Record.Trie.Look.{slack_le}
use mpt_flat_poc.Record.Trie.Get.{node_get-look, held_value, held-if}
use mpt_flat_poc.Record.Values.{IsValue}
use mpt_flat_poc.Result.{ok}
use mpt_flat_poc.Node.{ext_ref, make_extension}
use mpt_flat_poc.Frontier.{ram_extension}
use mpt_flat_poc.Frontier.Promoted.{
  local_depth-snoc, Splits, PromotedBranch, promote_children-PromotedBranch,
}
use mpt_flat_poc.Record.Get.{starts_with}
use mpt_flat_poc.Record.Trie.Look.{look-along}
use mpt_flat_poc.Prelude.{length-drop, if◌then◌else◌}
use mpt_flat_poc.Codec.Holds.{drop-drop}

Nibbles-drop : (m : ℕ) (xs : List ℕ) → Nibbles xs → Nibbles (drop m xs)
Nibbles-drop zero [] ns = ns
Nibbles-drop zero (x ∷ xs) ns = ns
Nibbles-drop (suc m) [] ns = ns
Nibbles-drop (suc m) (x ∷ xs) ns = Nibbles-drop m xs ns.1

module _ ⦃x : Externals⦄ (wide : (bytes : List ℕ) → length (x.keccak256 bytes) ≡ 32)
    (prefix : List ℕ) (n : ℕ) (path : List ℕ) (fits : PathFits (prefix ++ (n ∷ path)))
    (short : length (prefix ++ (n ∷ path)) < 64) (k : ℕ) (kb : k ≤ 128) where
  -- A record with an extension over a branch that is a canonical value trie of paths of at most 129
  -- nibbles, promoted at a prefix of at least one nibble where the branch stands behind less than 64
  -- nibbles: the branch's reference and every child's is a hash, every child fits a record, and
  -- keccak256 gives 32 bytes. The frontier node that takes its place has the record's root, and a
  -- read of a key below the prefix gives what it gave in the record.
  pub promote_to_mem-extension :
      (store : Store) (g depth : ℕ) (cs : Slots) (nref : NodeRef) (nibbles : List ℕ)
      → length prefix ≡ depth + 1
      → Trie IsValue (suc k) (branch cs nref)
      → nref ≡ hash (finalize nref)
      → Nibbles (n ∷ path)
      → Splits (length (prefix ++ (n ∷ path)) + 1) cs
      → Nibbles (drop (length prefix) nibbles)
      → length (drop (length prefix) nibbles) ≡ length (n ∷ path) + suc k
      → 2 * (length (n ∷ path) + suc k) + 2 ≤ g
      → (c : RamChild) × (promote_to_mem prefix (make_extension (n ∷ path) (branch cs nref)) ≡ ok c)
        × (ram_child_hash c
            ≡ ok (finalize (hash_node (make_extension (n ∷ path) (branch cs nref)))))
        × (ram_get_child store g c nibbles depth
            ≡ node_get store g nibbles
                (make_extension (n ∷ path) (branch cs nref))
                (drop (length prefix) nibbles))
  unfolding promote_to_mem ram_wrap hash_ram hash_node ram_get make_extension
  promote_to_mem-extension store g depth cs nref nibbles d t hashed nib sp nibs e bg =
      let b =
        promote_children-PromotedBranch wide (prefix ++ (n ∷ path)) fits (omega (arith, short))
          (length (prefix ++ (n ∷ path))) (λ i. local_depth-snoc (prefix ++ (n ∷ path)) i short) k
          kb cs nref t sp in
      (
        ram (ram_extension (n ∷ path) (ram_branch b.rcs none) none),
        rw b.made refl,
        rw (b.hashes) (ap (λ r. ok (finalize (ext_ref (n ∷ path) r))) (sym hashed)),
        ap (ram_get store g (ram_extension (n ∷ path) (ram_branch b.rcs none) none) nibbles) (sym d)
            ∙ through b
            ∙ ap (λ o. ok (held_value o))
                (sym (look-along n path (drop (length prefix) nibbles) t (sym e)))
            ∙ sym (
                node_get-look store nibbles (along (suc k) n path (branch cs nref) nib refl refl t)
                  g (drop (length prefix) nibbles) e
                  (omega (arith, bg, slack_le (make_extension (n ∷ path) (branch cs nref))))),
      )
    where
      past :
          drop (length (prefix ++ (n ∷ path))) nibbles
          ≡ drop (length (n ∷ path)) (drop (length prefix) nibbles)
      past =
          ap (λ d. drop d nibbles) (length-append prefix (n ∷ path))
          ∙ sym (drop-drop (length prefix) (length (n ∷ path)) nibbles)

      below :
          (b : PromotedBranch wide
            (prefix ++ (n ∷ path))
            fits
            (omega (arith, short))
            (length (prefix ++ (n ∷ path)))
            (λ i. local_depth-snoc (prefix ++ (n ∷ path)) i short)
            k
            kb
            cs
            nref
            (promote_children (prefix ++ (n ∷ path)) 0 cs))
          (rest : List ℕ)
          → drop (length (n ∷ path)) (drop (length prefix) nibbles) ≡ rest
          → Nibbles rest
          → length rest ≡ suc k
          → ram_get store g (ram_branch b.rcs none) nibbles (length prefix + length (n ∷ path))
            ≡ ok (held_value (look (branch cs nref) rest))
      below b [] at ns e' = absurd (omega (arith, e'))
      below b (idx ∷ rest) at ns e' =
          ap (ram_get store g (ram_branch b.rcs none) nibbles)
            (sym (length-append prefix (n ∷ path)))
          ∙ b.reads store g nibbles idx rest (past ∙ at) ns.0 (omega (arith, e'))
              (omega (arith, bg))

      through :
          (b : PromotedBranch wide
            (prefix ++ (n ∷ path))
            fits
            (omega (arith, short))
            (length (prefix ++ (n ∷ path)))
            (λ i. local_depth-snoc (prefix ++ (n ∷ path)) i short)
            k
            kb
            cs
            nref
            (promote_children (prefix ++ (n ∷ path)) 0 cs))
          → ram_get store g
              (ram_extension (n ∷ path) (ram_branch b.rcs none) none)
              nibbles
              (length prefix)
            ≡ ok (
                held_value (
                  if starts_with (drop (length prefix) nibbles) (n ∷ path)
                  then look
                      (branch cs nref)
                      (drop (length (n ∷ path)) (drop (length prefix) nibbles))
                  else none))
      through b =
          rw
            (below b (drop (length (n ∷ path)) (drop (length prefix) nibbles)) refl
              (Nibbles-drop (length (n ∷ path)) (drop (length prefix) nibbles) nibs)
              (omega (arith, length-drop (length (n ∷ path)) (drop (length prefix) nibbles), e)))
            (held-if (starts_with (drop (length prefix) nibbles) (n ∷ path))
              (look (branch cs nref) (drop (length (n ∷ path)) (drop (length prefix) nibbles))))
