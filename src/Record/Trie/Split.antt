-- ===== src/Record/Trie/Split.antt =====
-- src/lib.rs: the branch that an insert makes where the new key leaves an old path.
use mpt_flat_poc.Prelude.{
  ℕ, suc, ◌+◌, ◌<◌, ◌≡◌, refl, ◌≢◌, ◌∙◌, sym, Bool, true, false, none, some, some, List, [], ◌∷◌,
  ◌++◌, length, arith, subst, ◌==◌, list_eqb, if◌then◌else◌, ne→eqb,
}
use mpt_flat_poc.Externals.{Externals}
use mpt_flat_poc.Node.{
  Node, make_extension, branch, Slots, slot_at, fill_slot, empty_box_children, vacant_slots, size,
}
use mpt_flat_poc.Node.Access.{
  size-fill_slot, slot_at-fill_slot, size-vacant_slots, slot_at-vacant_slots, occupied,
  occupied-fill_slot, occupied-vacant_slots,
}
use mpt_flat_poc.Node.BranchRef.{slots_ref, make_branch_lem}
use mpt_flat_poc.Record.Ops.{LeafOp}
use mpt_flat_poc.Record.Insert.{StorageInsert, split, wrap_branch, place_new}
use mpt_flat_poc.Record.Paths.{drop_past, take-append, index-append}
use mpt_flat_poc.Record.Trie.{Payload, Trie, along, fork, terminal, look, Nibbles, value, fields}
use mpt_flat_poc.Node.Access.{is_empty}
use mpt_flat_poc.Record.Trie.Look.{look-single, look-fork}
use mpt_flat_poc.Record.Trie.Under.{
  under, put, under-cong, under-put, look-extension, under-append, put-cong,
}
use mpt_flat_poc.Result.{Result, ok}

-- Two children in an empty branch.
pair : ℕ → Node → ℕ → Node → Slots
pair a old b new = fill_slot (fill_slot empty_box_children a old) b new

size-pair : (a b : ℕ) (old new : Node) → size (pair a old b new) ≡ 16
unfolding pair empty_box_children
size-pair a b old new = size-fill_slot _ b new ∙ size-fill_slot _ a old ∙ size-vacant_slots 16

slot_at-pair :
    (a b i : ℕ) (old new : Node)
    → a < 16
    → b < 16
    → slot_at (pair a old b new) i
      ≡ (if b == i then some new else if a == i then some old else none)
unfolding pair empty_box_children
slot_at-pair a b i old new ha hb = rw (
  slot_at-fill_slot (fill_slot (vacant_slots 16) a old) b i new
      (omega (arith, size-fill_slot (vacant_slots 16) a old, size-vacant_slots 16)),
  slot_at-fill_slot (vacant_slots 16) a i old (omega (arith, size-vacant_slots 16)),
  slot_at-vacant_slots 16 i,
)

occupied-pair :
    (a b : ℕ) (old new : Node) → a < 16 → b < 16 → a ≢ b → occupied (pair a old b new) ≡ 2
unfolding pair empty_box_children
occupied-pair a b old new ha hb ne = omega (
  arith,
  occupied-vacant_slots 16,
  rw slot_at-vacant_slots at
      (occupied-fill_slot (vacant_slots 16) a old (omega (arith, size-vacant_slots 16))),
  second,
)
  where
    vacant_b : slot_at (fill_slot (vacant_slots 16) a old) b ≡ none
    vacant_b = rw (
      slot_at-fill_slot (vacant_slots 16) a b old (omega (arith, size-vacant_slots 16)),
      ne→eqb a b ne,
      slot_at-vacant_slots 16 b,
    )

    second :
        occupied (fill_slot (fill_slot (vacant_slots 16) a old) b new) + 0
        ≡ occupied (fill_slot (vacant_slots 16) a old) + 1
    second = rw vacant_b at (
        occupied-fill_slot (fill_slot (vacant_slots 16) a old) b new
          (omega (arith, size-fill_slot (vacant_slots 16) a old, size-vacant_slots 16)))

module _ ⦃x : Externals⦄ where
  pub is_empty-terminal : (p : Payload) (path : List ℕ) → is_empty (terminal p path) ≡ false
  unfolding terminal
  is_empty-terminal (value v) path = refl
  is_empty-terminal (fields nonce balance code_hash storage) path = refl

  -- The tree that a split builds.
  pub forked : List ℕ → ℕ → Node → ℕ → Node → Node
  forked [] a old b new = branch (pair a old b new) (slots_ref (pair a old b new))
  forked (n ∷ pre) a old b new =
      make_extension (n ∷ pre) (branch (pair a old b new) (slots_ref (pair a old b new)))

  pub is_empty-forked :
      (pre : List ℕ) (a b : ℕ) (old new : Node) → is_empty (forked pre a old b new) ≡ false
  unfolding forked make_extension
  is_empty-forked [] a b old new = refl
  is_empty-forked (n ∷ pre) a b old new = refl

  wrap_branch-forked :
      (pre : List ℕ) (a b : ℕ) (p : List ℕ) (old new : Node)
      → wrap_branch
          (pre ++ (a ∷ p))
          (length pre)
          (branch (pair a old b new) (slots_ref (pair a old b new)))
        ≡ forked pre a old b new
  unfolding wrap_branch forked
  wrap_branch-forked [] a b p old new = refl
  wrap_branch-forked (n ∷ pre) a b p old new =
      rw (ne→eqb (suc (length pre)) 0 (omega arith), take-append pre (a ∷ p))

  pub split_lem :
      (insert : StorageInsert) (op : LeafOp) (pre : List ℕ) (a b : ℕ) (p r : List ℕ)
      (rehomed : List ℕ → Result Node) (old new : Node)
      → rehomed p ≡ ok old
      → place_new insert op r ≡ ok new
      → split insert op (pre ++ (a ∷ p)) (pre ++ (b ∷ r)) (length pre) rehomed
        ≡ ok (forked pre a old b new)
  unfolding split pair
  split_lem insert op pre a b p r rehomed old new eo en =
      rw (index-append pre a p, drop_past pre a p, eo, index-append pre b r, drop_past pre b r, en)
        (rw (make_branch_lem (pair a old b new) (size-pair a b old new))
          (rw (wrap_branch-forked pre a b p old new)))

pair-filled :
    (P : Node → Type 0) (a b : ℕ) (old new : Node)
    → a < 16
    → b < 16
    → P old
    → P new
    → (i : ℕ) (c : Node) → slot_at (pair a old b new) i ≡ some c
    → P c
pair-filled P a b old new ha hb po pn i c e =
    pick (b == i) (a == i) (sym (slot_at-pair a b i old new ha hb) ∙ e)
  where
    pick : (s t : Bool) → (if s then some new else if t then some old else none) ≡ some c → P c
    pick true t q = subst P (cc) pn
    pick false true q = subst P (cc) po
    pick false false q = cc

module _ ⦃x : Externals⦄ {Good : Payload → Type 0} where
  pair-Trie :
      {k : ℕ} (a b : ℕ) (old new : Node)
      → a < 16
      → b < 16
      → a ≢ b
      → is_empty old ≡ false
      → is_empty new ≡ false
      → Trie Good k old
      → Trie Good k new
      → Trie Good (suc k) (branch (pair a old b new) (slots_ref (pair a old b new)))
  pair-Trie {k} a b old new ha hb ne eo en to tn =
      let size_ok = size-pair a b old new in
      fork k _ _ refl size_ok (omega (arith, occupied-pair a b old new ha hb ne))
        (make_branch_lem _ size_ok) (pair-filled (λ c. is_empty c ≡ false) a b old new ha hb eo en)
        (pair-filled (Trie Good k) a b old new ha hb to tn)

  pub forked-Trie :
      {k h : ℕ} (pre : List ℕ) (a b : ℕ) (old new : Node)
      → Nibbles pre
      → a < 16
      → b < 16
      → a ≢ b
      → is_empty old ≡ false
      → is_empty new ≡ false
      → Trie Good k old
      → Trie Good k new
      → length pre + suc k ≡ h
      → Trie Good h (forked pre a old b new)
  unfolding forked
  forked-Trie {k} {h} [] a b old new nib ha hb ne eo en to tn e =
      subst (λ m. Trie Good m (branch (pair a old b new) (slots_ref (pair a old b new))))
        (let q : suc k ≡ h = omega arith in q) (pair-Trie a b old new ha hb ne eo en to tn)
  forked-Trie {k} (n ∷ pre) a b old new nib ha hb ne eo en to tn e =
      along (suc k) n pre _ nib e refl (pair-Trie a b old new ha hb ne eo en to tn)

  -- What the fork holds: the new payload, and the old tree below its prefix.
  pair-look :
      {k : ℕ} (a b : ℕ) (r : List ℕ) (old : Node) (new : Payload)
      → a < 16
      → b < 16
      → a ≢ b
      → Trie Good k old
      → Trie Good k (terminal new r)
      → (j : List ℕ) → length j ≡ suc k
      → look (branch (pair a old b (terminal new r)) (slots_ref (pair a old b (terminal new r)))) j
        ≡ put (b ∷ r) new (under (a ∷ []) (look old)) j
  unfolding put under list_eqb
  pair-look a b r old new ha hb ne to tn [] e = absurd (omega arith)
  pair-look {k} a b r old new ha hb ne to tn (i ∷ j) e =
      rw
        (
          look-fork {Good = Good} {k = k} _ _ i j
              (pair-filled (Trie Good k) a b old (terminal new r) ha hb to tn) (omega arith),
          slot_at-pair a b i old (terminal new r) ha hb,
        )
        (ground (arith, look-single new r j))

  pub forked-look :
      {k h : ℕ} (pre : List ℕ) (a b : ℕ) (r : List ℕ) (old : Node) (new : Payload)
      → Nibbles pre
      → a < 16
      → b < 16
      → a ≢ b
      → is_empty old ≡ false
      → Trie Good k old
      → Trie Good k (terminal new r)
      → length pre + suc k ≡ h
      → (j : List ℕ) → length j ≡ h
      → look (forked pre a old b (terminal new r)) j
        ≡ put (pre ++ (b ∷ r)) new (under (pre ++ (a ∷ [])) (look old)) j
  unfolding forked
  forked-look [] a b r old new nib ha hb ne eo to tn e j ej =
      pair-look a b r old new ha hb ne to tn j (omega arith)
  forked-look {k} (n ∷ pre) a b r old new nib ha hb ne eo to tn e j ej =
      look-extension {Good = Good} {k = suc k} n pre j forkable (omega arith)
      ∙ under-cong (n ∷ pre) _ _ (suc k) (pair-look a b r old new ha hb ne to tn) j (omega arith)
      ∙ under-put (n ∷ pre) (b ∷ r) new (under (a ∷ []) (look old)) j
      ∙ put-cong (n ∷ (pre ++ (b ∷ r))) new (under (n ∷ pre) (under (a ∷ []) (look old)))
          (under (n ∷ (pre ++ (a ∷ []))) (look old)) j
          (sym (under-append (n ∷ pre) (a ∷ []) (look old) j))
    where
      forkable :
          Trie Good
            (suc k)
            (branch (pair a old b (terminal new r)) (slots_ref (pair a old b (terminal new r))))
      forkable = pair-Trie a b old (terminal new r) ha hb ne eo (is_empty-terminal new r) to tn
