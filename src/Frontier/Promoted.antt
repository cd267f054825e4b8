-- ===== src/Frontier/Promoted.antt =====
-- src/lib.rs: a record promoted into the frontier has the root and the values that it had.
use mpt_flat_poc.Prelude.{
  ℕ, zero, suc, ◌+◌, ◌*◌, ◌<◌, ◌≤◌, ◌≡◌, refl, sym, ◌∙◌, ap, false, none, some, List, [], ◌∷◌, ◌++◌,
  length, length-append, drop, ltb, arith, le→ltb,
}
use mpt_flat_poc.Externals.{Externals}
use mpt_flat_poc.Node.{
  NodeRef, hash, Node, Slots, branch, end, vacant, filled, slot_at, size, hash_node, finalize,
  child_refs, branch_bitmap, branch_ref, branch_node_ref, make_branch,
}
use mpt_flat_poc.Codec.Write.{record_size}
use mpt_flat_poc.Codec.Size.{PathFits}
use mpt_flat_poc.Frontier.{
  ram_branch, RamChild, ram, mem, RamSlots, ram_end, ram_vacant, ram_filled, ram_bitmap, ram_refs,
  hash_ram, ram_child_hash,
}
use mpt_flat_poc.Frontier.Get.{record_get, ram_get, ram_get_at, ram_get_child}
use mpt_flat_poc.Frontier.Promote.{
  make_mem_leaf, max_record_bytes, promote_to_mem, promote_children, ram_wrap,
}
use mpt_flat_poc.Frontier.Leaf.{RewrittenLeaf, make_mem_leaf-RewrittenLeaf, record-node_get}
use mpt_flat_poc.Record.Get.{Store, local_depth, node_get}
use mpt_flat_poc.Record.Trie.{Trie, Nibbles, look, look_in}
use mpt_flat_poc.Record.Trie.Look.{slack_le, look-fork}
use mpt_flat_poc.Record.Trie.Get.{node_get-look, held_value}
use mpt_flat_poc.Record.Trie.Copied.{ref_made}
use mpt_flat_poc.Record.Trie.Parts.{fork_parts}
use mpt_flat_poc.Record.Values.{IsValue}
use mpt_flat_poc.Result.{Result, ok}

PathFits-append : (p : List ℕ) (i : ℕ) → PathFits p → i < 16 → PathFits (p ++ (i ∷ []))
PathFits-append [] i f b = (b, tt)
PathFits-append (n ∷ p) i f b = (f.0, PathFits-append p i f.1 b)

pub length-snoc : (p : List ℕ) (i : ℕ) → length (p ++ (i ∷ [])) ≡ length p + 1
length-snoc p i = length-append p (i ∷ [])

pub local_depth-snoc :
    (p : List ℕ) (i : ℕ) → length p < 64 → local_depth (p ++ (i ∷ [])) ≡ length p + 1
unfolding local_depth
local_depth-snoc p i short =
    rw (le→ltb 64 (length (p ++ (i ∷ []))) (omega (arith, short, length-snoc p i)))
      (length-snoc p i)

drop_next : (n : ℕ) (xs : List ℕ) (y : ℕ) (ys : List ℕ) → drop n xs ≡ y ∷ ys → drop (n + 1) xs ≡ ys
drop_next zero [] y ys e = cc
drop_next zero (z ∷ xs) y ys e = cc
drop_next (suc n) [] y ys e = cc
drop_next (suc n) (z ∷ xs) y ys e =
    let one_more : suc n + 1 ≡ suc (n + 1) = omega arith in rw one_more (drop_next n xs y ys e)

module _ ⦃x : Externals⦄ where
  -- Every child has a hash for its reference, and fits a record behind a prefix of `p` nibbles.
  pub record Splits (p : ℕ) (cs : Slots) : Type 0 where
    pub hashed :
        (i : ℕ) (c : Node) → slot_at cs i ≡ some c → hash_node c ≡ hash (finalize (hash_node c))
    pub small : (i : ℕ) (c : Node) → slot_at cs i ≡ some c → record_size p c ≤ max_record_bytes

  record PromotedSlots (base : ℕ) (k : ℕ) (cs : Slots) (result : Result RamSlots) : Type 0 where
    rcs : RamSlots
    made : result ≡ ok rcs
    refs : ram_refs rcs ≡ ok (child_refs cs)
    bits : ram_bitmap rcs ≡ branch_bitmap cs
    reads :
        (store : Store) (g idx : ℕ) (nibbles : List ℕ) (depth : ℕ)
        → idx < size cs
        → length (drop (base + 1) nibbles) ≡ k
        → 2 * k + 2 ≤ g
        → ram_get_at store g rcs idx nibbles depth
          ≡ ok (held_value (look_in (slot_at cs idx) (drop (base + 1) nibbles)))

  module _ (wide : (bytes : List ℕ) → length (x.keccak256 bytes) ≡ 32) (prefix : List ℕ)
      (fits : PathFits prefix) (long : length prefix < 128) (base : ℕ)
      (deep : (i : ℕ) → local_depth (prefix ++ (i ∷ [])) ≡ base + 1) (k : ℕ) (kb : k ≤ 128) where
    child-Leaf :
        (i : ℕ) (c : Node)
        → i < 16
        → Trie IsValue k c
        → record_size (length prefix + 1) c ≤ max_record_bytes
        → RewrittenLeaf k
            (prefix ++ (i ∷ []))
            c
            (make_mem_leaf (record { prefix = prefix ++ (i ∷ []); node = c }))
    child-Leaf i c b t small =
        make_mem_leaf-RewrittenLeaf wide k (prefix ++ (i ∷ [])) c (PathFits-append prefix i fits b)
          (omega (arith, length-snoc prefix i, long)) t kb
          (rw (length-snoc prefix i) (omega (arith, small)))

    child-read :
        (i : ℕ) (c : Node) (result : Result RamChild)
        → Trie IsValue k c
        → (l : RewrittenLeaf k (prefix ++ (i ∷ [])) c result)
        → (store : Store) (g : ℕ) (nibbles : List ℕ) → length (drop (base + 1) nibbles) ≡ k
        → 2 * k + 2 ≤ g
        → record_get store g nibbles (ok l.bytes)
          ≡ ok (held_value (look c (drop (base + 1) nibbles)))
    child-read i c result t l store g nibbles e b =
        let depth_eq : local_depth l.leaf.sub.prefix ≡ base + 1 =
          ap local_depth l.prefix_eq ∙ deep i in
        record-node_get store g l.leaf nibbles
        ∙ ap (λ d. node_get store g nibbles l.leaf.sub.node (drop d nibbles)) depth_eq
        ∙ l.same store g nibbles (drop (base + 1) nibbles) e b
        ∙ node_get-look store nibbles t g (drop (base + 1) nibbles) e (omega (arith, b, slack_le c))

    vacant-PromotedSlots :
        (cs : Slots) (r : Result RamSlots) (b : PromotedSlots base k cs r)
        → PromotedSlots base k (vacant cs) (ok (ram_vacant b.rcs))
    unfolding ram_refs ram_bitmap branch_bitmap child_refs slot_at size ram_get_at
    vacant-PromotedSlots cs r b = record {
      rcs = ram_vacant b.rcs;
      made = refl;
      refs = b.refs;
      bits = omega (arith, b.bits);
      reads = reads;
    }
      where
        reads :
            (store : Store) (g idx : ℕ) (nibbles : List ℕ) (depth : ℕ)
            → idx < size (vacant cs)
            → length (drop (base + 1) nibbles) ≡ k
            → 2 * k + 2 ≤ g
            → ram_get_at store g (ram_vacant b.rcs) idx nibbles depth
              ≡ ok (held_value (look_in (slot_at (vacant cs) idx) (drop (base + 1) nibbles)))
        reads store g zero nibbles depth lt e bg = refl
        reads store g (suc idx) nibbles depth lt e bg =
            b.reads store g idx nibbles depth (omega (arith, lt)) e bg

    filled-PromotedSlots :
        (i : ℕ) (c : Node) (cs : Slots)
        → hash_node c ≡ hash (finalize (hash_node c))
        → Trie IsValue k c
        → (result : Result RamChild) (l : RewrittenLeaf k (prefix ++ (i ∷ [])) c result)
        → (r : Result RamSlots) (b : PromotedSlots base k cs r)
        → PromotedSlots base k
            (filled c cs)
            (ok (ram_filled (mem l.bytes (finalize (hash_node c))) b.rcs))
    unfolding ram_refs ram_bitmap branch_bitmap child_refs slot_at size ram_get_at
    filled-PromotedSlots i c cs hashed t result l r b = record {
      rcs = ram_filled (mem l.bytes (finalize (hash_node c))) b.rcs;
      made = refl;
      refs = rw (b.refs) (ap (λ h. ok (h ∷ child_refs cs)) (sym hashed));
      bits = omega (arith, b.bits);
      reads = reads;
    }
      where
        reads :
            (store : Store) (g idx : ℕ) (nibbles : List ℕ) (depth : ℕ)
            → idx < size (filled c cs)
            → length (drop (base + 1) nibbles) ≡ k
            → 2 * k + 2 ≤ g
            → ram_get_at store g
                (ram_filled (mem l.bytes (finalize (hash_node c))) b.rcs)
                idx
                nibbles
                depth
              ≡ ok (held_value (look_in (slot_at (filled c cs) idx) (drop (base + 1) nibbles)))
        reads store g zero nibbles depth lt e bg = child-read i c result t l store g nibbles e bg
        reads store g (suc idx) nibbles depth lt e bg =
            b.reads store g idx nibbles depth (omega (arith, lt)) e bg

    promote_children-PromotedSlots :
        (i : ℕ) (cs : Slots)
        → i + size cs ≡ 16
        → Splits (length prefix + 1) cs
        → ((j : ℕ) (c : Node) → slot_at cs j ≡ some c → Trie IsValue k c)
        → PromotedSlots base k cs (promote_children prefix i cs)
    unfolding promote_children ram_refs ram_bitmap branch_bitmap child_refs slot_at size ram_get_at
    promote_children-PromotedSlots i end sz sp ts = record {
      rcs = ram_end;
      made = refl;
      refs = refl;
      bits = refl;
      reads = λ store g idx nibbles depth b e bg. absurd (omega (arith, b));
    }
    promote_children-PromotedSlots i (vacant cs) sz sp ts =
        let b =
          promote_children-PromotedSlots (suc i) cs (omega (arith, sz))
            (record { hashed = λ j. sp.hashed (suc j); small = λ j. sp.small (suc j) })
            (λ j. ts (suc j)) in
        rw b.made (vacant-PromotedSlots cs _ b)
    promote_children-PromotedSlots i (filled c cs) sz sp ts =
        let b =
          promote_children-PromotedSlots (suc i) cs (omega (arith, sz))
            (record { hashed = λ j. sp.hashed (suc j); small = λ j. sp.small (suc j) })
            (λ j. ts (suc j)) in
        let l = child-Leaf i c (omega (arith, sz)) (ts 0 c refl) (sp.small 0 c refl) in
        let fits_one : ltb max_record_bytes (record_size (length (prefix ++ (i ∷ []))) c) ≡ false =
          le→ltb _ _ (rw (length-snoc prefix i) (sp.small 0 c refl)) in
        rw (fits_one, l.made, b.made)
          (filled-PromotedSlots i c cs (sp.hashed 0 c refl) (ts 0 c refl) _ l _ b)

    -- A branch promoted at its prefix.
    pub record PromotedBranch (cs : Slots) (nref : NodeRef) (result : Result RamSlots)
        : Type 0 where
      pub rcs : RamSlots
      pub made : result ≡ ok rcs
      pub hashes : hash_ram (ram_branch rcs none) ≡ ok (finalize nref)
      pub reads :
          (store : Store) (g : ℕ) (nibbles : List ℕ) (idx : ℕ) (rest : List ℕ)
          → drop base nibbles ≡ idx ∷ rest
          → idx < 16
          → length rest ≡ k
          → 2 * k + 2 ≤ g
          → ram_get store g (ram_branch rcs none) nibbles base
            ≡ ok (held_value (look (branch cs nref) (idx ∷ rest)))

    pub promote_children-PromotedBranch :
        (cs : Slots) (nref : NodeRef)
        → Trie IsValue (suc k) (branch cs nref)
        → Splits (length prefix + 1) cs
        → PromotedBranch cs nref (promote_children prefix 0 cs)
    unfolding hash_ram ram_get make_branch branch_node_ref
    promote_children-PromotedBranch cs nref t sp =
        let v = fork_parts cs nref t refl in
        let k_eq : v.k ≡ k = omega (arith, v.depth) in
        let b =
          promote_children-PromotedSlots 0 cs (omega (arith, v.sixteen)) sp
            (λ j c hit. rw (← k_eq) (v.below j c hit)) in
        record {
          rcs = b.rcs;
          made = b.made;
          hashes =
              rw
                (
                  b.refs,
                  b.bits,
                  ref_made cs nref (branch_ref (branch_bitmap cs) (child_refs cs)) v.made,
                )
                refl;
          reads = λ store g nibbles idx rest at lt e bg.
              let past : drop (base + 1) nibbles ≡ rest = drop_next base nibbles idx rest at in
              rw at (
                b.reads store g idx nibbles base (omega (arith, v.sixteen, lt)) (ap length past ∙ e)
                  bg
                ∙ ap (λ r. ok (held_value (look_in (slot_at cs idx) r))) past
                ∙ ap (λ o. ok (held_value o))
                    (sym (look-fork cs nref idx rest (λ j c hit. v.below j c hit) (k_eq ∙ sym e))));
        }

  module _ (wide : (bytes : List ℕ) → length (x.keccak256 bytes) ≡ 32) (prefix : List ℕ)
      (fits : PathFits prefix) (short : length prefix < 64) (k : ℕ) (kb : k ≤ 128) where
    -- A record that is a canonical value trie of paths of at most 129 nibbles with a branch on top,
    -- promoted at a prefix of 1 to 63 nibbles: every child's reference is a hash and every child
    -- fits a record, and keccak256 gives 32 bytes. The frontier node that takes its place has the
    -- record's root, and a read of a key below the prefix gives what it gave in the record.
    pub promote_to_mem-branch :
        (store : Store) (g depth : ℕ) (cs : Slots) (nref : NodeRef) (nibbles : List ℕ)
        → length prefix ≡ depth + 1
        → Trie IsValue (suc k) (branch cs nref)
        → Splits (length prefix + 1) cs
        → Nibbles (drop (length prefix) nibbles)
        → length (drop (length prefix) nibbles) ≡ suc k
        → 2 * suc k + 2 ≤ g
        → (c : RamChild) × (promote_to_mem prefix (branch cs nref) ≡ ok c)
          × (ram_child_hash c ≡ ok (finalize (hash_node (branch cs nref))))
          × (ram_get_child store g c nibbles depth
              ≡ node_get store g nibbles (branch cs nref) (drop (length prefix) nibbles))
    unfolding promote_to_mem ram_wrap hash_ram hash_node ram_get
    promote_to_mem-branch store g depth cs nref nibbles d t sp nib e bg =
        let b =
          promote_children-PromotedBranch wide prefix fits (omega (arith, short)) (length prefix)
            (λ i. local_depth-snoc prefix i short) k kb cs nref t sp in
        (
          ram (ram_branch b.rcs none),
          rw b.made refl,
          b.hashes,
          ap (ram_get store g (ram_branch b.rcs none) nibbles) (sym d)
              ∙ at_key b (drop (length prefix) nibbles) refl nib e
              ∙ sym (
                  node_get-look store nibbles t g (drop (length prefix) nibbles) e
                    (omega (arith, bg))),
        )
      where
        at_key :
            (b : PromotedBranch wide prefix fits
              (omega (arith, short))
              (length prefix)
              (λ i. local_depth-snoc prefix i short)
              k
              kb
              cs
              nref
              (promote_children prefix 0 cs))
            (key : List ℕ)
            → drop (length prefix) nibbles ≡ key
            → Nibbles key
            → length key ≡ suc k
            → ram_get store g (ram_branch b.rcs none) nibbles (length prefix)
              ≡ ok (held_value (look (branch cs nref) key))
        at_key b [] at nib' e' = absurd (omega (arith, e'))
        at_key b (idx ∷ rest) at nib' e' =
            b.reads store g nibbles idx rest at nib'.0 (omega (arith, e')) (omega (arith, bg))
