-- ===== src/Record/Trie/Keys.antt =====
-- A canonical tree that is not empty holds a key, and a branch holds two keys that part at its
-- nibble (src/lib.rs: the canonical form that inserts and deletes keep).
use mpt_flat_poc.Prelude.{
  ℕ, suc, ◌+◌, ◌≤◌, ◌≡◌, refl, sym, ◌≢◌, false, none, some, List, ◌∷◌, ◌++◌, length, length-append,
  arith, list_eqb_refl,
}
use mpt_flat_poc.Externals.{Externals}
use mpt_flat_poc.Node.{
  Node, Slots, NodeRef, end, vacant, filled, slot_at, branch, make_extension, hash_node,
}
use mpt_flat_poc.Node.Access.{occupied}
use mpt_flat_poc.Record.Trie.{Payload, Trie, nothing, single, along, fork, sliced, look}
use mpt_flat_poc.Node.Access.{is_empty}
use mpt_flat_poc.Record.Trie.Look.{look-single, look-fork, look-sliced}
use mpt_flat_poc.Record.Trie.Under.{under_self, look-extension}
use mpt_flat_poc.Record.Trie.Descend.{not_empty_branch}

pub record Slot (cs : Slots) : Type 0 where
  pub at : ℕ
  pub child : Node
  pub there : slot_at cs at ≡ some child

pub record TwoSlots (cs : Slots) : Type 0 where
  pub one : Slot cs
  pub two : Slot cs
  pub apart : one.at ≢ two.at

later_vacant : {cs : Slots} → Slot cs → Slot (vacant cs)
later_vacant s = record { at = suc s.at; child = s.child; there = unfold slot_at in s.there }

later_filled : {c : Node} {cs : Slots} → Slot cs → Slot (filled c cs)
later_filled s = record { at = suc s.at; child = s.child; there = unfold slot_at in s.there }

one_slot : (cs : Slots) → 1 ≤ occupied cs → Slot cs
unfolding occupied
one_slot end h = absurd (omega arith)
one_slot (vacant cs) h = later_vacant (one_slot cs h)
one_slot (filled c cs) h = record { at = 0; child = c; there = unfold slot_at in refl }

pub two_slots : (cs : Slots) → 2 ≤ occupied cs → TwoSlots cs
unfolding occupied later_vacant later_filled slot_at
two_slots end h = absurd (omega arith)
two_slots (vacant cs) h =
    let r = two_slots cs h in
    record {
      one = later_vacant r.one;
      two = later_vacant r.two;
      apart = λ e. r.apart (omega arith);
    }
two_slots (filled c cs) h = record {
  one = record { at = 0; child = c; there = refl };
  two = later_filled (one_slot cs (omega arith));
  apart = λ e. omega arith;
}

module _ ⦃x : Externals⦄ where
  pub record Key (h : ℕ) (n : Node) : Type 0 where
    pub key : List ℕ
    pub len : length key ≡ h
    pub held : look n key ≢ none

  pub record TwoKeys (k : ℕ) (n : Node) : Type 0 where
    pub i : ℕ
    pub j : ℕ
    pub apart : i ≢ j
    pub u : List ℕ
    pub w : List ℕ
    pub len_u : length u ≡ k
    pub len_w : length w ≡ k
    pub held_u : look n (i ∷ u) ≢ none
    pub held_w : look n (j ∷ w) ≢ none

module _ ⦃x : Externals⦄ {Good : Payload → Type 0} where
  below_slot :
      {k : ℕ} (cs : Slots) (nref : NodeRef) (i : ℕ) (c : Node) (u : List ℕ)
      → ((j : ℕ) (d : Node) → slot_at cs j ≡ some d → Trie Good k d)
      → slot_at cs i ≡ some c
      → length u ≡ k
      → look c u ≢ none
      → look (branch cs nref) (i ∷ u) ≢ none
  below_slot cs nref i c u ts hit e held =
      rw (look-fork {Good = Good} cs nref i u ts (sym e), hit) held

  Key-below :
      {h k : ℕ} (n : ℕ) (path : List ℕ) (child : Node)
      → Trie Good k child
      → length (n ∷ path) + k ≡ h
      → Key k child
      → Key h (make_extension (n ∷ path) child)
  Key-below n path child t e below = record {
    key = (n ∷ path) ++ below.key;
    len = omega (arith, length-append {0} (n ∷ path) below.key, below.len);
    held =
        rw
          (
            look-extension {Good = Good} n path ((n ∷ path) ++ below.key) t
                (omega (arith, length-append {0} (n ∷ path) below.key, below.len)),
            under_self (n ∷ path) below.key (look child),
          )
          below.held;
  }

  pub a-Key : {h : ℕ} {n : Node} → Trie Good h n → is_empty n ≡ false → Key h n
  a-Key nothing ne = cc
  a-Key (single p path good nib e) ne = record {
    key = path;
    len = e;
    held = rw (look-single p path path, list_eqb_refl path) (λ q. cc);
  }
  a-Key {h = h} (along k n path child nib e br t) ne =
      Key-below n path child t e (a-Key {h = k} t (not_empty_branch child br))
  a-Key {h = h} (fork k cs nref eh sz occ mk nes ts) ne =
      let s = (two_slots cs occ).one in
      let below = a-Key {h = k} (ts s.at s.child s.there) (nes s.at s.child s.there) in
      record {
        key = s.at ∷ below.key;
        len = omega (arith, below.len);
        held = below_slot cs nref s.at s.child below.key ts s.there below.len below.held;
      }
  a-Key {h = h} (sliced buf off len n parse cut nr ne' t) ne =
      let below = a-Key {h = h} t ne' in
      record {
        key = below.key;
        len = below.len;
        held = rw (look-sliced buf off len (hash_node n) below.key parse nr t below.len) below.held;
      }

  pub two_keys :
      {k : ℕ} (cs : Slots) (nref : NodeRef)
      → 2 ≤ occupied cs
      → ((i : ℕ) (c : Node) → slot_at cs i ≡ some c → is_empty c ≡ false)
      → ((i : ℕ) (c : Node) → slot_at cs i ≡ some c → Trie Good k c)
      → TwoKeys k (branch cs nref)
  two_keys {k} cs nref occ nes ts = record {
    i = s.at;
    j = r.at;
    apart = both.apart;
    u = ku.key;
    w = kw.key;
    len_u = ku.len;
    len_w = kw.len;
    held_u = below_slot cs nref s.at s.child ku.key ts s.there ku.len ku.held;
    held_w = below_slot cs nref r.at r.child kw.key ts r.there kw.len kw.held;
  }
    where
      both : TwoSlots cs
      both = two_slots cs occ

      s : Slot cs
      s = both.one

      r : Slot cs
      r = both.two

      ku : Key k s.child
      ku = a-Key (ts s.at s.child s.there) (nes s.at s.child s.there)

      kw : Key k r.child
      kw = a-Key (ts r.at r.child r.there) (nes r.at r.child r.there)
