-- ===== src/Frontier/Collect/Keys.antt =====
-- src/eth.rs and src/lib.rs: a key, its nibbles, and the key of a path in a canonical trie.
use mpt_flat_poc.Prelude.{
  ℕ, suc, zero, ◌+◌, ◌*◌, ◌/◌, ◌%◌, ◌<◌, ◌≡◌, refl, sym, ◌∙◌, Option, none, some, List, [], ◌∷◌,
  ◌++◌, length, length-drop, drop, arith, Bool-cases, Option-cases, inl, inr, list_eqb, list_eqb→eq,
}
use mpt_flat_poc.Externals.{Externals}
use mpt_flat_poc.Eth.{pack, pack_pairs, key_nibbles}
use mpt_flat_poc.Codec.Holds.{pack_lem}
use mpt_flat_poc.Node.{Node, Slots, end, vacant, filled, slot_at, size}
use mpt_flat_poc.Record.Get.{starts_with}
use mpt_flat_poc.Record.Trie.{
  Payload, Trie, nothing, single, along, fork, sliced, look, look_in, Nibbles,
}
use mpt_flat_poc.Record.Trie.Look.{look-nothing, look-single, look-along, look-fork, look-sliced}
use mpt_flat_poc.Record.Trie.Remove.{starts_with-eq}
use mpt_flat_poc.Record.Values.{Bytes}

pub pack_pairs-key_nibbles : (key : List ℕ) → Bytes key → pack_pairs (key_nibbles key) ≡ key
unfolding pack_pairs key_nibbles
pack_pairs-key_nibbles [] h = refl
pack_pairs-key_nibbles (b ∷ key) h =
    let byte : pack (b / 16) (b % 16) ≡ b =
      pack_lem (b / 16) (b % 16) (omega (arith, h.0)) (omega arith) ∙ (omega arith) in
    rw (byte, pack_pairs-key_nibbles key h.1) refl

pub key_nibbles-pack_pairs :
    (m : ℕ) (path : List ℕ)
    → length path ≡ 2 * m
    → Nibbles path
    → key_nibbles (pack_pairs path) ≡ path
unfolding pack_pairs key_nibbles
key_nibbles-pack_pairs m [] e nib = refl
key_nibbles-pack_pairs m (hi ∷ []) e nib = absurd (omega (arith, e))
key_nibbles-pack_pairs zero (hi ∷ lo ∷ path) e nib = absurd (omega (arith, e))
key_nibbles-pack_pairs (suc m) (hi ∷ lo ∷ path) e nib =
    let byte : pack hi lo ≡ 16 * hi + lo = pack_lem hi lo nib.0 nib.1.0 in
    let high : pack hi lo / 16 ≡ hi = rw byte (omega (arith, nib.1.0)) in
    let low : pack hi lo % 16 ≡ lo = rw byte (omega (arith, nib.1.0)) in
    rw (high, low, key_nibbles-pack_pairs m path (omega (arith, e)) nib.1.1) refl

slot_at-bound : (cs : Slots) (i : ℕ) (c : Node) → slot_at cs i ≡ some c → i < size cs
unfolding slot_at size
slot_at-bound end i c hit = cc
slot_at-bound (vacant cs) zero c hit = cc
slot_at-bound (vacant cs) (suc i) c hit = omega (arith, slot_at-bound cs i c hit)
slot_at-bound (filled d cs) zero c hit = omega arith
slot_at-bound (filled d cs) (suc i) c hit = omega (arith, slot_at-bound cs i c hit)

Nibbles-append : (p q : List ℕ) → Nibbles p → Nibbles q → Nibbles (p ++ q)
Nibbles-append [] q a b = b
Nibbles-append (n ∷ p) q a b = (a.0, Nibbles-append p q a.1 b)

never : {o : Option Payload} {p : Payload} → o ≡ none → o ≡ some p → ⊥
never a b = cc

module _ ⦃x : Externals⦄ where
  -- A canonical trie holds something at nibbles only.
  pub look-Nibbles :
      {Good : Payload → Type 0} {h : ℕ} {n : Node}
      → Trie Good h n
      → (rest : List ℕ) (p : Payload) → length rest ≡ h
      → look n rest ≡ some p
      → Nibbles rest
  look-Nibbles nothing rest p e hit = absurd (never (look-nothing rest) hit)
  look-Nibbles (single q path good nib len) rest p e hit = elim (Bool-cases (list_eqb rest path)) [
    | inl same ↦ rw (list_eqb→eq rest path same) nib
    | inr other ↦ absurd (never (look-single q path rest ∙ rw other refl) hit)
  ]
  look-Nibbles {Good} {h} (along k n path child nib len br t) rest p e hit =
      elim (Bool-cases (starts_with rest (n ∷ path))) [
        | inl starts ↦
            let left : List ℕ = drop (length (n ∷ path)) rest in
            let inner : look child left ≡ some p =
              sym (look-along n path rest t (omega (arith, e, len)) ∙ rw starts refl) ∙ hit in
            rw (starts_with-eq rest (n ∷ path) starts) (
              Nibbles-append (n ∷ path) left nib (
                look-Nibbles {h = k} t left p
                  (omega (arith, length-drop (length (n ∷ path)) rest, e, len)) inner))
        | inr other ↦
            absurd (never (look-along n path rest t (omega (arith, e, len)) ∙ rw other refl) hit)
      ]
  look-Nibbles (fork k cs nref eh sz occ mk full ts) [] p e hit = absurd (omega arith)
  look-Nibbles {Good} {h} (fork k cs nref eh sz occ mk full ts) (i ∷ rest) p e hit =
      let below : look_in (slot_at cs i) rest ≡ some p =
        sym (look-fork cs nref i rest ts (omega (arith, e, eh))) ∙ hit in
      elim (Option-cases (slot_at cs i)) [
        | inl miss ↦ absurd (never (rw miss refl) below)
        | inr (c, there) ↦ (
          omega (arith, slot_at-bound cs i c there, sz),
          look-Nibbles {h = k} (ts i c there) rest p (omega (arith, e, eh)) (rw there at below),
        )
      ]
  look-Nibbles {Good} {h} (sliced buf off len n parse cut nr full t) rest p e hit =
      look-Nibbles {h = h} t rest p e (sym (look-sliced buf off len _ rest parse nr t e) ∙ hit)
