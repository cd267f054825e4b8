-- ===== src/Record/Trie/GetStorage.antt =====
-- src/lib.rs: `node_get_storage` returns what the account at the key holds at the slot.
use mpt_flat_poc.Prelude.{
  ℕ, zero, suc, ◌+◌, ◌*◌, ◌<◌, ◌≡◌, refl, Option, none, some, List, [], ◌∷◌, length, length-drop,
  drop, arith, list_eqb, Option-cases, inl, inr, if◌then◌else◌, Bool, true, false,
}
use mpt_flat_poc.Externals.{Externals}
use mpt_flat_poc.Eth.{key_nibbles}
use mpt_flat_poc.Node.{Node, make_extension, slot_at}
use mpt_flat_poc.Record.Get.{Store, node_get_storage, starts_with}
use mpt_flat_poc.Record.Trie.{
  Payload, Trie, nothing, single, along, fork, sliced, terminal, value, fields, look,
}
use mpt_flat_poc.Record.Trie.Look.{
  slack, slack_le, look-nothing, look-single, look-along, look-fork, look-sliced,
}
use mpt_flat_poc.Record.Trie.Get.{node_get-look, held_value}
use mpt_flat_poc.Record.Values.{IsValue, length-key_nibbles}
use mpt_flat_poc.Result.{Result, ok}

module _ ⦃x : Externals⦄ where
  -- A structured account, its storage a canonical value trie over 64-nibble slot keys.
  abbrev pub IsAccount : Payload → Type 0
  IsAccount (value v) = ⊥
  IsAccount (fields nonce balance code_hash storage) = Trie IsValue 64 storage

  -- The value that a payload's storage holds at a slot.
  abbrev pub held_slot : List ℕ → Option Payload → Option (List ℕ)
  held_slot slot none = none
  held_slot slot (some (value v)) = none
  held_slot slot (some (fields nonce balance code_hash storage)) =
      held_value (look storage (key_nibbles slot))

  slot-if :
      (slot : List ℕ) (b : Bool) (o : Option Payload)
      → (if b then (let r : Result (Option (List ℕ)) = ok (held_slot slot o) in r) else ok none)
        ≡ ok (held_slot slot (if b then o else none))
  slot-if slot true o = refl
  slot-if slot false o = refl

module _ ⦃x : Externals⦄ (store : Store) (nibbles slot : List ℕ) (size_ok : length slot ≡ 32) where
  node_get_storage-terminal :
      (f : ℕ) (p : Payload) (path rest : List ℕ)
      → IsAccount p
      → 130 < f
      → node_get_storage store (suc f) nibbles slot (terminal p path) rest
        ≡ ok (held_slot slot (if list_eqb rest path then some p else none))
  unfolding node_get_storage terminal
  node_get_storage-terminal f (value v) path rest good b = absurd good
  node_get_storage-terminal f (fields nonce balance code_hash s) path rest good b =
      rw
        (node_get-look store (key_nibbles slot) good f (key_nibbles slot)
          (omega (arith, length-key_nibbles slot)) (omega (arith, slack_le s)))
        (slot-if slot (list_eqb rest path) (some (fields nonce balance code_hash s)))

  pub node_get_storage-look :
      {h : ℕ} {n : Node}
      → Trie IsAccount h n
      → (f : ℕ) (rest : List ℕ) → length rest ≡ h
      → 2 * h + slack n + 131 < f
      → node_get_storage store f nibbles slot n rest ≡ ok (held_slot slot (look n rest))
  unfolding node_get_storage make_extension
  node_get_storage-look t zero rest e a = absurd (omega arith)
  node_get_storage-look nothing (suc f) rest e a = rw look-nothing
  node_get_storage-look (single p path good nib len) (suc f) rest e a =
      rw (look-single p path rest) (node_get_storage-terminal f p path rest good (omega arith))
  node_get_storage-look {h = h} (along k n path child nib len br t) (suc f) rest e a =
      let below =
        node_get_storage-look {h = k} t f (drop (length (n ∷ path)) rest)
          (omega (arith, length-drop (length (n ∷ path)) rest)) (omega (arith, slack_le child)) in
      rw (look-along n path rest t (omega arith), make_extension, node_get_storage, below)
        (slot-if slot (starts_with rest (n ∷ path)) _)
  node_get_storage-look (fork k cs nref eh sz occ mk ne ts) (suc f) [] e a = absurd (omega arith)
  node_get_storage-look {h = h} (fork k cs nref eh sz occ mk ne ts) (suc f) (i ∷ rest) e a =
      elim (Option-cases (slot_at cs i)) [
        | inl miss ↦ rw (look-fork cs nref i rest ts (omega arith), miss, node_get_storage)
        | inr (c, hit) ↦
            let below =
              node_get_storage-look {h = k} (ts i c hit) f rest (omega arith)
                (omega (arith, slack_le c)) in
            rw (look-fork cs nref i rest ts (omega arith), hit, node_get_storage) below
      ]
  node_get_storage-look {h = h} (sliced buf off len n parse cut nr ne t) (suc f) rest e a =
      let below = node_get_storage-look {h = h} t f rest e (ground arith) in
      rw (look-sliced buf off len _ rest parse nr t e, parse, node_get_storage) below
