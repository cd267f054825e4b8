-- ===== src/Record/Trie/Get.antt =====
-- src/lib.rs: `node_get` returns what the tree holds.
use mpt_flat_poc.Prelude.{
  ℕ, zero, suc, ◌+◌, ◌*◌, ◌<◌, ◌≡◌, refl, Option, none, some, List, [], ◌∷◌, length, length-drop,
  drop, arith, list_eqb, Option-cases, inl, inr, if◌then◌else◌, Bool, true, false,
}
use mpt_flat_poc.Externals.{Externals}
use mpt_flat_poc.Node.{Node, make_extension, slot_at}
use mpt_flat_poc.Record.Get.{Store, node_get, starts_with, at_path}
use mpt_flat_poc.Record.Trie.{
  Payload, Trie, nothing, single, along, fork, sliced, terminal, payload_value, value, fields, look,
}
use mpt_flat_poc.Record.Trie.Look.{
  slack, slack_le, look-nothing, look-single, look-along, look-fork, look-sliced,
}
use mpt_flat_poc.Result.{Result, ok}

-- The value of the payload held.
module _ ⦃x : Externals⦄ where
  abbrev pub held_value : Option Payload → Option (List ℕ)
  held_value none = none
  held_value (some p) = some (payload_value p)

  pub held-if :
      (b : Bool) (o : Option Payload)
      → (if b then (let r : Result (Option (List ℕ)) = ok (held_value o) in r) else ok none)
        ≡ ok (held_value (if b then o else none))
  held-if true o = refl
  held-if false o = refl

module _ ⦃x : Externals⦄ (store : Store) (nibbles : List ℕ) where
  node_get-terminal :
      (f : ℕ) (p : Payload) (path rest : List ℕ)
      → node_get store (suc f) nibbles (terminal p path) rest
        ≡ ok (held_value (if list_eqb rest path then some p else none))
  unfolding node_get terminal at_path payload_value
  node_get-terminal f (value v) path rest = ground arith
  node_get-terminal f (fields nonce balance code_hash storage) path rest = ground arith

  pub node_get-look :
      {Good : Payload → Type 0} {h : ℕ} {n : Node}
      → Trie Good h n
      → (f : ℕ) (rest : List ℕ) → length rest ≡ h
      → 2 * h + slack n < f
      → node_get store f nibbles n rest ≡ ok (held_value (look n rest))
  unfolding node_get make_extension
  node_get-look t zero rest e a = absurd (omega arith)
  node_get-look nothing (suc f) rest e a = rw look-nothing
  node_get-look (single p path good nib len) (suc f) rest e a =
      rw (look-single p path rest) (node_get-terminal f p path rest)
  node_get-look {h = h} (along k n path child nib len br t) (suc f) rest e a =
      let below =
        node_get-look {h = k} t f (drop (length (n ∷ path)) rest)
          (omega (arith, length-drop (length (n ∷ path)) rest)) (omega (arith, slack_le child)) in
      rw (look-along n path rest t (omega arith), make_extension, node_get, below)
        (held-if (starts_with rest (n ∷ path)) _)
  node_get-look {h = h} (fork k cs nref eh sz occ mk ne ts) (suc f) [] e a = absurd (omega arith)
  node_get-look {h = h} (fork k cs nref eh sz occ mk ne ts) (suc f) (i ∷ rest) e a =
      elim (Option-cases (slot_at cs i)) [
        | inl miss ↦ rw (look-fork cs nref i rest ts (omega arith), miss, node_get)
        | inr (c, hit) ↦
            let below =
              node_get-look {h = k} (ts i c hit) f rest (omega arith) (omega (arith, slack_le c)) in
            rw (look-fork cs nref i rest ts (omega arith), hit, node_get) below
      ]
  node_get-look {h = h} (sliced buf off len n parse cut nr ne t) (suc f) rest e a =
      let below = node_get-look {h = h} t f rest e (ground arith) in
      rw (look-sliced buf off len _ rest parse nr t e, parse, node_get) below
