-- ===== src/Record/Values.antt =====
-- src/lib.rs: `record_node_insert` with `LeafOp::Value`: storage tries and plain tries.
use mpt_flat_poc.Prelude.{
  ℕ, ◌+◌, ◌*◌, ◌<◌, ◌≤◌, ◌≡◌, refl, Option, none, some, List, [], ◌∷◌, length, arith, list_eqb,
  if◌then◌else◌,
}
use mpt_flat_poc.Externals.{Externals}
use mpt_flat_poc.Eth.{key_nibbles}
use mpt_flat_poc.Node.{Node}
use mpt_flat_poc.Record.Ops.{LeafOp}
use mpt_flat_poc.Record.Insert.{record_node_insert, place_new, apply_op}
use mpt_flat_poc.Record.Get.{Store, node_get}
use mpt_flat_poc.Record.Trie.{Payload, Trie, terminal, look, Nibbles, value, fields, payload_value}
use mpt_flat_poc.Record.Trie.Under.{put}
use mpt_flat_poc.Record.Trie.Get.{node_get-look, held_value}
use mpt_flat_poc.Record.Trie.Look.{slack_le}
use mpt_flat_poc.Record.Trie.Insert.{Effect, Inserted, after}
use mpt_flat_poc.Record.Trie.Refine.{record_node_insert_lem}
use mpt_flat_poc.Result.{Result, ok}

abbrev pub IsValue : Payload → Type 0
IsValue (value v) = Unit
IsValue (fields _ _ _ _) = ⊥

-- The nibbles of a key: two for each byte.
abbrev pub Bytes : List ℕ → Type 0
Bytes [] = Unit
Bytes (b ∷ bs) = (b < 256) × Bytes bs

pub key_nibbles-Nibbles : (key : List ℕ) → Bytes key → Nibbles (key_nibbles key)
unfolding key_nibbles
key_nibbles-Nibbles [] h = tt
key_nibbles-Nibbles (b ∷ key) h = (omega arith, (omega arith, key_nibbles-Nibbles key h.1))

pub length-key_nibbles : (key : List ℕ) → length (key_nibbles key) ≡ 2 * length key
unfolding key_nibbles
length-key_nibbles [] = omega arith
length-key_nibbles (b ∷ key) = omega (arith, length-key_nibbles key)

module _ ⦃x : Externals⦄ (v : List ℕ) where
  place-value :
      (f : ℕ) (path : List ℕ)
      → place_new (record_node_insert f) (LeafOp.value v) path ≡ ok (terminal (value v) path)
  unfolding place_new terminal
  place-value f path = refl

  apply-value :
      (f : ℕ) (p : Payload) (path : List ℕ)
      → IsValue p
      → apply_op (record_node_insert f) (terminal p path) path (LeafOp.value v)
        ≡ ok (terminal (value v) path)
  unfolding apply_op terminal
  apply-value f (value u) path g = refl
  apply-value f (fields _ _ _ _) path g = absurd g

  unfoldable pub value_effect : Effect IsValue (LeafOp.value v)
  unfolding place-value apply-value
  value_effect = record {
    bound = 0;
    new = value v;
    update = λ p. value v;
    new_good = tt;
    update_good = λ p g. tt;
    place = λ f path b. place-value f path;
    apply = λ f p path b g. apply-value f p path g;
  }

  pub after-value : (o : Option Payload) → after value_effect o ≡ value v
  unfolding value_effect
  after-value none = refl
  after-value (some p) = refl

  held_value-put :
      (rest j : List ℕ) (F : List ℕ → Option Payload)
      → ok (held_value (put rest (value v) F j)) ≡ (
          if list_eqb j rest
          then (let r : Result (Option (List ℕ)) = ok (some v) in r)
          else ok (held_value (F j)))
  unfolding put payload_value
  held_value-put rest j F = ground arith

module _ ⦃x : Externals⦄ where
  -- `record_node_insert` of a value into a canonical value trie returns a node: no error, no panic,
  -- and a fuel above the path's length is enough. The new tree is canonical with right references,
  -- and `node_get` reads the value at the inserted path and at any other path what it read before.
  pub node_get-insert_value :
      (store : Store) (nibbles v : List ℕ) {h : ℕ} {n : Node} (rest j : List ℕ) (f g : ℕ)
      → Trie IsValue h n
      → Nibbles rest
      → length rest ≡ h
      → length j ≡ h
      → h < f
      → 2 * h + 2 ≤ g
      → (n' : Node) × (record_node_insert f n rest (LeafOp.value v) ≡ ok n')
        × Trie IsValue h n'
        × (node_get store g nibbles n' j
            ≡ (if list_eqb j rest then ok (some v) else node_get store g nibbles n j))
  node_get-insert_value store nibbles v {h} {n} rest j f g t nib e ej bf bg = (
    inserted.node,
    inserted.runs,
    inserted.trie,
    rw
        (
          node_get-look store nibbles inserted.trie g j ej (omega (arith, slack_le inserted.node)),
          node_get-look store nibbles t g j ej (omega (arith, slack_le n)),
          inserted.holds j ej,
          after-value v (look n rest),
        )
        (held_value-put v rest j (look n)),
  )
    where
      inserted :
          Inserted IsValue h n rest
            (after (value_effect v) (look n rest))
            (record_node_insert f n rest (LeafOp.value v))
      inserted =
          record_node_insert_lem (value_effect v) t f rest nib e
            (unfold value_effect in omega arith)
