-- ===== src/Record/Effects.antt =====
-- src/lib.rs: what `place_new` and `apply_op` do to the payload of a structured account, for
-- `LeafOp::Account` and for `LeafOp::Storage`.
use mpt_flat_poc.Prelude.{
  ℕ, ◌+◌, ◌<◌, ◌≤◌, ◌≡◌, refl, sym, ◌∙◌, ap, Option, none, some, List, [], ◌∷◌, length, arith,
  list_eqb, if◌then◌else◌,
}
use mpt_flat_poc.Externals.{Externals}
use mpt_flat_poc.Eth.{key_nibbles}
use mpt_flat_poc.Node.{Node, empty}
use mpt_flat_poc.Record.Ops.{LeafOp, empty_code_hash}
use mpt_flat_poc.Record.Insert.{record_node_insert, place_new, apply_op}
use mpt_flat_poc.Record.Fuel.{insert_value-fuel}
use mpt_flat_poc.Record.Values.{
  IsValue, Bytes, key_nibbles-Nibbles, length-key_nibbles, value_effect, after-value,
}
use mpt_flat_poc.Record.Trie.{
  Payload, Trie, nothing, terminal, look, Nibbles, value, fields, payload_value,
}
use mpt_flat_poc.Record.Trie.Under.{put}
use mpt_flat_poc.Record.Trie.Look.{look-nothing, Holding}
use mpt_flat_poc.Record.Trie.Get.{held_value}
use mpt_flat_poc.Record.Trie.GetStorage.{IsAccount, held_slot}
use mpt_flat_poc.Record.Trie.Insert.{Effect, Inserted, after}
use mpt_flat_poc.Record.Trie.Refine.{record_node_insert_lem}
use mpt_flat_poc.Result.{ok, err}

pub list_eqb-key_nibbles : (a b : List ℕ) → list_eqb (key_nibbles a) (key_nibbles b) ≡ list_eqb a b
unfolding list_eqb key_nibbles
list_eqb-key_nibbles [] [] = refl
list_eqb-key_nibbles [] (c ∷ b) = refl
list_eqb-key_nibbles (d ∷ a) [] = refl
list_eqb-key_nibbles (d ∷ a) (c ∷ b) = ground (arith, list_eqb-key_nibbles a b)

-- The storage of what a key holds.
abbrev pub storage_of : Option Payload → Node
storage_of none = empty
storage_of (some (value v)) = empty
storage_of (some (fields nonce balance code_hash storage)) = storage

module _ ⦃x : Externals⦄ where
  module _ (nonce balance : ℕ) (code_hash : List ℕ) where
    place-account :
        (f : ℕ) (path : List ℕ)
        → place_new (record_node_insert f) (LeafOp.account nonce balance code_hash) path
          ≡ ok (terminal (fields nonce balance code_hash empty) path)
    unfolding place_new terminal
    place-account f path = refl

    set_fields : Payload → Payload
    set_fields p = fields nonce balance code_hash (storage_of (some p))

    set_fields_good : (p : Payload) → IsAccount p → IsAccount (set_fields p)
    unfolding set_fields
    set_fields_good (value v) g = absurd g
    set_fields_good (fields _ _ _ s) g = g

    apply-account :
        (f : ℕ) (p : Payload) (path : List ℕ)
        → IsAccount p
        → apply_op
            (record_node_insert f)
            (terminal p path)
            path
            (LeafOp.account nonce balance code_hash)
          ≡ ok (terminal (set_fields p) path)
    unfolding apply_op terminal set_fields
    apply-account f (value v) path g = absurd g
    apply-account f (fields _ _ _ s) path g = refl

    pub account_effect : Effect IsAccount (LeafOp.account nonce balance code_hash)
    account_effect = record {
      bound = 0;
      new = fields nonce balance code_hash empty;
      update = set_fields;
      new_good = nothing;
      update_good = set_fields_good;
      place = λ f path b. place-account f path;
      apply = λ f p path b g. apply-account f p path g;
    }

    pub insert-account :
        {n : Node} {h : ℕ}
        → Trie IsAccount h n
        → (f : ℕ) (rest : List ℕ) → Nibbles rest
        → length rest ≡ h
        → h < f
        → Inserted IsAccount h n rest
            (after account_effect (look n rest))
            (record_node_insert f n rest (LeafOp.account nonce balance code_hash))
    insert-account t f rest nib e bf =
        record_node_insert_lem account_effect t f rest nib e (unfold account_effect in omega arith)

    pub after-account :
        (o : Option Payload)
        → after account_effect o ≡ fields nonce balance code_hash (storage_of o)
    unfolding account_effect set_fields
    after-account none = refl
    after-account (some p) = refl

  module _ (slot v : List ℕ) (size_ok : length slot ≡ 32) (bytes : Bytes slot) where
    -- The storage trie with the slot set, at the fuel that its 64 nibbles need.
    pub stored : Node → Node
    stored s = elim (record_node_insert 65 s (key_nibbles slot) (LeafOp.value v)) [
      | ok n ↦ n
      | err e ↦ s
    ]

    slot_length : length (key_nibbles slot) ≡ 64
    slot_length = omega (arith, length-key_nibbles slot)

    inserted :
        (s : Node)
        → Trie IsValue 64 s
        → Inserted IsValue 64 s
            (key_nibbles slot)
            (after (value_effect v) (look s (key_nibbles slot)))
            (record_node_insert 65 s (key_nibbles slot) (LeafOp.value v))
    inserted s t =
        record_node_insert_lem (value_effect v) t 65 (key_nibbles slot)
          (key_nibbles-Nibbles slot bytes) slot_length (unfold value_effect in omega arith)

    stored-eq : (s : Node) (t : Trie IsValue 64 s) → stored s ≡ (inserted s t).node
    unfolding stored
    stored-eq s t = rw ((inserted s t).runs, stored)

    stored-runs :
        (f : ℕ) (s : Node)
        → Trie IsValue 64 s
        → 64 < f
        → record_node_insert f s (key_nibbles slot) (LeafOp.value v) ≡ ok (stored s)
    stored-runs f s t b =
        insert_value-fuel v t f 65 (key_nibbles slot) slot_length b (omega arith)
        ∙ (inserted s t).runs
        ∙ ap ok (sym (stored-eq s t))

    stored-Trie : (s : Node) → Trie IsValue 64 s → Trie IsValue 64 (stored s)
    stored-Trie s t = rw (stored-eq s t) (inserted s t).trie

    -- The slot reads the value, any other slot what it read before.
    pub stored-look :
        (s : Node)
        → Trie IsValue 64 s
        → (other : List ℕ) → length other ≡ 32
        → held_value (look (stored s) (key_nibbles other))
          ≡ (if list_eqb other slot then some v else held_value (look s (key_nibbles other)))
    stored-look s t other e =
        rw
          (
            stored-eq s t,
            (inserted s t).holds (key_nibbles other) (omega (arith, length-key_nibbles other)),
            after-value v (look s (key_nibbles slot)),
          )
          (unfold put payload_value in ground (arith, list_eqb-key_nibbles other slot))

    set_slot : Payload → Payload
    set_slot (value u) = value u
    set_slot (fields nonce balance code_hash s) = fields nonce balance code_hash (stored s)

    set_slot_good : (p : Payload) → IsAccount p → IsAccount (set_slot p)
    unfolding set_slot
    set_slot_good (value u) g = g
    set_slot_good (fields _ _ _ s) g = stored-Trie s g

    place-storage :
        (f : ℕ) (path : List ℕ)
        → 65 ≤ f
        → place_new (record_node_insert f) (LeafOp.storage slot v) path
          ≡ ok (terminal (fields 0 0 empty_code_hash (stored empty)) path)
    unfolding place_new terminal
    place-storage f path b = rw (stored-runs f empty nothing (omega arith))

    apply-storage :
        (f : ℕ) (p : Payload) (path : List ℕ)
        → 65 ≤ f
        → IsAccount p
        → apply_op (record_node_insert f) (terminal p path) path (LeafOp.storage slot v)
          ≡ ok (terminal (set_slot p) path)
    unfolding apply_op terminal set_slot
    apply-storage f (value u) path b g = absurd g
    apply-storage f (fields _ _ _ s) path b g = rw (stored-runs f s g (omega arith))

    pub storage_effect : Effect IsAccount (LeafOp.storage slot v)
    storage_effect = record {
      bound = 65;
      new = fields 0 0 empty_code_hash (stored empty);
      update = set_slot;
      new_good = stored-Trie empty nothing;
      update_good = set_slot_good;
      place = place-storage;
      apply = apply-storage;
    }

    pub insert-storage :
        {n : Node} {h : ℕ}
        → Trie IsAccount h n
        → (f : ℕ) (rest : List ℕ) → Nibbles rest
        → length rest ≡ h
        → h + 65 < f
        → Inserted IsAccount h n rest
            (after storage_effect (look n rest))
            (record_node_insert f n rest (LeafOp.storage slot v))
    insert-storage t f rest nib e bf =
        record_node_insert_lem storage_effect t f rest nib e (unfold storage_effect in omega arith)

    pub after-storage :
        (o : Option Payload)
        → Holding IsAccount o
        → (other : List ℕ) → length other ≡ 32
        → held_slot other (some (after storage_effect o))
          ≡ (if list_eqb other slot then some v else held_slot other o)
    unfolding storage_effect set_slot
    after-storage none g other e =
        stored-look empty nothing other e ∙ rw (look-nothing (key_nibbles other))
    after-storage (some (value u)) g other e = absurd g
    after-storage (some (fields _ _ _ s)) g other e = stored-look s g other e
