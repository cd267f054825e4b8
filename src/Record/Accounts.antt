-- ===== src/Record/Accounts.antt =====
-- src/lib.rs: `record_node_insert` with `LeafOp::Account` and `LeafOp::Storage` on a state trie of
-- structured accounts.
use mpt_flat_poc.Prelude.{
  ℕ, ◌<◌, ◌≤◌, ◌≡◌, refl, ap, Bool, true, false, ◌&&◌, Bool-cases, inl, inr, list_eqb→eq, Option,
  none, some, List, length, arith, list_eqb, if◌then◌else◌,
}
use mpt_flat_poc.Externals.{Externals}
use mpt_flat_poc.Eth.{key_nibbles}
use mpt_flat_poc.Node.{Node}
use mpt_flat_poc.Record.Ops.{LeafOp}
use mpt_flat_poc.Record.Insert.{record_node_insert}
use mpt_flat_poc.Record.Get.{Store, node_get, node_get_storage}
use mpt_flat_poc.Record.Values.{Bytes}
use mpt_flat_poc.Record.Trie.{Payload, Trie, look, Nibbles, value, fields, payload_value}
use mpt_flat_poc.Record.Trie.Under.{put}
use mpt_flat_poc.Record.Trie.Look.{slack_le, look-nothing, Holding, look-Holding}
use mpt_flat_poc.Record.Trie.Get.{node_get-look}
use mpt_flat_poc.Record.Trie.GetStorage.{IsAccount, held_slot, node_get_storage-look}
use mpt_flat_poc.Record.Trie.Insert.{Inserted, after}
use mpt_flat_poc.Result.{Result, ok}
use mpt_flat_poc.Record.Effects.{
  storage_of, insert-account, insert-storage, account_effect, after-account, storage_effect,
  after-storage,
}

module _ ⦃x : Externals⦄ where
  held_slot-fields :
      (nonce balance : ℕ) (code_hash slot : List ℕ) (o : Option Payload)
      → Holding IsAccount o
      → held_slot slot (some (fields nonce balance code_hash (storage_of o))) ≡ held_slot slot o
  held_slot-fields nonce balance code_hash slot none h = rw (look-nothing (key_nibbles slot))
  held_slot-fields nonce balance code_hash slot (some (value v)) h = absurd h
  held_slot-fields nonce balance code_hash slot (some (fields _ _ _ s)) h = refl

  -- A payload that holds at the slot what the key held before changes no read.
  at_key :
      (slot rest j : List ℕ) (n : Node) (p : Payload)
      → held_slot slot (some p) ≡ held_slot slot (look n rest)
      → held_slot slot (put rest p (look n) j) ≡ held_slot slot (look n j)
  unfolding put
  at_key slot rest j n p h = elim (Bool-cases (list_eqb j rest)) [
    | inl same ↦ rw same (rw (list_eqb→eq j rest same) h)
    | inr other ↦ rw other
  ]

  at_key-slot :
      (other slot v rest j : List ℕ) (n : Node) (p : Payload)
      → held_slot other (some p)
        ≡ (if list_eqb other slot then some v else held_slot other (look n rest))
      → ok (held_slot other (put rest p (look n) j)) ≡ (
          if list_eqb j rest && list_eqb other slot
          then (let r : Result (Option (List ℕ)) = ok (some v) in r)
          else ok (held_slot other (look n j)))
  unfolding put
  at_key-slot other slot v rest j n p h = elim (Bool-cases (list_eqb j rest)) [
    | inl same ↦ rw same (rw (list_eqb→eq j rest same, h) (ok-if (list_eqb other slot) v _))
    | inr differ ↦ rw differ
  ]
    where
      ok-if :
          (b : Bool) (u : List ℕ) (o : Option (List ℕ))
          → ok (if b then some u else o)
            ≡ (if b then (let r : Result (Option (List ℕ)) = ok (some u) in r) else ok o)
      ok-if true u o = refl
      ok-if false u o = refl

module _ ⦃x : Externals⦄ (store : Store) (nibbles : List ℕ) where
  -- `record_node_insert` of account fields into a canonical state trie returns a canonical tree.
  -- The account's leaf then reads as the RLP of the new fields with the root of the storage that it
  -- had before, every other account reads as before, and so does every storage slot.
  pub node_get-insert_account :
      {n : Node} (nonce balance : ℕ) (code_hash rest j slot : List ℕ) (f g : ℕ)
      → Trie IsAccount 64 n
      → Nibbles rest
      → length rest ≡ 64
      → length j ≡ 64
      → length slot ≡ 32
      → 64 < f
      → 264 ≤ g
      → (n' : Node) × (record_node_insert f n rest (LeafOp.account nonce balance code_hash) ≡ ok n')
        × Trie IsAccount 64 n'
        × (node_get store g nibbles n' j ≡ (
            if list_eqb j rest
            then ok
                (some (payload_value (fields nonce balance code_hash (storage_of (look n rest)))))
            else node_get store g nibbles n j))
        × (node_get_storage store g nibbles slot n' j ≡ node_get_storage store g nibbles slot n j)
  node_get-insert_account {n} nonce balance code_hash rest j slot f g t nib e ej es bf bg = (
    done.node,
    done.runs,
    done.trie,
    rw
        (
          node_get-look store nibbles done.trie g j ej (omega (arith, slack_le done.node)),
          node_get-look store nibbles t g j ej (omega (arith, slack_le n)),
          done.holds j ej,
          after-account nonce balance code_hash (look n rest),
        )
        (unfold put in ground arith),
    rw
        (
          node_get_storage-look store nibbles slot es done.trie g j ej
              (omega (arith, slack_le done.node)),
          node_get_storage-look store nibbles slot es t g j ej (omega (arith, slack_le n)),
          done.holds j ej,
          after-account nonce balance code_hash (look n rest),
        )
        (ap ok (
          at_key slot rest j n _
            (held_slot-fields nonce balance code_hash slot (look n rest) (look-Holding t rest e)))),
  )
    where
      done :
          Inserted IsAccount 64 n rest
            (after (account_effect nonce balance code_hash) (look n rest))
            (record_node_insert f n rest (LeafOp.account nonce balance code_hash))
      done = insert-account nonce balance code_hash t f rest nib e bf

  -- `record_node_insert` of a storage slot into a canonical state trie returns a canonical tree.
  -- The slot then reads the value, and every other slot of every account reads as before; an
  -- account that is missing is created.
  pub node_get_storage-insert_storage :
      {n : Node} (slot v rest j other : List ℕ) (f g : ℕ)
      → Trie IsAccount 64 n
      → Bytes slot
      → length slot ≡ 32
      → Nibbles rest
      → length rest ≡ 64
      → length j ≡ 64
      → length other ≡ 32
      → 129 < f
      → 264 ≤ g
      → (n' : Node) × (record_node_insert f n rest (LeafOp.storage slot v) ≡ ok n')
        × Trie IsAccount 64 n'
        × (node_get_storage store g nibbles other n' j ≡ (
            if list_eqb j rest && list_eqb other slot
            then ok (some v)
            else node_get_storage store g nibbles other n j))
  node_get_storage-insert_storage {n} slot v rest j other f g t bs es nib e ej eo bf bg = (
    done.node,
    done.runs,
    done.trie,
    rw
        (
          node_get_storage-look store nibbles other eo done.trie g j ej
              (omega (arith, slack_le done.node)),
          node_get_storage-look store nibbles other eo t g j ej (omega (arith, slack_le n)),
          done.holds j ej,
        )
        (at_key-slot other slot v rest j n _
          (after-storage slot v es bs (look n rest) (look-Holding t rest e) other eo)),
  )
    where
      done :
          Inserted IsAccount 64 n rest
            (after (storage_effect slot v es bs) (look n rest))
            (record_node_insert f n rest (LeafOp.storage slot v))
      done = insert-storage slot v es bs t f rest nib e bf
