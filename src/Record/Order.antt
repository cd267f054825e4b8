-- ===== src/Record/Order.antt =====
-- src/lib.rs: the root of a trie does not depend on the order in which its values were inserted.
use mpt_flat_poc.Prelude.{
  ℕ, ◌+◌, ◌*◌, ◌<◌, ◌≤◌, ◌≡◌, refl, sym, ◌∙◌, ◌≢◌, Bool-cases, inl, inr, Option, none, some, List,
  length, arith, list_eqb, list_eqb→eq,
}
use mpt_flat_poc.Externals.{Externals}
use mpt_flat_poc.Node.{Node, hash_node}
use mpt_flat_poc.Record.Ops.{LeafOp}
use mpt_flat_poc.Record.Insert.{record_node_insert}
use mpt_flat_poc.Record.Get.{Store, node_get}
use mpt_flat_poc.Record.Values.{IsValue, value_effect, after-value}
use mpt_flat_poc.Record.Trie.{Payload, Trie, look, Nibbles, value, fields, payload_value}
use mpt_flat_poc.Record.Trie.Get.{node_get-look, held_value}
use mpt_flat_poc.Record.Trie.Look.{slack_le, Holding, look-Holding}
use mpt_flat_poc.Record.Trie.Under.{put}
use mpt_flat_poc.Record.Trie.Unique.{hash_node_unique, SameHolds}
use mpt_flat_poc.Record.Trie.Insert.{Inserted}
use mpt_flat_poc.Record.Trie.Refine.{record_node_insert_lem}
use mpt_flat_poc.Result.{ok}

module _ ⦃x : Externals⦄ where
  -- The value of a value payload gives the payload.
  held_value-injective :
      (o p : Option Payload)
      → Holding IsValue o
      → Holding IsValue p
      → held_value o ≡ held_value p
      → o ≡ p
  unfolding payload_value
  held_value-injective none none ho hp e = refl
  held_value-injective none (some p) ho hp e = cc
  held_value-injective (some o) none ho hp e = cc
  held_value-injective (some (value u)) (some (value w)) ho hp e = cc
  held_value-injective (some (fields _ _ _ _)) (some p) ho hp e = absurd ho
  held_value-injective (some (value u)) (some (fields _ _ _ _)) ho hp e = absurd hp

  -- Two canonical value tries of one depth from which `node_get` reads the same at every path have
  -- the same reference, so the same root.
  pub hash_node-of_node_get :
      (store : Store) (nibbles : List ℕ) {h : ℕ} {n m : Node} (g : ℕ)
      → Trie IsValue h n
      → Trie IsValue h m
      → 2 * h + 2 ≤ g
      → ((j : List ℕ) → length j ≡ h → node_get store g nibbles n j ≡ node_get store g nibbles m j)
      → hash_node n ≡ hash_node m
  hash_node-of_node_get store nibbles {h} {n} {m} g t u b same = hash_node_unique t u (λ j e.
      held_value-injective (look n j) (look m j) (look-Holding t j e) (look-Holding u j e)
        (read j e))
    where
      read : (j : List ℕ) → length j ≡ h → held_value (look n j) ≡ held_value (look m j)
      read j e = cc (
        node_get-look store nibbles t g j e (omega (arith, slack_le n)),
        node_get-look store nibbles u g j e (omega (arith, slack_le m)),
        same j e,
      )

  -- `put` of one value at `rest` in a trie, for the proofs below.
  pub inserted :
      {h : ℕ} {n : Node} (v rest : List ℕ) (f : ℕ)
      → Trie IsValue h n
      → Nibbles rest
      → length rest ≡ h
      → h < f
      → Inserted IsValue h n rest (value v) (record_node_insert f n rest (LeafOp.value v))
  inserted {n = n} v rest f t nib e b =
      rw after-value at (
        record_node_insert_lem (value_effect v) t f rest nib e (unfold value_effect in omega arith))

  put_comm :
      (r s j : List ℕ) (p q : Payload) (F : List ℕ → Option Payload)
      → r ≢ s
      → put s q (put r p F) j ≡ put r p (put s q F) j
  unfolding put
  put_comm r s j p q F ne = elim (Bool-cases (list_eqb j r)) [
    | inl at_r ↦ elim (Bool-cases (list_eqb j s)) [
      | inl at_s ↦ absurd (ne (sym (list_eqb→eq j r at_r) ∙ list_eqb→eq j s at_s))
      | inr off_s ↦ rw (at_r, off_s)
    ]
    | inr off_r ↦ rw off_r
  ]

  -- Two values inserted at two paths of a canonical value trie: in either order both inserts
  -- succeed, and the trees have the same reference.
  pub record_node_insert_comm :
      {h : ℕ} {n : Node} (v w rest other : List ℕ) (f : ℕ)
      → Trie IsValue h n
      → Nibbles rest
      → Nibbles other
      → length rest ≡ h
      → length other ≡ h
      → rest ≢ other
      → h < f
      → (a : Node) × (b : Node) × (c : Node) × (d : Node) × (record_node_insert f n rest
            (LeafOp.value v)
          ≡ ok a)
        × (record_node_insert f a other (LeafOp.value w) ≡ ok b)
        × (record_node_insert f n other (LeafOp.value w) ≡ ok c)
        × (record_node_insert f c rest (LeafOp.value v) ≡ ok d)
        × (hash_node b ≡ hash_node d)
  record_node_insert_comm {h} {n} v w rest other f t nib nib' e e' ne bf = (
    one.node,
    one_two.node,
    two.node,
    two_one.node,
    one.runs,
    one_two.runs,
    two.runs,
    two_one.runs,
    hash_node_unique one_two.trie two_one.trie same,
  )
    where
      one : Inserted IsValue h n rest (value v) (record_node_insert f n rest (LeafOp.value v))
      one = inserted v rest f t nib e bf

      one_two :
          Inserted IsValue h one.node other
            (value w)
            (record_node_insert f one.node other (LeafOp.value w))
      one_two = inserted w other f one.trie nib' e' bf

      two : Inserted IsValue h n other (value w) (record_node_insert f n other (LeafOp.value w))
      two = inserted w other f t nib' e' bf

      two_one :
          Inserted IsValue h two.node rest
            (value v)
            (record_node_insert f two.node rest (LeafOp.value v))
      two_one = inserted v rest f two.trie nib e bf

      same : SameHolds h one_two.node two_one.node
      same j ej =
          rw (one_two.holds j ej, two_one.holds j ej)
            (unfold put in
              rw (one.holds j ej, two.holds j ej)
                (put_comm rest other j (value v) (value w) (look n) ne))
