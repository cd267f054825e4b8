-- ===== src/Record/Deletes.antt =====
-- src/lib.rs: `record_node_delete` with `DeleteOp::Value` on a value trie.
use mpt_flat_poc.Prelude.{
  ℕ, ◌+◌, ◌*◌, ◌<◌, ◌≤◌, ◌≡◌, refl, ◌∙◌, Option, none, some, List, length, arith, list_eqb,
  if◌then◌else◌, false,
}
use mpt_flat_poc.Externals.{Externals}
use mpt_flat_poc.Node.{Node, hash_node}
use mpt_flat_poc.Record.Ops.{LeafOp}
use mpt_flat_poc.Record.DeleteOps.{DeleteOp, NodeDelete, absent, changed, removed}
use mpt_flat_poc.Record.Insert.{record_node_insert}
use mpt_flat_poc.Record.Delete.{record_node_delete, apply_delete_op}
use mpt_flat_poc.Record.Get.{Store, node_get}
use mpt_flat_poc.Record.Values.{IsValue}
use mpt_flat_poc.Record.Trie.{Payload, Trie, look, terminal, Nibbles, value, fields}
use mpt_flat_poc.Record.Trie.Get.{node_get-look, held_value}
use mpt_flat_poc.Record.Trie.Look.{slack_le}
use mpt_flat_poc.Record.Trie.Under.{put}
use mpt_flat_poc.Record.Trie.Unique.{hash_node_unique}
use mpt_flat_poc.Record.Trie.Insert.{Inserted}
use mpt_flat_poc.Record.Trie.Remove.{without, without_absent, Removes, Deleted, Fate}
use mpt_flat_poc.Record.Trie.Delete.{record_node_delete_lem}
use mpt_flat_poc.Record.Order.{inserted}
use mpt_flat_poc.Result.{Result, ok}

module _ ⦃x : Externals⦄ where
  value-Removes : Removes IsValue DeleteOp.value
  unfolding apply_delete_op terminal
  value-Removes f (value v) path g = refl
  value-Removes f (fields _ _ _ _) path g = absurd g

  deleted :
      {h : ℕ} {n : Node} (rest : List ℕ) (f : ℕ)
      → Trie IsValue h n
      → Nibbles rest
      → length rest ≡ h
      → h < f
      → Deleted IsValue h n rest (record_node_delete f n rest DeleteOp.value)
  deleted rest f t nib e b = record_node_delete_lem DeleteOp.value value-Removes t f rest nib e b

  held_none : (o : Option Payload) → held_value o ≡ none → o ≡ none
  held_none none h = refl
  held_none (some p) h = cc

  held_value-without :
      (rest j : List ℕ) (F : List ℕ → Option Payload)
      → ok (held_value (without rest F j)) ≡ (
          if list_eqb j rest
          then (let r : Result (Option (List ℕ)) = ok none in r)
          else ok (held_value (F j)))
  unfolding without
  held_value-without rest j F = ground arith

  Fate-absent :
      (o : NodeDelete) (n node : Node) (p : Option Payload)
      → Fate o n node p
      → p ≡ none
      → (o ≡ absent) × (hash_node node ≡ hash_node n)
  Fate-absent absent n node p fate h = (refl, fate.1)
  Fate-absent changed n node p fate h = absurd (fate.1 h)
  Fate-absent removed n node p fate h = absurd (fate.1 h)

  read :
      (store : Store) (nibbles : List ℕ) {h : ℕ} {m : Node} (g : ℕ) (j : List ℕ)
      → Trie IsValue h m
      → length j ≡ h
      → 2 * h + 2 ≤ g
      → node_get store g nibbles m j ≡ ok (held_value (look m j))
  read store nibbles {m = m} g j t e bg =
      node_get-look store nibbles t g j e (omega (arith, slack_le m))

  module _ (store : Store) (nibbles : List ℕ) {h : ℕ} {n : Node} (rest : List ℕ) (f g : ℕ) where
    not_held :
        Trie IsValue h n
        → length rest ≡ h
        → 2 * h + 2 ≤ g
        → node_get store g nibbles n rest ≡ ok none
        → look n rest ≡ none
    not_held t e bg q = held_none (look n rest) (cc (read store nibbles g rest t e bg))

    -- `record_node_delete` of a value from a canonical value trie returns a node: no error, no
    -- panic, and a fuel above the path's length is enough. The new tree is canonical with right
    -- references; `node_get` reads nothing at the path and at any other path what it read before.
    -- Where nothing was read at the path, the outcome is `absent` and the reference is unchanged.
    pub node_get-delete_value :
        (j : List ℕ)
        → Trie IsValue h n
        → Nibbles rest
        → length rest ≡ h
        → length j ≡ h
        → h < f
        → 2 * h + 2 ≤ g
        → (n' : Node) × (outcome : NodeDelete) × (record_node_delete f n rest DeleteOp.value
            ≡ ok (n', outcome))
          × Trie IsValue h n'
          × (node_get store g nibbles n' j
              ≡ (if list_eqb j rest then ok none else node_get store g nibbles n j))
          × (node_get store g nibbles n rest ≡ ok none
              → (outcome ≡ absent) × (hash_node n' ≡ hash_node n))
    node_get-delete_value j t nib e ej bf bg = (
      d.node,
      d.outcome,
      d.runs,
      d.trie,
      rw (read store nibbles g j d.trie ej bg, read store nibbles g j t ej bg, d.holds j ej)
          (held_value-without rest j (look n)),
      λ q. Fate-absent d.outcome n d.node (look n rest) d.fate (not_held t e bg q),
    )
      where
        d : Deleted IsValue h n rest (record_node_delete f n rest DeleteOp.value)
        d = deleted rest f t nib e bf

    -- A value inserted at a path of a canonical value trie where `node_get` reads nothing, and
    -- deleted again: both succeed, and the reference is the one before.
    pub record_node_delete-insert :
        (v : List ℕ)
        → Trie IsValue h n
        → Nibbles rest
        → length rest ≡ h
        → h < f
        → 2 * h + 2 ≤ g
        → node_get store g nibbles n rest ≡ ok none
        → (a : Node) × (b : Node) × (outcome : NodeDelete) × (record_node_insert f n rest
              (LeafOp.value v)
            ≡ ok a)
          × (record_node_delete f a rest DeleteOp.value ≡ ok (b, outcome))
          × (hash_node b ≡ hash_node n)
    record_node_delete-insert v t nib e bf bg q = (
      i.node,
      d.node,
      d.outcome,
      i.runs,
      d.runs,
      hash_node_unique d.trie t (λ j ej. d.holds j ej ∙ back j ej),
    )
      where
        i : Inserted IsValue h n rest (value v) (record_node_insert f n rest (LeafOp.value v))
        i = inserted v rest f t nib e bf

        d : Deleted IsValue h i.node rest (record_node_delete f i.node rest DeleteOp.value)
        d = deleted rest f i.trie nib e bf

        back : (j : List ℕ) → length j ≡ h → without rest (look i.node) j ≡ look n j
        back j ej = same j ej ∙ without_absent rest (look n) j (not_held t e bg q)
          where
            put_off :
                (j : List ℕ) → list_eqb j rest ≡ false → put rest (value v) (look n) j ≡ look n j
            put_off j h = unfold put in rw h refl

            same :
                (j : List ℕ) → length j ≡ h → without rest (look i.node) j ≡ without rest (look n) j
            same j ej = unfold without in ground (arith, i.holds j ej, put_off j)
