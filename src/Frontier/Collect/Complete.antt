-- ===== src/Frontier/Collect/Complete.antt =====
-- src/lib.rs: `collect_storage_subtree` below a position in the storage trie collects all its slots.
use mpt_flat_poc.Prelude.{
  ℕ, zero, suc, ◌+◌, ◌*◌, ◌<◌, ◌≤◌, ◌≡◌, refl, sym, ◌∙◌, ap, none, some, Option, List, [], ◌∷◌,
  ◌++◌, length, length-append, arith,
}
use mpt_flat_poc.Externals.{Externals}
use mpt_flat_poc.Eth.{pack_pairs}
use mpt_flat_poc.Node.{Node, raw, make_extension, hash_node}
use mpt_flat_poc.Record.Get.{Store, node_get}
use mpt_flat_poc.Record.Trie.{
  Payload, value, fields, Trie, nothing, single, along, fork, sliced, look, payload_value,
}
use mpt_flat_poc.Record.Trie.Look.{slack, slack_le, look-sliced, look-Holding, Holding}
use mpt_flat_poc.Record.Trie.Get.{node_get-look, held_value}
use mpt_flat_poc.Record.Values.{IsValue}
use mpt_flat_poc.Frontier.Collect.{Collected, collect_storage_subtree}
use mpt_flat_poc.Result.{Result, ok}
use mpt_flat_poc.Frontier.Collect.Gather.{
  Listed, Gathered, nothing-Gathered, single-Gathered, along-Gathered,
}
use mpt_flat_poc.Frontier.Collect.Branches.{fork-Gathered, collect_children-Gathered}

module _ ⦃x : Externals⦄ where
  pub gathered :
      {h : ℕ} {n : Node}
      → Trie IsValue h n
      → (f : ℕ) (path : List ℕ) → length path + h ≡ 64
      → 2 * h + slack n < f
      → Gathered h (look n) path (collect_storage_subtree f n path)
  unfolding collect_storage_subtree make_extension
  gathered t zero path e a = absurd (omega arith)
  gathered {h} nothing (suc f) path e a = nothing-Gathered h f path
  gathered {h} (single (value v) lp good nib len) (suc f) path e a =
      single-Gathered f h v lp path len e
  gathered (single (fields _ _ _ _) lp good nib len) (suc f) path e a = absurd good
  gathered {h} (along k n ep child nib len br t) (suc f) path e a =
      along-Gathered k h n ep child path _ len t (
        gathered {h = k} t f (path ++ (n ∷ ep)) (omega (arith, length-append path (n ∷ ep), len, e))
          (omega (arith, slack_le child)))
  gathered {h} (fork k cs nref eh sz occ mk full ts) (suc f) path e a =
      fork-Gathered k h cs nref path _ eh ts (
        collect_children-Gathered k (collect_storage_subtree f) path cs 0 (λ j c hit n.
          gathered {h = k} (ts j c hit) f (path ++ (n ∷ []))
            (omega (arith, length-append path (n ∷ []), e, eh)) (omega (arith, slack_le c))))
  gathered {h} (sliced buf off len n parse cut nr full t) (suc f) path e a =
      let b = gathered {h = h} t f path e (ground arith) in
      let same : (rest : List ℕ)
          → length rest ≡ h
          → look (raw buf off len (hash_node n)) rest ≡ look n rest =
        λ rest er. look-sliced buf off len _ rest parse nr t er in
      rw parse (record {
        out = b.out;
        runs = b.runs;
        complete = λ rest v er held. b.complete rest v er (sym (same rest er) ∙ held);
        sound = λ d l. let s = b.sound d l in (s.0, s.1, s.2, same s.0 s.1 ∙ s.3);
      })

module _ ⦃x : Externals⦄ where
  pub value_held :
      (o : Option Payload) (v : List ℕ)
      → Holding IsValue o
      → held_value o ≡ some v
      → o ≡ some (value v)
  unfolding payload_value
  value_held none v good e = cc
  value_held (some (value w)) v good e = let same : w ≡ v = cc in rw same refl
  value_held (some (fields _ _ _ _)) v good e = absurd good

module _ ⦃x : Externals⦄ (store : Store) (nibbles : List ℕ) where
  -- On a canonical value trie below a path with which the trie's paths make 64 nibbles,
  -- `collect_storage_subtree` returns a list within the fuel, without error or panic: every value
  -- that `node_get` reads is listed under the key that the path and the read path pack to, and every
  -- entry of the list is such a read.
  pub collect_storage_subtree_lem :
      {h : ℕ} {n : Node} (f g : ℕ) (path : List ℕ)
      → Trie IsValue h n
      → length path + h ≡ 64
      → 2 * h + 2 ≤ f
      → 2 * h + 2 ≤ g
      → (slots : Collected) × (collect_storage_subtree f n path ≡ ok slots)
        × ((rest v : List ℕ)
            → length rest ≡ h
            → node_get store g nibbles n rest ≡ ok (some v)
            → Listed (pack_pairs (path ++ rest), v) slots)
        × ((key v : List ℕ)
            → Listed (key, v) slots
            → (rest : List ℕ) × (length rest ≡ h)
              × (key ≡ pack_pairs (path ++ rest))
              × (node_get store g nibbles n rest ≡ ok (some v)))
  unfolding payload_value
  collect_storage_subtree_lem {h} {n} f g path t e bf bg =
      let b = gathered t f path e (omega (arith, slack_le n)) in
      (
        b.out,
        b.runs,
        λ rest v er read. b.complete rest v er (
            value_held (look n rest) v (look-Holding t rest er)
              (ok_inj (sym (reads rest er) ∙ read))),
        λ key v l.
            let s = b.sound (key, v) l in
            (s.0, s.1, s.2, reads s.0 s.1 ∙ ap (λ o. ok (held_value o)) s.3),
      )
    where
      reads :
          (rest : List ℕ)
          → length rest ≡ h
          → node_get store g nibbles n rest ≡ ok (held_value (look n rest))
      reads rest er = node_get-look store nibbles t g rest er (omega (arith, slack_le n))

      ok_inj :
          {a b : Option (List ℕ)} → (let r : Result (Option (List ℕ)) = ok a in r) ≡ ok b → a ≡ b
      ok_inj same = cc
