-- ===== src/Frontier/Leaf.antt =====
-- src/lib.rs: an insert into a record of the frontier: parse the payload, insert, serialize again.
use mpt_flat_poc.Prelude.{
  ℕ, ◌+◌, ◌*◌, ◌<◌, ◌≤◌, ◌≡◌, refl, sym, ◌∙◌, ap, Option, some, List, length, drop, list_eqb, arith,
  le→ltb, if◌then◌else◌,
}
use mpt_flat_poc.Externals.{Externals}
use mpt_flat_poc.Node.{Node, hash_node, finalize}
use mpt_flat_poc.Codec.Write.{DiskSubtree, record_size, node_size}
use mpt_flat_poc.Codec.Lazy.{deserialize_subtree_lazy}
use mpt_flat_poc.Codec.Size.{PathFits}
use mpt_flat_poc.Codec.Reread.All.{deserialize_subtree_lazy-serialize_subtree}
use mpt_flat_poc.Frontier.{RamChild, mem}
use mpt_flat_poc.Frontier.Get.{record_get}
use mpt_flat_poc.Frontier.Promote.{make_mem_leaf, should_promote, should_promote_account}
use mpt_flat_poc.Frontier.Insert.{rewritten_leaf, insert_in_record}
use mpt_flat_poc.Record.Ops.{LeafOp}
use mpt_flat_poc.Record.Get.{Store, local_depth, node_get}
use mpt_flat_poc.Record.Insert.{record_node_insert}
use mpt_flat_poc.Record.Trie.{Trie, Nibbles}
use mpt_flat_poc.Record.Trie.Look.{slack_le}
use mpt_flat_poc.Record.Trie.Get.{node_get-look, held_value}
use mpt_flat_poc.Record.Trie.Copied.{copied}
use mpt_flat_poc.Record.Trie.Stored.{trie-Storable}
use mpt_flat_poc.Record.Values.{IsValue, node_get-insert_value}
use mpt_flat_poc.Result.{Result, ok}

module _ ⦃x : Externals⦄ where
  -- The payload and the cached root of a record: below its prefix is a canonical value trie of
  -- paths of `h` nibbles, and the root is the trie's.
  pub record LeafTrie (h : ℕ) (bytes root : List ℕ) : Type 0 where
    pub sub : DiskSubtree
    pub parsed : deserialize_subtree_lazy bytes ≡ ok sub
    pub prefix_fits : PathFits sub.prefix
    pub prefix_short : length sub.prefix ≤ 128
    pub tree : Trie IsValue h sub.node
    pub rooted : root ≡ finalize (hash_node sub.node)

  pub record-node_get :
      (store : Store) (g : ℕ) {h : ℕ} {bytes root : List ℕ} (leaf : LeafTrie h bytes root)
      (j : List ℕ)
      → record_get store g j (ok bytes)
        ≡ node_get store g j leaf.sub.node (drop (local_depth leaf.sub.prefix) j)
  unfolding record_get
  record-node_get store g leaf j = rw leaf.parsed refl

  -- What `make_mem_leaf` makes of a canonical value trie.
  pub record RewrittenLeaf (h : ℕ) (prefix : List ℕ) (n : Node) (result : Result RamChild)
      : Type 0 where
    pub bytes : List ℕ
    pub made : result ≡ ok (mem bytes (finalize (hash_node n)))
    pub leaf : LeafTrie h bytes (finalize (hash_node n))
    pub prefix_eq : leaf.sub.prefix ≡ prefix
    pub same :
        (store : Store) (g : ℕ) (nibbles j : List ℕ)
        → length j ≡ h
        → 2 * h + 2 ≤ g
        → node_get store g nibbles leaf.sub.node j ≡ node_get store g nibbles n j

  pub make_mem_leaf-RewrittenLeaf :
      ((bytes : List ℕ) → length (x.keccak256 bytes) ≡ 32)
      → (h : ℕ) (prefix : List ℕ) (n : Node) → PathFits prefix
      → length prefix ≤ 128
      → Trie IsValue h n
      → h ≤ 128
      → record_size (length prefix) n < 4294967296
      → RewrittenLeaf h prefix n (make_mem_leaf (record { prefix = prefix; node = n }))
  unfolding make_mem_leaf
  make_mem_leaf-RewrittenLeaf wide h prefix n pf short t hb small =
      let st = trie-Storable wide t hb (omega (arith, node_smaller, small)) in
      let rt =
        deserialize_subtree_lazy-serialize_subtree (record { prefix = prefix; node = n }) pf short
          st in
      let c = copied t rt.5 rt.6 in
      record {
        bytes = rt.0;
        made = rw rt.3 refl;
        leaf = record {
          sub = record { prefix = prefix; node = rt.2 };
          parsed = rt.4;
          prefix_fits = pf;
          prefix_short = short;
          tree = c.tree;
          rooted = ap finalize (sym c.same_hash);
        };
        prefix_eq = refl;
        same = λ st' g nibbles j e b.
            node_get-look st' nibbles c.tree g j e (omega (arith, slack_le rt.2))
            ∙ ap (λ o. ok (held_value o)) (c.same j e)
            ∙ sym (node_get-look st' nibbles t g j e (omega (arith, slack_le n)));
      }
    where
      node_smaller : node_size n ≤ record_size (length prefix) n
      node_smaller = unfold record_size in omega arith

  rewritten_leaf-make_mem_leaf :
      (store : Store) (max_leaf_bytes fuel : ℕ) (subtree : DiskSubtree)
      → record_size (length subtree.prefix) subtree.node ≤ max_leaf_bytes
      → rewritten_leaf store max_leaf_bytes fuel subtree ≡ make_mem_leaf subtree
  unfolding rewritten_leaf should_promote should_promote_account
  rewritten_leaf-make_mem_leaf store max_leaf_bytes fuel subtree small = rw (le→ltb _ _ small) refl

  -- A value inserted into a record of the frontier whose payload parses to a canonical value trie, where
  -- the new tree fits `max_leaf_bytes` and keccak256 gives 32 bytes: the record stays one record in
  -- RAM, whose payload parses to a canonical value trie again and whose root is the trie's; a
  -- frontier read of the new payload gives the value at the inserted key, and at any other key
  -- what it read before.
  pub record_get-insert_in_record :
      ((bytes : List ℕ) → length (x.keccak256 bytes) ≡ 32)
      → (store : Store) (max_leaf_bytes f g h : ℕ) (bytes root nibbles j v : List ℕ) (n' : Node)
      → (leaf : LeafTrie h bytes root) → h ≤ 128
      → Nibbles (drop (local_depth leaf.sub.prefix) nibbles)
      → length (drop (local_depth leaf.sub.prefix) nibbles) ≡ h
      → length (drop (local_depth leaf.sub.prefix) j) ≡ h
      → h < f
      → 2 * h + 2 ≤ g
      → record_node_insert f leaf.sub.node
          (drop (local_depth leaf.sub.prefix) nibbles)
          (LeafOp.value v)
        ≡ ok n'
      → record_size (length leaf.sub.prefix) n' ≤ max_leaf_bytes
      → max_leaf_bytes < 4294967296
      → (bytes' : List ℕ) × (root' : List ℕ) × (insert_in_record store max_leaf_bytes f
            (ok bytes)
            nibbles
            (LeafOp.value v)
          ≡ ok (mem bytes' root'))
        × LeafTrie h bytes' root'
        × (record_get store g j (ok bytes') ≡ (
            if list_eqb
              (drop (local_depth leaf.sub.prefix) j)
              (drop (local_depth leaf.sub.prefix) nibbles)
            then ok (some v)
            else record_get store g j (ok bytes)))
  unfolding insert_in_record
  record_get-insert_in_record wide store max_leaf_bytes f g h bytes root nibbles j v n' leaf hb nib
        e ej bf bg ran small bound =
      let depth : ℕ = local_depth leaf.sub.prefix in
      let ins =
        node_get-insert_value store j v (drop depth nibbles) (drop depth j) f g leaf.tree nib e ej
          bf bg in
      let node_eq : ins.0 ≡ n' = cc (ins.1, ran) in
      let tree : Trie IsValue h n' = rw (← node_eq) ins.2 in
      let r =
        make_mem_leaf-RewrittenLeaf wide h leaf.sub.prefix n' leaf.prefix_fits leaf.prefix_short
          tree hb (omega (arith, small, bound)) in
      (
        r.bytes,
        finalize (hash_node n'),
        rw (leaf.parsed, ran)
            (rewritten_leaf-make_mem_leaf store max_leaf_bytes f
                (record { prefix = leaf.sub.prefix; node = n' }) small
              ∙ r.made),
        r.leaf,
        record-node_get store g r.leaf j
            ∙ ap (λ p. node_get store g j r.leaf.sub.node (drop (local_depth p) j)) r.prefix_eq
            ∙ r.same store g j (drop depth j) ej bg
            ∙ (rw (← node_eq) ins.3)
            ∙ ap
                (λ (o : Result (Option (List ℕ))).
                  if list_eqb (drop depth j) (drop depth nibbles) then ok (some v) else o)
                (sym (record-node_get store g leaf j)),
      )
