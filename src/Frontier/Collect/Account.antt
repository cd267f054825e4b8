-- ===== src/Frontier/Collect/Account.antt =====
-- src/lib.rs: `node_collect_storage`, the slots of an account in a record of the state trie.
use mpt_flat_poc.Prelude.{
  ℕ, suc, zero, ◌+◌, ◌*◌, ◌<◌, ◌≤◌, ◌≡◌, refl, sym, ◌∙◌, ap, Bool, true, false, none, some, Option,
  List, [], ◌∷◌, length, length-drop, drop, arith, Option-cases, inl, inr, list_eqb, if◌then◌else◌,
  subst,
}
use mpt_flat_poc.Externals.{Externals}
use mpt_flat_poc.Eth.{key_nibbles}
use mpt_flat_poc.Node.{Node, make_extension, slot_at}
use mpt_flat_poc.Record.Get.{Store, starts_with, node_get_storage}
use mpt_flat_poc.Record.Trie.{
  Payload, value, fields, Trie, nothing, single, along, fork, sliced, terminal, look, payload_value,
}
use mpt_flat_poc.Record.Trie.Look.{
  slack, slack_le, look-nothing, look-single, look-along, look-fork, look-sliced, look-Holding,
}
use mpt_flat_poc.Record.Trie.GetStorage.{IsAccount, held_slot, node_get_storage-look}
use mpt_flat_poc.Record.Values.{IsValue, Bytes, length-key_nibbles}
use mpt_flat_poc.Frontier.Collect.{Collected, collect_storage_subtree, node_collect_storage}
use mpt_flat_poc.Frontier.Collect.Gather.{Listed, Gathered}
use mpt_flat_poc.Frontier.Collect.Complete.{gathered, value_held}
use mpt_flat_poc.Frontier.Collect.Keys.{
  look-Nibbles, pack_pairs-key_nibbles, key_nibbles-pack_pairs,
}
use mpt_flat_poc.Result.{Result, ok}

module _ ⦃x : Externals⦄ where
  -- What is collected of the storage of a payload.
  record Slotted (o : Option Payload) (result : Result Collected) : Type 0 where
    out : Collected
    runs : result ≡ ok out
    complete :
        (slot v : List ℕ)
        → length slot ≡ 32
        → Bytes slot
        → held_slot slot o ≡ some v
        → Listed (slot, v) out
    sound : (slot v : List ℕ) → Listed (slot, v) out → held_slot slot o ≡ some v

  none-Slotted : Slotted none (ok [])
  none-Slotted = record {
    out = [];
    runs = refl;
    complete = λ slot v e b hit. cc;
    sound = λ slot v l. elim l [ ];
  }

  if-Slotted :
      (b : Bool) (o : Option Payload) (result : Result Collected)
      → Slotted o result
      → Slotted (if b then o else none) (if b then result else ok [])
  if-Slotted true o result s = s
  if-Slotted false o result s = none-Slotted

  fields-Slotted :
      (f nonce balance : ℕ) (code_hash : List ℕ) (s : Node)
      → Trie IsValue 64 s
      → 130 ≤ f
      → Slotted (some (fields nonce balance code_hash s)) (collect_storage_subtree f s [])
  unfolding payload_value
  fields-Slotted f nonce balance code_hash s t a = record {
    out = b.out;
    runs = b.runs;
    complete = λ slot v e bytes hit.
        let whole : length (key_nibbles slot) ≡ 64 = omega (arith, length-key_nibbles slot, e) in
        subst (λ k. Listed (k, v) b.out) (pack_pairs-key_nibbles slot bytes)
          (b.complete (key_nibbles slot) v whole (
            value_held (look s (key_nibbles slot)) v (look-Holding t (key_nibbles slot) whole)
              hit));
    sound = λ slot v l.
        let d = b.sound (slot, v) l in
        let nib = look-Nibbles t d.0 (value v) d.1 d.3 in
        let key : key_nibbles slot ≡ d.0 =
          ap key_nibbles d.2 ∙ key_nibbles-pack_pairs 32 d.0 (omega (arith, d.1)) nib in
        rw (key, d.3) refl;
  }
    where
      b : Gathered 64 (look s) [] (collect_storage_subtree f s [])
      b = gathered t f [] refl (omega (arith, a, slack_le s))

  slotted :
      {h : ℕ} {n : Node}
      → Trie IsAccount h n
      → (f : ℕ) (rest : List ℕ) → length rest ≡ h
      → 2 * h + slack n + 130 < f
      → Slotted (look n rest) (node_collect_storage f n rest)
  unfolding node_collect_storage make_extension terminal
  slotted t zero rest e a = absurd (omega arith)
  slotted nothing (suc f) rest e a = rw (look-nothing rest) none-Slotted
  slotted (single (value v) path good nib len) (suc f) rest e a = absurd good
  slotted (single (fields nonce balance code_hash s) path good nib len) (suc f) rest e a =
      rw (look-single (fields nonce balance code_hash s) path rest) (
        if-Slotted (list_eqb rest path) (some (fields nonce balance code_hash s)) _
          (fields-Slotted f nonce balance code_hash s good (omega (arith, a))))
  slotted {h} (along k n path child nib len br t) (suc f) rest e a =
      rw (look-along n path rest t (omega (arith, e, len))) (
        if-Slotted (starts_with rest (n ∷ path)) _ _ (
          slotted {h = k} t f (drop (length (n ∷ path)) rest)
            (omega (arith, length-drop (length (n ∷ path)) rest, e, len))
            (omega (arith, slack_le child))))
  slotted (fork k cs nref eh sz occ mk ne ts) (suc f) [] e a = absurd (omega arith)
  slotted {h} (fork k cs nref eh sz occ mk ne ts) (suc f) (i ∷ rest) e a =
      elim (Option-cases (slot_at cs i)) [
        | inl miss ↦
            rw (look-fork cs nref i rest ts (omega (arith, e, eh)), node_collect_storage, miss)
              none-Slotted
        | inr (c, hit) ↦
            rw (look-fork cs nref i rest ts (omega (arith, e, eh)), node_collect_storage, hit)
              (slotted {h = k} (ts i c hit) f rest (omega (arith, e, eh))
                (omega (arith, slack_le c)))
      ]
  slotted {h} (sliced buf off len n parse cut nr ne t) (suc f) rest e a =
      rw (look-sliced buf off len _ rest parse nr t e, parse)
        (slotted {h = h} t f rest e (ground arith))

module _ ⦃x : Externals⦄ (store : Store) (nibbles : List ℕ) where
  -- On a canonical state trie of structured accounts, `node_collect_storage` of an account's path
  -- returns a list within the fuel, without error or panic: a slot of 32 bytes is listed with the
  -- value that `node_get_storage` reads there, and every entry of 32 bytes is such a read.
  pub node_collect_storage_lem :
      {h : ℕ} {n : Node} (f g : ℕ) (rest : List ℕ)
      → Trie IsAccount h n
      → length rest ≡ h
      → 2 * h + 132 ≤ f
      → 2 * h + 133 ≤ g
      → (slots : Collected) × (node_collect_storage f n rest ≡ ok slots)
        × ((slot v : List ℕ)
            → length slot ≡ 32
            → Bytes slot
            → node_get_storage store g nibbles slot n rest ≡ ok (some v)
            → Listed (slot, v) slots)
        × ((slot v : List ℕ)
            → length slot ≡ 32
            → Listed (slot, v) slots
            → node_get_storage store g nibbles slot n rest ≡ ok (some v))
  node_collect_storage_lem {h} {n} f g rest t e bf bg =
      let b = slotted t f rest e (omega (arith, slack_le n)) in
      (
        b.out,
        b.runs,
        λ slot v wide bytes read.
            b.complete slot v wide bytes (ok_inj (sym (reads slot wide) ∙ read)),
        λ slot v wide l. reads slot wide ∙ ap ok (b.sound slot v l),
      )
    where
      reads :
          (slot : List ℕ)
          → length slot ≡ 32
          → node_get_storage store g nibbles slot n rest ≡ ok (held_slot slot (look n rest))
      reads slot wide =
          node_get_storage-look store nibbles slot wide t g rest e (omega (arith, slack_le n))

      ok_inj :
          {a b : Option (List ℕ)} → (let r : Result (Option (List ℕ)) = ok a in r) ≡ ok b → a ≡ b
      ok_inj same = cc
