-- ===== src/Record/Trie/Look.antt =====
-- What a record's node tree holds at a key, one level at a time and with no fuel.
use mpt_flat_poc.Prelude.{
  ℕ, zero, suc, ◌+◌, ◌*◌, ◌<◌, ◌≤◌, ◌≡◌, refl, sym, Bool, true, false, Option, none, some, List, [],
  ◌∷◌, length, length-drop, drop, Option-cases, inl, inr, list_eqb, if◌then◌else◌, arith, ◌∙◌,
}
use mpt_flat_poc.Externals.{Externals}
use mpt_flat_poc.Node.{NodeRef, Node, Slots, empty, branch, raw, slot_at, make_extension}
use mpt_flat_poc.Codec.Lazy.{parse_node_lazy}
use mpt_flat_poc.Record.Get.{starts_with}
use mpt_flat_poc.Record.Trie.{
  Payload, Trie, nothing, single, along, fork, sliced, terminal, find, look, look_in, value, fields,
}
use mpt_flat_poc.Node.Access.{is_raw}
use mpt_flat_poc.Result.{ok}

-- What a raw slice costs on top of the node that it parses to.
abbrev pub slack : Node → ℕ
slack n = if is_raw n then 1 else 0

pub slack_le : (n : Node) → slack n ≤ 1
slack_le n = ground arith

module _ ⦃x : Externals⦄ where
  find-terminal :
      (f : ℕ) (p : Payload) (path rest : List ℕ)
      → find (suc f) (terminal p path) rest ≡ (if list_eqb rest path then some p else none)
  unfolding find terminal
  find-terminal f (value v) path rest = refl
  find-terminal f (fields nonce balance code_hash storage) path rest = refl

module _ ⦃x : Externals⦄ {Good : Payload → Type 0} where
  -- Any fuel above the bound gives what `look` gives.
  find-eq :
      {h : ℕ} {n : Node}
      → Trie Good h n
      → (f g : ℕ) (rest : List ℕ) → length rest ≡ h
      → 2 * h + slack n < f
      → 2 * h + slack n < g
      → find f n rest ≡ find g n rest
  unfolding find make_extension
  find-eq t zero g rest e a b = absurd (omega arith)
  find-eq t (suc f) zero rest e a b = absurd (omega arith)
  find-eq nothing (suc f) (suc g) rest e a b = refl
  find-eq (single p path good nib len) (suc f) (suc g) rest e a b =
      find-terminal f p path rest ∙ sym (find-terminal g p path rest)
  find-eq {h = h} (along k n path child nib len br t) (suc f) (suc g) rest e a b =
      let below : find f child (drop (length (n ∷ path)) rest)
          ≡ find g child (drop (length (n ∷ path)) rest) =
        find-eq {h = k} t f g _ (omega (arith, length-drop (length (n ∷ path)) rest))
          (omega (arith, slack_le child)) (omega (arith, slack_le child)) in
      rw below
  find-eq {h = h} (fork k cs nref eh sz occ mk ne ts) (suc f) (suc g) [] e a b = refl
  find-eq {h = h} (fork k cs nref eh sz occ mk ne ts) (suc f) (suc g) (i ∷ rest) e a b =
      elim (Option-cases (slot_at cs i)) [
        | inl miss ↦ rw (miss, find)
        | inr (c, hit) ↦
            rw (hit, find)
              (find-eq {h = k} (ts i c hit) f g rest (omega arith) (omega (arith, slack_le c))
                (omega (arith, slack_le c)))
      ]
  find-eq {h = h} (sliced buf off len n parse cut nr ne t) (suc f) (suc g) rest e a b =
      rw (parse, find) (find-eq {h = h} t f g rest e (ground arith) (ground arith))

  -- The bound holds for the fuel of `look`, and for one unit less below a level.
  look-eq :
      {h : ℕ} {n : Node}
      → Trie Good h n
      → (f : ℕ) (rest : List ℕ) → length rest ≡ h
      → 2 * h + 1 < f
      → find f n rest ≡ look n rest
  unfolding look
  look-eq {h} {n} t f rest e a =
      find-eq t f _ rest e (omega (arith, slack_le n)) (omega (arith, slack_le n))

module _ ⦃x : Externals⦄ where
  pub look-nothing : (rest : List ℕ) → look empty rest ≡ none
  unfolding look find
  look-nothing rest = refl

  pub look-single :
      (p : Payload) (path rest : List ℕ)
      → look (terminal p path) rest ≡ (if list_eqb rest path then some p else none)
  unfolding look
  look-single p path rest = find-terminal _ p path rest

module _ ⦃x : Externals⦄ {Good : Payload → Type 0} where
  pub look-along :
      {k : ℕ} (n : ℕ) (path : List ℕ) {child : Node} (rest : List ℕ)
      → Trie Good k child
      → length (n ∷ path) + k ≡ length rest
      → look (make_extension (n ∷ path) child) rest
        ≡ (if starts_with rest (n ∷ path) then look child (drop (length (n ∷ path)) rest) else none)
  unfolding make_extension
  look-along n path {child} rest t e = unfold look find in rw below
    where
      below :
          find (suc (2 * length rest)) child (drop (length (n ∷ path)) rest)
          ≡ look child (drop (length (n ∷ path)) rest)
      below = look-eq t _ _ (omega (arith, length-drop (length (n ∷ path)) rest)) (omega arith)

  pub look-fork :
      {k : ℕ} (cs : Slots) (nref : NodeRef) (i : ℕ) (rest : List ℕ)
      → ((i : ℕ) (c : Node) → slot_at cs i ≡ some c → Trie Good k c)
      → k ≡ length rest
      → look (branch cs nref) (i ∷ rest) ≡ look_in (slot_at cs i) rest
  look-fork cs nref i rest ts e = elim (Option-cases (slot_at cs i)) [
    | inl miss ↦ unfold look find in rw (miss, look, find)
    | inr (c, hit) ↦
        let below : find (suc (2 * length (i ∷ rest))) c rest ≡ look c rest =
          look-eq (ts i c hit) _ rest (omega arith) (omega arith) in
        unfold look find in rw (hit, look, find) below
  ]

  pub look-sliced :
      {h : ℕ} (buf : List ℕ) (off len : ℕ) (nref : NodeRef) {n : Node} (rest : List ℕ)
      → parse_node_lazy buf off len ≡ ok n
      → is_raw n ≡ false
      → Trie Good h n
      → length rest ≡ h
      → look (raw buf off len nref) rest ≡ look n rest
  look-sliced buf off len nref {n} rest parse nr t e =
      let below : find (suc (2 * length rest)) n rest ≡ look n rest =
        unfold look in find-eq t _ _ rest e (ground arith) (ground arith) in
      unfold look find in rw (parse, look, find) below

module _ ⦃x : Externals⦄ where
  -- What is held is good.
  abbrev pub Holding : (Payload → Type 0) → Option Payload → Type 0
  Holding Good none = Unit
  Holding Good (some p) = Good p

  Holding-if :
      (Good : Payload → Type 0) (b : Bool) (o : Option Payload)
      → Holding Good o
      → Holding Good (if b then o else none)
  Holding-if Good true o h = h
  Holding-if Good false o h = tt

  pub look-Holding :
      {Good : Payload → Type 0} {h : ℕ} {n : Node}
      → Trie Good h n
      → (rest : List ℕ) → length rest ≡ h
      → Holding Good (look n rest)
  look-Holding nothing rest e = rw (look-nothing rest) tt
  look-Holding {Good} (single p path good nib len) rest e =
      rw (look-single p path rest) (Holding-if Good (list_eqb rest path) (some p) good)
  look-Holding {Good} {h = h} (along k n path child nib len br t) rest e =
      rw (look-along n path rest t (omega arith)) (
        Holding-if Good (starts_with rest (n ∷ path)) _ (
          look-Holding {h = k} t (drop (length (n ∷ path)) rest)
            (omega (arith, length-drop (length (n ∷ path)) rest))))
  look-Holding (fork k cs nref eh sz occ mk ne ts) [] e = absurd (omega arith)
  look-Holding {h = h} (fork k cs nref eh sz occ mk ne ts) (i ∷ rest) e =
      elim (Option-cases (slot_at cs i)) [
        | inl miss ↦ rw (look-fork cs nref i rest ts (omega arith), miss) tt
        | inr (c, hit) ↦
            rw (look-fork cs nref i rest ts (omega arith), hit)
              (look-Holding {h = k} (ts i c hit) rest (omega arith))
      ]
  look-Holding {h = h} (sliced buf off len n parse cut nr ne t) rest e =
      rw (look-sliced buf off len _ rest parse nr t e) (look-Holding {h = h} t rest e)
