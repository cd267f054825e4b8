-- ===== src/Frontier/Collect/Branches.antt =====
-- src/lib.rs: what `collect_storage_subtree` collects below a branch.
use mpt_flat_poc.Prelude.{
  ℕ, zero, suc, ◌+◌, ◌≡◌, refl, sym, ◌∙◌, ap, subst, none, some, List, [], ◌∷◌, ◌++◌, length, arith,
  Option-cases, inl, inr, append_assoc,
}
use mpt_flat_poc.Externals.{Externals}
use mpt_flat_poc.Eth.{pack_pairs}
use mpt_flat_poc.Node.{NodeRef, Node, Slots, branch, end, vacant, filled, slot_at}
use mpt_flat_poc.Record.Trie.{value, Trie, look, look_in}
use mpt_flat_poc.Record.Trie.Look.{look-fork}
use mpt_flat_poc.Record.Values.{IsValue}
use mpt_flat_poc.Frontier.Collect.{Collected, collect_children}
use mpt_flat_poc.Result.{Result, ok, ◌>>=◌}
use mpt_flat_poc.Frontier.Collect.Gather.{Listed, Listed-left, Listed-right, Listed-cases, Gathered}

module _ ⦃x : Externals⦄ where
  -- The same for the slots of a branch from slot `i` on.
  pub record GatheredSlots (k i : ℕ) (cs : Slots) (path : List ℕ) (result : Result Collected)
      : Type 0 where
    out : Collected
    runs : result ≡ ok out
    complete :
        (j : ℕ) (c : Node) (rest v : List ℕ)
        → slot_at cs j ≡ some c
        → length rest ≡ k
        → look c rest ≡ some (value v)
        → Listed (pack_pairs (path ++ ((i + j) ∷ rest)), v) out
    sound :
        (e : List ℕ × List ℕ)
        → Listed e out
        → (j : ℕ) × (c : Node) × (rest : List ℕ) × (slot_at cs j ≡ some c)
          × (length rest ≡ k)
          × (e.0 ≡ pack_pairs (path ++ ((i + j) ∷ rest)))
          × (look c rest ≡ some (value e.1))

  end-Gathered : (k i : ℕ) (path : List ℕ) → GatheredSlots k i end path (ok [])
  unfolding slot_at
  end-Gathered k i path = record {
    out = [];
    runs = refl;
    complete = λ j c rest v hit. cc;
    sound = λ e l. elim l [ ];
  }

  vacant-Gathered :
      (k i : ℕ) (cs : Slots) (path : List ℕ) (result : Result Collected)
      → GatheredSlots k (suc i) cs path result
      → GatheredSlots k i (vacant cs) path result
  unfolding slot_at
  vacant-Gathered k i cs path result b = record {
    out = b.out;
    runs = b.runs;
    complete = complete;
    sound = λ e l.
        let s = b.sound e l in
        let at : suc i + s.0 ≡ i + suc s.0 = omega arith in
        (suc s.0, s.1, s.2, s.3, s.4, s.5 ∙ ap (λ n. pack_pairs (path ++ (n ∷ s.2))) at, s.6);
  }
    where
      complete :
          (j : ℕ) (c : Node) (rest v : List ℕ)
          → slot_at (vacant cs) j ≡ some c
          → length rest ≡ k
          → look c rest ≡ some (value v)
          → Listed (pack_pairs (path ++ ((i + j) ∷ rest)), v) b.out
      complete zero c rest v hit e held = cc
      complete (suc j) c rest v hit e held =
          let at : i + suc j ≡ suc i + j = omega arith in rw at (b.complete j c rest v hit e held)

  filled-Gathered :
      (k i : ℕ) (c : Node) (cs : Slots) (path : List ℕ) (first others : Result Collected)
      → Gathered k (look c) (path ++ (i ∷ [])) first
      → GatheredSlots k (suc i) cs path others
      → GatheredSlots k i
          (filled c cs)
          path
          (first >>= λ here'. others >>= λ others'. ok (here' ++ others'))
  unfolding slot_at
  filled-Gathered k i c cs path first others a b = record {
    out = a.out ++ b.out;
    runs = rw (a.runs, b.runs) refl;
    complete = complete;
    sound = λ e l. elim (Listed-cases a.out l) [
      | inl m ↦
          let s = a.sound e m in
          let at : i ≡ i + 0 = omega arith in
          (
            0,
            c,
            s.0,
            refl,
            s.1,
            s.2
                ∙ ap pack_pairs (append_assoc path (i ∷ []) s.0)
                ∙ ap (λ n. pack_pairs (path ++ (n ∷ s.0))) at,
            s.3,
          )
      | inr m ↦
          let s = b.sound e m in
          let at : suc i + s.0 ≡ i + suc s.0 = omega arith in
          (suc s.0, s.1, s.2, s.3, s.4, s.5 ∙ ap (λ n. pack_pairs (path ++ (n ∷ s.2))) at, s.6)
    ];
  }
    where
      complete :
          (j : ℕ) (d : Node) (rest v : List ℕ)
          → slot_at (filled c cs) j ≡ some d
          → length rest ≡ k
          → look d rest ≡ some (value v)
          → Listed (pack_pairs (path ++ ((i + j) ∷ rest)), v) (a.out ++ b.out)
      complete zero d rest v hit e held =
          let d_eq : d ≡ c = cc in
          let at : i + 0 ≡ i = omega arith in
          rw (at, ← append_assoc path (i ∷ []) rest)
            (Listed-left b.out (a.complete rest v e (rw d_eq at held)))
      complete (suc j) d rest v hit e held =
          let at : i + suc j ≡ suc i + j = omega arith in
          rw at (Listed-right a.out (b.complete j d rest v hit e held))

  pub fork-Gathered :
      (k h : ℕ) (cs : Slots) (nref : NodeRef) (path : List ℕ) (result : Result Collected)
      → h ≡ suc k
      → ((i : ℕ) (c : Node) → slot_at cs i ≡ some c → Trie IsValue k c)
      → GatheredSlots k 0 cs path result
      → Gathered h (look (branch cs nref)) path result
  fork-Gathered k h cs nref path result eh ts b = record {
    out = b.out;
    runs = b.runs;
    complete = complete;
    sound = λ e l.
        let s = b.sound e l in
        (
          s.0 ∷ s.2,
          omega (arith, s.4, eh),
          s.5 ∙ ap (λ n. pack_pairs (path ++ (n ∷ s.2))) (from_zero s.0),
          look-fork cs nref s.0 s.2 ts (sym s.4) ∙ rw (s.3) s.6,
        );
  }
    where
      from_zero : (i : ℕ) → 0 + i ≡ i
      from_zero i = omega arith

      complete :
          (rest v : List ℕ)
          → length rest ≡ h
          → look (branch cs nref) rest ≡ some (value v)
          → Listed (pack_pairs (path ++ rest), v) b.out
      complete [] v e held = absurd (omega (arith, e, eh))
      complete (i ∷ rest) v e held =
          let short : k ≡ length rest = omega (arith, e, eh) in
          let below : look_in (slot_at cs i) rest ≡ some (value v) =
            sym (look-fork cs nref i rest ts short) ∙ held in
          elim (Option-cases (slot_at cs i)) [
            | inl miss ↦ let none_there : look_in (slot_at cs i) rest ≡ none = rw miss refl in cc
            | inr (c, hit) ↦
                subst (λ n. Listed (pack_pairs (path ++ (n ∷ rest)), v) b.out) (from_zero i)
                  (b.complete i c rest v hit (sym short) (rw hit at below))
          ]

  pub collect_children-Gathered :
      (k : ℕ) (collect : Node → List ℕ → Result Collected) (path : List ℕ) (cs : Slots) (i : ℕ)
      → ((j : ℕ) (c : Node)
          → slot_at cs j ≡ some c
          → (n : ℕ) → Gathered k (look c) (path ++ (n ∷ [])) (collect c (path ++ (n ∷ []))))
      → GatheredSlots k i cs path (collect_children collect cs i path)
  unfolding collect_children slot_at
  collect_children-Gathered k collect path end i all = end-Gathered k i path
  collect_children-Gathered k collect path (vacant cs) i all =
      vacant-Gathered k i cs path _
        (collect_children-Gathered k collect path cs (suc i) (λ j. all (suc j)))
  collect_children-Gathered k collect path (filled c cs) i all =
      filled-Gathered k i c cs path _ _ (all 0 c refl i)
        (collect_children-Gathered k collect path cs (suc i) (λ j. all (suc j)))
