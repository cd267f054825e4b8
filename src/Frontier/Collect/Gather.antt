-- ===== src/Frontier/Collect/Gather.antt =====
-- src/lib.rs: what `collect_storage_subtree` collects below a leaf and below an extension.
use mpt_flat_poc.Prelude.{
  ℕ, suc, ◌+◌, ◌≡◌, refl, sym, ◌∙◌, ap, none, some, Option, List, [], ◌∷◌, ◌++◌, length,
  length-append, length-drop, drop, arith, Bool-cases, inl, inr, list_eqb, list_eqb_refl,
  list_eqb→eq, append_assoc, eq→eqb, ◌⊎◌,
}
use mpt_flat_poc.Externals.{Externals}
use mpt_flat_poc.Eth.{pack_pairs}
use mpt_flat_poc.Node.{Node, empty, make_extension, leaf_node}
use mpt_flat_poc.Record.Get.{starts_with}
use mpt_flat_poc.Record.Paths.{drop-append}
use mpt_flat_poc.Record.Trie.{Payload, value, Trie, terminal, look}
use mpt_flat_poc.Record.Trie.Look.{look-nothing, look-single, look-along}
use mpt_flat_poc.Record.Trie.Remove.{starts_with-append, starts_with-eq}
use mpt_flat_poc.Record.Values.{IsValue}
use mpt_flat_poc.Frontier.Collect.{Collected, nibbles_to_key, collect_storage_subtree}
use mpt_flat_poc.Result.{Result, ok}

-- An entry of what was collected.
pub data Listed (e : List ℕ × List ℕ) : Collected → Type 0 where
  here : {es : Collected} → Listed e (e ∷ es)
  there : {d : List ℕ × List ℕ} {es : Collected} → Listed e es → Listed e (d ∷ es)

pub Listed-left :
    {e : List ℕ × List ℕ} {xs : Collected} (ys : Collected) → Listed e xs → Listed e (xs ++ ys)
Listed-left ys here = here
Listed-left ys (there l) = there (Listed-left ys l)

pub Listed-right :
    {e : List ℕ × List ℕ} (xs : Collected) {ys : Collected} → Listed e ys → Listed e (xs ++ ys)
Listed-right [] l = l
Listed-right (x ∷ xs) l = there (Listed-right xs l)

pub Listed-cases :
    {e : List ℕ × List ℕ} (xs : Collected) {ys : Collected}
    → Listed e (xs ++ ys)
    → Listed e xs ⊎ Listed e ys
Listed-cases [] l = inr l
Listed-cases (x ∷ xs) here = inl here
Listed-cases (x ∷ xs) (there l) = elim (Listed-cases xs l) [ inl m ↦ inl (there m) | inr m ↦ inr m ]

whole_key :
    (nibbles : List ℕ) → length nibbles ≡ 64 → nibbles_to_key nibbles ≡ ok (pack_pairs nibbles)
unfolding nibbles_to_key
whole_key nibbles e = rw (eq→eqb (length nibbles) 64 e) refl

module _ ⦃x : Externals⦄ where
  -- What is collected below `path`, for a tree that holds `held`.
  pub record Gathered (h : ℕ) (held : List ℕ → Option Payload) (path : List ℕ)
      (result : Result Collected) : Type 0 where
    pub out : Collected
    pub runs : result ≡ ok out
    pub complete :
        (rest v : List ℕ)
        → length rest ≡ h
        → held rest ≡ some (value v)
        → Listed (pack_pairs (path ++ rest), v) out
    pub sound :
        (e : List ℕ × List ℕ)
        → Listed e out
        → (rest : List ℕ) × (length rest ≡ h)
          × (e.0 ≡ pack_pairs (path ++ rest))
          × (held rest ≡ some (value e.1))

  pub nothing-Gathered : (h f : ℕ) (path : List ℕ) → Gathered h (look empty) path (ok [])
  nothing-Gathered h f path = record {
    out = [];
    runs = refl;
    complete = λ rest v e hit. absurd (no_value rest v hit);
    sound = λ e l. elim l [ ];
  }
    where
      no_value : (rest v : List ℕ) → look empty rest ≡ some (value v) → ⊥
      no_value rest v hit = let miss = look-nothing rest in cc

  pub single-Gathered :
      (f h : ℕ) (v lp path : List ℕ)
      → length lp ≡ h
      → length path + h ≡ 64
      → Gathered h
          (look (terminal (value v) lp))
          path
          (collect_storage_subtree (suc f) (terminal (value v) lp) path)
  unfolding collect_storage_subtree terminal leaf_node
  single-Gathered f h v lp path len e = record {
    out = (pack_pairs (path ++ lp), v) ∷ [];
    runs = rw (whole_key (path ++ lp) (omega (arith, length-append path lp, len, e))) refl;
    complete = complete;
    sound = sound;
  }
    where
      complete :
          (rest w : List ℕ)
          → length rest ≡ h
          → look (terminal (value v) lp) rest ≡ some (value w)
          → Listed (pack_pairs (path ++ rest), w) ((pack_pairs (path ++ lp), v) ∷ [])
      complete rest w el hit = elim (Bool-cases (list_eqb rest lp)) [
        | inl same ↦
            let found : some (value v) ≡ some (value w) =
              sym (look-single (value v) lp rest ∙ rw same refl) ∙ hit in
            let v_eq : v ≡ w = cc in rw (list_eqb→eq rest lp same, ← v_eq) here
        | inr other ↦
            let missing : look (terminal (value v) lp) rest ≡ none =
              look-single (value v) lp rest ∙ rw other refl in
            cc
      ]

      sound :
          (d : List ℕ × List ℕ)
          → Listed d ((pack_pairs (path ++ lp), v) ∷ [])
          → (rest : List ℕ) × (length rest ≡ h)
            × (d.0 ≡ pack_pairs (path ++ rest))
            × (look (terminal (value v) lp) rest ≡ some (value d.1))
      sound d here = (lp, len, refl, look-single (value v) lp lp ∙ rw (list_eqb_refl lp) refl)
      sound d (there l) = elim l [ ]

  pub along-Gathered :
      (k h n : ℕ) (ep : List ℕ) (child : Node) (path : List ℕ) (result : Result Collected)
      → length (n ∷ ep) + k ≡ h
      → Trie IsValue k child
      → Gathered k (look child) (path ++ (n ∷ ep)) result
      → Gathered h (look (make_extension (n ∷ ep) child)) path result
  along-Gathered k h n ep child path result len t b = record {
    out = b.out;
    runs = b.runs;
    complete = complete;
    sound = λ e l.
        let s = b.sound e l in
        (
          (n ∷ ep) ++ s.0,
          omega (arith, length-append (n ∷ ep) s.0, s.1, len),
          s.2 ∙ ap pack_pairs (append_assoc path (n ∷ ep) s.0),
          below s.0 s.1 ∙ s.3,
        );
  }
    where
      below :
          (rest : List ℕ)
          → length rest ≡ k
          → look (make_extension (n ∷ ep) child) ((n ∷ ep) ++ rest) ≡ look child rest
      below rest e =
          look-along n ep ((n ∷ ep) ++ rest) t (omega (arith, length-append (n ∷ ep) rest, e))
          ∙ rw (starts_with-append (n ∷ ep) rest, drop-append (n ∷ ep) rest) refl

      complete :
          (rest v : List ℕ)
          → length rest ≡ h
          → look (make_extension (n ∷ ep) child) rest ≡ some (value v)
          → Listed (pack_pairs (path ++ rest), v) b.out
      complete rest v e hit = elim (Bool-cases (starts_with rest (n ∷ ep))) [
        | inl starts ↦
            let left : List ℕ = drop (length (n ∷ ep)) rest in
            let short : length left ≡ k =
              omega (arith, length-drop (length (n ∷ ep)) rest, e, len) in
            let rest_eq : rest ≡ (n ∷ ep) ++ left = starts_with-eq rest (n ∷ ep) starts in
            let inner : look child left ≡ some (value v) =
              sym (below left short)
              ∙ ap (look (make_extension (n ∷ ep) child)) (sym rest_eq)
              ∙ hit in
            let key : (path ++ (n ∷ ep)) ++ left ≡ path ++ rest =
              append_assoc path (n ∷ ep) left ∙ ap (λ r. path ++ r) (sym rest_eq) in
            rw (← key) (b.complete left v short inner)
        | inr other ↦
            let missing : look (make_extension (n ∷ ep) child) rest ≡ none =
              look-along n ep rest t (omega (arith, e, len)) ∙ rw other refl in
            cc
      ]
