-- ===== src/Record/Trie/Under.antt =====
-- Reading a tree below a prefix, and reading it with one key written anew.
use mpt_flat_poc.Prelude.{
  ℕ, ◌+◌, ◌≡◌, refl, ◌≢◌, ◌∙◌, true, false, Option, none, some, List, [], ◌∷◌, ◌++◌, length, drop,
  arith, ◌==◌, list_eqb, if◌then◌else◌,
}
use mpt_flat_poc.Externals.{Externals}
use mpt_flat_poc.Node.{Node, make_extension}
use mpt_flat_poc.Record.Get.{starts_with}
use mpt_flat_poc.Record.Trie.{Payload, Trie, terminal, look}
use mpt_flat_poc.Record.Trie.Look.{look-single, look-along}

-- What a key holds.
abbrev pub Holds : Type 0
Holds = List ℕ → Option Payload

-- Keys that begin with the prefix read `F` behind it, others hold nothing.
unfoldable pub under : List ℕ → Holds → Holds
under [] F j = F j
under (n ∷ pre) F [] = none
under (n ∷ pre) F (i ∷ j) = elim (i == n) [ true ↦ under pre F j | false ↦ none ]

-- `F` with `rest` holding `p`.
unfoldable pub put : List ℕ → Payload → Holds → Holds
put rest p F j = if list_eqb j rest then some p else F j

-- Two paths that part: the one is not below the other's first nibbles.
pub under-parts :
    (pre : List ℕ) (a b : ℕ) (r : List ℕ) (F : Holds)
    → a ≢ b
    → under (pre ++ (a ∷ [])) F (pre ++ (b ∷ r)) ≡ none
unfolding under
under-parts [] a b r F ne = ground arith
under-parts (n ∷ pre) a b r F ne = ground (arith, under-parts pre a b r F ne)

pub under_elsewhere :
    (pre : List ℕ) (a b : ℕ) (r q : List ℕ) (F : Holds)
    → a ≢ b
    → under (pre ++ (b ∷ r)) F (pre ++ (a ∷ q)) ≡ none
unfolding under
under_elsewhere [] a b r q F ne = ground arith
under_elsewhere (n ∷ pre) a b r q F ne = ground (arith, under_elsewhere pre a b r q F ne)

pub under_self : (pre q : List ℕ) (F : Holds) → under pre F (pre ++ q) ≡ F q
unfolding under
under_self [] q F = refl
under_self (n ∷ pre) q F = ground (arith, under_self pre q F)

pub put-cong :
    (rest : List ℕ) (p : Payload) (F G : Holds) (j : List ℕ)
    → F j ≡ G j
    → put rest p F j ≡ put rest p G j
unfolding put
put-cong rest p F G j e = rw e

pub under-append :
    (pre q : List ℕ) (F : Holds) (j : List ℕ) → under (pre ++ q) F j ≡ under pre (under q F) j
unfolding under
under-append [] q F j = refl
under-append (n ∷ pre) q F [] = refl
under-append (n ∷ pre) q F (i ∷ j) = ground (arith, under-append pre q F j)

-- Under a prefix only keys of one length are read.
pub under-cong :
    (pre : List ℕ) (F G : Holds) (k : ℕ)
    → ((j : List ℕ) → length j ≡ k → F j ≡ G j)
    → (j : List ℕ) → length j ≡ length pre + k
    → under pre F j ≡ under pre G j
unfolding under
under-cong [] F G k h j e = h j (omega arith)
under-cong (n ∷ pre) F G k h [] e = refl
under-cong (n ∷ pre) F G k h (i ∷ j) e = ground (arith, under-cong pre F G k h j (omega arith))

pub under-put :
    (pre q : List ℕ) (p : Payload) (F : Holds) (j : List ℕ)
    → under pre (put q p F) j ≡ put (pre ++ q) p (under pre F) j
unfolding under put list_eqb
under-put [] q p F j = refl
under-put (n ∷ pre) q p F [] = refl
under-put (n ∷ pre) q p F (i ∷ j) = ground (arith, under-put pre q p F j)

starts_with-under :
    (path : List ℕ) (F : Holds) (j : List ℕ)
    → (if starts_with j path then F (drop (length path) j) else none) ≡ under path F j
unfolding starts_with under list_eqb
starts_with-under [] F j = refl
starts_with-under (n ∷ path) F [] = ground arith
starts_with-under (n ∷ path) F (i ∷ j) = ground (arith, starts_with-under path F j)

module _ ⦃x : Externals⦄ where
  pub look-terminal :
      (pre path : List ℕ) (p : Payload) (j : List ℕ)
      → look (terminal p (pre ++ path)) j ≡ under pre (look (terminal p path)) j
  unfolding under list_eqb
  look-terminal [] path p j = refl
  look-terminal (n ∷ pre) path p [] = rw (look-single p (n ∷ (pre ++ path)) [])
  look-terminal (n ∷ pre) path p (i ∷ j) = ground (
    arith,
    look-single p (n ∷ (pre ++ path)) (i ∷ j),
    look-single p (pre ++ path) j,
    look-terminal pre path p j,
  )

  pub look-extension :
      {Good : Payload → Type 0} {k : ℕ} (n : ℕ) (path : List ℕ) {child : Node} (j : List ℕ)
      → Trie Good k child
      → length (n ∷ path) + k ≡ length j
      → look (make_extension (n ∷ path) child) j ≡ under (n ∷ path) (look child) j
  look-extension n path {child} j t e =
      look-along n path j t e ∙ starts_with-under (n ∷ path) (look child) j
