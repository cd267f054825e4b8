-- ===== src/Record/Paths.antt =====
-- Two nibble paths: one goes on where the other ends, or they part at a nibble.
use mpt_flat_poc.Prelude.{
  ℕ, suc, ◌+◌, ◌≤◌, ◌≡◌, refl, ap, ◌≢◌, Bool-cases, inl, inr, List, [], ◌∷◌, ◌++◌, length, take,
  drop, arith, eqb→eq, eqb→ne, eq→eqb, ne→eqb, false, ◌==◌, list_eqb, subst, length-append,
}
use mpt_flat_poc.Record.Insert.{common_prefix, index}
use mpt_flat_poc.Record.Trie.{Nibbles}
use mpt_flat_poc.Result.{ok}

pub data View : List ℕ → List ℕ → Type 0 where
  covers : (path tail : List ℕ) → View path (path ++ tail)
  parts : (pre : List ℕ) (a b : ℕ) (p r : List ℕ) → a ≢ b → View (pre ++ (a ∷ p)) (pre ++ (b ∷ r))

cons-View : (n : ℕ) {path rest : List ℕ} → View path rest → View (n ∷ path) (n ∷ rest)
cons-View n (covers path tail) = covers (n ∷ path) tail
cons-View n (parts pre a b p r ne) = parts (n ∷ pre) a b p r ne

pub view : (path rest : List ℕ) → length path ≤ length rest → View path rest
view [] rest h = covers [] rest
view (a ∷ path) [] h = absurd (omega arith)
view (a ∷ path) (b ∷ rest) h = elim (Bool-cases (a == b)) [
  | inl same ↦
      subst (λ c. View (a ∷ path) (c ∷ rest)) (eqb→eq a b same)
        (cons-View a (view path rest (omega arith)))
  | inr differ ↦ parts [] a b path rest (eqb→ne a b differ)
]

pub common_prefix-covers : (path tail : List ℕ) → common_prefix path (path ++ tail) ≡ length path
unfolding common_prefix
common_prefix-covers [] tail = refl
common_prefix-covers (a ∷ path) tail =
    rw (eq→eqb a a refl) (ap suc (common_prefix-covers path tail))

pub common_prefix-parts :
    (pre : List ℕ) (a b : ℕ) (p r : List ℕ)
    → a ≢ b
    → common_prefix (pre ++ (a ∷ p)) (pre ++ (b ∷ r)) ≡ length pre
unfolding common_prefix
common_prefix-parts [] a b p r ne = rw (ne→eqb a b ne)
common_prefix-parts (c ∷ pre) a b p r ne =
    rw (eq→eqb c c refl) (ap suc (common_prefix-parts pre a b p r ne))

pub drop_past : (pre : List ℕ) (a : ℕ) (p : List ℕ) → drop (length pre + 1) (pre ++ (a ∷ p)) ≡ p
drop_past [] a p = refl
drop_past (c ∷ pre) a p =
    let e : suc (length pre) + 1 ≡ suc (length pre + 1) = omega arith in rw e (drop_past pre a p)

pub take-append : (pre q : List ℕ) → take (length pre) (pre ++ q) ≡ pre
take-append [] q = refl
take-append (c ∷ pre) q = rw (take-append pre q)

pub drop-append : (pre q : List ℕ) → drop (length pre) (pre ++ q) ≡ q
drop-append [] q = refl
drop-append (c ∷ pre) q = drop-append pre q

pub index-append : (pre : List ℕ) (a : ℕ) (p : List ℕ) → index (pre ++ (a ∷ p)) (length pre) ≡ ok a
unfolding index
index-append [] a p = refl
index-append (c ∷ pre) a p = index-append pre a p

pub Nibbles-left : (pre q : List ℕ) → Nibbles (pre ++ q) → Nibbles pre
Nibbles-left [] q h = tt
Nibbles-left (c ∷ pre) q h = (h.0, Nibbles-left pre q h.1)

pub Nibbles-right : (pre q : List ℕ) → Nibbles (pre ++ q) → Nibbles q
Nibbles-right [] q h = h
Nibbles-right (c ∷ pre) q h = Nibbles-right pre q h.1

pub common_prefix_self : (path : List ℕ) → common_prefix path path ≡ length path
unfolding common_prefix
common_prefix_self [] = refl
common_prefix_self (a ∷ path) = rw (eq→eqb a a refl) (ap suc (common_prefix_self path))

pub list_eqb-parts :
    (pre : List ℕ) (a b : ℕ) (p r : List ℕ)
    → a ≢ b
    → list_eqb (pre ++ (b ∷ r)) (pre ++ (a ∷ p)) ≡ false
unfolding list_eqb
list_eqb-parts [] a b p r ne = ground arith
list_eqb-parts (c ∷ pre) a b p r ne = ground (arith, list_eqb-parts pre a b p r ne)

pub parts-lt : (pre : List ℕ) (a : ℕ) (p : List ℕ) → (length pre == length (pre ++ (a ∷ p))) ≡ false
parts-lt pre a p = ne→eqb _ _ (omega (arith, length-append {0} pre (a ∷ p)))
