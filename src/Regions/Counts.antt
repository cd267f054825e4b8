-- ===== src/Regions/Counts.antt =====
-- How often a region stands in a list, and reads of the growing vectors of src/lib.rs.
use mpt_flat_poc.Prelude.{
  ℕ, zero, suc, ◌+◌, ◌-◌, ◌<◌, ◌≡◌, refl, ap, Bool, Option, none, some, List, [], ◌∷◌, ◌++◌, length,
  length-append, length-replicate, get_or, replicate, ◌==◌, leb, if◌then◌else◌, arith,
}
use mpt_flat_poc.Regions.{grow, update, pop}
use mpt_flat_poc.Regions.Ops.{tagged, clear_fresh}
use mpt_flat_poc.Result.{ok}

unfoldable pub occurs : ℕ → List ℕ → ℕ
occurs r [] = 0
occurs r (y ∷ ys) = let rest : ℕ = occurs r ys in if r == y then suc rest else rest

-- Occurrences among the regions of `snap_hold`.
unfoldable pub held : ℕ → List (ℕ × ℕ) → ℕ
held r [] = 0
held r (h ∷ hs) = let rest : ℕ = held r hs in if r == h.0 then suc rest else rest

pub occurs-append : (r : ℕ) (xs ys : List ℕ) → occurs r (xs ++ ys) ≡ occurs r xs + occurs r ys
unfolding occurs
occurs-append r [] ys = omega arith
occurs-append r (y ∷ xs) ys = ground (arith, occurs-append r xs ys)

pub held-append : (r : ℕ) (xs ys : List (ℕ × ℕ)) → held r (xs ++ ys) ≡ held r xs + held r ys
unfolding held
held-append r [] ys = omega arith
held-append r (h ∷ xs) ys = ground (arith, held-append r xs ys)

pub held-tagged : (r tag : ℕ) (xs : List ℕ) → held r (tagged tag xs) ≡ occurs r xs
unfolding held occurs tagged
held-tagged r tag [] = refl
held-tagged r tag (y ∷ xs) = ground (arith, held-tagged r tag xs)

-- What `pop` takes away.
abbrev pub Popped : ℕ → ℕ → Option (ℕ × List ℕ) → Type 0
Popped r n none = n ≡ 0
Popped r n (some p) = n ≡ (if r == p.0 then suc (occurs r p.1) else occurs r p.1)

pub pop-Popped : (r : ℕ) (xs : List ℕ) → Popped r (occurs r xs) (pop xs)
unfolding occurs pop
pop-Popped r [] = refl
pop-Popped r (y ∷ xs) = one_more (pop xs) (pop-Popped r xs)
  where
    one_more :
        (o : Option (ℕ × List ℕ))
        → Popped r (occurs r xs) o
        → Popped r
            (occurs r (y ∷ xs))
            (elim o [ none ↦ some (y, []) | some p ↦ some (p.0, y ∷ p.1) ])
    one_more none h = ground (arith, h)
    one_more (some p) h = ground (arith, h)

module _ {ℓ} {A : Type ℓ} where
  get_or-replicate : (n i : ℕ) (d : A) → get_or (replicate n d) i d ≡ d
  get_or-replicate zero i d = refl
  get_or-replicate (suc n) zero d = refl
  get_or-replicate (suc n) (suc i) d = get_or-replicate n i d

  get_or-pad : (xs : List A) (n i : ℕ) (d : A) → get_or (xs ++ replicate n d) i d ≡ get_or xs i d
  get_or-pad [] n i d = get_or-replicate n i d
  get_or-pad (x ∷ xs) n zero d = refl
  get_or-pad (x ∷ xs) n (suc i) d = get_or-pad xs n i d

  pub get_or-grow : (xs : List A) (r i : ℕ) (d : A) → get_or (grow xs r d) i d ≡ get_or xs i d
  unfolding grow
  get_or-grow xs r i d = ground (arith, get_or-pad xs (suc r - length xs) i d)

  pub length-grow :
      (xs : List A) (r : ℕ) (d : A)
      → length (grow xs r d) ≡ (if leb (length xs) r then suc r else length xs)
  unfolding grow
  length-grow xs r d = ground (
    arith,
    length-append xs (replicate (suc r - length xs) d),
    length-replicate (suc r - length xs) d,
  )

  -- An update in range succeeds.
  pub record Updated (xs : List A) (i : ℕ) (f : A → A) (d : A) : Type ℓ where
    pub out : List A
    pub runs : update xs i f ≡ ok out
    pub len : length out ≡ length xs
    pub reads : (j : ℕ) → get_or out j d ≡ (if i == j then f (get_or xs i d) else get_or xs j d)

  pub update_lem : (xs : List A) (i : ℕ) (f : A → A) (d : A) → i < length xs → Updated xs i f d
  unfolding update
  update_lem [] i f d h = absurd (omega arith)
  update_lem (x ∷ xs) zero f d h = record {
    out = f x ∷ xs;
    runs = refl;
    len = refl;
    reads = at_start;
  }
    where
      at_start : (j : ℕ) → get_or (f x ∷ xs) j d ≡ (if 0 == j then f x else get_or (x ∷ xs) j d)
      at_start zero = refl
      at_start (suc j) = ground arith
  update_lem (x ∷ xs) (suc i) f d h = further (update_lem xs i f d (omega arith))
    where
      further : Updated xs i f d → Updated (x ∷ xs) (suc i) f d
      further rest = record {
        out = x ∷ rest.out;
        runs = rw rest.runs refl;
        len = ap suc rest.len;
        reads = reads_on;
      }
        where
          reads_on :
              (j : ℕ)
              → get_or (x ∷ rest.out) j d
                ≡ (if suc i == j then f (get_or xs i d) else get_or (x ∷ xs) j d)
          reads_on zero = ground arith
          reads_on (suc j) = ground (arith, rest.reads j)

pub length-clear_fresh : (bs : List Bool) → length (clear_fresh bs) ≡ length bs
unfolding clear_fresh
length-clear_fresh [] = refl
length-clear_fresh (b ∷ bs) = ap suc (length-clear_fresh bs)
