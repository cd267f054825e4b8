-- ===== src/Codec/Holds.antt =====
-- src/lib.rs: the primitives of `CompactReader` and `LazyReader` at a position of a buffer that holds
-- what the writer's primitives put there.
use mpt_flat_poc.Prelude.{
  ℕ, zero, suc, ◌+◌, ◌*◌, ◌/◌, ◌%◌, ◌^◌, ◌<◌, ◌≤◌, ◌≡◌, refl, Bool, true, false, List, [], ◌∷◌,
  ◌++◌, length, length-append, take, drop, ltb, arith, ◌==◌, le→ltb, eqb→eq,
}
use mpt_flat_poc.Prelude.{Bool-cases, inl, inr, if◌then◌else◌}
use mpt_flat_poc.Eth.{pack, pack_pairs}
use mpt_flat_poc.Node.{NodeRef, hash, inline, Node}
use mpt_flat_poc.Codec.Write.{le_bytes, be_bytes, len_bytes, write_ref, write_node, slice, half_up}
use mpt_flat_poc.Codec.Reader.{
  read_bytes, read_u8, read_u16, read_u32, read_hash, read_nibbles, read_nibble_path,
  skip_nibble_path, read_ref, le_value, be_value, first,
}
use mpt_flat_poc.Codec.Size.{PathFits, RefFits, length-le_bytes, length-pack_pairs}
use mpt_flat_poc.Result.{Result, ok}

-- The buffer has the bytes at the position.
pub record Holds (buf : List ℕ) (pos : ℕ) (bytes : List ℕ) : Type 0 where
  pub inside : pos + length bytes ≤ length buf
  pub same : take (length bytes) (drop pos buf) ≡ bytes

-- The slice of a buffer is what the writer makes of a node.
pub record Cut (buf : List ℕ) (off len : ℕ) (n : Node) : Type 0 where
  pub bytes : List ℕ
  pub written : write_node n ≡ ok bytes
  pub there : Holds buf off bytes
  pub measured : length bytes ≡ len

take_left : (a b xs : List ℕ) → take (length (a ++ b)) xs ≡ a ++ b → take (length a) xs ≡ a
take_left [] b xs h = refl
take_left (c ∷ a) b [] h = cc
take_left (c ∷ a) b (x ∷ xs) h = rw (take_left a b xs cc, (let e : x ≡ c = cc in e)) refl

take_right :
    (a b xs : List ℕ)
    → take (length (a ++ b)) xs ≡ a ++ b
    → take (length b) (drop (length a) xs) ≡ b
take_right [] b xs h = h
take_right (c ∷ a) b [] h = cc
take_right (c ∷ a) b (x ∷ xs) h = take_right a b xs cc

pub drop-drop : (m n : ℕ) (xs : List ℕ) → drop n (drop m xs) ≡ drop (m + n) xs
drop-drop zero n xs = let e : 0 + n ≡ n = omega arith in rw e refl
drop-drop (suc m) zero [] = let e : suc m + 0 ≡ suc m = omega arith in rw e refl
drop-drop (suc m) (suc n) [] = let e : suc m + suc n ≡ suc (m + suc n) = omega arith in rw e refl
drop-drop (suc m) n (x ∷ xs) =
    let e : suc m + n ≡ suc (m + n) = omega arith in rw e (drop-drop m n xs)

module _ {buf : List ℕ} {pos : ℕ} where
  pub left : (a b : List ℕ) → Holds buf pos (a ++ b) → Holds buf pos a
  left a b h = record {
    inside = omega (arith, h.inside, length-append a b);
    same = take_left a b (drop pos buf) h.same;
  }

  pub right :
      (a b : List ℕ) {pos' : ℕ} → Holds buf pos (a ++ b) → pos' ≡ pos + length a → Holds buf pos' b
  right a b h e = record {
    inside = omega (arith, h.inside, length-append a b);
    same = rw (e, ← drop-drop pos (length a) buf) (take_right a b (drop pos buf) h.same);
  }

  pub read_bytes-Holds :
      (bytes : List ℕ) (n : ℕ)
      → Holds buf pos bytes
      → length bytes ≡ n
      → read_bytes n buf pos ≡ ok (let l : List ℕ × ℕ = (bytes, pos + n) in l)
  unfolding read_bytes
  read_bytes-Holds bytes n h e =
      let past : ltb (length buf) (pos + n) ≡ false = le→ltb _ _ (omega (arith, h.inside, e)) in
      rw (past, ← e, h.same) refl

  pub slice-Holds : (bytes : List ℕ) → Holds buf pos bytes → slice buf pos (length bytes) ≡ ok bytes
  unfolding slice
  slice-Holds bytes h =
      let past : ltb (length buf) (pos + length bytes) ≡ false = le→ltb _ _ h.inside in
      rw (past, h.same) refl

  pub read_u8-Holds :
      (b : ℕ) (rest : List ℕ)
      → Holds buf pos (b ∷ rest)
      → read_u8 buf pos ≡ ok (let l : ℕ × ℕ = (b, pos + 1) in l)
  unfolding read_u8 first
  read_u8-Holds b rest h = rw (read_bytes-Holds (b ∷ []) 1 (left (b ∷ []) rest h) refl) refl

pub le_value-le_bytes : (n v : ℕ) → v < 256 ^ n → le_value (le_bytes n v) ≡ v
unfolding le_value le_bytes
le_value-le_bytes zero v h = omega arith
le_value-le_bytes (suc n) v h = omega (arith, le_value-le_bytes n (v / 256) (omega arith))

be_value-append :
    (acc : ℕ) (bs : List ℕ) (b : ℕ) → be_value acc (bs ++ (b ∷ [])) ≡ be_value acc bs * 256 + b
unfolding be_value
be_value-append acc [] b = refl
be_value-append acc (c ∷ bs) b = be_value-append (acc * 256 + c) bs b

pub be_value-be_bytes : (n v : ℕ) → v < 256 ^ n → be_value 0 (be_bytes n v) ≡ v
unfolding be_value be_bytes
be_value-be_bytes zero v h = omega arith
be_value-be_bytes (suc n) v h =
    rw
      (
        be_value-append 0 (be_bytes n (v / 256)) (v % 256),
        be_value-be_bytes n (v / 256) (omega arith),
      )
      (omega arith)

module _ {buf : List ℕ} {pos : ℕ} where
  pub read_u16-Holds :
      (v : ℕ)
      → Holds buf pos (le_bytes 2 v)
      → v < 65536
      → read_u16 buf pos ≡ ok (let l : ℕ × ℕ = (v, pos + 2) in l)
  unfolding read_u16
  read_u16-Holds v h lt =
      rw (read_bytes-Holds (le_bytes 2 v) 2 h (length-le_bytes 2 v), le_value-le_bytes 2 v lt) refl

  pub read_u32-Holds :
      (v : ℕ)
      → Holds buf pos (len_bytes v)
      → v < 4294967296
      → read_u32 buf pos ≡ ok (let l : ℕ × ℕ = (v, pos + 4) in l)
  unfolding read_u32 len_bytes
  read_u32-Holds v h lt =
      let e : v % 4294967296 ≡ v = omega arith in
      let h' : Holds buf pos (le_bytes 4 v) = rw e at h in
      rw (read_bytes-Holds (le_bytes 4 v) 4 h' (length-le_bytes 4 v), le_value-le_bytes 4 v lt) refl

  pub read_ref-Holds :
      (r : NodeRef)
      → Holds buf pos (write_ref r)
      → RefFits r
      → read_ref buf pos ≡ ok (let l : NodeRef × ℕ = (r, pos + length (write_ref r)) in l)
  unfolding read_ref write_ref read_hash
  read_ref-Holds (hash b) h f =
      let e : pos + 1 + 32 ≡ pos + suc (length b) = omega (arith, f) in
      rw (read_u8-Holds 0 b h, read_bytes-Holds b 32 (right (0 ∷ []) b h refl) f, e) refl
  read_ref-Holds (inline rlp) h f =
      let small : length rlp % 256 ≡ length rlp = omega (arith, f) in
      let h' : Holds buf pos (1 ∷ length rlp ∷ rlp) = rw small at h in
      let e : pos + 1 + 1 + length rlp ≡ pos + suc (suc (length rlp)) = omega arith in
      rw
        (
          read_u8-Holds 1 (length rlp ∷ rlp) h',
          read_u8-Holds (length rlp) rlp (right (1 ∷ []) (length rlp ∷ rlp) h' refl),
          read_bytes-Holds {pos = pos + 1 + 1} rlp (length rlp)
              (right (1 ∷ length rlp ∷ []) rlp h' (omega arith)) refl,
          e,
        )
        refl

-- Whether every pair of nibbles with a high half below `rows` packs to its number.
row_packs : ℕ → ℕ → Bool
row_packs hi zero = true
row_packs hi (suc lo) = if pack hi lo == 16 * hi + lo then row_packs hi lo else false

rows_pack : ℕ → Bool
unfolding row_packs
rows_pack zero = true
rows_pack (suc hi) = if row_packs hi 16 then rows_pack hi else false

row_packs-at :
    (hi bound lo : ℕ) → row_packs hi bound ≡ true → lo < bound → (pack hi lo == 16 * hi + lo) ≡ true
unfolding row_packs
row_packs-at hi zero lo all below = absurd (omega arith)
row_packs-at hi (suc b) lo all below = ground (arith, row_packs-at hi b lo)

rows_pack-at : (rows hi : ℕ) → rows_pack rows ≡ true → hi < rows → row_packs hi 16 ≡ true
unfolding rows_pack
rows_pack-at zero hi all below = absurd (omega arith)
rows_pack-at (suc r) hi all below = elim (Bool-cases (row_packs r 16)) [
  | inl here ↦ elim (Bool-cases (hi == r)) [
    | inl same ↦ rw (eqb→eq hi r same) here
    | inr other ↦ rows_pack-at r hi (rw here at all) (ground arith)
  ]
  | inr miss ↦ let no = rw miss at all in cc
]

nibbles_pack : rows_pack 16 ≡ true
unfolding rows_pack pack
nibbles_pack = refl

pub pack_lem : (hi lo : ℕ) → hi < 16 → lo < 16 → pack hi lo ≡ 16 * hi + lo
pack_lem hi lo a b = eqb→eq _ _ (row_packs-at hi 16 lo (rows_pack-at 16 hi nibbles_pack a) b)

module _ {buf : List ℕ} where
  read_nibbles-Holds :
      (path : List ℕ) (pos : ℕ)
      → Holds buf pos (pack_pairs path)
      → PathFits path
      → read_nibbles (length path) buf pos
        ≡ ok (let l : List ℕ × ℕ = (path, pos + half_up (length path)) in l)
  unfolding read_nibbles pack_pairs half_up
  read_nibbles-Holds [] pos h f = let e : pos + (0 + 1) / 2 ≡ pos = omega arith in rw e refl
  read_nibbles-Holds (hi ∷ []) pos h f =
      rw (read_u8-Holds (pack hi 0) [] h, pack_lem hi 0 f.0 (omega arith)) (hi_part hi)
    where
      hi_part :
          (n : ℕ)
          → Path
              (Result (List ℕ × ℕ))
              (ok ((16 * n + 0) / 16 ∷ [], pos + 1))
              (ok (n ∷ [], pos + (1 + 1) / 2))
      hi_part n = let e : (16 * n + 0) / 16 ≡ n = omega arith in rw e refl
  read_nibbles-Holds (hi ∷ lo ∷ rest) pos h f =
      rw
        (
          read_u8-Holds (pack hi lo) (pack_pairs rest) h,
          read_nibbles-Holds rest (pos + 1) (right (pack hi lo ∷ []) (pack_pairs rest) h refl)
              f.1.1,
          pack_lem hi lo f.0 f.1.0,
          (let e : (16 * hi + lo) / 16 ≡ hi = omega (arith, f.1.0) in e),
          (let e : (16 * hi + lo) % 16 ≡ lo = omega (arith, f.1.0) in e),
          (let e : pos + 1 + (length rest + 1) / 2 ≡ pos + (suc (suc (length rest)) + 1) / 2 =
                omega arith in
              e),
        )
        refl

  pub read_nibble_path-Holds :
      (path : List ℕ) (pos : ℕ)
      → Holds buf pos (length path ∷ pack_pairs path)
      → PathFits path
      → length path ≤ 128
      → read_nibble_path buf pos
        ≡ ok (let l : List ℕ × ℕ = (path, pos + length (length path ∷ pack_pairs path)) in l)
  unfolding read_nibble_path
  read_nibble_path-Holds path pos h f short =
      rw
        (
          read_u8-Holds (length path) (pack_pairs path) h,
          le→ltb 128 (length path) short,
          read_nibbles-Holds path (pos + 1) (right (length path ∷ []) (pack_pairs path) h refl) f,
          (let e : pos + 1 + half_up (length path) ≡ pos + suc (length (pack_pairs path)) =
                omega (arith, length-pack_pairs path) in
              e),
        )
        refl

  pub skip_nibble_path-Holds :
      (path : List ℕ) (pos : ℕ)
      → Holds buf pos (length path ∷ pack_pairs path)
      → length path ≤ 128
      → skip_nibble_path buf pos ≡ ok (pos + length (length path ∷ pack_pairs path))
  unfolding skip_nibble_path
  skip_nibble_path-Holds path pos h short =
      rw
        (
          read_u8-Holds (length path) (pack_pairs path) h,
          le→ltb 128 (length path) short,
          read_bytes-Holds (pack_pairs path) (half_up (length path))
              (right (length path ∷ []) (pack_pairs path) h refl) (length-pack_pairs path),
          (let e : pos + 1 + half_up (length path) ≡ pos + suc (length (pack_pairs path)) =
                omega (arith, length-pack_pairs path) in
              e),
        )
        refl
