-- ===== src/CodeStore/Fetch.antt =====
-- src/state.rs: `CodeStore::get` after `CodeStore::put`.
use mpt_flat_poc.Prelude.{
  ℕ, zero, suc, ◌+◌, ◌%◌, ◌<◌, ◌≤◌, ◌≡◌, refl, ◌∙◌, ap, false, ◌||◌, Bool-cases, inl, inr, Option,
  none, some, List, [], ◌∷◌, ◌++◌, length, take, drop, length-append, le→ltb, list_eqb, list_eqb→eq,
  arith, if◌then◌else◌,
}
use mpt_flat_poc.Externals.{Externals}
use mpt_flat_poc.Codec.Write.{len_bytes}
use mpt_flat_poc.Codec.Holds.{Holds, right}
use mpt_flat_poc.Codec.Reread.{whole}
use mpt_flat_poc.Codec.Size.{length-len_bytes}
use mpt_flat_poc.CodeStore.{
  CodeStore, index_insert, is_some, is_empty_code, log_entry, put, read_at, get_at, get,
}
use mpt_flat_poc.CodeStore.Reopen.{
  Small, fresh_store, puts, Logged, fresh-Logged, put-Logged, puts-Logged,
}
use mpt_flat_poc.Record.Ops.{empty_code_hash}
use mpt_flat_poc.Result.{Result, ok, ◌>>=◌}

-- A read inside a file does not see what is appended.
window :
    (file more : List ℕ) (off len : ℕ)
    → off + len ≤ length file
    → take len (drop off (file ++ more)) ≡ take len (drop off file)
window file more zero zero h = refl
window [] more zero (suc len) h = absurd (omega (arith, h))
window (b ∷ file) more zero (suc len) h = rw (window file more zero len (omega (arith, h))) refl
window [] more (suc off) len h = absurd (omega (arith, h))
window (b ∷ file) more (suc off) len h = window file more off len (omega (arith, h))

read_at-append :
    (file more : List ℕ) (off len : ℕ)
    → off + len ≤ length file
    → read_at (file ++ more) off len ≡ read_at file off len
unfolding read_at
read_at-append file more off len h =
    rw
      (
        le→ltb (length (file ++ more)) (off + len) (omega (arith, h, length-append file more)),
        le→ltb (length file) (off + len) h,
        window file more off len h,
      )
      refl

module _ ⦃x : Externals⦄ (wide : (bytes : List ℕ) → length (x.keccak256 bytes) ≡ 32) where
  -- The index points into the file.
  abbrev Inside : CodeStore → Type 0
  Inside s = (h : List ℕ) (at : ℕ × ℕ) → s.index h ≡ some at → at.0 + at.1 ≤ length s.file

  read-entry :
      (file code : List ℕ)
      → read_at (file ++ log_entry code) (length file + 36) (length code) ≡ ok code
  unfolding read_at log_entry
  read-entry file code =
      let all : List ℕ = file ++ log_entry code in
      let h₁ : Holds all (length file) (log_entry code) =
        right file (log_entry code) (whole all) (omega arith) in
      let h₂ : Holds all (length file + 32) (len_bytes (length code) ++ code) =
        right (x.keccak256 code) (len_bytes (length code) ++ code) h₁ (omega (arith, wide code)) in
      let h₃ : Holds all (length file + 36) code =
        right (len_bytes (length code)) code h₂ (omega (arith, length-len_bytes (length code))) in
      rw (le→ltb (length all) (length file + 36 + length code) h₃.inside, h₃.same) refl

  abbrev appended : CodeStore → List ℕ → ℕ → CodeStore
  appended s code len = record {
    file = s.file ++ log_entry code;
    index = index_insert s.index (x.keccak256 code) (s.end + 36, len);
    end = s.end + 36 + length code;
  }

  length-entry :
      (s : CodeStore) (code : List ℕ)
      → length (s.file ++ log_entry code) ≡ length s.file + (36 + length code)
  length-entry s code =
      unfold log_entry in simp (length-append, wide code, length-len_bytes) (omega arith)

  appended-Inside :
      (s : CodeStore) (code : List ℕ) (len : ℕ)
      → len ≡ length code
      → s.end ≡ length s.file
      → Inside s
      → Inside (appended s code len)
  unfolding index_insert
  appended-Inside s code len len_eq e inside h at hit =
      elim (Bool-cases (list_eqb h (x.keccak256 code))) [
        | inl same ↦
            let found : some (s.end + 36, len) ≡ some at = rw same at hit in
            let first : s.end + 36 ≡ at.0 = cc found in
            let second : len ≡ at.1 = cc found in
            omega (arith, first, second, len_eq, e, length-entry s code)
        | inr differ ↦
            let found : s.index h ≡ some at = rw differ at hit in
            omega (arith, inside h at found, length-entry s code)
      ]

  put-Inside :
      (s : CodeStore) (code : List ℕ)
      → length code < 4294967296
      → s.end ≡ length s.file
      → Inside s
      → Inside (put s code)
  unfolding put
  put-Inside s code small e inside =
      elim (Bool-cases (is_empty_code code || is_some (s.index (x.keccak256 code)))) [
        | inl known ↦ rw known inside
        | inr new ↦
            rw new
              (appended-Inside s code (length code % 4294967296) (omega (arith, small)) e inside)
      ]

  puts-Inside :
      (codes : List (List ℕ)) (s : CodeStore)
      → Small codes
      → Logged wide s
      → Inside s
      → Inside (puts s codes)
  unfolding puts
  puts-Inside [] s small l inside = inside
  puts-Inside (c ∷ codes) s small l inside =
      puts-Inside codes (put s c) small.1 (put-Logged wide s c small.0 l)
        (put-Inside s c small.0 l.measured inside)

  get-appended :
      (s : CodeStore) (code : List ℕ) (len : ℕ) (h : List ℕ)
      → len ≡ length code
      → s.end ≡ length s.file
      → Inside s
      → list_eqb (x.keccak256 code) empty_code_hash ≡ false
      → get (appended s code len) h
        ≡ (if list_eqb h (x.keccak256 code) then ok (some code) else get s h)
  unfolding get get_at index_insert
  get-appended s code len h len_eq e inside other =
      elim (Bool-cases (list_eqb h (x.keccak256 code))) [
        | inl same ↦
            let not_empty : list_eqb h empty_code_hash ≡ false =
              rw (list_eqb→eq h (x.keccak256 code) same) other in
            rw (same, not_empty, len_eq, e, read-entry s.file code) refl
        | inr differ ↦ rw differ (
            ap (λ o. if list_eqb h empty_code_hash then ok (some []) else o) (old (s.index h) refl))
      ]
    where
      old :
          (o : Option (ℕ × ℕ))
          → s.index h ≡ o
          → get_at (s.file ++ log_entry code) (s.index h) ≡ get_at s.file (s.index h)
      old none q = rw q refl
      old (some at) q = rw q (
          ap (λ (r : Result (List ℕ)). r >>= λ c. ok (some c))
            (read_at-append s.file (log_entry code) at.0 at.1 (inside h at q)))

  -- A code of less than 2^32 bytes that is put into a store that codes were put into, not empty and
  -- with a hash that is neither the empty code's nor in the index, where keccak256 gives 32 bytes:
  -- `get` finds it at its hash, and at any other hash what it found before.
  pub get-put :
      (codes : List (List ℕ)) (code h : List ℕ)
      → Small codes
      → length code < 4294967296
      → is_empty_code code ≡ false
      → (puts fresh_store codes).index (x.keccak256 code) ≡ none
      → list_eqb (x.keccak256 code) empty_code_hash ≡ false
      → get (put (puts fresh_store codes) code) h
        ≡ (if list_eqb h (x.keccak256 code) then ok (some code) else get (puts fresh_store codes) h)
  get-put codes code h small small' some_code new other =
      let l = puts-Logged wide codes fresh_store small (fresh-Logged wide) in
      let inside = puts-Inside codes fresh_store small (fresh-Logged wide) (λ k at q. cc) in
      ap (λ s. get s h) (put_new (puts fresh_store codes) new)
      ∙ get-appended (puts fresh_store codes) code (length code % 4294967296) h
          (omega (arith, small')) l.measured inside other
    where
      put_new :
          (s : CodeStore)
          → s.index (x.keccak256 code) ≡ none
          → put s code ≡ appended s code (length code % 4294967296)
      put_new s q = unfold put in rw (some_code, q) refl
