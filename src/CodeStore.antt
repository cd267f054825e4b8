-- ===== src/CodeStore.antt =====
-- src/state.rs: `CodeStore`, the append-only log of contract code. The file is its bytes; the index,
-- a `HashMap`, a function from a hash. Operations of the file do not fail here, and offsets stay
-- below 2^64.
pub mod Reopen
pub mod Fetch
use mpt_flat_poc.Prelude.{
  ℕ, zero, suc, ◌+◌, ◌%◌, Bool, true, false, ◌||◌, Option, none, some, List, [], ◌∷◌, ◌++◌, length,
  take, drop, ltb, list_eqb, ◌==◌, if◌then◌else◌,
}
use mpt_flat_poc.Externals.{Externals}
use mpt_flat_poc.Codec.Reader.{le_value}
use mpt_flat_poc.Codec.Write.{len_bytes}
use mpt_flat_poc.Record.Ops.{empty_code_hash}
use mpt_flat_poc.Result.{Result, ok, err, ◌>>=◌, out_of_fuel, truncated}

-- A hash to the offset and the length of its code.
abbrev pub CodeIndex : Type 0
CodeIndex = List ℕ → Option (ℕ × ℕ)

pub record CodeStore : Type 0 where
  pub file : List ℕ
  pub index : CodeIndex
  pub end : ℕ

abbrev pub no_codes : CodeIndex
no_codes h = none

unfoldable pub index_insert : CodeIndex → List ℕ → ℕ × ℕ → CodeIndex
index_insert index hash at h = if list_eqb h hash then some at else index h

abbrev pub is_some : Option (ℕ × ℕ) → Bool
is_some none = false
is_some (some at) = true

-- The loop of `open`, from `end` on: a header of 36 bytes, then the code; what is torn is cut off.
unfoldable pub scan : ℕ → List ℕ → CodeIndex → ℕ → Result CodeStore
unfolding index_insert le_value
scan zero file index end = err out_of_fuel
scan (suc fuel) file index end =
    let rest = drop end file in
    let len = le_value (take 4 (drop 32 rest)) in
    let cut : CodeStore = record { file = take end file; index = index; end = end } in
    let next =
      scan fuel file (index_insert index (take 32 rest) (end + 36, len)) (end + 36 + len) in
    if length rest == 0
    then ok (record { file = file; index = index; end = end })
    else if ltb (length rest) 36
    then ok cut
    else if ltb (length file) (end + 36 + len)
    then ok cut
    else next

-- `CodeStore::open`: on an old file, or with `truncate` on an empty one.
unfoldable pub open_log : List ℕ → Bool → Result CodeStore
unfolding scan
open_log file true = ok (record { file = []; index = no_codes; end = 0 })
open_log file false = scan (length file + 1) file no_codes 0

abbrev pub is_empty_code : List ℕ → Bool
is_empty_code [] = true
is_empty_code (b ∷ code) = false

module _ ⦃x : Externals⦄ where
  -- `rec`.
  unfoldable pub log_entry : List ℕ → List ℕ
  unfolding len_bytes
  log_entry code = x.keccak256 code ++ (len_bytes (length code) ++ code)

  -- The new store; the hash returned is `keccak256(code)`.
  unfoldable pub put : CodeStore → List ℕ → CodeStore
  unfolding log_entry index_insert
  put s code =
      let data_off = s.end + 36 in
      if is_empty_code code || is_some (s.index (x.keccak256 code)) then s else record {
        file = s.file ++ log_entry code;
        index = index_insert s.index (x.keccak256 code) (data_off, length code % 4294967296);
        end = data_off + length code;
      }

-- `read_exact_at`.
unfoldable pub read_at : List ℕ → ℕ → ℕ → Result (List ℕ)
read_at file off len =
    if ltb (length file) (off + len) then err truncated else ok (take len (drop off file))

unfoldable pub get_at : List ℕ → Option (ℕ × ℕ) → Result (Option (List ℕ))
unfolding read_at
get_at file none = ok none
get_at file (some at) = read_at file at.0 at.1 >>= λ code. ok (some code)

unfoldable pub get : CodeStore → List ℕ → Result (Option (List ℕ))
unfolding get_at
get s hash = if list_eqb hash empty_code_hash then ok (some []) else get_at s.file (s.index hash)
