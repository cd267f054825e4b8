-- ===== src/Eth.antt =====
-- src/eth.rs: RLP lists, the hex-prefix encoding of nibble paths, and keys as nibbles.
use Prim.Native.Nat.{bit_or}
use mpt_flat_poc.Prelude.{
  ℕ, ◌+◌, ◌*◌, ◌/◌, ◌%◌, Bool, List, [], ◌∷◌, ◌++◌, length, ◌==◌, if◌then◌else◌,
}
use mpt_flat_poc.Externals.{Externals}

-- `(hi << 4) | lo` on `u8`.
unfoldable pub pack : ℕ → ℕ → ℕ
pack hi lo = bit_or (hi * 16 % 256) lo

-- The two `chunks(2)` loops. An odd rest would index `pair[1]` out of range; `hex_prefix` never
-- hands one over, and here such a chunk gives its high half alone.
unfoldable pub pack_pairs : List ℕ → List ℕ
unfolding pack
pack_pairs [] = []
pack_pairs (hi ∷ []) = pack hi 0 ∷ []
pack_pairs (hi ∷ lo ∷ rest) = pack hi lo ∷ pack_pairs rest

hex_prefix_odd : ℕ → List ℕ → List ℕ
hex_prefix_odd flag [] = []
hex_prefix_odd flag (first ∷ rest) = pack (bit_or flag 1) first ∷ pack_pairs rest

unfoldable pub hex_prefix : List ℕ → Bool → List ℕ
unfolding pack_pairs hex_prefix_odd
hex_prefix nibbles leaf =
    let flag : ℕ = if leaf then 2 else 0 in
    if length nibbles % 2 == 1
    then hex_prefix_odd flag nibbles
    else flag * 16 % 256 ∷ pack_pairs nibbles

-- `b >> 4` and `b & 0x0f` of every byte.
unfoldable pub key_nibbles : List ℕ → List ℕ
key_nibbles [] = []
key_nibbles (b ∷ key) = b / 16 ∷ b % 16 ∷ key_nibbles key

-- `items.iter().map(|i| i.len()).sum()`.
total : List (List ℕ) → ℕ
total [] = 0
total (item ∷ items) = length item + total items

concat : List (List ℕ) → List ℕ
concat [] = []
concat (item ∷ items) = item ++ concat items

module _ ⦃x : Externals⦄ where
  unfoldable pub rlp_string : List ℕ → List ℕ
  rlp_string bytes = x.encode_string bytes

  unfoldable pub rlp_list : List (List ℕ) → List ℕ
  unfolding total concat
  rlp_list items = x.encode_list_header (total items) ++ concat items
