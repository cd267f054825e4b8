-- ===== src/Externals.antt =====
-- The third-party code that the crate calls: `keccak256` (sha3 / alloy_primitives) and the RLP
-- codec of alloy_rlp, with its derive on `eth::Account` (src/eth.rs). They enter as operations of
-- an instance argument; what a theorem needs of them is one of its named hypotheses.
use mpt_flat_poc.Prelude.{ℕ, List, Option}

-- `eth::Account`: a byte string for each B256, a number for `u64` and `U256`.
pub record Account : Type 0 where
  pub nonce : ℕ
  pub balance : ℕ
  pub storage_root : List ℕ
  pub code_hash : List ℕ

pub record Externals : Type 0 where
  -- `keccak256(bytes)`.
  pub keccak256 : List ℕ → List ℕ
  -- `alloy_rlp::Encodable::encode` of a byte string.
  pub encode_string : List ℕ → List ℕ
  -- `alloy_rlp::Header { list: true, payload_length }.encode`.
  pub encode_list_header : ℕ → List ℕ
  -- The derived `Encodable` and `Decodable` of `Account`; `none` is any `alloy_rlp::Error`.
  pub encode_account : Account → List ℕ
  pub decode_account : List ℕ → Option Account
