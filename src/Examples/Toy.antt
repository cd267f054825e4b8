-- ===== src/Examples/Toy.antt =====
-- Concrete operations in place of keccak256 and the RLP codec: a "hash" of 32 bytes that starts
-- with the length, and strings and lists with a length prefix.
use mpt_flat_poc.Prelude.{[], ◌∷◌, ◌++◌, length, replicate, take, none, ◌%◌}
use mpt_flat_poc.Externals.{Externals}

instance abbrev pub toy : Externals
toy = record {
  keccak256 = λ bytes. take 32 (length bytes % 256 ∷ (bytes ++ replicate 32 0));
  encode_string = λ bytes. length bytes % 256 ∷ bytes;
  encode_list_header = λ n. 192 ∷ n % 256 ∷ [];
  encode_account = λ a. a.nonce % 256 ∷ a.balance % 256 ∷ (a.storage_root ++ a.code_hash);
  decode_account = λ bytes. none;
}
