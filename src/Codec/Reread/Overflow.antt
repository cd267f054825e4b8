-- ===== src/Codec/Reread/Overflow.antt =====
-- src/lib.rs: the link to an overflow record, written and read again.
use mpt_flat_poc.Prelude.{
  ℕ, ◌+◌, ◌<◌, ◌≡◌, refl, ap, ◌%◌, List, [], ◌∷◌, ◌++◌, length, length-append, arith,
}
use mpt_flat_poc.Externals.{Externals}
use mpt_flat_poc.Node.{overflow, hash_node}
use mpt_flat_poc.Codec.Write.{le_bytes, len_bytes, write_node}
use mpt_flat_poc.Codec.Reader.{read_hash, read_overflow}
use mpt_flat_poc.Codec.Lazy.{read_tagged_lazy}
use mpt_flat_poc.Codec.Size.{length-le_bytes}
use mpt_flat_poc.Codec.Holds.{Holds, left, right, read_bytes-Holds, read_u32-Holds}
use mpt_flat_poc.Codec.Copy.{st_overflow, cp_overflow}
use mpt_flat_poc.Codec.Reread.{Reread, by_tag}

word_bytes : (v : ℕ) → v < 4294967296 → len_bytes v ≡ le_bytes 4 v
unfolding len_bytes
word_bytes v b = let e : v % 4294967296 ≡ v = omega (arith, b) in ap (le_bytes 4) e

module _ ⦃x : Externals⦄ (unit len : ℕ) (root : List ℕ) (small : unit < 4294967296)
    (short : len < 4294967296) (wide : length root ≡ 32) where
  abbrev link_rest : List ℕ
  link_rest = le_bytes 4 unit ++ (le_bytes 4 len ++ root)

  record LinkAt (buf : List ℕ) (q : ℕ) : Type 0 where
    unit_at : Holds buf q (len_bytes unit)
    len_at : Holds buf (q + 4) (len_bytes len)
    root_at : Holds buf (q + 4 + 4) root

  link_at : (buf : List ℕ) (pos : ℕ) → Holds buf pos (4 ∷ link_rest) → LinkAt buf (pos + 1)
  link_at buf pos h =
      let tail : List ℕ = le_bytes 4 len ++ root in
      let h₁ : Holds buf (pos + 1) link_rest = right (4 ∷ []) link_rest h refl in
      let h₂ : Holds buf (pos + 1 + 4) tail =
        right (le_bytes 4 unit) tail h₁ (omega (arith, length-le_bytes 4 unit)) in
      record {
        unit_at = rw (word_bytes unit small) (left (le_bytes 4 unit) tail h₁);
        len_at = rw (word_bytes len short) (left (le_bytes 4 len) root h₂);
        root_at = right (le_bytes 4 len) root h₂ (omega (arith, length-le_bytes 4 len));
      }

  link_end : (pos : ℕ) → pos + 1 + 4 + 4 + 32 ≡ pos + length (4 ∷ link_rest)
  link_end pos = simp (length-append, length-le_bytes, wide) (omega arith)

  pub overflow-Reread : Reread (overflow (record { unit = unit; len = len }) root)
  unfolding write_node read_tagged_lazy read_overflow read_hash hash_node
  overflow-Reread = record {
    tag = 4;
    rest = link_rest;
    written = refl;
    read =
        by_tag (overflow (record { unit = unit; len = len }) root) 4 link_rest
          (λ buf pos fuel h enough. record {
            n' = overflow (record { unit = unit; len = len }) root;
            runs =
                let at = link_at buf pos h in
                rw
                  (
                    read_u32-Holds unit at.unit_at small,
                    read_u32-Holds len at.len_at short,
                    read_bytes-Holds root 32 at.root_at wide,
                    link_end pos,
                  )
                  refl;
            copy = cp_overflow (record { unit = unit; len = len }) root;
            storable = st_overflow unit len root small short wide;
            rewritten = refl;
            not_raw = refl;
            same_hash = refl;
          });
    extract = λ e. cc;
  }
