-- ===== src/Codec/Reread/Children.antt =====
-- src/lib.rs: the children of a branch read lazily: `read_child_lazy` and the loop around it.
use mpt_flat_poc.Prelude.{
  ℕ, suc, ◌+◌, ◌<◌, ◌≤◌, ◌≡◌, ◌⊎◌, inl, inr, refl, true, false, Bool-cases, List, [], ◌∷◌, ◌++◌,
  length, length-append, take, drop, arith, if◌then◌else◌, eq→eqb,
}
use mpt_flat_poc.Externals.{Externals}
use mpt_flat_poc.Node.{
  Node, Slots, empty, leaf, extension, branch, overflow, account, raw, end, vacant, filled, size,
  hash_node, branch_bitmap,
}
use mpt_flat_poc.Node.Access.{occupied}
use mpt_flat_poc.Node.Access.{is_empty}
use mpt_flat_poc.Codec.Write.{len_bytes, slice, write_node, write_children, node_size}
use mpt_flat_poc.Codec.Lazy.{
  extract_ref, read_lens, peek_u8, next_len, read_child_lazy, read_children_lazy, read_node_lazy,
  parse_node_lazy,
}
use mpt_flat_poc.Codec.Size.{length-len_bytes}
use mpt_flat_poc.Codec.Holds.{Holds, left, right, slice-Holds, read_u32-Holds}
use mpt_flat_poc.Codec.Copy.{
  Storable, st_raw, StorableSlots, st_end, st_vacant, st_filled, Copy, cp_raw_right, CopySlots,
  cp_end, cp_vacant, cp_filled,
}
use mpt_flat_poc.Codec.Reread.{Back, Reread, sliced_tag, sized}
use mpt_flat_poc.Node.BranchRef.{even_bit, odd_bit, even_half, odd_half}
use mpt_flat_poc.Result.{Result, ok, ◌>>=◌}

starts :
    (xs : List ℕ) (n tag : ℕ) (rest : List ℕ)
    → take (suc n) xs ≡ tag ∷ rest
    → (ys : List ℕ) × (xs ≡ tag ∷ ys)
starts [] n tag rest e = cc
starts (y ∷ ys) n tag rest e = (ys, cc)

peek_u8-Holds :
    (buf : List ℕ) (pos tag : ℕ) (rest : List ℕ)
    → Holds buf pos (tag ∷ rest)
    → peek_u8 buf pos ≡ ok tag
unfolding peek_u8
peek_u8-Holds buf pos tag rest h =
    rw ((starts (drop pos buf) (length rest) tag rest h.same).1, peek_u8) refl

module _ ⦃x : Externals⦄ where
  parse-Back :
      (c : Node) (cr : Reread c) (buf : List ℕ) (pos : ℕ)
      → Holds buf pos (cr.tag ∷ cr.rest)
      → Back c
          (cr.tag ∷ cr.rest)
          (read_node_lazy (length buf + 1) buf pos)
          (pos + length (cr.tag ∷ cr.rest))
  parse-Back c cr buf pos h = cr.read buf pos (length buf + 1) h (omega (arith, h.inside))

  parse_node_lazy-Back :
      (c : Node) (bytes buf : List ℕ) (pos : ℕ)
      → (b : Back c bytes (read_node_lazy (length buf + 1) buf pos) (pos + length bytes))
      → parse_node_lazy buf pos (length bytes) ≡ ok b.n'
  unfolding parse_node_lazy
  parse_node_lazy-Back c bytes buf pos b =
      rw (b.runs, eq→eqb (pos + length bytes) (pos + length bytes) refl) refl

  full :
      (n : Node) (tag : ℕ) (rest : List ℕ)
      → write_node n ≡ ok (tag ∷ rest)
      → sliced_tag tag ≡ true
      → is_empty n ≡ false
  unfolding write_node
  full empty tag rest w slices = cc
  full (leaf _ _ _) tag rest w slices = refl
  full (extension _ _ _) tag rest w slices = refl
  full (branch _ _) tag rest w slices = refl
  full (overflow _ _) tag rest w slices = refl
  full (raw _ _ _ _) tag rest w slices = refl
  full (account _ _ _ _ _ _ _) tag rest w slices = refl

  record ChildBack (c : Node) (bytes : List ℕ) (result : Result (Node × ℕ)) (pos' : ℕ)
      : Type 0 where
    c' : Node
    runs : result ≡ ok (let l : Node × ℕ = (c', pos') in l)
    copy : Copy c c'
    storable : Storable c'
    rewritten : write_node c' ≡ ok bytes

  child-Back :
      (c : Node) (cr : Reread c) (buf : List ℕ) (pos fuel : ℕ)
      → Holds buf pos (cr.tag ∷ cr.rest)
      → length (cr.tag ∷ cr.rest) ≤ fuel
      → ChildBack c
          (cr.tag ∷ cr.rest)
          (read_child_lazy (read_node_lazy fuel) (length (cr.tag ∷ cr.rest)) buf pos)
          (pos + length (cr.tag ∷ cr.rest))
  unfolding read_child_lazy write_node
  child-Back c cr buf pos fuel h enough =
      rw (peek_u8-Holds buf pos cr.tag cr.rest h) (by_kind (Bool-cases (sliced_tag cr.tag)))
    where
      lazily :
          sliced_tag cr.tag ≡ true
          → ChildBack c
              (cr.tag ∷ cr.rest)
              (slice buf pos (length (cr.tag ∷ cr.rest)) >>= λ bytes. extract_ref bytes >>= λ nref.
                ok (raw buf pos (length (cr.tag ∷ cr.rest)) nref, pos + length (cr.tag ∷ cr.rest)))
              (pos + length (cr.tag ∷ cr.rest))
      lazily slices =
          let b = parse-Back c cr buf pos h in
          rw (slice-Holds (cr.tag ∷ cr.rest) h, cr.extract slices)
            (record {
              c' = raw buf pos (length (cr.tag ∷ cr.rest)) (hash_node c);
              runs = refl;
              copy =
                  cp_raw_right buf pos (length (cr.tag ∷ cr.rest)) (hash_node c) c b.n'
                    (parse_node_lazy-Back c (cr.tag ∷ cr.rest) buf pos b) b.copy;
              storable = rw (← b.same_hash) (
                  st_raw buf pos (cr.tag ∷ cr.rest) b.n'
                    (parse_node_lazy-Back c (cr.tag ∷ cr.rest) buf pos b) b.rewritten h b.not_raw
                    (full b.n' cr.tag cr.rest b.rewritten slices) b.storable);
              rewritten = slice-Holds (cr.tag ∷ cr.rest) h;
            })

      by_kind :
          (sliced_tag cr.tag ≡ true) ⊎ (sliced_tag cr.tag ≡ false)
          → ChildBack c
              (cr.tag ∷ cr.rest)
              (if sliced_tag cr.tag
                then (slice buf pos (length (cr.tag ∷ cr.rest)) >>= λ bytes.
                    extract_ref bytes >>= λ nref.
                    ok (
                      raw buf pos (length (cr.tag ∷ cr.rest)) nref,
                      pos + length (cr.tag ∷ cr.rest),
                    ))
                else read_node_lazy fuel buf pos)
              (pos + length (cr.tag ∷ cr.rest))
      by_kind (inl slices) = rw slices (lazily slices)
      by_kind (inr eager) =
          let b = cr.read buf pos fuel h enough in
          rw eager (record {
            c' = b.n';
            runs = b.runs;
            copy = b.copy;
            storable = b.storable;
            rewritten = b.rewritten;
          })

  -- What the reader makes of a branch's children, from their length table and their bytes.
  pub record SlotsBack (cs : Slots) (table body : List ℕ) (result : Result (Slots × ℕ)) (pos' : ℕ)
      : Type 0 where
    pub cs' : Slots
    pub runs : result ≡ ok (let l : Slots × ℕ = (cs', pos') in l)
    pub copy : CopySlots cs cs'
    pub storable : StorableSlots cs'
    pub rewritten : write_children cs' ≡ ok (let l : List ℕ × List ℕ = (table, body) in l)
    pub same_bitmap : branch_bitmap cs' ≡ branch_bitmap cs
    pub same_size : size cs' ≡ size cs

  pub record RereadSlots (cs : Slots) : Type 0 where
    pub table : List ℕ
    pub body : List ℕ
    pub lens : List ℕ
    pub written : write_children cs ≡ ok (let l : List ℕ × List ℕ = (table, body) in l)
    pub read_table :
        (buf : List ℕ) (pos : ℕ)
        → Holds buf pos table
        → read_lens (occupied cs) buf pos
          ≡ ok (let l : List ℕ × ℕ = (lens, pos + length table) in l)
    pub read :
        (buf : List ℕ) (pos fuel : ℕ)
        → Holds buf pos body
        → length body ≤ fuel
        → SlotsBack cs table body
            (read_children_lazy (read_node_lazy fuel) (size cs) (branch_bitmap cs) lens buf pos)
            (pos + length body)

  pub end-RereadSlots : RereadSlots end
  unfolding write_children read_lens read_children_lazy occupied size branch_bitmap
  end-RereadSlots = record {
    table = [];
    body = [];
    lens = [];
    written = refl;
    read_table = λ buf pos h. let e : pos + 0 ≡ pos = omega arith in rw e refl;
    read = λ buf pos fuel h enough. record {
      cs' = end;
      runs = let e : pos + 0 ≡ pos = omega arith in rw e refl;
      copy = cp_end;
      storable = st_end;
      rewritten = refl;
      same_bitmap = refl;
      same_size = refl;
    };
  }

  pub vacant-RereadSlots : (cs : Slots) → RereadSlots cs → RereadSlots (vacant cs)
  unfolding write_children read_lens read_children_lazy occupied size branch_bitmap
  vacant-RereadSlots cs sr = record {
    table = sr.table;
    body = sr.body;
    lens = sr.lens;
    written = sr.written;
    read_table = sr.read_table;
    read = λ buf pos fuel h enough.
        let b = sr.read buf pos fuel h enough in
        record {
          cs' = vacant b.cs';
          runs = rw (even_bit (branch_bitmap cs), even_half (branch_bitmap cs), b.runs) refl;
          copy = cp_vacant cs b.cs' b.copy;
          storable = st_vacant b.cs' b.storable;
          rewritten = b.rewritten;
          same_bitmap = omega (arith, b.same_bitmap);
          same_size = omega (arith, b.same_size);
        };
  }

  filled-table :
      (c : Node) (cs : Slots) (cr : Reread c) (sr : RereadSlots cs)
      → length (cr.tag ∷ cr.rest) < 4294967296
      → (buf : List ℕ) (pos : ℕ) → Holds buf pos (len_bytes (length (cr.tag ∷ cr.rest)) ++ sr.table)
      → read_lens (suc (occupied cs)) buf pos
        ≡ ok (
            let l : List ℕ × ℕ = (
              length (cr.tag ∷ cr.rest) ∷ sr.lens,
              pos + length (len_bytes (length (cr.tag ∷ cr.rest)) ++ sr.table),
            ) in
            l)
  unfolding read_lens
  filled-table c cs cr sr small buf pos h =
      let len : ℕ = length (cr.tag ∷ cr.rest) in
      let four = length-len_bytes len in
      rw
        (
          read_u32-Holds len (left (len_bytes len) sr.table h) small,
          sr.read_table buf (pos + 4) (right (len_bytes len) sr.table h (omega (arith, four))),
          (let e : pos + 4 + length sr.table ≡ pos + length (len_bytes len ++ sr.table) =
                omega (arith, four, length-append (len_bytes len) sr.table) in
              e),
        )
        refl

  pub filled-RereadSlots :
      (c : Node) (cs : Slots)
      → Storable c
      → node_size c < 4294967296
      → Reread c
      → RereadSlots cs
      → RereadSlots (filled c cs)
  unfolding write_children read_children_lazy next_len occupied size branch_bitmap
  filled-RereadSlots c cs st small cr sr = record {
    table = len_bytes (length (cr.tag ∷ cr.rest)) ++ sr.table;
    body = (cr.tag ∷ cr.rest) ++ sr.body;
    lens = length (cr.tag ∷ cr.rest) ∷ sr.lens;
    written = rw (cr.written, sr.written) refl;
    read_table = filled-table c cs cr sr (omega (arith, sized st cr.written, small));
    read = λ buf pos fuel h enough.
        let b =
          child-Back c cr buf pos fuel (left (cr.tag ∷ cr.rest) sr.body h)
            (omega (arith, enough, length-append (cr.tag ∷ cr.rest) sr.body)) in
        let bs =
          sr.read buf (pos + length (cr.tag ∷ cr.rest)) fuel
            (right (cr.tag ∷ cr.rest) sr.body h refl)
            (omega (arith, enough, length-append (cr.tag ∷ cr.rest) sr.body)) in
        record {
          cs' = filled b.c' bs.cs';
          runs =
              rw
                (
                  odd_bit (branch_bitmap cs),
                  odd_half (branch_bitmap cs),
                  b.runs,
                  bs.runs,
                  (let e : pos + length (cr.tag ∷ cr.rest) + length sr.body
                          ≡ pos + length ((cr.tag ∷ cr.rest) ++ sr.body) =
                        omega (arith, length-append (cr.tag ∷ cr.rest) sr.body) in
                      e),
                )
                refl;
          copy = cp_filled c b.c' cs bs.cs' b.copy bs.copy;
          storable =
              st_filled b.c' bs.cs'
                (omega (arith, sized b.storable b.rewritten, sized st cr.written, small)) b.storable
                bs.storable;
          rewritten = rw (b.rewritten, bs.rewritten) refl;
          same_bitmap = omega (arith, bs.same_bitmap);
          same_size = omega (arith, bs.same_size);
        };
  }
