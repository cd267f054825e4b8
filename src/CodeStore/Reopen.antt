-- ===== src/CodeStore/Reopen.antt =====
-- src/state.rs: what `CodeStore::open` finds in a log, whole or torn.
use mpt_flat_poc.Prelude.{
  ℕ, zero, suc, ◌+◌, ◌-◌, ◌%◌, ◌<◌, ◌≤◌, ◌≡◌, refl, sym, ◌∙◌, ap, false, ◌||◌, Bool-cases, inl, inr,
  List, [], ◌∷◌, ◌++◌, length, take, drop, length-append, append_assoc, append-nil, ltb, le→ltb,
  lt→ltb, ltb→lt, ltb→le, ne→eqb, arith,
}
use mpt_flat_poc.Externals.{Externals}
use mpt_flat_poc.Codec.Reader.{le_value}
use mpt_flat_poc.Codec.Write.{le_bytes, len_bytes}
use mpt_flat_poc.Codec.Holds.{le_value-le_bytes}
use mpt_flat_poc.Codec.Size.{length-len_bytes, length-take}
use mpt_flat_poc.CodeStore.{
  CodeIndex, CodeStore, no_codes, index_insert, is_some, scan, open_log, is_empty_code, log_entry,
  put,
}
use mpt_flat_poc.Record.Paths.{take-append, drop-append}
use mpt_flat_poc.Result.{ok}

abbrev pub Small : List (List ℕ) → Type 0
Small [] = Unit
Small (c ∷ cs) = (length c < 4294967296) × Small cs

abbrev pub fresh_store : CodeStore
fresh_store = record { file = []; index = no_codes; end = 0 }

take-past : (a b : List ℕ) (n m : ℕ) → length a + n ≡ m → take m (a ++ b) ≡ a ++ take n b
take-past [] b n m e = let same : m ≡ n = omega (arith, e) in rw same refl
take-past (c ∷ a) b n zero e = absurd (omega (arith, e))
take-past (c ∷ a) b n (suc m) e = rw (take-past a b n m (omega (arith, e))) refl

module _ ⦃x : Externals⦄ where
  -- Codes stored one after another.
  unfoldable pub puts : CodeStore → List (List ℕ) → CodeStore
  unfolding put
  puts s [] = s
  puts s (c ∷ cs) = puts (put s c) cs

module _ ⦃x : Externals⦄ (wide : (bytes : List ℕ) → length (x.keccak256 bytes) ≡ 32) where
  -- The scan comes through the entries of the store's log, one unit of fuel for each.
  pub record Logged (s : CodeStore) : Type 0 where
    pub measured : s.end ≡ length s.file
    entries : ℕ
    few : entries ≤ length s.file
    through :
        (tail : List ℕ) (f : ℕ)
        → scan (entries + f) (s.file ++ tail) no_codes 0 ≡ scan f (s.file ++ tail) s.index s.end

  entry-length : (code : List ℕ) → length (log_entry code) ≡ 36 + length code
  unfolding log_entry
  entry-length code = simp (length-append, wide code, length-len_bytes) (omega arith)

  -- An entry whose code is anything.
  abbrev header : List ℕ → List ℕ → List ℕ
  header code tail = x.keccak256 code ++ (len_bytes (length code) ++ tail)

  entry-header : (code tail : List ℕ) → log_entry code ++ tail ≡ header code (code ++ tail)
  unfolding log_entry
  entry-header code tail =
      append_assoc (x.keccak256 code) (len_bytes (length code) ++ code) tail
      ∙ ap (λ xs. x.keccak256 code ++ xs) (append_assoc (len_bytes (length code)) code tail)

  header-hash : (code tail : List ℕ) → take 32 (header code tail) ≡ x.keccak256 code
  header-hash code tail =
      ap (λ n. take n (header code tail)) (sym (wide code))
      ∙ take-append (x.keccak256 code) (len_bytes (length code) ++ tail)

  header-len :
      (code tail : List ℕ)
      → length code < 4294967296
      → le_value (take 4 (drop 32 (header code tail))) ≡ length code
  header-len code tail small = ap (λ xs. le_value (take 4 xs)) behind ∙ value
    where
      behind : drop 32 (header code tail) ≡ len_bytes (length code) ++ tail
      behind =
          ap (λ n. drop n (header code tail)) (sym (wide code))
          ∙ drop-append (x.keccak256 code) (len_bytes (length code) ++ tail)

      small' : length code % 4294967296 ≡ length code
      small' = omega (arith, small)

      four : take 4 (len_bytes (length code) ++ tail) ≡ len_bytes (length code)
      four = unfold len_bytes le_bytes in refl

      value : le_value (take 4 (len_bytes (length code) ++ tail)) ≡ length code
      value =
          ap le_value four
          ∙ (unfold len_bytes in
              (le_value-le_bytes 4 (length code % 4294967296) (omega arith) ∙ small'))

  length-header : (code tail : List ℕ) → length (header code tail) ≡ 36 + length tail
  length-header code tail = simp (length-append, wide code, length-len_bytes) (omega arith)

  -- One entry further.
  scan-entry :
      (file : List ℕ) (index : CodeIndex) (end f : ℕ) (code tail : List ℕ)
      → drop end file ≡ header code tail
      → end + 36 + length code ≤ length file
      → length code < 4294967296
      → scan (suc f) file index end
        ≡ scan f file
            (index_insert index (x.keccak256 code) (end + 36, length code))
            (end + 36 + length code)
  unfolding scan
  scan-entry file index end f code tail at room small =
      rw
        (
          at,
          header-hash code tail,
          header-len code tail small,
          ne→eqb (length (header code tail)) 0 (omega (arith, length-header code tail)),
          le→ltb (length (header code tail)) 36 (omega (arith, length-header code tail)),
          le→ltb (length file) (end + 36 + length code) room,
        )
        refl

  -- A torn entry is cut off: its header is, or its code.
  scan-rest :
      (s : CodeStore) (torn : List ℕ) (f : ℕ)
      → s.end ≡ length s.file
      → length torn < 36
      → scan (suc f) (s.file ++ torn) s.index s.end ≡ ok s
  unfolding scan
  scan-rest s [] f e short = rw (append-nil s.file, at_end) refl
    where
      at_end : drop s.end s.file ≡ []
      at_end =
          ap (λ n. drop n s.file) e
          ∙ ap (drop (length s.file)) (sym (append-nil s.file))
          ∙ drop-append s.file []
  scan-rest s (b ∷ torn) f e short =
      rw
        (
          (let at : drop s.end (s.file ++ (b ∷ torn)) ≡ b ∷ torn =
                ap (λ n. drop n (s.file ++ (b ∷ torn))) e ∙ drop-append s.file (b ∷ torn) in
              at),
          (let cut : take s.end (s.file ++ (b ∷ torn)) ≡ s.file =
                ap (λ n. take n (s.file ++ (b ∷ torn))) e ∙ take-append s.file (b ∷ torn) in
              cut),
          ne→eqb (suc (length torn)) 0 (omega arith),
          lt→ltb (suc (length torn)) 36 short,
        )
        refl

  scan-code :
      (s : CodeStore) (code part : List ℕ) (f : ℕ)
      → s.end ≡ length s.file
      → length part < length code
      → length code < 4294967296
      → scan (suc f) (s.file ++ header code part) s.index s.end ≡ ok s
  unfolding scan
  scan-code s code part f e lt small =
      rw
        (
          (let at : drop s.end (s.file ++ header code part) ≡ header code part =
                ap (λ n. drop n (s.file ++ header code part)) e
                ∙ drop-append s.file (header code part) in
              at),
          (let cut : take s.end (s.file ++ header code part) ≡ s.file =
                ap (λ n. take n (s.file ++ header code part)) e
                ∙ take-append s.file (header code part) in
              cut),
          header-len code part small,
          ne→eqb (length (header code part)) 0 (omega (arith, length-header code part)),
          le→ltb (length (header code part)) 36 (omega (arith, length-header code part)),
          lt→ltb (length (s.file ++ header code part)) (s.end + 36 + length code) (
              omega
                (arith, length-append s.file (header code part), length-header code part, e, lt)),
        )
        refl

  -- A crash in the middle of an append leaves the store before it.
  scan-torn :
      (s : CodeStore) (code : List ℕ) (m f : ℕ)
      → s.end ≡ length s.file
      → m < length (log_entry code)
      → length code < 4294967296
      → scan (suc f) (s.file ++ take m (log_entry code)) s.index s.end ≡ ok s
  scan-torn s code m f e lt small = elim (Bool-cases (ltb m 36)) [
    | inl short ↦
        scan-rest s (take m (log_entry code)) f e
          (omega (arith, length-take m (log_entry code) (omega (arith, lt)), ltb→lt m 36 short))
    | inr long ↦
        let past : 36 ≤ m = ltb→le m 36 long in
        rw (parted past) (
          scan-code s code (take (m - 36) code) f e
            (omega (
              arith,
              length-take (m - 36) code (omega (arith, lt, entry-length code)),
              lt,
              entry-length code,
              past,
            ))
            small)
  ]
    where
      parted : 36 ≤ m → take m (log_entry code) ≡ header code (take (m - 36) code)
      parted past =
          unfold log_entry in
          (take-past (x.keccak256 code) (len_bytes (length code) ++ code) (4 + (m - 36)) m
              (omega (arith, wide code, past))
            ∙ ap (λ xs. x.keccak256 code ++ xs)
                (take-past (len_bytes (length code)) code (m - 36) (4 + (m - 36))
                  (omega (arith, length-len_bytes (length code)))))

  pub put-Logged :
      (s : CodeStore) (code : List ℕ) → length code < 4294967296 → Logged s → Logged (put s code)
  unfolding put
  put-Logged s code small l =
      elim (Bool-cases (is_empty_code code || is_some (s.index (x.keccak256 code)))) [
        | inl known ↦ rw known l
        | inr new ↦ rw new (appended (length code % 4294967296) (omega (arith, small)))
      ]
    where
      appended :
          (len : ℕ)
          → len ≡ length code
          → Logged (record {
            file = s.file ++ log_entry code;
            index = index_insert s.index (x.keccak256 code) (s.end + 36, len);
            end = s.end + 36 + length code;
          })
      appended len len_eq = record {
        measured =
            omega (arith, l.measured, length-append s.file (log_entry code), entry-length code);
        entries = l.entries + 1;
        few = omega (arith, l.few, length-append s.file (log_entry code), entry-length code);
        through = λ tail f.
            let room : s.end + 36 + length code ≤ length (s.file ++ (log_entry code ++ tail)) =
              omega (
                arith,
                l.measured,
                length-append s.file (log_entry code ++ tail),
                length-append (log_entry code) tail,
                entry-length code,
              ) in
            let at : drop s.end (s.file ++ (log_entry code ++ tail)) ≡ header code (code ++ tail) =
              ap (λ n. drop n (s.file ++ (log_entry code ++ tail))) l.measured
              ∙ drop-append s.file (log_entry code ++ tail)
              ∙ entry-header code tail in
            let fuel : l.entries + 1 + f ≡ l.entries + suc f = omega arith in
            rw (append_assoc s.file (log_entry code) tail, fuel)
              (l.through (log_entry code ++ tail) (suc f)
                ∙ scan-entry (s.file ++ (log_entry code ++ tail)) s.index s.end f code
                    (code ++ tail) at room small
                ∙ ap
                    (λ n.
                      scan f (s.file ++ (log_entry code ++ tail))
                        (index_insert s.index (x.keccak256 code) (s.end + 36, n))
                        (s.end + 36 + length code))
                    (sym len_eq));
      }

  pub puts-Logged : (cs : List (List ℕ)) (s : CodeStore) → Small cs → Logged s → Logged (puts s cs)
  unfolding puts
  puts-Logged [] s small l = l
  puts-Logged (c ∷ cs) s small l = puts-Logged cs (put s c) small.1 (put-Logged s c small.0 l)

  pub fresh-Logged : Logged fresh_store
  fresh-Logged = record {
    measured = refl;
    entries = 0;
    few = omega arith;
    through = λ tail f. let e : 0 + f ≡ f = omega arith in rw e refl;
  }

  -- Codes of less than 2^32 bytes put into an empty store, then a crash that leaves any proper part
  -- of the next log entry in the file, none of it included: reopening the file gives the store
  -- before the crash, where keccak256 gives 32 bytes.
  pub open_log-puts :
      (codes : List (List ℕ)) (code : List ℕ) (m : ℕ)
      → Small codes
      → length code < 4294967296
      → m < length (log_entry code)
      → open_log ((puts fresh_store codes).file ++ take m (log_entry code)) false
        ≡ ok (puts fresh_store codes)
  unfolding open_log
  open_log-puts codes code m small small' lt =
      let l = puts-Logged codes fresh_store small fresh-Logged in
      let s : CodeStore = puts fresh_store codes in
      let torn : List ℕ = take m (log_entry code) in
      let left : ℕ = length (s.file ++ torn) - l.entries in
      let fuel : length (s.file ++ torn) + 1 ≡ l.entries + suc left =
        omega (arith, l.few, length-append s.file torn) in
      ap (λ n. scan n (s.file ++ torn) no_codes 0) fuel
      ∙ l.through torn (suc left)
      ∙ scan-torn s code m left l.measured lt small'
