-- ===== src/Block/Index.antt =====
-- src/lib.rs: the index map of `normalize_block` finds what a scan of the slots finds.
use mpt_flat_poc.Prelude.{
  ℕ, suc, ◌≡◌, refl, sym, ◌∙◌, ap, Bool, true, false, ◌&&◌, Bool-cases, Option-cases, inl, inr, ◌⊎◌,
  Option, none, some, List, [], ◌∷◌, ◌++◌, length, list_eqb, list_eqb→eq, precedes, if◌then◌else◌,
}
use mpt_flat_poc.Block.{
  StateOp, set_account, delete_account, wipe_storage, set_storage, delete_storage, SlotUpdate,
  NetUpdate, is_delete,
}
use mpt_flat_poc.Block.Normalize.{
  Updates, SlotIndex, net_at, put_net, set_index, drain, write_value, write_entry, write_slot,
  recreate, fold_op, fold_ops, normalize_block,
}
use mpt_flat_poc.Block.Scan.{put_slot, further, or_end, position, scan_op, scan_ops}
use mpt_flat_poc.Result.{Result, ok}

pub net_at-put_net :
    (m : Updates) (key k : List ℕ) (u : NetUpdate)
    → net_at (put_net m key u) k ≡ (if list_eqb k key then u else net_at m k)
unfolding net_at put_net
net_at-put_net [] key k u = refl
net_at-put_net (e ∷ m) key k u = elim (Bool-cases (list_eqb key e.0)) [
  | inl same ↦ rw same (elim (Bool-cases (list_eqb k key)) [
    | inl hit ↦ rw hit refl
    | inr miss ↦ rw (miss) (rw (← list_eqb→eq key e.0 same, miss) refl)
  ])
  | inr other ↦ rw other (elim (Bool-cases (precedes key e.0)) [
    | inl before ↦ rw before refl
    | inr behind ↦ rw behind (elim (Bool-cases (list_eqb k e.0)) [
      | inl here ↦ rw here (rw (off_key other here) refl)
      | inr past ↦ rw past (net_at-put_net m key k u)
    ])
  ])
]
  where
    off_key : list_eqb key e.0 ≡ false → list_eqb k e.0 ≡ true → list_eqb k key ≡ false
    off_key o h = elim (Bool-cases (list_eqb k key)) [
      | inl eq ↦ absurd (cc (o, h, list_eqb→eq k key eq))
      | inr ne ↦ ne
    ]

-- The index gives each slot's position among its account's slots.
abbrev pub Indexes : Updates → SlotIndex → Type 0
Indexes m idx = (key slot : List ℕ) → idx key slot ≡ position (net_at m key).slots slot

-- What the entry of a slot comes to, by where the slot stands.
abbrev Written : List SlotUpdate → List ℕ → Option (List ℕ) → Option ℕ → Type 0
Written us slot v none = us ++ ((slot, v) ∷ []) ≡ put_slot us slot v
Written us slot v (some i) = write_value us i v ≡ ok (put_slot us slot v)

position-Written :
    (us : List SlotUpdate) (slot : List ℕ) (v : Option (List ℕ))
    → Written us slot v (position us slot)
unfolding position write_value put_slot
position-Written [] slot v = refl
position-Written (u ∷ us) slot v = elim (Bool-cases (list_eqb slot u.0)) [
  | inl same ↦ rw same (rw same refl)
  | inr other ↦ rw other (behind other (position us slot) (position-Written us slot v))
]
  where
    behind :
        list_eqb slot u.0 ≡ false
        → (o : Option ℕ) → Written us slot v o
        → Written (u ∷ us) slot v (further o)
    behind other none h = rw (other, h) refl
    behind other (some i) h = rw (other, h) refl

-- Writing a slot moves no other.
position-put_slot :
    (us : List SlotUpdate) (slot s : List ℕ) (v : Option (List ℕ))
    → position (put_slot us slot v) s
      ≡ (if list_eqb s slot then or_end (length us) (position us slot) else position us s)
unfolding position put_slot
position-put_slot [] slot s v = refl
position-put_slot (u ∷ us) slot s v = elim (Bool-cases (list_eqb slot u.0)) [
  | inl same ↦ rw same (elim (Bool-cases (list_eqb s slot)) [
    | inl hit ↦ rw hit (rw (sym (list_eqb→eq slot u.0 same)) (rw hit refl))
    | inr miss ↦ rw miss refl
  ])
  | inr other ↦ rw other (elim (Bool-cases (list_eqb s u.0)) [
    | inl at_u ↦ rw at_u (rw (off other at_u) refl)
    | inr past ↦
        rw (past, position-put_slot us slot s v)
          (elim (Bool-cases (list_eqb s slot)) [
            | inl hit ↦ rw hit (shift (position us slot))
            | inr miss ↦ rw miss refl
          ])
  ])
]
  where
    off : list_eqb slot u.0 ≡ false → list_eqb s u.0 ≡ true → list_eqb s slot ≡ false
    off o h = elim (Bool-cases (list_eqb s slot)) [
      | inl eq ↦ absurd (cc (o, h, list_eqb→eq s slot eq))
      | inr ne ↦ ne
    ]

    shift : (o : Option ℕ) → further (or_end (length us) o) ≡ or_end (suc (length us)) (further o)
    shift none = refl
    shift (some i) = refl

abbrev present : Option ℕ → Bool
present none = false
present (some i) = true

drain_lem :
    (us : List SlotUpdate) (idx : SlotIndex) (key k s : List ℕ)
    → drain idx key us k s ≡ (if list_eqb k key && present (position us s) then none else idx k s)
unfolding drain set_index position
drain_lem [] idx key k s = elim (Bool-cases (list_eqb k key)) [
  | inl e ↦ rw e refl
  | inr e ↦ rw e refl
]
drain_lem (u ∷ us) idx key k s =
    drain_lem us (set_index idx key u.0 none) key k s
    ∙ joined (list_eqb k key) (list_eqb s u.0) (position us s)
  where
    joined :
        (b c : Bool) (o : Option ℕ)
        → (if b && present o then none else (if b && c then none else idx k s))
          ≡ (if b && present (if c then some 0 else further o) then none else idx k s)
    joined false c o = refl
    joined true false none = refl
    joined true false (some i) = refl
    joined true true none = refl
    joined true true (some i) = refl

-- One operation: the index map leads to the update that the scan makes, and indexes it.
record Stepped (m : Updates) (idx : SlotIndex) (key : List ℕ) (u : NetUpdate)
    (result : Result (NetUpdate × SlotIndex)) : Type 0 where
  idx' : SlotIndex
  runs : result ≡ ok (u, idx')
  indexed : (k s : List ℕ) → idx' k s ≡ (if list_eqb k key then position u.slots s else idx k s)

unmoved :
    (m : Updates) (idx : SlotIndex) (key : List ℕ)
    → Indexes m idx
    → (k s : List ℕ)
    → idx k s ≡ (if list_eqb k key then position (net_at m key).slots s else idx k s)
unmoved m idx key h k s = elim (Bool-cases (list_eqb k key)) [
  | inl e ↦ rw e (rw (list_eqb→eq k key e) (h key s))
  | inr e ↦ rw e refl
]

drained :
    (m : Updates) (idx : SlotIndex) (key : List ℕ)
    → Indexes m idx
    → (k s : List ℕ)
    → drain idx key (net_at m key).slots k s ≡ (if list_eqb k key then none else idx k s)
drained m idx key h k s =
    drain_lem (net_at m key).slots idx key k s
    ∙ by_key (Bool-cases (list_eqb k key)) (Option-cases (position (net_at m key).slots s))
  where
    by_key :
        (list_eqb k key ≡ true) ⊎ (list_eqb k key ≡ false)
        → (position (net_at m key).slots s ≡ none)
          ⊎ ((i : ℕ) × (position (net_at m key).slots s ≡ some i))
        → (if list_eqb k key && present (position (net_at m key).slots s) then none else idx k s)
          ≡ (if list_eqb k key then none else idx k s)
    by_key (inr e) o = rw e refl
    by_key (inl e) (inl n) = rw (e, n) (rw (list_eqb→eq k key e) (h key s ∙ n))
    by_key (inl e) (inr i) = rw (e, i.1) refl

module _ (m : Updates) (idx : SlotIndex) (key : List ℕ) (h : Indexes m idx) where
  -- A write to the slots of an update with the slots of the account's.
  entry-Stepped :
      (u : NetUpdate) (slot : List ℕ) (v : Option (List ℕ))
      → u.slots ≡ (net_at m key).slots
      → Stepped m idx key
          (record u { slots = put_slot u.slots slot v })
          (write_slot idx key u slot v)
  unfolding write_slot write_entry
  entry-Stepped u slot v same =
      rw (h key slot ∙ ap (λ us. position us slot) (sym same))
        (by_place (position u.slots slot) refl (position-Written u.slots slot v))
    where
      moved :
          (o : Option ℕ)
          → position u.slots slot ≡ o
          → (k s : List ℕ)
          → (if list_eqb k key && list_eqb s slot then or_end (length u.slots) o else idx k s)
            ≡ (if list_eqb k key then position (put_slot u.slots slot v) s else idx k s)
      moved o eq k s = elim (Bool-cases (list_eqb k key)) [
        | inl e ↦
            rw (e, position-put_slot u.slots slot s v, eq)
              (rw (list_eqb→eq k key e, h key s, same) refl)
        | inr e ↦ rw e refl
      ]

      by_place :
          (o : Option ℕ)
          → position u.slots slot ≡ o
          → Written u.slots slot v o
          → Stepped m idx key
              (record u { slots = put_slot u.slots slot v })
              (write_entry idx key u slot v o)
      by_place none eq w = record {
        idx' = set_index idx key slot (some (length u.slots));
        runs = rw w refl;
        indexed = λ k s. unfold set_index in moved none eq k s;
      }
      by_place (some i) eq w = record {
        idx' = idx;
        runs = rw w refl;
        indexed = λ k s. stays k s (Bool-cases (list_eqb k key)) (Bool-cases (list_eqb s slot));
      }
        where
          stays :
              (k s : List ℕ)
              → (list_eqb k key ≡ true) ⊎ (list_eqb k key ≡ false)
              → (list_eqb s slot ≡ true) ⊎ (list_eqb s slot ≡ false)
              → idx k s ≡ (if list_eqb k key then position (put_slot u.slots slot v) s else idx k s)
          stays k s (inr off) c = rw off refl
          stays k s (inl at_key) (inl hit) =
              rw (at_key, position-put_slot u.slots slot s v, hit, eq)
                (rw (list_eqb→eq k key at_key, list_eqb→eq s slot hit)
                  (h key slot ∙ ap (λ us. position us slot) (sym same) ∙ eq))
          stays k s (inl at_key) (inr miss) =
              rw (at_key, position-put_slot u.slots slot s v, miss)
                (rw (list_eqb→eq k key at_key) (h key s ∙ ap (λ us. position us s) (sym same)))

  emptied :
      (u : NetUpdate)
      → u.slots ≡ []
      → (k s : List ℕ)
      → drain idx key (net_at m key).slots k s
        ≡ (if list_eqb k key then position u.slots s else idx k s)
  unfolding position
  emptied u e k s = rw e (drained m idx key h k s)

  recreate-slots : (u : NetUpdate) → (recreate u).slots ≡ u.slots
  unfolding recreate
  recreate-slots u = elim (Bool-cases (is_delete u.account)) [
    | inl e ↦ rw e refl
    | inr e ↦ rw e refl
  ]

  fold_op-Stepped :
      (op : StateOp)
      → Stepped m idx key (scan_op (net_at m key) op) (fold_op idx key (net_at m key) op)
  unfolding scan_op fold_op
  fold_op-Stepped (set_account nonce balance code_hash) = record {
    idx' = idx;
    runs = refl;
    indexed = unmoved m idx key h;
  }
  fold_op-Stepped delete_account = record {
    idx' = drain idx key (net_at m key).slots;
    runs = refl;
    indexed = emptied (record (net_at m key) { slots = [] }) refl;
  }
  fold_op-Stepped wipe_storage = record {
    idx' = drain idx key (net_at m key).slots;
    runs = refl;
    indexed = emptied (record (net_at m key) { slots = [] }) refl;
  }
  fold_op-Stepped (set_storage slot v) =
      entry-Stepped (recreate (net_at m key)) slot (some v) (recreate-slots (net_at m key))
  fold_op-Stepped (delete_storage slot) = elim (Bool-cases (is_delete (net_at m key).account)) [
    | inl gone ↦ rw gone (record { idx' = idx; runs = refl; indexed = unmoved m idx key h })
    | inr there ↦ rw there (entry-Stepped (net_at m key) slot none refl)
  ]

fold_ops-scan :
    (ops : List (List ℕ × StateOp)) (m : Updates) (idx : SlotIndex)
    → Indexes m idx
    → fold_ops m idx ops ≡ ok (scan_ops m ops)
unfolding fold_ops scan_ops
fold_ops-scan [] m idx h = refl
fold_ops-scan (o ∷ ops) m idx h =
    let st = fold_op-Stepped m idx o.0 h o.1 in
    let u = scan_op (net_at m o.0) o.1 in
    rw st.runs (
      fold_ops-scan ops (put_net m o.0 u) st.idx'
        (λ k s. st.indexed k s ∙ joined u (h k s) (net_at-put_net m o.0 k u)))
  where
    joined :
        {k s : List ℕ} (u : NetUpdate)
        → idx k s ≡ position (net_at m k).slots s
        → net_at (put_net m o.0 u) k ≡ (if list_eqb k o.0 then u else net_at m k)
        → (if list_eqb k o.0 then position u.slots s else idx k s)
          ≡ position (net_at (put_net m o.0 u) k).slots s
    joined {k} {s} u a b = elim (Bool-cases (list_eqb k o.0)) [
      | inl e ↦ rw (e) (ap (λ (w : NetUpdate). position w.slots s) (sym (rw e at b)))
      | inr e ↦ rw (e) (a ∙ ap (λ (w : NetUpdate). position w.slots s) (sym (rw e at b)))
    ]

-- `normalize_block` does not panic, and gives the map that folding the operations in order with a
-- scan of the account's slots gives.
pub normalize_block-scan :
    (ops : List (List ℕ × StateOp)) → normalize_block ops ≡ ok (scan_ops [] ops)
unfolding normalize_block
normalize_block-scan ops =
    fold_ops-scan ops [] (λ key slot. none) (λ key slot. unfold net_at position in refl)
