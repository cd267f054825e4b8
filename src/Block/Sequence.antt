-- ===== src/Block/Sequence.antt =====
-- src/lib.rs: the net update that `normalize_block` finds for an account does what its operations do
-- in sequence.
use mpt_flat_poc.Prelude.{
  ℕ, ◌≡◌, refl, sym, ◌∙◌, true, false, Bool-cases, inl, inr, ◌⊎◌, Option, none, some, List, [], ◌∷◌,
  list_eqb, list_eqb→eq, if◌then◌else◌, arith,
}
use mpt_flat_poc.Block.{
  StateOp, set_account, delete_account, wipe_storage, set_storage, delete_storage, SlotUpdate,
  NetUpdate, is_delete,
}
use mpt_flat_poc.Block.Normalize.{recreate}
use mpt_flat_poc.Block.Scan.{put_slot, scan_op, position}
use mpt_flat_poc.Block.Effect.{Fields, Acct, write, created, run_op, write_slots}

-- No slot is listed twice.
abbrev pub Distinct : List SlotUpdate → Type 0
Distinct [] = Unit
Distinct (u ∷ us) = (position us u.0 ≡ none) × Distinct us

position-put_slot_other :
    (us : List SlotUpdate) (slot s : List ℕ) (v : Option (List ℕ))
    → list_eqb s slot ≡ false
    → position us s ≡ none
    → position (put_slot us slot v) s ≡ none
unfolding position put_slot
position-put_slot_other [] slot s v ne h = rw ne refl
position-put_slot_other (u ∷ us) slot s v ne h = elim (Bool-cases (list_eqb slot u.0)) [
  | inl same ↦ rw same h
  | inr other ↦ rw other (ground (arith, position-put_slot_other us slot s v))
]

list_eqb_comm : (a b : List ℕ) → list_eqb a b ≡ list_eqb b a
unfolding list_eqb
list_eqb_comm [] [] = refl
list_eqb_comm [] (c ∷ b) = refl
list_eqb_comm (d ∷ a) [] = refl
list_eqb_comm (d ∷ a) (c ∷ b) = ground (arith, list_eqb_comm a b)

put_slot-Distinct :
    (us : List SlotUpdate) (slot : List ℕ) (v : Option (List ℕ))
    → Distinct us
    → Distinct (put_slot us slot v)
unfolding put_slot
put_slot-Distinct [] slot v d = (unfold position in refl, tt)
put_slot-Distinct (u ∷ us) slot v d = elim (Bool-cases (list_eqb slot u.0)) [
  | inl same ↦ rw same d
  | inr other ↦ rw other (
    position-put_slot_other us slot u.0 v (list_eqb_comm u.0 slot ∙ other) d.0,
    put_slot-Distinct us slot v d.1,
  )
]

-- What the list says of a slot.
unfoldable pub final : List SlotUpdate → List ℕ → Option (Option (List ℕ))
final [] s = none
final (u ∷ us) s = let rest = final us s in if list_eqb s u.0 then some u.1 else rest

abbrev pub or_else : Option (Option (List ℕ)) → Option (List ℕ) → Option (List ℕ)
or_else none o = o
or_else (some v) o = v

final-put_slot :
    (us : List SlotUpdate) (slot s : List ℕ) (v : Option (List ℕ))
    → final (put_slot us slot v) s ≡ (if list_eqb s slot then some v else final us s)
unfolding final put_slot
final-put_slot [] slot s v = refl
final-put_slot (u ∷ us) slot s v = elim (Bool-cases (list_eqb slot u.0)) [
  | inl same ↦ rw same (elim (Bool-cases (list_eqb s slot)) [
    | inl hit ↦ rw hit (rw (sym (list_eqb→eq slot u.0 same)) (rw hit refl))
    | inr miss ↦ rw (sym (list_eqb→eq slot u.0 same)) (rw miss refl)
  ])
  | inr other ↦ rw other (elim (Bool-cases (list_eqb s u.0)) [
    | inl at_u ↦ rw at_u (rw (off other at_u) refl)
    | inr past ↦ rw past (final-put_slot us slot s v)
  ])
]
  where
    off : list_eqb slot u.0 ≡ false → list_eqb s u.0 ≡ true → list_eqb s slot ≡ false
    off o h = elim (Bool-cases (list_eqb s slot)) [
      | inl eq ↦ absurd (cc (o, h, list_eqb→eq s slot eq))
      | inr ne ↦ ne
    ]

position-final : (us : List SlotUpdate) (s : List ℕ) → position us s ≡ none → final us s ≡ none
unfolding position final
position-final [] s h = refl
position-final (u ∷ us) s h = ground (arith, position-final us s)

pub slots-write_slots :
    (us : List SlotUpdate) (a : Acct) (s : List ℕ)
    → Distinct us
    → (write_slots a us).slots s ≡ or_else (final us s) (a.slots s)
unfolding write_slots final
slots-write_slots [] a s d = refl
slots-write_slots ((slot, some v) ∷ us) a s d =
    slots-write_slots us (record { fields = created a.fields; slots = write a.slots slot (some v) })
      s d.1
    ∙ elim (Bool-cases (list_eqb s slot)) [
      | inl hit ↦ rw hit (rw (list_eqb→eq s slot hit, position-final us slot d.0) refl)
      | inr miss ↦ rw miss refl
    ]
slots-write_slots ((slot, none) ∷ us) a s d =
    slots-write_slots us (record a { slots = write a.slots slot none }) s d.1
    ∙ elim (Bool-cases (list_eqb s slot)) [
      | inl hit ↦ rw hit (rw (list_eqb→eq s slot hit, position-final us slot d.0) refl)
      | inr miss ↦ rw miss refl
    ]

pub fields-write_slots :
    (us : List SlotUpdate) (a : Acct) (f : Fields)
    → a.fields ≡ some f
    → (write_slots a us).fields ≡ some f
unfolding write_slots
fields-write_slots [] a f h = h
fields-write_slots ((slot, some v) ∷ us) a f h =
    fields-write_slots us
      (record { fields = created a.fields; slots = write a.slots slot (some v) }) f (rw h refl)
fields-write_slots ((slot, none) ∷ us) a f h =
    fields-write_slots us (record a { slots = write a.slots slot none }) f h

-- A deletion keeps no slot and no storage.
pub record Fine (u : NetUpdate) : Type 0 where
  pub distinct : Distinct u.slots
  pub bare : is_delete u.account ≡ true → u.slots ≡ []
  pub clean : is_delete u.account ≡ true → u.wipe ≡ true

recreate-keeps : (u : NetUpdate) → ((recreate u).slots ≡ u.slots) × ((recreate u).wipe ≡ u.wipe)
unfolding recreate
recreate-keeps u = elim (Bool-cases (is_delete u.account)) [
  | inl e ↦ rw e (refl, refl)
  | inr e ↦ rw e (refl, refl)
]

pub recreate-stays : (u : NetUpdate) → is_delete (recreate u).account ≡ false
unfolding recreate
recreate-stays u = elim (Bool-cases (is_delete u.account)) [ inl e ↦ rw e refl | inr e ↦ rw e e ]

pub scan_op-Fine : (u : NetUpdate) (op : StateOp) → Fine u → Fine (scan_op u op)
unfolding scan_op
scan_op-Fine u (set_account _ _ _) f = record {
  distinct = f.distinct;
  bare = λ e. cc;
  clean = λ e. cc;
}
scan_op-Fine u delete_account f = record { distinct = tt; bare = λ e. refl; clean = λ e. refl }
scan_op-Fine u wipe_storage f = record { distinct = tt; bare = λ e. refl; clean = λ e. refl }
scan_op-Fine u (set_storage slot v) f = record {
  distinct =
      put_slot-Distinct (recreate u).slots slot (some v) (rw (recreate-keeps u).0 f.distinct);
  bare = λ e. cc (recreate-stays u);
  clean = λ e. cc (recreate-stays u);
}
scan_op-Fine u (delete_storage slot) f = elim (Bool-cases (is_delete u.account)) [
  | inl e ↦ rw e f
  | inr e ↦ rw e (record {
    distinct = put_slot-Distinct u.slots slot none f.distinct;
    bare = λ q. cc;
    clean = λ q. cc;
  })
]

-- What a net update makes of a slot and of the fields.
unfoldable pub net_slot : NetUpdate → Option (List ℕ) → List ℕ → Option (List ℕ)
net_slot u o s =
    if is_delete u.account then none else or_else (final u.slots s) (if u.wipe then none else o)

unfoldable pub op_slot : StateOp → List ℕ → Option (List ℕ) → Option (List ℕ)
op_slot (set_account _ _ _) s o = o
op_slot delete_account s o = none
op_slot wipe_storage s o = none
op_slot (set_storage slot v) s o = if list_eqb s slot then some v else o
op_slot (delete_storage slot) s o = if list_eqb s slot then none else o

pub slots-run_op :
    (a : Acct) (op : StateOp) (s : List ℕ) → (run_op a op).slots s ≡ op_slot op s (a.slots s)
unfolding run_op op_slot
slots-run_op a (set_account _ _ _) s = refl
slots-run_op a delete_account s = refl
slots-run_op a wipe_storage s = refl
slots-run_op a (set_storage slot v) s = refl
slots-run_op a (delete_storage slot) s = refl

pub net_slot-scan_op :
    (u : NetUpdate) (op : StateOp) (o : Option (List ℕ)) (s : List ℕ)
    → Fine u
    → net_slot (scan_op u op) o s ≡ op_slot op s (net_slot u o s)
unfolding net_slot scan_op op_slot
net_slot-scan_op u (set_account _ _ _) o s f = elim (Bool-cases (is_delete u.account)) [
  | inl e ↦ rw e (rw (f.bare e, f.clean e) (unfold final in refl))
  | inr e ↦ rw e refl
]
net_slot-scan_op u delete_account o s f = refl
net_slot-scan_op u wipe_storage o s f = elim (Bool-cases (is_delete u.account)) [
  | inl e ↦ rw e refl
  | inr e ↦ rw e (unfold final in refl)
]
net_slot-scan_op u (set_storage slot v) o s f =
    rw
      (
        recreate-stays u,
        final-put_slot (recreate u).slots slot s (some v),
        (recreate-keeps u).0,
        (recreate-keeps u).1,
      )
      (by_tests (Bool-cases (list_eqb s slot)) (Bool-cases (is_delete u.account)))
  where
    by_tests :
        (list_eqb s slot ≡ true) ⊎ (list_eqb s slot ≡ false)
        → (is_delete u.account ≡ true) ⊎ (is_delete u.account ≡ false)
        → or_else
            (if list_eqb s slot then some (some v) else final u.slots s)
            (if u.wipe then none else o)
          ≡ (if list_eqb s slot
              then some v
              else (if is_delete u.account
                  then none
                  else or_else (final u.slots s) (if u.wipe then none else o)))
    by_tests (inl hit) d = rw hit refl
    by_tests (inr miss) (inl e) = rw (miss, e) (rw (f.bare e, f.clean e) (unfold final in refl))
    by_tests (inr miss) (inr e) = rw (miss, e) refl
net_slot-scan_op u (delete_storage slot) o s f = elim (Bool-cases (is_delete u.account)) [
  | inl e ↦ rw e (rw e (ground arith))
  | inr e ↦ rw e (
      rw (e, final-put_slot u.slots slot s none)
        (elim (Bool-cases (list_eqb s slot)) [ inl hit ↦ rw hit refl | inr miss ↦ rw miss refl ]))
]
