-- ===== src/Node/Access.antt =====
-- src/lib.rs: reading and writing the 16 child slots of a branch.
use mpt_flat_poc.Prelude.{
  ℕ, zero, suc, Bool, true, false, ◌+◌, ◌<◌, ◌≡◌, refl, Option, none, some, arith, ◌==◌,
  if◌then◌else◌,
}
use mpt_flat_poc.Node.{
  Node, raw, empty, branch, Slots, end, vacant, filled, slot_at, fill_slot, clear_slot, size,
  vacant_slots,
}

abbrev pub is_raw : Node → Bool
is_raw (raw _ _ _ _) = true
is_raw _ = false

abbrev pub is_empty : Node → Bool
is_empty empty = true
is_empty _ = false

abbrev pub is_branch : Node → Bool
is_branch (branch _ _) = true
is_branch _ = false

-- The number of children present.
unfoldable pub occupied : Slots → ℕ
occupied end = 0
occupied (vacant cs) = occupied cs
occupied (filled c cs) = suc (occupied cs)

pub size-fill_slot : (cs : Slots) (i : ℕ) (n : Node) → size (fill_slot cs i n) ≡ size cs
unfolding size fill_slot
size-fill_slot end i n = refl
size-fill_slot (vacant cs) zero n = refl
size-fill_slot (vacant cs) (suc i) n = omega (arith, size-fill_slot cs i n)
size-fill_slot (filled c cs) zero n = refl
size-fill_slot (filled c cs) (suc i) n = omega (arith, size-fill_slot cs i n)

pub slot_at-fill_slot :
    (cs : Slots) (i j : ℕ) (n : Node)
    → i < size cs
    → slot_at (fill_slot cs i n) j ≡ (if i == j then some n else slot_at cs j)
unfolding size fill_slot slot_at
slot_at-fill_slot end i j n h = elim h [ ]
slot_at-fill_slot (vacant cs) zero zero n h = ground arith
slot_at-fill_slot (vacant cs) zero (suc j) n h = ground arith
slot_at-fill_slot (vacant cs) (suc i) zero n h = ground arith
slot_at-fill_slot (vacant cs) (suc i) (suc j) n h = ground (arith, slot_at-fill_slot cs i j n)
slot_at-fill_slot (filled c cs) zero zero n h = ground arith
slot_at-fill_slot (filled c cs) zero (suc j) n h = ground arith
slot_at-fill_slot (filled c cs) (suc i) zero n h = ground arith
slot_at-fill_slot (filled c cs) (suc i) (suc j) n h = ground (arith, slot_at-fill_slot cs i j n)

pub size-vacant_slots : (n : ℕ) → size (vacant_slots n) ≡ n
unfolding size vacant_slots
size-vacant_slots zero = refl
size-vacant_slots (suc n) = omega (arith, size-vacant_slots n)

pub slot_at-vacant_slots : (n i : ℕ) → slot_at (vacant_slots n) i ≡ none
unfolding slot_at vacant_slots
slot_at-vacant_slots zero i = refl
slot_at-vacant_slots (suc n) zero = refl
slot_at-vacant_slots (suc n) (suc i) = slot_at-vacant_slots n i

pub occupied-vacant_slots : (n : ℕ) → occupied (vacant_slots n) ≡ 0
unfolding occupied vacant_slots
occupied-vacant_slots zero = refl
occupied-vacant_slots (suc n) = occupied-vacant_slots n

-- 1 for a child that is there.
abbrev pub present : Option Node → ℕ
present none = 0
present (some c) = 1

pub occupied-fill_slot :
    (cs : Slots) (i : ℕ) (n : Node)
    → i < size cs
    → occupied (fill_slot cs i n) + present (slot_at cs i) ≡ occupied cs + 1
unfolding size fill_slot slot_at occupied
occupied-fill_slot end i n h = elim h [ ]
occupied-fill_slot (vacant cs) zero n h = omega arith
occupied-fill_slot (vacant cs) (suc i) n h = occupied-fill_slot cs i n (omega arith)
occupied-fill_slot (filled c cs) zero n h = omega arith
occupied-fill_slot (filled c cs) (suc i) n h =
    omega (arith, occupied-fill_slot cs i n (omega arith))

pub size-clear_slot : (cs : Slots) (i : ℕ) → size (clear_slot cs i) ≡ size cs
unfolding size clear_slot
size-clear_slot end i = refl
size-clear_slot (vacant cs) zero = refl
size-clear_slot (vacant cs) (suc i) = omega (arith, size-clear_slot cs i)
size-clear_slot (filled c cs) zero = refl
size-clear_slot (filled c cs) (suc i) = omega (arith, size-clear_slot cs i)

pub slot_at-clear_slot :
    (cs : Slots) (i j : ℕ) → slot_at (clear_slot cs i) j ≡ (if i == j then none else slot_at cs j)
unfolding size clear_slot slot_at
slot_at-clear_slot end i j = ground arith
slot_at-clear_slot (vacant cs) zero zero = ground arith
slot_at-clear_slot (vacant cs) zero (suc j) = ground arith
slot_at-clear_slot (vacant cs) (suc i) zero = ground arith
slot_at-clear_slot (vacant cs) (suc i) (suc j) = ground (arith, slot_at-clear_slot cs i j)
slot_at-clear_slot (filled c cs) zero zero = ground arith
slot_at-clear_slot (filled c cs) zero (suc j) = ground arith
slot_at-clear_slot (filled c cs) (suc i) zero = ground arith
slot_at-clear_slot (filled c cs) (suc i) (suc j) = ground (arith, slot_at-clear_slot cs i j)
