-- ===== src/Examples/Regions.antt =====
-- The theorems of `Regions` at concrete inputs: two full regions, and the death of the first.
use mpt_flat_poc.Prelude.{
  ℕ, ◌+◌, ◌*◌, ◌≤◌, ◌≡◌, ◌≢◌, refl, [], ◌∷◌, true, false, get_or, ◌==◌, if◌then◌else◌, arith, ◌⊎◌,
}
use mpt_flat_poc.Regions.{
  RegionAlloc, new_alloc, region_units, units_per_page, region_of_unit, wrap32,
}
use mpt_flat_poc.Regions.Ops.{alloc, free, pin, drain_staged}
use mpt_flat_poc.Regions.Counts.{occurs, held}
use mpt_flat_poc.Regions.Parked.{Good}
use mpt_flat_poc.Regions.Reuse.{
  allocate, release_run, drained, pinned, Reachable, start, after, Reachable-Good, alloc-Reachable,
}
use mpt_flat_poc.Regions.PinOrder.{In, here}
use mpt_flat_poc.Regions.Pins.{Step-snap_hold}
use mpt_flat_poc.Regions.Reuse.{unpinned}
use mpt_flat_poc.Regions.Ops.{unpin}
use mpt_flat_poc.Result.{ok}

abbrev one_region : RegionAlloc
one_region = record new_alloc {
  live = 512 ∷ [];
  epoch_of = 0 ∷ [];
  next_unit = 512;
  fresh = true ∷ [];
  evac_pinned = false ∷ [];
}

abbrev two_regions : RegionAlloc
two_regions = record new_alloc {
  live = 512 ∷ 512 ∷ [];
  epoch_of = 0 ∷ 0 ∷ [];
  head_region = 1;
  next_unit = 1024;
  fresh = true ∷ true ∷ [];
  evac_pinned = false ∷ false ∷ [];
}

first_alloc : alloc new_alloc 512 512 0 ≡ ok (0, one_region, 8)
unfolding alloc
first_alloc = refl

second_alloc : alloc one_region 512 512 8 ≡ ok (512, two_regions, 16)
unfolding alloc
second_alloc = refl

two_regions-Reachable : Reachable two_regions 16
two_regions-Reachable =
    after (after start (allocate 512 512 0 (omega arith) (omega arith) (omega arith) first_alloc))
      (allocate 512 512 512 (omega arith) (omega arith) (omega arith) second_alloc)

-- The first region died and is free again.
reusable-Reachable : Reachable (drain_staged (free two_regions 0 512)) 16
reusable-Reachable = after (after two_regions-Reachable (release_run 0 512)) drained

Reachable-Good_example : Good (drain_staged (free two_regions 0 512)) 16
Reachable-Good_example = Reachable-Good reusable-Reachable

alloc-Reachable_example :
    (unit : ℕ) × (b : RegionAlloc) × (e' : ℕ) × (alloc
        (drain_staged (free two_regions 0 512))
        300
        290
        16
      ≡ ok (unit, b, e'))
    × (unit + 300 ≤ region_of_unit unit * region_units + region_units)
    × (unit + 300 ≤ e' * units_per_page)
    × (occurs (region_of_unit unit) (drain_staged (free two_regions 0 512)).quarantine
          + occurs (region_of_unit unit) (drain_staged (free two_regions 0 512)).staged_free
          + held (region_of_unit unit) (drain_staged (free two_regions 0 512)).snap_hold
        ≡ 0)
    × ((region_of_unit unit ≡ (drain_staged (free two_regions 0 512)).head_region)
        ⊎ (get_or (drain_staged (free two_regions 0 512)).live (region_of_unit unit) 0 ≡ 0))
    × ((i : ℕ)
        → get_or b.live i 0 ≡ (
            if region_of_unit unit == i
            then wrap32 (get_or (drain_staged (free two_regions 0 512)).live i 0 + 290)
            else get_or (drain_staged (free two_regions 0 512)).live i 0))
alloc-Reachable_example =
    alloc-Reachable 300 290 reusable-Reachable (omega arith) (omega arith) (omega arith)

-- The first region died under a live pin.
pinned_regions-Reachable : Reachable (free (pin two_regions).1 0 512) 16
pinned_regions-Reachable = after (after two_regions-Reachable pinned) (release_run 0 512)

-- Two more snapshots later the newest is unpinned.
abbrev three_pins : RegionAlloc
three_pins = (pin (pin (free (pin two_regions).1 0 512)).1).1

three_pins-Reachable : Reachable three_pins 16
three_pins-Reachable = after (after pinned_regions-Reachable pinned) pinned

dead_region-In : In (0, 1) three_pins.snap_hold
unfolding pin free
dead_region-In = here

oldest_pin-In : In (1, 1) (unpin three_pins 3).live_pins
unfolding pin free unpin
oldest_pin-In = here

Step-snap_hold_example :
    In (0, 1) (unpin three_pins 3).snap_hold
    × (0 ≢ (unpin three_pins 3).head_region)
    × (get_or (unpin three_pins 3).live 0 0 ≡ 0)
Step-snap_hold_example =
    Step-snap_hold 0 1 1 1 three_pins-Reachable (unpinned 3) dead_region-In oldest_pin-In
      (omega arith)
