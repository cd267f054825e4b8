-- ===== src/Regions/Room.antt =====
-- src/lib.rs: after its test of the head region, `alloc` has room for the run in the head.
use mpt_flat_poc.Prelude.{
  ℕ, zero, suc, ◌+◌, ◌*◌, ◌≤◌, ◌<◌, ◌≡◌, ◌≢◌, refl, subst, Bool, false, ◌||◌, Option, none, some,
  List, [], ◌∷◌, length, get_or, ◌==◌, ltb, arith, ◌⊎◌, Bool-cases, inl, inr,
}
use mpt_flat_poc.Regions.{
  RegionAlloc, region_units, region_pages, div_ceil, wrap64, pop, open_region, open_new_head,
  next_head,
}
use mpt_flat_poc.Regions.Ops.{make_room}
use mpt_flat_poc.Regions.Counts.{occurs, Popped, pop-Popped, get_or-grow, length-grow}
use mpt_flat_poc.Regions.Parked.{Good, parked}
use mpt_flat_poc.Regions.Opening.{SameLists, Opened, open_region_lem, Opened-Good, reach}
use mpt_flat_poc.Result.{Result, ok}

-- A head region with room for a run.
pub record Room (a : RegionAlloc) (e run : ℕ) (done : Result RegionAlloc) : Type 0 where
  pub out : RegionAlloc
  pub runs : done ≡ ok out
  pub good : Good out (reach e out.head_region)
  pub some_region : 0 < length out.live
  pub fits : out.next_unit + run ≤ out.head_region * region_units + region_units
  pub low : 8 * out.head_region ≤ e + 7
  pub reads : (i : ℕ) → get_or out.live i 0 ≡ get_or a.live i 0
  pub was_dead : (out.head_region ≡ a.head_region) ⊎ (get_or a.live out.head_region 0 ≡ 0)
  pub lists : SameLists a out

opened-Room :
    {a : RegionAlloc} {e run : ℕ} (fs : List ℕ) (r : ℕ)
    → Good a e
    → ((i : ℕ) → parked (record a { free_regions = fs }) i ≤ parked a i)
    → ((i : ℕ) → 0 < parked (record a { free_regions = fs }) i → i ≢ r)
    → get_or a.live r 0 ≡ 0
    → 8 * r ≤ e + 7
    → run ≤ region_units
    → e < 1125899906842624
    → Room a e run (open_region (record a { free_regions = fs }) r)
opened-Room {a} {e} {run} fs r g fewer other no_live low_r small bound = record {
  out = o.out;
  runs = o.runs;
  good = rw o.head_region (Opened-Good fs r o g fewer other (omega arith));
  some_region = rw o.live (ground (arith, length-grow a.live r 0));
  fits = rw (o.next_unit, o.head_region) (omega arith);
  low = rw o.head_region low_r;
  reads = λ i. rw (o.live, get_or-grow a.live r i 0) refl;
  was_dead = inr (rw o.head_region no_live);
  lists = record {
    quarantine = o.lists.quarantine;
    staged_free = o.lists.staged_free;
    snap_hold = o.lists.snap_hold;
    live_pins = o.lists.live_pins;
  };
}
  where
    o : Opened (record a { free_regions = fs }) r
    o = open_region_lem (record a { free_regions = fs }) r g.epochs

past_end : (xs : List ℕ) (i : ℕ) → length xs ≤ i → get_or xs i 0 ≡ 0
past_end [] i h = refl
past_end (x ∷ xs) zero h = absurd (omega arith)
past_end (x ∷ xs) (suc i) h = past_end xs i (omega arith)

open_new_head-Room :
    {a : RegionAlloc} {e run : ℕ}
    → Good a e
    → run ≤ region_units
    → e < 1125899906842624
    → Room a e run (open_new_head a e)
unfolding open_new_head next_head parked
open_new_head-Room {a} {e} {run} g small bound = by_pop (pop a.free_regions) refl
  where
    popped : (i : ℕ) → Popped i (occurs i a.free_regions) (pop a.free_regions)
    popped i = pop-Popped i a.free_regions

    by_pop :
        (o : Option (ℕ × List ℕ))
        → pop a.free_regions ≡ o
        → Room a e run (
            let n : ℕ × List ℕ = elim o [
              | none ↦ (div_ceil e region_pages, a.free_regions)
              | some p ↦ p
            ] in
            open_region (record a { free_regions = n.1 }) n.0)
    by_pop none eq =
        opened-Room a.free_regions (div_ceil e region_pages) g (λ i. omega arith)
          (λ i h same.
            unfold div_ceil in omega (arith, same, g.inside i (unfold parked in h), g.in_file))
          (past_end a.live (div_ceil e region_pages) (unfold div_ceil in omega (arith, g.in_file)))
          (unfold div_ceil in omega arith) small bound
    by_pop (some p) eq =
        opened-Room p.1 p.0 g (λ i. ground (arith, taken i)) (λ i h same. gone i h same)
          (g.dead p.0 (held_before p.0 refl))
          (omega (arith, g.inside p.0 (held_before p.0 refl), g.in_file)) small bound
      where
        taken : (i : ℕ) → Popped i (occurs i a.free_regions) (some p)
        taken i = subst (λ o. Popped i (occurs i a.free_regions) o) eq (popped i)

        held_before : (i : ℕ) → i ≡ p.0 → 0 < parked a i
        held_before i same = ground (arith, taken i)

        gone : (i : ℕ) → 0 < parked (record a { free_regions = p.1 }) i → i ≢ p.0
        gone i h same = ground (arith, taken i, g.once i)

pub make_room-Room :
    {a : RegionAlloc} {e run : ℕ}
    → Good a e
    → run ≤ region_units
    → e < 1125899906842624
    → Room a e run (make_room a run e)
unfolding make_room
make_room-Room {a} {e} {run} g small bound = elim (Bool-cases full) [
  | inl filled ↦ rw filled (open_new_head-Room g small bound)
  | inr spare ↦ rw spare (record {
    out = a;
    runs = refl;
    good = stays spare;
    some_region = nonempty spare;
    fits = room spare;
    low = omega (arith, g.head (nonempty spare), g.in_file);
    reads = λ i. refl;
    was_dead = inl refl;
    lists = record { quarantine = refl; staged_free = refl; snap_hold = refl; live_pins = refl };
  })
]
  where
    full : Bool
    full =
        (length a.live == 0)
        || ltb (wrap64 (a.head_region * region_units + region_units)) (wrap64 (a.next_unit + run))

    nonempty : full ≡ false → 0 < length a.live
    nonempty h = ground arith

    room : full ≡ false → a.next_unit + run ≤ a.head_region * region_units + region_units
    room h = omega (arith, g.head (nonempty h), g.in_file, g.to_end (nonempty h), no_overrun)
      where
        no_overrun :
            wrap64 (a.next_unit + run) ≤ wrap64 (a.head_region * region_units + region_units)
        no_overrun = ground arith

    stays : full ≡ false → Good a (reach e a.head_region)
    stays h = ground (arith, g.head (nonempty h), g.in_file, g)
