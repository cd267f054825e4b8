-- ===== src/Regions/Reuse.antt =====
-- src/lib.rs: `RegionAlloc` as a transition system: what its operations keep, in any order, from the
-- empty allocator on.
use mpt_flat_poc.Prelude.{
  ℕ, ◌+◌, ◌*◌, ◌≤◌, ◌<◌, ◌≡◌, refl, sym, ◌∙◌, ap, get_or, ◌==◌, if◌then◌else◌, arith, ◌⊎◌,
}
use mpt_flat_poc.Regions.{
  RegionAlloc, region_units, units_per_page, region_of_unit, wrap32, new_alloc, bump_epoch,
}
use mpt_flat_poc.Regions.Ops.{alloc, free, on_persisted, pin, pin_at, unpin, drain_staged}
use mpt_flat_poc.Regions.Counts.{occurs, held}
use mpt_flat_poc.Regions.Parked.{Good, parked, new_alloc-Good, Same-Good}
use mpt_flat_poc.Regions.Dead.{free-Good}
use mpt_flat_poc.Regions.Moves.{
  on_persisted-Good, drain_staged-Good, pin-Good, pin_at-Good, unpin-Good,
}
use mpt_flat_poc.Regions.Alloc.{Reserved, alloc-Reserved}
use mpt_flat_poc.Result.{Result, ok, err}

-- One operation, on the allocator and the file's end in pages. A record has a header, so a run is
-- not empty; the file is at most 2^50 pages.
pub data Step : RegionAlloc → ℕ → RegionAlloc → ℕ → Type 0 where
  allocate :
      {a b : RegionAlloc} {e e' : ℕ} (run credit unit : ℕ)
      → 0 < run
      → run ≤ region_units
      → e < 1125899906842624
      → alloc a run credit e ≡ ok (unit, b, e')
      → Step a e b e'
  release_run : {a : RegionAlloc} {e : ℕ} (unit n : ℕ) → Step a e (free a unit n) e
  persisted : {a : RegionAlloc} {e : ℕ} → Step a e (on_persisted a) e
  drained : {a : RegionAlloc} {e : ℕ} → Step a e (drain_staged a) e
  next_epoch : {a : RegionAlloc} {e : ℕ} → Step a e (bump_epoch a) e
  pinned : {a : RegionAlloc} {e : ℕ} → Step a e (pin a).1 e
  pinned_at : {a : RegionAlloc} {e : ℕ} (g : ℕ) → Step a e (pin_at a g) e
  unpinned : {a : RegionAlloc} {e : ℕ} (g : ℕ) → Step a e (unpin a g) e

pub data Reachable : RegionAlloc → ℕ → Type 0 where
  start : Reachable new_alloc 0
  after : {a b : RegionAlloc} {e e' : ℕ} → Reachable a e → Step a e b e' → Reachable b e'

pub ok-inj :
    {u v : ℕ × RegionAlloc × ℕ} → (let r : Result (ℕ × RegionAlloc × ℕ) = ok u in r) ≡ ok v → u ≡ v
ok-inj {u} h = ap (λ r. elim r [ ok w ↦ w | err x ↦ u ]) h

Step-Good : {a b : RegionAlloc} {e e' : ℕ} → Step a e b e' → Good a e → Good b e'
Step-Good {a} {b} {e} {e'} (allocate run credit unit pos small bound runs) g =
    rw (sym (ap (λ t. t.1) same), sym (ap (λ t. t.2) same)) r.good
  where
    r : Reserved a e run credit (alloc a run credit e)
    r = alloc-Reserved credit g pos small bound

    same : (let l : ℕ × RegionAlloc × ℕ = (r.unit, r.out, r.end_page) in l) ≡ (unit, b, e')
    same = ok-inj (sym r.runs ∙ runs)
Step-Good (release_run unit n) g = free-Good unit n g
Step-Good persisted g = on_persisted-Good g
Step-Good drained g = drain_staged-Good g
Step-Good next_epoch g =
    unfold bump_epoch in
    unfold parked in
    Same-Good (record { live = refl; epoch_of = refl; head_region = refl; next_unit = refl })
      (λ r. refl) g
Step-Good pinned g = pin-Good g
Step-Good (pinned_at k) g = pin_at-Good k g
Step-Good (unpinned k) g = unpin-Good k g

-- In every state that the operations reach, a region waits in at most one of the four lists, and
-- once in it; a waiting region has no live unit, is in the file and is not the head; and the next
-- unit is within the head region.
pub Reachable-Good : {a : RegionAlloc} {e : ℕ} → Reachable a e → Good a e
Reachable-Good start = new_alloc-Good
Reachable-Good (after r s) = Step-Good s (Reachable-Good r)

-- In a state that the operations reach, `alloc` of a run of 1 to 512 units does not panic. The run
-- lies within one region and within the file; the region is neither in quarantine nor staged nor
-- held for a snapshot; it is the head as before, or no unit of it was live; and the live count of
-- this region alone changes, by the live units of the run.
pub alloc-Reachable :
    {a : RegionAlloc} {e : ℕ} (run credit : ℕ)
    → Reachable a e
    → 0 < run
    → run ≤ region_units
    → e < 1125899906842624
    → (unit : ℕ) × (b : RegionAlloc) × (e' : ℕ) × (alloc a run credit e ≡ ok (unit, b, e'))
      × (unit + run ≤ region_of_unit unit * region_units + region_units)
      × (unit + run ≤ e' * units_per_page)
      × (occurs (region_of_unit unit) a.quarantine
            + occurs (region_of_unit unit) a.staged_free
            + held (region_of_unit unit) a.snap_hold
          ≡ 0)
      × ((region_of_unit unit ≡ a.head_region) ⊎ (get_or a.live (region_of_unit unit) 0 ≡ 0))
      × ((i : ℕ)
          → get_or b.live i 0 ≡ (
              if region_of_unit unit == i
              then wrap32 (get_or a.live i 0 + credit)
              else get_or a.live i 0))
alloc-Reachable {a} {e} run credit reached pos small bound = (
  r.unit,
  r.out,
  r.end_page,
  r.runs,
  rw r.region r.fits,
  r.in_file,
  rw r.region free_of_lists,
  rw r.region r.was_dead,
  rw r.region r.live,
)
  where
    r : Reserved a e run credit (alloc a run credit e)
    r = alloc-Reserved credit (Reachable-Good reached) pos small bound

    not_parked : parked r.out r.out.head_region ≡ 0
    not_parked = ground (arith, r.good.away r.out.head_region)

    free_of_lists :
        occurs r.out.head_region a.quarantine
          + occurs r.out.head_region a.staged_free
          + held r.out.head_region a.snap_hold
        ≡ 0
    free_of_lists =
        rw (sym r.lists.quarantine, sym r.lists.staged_free, sym r.lists.snap_hold)
          (unfold parked in omega (arith, not_parked))
