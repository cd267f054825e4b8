-- ===== src/Regions/Alloc.antt =====
-- src/lib.rs: `RegionAlloc::alloc`.
use mpt_flat_poc.Prelude.{
  ℕ, ◌+◌, ◌*◌, ◌/◌, ◌≤◌, ◌<◌, ◌≡◌, refl, ◌∙◌, true, length, get_or, ◌==◌, ltb, leb, if◌then◌else◌,
  arith, ◌⊎◌, eqb→eq,
}
use mpt_flat_poc.Regions.{
  RegionAlloc, region_units, units_per_page, region_of_unit, div_ceil, wrap32, wrap64,
}
use mpt_flat_poc.Regions.Ops.{make_room, reserve, alloc}
use mpt_flat_poc.Regions.Counts.{Updated, update_lem}
use mpt_flat_poc.Regions.Parked.{Good, parked}
use mpt_flat_poc.Regions.Opening.{SameLists}
use mpt_flat_poc.Regions.Room.{Room, make_room-Room}
use mpt_flat_poc.Result.{Result, ok}

-- A successful reservation.
pub record Reserved (a : RegionAlloc) (e run credit : ℕ) (done : Result (ℕ × RegionAlloc × ℕ))
    : Type 0 where
  pub unit : ℕ
  pub out : RegionAlloc
  pub end_page : ℕ
  pub runs : done ≡ ok (unit, out, end_page)
  pub good : Good out end_page
  pub region : region_of_unit unit ≡ out.head_region
  pub fits : unit + run ≤ out.head_region * region_units + region_units
  pub next : out.next_unit ≡ unit + run
  pub in_file : unit + run ≤ end_page * units_per_page
  pub live :
      (i : ℕ)
      → get_or out.live i 0
        ≡ (if out.head_region == i then wrap32 (get_or a.live i 0 + credit) else get_or a.live i 0)
  pub was_dead : (out.head_region ≡ a.head_region) ⊎ (get_or a.live out.head_region 0 ≡ 0)
  pub lists : SameLists a out

reserve-Reserved :
    {a : RegionAlloc} {e run : ℕ} {done : Result RegionAlloc} (credit : ℕ) (m : Room a e run done)
    → 0 < run
    → e < 1125899906842624
    → Reserved a e run credit (reserve m.out run credit e)
unfolding reserve parked
reserve-Reserved {a} {e} {run} credit m pos bound = record {
  unit = b.next_unit;
  out = record b { next_unit = wrap64 (b.next_unit + run); live = u.out };
  end_page = last;
  runs = rw u.runs refl;
  good = record {
    once = m.good.once;
    dead = λ i h. u.reads i ∙ ground (arith, m.good.dead i h, m.good.away i h);
    inside = λ i h. rw u.len (m.good.inside i h);
    away = m.good.away;
    epochs = rw u.len m.good.epochs;
    in_file = rw u.len in_last;
    head = λ h. rw u.len (m.good.head m.some_region);
    from_start = λ h. omega (arith, exact, m.good.from_start m.some_region);
    to_end = λ h. omega (arith, exact, m.fits);
  };
  region = unfold region_of_unit in omega (arith, m.good.from_start m.some_region, m.fits);
  fits = m.fits;
  next = exact;
  in_file = covered;
  live = λ i. u.reads i ∙ ground (arith, m.reads i, eqb→eq b.head_region i);
  was_dead = m.was_dead;
  lists = record {
    quarantine = m.lists.quarantine;
    staged_free = m.lists.staged_free;
    snap_hold = m.lists.snap_hold;
    live_pins = m.lists.live_pins;
  };
}
  where
    b : RegionAlloc
    b = m.out

    exact : wrap64 (b.next_unit + run) ≡ b.next_unit + run
    exact = omega (arith, m.fits, m.low)

    page : ℕ
    page = div_ceil (wrap64 (b.next_unit + run)) units_per_page

    last : ℕ
    last = if ltb e page then page else e

    page-eq : page ≡ (b.next_unit + run + 63) / 64
    page-eq = unfold div_ceil in omega (arith, exact)

    u : Updated b.live b.head_region (λ k. wrap32 (k + credit)) 0
    u = update_lem b.live b.head_region (λ k. wrap32 (k + credit)) 0 (m.good.head m.some_region)

    covered : b.next_unit + run ≤ last * units_per_page
    covered = ground (arith, page-eq)

    in_last : 8 * length b.live ≤ last + 7
    in_last = ground (arith, page-eq, m.good.in_file, m.good.from_start m.some_region)

pub alloc-Reserved :
    {a : RegionAlloc} {e run : ℕ} (credit : ℕ)
    → Good a e
    → 0 < run
    → run ≤ region_units
    → e < 1125899906842624
    → Reserved a e run credit (alloc a run credit e)
unfolding alloc
alloc-Reserved {a} {e} {run} credit g pos small bound =
    rw (le_test, m.runs) (reserve-Reserved credit m pos bound)
  where
    m : Room a e run (make_room a run e)
    m = make_room-Room g small bound

    le_test : leb run region_units ≡ true
    le_test = ground arith
