-- ===== src/Regions/Ops.antt =====
-- src/lib.rs: the operations of `RegionAlloc`.
use mpt_flat_poc.Prelude.{
  ℕ, ◌+◌, ◌-◌, ◌*◌, Bool, false, not, ◌&&◌, ◌||◌, List, [], ◌∷◌, ◌++◌, length, get_or, set, ◌==◌,
  ltb, leb, if◌then◌else◌,
}
use mpt_flat_poc.Regions.{
  RegionAlloc, region_units, units_per_page, wrap32, wrap64, div_ceil, region_of_unit, update,
  open_new_head,
}
use mpt_flat_poc.Result.{Result, ok, err, ◌>>=◌, panicked}

-- `if self.live.is_empty() || self.next_unit + run_units > region_end { self.open_new_head() }`.
unfoldable pub make_room : RegionAlloc → ℕ → ℕ → Result RegionAlloc
unfolding open_new_head
make_room a run_units end_page =
    if (length a.live == 0)
      || ltb (wrap64 (a.head_region * region_units + region_units))
          (wrap64 (a.next_unit + run_units))
    then open_new_head a end_page
    else ok a

-- The reservation in the head region: the unit, the allocator and the file's end.
unfoldable pub reserve : RegionAlloc → ℕ → ℕ → ℕ → Result (ℕ × RegionAlloc × ℕ)
unfolding update div_ceil
reserve a run_units live_units end_page =
    let next = wrap64 (a.next_unit + run_units) in
    let page = div_ceil next units_per_page in
    do
      live' ← update a.live a.head_region (λ u. wrap32 (u + live_units))
      ok (
        a.next_unit,
        record a { next_unit = next; live = live' },
        if ltb end_page page then page else end_page,
      )

unfoldable pub alloc : RegionAlloc → ℕ → ℕ → ℕ → Result (ℕ × RegionAlloc × ℕ)
unfolding make_room reserve
alloc a run_units live_units end_page =
    if leb run_units region_units
    then (make_room a run_units end_page >>= λ b. reserve b run_units live_units end_page)
    else err panicked

-- A dead region that no pin can read: recyclable when it was born after the last persist, else in
-- quarantine until the next one.
unfoldable pub route : RegionAlloc → ℕ → RegionAlloc
route a r =
    if get_or a.fresh r false
    then record a { staged_free = a.staged_free ++ (r ∷ []) }
    else record a { quarantine = a.quarantine ++ (r ∷ []) }

-- What `free` does with a region that has just died.
unfoldable pub park : RegionAlloc → ℕ → RegionAlloc
unfolding route
park a r = elim a.live_pins [
  | [] ↦ route a r
  | p ∷ ps ↦ record a { snap_hold = a.snap_hold ++ ((r, a.pin_gen) ∷ []) }
]

unfoldable pub free : RegionAlloc → ℕ → ℕ → RegionAlloc
unfolding park region_of_unit
free a unit n =
    let r = region_of_unit unit in
    let was = get_or a.live r 0 in
    let b = record a { live = set a.live r (was - n) } in
    if leb (length a.live) r
    then a
    else if ltb 0 was && (was - n == 0) && not (r == a.head_region)
    then park b r
    else b

unfoldable pub clear_fresh : List Bool → List Bool
clear_fresh [] = []
clear_fresh (b ∷ bs) = false ∷ clear_fresh bs

unfoldable pub tagged : ℕ → List ℕ → List (ℕ × ℕ)
tagged tag [] = []
tagged tag (r ∷ rs) = (r, tag) ∷ tagged tag rs

unfoldable pub on_persisted : RegionAlloc → RegionAlloc
unfolding clear_fresh tagged
on_persisted a = elim a.live_pins [
  | [] ↦ record a {
    staged_free = a.staged_free ++ a.quarantine;
    quarantine = [];
    fresh = clear_fresh a.fresh;
  }
  | p ∷ ps ↦ record a {
    snap_hold = a.snap_hold ++ tagged a.pin_gen a.quarantine;
    quarantine = [];
    fresh = clear_fresh a.fresh;
  }
]

-- `oldest.is_some_and(|o| o <= tag)` with `oldest` the first key of the map.
unfoldable pub still_held : List (ℕ × ℕ) → ℕ → Bool
still_held [] tag = false
still_held (p ∷ ps) tag = leb p.0 tag

-- The body of `release_snap_hold`'s loop: `a.snap_hold` collects what is kept.
unfoldable pub release_one : RegionAlloc → ℕ × ℕ → RegionAlloc
unfolding still_held route
release_one a h =
    if still_held a.live_pins h.1
    then record a { snap_hold = a.snap_hold ++ (h ∷ []) }
    else route a h.0

unfoldable pub release : RegionAlloc → List (ℕ × ℕ) → RegionAlloc
unfolding release_one
release a [] = a
release a (h ∷ hs) = release (release_one a h) hs

unfoldable pub release_snap_hold : RegionAlloc → RegionAlloc
unfolding release
release_snap_hold a = release (record a { snap_hold = [] }) a.snap_hold

-- `*live_pins.entry(g).or_insert(0) += 1`.
unfoldable pub add_pin : List (ℕ × ℕ) → ℕ → List (ℕ × ℕ)
add_pin [] g = (g, 1) ∷ []
add_pin (p ∷ ps) g =
    let rest = add_pin ps g in
    if ltb g p.0 then (g, 1) ∷ p ∷ ps else if g == p.0 then (g, wrap32 (p.1 + 1)) ∷ ps else p ∷ rest

-- `*c -= 1`, and the entry is removed when it reaches 0.
unfoldable pub drop_pin : List (ℕ × ℕ) → ℕ → List (ℕ × ℕ)
drop_pin [] g = []
drop_pin (p ∷ ps) g =
    let rest = drop_pin ps g in
    let c = wrap32 (p.1 + 4294967295) in
    if g == p.0 then (if c == 0 then ps else (g, c) ∷ ps) else p ∷ rest

unfoldable pub pin : RegionAlloc → ℕ × RegionAlloc
unfolding add_pin
pin a =
    let g = wrap64 (a.pin_gen + 1) in
    (g, record a { pin_gen = g; live_pins = add_pin a.live_pins g })

unfoldable pub pin_at : RegionAlloc → ℕ → RegionAlloc
unfolding add_pin
pin_at a g = record a { live_pins = add_pin a.live_pins g }

unfoldable pub unpin : RegionAlloc → ℕ → RegionAlloc
unfolding drop_pin release_snap_hold
unpin a g = release_snap_hold (record a { live_pins = drop_pin a.live_pins g })

unfoldable pub drain_staged : RegionAlloc → RegionAlloc
drain_staged a = record a { free_regions = a.free_regions ++ a.staged_free; staged_free = [] }

unfoldable pub sum : List ℕ → ℕ
sum [] = 0
sum (u ∷ us) = wrap64 (u + sum us)

unfoldable pub live_units : RegionAlloc → ℕ
unfolding sum
live_units a = sum a.live

unfoldable pub free_region_units : RegionAlloc → ℕ
free_region_units a = wrap64 (length a.free_regions * region_units)
