-- ===== src/Regions.antt =====
-- src/lib.rs: `RegionAlloc`, the allocator of the flat file. The file is a sequence of regions of
-- 512 units of 256 bytes; records are appended to the head region, and a region whose records are
-- all dead waits in one of four lists until it may be opened again.
use mpt_flat_poc.Prelude.{
  ℕ, zero, suc, ◌+◌, ◌-◌, ◌*◌, ◌/◌, ◌%◌, Bool, true, false, not, ◌&&◌, ◌||◌, Option, none, some,
  List, [], ◌∷◌, ◌++◌, length, get_or, set, replicate, map, ◌==◌, ltb, leb, if◌then◌else◌,
}
use mpt_flat_poc.Result.{Result, ok, err, ◌>>=◌, panicked}
pub mod Ops
pub mod Counts
pub mod Parked
pub mod Dead
pub mod Moves
pub mod Opening
pub mod Room
pub mod Alloc
pub mod Reuse
pub mod PinOrder
pub mod Pins
pub mod Released

-- `RECORD_HDR`, `ADDR_UNIT`, `UNITS_PER_PAGE`, `REGION_PAGES`, `REGION_UNITS`: bytes, bytes, units,
-- pages and units.
abbrev pub record_hdr : ℕ
record_hdr = 4

abbrev pub addr_unit : ℕ
addr_unit = 256

abbrev pub units_per_page : ℕ
units_per_page = 64

abbrev pub region_pages : ℕ
region_pages = 8

abbrev pub region_units : ℕ
region_units = 512

-- `u32` and `u64` arithmetic.
abbrev pub wrap32 : ℕ → ℕ
wrap32 n = n % 4294967296

abbrev pub wrap64 : ℕ → ℕ
wrap64 n = n % 18446744073709551616

unfoldable pub div_ceil : ℕ → ℕ → ℕ
div_ceil n d = (n + (d - 1)) / d

-- `live_pins` is a map in key order, from a pin generation to the number of its guards.
pub record RegionAlloc : Type 0 where
  pub live : List ℕ
  pub epoch_of : List ℕ
  pub epoch : ℕ
  pub head_region : ℕ
  pub next_unit : ℕ
  pub free_regions : List ℕ
  pub fresh : List Bool
  pub quarantine : List ℕ
  pub evac_pinned : List Bool
  pub pin_gen : ℕ
  pub live_pins : List (ℕ × ℕ)
  pub staged_free : List ℕ
  pub snap_hold : List (ℕ × ℕ)

-- `RegionAlloc::default()`.
abbrev pub new_alloc : RegionAlloc
new_alloc = record {
  live = [];
  epoch_of = [];
  epoch = 0;
  head_region = 0;
  next_unit = 0;
  free_regions = [];
  fresh = [];
  quarantine = [];
  evac_pinned = [];
  pin_gen = 0;
  live_pins = [];
  staged_free = [];
  snap_hold = [];
}

unfoldable pub units_for : ℕ → ℕ
unfolding div_ceil
units_for bytes = wrap32 (div_ceil bytes addr_unit)

-- `DiskPtr::offset` and `DiskPtr::units` on their fields.
unfoldable pub offset : ℕ → ℕ
offset unit = unit * addr_unit

unfoldable pub units : ℕ → ℕ
unfolding units_for
units len = units_for (wrap32 (record_hdr + len))

unfoldable pub region_of_unit : ℕ → ℕ
region_of_unit unit = unit / region_units

-- `v.resize(r + 1, d)` under its guard `r >= v.len()`.
unfoldable pub grow {ℓ} : {A : Type ℓ} → List A → ℕ → A → List A
grow xs r d = if leb (length xs) r then xs ++ replicate (suc r - length xs) d else xs

-- `v[i] = f(v[i])`, a panic out of range.
unfoldable pub update {ℓ} : {A : Type ℓ} → List A → ℕ → (A → A) → Result (List A)
update [] i f = err panicked
update (x ∷ xs) zero f = ok (f x ∷ xs)
update (x ∷ xs) (suc i) f = update xs i f >>= λ ys. ok (x ∷ ys)

-- `Vec::pop`: the last element and the elements before it.
unfoldable pub pop : List ℕ → Option (ℕ × List ℕ)
pop [] = none
pop (x ∷ xs) = elim (pop xs) [ none ↦ some (x, []) | some p ↦ some (p.0, x ∷ p.1) ]

unfoldable pub ensure_region : RegionAlloc → ℕ → RegionAlloc
unfolding grow
ensure_region a r = record a {
  fresh = grow a.fresh r false;
  evac_pinned = grow a.evac_pinned r false;
  live = grow a.live r 0;
  epoch_of = if leb (length a.live) r then grow a.epoch_of r 0 else a.epoch_of;
}

unfoldable pub bump_epoch : RegionAlloc → RegionAlloc
bump_epoch a = record a { epoch = wrap32 (a.epoch + 1) }

-- The region that `open_new_head` takes, and the free regions that are left.
unfoldable pub next_head : RegionAlloc → ℕ → ℕ × List ℕ
unfolding pop div_ceil
next_head a end_page = elim (pop a.free_regions) [
  | none ↦ (div_ceil end_page region_pages, a.free_regions)
  | some p ↦ p
]

unfoldable pub open_region : RegionAlloc → ℕ → Result RegionAlloc
unfolding ensure_region update
open_region a r =
    let b = ensure_region (record a { head_region = r; next_unit = wrap64 (r * region_units) }) r in
    do
      epochs ← update b.epoch_of r (λ _. b.epoch)
      fresh' ← update b.fresh r (λ _. true)
      pinned ← update b.evac_pinned r (λ _. false)
      ok (record b { epoch_of = epochs; fresh = fresh'; evac_pinned = pinned })

-- `end_page` is the file's end, the shared counter that the caller passes in.
unfoldable pub open_new_head : RegionAlloc → ℕ → Result RegionAlloc
unfolding next_head open_region
open_new_head a end_page =
    let n = next_head a end_page in open_region (record a { free_regions = n.1 }) n.0
