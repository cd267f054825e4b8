-- ===== src/Regions/Opening.antt =====
-- src/lib.rs: `open_new_head` of `RegionAlloc` and the room that `alloc` makes by it.
use mpt_flat_poc.Prelude.{
  ℕ, ◌+◌, ◌*◌, ◌≤◌, ◌<◌, ◌≡◌, ◌≢◌, refl, ◌∙◌, true, false, List, length, ltb, leb, if◌then◌else◌,
  arith,
}
use mpt_flat_poc.Regions.{RegionAlloc, region_units, wrap64, grow, ensure_region, open_region}
use mpt_flat_poc.Regions.Counts.{get_or-grow, length-grow, Updated, update_lem}
use mpt_flat_poc.Regions.Parked.{Good, parked}
use mpt_flat_poc.Result.{ok}

-- The lists that opening a region leaves alone.
pub record SameLists (a b : RegionAlloc) : Type 0 where
  pub quarantine : b.quarantine ≡ a.quarantine
  pub staged_free : b.staged_free ≡ a.staged_free
  pub snap_hold : b.snap_hold ≡ a.snap_hold
  pub live_pins : b.live_pins ≡ a.live_pins

-- `open_region` does not panic where `epoch_of` is as long as `live`.
pub record Opened (a : RegionAlloc) (r : ℕ) : Type 0 where
  pub out : RegionAlloc
  pub runs : open_region a r ≡ ok out
  pub live : out.live ≡ grow a.live r 0
  pub epochs : length out.epoch_of ≡ length out.live
  pub head_region : out.head_region ≡ r
  pub next_unit : out.next_unit ≡ wrap64 (r * region_units)
  pub free_regions : out.free_regions ≡ a.free_regions
  pub lists : SameLists a out

within_grow {ℓ} : {A : Type ℓ} (xs : List A) (r : ℕ) (d : A) → r < length (grow xs r d)
within_grow xs r d = ground (arith, length-grow xs r d)

pub open_region_lem : (a : RegionAlloc) (r : ℕ) → length a.epoch_of ≡ length a.live → Opened a r
unfolding open_region ensure_region
open_region_lem a r e = record {
  out =
      record (ensure_region (record a { head_region = r; next_unit = wrap64 (r * region_units) })
        r) { epoch_of = epochs'.out; fresh = fresh'.out; evac_pinned = pinned'.out };
  runs = rw (epochs'.runs, fresh'.runs, pinned'.runs) refl;
  live = refl;
  epochs = epochs'.len ∙ same_len;
  head_region = refl;
  next_unit = refl;
  free_regions = refl;
  lists = record { quarantine = refl; staged_free = refl; snap_hold = refl; live_pins = refl };
}
  where
    grown : List ℕ
    grown = if leb (length a.live) r then grow a.epoch_of r 0 else a.epoch_of

    same_len : length grown ≡ length (grow a.live r 0)
    same_len = ground (arith, length-grow a.epoch_of r 0, length-grow a.live r 0)

    epochs' : Updated grown r (λ _. a.epoch) 0
    epochs' = update_lem grown r (λ _. a.epoch) 0 (omega (arith, same_len, within_grow a.live r 0))

    fresh' : Updated (grow a.fresh r false) r (λ _. true) false
    fresh' = update_lem (grow a.fresh r false) r (λ _. true) false (within_grow a.fresh r false)

    pinned' : Updated (grow a.evac_pinned r false) r (λ _. false) false
    pinned' =
        update_lem (grow a.evac_pinned r false) r (λ _. false) false
          (within_grow a.evac_pinned r false)

-- The file's end once the first page of region `r` is in it.
abbrev pub reach : ℕ → ℕ → ℕ
reach e r = if ltb e (8 * r + 1) then 8 * r + 1 else e

-- Opening a region that no list holds any more keeps the invariant.
pub Opened-Good :
    {a : RegionAlloc} {e : ℕ} (fs : List ℕ) (r : ℕ) (o : Opened (record a { free_regions = fs }) r)
    → Good a e
    → ((i : ℕ) → parked (record a { free_regions = fs }) i ≤ parked a i)
    → ((i : ℕ) → 0 < parked (record a { free_regions = fs }) i → i ≢ r)
    → r < 1125899906842624
    → Good o.out (reach e r)
Opened-Good {a} {e} fs r o g fewer other bound = record {
  once = λ i. omega (arith, same i, fewer i, g.once i);
  dead = λ i h. rw (o.live, get_or-grow a.live r i 0) (g.dead i (before i h));
  inside = λ i h. rw o.live (longer i (g.inside i (before i h)));
  away = λ i h. rw o.head_region (other i (omega (arith, same i)));
  epochs = o.epochs;
  in_file = rw o.live (ground (arith, length-grow a.live r 0, g.in_file));
  head = λ h. rw (o.live, o.head_region) (within_grow a.live r 0);
  from_start = λ h. rw (o.next_unit, o.head_region) (omega arith);
  to_end = λ h. rw (o.next_unit, o.head_region) (omega arith);
}
  where
    same : (i : ℕ) → parked o.out i ≡ parked (record a { free_regions = fs }) i
    same i =
        unfold parked in
        rw (o.free_regions, o.lists.quarantine, o.lists.staged_free, o.lists.snap_hold) refl

    before : (i : ℕ) → 0 < parked o.out i → 0 < parked a i
    before i h = omega (arith, same i, fewer i)

    longer : (i : ℕ) → i < length a.live → i < length (grow a.live r 0)
    longer i h = ground (arith, length-grow a.live r 0)
