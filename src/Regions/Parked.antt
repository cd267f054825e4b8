-- ===== src/Regions/Parked.antt =====
-- src/lib.rs: the invariant of `RegionAlloc`, and what parking a dead region does to it.
use mpt_flat_poc.Prelude.{
  ℕ, suc, ◌+◌, ◌*◌, ◌≤◌, ◌<◌, ◌≡◌, ◌≢◌, refl, false, List, [], ◌∷◌, ◌++◌, length, get_or, ◌==◌,
  if◌then◌else◌, arith, Bool-cases, inl, inr,
}
use mpt_flat_poc.Regions.{RegionAlloc, region_units, new_alloc}
use mpt_flat_poc.Regions.Ops.{route, park}
use mpt_flat_poc.Regions.Counts.{occurs, held, occurs-append, held-append}

-- How often a region waits to be opened again.
unfoldable pub parked : RegionAlloc → ℕ → ℕ
parked a r =
    occurs r a.free_regions + occurs r a.quarantine + occurs r a.staged_free + held r a.snap_hold

-- What the lists and the parallel vectors keep. `end_page` is the file's end in pages.
pub record Good (a : RegionAlloc) (end_page : ℕ) : Type 0 where
  pub once : (r : ℕ) → parked a r ≤ 1
  pub dead : (r : ℕ) → 0 < parked a r → get_or a.live r 0 ≡ 0
  pub inside : (r : ℕ) → 0 < parked a r → r < length a.live
  pub away : (r : ℕ) → 0 < parked a r → r ≢ a.head_region
  pub epochs : length a.epoch_of ≡ length a.live
  pub in_file : 8 * length a.live ≤ end_page + 7
  pub head : 0 < length a.live → a.head_region < length a.live
  pub from_start : 0 < length a.live → a.head_region * region_units ≤ a.next_unit
  pub to_end : 0 < length a.live → a.next_unit ≤ a.head_region * region_units + region_units

pub new_alloc-Good : Good new_alloc 0
unfolding parked occurs held
new_alloc-Good = record {
  once = λ r. omega arith;
  dead = λ r h. refl;
  inside = λ r h. absurd (omega arith);
  away = λ r h. absurd (omega arith);
  epochs = refl;
  in_file = omega arith;
  head = λ h. absurd (omega arith);
  from_start = λ h. absurd (omega arith);
  to_end = λ h. absurd (omega arith);
}

-- The parts of the state that parking leaves alone.
pub record Same (a b : RegionAlloc) : Type 0 where
  pub live : b.live ≡ a.live
  pub epoch_of : b.epoch_of ≡ a.epoch_of
  pub head_region : b.head_region ≡ a.head_region
  pub next_unit : b.next_unit ≡ a.next_unit

-- A change that leaves those parts and the parked regions alone keeps the invariant.
pub Same-Good :
    {a b : RegionAlloc} {e : ℕ}
    → Same a b
    → ((r : ℕ) → parked b r ≡ parked a r)
    → Good a e
    → Good b e
Same-Good s p g = record {
  once = λ r. rw (p r) (g.once r);
  dead = λ r h. rw s.live (g.dead r (omega (arith, p r)));
  inside = λ r h. rw s.live (g.inside r (omega (arith, p r)));
  away = λ r h. rw s.head_region (g.away r (omega (arith, p r)));
  epochs = rw (s.live, s.epoch_of) g.epochs;
  in_file = rw s.live g.in_file;
  head = rw (s.live, s.head_region) g.head;
  from_start = rw (s.live, s.head_region, s.next_unit) g.from_start;
  to_end = rw (s.live, s.head_region, s.next_unit) g.to_end;
}

pub route-Same : (a : RegionAlloc) (r : ℕ) → Same a (route a r)
unfolding route
route-Same a r = elim (Bool-cases (get_or a.fresh r false)) [
  | inl e ↦ rw e (record { live = refl; epoch_of = refl; head_region = refl; next_unit = refl })
  | inr e ↦ rw e (record { live = refl; epoch_of = refl; head_region = refl; next_unit = refl })
]

pub parked-route :
    (a : RegionAlloc) (i r : ℕ)
    → parked (route a i) r ≡ (if r == i then suc (parked a r) else parked a r)
unfolding route parked occurs
parked-route a i r =
    ground (arith, occurs-append r a.staged_free (i ∷ []), occurs-append r a.quarantine (i ∷ []))

pub park-Same : (a : RegionAlloc) (r : ℕ) → Same a (park a r)
unfolding park
park-Same a r = by_pins a.live_pins
  where
    by_pins :
        (ps : List (ℕ × ℕ))
        → Same a (elim ps [
          | [] ↦ route a r
          | p ∷ qs ↦ record a { snap_hold = a.snap_hold ++ ((r, a.pin_gen) ∷ []) }
        ])
    by_pins [] = route-Same a r
    by_pins (p ∷ qs) = record { live = refl; epoch_of = refl; head_region = refl; next_unit = refl }

pub parked-park :
    (a : RegionAlloc) (i r : ℕ)
    → parked (park a i) r ≡ (if r == i then suc (parked a r) else parked a r)
unfolding park parked held
parked-park a i r = by_pins a.live_pins
  where
    by_pins :
        (ps : List (ℕ × ℕ))
        → parked
            (elim ps [
              | [] ↦ route a i
              | p ∷ qs ↦ record a { snap_hold = a.snap_hold ++ ((i, a.pin_gen) ∷ []) }
            ])
            r
          ≡ (if r == i then suc (parked a r) else parked a r)
    by_pins [] = parked-route a i r
    by_pins (p ∷ qs) = ground (arith, held-append r a.snap_hold ((i, a.pin_gen) ∷ []))
