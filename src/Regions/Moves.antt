-- ===== src/Regions/Moves.antt =====
-- src/lib.rs: `on_persisted`, `release_snap_hold`, `drain_staged` and the pin operations of
-- `RegionAlloc` keep its invariant: they move parked regions between the lists.
use mpt_flat_poc.Prelude.{
  ℕ, suc, ◌+◌, ◌≡◌, refl, ◌∙◌, Bool, true, false, List, [], ◌∷◌, ◌++◌, ◌==◌, if◌then◌else◌, arith,
}
use mpt_flat_poc.Regions.{RegionAlloc}
use mpt_flat_poc.Regions.Ops.{
  route, on_persisted, clear_fresh, tagged, release_one, release, release_snap_hold, still_held,
  pin, pin_at, unpin, drain_staged,
}
use mpt_flat_poc.Regions.Counts.{occurs, held, occurs-append, held-append, held-tagged}
use mpt_flat_poc.Regions.Parked.{Good, Same, Same-Good, parked, parked-route, route-Same}

Same-refl : {a : RegionAlloc} → Same a a
Same-refl = record { live = refl; epoch_of = refl; head_region = refl; next_unit = refl }

Same-trans : {a b c : RegionAlloc} → Same a b → Same b c → Same a c
Same-trans s t = record {
  live = t.live ∙ s.live;
  epoch_of = t.epoch_of ∙ s.epoch_of;
  head_region = t.head_region ∙ s.head_region;
  next_unit = t.next_unit ∙ s.next_unit;
}

release_one-Same : (a : RegionAlloc) (h : ℕ × ℕ) → Same a (release_one a h)
unfolding release_one
release_one-Same a h = by_test (still_held a.live_pins h.1)
  where
    by_test :
        (b : Bool)
        → Same a (if b then record a { snap_hold = a.snap_hold ++ (h ∷ []) } else route a h.0)
    by_test true = record { live = refl; epoch_of = refl; head_region = refl; next_unit = refl }
    by_test false = route-Same a h.0

parked-release_one :
    (a : RegionAlloc) (h : ℕ × ℕ) (r : ℕ)
    → parked (release_one a h) r ≡ (if r == h.0 then suc (parked a r) else parked a r)
unfolding release_one parked held
parked-release_one a h r = by_test (still_held a.live_pins h.1)
  where
    by_test :
        (b : Bool)
        → parked (if b then record a { snap_hold = a.snap_hold ++ (h ∷ []) } else route a h.0) r
          ≡ (if r == h.0 then suc (parked a r) else parked a r)
    by_test true = ground (arith, held-append r a.snap_hold (h ∷ []))
    by_test false = parked-route a h.0 r

release-Same : (a : RegionAlloc) (hs : List (ℕ × ℕ)) → Same a (release a hs)
unfolding release
release-Same a [] = Same-refl
release-Same a (h ∷ hs) = Same-trans (release_one-Same a h) (release-Same (release_one a h) hs)

parked-release :
    (a : RegionAlloc) (hs : List (ℕ × ℕ)) (r : ℕ) → parked (release a hs) r ≡ parked a r + held r hs
unfolding release held
parked-release a [] r = omega arith
parked-release a (h ∷ hs) r =
    ground (arith, parked-release (release_one a h) hs r, parked-release_one a h r)

pub release_snap_hold-Good : {a : RegionAlloc} {e : ℕ} → Good a e → Good (release_snap_hold a) e
unfolding release_snap_hold
release_snap_hold-Good {a} g =
    Same-Good
      (Same-trans {a = a} {b = record a { snap_hold = [] }}
        (record { live = refl; epoch_of = refl; head_region = refl; next_unit = refl })
        (release-Same (record a { snap_hold = [] }) a.snap_hold))
      (λ r.
        parked-release (record a { snap_hold = [] }) a.snap_hold r
        ∙ (unfold parked in unfold held in omega arith))
      g

pub on_persisted-Good : {a : RegionAlloc} {e : ℕ} → Good a e → Good (on_persisted a) e
unfolding on_persisted parked occurs
on_persisted-Good {a} {e} g = by_pins a.live_pins
  where
    by_pins :
        (ps : List (ℕ × ℕ))
        → Good
            (elim ps [
              | [] ↦ record a {
                staged_free = a.staged_free ++ a.quarantine;
                quarantine = [];
                fresh = clear_fresh a.fresh;
              }
              | p ∷ qs ↦ record a {
                snap_hold = a.snap_hold ++ tagged a.pin_gen a.quarantine;
                quarantine = [];
                fresh = clear_fresh a.fresh;
              }
            ])
            e
    by_pins [] =
        Same-Good (record { live = refl; epoch_of = refl; head_region = refl; next_unit = refl })
          (λ r. omega (arith, occurs-append r a.staged_free a.quarantine)) g
    by_pins (p ∷ qs) =
        Same-Good (record { live = refl; epoch_of = refl; head_region = refl; next_unit = refl })
          (λ r. omega (
            arith,
            held-append r a.snap_hold (tagged a.pin_gen a.quarantine),
            held-tagged r a.pin_gen a.quarantine,
          ))
          g

pub drain_staged-Good : {a : RegionAlloc} {e : ℕ} → Good a e → Good (drain_staged a) e
unfolding drain_staged parked occurs
drain_staged-Good {a} g =
    Same-Good (record { live = refl; epoch_of = refl; head_region = refl; next_unit = refl })
      (λ r. omega (arith, occurs-append r a.free_regions a.staged_free)) g

-- Pins alone do not matter to the invariant.
pins-Good :
    {a : RegionAlloc} {e : ℕ} (g : ℕ) (ps : List (ℕ × ℕ))
    → Good a e
    → Good (record a { pin_gen = g; live_pins = ps }) e
unfolding parked
pins-Good g ps good =
    Same-Good (record { live = refl; epoch_of = refl; head_region = refl; next_unit = refl })
      (λ r. refl) good

pub pin-Good : {a : RegionAlloc} {e : ℕ} → Good a e → Good (pin a).1 e
unfolding pin
pin-Good g = pins-Good _ _ g

pub pin_at-Good : {a : RegionAlloc} {e : ℕ} (g : ℕ) → Good a e → Good (pin_at a g) e
unfolding pin_at
pin_at-Good g good = pins-Good _ _ good

pub unpin-Good : {a : RegionAlloc} {e : ℕ} (g : ℕ) → Good a e → Good (unpin a g) e
unfolding unpin
unpin-Good g good = release_snap_hold-Good (pins-Good _ _ good)
