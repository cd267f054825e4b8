-- ===== src/Regions/Pins.antt =====
-- src/lib.rs: a region that died under a live snapshot stays out of circulation.
use mpt_flat_poc.Prelude.{
  ℕ, ◌<◌, ◌≤◌, ◌≡◌, refl, sym, ◌∙◌, ap, Bool, true, false, List, [], ◌∷◌, ◌++◌, Bool-cases, inl,
  inr, leb, arith, ◌==◌, ltb, not, ◌&&◌, get_or, set, length, ◌-◌, ◌≢◌,
}
use mpt_flat_poc.Regions.{RegionAlloc, bump_epoch, region_of_unit}
use mpt_flat_poc.Regions.Ops.{
  alloc, route, park, free, release_one, release, release_snap_hold, still_held, on_persisted, pin,
  pin_at, unpin, drain_staged, clear_fresh, tagged, drop_pin,
}
use mpt_flat_poc.Regions.Counts.{held}
use mpt_flat_poc.Regions.Opening.{SameLists}
use mpt_flat_poc.Regions.PinOrder.{
  In, here, there, Reachable-Ascending, still_held-In, release-live_pins, release_one-live_pins,
}
use mpt_flat_poc.Regions.Parked.{Good, parked}
use mpt_flat_poc.Regions.Alloc.{Reserved, alloc-Reserved}
use mpt_flat_poc.Regions.Reuse.{
  Step, allocate, release_run, persisted, drained, next_epoch, pinned, pinned_at, unpinned,
  Reachable, Reachable-Good, after, ok-inj,
}

In-append_left : {h : ℕ × ℕ} {xs : List (ℕ × ℕ)} (ys : List (ℕ × ℕ)) → In h xs → In h (xs ++ ys)
In-append_left ys here = here
In-append_left ys (there i) = there (In-append_left ys i)

In-append_right : {h : ℕ × ℕ} (xs : List (ℕ × ℕ)) {ys : List (ℕ × ℕ)} → In h ys → In h (xs ++ ys)
In-append_right [] i = i
In-append_right (x ∷ xs) i = there (In-append_right xs i)

route-snap_hold : (a : RegionAlloc) (r : ℕ) → (route a r).snap_hold ≡ a.snap_hold
unfolding route
route-snap_hold a r = elim (Bool-cases (get_or a.fresh r false)) [
  | inl e ↦ rw e refl
  | inr e ↦ rw e refl
]

module _ {h : ℕ × ℕ} where
  In-release_one :
      (a : RegionAlloc) (k : ℕ × ℕ) → In h a.snap_hold → In h (release_one a k).snap_hold
  unfolding release_one
  In-release_one a k i = elim (Bool-cases (still_held a.live_pins k.1)) [
    | inl e ↦ rw e (In-append_left (k ∷ []) i)
    | inr e ↦ rw (e, route-snap_hold a k.0) i
  ]

  release_one-kept :
      (a : RegionAlloc) → still_held a.live_pins h.1 ≡ true → In h (release_one a h).snap_hold
  unfolding release_one
  release_one-kept a e = rw e (In-append_right a.snap_hold here)

  In-release_kept :
      (a : RegionAlloc) (ks : List (ℕ × ℕ)) → In h a.snap_hold → In h (release a ks).snap_hold
  unfolding release
  In-release_kept a [] i = i
  In-release_kept a (k ∷ ks) i = In-release_kept (release_one a k) ks (In-release_one a k i)

  In-release :
      (a : RegionAlloc) (ks : List (ℕ × ℕ))
      → still_held a.live_pins h.1 ≡ true
      → In h ks
      → In h (release a ks).snap_hold
  unfolding release
  In-release a [] e i = elim i [ ]
  In-release a (h ∷ ks) e here = In-release_kept (release_one a h) ks (release_one-kept a e)
  In-release a (k ∷ ks) e (there i) =
      In-release (release_one a k) ks (rw (release_one-live_pins a k) e) i

  In-park : (a : RegionAlloc) (r : ℕ) → In h a.snap_hold → In h (park a r).snap_hold
  unfolding park
  In-park a r i = by_pins a.live_pins
    where
      by_pins :
          (ps : List (ℕ × ℕ))
          → In h (
              let b : RegionAlloc = elim ps [
                | [] ↦ route a r
                | p ∷ qs ↦ record a { snap_hold = a.snap_hold ++ ((r, a.pin_gen) ∷ []) }
              ] in
              b.snap_hold)
      by_pins [] = rw (route-snap_hold a r) i
      by_pins (p ∷ qs) = In-append_left ((r, a.pin_gen) ∷ []) i

  In-free : (a : RegionAlloc) (unit n : ℕ) → In h a.snap_hold → In h (free a unit n).snap_hold
  unfolding free
  In-free a unit n i = elim (Bool-cases (leb (length a.live) r)) [
    | inl out ↦ rw out i
    | inr within ↦ rw within (elim (Bool-cases died) [
      | inl now ↦ rw now (In-park (record a { live = set a.live r (was - n) }) r i)
      | inr alive ↦ rw alive i
    ])
  ]
    where
      r : ℕ
      r = region_of_unit unit

      was : ℕ
      was = get_or a.live r 0

      died : Bool
      died = ltb 0 was && (was - n == 0) && not (r == a.head_region)

  In-on_persisted : (a : RegionAlloc) → In h a.snap_hold → In h (on_persisted a).snap_hold
  unfolding on_persisted
  In-on_persisted a i = by_pins a.live_pins
    where
      by_pins :
          (ps : List (ℕ × ℕ))
          → In h (
              let b : RegionAlloc = elim ps [
                | [] ↦ record a {
                  staged_free = a.staged_free ++ a.quarantine;
                  quarantine = [];
                  fresh = clear_fresh a.fresh;
                }
                | p ∷ qs ↦ record a {
                  snap_hold = a.snap_hold ++ tagged a.pin_gen a.quarantine;
                  quarantine = [];
                  fresh = clear_fresh a.fresh;
                }
              ] in
              b.snap_hold)
      by_pins [] = i
      by_pins (p ∷ qs) = In-append_left (tagged a.pin_gen a.quarantine) i

  In-unpin :
      (a : RegionAlloc) (g : ℕ)
      → still_held (unpin a g).live_pins h.1 ≡ true
      → In h a.snap_hold
      → In h (unpin a g).snap_hold
  unfolding unpin release_snap_hold
  In-unpin a g e i =
      In-release (record a { live_pins = drop_pin a.live_pins g; snap_hold = [] }) a.snap_hold
        (rw
          (sym (
            release-live_pins (record a { live_pins = drop_pin a.live_pins g; snap_hold = [] })
              a.snap_hold))
          e)
        i

  In-Step :
      {a b : RegionAlloc} {e e' : ℕ}
      → Good a e
      → Step a e b e'
      → still_held b.live_pins h.1 ≡ true
      → In h a.snap_hold
      → In h b.snap_hold
  In-Step {a} {b} {e} {e'} g (allocate run credit unit pos small bound runs) k i =
      rw (same, kept_lists.snap_hold) i
    where
      r : Reserved a e run credit (alloc a run credit e)
      r = alloc-Reserved credit g pos small bound

      kept_lists : SameLists a r.out
      kept_lists = r.lists

      same : b ≡ r.out
      same = ap (λ t. t.1) (ok-inj (sym runs ∙ r.runs))
  In-Step g (release_run unit n) k i = In-free _ unit n i
  In-Step g persisted k i = In-on_persisted _ i
  In-Step g drained k i = unfold drain_staged in i
  In-Step g next_epoch k i = unfold bump_epoch in i
  In-Step g pinned k i = unfold pin in i
  In-Step g (pinned_at n) k i = unfold pin_at in i
  In-Step g (unpinned n) k i = In-unpin _ n k i

  held-In : (hs : List (ℕ × ℕ)) → In h hs → 0 < held h.0 hs
  unfolding held
  held-In [] i = elim i [ ]
  held-In (h ∷ hs) here = ground arith
  held-In (k ∷ hs) (there i) = ground (arith, held-In hs i)

-- In a state that the operations reach, a region held for a snapshot stays held in every step
-- after which some live pin is not newer than the region's death; it is then not the head, and none
-- of its units is live.
pub Step-snap_hold :
    {a b : RegionAlloc} {e e' : ℕ} (r tag g count : ℕ)
    → Reachable a e
    → Step a e b e'
    → In (r, tag) a.snap_hold
    → In (g, count) b.live_pins
    → g ≤ tag
    → In (r, tag) b.snap_hold × (r ≢ b.head_region) × (get_or b.live r 0 ≡ 0)
Step-snap_hold {a} {b} {e} {e'} r tag g count reached step i live older =
    (kept, good.away r parks, good.dead r parks)
  where
    still : still_held b.live_pins tag ≡ true
    still =
        still_held-In b.live_pins tag {p = (g, count)} (Reachable-Ascending (after reached step))
          live older

    kept : In (r, tag) b.snap_hold
    kept = In-Step (Reachable-Good reached) step still i

    good : Good b e'
    good = Reachable-Good (after reached step)

    parks : 0 < parked b r
    parks = unfold parked in omega (arith, held-In b.snap_hold kept)
