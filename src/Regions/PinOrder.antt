-- ===== src/Regions/PinOrder.antt =====
-- src/lib.rs: `live_pins` is a map in key order, and its first entry is the oldest live pin.
use mpt_flat_poc.Prelude.{
  ℕ, Bool, ◌<◌, ◌≤◌, ◌≡◌, refl, sym, ◌∙◌, ap, true, false, List, [], ◌∷◌, ◌++◌, Bool-cases, inl,
  inr, leb, arith, ◌==◌, ltb, ◌+◌, ◌-◌, ◌&&◌, not, get_or, set, length, eqb→eq,
}
use mpt_flat_poc.Regions.{RegionAlloc, bump_epoch, region_of_unit, wrap32}
use mpt_flat_poc.Regions.Ops.{
  alloc, route, park, free, release_one, release, release_snap_hold, still_held, on_persisted, pin,
  pin_at, unpin, drain_staged, add_pin, drop_pin, clear_fresh, tagged,
}
use mpt_flat_poc.Regions.Alloc.{Reserved, alloc-Reserved}
use mpt_flat_poc.Regions.Reuse.{
  Step, allocate, release_run, persisted, drained, next_epoch, pinned, pinned_at, unpinned,
  Reachable, start, Reachable-Good, after, ok-inj,
}

-- An entry of `snap_hold` or of `live_pins`.
pub data In (h : ℕ × ℕ) : List (ℕ × ℕ) → Type 0 where
  here : {hs : List (ℕ × ℕ)} → In h (h ∷ hs)
  there : {k : ℕ × ℕ} {hs : List (ℕ × ℕ)} → In h hs → In h (k ∷ hs)

abbrev Above : ℕ → List (ℕ × ℕ) → Type 0
Above k [] = Unit
Above k (p ∷ ps) = (k < p.0) × Above k ps

-- The keys grow along the list.
abbrev Ascending : List (ℕ × ℕ) → Type 0
Ascending [] = Unit
Ascending (p ∷ ps) = Above p.0 ps × Ascending ps

Above-In : {k : ℕ} {p : ℕ × ℕ} (ps : List (ℕ × ℕ)) → Above k ps → In p ps → k < p.0
Above-In [] a i = elim i [ ]
Above-In (p ∷ ps) a here = a.0
Above-In (q ∷ ps) a (there i) = Above-In ps a.1 i

Above-trans : {j k : ℕ} (ps : List (ℕ × ℕ)) → j < k → Above k ps → Above j ps
Above-trans [] lt a = tt
Above-trans (p ∷ ps) lt a = (omega (arith, a.0), Above-trans ps lt a.1)

add_pin-Above : {k : ℕ} (ps : List (ℕ × ℕ)) (g : ℕ) → k < g → Above k ps → Above k (add_pin ps g)
unfolding add_pin
add_pin-Above [] g lt a = (lt, tt)
add_pin-Above (p ∷ ps) g lt a = elim (Bool-cases (ltb g p.0)) [
  | inl newer ↦ rw newer (lt, (a.0, a.1))
  | inr e ↦ rw e (elim (Bool-cases (g == p.0)) [
    | inl same ↦ rw same (lt, a.1)
    | inr other ↦ rw other (a.0, add_pin-Above ps g lt a.1)
  ])
]

add_pin-Ascending : (ps : List (ℕ × ℕ)) (g : ℕ) → Ascending ps → Ascending (add_pin ps g)
unfolding add_pin
add_pin-Ascending [] g a = (tt, tt)
add_pin-Ascending (p ∷ ps) g a = elim (Bool-cases (ltb g p.0)) [
  | inl newer ↦
      let lt : g < p.0 = ground (arith, newer) in rw newer ((lt, Above-trans ps lt a.0), (a.0, a.1))
  | inr e ↦ rw e (elim (Bool-cases (g == p.0)) [
    | inl same ↦ rw same (rw (eqb→eq g p.0 same) a.0, a.1)
    | inr other ↦
        let lt : p.0 < g = ground (arith, e, other) in
        rw other (add_pin-Above ps g lt a.0, add_pin-Ascending ps g a.1)
  ])
]

drop_pin-Above : (k : ℕ) (ps : List (ℕ × ℕ)) (g : ℕ) → Above k ps → Above k (drop_pin ps g)
unfolding drop_pin
drop_pin-Above k [] g a = tt
drop_pin-Above k (p ∷ ps) g a = elim (Bool-cases (g == p.0)) [
  | inl same ↦ rw same (elim (Bool-cases (wrap32 (p.1 + 4294967295) == 0)) [
    | inl last ↦ rw last a.1
    | inr more ↦ rw more (rw (eqb→eq g p.0 same) a.0, a.1)
  ])
  | inr other ↦ rw other (a.0, drop_pin-Above k ps g a.1)
]

drop_pin-Ascending : (ps : List (ℕ × ℕ)) (g : ℕ) → Ascending ps → Ascending (drop_pin ps g)
unfolding drop_pin
drop_pin-Ascending [] g a = tt
drop_pin-Ascending (p ∷ ps) g a = elim (Bool-cases (g == p.0)) [
  | inl same ↦ rw same (elim (Bool-cases (wrap32 (p.1 + 4294967295) == 0)) [
    | inl last ↦ rw last a.1
    | inr more ↦ rw more (rw (eqb→eq g p.0 same) a.0, a.1)
  ])
  | inr other ↦ rw other (drop_pin-Above p.0 ps g a.0, drop_pin-Ascending ps g a.1)
]

-- A live pin that is not newer than a tag holds it, where the pins are in key order.
pub still_held-In :
    (ps : List (ℕ × ℕ)) (tag : ℕ) {p : ℕ × ℕ}
    → Ascending ps
    → In p ps
    → p.0 ≤ tag
    → still_held ps tag ≡ true
unfolding still_held
still_held-In [] tag a i le = elim i [ ]
still_held-In (p ∷ ps) tag a here le = ground (arith, le)
still_held-In (q ∷ ps) tag a (there i) le = ground (arith, le, Above-In ps a.0 i)

route-live_pins : (a : RegionAlloc) (r : ℕ) → (route a r).live_pins ≡ a.live_pins
unfolding route
route-live_pins a r = elim (Bool-cases (get_or a.fresh r false)) [
  | inl e ↦ rw e refl
  | inr e ↦ rw e refl
]

pub release_one-live_pins :
    (a : RegionAlloc) (k : ℕ × ℕ) → (release_one a k).live_pins ≡ a.live_pins
unfolding release_one
release_one-live_pins a k = elim (Bool-cases (still_held a.live_pins k.1)) [
  | inl e ↦ rw e refl
  | inr e ↦ rw (e, route-live_pins a k.0) refl
]

pub release-live_pins :
    (a : RegionAlloc) (ks : List (ℕ × ℕ)) → (release a ks).live_pins ≡ a.live_pins
unfolding release
release-live_pins a [] = refl
release-live_pins a (k ∷ ks) = release-live_pins (release_one a k) ks ∙ release_one-live_pins a k

park-live_pins : (a : RegionAlloc) (r : ℕ) → (park a r).live_pins ≡ a.live_pins
unfolding park
park-live_pins a r = by_pins a.live_pins
  where
    by_pins :
        (ps : List (ℕ × ℕ))
        → (let b : RegionAlloc = elim ps [
          | [] ↦ route a r
          | p ∷ qs ↦ record a { snap_hold = a.snap_hold ++ ((r, a.pin_gen) ∷ []) }
        ] in
            b.live_pins)
          ≡ a.live_pins
    by_pins [] = route-live_pins a r
    by_pins (p ∷ qs) = refl

free-live_pins : (a : RegionAlloc) (unit n : ℕ) → (free a unit n).live_pins ≡ a.live_pins
unfolding free
free-live_pins a unit n = elim (Bool-cases (leb (length a.live) r)) [
  | inl out ↦ rw out refl
  | inr within ↦ rw within (elim (Bool-cases died) [
    | inl now ↦ rw now (park-live_pins (record a { live = set a.live r (was - n) }) r)
    | inr alive ↦ rw alive refl
  ])
]
  where
    r : ℕ
    r = region_of_unit unit

    was : ℕ
    was = get_or a.live r 0

    died : Bool
    died = ltb 0 was && (was - n == 0) && not (r == a.head_region)

on_persisted-live_pins : (a : RegionAlloc) → (on_persisted a).live_pins ≡ a.live_pins
unfolding on_persisted
on_persisted-live_pins a = by_pins a.live_pins
  where
    by_pins :
        (ps : List (ℕ × ℕ))
        → (let b : RegionAlloc = elim ps [
          | [] ↦ record a {
            staged_free = a.staged_free ++ a.quarantine;
            quarantine = [];
            fresh = clear_fresh a.fresh;
          }
          | p ∷ qs ↦ record a {
            snap_hold = a.snap_hold ++ tagged a.pin_gen a.quarantine;
            quarantine = [];
            fresh = clear_fresh a.fresh;
          }
        ] in
            b.live_pins)
          ≡ a.live_pins
    by_pins [] = refl
    by_pins (p ∷ qs) = refl

unpin-live_pins : (a : RegionAlloc) (g : ℕ) → (unpin a g).live_pins ≡ drop_pin a.live_pins g
unfolding unpin release_snap_hold
unpin-live_pins a g =
    release-live_pins (record a { live_pins = drop_pin a.live_pins g; snap_hold = [] }) a.snap_hold

Step-Ascending :
    {a b : RegionAlloc} {e e' : ℕ}
    → Reachable a e
    → Step a e b e'
    → Ascending a.live_pins
    → Ascending b.live_pins
Step-Ascending {a} {b} {e} {e'} reached (allocate run credit unit pos small bound runs) asc =
    rw (same, r.lists.live_pins) asc
  where
    r : Reserved a e run credit (alloc a run credit e)
    r = alloc-Reserved credit (Reachable-Good reached) pos small bound

    same : b ≡ r.out
    same = ap (λ t. t.1) (ok-inj (sym runs ∙ r.runs))
Step-Ascending reached (release_run unit n) asc = rw (free-live_pins _ unit n) asc
Step-Ascending reached persisted asc = rw (on_persisted-live_pins _) asc
Step-Ascending reached drained asc = unfold drain_staged in asc
Step-Ascending reached next_epoch asc = unfold bump_epoch in asc
Step-Ascending reached pinned asc = unfold pin in add_pin-Ascending _ _ asc
Step-Ascending reached (pinned_at n) asc = unfold pin_at in add_pin-Ascending _ n asc
Step-Ascending reached (unpinned n) asc = rw (unpin-live_pins _ n) (drop_pin-Ascending _ n asc)

pub Reachable-Ascending : {a : RegionAlloc} {e : ℕ} → Reachable a e → Ascending a.live_pins
Reachable-Ascending start = tt
Reachable-Ascending (after reached step) = Step-Ascending reached step (Reachable-Ascending reached)
