-- ===== src/Regions/Dead.antt =====
-- src/lib.rs: `free` keeps the invariant of `RegionAlloc`.
use mpt_flat_poc.Prelude.{
  ℕ, ◌-◌, ◌<◌, ◌≡◌, ◌≢◌, ◌∙◌, Bool, true, false, not, ◌&&◌, length, length-set, get_or-set, get_or,
  set, ◌==◌, ltb, leb, if◌then◌else◌, arith, ◌⊎◌, Bool-cases, inl, inr, eqb→eq,
}
use mpt_flat_poc.Regions.{RegionAlloc, region_of_unit}
use mpt_flat_poc.Regions.Ops.{park, free}
use mpt_flat_poc.Regions.Parked.{Good, Same, parked, parked-park, park-Same}

-- A region that is dead, not the head and not yet parked may be parked.
park-Good :
    {a : RegionAlloc} {e : ℕ} (r : ℕ)
    → Good a e
    → parked a r ≡ 0
    → get_or a.live r 0 ≡ 0
    → r < length a.live
    → r ≢ a.head_region
    → Good (park a r) e
park-Good {a} r g un z lt ne = record {
  once = λ i. ground (arith, parked-park a r i, g.once i, un, eqb→eq i r);
  dead = λ i h. rw s.live (dead_at i h (Bool-cases (i == r)));
  inside = λ i h. rw s.live (inside_at i h (Bool-cases (i == r)));
  away = λ i h. rw s.head_region (away_at i h (Bool-cases (i == r)));
  epochs = rw (s.live, s.epoch_of) g.epochs;
  in_file = rw s.live g.in_file;
  head = rw (s.live, s.head_region) g.head;
  from_start = rw (s.live, s.head_region, s.next_unit) g.from_start;
  to_end = rw (s.live, s.head_region, s.next_unit) g.to_end;
}
  where
    s : Same a (park a r)
    s = park-Same a r

    before : (i : ℕ) → 0 < parked (park a r) i → (i == r) ≡ false → 0 < parked a i
    before i h e = ground (arith, parked-park a r i)

    dead_at :
        (i : ℕ)
        → 0 < parked (park a r) i
        → ((i == r) ≡ true) ⊎ ((i == r) ≡ false)
        → get_or a.live i 0 ≡ 0
    dead_at i h (inl e) = rw (eqb→eq i r e) z
    dead_at i h (inr e) = g.dead i (before i h e)

    inside_at :
        (i : ℕ)
        → 0 < parked (park a r) i
        → ((i == r) ≡ true) ⊎ ((i == r) ≡ false)
        → i < length a.live
    inside_at i h (inl e) = rw (eqb→eq i r e) lt
    inside_at i h (inr e) = g.inside i (before i h e)

    away_at :
        (i : ℕ)
        → 0 < parked (park a r) i
        → ((i == r) ≡ true) ⊎ ((i == r) ≡ false)
        → i ≢ a.head_region
    away_at i h (inl e) = rw (eqb→eq i r e) ne
    away_at i h (inr e) = g.away i (before i h e)

-- A live count may change where no parked region comes alive.
set_live-Good :
    {a : RegionAlloc} {e : ℕ} (r v : ℕ)
    → Good a e
    → r < length a.live
    → (0 < parked a r → v ≡ 0)
    → Good (record a { live = set a.live r v }) e
unfolding parked
set_live-Good {a} r v g lt z = record {
  once = g.once;
  dead = λ i h. get_or-set a.live r i v 0 lt ∙ at_region i h (Bool-cases (r == i));
  inside = λ i h. rw (length-set a.live r v) (g.inside i h);
  away = g.away;
  epochs = rw (length-set a.live r v) g.epochs;
  in_file = rw (length-set a.live r v) g.in_file;
  head = rw (length-set a.live r v) g.head;
  from_start = rw (length-set a.live r v) g.from_start;
  to_end = rw (length-set a.live r v) g.to_end;
}
  where
    at_region :
        (i : ℕ)
        → 0 < parked a i
        → ((r == i) ≡ true) ⊎ ((r == i) ≡ false)
        → (if r == i then v else get_or a.live i 0) ≡ 0
    at_region i h (inl e) = rw e (z (rw (eqb→eq r i e) h))
    at_region i h (inr e) = rw e (g.dead i h)

pub free-Good : {a : RegionAlloc} {e : ℕ} (unit n : ℕ) → Good a e → Good (free a unit n) e
unfolding free parked
free-Good {a} {e} unit n g = elim (Bool-cases (leb (length a.live) r)) [
  | inl out ↦ rw out g
  | inr within ↦ rw within (elim (Bool-cases died) [
    | inl now ↦ rw now (
        park-Good r (set_live-Good r (was - n) g (omega_lt within) (λ p. still_dead now))
          (not_parked now) (gone within now) (rw (length-set a.live r (was - n)) (omega_lt within))
          (other_head now))
    | inr alive ↦ rw alive (set_live-Good r (was - n) g (omega_lt within) stays)
  ])
]
  where
    r : ℕ
    r = region_of_unit unit

    was : ℕ
    was = get_or a.live r 0

    died : Bool
    died = ltb 0 was && (was - n == 0) && not (r == a.head_region)

    omega_lt : leb (length a.live) r ≡ false → r < length a.live
    omega_lt h = ground arith

    still_dead : died ≡ true → was - n ≡ 0
    still_dead h = ground arith

    not_parked : died ≡ true → parked a r ≡ 0
    not_parked h = ground (arith, g.dead r)

    gone : leb (length a.live) r ≡ false → died ≡ true → get_or (set a.live r (was - n)) r 0 ≡ 0
    gone w h = ground (arith, get_or-set a.live r r (was - n) 0 (omega_lt w))

    other_head : died ≡ true → r ≢ a.head_region
    other_head h = ground arith

    stays : 0 < parked a r → was - n ≡ 0
    stays p = omega (arith, g.dead r p)
