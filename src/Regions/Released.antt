-- ===== src/Regions/Released.antt =====
-- src/lib.rs: `release_snap_hold` lets a region go when no live pin can read it.
use mpt_flat_poc.Prelude.{ℕ, ◌+◌}
use mpt_flat_poc.Regions.{RegionAlloc}
use mpt_flat_poc.Regions.Counts.{occurs}

-- How often a region waits to be reused.
abbrev waiting : RegionAlloc → ℕ → ℕ
waiting a r = occurs r a.quarantine + occurs r a.staged_free
