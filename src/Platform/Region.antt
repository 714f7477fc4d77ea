-- ===== src/Platform/Region.antt =====
-- `FindLargestPhysicalRegion` of tailslayer/include/tailslayer/utilities.hpp. `translate` stands for
-- `VMMDLL_MemVirt2Phys` of the calling process: the physical address of a virtual one, or a failure.
pub mod Runs
pub mod Largest
pub mod Search
mod Tests
use tailslayer_win.Common.{
  ℕ, zero, suc, ◌+◌, ◌/◌, ◌^◌, Bool, true, false, ◌&&◌, if◌then◌else◌, ltb, leb, ◌==◌, Option, none,
  some, add64, max64,
}

-- `PhysicalMemRegion`.
pub record Region : Type 0 where
  pub vaddr : ℕ
  pub paddr : ℕ
  pub size : ℕ

abbrev pub no_region : Region
no_region = record { vaddr = 0; paddr = 0; size = 0 }

-- A translation counts unless it fails or yields `UINT64_MAX`.
abbrev pub usable : Option ℕ → Option ℕ
usable none = none
usable (some p) = if p == max64 then none else some p

abbrev pub present : Option ℕ → Bool
present none = false
present (some p) = true

-- A page at physical address `p` joins the current region or starts one.
unfoldable pub extend : ℕ → ℕ → ℕ → Region → Region
extend page v p current =
    if ltb 0 current.size && (p == add64 current.paddr current.size)
    then record current { size = add64 current.size page }
    else record { vaddr = v; paddr = p; size = page }

unfoldable pub larger : Region → Region → Region
larger current most = if ltb most.size current.size then current else most

-- The current region and the largest one after the page at `v`.
abbrev pub visit : ℕ → ℕ → Option ℕ → Region → Region → Region × Region
visit page v none current most = (no_region, most)
visit page v (some p) current most = let next = extend page v p current in (next, larger next most)

module _ (translate : ℕ → Option ℕ) (start total page desired : ℕ) where
  -- The loop over the offsets, on fuel.
  unfoldable pub scan : ℕ → ℕ → Region → Region → Region
  scan zero offset current most = most
  scan (suc fuel) offset current most =
      let at = add64 start offset in
      let frame = usable (translate at) in
      let (current', most') = visit page at frame current most in
      let rest = scan fuel (add64 offset page) current' most' in
      if ltb offset total
      then (if present frame && leb desired most'.size then most' else rest)
      else most

-- What `desiredSizeBytes` comes to: 0 asks for the largest region there is.
abbrev pub wanted_size : ℕ → ℕ
wanted_size desired = if desired == 0 then max64 else desired

-- The loop takes a step for each page of the request, and `total / page + 1` are enough.
unfoldable pub find_largest : (ℕ → Option ℕ) → ℕ → ℕ → ℕ → ℕ → Region
unfolding scan
find_largest translate start total page desired =
    let wanted = wanted_size desired in
    if ltb wanted page
    then no_region
    else scan translate start total page wanted (total / page + 1) 0 no_region no_region
