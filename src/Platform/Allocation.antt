-- ===== src/Platform/Allocation.antt =====
-- The Windows allocations of tailslayer/include/tailslayer/utilities.hpp. The operating system's
-- answers are arguments: each call may answer differently at each moment, and a moment is the number
-- of the attempt. `allocateLargePageMin` repeats `VirtualFree` until that succeeds.
pub mod Rounding
pub mod Attempts
pub mod Privilege
mod Tests
use tailslayer_win.Common.{
  ℕ, zero, suc, ◌+◌, ◌-◌, ◌*◌, ◌/◌, ◌%◌, ◌^◌, Bool, true, false, ◌&&◌, not, if◌then◌else◌, ltb,
  ◌==◌, Option, none, some, List, [], ◌∷◌, add64, mul64, max64, bit_and,
}
use tailslayer_win.Platform.Region.{Region, no_region, find_largest}

pub record Os : Type 0 where
  -- `GetLargePageMinimum`.
  pub large_page : ℕ
  -- `ullAvailPhys` of `GlobalMemoryStatusEx`.
  pub available : ℕ → ℕ
  -- `VirtualAlloc` of a size: an address, or none.
  pub virtual_alloc : ℕ → ℕ → Option ℕ
  -- `VMMDLL_MemVirt2Phys`.
  pub translate : ℕ → ℕ → Option ℕ
  -- `VirtualFree` in `freeLargePage`.
  pub virtual_free : Bool

-- `AllocationRequest`, where `none` is the null pointer.
pub record AllocationRequest : Type 0 where
  pub virtaddr : Option ℕ
  pub size_in_bytes : ℕ
  pub page_size : ℕ
  pub verify_contiguous : Bool

-- `AllocationRequest()`.
abbrev pub no_request : AllocationRequest
no_request = record {
  virtaddr = none;
  size_in_bytes = 0;
  page_size = 4096;
  verify_contiguous = false;
}

-- The blocks in use, the youngest first.
abbrev pub acquire : Option ℕ → List ℕ → List ℕ
acquire none live = live
acquire (some v) live = v ∷ live

abbrev pub remove : ℕ → List ℕ → List ℕ
remove v [] = []
remove v (w ∷ live) = let rest = remove v live in if w == v then live else w ∷ rest

abbrev pub release : Option ℕ → List ℕ → List ℕ
release none live = live
release (some v) live = remove v live

abbrev pub address : Option ℕ → ℕ
address none = 0
address (some v) = v

-- `(size + page - 1) & ~(page - 1)`.
unfoldable pub round_up : ℕ → ℕ → ℕ
round_up page size = bit_and (add64 size (page - 1)) (max64 - (page - 1))

-- The variables of the loop, and the blocks in use.
pub record Attempt : Type 0 where
  pub block : Option ℕ
  pub size : ℕ
  pub region : Region
  pub failed : Bool
  pub live : List ℕ

-- One turn of the loop of `allocateLargePageMin`.
unfoldable pub attempt : Os → ℕ → ℕ → List ℕ → Attempt
unfolding round_up find_largest
attempt os wanted mul live =
    let size = round_up os.large_page (mul64 mul (os.available mul) / 100) in
    let block = os.virtual_alloc mul size in
    let region = find_largest (os.translate mul) (address block) size os.large_page 0 in
    let failed = ltb region.size wanted in
    let taken = acquire block live in
    record {
      block = block;
      size = size;
      region = region;
      failed = failed;
      live = if failed then release block taken else taken;
    }

-- The loop, from the multiplier `mul` on; it ends at the first attempt that does not fail.
unfoldable pub attempts : Os → ℕ → ℕ → ℕ → Attempt → Attempt
attempts os wanted zero mul last = last
attempts os wanted (suc left) mul last =
    let this = attempt os wanted mul last.live in
    let rest = attempts os wanted left (suc mul) this in if this.failed then rest else this

abbrev pub first_multiplier : ℕ
first_multiplier = 5

abbrev pub end_multiplier : ℕ
end_multiplier = 80

unfoldable pub allocate_large_page_min :
    Os → AllocationRequest → List ℕ → AllocationRequest × Region × List ℕ
unfolding attempts
allocate_large_page_min os out live =
    let a =
      attempts os out.size_in_bytes (end_multiplier - first_multiplier) first_multiplier
        (record { block = none; size = 0; region = no_region; failed = true; live = live }) in
    (
      record {
        virtaddr = if a.failed then none else a.block;
        size_in_bytes = a.size;
        page_size = os.large_page;
        verify_contiguous = true;
      },
      a.region,
      a.live,
    )

-- `freeLargePage`, with the answer of `VirtualFree`; it leaves the request as it is.
unfoldable pub free_large_page : Bool → AllocationRequest → List ℕ → List ℕ
free_large_page freed out live = if freed then release out.virtaddr live else live

-- `SetLockMemoryPrivilege`: the flag `g_enabledLockMemoryPrivileges`, and the answers of
-- `OpenProcessToken`, `LookupPrivilegeValue` and `AdjustTokenPrivileges`, and whether the last left
-- `ERROR_NOT_ALL_ASSIGNED`.
pub record TokenAnswers : Type 0 where
  pub opened : Bool
  pub looked_up : Bool
  pub adjusted : Bool
  pub not_all_assigned : Bool

unfoldable pub set_lock_memory_privilege : TokenAnswers → Bool → Bool → Bool × Bool
set_lock_memory_privilege os enable enabled =
    if enabled && enable
    then (true, enabled)
    else (if not os.opened
        then (false, enabled)
        else (if not os.looked_up
            then (false, enabled)
            else (if not os.adjusted
                then (false, enabled)
                else (if os.not_all_assigned then (false, enabled) else (true, true)))))
