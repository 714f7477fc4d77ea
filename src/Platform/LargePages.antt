-- ===== src/Platform/LargePages.antt =====
-- `allocateLargePageMax` and `allocateLargePage` of tailslayer/include/tailslayer/utilities.hpp, on
-- Windows. A moment is the memory multiplier of the attempt; the answers of the operating system are
-- the fields of `Allocator`. The product with 0.8 in a `double` is a field too. `VirtualFree` of the
-- pointer of the request, which is null in a new request, is taken to succeed.
pub mod Most
pub mod Exact
mod Tests
use tailslayer_win.Common.{
  ℕ, zero, suc, ◌+◌, ◌-◌, ◌*◌, ◌/◌, ◌%◌, ◌^◌, Bool, true, false, if◌then◌else◌, leb, Option, none,
  some, List, [], ◌∷◌, mul64,
}
use tailslayer_win.Platform.Allocation.{AllocationRequest, acquire, release, round_up}

pub record Allocator : Type 0 where
  -- `GetLargePageMinimum`.
  pub large_page : ℕ
  -- `ullAvailPhys` of `GlobalMemoryStatusEx`.
  pub available : ℕ → ℕ
  -- A number times 0.8, cut to a `size_t`.
  pub four_fifths : ℕ → ℕ
  -- `VirtualAlloc2` and `VirtualAlloc` of a size.
  pub virtual_alloc2 : ℕ → Option ℕ
  pub virtual_alloc : ℕ → ℕ → Option ℕ

abbrev pub huge_page : ℕ
huge_page = 2 ^ 30

-- What the loop over the multipliers leaves.
pub record Result : Type 0 where
  pub block : Option ℕ
  pub size : ℕ

-- One turn of the loop.
unfoldable pub try_multiplier : Allocator → ℕ → Result
unfolding round_up
try_multiplier os mul =
    let size = round_up os.large_page (mul64 mul (os.available mul) / 100) in
    record { block = os.virtual_alloc mul size; size = size }

abbrev pub has_block : Option ℕ → Bool
has_block none = false
has_block (some v) = true

-- The loop, with `left` multipliers to go: `5 left`, …, 10, 5.
unfoldable pub try_multipliers : Allocator → ℕ → Result → Result
try_multipliers os zero last = last
try_multipliers os (suc left) last =
    let this = try_multiplier os (5 * suc left) in
    let rest = try_multipliers os left this in if has_block last.block then last else rest

-- The second part, once there is no block: its multipliers begin at 85.
unfoldable pub allocate_by_multiplier :
    Allocator → ℕ → AllocationRequest → List ℕ → AllocationRequest × List ℕ
unfolding try_multipliers try_multiplier
allocate_by_multiplier os size out live =
    let last = try_multipliers os 17 (record { block = none; size = size }) in
    (
      record out { virtaddr = last.block; size_in_bytes = last.size; page_size = os.large_page },
      acquire last.block live,
    )

-- What follows `VirtualAlloc2`. The block that is too small is not the one that is freed.
unfoldable pub after_virtual_alloc2 :
    Allocator → Option ℕ → ℕ → ℕ → AllocationRequest → List ℕ → AllocationRequest × List ℕ
after_virtual_alloc2 os none size desired out live = allocate_by_multiplier os size out live
after_virtual_alloc2 os (some v) size desired out live =
    if leb desired size
    then (
      record {
        virtaddr = some v;
        size_in_bytes = size;
        page_size = huge_page;
        verify_contiguous = false;
      },
      v ∷ live,
    )
    else allocate_by_multiplier os size out (release out.virtaddr (v ∷ live))

unfoldable pub allocate_large_page_max :
    Allocator → AllocationRequest → List ℕ → AllocationRequest × List ℕ
unfolding after_virtual_alloc2 allocate_by_multiplier round_up
allocate_large_page_max os out live =
    let size = round_up huge_page (os.four_fifths (os.available 0)) in
    let desired = round_up huge_page out.size_in_bytes in
    after_virtual_alloc2 os (os.virtual_alloc2 size) size desired out live

-- `allocateLargePage`.
unfoldable pub allocate_exactly : Allocator → Option ℕ → AllocationRequest → AllocationRequest
allocate_exactly os (some v) out = record out { virtaddr = some v; page_size = huge_page }
allocate_exactly os none out = record out {
  virtaddr = os.virtual_alloc 0 out.size_in_bytes;
  page_size = os.large_page;
}

unfoldable pub allocate_large_page :
    Allocator → AllocationRequest → List ℕ → AllocationRequest × List ℕ
unfolding allocate_exactly round_up
allocate_large_page os out live =
    let sized = record out { size_in_bytes = round_up os.large_page out.size_in_bytes } in
    let taken = allocate_exactly os (os.virtual_alloc2 sized.size_in_bytes) sized in
    (taken, acquire taken.virtaddr live)
