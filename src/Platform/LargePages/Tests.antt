-- ===== src/Platform/LargePages/Tests.antt =====
-- A machine with 3 GiB free where `VirtualAlloc2` gives a block that is too small, one where it gives
-- none and `VirtualAlloc` grants a tenth of the memory, and an allocation of one byte.
use tailslayer_win.Common.{
  ℕ, ◌+◌, ◌*◌, ◌^◌, ◌≤◌, ◌<◌, ◌≡◌, refl, arith, true, false, if◌then◌else◌, leb, none, some, [],
  ◌∷◌, ◌++◌,
}
use tailslayer_win.Platform.Allocation.{
  AllocationRequest, no_request, acquire, round_up, free_large_page,
}
use tailslayer_win.Platform.LargePages.{
  Allocator, huge_page, try_multiplier, try_multipliers, allocate_by_multiplier,
  after_virtual_alloc2, allocate_large_page_max, allocate_large_page,
}
use tailslayer_win.Platform.LargePages.Most.{
  left_behind, IsBest, allocate_large_page_max-leaks, allocate_large_page_max-IsBest,
}
use tailslayer_win.Platform.LargePages.Exact.{allocate_large_page-free}

abbrev gib : ℕ
gib = 2 ^ 30

abbrev grants_two : Allocator
grants_two = record {
  large_page = 2 ^ 21;
  available = λ _. 3 * gib;
  four_fifths = λ _. 2 * gib;
  virtual_alloc2 = λ size. some 4096;
  virtual_alloc = λ mul size. none;
}

abbrev asks_five : AllocationRequest
asks_five = record no_request { size_in_bytes = 5 * gib }

left_four_thousand : allocate_large_page_max grants_two asks_five [] ≡ (
  record {
    virtaddr = none;
    size_in_bytes = 161480704;
    page_size = 2 ^ 21;
    verify_contiguous = false;
  },
  4096 ∷ [],
)
unfolding allocate_large_page_max after_virtual_alloc2 allocate_by_multiplier try_multipliers
    try_multiplier round_up
left_four_thousand = refl

allocate_large_page_max-leaks_example :
    let size = round_up huge_page (2 * gib) in
    let enough = leb (round_up huge_page (5 * gib)) size in
    let (result, live') = allocate_large_page_max grants_two asks_five [] in
    live' ≡ acquire result.virtaddr (left_behind (some 4096) enough ++ [])
allocate_large_page_max-leaks_example = allocate_large_page_max-leaks grants_two asks_five [] refl

abbrev grants_tenth : Allocator
grants_tenth = record grants_two {
  virtual_alloc2 = λ size. none;
  virtual_alloc = λ mul size. if leb mul 10 then some 8192 else none;
}

allocate_large_page_max-IsBest_example :
    IsBest grants_tenth (allocate_large_page_max grants_tenth asks_five []).0
allocate_large_page_max-IsBest_example =
    allocate_large_page_max-IsBest grants_tenth asks_five [] refl

allocate_large_page-free_example :
    let (result, live') =
      allocate_large_page grants_two (record no_request { size_in_bytes = 1 }) [] in
    ((pages : ℕ) × (result.size_in_bytes ≡ pages * 2 ^ 21))
    × (1 ≤ result.size_in_bytes)
    × (result.size_in_bytes < 1 + 2 ^ 21)
    × (free_large_page true result live' ≡ [])
allocate_large_page-free_example =
    allocate_large_page-free grants_two 21 (record no_request { size_in_bytes = 1 }) [] refl
      (omega arith) (omega arith)
