-- ===== src/Platform/LargePages/Exact.antt =====
-- What `allocateLargePage` of utilities.hpp allocates, and that `freeLargePage` gives it back.
use tailslayer_win.Common.{
  ℕ, ◌+◌, ◌-◌, ◌*◌, ◌/◌, ◌^◌, ◌≤◌, ◌<◌, ◌≡◌, refl, sym, ap, ◌∙◌, arith, true, Option, none, some,
  List,
}
use tailslayer_win.Platform.Allocation.{AllocationRequest, round_up, free_large_page}
use tailslayer_win.Platform.Allocation.Attempts.{release-acquire}
use tailslayer_win.Platform.Allocation.Rounding.{round_up-pow, round_up_bounds}
use tailslayer_win.Platform.LargePages.{Allocator, allocate_exactly, allocate_large_page}

exact-size :
    (os : Allocator) (o : Option ℕ) (out : AllocationRequest)
    → (allocate_exactly os o out).size_in_bytes ≡ out.size_in_bytes
unfolding allocate_exactly
exact-size os (some v) out = refl
exact-size os none out = refl

-- With large pages of a power of two of at most 1 GiB, and a request below 2^58 bytes: the size of
-- the result is a whole number of large pages, no less than was asked for and less than one page
-- more, and `freeLargePage`, when its `VirtualFree` succeeds, gives back exactly what was taken.
pub allocate_large_page-free :
    (os : Allocator) (k : ℕ) (out : AllocationRequest) (live : List ℕ)
    → os.large_page ≡ 2 ^ k
    → k ≤ 30
    → out.size_in_bytes < 2 ^ 58
    → let (result, live') = allocate_large_page os out live in
      ((pages : ℕ) × (result.size_in_bytes ≡ pages * os.large_page))
      × (out.size_in_bytes ≤ result.size_in_bytes)
      × (result.size_in_bytes < out.size_in_bytes + os.large_page)
      × (free_large_page true result live' ≡ live)
unfolding allocate_large_page free_large_page
allocate_large_page-free os k out live paged narrow small =
    let rounded : round_up os.large_page out.size_in_bytes ≡ round_up (2 ^ k) out.size_in_bytes =
      ap (λ p. round_up p out.size_in_bytes) paged in
    let sized : AllocationRequest = record out {
      size_in_bytes = round_up os.large_page out.size_in_bytes;
    } in
    let whole = exact-size os (os.virtual_alloc2 sized.size_in_bytes) sized ∙ rounded in
    let (low, high) = round_up_bounds k out.size_in_bytes narrow small in
    (
      (
        (out.size_in_bytes + (2 ^ k - 1)) / 2 ^ k,
        whole
            ∙ round_up-pow k out.size_in_bytes narrow small
            ∙ ap (λ p. (out.size_in_bytes + (2 ^ k - 1)) / 2 ^ k * p) (sym paged),
      ),
      omega (arith, whole),
      omega (arith, whole),
      release-acquire (allocate_exactly os (os.virtual_alloc2 sized.size_in_bytes) sized).virtaddr
          live,
    )
