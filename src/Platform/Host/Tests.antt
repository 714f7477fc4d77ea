-- ===== src/Platform/Host/Tests.antt =====
-- A counter of 10 MHz, shifts at the edge of an `int`, and an entry of the page map.
use tailslayer_win.Common.{
  ℕ, ◌+◌, ◌*◌, ◌/◌, ◌^◌, ◌<◌, ◌≡◌, refl, arith, true, Option, none, some, max64, ok, undefined,
}
use tailslayer_win.Platform.Host.{
  TimeSpec, ns_per_sec, affinity_mask, clock_gettime_monotonic, virt_to_phys, virt_to_phys_linux,
  join_halves, check_cpu_support,
}
use tailslayer_win.Platform.Host.Clock.{clock_gettime_monotonic_lem}

clock_gettime_monotonic_lem_example :
    (t : TimeSpec) × (clock_gettime_monotonic (10 ^ 7) 123456789 ≡ ok (some t))
    × (t.tv_nsec < ns_per_sec)
    × (t.tv_sec * ns_per_sec + t.tv_nsec ≡ 123456789 * ns_per_sec / 10 ^ 7)
clock_gettime_monotonic_lem_example =
    clock_gettime_monotonic_lem (10 ^ 7) 123456789 (omega arith) (omega arith) (omega arith)

twelve_seconds :
    clock_gettime_monotonic (10 ^ 7) 123456789
    ≡ ok (some (record { tv_sec = 12; tv_nsec = 345678900 }))
unfolding clock_gettime_monotonic
twelve_seconds = refl

core_thirty_one : affinity_mask 31 ≡ ok 0xFFFFFFFF80000000
unfolding affinity_mask
core_thirty_one = refl

core_thirty_two : affinity_mask 32 ≡ undefined
unfolding affinity_mask
core_thirty_two = refl

unmapped : virt_to_phys (λ vaddr. none) 4096 ≡ max64
unfolding virt_to_phys
unmapped = refl

abbrev page_five : ℕ → Option ℕ
page_five offset = some (2 ^ 63 + 5)

fifth_page : virt_to_phys_linux true page_five 0x1234 ≡ 0x5234
unfolding virt_to_phys_linux
fifth_page = refl

counter : join_halves 3 7 ≡ 3 * 2 ^ 32 + 7
unfolding join_halves
counter = refl

huge_pages : check_cpu_support (2 ^ 26) ≡ true
unfolding check_cpu_support
huge_pages = refl
