-- ===== src/Platform/Region/Tests.antt =====
-- A request of four pages of 4096 bytes, of which the last three are together in physical memory.
use tailslayer_win.Common.{
  ℕ, ◌+◌, ◌*◌, ◌^◌, ◌≤◌, ◌<◌, ◌≡◌, ◌⊎◌, refl, arith, if◌then◌else◌, ltb, ◌==◌, Option, none, some,
}
use tailslayer_win.Platform.Region.{usable, find_largest, wanted_size, extend, larger}
use tailslayer_win.Platform.Region.Runs.{Contiguous, IsRun}
use tailslayer_win.Platform.Region.Search.{find_largest_lem}

abbrev translate : ℕ → Option ℕ
translate v =
    if v == 65536 then some 1048576 else (if ltb v 81920 then some (v + 16777216) else none)

found :
    find_largest translate 65536 16384 4096 0
    ≡ record { vaddr = 69632; paddr = 16846848; size = 12288 }
unfolding find_largest larger extend
found = refl

-- One page is enough here.
found_small :
    find_largest translate 65536 16384 4096 4096
    ≡ record { vaddr = 65536; paddr = 1048576; size = 4096 }
unfolding find_largest larger extend
found_small = refl

translate-small : (i q : ℕ) → usable (translate (65536 + i * 4096)) ≡ some q → q + 4096 < 2 ^ 64
translate-small i q e = ground arith

find_largest_lem_example :
    (first n : ℕ) × IsRun translate 65536 4096 first n (find_largest translate 65536 16384 4096 0)
    × ((first + n) * 4096 < 16384 + 4096)
    × ((i m p : ℕ)
        → (i + m) * 4096 < 16384 + 4096
        → Contiguous translate 65536 4096 i m p
        → (m ≤ n) ⊎ (wanted_size 0 ≤ (find_largest translate 65536 16384 4096 0).size))
find_largest_lem_example =
    find_largest_lem translate 65536 16384 4096 0 (omega arith) (omega arith) (omega arith)
      translate-small
