-- ===== src/Platform/Contiguity/Tests.antt =====
-- Two pages of 2 MiB that are together, and a third that is not mapped.
use tailslayer_win.Common.{
  ℕ, ◌+◌, ◌*◌, ◌^◌, ◌<◌, ◌≡◌, ◌↔◌, refl, arith, true, false, if◌then◌else◌, ltb, Option, none, some,
  max64,
}
use tailslayer_win.Platform.Contiguity.{verify_huge_page_is_contiguous}
use tailslayer_win.Platform.Contiguity.Pages.{verify_huge_page_is_contiguous_lem}

abbrev translate : ℕ → Option ℕ
translate v = if ltb v (2 ^ 30 + 2 * 2 ^ 21) then some (v + 2 ^ 32) else none

two_pages : verify_huge_page_is_contiguous translate (2 ^ 21) (2 ^ 30) true (2 * 2 ^ 21) ≡ true
unfolding verify_huge_page_is_contiguous
two_pages = refl

three_pages : verify_huge_page_is_contiguous translate (2 ^ 21) (2 ^ 30) true (3 * 2 ^ 21) ≡ false
unfolding verify_huge_page_is_contiguous
three_pages = refl

translate-below : (v q : ℕ) → translate v ≡ some q → q + 2 ^ 21 < max64
translate-below v q e = ground arith

verify_huge_page_is_contiguous_lem_example :
    (verify_huge_page_is_contiguous translate (2 ^ 21) (2 ^ 30) true (2 * 2 ^ 21) ≡ true)
    ↔ ((p : ℕ) × ((j : ℕ) → j < 2 → translate (2 ^ 30 + j * 2 ^ 21) ≡ some (p + j * 2 ^ 21)))
verify_huge_page_is_contiguous_lem_example =
    verify_huge_page_is_contiguous_lem translate (2 ^ 21) (2 ^ 30) 2 (omega arith) (omega arith)
      (omega arith) translate-below
