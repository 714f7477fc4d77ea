-- ===== src/Platform/Contiguity.antt =====
-- `verifyHugePageIsContiguous` of tailslayer/include/tailslayer/utilities.hpp. `translate` stands for
-- `VMMDLL_MemVirt2Phys`, which leaves its target as it was when it fails.
pub mod Pages
mod Tests
use tailslayer_win.Common.{
  ℕ, zero, suc, ◌-◌, ◌/◌, ◌%◌, Bool, true, false, not, ◌&&◌, ◌||◌, if◌then◌else◌, ◌==◌, Option,
  none, some, add64, mul64, max64,
}
use tailslayer_win.Platform.Region.{present}
use tailslayer_win.Platform.Allocation.{round_up}

-- `paddr[…]` after a translation in the loop, and after the one before it.
abbrev pub translated : ℕ → Option ℕ → ℕ
translated otherwise none = otherwise
translated otherwise (some p) = p

module _ (translate : ℕ → Option ℕ) (minimum begins : ℕ) where
  -- The loop: `left` pages from page `offset` on, after one at `before`.
  unfoldable pub verify_pages : ℕ → ℕ → ℕ → Bool → Bool
  verify_pages zero offset before is_contiguous = is_contiguous
  verify_pages (suc left) offset before is_contiguous =
      let answer = translate (add64 begins (mul64 minimum offset)) in
      let here = translated max64 answer in
      let still = is_contiguous && (add64 before minimum == here) in
      let rest = verify_pages left (suc offset) here still in
      if not (present answer) || not still then still else rest

  unfoldable pub verify_huge_page_is_contiguous : Bool → ℕ → Bool
  unfolding verify_pages round_up
  verify_huge_page_is_contiguous initialized size =
      let bytes = if size % minimum == 0 then size else round_up minimum size in
      let pages = bytes / minimum in
      let first = translate begins in
      if not initialized
      then false
      else verify_pages (pages - 1) 1 (translated 0 first) (present first)
