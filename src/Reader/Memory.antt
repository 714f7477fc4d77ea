-- ===== src/Reader/Memory.antt =====
-- `setup_memory` of hedged_reader.hpp on Windows, and the destructor once the workers are joined.
pub mod Setup
pub mod Outcomes
mod Tests
use tailslayer_win.Common.{ℕ, Bool, true, false, if◌then◌else◌, not, ltb, Option, none, some, List}
use tailslayer_win.Platform.Region.{Region, find_largest}
use tailslayer_win.Platform.Allocation.{
  Os, AllocationRequest, TokenAnswers, allocate_large_page_min, free_large_page,
  set_lock_memory_privilege, end_multiplier,
}
use tailslayer_win.Reader.{Reader, hugepage_size, attach_page}

-- The result of `setup_memory`, and what it changes: the reader, its `m_alloc`, the flag
-- `g_enabledLockMemoryPrivileges` and the blocks in use.
pub record State {ℓ} (A : Type ℓ) : Type ℓ where
  pub succeeded : Bool
  pub reader : Reader A
  pub alloc : AllocationRequest
  pub enabled : Bool
  pub live : List ℕ

module _ {ℓ} {A : Type ℓ} (os : Os) where
  -- `setup_memory` once a block is there. The translations are those after the last attempt.
  unfoldable pub check_region : ℕ → A → ℕ → State A → State A
  check_region n fill v s =
      let region =
        find_largest (os.translate end_multiplier) v s.alloc.size_in_bytes s.alloc.page_size 0 in
      if ltb region.size s.alloc.size_in_bytes
      then record s { succeeded = false; live = free_large_page os.virtual_free s.alloc s.live }
      else record s { succeeded = true; reader = attach_page n fill region.vaddr s.reader }

  -- The null pointer ends `setup_memory` there.
  unfoldable pub use_block : ℕ → A → Option ℕ → State A → State A
  use_block n fill none s = record s { succeeded = false }
  use_block n fill (some v) s = check_region n fill v s

  unfoldable pub setup_memory : TokenAnswers → ℕ → A → State A → State A
  setup_memory token n fill s =
      let wanted = record s.alloc { size_in_bytes = hugepage_size } in
      let (locked, enabled') = set_lock_memory_privilege token true s.enabled in
      let (alloc', region, live') = allocate_large_page_min os wanted s.live in
      if not locked
      then record s { succeeded = false; alloc = wanted; enabled = enabled' }
      else use_block n fill alloc'.virtaddr
          (record s { alloc = alloc'; enabled = enabled'; live = live' })

  unfoldable pub close_reader : TokenAnswers → State A → State A
  close_reader token s = record s {
    reader = record s.reader { replica_page = none };
    enabled = (set_lock_memory_privilege token false s.enabled).1;
    live = free_large_page os.virtual_free s.alloc s.live;
  }
