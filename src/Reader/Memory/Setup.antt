-- ===== src/Reader/Memory/Setup.antt =====
-- What `setup_memory` of hedged_reader.hpp promises.
use tailslayer_win.Common.{
  ℕ, ◌∷◌, if◌then◌else◌, ◌≡◌, refl, ap, ◌∙◌, Bool, true, false, ltb, none, some,
}
use tailslayer_win.Platform.Region.{Region, find_largest}
use tailslayer_win.Platform.Allocation.{
  Os, AllocationRequest, TokenAnswers, acquire, release, allocate_large_page_min, free_large_page,
  set_lock_memory_privilege, end_multiplier,
}
use tailslayer_win.Platform.Allocation.Attempts.{release-acquire, allocate-live}
use tailslayer_win.Reader.{hugepage_size, attach_page}
use tailslayer_win.Reader.Memory.{State, check_region, use_block, setup_memory}

module _ {ℓ} {A : Type ℓ} (os : Os) (token : TokenAnswers) (n : ℕ) (fill : A) (s : State A) where
  unfoldable pub wanted : AllocationRequest
  wanted = record s.alloc { size_in_bytes = hugepage_size }

  unfoldable pub locked : Bool
  locked = (set_lock_memory_privilege token true s.enabled).0

  -- The state once the block is allocated.
  unfoldable pub allocated : State A
  allocated = record s {
    alloc = (allocate_large_page_min os wanted s.live).0;
    enabled = (set_lock_memory_privilege token true s.enabled).1;
    live = (allocate_large_page_min os wanted s.live).2;
  }

  pub setup_memory-unlocked :
      locked ≡ false
      → (setup_memory os token n fill s).succeeded ≡ false
        × ((setup_memory os token n fill s).live ≡ s.live)
  unfolding setup_memory locked
  setup_memory-unlocked e = rw e (refl, refl)

  pub setup_memory-none :
      locked ≡ true
      → allocated.alloc.virtaddr ≡ none
      → setup_memory os token n fill s ≡ record allocated { succeeded = false }
  unfolding setup_memory use_block locked allocated wanted
  setup_memory-none e absent = rw (e, absent) refl

  pub setup_memory-some :
      (v : ℕ)
      → locked ≡ true
      → allocated.alloc.virtaddr ≡ some v
      → setup_memory os token n fill s ≡ check_region os n fill v allocated
  unfolding setup_memory use_block locked allocated wanted
  setup_memory-some v e found = rw (e, found) refl

  pub allocated-live : allocated.live ≡ acquire allocated.alloc.virtaddr s.live
  unfolding allocated
  allocated-live = allocate-live os wanted s.live

  module _ (v : ℕ) (found : allocated.alloc.virtaddr ≡ some v) where
    unfoldable pub region : Region
    region =
        find_largest (os.translate end_multiplier) v allocated.alloc.size_in_bytes
          allocated.alloc.page_size 0

    pub check_region-small :
        ltb region.size allocated.alloc.size_in_bytes ≡ true
        → check_region os n fill v allocated ≡ record allocated {
          succeeded = false;
          live = if os.virtual_free then s.live else v ∷ s.live;
        }
    unfolding check_region region free_large_page
    check_region-small small =
        let taken = allocated-live ∙ ap (λ o. acquire o s.live) found in
        rw small (
          ap (λ live. record allocated { succeeded = false; live = live })
            (ap (λ o. if os.virtual_free then release o allocated.live else allocated.live) found
              ∙ ap (λ l. if os.virtual_free then release (some v) l else l) taken
              ∙ ap (λ l. if os.virtual_free then l else v ∷ s.live)
                  (release-acquire (some v) s.live)))

    pub check_region-large :
        ltb region.size allocated.alloc.size_in_bytes ≡ false
        → check_region os n fill v allocated
          ≡ record allocated { succeeded = true; reader = attach_page n fill region.vaddr s.reader }
    unfolding check_region region allocated
    check_region-large large = rw large refl
