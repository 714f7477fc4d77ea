-- ===== src/Probe/Program.antt =====
-- `main` of probe/trefi_probe.cpp on Windows, after the option parser: the privilege, the page, the
-- calibration, the probes, the analysis and the clean-up. What it prints is the report; the answers of
-- the operating system and the readings of the counter are arguments.
use mathlib.Core.Bool.{◌&&◌}
use tailslayer_win.Common.{
  ℕ, ◌^◌, ◌≡◌, ◌⊎◌, refl, ap, ◌∙◌, Bool, true, false, not, if◌then◌else◌, differ, inl, inr, List,
  [], ◌∷◌, map, Option, none, some,
}
use tailslayer_win.Platform.Allocation.{
  AllocationRequest, no_request, TokenAnswers, acquire, release, set_lock_memory_privilege,
  free_large_page,
}
use tailslayer_win.Platform.Allocation.Attempts.{release-acquire}
use tailslayer_win.Platform.Allocation.Privilege.{IsGranted, set_lock_memory_privilege-Settles}
use tailslayer_win.Platform.LargePages.{Allocator, allocate_large_page}
use tailslayer_win.Probe.{timed_probe, qsort, percentiles, spike_threshold, probe_loop, Spike}
use tailslayer_win.Probe.Analysis.{Doubles, Report, analyse}

-- What the program is run with.
pub record Setting (f : Doubles) : Type 0 where
  pub os : Allocator
  pub acquired : TokenAnswers
  pub removed : TokenAnswers
  -- `VirtualFree` in `freeLargePage`.
  pub virtual_free : Bool
  pub manual_threshold : ℕ
  pub scale : ℕ → ℕ
  pub calibration : List (ℕ × ℕ)
  pub readings : List (ℕ × ℕ)

pub record Exit : Type 0 where
  pub status : ℕ
  pub live : List ℕ
  pub report : Option Report

module _ (f : Doubles) (T : f.Double) (s : Setting f) where
  -- The spikes, with the threshold of the calibration.
  unfoldable pub find_spikes : List Spike
  find_spikes =
      let calib = qsort (map timed_probe s.calibration) in
      let threshold = spike_threshold s.scale s.manual_threshold (percentiles calib).median in
      probe_loop threshold s.readings 0 []

  -- `__cleanup`: the status, and the blocks in use.
  unfoldable pub clean_up : AllocationRequest → Bool → List ℕ → ℕ × List ℕ
  clean_up alloc enabled live =
      let live' = free_large_page s.virtual_free alloc live in
      let released = (set_lock_memory_privilege s.removed false enabled).0 in
      (if not released then 1 else 0, live')

  unfoldable pub with_page : Option ℕ → AllocationRequest → Bool → List ℕ → Exit
  unfolding clean_up
  with_page none alloc enabled live = record { status = 1; live = live; report = none }
  with_page (some v) alloc enabled live =
      let report = analyse f T find_spikes in
      let (status, live') = clean_up alloc enabled live in
      record { status = status; live = live'; report = some report }

  unfoldable pub run_probe : Bool → List ℕ → Exit
  unfolding with_page
  run_probe enabled live =
      let (acquired, enabled') = set_lock_memory_privilege s.acquired true enabled in
      let wanted = record no_request { size_in_bytes = 2 ^ 21 } in
      let (alloc, live') = allocate_large_page s.os wanted live in
      if not acquired
      then record { status = 1; live = live; report = none }
      else with_page alloc.virtaddr alloc enabled' live'

-- The page that the probe asks for.
abbrev pub page_of : Allocator → List ℕ → Option ℕ
page_of os live =
    (allocate_large_page os (record no_request { size_in_bytes = 2 ^ 21 }) live).0.virtaddr

-- How a run ends: without a page, or with one that `__cleanup` returns.
abbrev pub IsExit : (f : Doubles) → Setting f → Bool → List ℕ → Exit → Type 0
IsExit f s enabled live e =
    ((e.status ≡ 1)
      × (e.live ≡ live)
      × (((enabled ≡ false) × (IsGranted s.acquired → ⊥)) ⊎ (page_of s.os live ≡ none)))
    ⊎ ((v : ℕ) × (page_of s.os live ≡ some v)
        × ((enabled ≡ true) ⊎ IsGranted s.acquired)
        × (((e.status ≡ 0) × IsGranted s.removed) ⊎ ((e.status ≡ 1) × (IsGranted s.removed → ⊥)))
        × (e.live ≡ (if s.virtual_free then live else v ∷ live)))

module _ (f : Doubles) (T : f.Double) (s : Setting f) (enabled : Bool) (live : List ℕ) where
  clean_up-ends :
      (v : ℕ) (alloc : AllocationRequest) (enabled' : Bool) (live' : List ℕ)
      → alloc.virtaddr ≡ some v
      → live' ≡ v ∷ live
      → let (status, left) = clean_up f T s alloc enabled' live' in
        (((status ≡ 0) × IsGranted s.removed) ⊎ ((status ≡ 1) × (IsGranted s.removed → ⊥)))
        × (left ≡ (if s.virtual_free then live else v ∷ live))
  unfolding clean_up free_large_page
  clean_up-ends v alloc enabled' live' at taken = (
    elim (set_lock_memory_privilege-Settles s.removed false enabled') [
      | inl (yes_released, inl skip) ↦ absurd (never enabled' skip)
      | inl (yes_released, inr all) ↦ inl (rw yes_released refl, all)
      | inr (no_release, _, none_granted) ↦ inr (rw no_release refl, none_granted)
    ],
    ap (λ o. if s.virtual_free then release o live' else live') at
        ∙ ap (λ l. if s.virtual_free then release (some v) l else l) taken
        ∙ ap (λ l. if s.virtual_free then l else v ∷ live) (release-acquire (some v) live),
  )
    where
      never : (b : Bool) → (b && false) ≡ true → ⊥
      never true e = differ refl e
      never false e = differ refl e

  with_page-ends :
      (o : Option ℕ) (alloc : AllocationRequest) (enabled' : Bool) (live' : List ℕ)
      → page_of s.os live ≡ o
      → alloc.virtaddr ≡ o
      → live' ≡ acquire o live
      → (enabled ≡ true) ⊎ IsGranted s.acquired
      → IsExit f s enabled live (with_page f T s o alloc enabled' live')
  unfolding with_page
  with_page-ends none alloc enabled' live' page at taken lock = inl (refl, taken, inr page)
  with_page-ends (some v) alloc enabled' live' page at taken lock =
      let (status, left) = clean_up-ends v alloc enabled' live' at taken in
      inr (v, page, lock, status, left)

  allocate_large_page-acquire :
      (wanted : AllocationRequest)
      → (allocate_large_page s.os wanted live).1
        ≡ acquire (allocate_large_page s.os wanted live).0.virtaddr live
  unfolding allocate_large_page
  allocate_large_page-acquire wanted = refl

  -- A run without the privilege or without a page ends with status 1 and the blocks that were in use
  -- before. A run with both ends with status 0 or 1 by whether the privilege is given back, for which
  -- every answer about the token must be good; the page is not in use at the end if `VirtualFree`
  -- succeeds, and still is if not, and nothing else has changed.
  pub run_probe-live : IsExit f s enabled live (run_probe f T s enabled live)
  unfolding run_probe
  run_probe-live =
      let wanted : AllocationRequest = record no_request { size_in_bytes = 2 ^ 21 } in
      let alloc = (allocate_large_page s.os wanted live).0 in
      let enabled' = (set_lock_memory_privilege s.acquired true enabled).1 in
      elim (set_lock_memory_privilege-Settles s.acquired true enabled) [
        | inl (locked, how) ↦ rw locked (
            with_page-ends alloc.virtaddr alloc enabled' (allocate_large_page s.os wanted live).1
              refl refl (allocate_large_page-acquire wanted)
              (elim how [ inl skip ↦ inl (first enabled skip) | inr all ↦ inr all ]))
        | inr (refused, skip, none_granted) ↦
            rw refused (inl (refl, refl, inl (second enabled skip, none_granted)))
      ]
    where
      first : (b : Bool) → (b && true) ≡ true → b ≡ true
      first true e = refl
      first false e = e

      second : (b : Bool) → (b && true) ≡ false → b ≡ false
      second true e = e
      second false e = refl
