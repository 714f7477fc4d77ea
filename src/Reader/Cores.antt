-- ===== src/Reader/Cores.antt =====
-- `setup_replica_cores` of hedged_reader.hpp.
use native.Mathlib.Decide.{ℕ_discrete}
use tailslayer_win.Common.{
  ℕ, zero, suc, ◌+◌, ◌-◌, ◌≤◌, ◌<◌, ◌≡◌, refl, ◌∙◌, arith, lt→ltb, List, ◌∷◌, length, length-set,
  length-tabulate, get_or, tabulate, get_or-set_self, get_or-set_ne, ◌^◌, le→ltb, ne→==, ok,
  undefined,
}
use tailslayer_win.Platform.Host.{affinity_mask}
use tailslayer_win.Reader.{core_loop, setup_replica_cores, core_meas_a, core_meas_b}

core_loop-below :
    (left i j : ℕ) (cores : List ℕ) → j < i → get_or (core_loop left i cores) j 0 ≡ get_or cores j 0
unfolding core_loop
core_loop-below zero i j cores h = refl
core_loop-below (suc left) i j cores h =
    core_loop-below left (suc i) j _ (omega arith)
    ∙ get_or-set_ne cores (core_meas_b + i - 1) 0 (omega arith)

core_loop-at :
    (left i j : ℕ) (cores : List ℕ)
    → i ≤ j
    → j < i + left
    → i + left ≤ length cores
    → get_or (core_loop left i cores) j 0 ≡ j + 1
unfolding core_loop
core_loop-at zero i j cores h k f = absurd (omega arith)
core_loop-at (suc left) i j cores h k f = elim (ℕ_discrete i j) [
  | yes e ↦ rw (← e) (
      core_loop-below left (suc i) i _ (omega arith)
      ∙ get_or-set_self cores i (core_meas_b + i - 1) 0 (omega arith)
      ∙ omega arith)
  | no ne ↦
      core_loop-at left (suc i) j _ (omega arith) (omega arith)
        (omega (arith, length-set cores i (core_meas_b + i - 1)))
]

-- The two entries that the code sets before its loop, from three cores or more.
abbrev first_two : ℕ → List ℕ
first_two m = core_meas_a ∷ core_meas_b ∷ tabulate m 2 (λ _. 0)

setup-two_or_more :
    (m num_channels : ℕ)
    → suc (suc m) ≤ num_channels
    → setup_replica_cores (suc (suc m)) num_channels ≡ core_loop m 2 (first_two m)
unfolding setup_replica_cores
setup-two_or_more m num_channels few =
    let count : suc (suc m) - 2 ≡ m = omega arith in
    rw (count, lt→ltb 1 num_channels (omega arith), lt→ltb 1 (suc (suc m)) (omega arith))

single : (num_channels : ℕ) → get_or (setup_replica_cores 1 num_channels) 0 0 ≡ 1
unfolding setup_replica_cores
single num_channels = ground arith

-- With no more replicas than channels, worker `i` is pinned to core `i + 1`: each to a core of its
-- own, and none to `core_main`.
pub setup_replica_cores_lem :
    (n num_channels i : ℕ)
    → n ≤ num_channels
    → i < n
    → get_or (setup_replica_cores n num_channels) i 0 ≡ i + 1
setup_replica_cores_lem zero num_channels i few h = elim h [ ]
setup_replica_cores_lem (suc zero) num_channels (suc i) few h = absurd (omega arith)
setup_replica_cores_lem (suc zero) num_channels zero few h = single num_channels
setup_replica_cores_lem (suc (suc m)) num_channels zero few h =
    rw (setup-two_or_more m num_channels few) (core_loop-below m 2 0 (first_two m) (omega arith))
setup_replica_cores_lem (suc (suc m)) num_channels (suc zero) few h =
    rw (setup-two_or_more m num_channels few) (core_loop-below m 2 1 (first_two m) (omega arith))
setup_replica_cores_lem (suc (suc m)) num_channels (suc (suc i)) few h =
    rw (setup-two_or_more m num_channels few) (
      core_loop-at m 2 (suc (suc i)) (first_two m) (omega arith) (omega arith)
        (omega (arith, length-tabulate {A = ℕ} m 2 (λ _. 0))))

-- With no more replicas than channels, worker `i` is pinned to core `i + 1`: the affinity mask of its
-- thread is the bit of that core alone as long as the core is one of the first 31, and from core 32 on
-- the shift that makes the mask is undefined.
pub worker-affinity :
    (n num_channels i : ℕ)
    → n ≤ num_channels
    → i < n
    → let core = get_or (setup_replica_cores n num_channels) i 0 in
      (core ≡ i + 1)
      × (i < 30 → affinity_mask core ≡ ok (2 ^ (i + 1)))
      × (31 ≤ i → affinity_mask core ≡ undefined)
unfolding affinity_mask
worker-affinity n num_channels i few lt =
    let core = setup_replica_cores_lem n num_channels i few lt in
    (
      core,
      λ low.
          let fits = lt→ltb (i + 1) 32 (omega arith) in
          let positive = ne→== (i + 1) 31 (λ e. absurd (omega arith)) in
          rw core (rw (fits, positive) refl),
      λ high. rw core (rw (le→ltb (i + 1) 32 (omega arith)) refl),
    )
