-- ===== src/Processors/Affinity/Tests.antt =====
-- Two sockets whose cores share their numbers, and a list that ends in a small core number.
use tailslayer_win.Common.{ℕ, ◌^◌, ◌≡◌, ◌↔◌, refl, arith, List, [], ◌∷◌, In}
use tailslayer_win.Processors.{LogicalProcessor, Configuration}
use tailslayer_win.Processors.Affinity.{
  push_masks, get_physical_core_thread_affinity, OfCoreNumber,
  get_physical_core_thread_affinity_lem,
}

abbrev thread : ℕ → ℕ → ℕ → LogicalProcessor
thread i core pkg = record {
  global_id = i;
  core_id = core;
  pkg_id = pkg;
  usable = 1;
  affinity_mask = record { group = 0; mask = 2 ^ i };
}

abbrev of_list : List LogicalProcessor → Configuration
of_list proc = record {
  proc = proc;
  thread_count = 0;
  physical_core_count = 0;
  core_package_count = 0;
}

abbrev two_sockets : Configuration
two_sockets = of_list (thread 0 0 0 ∷ thread 1 1 0 ∷ thread 2 0 1 ∷ thread 3 1 1 ∷ [])

both_sockets :
    get_physical_core_thread_affinity 0 two_sockets []
    ≡ record { group = 0; mask = 1 } ∷ record { group = 0; mask = 4 } ∷ []
unfolding get_physical_core_thread_affinity push_masks
both_sockets = refl

get_physical_core_thread_affinity_lem_example :
    In (record { group = 0; mask = 4 }) (get_physical_core_thread_affinity 0 two_sockets [])
    ↔ OfCoreNumber 0 two_sockets.proc (record { group = 0; mask = 4 })
get_physical_core_thread_affinity_lem_example =
    get_physical_core_thread_affinity_lem 0 two_sockets (thread 3 1 1)
      (record { group = 0; mask = 4 }) refl (omega arith)

-- The last processor's core number stands for the largest.
left_out : get_physical_core_thread_affinity 5 (of_list (thread 0 5 0 ∷ thread 1 2 0 ∷ [])) [] ≡ []
unfolding get_physical_core_thread_affinity push_masks
left_out = refl
