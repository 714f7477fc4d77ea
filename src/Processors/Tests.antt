-- ===== src/Processors/Tests.antt =====
-- Two threads of core 3 in package 1.
use tailslayer_win.Common.{ℕ, ◌^◌, ◌≡◌, refl, arith}
use tailslayer_win.Processors.{LogicalProcessor, IsSized, unique_core_id}
use tailslayer_win.Processors.Identity.{unique_core_id_injective}

abbrev thread : ℕ → LogicalProcessor
thread i = record {
  global_id = i;
  core_id = 3;
  pkg_id = 1;
  usable = 1;
  affinity_mask = record { group = 0; mask = 2 ^ i };
}

thread-IsSized : (i : ℕ) → IsSized (thread i)
thread-IsSized i = record { core_fits = omega arith; pkg_fits = omega arith }

core_three : unique_core_id (thread 6) ≡ 4294967299
unfolding unique_core_id
core_three = refl

one_core : unique_core_id (thread 6) ≡ unique_core_id (thread 7)
unfolding unique_core_id
one_core = refl

unique_core_id_injective_example :
    ((thread 6).core_id ≡ (thread 7).core_id) × ((thread 6).pkg_id ≡ (thread 7).pkg_id)
unique_core_id_injective_example =
    unique_core_id_injective (thread 6) (thread 7) (thread-IsSized 6) (thread-IsSized 7) one_core
