-- ===== src/Manager/Tests.antt =====
-- Runs of the manager on a machine of two cores with two threads each, and its theorems there.
use native.Mathlib.Decide.{ℕ_discrete}
use tailslayer_win.Common.{
  ℕ, zero, suc, ◌+◌, ◌%◌, ◌^◌, ◌≤◌, ◌<◌, ◌≡◌, ◌≢◌, refl, sym, ap, subst, ◌∙◌, arith, true, false,
  List, [], ◌∷◌, ◌++◌, map, none, some, length, weigh, count, ok, ok_injective, All, get_elem?,
  some_injective,
}
use tailslayer_win.Processors.{
  LogicalProcessor, Configuration, unique_core_id, no_processor, destroy, logical_core_count,
  physical_core_count,
}
use tailslayer_win.Manager.{
  Manager, CoreThreads, ThreadMap, initialize, initialize_with, destroy_manager, assign_threads,
  count_threads, add_free_cores,
}
use tailslayer_win.Manager.Allocate.{allocate_thread, allocate_processor}
use tailslayer_win.Manager.Release.{free_thread, free_processor}
use tailslayer_win.Manager.Valid.{IsValid, available, lookup}
use tailslayer_win.Manager.Handover.{Once, allocate_thread-Handed}
use tailslayer_win.Manager.Return.{free_thread_lem}
use tailslayer_win.Manager.Cores.{
  core_of, allocate_processor-Handed, free_processor-returns, free_processor-overcounts,
}
use tailslayer_win.Manager.Start.Counts.{core_count}
use tailslayer_win.Manager.Start.Fresh.{IsNumbered, initialize_with-IsValid}
use tailslayer_win.Manager.Failure.{initialize-fails}
use tailslayer_win.Manager.Sequence.{
  allocate_threads, allocate_threads-Distinct, allocate_free-available,
}

abbrev thread : ℕ → ℕ → LogicalProcessor
thread i core = record {
  global_id = i;
  core_id = core;
  pkg_id = 0;
  usable = 1;
  affinity_mask = record { group = 0; mask = 2 ^ i };
}

abbrev quad : Configuration
quad = record {
  proc = thread 0 0 ∷ thread 1 0 ∷ thread 2 1 ∷ thread 3 1 ∷ [];
  thread_count = 4;
  physical_core_count = 2;
  core_package_count = 1;
}

abbrev first : ThreadMap → ℕ
first m = 0

abbrev all_free : Manager
all_free = record {
  config = quad;
  core_to_threads =
      (0, record { thread_count = 2; threads = 0 ∷ 1 ∷ [] })
      ∷ (1, record { thread_count = 2; threads = 2 ∷ 3 ∷ [] })
      ∷ [];
  partially_free = [];
  free_cores = (0, 0 ∷ 1 ∷ []) ∷ (1, 2 ∷ 3 ∷ []) ∷ [];
  free_thread_count = 4;
  free_core_count = 2;
}

-- Thread 1 is in use.
abbrev one_taken : Manager
one_taken = record all_free {
  partially_free = (0, 0 ∷ []) ∷ [];
  free_cores = (1, 2 ∷ 3 ∷ []) ∷ [];
  free_thread_count = 3;
  free_core_count = 1;
}

-- Core 0 is in use.
abbrev core_taken : Manager
core_taken = record all_free {
  free_cores = (1, 2 ∷ 3 ∷ []) ∷ [];
  free_thread_count = 2;
  free_core_count = 1;
}

initialize_quad : initialize_with quad (destroy_manager all_free) ≡ (all_free, true)
unfolding initialize_with destroy_manager destroy assign_threads count_threads add_free_cores
    logical_core_count physical_core_count unique_core_id ℕ_discrete
initialize_quad = refl

allocate_one : allocate_thread first all_free ≡ ok (thread 1 0, one_taken)
unfolding allocate_thread ℕ_discrete
allocate_one = refl

allocate_core :
    allocate_processor first [] all_free ≡ ok (true, thread 0 0 ∷ thread 1 0 ∷ [], core_taken)
unfolding allocate_processor ℕ_discrete
allocate_core = refl

-- All are free again, and core 0 has moved to the back of its map.
abbrev returned : Manager
returned = record all_free { free_cores = (1, 2 ∷ 3 ∷ []) ∷ (0, 0 ∷ 1 ∷ []) ∷ [] }

free_one : free_thread (thread 1 0) one_taken ≡ ok returned
unfolding free_thread ℕ_discrete
free_one = refl

free_core : free_processor 0 0 core_taken ≡ returned
unfolding free_processor ℕ_discrete
free_core = refl

-- Five free threads are counted where there are four.
free_counted_twice : (free_processor 0 0 one_taken).free_thread_count ≡ 5
unfolding free_processor ℕ_discrete
free_counted_twice = refl

quad-IsNumbered : IsNumbered quad.proc
quad-IsNumbered zero lp e = ap (λ p. p.global_id) (sym (some_injective e))
quad-IsNumbered (suc zero) lp e = ap (λ p. p.global_id) (sym (some_injective e))
quad-IsNumbered (suc (suc zero)) lp e = ap (λ p. p.global_id) (sym (some_injective e))
quad-IsNumbered (suc (suc (suc zero))) lp e = ap (λ p. p.global_id) (sym (some_injective e))
quad-IsNumbered (suc (suc (suc (suc i)))) lp e = absurd (cc)

quad-core_count : 2 ≡ core_count [] quad.proc
unfolding unique_core_id ℕ_discrete
quad-core_count = refl

initialize_with-IsValid_example :
    (n : Manager) × (initialize_with quad (destroy_manager one_taken) ≡ (n, true))
    × IsValid n
    × ((i : ℕ) → i < 4 → available i n ≡ 1)
initialize_with-IsValid_example =
    initialize_with-IsValid quad one_taken quad-IsNumbered (omega arith) (omega arith) refl
      quad-core_count

all_free-IsValid : IsValid all_free
all_free-IsValid =
    let (n, e, valid, _) =
      initialize_with-IsValid quad all_free quad-IsNumbered (omega arith) (omega arith) refl
        quad-core_count in
    subst IsValid (ap (λ r. r.0) (sym e ∙ initialize_quad)) valid

one_taken-IsValid : IsValid one_taken
one_taken-IsValid =
    let (lp, n, e, _, valid, _, _, _, _, _) =
      allocate_thread-Handed first all_free all_free-IsValid (omega arith) in
    subst IsValid (ap (λ r. r.1) (ok_injective (sym e ∙ allocate_one))) valid

core_taken-IsValid : IsValid core_taken
core_taken-IsValid =
    let (k, c, lps, n, core, e, ids, all, _, _, _, valid, _) =
      allocate_processor-Handed first [] all_free all_free-IsValid (omega arith) in
    subst IsValid (ap (λ r. r.2) (ok_injective (sym e ∙ allocate_core))) valid

core_taken-core :
    lookup (core_of 0 0) core_taken.core_to_threads
    ≡ some (record { thread_count = 2; threads = 0 ∷ 1 ∷ [] })
unfolding unique_core_id ℕ_discrete
core_taken-core = refl

core_taken-free : lookup (core_of 0 0) core_taken.free_cores ≡ none
unfolding unique_core_id ℕ_discrete
core_taken-free = refl

core_taken-partial : lookup (core_of 0 0) core_taken.partially_free ≡ none
core_taken-partial = refl

one_taken-partial : lookup (core_of 0 0) one_taken.partially_free ≡ some (0 ∷ [])
unfolding unique_core_id ℕ_discrete
one_taken-partial = refl

allocate_thread-Handed_example : Once one_taken (allocate_thread first one_taken)
allocate_thread-Handed_example =
    allocate_thread-Handed first one_taken one_taken-IsValid (omega arith)

free_thread_lem_example :
    (n : Manager) × (free_thread (thread 1 0) one_taken ≡ ok n)
    × IsValid n
    × (available 1 n ≡ 1)
    × ((j : ℕ) → 1 ≢ j → available j n ≡ available j one_taken)
    × (available 1 one_taken ≡ 1 → n ≡ one_taken)
free_thread_lem_example = free_thread_lem (thread 1 0) one_taken one_taken-IsValid refl

allocate_processor-Handed_example :
    (k : ℕ) × (c : CoreThreads) × (lps : List LogicalProcessor) × (n : Manager) × (lookup k
        one_taken.core_to_threads
      ≡ some c)
    × (allocate_processor first [] one_taken ≡ ok (true, [] ++ lps, n))
    × (map (λ lp. lp.global_id) lps ≡ c.threads)
    × All
        (λ lp. (get_elem? one_taken.config.proc lp.global_id ≡ some lp) × (unique_core_id lp ≡ k))
        lps
    × (n.config ≡ one_taken.config)
    × (suc n.free_core_count ≡ one_taken.free_core_count)
    × (n.free_thread_count + length c.threads ≡ one_taken.free_thread_count)
    × IsValid n
    × ((j : ℕ) → available j one_taken ≡ available j n + count j c.threads)
allocate_processor-Handed_example =
    allocate_processor-Handed first [] one_taken one_taken-IsValid (omega arith)

free_processor-returns_example :
    IsValid (free_processor 0 0 core_taken)
    × ((j : ℕ)
        → available j (free_processor 0 0 core_taken)
          ≡ available j core_taken + count j (0 ∷ 1 ∷ []))
free_processor-returns_example =
    free_processor-returns 0 0 (record { thread_count = 2; threads = 0 ∷ 1 ∷ [] }) core_taken
      core_taken-IsValid core_taken-core core_taken-free core_taken-partial

free_processor-overcounts_example :
    (free_processor 0 0 one_taken).free_thread_count
    ≡ (weigh length (free_processor 0 0 one_taken).free_cores
        + weigh length (free_processor 0 0 one_taken).partially_free
        + 1)
      % 2 ^ 32
free_processor-overcounts_example =
    free_processor-overcounts 0 0 (record { thread_count = 2; threads = 0 ∷ 1 ∷ [] }) (0 ∷ [])
      one_taken one_taken-IsValid core_taken-core one_taken-partial

initialize-fails_example :
    (n : Manager) × (initialize (quad, true) (destroy_manager one_taken) ≡ (n, false))
    × (n.config ≡ quad)
    × (allocate_thread first n ≡ ok (no_processor, n))
initialize-fails_example = initialize-fails first quad one_taken (omega arith)

allocate_threads-Distinct_example :
    (lps : List LogicalProcessor) × (m' : Manager) × (allocate_threads first 3 one_taken
      ≡ ok (lps, m'))
    × (length lps ≡ 3)
    × ((j : ℕ) → count j (map (λ lp. lp.global_id) lps) ≤ 1)
    × IsValid m'
    × (allocate_thread first m' ≡ ok (no_processor, m'))
allocate_threads-Distinct_example = allocate_threads-Distinct first one_taken one_taken-IsValid

allocate_free-available_example :
    (lp : LogicalProcessor) × (n n' : Manager) × (allocate_thread first one_taken ≡ ok (lp, n))
    × (free_thread lp n ≡ ok n')
    × IsValid n'
    × ((j : ℕ) → available j n' ≡ available j one_taken)
allocate_free-available_example =
    allocate_free-available first one_taken one_taken-IsValid (omega arith)
