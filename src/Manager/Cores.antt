-- ===== src/Manager/Cores.antt =====
-- What `allocateProcessor` and `freeProcessor` of proc.cpp promise.
use native.Mathlib.Decide.{ℕ_discrete}
use tailslayer_win.Common.{
  ℕ, suc, get_elem?, ◌+◌, ◌%◌, ◌^◌, ◌<◌, ◌≡◌, refl, sym, ap, ◌∙◌, arith, List, ◌++◌, map, none,
  some, true, length, begin-find?, weigh, count, ok, All, max32,
}
use tailslayer_win.Processors.{LogicalProcessor, unique_core_id}
use tailslayer_win.Manager.{Manager, CoreThreads, ThreadMap}
use tailslayer_win.Manager.Allocate.{allocate_processor}
use tailslayer_win.Manager.Release.{free_processor}
use tailslayer_win.Manager.Valid.{IsValid, lookup, available}
use tailslayer_win.Manager.Whole.{
  without, without-IsValid, without-available, allocate_processor-eq, given_back-IsValid,
  given_back-available, given_back-count, free_processor-eq,
}

-- The processor record `freeProcessor` makes to find the core.
abbrev pub core_of : ℕ → ℕ → ℕ
core_of core_id package_id = unique_core_id (record {
  global_id = max32;
  core_id = core_id;
  pkg_id = package_id;
  usable = 1;
  affinity_mask = record { group = 0; mask = 0 };
})

module _ (order : ThreadMap → ℕ) {m : Manager} (v : IsValid m) where
  some_core : 0 < m.free_core_count → 0 < length m.free_cores
  some_core pos = omega (arith, v.cores_counted)

-- A valid manager with a free core appends the processors of all threads of one core to `out`, in
-- the core's order, each as the description of the machine has it, and takes exactly these threads off
-- the offer. The counters of free cores and of free threads drop by one and by their number, the
-- description of the machine stays, and so does validity.
pub allocate_processor-Handed :
    (order : ThreadMap → ℕ) (out : List LogicalProcessor) (m : Manager)
    → IsValid m
    → 0 < m.free_core_count
    → (k : ℕ) × (c : CoreThreads) × (lps : List LogicalProcessor) × (n : Manager) × (lookup k
          m.core_to_threads
        ≡ some c)
      × (allocate_processor order out m ≡ ok (true, out ++ lps, n))
      × (map (λ lp. lp.global_id) lps ≡ c.threads)
      × All (λ lp. (get_elem? m.config.proc lp.global_id ≡ some lp) × (unique_core_id lp ≡ k)) lps
      × (n.config ≡ m.config)
      × (suc n.free_core_count ≡ m.free_core_count)
      × (n.free_thread_count + length c.threads ≡ m.free_thread_count)
      × IsValid n
      × ((j : ℕ) → available j m ≡ available j n + count j c.threads)
allocate_processor-Handed order out m v pos =
    let (k, ts, first, found) =
      begin-find? ℕ_discrete order m.free_cores v.free.distinct (some_core order v pos) in
    let (c, core, same) = v.free.entries k ts found in
    let found' = found ∙ ap some (sym same) in
    let (lps, e, ids, all, config, cores, threads) =
      allocate_processor-eq v k c core found' order out
        (first ∙ ap (λ t. some (k, t)) (sym same)) in
    (
      k,
      c,
      lps,
      without v k c core found',
      core,
      e,
      ids,
      all,
      config,
      cores,
      threads,
      without-IsValid v k c core found',
      without-available v k c core found',
    )

-- Freeing a core of which no thread is on offer puts all its threads on offer, each as often as the
-- core has it, and the manager stays valid.
pub free_processor-returns :
    (core_id package_id : ℕ) (c : CoreThreads) (m : Manager)
    → IsValid m
    → lookup (core_of core_id package_id) m.core_to_threads ≡ some c
    → lookup (core_of core_id package_id) m.free_cores ≡ none
    → lookup (core_of core_id package_id) m.partially_free ≡ none
    → IsValid (free_processor core_id package_id m)
      × ((j : ℕ)
          → available j (free_processor core_id package_id m) ≡ available j m + count j c.threads)
free_processor-returns core_id package_id c m v core free partial =
    let k = core_of core_id package_id in
    rw (free_processor-eq v k c core free core_id package_id refl)
      (given_back-IsValid v k c core free partial, given_back-available v k c core free partial)

-- Freeing a core of which some threads are on offer counts those threads twice: the counter of free
-- threads then exceeds the number of threads on offer by their number, in 32 bits.
pub free_processor-overcounts :
    (core_id package_id : ℕ) (c : CoreThreads) (ts : List ℕ) (m : Manager)
    → IsValid m
    → lookup (core_of core_id package_id) m.core_to_threads ≡ some c
    → lookup (core_of core_id package_id) m.partially_free ≡ some ts
    → (free_processor core_id package_id m).free_thread_count
      ≡ (weigh length (free_processor core_id package_id m).free_cores
          + weigh length (free_processor core_id package_id m).partially_free
          + length ts)
        % 2 ^ 32
free_processor-overcounts core_id package_id c ts m v core partial =
    let k = core_of core_id package_id in
    let free = v.apart k ts partial in
    rw (free_processor-eq v k c core free core_id package_id refl)
      (given_back-count v k c core free ts partial)
