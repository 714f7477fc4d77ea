-- ===== src/Manager.antt =====
-- `DynamicThreadManager` of proc.hpp and proc.cpp. `order` stands for the iteration order of a map,
-- which the language leaves open; the machine's configuration, which `initialize` asks the operating
-- system for, is an argument.
pub mod Allocate
pub mod Release
pub mod Valid
pub mod Exclusive
pub mod Threads
pub mod Handover
pub mod Search
pub mod Grown
pub mod Return
pub mod Whole
pub mod Cores
pub mod Start
pub mod Sequence
pub mod Failure
mod Tests
use native.Mathlib.Decide.{ℕ_discrete}
use tailslayer_win.Common.{
  ℕ, zero, suc, ◌+◌, ◌-◌, ◌*◌, ◌%◌, ◌^◌, ◌≤◌, ◌<◌, ◌≡◌, refl, arith, Bool, true, false, not, ◌&&◌,
  ◌||◌, if◌then◌else◌, ltb, ◌==◌, List, [], ◌∷◌, ◌++◌, Option, none, some, length, get_elem?,
  get_last?, drop_last, max32, find?, assign, erase, begin, Outcome, ok, access, requires, ◌>>=◌,
  ◌>>◌,
}
use tailslayer_win.Processors.{
  LogicalProcessor, Configuration, AffinityMask, unique_core_id, no_processor, is_empty, destroy,
  logical_core_count, physical_core_count,
}

-- `InternalPair`.
pub record CoreThreads : Type 0 where
  pub thread_count : ℕ
  pub threads : List ℕ

abbrev pub ThreadMap : Type 0
ThreadMap = List (ℕ × List ℕ)

pub record Manager : Type 0 where
  pub config : Configuration
  pub core_to_threads : List (ℕ × CoreThreads)
  pub partially_free : ThreadMap
  pub free_cores : ThreadMap
  pub free_thread_count : ℕ
  pub free_core_count : ℕ

-- `uint32_t` steps.
abbrev pub add32 : ℕ → ℕ → ℕ
add32 a b = (a + b) % 2 ^ 32

abbrev pub decrement32 : ℕ → ℕ
decrement32 a = (a + 2 ^ 32 - 1) % 2 ^ 32

-- `m.find(k) != m.end()`.
abbrev pub is_some : {A : Type 0} → Option A → Bool
is_some none = false
is_some (some a) = true

-- `m[k]` on the right of an assignment: a missing key gets a value-initialised entry.
abbrev pub threads_of : ℕ → List (ℕ × CoreThreads) → CoreThreads
threads_of k m = elim (find? ℕ_discrete k m) [
  | none ↦ record { thread_count = 0; threads = [] }
  | some c ↦ c
]

abbrev pub list_of : ℕ → ThreadMap → List ℕ
list_of k m = elim (find? ℕ_discrete k m) [ none ↦ [] | some ts ↦ ts ]

-- `m_coreToThreadMapIdx[k]` as an expression: it leaves an entry behind.
abbrev pub touch : ℕ → List (ℕ × CoreThreads) → List (ℕ × CoreThreads)
touch k m = assign ℕ_discrete k (threads_of k m) m

-- The first loop of `initialize`: thread `i` joins the list of its core.
unfoldable pub assign_threads :
    List LogicalProcessor → ℕ → List (ℕ × CoreThreads) → List (ℕ × CoreThreads)
assign_threads [] i cores = cores
assign_threads (lp ∷ lps) i cores =
    let key = unique_core_id lp in
    let old = threads_of key cores in
    assign_threads lps (suc i)
      (assign ℕ_discrete key (record old { threads = old.threads ++ i ∷ [] }) cores)

-- The second loop: the counts, and a copy of each list as a free core.
unfoldable pub count_threads : List (ℕ × CoreThreads) → List (ℕ × CoreThreads)
count_threads [] = []
count_threads ((k, c) ∷ m) =
    (k, record c { thread_count = length c.threads % 2 ^ 32 }) ∷ count_threads m

unfoldable pub add_free_cores : List (ℕ × CoreThreads) → ThreadMap → ThreadMap
add_free_cores [] free = free
add_free_cores ((k, c) ∷ m) free = add_free_cores m (assign ℕ_discrete k c.threads free)

-- `initialize(existingConfig)`.
unfoldable pub initialize_with : Configuration → Manager → Manager × Bool
unfolding assign_threads count_threads add_free_cores logical_core_count physical_core_count
initialize_with existing m =
    if not (is_empty m.config.proc)
    then (m, false)
    else (let cores = count_threads (assign_threads existing.proc 0 m.core_to_threads) in
        (
          record m {
            config = existing;
            core_to_threads = cores;
            free_cores = add_free_cores cores m.free_cores;
            free_thread_count = logical_core_count existing;
            free_core_count = physical_core_count existing;
          },
          true,
        ))

-- `initialize()`. `detected` is what `m_map.initialize()` leaves, and whether it succeeds.
unfoldable pub initialize : Configuration × Bool → Manager → Manager × Bool
unfolding initialize_with
initialize (detected, good) m =
    if not (is_empty m.config.proc)
    then (m, false)
    else (if not good
        then (record m { config = detected }, false)
        else initialize_with detected (record m { config = detected }))

unfoldable pub destroy_manager : Manager → Manager
unfolding destroy
destroy_manager m = record {
  config = destroy m.config;
  core_to_threads = [];
  partially_free = [];
  free_cores = [];
  free_thread_count = 0;
  free_core_count = 0;
}
