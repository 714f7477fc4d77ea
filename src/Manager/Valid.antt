-- ===== src/Manager/Valid.antt =====
-- The invariant of `DynamicThreadManager`: which threads the two maps of free threads hold, against
-- the map of all cores, and the two counters.
use native.Mathlib.Decide.{ℕ_discrete}
use tailslayer_win.Common.{
  ℕ, ◌+◌, ◌^◌, ◌≤◌, ◌<◌, ◌≡◌, arith, List, [], Option, none, some, length, get_elem?, find?, assign,
  erase, Distinct, find?-assign, find?-erase, find?-assign_inv, find?-erase_inv, inl, inr,
  Distinct-assign, Distinct-erase, weigh, count, Covered, weigh-le, weigh-le_of_apart,
  length-eq_weigh, length-le_of_counts, Option-cases, assign-same,
}
use tailslayer_win.Processors.{LogicalProcessor, unique_core_id}
use tailslayer_win.Manager.{Manager, CoreThreads, ThreadMap, list_of, threads_of, touch}

abbrev pub CoreMap : Type 0
CoreMap = List (ℕ × CoreThreads)

abbrev pub lookup : {V : Type 0} → ℕ → List (ℕ × V) → Option V
lookup k m = find? ℕ_discrete k m

-- Thread `i` of the core with identity `k` is the processor at `i`.
abbrev pub IsThread : List LogicalProcessor → ℕ → ℕ → Type 0
IsThread proc k i =
    (lp : LogicalProcessor) × (get_elem? proc i ≡ some lp)
    × (lp.global_id ≡ i)
    × (unique_core_id lp ≡ k)

-- The map of all cores is sound for the processors.
pub record CoresOk (proc : List LogicalProcessor) (cores : CoreMap) : Type 0 where
  pub distinct : Distinct ℕ_discrete cores
  pub counted :
      (k : ℕ) (c : CoreThreads) → lookup k cores ≡ some c → c.thread_count ≡ length c.threads
  pub inhabited : (k : ℕ) (c : CoreThreads) → lookup k cores ≡ some c → 0 < length c.threads
  pub once : (k : ℕ) (c : CoreThreads) (i : ℕ) → lookup k cores ≡ some c → count i c.threads ≤ 1
  pub indexed :
      (k : ℕ) (c : CoreThreads) (i : ℕ)
      → lookup k cores ≡ some c
      → 0 < count i c.threads
      → IsThread proc k i
  pub complete :
      (k i : ℕ)
      → IsThread proc k i
      → (c : CoreThreads) × (lookup k cores ≡ some c) × (0 < count i c.threads)
  pub bounded : weigh (λ c. length c.threads) cores < 2 ^ 32

-- A free core has all of its threads.
abbrev pub FreeEntry : CoreMap → ℕ → List ℕ → Type 0
FreeEntry cores k ts = (c : CoreThreads) × (lookup k cores ≡ some c) × (c.threads ≡ ts)

-- A partially free core has one of its threads at least, each at most as often as the core.
abbrev pub PartialEntry : CoreMap → ℕ → List ℕ → Type 0
PartialEntry cores k ts =
    (c : CoreThreads) × (lookup k cores ≡ some c)
    × (0 < length ts)
    × ((i : ℕ) → count i ts ≤ count i c.threads)

pub record MapOk (Entry : ℕ → List ℕ → Type 0) (m : ThreadMap) : Type 0 where
  pub distinct : Distinct ℕ_discrete m
  pub entries : (k : ℕ) (ts : List ℕ) → lookup k m ≡ some ts → Entry k ts

abbrev pub Apart : ThreadMap → ThreadMap → Type 0
Apart m n = (k : ℕ) (ts : List ℕ) → lookup k m ≡ some ts → lookup k n ≡ none

pub record IsValid (m : Manager) : Type 0 where
  pub cores : CoresOk m.config.proc m.core_to_threads
  pub free : MapOk (FreeEntry m.core_to_threads) m.free_cores
  pub partial : MapOk (PartialEntry m.core_to_threads) m.partially_free
  pub apart : Apart m.partially_free m.free_cores
  pub threads_counted :
      m.free_thread_count ≡ weigh length m.free_cores + weigh length m.partially_free
  pub cores_counted : m.free_core_count ≡ length m.free_cores

-- How often thread `i` is on offer.
abbrev pub available : ℕ → Manager → ℕ
available i m = weigh (count i) m.free_cores + weigh (count i) m.partially_free

module _ {Entry : ℕ → List ℕ → Type 0} {m : ThreadMap} (h : MapOk Entry m) (k : ℕ) where
  pub MapOk-erase : MapOk Entry (erase ℕ_discrete k m)
  MapOk-erase = record {
    distinct = Distinct-erase ℕ_discrete k m h.distinct;
    entries = λ j ts e. h.entries j ts (find?-erase_inv ℕ_discrete k j ts m e).1;
  }

  pub MapOk-assign : (ts : List ℕ) → Entry k ts → MapOk Entry (assign ℕ_discrete k ts m)
  MapOk-assign ts entry = record {
    distinct = Distinct-assign ℕ_discrete k ts m h.distinct;
    entries = λ j us e. elim (find?-assign_inv ℕ_discrete k j ts us m e) [
      | inl (same_key, same) ↦ rw (← same_key, ← same) entry
      | inr (_, old) ↦ h.entries j us old
    ];
  }

module _ (m n : ThreadMap) (h : Apart m n) (k : ℕ) where
  pub Apart-erase_left : Apart (erase ℕ_discrete k m) n
  Apart-erase_left j ts e = h j ts (find?-erase_inv ℕ_discrete k j ts m e).1

  pub Apart-erase_right : Apart m (erase ℕ_discrete k n)
  Apart-erase_right j ts e = ground (arith, find?-erase ℕ_discrete k j n, h j ts e)

  pub Apart-assign_left : (ts : List ℕ) → lookup k n ≡ none → Apart (assign ℕ_discrete k ts m) n
  Apart-assign_left ts absent j us e = elim (find?-assign_inv ℕ_discrete k j ts us m e) [
    | inl (same_key, _) ↦ rw (← same_key) absent
    | inr (_, old) ↦ h j us old
  ]

  pub Apart-assign_right : (ts : List ℕ) → lookup k m ≡ none → Apart m (assign ℕ_discrete k ts n)
  Apart-assign_right ts absent j us e = ground (arith, find?-assign ℕ_discrete k j ts n, h j us e)

pub Apart-none :
    (m n : ThreadMap) (k : ℕ) (ts : List ℕ) → Apart m n → lookup k n ≡ some ts → lookup k m ≡ none
Apart-none m n k ts h e = elim (Option-cases (lookup k m)) [
  | inl absent ↦ absent
  | inr (us, there) ↦ absurd (ground (arith, h k us there))
]

module _ {m : Manager} (v : IsValid m) where
  free-Covered : Covered ℕ_discrete length (λ c. length c.threads) m.free_cores m.core_to_threads
  free-Covered k ts e =
      let (c, found, same) = v.free.entries k ts e in (c, found, rw same (omega arith))

  partial-Covered :
      Covered ℕ_discrete length (λ c. length c.threads) m.partially_free m.core_to_threads
  partial-Covered k ts e =
      let (c, found, _, counts) = v.partial.entries k ts e in
      (c, found, length-le_of_counts ts c.threads counts)

  -- The counter of free threads does not wrap.
  pub threads-bounded : m.free_thread_count ≤ weigh (λ c. length c.threads) m.core_to_threads
  threads-bounded = rw v.threads_counted (
      weigh-le_of_apart ℕ_discrete length (λ c. length c.threads) m.free_cores m.partially_free
        m.core_to_threads v.free.distinct v.partial.distinct v.cores.distinct v.apart free-Covered
        partial-Covered)

  free_core-Covered :
      Covered ℕ_discrete (λ _. 1) (λ c. length c.threads) m.free_cores m.core_to_threads
  free_core-Covered k ts e =
      let (c, found, _) = v.free.entries k ts e in (c, found, v.cores.inhabited k c found)

  -- Nor does the counter of free cores.
  pub cores-bounded : m.free_core_count ≤ weigh (λ c. length c.threads) m.core_to_threads
  cores-bounded = omega (
    arith,
    v.cores_counted,
    length-eq_weigh m.free_cores,
    weigh-le ℕ_discrete (λ _. 1) (λ c. length c.threads) m.free_cores m.core_to_threads
        v.free.distinct v.cores.distinct free_core-Covered,
  )

pub list_of-eq : (k : ℕ) (ts : List ℕ) (m : ThreadMap) → lookup k m ≡ some ts → list_of k m ≡ ts
list_of-eq k ts m e = ground arith

pub list_of-none : (k : ℕ) (m : ThreadMap) → lookup k m ≡ none → list_of k m ≡ []
list_of-none k m e = ground arith

pub threads_of-eq :
    (k : ℕ) (c : CoreThreads) (m : CoreMap) → lookup k m ≡ some c → threads_of k m ≡ c
threads_of-eq k c m e = ground arith

pub threads_of-none :
    (k : ℕ) (m : CoreMap)
    → lookup k m ≡ none
    → threads_of k m ≡ record { thread_count = 0; threads = [] }
threads_of-none k m e = ground arith

pub touch-eq : (k : ℕ) (c : CoreThreads) (m : CoreMap) → lookup k m ≡ some c → touch k m ≡ m
touch-eq k c m e = rw (threads_of-eq k c m e) (assign-same ℕ_discrete k c m e)

pub lookup-erase_self :
    {V : Type 0} (k : ℕ) (m : List (ℕ × V)) → lookup k (erase ℕ_discrete k m) ≡ none
lookup-erase_self k m = ground (arith, find?-erase ℕ_discrete k k m)

pub lookup-assign_self :
    {V : Type 0} (k : ℕ) (v : V) (m : List (ℕ × V)) → lookup k (assign ℕ_discrete k v m) ≡ some v
lookup-assign_self k v m = ground (arith, find?-assign ℕ_discrete k k v m)
