-- ===== src/Manager/Start/Fresh.antt =====
-- `initialize(existingConfig)` of proc.cpp establishes the invariant.
use native.Mathlib.Decide.{ℕ_discrete}
use tailslayer_win.Common.{
  ℕ, zero, suc, ◌+◌, ◌^◌, ◌<◌, ◌≡◌, inl, inr, refl, sym, ap, ◌∙◌, arith, true, List, [], ◌∷◌, some,
  subst, length, get_elem?, Option-cases, weigh, length-eq_weigh, weigh-entry, count,
}
use tailslayer_win.Processors.{
  LogicalProcessor, Configuration, unique_core_id, logical_core_count, physical_core_count, destroy,
}
use tailslayer_win.Manager.{
  Manager, CoreThreads, threads_of, assign_threads, count_threads, initialize_with, destroy_manager,
}
use tailslayer_win.Manager.Valid.{
  IsValid, CoresOk, CoreMap, lookup, available, IsThread, threads_of-eq, threads_of-none,
}
use tailslayer_win.Manager.Exclusive.{available-le-one}
use tailslayer_win.Manager.Handover.{is_empty-nonempty}
use tailslayer_win.Manager.Start.{
  assign_threads-threads, assign_threads-Distinct, assign_threads-Inhabited, assign_threads-weigh,
}
use tailslayer_win.Manager.Start.Copies.{
  counted, count_threads-inv, count_threads-some, count_threads-Distinct, count_threads-weigh,
  copies, add_free_cores_lem, copies-inv, copies-Distinct, copies-weigh,
}
use tailslayer_win.Manager.Start.Counts.{core_count, assign_threads-length_start}
use tailslayer_win.Manager.Start.Numbering.{
  threads_at, threads_at-once, threads_at_sound, threads_at_complete,
}

-- Each processor's identity is its place in the list.
abbrev pub IsNumbered : List LogicalProcessor → Type 0
IsNumbered proc = (i : ℕ) (lp : LogicalProcessor) → get_elem? proc i ≡ some lp → lp.global_id ≡ i

get_elem?-some :
    (proc : List LogicalProcessor) (i : ℕ)
    → i < length proc
    → (lp : LogicalProcessor) × (get_elem? proc i ≡ some lp)
get_elem?-some [] i lt = elim lt [ ]
get_elem?-some (lp ∷ proc) zero lt = (lp, refl)
get_elem?-some (lp ∷ proc) (suc i) lt = get_elem?-some proc i (omega arith)

module _ (proc : List LogicalProcessor) (numbered : IsNumbered proc)
    (few : length proc < 2 ^ 32) where
  found : CoreMap
  found = assign_threads proc 0 []

  cores : CoreMap
  cores = count_threads found

  threads-eq : (k : ℕ) → (threads_of k found).threads ≡ threads_at k 0 proc
  unfolding found
  threads-eq k = assign_threads-threads proc 0 [] k

  -- What an entry of the map of all cores is.
  cores-inv :
      (k : ℕ) (c : CoreThreads)
      → lookup k cores ≡ some c
      → (counted c ≡ c) × (c.threads ≡ threads_at k 0 proc) × (0 < length c.threads)
  unfolding cores found
  cores-inv k c e =
      let (b, there, same) = count_threads-inv found k c e in
      let threads = ap (λ c. c.threads) (sym (threads_of-eq k b found there)) ∙ threads-eq k in
      let pos = assign_threads-Inhabited proc 0 [] (λ j d e. absurd (cc)) k b there in
      (
        subst (λ c. counted c ≡ c) same refl,
        ap (λ c. c.threads) (sym same) ∙ threads,
        rw (← same) pos,
      )

  cores_complete :
      (k i : ℕ)
      → IsThread proc k i
      → (c : CoreThreads) × (lookup k cores ≡ some c) × (0 < count i c.threads)
  unfolding cores
  cores_complete k i (lp, at, same, of_core) =
      let first : 0 + i ≡ i = omega arith in
      let pos =
        subst (λ n. 0 < count n (threads_at k 0 proc)) first
          (threads_at_complete k 0 i proc lp at of_core) in
      elim (Option-cases (lookup k found)) [
        | inl absent ↦ absurd (
            omega (
              arith,
              ap (count i)
                  (sym (threads-eq k) ∙ ap (λ c. c.threads) (threads_of-none k found absent)),
            ))
        | inr (b, there) ↦
            let threads =
              ap (λ c. c.threads) (sym (threads_of-eq k b found there)) ∙ threads-eq k in
            (counted b, count_threads-some found k b there, rw threads pos)
      ]

  cores-indexed :
      (k : ℕ) (c : CoreThreads) (i : ℕ)
      → lookup k cores ≡ some c
      → 0 < count i c.threads
      → IsThread proc k i
  cores-indexed k c i e pos =
      let (d, lp, eq, at, of_core) =
        threads_at_sound k 0 i proc (subst (λ ts. 0 < count i ts) (cores-inv k c e).1 pos) in
      let here : d ≡ i = omega arith in
      (lp, ap (get_elem? proc) (sym here) ∙ at, numbered d lp at ∙ here, of_core)

  cores-small : weigh (λ c. length c.threads) cores < 2 ^ 32
  unfolding cores found
  cores-small = omega (
    arith,
    few,
    count_threads-weigh (λ c. length c.threads) found (λ b. refl),
    assign_threads-weigh proc 0 [],
  )

  -- No count is cut to 32 bits.
  cores-counted :
      (k : ℕ) (c : CoreThreads) → lookup k cores ≡ some c → c.thread_count ≡ length c.threads
  cores-counted k c e = omega (
    arith,
    ap (λ c. c.thread_count) (cores-inv k c e).0,
    weigh-entry ℕ_discrete (λ c. length c.threads) k c cores e,
    cores-small,
  )

  cores-CoresOk : CoresOk proc cores
  unfolding cores found
  cores-CoresOk = record {
    distinct = count_threads-Distinct found (assign_threads-Distinct proc 0 [] tt);
    counted = cores-counted;
    inhabited = λ k c e. (cores-inv k c e).2;
    once = λ k c i e. rw (cores-inv k c e).1 (threads_at-once k 0 i proc);
    indexed = cores-indexed;
    complete = cores_complete;
    bounded = cores-small;
  }

  -- Thread `i` is in one list of the map.
  cores-weigh : (i : ℕ) → i < length proc → 0 < weigh (λ c. count i c.threads) cores
  cores-weigh i lt =
      let (lp, at) = get_elem?-some proc i lt in
      let (c, there, pos) = cores_complete (unique_core_id lp) i (lp, at, numbered i lp at, refl) in
      omega
        (arith, weigh-entry ℕ_discrete (λ c. count i c.threads) (unique_core_id lp) c cores there)

module _ (existing : Configuration) (numbered : IsNumbered existing.proc)
    (few : length existing.proc < 2 ^ 32) (pos : 0 < length existing.proc)
    (threads : existing.thread_count ≡ length existing.proc)
    (counted : existing.physical_core_count ≡ core_count [] existing.proc) where
  all_cores : CoreMap
  all_cores = cores existing.proc numbered few

  -- Every core is free.
  started : Manager
  started = record {
    config = existing;
    core_to_threads = all_cores;
    partially_free = [];
    free_cores = copies all_cores;
    free_thread_count = existing.thread_count;
    free_core_count = existing.physical_core_count;
  }

  started-IsValid : IsValid started
  unfolding started all_cores cores found
  started-IsValid = record {
    cores = ok_cores;
    free = record {
      distinct = copies-Distinct all_cores ok_cores.distinct;
      entries = copies-inv all_cores;
    };
    partial = record { distinct = tt; entries = λ k ts e. absurd (cc) };
    apart = λ k ts e. absurd (cc);
    threads_counted = omega (
      arith,
      threads,
      copies-weigh length all_cores,
      count_threads-weigh (λ c. length c.threads) (found existing.proc numbered few) (λ b. refl),
      assign_threads-weigh existing.proc 0 [],
    );
    cores_counted = omega (
      arith,
      counted,
      length-eq_weigh (copies all_cores),
      copies-weigh (λ _. 1) all_cores,
      count_threads-weigh (λ _. 1) (found existing.proc numbered few) (λ b. refl),
      length-eq_weigh (assign_threads existing.proc 0 []),
      assign_threads-length_start existing.proc,
    );
  }
    where
      ok_cores : CoresOk existing.proc all_cores
      ok_cores = cores-CoresOk existing.proc numbered few

  started-available : (i : ℕ) → i < length existing.proc → available i started ≡ 1
  unfolding started all_cores
  started-available i lt = omega (
    arith,
    available-le-one started-IsValid i,
    copies-weigh (count i) all_cores,
    cores-weigh existing.proc numbered few i lt,
  )

  initialize_with-eq_started :
      (m : Manager) → initialize_with existing (destroy_manager m) ≡ (started, true)
  unfolding initialize_with destroy_manager destroy logical_core_count physical_core_count started
      all_cores cores found
  initialize_with-eq_started m =
      rw
        (
          is_empty-nonempty existing.proc pos,
          add_free_cores_lem (count_threads (assign_threads existing.proc 0 []))
              (cores-CoresOk existing.proc numbered few).distinct,
        )
        refl

-- On a manager that was destroyed, `initialize` with a description of the machine succeeds and
-- leaves a valid manager with every thread on offer once. The description has a processor at least,
-- fewer than 2^32, each with its place as its identity, and counts them and their cores rightly.
pub initialize_with-IsValid :
    (existing : Configuration) (m : Manager)
    → IsNumbered existing.proc
    → 0 < length existing.proc
    → length existing.proc < 2 ^ 32
    → existing.thread_count ≡ length existing.proc
    → existing.physical_core_count ≡ core_count [] existing.proc
    → (n : Manager) × (initialize_with existing (destroy_manager m) ≡ (n, true))
      × IsValid n
      × ((i : ℕ) → i < length existing.proc → available i n ≡ 1)
initialize_with-IsValid existing m numbered pos few threads counted = (
  started existing numbered few pos threads counted,
  initialize_with-eq_started existing numbered few pos threads counted m,
  started-IsValid existing numbered few pos threads counted,
  started-available existing numbered few pos threads counted,
)
